-- ===== src/Api/Life/Memory.antt =====
-- The device objects of a context: which of them are on the heap, and how often each is referenced.
use libinput_rs.Common.{
  suc, ◌<◌, ◌==◌, ◌≡◌, refl, Bool, true, false, ◌||◌, List, [], ◌∷◌, ◌++◌, arith, All, All-map_of,
  All-append,
}
use libinput_rs.Floats.{Floats}
use libinput_rs.Ffi.{Ptr, LibinputEvent}
use libinput_rs.Backend.World.{World, Pushed, contains_key}
use libinput_rs.Backend.Drain.Follows.{IsLive}
use libinput_rs.Backend.Drain.Named.{IsNamed, Names}
use libinput_rs.Api.Objects.{Heap}
use libinput_rs.Api.Objects.Refs.{Held, Counted}
use libinput_rs.Api.Objects.Freed.{Different}

abbrev pub is_listed : Ptr → List Ptr → Bool
is_listed q [] = false
is_listed q (p ∷ ps) = p == q || is_listed q ps

-- The pointers of the list are neither null nor in front of this one.
abbrev pub AllBelow : Ptr → List Ptr → Type 0
AllBelow n ps = All (λ p. (0 < p) × (p < n)) ps

-- The heap holds the devices of the context's list and no others, each once, and each counts the
-- reference of the library and those that the client holds. Every open device has its object.
pub record Memory {fl : Floats} (held : Held) (w : World fl) : Type 0 where
  pub positive : 0 < w.next_ptr
  pub below : AllBelow w.next_ptr w.devices
  pub listed : (q : Ptr) → contains_key q w.heap ≡ is_listed q w.devices
  pub different : Different w.devices
  pub counted : Counted held w.heap
  pub owned : (q : Ptr) → 0 < held q → is_listed q w.devices ≡ true
  pub live : IsLive w.heap w.tracked

module _ {fl : Floats} where
  abbrev pub Keeps : Heap fl → Heap fl → Type 0
  Keeps heap heap' = (q : Ptr) → contains_key q heap ≡ true → contains_key q heap' ≡ true

  pub Names-Keeps :
      (heap heap' : Heap fl) (es : List (LibinputEvent fl))
      → Keeps heap heap'
      → Names heap es
      → Names heap' es
  Names-Keeps heap heap' es keeps named =
      All-map_of (IsNamed heap) (IsNamed heap') (λ e. keeps e.device) es named

-- What a part of the library does to the memory of a context: it frees nothing, and the events that
-- it pushes name devices that are there.
pub record Grows {fl : Floats} (held : Held) (w : World fl) (r : Pushed fl) : Type 0 where
  pub memory : Memory held r.0
  pub keeps : Keeps w.heap r.0.heap
  pub named : Names r.0.heap r.1

module _ {fl : Floats} where
  pub Grows-refl : (held : Held) (w : World fl) → Memory held w → Grows held w (w, [])
  Grows-refl held w m = record { memory = m; keeps = λ q h. h; named = tt }

  -- Another table of live devices, and events that name live devices.
  pub Grows-tracked :
      (held : Held) (w w' : World fl) (out : List (LibinputEvent fl))
      → (w'.next_ptr ≡ w.next_ptr)
      → (w'.devices ≡ w.devices)
      → (w'.heap ≡ w.heap)
      → IsLive w'.heap w'.tracked
      → Names w'.heap out
      → Memory held w
      → Grows held w (w', out)
  Grows-tracked held w w' out n ds h live named m = record {
    memory = record {
      positive = rw n m.positive;
      below = rw (n, ds) m.below;
      listed = λ q. rw (h, ds) (m.listed q);
      different = rw ds m.different;
      counted = rw h m.counted;
      owned = λ q o. rw ds (m.owned q o);
      live = live;
    };
    keeps = λ q e. cc;
    named = named;
  }

  pub Grows-trans :
      (held : Held) (w v u : World fl) (out out' : List (LibinputEvent fl))
      → Grows held w (v, out)
      → Grows held v (u, out')
      → Grows held w (u, out ++ out')
  Grows-trans held w v u out out' f g = record {
    memory = g.memory;
    keeps = λ q h. g.keeps q (f.keeps q h);
    named =
        All-append (IsNamed u.heap) out out' (Names-Keeps v.heap u.heap out g.keeps f.named)
          g.named;
  }

pub is_listed-append :
    (q p : Ptr) (ps : List Ptr) → is_listed q (ps ++ p ∷ []) ≡ (p == q || is_listed q ps)
is_listed-append q p [] = refl
is_listed-append q p (x ∷ ps) = ground (arith, is_listed-append q p ps)

pub AllBelow-suc : (n : Ptr) (ps : List Ptr) → AllBelow n ps → AllBelow (suc n) ps
AllBelow-suc n ps h =
    All-map_of (λ p. (0 < p) × (p < n)) (λ p. (0 < p) × (p < suc n)) (λ p (a, b). (a, omega arith))
      ps h

-- A pointer behind all those of the list is not among them.
pub is_listed-AllBelow : (n : Ptr) (ps : List Ptr) → AllBelow n ps → is_listed n ps ≡ false
is_listed-AllBelow n [] h = refl
is_listed-AllBelow n (p ∷ ps) ((_, lt), h) = let rest = is_listed-AllBelow n ps h in ground arith

pub Different-append :
    (n : Ptr) (ps : List Ptr) → AllBelow n ps → Different ps → Different (ps ++ n ∷ [])
Different-append n [] h d = (tt, tt)
Different-append n (p ∷ ps) ((_, lt), h) (d, ds) =
    let other : (n == p) ≡ false = ground arith in
    (All-append (λ q. (q == p) ≡ false) ps (n ∷ []) d (other, tt), Different-append n ps h ds)
