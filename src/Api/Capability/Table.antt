-- ===== src/Api/Capability/Table.antt =====
-- The table of devices and the heap: each open device is one that its object describes.
use Prim.Native.String.{String}
use libinput_rs.Common.{
  ℕ, suc, ◌<◌, ◌==◌, ◌≡◌, refl, true, false, some, List, [], ◌∷◌, ◌++◌, arith, All, All-append,
  All-map_of, if_both, beq_self, Bool-cases, inl, inr,
}
use libinput_rs.Evdev.{Device}
use libinput_rs.Floats.{Floats}
use libinput_rs.Ffi.{Ptr, LibinputEvent}
use libinput_rs.Ffi.Device.{LibinputDevice, new_device}
use libinput_rs.Backend.Tracked.{TrackedDevice, new_tracked}
use libinput_rs.Backend.World.{World, Pushed, contains_key, lookup}
use libinput_rs.Backend.Open.{announce, opens_as_pointer, allocate, track}
use libinput_rs.Backend.Drain.Follows.{Tracks}
use libinput_rs.Api.Capability.{allows, links, is_proper}

module _ {fl : Floats} where
  abbrev pub IsLinked : List (Ptr × LibinputDevice fl) → TrackedDevice fl → Type 0
  IsLinked heap td =
      (dev : LibinputDevice fl) × (lookup td.lib_device heap ≡ some dev) × (links dev td ≡ true)

  abbrev pub AllLinked : List (Ptr × LibinputDevice fl) → Tracks fl → Type 0
  AllLinked heap l = All (λ e. IsLinked heap e.1) l

  -- The event is of a kind that its device says it can send.
  abbrev pub IsAllowed : List (Ptr × LibinputDevice fl) → LibinputEvent fl → Type 0
  IsAllowed heap e =
      (dev : LibinputDevice fl) × (lookup e.device heap ≡ some dev)
      × (allows dev e.event_type ≡ true)

  abbrev pub Extends : List (Ptr × LibinputDevice fl) → List (Ptr × LibinputDevice fl) → Type 0
  Extends heap heap' =
      (q : Ptr) (dev : LibinputDevice fl) → lookup q heap ≡ some dev → lookup q heap' ≡ some dev

-- The next pointer is not in use, and each open device is what its object says.
pub record IsReady {fl : Floats} (w : World fl) : Type 0 where
  pub below : All (λ e. e.0 < w.next_ptr) w.heap
  pub linked : AllLinked w.heap w.tracked

-- A part of the drain: it keeps this and the objects, and pushes events of the right kinds.
pub record Sends {fl : Floats} (w : World fl) (r : Pushed fl) : Type 0 where
  pub ready : IsReady r.0
  pub extends : Extends w.heap r.0.heap
  pub allowed : All (IsAllowed r.0.heap) r.1

announce-links :
    (fl : Floats) (path : String) (seat ctx p : Ptr) (d : Device)
    → is_proper d ≡ true
    → links (announce {fl = fl} path seat ctx d) (new_tracked fl d path p) ≡ true
unfolding announce new_tracked new_device is_proper opens_as_pointer
announce-links fl path seat ctx p d proper = ground arith

module _ {fl : Floats} where
  pub Sends-refl : (w : World fl) → IsReady w → Sends w (w, [])
  Sends-refl w ready = record { ready = ready; extends = λ q dev h. h; allowed = tt }

  pub Sends-trans :
      (w v u : World fl) (out out' : List (LibinputEvent fl))
      → Sends w (v, out)
      → Sends v (u, out')
      → Sends w (u, out ++ out')
  Sends-trans w v u out out' f g = record {
    ready = g.ready;
    extends = λ q dev h. g.extends q dev (f.extends q dev h);
    allowed =
        All-append (IsAllowed u.heap) out out'
          (All-map_of (IsAllowed v.heap) (IsAllowed u.heap)
            (λ e (dev, found, ok). (dev, g.extends e.device dev found, ok)) out f.allowed)
          g.allowed;
  }

  -- Another table over the same heap.
  pub Sends-tracked :
      (w w' : World fl) (out : List (LibinputEvent fl))
      → (w'.next_ptr ≡ w.next_ptr)
      → (w'.heap ≡ w.heap)
      → AllLinked w'.heap w'.tracked
      → All (IsAllowed w'.heap) out
      → IsReady w
      → Sends w (w', out)
  Sends-tracked w w' out n h linked allowed ready = record {
    ready = record { below = rw (n, h) ready.below; linked = linked };
    extends = λ q dev found. cc (h, found);
    allowed = allowed;
  }

  lookup_below :
      (n q : Ptr) (dev : LibinputDevice fl) (heap : List (Ptr × LibinputDevice fl))
      → All (λ e. e.0 < n) heap
      → lookup q heap ≡ some dev
      → q < n
  unfolding lookup
  lookup_below n q dev [] b found = cc
  lookup_below n q dev ((i, d) ∷ heap) (lt, b) found = elim (Bool-cases (i == q)) [
    | inl e ↦ ground arith
    | inr e ↦ lookup_below n q dev heap b (ground arith)
  ]

  Extends-alloc :
      (p : Ptr) (d : LibinputDevice fl) (heap : List (Ptr × LibinputDevice fl))
      → All (λ e. e.0 < p) heap
      → Extends heap ((p, d) ∷ heap)
  unfolding lookup
  Extends-alloc p d heap b q dev found =
      let lt = lookup_below p q dev heap b found in
      let other : (p == q) ≡ false = ground arith in cc (other, found)

  allocate-Sends :
      (path : String) (ctx : Ptr) (d : Device) (w : World fl)
      → IsReady w
      → Sends w (allocate path ctx d w, [])
  unfolding allocate
  allocate-Sends path ctx d w ready =
      let more = Extends-alloc w.next_ptr (announce path w.seat ctx d) w.heap ready.below in
      record {
        ready = record {
          below = (
            omega arith,
            All-map_of (λ e. e.0 < w.next_ptr) (λ e. e.0 < suc w.next_ptr) (λ e lt. omega arith)
                w.heap ready.below,
          );
          linked =
              All-map_of (λ e. IsLinked w.heap e.1)
                (λ e. IsLinked ((w.next_ptr, announce path w.seat ctx d) ∷ w.heap) e.1)
                (λ e (dev, found, ok). (dev, more e.1.lib_device dev found, ok)) w.tracked
                ready.linked;
        };
        extends = more;
        allowed = tt;
      }

  pub track-Sends :
      (path : String) (ctx : Ptr) (fd : ℕ) (d : Device) (w : World fl)
      → is_proper d ≡ true
      → IsReady w
      → Sends w (track path ctx fd d w.next_ptr (allocate path ctx d w))
  unfolding track allocate lookup new_tracked
  track-Sends path ctx fd d w proper ready =
      let made = allocate-Sends path ctx d w ready in
      let w' = allocate path ctx d w in
      let dev : LibinputDevice fl = announce path w.seat ctx d in
      let found : lookup w.next_ptr w'.heap ≡ some dev = rw (beq_self w.next_ptr) refl in
      if_both (λ r. Sends w r) (contains_key fd w.tracked)
        (Sends-trans w w' _ [] [] made
          (Sends-tracked w' _ [] refl refl made.ready.linked tt made.ready))
        (Sends-trans w w' _ [] _ made (
          Sends-tracked w' _ _ refl refl
            ((dev, found, announce-links fl path w.seat ctx w.next_ptr d proper), made.ready.linked)
            ((dev, found, refl), tt) made.ready))
