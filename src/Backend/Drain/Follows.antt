-- ===== src/Backend/Drain/Follows.antt =====
-- The map of devices before and after a pass over it that keeps the file descriptors and the device
-- pointers: the key repeats, and the reads of the devices.
use libinput_rs.Common.{ℕ, ◌+◌, ◌==◌, ◌≡◌, refl, true, List, [], ◌∷◌, arith, bool_to_nat, All}
use libinput_rs.Floats.{Floats}
use libinput_rs.Ffi.{Ptr}
use libinput_rs.Ffi.Device.{LibinputDevice}
use libinput_rs.Backend.Tracked.{TrackedDevice}
use libinput_rs.Backend.Keyboard.{repeat_device, emit_key_repeats}
use libinput_rs.Backend.World.{contains_key}
use libinput_rs.Backend.Drain.Keys.{Distinct}

abbrev pub Tracks : Floats → Type 0
Tracks fl = List (ℕ × TrackedDevice fl)

module _ {fl : Floats} where
  -- The same file descriptors in the same order, each with the same device pointer.
  abbrev pub Follows : Tracks fl → Tracks fl → Type 0
  Follows [] [] = Unit
  Follows ((fd, td) ∷ l) ((fd', td') ∷ l') =
      (fd' ≡ fd) × (td'.lib_device ≡ td.lib_device) × Follows l l'
  Follows _ _ = ⊥

  -- How many devices of the map stand behind the pointer.
  abbrev pub tally : Ptr → Tracks fl → ℕ
  tally p [] = 0
  tally p ((_, td) ∷ l) = bool_to_nat (td.lib_device == p) + tally p l

  -- Every device of the map has its object on the heap.
  abbrev pub IsLive : List (Ptr × LibinputDevice fl) → Tracks fl → Type 0
  IsLive heap l = All (λ e. contains_key e.1.lib_device heap ≡ true) l

  pub tally-Follows : (p : Ptr) (l l' : Tracks fl) → Follows l l' → tally p l' ≡ tally p l
  tally-Follows p [] [] f = refl
  tally-Follows p [] (e ∷ l') f = elim f [ ]
  tally-Follows p (e ∷ l) [] f = elim f [ ]
  tally-Follows p ((fd, td) ∷ l) ((fd', td') ∷ l') (_, same, f) = cc (same, tally-Follows p l l' f)

  pub contains_key-Follows :
      (k : ℕ) (l l' : Tracks fl) → Follows l l' → contains_key k l' ≡ contains_key k l
  unfolding contains_key
  contains_key-Follows k [] [] f = refl
  contains_key-Follows k [] (e ∷ l') f = elim f [ ]
  contains_key-Follows k (e ∷ l) [] f = elim f [ ]
  contains_key-Follows k ((fd, td) ∷ l) ((fd', td') ∷ l') (same, _, f) =
      cc (same, contains_key-Follows k l l' f)

  pub Distinct-Follows : (l l' : Tracks fl) → Follows l l' → Distinct l → Distinct l'
  Distinct-Follows [] [] f d = tt
  Distinct-Follows [] (e ∷ l') f d = elim f [ ]
  Distinct-Follows (e ∷ l) [] f d = elim f [ ]
  Distinct-Follows ((fd, td) ∷ l) ((fd', td') ∷ l') (same, _, f) (d, ds) =
      (cc (same, contains_key-Follows fd l l' f, d), Distinct-Follows l l' f ds)

  pub IsLive-Follows :
      (heap : List (Ptr × LibinputDevice fl)) (l l' : Tracks fl)
      → Follows l l'
      → IsLive heap l
      → IsLive heap l'
  IsLive-Follows heap [] [] f h = tt
  IsLive-Follows heap [] (e ∷ l') f h = elim f [ ]
  IsLive-Follows heap (e ∷ l) [] f h = elim f [ ]
  IsLive-Follows heap ((fd, td) ∷ l) ((fd', td') ∷ l') (_, same, f) (h, hs) =
      (cc (same, h), IsLive-Follows heap l l' f hs)

repeat_device-lib_device :
    {fl : Floats} (now : ℕ) (ctx : Ptr) (td : TrackedDevice fl)
    → (repeat_device now ctx td).0.lib_device ≡ td.lib_device
unfolding repeat_device
repeat_device-lib_device now ctx td = ground arith

pub emit_key_repeats-Follows :
    {fl : Floats} (now : ℕ) (ctx : Ptr) (l : Tracks fl) → Follows l (emit_key_repeats now ctx l).0
unfolding emit_key_repeats
emit_key_repeats-Follows now ctx [] = tt
emit_key_repeats-Follows now ctx ((fd, td) ∷ l) =
    (refl, repeat_device-lib_device now ctx td, emit_key_repeats-Follows now ctx l)
