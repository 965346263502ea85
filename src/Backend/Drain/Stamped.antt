-- ===== src/Backend/Drain/Stamped.antt =====
-- Every event that the backend pushes is consistent, and names the context that it was pushed for.
use Prim.Native.String.{String}
use libinput_rs.Common.{
  ℕ, ◌≡◌, refl, Option, none, some, List, [], ◌∷◌, arith, All, All-append, All-map_of,
}
use libinput_rs.Evdev.{Device}
use libinput_rs.Floats.{Floats}
use libinput_rs.Ffi.{Ptr, LibinputEvent}
use libinput_rs.Ffi.Kinds.{IsConsistent}
use libinput_rs.Backend.Tracked.{TrackedDevice}
use libinput_rs.Backend.Keyboard.{repeat_device, emit_key_repeats}
use libinput_rs.Backend.Batch.Consistent.{IsFrom, AllFrom, repeat_device-AllFrom}
use libinput_rs.Backend.World.{World, lookup}
use libinput_rs.Backend.Open.{
  Opening, failed, refused, opened, track, open_device, try_open, scan_and_open, allocate,
}
use libinput_rs.Backend.Drain.{removal, remove_dead, remove_all}

-- Consistent, and of the context.
abbrev pub IsStamped : {fl : Floats} → Ptr → LibinputEvent fl → Type 0
IsStamped ctx e = IsConsistent e × (e.context ≡ ctx)

abbrev pub AllStamped : {fl : Floats} → Ptr → List (LibinputEvent fl) → Type 0
AllStamped ctx es = All (IsStamped ctx) es

pub AllFrom-AllStamped :
    {fl : Floats} (ctx lib_dev : Ptr) (es : List (LibinputEvent fl))
    → AllFrom ctx lib_dev es
    → AllStamped ctx es
AllFrom-AllStamped ctx lib_dev es h =
    All-map_of (IsFrom ctx lib_dev) (IsStamped ctx) (λ e f. (f.0, f.1)) es h

module _ {fl : Floats} (ctx : Ptr) where
  track-AllStamped :
      (path : String) (fd : ℕ) (d : Device) (p : Ptr) (w : World fl)
      → AllStamped ctx (track path ctx fd d p w).1
  unfolding track
  track-AllStamped path fd d p w = ground arith

  open_device-AllStamped :
      (path : String) (fd : ℕ) (d : Device) (w : World fl)
      → AllStamped ctx (open_device path ctx fd d w).1
  unfolding open_device
  open_device-AllStamped path fd d w =
      ground (arith, track-AllStamped path fd d w.next_ptr (allocate path ctx d w))

  pub try_open-AllStamped :
      (path : String) (o : Opening) (w : World fl) → AllStamped ctx (try_open path ctx o w).1
  unfolding try_open
  try_open-AllStamped path failed w = tt
  try_open-AllStamped path (refused fd) w = tt
  try_open-AllStamped path (opened fd d) w = open_device-AllStamped path fd d w

  pub scan_and_open-AllStamped :
      (paths : List (String × Opening)) (w : World fl)
      → AllStamped ctx (scan_and_open ctx paths w).1
  unfolding scan_and_open
  scan_and_open-AllStamped [] w = tt
  scan_and_open-AllStamped ((path, o) ∷ paths) w =
      let first = try_open path ctx o w in
      All-append (IsStamped ctx) first.1 (scan_and_open ctx paths first.0).1
        (try_open-AllStamped path o w) (scan_and_open-AllStamped paths first.0)

  pub emit_key_repeats-AllStamped :
      (now : ℕ) (l : List (ℕ × TrackedDevice fl)) → AllStamped ctx (emit_key_repeats now ctx l).1
  unfolding emit_key_repeats
  emit_key_repeats-AllStamped now [] = tt
  emit_key_repeats-AllStamped now ((fd, td) ∷ l) =
      All-append (IsStamped ctx) (repeat_device now ctx td).1 (emit_key_repeats now ctx l).1
        (AllFrom-AllStamped ctx td.lib_device (repeat_device now ctx td).1
          (repeat_device-AllFrom now ctx td))
        (emit_key_repeats-AllStamped now l)

  removal-AllStamped :
      (fd : ℕ) (w : World fl) (o : Option (TrackedDevice fl))
      → AllStamped ctx (removal ctx fd w o).1
  unfolding removal
  removal-AllStamped fd w none = tt
  removal-AllStamped fd w (some td) = ((refl, refl), tt)

  pub remove_all-AllStamped :
      (fds : List ℕ) (w : World fl) → AllStamped ctx (remove_all ctx fds w).1
  unfolding remove_all remove_dead
  remove_all-AllStamped [] w = tt
  remove_all-AllStamped (fd ∷ fds) w =
      let first = removal ctx fd w (lookup fd w.tracked) in
      All-append (IsStamped ctx) first.1 (remove_all ctx fds first.0).1
        (removal-AllStamped fd w (lookup fd w.tracked)) (remove_all-AllStamped fds first.0)
