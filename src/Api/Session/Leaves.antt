-- ===== src/Api/Session/Leaves.antt =====
-- What the library does to device objects that are there, in a drain or where it opens a device:
-- nothing.
use Prim.Native.String.{String}
use libinput_rs.Common.{
  ℕ, ◌<◌, ◌≡◌, ◌∙◌, refl, not, ◌&&◌, Option, none, some, List, [], ◌∷◌, ◌++◌, arith, if_both,
  unwrap_or,
}
use libinput_rs.Evdev.{Device, has_key_a}
use libinput_rs.Floats.{Floats}
use libinput_rs.Ffi.{Ptr}
use libinput_rs.Backend.Tracked.{TrackedDevice}
use libinput_rs.Backend.Keyboard.{emit_key_repeats}
use libinput_rs.Backend.World.{World, Pushed, contains_key, lookup}
use libinput_rs.Backend.Open.{
  Opening, failed, refused, opened, is_own_name, opens_as_pointer, allocate, track, open_device,
  try_open, scan_and_open, handle_hotplug, new_paths,
}
use libinput_rs.Backend.Drain.{
  Answers, Drained, drain_devices, removal, remove_dead, remove_all, finish_drain, drain_into_queue,
}

module _ {fl : Floats} where
  -- The objects that were there are there, as they were.
  abbrev pub Leaves : World fl → World fl → Type 0
  Leaves w w' =
      (q : Ptr) → q < w.next_ptr → (q < w'.next_ptr) × (lookup q w'.heap ≡ lookup q w.heap)

  abbrev Leaves-refl : (w : World fl) → Leaves w w
  Leaves-refl w q h = (h, refl)

  Leaves-trans : (u v w : World fl) → Leaves u v → Leaves v w → Leaves u w
  Leaves-trans u v w f g q h = let (h', e) = f q h in let (h'', e') = g q h' in (h'', e' ∙ e)

  allocate-Leaves :
      (path : String) (ctx : Ptr) (d : Device) (w : World fl) → Leaves w (allocate path ctx d w)
  unfolding allocate lookup
  allocate-Leaves path ctx d w q h = (omega arith, ground arith)

  open_device-Leaves :
      (path : String) (ctx : Ptr) (fd : ℕ) (d : Device) (w : World fl)
      → Leaves w (open_device path ctx fd d w).0
  unfolding open_device track
  open_device-Leaves path ctx fd d w =
      let P : Pushed fl → Type 0 = λ r. Leaves w r.0 in
      let made = allocate-Leaves path ctx d w in
      if_both P (is_own_name (unwrap_or d.name "Unknown")) (Leaves-refl w) (
        if_both P (not (opens_as_pointer d) && not (has_key_a d)) (Leaves-refl w)
          (if_both P (contains_key fd w.tracked) made made))

  pub try_open-Leaves :
      (path : String) (ctx : Ptr) (o : Opening) (w : World fl) → Leaves w (try_open path ctx o w).0
  unfolding try_open
  try_open-Leaves path ctx failed w = Leaves-refl w
  try_open-Leaves path ctx (refused fd) w = Leaves-refl w
  try_open-Leaves path ctx (opened fd d) w = open_device-Leaves path ctx fd d w

  pub scan_and_open-Leaves :
      (ctx : Ptr) (paths : List (String × Opening)) (w : World fl)
      → Leaves w (scan_and_open ctx paths w).0
  unfolding scan_and_open
  scan_and_open-Leaves ctx [] w = Leaves-refl w
  scan_and_open-Leaves ctx ((path, o) ∷ paths) w =
      let w' = (try_open path ctx o w).0 in
      Leaves-trans w w' (scan_and_open ctx paths w').0 (try_open-Leaves path ctx o w)
        (scan_and_open-Leaves ctx paths w')

  handle_hotplug-Leaves :
      (ctx : Ptr) (ievents : List (Option String × Opening)) (w : World fl)
      → Leaves w (handle_hotplug ctx ievents w).0
  unfolding handle_hotplug
  handle_hotplug-Leaves ctx ievents w = scan_and_open-Leaves ctx (new_paths ievents w.tracked) w

  removal-Leaves :
      (ctx : Ptr) (fd : ℕ) (w : World fl) (o : Option (TrackedDevice fl))
      → Leaves w (removal ctx fd w o).0
  unfolding removal
  removal-Leaves ctx fd w none = Leaves-refl w
  removal-Leaves ctx fd w (some td) = Leaves-refl w

  remove_all-Leaves : (ctx : Ptr) (fds : List ℕ) (w : World fl) → Leaves w (remove_all ctx fds w).0
  unfolding remove_all remove_dead
  remove_all-Leaves ctx [] w = Leaves-refl w
  remove_all-Leaves ctx (fd ∷ fds) w =
      let w' = (removal ctx fd w (lookup fd w.tracked)).0 in
      Leaves-trans w w' (remove_all ctx fds w').0 (removal-Leaves ctx fd w (lookup fd w.tracked))
        (remove_all-Leaves ctx fds w')

  -- What a drain that ends has left.
  abbrev pub LeavesIfAny : World fl → Option (Pushed fl) → Type 0
  LeavesIfAny w none = Unit
  LeavesIfAny w (some r) = Leaves w r.0

  pub drain_into_queue-Leaves :
      (ctx : Ptr) (env : Answers) (w : World fl) → LeavesIfAny w (drain_into_queue ctx env w)
  unfolding drain_into_queue finish_drain
  drain_into_queue-Leaves ctx env w =
      let w1 = (handle_hotplug ctx env.ievents w).0 in
      let tracked = (emit_key_repeats env.now ctx w1.tracked).0 in
      go (drain_devices w1.heap ctx env.fetch tracked w1.global_typing_time)
    where
      go :
          (o : Option (Drained fl))
          → (let hot = handle_hotplug ctx env.ievents w in
              let reps = emit_key_repeats env.now ctx hot.0.tracked in
              let r : Option (Pushed fl) = elim o [
                | none ↦ none
                | some d ↦
                    some (finish_drain ctx (record hot.0 { tracked = reps.0 }) (hot.1 ++ reps.1) d)
              ] in
              LeavesIfAny w r)
      go none = tt
      go (some d) =
          let w1 = (handle_hotplug ctx env.ievents w).0 in
          let w2 : World fl = record w1 {
            tracked = d.tracked;
            global_typing_time = d.global_typing_time;
          } in
          Leaves-trans w w1 (remove_all ctx d.dead_fds w2).0
            (handle_hotplug-Leaves ctx env.ievents w) (remove_all-Leaves ctx d.dead_fds w2)
