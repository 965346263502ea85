-- ===== src/Backend/Open/Hotplug.antt =====
-- Which paths the hotplug handler opens.
use Prim.Native.String.{String}
use libinput_rs.Common.{
  ℕ, suc, ◌≡◌, ◌≢◌, refl, beq-eq_false, Bool, true, false, not, ◌&&◌, Option, none, some, List, [],
  ◌∷◌, ◌++◌, arith, All, unwrap_or,
}
use libinput_rs.Evdev.{Device, has_key_a}
use libinput_rs.Floats.{Floats}
use libinput_rs.Ffi.{Ptr}
use libinput_rs.Backend.Tracked.{TrackedDevice, new_tracked}
use libinput_rs.Backend.World.{World, Pushed, contains_key, with_effects, epoll_add}
use libinput_rs.Backend.Open.{
  Opening, opened, is_own_name, opens_as_pointer, added_event, input_path, allocate, track,
  open_device, try_open, scan_and_open, is_tracked_path, new_paths, handle_hotplug,
}

-- A device that the backend wants: not one of the library's own, and a pointer or a keyboard.
abbrev pub is_wanted : Device → Bool
is_wanted d =
    not (is_own_name (unwrap_or d.name "Unknown"))
    && not (not (opens_as_pointer d) && not (has_key_a d))

module _ {fl : Floats} where
  -- The event names no file, or one that is already tracked.
  abbrev pub IsKnown : List (ℕ × TrackedDevice fl) → Option String × Opening → Type 0
  IsKnown tracked (none, _) = Unit
  IsKnown tracked (some name, _) = is_tracked_path (input_path name) tracked ≡ true

  known-new_paths :
      (ievents : List (Option String × Opening)) (tracked : List (ℕ × TrackedDevice fl))
      → All (IsKnown tracked) ievents
      → new_paths ievents tracked ≡ []
  unfolding new_paths
  known-new_paths [] tracked h = refl
  known-new_paths ((none, o) ∷ ievents) tracked (_, hs) = known-new_paths ievents tracked hs
  known-new_paths ((some name, o) ∷ ievents) tracked (h, hs) =
      ground (arith, known-new_paths ievents tracked hs)

  -- Where all the inotify events name files that are already tracked, nothing is opened.
  pub handle_hotplug_known :
      (ctx : Ptr) (ievents : List (Option String × Opening)) (w : World fl)
      → All (IsKnown w.tracked) ievents
      → handle_hotplug ctx ievents w ≡ (w, [])
  unfolding handle_hotplug scan_and_open
  handle_hotplug_known ctx ievents w h = cc (known-new_paths ievents w.tracked h)

  -- What opening a wanted device comes to.
  after_open : String → Ptr → ℕ → Device → World fl → Pushed fl
  unfolding allocate
  after_open path ctx fd d w = (
    with_effects (epoll_add fd ∷ []) (record (allocate path ctx d w) {
      tracked = (fd, new_tracked fl d path w.next_ptr) ∷ w.tracked;
    }),
    added_event ctx w.next_ptr ∷ [],
  )

  -- It does, under a file descriptor that is not in the table.
  try_open_new :
      (path : String) (ctx : Ptr) (fd : ℕ) (d : Device) (w : World fl)
      → is_wanted d ≡ true
      → contains_key fd w.tracked ≡ false
      → try_open path ctx (opened fd d) w ≡ after_open path ctx fd d w
  unfolding try_open open_device track allocate after_open
  try_open_new path ctx fd d w h k = ground arith

  scan_twice :
      (path : String) (ctx : Ptr) (fd fd' : ℕ) (d : Device) (w : World fl)
      → is_wanted d ≡ true
      → contains_key fd w.tracked ≡ false
      → contains_key fd' w.tracked ≡ false
      → fd ≢ fd'
      → let first = after_open path ctx fd d w in
        let second = after_open path ctx fd' d first.0 in
        scan_and_open ctx ((path, opened fd d) ∷ (path, opened fd' d) ∷ []) w
        ≡ (second.0, first.1 ++ second.1 ++ [])
  unfolding scan_and_open after_open contains_key
  scan_twice path ctx fd fd' d w wanted k k' ne =
      let w1 = (after_open path ctx fd d w).0 in
      let other : contains_key fd' w1.tracked ≡ false = grind (arith, beq-eq_false fd fd' ne) in
      cc (try_open_new path ctx fd d w wanted k, try_open_new path ctx fd' d w1 wanted other)

  -- Two events of one read that name the same new file open it twice: if both opens give a wanted
  -- device, under two file descriptors that are not in the table, then the table ends up with two
  -- entries for the path, with different device pointers, and both are announced.
  pub handle_hotplug_twice :
      (ctx : Ptr) (name : String) (fd fd' : ℕ) (d : Device) (w : World fl)
      → is_wanted d ≡ true
      → is_tracked_path (input_path name) w.tracked ≡ false
      → contains_key fd w.tracked ≡ false
      → contains_key fd' w.tracked ≡ false
      → fd ≢ fd'
      → let r = handle_hotplug ctx ((some name, opened fd d) ∷ (some name, opened fd' d) ∷ []) w in
        (r.0.tracked
          ≡ (fd', new_tracked fl d (input_path name) (suc w.next_ptr))
            ∷ (fd, new_tracked fl d (input_path name) w.next_ptr)
            ∷ w.tracked)
        × (r.1 ≡ added_event ctx w.next_ptr ∷ added_event ctx (suc w.next_ptr) ∷ [])
  unfolding handle_hotplug new_paths after_open
  handle_hotplug_twice ctx name fd fd' d w wanted new k k' ne =
      let paths : new_paths ((some name, opened fd d) ∷ (some name, opened fd' d) ∷ []) w.tracked
          ≡ (input_path name, opened fd d) ∷ (input_path name, opened fd' d) ∷ [] =
        ground arith in
      let scan = scan_twice (input_path name) ctx fd fd' d w wanted k k' ne in
      (cc (paths, scan), cc (paths, scan))
