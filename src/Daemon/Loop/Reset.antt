-- ===== src/Daemon/Loop/Reset.antt =====
-- The reset of the hardware: the flag counts the threads that are at it.
use Prim.Native.String.{String}
use libinput_rs.Common.{
  ◌∙◌, ℕ, ◌≡◌, refl, Bool, true, false, Option, none, some, List, [], ◌∷◌, arith, if◌then◌else◌,
  if_both,
}
use libinput_rs.Floats.{Floats}
use libinput_rs.Backend.World.{lookup}
use libinput_rs.Backend.Open.{input_path}
use libinput_rs.Backend.Drain.{Fetch, fetched, gone, no_events}
use libinput_rs.Daemon.Config.{InputConfig}
use libinput_rs.Daemon.Wrapper.{DeviceWrapper, VirtualDevice}
use libinput_rs.Daemon.Open.{Files, try_open_device}
use libinput_rs.Daemon.Batch.{batch}
use libinput_rs.Daemon.Loop.Induction.{IfAny, run_keeps}
use libinput_rs.Daemon.Loop.{
  Daemon, Created, Ready, inotify, device, reset_done, has_path, modify_key, insert_device,
  insert_opened, handle_named, handle_created, handle_inotify, start_reset, handle_batch,
  handle_fetch, handle_found, handle_ready, register_all, start, run,
}

module _ {fl : Floats} where
  -- The flag is set exactly while one thread is at the reset.
  abbrev pub OneReset : Daemon fl → Type 0
  OneReset d = d.running ≡ (if d.resetting then 1 else 0)

  -- No change of the flag or of the count.
  abbrev Same : Daemon fl → Daemon fl → Type 0
  Same d d' = (d'.running ≡ d.running) × (d'.resetting ≡ d.resetting)

  insert_opened-Same :
      (o : Option (DeviceWrapper fl) × List String) (registers : Bool) (d : Daemon fl)
      → Same d (insert_opened o registers d)
  unfolding insert_opened insert_device
  insert_opened-Same (none, writes) registers d = (refl, refl)
  insert_opened-Same (some w, writes) true d = (refl, refl)
  insert_opened-Same (some w, writes) false d = (refl, refl)

  handle_named-Same :
      (files : Files) (name : Option String) (c : Created) (d : Daemon fl)
      → Same d (handle_named files name c d)
  unfolding handle_named
  handle_named-Same files none c d = (refl, refl)
  handle_named-Same files (some name) c d =
      if_both (Same d) (has_path (input_path name) d.devices_map) (refl, refl)
        (insert_opened-Same (try_open_device files (input_path name) c.answer) c.registers d)

  handle_created-Same :
      (files : Files) (c : Created) (d : Daemon fl) → Same d (handle_created files c d)
  unfolding handle_created
  handle_created-Same files c d = handle_named-Same files c.name c d

  handle_inotify-Same :
      (files : Files) (cs : List Created) (d : Daemon fl) → Same d (handle_inotify files cs d)
  unfolding handle_inotify
  handle_inotify-Same files [] d = (refl, refl)
  handle_inotify-Same files (c ∷ cs) d =
      let (runs, flag) = handle_created-Same files c d in
      let (runs', flag') = handle_inotify-Same files cs (handle_created files c d) in
      (runs' ∙ runs, flag' ∙ flag)

  start_reset-OneReset : (b : Bool) (d : Daemon fl) → OneReset d → OneReset (start_reset b d)
  unfolding start_reset
  start_reset-OneReset b d h = ground arith

  handle_fetch-OneReset :
      (config : InputConfig fl) (token : ℕ) (f : Fetch) (w : DeviceWrapper fl) (d : Daemon fl)
      → OneReset d
      → OneReset (handle_fetch config token f w d)
  unfolding handle_fetch handle_batch
  handle_fetch-OneReset config token (fetched es) w d h =
      let b' = batch config es (record {
        wrapper = w;
        v_device = d.v_device;
        last_global_typing_time = d.last_global_typing_time;
        trigger_reset = false;
      }) in
      start_reset-OneReset b'.trigger_reset
        (record d {
          devices_map = modify_key token b'.wrapper d.devices_map;
          v_device = b'.v_device;
          last_global_typing_time = b'.last_global_typing_time;
        })
        h
  handle_fetch-OneReset config token gone w d h = h
  handle_fetch-OneReset config token no_events w d h = h

  handle_found-OneReset :
      (config : InputConfig fl) (token : ℕ) (f : Fetch) (o : Option (DeviceWrapper fl))
      (d : Daemon fl)
      → OneReset d
      → OneReset (handle_found config token f o d)
  unfolding handle_found
  handle_found-OneReset config token f none d h = h
  handle_found-OneReset config token f (some w) d h = handle_fetch-OneReset config token f w d h

  handle_ready-OneReset :
      (config : InputConfig fl) (files : Files) (r : Ready) (d : Daemon fl)
      → OneReset d
      → OneReset (handle_ready config files r d)
  unfolding handle_ready
  handle_ready-OneReset config files (inotify none) d h = h
  handle_ready-OneReset config files (inotify (some cs)) d h =
      let (runs, flag) = handle_inotify-Same files cs d in cc (runs, flag, h)
  handle_ready-OneReset config files (device token f) d h =
      handle_found-OneReset config token f (lookup token d.devices_map) d h
  handle_ready-OneReset config files reset_done d h = ground (arith, h)

  register_all-OneReset :
      (accepts : ℕ → Bool) (ws : List (DeviceWrapper fl)) (d : Daemon fl)
      → OneReset d
      → IfAny OneReset (register_all accepts ws d)
  unfolding register_all insert_device
  register_all-OneReset accepts [] d h = h
  register_all-OneReset accepts (w ∷ ws) d h =
      if_both (IfAny OneReset) (accepts d.next_token)
        (register_all-OneReset accepts ws (insert_device w true d) h) tt

  -- Whatever the loop meets, the reset flag is set exactly while one thread is at the reset, and
  -- there is never a second one.
  pub run-OneReset :
      (config : InputConfig fl) (files : Files) (polling : Bool) (accepts : ℕ → Bool)
      (ws : List (DeviceWrapper fl)) (watched : Bool) (polls : List (Option (List Ready)))
      (v : VirtualDevice) (writes : List String)
      → OneReset (run config files polling accepts ws watched polls (start v writes)).0
  unfolding start
  run-OneReset config files polling accepts ws watched polls v writes =
      let d = start {fl = fl} v writes in
      run_keeps config files OneReset (handle_ready-OneReset config files) polling accepts ws
        watched polls d refl (register_all-OneReset accepts ws d refl)
