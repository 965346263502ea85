-- ===== src/Witness/Loop.antt =====
-- The daemon: a keyboard and a touchpad are found, keys are pressed, and the touchpad is used.
use Prim.Native.String.{String}
use libinput_rs.Common.Path.{path_eq}
use libinput_rs.Common.{◌≡◌, refl, true, false, Option, none, some, List, [], ◌∷◌, map, retain}
use libinput_rs.Common.Int.{pos}
use libinput_rs.Evdev.{EventType, has_key_a}
use libinput_rs.Backend.World.{lookup}
use libinput_rs.Backend.Open.{is_own_name, input_path}
use libinput_rs.Backend.Drain.{fetched, gone}
use libinput_rs.Daemon.Config.{default_config, load_config, config_in_use}
use libinput_rs.Daemon.Wrapper.{Outcome, err, new_wrapper}
use libinput_rs.Daemon.Batch.{Timed}
use libinput_rs.Daemon.Open.{
  Answer, Files, is_target_name, disable_autosuspend, try_open_device, push_opened,
  scan_input_devices,
}
use libinput_rs.Daemon.Loop.{
  Daemon, Created, Ready, device, inotify, has_path, modify_key, insert_device, insert_opened,
  handle_named, handle_created, handle_inotify, start_reset, handle_batch, handle_fetch,
  handle_found, handle_ready, handle_all, poll_loop, register_all, start, run,
}
use libinput_rs.Daemon.Loop.Table.{IsTable}
use libinput_rs.Daemon.Loop.Reset.{OneReset, run-OneReset}
use libinput_rs.Daemon.Loop.End.{run-outcome}
use libinput_rs.Daemon.Loop.Hotplug.{handle_inotify-has_path}
use libinput_rs.Daemon.Main.{main}
use libinput_rs.Daemon.Main.Paths.{main-IsTable}
use libinput_rs.Witness.Data.{fl, event, touchpad, keyboard, mouse}
use libinput_rs.Witness.Daemon.{in_use, output, touched, board_wrapper, run_batch}

-- The daemon from its start: a touchpad and a keyboard are enumerated, a mouse appears twice, and the
-- touchpad goes.
abbrev files : Files
files = record { file_name = λ _. none; exists = λ _. false }

abbrev enumerated : List (String × Answer)
enumerated =
    ("/dev/input/event5", Answer.device touchpad true)
    ∷ ("/dev/input/event3", Answer.device keyboard true)
    ∷ []

abbrev other_created : Created
other_created = record { name = some "mouse0"; answer = Answer.not_opened; registers = true }

abbrev mouse_created : Created
mouse_created = record { name = some "event9"; answer = Answer.device mouse true; registers = true }

abbrev polls : List (Option (List Ready))
polls =
    some (inotify (some (mouse_created ∷ mouse_created ∷ [])) ∷ [])
    ∷ some (device 1 (fetched (event 1000 EventType.key 30 (pos 1) ∷ [])) ∷ device 0 gone ∷ [])
    ∷ none
    ∷ []

unfoldable result : Daemon fl × Outcome
unfolding scan_input_devices push_opened try_open_device is_own_name is_target_name
    disable_autosuspend new_wrapper has_key_a run start register_all insert_device poll_loop
    handle_all handle_ready handle_inotify handle_created handle_named insert_opened has_path
    path_eq handle_found lookup handle_fetch handle_batch modify_key start_reset input_path retain
    run_batch config_in_use load_config default_config
result =
    let scanned = scan_input_devices {fl = fl} files enumerated in
    run (config_in_use (λ _. none) none) files true (λ _. true) scanned.0 true polls
      (start output scanned.1)

main-IsTable_example : IsTable result.0.next_token result.0.devices_map
unfolding main result
main-IsTable_example =
    main-IsTable (λ _. none) none files enumerated (some output) true (λ _. true) true polls result
      ((refl, tt), (tt, tt)) refl

-- The mouse got one token, the touchpad's is gone, and the failing poll ended the loop.
tokens_left : map (λ e. e.0) result.0.devices_map ≡ 2 ∷ 1 ∷ []
unfolding result
tokens_left = refl

ended : result.1 ≡ err
unfolding result
ended = refl

abbrev begun : Daemon fl
begun = record {
  devices_map = (1, board_wrapper) ∷ (0, touched) ∷ [];
  next_token = 2;
  last_global_typing_time = none;
  v_device = output;
  power_writes = [];
  released = [];
  resetting = false;
  running = 0;
}

run-OneReset_example :
    OneReset
      (run in_use files true
        (λ _. true)
        (touched ∷ board_wrapper ∷ [])
        true
        polls
        (start output [])).0
run-OneReset_example =
    run-OneReset in_use files true (λ _. true) (touched ∷ board_wrapper ∷ []) true polls output []

run-outcome_example :
    (run in_use files true
      (λ _. true)
      (touched ∷ board_wrapper ∷ [])
      true
      polls
      (start output [])).1
    ≡ err
run-outcome_example =
    run-outcome in_use files true (λ _. true) (touched ∷ board_wrapper ∷ []) true polls output []

abbrev press : Timed
press = event 1000 EventType.key 30 (pos 1)

-- A file that is no device appears, and then a mouse.
handle_inotify-has_path_example :
    has_path
      (input_path "event9")
      (handle_inotify files (other_created ∷ mouse_created ∷ []) begun).devices_map
    ≡ true
unfolding try_open_device is_own_name is_target_name
handle_inotify-has_path_example =
    handle_inotify-has_path fl files (other_created ∷ []) [] mouse_created "event9"
      (new_wrapper fl mouse (input_path "event9")) begun refl refl refl

-- Names are compared with their case, so that a name as the kernel gives it is not taken.
capital_name : is_target_name "ELAN1200:00 04F3:307A Touchpad" ≡ false
unfolding is_target_name
capital_name = refl
