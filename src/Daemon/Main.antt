-- ===== src/Daemon/Main.antt =====
-- src/main.rs: the daemon from its settings to the end of its loop.
pub mod Paths
use Prim.Native.String.{String}
use libinput_rs.Common.{ℕ, Bool, Option, none, some, List}
use libinput_rs.Floats.{Floats}
use libinput_rs.Daemon.Config.{InputConfig, config_in_use}
use libinput_rs.Daemon.Wrapper.{VirtualDevice, Outcome}
use libinput_rs.Daemon.Open.{Answer, Files, scan_input_devices}
use libinput_rs.Daemon.Loop.{Daemon, Ready, start, run}

module _ {fl : Floats} where
  -- `from_str` parses the text of the settings, `enumerated` are the paths of the input devices with
  -- what comes of opening each, and `v_device` is `none` where the virtual device cannot be made.
  -- The result is `none` where the daemon ends before its loop.
  unfoldable pub main :
      (from_str : String → Option (InputConfig fl)) (config_file : Option String) (files : Files)
      (enumerated : List (String × Answer)) (v_device : Option VirtualDevice) (polling : Bool)
      (accepts : ℕ → Bool) (watched : Bool) (polls : List (Option (List Ready)))
      → Option (Daemon fl × Outcome)
  unfolding scan_input_devices
  main from_str config_file files enumerated none polling accepts watched polls = none
  main from_str config_file files enumerated (some v_device) polling accepts watched polls =
      let (devices, writes) = scan_input_devices files enumerated in
      some (
        run (config_in_use from_str config_file) files polling accepts devices watched polls
          (start v_device writes))
