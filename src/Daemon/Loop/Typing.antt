-- ===== src/Daemon/Loop/Typing.antt =====
-- Disable-while-typing from a keyboard to a touchpad, through the loop.
use libinput_rs.Common.{ℕ, ◌≡◌, false}
use libinput_rs.Floats.{Floats}
use libinput_rs.Daemon.Wrapper.{DeviceWrapper}
use libinput_rs.Daemon.Batch.{Batch}
use libinput_rs.Daemon.Loop.{Daemon, modify_key}

module _ {fl : Floats} where
  abbrev begin_batch : DeviceWrapper fl → Daemon fl → Batch fl
  begin_batch w d = record {
    wrapper = w;
    v_device = d.v_device;
    last_global_typing_time = d.last_global_typing_time;
    trigger_reset = false;
  }

  -- What the handler of a batch leaves, but for the reset.
  record Handled (token : ℕ) (b : Batch fl) (d d' : Daemon fl) : Type 0 where
    devices_map : d'.devices_map ≡ modify_key token b.wrapper d.devices_map
    v_device : d'.v_device ≡ b.v_device
    last_global_typing_time : d'.last_global_typing_time ≡ b.last_global_typing_time
