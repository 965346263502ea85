-- ===== src/Daemon/Wrapper.antt =====
-- src/device.rs, `DeviceWrapper`; src/virtual_device.rs; and the shape of the handlers, which
-- change the device, write to the virtual device, and stop where a write fails.
use Prim.Native.String.{String}
use libinput_rs.Common.{ℕ, suc, Bool, false, ◌&&◌, Option, none, List, [], ◌∷◌, ◌++◌, if◌then◌else◌}
use libinput_rs.Common.Int.{ℤ, pos}
use libinput_rs.Evdev.{Device, InputEvent, EventType, synchronization, has_key_a}
use libinput_rs.Floats.{Floats}

-- Instants are in nanoseconds.
pub record DeviceWrapper (fl : Floats) : Type 0 where
  pub device : Device
  pub path : String
  pub is_absolute : Bool
  pub is_keyboard : Bool
  pub touch_active : Bool
  pub touch_fingers : ℕ
  pub last_x : Option ℤ
  pub last_y : Option ℤ
  pub current_dx : ℤ
  pub current_dy : ℤ
  pub remainder_x : fl.F32
  pub remainder_y : fl.F32
  pub touch_start_time : Option ℕ
  pub tap_emitted : Bool
  pub last_typing_time : Option ℕ
  pub ctrl_pressed : Bool
  pub alt_pressed : Bool
  pub last_movement_time : Option ℕ
  pub active_click_button : Option ℕ

unfoldable pub new_wrapper : (fl : Floats) → Device → String → DeviceWrapper fl
new_wrapper fl device path = record {
  device = device;
  path = path;
  is_absolute = device.absolute_events;
  is_keyboard = device.key_events && has_key_a device;
  touch_active = false;
  touch_fingers = 0;
  last_x = none;
  last_y = none;
  current_dx = pos 0;
  current_dy = pos 0;
  remainder_x = fl.f32 0 1;
  remainder_y = fl.f32 0 1;
  touch_start_time = none;
  tap_emitted = false;
  last_typing_time = none;
  ctrl_pressed = false;
  alt_pressed = false;
  last_movement_time = none;
  active_click_button = none;
}

-- The uinput device. `refuses n` says whether its `n`-th write fails, which is the kernel's affair;
-- `sent` is what was written, oldest first.
pub record VirtualDevice : Type 0 where
  pub refuses : ℕ → Bool
  pub calls : ℕ
  pub sent : List InputEvent

pub data Outcome : Type 0 where
  ok err : Outcome

-- What a handler leaves behind.
pub record Run (fl : Floats) : Type 0 where
  pub outcome : Outcome
  pub wrapper : DeviceWrapper fl
  pub v_device : VirtualDevice

abbrev pub Action : Floats → Type 0
Action fl = DeviceWrapper fl → VirtualDevice → Run fl

-- `InputEvent::new`.
abbrev pub new_event : EventType → ℕ → ℤ → InputEvent
new_event event_type code value = record {
  timestamp = pos 0;
  event_type = event_type;
  code = code;
  value = value;
}

-- What ends a batch of events.
abbrev pub syn_report : InputEvent
syn_report = new_event synchronization 0 (pos 0)

module _ {fl : Floats} where
  -- `emit` of the virtual device writes the event and then, in a write of its own, a `SYN_REPORT`;
  -- each of the two may fail.
  unfoldable pub emit_raw : InputEvent → Action fl
  emit_raw ev w v =
      if v.refuses v.calls
      then (record { outcome = err; wrapper = w; v_device = record v { calls = suc v.calls } })
      else (if v.refuses (suc v.calls)
          then (record {
            outcome = err;
            wrapper = w;
            v_device = record v { calls = suc (suc v.calls); sent = v.sent ++ ev ∷ [] };
          })
          else (record {
            outcome = ok;
            wrapper = w;
            v_device = record v {
              calls = suc (suc v.calls);
              sent = v.sent ++ ev ∷ syn_report ∷ [];
            };
          }))

  abbrev pub done : Action fl
  done w v = record { outcome = ok; wrapper = w; v_device = v }

  abbrev pub update : (DeviceWrapper fl → DeviceWrapper fl) → Action fl
  update f w v = record { outcome = ok; wrapper = f w; v_device = v }

  -- The operator `?`: what follows runs where the outcome is `ok`.
  infixl 5 ◌>>◌
  unfoldable pub ◌>>◌ : Action fl → Action fl → Action fl
  ◌>>◌ m k w v = let r = m w v in elim r.outcome [ ok ↦ k r.wrapper r.v_device | err ↦ r ]

  -- `if b { m }`.
  abbrev pub when : Bool → Action fl → Action fl
  when b m = if b then m else done
