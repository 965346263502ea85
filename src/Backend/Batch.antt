-- ===== src/Backend/Batch.antt =====
-- src/backend.rs, `drain_into_queue`, lines 354 to 397: the settings that are read for a device,
-- and the loop over the events that were fetched from it.
pub mod Cases
pub mod Pinch
pub mod Identity
pub mod Consistent
pub mod Valid
pub mod Typing
pub mod Clicks
pub mod Motion
pub mod Keys
use libinput_rs.Common.{
  ℕ, ◌-◌, Bool, true, false, not, ◌&&◌, Option, none, some, List, [], ◌∷◌, ◌++◌, ltb, is_some_and,
  if◌then◌else◌,
}
use libinput_rs.Evdev.{InputEvent, Readings, millis, systime_to_usec}
use libinput_rs.Floats.{Floats}
use libinput_rs.Ffi.{Ptr, LibinputEvent}
use libinput_rs.Ffi.Device.{LibinputDevice}
use libinput_rs.Backend.Tracked.{TrackedDevice}
use libinput_rs.Backend.Keyboard.{KeyboardStep, process_keyboard_event}
use libinput_rs.Backend.Relative.{process_relative_event}
use libinput_rs.Backend.Touchpad.{Settings, process_absolute_event}

-- An event, with the clock readings made while it is handled.
abbrev pub Timed : Type 0
Timed = Readings × InputEvent

-- Whether the last key press, as of the start of the batch, is less than 500 ms ago.
unfoldable pub is_dwt_active : Bool → Option ℕ → ℕ → Bool
is_dwt_active cfg_dwt typing now = cfg_dwt && is_some_and typing (λ t. ltb (now - t) (millis 500))

module _ {fl : Floats} where
  -- `cfg_tap`, `cfg_nat` and `cfg_accel`, read through the device pointer.
  unfoldable pub settings : LibinputDevice fl → Settings fl
  settings dev = record {
    cfg_tap = dev.tap_enabled;
    cfg_nat = dev.natural_scroll;
    cfg_accel = fl.add32 (fl.f64_as_f32 dev.accel_speed) (fl.f32 10 1);
  }

  -- One round of the loop. `typing` is `global_typing_time` as it was before the batch, `global`
  -- as it is now.
  unfoldable pub drain_event :
      LibinputDevice fl → Option ℕ → Ptr → Timed → TrackedDevice fl → Option ℕ → KeyboardStep fl
  unfolding settings is_dwt_active
  drain_event dev typing ctx (now, ev) td global =
      let ts_usec = systime_to_usec ev.timestamp in
      let lib_dev = td.lib_device in
      if td.is_keyboard && not td.is_absolute
      then process_keyboard_event now ev ts_usec lib_dev ctx td global
      else (if not td.is_absolute && td.is_pointer
          then (record {
            td = td;
            global_typing_time = global;
            out = process_relative_event ev ts_usec lib_dev ctx;
          })
          else (if td.is_absolute
              then (let (td', out) =
                    process_absolute_event now (settings dev)
                      (is_dwt_active dev.dwt_enabled typing (now 0)) ev ts_usec lib_dev ctx td in
                  record { td = td'; global_typing_time = global; out = out })
              else (record { td = td; global_typing_time = global; out = [] })))

  -- The loop over the batch.
  unfoldable pub drain_batch :
      LibinputDevice fl
      → Option ℕ
      → Ptr
      → List Timed
      → TrackedDevice fl
      → Option ℕ
      → KeyboardStep fl
  drain_batch dev typing ctx [] td global = record {
    td = td;
    global_typing_time = global;
    out = [];
  }
  drain_batch dev typing ctx (e ∷ es) td global =
      let first = drain_event dev typing ctx e td global in
      let rest = drain_batch dev typing ctx es first.td first.global_typing_time in
      record rest { out = first.out ++ rest.out }
