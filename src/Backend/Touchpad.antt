-- ===== src/Backend/Touchpad.antt =====
-- src/backend.rs, `process_absolute_event`: one event of a touchpad. The arms of its `match` are
-- the child modules Touch, Click, Axis and Sync.
pub mod Touch
pub mod Click
pub mod Axis
pub mod Sync
pub mod Cases
pub mod Invariant
pub mod Pinch
use libinput_rs.Common.{ℕ, ◌==◌, Bool, true, not, List, [], if◌then◌else◌}
use libinput_rs.Common.Int.{ℤ, is_zero}
use libinput_rs.Evdev.{
  InputEvent, EventType, Readings, btn_touch, btn_tool_doubletap, btn_tool_tripletap,
  btn_tool_quadtap,
}
use libinput_rs.Floats.{Floats}
use libinput_rs.Ffi.{Ptr}
use libinput_rs.Backend.Tracked.{TrackedDevice}
use Touch.{Out, touch_down, touch_up}
use Click.{click, tool_tap}
use Axis.{absolute_axis}
use Sync.{sync}

-- The settings of the device that the drain loop reads before a batch.
pub record Settings (fl : Floats) : Type 0 where
  pub cfg_tap : Bool
  pub cfg_nat : Bool
  pub cfg_accel : fl.F32

module _ {fl : Floats} where
  -- The arm for `EventType::KEY`.
  unfoldable pub absolute_key :
      Readings → Settings fl → Bool → ℕ → ℤ → ℕ → Ptr → Ptr → TrackedDevice fl → Out fl
  absolute_key now cfg dwt_active code value ts_usec lib_dev ctx td =
      if code == btn_touch
      then (if not (is_zero value)
          then touch_down now ts_usec lib_dev ctx td
          else touch_up now cfg.cfg_tap dwt_active ts_usec lib_dev ctx td)
      else (if code == btn_tool_doubletap
          then tool_tap 2 1 value td
          else (if code == btn_tool_tripletap
              then tool_tap 3 2 value td
              else (if code == btn_tool_quadtap
                  then tool_tap 4 3 value td
                  else click code value ts_usec lib_dev ctx td)))

  unfoldable pub absolute_dispatch :
      EventType
      → Readings
      → Settings fl
      → Bool
      → InputEvent
      → ℕ
      → Ptr
      → Ptr
      → TrackedDevice fl
      → Out fl
  absolute_dispatch EventType.key now cfg dwt_active ev ts_usec lib_dev ctx td =
      absolute_key now cfg dwt_active ev.code ev.value ts_usec lib_dev ctx td
  absolute_dispatch EventType.absolute now cfg dwt_active ev ts_usec lib_dev ctx td =
      (absolute_axis now ev.code ev.value td, [])
  absolute_dispatch EventType.synchronization now cfg dwt_active ev ts_usec lib_dev ctx td =
      sync cfg.cfg_nat cfg.cfg_accel dwt_active ev.code ts_usec lib_dev ctx td
  absolute_dispatch _ now cfg dwt_active ev ts_usec lib_dev ctx td = (td, [])

  -- Typing forbids the tap before the event is looked at.
  unfoldable pub guard_tap : Bool → TrackedDevice fl → TrackedDevice fl
  guard_tap dwt_active td = if dwt_active then (record td { tap_emitted = true }) else td

  unfoldable pub process_absolute_event :
      Readings → Settings fl → Bool → InputEvent → ℕ → Ptr → Ptr → TrackedDevice fl → Out fl
  unfolding absolute_dispatch guard_tap
  process_absolute_event now cfg dwt_active ev ts_usec lib_dev ctx td =
      absolute_dispatch ev.event_type now cfg dwt_active ev ts_usec lib_dev ctx
        (guard_tap dwt_active td)
