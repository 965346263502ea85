-- ===== src/Backend/Touchpad/Cases.antt =====
-- `process_absolute_event` by cases: a property of what the handler leaves behind follows from the
-- property for each of the functions that it calls.
use libinput_rs.Common.{ℕ, Bool, not, [], if_both, ◌==◌}
use libinput_rs.Common.Int.{ℤ, is_zero}
use libinput_rs.Evdev.{
  EventType, InputEvent, Readings, abs_x, abs_y, abs_mt_slot, abs_mt_position_x, abs_mt_position_y,
  abs_mt_tracking_id, abs_mt_distance, btn_touch, btn_tool_doubletap, btn_tool_tripletap,
  btn_tool_quadtap,
}
use libinput_rs.Floats.{Floats}
use libinput_rs.Ffi.{Ptr}
use libinput_rs.Backend.Tracked.{TrackedDevice, MtSlot}
use libinput_rs.Backend.Touchpad.{Settings, absolute_key, absolute_dispatch}
use libinput_rs.Backend.Touchpad.Touch.{Out, touch_down, touch_up}
use libinput_rs.Backend.Touchpad.Click.{click, tool_tap}
use libinput_rs.Backend.Touchpad.Axis.{absolute_axis, select_slot, write_slot, move_x, move_y}
use libinput_rs.Backend.Touchpad.Sync.{sync}

module _ {ℓ} {fl : Floats} (now : Readings) (td : TrackedDevice fl) where
  pub absolute_axis_cases :
      (P : TrackedDevice fl → Type ℓ) (code : ℕ) (value : ℤ)
      → P td
      → P (select_slot value td)
      → ((f : MtSlot fl → MtSlot fl) → P (write_slot f td))
      → P (move_x now value td)
      → P (move_y now value td)
      → P (absolute_axis now code value td)
  unfolding absolute_axis
  absolute_axis_cases P code value same select write x y = if_both P (code == abs_mt_slot) select (
      if_both P (code == abs_mt_tracking_id) (write _) (
        if_both P (code == abs_mt_position_x) (write _) (
          if_both P (code == abs_mt_position_y) (write _) (
            if_both P (code == abs_mt_distance) (write _)
              (if_both P (code == abs_x) x (if_both P (code == abs_y) y same))))))

  pub absolute_key_cases :
      (P : Out fl → Type ℓ) (cfg : Settings fl) (dwt : Bool) (code : ℕ) (value : ℤ) (ts : ℕ)
      (lib_dev ctx : Ptr)
      → P (touch_down now ts lib_dev ctx td)
      → P (touch_up now cfg.cfg_tap dwt ts lib_dev ctx td)
      → P (tool_tap 2 1 value td)
      → P (tool_tap 3 2 value td)
      → P (tool_tap 4 3 value td)
      → P (click code value ts lib_dev ctx td)
      → P (absolute_key now cfg dwt code value ts lib_dev ctx td)
  unfolding absolute_key
  absolute_key_cases P cfg dwt code value ts lib_dev ctx down up two three four other =
      if_both P (code == btn_touch) (if_both P (not (is_zero value)) down up) (
        if_both P (code == btn_tool_doubletap) two (
          if_both P (code == btn_tool_tripletap) three
            (if_both P (code == btn_tool_quadtap) four other)))

  pub absolute_dispatch_cases :
      (P : Out fl → Type ℓ) (ty : EventType) (cfg : Settings fl) (dwt : Bool) (ev : InputEvent)
      (ts : ℕ) (lib_dev ctx : Ptr)
      → P (td, [])
      → P (absolute_key now cfg dwt ev.code ev.value ts lib_dev ctx td)
      → P (absolute_axis now ev.code ev.value td, [])
      → P (sync cfg.cfg_nat cfg.cfg_accel dwt ev.code ts lib_dev ctx td)
      → P (absolute_dispatch ty now cfg dwt ev ts lib_dev ctx td)
  unfolding absolute_dispatch
  absolute_dispatch_cases P EventType.key cfg dwt ev ts lib_dev ctx same key axis frame = key
  absolute_dispatch_cases P EventType.absolute cfg dwt ev ts lib_dev ctx same key axis frame = axis
  absolute_dispatch_cases P EventType.synchronization cfg dwt ev ts lib_dev ctx same key axis
        frame =
      frame
  absolute_dispatch_cases P EventType.relative cfg dwt ev ts lib_dev ctx same key axis frame = same
  absolute_dispatch_cases P (EventType.other n) cfg dwt ev ts lib_dev ctx same key axis frame = same
