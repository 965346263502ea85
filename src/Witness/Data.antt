-- ===== src/Witness/Data.antt =====
-- Devices, events and times that the tests share.
use libinput_rs.Common.{ℕ, modify, true, false, none, some, List, [], ◌∷◌}
use libinput_rs.Common.Int.{ℤ, pos}
use libinput_rs.Evdev.{Device, EventType, Readings, millis, systime_to_usec, has_key_a}
use libinput_rs.Floats.{Floats, thousandths}
use libinput_rs.Common.Word.{i32_as_usize, i32_as_u32}
use libinput_rs.Ffi.Device.{LibinputDevice, new_device}
use libinput_rs.Backend.Tracked.{
  TrackedDevice, new_tracked, active_slot_count, active_slots, primary_slot_distance,
  primary_slot_angle, default_slot,
}
use libinput_rs.Backend.Keyboard.{KeyboardStep}
use libinput_rs.Backend.Touchpad.{process_absolute_event, absolute_key}
use libinput_rs.Backend.Touchpad.Touch.{
  touch_down, begin_pinch, touch_up, end_pinch, end_scale, pinch_scale, is_tap, tap_events, lift,
}
use libinput_rs.Backend.Touchpad.Click.{click, map_click, finger_button, is_pad_button, tool_tap}
use libinput_rs.Backend.Touchpad.Axis.{
  absolute_axis, select_slot, write_slot, move_x, move_y, is_stale, advance,
}
use libinput_rs.Backend.Touchpad.Sync.{
  sync, clear_motion, pinch_update, drop_motion, has_movement, finger_count, move_frame, report,
  point, point_total, scroll_total, hw_scaled, leftover, scroll, scroll_axis, swipe,
}
use libinput_rs.Backend.Batch.{Timed, drain_batch, drain_event, settings, is_dwt_active}

abbrev pub fl : Floats
fl = thousandths

-- The clock stands at `n` milliseconds.
abbrev pub at_ms : ℕ → Readings
at_ms n _ = millis n

abbrev pub event : ℕ → EventType → ℕ → ℤ → Timed
event ms ty code value =
    (at_ms ms, record { timestamp = pos (millis ms); event_type = ty; code = code; value = value })

abbrev pub touchpad : Device
touchpad = record {
  name = some "ELAN touchpad";
  absolute_events = true;
  relative_events = false;
  key_events = true;
  prop_pointer = true;
  prop_buttonpad = true;
  supported_keys = some (0x110 ∷ 0x14a ∷ []);
}

abbrev pub keyboard : Device
keyboard = record {
  name = some "AT keyboard";
  absolute_events = false;
  relative_events = false;
  key_events = true;
  prop_pointer = false;
  prop_buttonpad = false;
  supported_keys = some (30 ∷ 57 ∷ []);
}

abbrev pub mouse : Device
mouse = record {
  name = some "USB mouse";
  absolute_events = false;
  relative_events = true;
  key_events = true;
  prop_pointer = false;
  prop_buttonpad = false;
  supported_keys = some (0x110 ∷ []);
}

abbrev pub pad_device : LibinputDevice fl
pad_device = new_device fl "ELAN touchpad" "/dev/input/event5" 2 1

abbrev pub pad : TrackedDevice fl
pad = new_tracked fl touchpad "/dev/input/event5" 7

abbrev pub board : TrackedDevice fl
board = new_tracked fl keyboard "/dev/input/event3" 8

-- A batch on the touchpad and on the keyboard, with all that they call open.
unfoldable pub run_pad : List Timed → KeyboardStep fl
unfolding drain_batch drain_event settings is_dwt_active systime_to_usec process_absolute_event
    absolute_key touch_down begin_pinch touch_up end_pinch end_scale pinch_scale is_tap tap_events
    lift click map_click finger_button is_pad_button tool_tap absolute_axis select_slot write_slot
    move_x move_y is_stale advance sync clear_motion pinch_update drop_motion has_movement
    finger_count move_frame report point point_total scroll_total hw_scaled leftover scroll
    scroll_axis swipe new_tracked new_device has_key_a active_slot_count active_slots
    primary_slot_distance primary_slot_angle default_slot modify i32_as_usize i32_as_u32 thousandths
run_pad es = drain_batch pad_device none 1 es pad none
