-- ===== src/Api/Casts.antt =====
-- src/lib.rs: the casts of an event to its kind. A null pointer to an event is `none`.
pub mod Kinds
pub mod Times
pub mod Base
use libinput_rs.Common.{Bool, true, false, Option, none, some, if◌then◌else◌}
use libinput_rs.Floats.{Floats}
use libinput_rs.Ffi.{LibinputEventType, LibinputEvent}

abbrev pub is_notify : LibinputEventType → Bool
is_notify LibinputEventType.device_added = true
is_notify LibinputEventType.device_removed = true
is_notify _ = false

abbrev pub is_pointer : LibinputEventType → Bool
is_pointer LibinputEventType.pointer_motion = true
is_pointer LibinputEventType.pointer_motion_absolute = true
is_pointer LibinputEventType.pointer_button = true
is_pointer LibinputEventType.pointer_axis = true
is_pointer LibinputEventType.pointer_scroll_wheel = true
is_pointer LibinputEventType.pointer_scroll_finger = true
is_pointer LibinputEventType.pointer_scroll_continuous = true
is_pointer _ = false

abbrev pub is_keyboard : LibinputEventType → Bool
is_keyboard LibinputEventType.keyboard_key = true
is_keyboard _ = false

abbrev pub is_touch : LibinputEventType → Bool
is_touch LibinputEventType.touch_down = true
is_touch LibinputEventType.touch_up = true
is_touch LibinputEventType.touch_motion = true
is_touch LibinputEventType.touch_cancel = true
is_touch LibinputEventType.touch_frame = true
is_touch _ = false

abbrev pub is_gesture : LibinputEventType → Bool
is_gesture LibinputEventType.gesture_swipe_begin = true
is_gesture LibinputEventType.gesture_swipe_update = true
is_gesture LibinputEventType.gesture_swipe_end = true
is_gesture LibinputEventType.gesture_pinch_begin = true
is_gesture LibinputEventType.gesture_pinch_update = true
is_gesture LibinputEventType.gesture_pinch_end = true
is_gesture _ = false

abbrev pub is_switch : LibinputEventType → Bool
is_switch LibinputEventType.switch_toggle = true
is_switch _ = false

abbrev pub is_tablet_pad : LibinputEventType → Bool
is_tablet_pad LibinputEventType.tablet_pad_button = true
is_tablet_pad LibinputEventType.tablet_pad_ring = true
is_tablet_pad LibinputEventType.tablet_pad_strip = true
is_tablet_pad _ = false

abbrev pub is_tablet_tool : LibinputEventType → Bool
is_tablet_tool LibinputEventType.tablet_tool_axis = true
is_tablet_tool LibinputEventType.tablet_tool_proximity = true
is_tablet_tool LibinputEventType.tablet_tool_tip = true
is_tablet_tool LibinputEventType.tablet_tool_button = true
is_tablet_tool _ = false

module _ {fl : Floats} where
  -- The event itself, if its type passes the test.
  unfoldable pub cast :
      (LibinputEventType → Bool) → Option (LibinputEvent fl) → Option (LibinputEvent fl)
  cast test none = none
  cast test (some e) = if test e.event_type then some e else none

  unfoldable pub get_device_notify_event : Option (LibinputEvent fl) → Option (LibinputEvent fl)
  unfolding cast
  get_device_notify_event = cast is_notify

  unfoldable pub get_pointer_event : Option (LibinputEvent fl) → Option (LibinputEvent fl)
  unfolding cast
  get_pointer_event = cast is_pointer

  unfoldable pub get_keyboard_event : Option (LibinputEvent fl) → Option (LibinputEvent fl)
  unfolding cast
  get_keyboard_event = cast is_keyboard

  unfoldable pub get_touch_event : Option (LibinputEvent fl) → Option (LibinputEvent fl)
  unfolding cast
  get_touch_event = cast is_touch

  unfoldable pub get_gesture_event : Option (LibinputEvent fl) → Option (LibinputEvent fl)
  unfolding cast
  get_gesture_event = cast is_gesture

  unfoldable pub get_switch_event : Option (LibinputEvent fl) → Option (LibinputEvent fl)
  unfolding cast
  get_switch_event = cast is_switch

  unfoldable pub get_tablet_pad_event : Option (LibinputEvent fl) → Option (LibinputEvent fl)
  unfolding cast
  get_tablet_pad_event = cast is_tablet_pad

  unfoldable pub get_tablet_tool_event : Option (LibinputEvent fl) → Option (LibinputEvent fl)
  unfolding cast
  get_tablet_tool_event = cast is_tablet_tool
