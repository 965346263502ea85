-- ===== src/Api/Casts/Base.antt =====
-- src/lib.rs: the way back from an event of a kind to the event, which is the same.
use libinput_rs.Common.{Option}
use libinput_rs.Floats.{Floats}
use libinput_rs.Ffi.{LibinputEvent}

module _ {fl : Floats} where
  unfoldable pub event_device_notify_get_base_event :
      Option (LibinputEvent fl) → Option (LibinputEvent fl)
  event_device_notify_get_base_event e = e

  unfoldable pub event_pointer_get_base_event :
      Option (LibinputEvent fl) → Option (LibinputEvent fl)
  event_pointer_get_base_event e = e

  unfoldable pub event_keyboard_get_base_event :
      Option (LibinputEvent fl) → Option (LibinputEvent fl)
  event_keyboard_get_base_event e = e

  unfoldable pub event_touch_get_base_event : Option (LibinputEvent fl) → Option (LibinputEvent fl)
  event_touch_get_base_event e = e

  unfoldable pub event_gesture_get_base_event :
      Option (LibinputEvent fl) → Option (LibinputEvent fl)
  event_gesture_get_base_event e = e

  unfoldable pub event_switch_get_base_event : Option (LibinputEvent fl) → Option (LibinputEvent fl)
  event_switch_get_base_event e = e

  unfoldable pub event_tablet_pad_get_base_event :
      Option (LibinputEvent fl) → Option (LibinputEvent fl)
  event_tablet_pad_get_base_event e = e

  unfoldable pub event_tablet_tool_get_base_event :
      Option (LibinputEvent fl) → Option (LibinputEvent fl)
  event_tablet_tool_get_base_event e = e
