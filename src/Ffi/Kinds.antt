-- ===== src/Ffi/Kinds.antt =====
-- Which payload belongs to which event type of src/ffi_types.rs. The C accessors of src/lib.rs
-- cast by the type and then read the payload, so they rely on it.
use libinput_rs.Common.{Bool, true, false, ◌≡◌}
use libinput_rs.Floats.{Floats}
use libinput_rs.Ffi.{LibinputEventType, EventPayload, LibinputEvent}

abbrev fits_motion : LibinputEventType → Bool
fits_motion LibinputEventType.pointer_motion = true
fits_motion _ = false

abbrev fits_motion_absolute : LibinputEventType → Bool
fits_motion_absolute LibinputEventType.pointer_motion_absolute = true
fits_motion_absolute _ = false

abbrev fits_button : LibinputEventType → Bool
fits_button LibinputEventType.pointer_button = true
fits_button _ = false

abbrev fits_axis : LibinputEventType → Bool
fits_axis LibinputEventType.pointer_axis = true
fits_axis LibinputEventType.pointer_scroll_wheel = true
fits_axis LibinputEventType.pointer_scroll_finger = true
fits_axis LibinputEventType.pointer_scroll_continuous = true
fits_axis _ = false

abbrev fits_key : LibinputEventType → Bool
fits_key LibinputEventType.keyboard_key = true
fits_key _ = false

abbrev fits_touch : LibinputEventType → LibinputEventType → Bool
fits_touch LibinputEventType.touch_down LibinputEventType.touch_down = true
fits_touch LibinputEventType.touch_up LibinputEventType.touch_up = true
fits_touch LibinputEventType.touch_motion LibinputEventType.touch_motion = true
fits_touch LibinputEventType.touch_cancel LibinputEventType.touch_cancel = true
fits_touch LibinputEventType.touch_frame LibinputEventType.touch_frame = true
fits_touch _ _ = false

abbrev fits_gesture : LibinputEventType → LibinputEventType → Bool
fits_gesture LibinputEventType.gesture_swipe_begin LibinputEventType.gesture_swipe_begin = true
fits_gesture LibinputEventType.gesture_swipe_update LibinputEventType.gesture_swipe_update = true
fits_gesture LibinputEventType.gesture_swipe_end LibinputEventType.gesture_swipe_end = true
fits_gesture LibinputEventType.gesture_pinch_begin LibinputEventType.gesture_pinch_begin = true
fits_gesture LibinputEventType.gesture_pinch_update LibinputEventType.gesture_pinch_update = true
fits_gesture LibinputEventType.gesture_pinch_end LibinputEventType.gesture_pinch_end = true
fits_gesture _ _ = false

abbrev fits_switch : LibinputEventType → Bool
fits_switch LibinputEventType.switch_toggle = true
fits_switch _ = false

abbrev fits_notify : LibinputEventType → LibinputEventType → Bool
fits_notify LibinputEventType.device_added LibinputEventType.device_added = true
fits_notify LibinputEventType.device_removed LibinputEventType.device_removed = true
fits_notify _ _ = false

-- Whether an event of type `t` may carry the payload.
abbrev pub fits : {fl : Floats} → LibinputEventType → EventPayload fl → Bool
fits t (EventPayload.pointer_motion _) = fits_motion t
fits t (EventPayload.pointer_motion_absolute _) = fits_motion_absolute t
fits t (EventPayload.pointer_button _) = fits_button t
fits t (EventPayload.pointer_axis _) = fits_axis t
fits t (EventPayload.keyboard_key _) = fits_key t
fits t (EventPayload.touch_down _) = fits_touch LibinputEventType.touch_down t
fits t (EventPayload.touch_up _) = fits_touch LibinputEventType.touch_up t
fits t (EventPayload.touch_motion _) = fits_touch LibinputEventType.touch_motion t
fits t (EventPayload.touch_cancel _) = fits_touch LibinputEventType.touch_cancel t
fits t (EventPayload.touch_frame _) = fits_touch LibinputEventType.touch_frame t
fits t (EventPayload.gesture_swipe_begin _) = fits_gesture LibinputEventType.gesture_swipe_begin t
fits t (EventPayload.gesture_swipe_update _) = fits_gesture LibinputEventType.gesture_swipe_update t
fits t (EventPayload.gesture_swipe_end _) = fits_gesture LibinputEventType.gesture_swipe_end t
fits t (EventPayload.gesture_pinch_begin _) = fits_gesture LibinputEventType.gesture_pinch_begin t
fits t (EventPayload.gesture_pinch_update _) = fits_gesture LibinputEventType.gesture_pinch_update t
fits t (EventPayload.gesture_pinch_end _) = fits_gesture LibinputEventType.gesture_pinch_end t
fits t (EventPayload.switch_toggle _) = fits_switch t
fits t EventPayload.device_added = fits_notify LibinputEventType.device_added t
fits t EventPayload.device_removed = fits_notify LibinputEventType.device_removed t

-- The payload is one that the event's type announces.
abbrev pub IsConsistent : {fl : Floats} → LibinputEvent fl → Type 0
IsConsistent e = fits e.event_type e.payload ≡ true
