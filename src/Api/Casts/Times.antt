-- ===== src/Api/Casts/Times.antt =====
-- The time of an event, as the accessors of its kind give it.
use libinput_rs.Common.{ℕ, ◌/◌, ◌%◌, ◌≡◌, Bool, true, ◌||◌, some, arith, if◌then◌else◌}
use libinput_rs.Floats.{Floats}
use libinput_rs.Ffi.{LibinputEventType, LibinputEvent, EventPayload}
use libinput_rs.Ffi.Kinds.{IsConsistent}
use libinput_rs.Api.Casts.{is_pointer, is_keyboard, is_touch, is_gesture, is_switch}
use libinput_rs.Api.Accessors.{read, time_ms}
use libinput_rs.Api.Accessors.Pointer.{
  pointer_get_time, pointer_get_time_usec, pointer_get_time_payload,
}
use libinput_rs.Api.Accessors.Keyboard.{
  keyboard_get_time, keyboard_get_time_usec, keyboard_get_time_payload,
}
use libinput_rs.Api.Accessors.Touch.{touch_get_time, touch_get_time_usec, touch_get_time_payload}
use libinput_rs.Api.Accessors.Gesture.{
  gesture_get_time, gesture_get_time_usec, gesture_get_time_payload,
}
use libinput_rs.Api.Accessors.Switch.{switch_get_time, switch_get_time_usec}

-- The time that a payload carries, whatever its kind; notifications carry none.
abbrev pub payload_time : {fl : Floats} → EventPayload fl → ℕ
payload_time (EventPayload.pointer_motion e) = e.time_usec
payload_time (EventPayload.pointer_motion_absolute e) = e.time_usec
payload_time (EventPayload.pointer_button e) = e.time_usec
payload_time (EventPayload.pointer_axis e) = e.time_usec
payload_time (EventPayload.keyboard_key e) = e.time_usec
payload_time (EventPayload.touch_down e) = e.time_usec
payload_time (EventPayload.touch_up e) = e.time_usec
payload_time (EventPayload.touch_motion e) = e.time_usec
payload_time (EventPayload.touch_cancel e) = e.time_usec
payload_time (EventPayload.touch_frame t) = t
payload_time (EventPayload.gesture_swipe_begin e) = e.time_usec
payload_time (EventPayload.gesture_swipe_update e) = e.time_usec
payload_time (EventPayload.gesture_swipe_end e) = e.time_usec
payload_time (EventPayload.gesture_pinch_begin e) = e.time_usec
payload_time (EventPayload.gesture_pinch_update e) = e.time_usec
payload_time (EventPayload.gesture_pinch_end e) = e.time_usec
payload_time (EventPayload.switch_toggle e) = e.time_usec
payload_time _ = 0

-- What the accessors give that belong to the cast which the event passes.
abbrev pub time_usec : {fl : Floats} → LibinputEvent fl → ℕ
time_usec e =
    if is_pointer e.event_type
    then pointer_get_time_usec (some e)
    else (if is_keyboard e.event_type
        then keyboard_get_time_usec (some e)
        else (if is_touch e.event_type
            then touch_get_time_usec (some e)
            else (if is_gesture e.event_type
                then gesture_get_time_usec (some e)
                else switch_get_time_usec (some e))))

abbrev pub time : {fl : Floats} → LibinputEvent fl → ℕ
time e =
    if is_pointer e.event_type
    then pointer_get_time (some e)
    else (if is_keyboard e.event_type
        then keyboard_get_time (some e)
        else (if is_touch e.event_type
            then touch_get_time (some e)
            else (if is_gesture e.event_type
                then gesture_get_time (some e)
                else switch_get_time (some e))))

abbrev pub has_accessors : LibinputEventType → Bool
has_accessors t = is_pointer t || is_keyboard t || is_touch t || is_gesture t || is_switch t

-- Where an event's payload is one that its type announces, and the type is one of a pointer, a
-- keyboard, a touch, a gesture or a switch, the two accessors of that kind give the time that the payload
-- carries, in microseconds and in milliseconds modulo 2^32.
pub accessor_times :
    {fl : Floats} (e : LibinputEvent fl)
    → IsConsistent e
    → has_accessors e.event_type ≡ true
    → (time_usec e ≡ payload_time e.payload)
      × (time e ≡ (payload_time e.payload / 1000) % 0x1_0000_0000)
unfolding pointer_get_time pointer_get_time_usec pointer_get_time_payload keyboard_get_time
    keyboard_get_time_usec keyboard_get_time_payload touch_get_time touch_get_time_usec
    touch_get_time_payload gesture_get_time gesture_get_time_usec gesture_get_time_payload
    switch_get_time switch_get_time_usec read time_ms
accessor_times e h k = ground arith
