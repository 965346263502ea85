-- ===== src/Api/Accessors/Gesture.antt =====
-- src/lib.rs: the accessors of gesture events.
use libinput_rs.Common.{ℕ, Option, bool_to_nat}
use libinput_rs.Common.Int.{ℤ, pos}
use libinput_rs.Floats.{Floats}
use libinput_rs.Ffi.{LibinputEvent, EventPayload}
use libinput_rs.Api.Accessors.{read, time_ms}

module _ {fl : Floats} where
  abbrev gesture_get_time_usec_payload : EventPayload fl → ℕ
  gesture_get_time_usec_payload (EventPayload.gesture_swipe_begin e) = e.time_usec
  gesture_get_time_usec_payload (EventPayload.gesture_swipe_update e) = e.time_usec
  gesture_get_time_usec_payload (EventPayload.gesture_swipe_end e) = e.time_usec
  gesture_get_time_usec_payload (EventPayload.gesture_pinch_begin e) = e.time_usec
  gesture_get_time_usec_payload (EventPayload.gesture_pinch_update e) = e.time_usec
  gesture_get_time_usec_payload (EventPayload.gesture_pinch_end e) = e.time_usec
  gesture_get_time_usec_payload _ = 0

  unfoldable pub gesture_get_time_usec : Option (LibinputEvent fl) → ℕ
  unfolding read
  gesture_get_time_usec = read (0) gesture_get_time_usec_payload

  abbrev gesture_get_finger_count_payload : EventPayload fl → ℤ
  gesture_get_finger_count_payload (EventPayload.gesture_swipe_begin e) = e.finger_count
  gesture_get_finger_count_payload (EventPayload.gesture_swipe_update e) = e.finger_count
  gesture_get_finger_count_payload (EventPayload.gesture_swipe_end e) = e.finger_count
  gesture_get_finger_count_payload (EventPayload.gesture_pinch_begin e) = e.finger_count
  gesture_get_finger_count_payload (EventPayload.gesture_pinch_update e) = e.finger_count
  gesture_get_finger_count_payload (EventPayload.gesture_pinch_end e) = e.finger_count
  gesture_get_finger_count_payload _ = pos 0

  unfoldable pub gesture_get_finger_count : Option (LibinputEvent fl) → ℤ
  unfolding read
  gesture_get_finger_count = read (pos 0) gesture_get_finger_count_payload

  abbrev gesture_get_dx_payload : EventPayload fl → fl.F64
  gesture_get_dx_payload (EventPayload.gesture_swipe_update e) = e.dx
  gesture_get_dx_payload (EventPayload.gesture_pinch_update e) = e.dx
  gesture_get_dx_payload _ = fl.f64 0 1

  unfoldable pub gesture_get_dx : Option (LibinputEvent fl) → fl.F64
  unfolding read
  gesture_get_dx = read (fl.f64 0 1) gesture_get_dx_payload

  abbrev gesture_get_dy_payload : EventPayload fl → fl.F64
  gesture_get_dy_payload (EventPayload.gesture_swipe_update e) = e.dy
  gesture_get_dy_payload (EventPayload.gesture_pinch_update e) = e.dy
  gesture_get_dy_payload _ = fl.f64 0 1

  unfoldable pub gesture_get_dy : Option (LibinputEvent fl) → fl.F64
  unfolding read
  gesture_get_dy = read (fl.f64 0 1) gesture_get_dy_payload

  abbrev gesture_get_scale_payload : EventPayload fl → fl.F64
  gesture_get_scale_payload (EventPayload.gesture_pinch_update e) = e.scale
  gesture_get_scale_payload (EventPayload.gesture_pinch_end e) = e.scale
  gesture_get_scale_payload _ = fl.f64 10 1

  unfoldable pub gesture_get_scale : Option (LibinputEvent fl) → fl.F64
  unfolding read
  gesture_get_scale = read (fl.f64 10 1) gesture_get_scale_payload

  abbrev gesture_get_angle_delta_payload : EventPayload fl → fl.F64
  gesture_get_angle_delta_payload (EventPayload.gesture_pinch_update e) = e.angle
  gesture_get_angle_delta_payload _ = fl.f64 0 1

  unfoldable pub gesture_get_angle_delta : Option (LibinputEvent fl) → fl.F64
  unfolding read
  gesture_get_angle_delta = read (fl.f64 0 1) gesture_get_angle_delta_payload

  abbrev gesture_get_cancelled_payload : EventPayload fl → ℕ
  gesture_get_cancelled_payload (EventPayload.gesture_swipe_end e) = bool_to_nat e.cancelled
  gesture_get_cancelled_payload (EventPayload.gesture_pinch_end e) = bool_to_nat e.cancelled
  gesture_get_cancelled_payload _ = 0

  unfoldable pub gesture_get_cancelled : Option (LibinputEvent fl) → ℕ
  unfolding read
  gesture_get_cancelled = read (0) gesture_get_cancelled_payload

  unfoldable pub gesture_get_time_payload : EventPayload fl → ℕ
  unfolding time_ms
  gesture_get_time_payload (EventPayload.gesture_swipe_begin e) = time_ms e.time_usec
  gesture_get_time_payload (EventPayload.gesture_swipe_update e) = time_ms e.time_usec
  gesture_get_time_payload (EventPayload.gesture_swipe_end e) = time_ms e.time_usec
  gesture_get_time_payload (EventPayload.gesture_pinch_begin e) = time_ms e.time_usec
  gesture_get_time_payload (EventPayload.gesture_pinch_update e) = time_ms e.time_usec
  gesture_get_time_payload (EventPayload.gesture_pinch_end e) = time_ms e.time_usec
  gesture_get_time_payload _ = 0

  unfoldable pub gesture_get_time : Option (LibinputEvent fl) → ℕ
  unfolding read gesture_get_time_payload
  gesture_get_time = read (0) gesture_get_time_payload

  unfoldable pub gesture_get_dx_unaccelerated : Option (LibinputEvent fl) → fl.F64
  unfolding gesture_get_dx
  gesture_get_dx_unaccelerated = gesture_get_dx

  unfoldable pub gesture_get_dy_unaccelerated : Option (LibinputEvent fl) → fl.F64
  unfolding gesture_get_dy
  gesture_get_dy_unaccelerated = gesture_get_dy
