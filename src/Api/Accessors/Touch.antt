-- ===== src/Api/Accessors/Touch.antt =====
-- src/lib.rs: the accessors of touch events.
use libinput_rs.Common.{ℕ, Option}
use libinput_rs.Common.Int.{ℤ, negsuc}
use libinput_rs.Floats.{Floats}
use libinput_rs.Ffi.{LibinputEvent, EventPayload}
use libinput_rs.Api.Accessors.{read, time_ms}

module _ {fl : Floats} where
  abbrev touch_get_time_usec_payload : EventPayload fl → ℕ
  touch_get_time_usec_payload (EventPayload.touch_down e) = e.time_usec
  touch_get_time_usec_payload (EventPayload.touch_up e) = e.time_usec
  touch_get_time_usec_payload (EventPayload.touch_motion e) = e.time_usec
  touch_get_time_usec_payload (EventPayload.touch_cancel e) = e.time_usec
  touch_get_time_usec_payload (EventPayload.touch_frame e) = e
  touch_get_time_usec_payload _ = 0

  unfoldable pub touch_get_time_usec : Option (LibinputEvent fl) → ℕ
  unfolding read
  touch_get_time_usec = read (0) touch_get_time_usec_payload

  abbrev touch_get_slot_payload : EventPayload fl → ℤ
  touch_get_slot_payload (EventPayload.touch_down e) = e.slot
  touch_get_slot_payload (EventPayload.touch_motion e) = e.slot
  touch_get_slot_payload _ = negsuc 0

  unfoldable pub touch_get_slot : Option (LibinputEvent fl) → ℤ
  unfolding read
  touch_get_slot = read (negsuc 0) touch_get_slot_payload

  abbrev touch_get_x_payload : EventPayload fl → fl.F64
  touch_get_x_payload (EventPayload.touch_down e) = e.x
  touch_get_x_payload (EventPayload.touch_motion e) = e.x
  touch_get_x_payload _ = fl.f64 0 1

  unfoldable pub touch_get_x : Option (LibinputEvent fl) → fl.F64
  unfolding read
  touch_get_x = read (fl.f64 0 1) touch_get_x_payload

  abbrev touch_get_y_payload : EventPayload fl → fl.F64
  touch_get_y_payload (EventPayload.touch_down e) = e.y
  touch_get_y_payload (EventPayload.touch_motion e) = e.y
  touch_get_y_payload _ = fl.f64 0 1

  unfoldable pub touch_get_y : Option (LibinputEvent fl) → fl.F64
  unfolding read
  touch_get_y = read (fl.f64 0 1) touch_get_y_payload

  unfoldable pub touch_get_time_payload : EventPayload fl → ℕ
  unfolding time_ms
  touch_get_time_payload (EventPayload.touch_down e) = time_ms e.time_usec
  touch_get_time_payload (EventPayload.touch_up e) = time_ms e.time_usec
  touch_get_time_payload (EventPayload.touch_motion e) = time_ms e.time_usec
  touch_get_time_payload (EventPayload.touch_cancel e) = time_ms e.time_usec
  touch_get_time_payload (EventPayload.touch_frame e) = time_ms e
  touch_get_time_payload _ = 0

  unfoldable pub touch_get_time : Option (LibinputEvent fl) → ℕ
  unfolding read touch_get_time_payload
  touch_get_time = read (0) touch_get_time_payload

  abbrev touch_get_seat_slot_payload : EventPayload fl → ℤ
  touch_get_seat_slot_payload (EventPayload.touch_down e) = e.seat_slot
  touch_get_seat_slot_payload (EventPayload.touch_motion e) = e.seat_slot
  touch_get_seat_slot_payload _ = negsuc 0

  unfoldable pub touch_get_seat_slot : Option (LibinputEvent fl) → ℤ
  unfolding read
  touch_get_seat_slot = read (negsuc 0) touch_get_seat_slot_payload

  unfoldable pub touch_get_x_transformed : ℕ → Option (LibinputEvent fl) → fl.F64
  unfolding touch_get_x
  touch_get_x_transformed width = touch_get_x

  unfoldable pub touch_get_y_transformed : ℕ → Option (LibinputEvent fl) → fl.F64
  unfolding touch_get_y
  touch_get_y_transformed height = touch_get_y
