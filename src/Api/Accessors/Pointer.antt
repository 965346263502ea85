-- ===== src/Api/Accessors/Pointer.antt =====
-- src/lib.rs: the accessors of pointer events.
use libinput_rs.Common.{ℕ, ◌==◌, Option, if◌then◌else◌}
use libinput_rs.Floats.{Floats}
use libinput_rs.Ffi.{LibinputEvent, EventPayload}
use libinput_rs.Api.Accessors.{read, time_ms}

module _ {fl : Floats} where
  abbrev pointer_get_time_usec_payload : EventPayload fl → ℕ
  pointer_get_time_usec_payload (EventPayload.pointer_motion e) = e.time_usec
  pointer_get_time_usec_payload (EventPayload.pointer_motion_absolute e) = e.time_usec
  pointer_get_time_usec_payload (EventPayload.pointer_button e) = e.time_usec
  pointer_get_time_usec_payload (EventPayload.pointer_axis e) = e.time_usec
  pointer_get_time_usec_payload _ = 0

  unfoldable pub pointer_get_time_usec : Option (LibinputEvent fl) → ℕ
  unfolding read
  pointer_get_time_usec = read (0) pointer_get_time_usec_payload

  abbrev pointer_get_dx_payload : EventPayload fl → fl.F64
  pointer_get_dx_payload (EventPayload.pointer_motion e) = e.dx
  pointer_get_dx_payload _ = fl.f64 0 1

  unfoldable pub pointer_get_dx : Option (LibinputEvent fl) → fl.F64
  unfolding read
  pointer_get_dx = read (fl.f64 0 1) pointer_get_dx_payload

  abbrev pointer_get_dy_payload : EventPayload fl → fl.F64
  pointer_get_dy_payload (EventPayload.pointer_motion e) = e.dy
  pointer_get_dy_payload _ = fl.f64 0 1

  unfoldable pub pointer_get_dy : Option (LibinputEvent fl) → fl.F64
  unfolding read
  pointer_get_dy = read (fl.f64 0 1) pointer_get_dy_payload

  abbrev pointer_get_dx_unaccelerated_payload : EventPayload fl → fl.F64
  pointer_get_dx_unaccelerated_payload (EventPayload.pointer_motion e) = e.dx_unaccel
  pointer_get_dx_unaccelerated_payload _ = fl.f64 0 1

  unfoldable pub pointer_get_dx_unaccelerated : Option (LibinputEvent fl) → fl.F64
  unfolding read
  pointer_get_dx_unaccelerated = read (fl.f64 0 1) pointer_get_dx_unaccelerated_payload

  abbrev pointer_get_dy_unaccelerated_payload : EventPayload fl → fl.F64
  pointer_get_dy_unaccelerated_payload (EventPayload.pointer_motion e) = e.dy_unaccel
  pointer_get_dy_unaccelerated_payload _ = fl.f64 0 1

  unfoldable pub pointer_get_dy_unaccelerated : Option (LibinputEvent fl) → fl.F64
  unfolding read
  pointer_get_dy_unaccelerated = read (fl.f64 0 1) pointer_get_dy_unaccelerated_payload

  abbrev pointer_get_button_payload : EventPayload fl → ℕ
  pointer_get_button_payload (EventPayload.pointer_button e) = e.button
  pointer_get_button_payload _ = 0

  unfoldable pub pointer_get_button : Option (LibinputEvent fl) → ℕ
  unfolding read
  pointer_get_button = read (0) pointer_get_button_payload

  abbrev pointer_get_button_state_payload : EventPayload fl → ℕ
  pointer_get_button_state_payload (EventPayload.pointer_button e) = e.state
  pointer_get_button_state_payload _ = 0

  unfoldable pub pointer_get_button_state : Option (LibinputEvent fl) → ℕ
  unfolding read
  pointer_get_button_state = read (0) pointer_get_button_state_payload

  abbrev pointer_get_seat_button_count_payload : EventPayload fl → ℕ
  pointer_get_seat_button_count_payload (EventPayload.pointer_button e) =
      if e.state == 1 then 1 else 0
  pointer_get_seat_button_count_payload _ = 0

  unfoldable pub pointer_get_seat_button_count : Option (LibinputEvent fl) → ℕ
  unfolding read
  pointer_get_seat_button_count = read (0) pointer_get_seat_button_count_payload

  abbrev pointer_get_axis_value_payload : EventPayload fl → fl.F64
  pointer_get_axis_value_payload (EventPayload.pointer_axis e) = e.value
  pointer_get_axis_value_payload _ = fl.f64 0 1

  unfoldable pub pointer_get_axis_value : Option (LibinputEvent fl) → fl.F64
  unfolding read
  pointer_get_axis_value = read (fl.f64 0 1) pointer_get_axis_value_payload

  abbrev pointer_get_axis_source_payload : EventPayload fl → ℕ
  pointer_get_axis_source_payload (EventPayload.pointer_axis e) = e.source
  pointer_get_axis_source_payload _ = 0

  unfoldable pub pointer_get_axis_source : Option (LibinputEvent fl) → ℕ
  unfolding read
  pointer_get_axis_source = read (0) pointer_get_axis_source_payload

  abbrev pointer_has_axis_payload : EventPayload fl → ℕ
  pointer_has_axis_payload (EventPayload.pointer_axis e) = 1
  pointer_has_axis_payload _ = 0

  unfoldable pub pointer_has_axis : Option (LibinputEvent fl) → ℕ
  unfolding read
  pointer_has_axis = read (0) pointer_has_axis_payload

  unfoldable pub pointer_get_time_payload : EventPayload fl → ℕ
  unfolding time_ms
  pointer_get_time_payload (EventPayload.pointer_motion e) = time_ms e.time_usec
  pointer_get_time_payload (EventPayload.pointer_motion_absolute e) = time_ms e.time_usec
  pointer_get_time_payload (EventPayload.pointer_button e) = time_ms e.time_usec
  pointer_get_time_payload (EventPayload.pointer_axis e) = time_ms e.time_usec
  pointer_get_time_payload _ = 0

  unfoldable pub pointer_get_time : Option (LibinputEvent fl) → ℕ
  unfolding read pointer_get_time_payload
  pointer_get_time = read (0) pointer_get_time_payload

  abbrev pointer_get_absolute_x_payload : EventPayload fl → fl.F64
  pointer_get_absolute_x_payload (EventPayload.pointer_motion_absolute e) = e.abs_x
  pointer_get_absolute_x_payload _ = fl.f64 0 1

  unfoldable pub pointer_get_absolute_x : Option (LibinputEvent fl) → fl.F64
  unfolding read
  pointer_get_absolute_x = read (fl.f64 0 1) pointer_get_absolute_x_payload

  abbrev pointer_get_absolute_y_payload : EventPayload fl → fl.F64
  pointer_get_absolute_y_payload (EventPayload.pointer_motion_absolute e) = e.abs_y
  pointer_get_absolute_y_payload _ = fl.f64 0 1

  unfoldable pub pointer_get_absolute_y : Option (LibinputEvent fl) → fl.F64
  unfolding read
  pointer_get_absolute_y = read (fl.f64 0 1) pointer_get_absolute_y_payload

  abbrev pointer_get_axis_value_discrete_payload : EventPayload fl → fl.F64
  pointer_get_axis_value_discrete_payload (EventPayload.pointer_axis e) =
      fl.i32_as_f64 e.value_discrete
  pointer_get_axis_value_discrete_payload _ = fl.f64 0 1

  unfoldable pub pointer_get_axis_value_discrete : Option (LibinputEvent fl) → fl.F64
  unfolding read
  pointer_get_axis_value_discrete = read (fl.f64 0 1) pointer_get_axis_value_discrete_payload

  unfoldable pub pointer_get_absolute_x_transformed : ℕ → Option (LibinputEvent fl) → fl.F64
  unfolding pointer_get_absolute_x
  pointer_get_absolute_x_transformed width = pointer_get_absolute_x

  unfoldable pub pointer_get_absolute_y_transformed : ℕ → Option (LibinputEvent fl) → fl.F64
  unfolding pointer_get_absolute_y
  pointer_get_absolute_y_transformed height = pointer_get_absolute_y

  unfoldable pub pointer_get_scroll_value : Option (LibinputEvent fl) → fl.F64
  unfolding pointer_get_axis_value
  pointer_get_scroll_value = pointer_get_axis_value

  unfoldable pub pointer_get_scroll_value_v120 : Option (LibinputEvent fl) → fl.F64
  unfolding pointer_get_axis_value
  pointer_get_scroll_value_v120 e = fl.mul64 (pointer_get_axis_value e) (fl.f64 1200 1)
