-- ===== src/Api/Tablet/ToolEvents.antt =====
-- src/lib.rs: the accessors of the events of tablet tools, which return constants.
use libinput_rs.Common.{ℕ, Option}
use libinput_rs.Floats.{Floats}
use libinput_rs.Ffi.{Ptr, null, LibinputEvent}
use libinput_rs.Api.Accessors.{time_ms}

module _ {fl : Floats} where
  unfoldable pub event_tablet_tool_get_button : Option (LibinputEvent fl) → ℕ
  event_tablet_tool_get_button e = 0

  unfoldable pub event_tablet_tool_get_button_state : Option (LibinputEvent fl) → ℕ
  event_tablet_tool_get_button_state e = 0

  unfoldable pub event_tablet_tool_get_seat_button_count : Option (LibinputEvent fl) → ℕ
  event_tablet_tool_get_seat_button_count e = 0

  unfoldable pub event_tablet_tool_get_distance : Option (LibinputEvent fl) → fl.F64
  event_tablet_tool_get_distance e = fl.f64 0 1

  unfoldable pub event_tablet_tool_get_dx : Option (LibinputEvent fl) → fl.F64
  event_tablet_tool_get_dx e = fl.f64 0 1

  unfoldable pub event_tablet_tool_get_dy : Option (LibinputEvent fl) → fl.F64
  event_tablet_tool_get_dy e = fl.f64 0 1

  unfoldable pub event_tablet_tool_get_pressure : Option (LibinputEvent fl) → fl.F64
  event_tablet_tool_get_pressure e = fl.f64 0 1

  unfoldable pub event_tablet_tool_get_x : Option (LibinputEvent fl) → fl.F64
  event_tablet_tool_get_x e = fl.f64 0 1

  unfoldable pub event_tablet_tool_get_y : Option (LibinputEvent fl) → fl.F64
  event_tablet_tool_get_y e = fl.f64 0 1

  unfoldable pub event_tablet_tool_get_proximity_state : Option (LibinputEvent fl) → ℕ
  event_tablet_tool_get_proximity_state e = 0

  unfoldable pub event_tablet_tool_get_rotation : Option (LibinputEvent fl) → fl.F64
  event_tablet_tool_get_rotation e = fl.f64 0 1

  unfoldable pub event_tablet_tool_get_slider_position : Option (LibinputEvent fl) → fl.F64
  event_tablet_tool_get_slider_position e = fl.f64 0 1

  unfoldable pub event_tablet_tool_get_wheel_delta : Option (LibinputEvent fl) → fl.F64
  event_tablet_tool_get_wheel_delta e = fl.f64 0 1

  unfoldable pub event_tablet_tool_get_wheel_delta_discrete : Option (LibinputEvent fl) → ℕ
  event_tablet_tool_get_wheel_delta_discrete e = 0

  unfoldable pub event_tablet_tool_get_size_major : Option (LibinputEvent fl) → fl.F64
  event_tablet_tool_get_size_major e = fl.f64 0 1

  unfoldable pub event_tablet_tool_get_size_minor : Option (LibinputEvent fl) → fl.F64
  event_tablet_tool_get_size_minor e = fl.f64 0 1

  unfoldable pub event_tablet_tool_get_tilt_x : Option (LibinputEvent fl) → fl.F64
  event_tablet_tool_get_tilt_x e = fl.f64 0 1

  unfoldable pub event_tablet_tool_get_tilt_y : Option (LibinputEvent fl) → fl.F64
  event_tablet_tool_get_tilt_y e = fl.f64 0 1

  unfoldable pub event_tablet_tool_get_time_usec : Option (LibinputEvent fl) → ℕ
  event_tablet_tool_get_time_usec e = 0

  unfoldable pub event_tablet_tool_get_tip_state : Option (LibinputEvent fl) → ℕ
  event_tablet_tool_get_tip_state e = 0

  unfoldable pub event_tablet_tool_get_tool : Option (LibinputEvent fl) → Ptr
  event_tablet_tool_get_tool e = null

  unfoldable pub event_tablet_tool_get_x_transformed : Option (LibinputEvent fl) → ℕ → fl.F64
  event_tablet_tool_get_x_transformed e width = fl.f64 0 1

  unfoldable pub event_tablet_tool_get_y_transformed : Option (LibinputEvent fl) → ℕ → fl.F64
  event_tablet_tool_get_y_transformed e height = fl.f64 0 1

  unfoldable pub event_tablet_tool_x_has_changed : Option (LibinputEvent fl) → ℕ
  event_tablet_tool_x_has_changed e = 0

  unfoldable pub event_tablet_tool_y_has_changed : Option (LibinputEvent fl) → ℕ
  event_tablet_tool_y_has_changed e = 0

  unfoldable pub event_tablet_tool_pressure_has_changed : Option (LibinputEvent fl) → ℕ
  event_tablet_tool_pressure_has_changed e = 0

  unfoldable pub event_tablet_tool_distance_has_changed : Option (LibinputEvent fl) → ℕ
  event_tablet_tool_distance_has_changed e = 0

  unfoldable pub event_tablet_tool_tilt_x_has_changed : Option (LibinputEvent fl) → ℕ
  event_tablet_tool_tilt_x_has_changed e = 0

  unfoldable pub event_tablet_tool_tilt_y_has_changed : Option (LibinputEvent fl) → ℕ
  event_tablet_tool_tilt_y_has_changed e = 0

  unfoldable pub event_tablet_tool_rotation_has_changed : Option (LibinputEvent fl) → ℕ
  event_tablet_tool_rotation_has_changed e = 0

  unfoldable pub event_tablet_tool_slider_has_changed : Option (LibinputEvent fl) → ℕ
  event_tablet_tool_slider_has_changed e = 0

  unfoldable pub event_tablet_tool_wheel_has_changed : Option (LibinputEvent fl) → ℕ
  event_tablet_tool_wheel_has_changed e = 0

  unfoldable pub event_tablet_tool_size_major_has_changed : Option (LibinputEvent fl) → ℕ
  event_tablet_tool_size_major_has_changed e = 0

  unfoldable pub event_tablet_tool_size_minor_has_changed : Option (LibinputEvent fl) → ℕ
  event_tablet_tool_size_minor_has_changed e = 0

  unfoldable pub event_tablet_tool_get_time : Option (LibinputEvent fl) → ℕ
  unfolding event_tablet_tool_get_time_usec time_ms
  event_tablet_tool_get_time e = time_ms (event_tablet_tool_get_time_usec e)
