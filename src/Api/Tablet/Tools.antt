-- ===== src/Api/Tablet/Tools.antt =====
-- src/lib.rs: the functions on the tools of a tablet. There are none, so that they return constants.
use Prim.Native.String.{String}
use libinput_rs.Common.{ℕ, Option, none}
use libinput_rs.Floats.{Floats}
use libinput_rs.Ffi.{Ptr, null}

unfoldable pub tablet_tool_config_pressure_range_is_available : Ptr → ℕ
tablet_tool_config_pressure_range_is_available p = 0

unfoldable pub tablet_tool_config_pressure_range_set : (fl : Floats) → Ptr → fl.F64 → fl.F64 → ℕ
tablet_tool_config_pressure_range_set fl p min max = 1

unfoldable pub tablet_tool_config_pressure_range_get_minimum : (fl : Floats) → Ptr → fl.F64
tablet_tool_config_pressure_range_get_minimum fl p = fl.f64 0 1

unfoldable pub tablet_tool_config_pressure_range_get_maximum : (fl : Floats) → Ptr → fl.F64
tablet_tool_config_pressure_range_get_maximum fl p = fl.f64 10 1

unfoldable pub tablet_tool_config_pressure_range_get_default_minimum : (fl : Floats) → Ptr → fl.F64
tablet_tool_config_pressure_range_get_default_minimum fl p = fl.f64 0 1

unfoldable pub tablet_tool_config_pressure_range_get_default_maximum : (fl : Floats) → Ptr → fl.F64
tablet_tool_config_pressure_range_get_default_maximum fl p = fl.f64 10 1

unfoldable pub tablet_tool_config_eraser_button_get_modes : Ptr → ℕ
tablet_tool_config_eraser_button_get_modes p = 0

unfoldable pub tablet_tool_config_eraser_button_set_mode : Ptr → ℕ → ℕ
tablet_tool_config_eraser_button_set_mode p mode = 1

unfoldable pub tablet_tool_config_eraser_button_get_mode : Ptr → ℕ
tablet_tool_config_eraser_button_get_mode p = 0

unfoldable pub tablet_tool_config_eraser_button_get_default_mode : Ptr → ℕ
tablet_tool_config_eraser_button_get_default_mode p = 0

unfoldable pub tablet_tool_config_eraser_button_set_button : Ptr → ℕ → ℕ
tablet_tool_config_eraser_button_set_button p button = 1

unfoldable pub tablet_tool_config_eraser_button_get_button : Ptr → ℕ
tablet_tool_config_eraser_button_get_button p = 0

unfoldable pub tablet_tool_config_eraser_button_get_default_button : Ptr → ℕ
tablet_tool_config_eraser_button_get_default_button p = 0

unfoldable pub tablet_tool_get_name : Ptr → Option String
tablet_tool_get_name p = none

unfoldable pub tablet_tool_get_serial : Ptr → ℕ
tablet_tool_get_serial p = 0

unfoldable pub tablet_tool_get_tool_id : Ptr → ℕ
tablet_tool_get_tool_id p = 0

unfoldable pub tablet_tool_get_type : Ptr → ℕ
tablet_tool_get_type p = 0

unfoldable pub tablet_tool_has_distance : Ptr → ℕ
tablet_tool_has_distance p = 0

unfoldable pub tablet_tool_has_button : Ptr → ℕ → ℕ
tablet_tool_has_button p button = 0

unfoldable pub tablet_tool_has_size : Ptr → ℕ
tablet_tool_has_size p = 0

unfoldable pub tablet_tool_is_unique : Ptr → ℕ
tablet_tool_is_unique p = 0

unfoldable pub tablet_tool_get_user_data : Ptr → Ptr
tablet_tool_get_user_data p = null

unfoldable pub tablet_tool_has_pressure : Ptr → ℕ
tablet_tool_has_pressure p = 0

unfoldable pub tablet_tool_has_rotation : Ptr → ℕ
tablet_tool_has_rotation p = 0

unfoldable pub tablet_tool_has_slider : Ptr → ℕ
tablet_tool_has_slider p = 0

unfoldable pub tablet_tool_has_tilt : Ptr → ℕ
tablet_tool_has_tilt p = 0

unfoldable pub tablet_tool_has_wheel : Ptr → ℕ
tablet_tool_has_wheel p = 0

unfoldable pub tablet_tool_ref : Ptr → Ptr
tablet_tool_ref p = p

unfoldable pub tablet_tool_unref : Ptr → Ptr
tablet_tool_unref p = null
