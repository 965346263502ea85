-- ===== src/Api/Config/Fixed.antt =====
-- src/lib.rs: the settings that no device keeps. Their getters return constants; of their setters,
-- some return 0 for success and some 1.
use libinput_rs.Common.{ℕ, Option}
use libinput_rs.Floats.{Floats}
use libinput_rs.Ffi.Device.{LibinputDevice}
use libinput_rs.Api.Config.{Configured, configure}

module _ {fl : Floats} where
  -- The setters that ignore their value: with success, and without.
  unfoldable pub report_success : Option (LibinputDevice fl) → Configured fl
  unfolding configure
  report_success dev = configure (λ dev. dev) dev

  unfoldable pub report_unsupported : Option (LibinputDevice fl) → Configured fl
  report_unsupported dev = (dev, 1)

  unfoldable pub tap_set_drag_enabled : ℕ → Option (LibinputDevice fl) → Configured fl
  unfolding report_success
  tap_set_drag_enabled value = report_success

  unfoldable pub tap_get_drag_enabled : Option (LibinputDevice fl) → ℕ
  tap_get_drag_enabled dev = 1

  unfoldable pub tap_set_drag_lock_enabled : ℕ → Option (LibinputDevice fl) → Configured fl
  unfolding report_success
  tap_set_drag_lock_enabled value = report_success

  unfoldable pub tap_get_drag_lock_enabled : Option (LibinputDevice fl) → ℕ
  tap_get_drag_lock_enabled dev = 0

  unfoldable pub scroll_set_button : ℕ → Option (LibinputDevice fl) → Configured fl
  unfolding report_success
  scroll_set_button value = report_success

  unfoldable pub scroll_get_button : Option (LibinputDevice fl) → ℕ
  scroll_get_button dev = 0

  unfoldable pub send_events_set_mode : ℕ → Option (LibinputDevice fl) → Configured fl
  unfolding report_success
  send_events_set_mode value = report_success

  unfoldable pub send_events_get_mode : Option (LibinputDevice fl) → ℕ
  send_events_get_mode dev = 0

  unfoldable pub rotation_set_angle : ℕ → Option (LibinputDevice fl) → Configured fl
  unfolding report_success
  rotation_set_angle value = report_success

  unfoldable pub rotation_get_angle : Option (LibinputDevice fl) → ℕ
  rotation_get_angle dev = 0

  unfoldable pub three_finger_drag_set_enabled : ℕ → Option (LibinputDevice fl) → Configured fl
  unfolding report_unsupported
  three_finger_drag_set_enabled value = report_unsupported

  unfoldable pub three_finger_drag_get_enabled : Option (LibinputDevice fl) → ℕ
  three_finger_drag_get_enabled dev = 0

  unfoldable pub scroll_set_button_lock : ℕ → Option (LibinputDevice fl) → Configured fl
  unfolding report_unsupported
  scroll_set_button_lock value = report_unsupported

  unfoldable pub scroll_get_button_lock : Option (LibinputDevice fl) → ℕ
  scroll_get_button_lock dev = 0

  unfoldable pub click_set_clickfinger_button_map : ℕ → Option (LibinputDevice fl) → Configured fl
  unfolding report_unsupported
  click_set_clickfinger_button_map value = report_unsupported

  unfoldable pub click_get_clickfinger_button_map : Option (LibinputDevice fl) → ℕ
  click_get_clickfinger_button_map dev = 0

  unfoldable pub dwt_set_timeout : ℕ → Option (LibinputDevice fl) → Configured fl
  unfolding report_unsupported
  dwt_set_timeout value = report_unsupported

  unfoldable pub dwt_get_timeout : Option (LibinputDevice fl) → ℕ
  dwt_get_timeout dev = 500

  unfoldable pub dwtp_set_enabled : ℕ → Option (LibinputDevice fl) → Configured fl
  unfolding report_unsupported
  dwtp_set_enabled value = report_unsupported

  unfoldable pub dwtp_get_enabled : Option (LibinputDevice fl) → ℕ
  dwtp_get_enabled dev = 0

  unfoldable pub dwtp_set_timeout : ℕ → Option (LibinputDevice fl) → Configured fl
  unfolding report_unsupported
  dwtp_set_timeout value = report_unsupported

  unfoldable pub dwtp_get_timeout : Option (LibinputDevice fl) → ℕ
  dwtp_get_timeout dev = 500

-- The defaults.
unfoldable pub tap_get_default_drag_enabled : ℕ
tap_get_default_drag_enabled = 1

unfoldable pub tap_get_default_drag_lock_enabled : ℕ
tap_get_default_drag_lock_enabled = 0

unfoldable pub scroll_get_default_button : ℕ
scroll_get_default_button = 0

unfoldable pub send_events_get_default_mode : ℕ
send_events_get_default_mode = 0

unfoldable pub rotation_get_default_angle : ℕ
rotation_get_default_angle = 0

unfoldable pub three_finger_drag_get_default_enabled : ℕ
three_finger_drag_get_default_enabled = 0

unfoldable pub scroll_get_default_button_lock : ℕ
scroll_get_default_button_lock = 0

unfoldable pub click_get_default_clickfinger_button_map : ℕ
click_get_default_clickfinger_button_map = 0

unfoldable pub dwt_get_default_timeout : ℕ
dwt_get_default_timeout = 500

unfoldable pub dwtp_get_default_enabled : ℕ
dwtp_get_default_enabled = 0

unfoldable pub dwtp_get_default_timeout : ℕ
dwtp_get_default_timeout = 500
