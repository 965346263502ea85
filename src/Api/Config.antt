-- ===== src/Api/Config.antt =====
-- src/lib.rs, lines 1023 to 1773: the settings of a device. A null pointer to a device is `none`.
-- Setters return 0 for success and 1 where the setting is not supported, getters of flags return
-- the flag as a number.
pub mod Laws
pub mod Fixed
pub mod Offered
pub mod Area
use libinput_rs.Common.{
  ℕ, ◌==◌, Bool, true, false, not, ◌||◌, Option, none, some, bool_to_nat, if◌then◌else◌,
}
use libinput_rs.Common.Int.{ℤ, pos, is_zero}
use libinput_rs.Floats.{Floats}
use libinput_rs.Ffi.Device.{LibinputDevice, Calibration, identity_calibration}

-- The device after a setter, and the status that it returns.
abbrev pub Configured : Floats → Type 0
Configured fl = Option (LibinputDevice fl) × ℕ

module _ {fl : Floats} where
  -- The common form of the setters and of the getters.
  unfoldable pub configure :
      (LibinputDevice fl → LibinputDevice fl) → Option (LibinputDevice fl) → Configured fl
  configure f none = (none, 1)
  configure f (some dev) = (some (f dev), 0)

  unfoldable pub query {ℓ} :
      {A : Type ℓ} → A → (LibinputDevice fl → A) → Option (LibinputDevice fl) → A
  query null_value f none = null_value
  query null_value f (some dev) = f dev

  unfoldable pub tap_set_enabled : ℕ → Option (LibinputDevice fl) → Configured fl
  unfolding configure
  tap_set_enabled enabled = configure (λ dev. record dev { tap_enabled = not (enabled == 0) })

  unfoldable pub tap_get_enabled : Option (LibinputDevice fl) → ℕ
  unfolding query
  tap_get_enabled = query 0 (λ dev. bool_to_nat dev.tap_enabled)

  unfoldable pub scroll_set_natural_scroll_enabled : ℤ → Option (LibinputDevice fl) → Configured fl
  unfolding configure
  scroll_set_natural_scroll_enabled enabled =
      configure (λ dev. record dev { natural_scroll = not (is_zero enabled) })

  unfoldable pub scroll_get_natural_scroll_enabled : Option (LibinputDevice fl) → ℕ
  unfolding query
  scroll_get_natural_scroll_enabled = query 0 (λ dev. bool_to_nat dev.natural_scroll)

  unfoldable pub left_handed_set : ℤ → Option (LibinputDevice fl) → Configured fl
  unfolding configure
  left_handed_set enabled = configure (λ dev. record dev { left_handed = not (is_zero enabled) })

  unfoldable pub left_handed_get : Option (LibinputDevice fl) → ℕ
  unfolding query
  left_handed_get = query 0 (λ dev. bool_to_nat dev.left_handed)

  unfoldable pub middle_emulation_set_enabled : ℕ → Option (LibinputDevice fl) → Configured fl
  unfolding configure
  middle_emulation_set_enabled enabled =
      configure (λ dev. record dev { middle_emulation = not (enabled == 0) })

  unfoldable pub middle_emulation_get_enabled : Option (LibinputDevice fl) → ℕ
  unfolding query
  middle_emulation_get_enabled = query 0 (λ dev. bool_to_nat dev.middle_emulation)

  unfoldable pub dwt_set_enabled : ℕ → Option (LibinputDevice fl) → Configured fl
  unfolding configure
  dwt_set_enabled enabled = configure (λ dev. record dev { dwt_enabled = not (enabled == 0) })

  unfoldable pub dwt_get_enabled : Option (LibinputDevice fl) → ℕ
  unfolding query
  dwt_get_enabled = query 0 (λ dev. bool_to_nat dev.dwt_enabled)

  unfoldable pub tap_set_button_map : ℕ → Option (LibinputDevice fl) → Configured fl
  unfolding configure
  tap_set_button_map value = configure (λ dev. record dev { tap_button_map = value })

  unfoldable pub tap_get_button_map : Option (LibinputDevice fl) → ℕ
  unfolding query
  tap_get_button_map = query 0 (λ dev. dev.tap_button_map)

  unfoldable pub accel_set_profile : ℕ → Option (LibinputDevice fl) → Configured fl
  unfolding configure
  accel_set_profile value = configure (λ dev. record dev { accel_profile = value })

  unfoldable pub accel_get_profile : Option (LibinputDevice fl) → ℕ
  unfolding query
  accel_get_profile = query 0 (λ dev. dev.accel_profile)

  unfoldable pub scroll_set_method : ℕ → Option (LibinputDevice fl) → Configured fl
  unfolding configure
  scroll_set_method value = configure (λ dev. record dev { scroll_method = value })

  unfoldable pub scroll_get_method : Option (LibinputDevice fl) → ℕ
  unfolding query
  scroll_get_method = query 0 (λ dev. dev.scroll_method)

  unfoldable pub click_set_method : ℕ → Option (LibinputDevice fl) → Configured fl
  unfolding configure
  click_set_method value = configure (λ dev. record dev { click_method = value })

  unfoldable pub click_get_method : Option (LibinputDevice fl) → ℕ
  unfolding query
  click_get_method = query 0 (λ dev. dev.click_method)

  -- The speed is kept between -1.0 and 1.0.
  unfoldable pub accel_set_speed : fl.F64 → Option (LibinputDevice fl) → Configured fl
  unfolding configure
  accel_set_speed speed =
      configure (λ dev. record dev {
        accel_speed = fl.clamp64 speed (fl.neg64 (fl.f64 10 1)) (fl.f64 10 1);
      })

  unfoldable pub accel_get_speed : Option (LibinputDevice fl) → fl.F64
  unfolding query
  accel_get_speed = query (fl.f64 0 1) (λ dev. dev.accel_speed)

  -- The matrix is `none` where its pointer is null.
  unfoldable pub calibration_set_matrix :
      Option (Calibration fl) → Option (LibinputDevice fl) → Configured fl
  calibration_set_matrix (some matrix) (some dev) = (some (record dev { calibration = matrix }), 0)
  calibration_set_matrix matrix dev = (dev, 1)

  -- What is written to the matrix, if anything, and the status: 1 for a matrix.
  unfoldable pub calibration_get_matrix :
      Bool → Option (LibinputDevice fl) → Option (Calibration fl) × ℕ
  calibration_get_matrix true (some dev) = (some dev.calibration, 1)
  calibration_get_matrix wanted dev = (none, 0)

  unfoldable pub calibration_get_default_matrix : Bool → Option (Calibration fl) × ℕ
  unfolding identity_calibration
  calibration_get_default_matrix true = (some (identity_calibration fl), 1)
  calibration_get_default_matrix false = (none, 0)

  unfoldable pub has_capability : ℕ → Option (LibinputDevice fl) → ℕ
  unfolding query
  has_capability capability = query 0 (λ dev. bool_to_nat (
      if capability == 1
      then dev.has_keyboard
      else (if capability == 2
          then dev.has_pointer
          else (if capability == 3
              then dev.has_touch
              else (if capability == 4
                  then dev.has_gesture
                  else (if capability == 5
                      then dev.has_switch
                      else (if capability == 6 then dev.has_tablet else false)))))))

-- The defaults, which no device changes.
unfoldable pub tap_get_default_enabled : ℕ
tap_get_default_enabled = 1

unfoldable pub scroll_get_default_natural_scroll_enabled : ℕ
scroll_get_default_natural_scroll_enabled = 0

unfoldable pub left_handed_get_default : ℕ
left_handed_get_default = 0

unfoldable pub middle_emulation_get_default_enabled : ℕ
middle_emulation_get_default_enabled = 0

unfoldable pub dwt_get_default_enabled : ℕ
dwt_get_default_enabled = 1

unfoldable pub tap_get_default_button_map : ℕ
tap_get_default_button_map = 0

unfoldable pub accel_get_default_profile : ℕ
accel_get_default_profile = 1

unfoldable pub scroll_get_default_method : ℕ
scroll_get_default_method = 2

unfoldable pub click_get_default_method : ℕ
click_get_default_method = 1

unfoldable pub accel_get_default_speed : (fl : Floats) → fl.F64
accel_get_default_speed fl = fl.f64 0 1
