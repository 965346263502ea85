-- ===== src/Api/Config/Laws.antt =====
-- The setters and getters of the device settings, and what each setter does to what is read.
use libinput_rs.Common.{ℕ, ◌==◌, ◌≡◌, refl, true, not, Option, some, bool_to_nat}
use libinput_rs.Common.Int.{ℤ, is_zero}
use libinput_rs.Floats.{Floats}
use libinput_rs.Ffi.Device.{LibinputDevice, Calibration}
use libinput_rs.Api.Config.{
  configure, query, tap_set_enabled, scroll_set_natural_scroll_enabled, left_handed_set,
  middle_emulation_set_enabled, dwt_set_enabled, tap_set_button_map, accel_set_profile,
  scroll_set_method, click_set_method, accel_set_speed, calibration_set_matrix, tap_get_enabled,
  scroll_get_natural_scroll_enabled, left_handed_get, middle_emulation_get_enabled, dwt_get_enabled,
  tap_get_button_map, accel_get_profile, scroll_get_method, click_get_method, accel_get_speed,
  calibration_get_matrix,
}

-- One call of a setter, with its argument.
pub data Setting (fl : Floats) : Type 0 where
  tap button_map profile scroll_method click_method middle dwt : ℕ → Setting fl
  natural_scroll left_handed : ℤ → Setting fl
  speed : fl.F64 → Setting fl
  matrix : Calibration fl → Setting fl

-- All that the getters give for a device.
pub record Settings (fl : Floats) : Type 0 where
  pub tap : ℕ
  pub button_map : ℕ
  pub profile : ℕ
  pub scroll_method : ℕ
  pub click_method : ℕ
  pub middle : ℕ
  pub dwt : ℕ
  pub natural_scroll : ℕ
  pub left_handed : ℕ
  pub speed : fl.F64
  pub matrix : Option (Calibration fl)

-- A number as the flag that it sets.
abbrev pub flag : ℕ → ℕ
flag n = bool_to_nat (not (n == 0))

module _ {fl : Floats} where
  unfoldable pub set : Setting fl → Option (LibinputDevice fl) → Option (LibinputDevice fl)
  set (tap n) dev = (tap_set_enabled n dev).0
  set (button_map n) dev = (tap_set_button_map n dev).0
  set (profile n) dev = (accel_set_profile n dev).0
  set (scroll_method n) dev = (scroll_set_method n dev).0
  set (click_method n) dev = (click_set_method n dev).0
  set (middle n) dev = (middle_emulation_set_enabled n dev).0
  set (dwt n) dev = (dwt_set_enabled n dev).0
  set (natural_scroll n) dev = (scroll_set_natural_scroll_enabled n dev).0
  set (left_handed n) dev = (left_handed_set n dev).0
  set (speed x) dev = (accel_set_speed x dev).0
  set (matrix m) dev = (calibration_set_matrix (some m) dev).0

  unfoldable pub get : Option (LibinputDevice fl) → Settings fl
  get dev = record {
    tap = tap_get_enabled dev;
    button_map = tap_get_button_map dev;
    profile = accel_get_profile dev;
    scroll_method = scroll_get_method dev;
    click_method = click_get_method dev;
    middle = middle_emulation_get_enabled dev;
    dwt = dwt_get_enabled dev;
    natural_scroll = scroll_get_natural_scroll_enabled dev;
    left_handed = left_handed_get dev;
    speed = accel_get_speed dev;
    matrix = (calibration_get_matrix true dev).0;
  }

  -- What a setting does to what the getters give.
  abbrev pub changed : Setting fl → Settings fl → Settings fl
  changed (tap n) s = record s { tap = flag n }
  changed (button_map n) s = record s { button_map = n }
  changed (profile n) s = record s { profile = n }
  changed (scroll_method n) s = record s { scroll_method = n }
  changed (click_method n) s = record s { click_method = n }
  changed (middle n) s = record s { middle = flag n }
  changed (dwt n) s = record s { dwt = flag n }
  changed (natural_scroll n) s = record s { natural_scroll = bool_to_nat (not (is_zero n)) }
  changed (left_handed n) s = record s { left_handed = bool_to_nat (not (is_zero n)) }
  changed (speed x) s = record s { speed = fl.clamp64 x (fl.neg64 (fl.f64 10 1)) (fl.f64 10 1) }
  changed (matrix m) s = record s { matrix = some m }

  pub set-some :
      (s : Setting fl) (dev : LibinputDevice fl)
      → (dev' : LibinputDevice fl) × (set s (some dev) ≡ some dev')
        × (get (some dev') ≡ changed s (get (some dev)))
  unfolding set get configure query tap_set_enabled scroll_set_natural_scroll_enabled
      left_handed_set middle_emulation_set_enabled dwt_set_enabled tap_set_button_map
      accel_set_profile scroll_set_method click_set_method accel_set_speed calibration_set_matrix
      tap_get_enabled scroll_get_natural_scroll_enabled left_handed_get middle_emulation_get_enabled
      dwt_get_enabled tap_get_button_map accel_get_profile scroll_get_method click_get_method
      accel_get_speed calibration_get_matrix
  set-some (tap n) dev = (_, refl, refl)
  set-some (button_map n) dev = (_, refl, refl)
  set-some (profile n) dev = (_, refl, refl)
  set-some (scroll_method n) dev = (_, refl, refl)
  set-some (click_method n) dev = (_, refl, refl)
  set-some (middle n) dev = (_, refl, refl)
  set-some (dwt n) dev = (_, refl, refl)
  set-some (natural_scroll n) dev = (_, refl, refl)
  set-some (left_handed n) dev = (_, refl, refl)
  set-some (speed x) dev = (_, refl, refl)
  set-some (matrix m) dev = (_, refl, refl)
