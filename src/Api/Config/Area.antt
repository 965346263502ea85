-- ===== src/Api/Config/Area.antt =====
-- src/lib.rs: the area of a touchpad that is in use, which no device keeps, and what else a device
-- has that is no setting. A pointer to a number that is to be written is a flag: whether it is given.
use libinput_rs.Common.{ℕ, Bool, ◌&&◌, Option, none, some, if◌then◌else◌}
use libinput_rs.Floats.{Floats}
use libinput_rs.Ffi.Device.{LibinputDevice}
use libinput_rs.Api.Config.{Configured, configure}

pub record LibinputConfigAreaRectangle (fl : Floats) : Type 0 where
  pub x1 : fl.F64
  pub y1 : fl.F64
  pub x2 : fl.F64
  pub y2 : fl.F64

module _ {fl : Floats} where
  unfoldable pub area_set_rectangle :
      fl.F64 → fl.F64 → fl.F64 → fl.F64 → Option (LibinputDevice fl) → Configured fl
  unfolding configure
  area_set_rectangle x1 y1 x2 y2 = configure (λ dev. dev)

  unfoldable pub area_get_rectangle : Option (LibinputDevice fl) → LibinputConfigAreaRectangle fl
  area_get_rectangle dev = record {
    x1 = fl.f64 0 1;
    y1 = fl.f64 0 1;
    x2 = fl.f64 10 1;
    y2 = fl.f64 10 1;
  }

  unfoldable pub area_get_default_rectangle :
      Option (LibinputDevice fl) → LibinputConfigAreaRectangle fl
  area_get_default_rectangle dev = record {
    x1 = fl.f64 0 1;
    y1 = fl.f64 0 1;
    x2 = fl.f64 10 1;
    y2 = fl.f64 10 1;
  }

  unfoldable pub device_led_update : ℕ → Option (LibinputDevice fl) → Configured fl
  unfolding configure
  device_led_update leds = configure (λ dev. dev)

  -- The width and the height that are written, and the status.
  unfoldable pub device_get_size :
      Bool → Bool → Option (LibinputDevice fl) → Option (fl.F64 × fl.F64) × ℕ
  device_get_size width height dev =
      if width && height then (some (fl.f64 0 1, fl.f64 0 1), 1) else (none, 0)
