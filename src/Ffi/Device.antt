-- ===== src/Ffi/Device.antt =====
-- src/ffi_types.rs: the seat and the device objects, and the device as it is created.
use Prim.Native.String.{String}
use libinput_rs.Common.{ℕ, Bool, true, false}
use libinput_rs.Common.Int.{ℤ, pos}
use libinput_rs.Floats.{Floats}
use libinput_rs.Ffi.{Ptr, null}

pub record LibinputSeat : Type 0 where
  pub physical_name : String
  pub logical_name : String
  pub refcount : ℤ
  pub user_data : Ptr
  pub context : Ptr

-- The six entries of the calibration matrix.
pub record Calibration (fl : Floats) : Type 0 where
  pub c0 : fl.F32
  pub c1 : fl.F32
  pub c2 : fl.F32
  pub c3 : fl.F32
  pub c4 : fl.F32
  pub c5 : fl.F32

pub record LibinputDevice (fl : Floats) : Type 0 where
  pub name : String
  pub sysname : String
  pub devnode : String
  pub vendor_id : ℕ
  pub product_id : ℕ
  pub has_keyboard : Bool
  pub has_pointer : Bool
  pub has_touch : Bool
  pub has_gesture : Bool
  pub has_switch : Bool
  pub has_tablet : Bool
  pub tap_enabled : Bool
  pub tap_button_map : ℕ
  pub natural_scroll : Bool
  pub accel_speed : fl.F64
  pub accel_profile : ℕ
  pub left_handed : Bool
  pub scroll_method : ℕ
  pub click_method : ℕ
  pub middle_emulation : Bool
  pub dwt_enabled : Bool
  pub calibration : Calibration fl
  pub refcount : ℤ
  pub user_data : Ptr
  pub seat : Ptr
  pub context : Ptr

-- The matrix `[1.0, 0.0, 0.0, 0.0, 1.0, 0.0]`.
unfoldable pub identity_calibration : (fl : Floats) → Calibration fl
identity_calibration fl = record {
  c0 = fl.f32 10 1;
  c1 = fl.f32 0 1;
  c2 = fl.f32 0 1;
  c3 = fl.f32 0 1;
  c4 = fl.f32 10 1;
  c5 = fl.f32 0 1;
}

-- Names and paths come from the kernel and hold no NUL, so `CString::new` keeps them.
unfoldable pub new_device : (fl : Floats) → String → String → Ptr → Ptr → LibinputDevice fl
unfolding identity_calibration
new_device fl name devnode seat context = record {
  name = name;
  sysname = "";
  devnode = devnode;
  vendor_id = 0;
  product_id = 0;
  has_keyboard = false;
  has_pointer = true;
  has_touch = false;
  has_gesture = false;
  has_switch = false;
  has_tablet = false;
  tap_enabled = true;
  tap_button_map = 0;
  natural_scroll = true;
  accel_speed = fl.f64 0 1;
  accel_profile = 1;
  left_handed = false;
  scroll_method = 2;
  click_method = 1;
  middle_emulation = false;
  dwt_enabled = true;
  calibration = identity_calibration fl;
  refcount = pos 1;
  user_data = null;
  seat = seat;
  context = context;
}
