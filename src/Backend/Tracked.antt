-- ===== src/Backend/Tracked.antt =====
-- src/backend.rs, lines 22 to 164: the touch slots, the held keys and the state that the backend
-- keeps for each open device.
use Prim.Native.String.{String}
use libinput_rs.Common.{
  ℕ, Bool, true, false, not, ◌&&◌, ◌||◌, Option, none, some, List, [], ◌∷◌, length, replicate,
}
use libinput_rs.Common.Int.{ℤ, pos}
use libinput_rs.Evdev.{Device, has_key_a}
use libinput_rs.Floats.{Floats}
use libinput_rs.Ffi.{Ptr}

pub record MtSlot (fl : Floats) : Type 0 where
  pub active : Bool
  pub tracking_id : ℤ
  pub x : fl.F64
  pub y : fl.F64
  pub distance : fl.F64

-- Instants are in nanoseconds.
pub record HeldKey : Type 0 where
  pub code : ℕ
  pub ts_usec : ℕ
  pub last_fire : ℕ
  pub initial_fired : Bool

pub record TrackedDevice (fl : Floats) : Type 0 where
  pub device : Device
  pub path : String
  pub is_absolute : Bool
  pub is_keyboard : Bool
  pub is_pointer : Bool
  pub remainder_x : fl.F32
  pub remainder_y : fl.F32
  pub touch_active : Bool
  pub touch_fingers : ℕ
  pub last_x : Option ℤ
  pub last_y : Option ℤ
  pub current_dx : ℤ
  pub current_dy : ℤ
  pub tap_emitted : Bool
  pub touch_start_time : Option ℕ
  pub last_movement_time : Option ℕ
  pub active_click_button : Option ℕ
  pub mt_slots : List (MtSlot fl)
  pub current_slot : ℕ
  pub pinch_active : Bool
  pub pinch_base_dist : fl.F64
  pub pinch_base_angle : fl.F64
  pub pinch_fingers : ℤ
  pub held_keys : List HeldKey
  pub last_typing_time : Option ℕ
  pub lib_device : Ptr

unfoldable pub default_slot : (fl : Floats) → MtSlot fl
default_slot fl = record {
  active = false;
  tracking_id = pos 0;
  x = fl.f64 0 1;
  y = fl.f64 0 1;
  distance = fl.f64 0 1;
}

unfoldable pub new_tracked : (fl : Floats) → Device → String → Ptr → TrackedDevice fl
unfolding default_slot has_key_a
new_tracked fl device path lib_device =
    let is_keyboard = has_key_a device in
    record {
      device = device;
      path = path;
      is_absolute = device.absolute_events;
      is_keyboard = is_keyboard;
      is_pointer =
          device.prop_pointer
          || device.prop_buttonpad
          || (not is_keyboard && device.relative_events);
      remainder_x = fl.f32 0 1;
      remainder_y = fl.f32 0 1;
      touch_active = false;
      touch_fingers = 0;
      last_x = none;
      last_y = none;
      current_dx = pos 0;
      current_dy = pos 0;
      tap_emitted = false;
      touch_start_time = none;
      last_movement_time = none;
      active_click_button = none;
      mt_slots = replicate 10 (default_slot fl);
      current_slot = 0;
      pinch_active = false;
      pinch_base_dist = fl.f64 0 1;
      pinch_base_angle = fl.f64 0 1;
      pinch_fingers = pos 0;
      held_keys = [];
      last_typing_time = none;
      lib_device = lib_device;
    }

-- `mt_slots.iter().filter(|s| s.active)`.
unfoldable pub active_slots : {fl : Floats} → List (MtSlot fl) → List (MtSlot fl)
active_slots [] = []
active_slots (s ∷ slots) = elim s.active [
  | true ↦ s ∷ active_slots slots
  | false ↦ active_slots slots
]

unfoldable pub active_slot_count : {fl : Floats} → TrackedDevice fl → ℕ
unfolding active_slots
active_slot_count td = length (active_slots td.mt_slots)

-- The distance of the first two slots of a list.
slot_distance : {fl : Floats} → List (MtSlot fl) → Option fl.F64
slot_distance {fl} (a ∷ b ∷ _) =
    let dx = fl.sub64 a.x b.x in
    let dy = fl.sub64 a.y b.y in some (fl.sqrt64 (fl.add64 (fl.mul64 dx dx) (fl.mul64 dy dy)))
slot_distance _ = none

unfoldable pub primary_slot_distance : {fl : Floats} → TrackedDevice fl → Option fl.F64
unfolding active_slots slot_distance
primary_slot_distance td = slot_distance (active_slots td.mt_slots)

slot_angle : {fl : Floats} → List (MtSlot fl) → fl.F64
slot_angle {fl} (a ∷ b ∷ _) = fl.to_degrees (fl.atan2 (fl.sub64 b.y a.y) (fl.sub64 b.x a.x))
slot_angle {fl} _ = fl.f64 0 1

unfoldable pub primary_slot_angle : {fl : Floats} → TrackedDevice fl → fl.F64
unfolding active_slots slot_angle
primary_slot_angle td = slot_angle (active_slots td.mt_slots)
