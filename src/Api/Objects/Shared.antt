-- ===== src/Api/Objects/Shared.antt =====
-- src/lib.rs: references to the seat, which are counted but free nothing, and the accelerations that
-- a client makes for itself. A null seat is `none`; an acceleration is a box that holds the number
-- of a profile.
use libinput_rs.Common.{
  Bool, ◌||◌, ℕ, suc, ◌==◌, ◌≡◌, ap, ◌<◌, false, not, Option, none, some, List, ◌∷◌, arith, retain,
  if◌then◌else◌, beq_self,
}
use libinput_rs.Common.Int.{pos}
use libinput_rs.Common.Word.{i32_add, i32_sub}
use libinput_rs.Floats.{Floats}
use libinput_rs.Ffi.{Ptr, null}
use libinput_rs.Ffi.Device.{LibinputDevice, LibinputSeat}
use libinput_rs.Backend.World.{lookup}
use libinput_rs.Api.Config.{Configured}
use libinput_rs.Api.Context.Refs.{i32_add_one, i32_sub_one}

unfoldable pub libinput_seat_ref : Option LibinputSeat → Option LibinputSeat
libinput_seat_ref none = none
libinput_seat_ref (some seat) = some (record seat { refcount = i32_add seat.refcount (pos 1) })

-- It returns null, but the seat stays.
unfoldable pub libinput_seat_unref : Option LibinputSeat → Option LibinputSeat × Ptr
libinput_seat_unref none = (none, null)
libinput_seat_unref (some seat) =
    (some (record seat { refcount = i32_sub seat.refcount (pos 1) }), null)

-- A reference that is given back leaves the seat as it was.
seat_unref-ref :
    (seat : LibinputSeat) (n : ℕ)
    → seat.refcount ≡ pos n
    → suc n < 0x8000_0000
    → (libinput_seat_unref (libinput_seat_ref (some seat))).0 ≡ some seat
unfolding libinput_seat_ref libinput_seat_unref
seat_unref-ref seat n e few =
    let back : i32_sub (i32_add seat.refcount (pos 1)) (pos 1) ≡ seat.refcount =
      cc (e, i32_add_one n few, i32_sub_one n few) in
    ap (λ z. some (record seat { refcount = z })) back

abbrev pub Accels : Type 0
Accels = List (Ptr × ℕ)

-- `p` is the pointer that the box gets.
unfoldable pub libinput_config_accel_create : Ptr → ℕ → Accels → Accels × Ptr
libinput_config_accel_create p profile accels = ((p, profile) ∷ accels, p)

unfoldable pub libinput_config_accel_destroy : Ptr → Accels → Option Accels
libinput_config_accel_destroy p accels =
    if p == null then some accels else (elim (lookup p accels) [
      | none ↦ none
      | some profile ↦ some (retain (λ e. not (e.0 == p)) accels)
    ])

-- The points are given or null, and not read: there are no custom accelerations.
unfoldable pub libinput_config_accel_set_points : (fl : Floats) → Ptr → ℕ → fl.F64 → ℕ → Bool → ℕ
libinput_config_accel_set_points fl p accel_type step npoints points =
    if p == null || not points || fl.le64 step (fl.f64 0 1) || npoints == 0 then 2 else 1

module _ {fl : Floats} where
  -- `none` where the profile is read through a pointer to no box.
  unfoldable pub libinput_device_config_accel_apply :
      Ptr → Accels → Option (LibinputDevice fl) → Option (Configured fl)
  libinput_device_config_accel_apply p accels none = some (none, 2)
  libinput_device_config_accel_apply p accels (some dev) =
      if p == null then some (some dev, 2) else (elim (lookup p accels) [
        | none ↦ none
        | some profile ↦ some (some (record dev { accel_profile = profile }), 0)
      ])

  -- An acceleration that was just made gives the device its profile, and can then be destroyed.
  accel_apply-create :
      (p profile : ℕ) (accels : Accels) (dev : LibinputDevice fl)
      → (p == null) ≡ false
      → let made = libinput_config_accel_create p profile accels in
        (libinput_device_config_accel_apply p made.0 (some dev)
          ≡ some (some (record dev { accel_profile = profile }), 0))
        × (libinput_config_accel_destroy p made.0 ≡ some (retain (λ e. not (e.0 == p)) accels))
  unfolding libinput_config_accel_create libinput_config_accel_destroy
      libinput_device_config_accel_apply lookup retain
  accel_apply-create p profile accels dev some_ptr =
      let same = beq_self p in (ground arith, ground arith)
