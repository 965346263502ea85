-- ===== src/Witness/Life.antt =====
-- The life of a context with one mouse, which the client refers to and lets go of.
use libinput_rs.Common.{refl, true, some, List, [], ◌∷◌, arith, retain}
use libinput_rs.Common.Int.{pos}
use libinput_rs.Ffi.Device.{new_device}
use libinput_rs.Common.{◌<◌}
use libinput_rs.Common.Int.{◌+ℤ◌, ◌-ℤ◌}
use libinput_rs.Common.Word.{i32_add, i32_sub, i32_as_u32, u32_as_i32}
use libinput_rs.Evdev.{has_key_a}
use libinput_rs.Backend.World.{contains_key, lookup}
use libinput_rs.Backend.Open.{
  opened, try_open, open_device, is_own_name, opens_as_pointer, track, allocate, announce,
}
use libinput_rs.Api.Context.{
  new_context, registered, libinput_path_add_device, libinput_get_event, libinput_ref,
  libinput_unref,
}
use libinput_rs.Api.Session.{path_add_device, get_event, configure, call, write_device}
use libinput_rs.Api.Objects.{libinput_device_ref, libinput_device_unref, free_all}
use libinput_rs.Api.Life.{
  LifeCall, library, ref_device, unref_device, ref_context, unref_context, Life, alive, life_call,
  drop_context,
}
use libinput_rs.Api.Life.Client.{new_client, Lawful, life_calls}
use libinput_rs.Api.Life.Whole.{Ends, life_calls-IsAccounted}
use libinput_rs.Witness.Data.{fl, mouse}
use libinput_rs.Witness.Client.{callbacks}

-- Pointer 4 is the mouse. Its last reference is not given back.
abbrev life : List (LifeCall fl)
life =
    library (path_add_device (some "/dev/input/event4") (opened 4 mouse))
    ∷ library get_event
    ∷ ref_device 4
    ∷ ref_context
    ∷ library (configure 4 (λ dev. record dev { left_handed = true }))
    ∷ ref_device 4
    ∷ unref_context
    ∷ unref_device 4
    ∷ unref_context
    ∷ []

abbrev new_life : Life fl
new_life = alive (new_context callbacks 0 (pos 3) (some 9) 1 2)

life-Lawful : Lawful 1 life new_client new_life
unfolding life_call call libinput_path_add_device try_open open_device is_own_name opens_as_pointer
    has_key_a track allocate announce new_context registered contains_key lookup write_device
    libinput_get_event libinput_device_ref libinput_device_unref libinput_ref libinput_unref i32_add
    i32_sub i32_as_u32 u32_as_i32 ◌+ℤ◌ ◌-ℤ◌ drop_context free_all retain new_device
life-Lawful =
    let one : 0 < 1 = omega arith in
    let two : 0 < 2 = omega arith in
    let small : 3 < 0x8000_0000 = omega arith in
    (
      one,
      tt,
      (
        one,
        tt,
        (
          one,
          (refl, omega arith),
          (
            one,
            omega arith,
            (
              two,
              (refl, λ dev. refl),
              (two, (refl, small), (two, tt, (one, omega arith, (one, tt, tt)))),
            ),
          ),
        ),
      ),
    )

life_calls-IsAccounted_example : Ends (life_calls 1 life new_client new_life)
life_calls-IsAccounted_example =
    life_calls-IsAccounted callbacks 0 (pos 3) (some 9) 1 2 life life-Lawful
