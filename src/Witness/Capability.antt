-- ===== src/Witness/Capability.antt =====
-- A keyboard and a mouse that send what they were announced with, and a keyboard with a wheel for the
-- volume, which is silent.
use libinput_rs.Common.{
  false, ◌*◌, bool_to_nat, ◌&&◌, ◌≡◌, refl, true, none, some, List, [], ◌∷◌, ◌++◌, All,
}
use libinput_rs.Common.Int.{pos}
use libinput_rs.Evdev.{Device, EventType, has_key_a}
use libinput_rs.Ffi.{LibinputEvent}
use libinput_rs.Backend.Open.{opened, announce, opens_as_pointer}
use libinput_rs.Backend.Tracked.{new_tracked}
use libinput_rs.Backend.Batch.{Timed, drain_batch}
use libinput_rs.Api.Context.{LibinputContext, create_context}
use libinput_rs.Api.Config.{
  has_capability, accel_get_default_profile, scroll_get_default_method, click_get_default_method,
}
use libinput_rs.Api.Config.Offered.{
  accel_get_profiles, scroll_get_methods, click_get_methods, pointer_queries, pad_queries,
  keyboard_queries, absent_queries, AllAnswer, has_bit, announce_offered,
}
use libinput_rs.Api.Objects.Info.{
  libinput_device_touch_get_touch_count, libinput_device_config_tap_get_finger_count,
}
use libinput_rs.Api.Session.{Call, path_add_device, configure, dispatch, get_event, calls}
use libinput_rs.Api.Capability.{is_mixed}
use libinput_rs.Api.Capability.Table.{IsAllowed}
use libinput_rs.Api.Capability.Moves.{IsMild}
use libinput_rs.Api.Capability.Session.{calls-AllAllowed}
use libinput_rs.Api.Capability.Silent.{Keyless, absolute_keyboard_silent}
use libinput_rs.Witness.Data.{fl, keyboard, touchpad, event, pad_device}
use libinput_rs.Witness.Table.{answers}
use libinput_rs.Witness.Client.{callbacks}

abbrev session : List (Call fl)
session =
    path_add_device (some "/dev/input/event4") (opened 4 keyboard)
    ∷ path_add_device (some "/dev/input/event5") (opened 6 touchpad)
    ∷ configure 4 (λ dev. record dev { left_handed = true })
    ∷ dispatch answers
    ∷ get_event
    ∷ []

session-IsMild : All IsMild session
unfolding is_mixed has_key_a opens_as_pointer
session-IsMild = (refl, (refl, ((λ dev. (refl, refl, refl)), ((refl, tt), (tt, tt)))))

calls-AllAllowed_example :
    (c : LibinputContext fl) × (es : List (LibinputEvent fl)) × (calls 1 session
        (create_context (some callbacks) 0 (pos 3) (some 9) 1 2)
      ≡ some (some c, es))
    × All (IsAllowed c.world.heap) (es ++ c.event_queue)
calls-AllAllowed_example = calls-AllAllowed callbacks 0 (pos 3) (some 9) 1 2 session session-IsMild

abbrev wheel_keyboard : Device
wheel_keyboard = record keyboard { absolute_events = true }

abbrev presses : List Timed
presses = event 10 EventType.key 30 (pos 1) ∷ event 20 EventType.key 30 (pos 0) ∷ []

absolute_keyboard_silent_example :
    (has_capability 1 (some (announce {fl = fl} "/dev/input/event3" 2 1 wheel_keyboard)) ≡ 1)
    × (let read =
          drain_batch pad_device none 1 presses
            (new_tracked fl wheel_keyboard "/dev/input/event3" 8)
            none in
        Keyless read.out
        × Keyless (drain_batch pad_device none 1 presses read.td read.global_typing_time).out)
unfolding has_key_a
absolute_keyboard_silent_example =
    absolute_keyboard_silent pad_device none 1 "/dev/input/event3" 2 8 wheel_keyboard presses
      presses none refl refl

announce_offered_example :
    let dev = some (announce {fl = fl} "/dev/input/event5" 2 1 touchpad) in
    let p = opens_as_pointer touchpad in
    AllAnswer dev p (pointer_queries 0x110)
    × AllAnswer dev (touchpad.absolute_events && p) pad_queries
    × AllAnswer dev (has_key_a touchpad) (keyboard_queries 0x110)
    × AllAnswer dev false (absent_queries 0x110)
    × (has_bit (accel_get_profiles dev) accel_get_default_profile ≡ p)
    × (has_bit (scroll_get_methods dev) scroll_get_default_method ≡ p)
    × (has_bit (click_get_methods dev) click_get_default_method ≡ p)
    × (libinput_device_config_tap_get_finger_count dev ≡ 3 * bool_to_nat p)
    × (libinput_device_touch_get_touch_count dev ≡ 10 * bool_to_nat (touchpad.absolute_events && p))
announce_offered_example = announce_offered fl "/dev/input/event5" 2 1 touchpad 0x110
