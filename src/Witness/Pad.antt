-- ===== src/Witness/Pad.antt =====
-- The touchpad: two fingers land and pinch, one finger taps and clicks.
use libinput_rs.Common.{ℕ, ◌≡◌, refl, none, some, List, [], ◌∷◌, arith, map, length}
use libinput_rs.Common.Int.{pos}
use libinput_rs.Common.Word.{i32_add, i32_sub, i32_as_u32}
use libinput_rs.Evdev.{EventType, systime_to_usec, btn_left, btn_right}
use libinput_rs.Backend.Tracked.{TrackedDevice, new_tracked}
use libinput_rs.Backend.Relative.{button_event}
use libinput_rs.Backend.Touchpad.Click.{finger_button}
use libinput_rs.Backend.Touchpad.Invariant.{IsValid, new_tracked-IsValid}
use libinput_rs.Backend.Touchpad.Pinch.{follow, progress}
use libinput_rs.Backend.Batch.{Timed, drain_event, drain_batch}
use libinput_rs.Backend.Batch.Pinch.{drain_batch-Keeps}
use libinput_rs.Backend.Batch.Consistent.{AllFrom, drain_batch-AllFrom}
use libinput_rs.Backend.Batch.Valid.{drain_batch-IsValid}
use libinput_rs.Backend.Batch.Clicks.{Turn, after_turns, left_button, click_press_release}
use libinput_rs.Backend.Batch.Motion.{Step, x_event, drain_batch-current_dx}
use libinput_rs.Witness.Data.{fl, at_ms, event, pad_device, pad, run_pad}

-- Two fingers land, one moves, and both leave.
abbrev pinching : List Timed
pinching =
    event 10 EventType.absolute 0x2f (pos 0)
    ∷ event 10 EventType.absolute 0x39 (pos 100)
    ∷ event 10 EventType.absolute 0x2f (pos 1)
    ∷ event 10 EventType.absolute 0x39 (pos 101)
    ∷ event 10 EventType.absolute 0x35 (pos 40)
    ∷ event 10 EventType.key 0x14a (pos 1)
    ∷ event 10 EventType.synchronization 0 (pos 0)
    ∷ event 20 EventType.absolute 0x35 (pos 80)
    ∷ event 20 EventType.synchronization 0 (pos 0)
    ∷ event 30 EventType.key 0x14a (pos 0)
    ∷ []

-- The frames of the gesture are seen: its beginning, two updates and its end.
pinching_events : length (run_pad pinching).out ≡ 4
unfolding run_pad
pinching_events = refl

drain_batch-Keeps_example :
    follow (drain_batch pad_device none 1 pinching pad none).out (progress pad)
    ≡ some (progress (drain_batch pad_device none 1 pinching pad none).td)
drain_batch-Keeps_example = drain_batch-Keeps pad_device none 1 pinching pad none

drain_batch-AllFrom_example :
    AllFrom 1 pad.lib_device (drain_batch pad_device none 1 pinching pad none).out
drain_batch-AllFrom_example = drain_batch-AllFrom pad_device none 1 pinching pad none

pad-IsValid : IsValid pad
pad-IsValid = new_tracked-IsValid _ _ _ _

drain_batch-IsValid_example : IsValid (drain_batch pad_device none 1 pinching pad none).td
drain_batch-IsValid_example = drain_batch-IsValid pad_device none 1 pinching pad none pad-IsValid

-- One finger rests 300 ms after a key press.
abbrev resting : List Timed
resting =
    event 1000 EventType.key 0x14a (pos 1)
    ∷ event 1010 EventType.absolute 0x00 (pos 500)
    ∷ event 1020 EventType.absolute 0x00 (pos 700)
    ∷ event 1020 EventType.synchronization 0 (pos 0)
    ∷ event 1100 EventType.key 0x14a (pos 0)
    ∷ []

-- Two fingers press the pad; one leaves before the click is released.
abbrev two_fingers : TrackedDevice fl
two_fingers = record pad { touch_fingers = 2 }

-- One finger is lifted between the press and the release, in a batch of its own.
abbrev lifted : List (Turn fl)
lifted =
    record {
      dev = pad_device;
      typing = none;
      global = some 3;
      events = event 20 EventType.key 0x14d (pos 0) ∷ [];
    }
    ∷ []

click_press_release_example :
    let pressed =
      (drain_event pad_device none 1
        (at_ms 10, left_button (pos 10) (pos 1))
        two_fingers
        none).td in
    (drain_event pad_device
      (some 3)
      1
      (at_ms 30, left_button (pos 30) (pos 0))
      (after_turns 1 lifted pressed)
      none).out
    ≡ button_event (systime_to_usec (pos 30)) btn_right 0 1 7 ∷ []
unfolding finger_button new_tracked i32_as_u32
click_press_release_example =
    (click_press_release 1 pad_device pad_device none (some 3) (at_ms 10) (at_ms 30) (pos 10)
      (pos 30) (pos 1) lifted two_fingers none none refl refl
      (((λ (e : ◌≡◌ {A = ℕ} 0x14d btn_left). absurd (omega arith)), tt), tt)).1

abbrev steps : List Step
steps = (at_ms 20, pos 20, pos 130) ∷ (at_ms 40, pos 40, pos 90) ∷ []

abbrev moving : TrackedDevice fl
moving = record pad { last_x = some (pos 100); last_movement_time = some 10_000_000 }

drain_batch-current_dx_example :
    (drain_batch pad_device none 1 (map x_event steps) moving none).td.current_dx
    ≡ i32_add (pos 0) (i32_sub (pos 90) (pos 100))
unfolding new_tracked
drain_batch-current_dx_example =
    (drain_batch-current_dx pad_device none 1 steps moving none (pos 100) 10_000_000 refl refl refl
      (omega arith) (omega arith)).0
