-- ===== src/Witness/Keyboard.antt =====
-- The keyboard: repeats while a key is held, and none after its release.
use libinput_rs.Common.{ℕ, ◌≡◌, refl, none, List, [], ◌∷◌, All, retain}
use libinput_rs.Common.Int.{pos}
use libinput_rs.Evdev.{EventType, has_key_a}
use libinput_rs.Backend.Tracked.{new_tracked}
use libinput_rs.Backend.Keyboard.{repeat_keys, repeat_device, new_key, is_due}
use libinput_rs.Backend.Keyboard.Repeats.{repeat_times, repeat_keys_lem, repeat_event}
use libinput_rs.Backend.Batch.{Timed, drain_event, drain_batch}
use libinput_rs.Backend.Batch.Keys.{Quiet, key_release, release-Quiet}
use libinput_rs.Witness.Data.{fl, at_ms, event, pad_device, board}

abbrev times : List ℕ
times = 100_000_000 ∷ 210_000_000 ∷ 220_000_000 ∷ 240_000_000 ∷ []

-- Polled at 100, 210, 220 and 240 ms after a press at 0, the key repeats twice.
repeats_twice : repeat_times fl 8 1 times (new_key 30 0 0 ∷ []) ≡ 210_000_000 ∷ 240_000_000 ∷ []
unfolding repeat_keys is_due
repeats_twice = refl

repeat_keys_lem_example :
    (repeat_keys {fl = fl} 210_000_000 8 1 (new_key 30 0 0 ∷ new_key 57 0 100_000_000 ∷ [])).1
    ≡ repeat_event 1 8 (new_key 30 0 0) ∷ []
unfolding is_due retain
repeat_keys_lem_example =
    (repeat_keys_lem fl 210_000_000 8 1 (new_key 30 0 0 ∷ new_key 57 0 100_000_000 ∷ [])).1

-- Another key is pressed after the release of `A`.
abbrev typing_on : List Timed
typing_on = event 50 EventType.key 57 (pos 1) ∷ []

release-Quiet_example :
    All
      (Quiet 30)
      (repeat_device 900_000_000 1
        (drain_batch pad_device none 1 typing_on
          (drain_event pad_device none 1 (at_ms 20, key_release (pos 20) 30) board none).td
          (drain_event pad_device none 1
            (at_ms 20, key_release (pos 20) 30)
            board
            none).global_typing_time).td).1
unfolding new_tracked has_key_a
release-Quiet_example =
    release-Quiet pad_device none 1 30 (at_ms 20) (pos 20) typing_on board none 900_000_000
      (refl, refl) (refl, tt)
