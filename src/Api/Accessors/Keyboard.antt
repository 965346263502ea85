-- ===== src/Api/Accessors/Keyboard.antt =====
-- src/lib.rs: the accessors of keyboard events.
use libinput_rs.Common.{ℕ, Option, leb, if◌then◌else◌}
use libinput_rs.Floats.{Floats}
use libinput_rs.Ffi.{LibinputEvent, EventPayload}
use libinput_rs.Api.Accessors.{read, time_ms}

module _ {fl : Floats} where
  abbrev keyboard_get_time_usec_payload : EventPayload fl → ℕ
  keyboard_get_time_usec_payload (EventPayload.keyboard_key e) = e.time_usec
  keyboard_get_time_usec_payload _ = 0

  unfoldable pub keyboard_get_time_usec : Option (LibinputEvent fl) → ℕ
  unfolding read
  keyboard_get_time_usec = read (0) keyboard_get_time_usec_payload

  abbrev keyboard_get_key_payload : EventPayload fl → ℕ
  keyboard_get_key_payload (EventPayload.keyboard_key e) = e.key
  keyboard_get_key_payload _ = 0

  unfoldable pub keyboard_get_key : Option (LibinputEvent fl) → ℕ
  unfolding read
  keyboard_get_key = read (0) keyboard_get_key_payload

  abbrev keyboard_get_key_state_payload : EventPayload fl → ℕ
  keyboard_get_key_state_payload (EventPayload.keyboard_key e) = e.state
  keyboard_get_key_state_payload _ = 0

  unfoldable pub keyboard_get_key_state : Option (LibinputEvent fl) → ℕ
  unfolding read
  keyboard_get_key_state = read (0) keyboard_get_key_state_payload

  abbrev keyboard_get_seat_key_count_payload : EventPayload fl → ℕ
  keyboard_get_seat_key_count_payload (EventPayload.keyboard_key e) = if leb 1 e.state then 1 else 0
  keyboard_get_seat_key_count_payload _ = 0

  unfoldable pub keyboard_get_seat_key_count : Option (LibinputEvent fl) → ℕ
  unfolding read
  keyboard_get_seat_key_count = read (0) keyboard_get_seat_key_count_payload

  unfoldable pub keyboard_get_time_payload : EventPayload fl → ℕ
  unfolding time_ms
  keyboard_get_time_payload (EventPayload.keyboard_key e) = time_ms e.time_usec
  keyboard_get_time_payload _ = 0

  unfoldable pub keyboard_get_time : Option (LibinputEvent fl) → ℕ
  unfolding read keyboard_get_time_payload
  keyboard_get_time = read (0) keyboard_get_time_payload
