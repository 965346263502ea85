-- ===== src/Api/Accessors/Switch.antt =====
-- src/lib.rs: the accessors of switch events.
use libinput_rs.Common.{ℕ, Option}
use libinput_rs.Floats.{Floats}
use libinput_rs.Ffi.{LibinputEvent, EventPayload}
use libinput_rs.Api.Accessors.{read, time_ms}

module _ {fl : Floats} where
  abbrev switch_get_switch_payload : EventPayload fl → ℕ
  switch_get_switch_payload (EventPayload.switch_toggle e) = e.switch
  switch_get_switch_payload _ = 0

  unfoldable pub switch_get_switch : Option (LibinputEvent fl) → ℕ
  unfolding read
  switch_get_switch = read 0 switch_get_switch_payload

  abbrev switch_get_switch_state_payload : EventPayload fl → ℕ
  switch_get_switch_state_payload (EventPayload.switch_toggle e) = e.state
  switch_get_switch_state_payload _ = 0

  unfoldable pub switch_get_switch_state : Option (LibinputEvent fl) → ℕ
  unfolding read
  switch_get_switch_state = read 0 switch_get_switch_state_payload

  abbrev switch_get_time_usec_payload : EventPayload fl → ℕ
  switch_get_time_usec_payload (EventPayload.switch_toggle e) = e.time_usec
  switch_get_time_usec_payload _ = 0

  unfoldable pub switch_get_time_usec : Option (LibinputEvent fl) → ℕ
  unfolding read
  switch_get_time_usec = read 0 switch_get_time_usec_payload

  unfoldable pub switch_get_time : Option (LibinputEvent fl) → ℕ
  unfolding switch_get_time_usec time_ms
  switch_get_time e = time_ms (switch_get_time_usec e)
