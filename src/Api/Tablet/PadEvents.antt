-- ===== src/Api/Tablet/PadEvents.antt =====
-- src/lib.rs: the accessors of the events of tablet pads, which return constants.
use libinput_rs.Common.{ℕ, Option}
use libinput_rs.Floats.{Floats}
use libinput_rs.Ffi.{Ptr, null, LibinputEvent}
use libinput_rs.Api.Accessors.{time_ms}

module _ {fl : Floats} where
  unfoldable pub event_tablet_pad_get_button_number : Option (LibinputEvent fl) → ℕ
  event_tablet_pad_get_button_number e = 0

  unfoldable pub event_tablet_pad_get_button_state : Option (LibinputEvent fl) → ℕ
  event_tablet_pad_get_button_state e = 0

  unfoldable pub event_tablet_pad_get_key : Option (LibinputEvent fl) → ℕ
  event_tablet_pad_get_key e = 0

  unfoldable pub event_tablet_pad_get_key_state : Option (LibinputEvent fl) → ℕ
  event_tablet_pad_get_key_state e = 0

  unfoldable pub event_tablet_pad_get_dial_delta_v120 : Option (LibinputEvent fl) → fl.F64
  event_tablet_pad_get_dial_delta_v120 e = fl.f64 0 1

  unfoldable pub event_tablet_pad_get_dial_number : Option (LibinputEvent fl) → ℕ
  event_tablet_pad_get_dial_number e = 0

  unfoldable pub event_tablet_pad_get_mode : Option (LibinputEvent fl) → ℕ
  event_tablet_pad_get_mode e = 0

  unfoldable pub event_tablet_pad_get_mode_group : Option (LibinputEvent fl) → Ptr
  event_tablet_pad_get_mode_group e = null

  unfoldable pub event_tablet_pad_get_ring_number : Option (LibinputEvent fl) → ℕ
  event_tablet_pad_get_ring_number e = 0

  unfoldable pub event_tablet_pad_get_ring_position : Option (LibinputEvent fl) → fl.F64
  event_tablet_pad_get_ring_position e = fl.f64 0 1

  unfoldable pub event_tablet_pad_get_ring_source : Option (LibinputEvent fl) → ℕ
  event_tablet_pad_get_ring_source e = 0

  unfoldable pub event_tablet_pad_get_strip_number : Option (LibinputEvent fl) → ℕ
  event_tablet_pad_get_strip_number e = 0

  unfoldable pub event_tablet_pad_get_strip_position : Option (LibinputEvent fl) → fl.F64
  event_tablet_pad_get_strip_position e = fl.f64 0 1

  unfoldable pub event_tablet_pad_get_strip_source : Option (LibinputEvent fl) → ℕ
  event_tablet_pad_get_strip_source e = 0

  unfoldable pub event_tablet_pad_get_time_usec : Option (LibinputEvent fl) → ℕ
  event_tablet_pad_get_time_usec e = 0

  unfoldable pub event_tablet_pad_get_time : Option (LibinputEvent fl) → ℕ
  unfolding event_tablet_pad_get_time_usec time_ms
  event_tablet_pad_get_time e = time_ms (event_tablet_pad_get_time_usec e)
