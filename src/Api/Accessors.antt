-- ===== src/Api/Accessors.antt =====
-- src/lib.rs: what the accessors of events share. They read the payload and return a default where
-- it is of another kind. A null pointer to an event is `none`.
pub mod Pointer
pub mod Keyboard
pub mod Touch
pub mod Gesture
pub mod Switch
use libinput_rs.Common.{ℕ, ◌/◌, Option, none, some}
use libinput_rs.Common.Word.{u32}
use libinput_rs.Floats.{Floats}
use libinput_rs.Ffi.{LibinputEvent, EventPayload}

-- Times in milliseconds are cut to 32 bits.
unfoldable pub time_ms : ℕ → ℕ
time_ms usec = u32 (usec / 1000)

module _ {fl : Floats} where
  unfoldable pub read {ℓ} : {A : Type ℓ} → A → (EventPayload fl → A) → Option (LibinputEvent fl) → A
  read null_value f none = null_value
  read null_value f (some e) = f e.payload
