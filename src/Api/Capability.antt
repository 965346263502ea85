-- ===== src/Api/Capability.antt =====
-- src/backend.rs and `libinput_device_has_capability` of src/lib.rs: a device sends events of the
-- kinds that it was announced with.
pub mod Handlers
pub mod Batch
pub mod Table
pub mod Opens
pub mod Rounds
pub mod Drains
pub mod Silent
pub mod Moves
pub mod Session
use libinput_rs.Common.{Bool, not, ◌&&◌, ◌||◌}
use libinput_rs.Evdev.{Device, has_key_a}
use libinput_rs.Floats.{Floats}
use libinput_rs.Ffi.{LibinputEventType}
use libinput_rs.Ffi.Device.{LibinputDevice}
use libinput_rs.Backend.Tracked.{TrackedDevice}
use libinput_rs.Backend.Open.{opens_as_pointer}
use libinput_rs.Api.Casts.{is_notify, is_pointer, is_keyboard, is_gesture}

-- An event of this type fits what the device says it can do. No device has touch points, switches
-- or tools of a tablet.
abbrev pub allows : {fl : Floats} → LibinputDevice fl → LibinputEventType → Bool
allows dev t =
    is_notify t
    || (is_keyboard t && dev.has_keyboard)
    || (is_pointer t && dev.has_pointer)
    || (is_gesture t && dev.has_gesture)

-- The device object says at least what the backend reads of the device.
abbrev pub links : {fl : Floats} → LibinputDevice fl → TrackedDevice fl → Bool
links dev td =
    (not td.is_keyboard || dev.has_keyboard)
    && (not td.is_pointer || dev.has_pointer)
    && (not td.is_absolute || (dev.has_pointer && dev.has_gesture))

-- A device that has absolute axes is opened as a pointer.
unfoldable pub is_proper : Device → Bool
unfolding opens_as_pointer
is_proper d = not d.absolute_events || opens_as_pointer d

-- A keyboard with absolute axes that is no pointer.
unfoldable pub is_mixed : Device → Bool
unfolding opens_as_pointer has_key_a
is_mixed d = d.absolute_events && has_key_a d && not (opens_as_pointer d)
