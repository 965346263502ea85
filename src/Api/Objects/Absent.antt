-- ===== src/Api/Objects/Absent.antt =====
-- src/lib.rs: what is not kept of a device, and functions of a context that do nothing.
use Prim.Native.String.{String}
use libinput_rs.Common.{ℕ, Option, none}
use libinput_rs.Floats.{Floats}
use libinput_rs.Ffi.{Ptr, null}
use libinput_rs.Ffi.Device.{LibinputDevice}
use libinput_rs.Api.Context.{LibinputContext}

module _ {fl : Floats} where
  unfoldable pub device_get_output_name : Option (LibinputDevice fl) → Option String
  device_get_output_name dev = none

  unfoldable pub log_get_priority : Option (LibinputContext fl) → ℕ
  log_get_priority c = 3

  unfoldable pub device_config_send_events_get_modes : Option (LibinputDevice fl) → ℕ
  device_config_send_events_get_modes dev = 0b11

  unfoldable pub device_get_id_bustype : Option (LibinputDevice fl) → ℕ
  device_get_id_bustype dev = 0

  unfoldable pub device_get_udev_device : Option (LibinputDevice fl) → Ptr
  device_get_udev_device dev = null

  unfoldable pub plugin_system_load_plugins : Option (LibinputContext fl) → ℕ
  plugin_system_load_plugins c = 0

  unfoldable pub resume : Option (LibinputContext fl) → ℕ
  resume c = 0
