-- ===== src/Api/Tablet/Groups.antt =====
-- src/lib.rs: the functions on groups of devices and on the mode groups of a tablet pad. There are
-- none, so that they return constants.
use libinput_rs.Common.{ℕ, Option}
use libinput_rs.Floats.{Floats}
use libinput_rs.Ffi.{Ptr, null}
use libinput_rs.Ffi.Device.{LibinputDevice}

unfoldable pub device_group_ref : Ptr → Ptr
device_group_ref p = p

unfoldable pub device_group_unref : Ptr → Ptr
device_group_unref p = null

unfoldable pub device_group_get_user_data : Ptr → Ptr
device_group_get_user_data p = null

unfoldable pub tablet_pad_mode_group_button_is_toggle : Ptr → ℕ → ℕ
tablet_pad_mode_group_button_is_toggle p button = 0

unfoldable pub tablet_pad_mode_group_get_index : Ptr → ℕ
tablet_pad_mode_group_get_index p = 0

unfoldable pub tablet_pad_mode_group_get_mode : Ptr → ℕ
tablet_pad_mode_group_get_mode p = 0

unfoldable pub tablet_pad_mode_group_get_num_modes : Ptr → ℕ
tablet_pad_mode_group_get_num_modes p = 1

unfoldable pub tablet_pad_mode_group_has_button : Ptr → ℕ → ℕ
tablet_pad_mode_group_has_button p button = 0

unfoldable pub tablet_pad_mode_group_has_dial : Ptr → ℕ → ℕ
tablet_pad_mode_group_has_dial p dial = 0

unfoldable pub tablet_pad_mode_group_has_ring : Ptr → ℕ → ℕ
tablet_pad_mode_group_has_ring p ring = 0

unfoldable pub tablet_pad_mode_group_has_strip : Ptr → ℕ → ℕ
tablet_pad_mode_group_has_strip p strip = 0

unfoldable pub tablet_pad_mode_group_ref : Ptr → Ptr
tablet_pad_mode_group_ref p = p

unfoldable pub tablet_pad_mode_group_unref : Ptr → Ptr
tablet_pad_mode_group_unref p = null

unfoldable pub tablet_pad_mode_group_get_user_data : Ptr → Ptr
tablet_pad_mode_group_get_user_data p = null

module _ {fl : Floats} where
  unfoldable pub device_get_device_group : Option (LibinputDevice fl) → Ptr
  device_get_device_group dev = null
