-- ===== src/Daemon/Open.antt =====
-- src/device.rs, `try_open_device`, `disable_autosuspend` and `scan_input_devices`: which devices
-- the daemon takes.
use Prim.Native.String.{String, ◌++◌ as str_append}
use text.Mathlib.Text.{find?}
use libinput_rs.Common.{
  ℕ, zero, suc, Bool, true, ◌&&◌, ◌||◌, Option, none, some, List, [], ◌∷◌, ◌++◌, unwrap_or,
  is_some_and, if◌then◌else◌,
}
use libinput_rs.Evdev.{Device, has_key_a}
use libinput_rs.Floats.{Floats}
use libinput_rs.Backend.Open.{is_own_name}
use libinput_rs.Daemon.Wrapper.{DeviceWrapper, new_wrapper}

-- What comes of opening a path: nothing, or a device, and whether it can be grabbed.
pub data Answer : Type 0 where
  not_opened : Answer
  device : Device → (grabbed : Bool) → Answer

-- What the daemon asks of the file system: the last component of a path, and whether a file exists.
pub record Files : Type 0 where
  pub file_name : String → Option String
  pub exists : String → Bool

abbrev contains_text : String → String → Bool
contains_text text part = is_some_and (find? text part) (λ _. true)

-- `is_pointer` of the daemon, which goes by the name alone.
unfoldable pub is_target_name : String → Bool
is_target_name name =
    contains_text name "touchpad"
    || contains_text name "trackpoint"
    || contains_text name "elan"
    || contains_text name "synaptics"
    || contains_text name "mouse"

-- The loop up the tree of devices: the files to which "on" is written in `n` rounds.
unfoldable pub power_controls : Files → ℕ → String → List String
power_controls files zero sys_path = []
power_controls files (suc n) sys_path =
    let power_control = str_append sys_path "/power/control" in
    let rest = power_controls files n (str_append sys_path "/..") in
    if files.exists power_control then power_control ∷ rest else rest

unfoldable pub disable_autosuspend : Files → String → List String
unfolding power_controls
disable_autosuspend files path = elim (files.file_name path) [
  | none ↦ []
  | some name ↦ power_controls files 4 (str_append (str_append "/sys/class/input/" name) "/device")
]

module _ {fl : Floats} where
  -- The device that is taken, and the files that are written.
  unfoldable pub try_open_device : Files → String → Answer → Option (DeviceWrapper fl) × List String
  unfolding disable_autosuspend is_own_name is_target_name
  try_open_device files path not_opened = (none, [])
  try_open_device files path (device d grabbed) =
      let name = unwrap_or d.name "Unknown" in
      if is_own_name name
      then (none, [])
      else (if is_target_name name
          then (if grabbed
              then (some (new_wrapper fl d path), disable_autosuspend files path)
              else (none, []))
          else (if d.key_events && has_key_a d
              then (some (new_wrapper fl d path), [])
              else (none, [])))

  -- `if let Some(wrapper) = try_open_device(&path) { tracked.push(wrapper) }`, before the rest.
  unfoldable pub push_opened :
      Option (DeviceWrapper fl) × List String
      → List (DeviceWrapper fl) × List String
      → List (DeviceWrapper fl) × List String
  push_opened (none, writes) (tracked, more) = (tracked, writes ++ more)
  push_opened (some w, writes) (tracked, more) = (w ∷ tracked, writes ++ more)

  -- The paths in turn, each with what comes of opening it.
  unfoldable pub scan_input_devices :
      Files → List (String × Answer) → List (DeviceWrapper fl) × List String
  unfolding push_opened
  scan_input_devices files [] = ([], [])
  scan_input_devices files ((path, a) ∷ paths) =
      push_opened (try_open_device files path a) (scan_input_devices files paths)
