-- ===== src/Backend/Open.antt =====
-- src/backend.rs, `try_open`, `scan_and_open` and `handle_hotplug`: how a device comes to be
-- tracked.
pub mod Hotplug
use Prim.Native.String.{String, ◌++◌ as str_append}
use text.Mathlib.Text.{find?}
use libinput_rs.Common.Path.{path_eq}
use libinput_rs.Common.{
  ℕ, suc, Bool, true, false, not, ◌&&◌, ◌||◌, Option, none, some, List, [], ◌∷◌, ◌++◌, unwrap_or,
  is_some_and, if◌then◌else◌,
}
use libinput_rs.Evdev.{Device, has_key_a}
use libinput_rs.Floats.{Floats}
use libinput_rs.Ffi.{Ptr, LibinputEvent, LibinputEventType, EventPayload}
use libinput_rs.Ffi.Device.{LibinputDevice, new_device}
use libinput_rs.Backend.Tracked.{TrackedDevice, new_tracked}
use libinput_rs.Backend.World.{
  World, Pushed, Effect, LibinputInterface, epoll_add, drop_fd, contains_key, with_effects,
}

-- What comes of opening a path: no file descriptor, a file descriptor that evdev refuses, or one
-- with a device behind it.
pub data Opening : Type 0 where
  failed : Opening
  refused : ℕ → Opening
  opened : ℕ → Device → Opening

unfoldable pub is_own_name : String → Bool
is_own_name name =
    is_some_and (find? name "virtual pointer") (λ _. true)
    || is_some_and (find? name "libinput-rs") (λ _. true)

-- `is_pointer` of `try_open`; `TrackedDevice::new` has another one.
unfoldable pub opens_as_pointer : Device → Bool
opens_as_pointer d = d.prop_pointer || d.prop_buttonpad || d.relative_events

abbrev pub added_event : {fl : Floats} → Ptr → Ptr → LibinputEvent fl
added_event ctx lib_dev = record {
  event_type = LibinputEventType.device_added;
  payload = EventPayload.device_added;
  context = ctx;
  device = lib_dev;
}

-- A file descriptor that evdev refuses is closed with its owner, and then by the callback.
unfoldable pub refuse : LibinputInterface → ℕ → List Effect
refuse interface fd =
    if interface.open_restricted
    then (drop_fd fd ∷ (if interface.close_restricted then Effect.close_restricted fd ∷ [] else []))
    else []

unfoldable pub input_path : String → String
input_path name = str_append "/dev/input/" name

module _ {fl : Floats} where
  -- The device object that stands for an opened device.
  unfoldable pub announce : String → Ptr → Ptr → Device → LibinputDevice fl
  unfolding opens_as_pointer
  announce path seat ctx d =
      let is_pointer = opens_as_pointer d in
      record (new_device fl (unwrap_or d.name "Unknown") path seat ctx) {
        has_pointer = is_pointer;
        has_keyboard = has_key_a d;
        has_touch = d.absolute_events && is_pointer;
        has_gesture = d.absolute_events && is_pointer;
      }

  -- The object is made and listed, whatever follows.
  unfoldable pub allocate : String → Ptr → Device → World fl → World fl
  unfolding announce
  allocate path ctx d w = record w {
    devices = w.devices ++ w.next_ptr ∷ [];
    heap = (w.next_ptr, announce path w.seat ctx d) ∷ w.heap;
    next_ptr = suc w.next_ptr;
  }

  -- A file descriptor that is already in the map is not tracked twice.
  unfoldable pub track : String → Ptr → ℕ → Device → Ptr → World fl → Pushed fl
  track path ctx fd d lib_dev w =
      if contains_key fd w.tracked then (with_effects (drop_fd fd ∷ []) w, []) else (
        with_effects (epoll_add fd ∷ [])
            (record w { tracked = (fd, new_tracked fl d path lib_dev) ∷ w.tracked }),
        added_event ctx lib_dev ∷ [],
      )

  unfoldable pub open_device : String → Ptr → ℕ → Device → World fl → Pushed fl
  unfolding allocate track is_own_name opens_as_pointer
  open_device path ctx fd d w =
      if is_own_name (unwrap_or d.name "Unknown")
      then (with_effects (drop_fd fd ∷ []) w, [])
      else (if not (opens_as_pointer d) && not (has_key_a d)
          then (with_effects (drop_fd fd ∷ []) w, [])
          else track path ctx fd d w.next_ptr (allocate path ctx d w))

  unfoldable pub try_open : String → Ptr → Opening → World fl → Pushed fl
  unfolding open_device refuse
  try_open path ctx failed w = (w, [])
  try_open path ctx (refused fd) w = (with_effects (refuse w.interface fd) w, [])
  try_open path ctx (opened fd d) w = open_device path ctx fd d w

  -- The paths in turn, each with what comes of opening it.
  unfoldable pub scan_and_open : Ptr → List (String × Opening) → World fl → Pushed fl
  scan_and_open ctx [] w = (w, [])
  scan_and_open ctx ((path, o) ∷ paths) w =
      let (w', out) = try_open path ctx o w in
      let (w'', rest) = scan_and_open ctx paths w' in (w'', out ++ rest)

  unfoldable pub is_tracked_path : String → List (ℕ × TrackedDevice fl) → Bool
  is_tracked_path p [] = false
  is_tracked_path p ((_, td) ∷ devices) = path_eq td.path p || is_tracked_path p devices

  -- The loop over the inotify events, which selects the paths that are not yet tracked.
  unfoldable pub new_paths :
      List (Option String × Opening) → List (ℕ × TrackedDevice fl) → List (String × Opening)
  new_paths [] tracked = []
  new_paths ((none, o) ∷ ievents) tracked = new_paths ievents tracked
  new_paths ((some name, o) ∷ ievents) tracked =
      let rest = new_paths ievents tracked in
      if is_tracked_path (input_path name) tracked then rest else (input_path name, o) ∷ rest

  -- The inotify events of one read, each with what opening its path would bring. There are none
  -- where the watch could not be set up or the read fails.
  unfoldable pub handle_hotplug : Ptr → List (Option String × Opening) → World fl → Pushed fl
  handle_hotplug ctx ievents w = scan_and_open ctx (new_paths ievents w.tracked) w
