-- ===== src/Witness/Table.antt =====
-- The table of devices: a drain in which a mouse is plugged in while the touchpad goes away, and
-- two inotify events for one new file.
use libinput_rs.Common.Path.{path_eq}
use libinput_rs.Common.{
  retain, false, ℕ, ◌==◌, if◌then◌else◌, ◌≡◌, refl, true, none, some, [], ◌∷◌, arith,
}
use libinput_rs.Evdev.{has_key_a}
use libinput_rs.Backend.Tracked.{new_tracked}
use libinput_rs.Backend.World.{World, Pushed, contains_key}
use libinput_rs.Backend.Open.{
  Opening, opened, added_event, input_path, is_own_name, opens_as_pointer, is_tracked_path,
  handle_hotplug,
}
use libinput_rs.Backend.Open.Hotplug.{handle_hotplug_known, handle_hotplug_twice}
use libinput_rs.Backend.Drain.{Fetch, Answers, gone, no_events, drain_into_queue}
use libinput_rs.Backend.Drain.Sound.{Fair, Sound}
use libinput_rs.Backend.Drain.Stamped.{AllStamped}
use libinput_rs.Backend.Drain.Whole.{drain_into_queue-Fair}
use libinput_rs.Witness.Data.{fl, mouse, pad, pad_device}

-- The touchpad is open as file descriptor 4, and its object is at 7.
abbrev pub table : World fl
table = record {
  interface = record { open_restricted = true; close_restricted = true };
  seat = 2;
  devices = 7 ∷ [];
  heap = (7, pad_device) ∷ [];
  next_ptr = 8;
  tracked = (4, pad) ∷ [];
  global_typing_time = none;
  effects = [];
}

abbrev pub fetch_example : ℕ → Fetch
fetch_example fd = if fd == 4 then gone else no_events

abbrev pub answers : Answers
answers = record { ievents = (some "event9", opened 5 mouse) ∷ []; now = 0; fetch = fetch_example }

pub table-Sound : Sound table
unfolding contains_key new_tracked
table-Sound = record { live = (refl, tt); distinct = (refl, tt) }

drain_into_queue-Fair_example :
    (r : Pushed fl) × (drain_into_queue 1 answers table ≡ some r) × Fair table r × AllStamped 1 r.1
drain_into_queue-Fair_example = drain_into_queue-Fair 1 answers table table-Sound

handle_hotplug_known_example :
    handle_hotplug 1 ((some "event5", opened 5 mouse) ∷ (none, Opening.failed) ∷ []) table
    ≡ (table, [])
unfolding path_eq is_tracked_path new_tracked input_path
handle_hotplug_known_example =
    handle_hotplug_known 1 ((some "event5", opened 5 mouse) ∷ (none, Opening.failed) ∷ []) table
      (refl, (tt, tt))

handle_hotplug_twice_example :
    let r =
      handle_hotplug 1
        ((some "event9", opened 5 mouse) ∷ (some "event9", opened 6 mouse) ∷ [])
        table in
    (r.0.tracked
      ≡ (6, new_tracked fl mouse (input_path "event9") 9)
        ∷ (5, new_tracked fl mouse (input_path "event9") 8)
        ∷ (4, pad)
        ∷ [])
    × (r.1 ≡ added_event 1 8 ∷ added_event 1 9 ∷ [])
unfolding is_own_name opens_as_pointer has_key_a path_eq is_tracked_path new_tracked input_path
    contains_key
handle_hotplug_twice_example =
    handle_hotplug_twice 1 "event9" 5 6 mouse table refl refl refl refl (ground arith)

-- Spellings of one path, and two paths.
spellings : path_eq "/dev/input/event5" "/dev//input/./event5/" ≡ true
unfolding path_eq retain
spellings = refl

two_paths : path_eq "/dev/input/event5" "dev/input/event5" ≡ false
unfolding path_eq retain
two_paths = refl
