-- ===== src/Daemon/Loop/Hotplug.antt =====
-- Hotplug: a device that appears and is wanted is in the table afterwards.
use Prim.Native.String.{String}
use mathlib.Core.Path.{subst}
use libinput_rs.Common.Path.{path_eq, path_eq_self}
use libinput_rs.Common.{
  ◌≡◌, sym, Bool, true, false, Option, none, some, List, [], ◌∷◌, ◌++◌, arith, if_both, if_split,
}
use libinput_rs.Floats.{Floats}
use libinput_rs.Backend.Open.{input_path}
use libinput_rs.Daemon.Wrapper.{DeviceWrapper}
use libinput_rs.Daemon.Open.{Files, try_open_device}
use libinput_rs.Daemon.Loop.{
  Daemon, Created, has_path, insert_device, insert_opened, handle_named, handle_created,
  handle_inotify,
}
use libinput_rs.Daemon.Loop.Invariant.{At, opened_path}

module _ (fl : Floats) (files : Files) where
  -- What is tracked stays so.
  abbrev Grows : Daemon fl → Daemon fl → Type 0
  Grows d d' = (p : String) → has_path p d.devices_map ≡ true → has_path p d'.devices_map ≡ true

  insert_opened-Grows :
      (o : Option (DeviceWrapper fl) × List String) (registers : Bool) (d : Daemon fl)
      → Grows d (insert_opened o registers d)
  unfolding insert_opened insert_device has_path
  insert_opened-Grows (none, writes) registers d p h = h
  insert_opened-Grows (some w, writes) true d p h = ground (arith, h)
  insert_opened-Grows (some w, writes) false d p h = h

  handle_named-Grows :
      (name : Option String) (c : Created) (d : Daemon fl) → Grows d (handle_named files name c d)
  unfolding handle_named
  handle_named-Grows none c d = λ p h. h
  handle_named-Grows (some name) c d =
      if_both (Grows d) (has_path (input_path name) d.devices_map) (λ p h. h)
        (insert_opened-Grows (try_open_device files (input_path name) c.answer) c.registers d)

  handle_created-Grows : (c : Created) (d : Daemon fl) → Grows d (handle_created files c d)
  unfolding handle_created
  handle_created-Grows c d = handle_named-Grows c.name c d

  handle_inotify-Grows : (cs : List Created) (d : Daemon fl) → Grows d (handle_inotify files cs d)
  unfolding handle_inotify
  handle_inotify-Grows [] d p h = h
  handle_inotify-Grows (c ∷ cs) d p h =
      handle_inotify-Grows cs (handle_created files c d) p (handle_created-Grows c d p h)

  insert_opened-has_path :
      (path : String) (o : Option (DeviceWrapper fl) × List String) (w : DeviceWrapper fl)
      (registers : Bool) (d : Daemon fl)
      → At path o
      → o.0 ≡ some w
      → registers ≡ true
      → has_path path (insert_opened o registers d).devices_map ≡ true
  unfolding insert_opened insert_device has_path
  insert_opened-has_path path (none, writes) w registers d at taken yes_registers = cc
  insert_opened-has_path path (some x, writes) w true d at taken yes_registers =
      let same : path_eq x.path path ≡ true =
        subst (λ q. path_eq x.path q ≡ true) at (path_eq_self x.path) in
      ground (arith, same)
  insert_opened-has_path path (some x, writes) w false d at taken yes_registers = cc

  handle_named-has_path :
      (name : String) (c : Created) (d : Daemon fl) (w : DeviceWrapper fl)
      → (try_open_device {fl = fl} files (input_path name) c.answer).0 ≡ some w
      → c.registers ≡ true
      → has_path (input_path name) (handle_named files (some name) c d).devices_map ≡ true
  unfolding handle_named
  handle_named-has_path name c d w taken registers =
      let path = input_path name in
      let opened = try_open_device {fl = fl} files path c.answer in
      if_split (λ (d' : Daemon fl). has_path path d'.devices_map ≡ true)
        (has_path path d.devices_map) (λ tracked. tracked)
        (λ _.
          insert_opened-has_path path opened w c.registers d (opened_path fl files path c.answer)
            taken registers)

  -- A device that an inotify event names is in the table after the events were handled, if opening
  -- it gives a device that is taken and that can be registered: whatever the other events are.
  pub handle_inotify-has_path :
      (before after : List Created) (c : Created) (name : String) (w : DeviceWrapper fl)
      (d : Daemon fl)
      → c.name ≡ some name
      → (try_open_device {fl = fl} files (input_path name) c.answer).0 ≡ some w
      → c.registers ≡ true
      → has_path (input_path name) (handle_inotify files (before ++ c ∷ after) d).devices_map ≡ true
  unfolding handle_inotify handle_created
  handle_inotify-has_path [] after c name w d named taken registers =
      handle_inotify-Grows after (handle_created files c d) (input_path name) (
        subst (λ o. has_path (input_path name) (handle_named files o c d).devices_map ≡ true)
          (sym named) (handle_named-has_path name c d w taken registers))
  handle_inotify-has_path (b ∷ before) after c name w d named taken registers =
      handle_inotify-has_path before after c name w (handle_created files b d) named taken registers
