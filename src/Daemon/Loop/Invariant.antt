-- ===== src/Daemon/Loop/Invariant.antt =====
-- Each step of the loop keeps the table of devices.
use Prim.Native.String.{String}
use mathlib.Core.Path.{subst}
use libinput_rs.Common.{
  ℕ, ◌≡◌, refl, Bool, true, false, Option, none, some, List, [], ◌∷◌, ◌++◌, sym, unwrap_or, ◌&&◌,
  if_split, if_both,
}
use libinput_rs.Evdev.{has_key_a}
use libinput_rs.Floats.{Floats}
use libinput_rs.Backend.World.{lookup}
use libinput_rs.Backend.Drain.{Fetch, fetched, gone, no_events}
use libinput_rs.Backend.Open.{input_path, is_own_name}
use libinput_rs.Daemon.Config.{InputConfig}
use libinput_rs.Daemon.Wrapper.{DeviceWrapper, new_wrapper}
use libinput_rs.Daemon.Open.{Answer, not_opened, device, Files, is_target_name, try_open_device}
use libinput_rs.Daemon.Batch.{Batch, batch}
use libinput_rs.Daemon.Batch.Identity.{batch-SameDevice}
use libinput_rs.Daemon.Loop.{
  Daemon, Created, Ready, inotify, device as ready_device, reset_done, has_path, modify_key,
  insert_device, insert_opened, handle_named, handle_created, handle_inotify, start_reset,
  handle_batch, handle_fetch, handle_found, handle_ready,
}
use libinput_rs.Daemon.Loop.Table.{
  IsTable, insert-IsTable, remove-IsTable, later-IsTable, modify_key-IsTable,
}

abbrev pub At : {fl : Floats} → String → Option (DeviceWrapper fl) × List String → Type 0
At path (none, writes) = Unit
At path (some w, writes) = w.path ≡ path

pub opened_path :
    (fl : Floats) (files : Files) (path : String) (a : Answer)
    → At {fl = fl} path (try_open_device files path a)
unfolding try_open_device new_wrapper
opened_path fl files path not_opened = tt
opened_path fl files path (device d grabbed) =
    let name = unwrap_or d.name "Unknown" in
    if_both (At {fl = fl} path) (is_own_name name) tt (
      if_both (At {fl = fl} path) (is_target_name name)
        (if_both (At {fl = fl} path) grabbed refl tt)
        (if_both (At {fl = fl} path) (d.key_events && has_key_a d) refl tt))

module _ {fl : Floats} where
  abbrev pub IsSound : Daemon fl → Type 0
  IsSound d = IsTable d.next_token d.devices_map

  pub insert_device-IsSound :
      (w : DeviceWrapper fl) (registers : Bool) (d : Daemon fl)
      → IsSound d
      → has_path w.path d.devices_map ≡ false
      → IsSound (insert_device w registers d)
  unfolding insert_device
  insert_device-IsSound w true d t new = insert-IsTable d.next_token d.devices_map w t new
  insert_device-IsSound w false d t new = later-IsTable d.next_token d.devices_map t

  insert_opened-IsSound :
      (path : String) (o : Option (DeviceWrapper fl) × List String) (registers : Bool)
      (d : Daemon fl)
      → IsSound d
      → has_path path d.devices_map ≡ false
      → At path o
      → IsSound (insert_opened o registers d)
  unfolding insert_opened
  insert_opened-IsSound path (none, writes) registers d t new here = t
  insert_opened-IsSound path (some w, writes) registers d t new here =
      insert_device-IsSound w registers (record d { power_writes = d.power_writes ++ writes }) t
        (subst (λ p. has_path p d.devices_map ≡ false) (sym here) new)

  handle_named-IsSound :
      (files : Files) (name : Option String) (c : Created) (d : Daemon fl)
      → IsSound d
      → IsSound (handle_named files name c d)
  unfolding handle_named
  handle_named-IsSound files none c d t = t
  handle_named-IsSound files (some name) c d t =
      let path = input_path name in
      if_split IsSound (has_path path d.devices_map) (λ _. t)
        (λ new.
          insert_opened-IsSound path (try_open_device files path c.answer) c.registers d t new
            (opened_path fl files path c.answer))

  handle_created-IsSound :
      (files : Files) (c : Created) (d : Daemon fl) → IsSound d → IsSound (handle_created files c d)
  unfolding handle_created
  handle_created-IsSound files c d t = handle_named-IsSound files c.name c d t

  handle_inotify-IsSound :
      (files : Files) (cs : List Created) (d : Daemon fl)
      → IsSound d
      → IsSound (handle_inotify files cs d)
  unfolding handle_inotify
  handle_inotify-IsSound files [] d t = t
  handle_inotify-IsSound files (c ∷ cs) d t =
      handle_inotify-IsSound files cs (handle_created files c d)
        (handle_created-IsSound files c d t)

  start_reset-IsSound : (b : Bool) (d : Daemon fl) → IsSound d → IsSound (start_reset b d)
  unfolding start_reset
  start_reset-IsSound b d t = if_both IsSound b (if_both IsSound d.resetting t t) t

  handle_fetch-IsSound :
      (config : InputConfig fl) (token : ℕ) (f : Fetch) (w : DeviceWrapper fl) (d : Daemon fl)
      → IsSound d
      → lookup token d.devices_map ≡ some w
      → IsSound (handle_fetch config token f w d)
  unfolding handle_fetch handle_batch
  handle_fetch-IsSound config token (fetched es) w d t found =
      let b : Batch fl = record {
        wrapper = w;
        v_device = d.v_device;
        last_global_typing_time = d.last_global_typing_time;
        trigger_reset = false;
      } in
      let b' = batch config es b in
      start_reset-IsSound b'.trigger_reset
        (record d {
          devices_map = modify_key token b'.wrapper d.devices_map;
          v_device = b'.v_device;
          last_global_typing_time = b'.last_global_typing_time;
        })
        (modify_key-IsTable d.next_token token w b'.wrapper d.devices_map t found
          (batch-SameDevice config es b).path)
  handle_fetch-IsSound config token gone w d t found =
      remove-IsTable d.next_token token d.devices_map t
  handle_fetch-IsSound config token no_events w d t found = t

  pub handle_ready-IsSound :
      (config : InputConfig fl) (files : Files) (r : Ready) (d : Daemon fl)
      → IsSound d
      → IsSound (handle_ready config files r d)
  unfolding handle_ready handle_found
  handle_ready-IsSound config files (inotify none) d t = t
  handle_ready-IsSound config files (inotify (some cs)) d t = handle_inotify-IsSound files cs d t
  handle_ready-IsSound config files (ready_device token f) d t =
      go (lookup token d.devices_map) refl
    where
      go :
          (o : Option (DeviceWrapper fl))
          → lookup token d.devices_map ≡ o
          → IsSound (handle_found config token f o d)
      go none h = t
      go (some w) h = handle_fetch-IsSound config token f w d t h
  handle_ready-IsSound config files reset_done d t = t
