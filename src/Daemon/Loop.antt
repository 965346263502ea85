-- ===== src/Daemon/Loop.antt =====
-- src/event_loop.rs, `run`: the table of devices by their tokens, hotplug, the batches, devices that
-- go, and the reset of the hardware.
pub mod Table
pub mod Induction
pub mod Invariant
pub mod Start
pub mod Typing
pub mod Reset
pub mod End
pub mod Hotplug
use Prim.Native.String.{String}
use libinput_rs.Common.Path.{path_eq}
use libinput_rs.Common.{
  ℕ, suc, ◌-◌, ◌==◌, Bool, true, false, not, ◌||◌, Option, none, some, List, [], ◌∷◌, ◌++◌, retain,
  if◌then◌else◌,
}
use libinput_rs.Floats.{Floats}
use libinput_rs.Backend.World.{lookup}
use libinput_rs.Backend.Open.{input_path}
use libinput_rs.Backend.Drain.{Fetch, fetched, gone, no_events}
use libinput_rs.Daemon.Config.{InputConfig}
use libinput_rs.Daemon.Wrapper.{DeviceWrapper, VirtualDevice, Outcome, ok, err}
use libinput_rs.Daemon.Open.{Answer, Files, try_open_device}
use libinput_rs.Daemon.Batch.{Timed, Batch, batch}

-- `power_writes` are the files that were written to keep devices awake, `released` the paths of the
-- devices that were given up. `resetting` is the flag of the reset, and `running` the number of
-- threads that are at it.
pub record Daemon (fl : Floats) : Type 0 where
  pub devices_map : List (ℕ × DeviceWrapper fl)
  pub next_token : ℕ
  pub last_global_typing_time : Option ℕ
  pub v_device : VirtualDevice
  pub power_writes : List String
  pub released : List String
  pub resetting : Bool
  pub running : ℕ

-- An inotify event, with what comes of opening its file, and whether the device can be registered.
pub record Created : Type 0 where
  pub name : Option String
  pub answer : Answer
  pub registers : Bool

-- What the loop meets: inotify is readable (`none` where the read fails), a token is readable, with
-- what is fetched, or the thread of a reset comes to its end.
pub data Ready : Type 0 where
  inotify : Option (List Created) → Ready
  device : ℕ → Fetch → Ready
  reset_done : Ready

module _ {fl : Floats} where
  unfoldable pub has_path : String → List (ℕ × DeviceWrapper fl) → Bool
  has_path p [] = false
  has_path p ((_, w) ∷ devices) = path_eq w.path p || has_path p devices

  unfoldable pub modify_key :
      ℕ → DeviceWrapper fl → List (ℕ × DeviceWrapper fl) → List (ℕ × DeviceWrapper fl)
  modify_key k w [] = []
  modify_key k w ((j, x) ∷ devices) =
      let rest = modify_key k w devices in if j == k then (j, w) ∷ rest else (j, x) ∷ rest

  -- A device that was opened gets the next token, and is given up if it cannot be registered.
  unfoldable pub insert_device : DeviceWrapper fl → Bool → Daemon fl → Daemon fl
  insert_device w registers d =
      if registers
      then (record d {
        devices_map = (d.next_token, w) ∷ d.devices_map;
        next_token = suc d.next_token;
      })
      else (record d { next_token = suc d.next_token; released = d.released ++ w.path ∷ [] })

  -- `if let Some(wrapper) = try_open_device(&path)`.
  unfoldable pub insert_opened :
      Option (DeviceWrapper fl) × List String → Bool → Daemon fl → Daemon fl
  unfolding insert_device
  insert_opened (none, writes) registers d = record d { power_writes = d.power_writes ++ writes }
  insert_opened (some w, writes) registers d =
      insert_device w registers (record d { power_writes = d.power_writes ++ writes })

  -- An inotify event by its name.
  unfoldable pub handle_named : Files → Option String → Created → Daemon fl → Daemon fl
  unfolding insert_opened
  handle_named files none c d = d
  handle_named files (some name) c d =
      if has_path (input_path name) d.devices_map
      then d
      else insert_opened (try_open_device files (input_path name) c.answer) c.registers d

  unfoldable pub handle_created : Files → Created → Daemon fl → Daemon fl
  unfolding handle_named
  handle_created files c d = handle_named files c.name c d

  unfoldable pub handle_inotify : Files → List Created → Daemon fl → Daemon fl
  handle_inotify files [] d = d
  handle_inotify files (c ∷ cs) d = handle_inotify files cs (handle_created files c d)

  -- `RESETTING.swap(true)`, and a thread if it was `false`.
  unfoldable pub start_reset : Bool → Daemon fl → Daemon fl
  start_reset trigger_reset d =
      if trigger_reset
      then (if d.resetting then d else (record d { resetting = true; running = suc d.running }))
      else d

  unfoldable pub handle_batch :
      InputConfig fl → ℕ → List Timed → DeviceWrapper fl → Daemon fl → Daemon fl
  unfolding start_reset modify_key
  handle_batch config token es w d =
      let b = batch config es (record {
        wrapper = w;
        v_device = d.v_device;
        last_global_typing_time = d.last_global_typing_time;
        trigger_reset = false;
      }) in
      start_reset b.trigger_reset (record d {
        devices_map = modify_key token b.wrapper d.devices_map;
        v_device = b.v_device;
        last_global_typing_time = b.last_global_typing_time;
      })

  unfoldable pub handle_fetch :
      InputConfig fl → ℕ → Fetch → DeviceWrapper fl → Daemon fl → Daemon fl
  unfolding handle_batch
  handle_fetch config token (fetched es) w d = handle_batch config token es w d
  handle_fetch config token gone w d = record d {
    devices_map = retain (λ e. not (e.0 == token)) d.devices_map;
    released = d.released ++ w.path ∷ [];
  }
  handle_fetch config token no_events w d = d

  -- A token that is not in the table is passed over.
  unfoldable pub handle_found :
      InputConfig fl → ℕ → Fetch → Option (DeviceWrapper fl) → Daemon fl → Daemon fl
  unfolding handle_fetch
  handle_found config token f none d = d
  handle_found config token f (some w) d = handle_fetch config token f w d

  unfoldable pub handle_ready : InputConfig fl → Files → Ready → Daemon fl → Daemon fl
  unfolding handle_inotify handle_found
  handle_ready config files (inotify none) d = d
  handle_ready config files (inotify (some cs)) d = handle_inotify files cs d
  handle_ready config files (device token f) d =
      handle_found config token f (lookup token d.devices_map) d
  handle_ready config files reset_done d = record d { resetting = false; running = d.running - 1 }

  unfoldable pub handle_all : InputConfig fl → Files → List Ready → Daemon fl → Daemon fl
  handle_all config files [] d = d
  handle_all config files (r ∷ rs) d = handle_all config files rs (handle_ready config files r d)

  -- The loop over polls. A poll that fails ends it with an error; otherwise it goes on.
  unfoldable pub poll_loop :
      InputConfig fl → Files → List (Option (List Ready)) → Daemon fl → Daemon fl × Outcome
  poll_loop config files [] d = (d, ok)
  poll_loop config files (none ∷ polls) d = (d, err)
  poll_loop config files (some rs ∷ polls) d =
      poll_loop config files polls (handle_all config files rs d)

  -- The devices that are there at the start get the tokens from 0 on; `accepts` says whether the one
  -- of a token can be registered. The first that cannot ends the daemon.
  unfoldable pub register_all :
      (ℕ → Bool) → List (DeviceWrapper fl) → Daemon fl → Option (Daemon fl)
  unfolding insert_device
  register_all accepts [] d = some d
  register_all accepts (w ∷ ws) d =
      let rest = register_all accepts ws (insert_device w true d) in
      if accepts d.next_token then rest else none

  unfoldable pub start : VirtualDevice → List String → Daemon fl
  start v writes = record {
    devices_map = [];
    next_token = 0;
    last_global_typing_time = none;
    v_device = v;
    power_writes = writes;
    released = [];
    resetting = false;
    running = 0;
  }

  -- The whole of `run`. `polling` says whether the poll object could be made, and `watched` whether
  -- inotify could be set up and registered.
  unfoldable pub run :
      InputConfig fl
      → Files
      → Bool
      → (ℕ → Bool)
      → List (DeviceWrapper fl)
      → Bool
      → List (Option (List Ready))
      → Daemon fl
      → Daemon fl × Outcome
  run config files polling accepts initial watched polls d =
      let running : Daemon fl × Outcome = elim (register_all accepts initial d) [
        | none ↦ (d, err)
        | some d' ↦ if watched then poll_loop config files polls d' else (d', err)
      ] in
      if polling then running else (d, err)
