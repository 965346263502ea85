-- ===== src/Daemon/Loop/Start.antt =====
-- The loop from the start on: no token and no path is ever in the table twice.
use Prim.Native.String.{String}
use libinput_rs.Common.{ℕ, ◌≡◌, refl, Bool, true, false, Option, List, [], ◌∷◌, All, arith, if_both}
use libinput_rs.Common.Path.{path_eq}
use libinput_rs.Floats.{Floats}
use libinput_rs.Daemon.Config.{InputConfig}
use libinput_rs.Daemon.Wrapper.{DeviceWrapper, VirtualDevice}
use libinput_rs.Daemon.Open.{Files}
use libinput_rs.Daemon.Loop.{Daemon, Ready, has_path, insert_device, register_all, start, run}
use libinput_rs.Daemon.Loop.Table.{Devices}
use libinput_rs.Daemon.Loop.Invariant.{IsSound, handle_ready-IsSound, insert_device-IsSound}
use libinput_rs.Daemon.Loop.Induction.{IfAny, run_keeps}

module _ {fl : Floats} where
  -- The devices at the start.
  abbrev pub Apart : List (DeviceWrapper fl) → Type 0
  Apart [] = Unit
  Apart (w ∷ ws) = All (λ w'. path_eq w.path w'.path ≡ false) ws × Apart ws

  abbrev AllNew : List (DeviceWrapper fl) → Devices fl → Type 0
  AllNew ws l = All (λ w. has_path w.path l ≡ false) ws

  still_new :
      (w : DeviceWrapper fl) (ws : List (DeviceWrapper fl)) (d : Daemon fl)
      → All (λ w'. path_eq w.path w'.path ≡ false) ws
      → AllNew ws d.devices_map
      → AllNew ws (insert_device w true d).devices_map
  unfolding insert_device has_path
  still_new w [] d apart new = tt
  still_new w (w' ∷ ws) d (apart, aparts) (new, news) = (ground arith, still_new w ws d aparts news)

  all_new : (ws : List (DeviceWrapper fl)) → AllNew ws []
  unfolding has_path
  all_new [] = tt
  all_new (w ∷ ws) = (refl, all_new ws)

  start-IsSound : (v : VirtualDevice) (writes : List String) → IsSound {fl = fl} (start v writes)
  unfolding start
  start-IsSound v writes = record { fresh = tt; distinct = tt; paths = tt }

  register_all-IsSound :
      (accepts : ℕ → Bool) (ws : List (DeviceWrapper fl)) (d : Daemon fl)
      → IsSound d
      → Apart ws
      → AllNew ws d.devices_map
      → IfAny IsSound (register_all accepts ws d)
  unfolding register_all
  register_all-IsSound accepts [] d t apart new = t
  register_all-IsSound accepts (w ∷ ws) d t (apart, rest) (new, news) =
      if_both (IfAny IsSound) (accepts d.next_token)
        (register_all-IsSound accepts ws (insert_device w true d)
          (insert_device-IsSound w true d t new) rest (still_new w ws d apart news))
        tt

  pub run-IsSound :
      (config : InputConfig fl) (files : Files) (polling : Bool) (accepts : ℕ → Bool)
      (ws : List (DeviceWrapper fl)) (watched : Bool) (polls : List (Option (List Ready)))
      (v : VirtualDevice) (writes : List String)
      → Apart ws
      → IsSound (run config files polling accepts ws watched polls (start v writes)).0
  unfolding start
  run-IsSound config files polling accepts ws watched polls v writes apart =
      let d = start {fl = fl} v writes in
      run_keeps config files IsSound (handle_ready-IsSound config files) polling accepts ws watched
        polls d (start-IsSound v writes)
        (register_all-IsSound accepts ws d (start-IsSound v writes) apart (all_new ws))
