-- ===== src/Daemon/Main/Paths.antt =====
-- The devices of the daemon and their paths, from the scan to the end of the loop.
use Prim.Native.String.{String}
use mathlib.Core.Path.{subst}
use libinput_rs.Common.Path.{path_eq}
use libinput_rs.Common.{ℕ, ◌≡◌, Bool, false, Option, none, some, List, [], ◌∷◌, All, sym}
use libinput_rs.Floats.{Floats}
use libinput_rs.Daemon.Config.{InputConfig, config_in_use}
use libinput_rs.Daemon.Wrapper.{DeviceWrapper, VirtualDevice, Outcome}
use libinput_rs.Daemon.Open.{Answer, Files, try_open_device, push_opened, scan_input_devices}
use libinput_rs.Daemon.Loop.{Daemon, Ready}
use libinput_rs.Daemon.Loop.Table.{IsTable}
use libinput_rs.Daemon.Loop.Invariant.{At, opened_path}
use libinput_rs.Daemon.Loop.Start.{Apart, run-IsSound}
use libinput_rs.Daemon.Main.{main}

abbrev pub PathsApart : List (String × Answer) → Type 0
PathsApart [] = Unit
PathsApart ((p, _) ∷ paths) = All (λ e. path_eq p e.0 ≡ false) paths × PathsApart paths

module _ (fl : Floats) (files : Files) where
  abbrev Tracked : Type 0
  Tracked = List (DeviceWrapper fl) × List String

  abbrev Other : String → List (DeviceWrapper fl) → Type 0
  Other p ws = All (λ w. path_eq p w.path ≡ false) ws

  push_opened-Other :
      (p q : String) (o : Option (DeviceWrapper fl) × List String) (r : Tracked)
      → At q o
      → path_eq p q ≡ false
      → Other p r.0
      → Other p (push_opened o r).0
  unfolding push_opened
  push_opened-Other p q (none, writes) r at new h = h
  push_opened-Other p q (some w, writes) r at new h =
      (subst (λ x. path_eq p x ≡ false) (sym at) new, h)

  scan-Other :
      (p : String) (paths : List (String × Answer))
      → All (λ e. path_eq p e.0 ≡ false) paths
      → Other p (scan_input_devices files paths).0
  unfolding scan_input_devices
  scan-Other p [] h = tt
  scan-Other p ((q, a) ∷ paths) (h, hs) =
      push_opened-Other p q (try_open_device files q a) (scan_input_devices files paths)
        (opened_path fl files q a) h (scan-Other p paths hs)

  push_opened-Apart :
      (q : String) (o : Option (DeviceWrapper fl) × List String) (r : Tracked)
      → At q o
      → Other q r.0
      → Apart r.0
      → Apart (push_opened o r).0
  unfolding push_opened
  push_opened-Apart q (none, writes) r at other h = h
  push_opened-Apart q (some w, writes) r at other h = (subst (λ x. Other x r.0) (sym at) other, h)

  scan-Apart :
      (paths : List (String × Answer))
      → PathsApart paths
      → Apart {fl = fl} (scan_input_devices files paths).0
  unfolding scan_input_devices
  scan-Apart [] h = tt
  scan-Apart ((q, a) ∷ paths) (h, hs) =
      push_opened-Apart q (try_open_device files q a) (scan_input_devices files paths)
        (opened_path fl files q a) (scan-Other q paths h) (scan-Apart paths hs)

module _ {fl : Floats} where
  abbrev TableIfAny : Option (Daemon fl × Outcome) → Type 0
  TableIfAny none = Unit
  TableIfAny (some r) = IsTable r.0.next_token r.0.devices_map

  -- Where the enumerated paths are different, the table that the loop of the daemon leaves has no
  -- path and no token twice, and every token in it is below the next one. It holds for every
  -- sequence of hotplug events, batches and devices that go, and also where the loop ends with an
  -- error.
  pub main-IsTable :
      (from_str : String → Option (InputConfig fl)) (config_file : Option String) (files : Files)
      (enumerated : List (String × Answer)) (v : Option VirtualDevice) (polling : Bool)
      (accepts : ℕ → Bool) (watched : Bool) (polls : List (Option (List Ready)))
      (r : Daemon fl × Outcome)
      → PathsApart enumerated
      → main from_str config_file files enumerated v polling accepts watched polls ≡ some r
      → IsTable r.0.next_token r.0.devices_map
  unfolding main
  main-IsTable from_str config_file files enumerated none polling accepts watched polls r apart h =
      cc
  main-IsTable from_str config_file files enumerated (some v) polling accepts watched polls r apart
        h =
      let scanned = scan_input_devices {fl = fl} files enumerated in
      subst TableIfAny h (
        run-IsSound (config_in_use from_str config_file) files polling accepts scanned.0 watched
          polls v scanned.1 (scan-Apart fl files enumerated apart))
