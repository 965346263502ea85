-- ===== src/Daemon/Loop/End.antt =====
-- When the daemon ends with an error, and what it has done by then.
use Prim.Native.String.{String}
use libinput_rs.Common.{
  ℕ, suc, ◌≡◌, ◌∙◌, refl, sym, ap, Bool, true, false, ◌&&◌, Option, none, some, List, [], ◌∷◌, ◌++◌,
  arith, if◌then◌else◌, if_split,
}
use libinput_rs.Floats.{Floats}
use libinput_rs.Daemon.Config.{InputConfig}
use libinput_rs.Daemon.Wrapper.{DeviceWrapper, VirtualDevice, Outcome, ok, err}
use libinput_rs.Daemon.Open.{Files}
use libinput_rs.Daemon.Loop.{
  Daemon, Ready, insert_device, handle_ready, handle_all, poll_loop, register_all, start, run,
}

-- No poll fails.
abbrev pub all_polled : List (Option (List Ready)) → Bool
all_polled [] = true
all_polled (none ∷ polls) = false
all_polled (some rs ∷ polls) = all_polled polls

-- What was ready before the first poll that fails.
abbrev pub polled : List (Option (List Ready)) → List Ready
polled [] = []
polled (none ∷ polls) = []
polled (some rs ∷ polls) = rs ++ polled polls

-- The devices with the tokens from `token` on can all be registered.
abbrev pub all_accepted {ℓ} : {A : Type ℓ} → (ℕ → Bool) → ℕ → List A → Bool
all_accepted accepts token [] = true
all_accepted accepts token (_ ∷ ws) = accepts token && all_accepted accepts (suc token) ws

abbrev pub outcome_if : Bool → Outcome
outcome_if true = ok
outcome_if false = err

module _ {fl : Floats} (config : InputConfig fl) (files : Files) where
  handle_all-append :
      (rs rs' : List Ready) (d : Daemon fl)
      → handle_all config files (rs ++ rs') d
        ≡ handle_all config files rs' (handle_all config files rs d)
  unfolding handle_all
  handle_all-append [] rs' d = refl
  handle_all-append (r ∷ rs) rs' d = handle_all-append rs rs' (handle_ready config files r d)

  -- The loop with its early end is the plain loop over what was ready before a poll failed.
  pub poll_loop-handle_all :
      (polls : List (Option (List Ready))) (d : Daemon fl)
      → poll_loop config files polls d
        ≡ (handle_all config files (polled polls) d, outcome_if (all_polled polls))
  unfolding poll_loop handle_all
  poll_loop-handle_all [] d = refl
  poll_loop-handle_all (none ∷ polls) d = refl
  poll_loop-handle_all (some rs ∷ polls) d =
      poll_loop-handle_all polls (handle_all config files rs d)
      ∙ ap (λ d'. (d', outcome_if (all_polled polls))) (sym (handle_all-append rs (polled polls) d))

  -- The token-by-token registration at the start.
  abbrev is_registered : Option (Daemon fl) → Bool
  is_registered none = false
  is_registered (some d) = true

  register_all-is_registered :
      (accepts : ℕ → Bool) (ws : List (DeviceWrapper fl)) (d : Daemon fl)
      → is_registered (register_all accepts ws d) ≡ all_accepted accepts d.next_token ws
  unfolding register_all insert_device
  register_all-is_registered accepts [] d = refl
  register_all-is_registered accepts (w ∷ ws) d =
      let rest = register_all-is_registered accepts ws (insert_device w true d) in
      if_split
        (λ o.
          is_registered o ≡ (accepts d.next_token && all_accepted accepts (suc d.next_token) ws))
        (accepts d.next_token) (λ e. cc (e, rest)) (λ e. cc e)

  -- `run` returns an error exactly where the poll object cannot be made, a device that is there at
  -- the start cannot be registered, inotify cannot be set up, or one of the given polls fails; else
  -- it is still without an error when the given polls have run out. What the devices send, and which
  -- writes and reads fail, makes no difference.
  pub run-outcome :
      (polling : Bool) (accepts : ℕ → Bool) (ws : List (DeviceWrapper fl)) (watched : Bool)
      (polls : List (Option (List Ready))) (v : VirtualDevice) (writes : List String)
      → (run config files polling accepts ws watched polls (start v writes)).1
        ≡ outcome_if (polling && all_accepted accepts 0 ws && watched && all_polled polls)
  unfolding run start
  run-outcome false accepts ws watched polls v writes = refl
  run-outcome true accepts ws watched polls v writes =
      let d = start {fl = fl} v writes in
      go (register_all accepts ws d) (register_all-is_registered accepts ws d)
    where
      go :
          (o : Option (Daemon fl))
          → is_registered o ≡ all_accepted accepts 0 ws
          → (let r : Daemon fl × Outcome = elim o [
            | none ↦ (start v writes, err)
            | some d' ↦ if watched then poll_loop config files polls d' else (d', err)
          ] in
              r.1 ≡ outcome_if (all_accepted accepts 0 ws && watched && all_polled polls))
      go none h = rw (sym h)
      go (some d') h =
          let ended = ap (λ r. r.1) (poll_loop-handle_all polls d') in ground (arith, h, ended)
