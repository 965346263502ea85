-- ===== src/Daemon/Loop/Induction.antt =====
-- What every step of the loop keeps, the whole loop keeps.
use libinput_rs.Common.{ℕ, Bool, Option, none, some, List, [], ◌∷◌, if◌then◌else◌, if_both}
use libinput_rs.Floats.{Floats}
use libinput_rs.Daemon.Config.{InputConfig}
use libinput_rs.Daemon.Wrapper.{DeviceWrapper, Outcome, err}
use libinput_rs.Daemon.Open.{Files}
use libinput_rs.Daemon.Loop.{Daemon, Ready, handle_ready, handle_all, poll_loop, register_all, run}

module _ {fl : Floats} where
  abbrev pub IfAny : (Daemon fl → Type 0) → Option (Daemon fl) → Type 0
  IfAny P none = Unit
  IfAny P (some d) = P d

  module _ (config : InputConfig fl) (files : Files) (P : Daemon fl → Type 0)
      (step : (r : Ready) (d : Daemon fl) → P d → P (handle_ready config files r d)) where
    handle_all_keeps : (rs : List Ready) (d : Daemon fl) → P d → P (handle_all config files rs d)
    unfolding handle_all
    handle_all_keeps [] d h = h
    handle_all_keeps (r ∷ rs) d h = handle_all_keeps rs (handle_ready config files r d) (step r d h)

    pub poll_loop_keeps :
        (polls : List (Option (List Ready))) (d : Daemon fl)
        → P d
        → P (poll_loop config files polls d).0
    unfolding poll_loop
    poll_loop_keeps [] d h = h
    poll_loop_keeps (none ∷ polls) d h = h
    poll_loop_keeps (some rs ∷ polls) d h =
        poll_loop_keeps polls (handle_all config files rs d) (handle_all_keeps rs d h)

    pub run_keeps :
        (polling : Bool) (accepts : ℕ → Bool) (ws : List (DeviceWrapper fl)) (watched : Bool)
        (polls : List (Option (List Ready))) (d : Daemon fl)
        → P d
        → IfAny P (register_all accepts ws d)
        → P (run config files polling accepts ws watched polls d).0
    unfolding run
    run_keeps polling accepts ws watched polls d h hs =
        if_both (λ (r : Daemon fl × Outcome). P r.0) polling (go (register_all accepts ws d) hs) h
      where
        go :
            (o : Option (Daemon fl))
            → IfAny P o
            → (let r : Daemon fl × Outcome = elim o [
              | none ↦ (d, err)
              | some d' ↦ if watched then poll_loop config files polls d' else (d', err)
            ] in
                P r.0)
        go none hs = h
        go (some d') hs =
            if_both (λ (r : Daemon fl × Outcome). P r.0) watched (poll_loop_keeps polls d' hs) hs
