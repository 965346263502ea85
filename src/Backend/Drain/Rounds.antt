-- ===== src/Backend/Drain/Rounds.antt =====
-- The rounds over the open devices, and the removals that follow them.
use libinput_rs.Common.{All-append, ℕ, ◌≡◌, refl, true, Option, some, List, [], ◌∷◌, ◌++◌}
use libinput_rs.Floats.{Floats}
use libinput_rs.Ffi.{Ptr}
use libinput_rs.Ffi.Device.{LibinputDevice}
use libinput_rs.Backend.Tracked.{TrackedDevice}
use libinput_rs.Backend.Batch.{drain_batch}
use libinput_rs.Backend.Batch.Identity.{drain_batch-SameIdentity}
use libinput_rs.Backend.Batch.Consistent.{drain_batch-AllFrom}
use libinput_rs.Backend.World.{contains_key}
use libinput_rs.Backend.Drain.{
  Fetch, fetched, gone, no_events, Drained, drain_fetched, drain_one, drain_devices,
}
use libinput_rs.Backend.Drain.Keys.{lookup-contains_key}
use libinput_rs.Backend.Drain.Stamped.{IsStamped, AllStamped, AllFrom-AllStamped}
use libinput_rs.Backend.Drain.Notices.{IsQuiet, IsQuiet-append, AllFrom-IsQuiet}
use libinput_rs.Backend.Drain.Named.{IsNamed, Names, AllFrom-Names}
use libinput_rs.Backend.Drain.Follows.{Tracks, Follows, IsLive}

module _ {fl : Floats} where
  -- A round over these devices comes to an end, keeps what the devices are, notifies of none, and
  -- stamps its events and names
  -- live devices in them.
  abbrev pub IsDrained :
      List (Ptr × LibinputDevice fl) → Ptr → Tracks fl → Option (Drained fl) → Type 0
  IsDrained heap ctx l r =
      (d : Drained fl) × (r ≡ some d)
      × Follows l d.tracked
      × IsQuiet d.out
      × AllStamped ctx d.out
      × Names heap d.out

  module _ (heap : List (Ptr × LibinputDevice fl)) (ctx : Ptr) where
    drain_one-IsDrained :
        (l : Tracks fl) (rest : Option ℕ → Option (Drained fl))
        → ((g : Option ℕ) → IsDrained heap ctx l (rest g))
        → (fd : ℕ) (f : Fetch) (td : TrackedDevice fl) (g : Option ℕ)
        → contains_key td.lib_device heap ≡ true
        → IsDrained heap ctx ((fd, td) ∷ l) (drain_one rest heap ctx fd f td g)
    unfolding drain_one drain_fetched
    drain_one-IsDrained l rest total fd (fetched es) td g live =
        let (dev, found) = lookup-contains_key td.lib_device heap live in
        let step = drain_batch dev g ctx es td g in
        let (d, eq, follows, quiet, stamped, named) = total step.global_typing_time in
        (
          record d { tracked = (fd, step.td) ∷ d.tracked; out = step.out ++ d.out },
          cc (found, eq),
          (refl, (drain_batch-SameIdentity dev g ctx es td g).lib_device, follows),
          IsQuiet-append step.out d.out
              (AllFrom-IsQuiet ctx td.lib_device step.out (drain_batch-AllFrom dev g ctx es td g))
              quiet,
          All-append (IsStamped ctx) step.out d.out
              (AllFrom-AllStamped ctx td.lib_device step.out
                (drain_batch-AllFrom dev g ctx es td g))
              stamped,
          All-append (IsNamed heap) step.out d.out
              (AllFrom-Names heap ctx td.lib_device step.out live
                (drain_batch-AllFrom dev g ctx es td g))
              named,
        )
    drain_one-IsDrained l rest total fd gone td g live =
        let (d, eq, follows, quiet, stamped, named) = total g in
        (
          record d { tracked = (fd, td) ∷ d.tracked; dead_fds = fd ∷ d.dead_fds },
          cc eq,
          (refl, refl, follows),
          quiet,
          stamped,
          named,
        )
    drain_one-IsDrained l rest total fd no_events td g live =
        let (d, eq, follows, quiet, stamped, named) = total g in
        (
          record d { tracked = (fd, td) ∷ d.tracked },
          cc eq,
          (refl, refl, follows),
          quiet,
          stamped,
          named,
        )

    pub drain_devices-IsDrained :
        (fetch : ℕ → Fetch) (l : Tracks fl) (g : Option ℕ)
        → IsLive heap l
        → IsDrained heap ctx l (drain_devices heap ctx fetch l g)
    unfolding drain_devices
    drain_devices-IsDrained fetch [] g live = (_, refl, tt, (λ p. (refl, refl)), tt, tt)
    drain_devices-IsDrained fetch ((fd, td) ∷ l) g (live, lives) =
        drain_one-IsDrained l (drain_devices heap ctx fetch l)
          (λ g'. drain_devices-IsDrained fetch l g' lives) fd (fetch fd) td g live
