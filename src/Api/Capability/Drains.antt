-- ===== src/Api/Capability/Drains.antt =====
-- A whole drain, in which every device sends events of the kinds that it was announced with.
use libinput_rs.Common.{
  ℕ, ◌==◌, ◌≡◌, refl, sym, not, Option, none, some, List, [], ◌∷◌, ◌++◌, All, All-retain,
  Bool-cases, inl, inr, arith,
}
use mathlib.Core.Path.{subst}
use libinput_rs.Floats.{Floats}
use libinput_rs.Ffi.{Ptr, LibinputEvent}
use libinput_rs.Ffi.Device.{LibinputDevice}
use libinput_rs.Backend.Tracked.{TrackedDevice}
use libinput_rs.Backend.Keyboard.{emit_key_repeats}
use libinput_rs.Backend.World.{World, Pushed, lookup}
use libinput_rs.Backend.Open.{handle_hotplug}
use libinput_rs.Backend.Drain.{
  Answers, Drained, removal, remove_dead, remove_all, finish_drain, drain_into_queue, without,
}
use libinput_rs.Backend.Drain.Follows.{Tracks}
use libinput_rs.Api.Capability.Table.{
  IsLinked, AllLinked, IsAllowed, IsReady, Sends, Sends-refl, Sends-trans, Sends-tracked,
}
use libinput_rs.Api.Capability.Opens.{AllProper, handle_hotplug-Sends}
use libinput_rs.Api.Capability.Rounds.{emit_key_repeats-Pass, drain_devices-Drains}

module _ {fl : Floats} (ctx : Ptr) where
  IsLinked-lookup :
      (heap : List (Ptr × LibinputDevice fl)) (fd : ℕ) (td : TrackedDevice fl) (l : Tracks fl)
      → AllLinked heap l
      → lookup fd l ≡ some td
      → IsLinked heap td
  unfolding lookup
  IsLinked-lookup heap fd td [] h found = cc
  IsLinked-lookup heap fd td ((j, t) ∷ l) (h, hs) found = elim (Bool-cases (j == fd)) [
    | inl e ↦
        (let here : some td ≡ some t = ground arith in
          subst (λ o. elim o [ none ↦ Unit | some x ↦ IsLinked heap x ]) (sym here) h)
    | inr e ↦ IsLinked-lookup heap fd td l hs (ground arith)
  ]

  removal-Sends :
      (fd : ℕ) (w : World fl) (o : Option (TrackedDevice fl))
      → lookup fd w.tracked ≡ o
      → IsReady w
      → Sends w (removal ctx fd w o)
  unfolding removal without
  removal-Sends fd w none e ready = Sends-refl w ready
  removal-Sends fd w (some td) e ready =
      let (dev, found, link) = IsLinked-lookup w.heap fd td w.tracked ready.linked e in
      Sends-tracked w _ _ refl refl
        (All-retain (λ x. IsLinked w.heap x.1) (λ x. not (x.0 == fd)) w.tracked ready.linked)
        ((dev, found, refl), tt) ready

  remove_all-Sends : (fds : List ℕ) (w : World fl) → IsReady w → Sends w (remove_all ctx fds w)
  unfolding remove_all remove_dead
  remove_all-Sends [] w ready = Sends-refl w ready
  remove_all-Sends (fd ∷ fds) w ready =
      let first = remove_dead ctx fd w in
      let rest = remove_all ctx fds first.0 in
      let sends = removal-Sends fd w (lookup fd w.tracked) refl ready in
      Sends-trans w first.0 rest.0 first.1 rest.1 sends (remove_all-Sends fds first.0 sends.ready)

  finish_drain-Sends :
      (v w : World fl) (before : List (LibinputEvent fl)) (d : Drained fl)
      → Sends v (w, before)
      → AllLinked w.heap d.tracked
      → All (IsAllowed w.heap) d.out
      → Sends v (finish_drain ctx w before d)
  unfolding finish_drain
  finish_drain-Sends v w before d s linked allowed =
      let w' : World fl = record w {
        tracked = d.tracked;
        global_typing_time = d.global_typing_time;
      } in
      let last = remove_all ctx d.dead_fds w' in
      let middle = Sends-tracked w w' d.out refl refl linked allowed s.ready in
      Sends-trans v w' last.0 (before ++ d.out) last.1 (Sends-trans v w w' before d.out s middle)
        (remove_all-Sends d.dead_fds w' middle.ready)

  -- Where every open device is one that its object describes, and where no device is opened that
  -- has the key A and absolute axes but is no pointer, a drain comes to an end, and each event
  -- that it pushes is a notification or of a kind that its device was announced with: keys come
  -- from keyboards, motion, buttons and scrolling from pointers, gestures from devices with
  -- gestures, and there are no events of touch screens, switches or tablets. Afterwards the same
  -- holds of the open devices.
  pub drain_into_queue-Sends :
      (env : Answers) (w : World fl)
      → AllProper env.ievents
      → IsReady w
      → (r : Pushed fl) × (drain_into_queue ctx env w ≡ some r) × Sends w r
  unfolding drain_into_queue
  drain_into_queue-Sends env w proper ready =
      let hot = handle_hotplug ctx env.ievents w in
      let w1 = hot.0 in
      let reps = emit_key_repeats env.now ctx w1.tracked in
      let w2 : World fl = record w1 { tracked = reps.0 } in
      let first = handle_hotplug-Sends ctx env.ievents w proper ready in
      let (linked, allowed) =
        emit_key_repeats-Pass w1.heap ctx env.now w1.tracked first.ready.linked in
      let repeated = Sends-tracked w1 w2 reps.1 refl refl linked allowed first.ready in
      let (d, eq, linked', allowed') =
        drain_devices-Drains w1.heap ctx env.fetch reps.0 w1.global_typing_time linked in
      (
        finish_drain ctx w2 (hot.1 ++ reps.1) d,
        cc eq,
        finish_drain-Sends w w2 (hot.1 ++ reps.1) d
            (Sends-trans w w1 w2 hot.1 reps.1 first repeated) linked' allowed',
      )
