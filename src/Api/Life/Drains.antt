-- ===== src/Api/Life/Drains.antt =====
-- The memory of a context in a drain: nothing is freed, and what is pushed names live devices.
use libinput_rs.Common.{
  ℕ, ◌==◌, ◌≡◌, refl, true, not, Option, none, some, List, [], ◌∷◌, ◌++◌, All-retain,
}
use libinput_rs.Floats.{Floats}
use libinput_rs.Ffi.{Ptr, LibinputEvent}
use libinput_rs.Backend.Tracked.{TrackedDevice}
use libinput_rs.Backend.Keyboard.{emit_key_repeats}
use libinput_rs.Backend.World.{World, Pushed, contains_key, lookup}
use libinput_rs.Backend.Open.{handle_hotplug, new_paths}
use libinput_rs.Backend.Drain.{
  Answers, Drained, removal, remove_dead, remove_all, finish_drain, drain_into_queue, without,
}
use libinput_rs.Backend.Drain.Follows.{Follows, IsLive-Follows, emit_key_repeats-Follows}
use libinput_rs.Backend.Drain.Named.{Names, emit_key_repeats-Names, IsLive-lookup}
use libinput_rs.Backend.Drain.Rounds.{drain_devices-IsDrained}
use libinput_rs.Api.Objects.Refs.{Held}
use libinput_rs.Api.Life.Memory.{Memory, Grows, Grows-refl, Grows-trans, Grows-tracked}
use libinput_rs.Api.Life.Opens.{scan_and_open-Grows}

module _ {fl : Floats} where
  removal-Grows :
      (held : Held) (ctx : Ptr) (fd : ℕ) (w : World fl) (o : Option (TrackedDevice fl))
      → lookup fd w.tracked ≡ o
      → Memory held w
      → Grows held w (removal ctx fd w o)
  unfolding removal without
  removal-Grows held ctx fd w none e m = Grows-refl held w m
  removal-Grows held ctx fd w (some td) e m =
      Grows-tracked held w _ _ refl refl refl
        (All-retain (λ x. contains_key x.1.lib_device w.heap ≡ true) (λ x. not (x.0 == fd))
          w.tracked m.live)
        (IsLive-lookup w.heap fd td w.tracked m.live e, tt) m

  remove_all-Grows :
      (held : Held) (ctx : Ptr) (fds : List ℕ) (w : World fl)
      → Memory held w
      → Grows held w (remove_all ctx fds w)
  unfolding remove_all remove_dead
  remove_all-Grows held ctx [] w m = Grows-refl held w m
  remove_all-Grows held ctx (fd ∷ fds) w m =
      let first = remove_dead ctx fd w in
      let rest = remove_all ctx fds first.0 in
      let grows = removal-Grows held ctx fd w (lookup fd w.tracked) refl m in
      Grows-trans held w first.0 rest.0 first.1 rest.1 grows
        (remove_all-Grows held ctx fds first.0 grows.memory)

  finish_drain-Grows :
      (held : Held) (ctx : Ptr) (v w : World fl) (before : List (LibinputEvent fl)) (d : Drained fl)
      → Grows held v (w, before)
      → Follows w.tracked d.tracked
      → Names w.heap d.out
      → Grows held v (finish_drain ctx w before d)
  unfolding finish_drain
  finish_drain-Grows held ctx v w before d g follows named =
      let w' : World fl = record w {
        tracked = d.tracked;
        global_typing_time = d.global_typing_time;
      } in
      let last = remove_all ctx d.dead_fds w' in
      let middle : Grows held w (w', d.out) =
        Grows-tracked held w w' d.out refl refl refl
          (IsLive-Follows w.heap w.tracked d.tracked follows g.memory.live) named g.memory in
      Grows-trans held v w' last.0 (before ++ d.out) last.1
        (Grows-trans held v w w' before d.out g middle)
        (remove_all-Grows held ctx d.dead_fds w' middle.memory)

  handle_hotplug-Grows :
      (held : Held) (ctx : Ptr) (env : Answers) (w : World fl)
      → Memory held w
      → Grows held w (handle_hotplug ctx env.ievents w)
  unfolding handle_hotplug
  handle_hotplug-Grows held ctx env w m =
      scan_and_open-Grows held ctx (new_paths env.ievents w.tracked) w m

  -- A drain comes to an end, frees nothing, and pushes events that name live devices.
  pub drain_into_queue-Grows :
      (held : Held) (ctx : Ptr) (env : Answers) (w : World fl)
      → Memory held w
      → (r : Pushed fl) × (drain_into_queue ctx env w ≡ some r) × Grows held w r
  unfolding drain_into_queue
  drain_into_queue-Grows held ctx env w m =
      let hot = handle_hotplug ctx env.ievents w in
      let w1 = hot.0 in
      let reps = emit_key_repeats env.now ctx w1.tracked in
      let first = handle_hotplug-Grows held ctx env w m in
      let w2 : World fl = record w1 { tracked = reps.0 } in
      let repeated : Grows held w1 (w2, reps.1) =
        Grows-tracked held w1 w2 reps.1 refl refl refl
          (IsLive-Follows w1.heap w1.tracked reps.0
            (emit_key_repeats-Follows env.now ctx w1.tracked) first.memory.live)
          (emit_key_repeats-Names w1.heap env.now ctx w1.tracked first.memory.live) first.memory in
      let (d, eq, follows, _, _, named) =
        drain_devices-IsDrained w1.heap ctx env.fetch reps.0 w1.global_typing_time
          repeated.memory.live in
      (
        finish_drain ctx w2 (hot.1 ++ reps.1) d,
        cc eq,
        finish_drain-Grows held ctx w w2 (hot.1 ++ reps.1) d
            (Grows-trans held w w1 w2 hot.1 reps.1 first repeated) follows named,
      )
