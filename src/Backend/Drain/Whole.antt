-- ===== src/Backend/Drain/Whole.antt =====
-- The whole of `drain_into_queue`: what it does to the table of devices, and what it tells the
-- client about it.
use libinput_rs.Common.{All-append, ◌≡◌, some, List, ◌++◌, arith}
use libinput_rs.Floats.{Floats}
use libinput_rs.Ffi.{Ptr, LibinputEvent}
use libinput_rs.Ffi.Device.{LibinputDevice}
use libinput_rs.Backend.Keyboard.{emit_key_repeats}
use libinput_rs.Backend.World.{World, Pushed}
use libinput_rs.Backend.Open.{handle_hotplug, new_paths}
use libinput_rs.Backend.Drain.{Answers, Drained, remove_all, finish_drain, drain_into_queue}
use libinput_rs.Backend.Drain.Follows.{
  Tracks, Follows, tally-Follows, Distinct-Follows, IsLive-Follows, emit_key_repeats-Follows,
}
use libinput_rs.Backend.Drain.Stamped.{
  IsStamped, AllStamped, scan_and_open-AllStamped, emit_key_repeats-AllStamped,
  remove_all-AllStamped,
}
use libinput_rs.Backend.Drain.Notices.{IsQuiet, emit_key_repeats-IsQuiet}
use libinput_rs.Backend.Drain.Sound.{IsSound, IsFair, IsFair-trans, Fair, Sound, scan_and_open-Fair}
use libinput_rs.Backend.Drain.Rounds.{drain_devices-IsDrained}
use libinput_rs.Backend.Drain.Removal.{remove_all-Fair}

module _ {fl : Floats} (heap : List (Ptr × LibinputDevice fl)) where
  -- A pass that keeps what the devices are and notifies of none.
  quiet_pass-IsFair :
      (l l' : Tracks fl) (out : List (LibinputEvent fl))
      → Follows l l'
      → IsQuiet out
      → IsSound heap l
      → IsFair l heap l' out
  quiet_pass-IsFair l l' out f q s = record {
    sound = record {
      live = IsLive-Follows heap l l' f s.live;
      distinct = Distinct-Follows l l' f s.distinct;
    };
    balance = λ p. (let (a, r) = q p in let t = tally-Follows p l l' f in omega arith);
  }

module _ {fl : Floats} where
  handle_hotplug-Fair :
      (ctx : Ptr) (env : Answers) (w : World fl)
      → Sound w
      → Fair w (handle_hotplug ctx env.ievents w)
  unfolding handle_hotplug
  handle_hotplug-Fair ctx env w s = scan_and_open-Fair ctx (new_paths env.ievents w.tracked) w s

  finish_drain-Fair :
      (ctx : Ptr) (v w : World fl) (before : List (LibinputEvent fl)) (d : Drained fl)
      → IsFair v.tracked w.heap w.tracked before
      → Follows w.tracked d.tracked
      → IsQuiet d.out
      → Fair v (finish_drain ctx w before d)
  unfolding finish_drain
  finish_drain-Fair ctx v w before d f follows quiet =
      let w' : World fl = record w {
        tracked = d.tracked;
        global_typing_time = d.global_typing_time;
      } in
      let last = remove_all ctx d.dead_fds w' in
      let middle = quiet_pass-IsFair w.heap w.tracked d.tracked d.out follows quiet f.sound in
      IsFair-trans v.tracked d.tracked last.0.tracked w.heap last.0.heap (before ++ d.out) last.1
        (IsFair-trans v.tracked w.tracked d.tracked w.heap w.heap before d.out f middle)
        (remove_all-Fair ctx d.dead_fds w' middle.sound)

  finish_drain-AllStamped :
      (ctx : Ptr) (w : World fl) (before : List (LibinputEvent fl)) (d : Drained fl)
      → AllStamped ctx before
      → AllStamped ctx d.out
      → AllStamped ctx (finish_drain ctx w before d).1
  unfolding finish_drain
  finish_drain-AllStamped ctx w before d h k =
      let w' : World fl = record w {
        tracked = d.tracked;
        global_typing_time = d.global_typing_time;
      } in
      All-append (IsStamped ctx) (before ++ d.out) (remove_all ctx d.dead_fds w').1
        (All-append (IsStamped ctx) before d.out h k) (remove_all-AllStamped ctx d.dead_fds w')

  handle_hotplug-AllStamped :
      (ctx : Ptr) (env : Answers) (w : World fl)
      → AllStamped ctx (handle_hotplug ctx env.ievents w).1
  unfolding handle_hotplug
  handle_hotplug-AllStamped ctx env w =
      scan_and_open-AllStamped ctx (new_paths env.ievents w.tracked) w

  -- If no file descriptor stands twice in the table and every device of it has its object, then a
  -- drain comes to an end without a read through a dangling device pointer, whatever inotify, the
  -- clock and the devices answer. Afterwards the same holds of the table, and every device pointer
  -- stands in it as often as before, plus the `DEVICE_ADDED` events that were pushed for it, less
  -- the `DEVICE_REMOVED` events. Every event that was pushed carries the payload that its type
  -- announces, and names the context.
  pub drain_into_queue-Fair :
      (ctx : Ptr) (env : Answers) (w : World fl)
      → Sound w
      → (r : Pushed fl) × (drain_into_queue ctx env w ≡ some r) × Fair w r × AllStamped ctx r.1
  unfolding drain_into_queue
  drain_into_queue-Fair ctx env w s =
      let hot = handle_hotplug ctx env.ievents w in
      let w1 = hot.0 in
      let reps = emit_key_repeats env.now ctx w1.tracked in
      let fair1 = handle_hotplug-Fair ctx env w s in
      let fair2 =
        quiet_pass-IsFair w1.heap w1.tracked reps.0 reps.1
          (emit_key_repeats-Follows env.now ctx w1.tracked)
          (emit_key_repeats-IsQuiet env.now ctx w1.tracked) fair1.sound in
      let (d, eq, follows, quiet, stamped, _) =
        drain_devices-IsDrained w1.heap ctx env.fetch reps.0 w1.global_typing_time
          fair2.sound.live in
      (
        finish_drain ctx (record w1 { tracked = reps.0 }) (hot.1 ++ reps.1) d,
        cc eq,
        finish_drain-Fair ctx w (record w1 { tracked = reps.0 }) (hot.1 ++ reps.1) d
            (IsFair-trans w.tracked w1.tracked reps.0 w1.heap w1.heap hot.1 reps.1 fair1 fair2)
            follows quiet,
        finish_drain-AllStamped ctx (record w1 { tracked = reps.0 }) (hot.1 ++ reps.1) d
            (All-append (IsStamped ctx) hot.1 reps.1 (handle_hotplug-AllStamped ctx env w)
              (emit_key_repeats-AllStamped ctx env.now w1.tracked))
            stamped,
      )
