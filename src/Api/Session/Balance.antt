-- ===== src/Api/Session/Balance.antt =====
-- The events that a client is handed tell it which devices are open.
use libinput_rs.Common.{ℕ, ◌+◌, ◌≡◌, refl, Option, none, some, List, [], ◌∷◌, ◌++◌, arith}
use libinput_rs.Common.Int.{ℤ}
use libinput_rs.Floats.{Floats}
use libinput_rs.Ffi.{Ptr, LibinputEvent}
use libinput_rs.Backend.World.{LibinputInterface}
use libinput_rs.Backend.Open.{try_open, scan_and_open}
use libinput_rs.Backend.Drain.Follows.{tally}
use libinput_rs.Backend.Drain.Keys.{Distinct}
use libinput_rs.Backend.Drain.Stamped.{AllStamped, scan_and_open-AllStamped, try_open-AllStamped}
use libinput_rs.Backend.Drain.Notices.{added, removed, added-append, removed-append}
use libinput_rs.Backend.Drain.Sound.{Sound, scan_and_open-Fair, try_open-Fair}
use libinput_rs.Backend.Drain.Whole.{drain_into_queue-Fair}
use libinput_rs.Api.Context.{
  LibinputContext, new_context, create_context, push, populate_events, libinput_dispatch,
  libinput_get_event, libinput_udev_assign_seat, libinput_path_add_device,
}
use libinput_rs.Api.Session.{
  Call, dispatch, get_event, assign_seat, path_add_device, configure, call, calls,
}
use libinput_rs.Api.Session.Step.{
  IsStep, IsStep-trans, IsStep-refl, push-IsStep, IsLive-write_device,
}

module _ {fl : Floats} where
  -- A call ends, on a context that is not null, and is a step.
  abbrev pub Ends :
      Ptr
      → LibinputContext fl
      → Option (Option (LibinputContext fl) × List (LibinputEvent fl))
      → Type 0
  Ends ctx c r =
      (c' : LibinputContext fl) × (es : List (LibinputEvent fl)) × (r ≡ some (some c', es))
      × IsStep ctx c es c'

  get_event-Ends :
      (ctx : Ptr) (c : LibinputContext fl)
      → Sound c.world
      → (q : List (LibinputEvent fl)) → c.event_queue ≡ q
      → Ends ctx c (call ctx get_event (some c))
  unfolding call libinput_get_event
  get_event-Ends ctx c s [] e = (c, [], cc e, IsStep-refl ctx c s)
  get_event-Ends ctx c s (ev ∷ q) e = (
    record c { event_queue = q },
    ev ∷ [],
    cc e,
    record { sound = s; balance = λ p. rw e (omega arith); stamped = rw e (λ h. h) },
  )

  pub call-Ends :
      (ctx : Ptr) (k : Call fl) (c : LibinputContext fl)
      → Sound c.world
      → Ends ctx c (call ctx k (some c))
  unfolding call libinput_dispatch populate_events libinput_udev_assign_seat
      libinput_path_add_device
  call-Ends ctx (dispatch env) c s =
      let (r, e, fair, stamped) = drain_into_queue-Fair ctx env c.world s in
      (push r.0 r.1 c, [], cc e, push-IsStep ctx c r.0 r.1 fair stamped)
  call-Ends ctx get_event c s = get_event-Ends ctx c s c.event_queue refl
  call-Ends ctx (assign_seat none paths) c s = (c, [], refl, IsStep-refl ctx c s)
  call-Ends ctx (assign_seat (some name) paths) c s =
      let r = scan_and_open ctx paths c.world in
      let c0 : LibinputContext fl = record c { seat = record c.seat { logical_name = name } } in
      let same =
        push-IsStep ctx c0 r.0 r.1 (scan_and_open-Fair ctx paths c.world s)
          (scan_and_open-AllStamped ctx paths c.world) in
      (
        push r.0 r.1 c0,
        [],
        refl,
        record { sound = same.sound; balance = same.balance; stamped = same.stamped },
      )
  call-Ends ctx (path_add_device none o) c s = (c, [], refl, IsStep-refl ctx c s)
  call-Ends ctx (path_add_device (some path) o) c s =
      let r = try_open path ctx o c.world in
      (
        push r.0 r.1 c,
        [],
        refl,
        push-IsStep ctx c r.0 r.1 (try_open-Fair path ctx o c.world s)
            (try_open-AllStamped ctx path o c.world),
      )
  call-Ends ctx (configure p f) c s = (
    _,
    [],
    refl,
    record {
      sound = record {
        live = IsLive-write_device p f c.world.heap c.world.tracked s.live;
        distinct = s.distinct;
      };
      balance = λ q. omega arith;
      stamped = λ h. h;
    },
  )

  calls-Ends :
      (ctx : Ptr) (ks : List (Call fl)) (c : LibinputContext fl)
      → Sound c.world
      → Ends ctx c (calls ctx ks (some c))
  unfolding calls
  calls-Ends ctx [] c s = (c, [], refl, IsStep-refl ctx c s)
  calls-Ends ctx (k ∷ ks) c s =
      let (c', es, e, first) = call-Ends ctx k c s in
      let (c'', es', e', rest) = calls-Ends ctx ks c' first.sound in
      (c'', es ++ es', cc (e, e'), IsStep-trans ctx c c' c'' es es' first rest)

  -- Where a client creates a context and then calls dispatch, event retrieval, seat assignment, the
  -- adding of paths and device settings, in any order and with any answers of the outside world (but
  -- releases neither a device nor the context), the calls end without a read through a dangling
  -- device pointer. Then of the events that the client was handed, followed by those that are still
  -- queued, as many say that a device was added as say that it was removed, plus one for each entry
  -- of the table of open devices that stands for it; and no file descriptor stands twice in that
  -- table.
  pub calls_balance :
      (interface : LibinputInterface) (user_data : Ptr) (epoll_fd : ℤ) (inotify_fd : Option ℕ)
      (ctx seat : Ptr) (ks : List (Call fl))
      → (c : LibinputContext fl) × (es : List (LibinputEvent fl)) × (calls ctx ks
            (create_context (some interface) user_data epoll_fd inotify_fd ctx seat)
          ≡ some (some c, es))
        × Distinct c.world.tracked
        × ((p : Ptr)
            → tally p c.world.tracked + removed p (es ++ c.event_queue)
              ≡ added p (es ++ c.event_queue))
  unfolding create_context new_context
  calls_balance interface user_data epoll_fd inotify_fd ctx seat ks =
      let c0 = new_context interface user_data epoll_fd inotify_fd ctx seat in
      let (c, es, e, step) = calls-Ends ctx ks c0 (record { live = tt; distinct = tt }) in
      (
        c,
        es,
        e,
        step.sound.distinct,
        λ p.
            (let x = step.balance p in
              let u = added-append p es c.event_queue in
              let v = removed-append p es c.event_queue in omega arith),
      )

  -- Where a client creates a context and then calls dispatch, event retrieval, seat assignment, the
  -- adding of paths and device settings, in any order and with any answers of the outside world (but
  -- releases neither a device nor the context), the calls end without a read through a dangling
  -- device pointer, and every event that the client was handed or that is still queued carries the
  -- payload that its type announces and names this context.
  pub calls-AllStamped :
      (interface : LibinputInterface) (user_data : Ptr) (epoll_fd : ℤ) (inotify_fd : Option ℕ)
      (ctx seat : Ptr) (ks : List (Call fl))
      → (c : LibinputContext fl) × (es : List (LibinputEvent fl)) × (calls ctx ks
            (create_context (some interface) user_data epoll_fd inotify_fd ctx seat)
          ≡ some (some c, es))
        × AllStamped ctx (es ++ c.event_queue)
  unfolding create_context new_context
  calls-AllStamped interface user_data epoll_fd inotify_fd ctx seat ks =
      let c0 = new_context interface user_data epoll_fd inotify_fd ctx seat in
      let (c, es, e, step) = calls-Ends ctx ks c0 (record { live = tt; distinct = tt }) in
      (c, es, e, step.stamped tt)
