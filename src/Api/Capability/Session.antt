-- ===== src/Api/Capability/Session.antt =====
-- A session of a client in which every event is of a kind that its device was announced with.
use libinput_rs.Common.{ℕ, ◌≡◌, refl, sym, Option, none, some, List, [], ◌∷◌, ◌++◌, All}
use mathlib.Core.Path.{subst}
use libinput_rs.Common.Int.{ℤ}
use libinput_rs.Floats.{Floats}
use libinput_rs.Ffi.{Ptr, LibinputEvent}
use libinput_rs.Backend.World.{LibinputInterface}
use libinput_rs.Backend.Open.{try_open, scan_and_open}
use libinput_rs.Api.Context.{
  LibinputContext, new_context, create_context, push, populate_events, libinput_dispatch,
  libinput_get_event, libinput_udev_assign_seat, libinput_path_add_device,
}
use libinput_rs.Api.Session.{
  Call, dispatch, get_event, assign_seat, path_add_device, configure, call, calls,
}
use libinput_rs.Api.Capability.Table.{IsAllowed, IsReady}
use libinput_rs.Api.Capability.Opens.{try_open-Sends, scan_and_open-Sends}
use libinput_rs.Api.Capability.Drains.{drain_into_queue-Sends}
use libinput_rs.Api.Capability.Moves.{
  IsMild, IsMoved, IsMoved-refl, IsMoved-trans, push-IsMoved, configure-Moves,
}

module _ {fl : Floats} where
  -- A call ends, on a context that is not null, and is such a move.
  abbrev Moves :
      LibinputContext fl → Option (Option (LibinputContext fl) × List (LibinputEvent fl)) → Type 0
  Moves c r =
      (c' : LibinputContext fl) × (es : List (LibinputEvent fl)) × (r ≡ some (some c', es))
      × IsMoved c es c'

  get_event-Moves :
      (ctx : Ptr) (c : LibinputContext fl)
      → IsReady c.world
      → (q : List (LibinputEvent fl)) → c.event_queue ≡ q
      → Moves c (call ctx get_event (some c))
  unfolding call libinput_get_event
  get_event-Moves ctx c s [] e = (c, [], cc e, IsMoved-refl c s)
  get_event-Moves ctx c s (ev ∷ q) e = (
    record c { event_queue = q },
    ev ∷ [],
    cc e,
    record {
      ready = s;
      keeps = λ x h. h;
      queued =
          subst (λ l. All (IsAllowed c.world.heap) l → All (IsAllowed c.world.heap) (ev ∷ q))
            (sym e) (λ h. h);
    },
  )

  call-Moves :
      (ctx : Ptr) (k : Call fl) (c : LibinputContext fl)
      → IsMild k
      → IsReady c.world
      → Moves c (call ctx k (some c))
  unfolding call libinput_dispatch populate_events libinput_udev_assign_seat
      libinput_path_add_device
  call-Moves ctx (dispatch env) c mild s =
      let (r, e, sends) = drain_into_queue-Sends ctx env c.world mild s in
      (push r.0 r.1 c, [], cc e, push-IsMoved c r sends)
  call-Moves ctx get_event c mild s = get_event-Moves ctx c s c.event_queue refl
  call-Moves ctx (assign_seat none paths) c mild s = (c, [], refl, IsMoved-refl c s)
  call-Moves ctx (assign_seat (some name) paths) c mild s =
      let r = scan_and_open ctx paths c.world in
      let c0 : LibinputContext fl = record c { seat = record c.seat { logical_name = name } } in
      let same = push-IsMoved c0 r (scan_and_open-Sends ctx paths c.world mild s) in
      (
        push r.0 r.1 c0,
        [],
        refl,
        record { ready = same.ready; keeps = same.keeps; queued = same.queued },
      )
  call-Moves ctx (path_add_device none o) c mild s = (c, [], refl, IsMoved-refl c s)
  call-Moves ctx (path_add_device (some path) o) c mild s =
      let r = try_open path ctx o c.world in
      (push r.0 r.1 c, [], refl, push-IsMoved c r (try_open-Sends path ctx o c.world mild s))
  call-Moves ctx (configure p f) c mild s = (_, [], refl, configure-Moves p f c mild s)

  calls-Moves :
      (ctx : Ptr) (ks : List (Call fl)) (c : LibinputContext fl)
      → All IsMild ks
      → IsReady c.world
      → Moves c (calls ctx ks (some c))
  unfolding calls
  calls-Moves ctx [] c mild s = (c, [], refl, IsMoved-refl c s)
  calls-Moves ctx (k ∷ ks) c (mild, milds) s =
      let (c', es, e, first) = call-Moves ctx k c mild s in
      let (c'', es', e', rest) = calls-Moves ctx ks c' milds first.ready in
      (c'', es ++ es', cc (e, e'), IsMoved-trans c c' c'' es es' first rest)

  -- Where no device that is opened has the key A and absolute axes but is no pointer, and no
  -- setter changes what a device was announced with, the calls of a session end, and every event
  -- that the client was handed or that is still queued names a device object that is there, and is
  -- a notification or of a kind that this device was announced with: a key event comes from a
  -- keyboard, motion, buttons and scrolling from a pointer, a gesture from a device with gestures.
  -- No event is one of a touch screen, a switch or a tablet.
  pub calls-AllAllowed :
      (interface : LibinputInterface) (user_data : Ptr) (epoll_fd : ℤ) (inotify_fd : Option ℕ)
      (ctx seat : Ptr) (ks : List (Call fl))
      → All IsMild ks
      → (c : LibinputContext fl) × (es : List (LibinputEvent fl)) × (calls ctx ks
            (create_context (some interface) user_data epoll_fd inotify_fd ctx seat)
          ≡ some (some c, es))
        × All (IsAllowed c.world.heap) (es ++ c.event_queue)
  unfolding create_context new_context
  calls-AllAllowed interface user_data epoll_fd inotify_fd ctx seat ks mild =
      let c0 = new_context interface user_data epoll_fd inotify_fd ctx seat in
      let (c, es, e, moved) = calls-Moves ctx ks c0 mild (record { below = tt; linked = tt }) in
      (c, es, e, moved.queued tt)
