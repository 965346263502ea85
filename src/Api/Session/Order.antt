-- ===== src/Api/Session/Order.antt =====
-- The order in which the client gets the queued events.
use libinput_rs.Common.{◌≡◌, refl, Option, some, none, List, [], ◌∷◌, ◌++◌, length, replicate}
use libinput_rs.Floats.{Floats}
use libinput_rs.Ffi.{Ptr, LibinputEvent}
use libinput_rs.Api.Context.{
  LibinputContext, libinput_get_event, libinput_next_event_type, libinput_event_get_type,
}
use libinput_rs.Api.Session.{get_event, call, calls}

module _ {fl : Floats} where
  -- The type that is announced for the next event is that of the event which is handed out next, and
  -- `EVENT_NONE` where none is.
  pub next_event_type_lem :
      (c : Option (LibinputContext fl))
      → libinput_next_event_type c ≡ libinput_event_get_type (libinput_get_event c).1
  unfolding libinput_next_event_type libinput_event_get_type libinput_get_event
  next_event_type_lem none = refl
  next_event_type_lem (some c) = queue c.event_queue
    where
      queue :
          (q : List (LibinputEvent fl))
          → libinput_next_event_type (some (record c { event_queue = q }))
            ≡ libinput_event_get_type (libinput_get_event (some (record c { event_queue = q }))).1
      queue [] = refl
      queue (e ∷ q) = refl

  -- As many calls as there are events at the front of the queue hand out those events, in the order
  -- in which they were queued, and leave the rest.
  pub calls-get_event :
      (ctx : Ptr) (xs ys : List (LibinputEvent fl)) (c : LibinputContext fl)
      → c.event_queue ≡ xs ++ ys
      → calls ctx (replicate (length xs) get_event) (some c)
        ≡ some (some (record c { event_queue = ys }), xs)
  unfolding calls call libinput_get_event
  calls-get_event ctx [] ys c e = cc e
  calls-get_event ctx (x ∷ xs) ys c e =
      cc (e, calls-get_event ctx xs ys (record c { event_queue = xs ++ ys }) refl)
