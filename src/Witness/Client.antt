-- ===== src/Witness/Client.antt =====
-- The C interface: a client's session, the casts and accessors of a key event, and the settings.
use libinput_rs.Common.{map, arith, ◌+◌, ◌/◌, ◌%◌, ◌≡◌, refl, true, none, some, List, [], ◌∷◌, ◌++◌}
use libinput_rs.Common.Int.{pos, negsuc}
use libinput_rs.Ffi.{Ptr, LibinputEvent}
use libinput_rs.Backend.Keyboard.{key_event}
use libinput_rs.Backend.World.{LibinputInterface}
use libinput_rs.Backend.Open.{opened}
use libinput_rs.Backend.Drain.Keys.{Distinct}
use libinput_rs.Backend.Drain.Follows.{tally}
use libinput_rs.Backend.Drain.Stamped.{AllStamped}
use libinput_rs.Backend.Drain.Notices.{added, removed}
use libinput_rs.Api.Context.{
  LibinputContext, create_context, new_context, libinput_next_event_type, libinput_event_get_type,
  libinput_get_event, libinput_unref,
}
use libinput_rs.Api.Session.{Call, dispatch, get_event, path_add_device, configure, calls}
use libinput_rs.Api.Context.Refs.{ref_times, unref_times, unref-ref_times}
use libinput_rs.Api.Session.Balance.{calls_balance, calls-AllStamped}
use libinput_rs.Api.Session.Order.{next_event_type_lem, calls-get_event}
use libinput_rs.Api.Casts.Kinds.{cast_count, cast_count_one}
use libinput_rs.Api.Casts.Times.{time, time_usec, payload_time, accessor_times}
use libinput_rs.Api.Config.Laws.{tap, natural_scroll, get}
use libinput_rs.Backend.World.{lookup}
use libinput_rs.Api.Session.Settings.{Request, request, setting, to_call, read_after, calls-get}
use libinput_rs.Witness.Data.{fl, mouse, pad_device}
use libinput_rs.Witness.Table.{answers, table, table-Sound}

abbrev pub callbacks : LibinputInterface
callbacks = record { open_restricted = true; close_restricted = true }

-- A mouse is added by its path, configured, unplugged, and its events fetched.
abbrev session : List (Call fl)
session =
    path_add_device (some "/dev/input/event4") (opened 4 mouse)
    ∷ configure 4 (λ dev. record dev { left_handed = true })
    ∷ get_event
    ∷ dispatch answers
    ∷ get_event
    ∷ []

calls_balance_example :
    (c : LibinputContext fl) × (es : List (LibinputEvent fl)) × (calls 1 session
        (create_context (some callbacks) 0 (pos 3) (some 9) 1 2)
      ≡ some (some c, es))
    × Distinct c.world.tracked
    × ((p : Ptr)
        → tally p c.world.tracked + removed p (es ++ c.event_queue) ≡ added p (es ++ c.event_queue))
calls_balance_example = calls_balance callbacks 0 (pos 3) (some 9) 1 2 session

calls-AllStamped_example :
    (c : LibinputContext fl) × (es : List (LibinputEvent fl)) × (calls 1 session
        (create_context (some callbacks) 0 (pos 3) (some 9) 1 2)
      ≡ some (some c, es))
    × AllStamped 1 (es ++ c.event_queue)
calls-AllStamped_example = calls-AllStamped callbacks 0 (pos 3) (some 9) 1 2 session

abbrev press : LibinputEvent fl
press = key_event 7_000_000 30 1 1 8

cast_count_one_example : cast_count press ≡ 1
cast_count_one_example = cast_count_one press refl

accessor_times_example :
    (time_usec press ≡ payload_time press.payload)
    × (time press ≡ (payload_time press.payload / 1000) % 0x1_0000_0000)
accessor_times_example = accessor_times press refl refl

-- The touchpad's device is set between two drains, in the first of which a mouse is opened.
abbrev with_pad : LibinputContext fl
unfolding new_context
with_pad = record (new_context callbacks 0 (pos 3) none 1 2) { world = table }

abbrev settings_made : List (Request fl)
settings_made =
    setting 7 (tap 0)
    ∷ request (dispatch answers)
    ∷ setting 7 (natural_scroll (negsuc 4))
    ∷ setting 8 (tap 0)
    ∷ setting 7 (tap 3)
    ∷ request (dispatch answers)
    ∷ []

calls-get_example :
    (c' : LibinputContext fl) × (es : List (LibinputEvent fl)) × (calls 1
        (map to_call settings_made)
        (some with_pad)
      ≡ some (some c', es))
    × (get (lookup 7 c'.world.heap) ≡ read_after 7 settings_made (get (some pad_device)))
unfolding with_pad lookup
calls-get_example =
    calls-get 1 settings_made with_pad 7 pad_device table-Sound
      (tt, (tt, (tt, (tt, (tt, (tt, tt)))))) (omega arith) refl

abbrev queued : LibinputContext fl
unfolding new_context
queued = record (new_context callbacks 0 (pos 3) none 1 2) {
  event_queue = press ∷ key_event 7_500_000 30 0 1 8 ∷ [];
}

calls-get_event_example :
    calls 1 (get_event ∷ []) (some queued)
    ≡ some (some (record queued { event_queue = key_event 7_500_000 30 0 1 8 ∷ [] }), press ∷ [])
unfolding queued
calls-get_event_example =
    calls-get_event 1 (press ∷ []) (key_event 7_500_000 30 0 1 8 ∷ []) queued refl

next_event_type_lem_example :
    libinput_next_event_type (some queued)
    ≡ libinput_event_get_type (libinput_get_event (some queued)).1
next_event_type_lem_example = next_event_type_lem (some queued)

unref-ref_times_example :
    (unref_times (0 + 2) (ref_times 2 (some queued)) ≡ some (record queued { refcount = pos 1 }))
    × (libinput_unref (unref_times (0 + 2) (ref_times 2 (some queued))) ≡ none)
unfolding queued
unref-ref_times_example = unref-ref_times queued 0 2 refl (omega arith)
