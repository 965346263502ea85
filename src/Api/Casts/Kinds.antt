-- ===== src/Api/Casts/Kinds.antt =====
-- The casts of an event by its type, and the accessors that read its payload, fit together on
-- consistent events.
use libinput_rs.Common.{
  ℕ, ◌+◌, ◌≡◌, ◌⊎◌, inl, inr, refl, Bool, true, false, Option, none, some, arith, bool_to_nat,
}
use libinput_rs.Floats.{Floats}
use libinput_rs.Ffi.{LibinputEventType, LibinputEvent, EventPayload}
use libinput_rs.Ffi.Kinds.{fits, IsConsistent}
use libinput_rs.Api.Casts.{
  cast, is_notify, is_pointer, is_keyboard, is_touch, is_gesture, is_switch, is_tablet_pad,
  is_tablet_tool, get_device_notify_event, get_pointer_event, get_keyboard_event, get_touch_event,
  get_gesture_event, get_switch_event, get_tablet_pad_event, get_tablet_tool_event,
}

-- How many of the casts give the event and not null.
abbrev is_not_null : {fl : Floats} → Option (LibinputEvent fl) → Bool
is_not_null none = false
is_not_null (some _) = true

abbrev pub cast_count : {fl : Floats} → LibinputEvent fl → ℕ
cast_count e =
    bool_to_nat (is_not_null (get_device_notify_event (some e)))
    + bool_to_nat (is_not_null (get_pointer_event (some e)))
    + bool_to_nat (is_not_null (get_keyboard_event (some e)))
    + bool_to_nat (is_not_null (get_touch_event (some e)))
    + bool_to_nat (is_not_null (get_gesture_event (some e)))
    + bool_to_nat (is_not_null (get_switch_event (some e)))
    + bool_to_nat (is_not_null (get_tablet_pad_event (some e)))
    + bool_to_nat (is_not_null (get_tablet_tool_event (some e)))

abbrev kind_count : LibinputEventType → ℕ
kind_count t =
    bool_to_nat (is_notify t)
    + bool_to_nat (is_pointer t)
    + bool_to_nat (is_keyboard t)
    + bool_to_nat (is_touch t)
    + bool_to_nat (is_gesture t)
    + bool_to_nat (is_switch t)
    + bool_to_nat (is_tablet_pad t)
    + bool_to_nat (is_tablet_tool t)

cast-is_not_null :
    {fl : Floats} (test : LibinputEventType → Bool) (e : LibinputEvent fl)
    → is_not_null (cast test (some e)) ≡ test e.event_type
unfolding cast
cast-is_not_null test e = ground arith

kind_count_one : (t : LibinputEventType) → (t ≡ LibinputEventType.event_none) ⊎ (kind_count t ≡ 1)
kind_count_one LibinputEventType.event_none = inl refl
kind_count_one t = ground arith

none_unfit : {fl : Floats} (x : EventPayload fl) → fits LibinputEventType.event_none x ≡ false
none_unfit x = ground arith

-- An event whose payload is one that its type announces passes exactly one of the eight casts, so a
-- client that tries them learns the kind of the event.
pub cast_count_one : {fl : Floats} (e : LibinputEvent fl) → IsConsistent e → cast_count e ≡ 1
unfolding get_device_notify_event get_pointer_event get_keyboard_event get_touch_event
    get_gesture_event get_switch_event get_tablet_pad_event get_tablet_tool_event
cast_count_one e h = elim (kind_count_one e.event_type) [
  | inl t ↦ cc (t, h, none_unfit e.payload)
  | inr k ↦ cc (
    cast-is_not_null is_notify e,
    cast-is_not_null is_pointer e,
    cast-is_not_null is_keyboard e,
    cast-is_not_null is_touch e,
    cast-is_not_null is_gesture e,
    cast-is_not_null is_switch e,
    cast-is_not_null is_tablet_pad e,
    cast-is_not_null is_tablet_tool e,
    k,
  )
]
