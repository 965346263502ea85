-- ===== src/Backend/Touchpad/Pinch.antt =====
-- The protocol of the pinch gesture, as a client of the library sees it: an automaton that reads
-- events, and the proof that the touchpad handler keeps to it.
use libinput_rs.Common.{
  ℕ, ◌≡◌, refl, Bool, Option, none, some, List, [], ◌∷◌, ◌++◌, arith, if◌then◌else◌,
}
use libinput_rs.Common.Int.{ℤ, eq_ℤ, eq_ℤ-refl}
use libinput_rs.Evdev.{InputEvent, Readings}
use libinput_rs.Floats.{Floats}
use libinput_rs.Ffi.{Ptr, LibinputEvent, EventPayload}
use libinput_rs.Backend.Tracked.{TrackedDevice, MtSlot}
use libinput_rs.Backend.Touchpad.{Settings, process_absolute_event, guard_tap, absolute_key}
use libinput_rs.Backend.Touchpad.Cases.{
  absolute_axis_cases, absolute_key_cases, absolute_dispatch_cases,
}
use libinput_rs.Backend.Touchpad.Touch.{Out, touch_down, touch_up}
use libinput_rs.Backend.Touchpad.Click.{click, tool_tap}
use libinput_rs.Backend.Touchpad.Axis.{absolute_axis, select_slot, write_slot, move_x, move_y}
use libinput_rs.Backend.Touchpad.Sync.{sync}

-- No pinch is in progress, or one that began with so many fingers.
abbrev pub Progress : Type 0
Progress = Option ℤ

-- The same pinch goes on (`ends = false`) or is over; it must name the fingers that it began with.
abbrev continue_pinch : Progress → ℤ → Progress → Option Progress
continue_pinch none fingers after = none
continue_pinch (some n) fingers after = if eq_ℤ n fingers then some after else none

abbrev start_pinch : Progress → ℤ → Option Progress
start_pinch none fingers = some (some fingers)
start_pinch (some n) fingers = none

abbrev pub then_follow : Option Progress → (Progress → Option Progress) → Option Progress
then_follow none f = none
then_follow (some p) f = f p

then_follow_assoc :
    (o : Option Progress) (f g h : Progress → Option Progress)
    → ((q : Progress) → f q ≡ then_follow (g q) h)
    → then_follow o f ≡ then_follow (then_follow o g) h
then_follow_assoc none f g h e = refl
then_follow_assoc (some q) f g h e = e q

module _ {fl : Floats} where
  -- `none` is a breach of the protocol.
  abbrev pub follow_payload : EventPayload fl → Progress → Option Progress
  follow_payload (EventPayload.gesture_pinch_begin g) p = start_pinch p g.finger_count
  follow_payload (EventPayload.gesture_pinch_update g) p =
      continue_pinch p g.finger_count (some g.finger_count)
  follow_payload (EventPayload.gesture_pinch_end g) p = continue_pinch p g.finger_count none
  follow_payload _ p = some p

  abbrev pub follow : List (LibinputEvent fl) → Progress → Option Progress
  follow [] p = some p
  follow (e ∷ es) p = then_follow (follow_payload e.payload p) (follow es)

  -- What the device itself takes to be in progress.
  abbrev pub progress : TrackedDevice fl → Progress
  progress td = if td.pinch_active then some td.pinch_fingers else none

  pub follow-append :
      (xs ys : List (LibinputEvent fl)) (p : Progress)
      → follow (xs ++ ys) p ≡ then_follow (follow xs p) (follow ys)
  follow-append [] ys p = refl
  follow-append (e ∷ es) ys p =
      then_follow_assoc (follow_payload e.payload p) (follow (es ++ ys)) (follow es) (follow ys)
        (λ q. follow-append es ys q)

  -- The handler's events lead from what was in progress to what is.
  abbrev pub Keeps : TrackedDevice fl → Out fl → Type 0
  Keeps td out = follow out.1 (progress td) ≡ some (progress out.0)

module _ {fl : Floats} (now : Readings) (ts : ℕ) (lib_dev ctx : Ptr) where
  touch_down-Keeps : (td : TrackedDevice fl) → Keeps td (touch_down now ts lib_dev ctx td)
  unfolding touch_down
  touch_down-Keeps td = ground arith

  touch_up-Keeps :
      (tap dwt : Bool) (td : TrackedDevice fl) → Keeps td (touch_up now tap dwt ts lib_dev ctx td)
  unfolding touch_up
  touch_up-Keeps tap dwt td = ground (arith, eq_ℤ-refl td.pinch_fingers)

  click-Keeps :
      (code : ℕ) (value : ℤ) (td : TrackedDevice fl) → Keeps td (click code value ts lib_dev ctx td)
  unfolding click
  click-Keeps code value td = ground arith

  sync-Keeps :
      (nat : Bool) (accel : fl.F32) (dwt : Bool) (code : ℕ) (td : TrackedDevice fl)
      → Keeps td (sync nat accel dwt code ts lib_dev ctx td)
  unfolding sync
  sync-Keeps nat accel dwt code td = ground (arith, eq_ℤ-refl td.pinch_fingers)

  select_slot-progress :
      (value : ℤ) (td : TrackedDevice fl)
      → some (progress td) ≡ some (progress (select_slot value td))
  unfolding select_slot
  select_slot-progress value td = ground arith

  write_slot-progress :
      (f : MtSlot fl → MtSlot fl) (td : TrackedDevice fl)
      → some (progress td) ≡ some (progress (write_slot f td))
  unfolding write_slot
  write_slot-progress f td = ground arith

  absolute_axis-Keeps :
      (code : ℕ) (value : ℤ) (td : TrackedDevice fl)
      → Keeps td (absolute_axis now code value td, [])
  unfolding move_x move_y
  absolute_axis-Keeps code value td =
      absolute_axis_cases now td (λ td'. Keeps td (td', [])) code value refl
        (select_slot-progress value td) (λ f. write_slot-progress f td) refl refl

  absolute_key-Keeps :
      (cfg : Settings fl) (dwt : Bool) (code : ℕ) (value : ℤ) (td : TrackedDevice fl)
      → Keeps td (absolute_key now cfg dwt code value ts lib_dev ctx td)
  unfolding tool_tap
  absolute_key-Keeps cfg dwt code value td =
      absolute_key_cases now td (Keeps td) cfg dwt code value ts lib_dev ctx (touch_down-Keeps td)
        (touch_up-Keeps cfg.cfg_tap dwt td) refl refl refl (click-Keeps code value td)

  guard_tap-progress :
      (dwt : Bool) (td : TrackedDevice fl) → progress (guard_tap dwt td) ≡ progress td
  unfolding guard_tap
  guard_tap-progress dwt td = ground arith

  -- One event of a touchpad keeps to the protocol.
  pub process_absolute_event-Keeps :
      (cfg : Settings fl) (dwt : Bool) (ev : InputEvent) (td : TrackedDevice fl)
      → Keeps td (process_absolute_event now cfg dwt ev ts lib_dev ctx td)
  unfolding process_absolute_event
  process_absolute_event-Keeps cfg dwt ev td =
      let td' = guard_tap dwt td in
      rw (← guard_tap-progress dwt td) (
        absolute_dispatch_cases now td' (Keeps td') ev.event_type cfg dwt ev ts lib_dev ctx refl
          (absolute_key-Keeps cfg dwt ev.code ev.value td')
          (absolute_axis-Keeps ev.code ev.value td')
          (sync-Keeps cfg.cfg_nat cfg.cfg_accel dwt ev.code td'))
