-- ===== src/Backend/Touchpad/Touch.antt =====
-- src/backend.rs, `process_absolute_event`: the fingers land on the pad and leave it (`BTN_TOUCH`),
-- with the pinch gesture and tap-to-click.
use libinput_rs.Common.{
  ℕ, max, ◌-◌, Bool, true, false, not, ◌&&◌, none, some, List, [], ◌∷◌, ◌++◌, leb, ltb, is_some_and,
  if◌then◌else◌,
}
use libinput_rs.Common.Int.{ℤ, pos}
use libinput_rs.Evdev.{Readings, millis, btn_left}
use libinput_rs.Floats.{Floats}
use libinput_rs.Ffi.{Ptr, LibinputEvent, LibinputEventType, EventPayload, GestureEvent}
use libinput_rs.Backend.Tracked.{
  TrackedDevice, active_slot_count, primary_slot_distance, primary_slot_angle,
}
use libinput_rs.Backend.Relative.{button_event}

-- The device after a handler, and the events that it pushed.
abbrev pub Out : Floats → Type 0
Out fl = TrackedDevice fl × List (LibinputEvent fl)

module _ {fl : Floats} where
  -- A pinch payload: no shift, not cancelled.
  abbrev pub pinch : ℕ → ℤ → fl.F64 → fl.F64 → GestureEvent fl
  pinch ts_usec finger_count scale angle = record {
    time_usec = ts_usec;
    finger_count = finger_count;
    dx = fl.f64 0 1;
    dy = fl.f64 0 1;
    scale = scale;
    angle = angle;
    cancelled = false;
  }

  -- The distance relative to the one that the pinch began with.
  unfoldable pub pinch_scale : TrackedDevice fl → fl.F64 → fl.F64
  pinch_scale td dist =
      if fl.gt64 td.pinch_base_dist (fl.f64 0 1)
      then fl.div64 dist td.pinch_base_dist
      else fl.f64 10 1

  unfoldable pub begin_pinch : ℕ → Ptr → Ptr → TrackedDevice fl → Out fl
  begin_pinch ts_usec lib_dev ctx td =
      if leb 2 td.touch_fingers && not td.pinch_active
      then (elim (primary_slot_distance td) [
        | none ↦ (td, [])
        | some dist ↦ (
          record td {
            pinch_active = true;
            pinch_base_dist = dist;
            pinch_base_angle = primary_slot_angle td;
            pinch_fingers = pos td.touch_fingers;
          },
          record {
            event_type = LibinputEventType.gesture_pinch_begin;
            payload =
                EventPayload.gesture_pinch_begin
                  (pinch ts_usec (pos td.touch_fingers) (fl.f64 10 1) (fl.f64 0 1));
            context = ctx;
            device = lib_dev;
          }
              ∷ [],
        )
      ])
      else (td, [])

  unfoldable pub touch_down : Readings → ℕ → Ptr → Ptr → TrackedDevice fl → Out fl
  unfolding begin_pinch
  touch_down now ts_usec lib_dev ctx td = begin_pinch ts_usec lib_dev ctx (record td {
    touch_active = true;
    touch_start_time = some (now 1);
    tap_emitted = false;
    touch_fingers = max (active_slot_count td) 1;
    last_x = none;
    last_y = none;
  })

  unfoldable pub end_scale : TrackedDevice fl → fl.F64
  unfolding pinch_scale
  end_scale td = elim (primary_slot_distance td) [
    | none ↦ fl.f64 10 1
    | some dist ↦ pinch_scale td dist
  ]

  unfoldable pub end_pinch : ℕ → Ptr → Ptr → TrackedDevice fl → Out fl
  end_pinch ts_usec lib_dev ctx td =
      if td.pinch_active
      then (
        record td { pinch_active = false },
        record {
          event_type = LibinputEventType.gesture_pinch_end;
          payload = EventPayload.gesture_pinch_end (
              pinch ts_usec td.pinch_fingers (end_scale td)
                (fl.sub64 (primary_slot_angle td) td.pinch_base_angle));
          context = ctx;
          device = lib_dev;
        }
            ∷ [],
      )
      else (td, [])

  -- Whether lifting the finger now is a tap.
  unfoldable pub is_tap : Readings → Bool → Bool → TrackedDevice fl → Bool
  is_tap now cfg_tap dwt_active td =
      cfg_tap
      && not td.tap_emitted
      && not dwt_active
      && is_some_and td.touch_start_time
          (λ start. ltb (now 2 - start) (millis 250) && leb td.touch_fingers 1)

  -- A tap is a press and a release of the left button.
  unfoldable pub tap_events : Bool → ℕ → Ptr → Ptr → List (LibinputEvent fl)
  tap_events tap ts_usec lib_dev ctx =
      if tap
      then (button_event ts_usec btn_left 1 ctx lib_dev
          ∷ button_event ts_usec btn_left 0 ctx lib_dev
          ∷ [])
      else []

  -- What lifting the finger resets.
  unfoldable pub lift : TrackedDevice fl → TrackedDevice fl
  lift td = record td {
    touch_active = false;
    last_x = none;
    last_y = none;
    current_dx = pos 0;
    current_dy = pos 0;
    touch_start_time = none;
    touch_fingers = 0;
  }

  unfoldable pub touch_up : Readings → Bool → Bool → ℕ → Ptr → Ptr → TrackedDevice fl → Out fl
  unfolding end_pinch tap_events lift
  touch_up now cfg_tap dwt_active ts_usec lib_dev ctx td =
      let (ended, out) = end_pinch ts_usec lib_dev ctx td in
      (lift ended, out ++ tap_events (is_tap now cfg_tap dwt_active td) ts_usec lib_dev ctx)
