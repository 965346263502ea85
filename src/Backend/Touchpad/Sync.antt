-- ===== src/Backend/Touchpad/Sync.antt =====
-- src/backend.rs, `process_absolute_event`: the arm for `EventType::SYNCHRONIZATION`, where the
-- movement of a frame becomes a pinch update, a motion, a scroll or a swipe.
use libinput_rs.Common.{
  ℕ, max, ◌==◌, Bool, true, false, not, ◌&&◌, ◌||◌, none, some, List, [], ◌∷◌, ◌++◌, leb,
  if◌then◌else◌,
}
use libinput_rs.Common.Int.{ℤ, pos, is_zero}
use libinput_rs.Common.Word.{i32_neg}
use libinput_rs.Floats.{Floats}
use libinput_rs.Ffi.{Ptr, LibinputEvent, LibinputEventType, EventPayload}
use libinput_rs.Backend.Tracked.{
  TrackedDevice, active_slot_count, primary_slot_distance, primary_slot_angle,
}
use libinput_rs.Backend.Relative.{motion_event, axis_event}
use libinput_rs.Backend.Touchpad.Touch.{Out, pinch, pinch_scale}

-- `current_dx as f32 * hw_scale`, in device units.
unfoldable pub hw_scaled : (fl : Floats) → ℤ → fl.F32
hw_scaled fl d = fl.mul32 (fl.i32_as_f32 d) (fl.f32 18 2)

unfoldable pub point_total : (fl : Floats) → fl.F32 → ℤ → fl.F32 → fl.F32
unfolding hw_scaled
point_total fl cfg_accel d remainder = fl.add32 (fl.mul32 (hw_scaled fl d) cfg_accel) remainder

unfoldable pub scroll_total : (fl : Floats) → ℤ → fl.F32 → fl.F32
scroll_total fl d remainder = fl.add32 (fl.mul32 (fl.i32_as_f32 d) (fl.f32 2 2)) remainder

-- What rounding leaves for the next frame: `total - emit as f32`.
unfoldable pub leftover : (fl : Floats) → fl.F32 → fl.F32
leftover fl total = fl.sub32 total (fl.i32_as_f32 (fl.round_as_i32 total))

module _ {fl : Floats} where
  -- The frame's movement is used up.
  unfoldable pub clear_motion : TrackedDevice fl → TrackedDevice fl
  clear_motion td = record td { current_dx = pos 0; current_dy = pos 0 }

  unfoldable pub pinch_update : ℕ → Ptr → Ptr → TrackedDevice fl → List (LibinputEvent fl)
  unfolding pinch_scale
  pinch_update ts_usec lib_dev ctx td = elim (primary_slot_distance td) [
    | none ↦ []
    | some dist ↦
        record {
          event_type = LibinputEventType.gesture_pinch_update;
          payload = EventPayload.gesture_pinch_update (
              pinch ts_usec td.pinch_fingers (pinch_scale td dist)
                (fl.sub64 (primary_slot_angle td) td.pinch_base_angle));
          context = ctx;
          device = lib_dev;
        }
        ∷ []
  ]

  -- What typing does to a frame: its movement and the remainders are dropped, and no tap follows.
  unfoldable pub drop_motion : TrackedDevice fl → TrackedDevice fl
  drop_motion td = record td {
    current_dx = pos 0;
    current_dy = pos 0;
    remainder_x = fl.f32 0 1;
    remainder_y = fl.f32 0 1;
    tap_emitted = true;
  }

  unfoldable pub has_movement : TrackedDevice fl → Bool
  has_movement td = not (is_zero td.current_dx) || not (is_zero td.current_dy)

  unfoldable pub finger_count : TrackedDevice fl → ℕ
  finger_count td = max (active_slot_count td) td.touch_fingers

  -- One finger moves the pointer.
  unfoldable pub point : fl.F32 → ℕ → Ptr → Ptr → TrackedDevice fl → Out fl
  unfolding point_total leftover hw_scaled
  point cfg_accel ts_usec lib_dev ctx td =
      let total_x = point_total fl cfg_accel td.current_dx td.remainder_x in
      let total_y = point_total fl cfg_accel td.current_dy td.remainder_y in
      let emit_x = fl.round_as_i32 total_x in
      let emit_y = fl.round_as_i32 total_y in
      (
        record td { remainder_x = leftover fl total_x; remainder_y = leftover fl total_y },
        if not (is_zero emit_x) || not (is_zero emit_y)
            then (motion_event ts_usec (fl.i32_as_f64 emit_x) (fl.i32_as_f64 emit_y)
                  (fl.f32_as_f64 (hw_scaled fl td.current_dx))
                  (fl.f32_as_f64 (hw_scaled fl td.current_dy)) ctx lib_dev
                ∷ [])
            else [],
      )

  -- One axis of a two-finger scroll.
  unfoldable pub scroll_axis : Bool → ℕ → ℤ → ℕ → Ptr → Ptr → List (LibinputEvent fl)
  scroll_axis cfg_nat axis emit ts_usec lib_dev ctx =
      if not (is_zero emit)
      then (axis_event LibinputEventType.pointer_scroll_finger ts_usec axis
            (if cfg_nat then i32_neg emit else emit) 2 ctx lib_dev
          ∷ [])
      else []

  -- Two fingers scroll, first the vertical axis.
  unfoldable pub scroll : Bool → ℕ → Ptr → Ptr → TrackedDevice fl → Out fl
  unfolding scroll_total leftover scroll_axis
  scroll cfg_nat ts_usec lib_dev ctx td =
      let total_y = scroll_total fl td.current_dy td.remainder_y in
      let total_x = scroll_total fl td.current_dx td.remainder_x in
      (
        record td { remainder_y = leftover fl total_y; remainder_x = leftover fl total_x },
        scroll_axis cfg_nat 0 (fl.round_as_i32 total_y) ts_usec lib_dev ctx
            ++ scroll_axis cfg_nat 1 (fl.round_as_i32 total_x) ts_usec lib_dev ctx,
      )

  -- Three fingers or more swipe.
  unfoldable pub swipe : ℕ → ℕ → Ptr → Ptr → TrackedDevice fl → LibinputEvent fl
  swipe n_fingers ts_usec lib_dev ctx td = record {
    event_type = LibinputEventType.gesture_swipe_update;
    payload = EventPayload.gesture_swipe_update (record {
      time_usec = ts_usec;
      finger_count = pos n_fingers;
      dx = fl.mul64 (fl.i32_as_f64 td.current_dx) (fl.f64 18 2);
      dy = fl.mul64 (fl.i32_as_f64 td.current_dy) (fl.f64 18 2);
      scale = fl.f64 10 1;
      angle = fl.f64 0 1;
      cancelled = false;
    });
    context = ctx;
    device = lib_dev;
  }

  -- The three ways in which movement is reported, by the number of fingers.
  unfoldable pub report : Bool → fl.F32 → ℕ → Ptr → Ptr → ℕ → TrackedDevice fl → Out fl
  unfolding point scroll swipe
  report cfg_nat cfg_accel ts_usec lib_dev ctx n_fingers td =
      if leb n_fingers 1
      then point cfg_accel ts_usec lib_dev ctx td
      else (if n_fingers == 2
          then scroll cfg_nat ts_usec lib_dev ctx td
          else (td, swipe n_fingers ts_usec lib_dev ctx td ∷ []))

  -- The frame once it is neither a pinch nor under typing, and has movement.
  unfoldable pub move_frame : Bool → fl.F32 → ℕ → Ptr → Ptr → TrackedDevice fl → Out fl
  unfolding report clear_motion finger_count
  move_frame cfg_nat cfg_accel ts_usec lib_dev ctx td =
      let (td', out) =
        report cfg_nat cfg_accel ts_usec lib_dev ctx (finger_count td)
          (record td { tap_emitted = true }) in
      (clear_motion td', out)

  unfoldable pub sync : Bool → fl.F32 → Bool → ℕ → ℕ → Ptr → Ptr → TrackedDevice fl → Out fl
  unfolding clear_motion pinch_update drop_motion has_movement move_frame
  sync cfg_nat cfg_accel dwt_active code ts_usec lib_dev ctx td =
      if not (code == 0)
      then (td, [])
      else (if td.pinch_active && not dwt_active
          then (clear_motion td, pinch_update ts_usec lib_dev ctx td)
          else (if dwt_active
              then (drop_motion td, [])
              else (if not (has_movement td)
                  then (td, [])
                  else move_frame cfg_nat cfg_accel ts_usec lib_dev ctx td)))
