-- ===== src/Backend/Touchpad/Axis.antt =====
-- src/backend.rs, `process_absolute_event`: the arm for `EventType::ABSOLUTE`, which tracks the
-- touch slots and collects the movement of the single touch.
use libinput_rs.Common.{
  ℕ, ◌-◌, ◌==◌, Bool, Option, none, some, ltb, length, modify, is_some_and, if◌then◌else◌,
}
use libinput_rs.Common.Int.{ℤ, is_nonneg}
use libinput_rs.Common.Word.{i32_as_usize, i32_add, i32_sub}
use libinput_rs.Evdev.{
  Readings, millis, abs_x, abs_y, abs_mt_slot, abs_mt_position_x, abs_mt_position_y,
  abs_mt_tracking_id, abs_mt_distance,
}
use libinput_rs.Floats.{Floats}
use libinput_rs.Backend.Tracked.{TrackedDevice, MtSlot}

-- `current_dx += val - px` where there is a last position.
unfoldable pub advance : Option ℤ → ℤ → ℤ → ℤ
advance none val d = d
advance (some p) val d = i32_add d (i32_sub val p)

module _ {fl : Floats} where
  -- `ABS_MT_SLOT` selects a slot; one that does not exist is ignored.
  unfoldable pub select_slot : ℤ → TrackedDevice fl → TrackedDevice fl
  select_slot val td =
      let slot = i32_as_usize val in
      if ltb slot (length td.mt_slots) then (record td { current_slot = slot }) else td

  -- A write to the current slot, under the test of its bound.
  unfoldable pub write_slot : (MtSlot fl → MtSlot fl) → TrackedDevice fl → TrackedDevice fl
  write_slot f td =
      if ltb td.current_slot (length td.mt_slots)
      then (record td { mt_slots = modify td.current_slot f td.mt_slots })
      else td

  -- Whether the last movement is more than 50 ms ago.
  unfoldable pub is_stale : ℕ → TrackedDevice fl → Bool
  is_stale now td = is_some_and td.last_movement_time (λ last. ltb (millis 50) (now - last))

  unfoldable pub move_x : Readings → ℤ → TrackedDevice fl → TrackedDevice fl
  move_x now val td =
      let last_x = if is_stale (now 3) td then none else td.last_x in
      record td {
        last_movement_time = some (now 4);
        current_dx = advance last_x val td.current_dx;
        last_x = some val;
      }

  unfoldable pub move_y : Readings → ℤ → TrackedDevice fl → TrackedDevice fl
  move_y now val td =
      let last_y = if is_stale (now 5) td then none else td.last_y in
      record td {
        last_movement_time = some (now 6);
        current_dy = advance last_y val td.current_dy;
        last_y = some val;
      }

  unfoldable pub absolute_axis : Readings → ℕ → ℤ → TrackedDevice fl → TrackedDevice fl
  absolute_axis now code val td =
      if code == abs_mt_slot
      then select_slot val td
      else (if code == abs_mt_tracking_id
          then write_slot (λ s. record s { active = is_nonneg val; tracking_id = val }) td
          else (if code == abs_mt_position_x
              then write_slot (λ s. record s { x = fl.i32_as_f64 val }) td
              else (if code == abs_mt_position_y
                  then write_slot (λ s. record s { y = fl.i32_as_f64 val }) td
                  else (if code == abs_mt_distance
                      then write_slot (λ s. record s { distance = fl.i32_as_f64 val }) td
                      else (if code == abs_x
                          then move_x now val td
                          else (if code == abs_y then move_y now val td else td))))))
