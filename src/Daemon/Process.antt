-- ===== src/Daemon/Process.antt =====
-- src/device.rs, `process_event`: what the daemon does with one event of a device. Reading 0 of the
-- clock is that of a key press, 1 that of the typing test, 2 of a touch that begins, 3 of a tap, 4
-- of the test for a stall, and 5 of a movement.
pub mod Keeps
pub mod Frames
pub mod Agree
use libinput_rs.Common.{
  ℕ, ◌-◌, ◌==◌, Bool, true, false, not, ◌&&◌, ◌||◌, Option, none, some, leb, ltb, is_some_and,
  if◌then◌else◌,
}
use libinput_rs.Common.Int.{ℤ, pos, is_zero}
use libinput_rs.Common.Word.{i32_neg}
use libinput_rs.Evdev.{
  InputEvent, EventType, synchronization, key, relative, absolute, other, Readings, millis,
  key_leftctrl, key_rightctrl, key_leftalt, key_rightalt, btn_left, btn_right, btn_middle,
  btn_touch, btn_tool_doubletap, btn_tool_tripletap, abs_x, abs_y, rel_x, rel_y, rel_wheel,
}
use libinput_rs.Floats.{Floats}
use libinput_rs.Backend.Touchpad.Axis.{advance}
use libinput_rs.Backend.Touchpad.Click.{is_pad_button}
use libinput_rs.Backend.Touchpad.Sync.{point_total, scroll_total, leftover}
use libinput_rs.Daemon.Config.{InputConfig}
use libinput_rs.Daemon.Wrapper.{
  DeviceWrapper, VirtualDevice, Run, Action, emit_raw, done, update, when, ◌>>◌, new_event,
}

abbrev pub is_key : EventType → Bool
is_key key = true
is_key _ = false

-- The number of fingers by which a press is mapped here; a fourth finger counts as none.
unfoldable pub click_button : ℕ → ℕ
click_button touch_fingers =
    if touch_fingers == 2 then btn_right else (if touch_fingers == 3 then btn_middle else btn_left)

-- `dwt_active`.
unfoldable pub is_typing : Bool → Option ℕ → ℕ → Bool
is_typing disable_while_typing typing now =
    disable_while_typing && is_some_and typing (λ t. ltb (now - t) (millis 500))

module _ {fl : Floats} where
  -- The modifiers and the typing time, which every device keeps.
  unfoldable pub note_key : Readings → InputEvent → DeviceWrapper fl → DeviceWrapper fl
  note_key now ev w =
      let pressed = not (is_zero ev.value) in
      if is_key ev.event_type
      then (record w {
        ctrl_pressed =
            if ev.code == key_leftctrl || ev.code == key_rightctrl then pressed else w.ctrl_pressed;
        alt_pressed =
            if ev.code == key_leftalt || ev.code == key_rightalt then pressed else w.alt_pressed;
        last_typing_time = if w.is_keyboard && pressed then some (now 0) else w.last_typing_time;
      })
      else w

  unfoldable pub touch_begins : Readings → DeviceWrapper fl → DeviceWrapper fl
  touch_begins now w = record w {
    touch_active = true;
    touch_start_time = some (now 2);
    tap_emitted = false;
    touch_fingers = 1;
    last_x = none;
    last_y = none;
  }

  -- Whether lifting the finger now is a tap.
  unfoldable pub taps : Readings → InputConfig fl → Bool → DeviceWrapper fl → Bool
  taps now config dwt_active w =
      config.tap_to_click
      && not w.tap_emitted
      && not dwt_active
      && is_some_and w.touch_start_time (λ start. ltb (now 3 - start) (millis 250))

  unfoldable pub emit_tap : Action fl
  emit_tap =
      emit_raw (new_event key btn_left (pos 1))
      >> emit_raw (new_event synchronization 0 (pos 0))
      >> emit_raw (new_event key btn_left (pos 0))

  -- What lifting the finger resets, if the tap could be written.
  unfoldable pub touch_ends : DeviceWrapper fl → DeviceWrapper fl
  touch_ends w = record w {
    last_x = none;
    last_y = none;
    current_dx = pos 0;
    current_dy = pos 0;
    touch_start_time = none;
    touch_fingers = 0;
  }

  unfoldable pub lift : Readings → InputConfig fl → Bool → Action fl
  lift now config dwt_active w =
      (update (λ w. record w { touch_active = false })
          >> when (taps now config dwt_active w) emit_tap
          >> update touch_ends)
        w

  -- The first half of the arm for `EventType::KEY`.
  unfoldable pub fingers : Readings → InputConfig fl → Bool → InputEvent → Action fl
  fingers now config dwt_active ev =
      let up = is_zero ev.value in
      if ev.code == btn_touch
      then (if up then lift now config dwt_active else update (touch_begins now))
      else (if ev.code == btn_tool_doubletap
          then update (λ w. record w { touch_fingers = if up then 1 else 2 })
          else (if ev.code == btn_tool_tripletap
              then update (λ w. record w { touch_fingers = if up then 2 else 3 })
              else done))

  -- The code that a key of the pad goes out as, and `active_click_button` after it.
  unfoldable pub map_button : InputEvent → DeviceWrapper fl → DeviceWrapper fl × ℕ
  unfolding click_button
  map_button ev w =
      if ev.code == btn_left
      then (if is_zero ev.value
          then (elim w.active_click_button [
            | none ↦ (record w { active_click_button = none }, btn_left)
            | some active ↦ (record w { active_click_button = none }, active)
          ])
          else (let code = click_button w.touch_fingers in
              (record w { active_click_button = some code }, code)))
      else (w, ev.code)

  -- The second half of the arm for `EventType::KEY`.
  unfoldable pub buttons : InputEvent → Action fl
  buttons ev w v =
      let (w', code) = map_button ev w in
      when (is_pad_button code) (emit_raw (new_event key code ev.value)) w' v

  unfoldable pub is_stalled : ℕ → DeviceWrapper fl → Bool
  is_stalled now w = is_some_and w.last_movement_time (λ last. ltb (millis 50) (now - last))

  -- A stall of more than 50 ms forgets both coordinates.
  unfoldable pub note_movement : Readings → DeviceWrapper fl → DeviceWrapper fl
  note_movement now w =
      let stalled = is_stalled (now 4) w in
      record w {
        last_x = if stalled then none else w.last_x;
        last_y = if stalled then none else w.last_y;
        last_movement_time = some (now 5);
      }

  -- The arm for `EventType::ABSOLUTE`.
  unfoldable pub axis : Readings → ℕ → ℤ → DeviceWrapper fl → DeviceWrapper fl
  axis now code val w =
      if code == abs_x
      then (let w' = note_movement now w in
          record w' { current_dx = advance w'.last_x val w'.current_dx; last_x = some val })
      else (if code == abs_y
          then (let w' = note_movement now w in
              record w' { current_dy = advance w'.last_y val w'.current_dy; last_y = some val })
          else w)

  unfoldable pub is_moved : DeviceWrapper fl → Bool
  is_moved w = not (is_zero w.current_dx) || not (is_zero w.current_dy)

  unfoldable pub forget_movement : DeviceWrapper fl → DeviceWrapper fl
  forget_movement w = record w {
    current_dx = pos 0;
    current_dy = pos 0;
    remainder_x = fl.f32 0 1;
    remainder_y = fl.f32 0 1;
    tap_emitted = true;
  }

  abbrev pub emit_relative : ℕ → ℤ → Action fl
  emit_relative code value = when (not (is_zero value)) (emit_raw (new_event relative code value))

  -- One finger moves the pointer.
  unfoldable pub point : InputConfig fl → Action fl
  point config w =
      let total_x = point_total fl config.pointer_acceleration w.current_dx w.remainder_x in
      let total_y = point_total fl config.pointer_acceleration w.current_dy w.remainder_y in
      (update
            (λ w. record w { remainder_x = leftover fl total_x; remainder_y = leftover fl total_y })
          >> emit_relative rel_x (fl.round_as_i32 total_x)
          >> emit_relative rel_y (fl.round_as_i32 total_y))
        w

  -- Two fingers turn the wheel.
  unfoldable pub scroll : InputConfig fl → Action fl
  scroll config w =
      let total_y = scroll_total fl w.current_dy w.remainder_y in
      let emit_wheel = fl.round_as_i32 total_y in
      (update (λ w. record w { remainder_y = leftover fl total_y })
          >> when (not (is_zero emit_wheel)) (
              emit_raw (
                new_event relative rel_wheel
                  (if config.natural_scrolling then i32_neg emit_wheel else emit_wheel)))
          >> update (λ w. record w { remainder_x = fl.f32 0 1 }))
        w

  unfoldable pub move_frame : InputConfig fl → Action fl
  move_frame config w =
      (update (λ w. record w { tap_emitted = true })
          >> (if leb w.touch_fingers 1
              then point config
              else (if w.touch_fingers == 2 then scroll config else done))
          >> update (λ w. record w { current_dx = pos 0; current_dy = pos 0 }))
        w

  -- The arm for `EventType::SYNCHRONIZATION`.
  unfoldable pub sync : InputConfig fl → Bool → InputEvent → Action fl
  sync config dwt_active ev w =
      if ev.code == 0
      then ((if dwt_active then update forget_movement else when (is_moved w) (move_frame config))
            >> when (is_moved w || not dwt_active) (emit_raw ev))
          w
      else emit_raw ev w

  -- The `match` on the event's type, for touchpads.
  unfoldable pub dispatch : Readings → InputConfig fl → Bool → EventType → InputEvent → Action fl
  dispatch now config dwt_active key ev = fingers now config dwt_active ev >> buttons ev
  dispatch now config dwt_active absolute ev = update (axis now ev.code ev.value)
  dispatch now config dwt_active synchronization ev = sync config dwt_active ev
  dispatch now config dwt_active relative ev = done
  dispatch now config dwt_active (other _) ev = done

  -- Typing counts as a tap that was made.
  unfoldable pub bar_tap : Bool → DeviceWrapper fl → DeviceWrapper fl
  bar_tap dwt_active w = if dwt_active then (record w { tap_emitted = true }) else w

  unfoldable pub process_event : Readings → InputConfig fl → Option ℕ → InputEvent → Action fl
  process_event now config typing ev w =
      let w' = note_key now ev w in
      let dwt_active = is_typing config.disable_while_typing typing (now 1) in
      if w.is_absolute
      then dispatch now config dwt_active ev.event_type ev (bar_tap dwt_active w')
      else emit_raw ev w'
