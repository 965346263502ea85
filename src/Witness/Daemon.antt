-- ===== src/Witness/Daemon.antt =====
-- The daemon's touchpad and keyboard: taps, movements, clicks and key presses.
use libinput_rs.Common.{
  ℕ, ◌≡◌, refl, true, false, Option, none, some, List, [], ◌∷◌, ◌++◌, arith, All, ltb,
}
use libinput_rs.Common.Int.{pos}
use libinput_rs.Evdev.{EventType, InputEvent, Readings, btn_left}
use libinput_rs.Backend.Batch.Clicks.{left_button}
use libinput_rs.Daemon.Config.{InputConfig}
use libinput_rs.Daemon.Wrapper.{
  DeviceWrapper, VirtualDevice, err, syn_report, new_event, emit_raw, ◌>>◌,
}
use libinput_rs.Daemon.Process.{
  process_event, click_button, is_typing, note_key, touch_begins, taps, emit_tap, touch_ends, lift,
  fingers, map_button, buttons, is_stalled, note_movement, axis, is_moved, forget_movement, point,
  scroll, move_frame, sync, dispatch, bar_tap,
}
use libinput_rs.Backend.Tracked.{TrackedDevice, new_tracked, active_slots, active_slot_count}
use libinput_rs.Daemon.Process.Agree.{SameMotion, sync-SameMotion}
use libinput_rs.Daemon.Batch.{Timed, Batch, typed, is_reset_chord, batch_event, batch}
use libinput_rs.Daemon.Batch.Written.{is_declared, is_still, batch_declared, batch_still}
use libinput_rs.Daemon.Batch.Clicks.{emitted, batch_press_release}
use libinput_rs.Daemon.Batch.Taps.{touch_up, tap_down, tap_syn, process_event-tap}
use libinput_rs.Daemon.Batch.Typing.{IsPlain, latest_press, batch-latest_press}
use libinput_rs.Common.Word.{i32_add, i32_sub, i32_as_u32, u32_as_i32}
use libinput_rs.Floats.{thousandths}
use libinput_rs.Backend.Touchpad.Axis.{advance}
use libinput_rs.Backend.Touchpad.Click.{is_pad_button}
use libinput_rs.Backend.Touchpad.Sync.{
  point_total, scroll_total, leftover, finger_count, sync as library_sync,
}
use libinput_rs.Witness.Data.{fl, at_ms, event, touchpad, keyboard, pad}

abbrev pub in_use : InputConfig fl
in_use = record {
  tap_to_click = true;
  natural_scrolling = true;
  pointer_acceleration = fl.f32 10 1;
  disable_while_typing = true;
}

-- A virtual device whose writes succeed, and one whose fifth write fails.
abbrev pub output : VirtualDevice
output = record { refuses = λ _. false; calls = 0; sent = [] }

abbrev failing : VirtualDevice
failing = record { refuses = λ n. ltb 3 n; calls = 0; sent = [] }

-- A touchpad that one finger touches since 1 s, and a keyboard.
abbrev pub touched : DeviceWrapper fl
touched = record {
  device = touchpad;
  path = "/dev/input/event5";
  is_absolute = true;
  is_keyboard = false;
  touch_active = true;
  touch_fingers = 1;
  last_x = none;
  last_y = none;
  current_dx = pos 0;
  current_dy = pos 0;
  remainder_x = fl.f32 0 1;
  remainder_y = fl.f32 0 1;
  touch_start_time = some 1_000_000_000;
  tap_emitted = false;
  last_typing_time = none;
  ctrl_pressed = false;
  alt_pressed = false;
  last_movement_time = none;
  active_click_button = none;
}

abbrev pub board_wrapper : DeviceWrapper fl
board_wrapper = record touched {
  device = keyboard;
  path = "/dev/input/event3";
  is_absolute = false;
  is_keyboard = true;
}

abbrev on_pad : Option ℕ → VirtualDevice → Batch fl
on_pad typing v = record {
  wrapper = touched;
  v_device = v;
  last_global_typing_time = typing;
  trigger_reset = false;
}

idle : (now : Readings) → is_typing in_use.disable_while_typing none (now 1) ≡ false
unfolding is_typing
idle now = refl

abbrev on_board : Batch fl
on_board = record {
  wrapper = board_wrapper;
  v_device = output;
  last_global_typing_time = none;
  trigger_reset = false;
}

pub board-IsPlain : IsPlain board_wrapper
board-IsPlain = record { is_keyboard = refl; not_absolute = refl }

-- The finger moves and lifts.
abbrev moves_syn : Timed
moves_syn = event 1210 EventType.synchronization 0 (pos 0)

abbrev pub moves : List Timed
moves =
    event 1200 EventType.absolute 0x00 (pos 500)
    ∷ event 1210 EventType.absolute 0x00 (pos 900)
    ∷ moves_syn
    ∷ event 1300 EventType.key 0x14a (pos 0)
    ∷ []

abbrev pressed_pad : Batch fl
pressed_pad = batch_event in_use (at_ms 1250, left_button (pos 0) (pos 1)) (on_pad none output)

abbrev held_pad : Batch fl
held_pad = batch in_use moves pressed_pad

-- A tap whose fifth write fails leaves the button pressed.
process_event-tap_example :
    let r = process_event (at_ms 1100) in_use none (touch_up (pos 0)) touched failing in
    (r.v_device.sent ≡ tap_down ∷ syn_report ∷ tap_syn ∷ syn_report ∷ [])
    × (r.outcome ≡ err)
    × (r.wrapper ≡ record touched { touch_active = false })
process_event-tap_example =
    process_event-tap (at_ms 1100) in_use none (pos 0) 1_000_000_000 touched failing
      (refl, refl, refl, idle (at_ms 1100), refl, omega arith)

-- A batch, with all that it calls open.
unfoldable pub run_batch : List Timed → Batch fl → Batch fl
unfolding batch batch_event typed is_reset_chord process_event note_key touch_begins taps emit_tap
    touch_ends lift fingers map_button buttons is_stalled note_movement axis is_moved
    forget_movement point scroll move_frame sync dispatch bar_tap click_button is_typing emit_raw
    ◌>>◌ advance is_pad_button point_total scroll_total leftover thousandths i32_add i32_sub
    i32_as_u32 u32_as_i32
run_batch es b = batch in_use es b

moves_sent :
    (run_batch moves (on_pad none output)).v_device.sent
    ≡ new_event EventType.relative 0 (pos 72) ∷ syn_report ∷ (moves_syn).1 ∷ syn_report ∷ []
unfolding run_batch
moves_sent = refl

batch_declared_example :
    (out : List InputEvent) × ((batch in_use moves (on_pad none failing)).v_device.sent ≡ [] ++ out)
    × All (λ ev. is_declared ev ≡ true) out
batch_declared_example = batch_declared in_use moves (on_pad none failing) refl

-- The same movement 300 ms after a key press.
batch_still_example :
    (out : List InputEvent) × ((batch in_use moves (on_pad (some 900_000_000) output)).v_device.sent
      ≡ [] ++ out)
    × All (λ ev. is_still ev ≡ true) out
batch_still_example =
    batch_still in_use 900_000_000 moves (on_pad (some 900_000_000) output) refl refl refl refl
      (omega arith, (omega arith, (omega arith, (omega arith, tt))))

batch-latest_press_example :
    (batch in_use
      (event 1000 EventType.key 30 (pos 1) ∷ event 1050 EventType.key 30 (pos 0) ∷ [])
      on_board).last_global_typing_time
    ≡ some 1_000_000_000
unfolding latest_press
batch-latest_press_example =
    batch-latest_press in_use (event 1000 EventType.key 30 (pos 1))
      (event 1050 EventType.key 30 (pos 0) ∷ []) on_board board-IsPlain

-- A click, with movements before the release.
abbrev released_pad : Batch fl
released_pad = batch_event in_use (at_ms 1400, left_button (pos 0) (pos 0)) held_pad

held_accepts : held_pad.v_device.refuses held_pad.v_device.calls ≡ false
unfolding batch batch_event typed is_reset_chord process_event note_key touch_begins taps emit_tap
    touch_ends lift fingers map_button buttons is_stalled note_movement axis is_moved
    forget_movement point scroll move_frame sync dispatch bar_tap click_button is_typing emit_raw
    ◌>>◌ advance is_pad_button point_total scroll_total leftover thousandths i32_add i32_sub
    i32_as_u32 u32_as_i32
held_accepts = refl

batch_press_release_example :
    (pressed_pad.v_device.sent ≡ new_event EventType.key btn_left (pos 1) ∷ syn_report ∷ [])
    × (released_pad.v_device.sent
        ≡ held_pad.v_device.sent
          ++ emitted (new_event EventType.key btn_left (pos 0)) held_pad.v_device)
    × (released_pad.wrapper.active_click_button ≡ none)
unfolding click_button
batch_press_release_example =
    batch_press_release in_use (at_ms 1250) (at_ms 1400) (pos 0) (pos 0) (pos 1) moves
      (on_pad none output) refl refl (omega arith, (omega arith, (omega arith, (omega arith, tt))))
      refl held_accepts

-- The same movement on a device of the library, and then the end of its frame.
abbrev moved_pad : DeviceWrapper fl
moved_pad = record touched { current_dx = pos 400; current_dy = pos 3 }

abbrev moved_device : TrackedDevice fl
moved_device = record pad { current_dx = pos 400; current_dy = pos 3 }

sync-SameMotion_example :
    SameMotion moved_pad output
      (moves_syn).1
      (sync in_use false (moves_syn).1 moved_pad output)
      moved_device
      7
      2
      1
      (library_sync true (fl.f32 10 1) false 0 7 2 1 moved_device)
unfolding is_moved finger_count active_slot_count active_slots new_tracked
sync-SameMotion_example =
    sync-SameMotion true in_use moved_pad moved_device output (moves_syn).1 7 2 1
      (record { current_dx = refl; current_dy = refl; remainder_x = refl; remainder_y = refl })
      (λ n. refl) refl refl refl refl refl
