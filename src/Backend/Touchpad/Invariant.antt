-- ===== src/Backend/Touchpad/Invariant.antt =====
-- What holds of a touchpad between two events, whatever the kernel sends.
use libinput_rs.Common.{
  ℕ, ◌≤◌, ◌<◌, ◌≡◌, Bool, true, Option, none, some, List, [], ◌∷◌, arith, length, length-modify,
  if◌then◌else◌,
}
use libinput_rs.Common.Int.{ℤ}
use libinput_rs.Common.Word.{IsI32, i32_add-IsI32}
use Prim.Native.String.{String}
use libinput_rs.Evdev.{Device, EventType, InputEvent, Readings}
use libinput_rs.Floats.{Floats}
use libinput_rs.Ffi.{Ptr}
use libinput_rs.Backend.Tracked.{
  TrackedDevice, MtSlot, new_tracked, active_slots, active_slot_count,
}
use libinput_rs.Backend.Touchpad.{
  Settings, process_absolute_event, absolute_key, guard_tap, absolute_dispatch,
}
use libinput_rs.Backend.Touchpad.Cases.{
  absolute_axis_cases, absolute_key_cases, absolute_dispatch_cases,
}
use libinput_rs.Backend.Touchpad.Touch.{touch_down, touch_up, begin_pinch}
use libinput_rs.Backend.Touchpad.Click.{click, tool_tap, is_pad_button}
use libinput_rs.Backend.Touchpad.Axis.{advance, select_slot, write_slot, move_x, move_y, is_stale}
use libinput_rs.Backend.Touchpad.Sync.{sync}

abbrev pub IsPadButton : Option ℕ → Type 0
IsPadButton none = Unit
IsPadButton (some b) = is_pad_button b ≡ true

-- There are ten slots and the current one is among them, the movement fits an `i32`, there are
-- never more than ten fingers, and a remembered click is of a button that the pad has.
pub record IsValid {fl : Floats} (td : TrackedDevice fl) : Type 0 where
  pub slots : length td.mt_slots ≡ 10
  pub current : td.current_slot < 10
  pub fingers : td.touch_fingers ≤ 10
  pub dx : IsI32 td.current_dx
  pub dy : IsI32 td.current_dy
  pub clicked : IsPadButton td.active_click_button

length-active_slots :
    {fl : Floats} (slots : List (MtSlot fl)) → length (active_slots slots) ≤ length slots
unfolding active_slots
length-active_slots [] = omega arith
length-active_slots (s ∷ slots) = ground (arith, length-active_slots slots)

advance-IsI32 : (last : Option ℤ) (val d : ℤ) → IsI32 d → IsI32 (advance last val d)
unfolding advance
advance-IsI32 none val d h = h
advance-IsI32 (some p) val d h = i32_add-IsI32 d _

module _ {fl : Floats} (now : Readings) (ts : ℕ) (lib_dev ctx : Ptr) where
  begin_pinch-IsValid :
      (td : TrackedDevice fl) → IsValid td → IsValid (begin_pinch ts lib_dev ctx td).0
  unfolding begin_pinch
  begin_pinch-IsValid td v = ground arith

  touch_down-IsValid :
      (td : TrackedDevice fl) → IsValid td → IsValid (touch_down now ts lib_dev ctx td).0
  unfolding touch_down active_slot_count
  touch_down-IsValid td v = ground (arith, length-active_slots td.mt_slots)

  touch_up-IsValid :
      (tap dwt : Bool) (td : TrackedDevice fl)
      → IsValid td
      → IsValid (touch_up now tap dwt ts lib_dev ctx td).0
  unfolding touch_up
  touch_up-IsValid tap dwt td v = ground arith

  click-IsValid :
      (code : ℕ) (value : ℤ) (td : TrackedDevice fl)
      → IsValid td
      → IsValid (click code value ts lib_dev ctx td).0
  unfolding click is_pad_button
  click-IsValid code value td v = ground arith

  sync-IsValid :
      (nat : Bool) (accel : fl.F32) (dwt : Bool) (code : ℕ) (td : TrackedDevice fl)
      → IsValid td
      → IsValid (sync nat accel dwt code ts lib_dev ctx td).0
  unfolding sync
  sync-IsValid nat accel dwt code td v = ground arith

  select_slot-IsValid :
      (value : ℤ) (td : TrackedDevice fl) → IsValid td → IsValid (select_slot value td)
  unfolding select_slot
  select_slot-IsValid value td v = ground arith

  write_slot-IsValid :
      (f : MtSlot fl → MtSlot fl) (td : TrackedDevice fl) → IsValid td → IsValid (write_slot f td)
  unfolding write_slot
  write_slot-IsValid f td v = ground (arith, length-modify td.current_slot f td.mt_slots)

  move_x-IsValid : (value : ℤ) (td : TrackedDevice fl) → IsValid td → IsValid (move_x now value td)
  unfolding move_x
  move_x-IsValid value td v =
      let last = if is_stale (now 3) td then none else td.last_x in
      ground (arith, advance-IsI32 last value td.current_dx v.dx)

  move_y-IsValid : (value : ℤ) (td : TrackedDevice fl) → IsValid td → IsValid (move_y now value td)
  unfolding move_y
  move_y-IsValid value td v =
      let last = if is_stale (now 5) td then none else td.last_y in
      ground (arith, advance-IsI32 last value td.current_dy v.dy)

  absolute_key-IsValid :
      (cfg : Settings fl) (dwt : Bool) (code : ℕ) (value : ℤ) (td : TrackedDevice fl)
      → IsValid td
      → IsValid (absolute_key now cfg dwt code value ts lib_dev ctx td).0
  unfolding tool_tap
  absolute_key-IsValid cfg dwt code value td v =
      absolute_key_cases now td (λ out. IsValid out.0) cfg dwt code value ts lib_dev ctx
        (touch_down-IsValid td v) (touch_up-IsValid cfg.cfg_tap dwt td v) (ground arith)
        (ground arith) (ground arith) (click-IsValid code value td v)

  absolute_dispatch-IsValid :
      (ty : EventType) (cfg : Settings fl) (dwt : Bool) (ev : InputEvent) (td : TrackedDevice fl)
      → IsValid td
      → IsValid (absolute_dispatch ty now cfg dwt ev ts lib_dev ctx td).0
  absolute_dispatch-IsValid ty cfg dwt ev td v =
      absolute_dispatch_cases now td (λ out. IsValid out.0) ty cfg dwt ev ts lib_dev ctx v
        (absolute_key-IsValid cfg dwt ev.code ev.value td v)
        (absolute_axis_cases now td IsValid ev.code ev.value v (select_slot-IsValid ev.value td v)
          (λ f. write_slot-IsValid f td v) (move_x-IsValid ev.value td v)
          (move_y-IsValid ev.value td v))
        (sync-IsValid cfg.cfg_nat cfg.cfg_accel dwt ev.code td v)

  guard_tap-IsValid : (dwt : Bool) (td : TrackedDevice fl) → IsValid td → IsValid (guard_tap dwt td)
  unfolding guard_tap
  guard_tap-IsValid dwt td v = ground arith

  -- Every event, under any setting and at any time, keeps the invariant.
  pub process_absolute_event-IsValid :
      (cfg : Settings fl) (dwt : Bool) (ev : InputEvent) (td : TrackedDevice fl)
      → IsValid td
      → IsValid (process_absolute_event now cfg dwt ev ts lib_dev ctx td).0
  unfolding process_absolute_event
  process_absolute_event-IsValid cfg dwt ev td v =
      absolute_dispatch-IsValid ev.event_type cfg dwt ev _ (guard_tap-IsValid dwt td v)

-- A device that has just been opened satisfies the invariant.
pub new_tracked-IsValid :
    (fl : Floats) (device : Device) (path : String) (lib_dev : Ptr)
    → IsValid (new_tracked fl device path lib_dev)
unfolding new_tracked
new_tracked-IsValid fl device path lib_dev = ground arith
