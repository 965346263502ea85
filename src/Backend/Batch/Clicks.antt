-- ===== src/Backend/Batch/Clicks.antt =====
-- Physical clicks of a touchpad: the button of the press and that of its release.
use mathlib.Core.Path.{subst}
use libinput_rs.Common.{
  ℕ, ◌≡◌, ◌≢◌, ◌∙◌, Bool, true, false, Option, none, some, List, [], ◌∷◌, arith, All,
}
use libinput_rs.Common.Int.{ℤ, pos, is_zero}
use libinput_rs.Common.Word.{i32_as_u32}
use libinput_rs.Evdev.{InputEvent, EventType, Readings, btn_left, systime_to_usec}
use libinput_rs.Floats.{Floats}
use libinput_rs.Ffi.{Ptr}
use libinput_rs.Ffi.Device.{LibinputDevice}
use libinput_rs.Backend.Tracked.{TrackedDevice}
use libinput_rs.Backend.Keyboard.{process_keyboard_event}
use libinput_rs.Backend.Relative.{button_event}
use libinput_rs.Backend.Touchpad.{Settings, absolute_key, process_absolute_event, guard_tap}
use libinput_rs.Backend.Touchpad.Cases.{absolute_axis_cases, absolute_dispatch_cases}
use libinput_rs.Backend.Touchpad.Touch.{touch_down, touch_up}
use libinput_rs.Backend.Touchpad.Click.{click, tool_tap, finger_button, is_pad_button}
use libinput_rs.Backend.Touchpad.Axis.{absolute_axis, select_slot, write_slot, move_x, move_y}
use libinput_rs.Backend.Touchpad.Sync.{sync}
use libinput_rs.Backend.Batch.{Timed, settings, drain_event, drain_batch}
use libinput_rs.Backend.Batch.Cases.{drain_event_cases, drain_event_absolute, drain_batch_keeps_if}
use libinput_rs.Backend.Batch.Identity.{
  SameIdentity, SameIdentity-refl, SameIdentity-trans, drain_event-SameIdentity,
  drain_batch-SameIdentity,
}

-- The event is not about the physical left button.
abbrev pub IsOther : Timed → Type 0
IsOther e = e.1.code ≢ btn_left

abbrev Remembers : {fl : Floats} → ℕ → TrackedDevice fl → Type 0
Remembers b td = td.active_click_button ≡ some b

module _ {fl : Floats} (b ts : ℕ) (lib_dev ctx : Ptr) (now : Readings) (td : TrackedDevice fl) where
  absolute_key-Remembers :
      (cfg : Settings fl) (dwt : Bool) (code : ℕ) (value : ℤ)
      → code ≢ btn_left
      → Remembers b td
      → Remembers b (absolute_key now cfg dwt code value ts lib_dev ctx td).0
  unfolding absolute_key touch_down touch_up tool_tap click
  absolute_key-Remembers cfg dwt code value other h = ground arith

  sync-Remembers :
      (nat : Bool) (accel : fl.F32) (dwt : Bool) (code : ℕ)
      → Remembers b td
      → Remembers b (sync nat accel dwt code ts lib_dev ctx td).0
  unfolding sync
  sync-Remembers nat accel dwt code h = ground arith

  absolute_axis-Remembers :
      (code : ℕ) (value : ℤ) → Remembers b td → Remembers b (absolute_axis now code value td)
  unfolding select_slot write_slot move_x move_y
  absolute_axis-Remembers code value h =
      absolute_axis_cases now td (Remembers b) code value h (ground arith) (λ f. ground arith) h h

module _ {fl : Floats} (b ts : ℕ) (lib_dev ctx : Ptr) where
  guard_tap-Remembers :
      (dwt : Bool) (td : TrackedDevice fl) → Remembers b td → Remembers b (guard_tap dwt td)
  unfolding guard_tap
  guard_tap-Remembers dwt td h = ground arith

  absolute-Remembers :
      (now : Readings) (cfg : Settings fl) (dwt : Bool) (ev : InputEvent) (td : TrackedDevice fl)
      → ev.code ≢ btn_left
      → Remembers b td
      → Remembers b (process_absolute_event now cfg dwt ev ts lib_dev ctx td).0
  unfolding process_absolute_event
  absolute-Remembers now cfg dwt ev td other h =
      let td' = guard_tap dwt td in
      let h' = guard_tap-Remembers dwt td h in
      absolute_dispatch_cases now td' (λ out. Remembers b out.0) ev.event_type cfg dwt ev ts lib_dev
        ctx h' (absolute_key-Remembers b ts lib_dev ctx now td' cfg dwt ev.code ev.value other h')
        (absolute_axis-Remembers b ts lib_dev ctx now td' ev.code ev.value h')
        (sync-Remembers b ts lib_dev ctx now td' cfg.cfg_nat cfg.cfg_accel dwt ev.code h')

  keyboard-Remembers :
      (now : Readings) (ev : InputEvent) (td : TrackedDevice fl) (global : Option ℕ)
      → Remembers b td
      → Remembers b (process_keyboard_event now ev ts lib_dev ctx td global).td
  unfolding process_keyboard_event
  keyboard-Remembers now ev td global h = ground arith

finger_button-is_pad_button : (n : ℕ) → is_pad_button (finger_button n) ≡ true
unfolding is_pad_button finger_button
finger_button-is_pad_button n = ground arith

-- A press or a release of the physical left button, as the kernel reports it.
abbrev pub left_button : ℤ → ℤ → InputEvent
left_button timestamp value = record {
  timestamp = timestamp;
  event_type = EventType.key;
  code = btn_left;
  value = value;
}

module _ {fl : Floats} (dev : LibinputDevice fl) (typing : Option ℕ) (ctx : Ptr) where
  press_click :
      (now : Readings) (ts value : ℤ) (td : TrackedDevice fl) (global : Option ℕ)
      → td.is_absolute ≡ true
      → is_zero value ≡ false
      → let after = drain_event dev typing ctx (now, left_button ts value) td global in
        (after.out
          ≡ button_event
              (systime_to_usec ts)
              (finger_button td.touch_fingers)
              (i32_as_u32 value)
              ctx
              td.lib_device
            ∷ [])
        × (after.td.active_click_button ≡ some (finger_button td.touch_fingers))
  unfolding process_absolute_event absolute_key click
  press_click now ts value td global pad down =
      rw (drain_event_absolute dev typing ctx (now, left_button ts value) td global pad)
        (ground arith)

  release_click :
      (now : Readings) (ts : ℤ) (b : ℕ) (td : TrackedDevice fl) (global : Option ℕ)
      → td.is_absolute ≡ true
      → is_pad_button b ≡ true
      → td.active_click_button ≡ some b
      → let after = drain_event dev typing ctx (now, left_button ts (pos 0)) td global in
        (after.out ≡ button_event (systime_to_usec ts) b 0 ctx td.lib_device ∷ [])
        × (after.td.active_click_button ≡ none)
  unfolding process_absolute_event absolute_key click i32_as_u32
  release_click now ts b td global pad known h =
      rw (drain_event_absolute dev typing ctx (now, left_button ts (pos 0)) td global pad)
        (ground arith)

  drain_event-Remembers :
      (b : ℕ) (e : Timed) (td : TrackedDevice fl) (global : Option ℕ)
      → IsOther e
      → Remembers b td
      → Remembers b (drain_event dev typing ctx e td global).td
  drain_event-Remembers b e td global other h =
      drain_event_cases dev typing ctx (λ after. Remembers b after.td) e td global
        (keyboard-Remembers b _ td.lib_device ctx e.0 e.1 td global h) h
        (absolute-Remembers b _ td.lib_device ctx e.0 (settings dev) _ e.1 td other h) h

-- One batch of a device: the settings of the device, the typing time that it reads, the time that it
-- starts from, and its events.
pub record Turn (fl : Floats) : Type 0 where
  pub dev : LibinputDevice fl
  pub typing : Option ℕ
  pub global : Option ℕ
  pub events : List Timed

-- The device after some batches, one after the other.
abbrev pub after_turns : {fl : Floats} → Ptr → List (Turn fl) → TrackedDevice fl → TrackedDevice fl
after_turns ctx [] td = td
after_turns ctx (t ∷ turns) td =
    after_turns ctx turns (drain_batch t.dev t.typing ctx t.events td t.global).td

module _ {fl : Floats} (ctx : Ptr) where
  after_turns-SameIdentity :
      (turns : List (Turn fl)) (td : TrackedDevice fl) → SameIdentity td (after_turns ctx turns td)
  after_turns-SameIdentity [] td = SameIdentity-refl td
  after_turns-SameIdentity (t ∷ turns) td =
      let td' = (drain_batch t.dev t.typing ctx t.events td t.global).td in
      SameIdentity-trans td td' (after_turns ctx turns td')
        (drain_batch-SameIdentity t.dev t.typing ctx t.events td t.global)
        (after_turns-SameIdentity turns td')

  after_turns-Remembers :
      (b : ℕ) (turns : List (Turn fl)) (td : TrackedDevice fl)
      → All (λ t. All IsOther t.events) turns
      → Remembers b td
      → Remembers b (after_turns ctx turns td)
  after_turns-Remembers b [] td others h = h
  after_turns-Remembers b (t ∷ turns) td (other, others) h =
      after_turns-Remembers b turns (drain_batch t.dev t.typing ctx t.events td t.global).td others
        (drain_batch_keeps_if t.dev t.typing ctx (Remembers b) IsOther
          (drain_event-Remembers t.dev t.typing ctx b) t.events td t.global other h)

  -- On a touchpad, press the pad's button, let any number of batches follow in which no event has
  -- the code of the left button, and release the button. The settings of the device and the typing
  -- time may be others in each batch. The press is a button event of the left, right or middle
  -- button, by the number of fingers then on the pad; the release is one event, of the same button,
  -- with state 0, and no click is remembered after it.
  pub click_press_release :
      (dev dev' : LibinputDevice fl) (typing typing' : Option ℕ) (now now' : Readings)
      (ts ts' value : ℤ) (turns : List (Turn fl)) (td : TrackedDevice fl)
      (global global' : Option ℕ)
      → td.is_absolute ≡ true
      → is_zero value ≡ false
      → All (λ t. All IsOther t.events) turns
      → let button = finger_button td.touch_fingers in
        let pressed = drain_event dev typing ctx (now, left_button ts value) td global in
        let held = after_turns ctx turns pressed.td in
        let released = drain_event dev' typing' ctx (now', left_button ts' (pos 0)) held global' in
        (pressed.out
          ≡ button_event (systime_to_usec ts) button (i32_as_u32 value) ctx td.lib_device ∷ [])
        × (released.out ≡ button_event (systime_to_usec ts') button 0 ctx td.lib_device ∷ [])
        × (released.td.active_click_button ≡ none)
  click_press_release dev dev' typing typing' now now' ts ts' value turns td global global' pad down
        others =
      let press : Timed = (now, left_button ts value) in
      let button = finger_button td.touch_fingers in
      let pressed = (drain_event dev typing ctx press td global).td in
      let held = after_turns ctx turns pressed in
      let same =
        SameIdentity-trans td pressed held (drain_event-SameIdentity dev typing ctx press td global)
          (after_turns-SameIdentity turns pressed) in
      let (shown, kept) = press_click dev typing ctx now ts value td global pad down in
      let (done, forgotten) =
        release_click dev' typing' ctx now' ts' button held global' (same.is_absolute ∙ pad)
          (finger_button-is_pad_button td.touch_fingers)
          (after_turns-Remembers button turns pressed others kept) in
      (
        shown,
        subst
            (λ p.
              (drain_event dev' typing' ctx (now', left_button ts' (pos 0)) held global').out
              ≡ button_event (systime_to_usec ts') button 0 ctx p ∷ [])
            same.lib_device done,
        forgotten,
      )
