-- ===== src/Api/Capability/Handlers.antt =====
-- The kinds of events that the three handlers push, and a batch.
use libinput_rs.Common.{ℕ, ◌≡◌, Bool, true, ◌||◌, Option, List, [], ◌∷◌, arith, All}
use libinput_rs.Common.Int.{ℤ}
use libinput_rs.Evdev.{InputEvent, Readings}
use libinput_rs.Floats.{Floats}
use libinput_rs.Ffi.{Ptr, LibinputEvent, LibinputEventType}
use libinput_rs.Ffi.Device.{LibinputDevice}
use libinput_rs.Backend.Tracked.{TrackedDevice, HeldKey}
use libinput_rs.Backend.Keyboard.{process_keyboard_event, repeat_keys}
use libinput_rs.Backend.Relative.{process_relative_event}
use libinput_rs.Backend.Touchpad.{Settings, process_absolute_event, guard_tap}
use libinput_rs.Backend.Touchpad.Cases.{absolute_key_cases, absolute_dispatch_cases}
use libinput_rs.Backend.Touchpad.Touch.{touch_down, touch_up}
use libinput_rs.Backend.Touchpad.Click.{click, tool_tap}
use libinput_rs.Backend.Touchpad.Sync.{sync}
use libinput_rs.Api.Casts.{is_pointer, is_keyboard, is_gesture}
use libinput_rs.Api.Capability.{allows}

-- What a handler may push: events of types that pass the test.
abbrev pub AllOf : {fl : Floats} → (LibinputEventType → Bool) → List (LibinputEvent fl) → Type 0
AllOf test es = All (λ e. test e.event_type ≡ true) es

abbrev pub is_pad : LibinputEventType → Bool
is_pad t = is_pointer t || is_gesture t

module _ {fl : Floats} (ts : ℕ) (lib_dev ctx : Ptr) where
  pub keyboard-AllOf :
      (now : Readings) (ev : InputEvent) (td : TrackedDevice fl) (global : Option ℕ)
      → AllOf is_keyboard (process_keyboard_event now ev ts lib_dev ctx td global).out
  unfolding process_keyboard_event
  keyboard-AllOf now ev td global = ground arith

  touch_down-AllOf :
      (now : Readings) (td : TrackedDevice fl) → AllOf is_pad (touch_down now ts lib_dev ctx td).1
  unfolding touch_down
  touch_down-AllOf now td = ground arith

  touch_up-AllOf :
      (now : Readings) (tap dwt : Bool) (td : TrackedDevice fl)
      → AllOf is_pad (touch_up now tap dwt ts lib_dev ctx td).1
  unfolding touch_up
  touch_up-AllOf now tap dwt td = ground arith

  click-AllOf :
      (code : ℕ) (value : ℤ) (td : TrackedDevice fl)
      → AllOf is_pad (click code value ts lib_dev ctx td).1
  unfolding click
  click-AllOf code value td = ground arith

  sync-AllOf :
      (nat : Bool) (accel : fl.F32) (dwt : Bool) (code : ℕ) (td : TrackedDevice fl)
      → AllOf is_pad (sync nat accel dwt code ts lib_dev ctx td).1
  unfolding sync
  sync-AllOf nat accel dwt code td = ground arith

  pub absolute-AllOf :
      (now : Readings) (cfg : Settings fl) (dwt : Bool) (ev : InputEvent) (td : TrackedDevice fl)
      → AllOf is_pad (process_absolute_event now cfg dwt ev ts lib_dev ctx td).1
  unfolding process_absolute_event tool_tap
  absolute-AllOf now cfg dwt ev td =
      let td' = guard_tap dwt td in
      absolute_dispatch_cases now td' (λ out. AllOf is_pad out.1) ev.event_type cfg dwt ev ts
        lib_dev ctx tt
        (absolute_key_cases now td' (λ out. AllOf is_pad out.1) cfg dwt ev.code ev.value ts lib_dev
          ctx (touch_down-AllOf now td') (touch_up-AllOf now cfg.cfg_tap dwt td') tt tt tt
          (click-AllOf ev.code ev.value td'))
        tt (sync-AllOf cfg.cfg_nat cfg.cfg_accel dwt ev.code td')

pub relative-AllOf :
    (fl : Floats) (ts : ℕ) (lib_dev ctx : Ptr) (ev : InputEvent)
    → AllOf {fl = fl} is_pointer (process_relative_event ev ts lib_dev ctx)
unfolding process_relative_event
relative-AllOf fl ts lib_dev ctx ev = ground arith

pub repeat_keys-AllOf :
    (fl : Floats) (now : ℕ) (lib_dev ctx : Ptr) (keys : List HeldKey)
    → AllOf {fl = fl} is_keyboard (repeat_keys now lib_dev ctx keys).1
unfolding repeat_keys
repeat_keys-AllOf fl now lib_dev ctx [] = tt
repeat_keys-AllOf fl now lib_dev ctx (hk ∷ keys) =
    ground (arith, repeat_keys-AllOf fl now lib_dev ctx keys)

abbrev pub AllAllowed : {fl : Floats} → LibinputDevice fl → List (LibinputEvent fl) → Type 0
AllAllowed dev es = All (λ e. allows dev e.event_type ≡ true) es
