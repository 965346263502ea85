-- ===== src/Backend/Batch/Consistent.antt =====
-- Every event that the backend pushes carries the payload that its type announces.
use mathlib.Core.Path.{subst}
use libinput_rs.Common.{ℕ, ◌≡◌, Bool, true, false, Option, List, [], ◌∷◌, arith, All, All-append}
use libinput_rs.Common.Int.{ℤ}
use libinput_rs.Evdev.{InputEvent, Readings}
use libinput_rs.Floats.{Floats}
use libinput_rs.Ffi.{Ptr, LibinputEvent, EventPayload}
use libinput_rs.Ffi.Device.{LibinputDevice}
use libinput_rs.Ffi.Kinds.{IsConsistent}
use libinput_rs.Backend.Tracked.{TrackedDevice, HeldKey}
use libinput_rs.Backend.Keyboard.{process_keyboard_event, repeat_keys, repeat_device}
use libinput_rs.Backend.Relative.{process_relative_event}
use libinput_rs.Backend.Touchpad.{Settings, process_absolute_event, guard_tap}
use libinput_rs.Backend.Touchpad.Cases.{absolute_key_cases, absolute_dispatch_cases}
use libinput_rs.Backend.Touchpad.Touch.{touch_down, touch_up}
use libinput_rs.Backend.Touchpad.Click.{click, tool_tap}
use libinput_rs.Backend.Touchpad.Sync.{sync}
use libinput_rs.Backend.Batch.{Timed, settings, drain_event, drain_batch}
use libinput_rs.Backend.Batch.Cases.{drain_event_cases}
use libinput_rs.Backend.Batch.Identity.{drain_event-SameIdentity}

-- The event tells of a device that was added or removed.
abbrev pub notifies : {fl : Floats} → EventPayload fl → Bool
notifies EventPayload.device_added = true
notifies EventPayload.device_removed = true
notifies _ = false

-- Consistent, of one context and device, and no notification.
abbrev pub IsFrom : {fl : Floats} → Ptr → Ptr → LibinputEvent fl → Type 0
IsFrom ctx lib_dev e =
    IsConsistent e × (e.context ≡ ctx) × (e.device ≡ lib_dev) × (notifies e.payload ≡ false)

abbrev pub AllFrom : {fl : Floats} → Ptr → Ptr → List (LibinputEvent fl) → Type 0
AllFrom ctx lib_dev es = All (IsFrom ctx lib_dev) es

module _ {fl : Floats} (ts : ℕ) (lib_dev ctx : Ptr) where
  keyboard-AllFrom :
      (now : Readings) (ev : InputEvent) (td : TrackedDevice fl) (global : Option ℕ)
      → AllFrom ctx lib_dev (process_keyboard_event now ev ts lib_dev ctx td global).out
  unfolding process_keyboard_event
  keyboard-AllFrom now ev td global = ground arith

  touch_down-AllFrom :
      (now : Readings) (td : TrackedDevice fl)
      → AllFrom ctx lib_dev (touch_down now ts lib_dev ctx td).1
  unfolding touch_down
  touch_down-AllFrom now td = ground arith

  touch_up-AllFrom :
      (now : Readings) (tap dwt : Bool) (td : TrackedDevice fl)
      → AllFrom ctx lib_dev (touch_up now tap dwt ts lib_dev ctx td).1
  unfolding touch_up
  touch_up-AllFrom now tap dwt td = ground arith

  click-AllFrom :
      (code : ℕ) (value : ℤ) (td : TrackedDevice fl)
      → AllFrom ctx lib_dev (click code value ts lib_dev ctx td).1
  unfolding click
  click-AllFrom code value td = ground arith

  sync-AllFrom :
      (nat : Bool) (accel : fl.F32) (dwt : Bool) (code : ℕ) (td : TrackedDevice fl)
      → AllFrom ctx lib_dev (sync nat accel dwt code ts lib_dev ctx td).1
  unfolding sync
  sync-AllFrom nat accel dwt code td = ground arith

  absolute-AllFrom :
      (now : Readings) (cfg : Settings fl) (dwt : Bool) (ev : InputEvent) (td : TrackedDevice fl)
      → AllFrom ctx lib_dev (process_absolute_event now cfg dwt ev ts lib_dev ctx td).1
  unfolding process_absolute_event tool_tap
  absolute-AllFrom now cfg dwt ev td =
      let td' = guard_tap dwt td in
      absolute_dispatch_cases now td' (λ out. AllFrom ctx lib_dev out.1) ev.event_type cfg dwt ev ts
        lib_dev ctx tt
        (absolute_key_cases now td' (λ out. AllFrom ctx lib_dev out.1) cfg dwt ev.code ev.value ts
          lib_dev ctx (touch_down-AllFrom now td') (touch_up-AllFrom now cfg.cfg_tap dwt td') tt tt
          tt (click-AllFrom ev.code ev.value td'))
        tt (sync-AllFrom cfg.cfg_nat cfg.cfg_accel dwt ev.code td')

relative-AllFrom :
    (fl : Floats) (ts : ℕ) (lib_dev ctx : Ptr) (ev : InputEvent)
    → AllFrom {fl = fl} ctx lib_dev (process_relative_event ev ts lib_dev ctx)
unfolding process_relative_event
relative-AllFrom fl ts lib_dev ctx ev = ground arith

module _ {fl : Floats} (dev : LibinputDevice fl) (typing : Option ℕ) (ctx : Ptr) where
  drain_event-AllFrom :
      (e : Timed) (td : TrackedDevice fl) (global : Option ℕ)
      → AllFrom ctx td.lib_device (drain_event dev typing ctx e td global).out
  drain_event-AllFrom e td global =
      drain_event_cases dev typing ctx (λ after. AllFrom ctx td.lib_device after.out) e td global
        (keyboard-AllFrom _ td.lib_device ctx e.0 e.1 td global)
        (relative-AllFrom fl _ td.lib_device ctx e.1)
        (absolute-AllFrom _ td.lib_device ctx e.0 (settings dev) _ e.1 td) tt

  -- Every event of a batch carries the payload that its type announces, names the context of the
  -- drain and the device that it was fetched from, and is no notification of a device.
  pub drain_batch-AllFrom :
      (es : List Timed) (td : TrackedDevice fl) (global : Option ℕ)
      → AllFrom ctx td.lib_device (drain_batch dev typing ctx es td global).out
  unfolding drain_batch
  drain_batch-AllFrom [] td global = tt
  drain_batch-AllFrom (e ∷ es) td global =
      let first = drain_event dev typing ctx e td global in
      let rest = drain_batch dev typing ctx es first.td first.global_typing_time in
      All-append (IsFrom ctx td.lib_device) first.out rest.out (drain_event-AllFrom e td global) (
        subst (λ p. AllFrom ctx p rest.out)
          (drain_event-SameIdentity dev typing ctx e td global).lib_device
          (drain_batch-AllFrom es first.td first.global_typing_time))

repeat_keys-AllFrom :
    (fl : Floats) (now : ℕ) (lib_dev ctx : Ptr) (keys : List HeldKey)
    → AllFrom {fl = fl} ctx lib_dev (repeat_keys now lib_dev ctx keys).1
unfolding repeat_keys
repeat_keys-AllFrom fl now lib_dev ctx [] = tt
repeat_keys-AllFrom fl now lib_dev ctx (hk ∷ keys) =
    ground (arith, repeat_keys-AllFrom fl now lib_dev ctx keys)

pub repeat_device-AllFrom :
    {fl : Floats} (now : ℕ) (ctx : Ptr) (td : TrackedDevice fl)
    → AllFrom ctx td.lib_device (repeat_device now ctx td).1
unfolding repeat_device
repeat_device-AllFrom {fl} now ctx td =
    ground (arith, repeat_keys-AllFrom fl now td.lib_device ctx td.held_keys)
