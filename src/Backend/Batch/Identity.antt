-- ===== src/Backend/Batch/Identity.antt =====
-- What no event changes of a device: what it is, where it is, and the pointer that stands for it.
use libinput_rs.Common.{ℕ, ◌≡◌, Bool, Option, List, arith}
use libinput_rs.Common.Int.{ℤ}
use libinput_rs.Evdev.{InputEvent, Readings}
use libinput_rs.Floats.{Floats}
use libinput_rs.Ffi.{Ptr}
use libinput_rs.Ffi.Device.{LibinputDevice}
use libinput_rs.Backend.Tracked.{TrackedDevice}
use libinput_rs.Backend.Keyboard.{process_keyboard_event}
use libinput_rs.Backend.Touchpad.{Settings, absolute_key, process_absolute_event, guard_tap}
use libinput_rs.Backend.Touchpad.Cases.{
  absolute_axis_cases, absolute_key_cases, absolute_dispatch_cases,
}
use libinput_rs.Backend.Touchpad.Touch.{touch_down, touch_up}
use libinput_rs.Backend.Touchpad.Click.{click, tool_tap}
use libinput_rs.Backend.Touchpad.Axis.{absolute_axis, select_slot, write_slot, move_x, move_y}
use libinput_rs.Backend.Touchpad.Sync.{sync}
use libinput_rs.Backend.Batch.{Timed, settings, drain_event, drain_batch}
use libinput_rs.Backend.Batch.Cases.{drain_event_cases, drain_batch_keeps}

pub record SameIdentity {fl : Floats} (td td' : TrackedDevice fl) : Type 0 where
  pub device : td'.device ≡ td.device
  pub path : td'.path ≡ td.path
  pub is_absolute : td'.is_absolute ≡ td.is_absolute
  pub is_keyboard : td'.is_keyboard ≡ td.is_keyboard
  pub is_pointer : td'.is_pointer ≡ td.is_pointer
  pub lib_device : td'.lib_device ≡ td.lib_device

module _ {fl : Floats} where
  pub SameIdentity-refl : (td : TrackedDevice fl) → SameIdentity td td
  SameIdentity-refl td = ground arith

  pub SameIdentity-trans :
      (s t u : TrackedDevice fl) → SameIdentity s t → SameIdentity t u → SameIdentity s u
  SameIdentity-trans s t u p q = ground arith

module _ {fl : Floats} (now : Readings) (ts : ℕ) (lib_dev ctx : Ptr) (td : TrackedDevice fl) where
  keyboard-SameIdentity :
      (ev : InputEvent) (global : Option ℕ)
      → SameIdentity td (process_keyboard_event now ev ts lib_dev ctx td global).td
  unfolding process_keyboard_event
  keyboard-SameIdentity ev global = ground arith

  touch_down-SameIdentity : SameIdentity td (touch_down now ts lib_dev ctx td).0
  unfolding touch_down
  touch_down-SameIdentity = ground arith

  touch_up-SameIdentity :
      (tap dwt : Bool) → SameIdentity td (touch_up now tap dwt ts lib_dev ctx td).0
  unfolding touch_up
  touch_up-SameIdentity tap dwt = ground arith

  click-SameIdentity :
      (code : ℕ) (value : ℤ) → SameIdentity td (click code value ts lib_dev ctx td).0
  unfolding click
  click-SameIdentity code value = ground arith

  sync-SameIdentity :
      (nat : Bool) (accel : fl.F32) (dwt : Bool) (code : ℕ)
      → SameIdentity td (sync nat accel dwt code ts lib_dev ctx td).0
  unfolding sync
  sync-SameIdentity nat accel dwt code = ground arith

  tool_tap-SameIdentity : (m n : ℕ) (value : ℤ) → SameIdentity td (tool_tap m n value td).0
  unfolding tool_tap
  tool_tap-SameIdentity m n value = ground arith

  absolute_axis-SameIdentity :
      (code : ℕ) (value : ℤ) → SameIdentity td (absolute_axis now code value td)
  unfolding select_slot write_slot move_x move_y
  absolute_axis-SameIdentity code value =
      absolute_axis_cases now td (SameIdentity td) code value (SameIdentity-refl td) (ground arith)
        (λ f. ground arith) (ground arith) (ground arith)

module _ {fl : Floats} (now : Readings) (ts : ℕ) (lib_dev ctx : Ptr) where
  absolute_key-SameIdentity :
      (td : TrackedDevice fl) (cfg : Settings fl) (dwt : Bool) (code : ℕ) (value : ℤ)
      → SameIdentity td (absolute_key now cfg dwt code value ts lib_dev ctx td).0
  absolute_key-SameIdentity td cfg dwt code value =
      absolute_key_cases now td (λ out. SameIdentity td out.0) cfg dwt code value ts lib_dev ctx
        (touch_down-SameIdentity now ts lib_dev ctx td)
        (touch_up-SameIdentity now ts lib_dev ctx td cfg.cfg_tap dwt)
        (tool_tap-SameIdentity now ts lib_dev ctx td 2 1 value)
        (tool_tap-SameIdentity now ts lib_dev ctx td 3 2 value)
        (tool_tap-SameIdentity now ts lib_dev ctx td 4 3 value)
        (click-SameIdentity now ts lib_dev ctx td code value)

  guard_tap-SameIdentity : (dwt : Bool) (td : TrackedDevice fl) → SameIdentity td (guard_tap dwt td)
  unfolding guard_tap
  guard_tap-SameIdentity dwt td = ground arith

  absolute-SameIdentity :
      (cfg : Settings fl) (dwt : Bool) (ev : InputEvent) (td : TrackedDevice fl)
      → SameIdentity td (process_absolute_event now cfg dwt ev ts lib_dev ctx td).0
  unfolding process_absolute_event
  absolute-SameIdentity cfg dwt ev td =
      let td' = guard_tap dwt td in
      SameIdentity-trans td td' _ (guard_tap-SameIdentity dwt td) (
        absolute_dispatch_cases now td' (λ out. SameIdentity td' out.0) ev.event_type cfg dwt ev ts
          lib_dev ctx (SameIdentity-refl td')
          (absolute_key-SameIdentity td' cfg dwt ev.code ev.value)
          (absolute_axis-SameIdentity now ts lib_dev ctx td' ev.code ev.value)
          (sync-SameIdentity now ts lib_dev ctx td' cfg.cfg_nat cfg.cfg_accel dwt ev.code))

module _ {fl : Floats} (dev : LibinputDevice fl) (typing : Option ℕ) (ctx : Ptr) where
  pub drain_event-SameIdentity :
      (e : Timed) (td : TrackedDevice fl) (global : Option ℕ)
      → SameIdentity td (drain_event dev typing ctx e td global).td
  drain_event-SameIdentity e td global =
      drain_event_cases dev typing ctx (λ after. SameIdentity td after.td) e td global
        (keyboard-SameIdentity e.0 _ td.lib_device ctx td e.1 global) (SameIdentity-refl td)
        (absolute-SameIdentity e.0 _ td.lib_device ctx (settings dev) _ e.1 td)
        (SameIdentity-refl td)

  pub drain_batch-SameIdentity :
      (es : List Timed) (td : TrackedDevice fl) (global : Option ℕ)
      → SameIdentity td (drain_batch dev typing ctx es td global).td
  drain_batch-SameIdentity es td global =
      drain_batch_keeps dev typing ctx (SameIdentity td)
        (λ e t g same. SameIdentity-trans td t _ same (drain_event-SameIdentity e t g)) es td global
        (SameIdentity-refl td)
