-- ===== src/Backend/Batch/Valid.antt =====
-- The touchpad's invariant over a whole batch, on any kind of device.
use libinput_rs.Common.{ℕ, Option, List, arith}
use libinput_rs.Evdev.{InputEvent, Readings}
use libinput_rs.Floats.{Floats}
use libinput_rs.Ffi.{Ptr}
use libinput_rs.Ffi.Device.{LibinputDevice}
use libinput_rs.Backend.Tracked.{TrackedDevice}
use libinput_rs.Backend.Keyboard.{process_keyboard_event}
use libinput_rs.Backend.Touchpad.Invariant.{IsValid, process_absolute_event-IsValid}
use libinput_rs.Backend.Batch.{Timed, settings, drain_batch}
use libinput_rs.Backend.Batch.Cases.{drain_event_cases, drain_batch_keeps}

keyboard-IsValid :
    {fl : Floats} (now : Readings) (ev : InputEvent) (ts : ℕ) (lib_dev ctx : Ptr)
    (td : TrackedDevice fl) (global : Option ℕ)
    → IsValid td
    → IsValid (process_keyboard_event now ev ts lib_dev ctx td global).td
unfolding process_keyboard_event
keyboard-IsValid now ev ts lib_dev ctx td global v = ground arith

module _ {fl : Floats} (dev : LibinputDevice fl) (typing : Option ℕ) (ctx : Ptr) where
  -- After any batch of events there are still ten touch slots and the current one is among them,
  -- the collected movement fits an `i32`, at most ten fingers are counted, and a remembered click
  -- is of a button that the pad has.
  pub drain_batch-IsValid :
      (es : List Timed) (td : TrackedDevice fl) (global : Option ℕ)
      → IsValid td
      → IsValid (drain_batch dev typing ctx es td global).td
  drain_batch-IsValid = drain_batch_keeps dev typing ctx IsValid λ e td global v.
      drain_event_cases dev typing ctx (λ after. IsValid after.td) e td global
        (keyboard-IsValid e.0 e.1 _ td.lib_device ctx td global v) v
        (process_absolute_event-IsValid e.0 _ td.lib_device ctx (settings dev) _ e.1 td v) v
