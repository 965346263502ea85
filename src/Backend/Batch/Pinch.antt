-- ===== src/Backend/Batch/Pinch.antt =====
-- The pinch protocol over a whole batch, on any kind of device.
use libinput_rs.Common.{ℕ, ◌≡◌, refl, Option, some, List, [], ◌∷◌, arith}
use libinput_rs.Evdev.{InputEvent, Readings}
use libinput_rs.Floats.{Floats}
use libinput_rs.Ffi.{Ptr}
use libinput_rs.Ffi.Device.{LibinputDevice}
use libinput_rs.Backend.Tracked.{TrackedDevice}
use libinput_rs.Backend.Keyboard.{process_keyboard_event}
use libinput_rs.Backend.Relative.{process_relative_event}
use libinput_rs.Backend.Touchpad.Pinch.{
  Progress, follow, progress, follow-append, Keeps, process_absolute_event-Keeps,
}
use libinput_rs.Backend.Batch.{Timed, settings, drain_event, drain_batch}
use libinput_rs.Backend.Batch.Cases.{drain_event_cases}

module _ {fl : Floats} where
  process_keyboard_event-Keeps :
      (now : Readings) (ev : InputEvent) (ts : ℕ) (lib_dev ctx : Ptr) (td : TrackedDevice fl)
      (global : Option ℕ)
      → let after = process_keyboard_event now ev ts lib_dev ctx td global in
        Keeps td (after.td, after.out)
  unfolding process_keyboard_event
  process_keyboard_event-Keeps now ev ts lib_dev ctx td global = ground arith

process_relative_event-follow :
    (fl : Floats) (ev : InputEvent) (ts : ℕ) (lib_dev ctx : Ptr) (p : Progress)
    → follow {fl = fl} (process_relative_event ev ts lib_dev ctx) p ≡ some p
unfolding process_relative_event
process_relative_event-follow fl ev ts lib_dev ctx p = ground arith

module _ {fl : Floats} (dev : LibinputDevice fl) (typing : Option ℕ) (ctx : Ptr) where
  drain_event-Keeps :
      (e : Timed) (td : TrackedDevice fl) (global : Option ℕ)
      → let after = drain_event dev typing ctx e td global in Keeps td (after.td, after.out)
  drain_event-Keeps e td global =
      drain_event_cases dev typing ctx (λ after. Keeps td (after.td, after.out)) e td global
        (process_keyboard_event-Keeps e.0 e.1 _ td.lib_device ctx td global)
        (process_relative_event-follow fl e.1 _ td.lib_device ctx (progress td))
        (process_absolute_event-Keeps e.0 _ td.lib_device ctx (settings dev) _ e.1 td) refl

  -- Over any batch of events the client sees a pinch begin only when none is in progress, sees
  -- updates and the end only of one in progress, with the finger count of its beginning, and what
  -- it then takes to be in progress is what the device takes to be.
  pub drain_batch-Keeps :
      (es : List Timed) (td : TrackedDevice fl) (global : Option ℕ)
      → let after = drain_batch dev typing ctx es td global in
        follow after.out (progress td) ≡ some (progress after.td)
  unfolding drain_batch
  drain_batch-Keeps [] td global = refl
  drain_batch-Keeps (e ∷ es) td global =
      let first = drain_event dev typing ctx e td global in
      let rest = drain_batch dev typing ctx es first.td first.global_typing_time in
      rw (follow-append first.out rest.out (progress td), drain_event-Keeps e td global)
        (drain_batch-Keeps es first.td first.global_typing_time)
