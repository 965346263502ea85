-- ===== src/Backend/Batch/Cases.antt =====
-- `drain_event` by cases: which of the three handlers runs, and what holds after a batch because it
-- holds after each of its events.
use libinput_rs.Common.{ℕ, ◌≡◌, true, not, ◌&&◌, Option, List, [], ◌∷◌, arith, if_both, All}
use libinput_rs.Evdev.{systime_to_usec}
use libinput_rs.Floats.{Floats}
use libinput_rs.Ffi.{Ptr}
use libinput_rs.Ffi.Device.{LibinputDevice}
use libinput_rs.Backend.Tracked.{TrackedDevice}
use libinput_rs.Backend.Keyboard.{KeyboardStep, process_keyboard_event}
use libinput_rs.Backend.Relative.{process_relative_event}
use libinput_rs.Backend.Touchpad.{process_absolute_event}
use libinput_rs.Backend.Batch.{Timed, settings, is_dwt_active, drain_event, drain_batch}

All-trivial : (es : List Timed) → All (λ _. Unit {0}) es
All-trivial [] = tt
All-trivial (e ∷ es) = (tt, All-trivial es)

module _ {ℓ} {fl : Floats} (dev : LibinputDevice fl) (typing : Option ℕ) (ctx : Ptr) where
  pub drain_event_cases :
      (P : KeyboardStep fl → Type ℓ) (e : Timed) (td : TrackedDevice fl) (global : Option ℕ)
      → P (
          process_keyboard_event e.0 e.1
            (systime_to_usec e.1.timestamp)
            td.lib_device
            ctx
            td
            global)
      → P (record {
        td = td;
        global_typing_time = global;
        out = process_relative_event e.1 (systime_to_usec e.1.timestamp) td.lib_device ctx;
      })
      → (let after =
            process_absolute_event e.0
              (settings dev)
              (is_dwt_active dev.dwt_enabled typing (e.0 0))
              e.1
              (systime_to_usec e.1.timestamp)
              td.lib_device
              ctx
              td in
          P (record { td = after.0; global_typing_time = global; out = after.1 }))
      → P (record { td = td; global_typing_time = global; out = [] })
      → P (drain_event dev typing ctx e td global)
  unfolding drain_event
  drain_event_cases P e td global keyboard relative absolute other =
      if_both P (td.is_keyboard && not td.is_absolute) keyboard (
        if_both P (not td.is_absolute && td.is_pointer) relative
          (if_both P td.is_absolute absolute other))

  -- A property of the device that every event of a kind keeps.
  pub drain_batch_keeps_if {κ} :
      (P : TrackedDevice fl → Type ℓ) (Q : Timed → Type κ)
      → ((e : Timed) (td : TrackedDevice fl) (global : Option ℕ)
          → Q e
          → P td
          → P (drain_event dev typing ctx e td global).td)
      → (es : List Timed) (td : TrackedDevice fl) (global : Option ℕ) → All Q es
      → P td
      → P (drain_batch dev typing ctx es td global).td
  unfolding drain_batch
  drain_batch_keeps_if P Q keep [] td global q h = h
  drain_batch_keeps_if P Q keep (e ∷ es) td global (q, qs) h =
      let first = drain_event dev typing ctx e td global in
      drain_batch_keeps_if P Q keep es first.td first.global_typing_time qs (keep e td global q h)

  -- A property of the device that every event keeps.
  pub drain_batch_keeps :
      (P : TrackedDevice fl → Type ℓ)
      → ((e : Timed) (td : TrackedDevice fl) (global : Option ℕ)
          → P td
          → P (drain_event dev typing ctx e td global).td)
      → (es : List Timed) (td : TrackedDevice fl) (global : Option ℕ) → P td
      → P (drain_batch dev typing ctx es td global).td
  drain_batch_keeps P keep es td global h =
      drain_batch_keeps_if P (λ _. Unit {0}) (λ e t g _. keep e t g) es td global (All-trivial es) h

-- On a touchpad it is the touchpad's handler that runs.
pub drain_event_absolute :
    {fl : Floats} (dev : LibinputDevice fl) (typing : Option ℕ) (ctx : Ptr) (e : Timed)
    (td : TrackedDevice fl) (global : Option ℕ)
    → td.is_absolute ≡ true
    → let after =
        process_absolute_event e.0
          (settings dev)
          (is_dwt_active dev.dwt_enabled typing (e.0 0))
          e.1
          (systime_to_usec e.1.timestamp)
          td.lib_device
          ctx
          td in
      drain_event dev typing ctx e td global
      ≡ record { td = after.0; global_typing_time = global; out = after.1 }
unfolding drain_event
drain_event_absolute dev typing ctx e td global h = ground arith
