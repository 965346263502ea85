-- ===== src/Api/Capability/Silent.antt =====
-- A keyboard that has an absolute axis too, such as a wheel for the volume, is read as a touchpad.
use Prim.Native.String.{String}
use mathlib.Core.Path.{subst}
use libinput_rs.Common.{
  ℕ, ◌≡◌, ◌∙◌, sym, true, false, Option, some, List, [], ◌∷◌, arith, All, All-append, All-map_of,
}
use libinput_rs.Evdev.{Device, has_key_a, systime_to_usec}
use libinput_rs.Floats.{Floats}
use libinput_rs.Ffi.{Ptr, LibinputEvent, LibinputEventType}
use libinput_rs.Ffi.Device.{LibinputDevice, new_device}
use libinput_rs.Backend.Tracked.{TrackedDevice, new_tracked}
use libinput_rs.Backend.Keyboard.{KeyboardStep}
use libinput_rs.Backend.Open.{announce}
use libinput_rs.Backend.Batch.{Timed, settings, is_dwt_active, drain_event, drain_batch}
use libinput_rs.Backend.Batch.Cases.{drain_event_absolute}
use libinput_rs.Backend.Batch.Identity.{drain_event-SameIdentity, drain_batch-SameIdentity}
use libinput_rs.Api.Casts.{is_keyboard}
use libinput_rs.Api.Config.{query, has_capability}
use libinput_rs.Api.Capability.Handlers.{is_pad, absolute-AllOf}

abbrev pub Keyless : {fl : Floats} → List (LibinputEvent fl) → Type 0
Keyless es = All (λ e. is_keyboard e.event_type ≡ false) es

pad_keyless : (t : LibinputEventType) → is_pad t ≡ true → is_keyboard t ≡ false
pad_keyless LibinputEventType.keyboard_key h = cc
pad_keyless t h = ground arith

module _ {fl : Floats} (dev : LibinputDevice fl) (typing : Option ℕ) (ctx : Ptr) where
  drain_event-Keyless :
      (e : Timed) (td : TrackedDevice fl) (global : Option ℕ)
      → td.is_absolute ≡ true
      → Keyless (drain_event dev typing ctx e td global).out
  drain_event-Keyless e td global h =
      let sent =
        absolute-AllOf (systime_to_usec e.1.timestamp) td.lib_device ctx e.0 (settings dev)
          (is_dwt_active dev.dwt_enabled typing (e.0 0)) e.1 td in
      subst (λ (r : KeyboardStep fl). Keyless r.out)
        (sym (drain_event_absolute dev typing ctx e td global h))
        (All-map_of (λ x. is_pad x.event_type ≡ true) (λ x. is_keyboard x.event_type ≡ false)
          (λ x k. pad_keyless x.event_type k) _ sent)

  drain_batch-Keyless :
      (es : List Timed) (td : TrackedDevice fl) (global : Option ℕ)
      → td.is_absolute ≡ true
      → Keyless (drain_batch dev typing ctx es td global).out
  unfolding drain_batch
  drain_batch-Keyless [] td global h = tt
  drain_batch-Keyless (e ∷ es) td global h =
      let first = drain_event dev typing ctx e td global in
      let rest = drain_batch dev typing ctx es first.td first.global_typing_time in
      All-append (λ x. is_keyboard x.event_type ≡ false) first.out rest.out
        (drain_event-Keyless e td global h)
        (drain_batch-Keyless es first.td first.global_typing_time
          ((drain_event-SameIdentity dev typing ctx e td global).is_absolute ∙ h))

  -- A device that has the key A and an absolute axis is announced as a keyboard, but no batch of it,
  -- whatever it holds, brings forth a key event, neither right after it was opened nor later.
  pub absolute_keyboard_silent :
      (path : String) (seat p : Ptr) (d : Device) (before es : List Timed) (global : Option ℕ)
      → d.absolute_events ≡ true
      → has_key_a d ≡ true
      → (has_capability 1 (some (announce {fl = fl} path seat ctx d)) ≡ 1)
        × (let read = drain_batch dev typing ctx before (new_tracked fl d path p) global in
            Keyless read.out
            × Keyless (drain_batch dev typing ctx es read.td read.global_typing_time).out)
  unfolding has_capability query announce new_device new_tracked
  absolute_keyboard_silent path seat p d before es global absolute key =
      let td = new_tracked fl d path p in
      let read = drain_batch dev typing ctx before td global in
      (
        ground arith,
        (
          drain_batch-Keyless before td global absolute,
          drain_batch-Keyless es read.td read.global_typing_time
              ((drain_batch-SameIdentity dev typing ctx before td global).is_absolute ∙ absolute),
        ),
      )
