-- ===== src/Api/Capability/Batch.antt =====
-- The kinds of events that a batch of a device brings forth, and the repeats of its keys.
use libinput_rs.Common.{
  ℕ, ◌≡◌, Bool, true, not, ◌&&◌, Option, List, [], ◌∷◌, arith, All-append, All-map_of, if_split,
}
use libinput_rs.Evdev.{systime_to_usec}
use libinput_rs.Floats.{Floats}
use libinput_rs.Ffi.{Ptr, LibinputEvent, LibinputEventType}
use libinput_rs.Ffi.Device.{LibinputDevice}
use libinput_rs.Backend.Tracked.{TrackedDevice}
use libinput_rs.Backend.Keyboard.{KeyboardStep, repeat_device}
use libinput_rs.Backend.Batch.{Timed, settings, is_dwt_active, drain_event, drain_batch}
use libinput_rs.Backend.Batch.Identity.{SameIdentity, drain_event-SameIdentity}
use libinput_rs.Api.Casts.{is_pointer, is_keyboard}
use libinput_rs.Api.Capability.{allows, links}
use libinput_rs.Api.Capability.Handlers.{
  AllOf, is_pad, AllAllowed, keyboard-AllOf, relative-AllOf, absolute-AllOf, repeat_keys-AllOf,
}

module _ {fl : Floats} (dev : LibinputDevice fl) where
  kind_allowed :
      (test : LibinputEventType → Bool) (es : List (LibinputEvent fl))
      → ((t : LibinputEventType) → test t ≡ true → allows dev t ≡ true)
      → AllOf test es
      → AllAllowed dev es
  kind_allowed test es kind h =
      All-map_of (λ e. test e.event_type ≡ true) (λ e. allows dev e.event_type ≡ true)
        (λ e k. kind e.event_type k) es h

  pub links-SameIdentity :
      (td td' : TrackedDevice fl) → SameIdentity td td' → links dev td ≡ true → links dev td' ≡ true
  links-SameIdentity td td' same h = cc (same.is_keyboard, same.is_pointer, same.is_absolute, h)

  module _ (typing : Option ℕ) (ctx : Ptr) where
    drain_event-AllAllowed :
        (e : Timed) (td : TrackedDevice fl) (global : Option ℕ)
        → links dev td ≡ true
        → AllAllowed dev (drain_event dev typing ctx e td global).out
    unfolding drain_event
    drain_event-AllAllowed e td global link =
        let ts = systime_to_usec e.1.timestamp in
        if_split (λ (r : KeyboardStep fl). AllAllowed dev r.out)
          (td.is_keyboard && not td.is_absolute)
          (λ h.
            kind_allowed is_keyboard _ (λ t k. ground arith)
              (keyboard-AllOf ts td.lib_device ctx e.0 e.1 td global))
          (λ _.
            if_split (λ (r : KeyboardStep fl). AllAllowed dev r.out)
              (not td.is_absolute && td.is_pointer)
              (λ h.
                kind_allowed is_pointer _ (λ t k. ground arith)
                  (relative-AllOf fl ts td.lib_device ctx e.1))
              (λ _.
                if_split (λ (r : KeyboardStep fl). AllAllowed dev r.out) td.is_absolute
                  (λ h.
                    kind_allowed is_pad _ (λ t k. ground arith)
                      (absolute-AllOf ts td.lib_device ctx e.0 (settings dev)
                        (is_dwt_active dev.dwt_enabled typing (e.0 0)) e.1 td))
                  (λ _. tt)))

    -- A device whose object says what it is brings forth only events of its kinds.
    pub drain_batch-AllAllowed :
        (es : List Timed) (td : TrackedDevice fl) (global : Option ℕ)
        → links dev td ≡ true
        → AllAllowed dev (drain_batch dev typing ctx es td global).out
    unfolding drain_batch
    drain_batch-AllAllowed [] td global link = tt
    drain_batch-AllAllowed (e ∷ es) td global link =
        let first = drain_event dev typing ctx e td global in
        let rest = drain_batch dev typing ctx es first.td first.global_typing_time in
        All-append (λ x. allows dev x.event_type ≡ true) first.out rest.out
          (drain_event-AllAllowed e td global link)
          (drain_batch-AllAllowed es first.td first.global_typing_time (
            links-SameIdentity td first.td (drain_event-SameIdentity dev typing ctx e td global)
              link))

  pub repeat_device-AllAllowed :
      (now : ℕ) (ctx : Ptr) (td : TrackedDevice fl)
      → links dev td ≡ true
      → AllAllowed dev (repeat_device now ctx td).1
  unfolding repeat_device
  repeat_device-AllAllowed now ctx td link =
      if_split (λ (r : TrackedDevice fl × List (LibinputEvent fl)). AllAllowed dev r.1)
        td.is_keyboard
        (λ h.
          kind_allowed is_keyboard _ (λ t k. ground arith)
            (repeat_keys-AllOf fl now td.lib_device ctx td.held_keys))
        (λ _. tt)
