-- ===== src/Backend/Batch/Typing.antt =====
-- Disable-while-typing: what a touchpad may still say within 500 ms of a key press.
use libinput_rs.Common.{ℕ, ◌+◌, ◌<◌, ◌≡◌, Bool, true, false, arith, All}
use libinput_rs.Common.Int.{ℤ}
use libinput_rs.Evdev.{Readings, millis, btn_touch}
use libinput_rs.Floats.{Floats}
use libinput_rs.Ffi.{Ptr, LibinputEvent, EventPayload}
use libinput_rs.Backend.Tracked.{TrackedDevice}
use libinput_rs.Backend.Touchpad.{Settings, absolute_key}
use libinput_rs.Backend.Touchpad.Touch.{touch_down, touch_up, is_tap}
use libinput_rs.Backend.Batch.{Timed}

-- What typing does not silence: buttons, and that a pinch begins or ends.
abbrev pub passes_typing : {fl : Floats} → EventPayload fl → Bool
passes_typing (EventPayload.pointer_button _) = true
passes_typing (EventPayload.gesture_pinch_begin _) = true
passes_typing (EventPayload.gesture_pinch_end _) = true
passes_typing _ = false

abbrev is_button : {fl : Floats} → EventPayload fl → Bool
is_button (EventPayload.pointer_button _) = true
is_button _ = false

abbrev pub Passes : {fl : Floats} → LibinputEvent fl → Type 0
Passes e = passes_typing e.payload ≡ true

-- The event is looked at less than 500 ms after `t`.
abbrev pub IsWithin : ℕ → Timed → Type 0
IsWithin t e = e.0 0 < t + millis 500

-- Nor is lifting the finger a tap then: no button event comes of `BTN_TOUCH`.
pub no_tap_while_typing :
    {fl : Floats} (ts : ℕ) (lib_dev ctx : Ptr) (now : Readings) (td : TrackedDevice fl)
    (cfg : Settings fl) (value : ℤ)
    → All
        (λ e. is_button e.payload ≡ false)
        (absolute_key now cfg true btn_touch value ts lib_dev ctx td).1
unfolding absolute_key touch_down touch_up is_tap
no_tap_while_typing ts lib_dev ctx now td cfg value = ground arith
