-- ===== src/Backend/Keyboard/Repeats.antt =====
-- The timing of the repeats that the library makes itself.
use libinput_rs.Common.{
  ℕ, ◌+◌, ◌≤◌, ◌≡◌, refl, ap, true, List, [], ◌∷◌, ◌++◌, map, retain, Bool-cases, inl, inr,
  if◌then◌else◌,
}
use libinput_rs.Evdev.{millis}
use libinput_rs.Floats.{Floats}
use libinput_rs.Ffi.{Ptr, LibinputEvent}
use libinput_rs.Backend.Tracked.{HeldKey}
use libinput_rs.Backend.Keyboard.{repeat_keys, is_due, key_event}

-- What one poll does to a held key.
abbrev pub polled : ℕ → HeldKey → HeldKey
polled now hk = if is_due now hk then (record hk { last_fire = now; initial_fired = true }) else hk

abbrev pub repeat_event : {fl : Floats} → Ptr → Ptr → HeldKey → LibinputEvent fl
repeat_event ctx lib_dev hk = key_event hk.ts_usec hk.code 2 ctx lib_dev

-- One poll repeats exactly the held keys that are due, in the order of their presses, and restarts
-- the wait of those alone.
pub repeat_keys_lem :
    (fl : Floats) (now : ℕ) (lib_dev ctx : Ptr) (keys : List HeldKey)
    → (repeat_keys {fl = fl} now lib_dev ctx keys).0 ≡ map (polled now) keys
      × (repeat_keys {fl = fl} now lib_dev ctx keys).1
        ≡ map (repeat_event ctx lib_dev) (retain (is_due now) keys)
unfolding repeat_keys retain
repeat_keys_lem fl now lib_dev ctx [] = (refl, refl)
repeat_keys_lem fl now lib_dev ctx (hk ∷ keys) =
    let (kept, out) = repeat_keys_lem fl now lib_dev ctx keys in
    elim (Bool-cases (is_due now hk)) [
      | inl due ↦
          rw (due, repeat_keys, retain)
            (
              ap (λ r. record hk { last_fire = now; initial_fired = true } ∷ r) kept,
              ap (λ r. repeat_event ctx lib_dev hk ∷ r) out,
            )
      | inr early ↦ rw (early, repeat_keys, retain) (ap (λ r. hk ∷ r) kept, out)
    ]

-- The times at which a keyboard that is polled at each of the given times makes its repeats.
abbrev pub repeat_times : Floats → Ptr → Ptr → List ℕ → List HeldKey → List ℕ
repeat_times fl lib_dev ctx [] keys = []
repeat_times fl lib_dev ctx (now ∷ times) keys =
    let (keys', out) = repeat_keys {fl = fl} now lib_dev ctx keys in
    map (λ _. now) out ++ repeat_times fl lib_dev ctx times keys'

-- None before `from`, and each at least 25 ms after the one before it.
abbrev pub Spaced : ℕ → List ℕ → Type 0
Spaced from [] = Unit
Spaced from (t ∷ times) = (from ≤ t) × Spaced (t + millis 25) times

-- The first time at which a held key may be repeated.
earliest : HeldKey → ℕ
earliest hk = hk.last_fire + (if hk.initial_fired then millis 25 else millis 200)
