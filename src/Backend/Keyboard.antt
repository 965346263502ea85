-- ===== src/Backend/Keyboard.antt =====
-- src/backend.rs, `process_keyboard_event` and `emit_key_repeats`: key events, the list of held
-- keys, and the repeats that the library makes itself.
pub mod Repeats
use libinput_rs.Common.{
  ℕ, ◌-◌, ◌==◌, Bool, true, false, not, Option, some, List, [], ◌∷◌, ◌++◌, leb, retain,
  if◌then◌else◌,
}
use libinput_rs.Common.Int.{is_zero, is_one}
use libinput_rs.Evdev.{InputEvent, EventType, key, Readings, millis}
use libinput_rs.Floats.{Floats}
use libinput_rs.Ffi.{Ptr, LibinputEvent, LibinputEventType, EventPayload}
use libinput_rs.Backend.Tracked.{TrackedDevice, HeldKey}

abbrev pub repeat_delay_ms : ℕ
repeat_delay_ms = 200

abbrev pub repeat_interval_ms : ℕ
repeat_interval_ms = 25

-- The `KEYBOARD_KEY` event that both functions push. States: 0 released, 1 pressed, 2 repeat.
abbrev pub key_event : {fl : Floats} → ℕ → ℕ → ℕ → Ptr → Ptr → LibinputEvent fl
key_event ts_usec code state ctx lib_dev = record {
  event_type = LibinputEventType.keyboard_key;
  payload = EventPayload.keyboard_key (record { time_usec = ts_usec; key = code; state = state });
  context = ctx;
  device = lib_dev;
}

-- The entry that a press adds to the held keys.
abbrev pub new_key : ℕ → ℕ → ℕ → HeldKey
new_key code ts_usec now = record {
  code = code;
  ts_usec = ts_usec;
  last_fire = now;
  initial_fired = false;
}

abbrev is_key : EventType → Bool
is_key key = true
is_key _ = false

-- What the handler leaves behind: the device, `global_typing_time`, and the events that it pushed.
pub record KeyboardStep (fl : Floats) : Type 0 where
  pub td : TrackedDevice fl
  pub global_typing_time : Option ℕ
  pub out : List (LibinputEvent fl)

-- A kernel repeat (value 2) changes nothing. The `match` on modifiers has empty arms.
unfoldable pub process_keyboard_event :
    {fl : Floats}
    → Readings
    → InputEvent
    → ℕ
    → Ptr
    → Ptr
    → TrackedDevice fl
    → Option ℕ
    → KeyboardStep fl
process_keyboard_event now ev ts_usec lib_dev ctx td typing =
    if is_key ev.event_type
    then (if is_one ev.value
        then (record {
          td = record td {
            last_typing_time = some (now 1);
            held_keys =
                td.held_keys
                ++ record {
                  code = ev.code;
                  ts_usec = ts_usec;
                  last_fire = now 2;
                  initial_fired = false;
                }
                  ∷ [];
          };
          global_typing_time = some (now 0);
          out = key_event ts_usec ev.code 1 ctx lib_dev ∷ [];
        })
        else (if is_zero ev.value
            then (record {
              td = record td { held_keys = retain (λ k. not (k.code == ev.code)) td.held_keys };
              global_typing_time = typing;
              out = key_event ts_usec ev.code 0 ctx lib_dev ∷ [];
            })
            else (record { td = td; global_typing_time = typing; out = [] })))
    else (record { td = td; global_typing_time = typing; out = [] })

-- How long a held key must wait for its next repeat.
unfoldable pub repeat_after : HeldKey → ℕ
repeat_after hk = millis (if hk.initial_fired then repeat_interval_ms else repeat_delay_ms)

unfoldable pub is_due : ℕ → HeldKey → Bool
unfolding repeat_after
is_due now hk = leb (repeat_after hk) (now - hk.last_fire)

-- The loop over the held keys of one keyboard.
unfoldable pub repeat_keys :
    {fl : Floats} → ℕ → Ptr → Ptr → List HeldKey → List HeldKey × List (LibinputEvent fl)
repeat_keys now lib_dev ctx [] = ([], [])
repeat_keys now lib_dev ctx (hk ∷ hks) =
    let (hks', out) = repeat_keys now lib_dev ctx hks in
    if is_due now hk
    then (
      record hk { last_fire = now; initial_fired = true } ∷ hks',
      key_event hk.ts_usec hk.code 2 ctx lib_dev ∷ out,
    )
    else (hk ∷ hks', out)

-- One round of the loop of `emit_key_repeats` over the devices.
unfoldable pub repeat_device :
    {fl : Floats} → ℕ → Ptr → TrackedDevice fl → TrackedDevice fl × List (LibinputEvent fl)
repeat_device now ctx td =
    if td.is_keyboard
    then (let (keys, out) = repeat_keys now td.lib_device ctx td.held_keys in
        (record td { held_keys = keys }, out))
    else (td, [])

unfoldable pub emit_key_repeats :
    {fl : Floats}
    → ℕ
    → Ptr
    → List (ℕ × TrackedDevice fl)
    → List (ℕ × TrackedDevice fl) × List (LibinputEvent fl)
unfolding repeat_device
emit_key_repeats now ctx [] = ([], [])
emit_key_repeats now ctx ((fd, td) ∷ devices) =
    let (td', out) = repeat_device now ctx td in
    let (devices', rest) = emit_key_repeats now ctx devices in ((fd, td') ∷ devices', out ++ rest)
