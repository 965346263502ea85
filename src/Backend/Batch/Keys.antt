-- ===== src/Backend/Batch/Keys.antt =====
-- A released key stays quiet: the repeats stop with the release.
use libinput_rs.Common.{
  ℕ, ◌≡◌, ◌∙◌, Bool, true, false, not, ◌&&◌, Option, List, [], ◌∷◌, arith, ◌==◌, retain, All,
  All-append, if_both, if_split,
}
use libinput_rs.Common.Int.{ℤ, pos, is_zero, is_one}
use libinput_rs.Evdev.{InputEvent, key, Readings, systime_to_usec}
use libinput_rs.Floats.{Floats}
use libinput_rs.Ffi.{Ptr, LibinputEvent, EventPayload}
use libinput_rs.Ffi.Device.{LibinputDevice}
use libinput_rs.Backend.Tracked.{TrackedDevice, HeldKey}
use libinput_rs.Backend.Keyboard.{
  KeyboardStep, process_keyboard_event, repeat_keys, repeat_device, new_key,
}
use libinput_rs.Backend.Batch.{Timed, drain_event, drain_batch}
use libinput_rs.Backend.Batch.Cases.{drain_batch_keeps_if}
use libinput_rs.Backend.Batch.Identity.{drain_event-SameIdentity}

-- No held key has the code.
abbrev pub Absent : ℕ → List HeldKey → Type 0
Absent c keys = All (λ k. (k.code == c) ≡ false) keys

retain-Absent : (c : ℕ) (keys : List HeldKey) → Absent c (retain (λ k. not (k.code == c)) keys)
unfolding retain
retain-Absent c [] = tt
retain-Absent c (k ∷ keys) = ground (arith, retain-Absent c keys)

All-retain_any :
    (c d : ℕ) (keys : List HeldKey)
    → Absent c keys
    → Absent c (retain (λ k. not (k.code == d)) keys)
unfolding retain
All-retain_any c d [] h = tt
All-retain_any c d (k ∷ keys) h = ground (arith, All-retain_any c d keys h.1)

-- The event does not press the key with the code.
abbrev pub NoPress : ℕ → Timed → Type 0
NoPress c e = (is_one e.1.value && e.1.code == c) ≡ false

-- Not a keyboard event about the key.
abbrev pub is_about : {fl : Floats} → ℕ → EventPayload fl → Bool
is_about c (EventPayload.keyboard_key k) = k.key == c
is_about c _ = false

abbrev pub Quiet : {fl : Floats} → ℕ → LibinputEvent fl → Type 0
Quiet c e = is_about c e.payload ≡ false

repeat_keys-Quiet :
    (fl : Floats) (c now : ℕ) (lib_dev ctx : Ptr) (keys : List HeldKey)
    → Absent c keys
    → All (Quiet c) (repeat_keys {fl = fl} now lib_dev ctx keys).1
unfolding repeat_keys
repeat_keys-Quiet fl c now lib_dev ctx [] h = tt
repeat_keys-Quiet fl c now lib_dev ctx (hk ∷ keys) h =
    ground (arith, repeat_keys-Quiet fl c now lib_dev ctx keys h.1)

repeat_device-Quiet :
    {fl : Floats} (c now : ℕ) (ctx : Ptr) (td : TrackedDevice fl)
    → Absent c td.held_keys
    → All (Quiet c) (repeat_device now ctx td).1
unfolding repeat_device
repeat_device-Quiet {fl} c now ctx td h =
    ground (arith, repeat_keys-Quiet fl c now td.lib_device ctx td.held_keys h)

keyboard-Absent :
    {fl : Floats} (c : ℕ) (now : Readings) (ev : InputEvent) (ts : ℕ) (lib_dev ctx : Ptr)
    (td : TrackedDevice fl) (global : Option ℕ)
    → NoPress c (now, ev)
    → Absent c td.held_keys
    → Absent c (process_keyboard_event now ev ts lib_dev ctx td global).td.held_keys
unfolding process_keyboard_event
keyboard-Absent {fl} c now ev ts lib_dev ctx td global quiet h =
    if_both P _
      (if_split P (is_one ev.value)
        (λ one.
          All-append (λ (k : HeldKey). (k.code == c) ≡ false) td.held_keys
            (new_key ev.code ts (now 2) ∷ []) h (ground arith, tt))
        (λ _. if_both P (is_zero ev.value) (All-retain_any c ev.code td.held_keys h) h))
      h
  where
    P : KeyboardStep fl → Type 0
    P after = Absent c after.td.held_keys

-- The device is handled as a keyboard.
abbrev pub IsPlainKeyboard : {fl : Floats} → TrackedDevice fl → Type 0
IsPlainKeyboard td = (td.is_keyboard ≡ true) × (td.is_absolute ≡ false)

drain_event_keyboard :
    {fl : Floats} (dev : LibinputDevice fl) (typing : Option ℕ) (ctx : Ptr) (e : Timed)
    (td : TrackedDevice fl) (global : Option ℕ)
    → IsPlainKeyboard td
    → drain_event dev typing ctx e td global
      ≡ process_keyboard_event e.0 e.1 (systime_to_usec e.1.timestamp) td.lib_device ctx td global
unfolding drain_event
drain_event_keyboard dev typing ctx e td global (kbd, flat) = rw (kbd, flat)

-- The release of a key, as the kernel reports it.
abbrev pub key_release : ℤ → ℕ → InputEvent
key_release timestamp c = record {
  timestamp = timestamp;
  event_type = key;
  code = c;
  value = pos 0;
}

release-Absent :
    {fl : Floats} (c : ℕ) (now : Readings) (stamp : ℤ) (ts : ℕ) (lib_dev ctx : Ptr)
    (td : TrackedDevice fl) (global : Option ℕ)
    → Absent c
        (process_keyboard_event now (key_release stamp c) ts lib_dev ctx td global).td.held_keys
unfolding process_keyboard_event
release-Absent c now stamp ts lib_dev ctx td global = retain-Absent c td.held_keys

module _ {fl : Floats} (dev : LibinputDevice fl) (typing : Option ℕ) (ctx : Ptr) (c : ℕ) where
  QuietKeyboard : TrackedDevice fl → Type 0
  QuietKeyboard td = Absent c td.held_keys × IsPlainKeyboard td

  drain_event-QuietKeyboard :
      (e : Timed) (td : TrackedDevice fl) (global : Option ℕ)
      → NoPress c e
      → QuietKeyboard td
      → QuietKeyboard (drain_event dev typing ctx e td global).td
  unfolding QuietKeyboard
  drain_event-QuietKeyboard e td global quiet (h, plain) =
      let same = drain_event-SameIdentity dev typing ctx e td global in
      (
        rw (drain_event_keyboard dev typing ctx e td global plain)
            (keyboard-Absent c e.0 e.1 _ td.lib_device ctx td global quiet h),
        (same.is_keyboard ∙ plain.0, same.is_absolute ∙ plain.1),
      )

  -- On a keyboard, release a key, and let any events follow that do not press it again: whenever
  -- the keyboard is then polled for repeats, none of the events is about that key.
  pub release-Quiet :
      (now : Readings) (stamp : ℤ) (es : List Timed) (td : TrackedDevice fl) (global : Option ℕ)
      (later : ℕ)
      → IsPlainKeyboard td
      → All (NoPress c) es
      → let released = drain_event dev typing ctx (now, key_release stamp c) td global in
        let after = drain_batch dev typing ctx es released.td released.global_typing_time in
        All (Quiet c) (repeat_device later ctx after.td).1
  unfolding QuietKeyboard
  release-Quiet now stamp es td global later plain quiet =
      let e : Timed = (now, key_release stamp c) in
      let released = drain_event dev typing ctx e td global in
      let same = drain_event-SameIdentity dev typing ctx e td global in
      repeat_device-Quiet c later ctx _
        (drain_batch_keeps_if dev typing ctx QuietKeyboard (NoPress c) drain_event-QuietKeyboard es
          released.td released.global_typing_time quiet
          (
            rw (drain_event_keyboard dev typing ctx e td global plain)
                (release-Absent c now stamp _ td.lib_device ctx td global),
            (same.is_keyboard ∙ plain.0, same.is_absolute ∙ plain.1),
          )).0
