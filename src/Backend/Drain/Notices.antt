-- ===== src/Backend/Drain/Notices.antt =====
-- The notifications in a list of events: how many say that a device was added or removed.
use libinput_rs.Common.{
  ℕ, ◌+◌, ◌==◌, ◌&&◌, ◌++◌, ◌≡◌, refl, Bool, true, false, List, [], ◌∷◌, arith, bool_to_nat,
}
use libinput_rs.Floats.{Floats}
use libinput_rs.Ffi.{Ptr, LibinputEvent, EventPayload}
use libinput_rs.Backend.Tracked.{TrackedDevice}
use libinput_rs.Backend.Keyboard.{repeat_device, emit_key_repeats}
use libinput_rs.Backend.Batch.Consistent.{AllFrom, notifies, repeat_device-AllFrom}

module _ {fl : Floats} where
  abbrev is_added : EventPayload fl → Bool
  is_added EventPayload.device_added = true
  is_added _ = false

  abbrev is_removed : EventPayload fl → Bool
  is_removed EventPayload.device_removed = true
  is_removed _ = false

  -- How many of the events say that the device was added, or removed.
  abbrev pub added : Ptr → List (LibinputEvent fl) → ℕ
  added p [] = 0
  added p (e ∷ es) = bool_to_nat (is_added e.payload && (e.device == p)) + added p es

  abbrev pub removed : Ptr → List (LibinputEvent fl) → ℕ
  removed p [] = 0
  removed p (e ∷ es) = bool_to_nat (is_removed e.payload && (e.device == p)) + removed p es

  pub added-append :
      (p : Ptr) (xs ys : List (LibinputEvent fl)) → added p (xs ++ ys) ≡ added p xs + added p ys
  added-append p [] ys = omega arith
  added-append p (e ∷ xs) ys = grind (arith, added-append p xs ys)

  pub removed-append :
      (p : Ptr) (xs ys : List (LibinputEvent fl))
      → removed p (xs ++ ys) ≡ removed p xs + removed p ys
  removed-append p [] ys = omega arith
  removed-append p (e ∷ xs) ys = grind (arith, removed-append p xs ys)

  -- No notifications of any device.
  abbrev pub IsQuiet : List (LibinputEvent fl) → Type 0
  IsQuiet es = (p : Ptr) → (added p es ≡ 0) × (removed p es ≡ 0)

  payload_quiet :
      (x : EventPayload fl) → notifies x ≡ false → (is_added x ≡ false) × (is_removed x ≡ false)
  payload_quiet EventPayload.device_added h = cc
  payload_quiet EventPayload.device_removed h = cc
  payload_quiet x h = ground arith

  pub AllFrom-IsQuiet :
      (ctx lib_dev : Ptr) (es : List (LibinputEvent fl)) → AllFrom ctx lib_dev es → IsQuiet es
  AllFrom-IsQuiet ctx lib_dev [] h p = (refl, refl)
  AllFrom-IsQuiet ctx lib_dev (e ∷ es) ((_, _, _, h), hs) p =
      let (a, r) = payload_quiet e.payload h in
      let (a', r') = AllFrom-IsQuiet ctx lib_dev es hs p in ground arith

  pub IsQuiet-append :
      (xs ys : List (LibinputEvent fl)) → IsQuiet xs → IsQuiet ys → IsQuiet (xs ++ ys)
  IsQuiet-append xs ys q r p =
      let (a, b) = q p in
      let (c, d) = r p in
      (grind (arith, added-append p xs ys), grind (arith, removed-append p xs ys))

  pub emit_key_repeats-IsQuiet :
      (now : ℕ) (ctx : Ptr) (l : List (ℕ × TrackedDevice fl))
      → IsQuiet (emit_key_repeats now ctx l).1
  unfolding emit_key_repeats
  emit_key_repeats-IsQuiet now ctx [] = λ p. (refl, refl)
  emit_key_repeats-IsQuiet now ctx ((fd, td) ∷ l) =
      let (td', out) = repeat_device now ctx td in
      IsQuiet-append (repeat_device now ctx td).1 (emit_key_repeats now ctx l).1
        (AllFrom-IsQuiet ctx td.lib_device (repeat_device now ctx td).1
          (repeat_device-AllFrom now ctx td))
        (emit_key_repeats-IsQuiet now ctx l)
