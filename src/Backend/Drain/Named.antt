-- ===== src/Backend/Drain/Named.antt =====
-- Events that name a device object which is on the heap.
use libinput_rs.Common.{
  ℕ, ◌==◌, ◌≡◌, ◌∙◌, sym, ap, true, Bool-cases, inl, inr, none, some, List, [], ◌∷◌, arith, All,
  All-append, All-map_of,
}
use libinput_rs.Floats.{Floats}
use libinput_rs.Ffi.{Ptr, LibinputEvent}
use libinput_rs.Ffi.Device.{LibinputDevice}
use libinput_rs.Backend.Tracked.{TrackedDevice}
use libinput_rs.Backend.Keyboard.{repeat_device, emit_key_repeats}
use libinput_rs.Backend.Batch.Consistent.{IsFrom, AllFrom, repeat_device-AllFrom}
use libinput_rs.Backend.World.{contains_key, lookup}
use libinput_rs.Backend.Drain.Follows.{Tracks, IsLive}

module _ {fl : Floats} where
  abbrev pub IsNamed : List (Ptr × LibinputDevice fl) → LibinputEvent fl → Type 0
  IsNamed heap e = contains_key e.device heap ≡ true

  abbrev pub Names : List (Ptr × LibinputDevice fl) → List (LibinputEvent fl) → Type 0
  Names heap es = All (IsNamed heap) es

  pub AllFrom-Names :
      (heap : List (Ptr × LibinputDevice fl)) (ctx lib_dev : Ptr) (es : List (LibinputEvent fl))
      → contains_key lib_dev heap ≡ true
      → AllFrom ctx lib_dev es
      → Names heap es
  AllFrom-Names heap ctx lib_dev es live h =
      All-map_of (IsFrom ctx lib_dev) (IsNamed heap)
        (λ e f. ap (λ p. contains_key p heap) f.2 ∙ live) es h

  pub emit_key_repeats-Names :
      (heap : List (Ptr × LibinputDevice fl)) (now : ℕ) (ctx : Ptr) (l : Tracks fl)
      → IsLive heap l
      → Names heap (emit_key_repeats now ctx l).1
  unfolding emit_key_repeats
  emit_key_repeats-Names heap now ctx [] h = tt
  emit_key_repeats-Names heap now ctx ((fd, td) ∷ l) (h, hs) =
      All-append (IsNamed heap) (repeat_device now ctx td).1 (emit_key_repeats now ctx l).1
        (AllFrom-Names heap ctx td.lib_device (repeat_device now ctx td).1 h
          (repeat_device-AllFrom now ctx td))
        (emit_key_repeats-Names heap now ctx l hs)

  pub IsLive-lookup :
      (heap : List (Ptr × LibinputDevice fl)) (fd : ℕ) (td : TrackedDevice fl) (l : Tracks fl)
      → IsLive heap l
      → lookup fd l ≡ some td
      → contains_key td.lib_device heap ≡ true
  unfolding lookup
  IsLive-lookup heap fd td [] h found = cc
  IsLive-lookup heap fd td ((j, t) ∷ l) (h, hs) found = elim (Bool-cases (j == fd)) [
    | inl e ↦
        (let here : some t ≡ some td = ground arith in
          let same : t.lib_device ≡ td.lib_device =
            ap (λ o. elim o [ none ↦ t.lib_device | some x ↦ x.lib_device ]) here in
          ap (λ p. contains_key p heap) (sym same) ∙ h)
    | inr e ↦ IsLive-lookup heap fd td l hs (ground arith)
  ]
