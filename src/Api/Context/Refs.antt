-- ===== src/Api/Context/Refs.antt =====
-- The reference count of a context.
use libinput_rs.Common.{ℕ, zero, suc, ◌+◌, ◌<◌, ◌≡◌, refl, ap, ◌∙◌, Option, none, some, arith}
use libinput_rs.Common.Int.{pos, ◌+ℤ◌, ◌-ℤ◌}
use libinput_rs.Common.Word.{i32_add, i32_sub, i32_as_u32, u32_as_i32}
use libinput_rs.Floats.{Floats}
use libinput_rs.Api.Context.{LibinputContext, libinput_ref, libinput_unref}

pub i32_add_one : (n : ℕ) → suc n < 0x8000_0000 → i32_add (pos n) (pos 1) ≡ pos (suc n)
unfolding i32_add i32_as_u32 u32_as_i32 ◌+ℤ◌
i32_add_one n h = ground arith

pub i32_sub_one : (n : ℕ) → suc n < 0x8000_0000 → i32_sub (pos (suc n)) (pos 1) ≡ pos n
unfolding i32_sub i32_as_u32 u32_as_i32 ◌-ℤ◌
i32_sub_one n h = ground arith

module _ {fl : Floats} where
  abbrev pub ref_times : ℕ → Option (LibinputContext fl) → Option (LibinputContext fl)
  ref_times zero c = c
  ref_times (suc k) c = ref_times k (libinput_ref c)

  abbrev pub unref_times : ℕ → Option (LibinputContext fl) → Option (LibinputContext fl)
  unref_times zero c = c
  unref_times (suc k) c = unref_times k (libinput_unref c)

  pub ref-refcount :
      (c : LibinputContext fl) (n : ℕ)
      → c.refcount ≡ pos n
      → suc n < 0x8000_0000
      → libinput_ref (some c) ≡ some (record c { refcount = pos (suc n) })
  unfolding libinput_ref
  ref-refcount c n e h = cc (e, i32_add_one n h)

  pub unref-refcount :
      (c : LibinputContext fl) (n : ℕ)
      → c.refcount ≡ pos (suc (suc n))
      → suc (suc n) < 0x8000_0000
      → libinput_unref (some c) ≡ some (record c { refcount = pos (suc n) })
  unfolding libinput_unref
  unref-refcount c n e h =
      let less : i32_sub c.refcount (pos 1) ≡ pos (suc n) =
        ap (λ z. i32_sub z (pos 1)) e ∙ i32_sub_one (suc n) h in
      ground arith

  pub unref_last : (c : LibinputContext fl) → c.refcount ≡ pos 1 → libinput_unref (some c) ≡ none
  unfolding libinput_unref
  unref_last c e =
      let less : i32_sub c.refcount (pos 1) ≡ pos 0 =
        (let small : 1 < 0x8000_0000 = omega arith in
          ap (λ z. i32_sub z (pos 1)) e ∙ i32_sub_one 0 small) in
      ground arith

  ref_times_lem :
      (k n : ℕ) (c : LibinputContext fl)
      → c.refcount ≡ pos (suc n)
      → suc n + k < 0x8000_0000
      → ref_times k (some c) ≡ some (record c { refcount = pos (suc (n + k)) })
  ref_times_lem zero n c e h = let same : n + 0 ≡ n = omega arith in cc (e, same)
  ref_times_lem (suc k) n c e h =
      let c' : LibinputContext fl = record c { refcount = pos (suc (suc n)) } in
      let here : suc (suc n) < 0x8000_0000 = omega arith in
      let below : suc (suc n) + k < 0x8000_0000 = omega arith in
      let count : suc n + k ≡ n + suc k = omega arith in
      ap (ref_times k) (ref-refcount c (suc n) e here)
      ∙ ref_times_lem k (suc n) c' refl below
      ∙ ap (λ m. some (record c { refcount = pos (suc m) })) count

  unref_times_lem :
      (m : ℕ) (c : LibinputContext fl)
      → c.refcount ≡ pos (suc m)
      → suc m < 0x8000_0000
      → unref_times m (some c) ≡ some (record c { refcount = pos 1 })
  unref_times_lem zero c e h = cc e
  unref_times_lem (suc m) c e h =
      let c' : LibinputContext fl = record c { refcount = pos (suc m) } in
      let below : suc m < 0x8000_0000 = omega arith in
      ap (unref_times m) (unref-refcount c m e h) ∙ unref_times_lem m c' refl below

  -- Where a context with `n + 1` references is referenced `k` times more and the count stays within
  -- an `i32`, one reference is left after `n + k` releases, and the next release frees the context.
  pub unref-ref_times :
      (c : LibinputContext fl) (n k : ℕ)
      → c.refcount ≡ pos (suc n)
      → suc n + k < 0x8000_0000
      → (unref_times (n + k) (ref_times k (some c)) ≡ some (record c { refcount = pos 1 }))
        × (libinput_unref (unref_times (n + k) (ref_times k (some c))) ≡ none)
  unref-ref_times c n k e h =
      let c' : LibinputContext fl = record c { refcount = pos (suc (n + k)) } in
      let below : suc (n + k) < 0x8000_0000 = omega arith in
      let one =
        ap (unref_times (n + k)) (ref_times_lem k n c e h)
        ∙ unref_times_lem (n + k) c' refl below in
      (one, ap libinput_unref one ∙ unref_last (record c { refcount = pos 1 }) refl)
