-- ===== src/Common/Word.antt =====
-- Machine words. A `u16`, `u32` or `u64` is a natural number and an `i32` an integer; what the
-- source computes wraps, as in a release build of Rust.
use libinput_rs.Common.{ℕ, ◌+◌, ◌-◌, ◌%◌, ◌≤◌, ◌<◌, ◌≡◌, sym, ap, ◌∙◌, arith, ltb, if◌then◌else◌}
use libinput_rs.Common.Int.{
  ℤ, pos, negsuc, pos_part, neg_part, ◌+ℤ◌, ◌-ℤ◌, neg_ℤ, +ℤ_parts, -ℤ_parts,
}

-- `n as u32` and `n as u64`.
abbrev pub u32 : ℕ → ℕ
u32 n = n % 0x1_0000_0000

abbrev pub u64 : ℕ → ℕ
u64 n = n % 0x1_0000_0000_0000_0000

-- `z as u32` of a signed value: its two's complement bits.
unfoldable pub i32_as_u32 : ℤ → ℕ
i32_as_u32 (pos n) = n % 0x1_0000_0000
i32_as_u32 (negsuc n) = 0xffff_ffff - n % 0x1_0000_0000

-- `z as usize` of a signed value, on a 64-bit machine.
unfoldable pub i32_as_usize : ℤ → ℕ
i32_as_usize (pos n) = n
i32_as_usize (negsuc n) = 0xffff_ffff_ffff_ffff - n

-- The `i32` that 32 bits stand for.
unfoldable pub u32_as_i32 : ℕ → ℤ
u32_as_i32 w = if ltb w 0x8000_0000 then pos w else negsuc (0xffff_ffff - w)

-- `a + b`, `a - b` and `-a` on `i32`.
unfoldable pub i32_add : ℤ → ℤ → ℤ
i32_add a b = u32_as_i32 (i32_as_u32 (a +ℤ b))

unfoldable pub i32_sub : ℤ → ℤ → ℤ
i32_sub a b = u32_as_i32 (i32_as_u32 (a -ℤ b))

unfoldable pub i32_neg : ℤ → ℤ
i32_neg a = u32_as_i32 (i32_as_u32 (neg_ℤ a))

abbrev pub IsI32 : ℤ → Type 0
IsI32 z = (pos_part z < 0x8000_0000) × (neg_part z ≤ 0x8000_0000)

i32_as_u32-lt : (a : ℤ) → i32_as_u32 a < 0x1_0000_0000
unfolding i32_as_u32
i32_as_u32-lt (pos n) = omega arith
i32_as_u32-lt (negsuc n) = omega arith

pub u32_as_i32-IsI32 : (w : ℕ) → w < 0x1_0000_0000 → IsI32 (u32_as_i32 w)
unfolding u32_as_i32
u32_as_i32-IsI32 w h = ground arith

pub i32_add-IsI32 : (a b : ℤ) → IsI32 (i32_add a b)
unfolding i32_add
i32_add-IsI32 a b = u32_as_i32-IsI32 _ (i32_as_u32-lt (a +ℤ b))

i32_as_u32-u32_as_i32 : (w : ℕ) → w < 0x1_0000_0000 → i32_as_u32 (u32_as_i32 w) ≡ w
unfolding i32_as_u32 u32_as_i32
i32_as_u32-u32_as_i32 w h = ground arith

pub u32_as_i32-i32_as_u32 : (a : ℤ) → IsI32 a → u32_as_i32 (i32_as_u32 a) ≡ a
unfolding i32_as_u32 u32_as_i32
u32_as_i32-i32_as_u32 (pos n) h = ground arith
u32_as_i32-i32_as_u32 (negsuc n) h = ground arith

-- The bits of an integer, as an equation that `omega` reads.
i32_as_u32_parts :
    (a : ℤ) → (i32_as_u32 a + neg_part a) % 0x1_0000_0000 ≡ pos_part a % 0x1_0000_0000
unfolding i32_as_u32
i32_as_u32_parts (pos n) = omega arith
i32_as_u32_parts (negsuc n) = omega arith

i32_as_u32-add : (a b : ℤ) → i32_as_u32 (a +ℤ b) ≡ (i32_as_u32 a + i32_as_u32 b) % 0x1_0000_0000
i32_as_u32-add a b = omega (
  arith,
  +ℤ_parts a b,
  i32_as_u32_parts a,
  i32_as_u32_parts b,
  i32_as_u32_parts (a +ℤ b),
  i32_as_u32-lt (a +ℤ b),
)

i32_as_u32-sub :
    (a b : ℤ)
    → i32_as_u32 (a -ℤ b) ≡ (i32_as_u32 a + (0x1_0000_0000 - i32_as_u32 b)) % 0x1_0000_0000
i32_as_u32-sub a b = omega (
  arith,
  -ℤ_parts a b,
  i32_as_u32_parts a,
  i32_as_u32_parts b,
  i32_as_u32_parts (a -ℤ b),
  i32_as_u32-lt (a -ℤ b),
  i32_as_u32-lt b,
)

pub i32_as_u32-i32_add :
    (a b : ℤ) → i32_as_u32 (i32_add a b) ≡ (i32_as_u32 a + i32_as_u32 b) % 0x1_0000_0000
unfolding i32_add
i32_as_u32-i32_add a b = i32_as_u32-u32_as_i32 _ (i32_as_u32-lt (a +ℤ b)) ∙ i32_as_u32-add a b

pub i32_as_u32-i32_sub :
    (a b : ℤ)
    → i32_as_u32 (i32_sub a b) ≡ (i32_as_u32 a + (0x1_0000_0000 - i32_as_u32 b)) % 0x1_0000_0000
unfolding i32_sub
i32_as_u32-i32_sub a b = i32_as_u32-u32_as_i32 _ (i32_as_u32-lt (a -ℤ b)) ∙ i32_as_u32-sub a b

-- Two `i32` with the same bits are equal.
i32_add-eq_of_bits :
    (a b c e : ℤ) → i32_as_u32 (i32_add a b) ≡ i32_as_u32 (i32_add c e) → i32_add a b ≡ i32_add c e
i32_add-eq_of_bits a b c e h =
    sym (u32_as_i32-i32_as_u32 _ (i32_add-IsI32 a b))
    ∙ ap u32_as_i32 h
    ∙ u32_as_i32-i32_as_u32 _ (i32_add-IsI32 c e)

-- Steps add up: going from `p` to `v` and on to `w` is going from `p` to `w`.
pub i32_add-sub_trans :
    (d p v w : ℤ) → i32_add (i32_add d (i32_sub v p)) (i32_sub w v) ≡ i32_add d (i32_sub w p)
i32_add-sub_trans d p v w = i32_add-eq_of_bits _ _ _ _ (
    omega (
      arith,
      i32_as_u32-i32_add (i32_add d (i32_sub v p)) (i32_sub w v),
      i32_as_u32-i32_add d (i32_sub v p),
      i32_as_u32-i32_add d (i32_sub w p),
      i32_as_u32-i32_sub v p,
      i32_as_u32-i32_sub w v,
      i32_as_u32-i32_sub w p,
      i32_as_u32-lt v,
      i32_as_u32-lt p,
      i32_as_u32-lt w,
      i32_as_u32-lt d,
    ))

-- Standing still adds nothing.
pub i32_add-sub_self : (d p : ℤ) → IsI32 d → i32_add d (i32_sub p p) ≡ d
i32_add-sub_self d p h =
    sym (u32_as_i32-i32_as_u32 _ (i32_add-IsI32 d (i32_sub p p)))
    ∙ ap u32_as_i32 (
        omega (
          arith,
          i32_as_u32-i32_add d (i32_sub p p),
          i32_as_u32-i32_sub p p,
          i32_as_u32-lt p,
          i32_as_u32-lt d,
        ))
    ∙ u32_as_i32-i32_as_u32 d h
