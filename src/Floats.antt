-- ===== src/Floats.antt =====
-- The floating-point types of Rust and the operations of them that the source uses, as an
-- interface: every definition that computes with floats takes it as a parameter.
use libinput_rs.Common.{ℕ, zero, suc, ◌+◌, ◌*◌, ◌/◌, ◌^◌, Bool, not, ltb, if◌then◌else◌}
use libinput_rs.Common.Int.{ℤ, pos, ◌+ℤ◌, ◌-ℤ◌, pos_part, neg_part, sub_ℕ}

pub record Floats : Type 1 where
  pub F32 : Type 0
  pub F64 : Type 0
  -- The literal n / 10^k.
  pub f32 : ℕ → ℕ → F32
  pub f64 : ℕ → ℕ → F64
  -- The casts `as f32`, `as f64`, and `x.round() as i32`.
  pub i32_as_f32 : ℤ → F32
  pub i32_as_f64 : ℤ → F64
  pub f64_as_f32 : F64 → F32
  pub f32_as_f64 : F32 → F64
  pub round_as_i32 : F32 → ℤ
  pub add32 : F32 → F32 → F32
  pub sub32 : F32 → F32 → F32
  pub mul32 : F32 → F32 → F32
  pub add64 : F64 → F64 → F64
  pub sub64 : F64 → F64 → F64
  pub mul64 : F64 → F64 → F64
  pub div64 : F64 → F64 → F64
  pub neg64 : F64 → F64
  -- `x.clamp(lo, hi)`.
  pub clamp64 : F64 → F64 → F64 → F64
  pub sqrt64 : F64 → F64
  pub atan2 : F64 → F64 → F64
  pub to_degrees : F64 → F64
  -- `x > y`, which is false where either is NaN.
  pub gt64 : F64 → F64 → Bool
  -- `x <= y`, which is false there too.
  pub le64 : F64 → F64 → Bool

-- Thousandths, held in an integer: a concrete value of the interface that runs in tests. Its
-- square root and its arc tangent are coarse.
scaled : ℕ → ℕ → ℕ
scaled zero n = n * 1000
scaled (suc zero) n = n * 100
scaled (suc (suc zero)) n = n * 10
scaled (suc (suc (suc k))) n = n / 10 ^ k

abbrev milli : ℕ → ℕ → ℤ
unfolding scaled
milli n k = pos (scaled k n)

mul_milli : ℤ → ℤ → ℤ
mul_milli a b =
    sub_ℕ ((pos_part a * pos_part b + neg_part a * neg_part b) / 1000)
      ((pos_part a * neg_part b + neg_part a * pos_part b) / 1000)

times_thousand : ℤ → ℤ
times_thousand z = sub_ℕ (pos_part z * 1000) (neg_part z * 1000)

div_milli : ℤ → ℤ → ℤ
div_milli a b = sub_ℕ ((pos_part a * 1000) / pos_part b) ((neg_part a * 1000) / pos_part b)

round_milli : ℤ → ℤ
round_milli z = sub_ℕ ((pos_part z + 500) / 1000) ((neg_part z + 500) / 1000)

gt_milli : ℤ → ℤ → Bool
gt_milli a b = ltb (pos_part b + neg_part a) (pos_part a + neg_part b)

clamp_milli : ℤ → ℤ → ℤ → ℤ
unfolding gt_milli
clamp_milli x lo hi = if gt_milli lo x then lo else (if gt_milli x hi then hi else x)

unfoldable pub thousandths : Floats
unfolding scaled clamp_milli mul_milli times_thousand div_milli round_milli gt_milli ◌+ℤ◌ ◌-ℤ◌
thousandths = record {
  F32 = ℤ;
  F64 = ℤ;
  f32 = λ n k. pos (scaled k n);
  f64 = λ n k. pos (scaled k n);
  i32_as_f32 = times_thousand;
  i32_as_f64 = times_thousand;
  f64_as_f32 = λ x. x;
  f32_as_f64 = λ x. x;
  round_as_i32 = round_milli;
  add32 = ◌+ℤ◌;
  sub32 = ◌-ℤ◌;
  mul32 = mul_milli;
  add64 = ◌+ℤ◌;
  sub64 = ◌-ℤ◌;
  mul64 = mul_milli;
  div64 = div_milli;
  neg64 = λ x. sub_ℕ (neg_part x) (pos_part x);
  clamp64 = clamp_milli;
  sqrt64 = λ x. x;
  atan2 = λ y x. y;
  to_degrees = λ x. x;
  gt64 = gt_milli;
  le64 = λ x y. not (gt_milli x y);
}
