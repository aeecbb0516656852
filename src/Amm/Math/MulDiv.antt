-- ===== src/Amm/Math/MulDiv.antt =====
-- `try_mul_div` in `programs/amm/src/math/helpers.rs`.
use native.Mathlib.Nat.{mul-le-mul_right}
use solana_amm.Base.{
  ℕ, ◌+◌, ◌*◌, ◌≤◌, ◌≡◌, inl, inr, ok, arith, ltb, leb, Bool-cases, >>=-eq-ok, lift, lift-eq-ok,
}
use solana_amm.Decimal.{DecimalOps, DecimalLaws}
use solana_amm.Amm.Math.Helpers.{try_mul_div, mul_then_div, div_then_mul, integer_leading_zeros}

module _ (dec : DecimalOps) (laws : DecimalLaws dec) where
  open dec use {one, try_mul, try_div}

  mul_then_div-bound : (a b c : ℕ) {d : ℕ} → mul_then_div dec a b c ≡ ok d → d * c ≤ a * b
  mul_then_div-bound a b c {d} h =
      let (ab, first, h1) = >>=-eq-ok (lift (try_mul a b)) _ h in
      omega (arith, laws.mul-le a b ab (lift-eq-ok _ first), laws.div-le ab c d (lift-eq-ok _ h1))

  div_then_mul-bound : (a b c : ℕ) {d : ℕ} → div_then_mul dec a b c ≡ ok d → d * c ≤ a * b
  div_then_mul-bound a b c {d} h =
      let (ac, first, h1) = >>=-eq-ok (lift (try_div a c)) _ h in
      omega (
        arith,
        mul-le-mul_right b (laws.div-le a c ac (lift-eq-ok _ first)),
        mul-le-mul_right c (laws.mul-le ac b d (lift-eq-ok _ h1)),
      )

  -- In whichever order `try_mul_div` multiplies and divides, a result is rounded down: times the
  -- divisor it is at most the product of the two factors.
  pub try_mul_div-bound : (a b c : ℕ) {d : ℕ} → try_mul_div dec a b c ≡ ok d → d * c ≤ a * b
  unfolding try_mul_div
  try_mul_div-bound a b c h = elim (Bool-cases (ltb c one)) [
    | inl small ↦ mul_then_div-bound a b c (rw small at h)
    | inr large ↦ elim (Bool-cases (leb 130 (integer_leading_zeros a + integer_leading_zeros b))) [
      | inl long ↦ elim (Bool-cases (leb (integer_leading_zeros b) (integer_leading_zeros a))) [
        | inl first ↦ div_then_mul-bound a b c (rw (large, long, first) at h)
        | inr second ↦ omega (arith, div_then_mul-bound b a c (rw (large, long, second) at h))
      ]
      | inr short ↦ mul_then_div-bound a b c (rw (large, short) at h)
    ]
  ]
