-- ===== src/Amm/Math/Scaling.antt =====
-- The loop of `scale_down_value` in `programs/amm/src/math/helpers.rs`.
use native.Mathlib.Decide.{dec_le}
use native.Mathlib.Nat.{pow-suc, le_trans, le_refl, mul-le-mul_right}
use native.Mathlib.Numerals.{add-one}
use solana_amm.Base.{
  ℕ, zero, suc, ◌+◌, ◌*◌, ◌^◌, ◌≤◌, ◌<◌, ◌≡◌, ◌⊎◌, inl, inr, refl, ap, arith, Option, none, some,
  ok, err, decimal, Option-cases, lt→ltb, le→ltb_false,
}
use solana_amm.Decimal.{wad, u192_end, DecimalOps, DecimalLaws}
use solana_amm.Amm.Err.{Res}
use solana_amm.Amm.Math.Helpers.{ScaleDownOutput, scale_down_loop, scale_down_value}

module _ (dec : DecimalOps) (laws : DecimalLaws dec) where
  open dec use {from_u64, try_div}

  -- What the loop returns from `val` at exponent `n`: a value of at most 1000 with the number of
  -- divisions, or the error of one of them. The value is that of the divisions, each rounded down.
  Scaled : ℕ → ℕ → Option (Res ScaleDownOutput) → Type 0
  Scaled val n r =
      ((out : ScaleDownOutput) × (r ≡ some (ok out))
        × (out.scale_down ≤ 1000 * wad)
        × (out.scale_down * 1000 ^ out.exponent ≤ val * 1000 ^ n)
        × ((val + 1) * 1000 ^ n ≤ (out.scale_down + 1) * 1000 ^ out.exponent)
        × (wad ≤ val → wad ≤ out.scale_down))
      ⊎ (r ≡ some (err decimal)) × ((v : ℕ) × (v ≤ val) × (try_div v (from_u64 1000) ≡ none))

  div_thousand : (val v : ℕ) → try_div val (from_u64 1000) ≡ some v → v * 1000 ≤ val
  div_thousand val v h =
      omega
        (arith, laws.div-le val (from_u64 1000) v h, ap (λ (t : ℕ). v * t) (laws.from_u64-eq 1000))

  div_thousand_lt : (val v : ℕ) → try_div val (from_u64 1000) ≡ some v → val < v * 1000 + 1000
  div_thousand_lt val v h = omega (
    arith,
    laws.div-lt val (from_u64 1000) v h,
    ap (λ (t : ℕ). v * t) (laws.from_u64-eq 1000),
    laws.from_u64-eq 1000,
  )

  pow-next : (n : ℕ) → 1000 ^ (n + 1) ≡ 1000 ^ n * 1000
  pow-next n = rw (add-one, pow-suc) (omega arith)

  Scaled-step :
      (val v n : ℕ) (r : Option (Res ScaleDownOutput))
      → 1000 * wad < val
      → v * 1000 ≤ val
      → val < v * 1000 + 1000
      → Scaled v (n + 1) r
      → Scaled val n r
  unfolding Scaled
  Scaled-step val v n r big h k (inr (failed, (w, le, none_left))) =
      inr (failed, (w, omega arith, none_left))
  Scaled-step val v n r big h k (inl (out, same, small, scaled, above, least)) = inl (
    out,
    same,
    small,
    le_trans scaled (rw pow-next (bound (1000 ^ n))),
    le_trans (rw pow-next (bound_above (1000 ^ n))) above,
    λ _. least (omega arith),
  )
    where
      bound_above : (p : ℕ) → (val + 1) * p ≤ (v + 1) * (p * 1000)
      bound_above p =
          let le : val + 1 ≤ (v + 1) * 1000 = omega arith in omega (arith, mul-le-mul_right p le)

      bound : (p : ℕ) → v * (p * 1000) ≤ val * p
      bound p = omega (arith, mul-le-mul_right p h)

  smaller : (v val q : ℕ) → v * 1000 ≤ val → val ≤ 1000 * wad * (q * 1000) → v ≤ 1000 * wad * q
  smaller v val q h k = omega arith

  loop-done :
      (fuel val n : ℕ) → val ≤ 1000 * wad → Scaled val n (scale_down_loop dec (suc fuel) val n)
  unfolding scale_down_loop Scaled
  loop-done fuel val n h =
      rw (le→ltb_false val (from_u64 1000) (omega (arith, h, laws.from_u64-eq 1000)))
        (inl (record { scale_down = val; exponent = n }, refl, h, le_refl _, le_refl _, λ w. w))

  loop-failed :
      (fuel val n : ℕ)
      → 1000 * wad < val
      → try_div val (from_u64 1000) ≡ none
      → Scaled val n (scale_down_loop dec (suc fuel) val n)
  unfolding scale_down_loop Scaled
  loop-failed fuel val n big failed =
      rw (lt→ltb (from_u64 1000) val (omega (arith, laws.from_u64-eq 1000)), failed)
        (inr (refl, (val, le_refl _, failed)))

  loop-divided :
      (fuel val v n : ℕ)
      → 1000 * wad < val
      → try_div val (from_u64 1000) ≡ some v
      → Scaled v (n + 1) (scale_down_loop dec fuel v (n + 1))
      → Scaled val n (scale_down_loop dec (suc fuel) val n)
  unfolding scale_down_loop
  loop-divided fuel val v n big divided again =
      rw (lt→ltb (from_u64 1000) val (omega (arith, laws.from_u64-eq 1000)), divided)
        (Scaled-step val v n _ big (div_thousand val v divided) (div_thousand_lt val v divided)
          again)

  scale_down_loop-Scaled :
      (fuel val n : ℕ)
      → val ≤ 1000 * wad * 1000 ^ fuel
      → Scaled val n (scale_down_loop dec (suc fuel) val n)
  scale_down_loop-Scaled zero val n h = loop-done zero val n (omega arith)
  scale_down_loop-Scaled (suc k) val n h = elim (dec_le val (1000 * wad)) [
    | yes small ↦ loop-done (suc k) val n small
    | no big ↦ elim (Option-cases (try_div val (from_u64 1000))) [
      | inl failed ↦ loop-failed (suc k) val n (omega arith) failed
      | inr (v, divided) ↦ loop-divided (suc k) val v n (omega arith) divided (
          scale_down_loop-Scaled k v (n + 1)
            (smaller v val (1000 ^ k) (div_thousand val v divided) (rw pow-suc at h)))
    ]
  ]

  -- On any 192-bit number the loop ends before its fuel does. `scale_down_value` fails with `decimal`
  -- where a division by 1000, of the number or of a quotient, fails. Otherwise it returns the number
  -- divided by 1000 to the exponent, rounded down to a decimal place; the value is at most 1000, and
  -- the exponent is zero or the value at least 1.
  pub scale_down_value_lem :
      (val : ℕ)
      → val < u192_end
      → ((out : ScaleDownOutput) × (scale_down_value dec val ≡ ok out)
          × (out.scale_down ≤ 1000 * wad)
          × (out.scale_down * 1000 ^ out.exponent ≤ val)
          × (val < (out.scale_down + 1) * 1000 ^ out.exponent)
          × ((out.exponent ≡ 0) ⊎ (wad ≤ out.scale_down)))
        ⊎ (scale_down_value dec val ≡ err decimal)
          × ((v : ℕ) × (v ≤ val) × (try_div v (from_u64 1000) ≡ none))
  unfolding scale_down_value scale_down_loop Scaled
  scale_down_value_lem val h = elim (dec_le val (1000 * wad)) [
    | yes small ↦ inl (
      record { scale_down = val; exponent = 0 },
      rw (
        scale_down_value,
        le→ltb_false val (from_u64 1000) (omega (arith, small, laws.from_u64-eq 1000)),
      ),
      small,
      omega arith,
      omega arith,
      inl refl,
    )
    | no big ↦ elim (scale_down_loop-Scaled 19 val 0 (omega arith)) [
      | inl (out, same, small, scaled, above, least) ↦ inl (
        out,
        rw (scale_down_value, same),
        small,
        omega arith,
        omega arith,
        inr (least (omega arith)),
      )
      | inr (failed, where_) ↦ inr (rw (scale_down_value, failed), where_)
    ]
  ]
