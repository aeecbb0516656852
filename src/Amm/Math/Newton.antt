-- ===== src/Amm/Math/Newton.antt =====
-- The loop of `StableCurveInvariant::compute`.
use native.Mathlib.Nat.{mul-le-mul_right}
use solana_amm.Base.{
  ℕ, zero, suc, ◌*◌, ◌≤◌, ◌≡◌, inl, inr, ok, err, arith, leb, ◌==◌, Bool-cases, >>=-eq-ok, lift,
  lift-eq-ok, unwrap, Fault,
}
use solana_amm.Decimal.{wad, DecimalOps, DecimalLaws}
use solana_amm.Amm.Err.{Res, AmmError}
use solana_amm.Amm.Math.StableCurve.{
  StableCurveInvariant, max_iterations, get_stable_swap_polynomial,
  get_derivate_stable_swap_polynomial, newton_method_single_iteration, check_root, newton_loop,
  compute_root,
}

module _ (dec : DecimalOps) (laws : DecimalLaws dec) where
  open dec use {from_u64, zero_dec, try_sub, try_mul, try_div}

  -- A step of the method goes down.
  newton_method_single_iteration-le :
      (self : StableCurveInvariant) (guess : ℕ) {next : ℕ}
      → newton_method_single_iteration dec self guess ≡ ok next
      → next ≤ guess
  unfolding newton_method_single_iteration
  newton_method_single_iteration-le self guess {next} h =
      let (poly, p, h1) = >>=-eq-ok (get_stable_swap_polynomial dec self guess) _ h in
      let (slope, d, h2) = >>=-eq-ok (get_derivate_stable_swap_polynomial dec self guess) _ h1 in
      let (step, q, h3) = >>=-eq-ok (lift (try_div poly slope)) _ h2 in
      omega (arith, laws.sub-eq guess step next (lift-eq-ok _ h3))

  scaled-bound :
      (coef val guess : ℕ) {r : ℕ}
      → lift {E = AmmError} (try_mul val coef) ≡ ok r
      → val ≤ guess
      → r * wad ≤ guess * coef
  scaled-bound coef val guess {r} h le =
      omega (arith, laws.mul-le val coef r (lift-eq-ok _ h), mul-le-mul_right coef le)

  check_root-bound :
      (self : StableCurveInvariant) (prev : ℕ) {r : ℕ}
      → check_root dec self prev ≡ ok r
      → r * wad ≤ prev * self.scl_down_coef
  unfolding check_root
  check_root-bound self prev {r} h =
      let (val, v, h1) = >>=-eq-ok (get_stable_swap_polynomial dec self prev) _ h in
      elim (Bool-cases (val == zero_dec)) [
        | inl root ↦ scaled-bound self.scl_down_coef prev prev (rw root at h1) (omega arith)
        | inr other ↦ absurd (failed (rw other at h1))
      ]
    where
      failed : {e : Fault AmmError} → ◌≡◌ {A = Res ℕ} (err e) (ok r) → ⊥
      failed h = cc

  newton_loop-bound :
      (self : StableCurveInvariant) (error rounds prev : ℕ) {r : ℕ}
      → newton_loop dec self error rounds prev ≡ ok r
      → r * wad ≤ prev * self.scl_down_coef
  unfolding newton_loop
  newton_loop-bound self error zero prev h =
      scaled-bound self.scl_down_coef prev prev h (omega arith)
  newton_loop-bound self error (suc rounds) prev {r} h =
      let (next, stepped, h1) = >>=-eq-ok (newton_method_single_iteration dec self prev) _ h in
      let down = newton_method_single_iteration-le self prev stepped in
      elim (Bool-cases (leb prev next)) [
        | inl done ↦ check_root-bound self prev (rw done at h1)
        | inr falls ↦
            let (diff, e, h2) = >>=-eq-ok (lift (try_sub prev next)) _ (rw falls at h1) in
            elim (Bool-cases (leb diff error)) [
              | inl near ↦ scaled-bound self.scl_down_coef next prev (rw near at h2) down
              | inr far ↦ omega (
                arith,
                newton_loop-bound self error rounds next (rw far at h2),
                mul-le-mul_right self.scl_down_coef down,
              )
            ]
      ]

  -- Whatever number of rounds Newton's method takes, a root that `compute_root` returns is, scaled
  -- up again, at most the initial guess, scaled up the same way.
  pub compute_root-bound :
      (self : StableCurveInvariant) {r : ℕ}
      → compute_root dec self ≡ ok r
      → r * wad ≤ self.initial_guess * self.scl_down_coef
  unfolding compute_root
  compute_root-bound self h =
      let (error, e, h1) = >>=-eq-ok (unwrap (try_div (from_u64 1) (from_u64 2))) _ h in
      newton_loop-bound self error max_iterations self.initial_guess h1
