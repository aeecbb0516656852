-- ===== src/Amm/Math/StableCurve.antt =====
-- `programs/amm/src/math/stable_curve_invariant.rs`: the invariant D by Newton's method.
use solana_amm.Base.{
  ℕ, zero, suc, ◌+◌, List, ltb, leb, ◌==◌, if◌then◌else◌, length, ok, err, raised, ◌>>=◌, ◌>>◌,
  raise_if, unwrap, lift, try_fold,
}
use solana_amm.Decimal.{DecimalOps}
use solana_amm.Amm.Err.{Res, math_overflow, invalid_arg, invariant_violation}
use solana_amm.Amm.Math.Helpers.{scale_down_value}

abbrev pub max_iterations : ℕ
max_iterations = 32

pub record StableCurveInvariant : Type 0 where
  pub exponent : ℕ
  pub initial_guess : ℕ
  pub scl_down_coef : ℕ
  pub first_order_coeff : ℕ
  pub polynomial_third_term : ℕ

module _ (dec : DecimalOps) where
  open dec use {
    from_u64, from_scaled_val, zero_dec, one, try_add, try_sub, try_mul, try_div, try_pow,
  }

  -- `StableCurveInvariant::new`
  unfoldable pub new_invariant : ℕ → List ℕ → Res StableCurveInvariant
  new_invariant amplifier token_reserves_amount = do
    let amp = from_u64 amplifier
    sum ← try_fold (λ acc el. lift (try_add acc (from_u64 el))) zero_dec token_reserves_amount
    scl_down_sum ← scale_down_value dec sum
    let initial_guess = scl_down_sum.scale_down
    let scl_down_exp = scl_down_sum.exponent
    scl_down_coef ← lift (try_pow (from_u64 1000) scl_down_exp)
    product ←
        try_fold
          (λ acc el.
            lift (try_div (from_u64 el) scl_down_coef) >>= λ scaled. lift (try_mul acc scaled))
          one token_reserves_amount
    raise_if (ltb product (from_scaled_val 1_000_000)) math_overflow
    let exponent = length token_reserves_amount
    n ← lift (try_pow (from_u64 exponent) exponent)
    n_n_scaled_product ← lift (try_mul n product)
    amp_n ← lift (try_mul amp n)
    amp_n_less_one ← lift (try_sub amp_n one)
    first_order_coeff ← lift (try_mul amp_n_less_one n_n_scaled_product)
    amp_n_sum ← lift (try_mul amp_n sum)
    third ← lift (try_mul amp_n_sum n_n_scaled_product)
    polynomial_third_term ← lift (try_div third scl_down_coef)
    ok (record {
      exponent = exponent;
      initial_guess = initial_guess;
      scl_down_coef = scl_down_coef;
      first_order_coeff = first_order_coeff;
      polynomial_third_term = polynomial_third_term;
    })

  unfoldable pub get_stable_swap_polynomial : StableCurveInvariant → ℕ → Res ℕ
  get_stable_swap_polynomial self val = do
    first_term ← lift (try_pow val (self.exponent + 1))
    second_term ← lift (try_mul val self.first_order_coeff)
    total ← lift (try_add first_term second_term)
    lift (try_sub total self.polynomial_third_term)

  unfoldable pub get_derivate_stable_swap_polynomial : StableCurveInvariant → ℕ → Res ℕ
  get_derivate_stable_swap_polynomial self val = do
    order ← lift (try_add (from_u64 self.exponent) one)
    power ← lift (try_pow val self.exponent)
    first_term ← lift (try_mul order power)
    lift (try_add first_term self.first_order_coeff)

  unfoldable pub newton_method_single_iteration : StableCurveInvariant → ℕ → Res ℕ
  newton_method_single_iteration self initial_guess = do
    stable_swap_poly ← get_stable_swap_polynomial self initial_guess
    derivative_stable_swap_poly ← get_derivate_stable_swap_polynomial self initial_guess
    step ← lift (try_div stable_swap_poly derivative_stable_swap_poly)
    lift (try_sub initial_guess step)

  -- The branch `prev_val <= new_val`.
  unfoldable pub check_root : StableCurveInvariant → ℕ → Res ℕ
  check_root self prev_val = do
    val ← get_stable_swap_polynomial self prev_val
    if val == zero_dec
        then lift (try_mul prev_val self.scl_down_coef)
        else err (raised invariant_violation)

  -- The `for` loop with the rounds that are left, then the scaling up behind it. `prev_val` is the
  -- value that the last round left in `new_val`.
  unfoldable pub newton_loop : StableCurveInvariant → ℕ → ℕ → ℕ → Res ℕ
  newton_loop self admissible_error zero prev_val = lift (try_mul prev_val self.scl_down_coef)
  newton_loop self admissible_error (suc rounds) prev_val = do
    new_val ← newton_method_single_iteration self prev_val
    let rest = newton_loop self admissible_error rounds new_val
    if leb prev_val new_val
        then check_root self prev_val
        else (lift (try_sub prev_val new_val) >>= λ difference.
            if leb difference admissible_error
            then lift (try_mul new_val self.scl_down_coef)
            else rest)

  -- `StableCurveInvariant::compute`
  unfoldable pub compute_root : StableCurveInvariant → Res ℕ
  compute_root self = do
    admissible_error ← unwrap (try_div (from_u64 1) (from_u64 2))
    newton_loop self admissible_error max_iterations self.initial_guess

  unfoldable pub compute : ℕ → List ℕ → Res ℕ
  compute amp token_reserves_amount = do
    raise_if (amp == 0) invalid_arg
    self ← new_invariant amp token_reserves_amount
    compute_root self
