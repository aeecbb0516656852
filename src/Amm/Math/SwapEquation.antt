-- ===== src/Amm/Math/SwapEquation.antt =====
-- `programs/amm/src/math/swap_equation.rs`.
use solana_amm.Base.{
  ℕ, ◌+◌, ◌-◌, ◌^◌, Bool, true, false, none, some, ltb, leb, if◌then◌else◌, u64_end, ok, err,
  raised, panicked, ◌>>=◌, ◌>>◌, raise_if, assert, unwrap, lift,
}
use solana_amm.BTree.{Pubkey, BTreeMap, get}
use solana_amm.Decimal.{DecimalOps}
use solana_amm.Amm.Err.{Res, math_overflow, invariant_violation}
use solana_amm.Amm.Math.Helpers.{scale_down_value}

-- `u64::pow`, which panics on overflow.
abbrev pub pow_u64 : ℕ → ℕ → Res ℕ
pow_u64 a n = if ltb (a ^ n) u64_end then ok (a ^ n) else err panicked

module _ (dec : DecimalOps) where
  open dec use {
    from_u64, from_scaled_val, one, try_add, try_sub, try_mul, try_div, try_pow, try_sqrt,
  }

  -- `b` of the quadratic equation as an absolute value, with whether it is negative.
  unfoldable pub linear_term : ℕ → ℕ → Res (ℕ × Bool)
  linear_term first second = elim (try_sub second first) [
    | none ↦ lift (try_sub first second) >>= λ b. ok (b, true)
    | some b ↦ ok (b, false)
  ]

  -- `(root - b) / 2a`, or with `+` where `b` is negative, scaled up again.
  unfoldable pub positive_root : ℕ → ℕ → Bool → ℕ → ℕ → Res ℕ
  positive_root root b true two_a exp = do
    total ← lift (try_add root b)
    quotient ← lift (try_div total two_a)
    scale ← lift (try_pow (from_u64 1000) exp)
    lift (try_mul quotient scale)
  positive_root root b false two_a exp = elim (try_sub root b) [
    | none ↦ err (raised invariant_violation)
    | some val ↦ lift (try_div val two_a) >>= λ quotient.
        lift (try_pow (from_u64 1000) exp) >>= λ scale. lift (try_mul quotient scale)
  ]

  unfoldable pub get_buy_reserve_balance_after_swap : ℕ → ℕ → ℕ → ℕ → ℕ → Res ℕ
  get_buy_reserve_balance_after_swap num_reserves amp invariant sum product = do
    out ← scale_down_value dec invariant
    let d = out.scale_down
    let exp = out.exponent
    base ← pow_u64 1000 exp
    assert (leb 1 num_reserves)
    product_scale ← lift (try_pow (from_u64 base) (num_reserves - 1))
    scaled_product ← lift (try_div product product_scale)
    raise_if (ltb scaled_product (from_scaled_val 1_000_000)) math_overflow
    scaled_sum ← lift (try_div sum (from_u64 base))
    n_pow_n ← lift (try_pow (from_u64 num_reserves) num_reserves)
    n_n_amp ← lift (try_mul n_pow_n amp)
    n_n_amp_less_one ← lift (try_sub n_n_amp one)
    linear_first_term ← lift (try_mul d n_n_amp_less_one)
    amp_n_n ← lift (try_mul amp n_pow_n)
    linear_second_term ← lift (try_mul amp_n_n scaled_sum)
    (b, is_symmetric) ← linear_term linear_first_term linear_second_term
    d_pow ← lift (try_pow d (num_reserves + 1))
    n_n_product ← lift (try_mul n_pow_n scaled_product)
    constant_term ← lift (try_div d_pow n_n_product)
    quadratic_term ← lift (try_mul amp n_pow_n)
    b_squared ← lift (try_pow b 2)
    four_a ← lift (try_mul (from_u64 4) quadratic_term)
    four_a_c ← lift (try_mul four_a constant_term)
    discriminator ← lift (try_add b_squared four_a_c)
    sqrt_discriminator ← lift (try_sqrt discriminator)
    two_a ← lift (try_mul (from_u64 2) quadratic_term)
    positive_root sqrt_discriminator b is_symmetric two_a exp

  unfoldable pub compute_delta_withdraw_token_amount : ℕ → BTreeMap ℕ → Pubkey → Res ℕ
  compute_delta_withdraw_token_amount quote_token_balance_after_swap tokens_reserves mint = do
    amount ← unwrap (get mint tokens_reserves)
    lift (try_sub (from_u64 amount) quote_token_balance_after_swap)
