-- ===== src/Amm/Tests.antt =====
-- The AMM's theorems at concrete pools, and runs of the code.
use solana_amm.Amm.Math.Helpers.{scale_down_loop}
use solana_amm.Amm.Math.Newton.{compute_root-bound}
use solana_amm.Amm.Math.StableCurve.{
  StableCurveInvariant, new_invariant, compute_root, newton_loop, check_root,
  newton_method_single_iteration, get_stable_swap_polynomial, get_derivate_stable_swap_polynomial,
}
use solana_amm.Base.{
  ℕ, ◌+◌, ◌-◌, ◌*◌, ◌≤◌, ◌<◌, ◌≡◌, ◌≢◌, ◌⊎◌, refl, [], ◌∷◌, ◌^◌, none, some, ok, err, decimal,
  arith, u64_end, map,
}
use solana_amm.BTree.{Pubkey, BTreeMap}
use solana_amm.Decimal.{wad}
use solana_amm.Decimal.Concrete.{floored, floored_laws}
use solana_amm.Amm.Math.Helpers.{
  try_mul_div, integer_leading_zeros, leading_zeros, fold_product, scale_down_value,
  ScaleDownOutput,
}
use solana_amm.Amm.Math.Exact.{product, fold_product_lem}
use solana_amm.Amm.Math.Scaling.{scale_down_value_lem}
use solana_amm.Amm.Math.SwapEquation.{compute_delta_withdraw_token_amount}
use solana_amm.Amm.Pool.{
  Pool, Reserve, DepositResult, const_prod, initialized, update_first, reserve_mut, entry,
  reserves_hashmap, add_tokens, remove_tokens,
}
use solana_amm.Amm.Pool.Reserves.{IsValid, active, balance, change, with_active}
use solana_amm.Amm.Pool.Swap.{
  except_mint, balance_after_swap, check_swap, bought_balance_after_swap, calculate_swap, swap,
}
use solana_amm.Amm.Pool.Swap.Balances.{swap-balances}
use solana_amm.Amm.Pool.Swap.Quote.{product_of, product_without}
use solana_amm.Amm.Pool.Swap.ConstProd.{swap-product}
use solana_amm.Amm.Pool.Deposit.{
  deposit_tokens, check_max_tokens, later_amounts, get_deposit_ratio, ratio, invert_ratio, minimum,
  maximum, token_to_deposit, get_eligible_lp_tokens, first_reserve, add_all,
}
use solana_amm.Amm.Pool.Deposit.Minted.{get_eligible_lp_tokens-bound}
use solana_amm.Amm.Math.MulDiv.{try_mul_div-bound}
use solana_amm.Amm.Pool.Deposit.Limit.{deposit-limit}
use solana_amm.Amm.Pool.Swap.Drain.{swap-left}
use solana_amm.Amm.Pool.Redeem.{
  is_any_below_min, remove_all, token_to_redeem, check_min_tokens, redeem_tokens,
}
use solana_amm.Amm.Pool.Redeem.Share.{redeem-PaysShares, PaysShares}

abbrev reserve : ℕ → Pubkey → Reserve
reserve n k = record { tokens = n; mint = k; vault = k + 100 }

abbrev no_reserve : Reserve
no_reserve = record { tokens = 0; mint = 0; vault = 0 }

abbrev pool_of : ℕ → ℕ → Pool
pool_of a b = record {
  admin = 7;
  signer = 8;
  mint = 9;
  program_toll_wallet = 10;
  dimension = 2;
  reserves = reserve a 1 ∷ reserve b 2 ∷ no_reserve ∷ no_reserve ∷ [];
  curve = const_prod;
  swap_fee = 3000;
}

abbrev before : Pool
before = pool_of 1_000_000 4_000_000

pool_of-IsValid : (a b : ℕ) → IsValid (pool_of a b)
pool_of-IsValid a b = record {
  capacity = omega arith;
  distinct = (((λ e. omega arith), tt), (tt, tt));
}

one_is_not_two : ◌≢◌ {A = ℕ} 1 2
one_is_not_two e = omega arith

swap_run : swap floored before 1 1000 2 ≡ ok (pool_of 1_001_000 3_996_004, 3996)
unfolding swap calculate_swap reserves_hashmap check_swap except_mint balance_after_swap
    fold_product bought_balance_after_swap compute_delta_withdraw_token_amount reserve_mut
    update_first add_tokens remove_tokens initialized entry floored
swap_run = refl

swap-product_example :
    product_of (active before) * wad
    < product_of (active (pool_of 1_001_000 3_996_004)) * wad
      + product_without 2 (active (pool_of 1_001_000 3_996_004))
swap-product_example =
    swap-product floored floored_laws before 1 1000 2 (pool_of-IsValid 1_000_000 4_000_000) refl
      one_is_not_two swap_run

swap-balances_example :
    (pool_of 1_001_000 3_996_004
      ≡ with_active before (change 2 (λ m. m - 3996) (change 1 (λ m. m + 1000) (active before))))
    × IsValid (pool_of 1_001_000 3_996_004)
    × ((s : ℕ) × (balance 1 (active before) ≡ some s)
        × (balance 1 (active (pool_of 1_001_000 3_996_004)) ≡ some (s + 1000))
        × (s + 1000 < u64_end))
    × ((b : ℕ) × (balance 2 (active before) ≡ some b)
        × (balance 2 (active (pool_of 1_001_000 3_996_004)) ≡ some (b - 3996))
        × (3996 ≤ b))
    × ((k : Pubkey)
        → 1 ≢ k
        → 2 ≢ k
        → balance k (active (pool_of 1_001_000 3_996_004)) ≡ balance k (active before))
swap-balances_example =
    swap-balances floored before 1 1000 2 (pool_of-IsValid 1_000_000 4_000_000) one_is_not_two
      swap_run

abbrev minima : BTreeMap ℕ
minima = (1, 5) ∷ (2, 5) ∷ []

abbrev redeemed : Pool × BTreeMap ℕ
redeemed = (pool_of 666_667 2_666_667, (1, 333_333) ∷ (2, 1_333_333) ∷ [])

redeem_run : redeem_tokens floored before minima 10 30 ≡ ok redeemed
unfolding redeem_tokens check_min_tokens token_to_redeem is_any_below_min remove_all reserve_mut
    update_first remove_tokens initialized floored
redeem_run = refl

redeem-PaysShares_example : PaysShares before minima 10 30 redeemed
redeem-PaysShares_example =
    redeem-PaysShares floored floored_laws before minima 10 30 (pool_of-IsValid 1_000_000 4_000_000)
      redeem_run

fold_product_run : fold_product floored (map floored.from_u64 (3 ∷ 5 ∷ [])) ≡ ok (15 * wad)
unfolding fold_product floored
fold_product_run = refl

fold_product_lem_example : ◌≡◌ {A = ℕ} (15 * wad) (product (3 ∷ 5 ∷ []) * wad)
fold_product_lem_example = fold_product_lem floored floored_laws (3 ∷ 5 ∷ []) fold_product_run

scale_down_value_lem_example :
    ((out : ScaleDownOutput) × (scale_down_value floored (2_000_000 * wad) ≡ ok out)
      × (out.scale_down ≤ 1000 * wad)
      × (out.scale_down * 1000 ^ out.exponent ≤ 2_000_000 * wad)
      × (2_000_000 * wad < (out.scale_down + 1) * 1000 ^ out.exponent)
      × ((out.exponent ≡ 0) ⊎ (wad ≤ out.scale_down)))
    ⊎ (scale_down_value floored (2_000_000 * wad) ≡ err decimal)
      × ((v : ℕ) × (v ≤ 2_000_000 * wad) × (floored.try_div v (floored.from_u64 1000) ≡ none))
scale_down_value_lem_example =
    scale_down_value_lem floored floored_laws (2_000_000 * wad) (omega arith)

swap-left_example : (b : ℕ) × (balance 2 (active (pool_of 1_001_000 3_996_004)) ≡ some b) × (0 < b)
swap-left_example =
    swap-left floored floored_laws before 1 1000 2 (pool_of-IsValid 1_000_000 4_000_000) refl
      one_is_not_two swap_run

abbrev maxima : BTreeMap ℕ
maxima = (1, 500) ∷ (2, 3000) ∷ []

abbrev deposited : Pool × DepositResult
deposited = (
  pool_of 1_000_500 4_002_000,
  record { lp_tokens_to_distribute = some 5; tokens_to_deposit = (1, 500) ∷ (2, 2000) ∷ [] },
)

deposit_run : deposit_tokens floored before maxima 10_000 ≡ ok deposited
unfolding deposit_tokens check_max_tokens later_amounts get_deposit_ratio ratio minimum
    token_to_deposit get_eligible_lp_tokens first_reserve try_mul_div integer_leading_zeros
    leading_zeros add_all reserve_mut update_first add_tokens initialized reserves_hashmap entry
    floored
deposit_run = refl

before-hashmap : reserves_hashmap before ≡ ok ((1, 1_000_000) ∷ (2, 4_000_000) ∷ [])
unfolding reserves_hashmap initialized entry
before-hashmap = refl

deposit-limit_example : 2000 ≤ 3000
deposit-limit_example =
    deposit-limit floored floored_laws before ((1, 1_000_000) ∷ (2, 4_000_000) ∷ []) maxima 10_000 2
      2000 3000 before-hashmap refl deposit_run refl refl

-- Above 10^10 the ratio is inverted, and dividing by a ratio that was rounded down can take more
-- than the maximum.
abbrev large : ℕ
large = 7_000_000_000_000_000_000

inverted_run :
    later_amounts floored (pool_of 30_000_000_000 30_000_000_000) ((1, large) ∷ (2, large) ∷ []) 10
    ≡ ok ((1, 7_000_000_001_166_666_667) ∷ (2, 7_000_000_001_166_666_667) ∷ [], some 2_333_333_333)
unfolding later_amounts get_deposit_ratio invert_ratio maximum token_to_deposit
    get_eligible_lp_tokens first_reserve try_mul_div integer_leading_zeros leading_zeros initialized
    reserves_hashmap entry floored
inverted_run = refl

abbrev small_reserves : StableCurveInvariant
small_reserves = record {
  exponent = 2;
  initial_guess = 3_000_000_000_000_000_000;
  scl_down_coef = 1000 * wad;
  first_order_coeff = 312 * wad;
  polynomial_third_term = 960 * wad;
}

new_invariant_run : new_invariant floored 10 (1000 ∷ 2000 ∷ []) ≡ ok small_reserves
unfolding new_invariant scale_down_value scale_down_loop floored
new_invariant_run = refl

compute_root_run : compute_root floored small_reserves ≡ ok 2_991_150_442_477_876_107_000
unfolding compute_root newton_loop check_root newton_method_single_iteration
    get_stable_swap_polynomial get_derivate_stable_swap_polynomial floored
compute_root_run = refl

compute_root-bound_example :
    2_991_150_442_477_876_107_000 * wad ≤ 3_000_000_000_000_000_000 * (1000 * wad)
compute_root-bound_example = compute_root-bound floored floored_laws small_reserves compute_root_run

eligible_run :
    get_eligible_lp_tokens floored before ((1, 500) ∷ (2, 2000) ∷ []) 10_000 ≡ ok (some 5)
unfolding get_eligible_lp_tokens first_reserve try_mul_div integer_leading_zeros leading_zeros
    floored
eligible_run = refl

get_eligible_lp_tokens-bound_example : 5 * 1_000_000 ≤ 10_000 * 500
get_eligible_lp_tokens-bound_example =
    get_eligible_lp_tokens-bound floored floored_laws before (reserve 1_000_000 1)
      (reserve 4_000_000 2 ∷ no_reserve ∷ no_reserve ∷ []) ((1, 500) ∷ (2, 2000) ∷ []) 10_000 500 5
      refl refl eligible_run

mul_div_run : try_mul_div floored (7 * wad) (9 * wad) (4 * wad) ≡ ok 15_750_000_000_000_000_000
unfolding try_mul_div integer_leading_zeros leading_zeros floored
mul_div_run = refl

try_mul_div-bound_example : 15_750_000_000_000_000_000 * (4 * wad) ≤ 7 * wad * (9 * wad)
try_mul_div-bound_example =
    try_mul_div-bound floored floored_laws (7 * wad) (9 * wad) (4 * wad) mul_div_run
