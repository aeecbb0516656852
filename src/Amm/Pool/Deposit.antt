-- ===== src/Amm/Pool/Deposit.antt =====
-- `Pool::deposit_tokens` with the methods that it calls.
pub mod Minted
pub mod Least
pub mod Limit
use solana_amm.Base.{
  ℕ, Bool, not, Option, none, some, List, [], ◌∷◌, min, max, ltb, ◌==◌, if◌then◌else◌, length, any,
  ok, err, panicked, ◌>>=◌, ◌>>◌, raise_if, ok_or, lift, try_map, try_fold,
}
use solana_amm.BTree.{Pubkey, BTreeMap, get, contains_key, values}
use solana_amm.Decimal.{DecimalOps}
use solana_amm.Amm.Err.{Res, invalid_arg, invariant_violation}
use solana_amm.Amm.Models.{TokenAmount}
use solana_amm.Amm.Math.Helpers.{try_mul_div}
use solana_amm.Amm.Pool.{
  Pool, Reserve, DepositResult, initialized, reserve_mut, reserves_hashmap, add_tokens,
}

-- `Iterator::min` and `Iterator::max`
unfoldable pub minimum : List ℕ → Option ℕ
minimum [] = none
minimum (x ∷ xs) = elim (minimum xs) [ none ↦ some x | some y ↦ some (min x y) ]

unfoldable pub maximum : List ℕ → Option ℕ
maximum [] = none
maximum (x ∷ xs) = elim (maximum xs) [ none ↦ some x | some y ↦ some (max x y) ]

-- The loop over `tokens_to_deposit`.
unfoldable pub add_all : Pool → BTreeMap TokenAmount → Res Pool
add_all = try_fold (λ pool e. reserve_mut e.0 (add_tokens e.1) pool)

module _ (dec : DecimalOps) where
  open dec use {from_u64, try_mul, try_div, try_div_u64, try_floor, try_ceil}

  -- `max_token / reserve` and `reserve / max_token` for one entry of `max_deposits`.
  unfoldable pub ratio : BTreeMap TokenAmount → Pubkey × TokenAmount → Res ℕ
  ratio reserves (mint, max_token) = do
    token_reserve ← ok_or (get mint reserves) invariant_violation
    lift (try_div_u64 (from_u64 max_token) token_reserve)

  unfoldable pub invert_ratio : BTreeMap TokenAmount → Pubkey × TokenAmount → Res ℕ
  invert_ratio reserves (mint, max_token) = do
    token_reserve ← ok_or (get mint reserves) invariant_violation
    lift (try_div_u64 (from_u64 token_reserve) max_token)

  unfoldable pub get_deposit_ratio : BTreeMap TokenAmount → BTreeMap TokenAmount → Res (ℕ × Bool)
  get_deposit_ratio reserves max_deposits =
      let is_inverted = any (λ t. ltb 10_000_000_000 t) (values reserves) in
      if not is_inverted
      then (try_map (ratio reserves) max_deposits >>= λ ratios.
          ok_or (minimum ratios) invariant_violation >>= λ min_ratio. ok (min_ratio, is_inverted))
      else (try_map (invert_ratio reserves) max_deposits >>= λ ratios.
          ok_or (maximum ratios) invariant_violation >>= λ max_ratio. ok (max_ratio, is_inverted))

  -- What is deposited of one reserve.
  unfoldable pub token_to_deposit : ℕ → Bool → Pubkey × TokenAmount → Res (Pubkey × TokenAmount)
  token_to_deposit ratio is_inverted (mint, token_reserve) = do
    exact ←
        if is_inverted
        then lift (try_div (from_u64 token_reserve) ratio)
        else lift (try_mul (from_u64 token_reserve) ratio)
    amount ← lift (try_ceil exact)
    ok (mint, amount)

  -- `self.reserves[0]` of the whole array; its absence is an index out of bounds.
  unfoldable pub first_reserve : Pool → Res Reserve
  first_reserve self = elim self.reserves [ [] ↦ err panicked | r ∷ _ ↦ ok r ]

  unfoldable pub get_eligible_lp_tokens :
      Pool → BTreeMap TokenAmount → TokenAmount → Res (Option TokenAmount)
  get_eligible_lp_tokens self tokens_deposited lp_mint_supply = do
    any_reserve ← first_reserve self
    reserve_deposit ← ok_or (get any_reserve.mint tokens_deposited) invariant_violation
    share ←
        try_mul_div dec (from_u64 lp_mint_supply) (from_u64 reserve_deposit)
          (from_u64 any_reserve.tokens)
    tokens ← lift (try_floor share)
    ok (if tokens == 0 then none else some tokens)

  -- The amounts of a first deposit and of a later one.
  unfoldable pub first_amounts :
      BTreeMap TokenAmount → Res (BTreeMap TokenAmount × Option TokenAmount)
  first_amounts max_tokens = do
    lp_tokens_to_distribute ← ok_or (minimum (values max_tokens)) invariant_violation
    ok (max_tokens, some lp_tokens_to_distribute)

  unfoldable pub later_amounts :
      Pool → BTreeMap TokenAmount → TokenAmount → Res (BTreeMap TokenAmount × Option TokenAmount)
  later_amounts self max_tokens lp_mint_supply = do
    reserves ← reserves_hashmap self
    (ratio, is_inverted) ← get_deposit_ratio reserves max_tokens
    tokens_to_deposit ← try_map (token_to_deposit ratio is_inverted) reserves
    lp_tokens_to_distribute ← get_eligible_lp_tokens self tokens_to_deposit lp_mint_supply
    ok (tokens_to_deposit, lp_tokens_to_distribute)

  -- The checks at the head of the method.
  unfoldable pub check_max_tokens : Pool → BTreeMap TokenAmount → Res (Unit {0})
  check_max_tokens self max_tokens = do
    raise_if (any (λ v. v == 0) (values max_tokens)) invalid_arg
    raise_if (not (length max_tokens == self.dimension)) invalid_arg
    reserves ← initialized self
    raise_if (any (λ r. not (contains_key r.mint max_tokens)) reserves) invalid_arg

  unfoldable pub deposit_tokens :
      Pool → BTreeMap TokenAmount → TokenAmount → Res (Pool × DepositResult)
  deposit_tokens self max_tokens lp_mint_supply = do
    check_max_tokens self max_tokens
    (tokens_to_deposit, lp_tokens_to_distribute) ←
        if lp_mint_supply == 0
        then first_amounts max_tokens
        else later_amounts self max_tokens lp_mint_supply
    pool ← add_all self tokens_to_deposit
    ok (
      pool,
      record {
        lp_tokens_to_distribute = lp_tokens_to_distribute;
        tokens_to_deposit = tokens_to_deposit;
      },
    )
