-- ===== src/Amm/Pool/Redeem.antt =====
-- `Pool::redeem_tokens`.
pub mod Share
pub mod Loop
use solana_amm.Base.{
  ℕ, Bool, true, false, not, Option, none, some, List, [], ◌∷◌, ltb, ◌==◌, if◌then◌else◌, length,
  any, ok, err, panicked, ◌>>=◌, ◌>>◌, raise_if, ok_or, unwrap, lift, try_map, try_fold,
}
use solana_amm.BTree.{Pubkey, BTreeMap, get, contains_key, collect}
use solana_amm.Decimal.{DecimalOps}
use solana_amm.Amm.Err.{Res, invalid_arg, invariant_violation}
use solana_amm.Amm.Models.{TokenAmount}
use solana_amm.Amm.Pool.{Pool, Reserve, initialized, reserve_mut, remove_tokens}

-- The closure of `tokens_to_redeem.iter().any(…)`, whose `unwrap` may panic: `any` stops at the
-- first entry below its minimum.
unfoldable pub is_any_below_min : BTreeMap TokenAmount → BTreeMap TokenAmount → Res Bool
is_any_below_min min_tokens [] = ok false
is_any_below_min min_tokens ((mint, token) ∷ m) = unwrap (get mint min_tokens) >>= λ min_token.
    let rest = is_any_below_min min_tokens m in if ltb token min_token then ok true else rest

-- The loop over `tokens_to_redeem`.
unfoldable pub remove_all : Pool → BTreeMap TokenAmount → Res Pool
remove_all = try_fold (λ pool e. reserve_mut e.0 (remove_tokens e.1) pool)

module _ (dec : DecimalOps) where
  open dec use {from_u64, try_mul, try_div, try_floor}

  unfoldable pub token_to_redeem : ℕ → Reserve → Res (Pubkey × TokenAmount)
  token_to_redeem weight r = do
    exact ← lift (try_mul (from_u64 r.tokens) weight)
    amount ← lift (try_floor exact)
    ok (r.mint, amount)

  -- The checks at the head of the method.
  unfoldable pub check_min_tokens :
      Pool → BTreeMap TokenAmount → TokenAmount → TokenAmount → Res (List Reserve)
  check_min_tokens self min_tokens lp_tokens_to_burn lp_mint_supply = do
    raise_if (lp_mint_supply == 0) invalid_arg
    raise_if (ltb lp_mint_supply lp_tokens_to_burn) invalid_arg
    raise_if (not (length min_tokens == self.dimension)) invalid_arg
    reserves ← initialized self
    raise_if (any (λ r. not (contains_key r.mint min_tokens)) reserves) invalid_arg
    ok reserves

  unfoldable pub redeem_tokens :
      Pool → BTreeMap TokenAmount → TokenAmount → TokenAmount → Res (Pool × BTreeMap TokenAmount)
  redeem_tokens self min_tokens lp_tokens_to_burn lp_mint_supply = do
    reserves ← check_min_tokens self min_tokens lp_tokens_to_burn lp_mint_supply
    weight ← lift (try_div (from_u64 lp_tokens_to_burn) (from_u64 lp_mint_supply))
    redeemed ← try_map (token_to_redeem weight) reserves
    let tokens_to_redeem = collect redeemed
    is_below ← is_any_below_min min_tokens tokens_to_redeem
    raise_if is_below invalid_arg
    pool ← remove_all self tokens_to_redeem
    ok (pool, tokens_to_redeem)
