-- ===== src/Amm/Pool/Swap.antt =====
-- `Pool::calculate_swap` and `Pool::swap`.
pub mod ConstProd
pub mod Drain
pub mod Quote
pub mod Balances
use solana_amm.Base.{
  ℕ, Bool, true, false, not, Option, none, some, List, [], ◌∷◌, map, leb, ◌==◌, if◌then◌else◌,
  length, any, ok, ◌>>=◌, ◌>>◌, raise_if, unwrap, lift, try_map, checked_add,
}
use solana_amm.BTree.{Pubkey, BTreeMap, get, contains_key, values}
use solana_amm.Decimal.{DecimalOps}
use solana_amm.Amm.Err.{Res, invalid_arg}
use solana_amm.Amm.Models.{TokenAmount}
use solana_amm.Amm.Math.Helpers.{fold_product, fold_sum}
use solana_amm.Amm.Math.SwapEquation.{
  get_buy_reserve_balance_after_swap, compute_delta_withdraw_token_amount,
}
use solana_amm.Amm.Pool.{
  Pool, Curve, const_prod, stable, reserves_hashmap, reserve_mut, add_tokens, remove_tokens,
}

-- `.filter(|(mint, _)| **mint != buy_mint)`
unfoldable pub except_mint : Pubkey → BTreeMap TokenAmount → BTreeMap TokenAmount
except_mint buy_mint [] = []
except_mint buy_mint ((mint, tokens) ∷ m) =
    if mint == buy_mint then except_mint buy_mint m else (mint, tokens) ∷ except_mint buy_mint m

-- The balance of one entry once the tokens are sold; the sum panics on overflow.
unfoldable pub balance_after_swap : Pubkey → TokenAmount → Pubkey × TokenAmount → Res TokenAmount
balance_after_swap sell_mint tokens_to_swap (mint, tokens) =
    if mint == sell_mint then unwrap (checked_add tokens tokens_to_swap) else ok tokens

-- The checks at the head of `calculate_swap`.
unfoldable pub check_swap : BTreeMap TokenAmount → Pubkey → TokenAmount → Pubkey → Res (Unit {0})
check_swap reserves sell_mint tokens_to_swap buy_mint = do
  raise_if (any (λ v. v == 0) (values reserves)) invalid_arg
  raise_if (not (contains_key buy_mint reserves)) invalid_arg
  raise_if (not (contains_key sell_mint reserves)) invalid_arg
  sell_reserve ← unwrap (get sell_mint reserves)
  raise_if (leb sell_reserve tokens_to_swap) invalid_arg

module _ (dec : DecimalOps) where
  open dec use {from_u64, try_div, try_floor}

  -- The balance of the bought token that the curve asks for, from the balances of the others.
  unfoldable pub bought_balance_after_swap : Curve → BTreeMap TokenAmount → List ℕ → ℕ → Res ℕ
  bought_balance_after_swap const_prod reserves balances product = do
    k ← fold_product dec (map from_u64 (values reserves))
    lift (try_div k product)
  bought_balance_after_swap (stable amplifier invariant) reserves balances product = do
    sum ← fold_sum dec balances
    get_buy_reserve_balance_after_swap dec (length reserves) (from_u64 amplifier) invariant sum
        product

  unfoldable pub calculate_swap : Pool → Pubkey → TokenAmount → Pubkey → Res TokenAmount
  calculate_swap self sell_mint tokens_to_swap buy_mint = do
    reserves ← reserves_hashmap self
    check_swap reserves sell_mint tokens_to_swap buy_mint
    balances ← try_map (balance_after_swap sell_mint tokens_to_swap) (except_mint buy_mint reserves)
    let decimals = map from_u64 balances
    product ← fold_product dec decimals
    balance ← bought_balance_after_swap self.curve reserves decimals product
    tokens_to_receive ← compute_delta_withdraw_token_amount dec balance reserves buy_mint
    lift (try_floor tokens_to_receive)

  unfoldable pub swap : Pool → Pubkey → TokenAmount → Pubkey → Res (Pool × TokenAmount)
  swap self sell_mint tokens_to_swap buy_mint = do
    receive_tokens ← calculate_swap self sell_mint tokens_to_swap buy_mint
    sold ← reserve_mut sell_mint (add_tokens tokens_to_swap) self
    bought ← reserve_mut buy_mint (remove_tokens receive_tokens) sold
    ok (bought, receive_tokens)
