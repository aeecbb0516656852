-- ===== src/Amm/Endpoints/Swap.antt =====
-- `programs/amm/src/endpoints/swap.rs`.
pub mod Fee
use solana_amm.Base.{
  ℕ, ◌-◌, Bool, false, not, Option, none, some, map, ltb, ◌==◌, if◌then◌else◌, any, ok, ◌>>=◌, ◌>>◌,
  raise_if, assert, invoke, unwrap, lift, checked_sub, u64_end,
}
use solana_amm.BTree.{Pubkey, collect}
use solana_amm.Decimal.{DecimalOps}
use solana_amm.Runtime.{
  TokenAccount, Mint, Runtime, pool_signer_seeds, discount_seeds, check_seeds, load_account,
  load_mint,
}
use solana_amm.Amm.Err.{Res, invalid_arg, invalid_account_input, slippage_exceeded}
use solana_amm.Amm.Models.{
  TokenAmount, Slot, Permillion, Discount, does_apply, program_toll_swap_fee_share,
}
use solana_amm.Amm.Pool.{Pool, Reserve, initialized, reserve_vault, reserve_mut, add_tokens}
use solana_amm.Amm.Pool.Deposit.{deposit_tokens}
use solana_amm.Amm.Pool.Swap
use solana_amm.Amm.Pool.UpdateCurve.{update_curve_invariant}

-- The accounts of the instruction. `discount_data` is `none` where the discount account does not
-- belong to the program, which is to say that it was never created.
pub record SwapAccounts : Type 0 where
  pub user : Pubkey
  pub discount : Pubkey
  pub discount_data : Option Discount
  pub pool : Pubkey
  pub pool_signer : Pubkey
  pub sell_wallet : Pubkey
  pub buy_wallet : Pubkey
  pub sell_vault : Pubkey
  pub buy_vault : Pubkey
  pub lp_mint : Pubkey
  pub program_toll_wallet : Pubkey

-- `a == Some(b)`
abbrev pub is_some_of : Option Pubkey → Pubkey → Bool
is_some_of none k = false
is_some_of (some j) k = j == k

-- `self.reserve_mut(mint).unwrap()`, and the change made through it.
unfoldable pub reserve_mut_unwrap : Pubkey → (Reserve → Res Reserve) → Pool → Res Pool
reserve_mut_unwrap mint f self = do
  reserves ← initialized self
  assert (any (λ r. r.mint == mint) reserves)
  reserve_mut mint f self

-- The maxima of the pretended deposit.
unfoldable pub toll_deposit : Pubkey → TokenAmount → Reserve → Pubkey × TokenAmount
toll_deposit sell_mint toll r = (r.mint, if r.mint == sell_mint then toll else u64_end - 1)

-- The accounts of the token program, as they were read when the instruction started.
pub record SwapTokens : Type 0 where
  pub sell_wallet : TokenAccount
  pub buy_wallet : TokenAccount
  pub sell_vault : TokenAccount
  pub buy_vault : TokenAccount
  pub lp_mint : Mint

module _ (rt : Runtime) where
  unfoldable pub load_swap_accounts : SwapAccounts → rt.Ledger → Res SwapTokens
  load_swap_accounts accs ledger = do
    check_seeds rt (discount_seeds accs.user) accs.discount
    check_seeds rt (pool_signer_seeds accs.pool) accs.pool_signer
    sell_wallet ← load_account rt ledger accs.sell_wallet
    buy_wallet ← load_account rt ledger accs.buy_wallet
    sell_vault ← load_account rt ledger accs.sell_vault
    buy_vault ← load_account rt ledger accs.buy_vault
    lp_mint ← load_mint rt ledger accs.lp_mint
    toll_wallet ← load_account rt ledger accs.program_toll_wallet
    ok (record {
      sell_wallet = sell_wallet;
      buy_wallet = buy_wallet;
      sell_vault = sell_vault;
      buy_vault = buy_vault;
      lp_mint = lp_mint;
    })

  -- Steps 2 and 3: the two transfers.
  unfoldable pub swap_transfers :
      SwapAccounts → TokenAmount → TokenAmount → rt.Ledger → Res rt.Ledger
  swap_transfers accs sell bought ledger = do
    paid ← invoke (rt.transfer accs.sell_wallet accs.sell_vault accs.user sell ledger)
    invoke (rt.transfer accs.buy_vault accs.buy_wallet accs.pool_signer bought paid)

  -- Step 4: the toll is minted.
  unfoldable pub pay_toll : SwapAccounts → Option TokenAmount → rt.Ledger → Res rt.Ledger
  pay_toll accs none ledger = ok ledger
  pay_toll accs (some toll) ledger =
      invoke (rt.mint_to accs.lp_mint accs.program_toll_wallet accs.pool_signer toll ledger)

-- The constraints on the mints of the wallets and the vaults.
unfoldable pub check_swap_mints : SwapTokens → Res (Unit {0})
check_swap_mints t = do
  raise_if (t.sell_wallet.mint == t.buy_wallet.mint) invalid_account_input
  raise_if (not (t.sell_wallet.mint == t.sell_vault.mint)) invalid_account_input
  raise_if (not (t.buy_wallet.mint == t.buy_vault.mint)) invalid_account_input

-- The constraint that an account is the vault of the reserve of its mint.
unfoldable pub check_reserve_vault : Pool → Pubkey → TokenAccount → Res (Unit {0})
check_reserve_vault pool key vault = do
  listed ← reserve_vault pool vault.mint
  raise_if (not (is_some_of listed key)) invalid_account_input

unfoldable pub check_swap_accounts : SwapAccounts → Pool → SwapTokens → Res (Unit {0})
check_swap_accounts accs pool t = do
  check_swap_mints t
  check_reserve_vault pool accs.sell_vault t.sell_vault
  check_reserve_vault pool accs.buy_vault t.buy_vault
  raise_if (not (pool.mint == accs.lp_mint)) invalid_account_input
  raise_if (t.lp_mint.supply == 0) invalid_account_input
  raise_if (not (pool.program_toll_wallet == accs.program_toll_wallet)) invalid_account_input

module _ (dec : DecimalOps) where
  open dec use {from_u64, from_permillion, try_sub, try_mul, try_div, try_ceil, try_round}

  -- The share of the sold tokens that is the fee, once the discount is applied.
  unfoldable pub discounted_share : Slot → Permillion → Option Discount → Res ℕ
  discounted_share time swap_fee_share none = ok (from_permillion swap_fee_share)
  discounted_share time swap_fee_share (some discount) =
      if not (does_apply time discount)
      then ok (from_permillion swap_fee_share)
      else (lift (try_mul (from_permillion swap_fee_share) (from_permillion discount.amount))
          >>= λ cut. lift (try_sub (from_permillion swap_fee_share) cut))

  unfoldable pub calculate_swap_fee :
      Slot → TokenAmount → Permillion → Option Discount → Res TokenAmount
  calculate_swap_fee time sell swap_fee_share discount = do
    share ← discounted_share time swap_fee_share discount
    exact ← lift (try_mul (from_u64 sell) share)
    lift (try_ceil exact)

  -- `lp_tokens_to_distribute` of a deposit into a copy of the pool, which is dropped.
  unfoldable pub pretend_deposit :
      Pool → TokenAmount → Pubkey → TokenAmount → Res (Option TokenAmount)
  pretend_deposit pool toll sell_mint lp_supply = do
    reserves ← initialized pool
    (_, result) ←
        deposit_tokens dec pool (collect (map (toll_deposit sell_mint toll) reserves)) lp_supply
    ok result.lp_tokens_to_distribute

  unfoldable pub calculate_toll_in_lp_tokens :
      Pool → TokenAmount → Pubkey → TokenAmount → Res (Option TokenAmount)
  calculate_toll_in_lp_tokens pool swap_fee sell_mint lp_supply = do
    share ← lift (try_mul (from_u64 swap_fee) (from_permillion program_toll_swap_fee_share))
    exact ← lift (try_div share (from_u64 pool.dimension))
    toll ← lift (try_round exact)
    if toll == 0 then ok none else pretend_deposit pool toll sell_mint lp_supply

  -- Step 1 of the handler: the fee, the swap, and the fee's place in the reserves.
  unfoldable pub swap_with_fee :
      SwapAccounts
      → Slot
      → TokenAmount
      → Pubkey
      → Pubkey
      → Pool
      → Res (Pool × TokenAmount × TokenAmount)
  swap_with_fee accs time sell sell_mint buy_mint pool = do
    swap_fee ← calculate_swap_fee time sell pool.swap_fee accs.discount_data
    tokens_to_swap ← unwrap (checked_sub sell swap_fee)
    (swapped, bought) ← Swap.swap dec pool sell_mint tokens_to_swap buy_mint
    collected ← reserve_mut_unwrap sell_mint (add_tokens swap_fee) swapped
    ok (collected, bought, swap_fee)

  module _ (rt : Runtime) where
    unfoldable pub handle_swap :
        SwapAccounts → Slot → TokenAmount → TokenAmount → Pool → rt.Ledger → Res (Pool × rt.Ledger)
    handle_swap accs time sell min_buy pool ledger = do
      tokens ← load_swap_accounts rt accs ledger
      check_swap_accounts accs pool tokens
      raise_if (sell == 0) invalid_arg
      (swapped, bought, swap_fee) ←
          swap_with_fee accs time sell tokens.sell_vault.mint tokens.buy_vault.mint pool
      raise_if (ltb bought min_buy) slippage_exceeded
      transferred ← swap_transfers rt accs sell bought ledger
      toll ←
          calculate_toll_in_lp_tokens swapped swap_fee tokens.sell_vault.mint tokens.lp_mint.supply
      paid ← pay_toll rt accs toll transferred
      updated ← update_curve_invariant dec swapped
      ok (updated, paid)
