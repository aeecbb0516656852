-- ===== src/Amm/Endpoints/Liquidity.antt =====
-- `programs/amm/src/endpoints/deposit_liquidity.rs` and `redeem_liquidity.rs`. The remaining
-- accounts are the vaults and the user's wallets in turn.
use solana_amm.Base.{
  ℕ, ◌*◌, not, List, [], ◌∷◌, map, ltb, ◌==◌, length, any, ok, err, panicked, ◌>>=◌, ◌>>◌, raise_if,
  ok_or, invoke, try_map, try_fold,
}
use solana_amm.BTree.{Pubkey, BTreeMap, get, collect}
use solana_amm.Decimal.{DecimalOps}
use solana_amm.Runtime.{
  Runtime, TokenAccount, Mint, pool_signer_seeds, check_seeds, load_account, load_mint,
}
use solana_amm.Amm.Err.{Res, invalid_arg, invalid_account_input, invalid_lp_token_amount}
use solana_amm.Amm.Models.{TokenAmount}
use solana_amm.Amm.Pool.{Pool, initialized, check_amount_tokens_is_valid}
use solana_amm.Amm.Pool.Deposit.{deposit_tokens}
use solana_amm.Amm.Pool.Redeem.{redeem_tokens}
use solana_amm.Amm.Pool.UpdateCurve.{update_curve_invariant}

pub record LiquidityAccounts : Type 0 where
  pub user : Pubkey
  pub pool : Pubkey
  pub pool_signer : Pubkey
  pub lp_mint : Pubkey
  pub lp_token_wallet : Pubkey
  pub remaining_accounts : List Pubkey

-- A remaining account with its key, as it was read when the instruction started.
abbrev pub Loaded : Type 0
Loaded = Pubkey × TokenAccount

-- `token_vaults_wallets.chunks(2)`: an odd account at the end is a chunk of one, whose second
-- element panics.
unfoldable pub chunks : List Loaded → Res (List (Loaded × Loaded))
chunks [] = ok []
chunks (x ∷ []) = err panicked
chunks (x ∷ y ∷ xs) = chunks xs >>= λ cs. ok ((x, y) ∷ cs)

unfoldable pub count_mints : List Loaded → ℕ
count_mints accounts = length (collect (map (λ a. (a.1.mint, a.1.mint)) accounts))

-- The tests on one vault and wallet, with the amount to transfer.
unfoldable pub check_pair : Pubkey → Pool → BTreeMap TokenAmount → Loaded × Loaded → Res TokenAmount
check_pair user pool amounts (vault, wallet) = do
  raise_if (not (vault.1.mint == wallet.1.mint)) invalid_account_input
  raise_if (not (wallet.1.owner == user)) invalid_account_input
  reserves ← initialized pool
  raise_if (not (any (λ r. r.vault == vault.0) reserves)) invalid_account_input
  ok_or (get vault.1.mint amounts) invalid_account_input

unfoldable pub check_length : List Loaded → Pool → Res (Unit {0})
check_length accounts pool =
    raise_if (not (length accounts == 2 * pool.dimension)) invalid_account_input

module _ (rt : Runtime) where
  unfoldable pub load_remaining : rt.Ledger → Pubkey → Res Loaded
  load_remaining ledger key = do account ← load_account rt ledger key; ok (key, account)

  -- The constraints on the accounts, and the mint and the wallet of LP tokens.
  unfoldable pub check_liquidity_accounts :
      LiquidityAccounts → Pool → rt.Ledger → Res (Mint × TokenAccount)
  check_liquidity_accounts accs pool ledger = do
    check_seeds rt (pool_signer_seeds accs.pool) accs.pool_signer
    lp_mint ← load_mint rt ledger accs.lp_mint
    lp_token_wallet ← load_account rt ledger accs.lp_token_wallet
    raise_if (not (accs.lp_mint == pool.mint)) invalid_account_input
    raise_if (not (lp_token_wallet.mint == pool.mint)) invalid_account_input
    ok (lp_mint, lp_token_wallet)

  unfoldable pub load_vaults_wallets : LiquidityAccounts → Pool → rt.Ledger → Res (List Loaded)
  load_vaults_wallets accs pool ledger = do
    accounts ← try_map (load_remaining ledger) accs.remaining_accounts
    raise_if (not (count_mints accounts == pool.dimension)) invalid_account_input
    ok accounts

  -- One round of the loop of a deposit, and of a redemption.
  unfoldable pub deposit_pair :
      LiquidityAccounts → Pool → BTreeMap TokenAmount → rt.Ledger → Loaded × Loaded → Res rt.Ledger
  deposit_pair accs pool amounts ledger (vault, wallet) = do
    tokens ← check_pair accs.user pool amounts (vault, wallet)
    raise_if (ltb wallet.1.amount tokens) invalid_arg
    invoke (rt.transfer wallet.0 vault.0 accs.user tokens ledger)

  unfoldable pub redeem_pair :
      LiquidityAccounts → Pool → BTreeMap TokenAmount → rt.Ledger → Loaded × Loaded → Res rt.Ledger
  redeem_pair accs pool amounts ledger (vault, wallet) = do
    tokens ← check_pair accs.user pool amounts (vault, wallet)
    invoke (rt.transfer vault.0 wallet.0 accs.pool_signer tokens ledger)

  -- The tests of a redemption on the accounts: the vaults and wallets, and the supply of LP tokens.
  unfoldable pub check_redeem :
      LiquidityAccounts → TokenAmount → Pool → rt.Ledger → Res (List Loaded × TokenAmount)
  check_redeem accs lp_tokens_to_burn pool ledger = do
    (lp_mint, lp_token_wallet) ← check_liquidity_accounts accs pool ledger
    accounts ← load_vaults_wallets accs pool ledger
    raise_if (ltb lp_mint.supply lp_tokens_to_burn) invalid_arg
    raise_if (ltb lp_token_wallet.amount lp_tokens_to_burn) invalid_lp_token_amount
    check_length accounts pool
    ok (accounts, lp_mint.supply)

  -- The transfers of a deposit with the LP tokens minted for it, and of a redemption with those
  -- burned.
  unfoldable pub deposit_transfers :
      LiquidityAccounts
      → TokenAmount
      → Pool
      → BTreeMap TokenAmount
      → List Loaded
      → rt.Ledger
      → Res rt.Ledger
  deposit_transfers accs lp_tokens pool amounts accounts ledger = do
    pairs ← chunks accounts
    transferred ← try_fold (deposit_pair accs pool amounts) ledger pairs
    invoke (rt.mint_to accs.lp_mint accs.lp_token_wallet accs.pool_signer lp_tokens transferred)

  unfoldable pub redeem_transfers :
      LiquidityAccounts
      → TokenAmount
      → Pool
      → BTreeMap TokenAmount
      → List Loaded
      → rt.Ledger
      → Res rt.Ledger
  redeem_transfers accs lp_tokens_to_burn pool amounts accounts ledger = do
    pairs ← chunks accounts
    transferred ← try_fold (redeem_pair accs pool amounts) ledger pairs
    invoke (rt.burn accs.lp_mint accs.lp_token_wallet accs.user lp_tokens_to_burn transferred)

  module _ (dec : DecimalOps) where
    unfoldable pub handle_deposit :
        LiquidityAccounts → List (Pubkey × TokenAmount) → Pool → rt.Ledger → Res (Pool × rt.Ledger)
    handle_deposit accs max_amount_tokens pool ledger = do
      (lp_mint, lp_token_wallet) ← check_liquidity_accounts accs pool ledger
      accounts ← load_vaults_wallets accs pool ledger
      check_length accounts pool
      let maxima = collect max_amount_tokens
      check_amount_tokens_is_valid pool maxima
      (deposited, result) ← deposit_tokens dec pool maxima lp_mint.supply
      lp_tokens ← ok_or result.lp_tokens_to_distribute invalid_arg
      minted ← deposit_transfers accs lp_tokens deposited result.tokens_to_deposit accounts ledger
      updated ← update_curve_invariant dec deposited
      ok (updated, minted)

    unfoldable pub handle_redeem :
        LiquidityAccounts
        → TokenAmount
        → List (Pubkey × TokenAmount)
        → Pool
        → rt.Ledger
        → Res (Pool × rt.Ledger)
    handle_redeem accs lp_tokens_to_burn min_amount_tokens pool ledger = do
      (accounts, lp_supply) ← check_redeem accs lp_tokens_to_burn pool ledger
      let minima = collect min_amount_tokens
      check_amount_tokens_is_valid pool minima
      (redeemed, amounts) ← redeem_tokens dec pool minima lp_tokens_to_burn lp_supply
      burned ← redeem_transfers accs lp_tokens_to_burn redeemed amounts accounts ledger
      updated ← update_curve_invariant dec redeemed
      ok (updated, burned)
