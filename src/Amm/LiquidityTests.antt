-- ===== src/Amm/LiquidityTests.antt =====
-- A deposit and a redemption at concrete inputs.
use solana_amm.Base.{◌≡◌, refl, some, none, [], ◌∷◌, ok}
use solana_amm.Decimal.Concrete.{floored, floored_laws}
use solana_amm.Runtime.{pool_signer_seeds, check_seeds, load_account, load_mint}
use solana_amm.Runtime.Concrete.{
  burn, burn_loaded, mint_to, mint_to_loaded, Ledger, on_simple, at, simple, derived, transfer,
  transfer_loaded, move,
}
use solana_amm.Runtime.Lawful.{simple_laws}
use solana_amm.Amm.Pool.{
  count, check_amount_tokens_is_valid, initialized, reserve_mut, update_first, entry,
  reserves_hashmap, add_tokens, remove_tokens,
}
use solana_amm.Amm.Pool.Reserves.{IsValid}
use solana_amm.Amm.Pool.Redeem.{
  redeem_tokens, check_min_tokens, token_to_redeem, is_any_below_min, remove_all,
}
use solana_amm.Amm.Endpoints.Liquidity.{
  LiquidityAccounts, chunks, count_mints, check_pair, check_length, load_remaining,
  check_liquidity_accounts, load_vaults_wallets, redeem_pair, check_redeem, redeem_transfers,
  handle_redeem, deposit_pair, deposit_transfers, handle_deposit,
}
use solana_amm.Amm.Math.Helpers.{try_mul_div, integer_leading_zeros, leading_zeros}
use solana_amm.Amm.Pool.Deposit.{
  deposit_tokens, check_max_tokens, later_amounts, get_deposit_ratio, ratio, minimum,
  token_to_deposit, get_eligible_lp_tokens, first_reserve, add_all,
}
use solana_amm.Amm.Endpoints.Backing.Deposit.{handle_deposit-Backed}
use solana_amm.Amm.Endpoints.Backing.Redeem.{handle_redeem-Backed}
use solana_amm.Amm.Pool.UpdateCurve.{update_curve, update_curve_invariant}
use solana_amm.Amm.Endpoints.Backing.{Backed}
use solana_amm.Amm.EndpointTests.{
  account_of, pool_of, accounts, ledger, before, pool_of-IsValid, reserves-Backed,
  user_is_not_signer,
}

abbrev liquidity_accounts : LiquidityAccounts
liquidity_accounts = record {
  user = 5;
  pool = 7;
  pool_signer = 2_000_007;
  lp_mint = 50;
  lp_token_wallet = 80;
  remaining_accounts = 101 ∷ 71 ∷ 102 ∷ 72 ∷ [];
}

abbrev with_lp_wallet : Ledger
with_lp_wallet = record ledger { accounts = at 80 (account_of 50 5 10) accounts }

abbrev redeemed_ledger : Ledger
redeemed_ledger = record {
  accounts = at 80 (account_of 50 5 0) (
      at 72 (account_of 12 5 666) (
        at 102 (account_of 12 2_000_007 1334) (
          at 71 (account_of 11 5 833)
            (at 101 (account_of 11 2_000_007 667) with_lp_wallet.accounts))));
  mints =
      at 50 (record { supply = 20; mint_authority = some 2_000_007; freeze_authority = none })
        ledger.mints;
}

handle_redeem_run :
    handle_redeem simple floored liquidity_accounts 10
      ((11, 1) ∷ (12, 1) ∷ [])
      before
      (on_simple with_lp_wallet)
    ≡ ok (pool_of 667 1334, on_simple redeemed_ledger)
unfolding on_simple handle_redeem check_redeem check_liquidity_accounts load_vaults_wallets
    load_remaining count_mints check_length check_amount_tokens_is_valid count redeem_tokens
    check_min_tokens token_to_redeem is_any_below_min remove_all redeem_transfers chunks redeem_pair
    check_pair check_seeds load_account load_mint simple derived transfer transfer_loaded move burn
    burn_loaded floored reserve_mut update_first remove_tokens initialized update_curve_invariant
    update_curve
handle_redeem_run = refl

with_lp_wallet-Backed :
    Backed simple
      (simple.find_program_address (pool_signer_seeds 7))
      before
      (on_simple with_lp_wallet)
with_lp_wallet-Backed = reserves-Backed with_lp_wallet refl refl

handle_redeem-Backed_example :
    IsValid (pool_of 667 1334)
    × Backed simple
        (simple.find_program_address (pool_signer_seeds 7))
        (pool_of 667 1334)
        (on_simple redeemed_ledger)
handle_redeem-Backed_example =
    handle_redeem-Backed floored floored_laws simple simple_laws liquidity_accounts 10
      ((11, 1) ∷ (12, 1) ∷ []) before (on_simple with_lp_wallet) (pool_of-IsValid 1000 2000)
      user_is_not_signer with_lp_wallet-Backed handle_redeem_run

abbrev with_wallets : Ledger
with_wallets = record with_lp_wallet {
  accounts = at 72 (account_of 12 5 500) with_lp_wallet.accounts;
}

abbrev deposited_ledger : Ledger
deposited_ledger = record {
  accounts = at 80 (account_of 50 5 13) (
      at 102 (account_of 12 2_000_007 2200) (
        at 72 (account_of 12 5 300) (
          at 101 (account_of 11 2_000_007 1100)
            (at 71 (account_of 11 5 400) with_wallets.accounts))));
  mints =
      at 50 (record { supply = 33; mint_authority = some 2_000_007; freeze_authority = none })
        ledger.mints;
}

-- 300 of the second token are offered, 200 are taken.
handle_deposit_run :
    handle_deposit simple floored liquidity_accounts
      ((11, 100) ∷ (12, 300) ∷ [])
      before
      (on_simple with_wallets)
    ≡ ok (pool_of 1100 2200, on_simple deposited_ledger)
unfolding on_simple handle_deposit check_liquidity_accounts load_vaults_wallets load_remaining
    count_mints check_length check_amount_tokens_is_valid count deposit_tokens check_max_tokens
    later_amounts get_deposit_ratio ratio minimum token_to_deposit get_eligible_lp_tokens
    first_reserve try_mul_div integer_leading_zeros leading_zeros add_all deposit_transfers chunks
    deposit_pair check_pair check_seeds load_account load_mint simple derived transfer
    transfer_loaded move mint_to mint_to_loaded floored reserves_hashmap entry reserve_mut
    update_first add_tokens initialized update_curve_invariant update_curve
handle_deposit_run = refl

with_wallets-Backed :
    Backed simple
      (simple.find_program_address (pool_signer_seeds 7))
      before
      (on_simple with_wallets)
with_wallets-Backed = reserves-Backed with_wallets refl refl

handle_deposit-Backed_example :
    IsValid (pool_of 1100 2200)
    × Backed simple
        (simple.find_program_address (pool_signer_seeds 7))
        (pool_of 1100 2200)
        (on_simple deposited_ledger)
handle_deposit-Backed_example =
    handle_deposit-Backed simple simple_laws floored liquidity_accounts ((11, 100) ∷ (12, 300) ∷ [])
      before (on_simple with_wallets) (pool_of-IsValid 1000 2000) user_is_not_signer
      with_wallets-Backed handle_deposit_run
