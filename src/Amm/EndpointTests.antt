-- ===== src/Amm/EndpointTests.antt =====
-- The theorems on the AMM's endpoints at a concrete pool and ledger, and runs of the handlers.
use solana_amm.Base.{
  ℕ, ◌+◌, ◌*◌, ◌≤◌, ◌<◌, ◌≡◌, ◌≢◌, inl, inr, refl, Option, some, none, List, [], ◌∷◌, false, arith,
  ok, ◌==◌, Bool-cases,
}
use solana_amm.BTree.{Pubkey}
use solana_amm.Decimal.Concrete.{floored, floored_laws}
use solana_amm.Runtime.{TokenAccount, pool_signer_seeds, check_seeds, load_account, load_mint}
use solana_amm.Runtime.Concrete.{
  Ledger, on_simple, at, simple, derived, transfer, transfer_loaded, move,
}
use solana_amm.Runtime.Lawful.{simple_laws}
use solana_amm.Amm.Models.{Discount, does_apply}
use solana_amm.Amm.Pool.{
  Pool, const_prod, initialized, reserve_vault, reserve_mut, update_first, entry, reserves_hashmap,
  add_tokens, remove_tokens,
}
use solana_amm.Amm.Pool.Reserves.{IsValid}
use solana_amm.Amm.Pool.Swap.{
  swap, calculate_swap, check_swap, except_mint, balance_after_swap, bought_balance_after_swap,
}
use solana_amm.Amm.Math.Helpers.{fold_product}
use solana_amm.Amm.Math.SwapEquation.{compute_delta_withdraw_token_amount}
use solana_amm.Amm.Endpoints.CreatePool.{
  CreatePoolAccounts, check_create_pool_accounts, add_reserves, check_vault, is_none, is_exactly,
  initial_curve, handle_create_pool,
}
use solana_amm.Amm.Endpoints.Backing.Create.{handle_create_pool-Backed}
use solana_amm.Amm.Pool.UpdateCurve.{update_curve, update_curve_invariant}
use solana_amm.Amm.Endpoints.Swap.{
  SwapAccounts, discounted_share, calculate_swap_fee, calculate_toll_in_lp_tokens,
  load_swap_accounts, check_swap_mints, check_reserve_vault, check_swap_accounts,
  reserve_mut_unwrap, swap_with_fee, swap_transfers, pay_toll, handle_swap,
}
use solana_amm.Amm.Endpoints.Swap.Fee.{discount_in_force, exact_fee, calculate_swap_fee_lem}
use solana_amm.Amm.Endpoints.Admin.{set_pool_swap_fee}
use solana_amm.Amm.Endpoints.Backing.Steps.{created, fee_set, swapped, Reachable-Backed}
use solana_amm.Amm.Endpoints.Backing.{Backed}
use solana_amm.Amm.Endpoints.Backing.Swap.{handle_swap-Backed}

abbrev half_off : Option Discount
half_off = some (record { amount = 500_000; valid_until = 90 })

calculate_swap_fee_run : calculate_swap_fee floored 80 1000 10_000 half_off ≡ ok 5
unfolding calculate_swap_fee discounted_share does_apply floored
calculate_swap_fee_run = refl

calculate_swap_fee_lem_example :
    (exact_fee 1000 10_000 (discount_in_force 80 half_off) ≤ 5 * 1_000_000_000_000)
    × (5 * 1_000_000_000_000
        < exact_fee 1000 10_000 (discount_in_force 80 half_off) + 1_000_000_000_000)
    × (10_000 ≤ 1_000_000 → 5 ≤ 1000)
calculate_swap_fee_lem_example =
    calculate_swap_fee_lem floored floored_laws 80 1000 10_000 half_off calculate_swap_fee_run

abbrev pub account_of : Pubkey → Pubkey → ℕ → TokenAccount
account_of mint owner amount = record {
  mint = mint;
  owner = owner;
  amount = amount;
  delegate = none;
  close_authority = none;
  is_frozen = false;
}

-- The pool 7, whose signer has the address 2000007.
abbrev pub pool_of : ℕ → ℕ → Pool
pool_of a b = record {
  admin = 8;
  signer = 2_000_007;
  mint = 50;
  program_toll_wallet = 60;
  dimension = 2;
  reserves =
      record { tokens = a; mint = 11; vault = 101 }
      ∷ record { tokens = b; mint = 12; vault = 102 }
      ∷ record { tokens = 0; mint = 0; vault = 0 }
      ∷ record { tokens = 0; mint = 0; vault = 0 }
      ∷ [];
  curve = const_prod;
  swap_fee = 10_000;
}

abbrev pub accounts : Pubkey → Option TokenAccount
accounts = at 101 (account_of 11 2_000_007 1000) (
    at 102 (account_of 12 2_000_007 2000) (
      at 71 (account_of 11 5 500)
        (at 72 (account_of 12 5 0) (at 60 (account_of 50 9 0) (λ k. none)))))

abbrev pub ledger : Ledger
ledger = record {
  accounts = accounts;
  mints =
      at 50 (record { supply = 30; mint_authority = some 2_000_007; freeze_authority = none })
        (λ k. none);
}

abbrev swap_accounts : SwapAccounts
swap_accounts = record {
  user = 5;
  discount = 3_000_005;
  discount_data = none;
  pool = 7;
  pool_signer = 2_000_007;
  sell_wallet = 71;
  buy_wallet = 72;
  sell_vault = 101;
  buy_vault = 102;
  lp_mint = 50;
  program_toll_wallet = 60;
}

abbrev swapped_ledger : Ledger
swapped_ledger = record ledger {
  accounts = at 72 (account_of 12 5 180) (
      at 102 (account_of 12 2_000_007 1820)
        (at 101 (account_of 11 2_000_007 1100) (at 71 (account_of 11 5 400) accounts)));
}

abbrev pub before : Pool
before = pool_of 1000 2000

abbrev after : Pool
after = pool_of 1100 1820

handle_swap_run :
    handle_swap floored simple swap_accounts 80 100 170 before (on_simple ledger)
    ≡ ok (after, on_simple swapped_ledger)
unfolding on_simple handle_swap load_swap_accounts check_swap_accounts check_swap_mints
    check_reserve_vault swap_with_fee swap_transfers pay_toll calculate_toll_in_lp_tokens
    reserve_mut_unwrap calculate_swap_fee discounted_share check_seeds load_account load_mint simple
    derived transfer transfer_loaded move floored swap calculate_swap reserves_hashmap check_swap
    except_mint balance_after_swap fold_product bought_balance_after_swap
    compute_delta_withdraw_token_amount reserve_mut update_first add_tokens remove_tokens
    initialized entry reserve_vault update_curve_invariant update_curve
handle_swap_run = refl

pub pool_of-IsValid : (a b : ℕ) → IsValid (pool_of a b)
pool_of-IsValid a b = record {
  capacity = omega arith;
  distinct = (((λ e. omega arith), tt), (tt, tt));
}

none≢some : {A : Type 0} {a : A} → none ≡ some a → ⊥
none≢some h = cc

pub reserves-Backed :
    (l : Ledger)
    → l.accounts 101 ≡ some (account_of 11 2_000_007 1000)
    → l.accounts 102 ≡ some (account_of 12 2_000_007 2000)
    → Backed simple (simple.find_program_address (pool_signer_seeds 7)) before (on_simple l)
unfolding simple on_simple derived
reserves-Backed l e e' k b h = elim (Bool-cases (11 == k)) [
  | inl first ↦ record {
    vault = 101;
    account = account_of 11 2_000_007 1000;
    listed = rw first refl;
    loaded = e;
    mint = ground (arith, first);
    owner = refl;
    delegate = refl;
    close_authority = refl;
    covered = ground (arith, rw first at h);
  }
  | inr other ↦ elim (Bool-cases (12 == k)) [
    | inl second ↦ record {
      vault = 102;
      account = account_of 12 2_000_007 2000;
      listed = rw (other, second) refl;
      loaded = e';
      mint = ground (arith, second);
      owner = refl;
      delegate = refl;
      close_authority = refl;
      covered = ground (arith, rw (other, second) at h);
    }
    | inr neither ↦ absurd (none≢some (rw (other, neither) at h))
  ]
]

before-Backed :
    Backed simple (simple.find_program_address (pool_signer_seeds 7)) before (on_simple ledger)
before-Backed = reserves-Backed ledger refl refl

pub user_is_not_signer : ◌≢◌ {A = ℕ} 5 (simple.find_program_address (pool_signer_seeds 7))
unfolding simple derived
user_is_not_signer e = omega arith

handle_swap-Backed_example :
    IsValid after
    × Backed simple
        (simple.find_program_address (pool_signer_seeds 7))
        after
        (on_simple swapped_ledger)
handle_swap-Backed_example =
    handle_swap-Backed floored simple simple_laws swap_accounts 80 100 170 before (on_simple ledger)
      (pool_of-IsValid 1000 2000) user_is_not_signer before-Backed handle_swap_run

abbrev create_accounts : CreatePoolAccounts
create_accounts = record {
  admin = 8;
  pool = 7;
  pool_signer = 2_000_007;
  program_toll = 1_000_001;
  program_toll_authority = 9;
  program_toll_wallet = 60;
  lp_mint = 50;
  remaining_accounts = 101 ∷ 102 ∷ [];
}

abbrev created_pool : Pool
created_pool = record before { swap_fee = 0 }

handle_create_pool_run :
    handle_create_pool simple create_accounts 0 (on_simple ledger) ≡ ok created_pool
unfolding on_simple handle_create_pool check_create_pool_accounts add_reserves check_vault is_none
    is_exactly initial_curve check_seeds load_account load_mint simple derived
handle_create_pool_run = refl

handle_create_pool-Backed_example :
    IsValid created_pool
    × Backed simple
        (simple.find_program_address (pool_signer_seeds 7))
        created_pool
        (on_simple ledger)
    × (◌≡◌ {A = List Pubkey} (101 ∷ 102 ∷ []) (101 ∷ 102 ∷ []))
    × (2 ≤ 2)
handle_create_pool-Backed_example =
    handle_create_pool-Backed simple create_accounts 0 (on_simple ledger) handle_create_pool_run

set_pool_swap_fee_run : set_pool_swap_fee 8 10_000 created_pool ≡ ok before
unfolding set_pool_swap_fee
set_pool_swap_fee_run = refl

-- The pool is created, its fee is set, and there is a swap.
Reachable-Backed_example :
    IsValid after
    × Backed simple
        (simple.find_program_address (pool_signer_seeds 7))
        after
        (on_simple swapped_ledger)
Reachable-Backed_example = Reachable-Backed floored floored_laws simple simple_laws 7 (
    swapped swap_accounts 80 100 170 before after (on_simple ledger) (on_simple swapped_ledger)
      (fee_set 8 10_000 created_pool before (on_simple ledger)
        (created create_accounts 0 (on_simple ledger) created_pool refl handle_create_pool_run)
        set_pool_swap_fee_run)
      refl user_is_not_signer handle_swap_run)
