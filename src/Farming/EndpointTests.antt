-- ===== src/Farming/EndpointTests.antt =====
-- The theorems on the farming program's endpoints at a concrete farm and ledger, and runs of the
-- handlers.
use solana_amm.Base.{ℕ, ◌≡◌, ◌≢◌, refl, none, [], ◌∷◌, true, false, arith, ok, replicate, set}
use solana_amm.BTree.{Pubkey}
use solana_amm.Decimal.Concrete.{floored}
use solana_amm.Runtime.{TokenAccount, farm_signer_seeds, check_seeds, load_account}
use solana_amm.Runtime.Concrete.{
  Ledger, on_simple, at, simple, derived, transfer, transfer_loaded, move,
}
use solana_amm.Runtime.Lawful.{simple_laws}
use solana_amm.Farming.Err.{snapshots_len, harvest_periods_len}
use solana_amm.Farming.Farm.{Farm, default_period, default_snapshot}
use solana_amm.Farming.Farm.Ring.{
  first_snapshot_after, latest_snapshot, newest_index_until, snapshot_behind, enumerate_from,
  rev_cycle_skip_take, inverted_tip, oldest_snapshot, oldest_snapshot_index,
}
use solana_amm.Farming.Farm.Periods.{new_harvest_period, new_period, last_period}
use solana_amm.Farming.Farmer.{Farmer, unstake, unstake_staked, total_deposited, add_to_vested}
use solana_amm.Farming.Farmer.Update.{
  check_vested_period_and_update_harvest, check_vested_period, stake_if_ripe,
  update_eligible_harvest,
}
use solana_amm.Farming.Endpoints.Staking.{
  StartFarmingAccounts, StopFarmingAccounts, check_same_farm, start_farming, stop_farming,
}
use solana_amm.Farming.Endpoints.Compound.{check_admin}
use solana_amm.Farming.Endpoints.Harvests.{
  HarvestAccounts, total_tokens_emitted_per_period, tokens_deposited, starting_slot, ending_slot,
  settle_emission, handle_new_harvest_period,
}
use solana_amm.Farming.Endpoints.StakeVault.Claims.{Apart}
use solana_amm.Farming.Endpoints.StakeVault.Relation.{Covered, state, started, stopped, here, next}
use solana_amm.Farming.Endpoints.StakeVault.Steps.{Reach-Covered}
use solana_amm.Farming.Endpoints.Emission.{Funded, new_harvest_period-Funded}

abbrev account_of : Pubkey → Pubkey → ℕ → TokenAccount
account_of mint owner amount = record {
  mint = mint;
  owner = owner;
  amount = amount;
  delegate = none;
  close_authority = none;
  is_frozen = false;
}

-- The farm 9: its signer is 4000009, its stake vault 5000009, its vault for the mint 5 is 6009005.
abbrev farm : Farm
farm = record {
  admin = 1;
  stake_mint = 2;
  stake_vault = 5_000_009;
  harvests =
      record { mint = 5; vault = 6_009_005; periods = replicate harvest_periods_len default_period }
      ∷ [];
  snapshots = record {
    ring_buffer_tip = 1;
    ring_buffer =
        set (replicate snapshots_len default_snapshot) 1
          (record { staked = 500; started_at = 7000 });
  };
  min_snapshot_window_slots = 100;
}

abbrev farmer : ℕ → ℕ → Farmer
farmer staked vested = record {
  authority = 4;
  farm = 9;
  staked = staked;
  vested = vested;
  vested_at = 8000;
  calculate_next_harvest_from = 8001;
  harvests = record { mint = 5; tokens = 0 } ∷ [];
}

abbrev ledger : ℕ → ℕ → Ledger
ledger wallet vault = record {
  accounts =
      at 5_000_009 (account_of 2 4_000_009 vault) (at 70 (account_of 2 4 wallet) (λ k. none));
  mints = λ k. none;
}

abbrev start_accounts : StartFarmingAccounts
start_accounts = record {
  wallet_authority = 4;
  stake_wallet = 70;
  farm = 9;
  stake_vault = 5_000_009;
}

abbrev started_ledger : Ledger
started_ledger = record (ledger 100 60) {
  accounts =
      at 5_000_009 (account_of 2 4_000_009 90) (at 70 (account_of 2 4 70) (ledger 100 60).accounts);
}

start_farming_run :
    start_farming simple floored start_accounts 8000 30 farm
      (farmer 60 0)
      (on_simple (ledger 100 60))
    ≡ ok (farmer 60 30, on_simple started_ledger)
unfolding start_farming on_simple check_same_farm check_seeds check_vested_period_and_update_harvest
    check_vested_period update_eligible_harvest add_to_vested simple derived transfer
    transfer_loaded move
start_farming_run = refl

abbrev stop_accounts : StopFarmingAccounts
stop_accounts = record {
  authority = 4;
  farmer = 7_009_004;
  stake_wallet = 70;
  farm = 9;
  farm_signer_pda = 4_000_009;
  stake_vault = 5_000_009;
}

abbrev stopped_ledger : Ledger
stopped_ledger = record started_ledger {
  accounts =
      at 70 (account_of 2 4 110) (at 5_000_009 (account_of 2 4_000_009 50) started_ledger.accounts);
}

stop_farming_run :
    stop_farming simple floored stop_accounts 8000 40 farm (farmer 60 30) (on_simple started_ledger)
    ≡ ok (farmer 50 0, on_simple stopped_ledger)
unfolding stop_farming on_simple check_seeds check_vested_period_and_update_harvest
    check_vested_period stake_if_ripe update_eligible_harvest first_snapshot_after latest_snapshot
    newest_index_until snapshot_behind enumerate_from rev_cycle_skip_take inverted_tip unstake
    unstake_staked total_deposited simple derived transfer transfer_loaded move
stop_farming_run = refl

user_is_not_signer : ◌≢◌ {A = ℕ} 4 (simple.find_program_address (farm_signer_seeds 9))
unfolding simple derived
user_is_not_signer e = omega arith

apart : Apart simple 9
unfolding simple derived
apart other mint e = omega arith

before-Covered :
    Covered floored simple 9 (state floored simple 9 (farmer 60 0 ∷ []) (on_simple (ledger 100 60)))
unfolding simple on_simple derived
before-Covered = record {
  account = account_of 2 4_000_009 60;
  loaded = refl;
  owner = refl;
  delegate = refl;
  close_authority = refl;
  covered = omega arith;
}

Reach-Covered_example :
    Covered floored simple 9 (state floored simple 9 (farmer 50 0 ∷ []) (on_simple stopped_ledger))
Reach-Covered_example = Reach-Covered floored simple simple_laws 9 apart before-Covered (
    next
      (next here (
        started [] [] (farmer 60 0) (farmer 60 30) (on_simple (ledger 100 60))
          (on_simple started_ledger) start_accounts 8000 30 farm refl user_is_not_signer
          start_farming_run))
      (stopped [] [] (farmer 60 30) (farmer 50 0) (on_simple started_ledger)
        (on_simple stopped_ledger) stop_accounts 8000 40 farm refl stop_farming_run))

abbrev harvest_accounts : HarvestAccounts
harvest_accounts = record {
  admin = 1;
  farm = 9;
  farm_signer_pda = 4_000_009;
  harvest_vault = 6_009_005;
}

abbrev harvest_ledger : ℕ → ℕ → Ledger
harvest_ledger wallet vault = record {
  accounts =
      at 6_009_005 (account_of 5 4_000_009 vault) (at 71 (account_of 5 1 wallet) (λ k. none));
  mints = λ k. none;
}

abbrev funded_ledger : Ledger
funded_ledger = record (harvest_ledger 100 4) {
  accounts =
      at 6_009_005 (account_of 5 4_000_009 34)
        (at 71 (account_of 5 1 70) (harvest_ledger 100 4).accounts);
}

abbrev farm_with_period : Farm
farm_with_period = record farm {
  harvests =
      record {
        mint = 5;
        vault = 6_009_005;
        periods = record { tps = 3; starts_at = 8000; ends_at = 8009 } ∷ replicate 9 default_period;
      }
      ∷ [];
}

handle_new_harvest_period_run :
    handle_new_harvest_period simple harvest_accounts true 8000 71 5 0 10 3 farm
      (on_simple (harvest_ledger 100 4))
    ≡ ok (farm_with_period, on_simple funded_ledger)
unfolding handle_new_harvest_period on_simple load_account check_seeds check_admin starting_slot
    ending_slot new_harvest_period new_period last_period oldest_snapshot oldest_snapshot_index
    total_tokens_emitted_per_period tokens_deposited settle_emission simple derived transfer
    transfer_loaded move
handle_new_harvest_period_run = refl

admin_is_not_signer : ◌≢◌ {A = ℕ} 1 (simple.find_program_address (farm_signer_seeds 9))
unfolding simple derived
admin_is_not_signer e = omega arith

new_harvest_period-Funded_example :
    Funded simple harvest_accounts true 8000 5 10 3 farm farm_with_period
      (on_simple (harvest_ledger 100 4))
      (on_simple funded_ledger)
new_harvest_period-Funded_example =
    new_harvest_period-Funded simple simple_laws harvest_accounts true 8000 71 5 0 10 3 farm
      (on_simple (harvest_ledger 100 4)) admin_is_not_signer handle_new_harvest_period_run
