-- ===== src/Farming/Tests.antt =====
-- The farming program's theorems at concrete farms and farmers, and runs of the code.
use solana_amm.Base.{
  ℕ, zero, suc, sym, ap, subst, ◌+◌, ◌≤◌, ◌<◌, ◌≡◌, ◌⊎◌, inl, inr, refl, List, [], ◌∷◌, ◌++◌, some,
  none, ok, err, raised, arith, u64_end, true, length, drop, find, ltb, ◌==◌, if◌then◌else◌,
  replicate, length-replicate, set,
}
use solana_amm.Farming.Err.{
  snapshots_len, harvest_periods_len, insufficient_slot_time_since_last_snapshot,
}
use solana_amm.Farming.Farm.{
  Slot, HarvestPeriod, Harvest, Snapshot, Snapshots, Farm, default_period, default_snapshot,
}
use solana_amm.Farming.Farm.Ring.{
  take_snapshot, next_tip, first_snapshot_after, snapshot_window, oldest_snapshot,
  oldest_snapshot_index,
}
use solana_amm.Farming.Farm.Ring.Log.{IsValid, log, newest, take_snapshot_lem}
use solana_amm.Farming.Farm.Ring.Order.{
  IsChronological, Rises, Rises-replicate, take_snapshot-IsChronological,
}
use solana_amm.Farming.Farm.Ring.After.{oldest, first_snapshot_after_lem}
use solana_amm.Farming.Farm.Periods.{add_harvest, last_period, new_period, new_harvest_period}
use solana_amm.Farming.Farm.Periods.Order.{
  IsOrdered, All-Later-unset, Falls-unset, Started-unset, unset-IsOrdered,
}
use solana_amm.Farming.Farm.Periods.Mints.{Distinct, fresh_harvest, add_harvest_lem}
use solana_amm.Farming.Farm.Periods.Renewal.{Ordered, new_harvest_period-Ordered}
use solana_amm.BTree.{get}
use solana_amm.Decimal.Concrete.{floored}
use solana_amm.Farming.Farm.History.{tps_history, history, window_ranges}
use solana_amm.Farming.Farm.Ring.{
  latest_snapshot, newest_index_until, snapshot_behind, enumerate_from, rev_cycle_skip_take,
  inverted_tip, snapshots_count, get_window_snapshots_eligible_to_harvest,
}
use solana_amm.Farming.Farmer.{set_harvests, available}
use solana_amm.Farming.Farmer.Accrual.{
  sync_harvest_mints, retain_known, insert_missing, eligible_harvest_until, history_of, add_range,
  walk_ranges, accrue_mint, accrue_snapshot, farm_mints,
}
use solana_amm.Farming.Farmer.Accrual.Sync.{sync_harvest_mints_lem}
use solana_amm.Farming.Farmer.Update.{
  check_vested_period_and_update_harvest, check_vested_period, stake_if_ripe, stake_vested,
  update_eligible_harvest, farmer_harvest_until, synced_harvests, farm_harvest_entry,
  farmer_harvest_entry,
}
use solana_amm.Farming.Farmer.Update.Ripening.{Ripens, check_vested-Ripens}
use solana_amm.Farming.Farmer.{
  Farmer, AvailableHarvest, unstake, unstake_staked, total_deposited, claim_harvest,
}
use solana_amm.Farming.Farmer.Balance.{
  unstake_lem, unstake_conserves, harvest_tokens, claim_harvest_lem,
}

abbrev new_farm : Farm
new_farm = record {
  admin = 1;
  stake_mint = 2;
  stake_vault = 3;
  harvests = [];
  snapshots = record {
    ring_buffer_tip = 0;
    ring_buffer = replicate snapshots_len default_snapshot;
  };
  min_snapshot_window_slots = 100;
}

replicate-snoc : (n : ℕ) (s : Snapshot) → replicate n s ++ s ∷ [] ≡ replicate (suc n) s
replicate-snoc zero s = refl
replicate-snoc (suc n) s = ap (λ l. s ∷ l) (replicate-snoc n s)

new_farm-log : log new_farm ≡ replicate snapshots_len default_snapshot
new_farm-log = replicate-snoc 999 default_snapshot

new_farm-IsChronological : IsChronological new_farm
new_farm-IsChronological = record {
  valid = record { full = length-replicate snapshots_len default_snapshot; tip_in = omega arith };
  rises = subst Rises (sym new_farm-log) (Rises-replicate snapshots_len);
}

-- The farm after its first snapshot.
abbrev first : Snapshot
first = record { staked = 500; started_at = 7000 }

abbrev farm : Farm
farm = record new_farm {
  snapshots = record {
    ring_buffer_tip = 1;
    ring_buffer = set (replicate snapshots_len default_snapshot) 1 first;
  };
}

take_snapshot_run : take_snapshot 7000 500 new_farm ≡ ok farm
unfolding take_snapshot snapshot_window next_tip
take_snapshot_run = refl

take_snapshot-IsChronological_example :
    IsChronological farm × (log farm ≡ drop 1 (log new_farm) ++ first ∷ [])
take_snapshot-IsChronological_example =
    take_snapshot-IsChronological 7000 500 new_farm new_farm-IsChronological take_snapshot_run

farm-IsChronological : IsChronological farm
farm-IsChronological =
    (take_snapshot-IsChronological 7000 500 new_farm new_farm-IsChronological take_snapshot_run).0

window_fits : (newest new_farm).started_at + snapshot_window new_farm < u64_end
unfolding snapshot_window
window_fits = omega arith

take_snapshot_lem_example :
    (50 < (newest new_farm).started_at + snapshot_window new_farm)
      × (take_snapshot 50 500 new_farm ≡ err (raised insufficient_slot_time_since_last_snapshot))
    ⊎ ((newest new_farm).started_at + snapshot_window new_farm ≤ 50)
      × ((s : Snapshots) × (take_snapshot 50 500 new_farm ≡ ok (record new_farm { snapshots = s }))
          × (log (record new_farm { snapshots = s })
              ≡ drop 1 (log new_farm) ++ record { staked = 500; started_at = 50 } ∷ [])
          × IsValid (record new_farm { snapshots = s }))
take_snapshot_lem_example =
    take_snapshot_lem 50 500 new_farm new_farm-IsChronological.valid window_fits

first_snapshot_after_lem_example :
    first_snapshot_after farm 3
    ≡ ok
        (if ltb 3 (oldest farm).started_at then none else find (λ s. ltb 3 s.started_at) (log farm))
first_snapshot_after_lem_example = first_snapshot_after_lem farm 3 farm-IsChronological

abbrev period : ℕ → Slot → Slot → HarvestPeriod
period tps starts_at ends_at = record { tps = tps; starts_at = starts_at; ends_at = ends_at }

abbrev periods : List HarvestPeriod
periods = period 3 10 50 ∷ period 2 1 5 ∷ replicate 8 default_period

periods-IsOrdered : IsOrdered 60 periods
periods-IsOrdered = record {
  full = refl;
  falls = (
    (inl (omega arith), All-Later-unset (period 3 10 50) 8),
    omega arith,
    (All-Later-unset (period 2 1 5) 8, omega arith, Falls-unset 8),
  );
  only_first_ahead = (omega arith, Started-unset 60 8);
}

new_period_run :
    new_period true 60 60 (period 4 70 90) periods
    ≡ ok (period 4 70 90 ∷ period 3 10 50 ∷ period 2 1 5 ∷ replicate 7 default_period, none)
unfolding new_period last_period
new_period_run = refl

abbrev harvest : List HarvestPeriod → Harvest
harvest ps = record { mint = 5; vault = 6; periods = ps }

abbrev unset : Harvest
unset = record { mint = 0; vault = 0; periods = replicate harvest_periods_len default_period }

abbrev harvesting : List HarvestPeriod → Farm
harvesting ps = record farm { harvests = harvest ps ∷ unset ∷ [] }

new_harvest_period_run :
    new_harvest_period true 60 5 (70, 90) 4 (harvesting periods)
    ≡ ok (
      harvesting (period 4 70 90 ∷ period 3 10 50 ∷ period 2 1 5 ∷ replicate 7 default_period),
      none,
    )
unfolding new_harvest_period new_period last_period oldest_snapshot oldest_snapshot_index
new_harvest_period_run = refl

new_harvest_period-Ordered_example :
    Ordered 60
      (harvesting (period 4 70 90 ∷ period 3 10 50 ∷ period 2 1 5 ∷ replicate 7 default_period))
new_harvest_period-Ordered_example =
    new_harvest_period-Ordered true 60 5 70 90 4 (harvesting periods)
      (periods-IsOrdered, (unset-IsOrdered 60, tt)) new_harvest_period_run

abbrev two_harvests : Farm
two_harvests = record farm { harvests = harvest periods ∷ fresh_harvest 15 16 ∷ [] }

add_harvest_run : add_harvest 15 16 (harvesting periods) ≡ ok two_harvests
unfolding add_harvest fresh_harvest
add_harvest_run = refl

add_harvest_lem_example :
    Distinct two_harvests.harvests
    × (length two_harvests.harvests ≡ 2)
    × (find (λ h. h.mint == 15) two_harvests.harvests ≡ some (fresh_harvest 15 16))
    × (find (λ h. h.mint == 5) two_harvests.harvests
        ≡ find (λ h. h.mint == 5) (harvesting periods).harvests)
add_harvest_lem_example =
    add_harvest_lem 15 16 5 (harvesting periods) (inr ((λ e. omega arith), tt), (inl refl, tt))
      (λ e. omega arith) (λ e. omega arith) add_harvest_run

abbrev farmer : ℕ → ℕ → ℕ → Farmer
farmer staked vested tokens = record {
  authority = 20;
  farm = 21;
  staked = staked;
  vested = vested;
  vested_at = 30;
  calculate_next_harvest_from = 25;
  harvests = record { mint = 5; tokens = tokens } ∷ record { mint = 0; tokens = 0 } ∷ [];
}

unstake_lem_example : unstake 70 (farmer 60 20 9) ≡ ok (farmer 10 0 9, 70)
unstake_lem_example = unstake_lem 70 (farmer 60 20 9) (omega arith)

unstake_run : unstake 70 (farmer 60 20 9) ≡ ok (farmer 10 0 9, 70)
unfolding unstake unstake_staked total_deposited
unstake_run = refl

unstake_conserves_example : (10 + 0 + 70 ≡ 60 + 20) × (70 ≤ 70)
unstake_conserves_example = unstake_conserves 70 (farmer 60 20 9) unstake_run

claim_harvest_lem_example :
    (hs : List AvailableHarvest) × (claim_harvest 5 (farmer 60 20 9)
      ≡ ok (record (farmer 60 20 9) { harvests = hs }, 9))
    × (harvest_tokens 5 hs ≡ some 0)
claim_harvest_lem_example = claim_harvest_lem 5 5 (farmer 60 20 9) refl

abbrev accruing : Farm
accruing = record farm { harvests = harvest (period 3 7100 7200 ∷ replicate 9 default_period) ∷ [] }

abbrev staked : Farmer
staked = record (farmer 80 0 57) {
  calculate_next_harvest_from = 8001;
  harvests = record { mint = 5; tokens = 57 } ∷ replicate 9 (record { mint = 0; tokens = 0 });
}

check_vested_run :
    check_vested_period_and_update_harvest floored accruing 8000 (farmer 60 20 9) ≡ ok staked
unfolding check_vested_period_and_update_harvest check_vested_period stake_if_ripe stake_vested
    update_eligible_harvest farmer_harvest_until synced_harvests farm_harvest_entry
    farmer_harvest_entry first_snapshot_after latest_snapshot newest_index_until snapshot_behind
    enumerate_from rev_cycle_skip_take inverted_tip snapshots_count
    get_window_snapshots_eligible_to_harvest sync_harvest_mints retain_known insert_missing
    eligible_harvest_until history_of add_range walk_ranges accrue_mint accrue_snapshot farm_mints
    tps_history history window_ranges set_harvests available floored oldest_snapshot_index
check_vested_run = refl

accruing-IsChronological : IsChronological accruing
accruing-IsChronological = record {
  valid = record {
    full = farm-IsChronological.valid.full;
    tip_in = farm-IsChronological.valid.tip_in;
  };
  rises = farm-IsChronological.rises;
}

check_vested-Ripens_example : Ripens accruing (farmer 60 20 9) staked
check_vested-Ripens_example =
    check_vested-Ripens accruing accruing-IsChronological floored 8000 (farmer 60 20 9)
      check_vested_run

sync_harvest_mints_lem_example :
    get 7 (sync_harvest_mints ((5, harvest periods) ∷ (7, unset) ∷ []) ((3, 10) ∷ (5, 20) ∷ []))
    ≡ some 0
sync_harvest_mints_lem_example =
    sync_harvest_mints_lem 7 ((5, harvest periods) ∷ (7, unset) ∷ []) ((3, 10) ∷ (5, 20) ∷ [])
