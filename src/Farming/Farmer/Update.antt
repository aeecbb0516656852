-- ===== src/Farming/Farmer/Update.antt =====
-- The methods of `Farmer` that calculate harvest from the farm's history.
pub mod Deposits
pub mod Ripening
use solana_amm.Base.{
  Option, none, some, map, ltb, leb, ◌==◌, if◌then◌else◌, skip_while, ok, ◌>>=◌, ok_or, unwrap,
  checked_add, checked_sub,
}
use solana_amm.BTree.{Pubkey, BTreeMap, collect}
use solana_amm.Decimal.{DecimalOps}
use solana_amm.Farming.Err.{Res, math_overflow}
use solana_amm.Farming.Farm.{TokenAmount, Slot, Snapshot, Harvest, Farm}
use solana_amm.Farming.Farm.Ring.{first_snapshot_after, get_window_snapshots_eligible_to_harvest}
use solana_amm.Farming.Farmer.{Farmer, AvailableHarvest, set_harvests}
use solana_amm.Farming.Farmer.Accrual.{sync_harvest_mints, eligible_harvest_until}

unfoldable pub farm_harvest_entry : Harvest → Pubkey × Harvest
farm_harvest_entry h = (h.mint, h)

unfoldable pub farmer_harvest_entry : AvailableHarvest → Pubkey × TokenAmount
farmer_harvest_entry h = (h.mint, h.tokens)

-- The farmer's harvests by mint, once they are brought in line with the farm's.
unfoldable pub synced_harvests : Farm → Farmer → BTreeMap TokenAmount
synced_harvests farm self =
    sync_harvest_mints (collect (map farm_harvest_entry farm.harvests))
      (collect (map farmer_harvest_entry self.harvests))

module _ (dec : DecimalOps) where
  -- `Farmer::eligible_harvest_until`
  unfoldable pub farmer_harvest_until : Farm → Slot → Farmer → Res (BTreeMap TokenAmount)
  farmer_harvest_until farm until self = do
    window ← get_window_snapshots_eligible_to_harvest farm self.calculate_next_harvest_from
    let snapshots = skip_while (λ (s : Snapshot). ltb until s.started_at) window
    eligible_harvest_until dec (collect (map farm_harvest_entry farm.harvests)) snapshots
        (synced_harvests farm self) (self.calculate_next_harvest_from, until) self.staked

  unfoldable pub update_eligible_harvest : Farm → Slot → Farmer → Res Farmer
  update_eligible_harvest farm current_slot self =
      if leb current_slot self.calculate_next_harvest_from
      then ok self
      else (farmer_harvest_until farm current_slot self >>= λ farmer_harvests.
          unwrap (checked_add current_slot 1) >>= λ next.
          ok (record (set_harvests farmer_harvests self) { calculate_next_harvest_from = next }))

  -- The vested tokens become staked ones from `snapshot` on.
  unfoldable pub stake_vested : Farm → Snapshot → Farmer → Res Farmer
  stake_vested farm snapshot self = do
    until ← unwrap (checked_sub snapshot.started_at 1)
    farmer_harvests ← farmer_harvest_until farm until self
    staked ← ok_or (checked_add self.staked self.vested) math_overflow
    ok (record (set_harvests farmer_harvests self) {
      calculate_next_harvest_from = snapshot.started_at;
      staked = staked;
      vested = 0;
    })

  unfoldable pub stake_if_ripe : Farm → Option Snapshot → Farmer → Res Farmer
  stake_if_ripe farm none self = ok self
  stake_if_ripe farm (some snapshot) self = stake_vested farm snapshot self

  unfoldable pub check_vested_period : Farm → Farmer → Res Farmer
  check_vested_period farm self =
      if self.vested == 0
      then ok self
      else (first_snapshot_after farm self.vested_at >>= λ snapshot.
          stake_if_ripe farm snapshot self)

  unfoldable pub check_vested_period_and_update_harvest : Farm → Slot → Farmer → Res Farmer
  check_vested_period_and_update_harvest farm current_slot self = do
    checked ← check_vested_period farm self
    update_eligible_harvest farm current_slot checked
