-- ===== src/Farming/Endpoints/Staking.antt =====
-- `programs/farming/src/endpoints/start_farming.rs`, `stop_farming.rs`,
-- `update_eligible_harvest.rs`, `create_farmer.rs` and `close_farmer.rs`.
use solana_amm.Base.{[], not, any, map, ◌==◌, ok, ◌>>=◌, ◌>>◌, raise_if, invoke}
use solana_amm.BTree.{Pubkey}
use solana_amm.Decimal.{DecimalOps}
use solana_amm.Runtime.{Runtime, farmer_seeds, farm_signer_seeds, stake_vault_seeds, check_seeds}
use solana_amm.Farming.Err.{Res, invalid_arg, invalid_account_input}
use solana_amm.Farming.Farm.{Slot, TokenAmount, Harvest, Farm}
use solana_amm.Farming.Farmer.{Farmer, add_to_vested, unstake, total_deposited, set_harvests}
use solana_amm.Farming.Farmer.Update.{check_vested_period_and_update_harvest}

pub record StartFarmingAccounts : Type 0 where
  pub wallet_authority : Pubkey
  pub stake_wallet : Pubkey
  pub farm : Pubkey
  pub stake_vault : Pubkey

pub record StopFarmingAccounts : Type 0 where
  pub authority : Pubkey
  pub farmer : Pubkey
  pub stake_wallet : Pubkey
  pub farm : Pubkey
  pub farm_signer_pda : Pubkey
  pub stake_vault : Pubkey

-- `farmer.farm == farm.key()`
unfoldable pub check_same_farm : Farmer → Pubkey → Res (Unit {0})
check_same_farm farmer farm = raise_if (not (farmer.farm == farm)) invalid_account_input

-- The mint of a harvest of the farm, with no tokens.
unfoldable pub nothing_of : Harvest → Pubkey × TokenAmount
nothing_of h = (h.mint, 0)

unfoldable pub close_farmer : Pubkey → Farmer → Res (Unit {0})
close_farmer authority farmer = do
  raise_if (not (farmer.authority == authority)) invalid_account_input
  total ← total_deposited farmer
  raise_if (not (total == 0)) invalid_account_input
  raise_if (any (λ h. not (h.tokens == 0)) farmer.harvests) invalid_account_input

module _ (dec : DecimalOps) where
  unfoldable pub handle_update_eligible_harvest : Pubkey → Farm → Slot → Farmer → Res Farmer
  handle_update_eligible_harvest farm_key farm until farmer = do
    check_same_farm farmer farm_key
    check_vested_period_and_update_harvest dec farm until farmer

module _ (rt : Runtime) where
  -- The account is new, and so all its other fields are zero. The harvests are those of the farm
  -- in their order, default ones included.
  unfoldable pub create_farmer : Pubkey → Pubkey → Pubkey → Farm → Res Farmer
  create_farmer authority farmer_key farm_key farm = do
    check_seeds rt (farmer_seeds farm_key authority) farmer_key
    ok (
        set_harvests (map nothing_of farm.harvests) (record {
          authority = authority;
          farm = farm_key;
          staked = 0;
          vested = 0;
          vested_at = 0;
          calculate_next_harvest_from = 0;
          harvests = [];
        }))

  module _ (dec : DecimalOps) where
    unfoldable pub start_farming :
        StartFarmingAccounts
        → Slot
        → TokenAmount
        → Farm
        → Farmer
        → rt.Ledger
        → Res (Farmer × rt.Ledger)
    start_farming accs current_slot stake farm farmer ledger = do
      check_same_farm farmer accs.farm
      check_seeds rt (stake_vault_seeds accs.farm) accs.stake_vault
      raise_if (stake == 0) invalid_arg
      checked ← check_vested_period_and_update_harvest dec farm current_slot farmer
      vested ← add_to_vested current_slot stake checked
      staked ←
          invoke (rt.transfer accs.stake_wallet accs.stake_vault accs.wallet_authority stake ledger)
      ok (vested, staked)

    unfoldable pub stop_farming :
        StopFarmingAccounts
        → Slot
        → TokenAmount
        → Farm
        → Farmer
        → rt.Ledger
        → Res (Farmer × rt.Ledger)
    stop_farming accs current_slot unstake_max farm farmer ledger = do
      check_seeds rt (farmer_seeds accs.farm accs.authority) accs.farmer
      check_seeds rt (farm_signer_seeds accs.farm) accs.farm_signer_pda
      check_seeds rt (stake_vault_seeds accs.farm) accs.stake_vault
      raise_if (unstake_max == 0) invalid_arg
      checked ← check_vested_period_and_update_harvest dec farm current_slot farmer
      (unstaked, amount) ← unstake unstake_max checked
      paid ←
          invoke (rt.transfer accs.stake_vault accs.stake_wallet accs.farm_signer_pda amount ledger)
      ok (unstaked, paid)
