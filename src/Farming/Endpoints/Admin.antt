-- ===== src/Farming/Endpoints/Admin.antt =====
-- `programs/farming/src/endpoints/create_farm.rs`, `take_snapshot.rs`, `set_farm_owner.rs` and
-- `set_min_snapshot_window.rs`.
use solana_amm.Base.{ℕ, not, ◌==◌, replicate, ok, ◌>>=◌, ◌>>◌, raise_if, invoke}
use solana_amm.BTree.{Pubkey}
use solana_amm.Runtime.{
  Runtime, farm_signer_seeds, stake_vault_seeds, check_seeds, load_account, load_mint,
}
use solana_amm.Farming.Err.{Res, invalid_account_input, max_harvest_mints, snapshots_len}
use solana_amm.Farming.Farm.{Slot, Farm, default_snapshot}
use solana_amm.Farming.Farm.Ring.{take_snapshot}
use solana_amm.Farming.Endpoints.Compound.{check_admin}
use solana_amm.Farming.Endpoints.Harvests.{default_farm_harvest}

unfoldable pub set_farm_owner : Pubkey → Pubkey → Farm → Res Farm
set_farm_owner admin new_farm_admin farm = do
  check_admin admin farm
  ok (record farm { admin = new_farm_admin })

unfoldable pub set_min_snapshot_window : Pubkey → ℕ → Farm → Res Farm
set_min_snapshot_window admin min_snapshot_window_slots farm = do
  check_admin admin farm
  ok (record farm { min_snapshot_window_slots = min_snapshot_window_slots })

pub record CreateFarmAccounts : Type 0 where
  pub admin : Pubkey
  pub farm : Pubkey
  pub farm_signer_pda : Pubkey
  pub stake_mint : Pubkey
  pub stake_vault : Pubkey

module _ (rt : Runtime) where
  -- The account of the farm is all zero before, and so are the fields that are not set.
  unfoldable pub create_farm : CreateFarmAccounts → rt.Ledger → Res (Farm × rt.Ledger)
  create_farm accs ledger = do
    check_seeds rt (farm_signer_seeds accs.farm) accs.farm_signer_pda
    mint ← load_mint rt ledger accs.stake_mint
    check_seeds rt (stake_vault_seeds accs.farm) accs.stake_vault
    opened ←
        invoke (rt.initialize_account accs.stake_vault accs.stake_mint accs.farm_signer_pda ledger)
    ok (
      record {
        admin = accs.admin;
        stake_mint = accs.stake_mint;
        stake_vault = accs.stake_vault;
        harvests = replicate max_harvest_mints default_farm_harvest;
        snapshots = record {
          ring_buffer_tip = 0;
          ring_buffer = replicate snapshots_len default_snapshot;
        };
        min_snapshot_window_slots = 0;
      },
      opened,
    )

  unfoldable pub handle_take_snapshot : Pubkey → Slot → Farm → rt.Ledger → Res Farm
  handle_take_snapshot stake_vault current_slot farm ledger = do
    vault ← load_account rt ledger stake_vault
    raise_if (not (stake_vault == farm.stake_vault)) invalid_account_input
    take_snapshot current_slot vault.amount farm
