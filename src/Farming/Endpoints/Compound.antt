-- ===== src/Farming/Endpoints/Compound.antt =====
-- `programs/farming/src/endpoints/compound_same_farm.rs` and `compound_across_farms.rs`, and the
-- accounts that allow them, of `whitelist_farm_for_compounding.rs` and
-- `dewhitelist_farm_for_compounding.rs`.
use solana_amm.Base.{
  not, List, ◌∷◌, any, keep, ◌==◌, if◌then◌else◌, none, some, ok, ◌>>=◌, ◌>>◌, raise_if, invoke,
}
use solana_amm.BTree.{Pubkey}
use solana_amm.Decimal.{DecimalOps}
use solana_amm.Runtime.{
  Runtime, farm_signer_seeds, stake_vault_seeds, harvest_vault_seeds, whitelist_seeds, check_seeds,
  load_account,
}
use solana_amm.Farming.Err.{Res, invalid_account_input, farm_admin_mismatch}
use solana_amm.Farming.Farm.{Slot, Farm}
use solana_amm.Farming.Farmer.{Farmer, claim_harvest, add_to_vested}
use solana_amm.Farming.Farmer.Update.{check_vested_period_and_update_harvest}
use solana_amm.Farming.Endpoints.Staking.{check_same_farm}

-- The addresses at which an account `WhitelistCompounding` exists.
abbrev pub Whitelist : Type 0
Whitelist = List Pubkey

unfoldable pub is_whitelisted : Pubkey → Whitelist → Res (Unit {0})
is_whitelisted key whitelist = invoke (if any (λ k. k == key) whitelist then some tt else none)

unfoldable pub check_admin : Pubkey → Farm → Res (Unit {0})
check_admin admin farm = raise_if (not (farm.admin == admin)) farm_admin_mismatch

-- The accounts of `CompoundAcrossFarms`.
pub record CompoundAccounts : Type 0 where
  pub source_farm : Pubkey
  pub target_farm : Pubkey
  pub source_farm_signer_pda : Pubkey
  pub whitelist_compounding : Pubkey
  pub target_stake_vault : Pubkey
  pub source_harvest_vault : Pubkey

-- The accounts of `CompoundSameFarm`: every address is derived from the key of the one farm.
pub record CompoundSameFarmAccounts : Type 0 where
  pub farm : Pubkey
  pub farm_signer_pda : Pubkey
  pub whitelist_compounding : Pubkey
  pub stake_vault : Pubkey
  pub harvest_vault : Pubkey

-- The farm as source and target.
unfoldable pub of_same_farm : CompoundSameFarmAccounts → CompoundAccounts
of_same_farm accs = record {
  source_farm = accs.farm;
  target_farm = accs.farm;
  source_farm_signer_pda = accs.farm_signer_pda;
  whitelist_compounding = accs.whitelist_compounding;
  target_stake_vault = accs.stake_vault;
  source_harvest_vault = accs.harvest_vault;
}

module _ (rt : Runtime) where
  -- The constraint `init` fails where the account exists.
  unfoldable pub whitelist_farm :
      Pubkey → Pubkey → Pubkey → Pubkey → Farm → Whitelist → Res Whitelist
  whitelist_farm admin source_key target_key key source_farm whitelist = do
    check_seeds rt (whitelist_seeds source_key target_key) key
    invoke (if any (λ k. k == key) whitelist then none else some tt)
    check_admin admin source_farm
    ok (key ∷ whitelist)

  -- The constraint `close` removes the account.
  unfoldable pub dewhitelist_farm :
      Pubkey → Pubkey → Pubkey → Pubkey → Farm → Whitelist → Res Whitelist
  dewhitelist_farm admin source_key target_key key source_farm whitelist = do
    is_whitelisted key whitelist
    check_seeds rt (whitelist_seeds source_key target_key) key
    check_admin admin source_farm
    ok (keep (λ k. not (k == key)) whitelist)

  -- The constraints that both instructions put on their accounts.
  unfoldable pub check_compound_accounts : CompoundAccounts → Whitelist → rt.Ledger → Res (Unit {0})
  check_compound_accounts accs whitelist ledger = do
    is_whitelisted accs.whitelist_compounding whitelist
    stake_vault ← load_account rt ledger accs.target_stake_vault
    harvest_vault ← load_account rt ledger accs.source_harvest_vault
    check_seeds rt (farm_signer_seeds accs.source_farm) accs.source_farm_signer_pda
    check_seeds rt (whitelist_seeds accs.source_farm accs.target_farm) accs.whitelist_compounding
    check_seeds rt (stake_vault_seeds accs.target_farm) accs.target_stake_vault
    check_seeds rt (harvest_vault_seeds accs.source_farm harvest_vault.mint)
        accs.source_harvest_vault
    raise_if (not (harvest_vault.mint == stake_vault.mint)) invalid_account_input

  module _ (dec : DecimalOps) where
    unfoldable pub compound_same_farm :
        CompoundSameFarmAccounts
        → Slot
        → Whitelist
        → Farm
        → Farmer
        → rt.Ledger
        → Res (Farmer × rt.Ledger)
    compound_same_farm accs current_slot whitelist farm farmer ledger = do
      check_compound_accounts (of_same_farm accs) whitelist ledger
      check_same_farm farmer accs.farm
      checked ← check_vested_period_and_update_harvest dec farm current_slot farmer
      (claimed, compound_tokens) ← claim_harvest farm.stake_mint checked
      vested ← add_to_vested current_slot compound_tokens claimed
      moved ← invoke (
          rt.transfer accs.harvest_vault accs.stake_vault accs.farm_signer_pda compound_tokens
            ledger)
      ok (vested, moved)

    unfoldable pub compound_across_farms :
        CompoundAccounts
        → Slot
        → Whitelist
        → Farm
        → Farm
        → Farmer
        → Farmer
        → rt.Ledger
        → Res (Farmer × Farmer × rt.Ledger)
    compound_across_farms accs current_slot whitelist source_farm target_farm source_farmer
          target_farmer ledger =
        do
          raise_if (accs.target_farm == accs.source_farm) invalid_account_input
          check_compound_accounts accs whitelist ledger
          raise_if (not (source_farmer.authority == target_farmer.authority)) invalid_account_input
          check_same_farm source_farmer accs.source_farm
          check_same_farm target_farmer accs.target_farm
          checked ←
              check_vested_period_and_update_harvest dec source_farm current_slot source_farmer
          (claimed, compound_tokens) ← claim_harvest target_farm.stake_mint checked
          vested ← add_to_vested current_slot compound_tokens target_farmer
          moved ← invoke (
              rt.transfer accs.source_harvest_vault accs.target_stake_vault
                accs.source_farm_signer_pda compound_tokens ledger)
          ok (claimed, vested, moved)
