-- ===== src/Farming/Endpoints/Harvests.antt =====
-- `programs/farming/src/endpoints/add_harvest.rs`, `remove_harvest.rs` and
-- `new_harvest_period.rs`.
use solana_amm.Base.{
  ℕ, Bool, not, ◌-◌, ltb, ◌==◌, if◌then◌else◌, Option, none, some, replace_first, replicate, ok,
  ◌>>=◌, ◌>>◌, raise_if, invoke, ok_or, unwrap, checked_add, checked_sub, checked_mul,
}
use solana_amm.BTree.{Pubkey}
use solana_amm.Runtime.{
  Runtime, farm_signer_seeds, harvest_vault_seeds, check_seeds, load_account, load_mint,
}
use solana_amm.Farming.Err.{
  Res, harvest_periods_len, math_overflow, invalid_account_input,
  harvest_period_must_be_at_least_one_slot, harvest_period_must_start_at_or_after_current_slot,
}
use solana_amm.Farming.Farm.{Slot, TokenAmount, HarvestPeriod, Harvest, Farm, default_period}
use solana_amm.Farming.Farm.Periods.{add_harvest, new_harvest_period}
use solana_amm.Farming.Endpoints.Compound.{check_admin}

pub record HarvestAccounts : Type 0 where
  pub admin : Pubkey
  pub farm : Pubkey
  pub farm_signer_pda : Pubkey
  pub harvest_vault : Pubkey

-- `Harvest::default()`: every period is the default one.
abbrev pub default_farm_harvest : Harvest
default_farm_harvest = record {
  mint = 0;
  vault = 0;
  periods = replicate harvest_periods_len default_period;
}

unfoldable pub total_tokens_emitted_per_period : Slot × Slot → TokenAmount → Res TokenAmount
total_tokens_emitted_per_period (starts_at, ends_at) tps = do
  length ← ok_or (checked_sub ends_at starts_at) math_overflow
  slots ← ok_or (checked_add length 1) math_overflow
  ok_or (checked_mul slots tps) math_overflow

-- The tokens that were deposited for the launch that is overwritten, if there is one.
unfoldable pub tokens_deposited : Option HarvestPeriod → Res TokenAmount
tokens_deposited none = ok 0
tokens_deposited (some p) = total_tokens_emitted_per_period (p.starts_at, p.ends_at) p.tps

unfoldable pub starting_slot : Slot → Slot → Res Slot
starting_slot current_slot starts_at =
    if starts_at == 0
    then ok current_slot
    else (raise_if (ltb starts_at current_slot) harvest_period_must_start_at_or_after_current_slot
        >>= λ _. ok starts_at)

-- The last slot of the period. The subtraction panics below zero.
unfoldable pub ending_slot : Slot → ℕ → Res Slot
ending_slot starts_at period_length_in_slots = do
  end ← ok_or (checked_add starts_at period_length_in_slots) math_overflow
  unwrap (checked_sub end 1)

module _ (rt : Runtime) where
  -- The account of the vault is created by the same instruction, and only then initialised.
  unfoldable pub handle_add_harvest :
      HarvestAccounts → Pubkey → Farm → rt.Ledger → Res (Farm × rt.Ledger)
  handle_add_harvest accs harvest_mint farm ledger = do
    check_seeds rt (farm_signer_seeds accs.farm) accs.farm_signer_pda
    mint ← load_mint rt ledger harvest_mint
    check_seeds rt (harvest_vault_seeds accs.farm harvest_mint) accs.harvest_vault
    check_admin accs.admin farm
    added ← add_harvest harvest_mint accs.harvest_vault farm
    opened ←
        invoke (rt.initialize_account accs.harvest_vault harvest_mint accs.farm_signer_pda ledger)
    ok (added, opened)

  unfoldable pub remove_harvest :
      HarvestAccounts → Pubkey → Farm → rt.Ledger → Res (Farm × rt.Ledger)
  remove_harvest accs harvest_mint farm ledger = do
    check_seeds rt (farm_signer_seeds accs.farm) accs.farm_signer_pda
    vault ← load_account rt ledger accs.harvest_vault
    raise_if (not (vault.amount == 0)) invalid_account_input
    check_seeds rt (harvest_vault_seeds accs.farm harvest_mint) accs.harvest_vault
    check_admin accs.admin farm
    harvests ←
        ok_or
          (replace_first (λ h. h.mint == harvest_mint) (λ _. default_farm_harvest) farm.harvests)
          invalid_account_input
    closed ← invoke (rt.close_account accs.harvest_vault accs.farm_signer_pda ledger)
    ok (record farm { harvests = harvests }, closed)

  -- The three branches on how the two emissions compare. `wallet` is the balance of the wallet.
  unfoldable pub settle_emission :
      HarvestAccounts → Pubkey → TokenAmount → TokenAmount → TokenAmount → rt.Ledger → Res rt.Ledger
  settle_emission accs harvest_wallet wallet new deposited ledger =
      if new == deposited
      then ok ledger
      else if ltb new deposited
      then invoke (
          rt.transfer accs.harvest_vault harvest_wallet accs.farm_signer_pda (deposited - new)
            ledger)
      else (raise_if (ltb wallet (new - deposited)) invalid_account_input >>= λ _.
          invoke
            (rt.transfer harvest_wallet accs.harvest_vault accs.admin (new - deposited) ledger))

  unfoldable pub handle_new_harvest_period :
      HarvestAccounts
      → Bool
      → Slot
      → Pubkey
      → Pubkey
      → Slot
      → ℕ
      → TokenAmount
      → Farm
      → rt.Ledger
      → Res (Farm × rt.Ledger)
  handle_new_harvest_period accs is_limited current_slot harvest_wallet harvest_mint starts_at
        period_length_in_slots tps farm ledger =
      do
        wallet ← load_account rt ledger harvest_wallet
        vault ← load_account rt ledger accs.harvest_vault
        check_seeds rt (harvest_vault_seeds accs.farm harvest_mint) accs.harvest_vault
        check_seeds rt (farm_signer_seeds accs.farm) accs.farm_signer_pda
        check_admin accs.admin farm
        raise_if (period_length_in_slots == 0) harvest_period_must_be_at_least_one_slot
        from ← starting_slot current_slot starts_at
        until ← ending_slot from period_length_in_slots
        (changed, scheduled_launch) ←
            new_harvest_period is_limited current_slot harvest_mint (from, until) tps farm
        new_period_total_tokens ← total_tokens_emitted_per_period (from, until) tps
        deposited ← tokens_deposited scheduled_launch
        settled ←
            settle_emission accs harvest_wallet wallet.amount new_period_total_tokens deposited
              ledger
        ok (changed, settled)
