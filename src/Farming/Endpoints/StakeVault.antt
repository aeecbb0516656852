-- ===== src/Farming/Endpoints/StakeVault.antt =====
-- The stake vault of a farm against the deposits of its farmers: each handler on its own.
pub mod Claims
pub mod Across
pub mod Harvests
pub mod Relation
pub mod Steps
use solana_amm.Base.{
  ℕ, ◌+◌, ◌≤◌, ◌≡◌, ◌≢◌, inl, inr, sym, ap, subst, ◌∙◌, Option, some, not, arith, ok, ◌==◌,
  if◌then◌else◌, >>=-eq-ok, ok-injective, invoke-eq-ok, raise_if-eq-ok, ok_or-eq-ok, invoke,
  raise_if, ok_or, find, replace_first, checked_add,
}
use solana_amm.BTree.{Pubkey}
use solana_amm.Decimal.{DecimalOps}
use solana_amm.Runtime.{
  Runtime, Seeds, farmer_seeds, farm_signer_seeds, stake_vault_seeds, harvest_vault_seeds,
  whitelist_seeds, check_seeds, load_account,
}
use solana_amm.Runtime.Laws.{RuntimeLaws}
use solana_amm.Runtime.Vaults.Guarded.{
  Guarded, transfer-Guarded_in, transfer-Guarded_out, transfer-Guarded_to,
}
use solana_amm.Farming.Err.{
  FarmingError, invalid_arg, invalid_account_input, math_overflow,
  cannot_compound_if_stake_mint_is_not_harvest,
}
use solana_amm.Farming.Farm.{Slot, TokenAmount, Farm}
use solana_amm.Farming.Farmer.{Farmer, add_to_vested, unstake, claim_harvest}
use solana_amm.Farming.Farmer.Balance.{unstake_conserves}
use solana_amm.Farming.Farmer.Update.{check_vested_period_and_update_harvest}
use solana_amm.Farming.Farmer.Update.Deposits.{check_vested-Keeps}
use solana_amm.Farming.Endpoints.Staking.{
  StartFarmingAccounts, StopFarmingAccounts, check_same_farm, start_farming, stop_farming,
}
use solana_amm.Farming.Endpoints.Compound.{
  CompoundAccounts, CompoundSameFarmAccounts, of_same_farm, Whitelist, is_whitelisted,
  check_compound_accounts, compound_same_farm,
}

abbrev pub deposits : Farmer → TokenAmount
deposits f = f.staked + f.vested

pub check_seeds-eq :
    (rt : Runtime) (s : Seeds) (k : Pubkey) {u : Unit {0}}
    → check_seeds {E = FarmingError} rt s k ≡ ok u
    → k ≡ rt.find_program_address s
unfolding check_seeds
check_seeds-eq rt s k h = ground arith

pub deposits-check :
    (dec : DecimalOps) (farm : Farm) (slot : Slot) (f : Farmer) {g : Farmer}
    → check_vested_period_and_update_harvest dec farm slot f ≡ ok g
    → deposits g ≡ deposits f
deposits-check dec farm slot f h =
    let (owner, home, moved) = check_vested-Keeps dec farm slot f h in
    elim moved [ inl (why, staked, vested) ↦ omega arith | inr (why, staked, vested) ↦ omega arith ]

pub deposits-add_to_vested :
    (slot : Slot) (n : TokenAmount) (f : Farmer) {g : Farmer}
    → add_to_vested slot n f ≡ ok g
    → deposits g ≡ deposits f + n
unfolding add_to_vested
deposits-add_to_vested slot n f h = ground arith

pub deposits-claim_harvest :
    (mint : Pubkey) (f : Farmer) {g : Farmer} {n : TokenAmount}
    → claim_harvest mint f ≡ ok (g, n)
    → deposits g ≡ deposits f
unfolding claim_harvest
deposits-claim_harvest mint f h =
    let (x, c1, h1) =
      >>=-eq-ok
        (ok_or (find (λ h. h.mint == mint) f.harvests) cannot_compound_if_stake_mint_is_not_harvest)
        _ h in
    let (hs, c2, h2) =
      >>=-eq-ok
        (ok_or (replace_first (λ h. h.mint == mint) (λ h. record h { tokens = 0 }) f.harvests)
          cannot_compound_if_stake_mint_is_not_harvest)
        _ h1 in
    sym (ap (λ r. deposits r.0) (ok-injective h2))

pub check_compound_accounts-vault :
    (rt : Runtime) (accs : CompoundAccounts) (whitelist : Whitelist) (l : rt.Ledger) {u : Unit {0}}
    → check_compound_accounts rt accs whitelist l ≡ ok u
    → accs.target_stake_vault ≡ rt.find_program_address (stake_vault_seeds accs.target_farm)
unfolding check_compound_accounts
check_compound_accounts-vault rt accs whitelist l h =
    let (u1, c1, h1) = >>=-eq-ok (is_whitelisted accs.whitelist_compounding whitelist) _ h in
    let (sv, c2, h2) = >>=-eq-ok (load_account rt l accs.target_stake_vault) _ h1 in
    let (hv, c3, h3) = >>=-eq-ok (load_account rt l accs.source_harvest_vault) _ h2 in
    let (u4, c4, h4) =
      >>=-eq-ok (check_seeds rt (farm_signer_seeds accs.source_farm) accs.source_farm_signer_pda) _
        h3 in
    let (u5, c5, h5) =
      >>=-eq-ok
        (check_seeds rt (whitelist_seeds accs.source_farm accs.target_farm)
          accs.whitelist_compounding)
        _ h4 in
    let (u6, c6, h6) =
      >>=-eq-ok (check_seeds rt (stake_vault_seeds accs.target_farm) accs.target_stake_vault) _
        h5 in
    check_seeds-eq rt _ _ c6

-- The harvest vault is that of some mint of the source farm.
pub check_compound_accounts-harvest :
    (rt : Runtime) (accs : CompoundAccounts) (whitelist : Whitelist) (l : rt.Ledger) {u : Unit {0}}
    → check_compound_accounts rt accs whitelist l ≡ ok u
    → (mint : Pubkey) × (accs.source_harvest_vault
        ≡ rt.find_program_address (harvest_vault_seeds accs.source_farm mint))
unfolding check_compound_accounts
check_compound_accounts-harvest rt accs whitelist l h =
    let (u1, c1, h1) = >>=-eq-ok (is_whitelisted accs.whitelist_compounding whitelist) _ h in
    let (sv, c2, h2) = >>=-eq-ok (load_account rt l accs.target_stake_vault) _ h1 in
    let (hv, c3, h3) = >>=-eq-ok (load_account rt l accs.source_harvest_vault) _ h2 in
    let (u4, c4, h4) =
      >>=-eq-ok (check_seeds rt (farm_signer_seeds accs.source_farm) accs.source_farm_signer_pda) _
        h3 in
    let (u5, c5, h5) =
      >>=-eq-ok
        (check_seeds rt (whitelist_seeds accs.source_farm accs.target_farm)
          accs.whitelist_compounding)
        _ h4 in
    let (u6, c6, h6) =
      >>=-eq-ok (check_seeds rt (stake_vault_seeds accs.target_farm) accs.target_stake_vault) _
        h5 in
    let (u7, c7, h7) =
      >>=-eq-ok
        (check_seeds rt (harvest_vault_seeds accs.source_farm hv.mint) accs.source_harvest_vault) _
        h6 in
    (hv.mint, check_seeds-eq rt _ _ c7)

-- The farm's vault is owned by its signer, no one else may take from it or close it, and it holds
-- `n` tokens at least.
abbrev pub VaultHolds : (rt : Runtime) → Pubkey → ℕ → rt.Ledger → Type 0
VaultHolds rt farm n l =
    Guarded rt (rt.find_program_address (farm_signer_seeds farm))
      (rt.find_program_address (stake_vault_seeds farm)) n l

module _ (dec : DecimalOps) (rt : Runtime) (laws : RuntimeLaws rt) where
  -- A successful `start_farming` adds the stake to the farmer's deposits, and a vault that held
  -- these and `n` more tokens still does, where the farm's signer is not the one who pays.
  pub start_farming-VaultHolds :
      (accs : StartFarmingAccounts) (slot : Slot) (stake : TokenAmount) (farm : Farm) (f : Farmer)
      (l : rt.Ledger) (n : ℕ) {g : Farmer} {l' : rt.Ledger}
      → accs.wallet_authority ≢ rt.find_program_address (farm_signer_seeds accs.farm)
      → start_farming rt dec accs slot stake farm f l ≡ ok (g, l')
      → VaultHolds rt accs.farm (deposits f + n) l
      → (deposits g ≡ deposits f + stake) × VaultHolds rt accs.farm (deposits g + n) l'
  unfolding start_farming
  start_farming-VaultHolds accs slot stake farm f l n {g} {l'} ne h held =
      let (u1, c1, h1) = >>=-eq-ok (check_same_farm f accs.farm) _ h in
      let (u2, c2, h2) =
        >>=-eq-ok (check_seeds rt (stake_vault_seeds accs.farm) accs.stake_vault) _ h1 in
      let (u3, c3, h3) = >>=-eq-ok (raise_if (stake == 0) invalid_arg) _ h2 in
      let (c, c4, h4) = >>=-eq-ok (check_vested_period_and_update_harvest dec farm slot f) _ h3 in
      let (v, c5, h5) = >>=-eq-ok (add_to_vested slot stake c) _ h4 in
      let (m, c6, h6) =
        >>=-eq-ok
          (invoke (rt.transfer accs.stake_wallet accs.stake_vault accs.wallet_authority stake l)) _
          h5 in
      let same : (v, m) ≡ (g, l') = ok-injective h6 in
      let more : deposits v ≡ deposits f + stake =
        deposits-add_to_vested slot stake c c5
        ∙ ap (λ d. d + stake) (deposits-check dec farm slot f c4) in
      let moved =
        subst (λ k. rt.transfer accs.stake_wallet k accs.wallet_authority stake l ≡ some m)
          (check_seeds-eq rt _ _ c2) (invoke-eq-ok _ c6) in
      let total : deposits f + n + stake ≡ deposits v + n = omega arith in
      subst
        (λ (r : Farmer × rt.Ledger).
          (deposits r.0 ≡ deposits f + stake) × VaultHolds rt accs.farm (deposits r.0 + n) r.1)
        same
        (
          more,
          subst (λ k. VaultHolds rt accs.farm k m) total
              (transfer-Guarded_in rt laws _ accs.stake_wallet _ accs.wallet_authority stake
                (deposits f + n) l m ne moved held),
        )

  -- A successful `stop_farming` takes from the farmer's deposits no more than was asked for, and a
  -- vault that held these and `n` more tokens still does.
  pub stop_farming-VaultHolds :
      (accs : StopFarmingAccounts) (slot : Slot) (most : TokenAmount) (farm : Farm) (f : Farmer)
      (l : rt.Ledger) (n : ℕ) {g : Farmer} {l' : rt.Ledger}
      → stop_farming rt dec accs slot most farm f l ≡ ok (g, l')
      → VaultHolds rt accs.farm (deposits f + n) l
      → (deposits f ≤ deposits g + most) × VaultHolds rt accs.farm (deposits g + n) l'
  unfolding stop_farming
  stop_farming-VaultHolds accs slot most farm f l n {g} {l'} h held =
      let (u1, c1, h1) =
        >>=-eq-ok (check_seeds rt (farmer_seeds accs.farm accs.authority) accs.farmer) _ h in
      let (u2, c2, h2) =
        >>=-eq-ok (check_seeds rt (farm_signer_seeds accs.farm) accs.farm_signer_pda) _ h1 in
      let (u3, c3, h3) =
        >>=-eq-ok (check_seeds rt (stake_vault_seeds accs.farm) accs.stake_vault) _ h2 in
      let (u4, c4, h4) = >>=-eq-ok (raise_if (most == 0) invalid_arg) _ h3 in
      let (c, c5, h5) = >>=-eq-ok (check_vested_period_and_update_harvest dec farm slot f) _ h4 in
      let ((v, paid), c6, h6) = >>=-eq-ok (unstake most c) _ h5 in
      let (m, c7, h7) =
        >>=-eq-ok
          (invoke (rt.transfer accs.stake_vault accs.stake_wallet accs.farm_signer_pda paid l)) _
          h6 in
      let same : (v, m) ≡ (g, l') = ok-injective h7 in
      let (kept, bound) = unstake_conserves most c c6 in
      let before = deposits-check dec farm slot f c5 in
      let moved =
        subst (λ k. rt.transfer k accs.stake_wallet accs.farm_signer_pda paid l ≡ some m)
          (check_seeds-eq rt _ _ c3) (invoke-eq-ok _ c7) in
      let total : deposits f + n ≡ deposits v + n + paid = omega arith in
      let taken : deposits f ≤ deposits v + most = omega arith in
      subst
        (λ (r : Farmer × rt.Ledger).
          (deposits f ≤ deposits r.0 + most) × VaultHolds rt accs.farm (deposits r.0 + n) r.1)
        same
        (
          taken,
          transfer-Guarded_out rt laws _ _ accs.stake_wallet accs.farm_signer_pda paid
              (deposits v + n) l m moved (subst (λ k. VaultHolds rt accs.farm k l) total held),
        )

  -- A successful `compound_same_farm` moves the farmer's harvest of the staked mint to the
  -- deposits, and a vault that held these and `n` more tokens still does, where no harvest vault is
  -- the stake vault.
  pub compound_same_farm-VaultHolds :
      (accs : CompoundSameFarmAccounts) (slot : Slot) (whitelist : Whitelist) (farm : Farm)
      (f : Farmer) (l : rt.Ledger) (n : ℕ) {g : Farmer} {l' : rt.Ledger}
      → ((mint : Pubkey)
          → rt.find_program_address (harvest_vault_seeds accs.farm mint)
            ≢ rt.find_program_address (stake_vault_seeds accs.farm))
      → compound_same_farm rt dec accs slot whitelist farm f l ≡ ok (g, l')
      → VaultHolds rt accs.farm (deposits f + n) l
      → (deposits f ≤ deposits g) × VaultHolds rt accs.farm (deposits g + n) l'
  unfolding compound_same_farm of_same_farm
  compound_same_farm-VaultHolds accs slot whitelist farm f l n {g} {l'} apart h held =
      let (u1, c1, h1) =
        >>=-eq-ok (check_compound_accounts rt (of_same_farm accs) whitelist l) _ h in
      let (u2, c2, h2) = >>=-eq-ok (check_same_farm f accs.farm) _ h1 in
      let (c, c3, h3) = >>=-eq-ok (check_vested_period_and_update_harvest dec farm slot f) _ h2 in
      let ((d, amount), c4, h4) = >>=-eq-ok (claim_harvest farm.stake_mint c) _ h3 in
      let (v, c5, h5) = >>=-eq-ok (add_to_vested slot amount d) _ h4 in
      let (m, c6, h6) =
        >>=-eq-ok
          (invoke (rt.transfer accs.harvest_vault accs.stake_vault accs.farm_signer_pda amount l)) _
          h5 in
      let (mint, harvest) = check_compound_accounts-harvest rt (of_same_farm accs) whitelist l c1 in
      let same : (v, m) ≡ (g, l') = ok-injective h6 in
      let before = deposits-check dec farm slot f c3 in
      let claimed = deposits-claim_harvest farm.stake_mint c c4 in
      let after = deposits-add_to_vested slot amount d c5 in
      let moved =
        subst (λ k. rt.transfer accs.harvest_vault k accs.farm_signer_pda amount l ≡ some m)
          (check_compound_accounts-vault rt (of_same_farm accs) whitelist l c1)
          (invoke-eq-ok _ c6) in
      let total : deposits f + n + amount ≡ deposits v + n = omega arith in
      let more : deposits f ≤ deposits v = omega arith in
      subst
        (λ (r : Farmer × rt.Ledger).
          (deposits f ≤ deposits r.0) × VaultHolds rt accs.farm (deposits r.0 + n) r.1)
        same
        (
          more,
          subst (λ k. VaultHolds rt accs.farm k m) total
              (transfer-Guarded_to rt laws _ accs.harvest_vault _ accs.farm_signer_pda amount
                (deposits f + n) l m (λ is. apart mint (sym harvest ∙ is)) moved held),
        )
