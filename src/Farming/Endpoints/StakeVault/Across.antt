-- ===== src/Farming/Endpoints/StakeVault/Across.antt =====
-- Compounding from one farm into another, and the stake vaults of both.
use solana_amm.Base.{
  ℕ, ◌+◌, ◌≡◌, sym, subst, ◌∙◌, not, some, arith, ok, ◌==◌, >>=-eq-ok, ok-injective, invoke-eq-ok,
  invoke, raise_if,
}
use solana_amm.BTree.{Pubkey}
use solana_amm.Decimal.{DecimalOps}
use solana_amm.Runtime.{Runtime, harvest_vault_seeds, stake_vault_seeds}
use solana_amm.Runtime.Laws.{RuntimeLaws}
use solana_amm.Runtime.Vaults.Guarded.{transfer-Guarded_to, transfer-Guarded_off}
use solana_amm.Farming.Err.{invalid_account_input}
use solana_amm.Farming.Farm.{Slot, TokenAmount, Farm}
use solana_amm.Farming.Farmer.{Farmer, add_to_vested, claim_harvest}
use solana_amm.Farming.Farmer.Update.{check_vested_period_and_update_harvest}
use solana_amm.Farming.Endpoints.Staking.{check_same_farm}
use solana_amm.Farming.Endpoints.Compound.{
  CompoundAccounts, Whitelist, check_compound_accounts, compound_across_farms,
}
use solana_amm.Farming.Endpoints.StakeVault.{
  deposits, deposits-check, deposits-add_to_vested, deposits-claim_harvest, VaultHolds,
  check_compound_accounts-vault, check_compound_accounts-harvest,
}
use solana_amm.Farming.Endpoints.StakeVault.Claims.{Apart}

-- What `compound_across_farms` did: `n` tokens went from a harvest vault of the source farm to the
-- stake vault of the target farm, and to the deposits of the target's farmer alone.
record Compounded (rt : Runtime) (accs : CompoundAccounts) (f t f' t' : Farmer) (l l' : rt.Ledger)
    : Type 0 where
  amount : TokenAmount
  mint : Pubkey
  source : deposits f' ≡ deposits f
  target : deposits t' ≡ deposits t + amount
  harvest :
      accs.source_harvest_vault
      ≡ rt.find_program_address (harvest_vault_seeds accs.source_farm mint)
  moved :
      rt.transfer accs.source_harvest_vault
        (rt.find_program_address (stake_vault_seeds accs.target_farm))
        accs.source_farm_signer_pda
        amount
        l
      ≡ some l'

module _ (dec : DecimalOps) (rt : Runtime) (laws : RuntimeLaws rt) where
  compound_across_farms-Compounded :
      (accs : CompoundAccounts) (slot : Slot) (whitelist : Whitelist) (source target : Farm)
      (f t : Farmer) (l : rt.Ledger) {f' t' : Farmer} {l' : rt.Ledger}
      → compound_across_farms rt dec accs slot whitelist source target f t l ≡ ok (f', t', l')
      → Compounded rt accs f t f' t' l l'
  unfolding compound_across_farms
  compound_across_farms-Compounded accs slot whitelist source target f t l {f'} {t'} {l'} h =
      let (u1, c1, h1) =
        >>=-eq-ok (raise_if (accs.target_farm == accs.source_farm) invalid_account_input) _ h in
      let (u2, c2, h2) = >>=-eq-ok (check_compound_accounts rt accs whitelist l) _ h1 in
      let (u3, c3, h3) =
        >>=-eq-ok (raise_if (not (f.authority == t.authority)) invalid_account_input) _ h2 in
      let (u4, c4, h4) = >>=-eq-ok (check_same_farm f accs.source_farm) _ h3 in
      let (u5, c5, h5) = >>=-eq-ok (check_same_farm t accs.target_farm) _ h4 in
      let (c, c6, h6) = >>=-eq-ok (check_vested_period_and_update_harvest dec source slot f) _ h5 in
      let ((d, amount), c7, h7) = >>=-eq-ok (claim_harvest target.stake_mint c) _ h6 in
      let (v, c8, h8) = >>=-eq-ok (add_to_vested slot amount t) _ h7 in
      let (m, c9, h9) =
        >>=-eq-ok
          (invoke (
            rt.transfer accs.source_harvest_vault accs.target_stake_vault
              accs.source_farm_signer_pda amount l))
          _ h8 in
      let (mint, harvest) = check_compound_accounts-harvest rt accs whitelist l c2 in
      subst (λ (r : Farmer × Farmer × rt.Ledger). Compounded rt accs f t r.0 r.1 l r.2)
        (ok-injective h9)
        (record {
          amount = amount;
          mint = mint;
          source =
              deposits-claim_harvest target.stake_mint c c7 ∙ deposits-check dec source slot f c6;
          target = deposits-add_to_vested slot amount t c8;
          harvest = harvest;
          moved =
              subst
                (λ k.
                  rt.transfer accs.source_harvest_vault k accs.source_farm_signer_pda amount l
                  ≡ some m)
                (check_compound_accounts-vault rt accs whitelist l c2) (invoke-eq-ok _ c9);
        })

  -- The vault of the target farm that held the deposits of its farmer and `n` more tokens still
  -- does.
  pub compound_across_farms-VaultHolds_target :
      (accs : CompoundAccounts) (slot : Slot) (whitelist : Whitelist) (source target : Farm)
      (f t : Farmer) (l : rt.Ledger) (n : ℕ) {f' t' : Farmer} {l' : rt.Ledger}
      → Apart rt accs.target_farm
      → compound_across_farms rt dec accs slot whitelist source target f t l ≡ ok (f', t', l')
      → VaultHolds rt accs.target_farm (deposits t + n) l
      → VaultHolds rt accs.target_farm (deposits t' + n) l'
  compound_across_farms-VaultHolds_target accs slot whitelist source target f t l n {f'} {t'} {l'}
        apart h held =
      let did = compound_across_farms-Compounded accs slot whitelist source target f t l h in
      let total : deposits t + n + did.amount ≡ deposits t' + n = omega (arith, did.target) in
      subst (λ k. VaultHolds rt accs.target_farm k l') total
        (transfer-Guarded_to rt laws _ accs.source_harvest_vault _ accs.source_farm_signer_pda
          did.amount (deposits t + n) l l'
          (λ is. apart accs.source_farm did.mint (sym did.harvest ∙ is)) did.moved held)

  -- The deposits in the source farm stay, and so does what its stake vault holds.
  pub compound_across_farms-VaultHolds_source :
      (accs : CompoundAccounts) (slot : Slot) (whitelist : Whitelist) (source target : Farm)
      (f t : Farmer) (l : rt.Ledger) (n : ℕ) {f' t' : Farmer} {l' : rt.Ledger}
      → Apart rt accs.source_farm
      → compound_across_farms rt dec accs slot whitelist source target f t l ≡ ok (f', t', l')
      → VaultHolds rt accs.source_farm (deposits f + n) l
      → VaultHolds rt accs.source_farm (deposits f' + n) l'
  compound_across_farms-VaultHolds_source accs slot whitelist source target f t l n {f'} {t'} {l'}
        apart h held =
      let did = compound_across_farms-Compounded accs slot whitelist source target f t l h in
      subst (λ d. VaultHolds rt accs.source_farm (d + n) l') (sym did.source)
        (transfer-Guarded_off rt laws _ accs.source_harvest_vault _ accs.source_farm_signer_pda _
          did.amount (deposits f + n) l l'
          (λ is. apart accs.source_farm did.mint (sym did.harvest ∙ sym is)) did.moved held)
