-- ===== src/Farming/Endpoints/StakeVault/Harvests.antt =====
-- Airdrops and the admin's instructions on harvests, which leave the stake vault alone.
use solana_amm.Base.{
  ℕ, Bool, arith, ◌+◌, ◌-◌, ◌≡◌, ◌≢◌, inl, inr, sym, subst, ◌∙◌, not, ok, ltb, ◌==◌, >>=-eq-ok,
  ok-injective, invoke-eq-ok, invoke, raise_if, ok_or, checked_add, replace_first, Bool-cases,
}
use solana_amm.BTree.{Pubkey}
use solana_amm.Runtime.{
  Runtime, farm_signer_seeds, harvest_vault_seeds, check_seeds, load_account, load_mint,
}
use solana_amm.Runtime.Laws.{RuntimeLaws}
use solana_amm.Runtime.Vaults.Guarded.{
  Guarded, transfer-Guarded_off, transfer-Guarded_other, stays-Guarded,
}
use solana_amm.Farming.Err.{
  invalid_arg, invalid_account_input, math_overflow, harvest_period_must_be_at_least_one_slot,
}
use solana_amm.Farming.Farm.{Slot, TokenAmount, Farm}
use solana_amm.Farming.Farm.Periods.{add_harvest, new_harvest_period}
use solana_amm.Farming.Farmer.{Farmer}
use solana_amm.Farming.Endpoints.Claim.{
  AirdropAccounts, get_harvest_mut, set_harvest, handle_airdrop,
}
use solana_amm.Farming.Endpoints.Compound.{check_admin}
use solana_amm.Farming.Endpoints.Harvests.{
  HarvestAccounts, default_farm_harvest, total_tokens_emitted_per_period, tokens_deposited,
  starting_slot, ending_slot, settle_emission, handle_add_harvest, remove_harvest,
  handle_new_harvest_period,
}
use solana_amm.Farming.Endpoints.StakeVault.{deposits, check_seeds-eq, VaultHolds}
use solana_amm.Farming.Endpoints.StakeVault.Claims.{Apart}

deposits-set_harvest :
    (mint : Pubkey) (n : TokenAmount) (f : Farmer) {g : Farmer}
    → set_harvest mint n f ≡ ok g
    → deposits g ≡ deposits f
unfolding set_harvest
deposits-set_harvest mint n f h = ground arith

module _ (rt : Runtime) (laws : RuntimeLaws rt) where
  -- An airdrop changes no deposits and takes nothing from the stake vault of a farm whose signer
  -- is not the one who pays.
  pub handle_airdrop-VaultHolds :
      (accs : AirdropAccounts) (n : TokenAmount) (f : Farmer) (l : rt.Ledger) (farm : Pubkey)
      (m : ℕ) {g : Farmer} {l' : rt.Ledger}
      → accs.wallet_authority ≢ rt.find_program_address (farm_signer_seeds farm)
      → handle_airdrop rt accs n f l ≡ ok (g, l')
      → VaultHolds rt farm (deposits f + m) l
      → VaultHolds rt farm (deposits g + m) l'
  unfolding handle_airdrop
  handle_airdrop-VaultHolds accs n f l farm m {g} {l'} ne h held =
      let (w, c1, h1) = >>=-eq-ok (load_account rt l accs.harvest_wallet) _ h in
      let (u2, c2, h2) =
        >>=-eq-ok (check_seeds rt (harvest_vault_seeds f.farm w.mint) accs.harvest_vault) _ h1 in
      let (u3, c3, h3) = >>=-eq-ok (raise_if (n == 0) invalid_arg) _ h2 in
      let (a, c4, h4) = >>=-eq-ok (get_harvest_mut w.mint f) _ h3 in
      let (more, c5, h5) = >>=-eq-ok (ok_or (checked_add a.tokens n) math_overflow) _ h4 in
      let (c, c6, h6) = >>=-eq-ok (set_harvest w.mint more f) _ h5 in
      let (l1, c7, h7) =
        >>=-eq-ok
          (invoke (rt.transfer accs.harvest_wallet accs.harvest_vault accs.wallet_authority n l)) _
          h6 in
      subst (λ (r : Farmer × rt.Ledger). VaultHolds rt farm (deposits r.0 + m) r.1)
        (ok-injective h7)
        (subst (λ d. VaultHolds rt farm (d + m) l1) (sym (deposits-set_harvest w.mint more f c6))
          (transfer-Guarded_other rt laws _ accs.harvest_wallet accs.harvest_vault
            accs.wallet_authority _ n (deposits f + m) l l1 ne (invoke-eq-ok _ c7) held))

  settle_emission-Guarded_off :
      (guard k : Pubkey) (accs : HarvestAccounts) (wallet : Pubkey) (balance new old m : ℕ)
      (l : rt.Ledger) {l' : rt.Ledger}
      → accs.admin ≢ guard
      → k ≢ accs.harvest_vault
      → settle_emission rt accs wallet balance new old l ≡ ok l'
      → Guarded rt guard k m l
      → Guarded rt guard k m l'
  unfolding settle_emission
  settle_emission-Guarded_off guard k accs wallet balance new old m l {l'} ne off h held =
      elim (Bool-cases (new == old)) [
        | inl same ↦ subst (Guarded rt guard k m) (ok-injective (rw same at h)) held
        | inr differ ↦ elim (Bool-cases (ltb new old)) [
          | inl less ↦
              transfer-Guarded_off rt laws guard accs.harvest_vault wallet accs.farm_signer_pda k
                (old - new) m l l' off (invoke-eq-ok _ (rw (differ, less) at h)) held
          | inr more ↦
              let (u, c1, h1) =
                >>=-eq-ok (raise_if (ltb balance (new - old)) invalid_account_input) _
                  (rw (differ, more) at h) in
              transfer-Guarded_other rt laws guard wallet accs.harvest_vault accs.admin k
                (new - old) m l l' ne (invoke-eq-ok _ h1) held
        ]
      ]

  -- The payment for a new harvest period.
  pub new_harvest_period-VaultHolds :
      (accs : HarvestAccounts) (is_limited : Bool) (now : Slot) (wallet mint : Pubkey)
      (starts_at : Slot) (length : ℕ) (tps : TokenAmount) (farm : Farm) (l : rt.Ledger) (m : ℕ)
      {changed : Farm} {l' : rt.Ledger}
      → Apart rt accs.farm
      → accs.admin ≢ rt.find_program_address (farm_signer_seeds accs.farm)
      → handle_new_harvest_period rt accs is_limited now wallet mint starts_at length tps farm l
        ≡ ok (changed, l')
      → VaultHolds rt accs.farm m l
      → VaultHolds rt accs.farm m l'
  unfolding handle_new_harvest_period
  new_harvest_period-VaultHolds accs is_limited now wallet mint starts_at length tps farm l m apart
        ne h held =
      let (w, c1, h1) = >>=-eq-ok (load_account rt l wallet) _ h in
      let (v, c2, h2) = >>=-eq-ok (load_account rt l accs.harvest_vault) _ h1 in
      let (u3, c3, h3) =
        >>=-eq-ok (check_seeds rt (harvest_vault_seeds accs.farm mint) accs.harvest_vault) _ h2 in
      let (u4, c4, h4) =
        >>=-eq-ok (check_seeds rt (farm_signer_seeds accs.farm) accs.farm_signer_pda) _ h3 in
      let (u5, c5, h5) = >>=-eq-ok (check_admin accs.admin farm) _ h4 in
      let (u6, c6, h6) =
        >>=-eq-ok (raise_if (length == 0) harvest_period_must_be_at_least_one_slot) _ h5 in
      let (from, c7, h7) = >>=-eq-ok (starting_slot now starts_at) _ h6 in
      let (until, c8, h8) = >>=-eq-ok (ending_slot from length) _ h7 in
      let ((farm', launch), c9, h9) =
        >>=-eq-ok (new_harvest_period is_limited now mint (from, until) tps farm) _ h8 in
      let (new, c10, h10) = >>=-eq-ok (total_tokens_emitted_per_period (from, until) tps) _ h9 in
      let (old, c11, h11) = >>=-eq-ok (tokens_deposited launch) _ h10 in
      let (l1, c12, h12) = >>=-eq-ok (settle_emission rt accs wallet w.amount new old l) _ h11 in
      subst (λ (r : Farm × rt.Ledger). VaultHolds rt accs.farm m r.1) (ok-injective h12)
        (settle_emission-Guarded_off _ _ accs wallet w.amount new old m l ne
          (λ is. apart accs.farm mint (sym (is ∙ check_seeds-eq rt _ _ c3))) c12 held)

  -- Opening and closing a harvest vault.
  pub handle_add_harvest-VaultHolds :
      (accs : HarvestAccounts) (mint : Pubkey) (farm : Farm) (l : rt.Ledger) (m : ℕ)
      {changed : Farm} {l' : rt.Ledger}
      → Apart rt accs.farm
      → handle_add_harvest rt accs mint farm l ≡ ok (changed, l')
      → VaultHolds rt accs.farm m l
      → VaultHolds rt accs.farm m l'
  unfolding handle_add_harvest
  handle_add_harvest-VaultHolds accs mint farm l m apart h held =
      let (u1, c1, h1) =
        >>=-eq-ok (check_seeds rt (farm_signer_seeds accs.farm) accs.farm_signer_pda) _ h in
      let (x, c2, h2) = >>=-eq-ok (load_mint rt l mint) _ h1 in
      let (u3, c3, h3) =
        >>=-eq-ok (check_seeds rt (harvest_vault_seeds accs.farm mint) accs.harvest_vault) _ h2 in
      let (u4, c4, h4) = >>=-eq-ok (check_admin accs.admin farm) _ h3 in
      let (farm', c5, h5) = >>=-eq-ok (add_harvest mint accs.harvest_vault farm) _ h4 in
      let (l1, c6, h6) =
        >>=-eq-ok (invoke (rt.initialize_account accs.harvest_vault mint accs.farm_signer_pda l)) _
          h5 in
      subst (λ (r : Farm × rt.Ledger). VaultHolds rt accs.farm m r.1) (ok-injective h6)
        (stays-Guarded rt _ _ m l l1
          (laws.initialize_account-other accs.harvest_vault mint accs.farm_signer_pda l l1 _
            (invoke-eq-ok _ c6) (λ is. apart accs.farm mint (sym (is ∙ check_seeds-eq rt _ _ c3))))
          held)

  pub remove_harvest-VaultHolds :
      (accs : HarvestAccounts) (mint : Pubkey) (farm : Farm) (l : rt.Ledger) (m : ℕ)
      {changed : Farm} {l' : rt.Ledger}
      → Apart rt accs.farm
      → remove_harvest rt accs mint farm l ≡ ok (changed, l')
      → VaultHolds rt accs.farm m l
      → VaultHolds rt accs.farm m l'
  unfolding remove_harvest
  remove_harvest-VaultHolds accs mint farm l m apart h held =
      let (u1, c1, h1) =
        >>=-eq-ok (check_seeds rt (farm_signer_seeds accs.farm) accs.farm_signer_pda) _ h in
      let (v, c2, h2) = >>=-eq-ok (load_account rt l accs.harvest_vault) _ h1 in
      let (u3, c3, h3) = >>=-eq-ok (raise_if (not (v.amount == 0)) invalid_account_input) _ h2 in
      let (u4, c4, h4) =
        >>=-eq-ok (check_seeds rt (harvest_vault_seeds accs.farm mint) accs.harvest_vault) _ h3 in
      let (u5, c5, h5) = >>=-eq-ok (check_admin accs.admin farm) _ h4 in
      let (hs, c6, h6) =
        >>=-eq-ok
          (ok_or (replace_first (λ h. h.mint == mint) (λ _. default_farm_harvest) farm.harvests)
            invalid_account_input)
          _ h5 in
      let (l1, c7, h7) =
        >>=-eq-ok (invoke (rt.close_account accs.harvest_vault accs.farm_signer_pda l)) _ h6 in
      subst (λ (r : Farm × rt.Ledger). VaultHolds rt accs.farm m r.1) (ok-injective h7)
        (stays-Guarded rt _ _ m l l1
          (laws.close_account-other accs.harvest_vault accs.farm_signer_pda l l1 _
            (invoke-eq-ok _ c7) (λ is. apart accs.farm mint (sym (is ∙ check_seeds-eq rt _ _ c4))))
          held)
