-- ===== src/Farming/Endpoints/StakeVault/Claims.antt =====
-- A claim of harvest pays from harvest vaults, and leaves the stake vault alone.
use solana_amm.Base.{
  ℕ, ◌≡◌, ◌≢◌, sym, ap, subst, ◌∙◌, List, [], ◌∷◌, Option, none, some, not, false, ◌||◌, ◌%◌, map,
  arith, ok, ◌==◌, length, >>=-eq-ok, ok-injective, invoke-eq-ok, raise_if-eq-ok, invoke, raise_if,
  try_fold,
}
use solana_amm.BTree.{Pubkey, BTreeMap, collect, get}
use solana_amm.Runtime.{
  Runtime, farmer_seeds, farm_signer_seeds, stake_vault_seeds, harvest_vault_seeds, check_seeds,
  load_account,
}
use solana_amm.Runtime.Laws.{RuntimeLaws}
use solana_amm.Runtime.Vaults.Guarded.{Guarded, transfer-Guarded_off}
use solana_amm.Farming.Err.{invalid_account_input}
use solana_amm.Farming.Farm.{TokenAmount}
use solana_amm.Farming.Farmer.{Farmer, set_harvests}
use solana_amm.Farming.Farmer.Update.{farmer_harvest_entry}
use solana_amm.Farming.Endpoints.Claim.{
  ClaimAccounts, vault_wallet_pairs, positive, pay_harvest, claim_pair, claim_eligible_harvest,
}
use solana_amm.Farming.Endpoints.StakeVault.{deposits, VaultHolds}

-- No harvest vault, of this farm or another, has the address of the farm's stake vault.
abbrev pub Apart : Runtime → Pubkey → Type 0
Apart rt farm =
    (other mint : Pubkey)
    → rt.find_program_address (harvest_vault_seeds other mint)
      ≢ rt.find_program_address (stake_vault_seeds farm)

equal_keys : (a b : ℕ) → not (a == b) ≡ false → a ≡ b
equal_keys a b h = ground arith

module _ (rt : Runtime) (laws : RuntimeLaws rt) (guard k : Pubkey) where
  pay_harvest-Guarded :
      (signer vault wallet mint : Pubkey) (o : Option TokenAmount) (hs : BTreeMap TokenAmount)
      (l : rt.Ledger) (n : ℕ) {r : BTreeMap TokenAmount × rt.Ledger}
      → k ≢ vault
      → pay_harvest rt signer (vault, wallet) mint o (hs, l) ≡ ok r
      → Guarded rt guard k n l
      → Guarded rt guard k n r.1
  unfolding pay_harvest
  pay_harvest-Guarded signer vault wallet mint none hs l n ne h held =
      subst (λ (r : BTreeMap TokenAmount × rt.Ledger). Guarded rt guard k n r.1) (ok-injective h)
        held
  pay_harvest-Guarded signer vault wallet mint (some amount) hs l n ne h held =
      let (m, c1, h1) = >>=-eq-ok (invoke (rt.transfer vault wallet signer amount l)) _ h in
      subst (λ (r : BTreeMap TokenAmount × rt.Ledger). Guarded rt guard k n r.1) (ok-injective h1)
        (transfer-Guarded_off rt laws guard vault wallet signer k amount n l m ne
          (invoke-eq-ok _ c1) held)

  claim_pair-Guarded :
      (farm signer : Pubkey) (s : BTreeMap TokenAmount × rt.Ledger) (pair : Pubkey × Pubkey) (n : ℕ)
      {r : BTreeMap TokenAmount × rt.Ledger}
      → ((mint : Pubkey) → rt.find_program_address (harvest_vault_seeds farm mint) ≢ k)
      → claim_pair rt farm signer s pair ≡ ok r
      → Guarded rt guard k n s.1
      → Guarded rt guard k n r.1
  unfolding claim_pair
  claim_pair-Guarded farm signer (hs, l) (vault, wallet) n apart h held =
      let (x, c1, h1) = >>=-eq-ok (load_account rt l vault) _ h in
      let (u2, c2, h2) =
        >>=-eq-ok
          (raise_if (not (rt.find_program_address (harvest_vault_seeds farm x.mint) == vault))
            invalid_account_input)
          _ h1 in
      let there = equal_keys _ _ (raise_if-eq-ok _ _ c2) in
      pay_harvest-Guarded signer vault wallet x.mint (positive (get x.mint hs)) hs l n
        (λ is. apart x.mint (there ∙ sym is)) h2 held

  claim_pairs-Guarded :
      (farm signer : Pubkey) (s : BTreeMap TokenAmount × rt.Ledger) (pairs : List (Pubkey × Pubkey))
      (n : ℕ) {r : BTreeMap TokenAmount × rt.Ledger}
      → ((mint : Pubkey) → rt.find_program_address (harvest_vault_seeds farm mint) ≢ k)
      → try_fold (claim_pair rt farm signer) s pairs ≡ ok r
      → Guarded rt guard k n s.1
      → Guarded rt guard k n r.1
  claim_pairs-Guarded farm signer s [] n apart h held =
      subst (λ (r : BTreeMap TokenAmount × rt.Ledger). Guarded rt guard k n r.1) (ok-injective h)
        held
  claim_pairs-Guarded farm signer s (pair ∷ pairs) n apart h held =
      let (t, c1, h1) = >>=-eq-ok (claim_pair rt farm signer s pair) _ h in
      claim_pairs-Guarded farm signer t pairs n apart h1
        (claim_pair-Guarded farm signer s pair n apart c1 held)

module _ (rt : Runtime) (laws : RuntimeLaws rt) where
  -- A successful claim changes no deposits and takes nothing from the stake vault of the farm.
  pub claim_eligible_harvest-VaultHolds :
      (accs : ClaimAccounts) (f : Farmer) (l : rt.Ledger) (n : ℕ) {g : Farmer} {l' : rt.Ledger}
      → Apart rt f.farm
      → claim_eligible_harvest rt accs f l ≡ ok (g, l')
      → VaultHolds rt f.farm n l
      → (deposits g ≡ deposits f) × VaultHolds rt f.farm n l'
  unfolding claim_eligible_harvest set_harvests
  claim_eligible_harvest-VaultHolds accs f l n {g} {l'} apart h held =
      let (u1, c1, h1) =
        >>=-eq-ok (check_seeds rt (farmer_seeds f.farm accs.authority) accs.farmer) _ h in
      let (u2, c2, h2) =
        >>=-eq-ok (check_seeds rt (farm_signer_seeds f.farm) accs.farm_signer_pda) _ h1 in
      let (u3, c3, h3) =
        >>=-eq-ok
          (raise_if
            ((length accs.remaining_accounts == 0) || not (length accs.remaining_accounts % 2 == 0))
            invalid_account_input)
          _ h2 in
      let (pairs, c4, h4) = >>=-eq-ok (vault_wallet_pairs accs.remaining_accounts) _ h3 in
      let ((hs, m), c5, h5) =
        >>=-eq-ok
          (try_fold (claim_pair rt f.farm accs.farm_signer_pda)
            (collect (map farmer_harvest_entry f.harvests), l) pairs)
          _ h4 in
      let same : (set_harvests hs f, m) ≡ (g, l') = ok-injective h5 in
      (
        sym (ap (λ (r : Farmer × rt.Ledger). deposits r.0) same),
        subst (λ z. VaultHolds rt f.farm n z) (ap (λ (r : Farmer × rt.Ledger). r.1) same)
            (claim_pairs-Guarded rt laws _ _ f.farm accs.farm_signer_pda _ pairs n (apart f.farm) c5
              held),
      )
