-- ===== src/Farming/Endpoints/StakeVault/Steps.antt =====
-- The stake vault of a farm, however its instructions follow each other.
use solana_amm.Base.{
  ℕ, ◌+◌, ◌≡◌, ◌≢◌, refl, sym, ap, subst, List, [], ◌∷◌, ◌++◌, arith, ok, >>=-eq-ok, ok-injective,
}
use solana_amm.BTree.{Pubkey}
use solana_amm.Decimal.{DecimalOps}
use solana_amm.Runtime.{Runtime, farmer_seeds, farm_signer_seeds, check_seeds}
use solana_amm.Runtime.Laws.{RuntimeLaws}
use solana_amm.Runtime.Vaults.Guarded.{transfer-Guarded_other}
use solana_amm.Farming.Farm.{Slot, Farm}
use solana_amm.Farming.Farmer.{Farmer, set_harvests, total_deposited}
use solana_amm.Farming.Endpoints.Staking.{
  check_same_farm, handle_update_eligible_harvest, create_farmer, close_farmer,
}
use solana_amm.Farming.Endpoints.StakeVault.Across.{
  compound_across_farms-VaultHolds_target, compound_across_farms-VaultHolds_source,
}
use solana_amm.Farming.Endpoints.StakeVault.Harvests.{
  handle_airdrop-VaultHolds, handle_add_harvest-VaultHolds, remove_harvest-VaultHolds,
  new_harvest_period-VaultHolds,
}
use solana_amm.Farming.Endpoints.StakeVault.{
  deposits, deposits-check, VaultHolds, start_farming-VaultHolds, stop_farming-VaultHolds,
  compound_same_farm-VaultHolds,
}
use solana_amm.Farming.Endpoints.StakeVault.Claims.{Apart, claim_eligible_harvest-VaultHolds}
use solana_amm.Farming.Endpoints.StakeVault.Relation.{
  Staking, total, state, Step, created, started, stopped, updated, claimed, compounded,
  compounded_in, compounded_out, airdropped, harvest_added, harvest_removed, period_added, closed,
  transferred, Reach, here, next, Covered,
}

total-between :
    (f : Farmer) (before after : List Farmer)
    → total (before ++ f ∷ after) ≡ deposits f + total (before ++ after)
total-between f [] after = refl
total-between f (b ∷ before) after = omega (arith, total-between f before after)

deposits-create_farmer :
    (rt : Runtime) (authority farmer_key key : Pubkey) (farm : Farm) {g : Farmer}
    → create_farmer rt authority farmer_key key farm ≡ ok g
    → deposits g ≡ 0
unfolding create_farmer set_harvests
deposits-create_farmer rt authority farmer_key key farm h =
    let (u1, c1, h1) = >>=-eq-ok (check_seeds rt (farmer_seeds key authority) farmer_key) _ h in
    sym (ap deposits (ok-injective h1))

deposits-close_farmer :
    (authority : Pubkey) (f : Farmer) {u : Unit {0}}
    → close_farmer authority f ≡ ok u
    → deposits f ≡ 0
unfolding close_farmer total_deposited
deposits-close_farmer authority f h = ground arith

deposits-update :
    (dec : DecimalOps) (key : Pubkey) (farm : Farm) (until : Slot) (f : Farmer) {g : Farmer}
    → handle_update_eligible_harvest dec key farm until f ≡ ok g
    → deposits g ≡ deposits f
unfolding handle_update_eligible_harvest
deposits-update dec key farm until f h =
    let (u1, c1, h1) = >>=-eq-ok (check_same_farm f key) _ h in deposits-check dec farm until f h1

module _ (dec : DecimalOps) (rt : Runtime) (laws : RuntimeLaws rt) (key : Pubkey) where
  -- A change of one farmer's deposits that the vault follows.
  one_farmer :
      (before after : List Farmer) (f g : Farmer) (l l' : rt.Ledger)
      → (VaultHolds rt key (deposits f + total (before ++ after)) l
          → VaultHolds rt key (deposits g + total (before ++ after)) l')
      → Covered dec rt key (state dec rt key (before ++ f ∷ after) l)
      → Covered dec rt key (state dec rt key (before ++ g ∷ after) l')
  one_farmer before after f g l l' keeps held =
      subst (λ n. VaultHolds rt key n l') (sym (total-between g before after))
        (keeps (subst (λ n. VaultHolds rt key n l) (total-between f before after) held))

  same_deposits :
      (before after : List Farmer) (f g : Farmer) (l : rt.Ledger)
      → deposits g ≡ deposits f
      → Covered dec rt key (state dec rt key (before ++ f ∷ after) l)
      → Covered dec rt key (state dec rt key (before ++ g ∷ after) l)
  same_deposits before after f g l same =
      one_farmer before after f g l l
        (subst (λ n. VaultHolds rt key n l) (ap (λ d. d + total (before ++ after)) (sym same)))

  -- What an instruction keeps of the farm that it names, it keeps of this one, if that is the one.
  of_farm :
      (k : Pubkey) (m n : ℕ) (l l' : rt.Ledger)
      → k ≡ key
      → (VaultHolds rt k m l → VaultHolds rt k n l')
      → VaultHolds rt key m l
      → VaultHolds rt key n l'
  of_farm k m n l l' home = subst (λ j. VaultHolds rt j m l → VaultHolds rt j n l') home

  home-Apart : (k : Pubkey) → k ≡ key → Apart rt key → Apart rt k
  home-Apart k home = subst (Apart rt) (sym home)

  not_signer :
      (k who : Pubkey)
      → k ≡ key
      → who ≢ rt.find_program_address (farm_signer_seeds key)
      → who ≢ rt.find_program_address (farm_signer_seeds k)
  not_signer k who home =
      subst (λ j. who ≢ rt.find_program_address (farm_signer_seeds j)) (sym home)

  pub Step-Covered :
      {s t : Staking rt}
      → Apart rt key
      → Step dec rt key s t
      → Covered dec rt key s
      → Covered dec rt key t
  Step-Covered apart (created fs l authority farmer_key farm g h) held =
      let none_yet = deposits-create_farmer rt authority farmer_key key farm h in
      let same : total fs ≡ deposits g + total fs = omega arith in
      subst (λ n. VaultHolds rt key n l) same held
  Step-Covered apart (started before after f g l l' accs slot stake farm home ne h) held =
      one_farmer before after f g l l'
        (of_farm accs.farm _ _ l l' home (λ v.
          (start_farming-VaultHolds dec rt laws accs slot stake farm f l (total (before ++ after))
            (not_signer accs.farm accs.wallet_authority home ne) h v).1))
        held
  Step-Covered apart (stopped before after f g l l' accs slot most farm home h) held =
      one_farmer before after f g l l'
        (of_farm accs.farm _ _ l l' home (λ v.
          (stop_farming-VaultHolds dec rt laws accs slot most farm f l (total (before ++ after)) h
            v).1))
        held
  Step-Covered apart (updated before after f g l farm until h) held =
      same_deposits before after f g l (deposits-update dec key farm until f h) held
  Step-Covered apart (claimed before after f g l l' accs home h) held =
      one_farmer before after f g l l'
        (of_farm f.farm _ _ l l' home (λ v.
          let (same, kept) =
            claim_eligible_harvest-VaultHolds rt laws accs f l _ (home-Apart f.farm home apart) h
              v in
          subst (λ d. VaultHolds rt f.farm (d + total (before ++ after)) l') (sym same) kept))
        held
  Step-Covered apart (compounded before after f g l l' accs slot whitelist farm home h) held =
      one_farmer before after f g l l'
        (of_farm accs.farm _ _ l l' home (λ v.
          (compound_same_farm-VaultHolds dec rt laws accs slot whitelist farm f l
            (total (before ++ after)) (home-Apart accs.farm home apart accs.farm) h v).1))
        held
  Step-Covered apart
        (compounded_in before after f g f' g' l l' accs slot whitelist other farm home h) held =
      one_farmer before after f g l l'
        (of_farm accs.target_farm _ _ l l' home (
          compound_across_farms-VaultHolds_target dec rt laws accs slot whitelist other farm f' f l
            (total (before ++ after)) (home-Apart accs.target_farm home apart) h))
        held
  Step-Covered apart
        (compounded_out before after f g f' g' l l' accs slot whitelist farm other home h) held =
      one_farmer before after f g l l'
        (of_farm accs.source_farm _ _ l l' home (
          compound_across_farms-VaultHolds_source dec rt laws accs slot whitelist farm other f f' l
            (total (before ++ after)) (home-Apart accs.source_farm home apart) h))
        held
  Step-Covered apart (airdropped before after f g l l' accs airdrop ne h) held =
      one_farmer before after f g l l'
        (handle_airdrop-VaultHolds rt laws accs airdrop f l key (total (before ++ after)) ne h) held
  Step-Covered apart (harvest_added fs l l' accs mint farm changed home h) held =
      of_farm accs.farm _ _ l l' home
        (handle_add_harvest-VaultHolds rt laws accs mint farm l (total fs)
          (home-Apart accs.farm home apart) h)
        held
  Step-Covered apart (harvest_removed fs l l' accs mint farm changed home h) held =
      of_farm accs.farm _ _ l l' home
        (remove_harvest-VaultHolds rt laws accs mint farm l (total fs)
          (home-Apart accs.farm home apart) h)
        held
  Step-Covered apart
        (period_added fs l l' accs is_limited now wallet mint starts_at length tps farm changed home
          ne h)
        held =
      of_farm accs.farm _ _ l l' home
        (new_harvest_period-VaultHolds rt laws accs is_limited now wallet mint starts_at length tps
          farm l (total fs) (home-Apart accs.farm home apart)
          (not_signer accs.farm accs.admin home ne) h)
        held
  Step-Covered apart (closed before after f l authority h) held =
      let none_left = deposits-close_farmer authority f h in
      let same : total (before ++ f ∷ after) ≡ total (before ++ after) =
        omega (arith, total-between f before after) in
      subst (λ n. VaultHolds rt key n l) same held
  Step-Covered apart (transferred fs l l' from to who n ne h) held =
      transfer-Guarded_other rt laws _ from to who _ n (total fs) l l' ne h held

  -- However the instructions on a farm follow each other, with token transfers in between, a stake
  -- vault that the farm's signer owns, that no one else may take from or close, and that holds all
  -- deposits of the farm's farmers still is so afterwards, where no harvest vault has the address of
  -- the stake vault and nobody who pays or transfers is the farm's signer.
  pub Reach-Covered :
      {s t : Staking rt}
      → Apart rt key
      → Covered dec rt key s
      → Reach dec rt key s t
      → Covered dec rt key t
  Reach-Covered apart held here = held
  Reach-Covered apart held (next r step) = Step-Covered apart step (Reach-Covered apart held r)
