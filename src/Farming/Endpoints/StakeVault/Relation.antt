-- ===== src/Farming/Endpoints/StakeVault/Relation.antt =====
-- The instructions on one farm as steps on its farmers and the token ledger.
use solana_amm.Base.{ℕ, Bool, ◌+◌, ◌≡◌, ◌≢◌, some, List, [], ◌∷◌, ◌++◌, ok}
use solana_amm.BTree.{Pubkey}
use solana_amm.Decimal.{DecimalOps}
use solana_amm.Runtime.{Runtime, farm_signer_seeds}
use solana_amm.Farming.Farm.{Slot, TokenAmount, Farm}
use solana_amm.Farming.Farmer.{Farmer}
use solana_amm.Farming.Endpoints.Staking.{
  StartFarmingAccounts, StopFarmingAccounts, start_farming, stop_farming,
  handle_update_eligible_harvest, create_farmer, close_farmer,
}
use solana_amm.Farming.Endpoints.Claim.{
  ClaimAccounts, AirdropAccounts, claim_eligible_harvest, handle_airdrop,
}
use solana_amm.Farming.Endpoints.Compound.{
  CompoundAccounts, CompoundSameFarmAccounts, Whitelist, compound_same_farm, compound_across_farms,
}
use solana_amm.Farming.Endpoints.Harvests.{
  HarvestAccounts, handle_add_harvest, remove_harvest, handle_new_harvest_period,
}
use solana_amm.Farming.Endpoints.StakeVault.{deposits, VaultHolds}

-- The farmers of a farm and the token ledger.
pub record Staking (rt : Runtime) : Type 0 where
  pub farmers : List Farmer
  pub ledger : rt.Ledger

abbrev pub total : List Farmer → ℕ
total [] = 0
total (f ∷ fs) = deposits f + total fs

module _ (dec : DecimalOps) (rt : Runtime) (key : Pubkey) where
  -- `State` with these farmers and this ledger.
  abbrev pub state : List Farmer → rt.Ledger → Staking rt
  state fs l = record { farmers = fs; ledger = l }

  -- One instruction on the farm `key` that succeeds, for the farmer that stands between the others.
  -- Whoever pays or transfers is not the farm's signer. The farm may be any: what the instructions
  -- that only write to it leave there is not asked for.
  pub data Step : Staking rt → Staking rt → Type 0 where
    created :
        (fs : List Farmer) (l : rt.Ledger) (authority farmer_key : Pubkey) (farm : Farm)
        (g : Farmer)
        → create_farmer rt authority farmer_key key farm ≡ ok g
        → Step (state fs l) (state (g ∷ fs) l)
    started :
        (before after : List Farmer) (f g : Farmer) (l l' : rt.Ledger) (accs : StartFarmingAccounts)
        (slot : Slot) (stake : TokenAmount) (farm : Farm)
        → accs.farm ≡ key
        → accs.wallet_authority ≢ rt.find_program_address (farm_signer_seeds key)
        → start_farming rt dec accs slot stake farm f l ≡ ok (g, l')
        → Step (state (before ++ f ∷ after) l) (state (before ++ g ∷ after) l')
    stopped :
        (before after : List Farmer) (f g : Farmer) (l l' : rt.Ledger) (accs : StopFarmingAccounts)
        (slot : Slot) (most : TokenAmount) (farm : Farm)
        → accs.farm ≡ key
        → stop_farming rt dec accs slot most farm f l ≡ ok (g, l')
        → Step (state (before ++ f ∷ after) l) (state (before ++ g ∷ after) l')
    updated :
        (before after : List Farmer) (f g : Farmer) (l : rt.Ledger) (farm : Farm) (until : Slot)
        → handle_update_eligible_harvest dec key farm until f ≡ ok g
        → Step (state (before ++ f ∷ after) l) (state (before ++ g ∷ after) l)
    claimed :
        (before after : List Farmer) (f g : Farmer) (l l' : rt.Ledger) (accs : ClaimAccounts)
        → f.farm ≡ key
        → claim_eligible_harvest rt accs f l ≡ ok (g, l')
        → Step (state (before ++ f ∷ after) l) (state (before ++ g ∷ after) l')
    compounded :
        (before after : List Farmer) (f g : Farmer) (l l' : rt.Ledger)
        (accs : CompoundSameFarmAccounts) (slot : Slot) (whitelist : Whitelist) (farm : Farm)
        → accs.farm ≡ key
        → compound_same_farm rt dec accs slot whitelist farm f l ≡ ok (g, l')
        → Step (state (before ++ f ∷ after) l) (state (before ++ g ∷ after) l')
    -- From another farm to this one, and from this one to another.
    compounded_in :
        (before after : List Farmer) (f g f' g' : Farmer) (l l' : rt.Ledger)
        (accs : CompoundAccounts) (slot : Slot) (whitelist : Whitelist) (other farm : Farm)
        → accs.target_farm ≡ key
        → compound_across_farms rt dec accs slot whitelist other farm f' f l ≡ ok (g', g, l')
        → Step (state (before ++ f ∷ after) l) (state (before ++ g ∷ after) l')
    compounded_out :
        (before after : List Farmer) (f g f' g' : Farmer) (l l' : rt.Ledger)
        (accs : CompoundAccounts) (slot : Slot) (whitelist : Whitelist) (farm other : Farm)
        → accs.source_farm ≡ key
        → compound_across_farms rt dec accs slot whitelist farm other f f' l ≡ ok (g, g', l')
        → Step (state (before ++ f ∷ after) l) (state (before ++ g ∷ after) l')
    airdropped :
        (before after : List Farmer) (f g : Farmer) (l l' : rt.Ledger) (accs : AirdropAccounts)
        (airdrop : TokenAmount)
        → accs.wallet_authority ≢ rt.find_program_address (farm_signer_seeds key)
        → handle_airdrop rt accs airdrop f l ≡ ok (g, l')
        → Step (state (before ++ f ∷ after) l) (state (before ++ g ∷ after) l')
    harvest_added :
        (fs : List Farmer) (l l' : rt.Ledger) (accs : HarvestAccounts) (mint : Pubkey)
        (farm changed : Farm)
        → accs.farm ≡ key
        → handle_add_harvest rt accs mint farm l ≡ ok (changed, l')
        → Step (state fs l) (state fs l')
    harvest_removed :
        (fs : List Farmer) (l l' : rt.Ledger) (accs : HarvestAccounts) (mint : Pubkey)
        (farm changed : Farm)
        → accs.farm ≡ key
        → remove_harvest rt accs mint farm l ≡ ok (changed, l')
        → Step (state fs l) (state fs l')
    period_added :
        (fs : List Farmer) (l l' : rt.Ledger) (accs : HarvestAccounts) (is_limited : Bool)
        (now : Slot) (wallet mint : Pubkey) (starts_at : Slot) (length : ℕ) (tps : TokenAmount)
        (farm changed : Farm)
        → accs.farm ≡ key
        → accs.admin ≢ rt.find_program_address (farm_signer_seeds key)
        → handle_new_harvest_period rt accs is_limited now wallet mint starts_at length tps farm l
          ≡ ok (changed, l')
        → Step (state fs l) (state fs l')
    closed :
        (before after : List Farmer) (f : Farmer) (l : rt.Ledger) (authority : Pubkey)
        → close_farmer authority f ≡ ok tt
        → Step (state (before ++ f ∷ after) l) (state (before ++ after) l)
    transferred :
        (fs : List Farmer) (l l' : rt.Ledger) (from to who : Pubkey) (n : ℕ)
        → who ≢ rt.find_program_address (farm_signer_seeds key)
        → rt.transfer from to who n l ≡ some l'
        → Step (state fs l) (state fs l')

  pub data Reach (s : Staking rt) : Staking rt → Type 0 where
    here : Reach s s
    next : {t u : Staking rt} → Reach s t → Step t u → Reach s u

  -- The vault holds all deposits.
  abbrev pub Covered : Staking rt → Type 0
  Covered s = VaultHolds rt key (total s.farmers) s.ledger
