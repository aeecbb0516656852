-- ===== src/Farming/Farmer/Balance.antt =====
-- The deposits of a farmer: `add_to_vested`, `unstake` and `claim_harvest`.
use solana_amm.Base.{
  ◌+◌, ◌≤◌, ◌<◌, ◌≡◌, inl, inr, List, [], ◌∷◌, arith, min, ok, u64_end, ◌==◌, find, replace_first,
  none, some, if◌then◌else◌, Bool-cases, Option, ◌-◌,
}
use solana_amm.BTree.{Pubkey}
use solana_amm.Farming.Farm.{TokenAmount}
use solana_amm.Farming.Farmer.{
  Farmer, AvailableHarvest, total_deposited, unstake, unstake_staked, claim_harvest,
}

-- Both deposits together fit into the vault's u64 balance.
abbrev pub Fits : Farmer → Type 0
Fits f = f.staked + f.vested < u64_end

-- Where both deposits together fit into a u64, `unstake` succeeds. It pays out the smaller of what
-- is asked for and what is deposited, takes exactly that from the deposits, from the vested tokens
-- first, and changes nothing else.
pub unstake_lem :
    (amount : TokenAmount) (f : Farmer)
    → Fits f
    → let paid = min amount (f.staked + f.vested) in
      unstake amount f
      ≡ ok (record f { staked = f.staked - (paid - f.vested); vested = f.vested - paid }, paid)
unfolding unstake unstake_staked total_deposited
unstake_lem amount f h = ground arith

-- `unstake` never creates or loses a token: what was deposited before is what is deposited after
-- and what is paid out.
pub unstake_conserves :
    (amount : TokenAmount) (f : Farmer) {g : Farmer} {paid : TokenAmount}
    → unstake amount f ≡ ok (g, paid)
    → (g.staked + g.vested + paid ≡ f.staked + f.vested) × (paid ≤ amount)
unfolding unstake unstake_staked total_deposited
unstake_conserves amount f h = ground arith

-- The tokens of the first harvest with the mint.
abbrev pub harvest_tokens : Pubkey → List AvailableHarvest → Option TokenAmount
harvest_tokens mint [] = none
harvest_tokens mint (h ∷ hs) = if h.mint == mint then some h.tokens else harvest_tokens mint hs

-- The harvests after the claim.
claimed : Pubkey → List AvailableHarvest → List AvailableHarvest
claimed mint [] = []
claimed mint (h ∷ hs) = if h.mint == mint then record h { tokens = 0 } ∷ hs else h ∷ claimed mint hs

find-harvest_tokens :
    (mint : Pubkey) (hs : List AvailableHarvest) {t : TokenAmount}
    → harvest_tokens mint hs ≡ some t
    → (h : AvailableHarvest) × (find (λ h. h.mint == mint) hs ≡ some h) × (h.tokens ≡ t)
find-harvest_tokens mint [] e = cc
find-harvest_tokens mint (h ∷ hs) e = elim (Bool-cases (h.mint == mint)) [
  | inl same ↦ (h, rw same, ground arith)
  | inr other ↦ rw other (find-harvest_tokens mint hs (rw other at e))
]

replace_first-claimed :
    (mint : Pubkey) (hs : List AvailableHarvest) (t : TokenAmount)
    → harvest_tokens mint hs ≡ some t
    → replace_first (λ h. h.mint == mint) (λ h. record h { tokens = 0 }) hs ≡ some (claimed mint hs)
unfolding claimed
replace_first-claimed mint [] t e = cc
replace_first-claimed mint (h ∷ hs) t e = elim (Bool-cases (h.mint == mint)) [
  | inl same ↦ rw same
  | inr other ↦ rw (other, replace_first-claimed mint hs t (rw other at e))
]

harvest_tokens-claimed :
    (j mint : Pubkey) (hs : List AvailableHarvest) (t : TokenAmount)
    → harvest_tokens mint hs ≡ some t
    → harvest_tokens j (claimed mint hs) ≡ (if mint == j then some 0 else harvest_tokens j hs)
unfolding claimed
harvest_tokens-claimed j mint [] t e = cc
harvest_tokens-claimed j mint (h ∷ hs) t e = elim (Bool-cases (h.mint == mint)) [
  | inl same ↦ rw same (ground arith)
  | inr other ↦ rw other (ground (arith, harvest_tokens-claimed j mint hs t (rw other at e)))
]

-- Where the farmer has a harvest of the mint, `claim_harvest` pays all of it out: it returns the
-- tokens of that harvest and leaves none of them, and no harvest of another mint and no other field
-- changes.
pub claim_harvest_lem :
    (mint j : Pubkey) (f : Farmer) {t : TokenAmount}
    → harvest_tokens mint f.harvests ≡ some t
    → (hs : List AvailableHarvest) × (claim_harvest mint f ≡ ok (record f { harvests = hs }, t))
      × (harvest_tokens j hs ≡ (if mint == j then some 0 else harvest_tokens j f.harvests))
unfolding claim_harvest
claim_harvest_lem mint j f {t} e = (
  claimed mint f.harvests,
  let (h, found, same) = find-harvest_tokens mint f.harvests e in
      rw (found, replace_first-claimed mint f.harvests t e, same),
  harvest_tokens-claimed j mint f.harvests t e,
)
