-- ===== src/Farming/Farm/Periods/Renewal.antt =====
-- `new_harvest_period` on the harvests of a farm.
use solana_amm.Base.{
  ◌≡◌, inl, inr, ap, subst, List, [], ◌∷◌, Option, none, some, Bool, find, All, replace_first, ok,
  ◌==◌, Bool-cases, Option-cases, ok-injective, >>=-eq-ok, ok_or-eq-ok, ok_or, some-injective,
}
use solana_amm.BTree.{Pubkey}
use solana_amm.Farming.Err.{unknown_harvest_mint_pub_key}
use solana_amm.Farming.Farm.{Slot, TokenAmount, HarvestPeriod, Harvest, Farm}
use solana_amm.Farming.Farm.Ring.{oldest_snapshot}
use solana_amm.Farming.Farm.Periods.{new_harvest_period, new_period}
use solana_amm.Farming.Farm.Periods.Order.{IsOrdered, new_period-IsOrdered}

find-All {κ} :
    (P : Harvest → Type κ) (p : Harvest → Bool) (h : Harvest) (hs : List Harvest)
    → find p hs ≡ some h
    → All P hs
    → P h
find-All P p h [] found all = cc
find-All P p h (k ∷ hs) found all = elim (Bool-cases (p k)) [
  | inl hit ↦ subst P (some-injective (rw hit at found)) all.0
  | inr miss ↦ find-All P p h hs (rw miss at found) all.1
]

replace_first-All {κ} :
    (P : Harvest → Type κ) (p : Harvest → Bool) (change : Harvest → Harvest) (h : Harvest)
    (hs gs : List Harvest)
    → find p hs ≡ some h
    → replace_first p change hs ≡ some gs
    → P (change h)
    → All P hs
    → All P gs
replace_first-All P p change h [] gs found done changed all = cc
replace_first-All P p change h (k ∷ hs) gs found done changed all = elim (Bool-cases (p k)) [
  | inl hit ↦
      let same : k ≡ h = some-injective (rw hit at found) in
      rw (← some-injective (rw hit at done), same) (changed, all.1)
  | inr miss ↦ elim (Option-cases (replace_first p change hs)) [
    | inl none_left ↦ absurd (failed (rw (miss, none_left) at done))
    | inr (ks, rest) ↦
        rw (← some-injective (rw (miss, rest) at done))
          (all.0, replace_first-All P p change h hs ks (rw miss at found) rest changed all.1)
  ]
]
  where
    failed : ◌≡◌ {A = Option (List Harvest)} none (some gs) → ⊥
    failed h = cc

-- A farm whose harvests all have their periods in order at the slot.
abbrev pub Ordered : Slot → Farm → Type 0
Ordered slot f = All (λ h. IsOrdered slot h.periods) f.harvests

-- A successful `new_harvest_period` keeps the periods of every harvest of the farm in order.
pub new_harvest_period-Ordered :
    (lim : Bool) (current : Slot) (mint : Pubkey) (starts_at ends_at : Slot) (tps : TokenAmount)
    (f : Farm) {g : Farm} {previous : Option HarvestPeriod}
    → Ordered current f
    → new_harvest_period lim current mint (starts_at, ends_at) tps f ≡ ok (g, previous)
    → Ordered current g
unfolding new_harvest_period
new_harvest_period-Ordered lim current mint starts_at ends_at tps f {g} {previous} o e =
    let (oldest, _, e1) = >>=-eq-ok (oldest_snapshot f) _ e in
    let (h, found, e2) =
      >>=-eq-ok (ok_or (find (λ h. h.mint == mint) f.harvests) unknown_harvest_mint_pub_key) _ e1 in
    let period : HarvestPeriod = record { tps = tps; starts_at = starts_at; ends_at = ends_at } in
    let ((ps, prev), made, e3) =
      >>=-eq-ok (new_period lim oldest.started_at current period h.periods) _ e2 in
    let (gs, done, e4) =
      >>=-eq-ok (ok_or (replace_first _ _ f.harvests) unknown_harvest_mint_pub_key) _ e3 in
    let found' = ok_or-eq-ok (find (λ h. h.mint == mint) f.harvests) _ found in
    subst (Ordered current) (ap (λ r. r.0) (ok-injective e4)) (
      replace_first-All (λ h. IsOrdered current h.periods) (λ h. h.mint == mint) _ h f.harvests gs
        found' (ok_or-eq-ok (replace_first _ _ f.harvests) _ done)
        (new_period-IsOrdered lim oldest.started_at current period h.periods
          (find-All _ _ h f.harvests found' o) made)
        o)
