-- ===== src/Farming/Farmer/Update/Deposits.antt =====
-- `Farmer::check_vested_period_and_update_harvest` and the farmer's deposits.
use solana_amm.Base.{
  ◌+◌, ◌≡◌, ◌≢◌, ◌⊎◌, inl, inr, sym, ap, ◌∙◌, Option, none, some, arith, ok, leb, ◌==◌, Bool-cases,
  >>=-eq-ok, ok-injective, checked_add, checked_sub, unwrap, ok_or,
}
use solana_amm.Decimal.{DecimalOps}
use solana_amm.Farming.Err.{Res, math_overflow}
use solana_amm.Farming.Farm.{Slot, Snapshot, Farm}
use solana_amm.Farming.Farm.Ring.{first_snapshot_after}
use solana_amm.Farming.Farmer.{Farmer, set_harvests}
use solana_amm.Farming.Farmer.Update.{
  farmer_harvest_until, update_eligible_harvest, stake_vested, stake_if_ripe, check_vested_period,
  check_vested_period_and_update_harvest,
}

-- There are vested tokens, and `first_snapshot_after` finds a snapshot for them.
abbrev pub Ripe : Farm → Farmer → Type 0
Ripe farm f =
    (f.vested ≢ 0) × ((s : Snapshot) × (first_snapshot_after farm f.vested_at ≡ ok (some s)))

abbrev pub Unripe : Farm → Farmer → Type 0
Unripe farm f = (f.vested ≡ 0) ⊎ (first_snapshot_after farm f.vested_at ≡ ok none)

-- The farmer keeps its owner and farm, and all vested tokens become staked ones where they are
-- ripe; else both deposits stay.
abbrev pub Keeps : Farm → Farmer → Farmer → Type 0
Keeps farm f g =
    (g.authority ≡ f.authority)
    × (g.farm ≡ f.farm)
    × (Unripe farm f × (g.staked ≡ f.staked) × (g.vested ≡ f.vested)
        ⊎ Ripe farm f × (g.staked ≡ f.staked + f.vested) × (g.vested ≡ 0))

module _ (dec : DecimalOps) (farm : Farm) where
  stays-Keeps :
      (f : Farmer) {g : Farmer}
      → Unripe farm f
      → ◌≡◌ {A = Res Farmer} (ok f) (ok g)
      → Keeps farm f g
  stays-Keeps f u h =
      let same = ok-injective h in
      (
        sym (ap (λ x. x.authority) same),
        sym (ap (λ x. x.farm) same),
        inl (u, sym (ap (λ x. x.staked) same), sym (ap (λ x. x.vested) same)),
      )

  stake_vested-Keeps :
      (s : Snapshot) (f : Farmer) {g : Farmer}
      → Ripe farm f
      → stake_vested dec farm s f ≡ ok g
      → Keeps farm f g
  unfolding stake_vested set_harvests
  stake_vested-Keeps s f {g} ripe h =
      let (until, u, h1) = >>=-eq-ok (unwrap (checked_sub s.started_at 1)) _ h in
      let (hs, v, h2) = >>=-eq-ok (farmer_harvest_until dec farm until f) _ h1 in
      let (staked, w, h3) = >>=-eq-ok (ok_or (checked_add f.staked f.vested) math_overflow) _ h2 in
      let sum : staked ≡ f.staked + f.vested = ground (arith, w) in
      let same = ok-injective h3 in
      (
        sym (ap (λ x. x.authority) same),
        sym (ap (λ x. x.farm) same),
        inr (ripe, sym (ap (λ x. x.staked) same) ∙ sum, sym (ap (λ x. x.vested) same)),
      )

  stake_if_ripe-Keeps :
      (o : Option Snapshot) (f : Farmer) {g : Farmer}
      → f.vested ≢ 0
      → first_snapshot_after farm f.vested_at ≡ ok o
      → stake_if_ripe dec farm o f ≡ ok g
      → Keeps farm f g
  unfolding stake_if_ripe
  stake_if_ripe-Keeps none f ne found h = stays-Keeps f (inr found) h
  stake_if_ripe-Keeps (some s) f ne found h = stake_vested-Keeps s f (ne, (s, found)) h

  check_vested_period-Keeps :
      (f : Farmer) {g : Farmer} → check_vested_period dec farm f ≡ ok g → Keeps farm f g
  unfolding check_vested_period
  check_vested_period-Keeps f h = elim (Bool-cases (f.vested == 0)) [
    | inl unvested ↦ stays-Keeps f (inl (ground (arith, unvested))) (rw unvested at h)
    | inr vested ↦
        let (s, found, h1) = >>=-eq-ok (first_snapshot_after farm f.vested_at) _ (rw vested at h) in
        stake_if_ripe-Keeps s f (ground (arith, vested)) found h1
  ]

  update_eligible_harvest-same :
      (slot : Slot) (f : Farmer) {g : Farmer}
      → update_eligible_harvest dec farm slot f ≡ ok g
      → (g.authority ≡ f.authority)
        × (g.farm ≡ f.farm)
        × (g.staked ≡ f.staked)
        × (g.vested ≡ f.vested)
  unfolding update_eligible_harvest set_harvests
  update_eligible_harvest-same slot f h =
      elim (Bool-cases (leb slot f.calculate_next_harvest_from)) [
        | inl done ↦
            let same = ok-injective (rw done at h) in
            (
              sym (ap (λ x. x.authority) same),
              sym (ap (λ x. x.farm) same),
              sym (ap (λ x. x.staked) same),
              sym (ap (λ x. x.vested) same),
            )
        | inr behind ↦
            let (hs, u, h1) = >>=-eq-ok (farmer_harvest_until dec farm slot f) _ (rw behind at h) in
            let (next, v, h2) = >>=-eq-ok (unwrap (checked_add slot 1)) _ h1 in
            let same = ok-injective h2 in
            (
              sym (ap (λ x. x.authority) same),
              sym (ap (λ x. x.farm) same),
              sym (ap (λ x. x.staked) same),
              sym (ap (λ x. x.vested) same),
            )
      ]

  -- A successful `check_vested_period_and_update_harvest` keeps the farmer's owner and farm. Where
  -- there are vested tokens and `first_snapshot_after` finds a snapshot for them, it moves all of
  -- them to the staked ones; else it leaves both deposits as they are.
  pub check_vested-Keeps :
      (slot : Slot) (f : Farmer) {g : Farmer}
      → check_vested_period_and_update_harvest dec farm slot f ≡ ok g
      → Keeps farm f g
  unfolding check_vested_period_and_update_harvest
  check_vested-Keeps slot f {g} h =
      let (c, checked, h1) = >>=-eq-ok (check_vested_period dec farm f) _ h in
      let (owner, home, moved) = check_vested_period-Keeps f checked in
      let (owner', home', staked', vested') = update_eligible_harvest-same slot c h1 in
      (
        owner' ∙ owner,
        home' ∙ home,
        elim moved [
          | inl (why, staked, vested) ↦ inl (why, staked' ∙ staked, vested' ∙ vested)
          | inr (why, staked, vested) ↦ inr (why, staked' ∙ staked, vested' ∙ vested)
        ],
      )
