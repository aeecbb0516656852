-- ===== src/Farming/Farmer/Update/Ripening.antt =====
-- `Farmer::check_vested_period_and_update_harvest` and the snapshots that a farm keeps.
use native.Mathlib.Decide.{dec_le}
use solana_amm.Base.{
  ◌+◌, ◌≤◌, ◌<◌, ◌≡◌, ◌≢◌, ◌⊎◌, inl, inr, sym, ◌∙◌, none, some, arith, ok, ok-injective, lt→ltb,
  le→ltb_false,
}
use solana_amm.Decimal.{DecimalOps}
use solana_amm.Farming.Farm.{Slot, Farm}
use solana_amm.Farming.Farm.Ring.Log.{newest}
use solana_amm.Farming.Farm.Ring.Order.{IsChronological}
use solana_amm.Farming.Farm.Ring.After.{
  oldest, find-log-none, find-log-some, first_snapshot_after_lem,
}
use solana_amm.Farming.Farmer.{Farmer}
use solana_amm.Farming.Farmer.Update.{check_vested_period_and_update_harvest}
use solana_amm.Farming.Farmer.Update.Deposits.{Ripe, Unripe, check_vested-Keeps}

-- There are vested tokens, and their slot is between the oldest snapshot kept and the newest one.
abbrev pub IsBetween : Farm → Farmer → Type 0
IsBetween farm f =
    (f.vested ≢ 0)
    × ((oldest farm).started_at ≤ f.vested_at)
    × (f.vested_at < (newest farm).started_at)

-- There are none, or their slot is before the oldest snapshot kept, or not before the newest one.
abbrev pub IsOutside : Farm → Farmer → Type 0
IsOutside farm f =
    (f.vested ≡ 0)
    ⊎ (f.vested_at < (oldest farm).started_at)
    ⊎ ((newest farm).started_at ≤ f.vested_at)

abbrev pub Ripens : Farm → Farmer → Farmer → Type 0
Ripens farm f g =
    (g.authority ≡ f.authority)
    × (g.farm ≡ f.farm)
    × (IsOutside farm f × (g.staked ≡ f.staked) × (g.vested ≡ f.vested)
        ⊎ IsBetween farm f × (g.staked ≡ f.staked + f.vested) × (g.vested ≡ 0))

none≢some : {A : Type 0} {a : A} → none ≡ some a → ⊥
none≢some h = cc

module _ (farm : Farm) (c : IsChronological farm) where
  Unripe-IsOutside : (f : Farmer) → Unripe farm f → IsOutside farm f
  Unripe-IsOutside f (inl nothing_vested) = inl nothing_vested
  Unripe-IsOutside f (inr found) = elim (dec_le (newest farm).started_at f.vested_at) [
    | yes past ↦ inr (inr past)
    | no later ↦ elim (dec_le (oldest farm).started_at f.vested_at) [
      | no beyond ↦ inr (inl (omega arith))
      | yes reached ↦
          let (s, there) = find-log-some farm f.vested_at c (omega arith) in
          let answer = first_snapshot_after_lem farm f.vested_at c in
          absurd (
            none≢some (
              ok-injective (
                sym found
                ∙ rw (le→ltb_false (oldest farm).started_at f.vested_at reached, there) at answer)))
    ]
  ]

  Ripe-IsBetween : (f : Farmer) → Ripe farm f → IsBetween farm f
  Ripe-IsBetween f (ne, (s, found)) = elim (dec_le (oldest farm).started_at f.vested_at) [
    | no beyond ↦
        let answer = first_snapshot_after_lem farm f.vested_at c in
        absurd (
          none≢some (
            ok-injective (
              sym (rw (lt→ltb f.vested_at (oldest farm).started_at (omega arith)) at answer)
              ∙ found)))
    | yes reached ↦ elim (dec_le (newest farm).started_at f.vested_at) [
      | no later ↦ (ne, reached, omega arith)
      | yes past ↦
          let answer = first_snapshot_after_lem farm f.vested_at c in
          absurd (
            none≢some (
              ok-injective (
                sym (
                  rw
                    (
                      le→ltb_false (oldest farm).started_at f.vested_at reached,
                      find-log-none farm f.vested_at c past,
                    )
                    at answer)
                ∙ found)))
    ]
  ]

  -- On a chronological ring buffer, a successful `check_vested_period_and_update_harvest` keeps the
  -- farmer's owner and farm. It moves all vested tokens to the staked ones where they were vested
  -- not before the oldest snapshot that is kept and before the newest one; it leaves both deposits
  -- as they are where there are none, where no snapshot started after they were vested, and also
  -- where every snapshot that is kept did.
  pub check_vested-Ripens :
      (dec : DecimalOps) (slot : Slot) (f : Farmer) {g : Farmer}
      → check_vested_period_and_update_harvest dec farm slot f ≡ ok g
      → Ripens farm f g
  check_vested-Ripens dec slot f h =
      let (owner, home, moved) = check_vested-Keeps dec farm slot f h in
      (
        owner,
        home,
        elim moved [
          | inl (why, staked, vested) ↦ inl (Unripe-IsOutside f why, staked, vested)
          | inr (why, staked, vested) ↦ inr (Ripe-IsBetween f why, staked, vested)
        ],
      )
