-- ===== src/Farming/Farmer/Accrual.antt =====
-- The free functions of `farmer.rs`: `eligible_harvest_until` and `sync_harvest_mints`.
pub mod Sync
use mathlib.Core.List.{reverse}
use solana_amm.Base.{
  ℕ, ◌-◌, not, ◌&&◌, none, some, List, [], ◌∷◌, map, min, max, ltb, leb, ◌==◌, if◌then◌else◌, keep,
  ok, ◌>>=◌, ok_or, unwrap, lift, try_map, try_fold, checked_add, checked_sub,
}
use solana_amm.BTree.{Pubkey, BTreeMap, get, insert, contains_key}
use solana_amm.Decimal.{DecimalOps}
use solana_amm.Farming.Err.{Res, math_overflow}
use solana_amm.Farming.Farm.{TokenAmount, Slot, Snapshot, Harvest}
use solana_amm.Farming.Farm.History.{TpsRange, tps_history}

-- `BTreeMap::retain` with the test on keys that the source makes.
unfoldable pub retain_known : BTreeMap Harvest → BTreeMap TokenAmount → BTreeMap TokenAmount
retain_known farm_harvests [] = []
retain_known farm_harvests ((mint, tokens) ∷ m) =
    if contains_key mint farm_harvests
    then (mint, tokens) ∷ retain_known farm_harvests m
    else retain_known farm_harvests m

-- The loop over `farm_harvests.keys()`.
unfoldable pub insert_missing : BTreeMap Harvest → BTreeMap TokenAmount → BTreeMap TokenAmount
insert_missing [] m = m
insert_missing ((mint, _) ∷ farm_harvests) m =
    insert_missing farm_harvests (if contains_key mint m then m else insert mint 0 m)

unfoldable pub sync_harvest_mints : BTreeMap Harvest → BTreeMap TokenAmount → BTreeMap TokenAmount
sync_harvest_mints farm_harvests farmer_harvests =
    insert_missing farm_harvests (retain_known farm_harvests farmer_harvests)

-- The ranges of one mint that are left, the last in time first: `Vec::last` is the head, and
-- `Vec::pop` drops it.
abbrev pub Ranges : Type 0
Ranges = List TpsRange

-- The two maps that the loops change, `harvest_tps_histories` and `farmer_harvests`.
pub record Accrual : Type 0 where
  pub histories : BTreeMap Ranges
  pub harvests : BTreeMap TokenAmount

-- `.map(|(mint, harvest)| (mint, harvest.tps_history(until)))`; the keys are those of a map.
unfoldable pub history_of : Slot → Pubkey × Harvest → Res (Pubkey × Ranges)
history_of until (mint, harvest) = do
  history ← tps_history harvest until
  ok (mint, reverse history)

module _ (dec : DecimalOps) where
  open dec use {from_u64, zero_dec, try_add, try_mul, try_div, try_floor}

  -- What the range adds for its slots between `starts_at` and `until`.
  unfoldable pub add_range : ℕ → Slot → Slot → TpsRange → ℕ → Res ℕ
  add_range share starts_at until range eligible =
      if range.tps == 0
      then ok eligible
      else (ok_or (checked_sub (min range.end until) (max range.start starts_at)) math_overflow
          >>= λ distance. unwrap (checked_add distance 1) >>= λ slots.
              lift (try_mul (from_u64 slots) share) >>= λ shared.
              lift (try_mul shared (from_u64 range.tps)) >>= λ tokens.
              lift (try_add eligible tokens))

  -- The `while let` loop over the ranges that meet the snapshot from `starts_at` to `ends_at`.
  unfoldable pub walk_ranges : ℕ → Slot → Slot → Ranges → Slot → ℕ → Res (Ranges × ℕ)
  walk_ranges share starts_at ends_at [] until eligible = ok ([], eligible)
  walk_ranges share starts_at ends_at (range ∷ older) until eligible =
      let skipped = walk_ranges share starts_at ends_at older until eligible in
      if ltb range.end starts_at
      then ok (range ∷ older, eligible)
      else if ltb ends_at range.start
      then skipped
      else (add_range share starts_at until range eligible >>= λ eligible'.
          let popped = walk_ranges share starts_at ends_at older (range.start - 1) eligible' in
          if leb starts_at range.start && not (range.start == 0)
          then popped
          else ok (range ∷ older, eligible'))

  -- One round of the loop over the harvests.
  unfoldable pub accrue_mint : ℕ → Slot → Slot → Accrual → Pubkey → Res Accrual
  accrue_mint share starts_at ends_at state mint = do
    history ← unwrap (get mint state.histories)
    (history', eligible) ← walk_ranges share starts_at ends_at history ends_at zero_dec
    tokens ← lift (try_floor eligible)
    let before : ℕ = elim (get mint state.harvests) [ none ↦ 0 | some n ↦ n ]
    amount ← ok_or (checked_add before tokens) math_overflow
    ok (record {
      histories = insert mint history' state.histories;
      harvests = insert mint amount state.harvests;
    })

  -- One round of the loop over the snapshots, on `oldest_slot_to_skip` and the maps.
  unfoldable pub accrue_snapshot :
      List Pubkey → Slot → TokenAmount → Slot × Accrual → Snapshot → Res (Slot × Accrual)
  accrue_snapshot mints since farmer_staked (oldest_slot_to_skip, state) snapshot =
      if snapshot.staked == 0
      then ok (snapshot.started_at, state)
      else (unwrap (checked_sub oldest_slot_to_skip 1) >>= λ ends_at.
          lift (try_div (from_u64 farmer_staked) (from_u64 snapshot.staked)) >>= λ share.
          try_fold (accrue_mint share (max snapshot.started_at since) ends_at) state mints
          >>= λ state'. ok (snapshot.started_at, state'))

  -- `farm_harvests.values().filter(|h| h.mint != Pubkey::default())`, by their mints.
  unfoldable pub farm_mints : BTreeMap Harvest → List Pubkey
  farm_mints farm_harvests = keep (λ mint. not (mint == 0)) (map (λ e. e.1.mint) farm_harvests)

  unfoldable pub eligible_harvest_until :
      BTreeMap Harvest
      → List Snapshot
      → BTreeMap TokenAmount
      → Slot × Slot
      → TokenAmount
      → Res (BTreeMap TokenAmount)
  eligible_harvest_until farm_harvests snapshots farmer_harvests (since, until) farmer_staked =
      if farmer_staked == 0
      then ok farmer_harvests
      else (unwrap (checked_add until 1) >>= λ oldest_slot_to_skip.
          try_map (history_of until) farm_harvests >>= λ histories.
          try_fold (accrue_snapshot (farm_mints farm_harvests) since farmer_staked)
            (oldest_slot_to_skip, record { histories = histories; harvests = farmer_harvests })
            (keep (λ s. ltb 0 s.started_at) snapshots)
          >>= λ (_, state). ok state.harvests)
