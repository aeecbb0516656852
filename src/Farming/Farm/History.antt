-- ===== src/Farming/Farm/History.antt =====
-- `Harvest::tps_history`.
use mathlib.Core.List.{reverse}
use solana_amm.Base.{
  ◌-◌, ◌&&◌, List, [], ◌∷◌, ◌++◌, ltb, ◌==◌, if◌then◌else◌, ok, err, panicked, ◌>>=◌, unwrap,
  checked_add,
}
use solana_amm.Farming.Err.{Res}
use solana_amm.Farming.Farm.{TokenAmount, Slot, HarvestPeriod, Harvest, default_period, index}

-- `(RangeInclusive<Slot>, TokenAmount)`
pub record TpsRange : Type 0 where
  pub start : Slot
  pub end : Slot
  pub tps : TokenAmount

-- What one window `[curr, prev]` gives: the period, then the gap before it if there is one.
unfoldable pub window_ranges : HarvestPeriod → HarvestPeriod → Res (List TpsRange)
window_ranges curr prev =
    let period : TpsRange = record { start = curr.starts_at; end = curr.ends_at; tps = curr.tps } in
    if curr.starts_at == 0 && prev.starts_at == 0
    then ok []
    else if curr.starts_at == 0
    then ok (period ∷ [])
    else (unwrap (checked_add prev.ends_at 1) >>= λ gap_start.
        if gap_start == curr.starts_at
        then ok (period ∷ [])
        else ok (period ∷ record { start = gap_start; end = curr.starts_at - 1; tps = 0 } ∷ []))

-- The windows of length two, and the last period with the padding.
unfoldable pub history : List HarvestPeriod → Res (List TpsRange)
history [] = err panicked
history (p ∷ ps) = elim ps [
  | [] ↦ window_ranges p default_period
  | q ∷ _ ↦ window_ranges p q >>= λ ranges. history ps >>= λ older. ok (ranges ++ older)
]

-- The result has its first range, in time, first.
unfoldable pub tps_history : Harvest → Slot → Res (List TpsRange)
tps_history self current = do
  ranges ← history self.periods
  latest ← index self.periods 0
  if ltb latest.ends_at current
      then (unwrap (checked_add latest.ends_at 1) >>= λ start.
          ok (reverse (record { start = start; end = current; tps = 0 } ∷ ranges)))
      else ok (reverse ranges)
