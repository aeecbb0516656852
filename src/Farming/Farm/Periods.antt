-- ===== src/Farming/Farm/Periods.antt =====
-- The harvest mints of a farm and their periods: `Farm::add_harvest`, `Farm::new_harvest_period`.
pub mod Order
pub mod Mints
pub mod Renewal
use solana_amm.Base.{
  ℕ, Bool, not, ◌&&◌, Option, none, some, List, [], ◌∷◌, ltb, leb, ◌==◌, if◌then◌else◌, set, any,
  find, replicate, but_last, replace_first, ok, ◌>>=◌, ◌>>◌, raise_if, ok_or, unwrap,
}
use solana_amm.BTree.{Pubkey}
use solana_amm.Farming.Err.{
  Res, harvest_periods_len, invalid_account_input, invariant_violation,
  unknown_harvest_mint_pub_key, configuration_update_limit_exceeded,
  cannot_overwrite_open_harvest_period, harvest_period_cannot_have_negative_length,
}
use solana_amm.Farming.Farm.{TokenAmount, Slot, HarvestPeriod, Harvest, Farm, default_period, index}
use solana_amm.Farming.Farm.Ring.{oldest_snapshot}

unfoldable pub add_harvest : Pubkey → Pubkey → Farm → Res Farm
add_harvest harvest_mint harvest_vault self = do
  raise_if (any (λ h. h.mint == harvest_mint) self.harvests) invalid_account_input
  let fresh : Harvest = record {
    mint = harvest_mint;
    vault = harvest_vault;
    periods = replicate harvest_periods_len default_period;
  }
  harvests ←
      ok_or (replace_first (λ h. h.mint == 0) (λ _. fresh) self.harvests) invalid_account_input
  ok (record self { harvests = harvests })

-- `periods.last()`
unfoldable pub last_period : List HarvestPeriod → Option HarvestPeriod
last_period [] = none
last_period (p ∷ ps) = elim (last_period ps) [ none ↦ some p | some q ↦ some q ]

-- The part of the method that changes the periods of one mint. `rotate_right(1)` with a write to
-- index 0 puts a period before all but the last. `is_limited` says whether the
-- program is built with the feature `prod` or for a test, and `oldest_slot` is the start of the
-- oldest snapshot.
unfoldable pub new_period :
    Bool
    → Slot
    → Slot
    → HarvestPeriod
    → List HarvestPeriod
    → Res (List HarvestPeriod × Option HarvestPeriod)
new_period is_limited oldest_slot current_slot period periods = do
  raise_if (leb period.ends_at period.starts_at) harvest_period_cannot_have_negative_length
  latest_started_period ←
      ok_or (find (λ p. leb p.starts_at current_slot) periods) invariant_violation
  raise_if (leb period.starts_at latest_started_period.ends_at) cannot_overwrite_open_harvest_period
  latest_period ← index periods 0
  if ltb current_slot latest_period.starts_at
      then ok (set periods 0 period, some latest_period)
      else (unwrap (last_period periods) >>= λ oldest_period.
          raise_if
            (is_limited
              && not (oldest_period.ends_at == 0)
              && leb oldest_slot oldest_period.ends_at)
            configuration_update_limit_exceeded
          >>= λ _. ok (period ∷ but_last periods, none))

unfoldable pub new_harvest_period :
    Bool → Slot → Pubkey → Slot × Slot → TokenAmount → Farm → Res (Farm × Option HarvestPeriod)
new_harvest_period is_limited current_slot harvest_mint (starts_at, ends_at) tps self = do
  oldest ← oldest_snapshot self
  harvest ← ok_or (find (λ h. h.mint == harvest_mint) self.harvests) unknown_harvest_mint_pub_key
  let period : HarvestPeriod = record { tps = tps; starts_at = starts_at; ends_at = ends_at }
  (periods, previous) ← new_period is_limited oldest.started_at current_slot period harvest.periods
  harvests ←
      ok_or
        (replace_first (λ h. h.mint == harvest_mint) (λ h. record h { periods = periods })
          self.harvests)
        unknown_harvest_mint_pub_key
  ok (record self { harvests = harvests }, previous)
