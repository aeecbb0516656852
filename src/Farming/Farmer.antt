-- ===== src/Farming/Farmer.antt =====
-- `programs/farming/src/models/farmer.rs`: the farmer's data and the methods that do not look at
-- the farm. A method on `&mut self` returns the new farmer beside its result.
pub mod Accrual
pub mod Update
pub mod Balance
use solana_amm.Base.{
  ℕ, ◌-◌, Option, none, some, List, ◌++◌, map, ltb, leb, ◌==◌, if◌then◌else◌, take, find, replicate,
  replace_first, ok, ◌>>=◌, ok_or, unwrap, checked_add, checked_sub,
}
use solana_amm.BTree.{Pubkey, BTreeMap}
use solana_amm.Farming.Err.{
  Res, max_harvest_mints, math_overflow, cannot_compound_if_stake_mint_is_not_harvest,
}
use solana_amm.Farming.Farm.{TokenAmount, Slot}

pub record AvailableHarvest : Type 0 where
  pub mint : Pubkey
  pub tokens : TokenAmount

pub record Farmer : Type 0 where
  pub authority : Pubkey
  pub farm : Pubkey
  pub staked : TokenAmount
  pub vested : TokenAmount
  pub vested_at : Slot
  pub calculate_next_harvest_from : Slot
  pub harvests : List AvailableHarvest

unfoldable pub add_to_vested : Slot → TokenAmount → Farmer → Res Farmer
add_to_vested current_slot tokens self = do
  vested ← ok_or (checked_add self.vested tokens) math_overflow
  ok (record self { vested_at = current_slot; vested = vested })

unfoldable pub total_deposited : Farmer → Res TokenAmount
total_deposited self = ok_or (checked_add self.staked self.vested) math_overflow

-- The branch of `unstake` in which more is asked for than is vested. The subtractions panic below
-- zero.
unfoldable pub unstake_staked : TokenAmount → Farmer → Res (Farmer × TokenAmount)
unstake_staked max self = do
  total ← total_deposited self
  if ltb max total
      then (unwrap (checked_sub max self.vested) >>= λ rest.
          unwrap (checked_sub self.staked rest) >>= λ staked.
          ok (record self { staked = staked; vested = 0 }, max))
      else ok (record self { staked = 0; vested = 0 }, total)

unfoldable pub unstake : TokenAmount → Farmer → Res (Farmer × TokenAmount)
unstake max self =
    if leb max self.vested
    then ok (record self { vested = self.vested - max }, max)
    else unstake_staked max self

unfoldable pub claim_harvest : Pubkey → Farmer → Res (Farmer × TokenAmount)
claim_harvest stake_mint self = do
  harvest ←
      ok_or (find (λ h. h.mint == stake_mint) self.harvests)
        cannot_compound_if_stake_mint_is_not_harvest
  harvests ←
      ok_or (replace_first (λ h. h.mint == stake_mint) (λ h. record h { tokens = 0 }) self.harvests)
        cannot_compound_if_stake_mint_is_not_harvest
  ok (record self { harvests = harvests }, harvest.tokens)

abbrev pub default_harvest : AvailableHarvest
default_harvest = record { mint = 0; tokens = 0 }

unfoldable pub available : Pubkey × TokenAmount → AvailableHarvest
available (mint, tokens) = record { mint = mint; tokens = tokens }

-- `repeat_with` pads without end, and `take` reads no more than its first ten items.
unfoldable pub set_harvests : List (Pubkey × TokenAmount) → Farmer → Farmer
set_harvests harvests self = record self {
  harvests =
      take max_harvest_mints
        (map available harvests ++ replicate max_harvest_mints default_harvest);
}
