-- ===== src/Farming/Err.antt =====
-- The error codes of the farming program, `programs/farming/src/err.rs`, and the constants of
-- `programs/farming/src/consts.rs`. The function `acc` logs a message and returns
-- `invalid_account_input`.
use solana_amm.Base.{ℕ, ◌*◌, Result}

pub data FarmingError : Type 0 where
  math_overflow invalid_account_input invariant_violation invalid_arg : FarmingError
  farm_admin_mismatch insufficient_slot_time_since_last_snapshot : FarmingError
  unknown_harvest_mint_pub_key configuration_update_limit_exceeded : FarmingError
  cannot_compound_if_stake_mint_is_not_harvest cannot_overwrite_open_harvest_period : FarmingError
  harvest_period_cannot_have_negative_length : FarmingError
  harvest_period_must_start_at_or_after_current_slot : FarmingError
  harvest_period_must_be_at_least_one_slot : FarmingError

abbrev pub Res : Type 0 → Type 0
Res A = Result FarmingError A

abbrev pub max_harvest_mints : ℕ
max_harvest_mints = 10

abbrev pub harvest_periods_len : ℕ
harvest_periods_len = 10

abbrev pub snapshots_len : ℕ
snapshots_len = 1000

abbrev pub min_snapshot_window_slots_default : ℕ
min_snapshot_window_slots_default = 2 * 3600
