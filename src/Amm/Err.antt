-- ===== src/Amm/Err.antt =====
-- The error codes of the AMM program, `programs/amm/src/err.rs`. The functions `acc` and `arg`
-- log a message and return `invalid_account_input` and `invalid_arg`.
use solana_amm.Base.{Result}

pub data AmmError : Type 0 where
  math_overflow invalid_account_input invalid_arg slippage_exceeded : AmmError
  invariant_violation invalid_token_mints invalid_lp_token_amount : AmmError

abbrev pub Res : Type 0 → Type 0
Res A = Result AmmError A
