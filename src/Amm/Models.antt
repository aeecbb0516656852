-- ===== src/Amm/Models.antt =====
-- `programs/amm/src/models.rs`, `models/discount.rs` and `consts.rs`. The structs `TokenAmount`,
-- `Slot` and `Permillion` of one `u64` field are that number.
use solana_amm.Base.{ℕ, Bool, ◌&&◌, ltb, leb, unwrap, checked_mul}
use solana_amm.Amm.Err.{Res}

abbrev pub TokenAmount : Type 0
TokenAmount = ℕ

abbrev pub Slot : Type 0
Slot = ℕ

abbrev pub Permillion : Type 0
Permillion = ℕ

unfoldable pub from_percent : ℕ → Res Permillion
from_percent percent = unwrap (checked_mul percent 10_000)

abbrev pub max_swap_fee : Permillion
max_swap_fee = 10_000

abbrev pub program_toll_swap_fee_share : Permillion
program_toll_swap_fee_share = 333_333

pub record Discount : Type 0 where
  pub amount : Permillion
  pub valid_until : Slot

-- `Discount::does_apply` at the slot that the clock shows.
unfoldable pub does_apply : Slot → Discount → Bool
does_apply time discount = ltb 0 discount.amount && leb time discount.valid_until
