-- ===== src/Amm/Endpoints/Admin.antt =====
-- `programs/amm/src/endpoints/set_pool_swap_fee.rs`, `put_discount.rs`, `create_program_toll.rs`
-- and `create_discount_settings.rs`, the last two as they are built without the feature `dev`.
use solana_amm.Base.{
  Bool, true, false, not, ◌&&◌, Option, none, some, ltb, leb, ◌==◌, ok, ◌>>=◌, ◌>>◌, raise_if,
  invoke,
}
use solana_amm.BTree.{Pubkey}
use solana_amm.Runtime.{
  Runtime, discount_seeds, discount_settings_seeds, program_toll_seeds, check_seeds,
}
use solana_amm.Amm.Err.{Res, invalid_arg, invalid_account_input}
use solana_amm.Amm.Models.{Slot, Permillion, Discount, max_swap_fee, from_percent}
use solana_amm.Amm.Pool.{Pool}

unfoldable pub set_pool_swap_fee : Pubkey → Permillion → Pool → Res Pool
set_pool_swap_fee admin fee pool = do
  raise_if (not (pool.admin == admin)) invalid_account_input
  raise_if (ltb max_swap_fee fee) invalid_arg
  ok (record pool { swap_fee = fee })

pub record PutDiscountAccounts : Type 0 where
  pub authority : Pubkey
  pub authority_is_writable : Bool
  pub discount : Pubkey
  pub discount_settings : Pubkey
  -- `discount_settings.authority`
  pub settings_authority : Pubkey

-- `amm` and `amm_metadata`, as the runtime's loader keeps them: the address of the program's data
-- and who may upgrade the program.
pub record ProgramAccounts : Type 0 where
  pub program_authority : Pubkey
  pub programdata_address : Option Pubkey
  pub amm_metadata : Pubkey
  pub upgrade_authority_address : Option Pubkey

unfoldable pub is_key : Option Pubkey → Pubkey → Bool
is_key none k = false
is_key (some j) k = j == k

unfoldable pub check_program_authority : ProgramAccounts → Res (Unit {0})
check_program_authority accs = do
  raise_if (not (is_key accs.programdata_address accs.amm_metadata)) invalid_account_input
  raise_if (not (is_key accs.upgrade_authority_address accs.program_authority))
      invalid_account_input

module _ (rt : Runtime) where
  -- `discount` is `none` where the account is still owned by the system program. The data are
  -- overwritten whole; what is returned is the discount that is stored.
  unfoldable pub put_discount :
      PutDiscountAccounts → Slot → Pubkey → Permillion → Slot → Option Discount → Res Discount
  put_discount accs time user discount_amount valid_until discount = do
    raise_if (not (accs.authority == accs.settings_authority)) invalid_account_input
    check_seeds rt (discount_seeds user) accs.discount
    check_seeds rt discount_settings_seeds accs.discount_settings
    raise_if (leb valid_until time) invalid_arg
    maximum ← from_percent 100
    raise_if (ltb maximum discount_amount) invalid_arg
    raise_if (should_be_created discount && not accs.authority_is_writable) invalid_account_input
    ok (record { amount = discount_amount; valid_until = valid_until })
    where
      should_be_created : Option Discount → Bool
      should_be_created none = true
      should_be_created (some d) = false

  -- The authority that the new account stores. `existing` is what the account holds already: the
  -- constraint `init` fails on an account that exists.
  unfoldable pub create_authority : ProgramAccounts → Option Pubkey → Pubkey → Res Pubkey
  create_authority accs existing authority = do
    check_program_authority accs
    invoke (fresh existing)
    ok authority
    where
      fresh : Option Pubkey → Option (Unit {0})
      fresh none = some tt
      fresh (some k) = none

  unfoldable pub create_program_toll :
      ProgramAccounts → Pubkey → Option Pubkey → Pubkey → Res Pubkey
  create_program_toll accs program_toll existing authority = do
    check_seeds rt program_toll_seeds program_toll
    create_authority accs existing authority

  unfoldable pub create_discount_settings :
      ProgramAccounts → Pubkey → Option Pubkey → Pubkey → Res Pubkey
  create_discount_settings accs discount_settings existing authority = do
    check_seeds rt discount_settings_seeds discount_settings
    create_authority accs existing authority
