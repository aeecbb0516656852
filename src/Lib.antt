-- ===== src/Lib.antt =====
-- Two Solana programs, `programs/amm` and `programs/farming`, as pure functions, with theorems on
-- what they compute.
--
-- A method on `&mut self` is a function that takes the struct and returns the new one beside its
-- result, inside `Res` where it can fail: `err (raised e)` is the program's error code `e`,
-- `err decimal` an error of the decimal arithmetic, and `err panicked` a panic. The crates are
-- built with overflow checks, so plain arithmetic on `u64` panics where it overflows, and so do an
-- index out of bounds and `unwrap`. An instruction that fails is rolled back by the runtime, which
-- is why no struct is returned beside an error. `debug_assert!` is left out. Amounts, slots and keys
-- are numbers; a `Pubkey` is the number of its bytes, 0 for `Pubkey::default()`.
--
-- The files, from the root of the repository:
-- - Base (Tests, Lists, Outcome): Boolean tests, list functions and results that all parts share.
-- - BTree, BTree/Laws: the standard library's `BTreeMap` as an ordered association list.
-- - Decimal, Decimal/Concrete: the crate `decimal`, which is not in the repository. `DecimalOps` is
--   the parameter of all code that calculates with it, `DecimalLaws` says which roundings the
--   theorems rely on, and `floored` is an arithmetic that meets them.
-- - Runtime: what the programs use of Anchor and the SPL Token program, neither of which is in the
--   repository. `Runtime` is the parameter of all endpoints, Runtime/Laws says what its instructions
--   do to accounts and mints, Runtime/Concrete and Runtime/Lawful are a token program that does so.
--   Runtime/Vaults and its children are about accounts that a derived address owns.
-- - Amm/Err, Amm/Models: `programs/amm/src/err.rs`, `models.rs`, `models/discount.rs`, `consts.rs`.
-- - Amm/Math: `programs/amm/src/math`. Helpers is `helpers.rs`, SwapEquation is `swap_equation.rs`,
--   StableCurve is `stable_curve_invariant.rs`. Exact, Scaling, MulDiv and Newton are about
--   `fold_product`, `scale_down_value`, `try_mul_div` and the Newton iteration.
-- - Amm/Pool: `programs/amm/src/models/pool.rs`, with a child for each of `deposit_tokens`
--   (Deposit), `redeem_tokens` (Redeem), `swap` (Swap) and `update_curve_invariant` (UpdateCurve).
--   Reserves and Weights are about the reserves and products over them. Deposit/Limit and
--   Deposit/Least are about the depositor's limits, Deposit/Minted about the LP tokens minted,
--   Redeem/Loop and Redeem/Share about what is paid out, Swap/Balances, Swap/Quote,
--   Swap/ConstProd and Swap/Drain about the balances after a swap.
-- - Amm/Endpoints: the instruction handlers of `programs/amm/src/endpoints`. Swap is `swap.rs`,
--   Liquidity is `deposit_liquidity.rs` and `redeem_liquidity.rs`, CreatePool is `create_pool.rs`,
--   Admin is `set_pool_swap_fee.rs`, `put_discount.rs`, `create_program_toll.rs` and
--   `create_discount_settings.rs`. Swap/Fee is about the fee, Backing and its children about the
--   pool's vaults, Backing/Steps the instructions on a pool in any order.
-- - Farming/Err, Farming/Farm: `programs/farming/src/err.rs`, `consts.rs`, and the data of
--   `models/farm.rs`. Farm/Ring is the ring buffer of snapshots, Farm/Periods the harvest periods,
--   Farm/History `Harvest::tps_history`.
-- - Farming/Farmer: `programs/farming/src/models/farmer.rs`. Accrual has the loops that calculate
--   harvest, Update the methods that call them. Balance, Update/Deposits and Update/Ripening are
--   about the deposits, Accrual/Sync about `sync_harvest_mints`.
-- - Farming/Endpoints: the handlers of `programs/farming/src/endpoints`. Staking is
--   `start_farming.rs`, `stop_farming.rs`, `update_eligible_harvest.rs`, `create_farmer.rs` and
--   `close_farmer.rs`; Claim is `claim_eligible_harvest.rs` and `airdrop.rs`; Compound is
--   `compound_same_farm.rs`, `compound_across_farms.rs` and the two files on the whitelist; Harvests
--   is `add_harvest.rs`, `remove_harvest.rs` and `new_harvest_period.rs`; Admin is the rest.
--   StakeVault is about the stake vault, with Claims, Across and Harvests on single instructions,
--   Relation and Steps on instructions in any order; Emission is about the tokens of a new period.
-- - Amm/Tests, Amm/EndpointTests, Amm/LiquidityTests,
--   Farming/Tests and Farming/EndpointTests: the theorems at concrete inputs, and runs.
--
-- How the parts interact: `Pool::swap`, `deposit_tokens` and `redeem_tokens` calculate amounts from
-- the map of the reserves and then change the reserves one by one through `reserve_mut`; on the
-- stable curve `update_curve_invariant` runs Newton's method afterwards. On the farming side
-- `take_snapshot` writes the ring buffer, `new_harvest_period` writes the periods, and
-- `check_vested_period_and_update_harvest` reads both to move a farmer's tokens from vested to
-- staked and to add what they earned.
--
-- Loops are recursion on lists, with two exceptions. `scale_down_loop` has fuel 20, enough for
-- 192 bits since each round divides by 1000 and 1000 ^ 20 is above 2 ^ 192. `newton_loop` counts the 32
-- rounds of the source. The cyclic iterators over the ring buffer are read in two rounds, which is
-- all that `skip` and `take` leave.
--
-- A handler takes the keys of its accounts, its arguments, the structs stored in them and the token
-- ledger, and returns the structs and the ledger it leaves. The constraints of `#[account(…)]` are
-- its first lines; the slot that `Slot::current` reads is an argument. It works on the struct
-- first and invokes the token program afterwards, and a failure anywhere leaves neither changed.
--
-- Not modelled: the dispatch of instructions, the payer, rent and space of new accounts, the check
-- that an account is writable or signed for, which is the runtime's, the variants built with the
-- feature `dev`, logs, tests and scripts.
pub mod Base
pub mod BTree
pub mod Decimal
pub mod Runtime
pub mod Amm
pub mod Farming
