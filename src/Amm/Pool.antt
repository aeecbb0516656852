-- ===== src/Amm/Pool.antt =====
-- `programs/amm/src/models/pool.rs`: the pool's data and the methods on its reserves. A method on
-- `&mut self` returns the new pool beside its result; after an error the transaction is aborted,
-- and no pool is returned.
pub mod Reserves
pub mod Weights
pub mod Deposit
pub mod Redeem
pub mod Swap
pub mod UpdateCurve
use solana_amm.Base.{
  ℕ, zero, suc, ◌+◌, ◌-◌, Bool, true, false, Option, none, some, List, [], ◌∷◌, ◌++◌, map, leb,
  ◌==◌, if◌then◌else◌, length, take, drop, find, ok, err, raised, ◌>>=◌, ◌>>◌, raise_if, assert,
  ok_or, checked_add, checked_sub,
}
use solana_amm.BTree.{Pubkey, BTreeMap, collect, contains_key}
use solana_amm.Amm.Err.{Res, math_overflow, invariant_violation, invalid_token_mints}
use solana_amm.Amm.Models.{TokenAmount, Permillion}

pub record Reserve : Type 0 where
  pub tokens : TokenAmount
  pub mint : Pubkey
  pub vault : Pubkey

-- An `SDecimal` is the raw number of the decimal that it stores.
pub data Curve : Type 0 where
  const_prod : Curve
  stable : ℕ → ℕ → Curve

-- `reserves` has length 4 in the source; `Reserves.IsValid` asks that `dimension` fits into it.
pub record Pool : Type 0 where
  pub admin : Pubkey
  pub signer : Pubkey
  pub mint : Pubkey
  pub program_toll_wallet : Pubkey
  pub dimension : ℕ
  pub reserves : List Reserve
  pub curve : Curve
  pub swap_fee : Permillion

pub record DepositResult : Type 0 where
  pub lp_tokens_to_distribute : Option TokenAmount
  pub tokens_to_deposit : BTreeMap TokenAmount

unfoldable pub add_tokens : TokenAmount → Reserve → Res Reserve
add_tokens tokens r = do
  amount ← ok_or (checked_add r.tokens tokens) math_overflow
  ok (record r { tokens = amount })

unfoldable pub remove_tokens : TokenAmount → Reserve → Res Reserve
remove_tokens tokens r = do
  amount ← ok_or (checked_sub r.tokens tokens) math_overflow
  ok (record r { tokens = amount })

-- `Pool::reserves`: a slice past the end of the array panics.
unfoldable pub initialized : Pool → Res (List Reserve)
initialized self = do
  assert (leb self.dimension (length self.reserves))
  ok (take self.dimension self.reserves)

unfoldable pub reserve_vault : Pool → Pubkey → Res (Option Pubkey)
reserve_vault self mint = do
  reserves ← initialized self
  ok (elim (find (λ r. r.mint == mint) reserves) [ none ↦ none | some r ↦ some r.vault ])

-- The first reserve of the mint is replaced by what `f` makes of it.
unfoldable pub update_first : Pubkey → (Reserve → Res Reserve) → List Reserve → Res (List Reserve)
update_first mint f [] = err (raised invariant_violation)
update_first mint f (r ∷ rs) =
    if r.mint == mint
    then (f r >>= λ r'. ok (r' ∷ rs))
    else (update_first mint f rs >>= λ rs'. ok (r ∷ rs'))

-- `self.reserve_mut(mint).ok_or(InvariantViolation)?`, and the change made through it.
unfoldable pub reserve_mut : Pubkey → (Reserve → Res Reserve) → Pool → Res Pool
reserve_mut mint f self = do
  reserves ← initialized self
  reserves' ← update_first mint f reserves
  ok (record self { reserves = reserves' ++ drop self.dimension self.reserves })

unfoldable pub entry : Reserve → Pubkey × TokenAmount
entry r = (r.mint, r.tokens)

unfoldable pub reserves_hashmap : Pool → Res (BTreeMap TokenAmount)
reserves_hashmap self = do reserves ← initialized self; ok (collect (map entry reserves))

-- `.iter().filter(p).count()`
unfoldable pub count : (Reserve → Bool) → List Reserve → ℕ
count p [] = 0
count p (r ∷ rs) = if p r then suc (count p rs) else count p rs

unfoldable pub check_amount_tokens_is_valid : Pool → BTreeMap TokenAmount → Res (Unit {0})
check_amount_tokens_is_valid self amount_tokens = do
  reserves ← initialized self
  let num_available_mints = count (λ r. contains_key r.mint amount_tokens) reserves
  raise_if (if num_available_mints == length amount_tokens then false else true) invalid_token_mints
