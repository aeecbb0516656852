-- ===== src/Amm/Pool/Deposit/Minted.antt =====
-- The LP tokens that a deposit is given: `Pool::get_eligible_lp_tokens`.
use native.Mathlib.Nat.{mul-le-mul_right}
use solana_amm.Base.{
  ℕ, ◌*◌, ◌≤◌, ◌≡◌, sym, ap, subst, ◌∙◌, List, ◌∷◌, ok, some, none, Option, arith, ◌==◌,
  if◌then◌else◌, >>=-eq-ok, lift, lift-eq-ok, ok_or, ok_or-eq-ok, ok-injective, some-injective,
}
use solana_amm.BTree.{BTreeMap, get}
use solana_amm.Decimal.{wad, DecimalOps, DecimalLaws}
use solana_amm.Amm.Err.{invariant_violation}
use solana_amm.Amm.Models.{TokenAmount}
use solana_amm.Amm.Math.Helpers.{try_mul_div}
use solana_amm.Amm.Math.MulDiv.{try_mul_div-bound}
use solana_amm.Amm.Pool.{Pool, Reserve}
use solana_amm.Amm.Pool.Deposit.{first_reserve, get_eligible_lp_tokens}

module _ (dec : DecimalOps) (laws : DecimalLaws dec) where
  open dec use {from_u64, try_floor}

  share_bound :
      (supply deposit tokens share lp : ℕ)
      → try_mul_div dec (from_u64 supply) (from_u64 deposit) (from_u64 tokens) ≡ ok share
      → try_floor share ≡ some lp
      → lp * tokens ≤ supply * deposit
  share_bound supply deposit tokens share lp h f = omega (
    arith,
    try_mul_div-bound dec laws (supply * wad) (deposit * wad) (tokens * wad)
        (rw (laws.from_u64-eq supply, laws.from_u64-eq deposit, laws.from_u64-eq tokens) at h),
    mul-le-mul_right (tokens * wad) (laws.floor-le share lp f),
  )

  first_reserve-eq :
      (p : Pool) (r : Reserve) (rs : List Reserve)
      → p.reserves ≡ r ∷ rs
      → first_reserve dec p ≡ ok r
  unfolding first_reserve
  first_reserve-eq p r rs e = rw e

  minted :
      (lp : TokenAmount) {minted : TokenAmount}
      → ◌≡◌ {A = Option TokenAmount} (if lp == 0 then none else some lp) (some minted)
      → minted ≡ lp
  minted lp h = ground (arith, h)

  -- A deposit into a pool with reserves is given at most its share of the LP tokens, measured by
  -- the first reserve: LP tokens times the reserve are at most the supply times the deposit.
  pub get_eligible_lp_tokens-bound :
      (p : Pool) (r : Reserve) (rs : List Reserve) (deposits : BTreeMap TokenAmount)
      (supply deposit lp : TokenAmount)
      → p.reserves ≡ r ∷ rs
      → get r.mint deposits ≡ some deposit
      → get_eligible_lp_tokens dec p deposits supply ≡ ok (some lp)
      → lp * r.tokens ≤ supply * deposit
  unfolding get_eligible_lp_tokens
  get_eligible_lp_tokens-bound p r rs deposits supply deposit lp first has h =
      let (r', taken, h1) = >>=-eq-ok (first_reserve dec p) _ h in
      let (d, there, h2) = >>=-eq-ok (ok_or (get r'.mint deposits) invariant_violation) _ h1 in
      let (share, divided, h3) =
        >>=-eq-ok (try_mul_div dec (from_u64 supply) (from_u64 d) (from_u64 r'.tokens)) _ h2 in
      let (t, floored, h4) = >>=-eq-ok (lift (try_floor share)) _ h3 in
      let same : r' ≡ r = ok-injective (sym taken ∙ first_reserve-eq p r rs first) in
      let d_eq : d ≡ deposit = some-injective (
        sym (ok_or-eq-ok _ invariant_violation there) ∙ ap (λ x. get x.mint deposits) same ∙ has) in
      let lp_eq : lp ≡ t = minted t (ok-injective h4) in
      subst (λ x. x * r.tokens ≤ supply * deposit) (sym lp_eq)
        (subst (λ x. t * x.tokens ≤ supply * deposit) same
          (subst (λ x. t * r'.tokens ≤ supply * x) d_eq
            (share_bound supply d r'.tokens share t divided (lift-eq-ok _ floored))))
