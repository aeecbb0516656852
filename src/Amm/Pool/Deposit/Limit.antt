-- ===== src/Amm/Pool/Deposit/Limit.antt =====
-- The limits that a depositor sets.
use native.Mathlib.Nat.{mul-le-mul_left}
use solana_amm.Base.{
  ℕ, ◌+◌, ◌*◌, ◌≤◌, ◌<◌, ◌≡◌, inl, inr, sym, ap, subst, ◌∙◌, List, [], ◌∷◌, arith, ok, some, none,
  Option, some-injective, Bool, false, any, All, ltb, ◌==◌, if◌then◌else◌, Bool-cases, >>=-eq-ok,
  ok_or, ok_or-eq-ok, lift, lift-eq-ok, ok-injective, try_map,
}
use solana_amm.BTree.{Pubkey, BTreeMap, get, values}
use solana_amm.Decimal.{wad, DecimalOps, DecimalLaws}
use solana_amm.Amm.Err.{invariant_violation}
use solana_amm.Amm.Models.{TokenAmount}
use solana_amm.Amm.Pool.{Pool, DepositResult, reserves_hashmap}
use solana_amm.Amm.Pool.Deposit.Least.{minimum-All}
use solana_amm.Amm.Pool.Deposit.{
  minimum, ratio, get_deposit_ratio, token_to_deposit, get_eligible_lp_tokens, first_amounts,
  later_amounts, check_max_tokens, add_all, deposit_tokens,
}

module _ (dec : DecimalOps) (laws : DecimalLaws dec) where
  open dec use {from_u64, try_mul, try_div_u64, try_ceil}

  -- Every maximum has a ratio that the least one does not exceed.
  ratio-All :
      (m : BTreeMap TokenAmount) (x : ℕ) (k : Pubkey) (l : TokenAmount)
      (maxima : BTreeMap TokenAmount) {ys : List ℕ}
      → try_map (ratio dec m) maxima ≡ ok ys
      → All (λ y. x ≤ y) ys
      → get k maxima ≡ some l
      → (y : ℕ) × (ratio dec m (k, l) ≡ ok y) × (x ≤ y)
  ratio-All m x k l [] h a e = absurd cc
  ratio-All m x k l ((j, u) ∷ maxima) h a e =
      let (y, first, h1) = >>=-eq-ok (ratio dec m (j, u)) _ h in
      let (ys, rest, h2) = >>=-eq-ok (try_map (ratio dec m) maxima) _ h1 in
      let a' = subst (All (λ y. x ≤ y)) (sym (ok-injective h2)) a in
      elim (Bool-cases (j == k)) [
        | inl hit ↦
            let key : j ≡ k = ground (arith, hit) in
            let value : u ≡ l = some-injective (rw hit at e) in
            (
              y,
              sym (ap (λ i. ratio dec m (i, l)) key)
                  ∙ sym (ap (λ v. ratio dec m (j, v)) value)
                  ∙ first,
              a'.0,
            )
        | inr miss ↦ ratio-All m x k l maxima rest a'.1 (rw miss at e)
      ]

  ratio-bound :
      (m : BTreeMap TokenAmount) (k : Pubkey) (l b y : ℕ)
      → ratio dec m (k, l) ≡ ok y
      → get k m ≡ some b
      → y * b ≤ l * wad
  unfolding ratio
  ratio-bound m k l b y h e =
      let (b', there, h1) = >>=-eq-ok (ok_or (get k m) invariant_violation) _ h in
      let same : b' ≡ b = some-injective (sym (ok_or-eq-ok _ invariant_violation there) ∙ e) in
      omega (
        arith,
        laws.div_u64-le (from_u64 l) b y (rw same at (lift-eq-ok (try_div_u64 (from_u64 l) b') h1)),
        laws.from_u64-eq l,
      )

  token_to_deposit-bound :
      (r : ℕ) (k : Pubkey) (b : TokenAmount) {e : Pubkey × TokenAmount}
      → token_to_deposit dec r false (k, b) ≡ ok e
      → (e.0 ≡ k) × (e.1 * wad < b * r + wad)
  unfolding token_to_deposit
  token_to_deposit-bound r k b {e} h =
      let (exact, multiplied, h1) = >>=-eq-ok (lift (try_mul (from_u64 b) r)) _ h in
      let (t, ceiled, h2) = >>=-eq-ok (lift (try_ceil exact)) _ h1 in
      let product : try_mul (from_u64 b) r ≡ some exact = lift-eq-ok _ multiplied in
      let same = ok-injective h2 in
      (
        sym (ap (λ x. x.0) same),
        subst (λ x. x.1 * wad < b * r + wad) same
            (omega (
              arith,
              laws.ceil-lt exact t (lift-eq-ok _ ceiled),
              laws.mul-le (b * wad) r exact (rw (laws.from_u64-eq b) at product),
            )),
      )

  deposits-bound :
      (r : ℕ) (k : Pubkey) (t : TokenAmount) (m : BTreeMap TokenAmount) {ds : BTreeMap TokenAmount}
      → try_map (token_to_deposit dec r false) m ≡ ok ds
      → get k ds ≡ some t
      → (b : TokenAmount) × (get k m ≡ some b) × (t * wad < b * r + wad)
  deposits-bound r k t [] h e = absurd (never (ap (get k) (ok-injective h) ∙ e))
    where
      never : ◌≡◌ {A = Option ℕ} none (some t) → ⊥
      never h = cc
  deposits-bound r k t ((j, b) ∷ m) h e =
      let (d, first, h1) = >>=-eq-ok (token_to_deposit dec r false (j, b)) _ h in
      let (ds, rest, h2) = >>=-eq-ok (try_map (token_to_deposit dec r false) m) _ h1 in
      let (key, bound) = token_to_deposit-bound r j b first in
      let e' : get k (d ∷ ds) ≡ some t = ap (get k) (ok-injective h2) ∙ e in
      elim (Bool-cases (j == k)) [
        | inl hit ↦
            let value : d.1 ≡ t = some-injective (rw (key, hit) at e') in
            (b, rw hit, subst (λ x. x * wad < b * r + wad) value bound)
        | inr miss ↦
            let (b', there, le) = deposits-bound r k t m rest (rw (key, miss) at e') in
            (b', rw miss there, le)
      ]

  -- The ratio where no reserve is large.
  get_deposit_ratio-small :
      (m maxima : BTreeMap TokenAmount) {found : ℕ × Bool}
      → any (λ t. ltb 10_000_000_000 t) (values m) ≡ false
      → get_deposit_ratio dec m maxima ≡ ok found
      → (found.1 ≡ false)
        × ((ys : List ℕ) × (try_map (ratio dec m) maxima ≡ ok ys) × (minimum ys ≡ some found.0))
  unfolding get_deposit_ratio
  get_deposit_ratio-small m maxima small h =
      let (ys, ratios, h1) = >>=-eq-ok (try_map (ratio dec m) maxima) _ (rw small at h) in
      let (r, least, h2) = >>=-eq-ok (ok_or (minimum ys) invariant_violation) _ h1 in
      let same = ok-injective h2 in
      (
        sym (ap (λ x. x.1) same),
        (ys, ratios, ok_or-eq-ok _ invariant_violation least ∙ ap (λ x. some x.0) same),
      )

  -- A deposit rounded up stays within the maximum.
  limit_bound : (t l b r y : ℕ) → t * wad < b * r + wad → y * b ≤ l * wad → r ≤ y → t ≤ l
  limit_bound t l b r y h h' h'' = omega (arith, h, h', mul-le-mul_left b h'')

  amounts-limit :
      (m maxima ds : BTreeMap TokenAmount) (r : ℕ) (ys : List ℕ) (k : Pubkey) (t l : TokenAmount)
      → try_map (ratio dec m) maxima ≡ ok ys
      → minimum ys ≡ some r
      → try_map (token_to_deposit dec r false) m ≡ ok ds
      → get k ds ≡ some t
      → get k maxima ≡ some l
      → t ≤ l
  amounts-limit m maxima ds r ys k t l ratios least made has allows =
      let (b, there, above) = deposits-bound r k t m made has in
      let (y, at_k, le) = ratio-All m r k l maxima ratios (minimum-All r ys least) allows in
      limit_bound t l b r y above (ratio-bound m k l b y at_k there) le

  later_amounts-limit :
      (p : Pool) (m maxima : BTreeMap TokenAmount) (supply : TokenAmount) (k : Pubkey)
      (t l : TokenAmount) {found : BTreeMap TokenAmount × Option TokenAmount}
      → reserves_hashmap p ≡ ok m
      → any (λ t. ltb 10_000_000_000 t) (values m) ≡ false
      → later_amounts dec p maxima supply ≡ ok found
      → get k found.0 ≡ some t
      → get k maxima ≡ some l
      → t ≤ l
  unfolding later_amounts
  later_amounts-limit p m maxima supply k t l collected small h has allows =
      let (m', collected', h1) = >>=-eq-ok (reserves_hashmap p) _ h in
      let (found, rated, h2) = >>=-eq-ok (get_deposit_ratio dec m' maxima) _ h1 in
      let (ds, made, h3) = >>=-eq-ok (try_map (token_to_deposit dec found.0 found.1) m') _ h2 in
      let (lp, minted, h4) = >>=-eq-ok (get_eligible_lp_tokens dec p ds supply) _ h3 in
      let same : m' ≡ m = ok-injective (sym collected' ∙ collected) in
      let (straight, (ys, ratios, least)) =
        get_deposit_ratio-small m' maxima
          (subst (λ x. any (λ t. ltb 10_000_000_000 t) (values x) ≡ false) (sym same) small)
          rated in
      amounts-limit m' maxima ds found.0 ys k t l ratios least
        (ap (λ b. try_map (token_to_deposit dec found.0 b) m') (sym straight) ∙ made)
        (ap (λ x. get k x.0) (ok-injective h4) ∙ has) allows

  first_amounts-same :
      (maxima : BTreeMap TokenAmount) {found : BTreeMap TokenAmount × Option TokenAmount}
      → first_amounts dec maxima ≡ ok found
      → found.0 ≡ maxima
  unfolding first_amounts
  first_amounts-same maxima h =
      let (lp, least, h1) = >>=-eq-ok (ok_or (minimum (values maxima)) invariant_violation) _ h in
      sym (ap (λ x. x.0) (ok-injective h1))

  amounts_of-limit :
      (p : Pool) (m maxima : BTreeMap TokenAmount) (supply : TokenAmount) (k : Pubkey)
      (t l : TokenAmount) {found : BTreeMap TokenAmount × Option TokenAmount}
      → reserves_hashmap p ≡ ok m
      → any (λ t. ltb 10_000_000_000 t) (values m) ≡ false
      → (if supply == 0 then first_amounts dec maxima else later_amounts dec p maxima supply)
        ≡ ok found
      → get k found.0 ≡ some t
      → get k maxima ≡ some l
      → t ≤ l
  amounts_of-limit p m maxima supply k t l collected small h has allows =
      elim (Bool-cases (supply == 0)) [
        | inl first ↦
            let same = first_amounts-same maxima (rw first at h) in
            let equal : t ≡ l = some-injective (sym has ∙ ap (get k) same ∙ allows) in omega arith
        | inr later ↦
            later_amounts-limit p m maxima supply k t l collected small (rw later at h) has allows
      ]

  -- Where no reserve of the pool is above 10^10, a deposit that succeeds takes of no token more
  -- than the maximum that the depositor set for it, although each amount is rounded up.
  pub deposit-limit :
      (p : Pool) (m maxima : BTreeMap TokenAmount) (supply : TokenAmount) (k : Pubkey)
      (t l : TokenAmount) {result : Pool × DepositResult}
      → reserves_hashmap p ≡ ok m
      → any (λ t. ltb 10_000_000_000 t) (values m) ≡ false
      → deposit_tokens dec p maxima supply ≡ ok result
      → get k result.1.tokens_to_deposit ≡ some t
      → get k maxima ≡ some l
      → t ≤ l
  unfolding deposit_tokens
  deposit-limit p m maxima supply k t l collected small h has allows =
      let (u, checked, h1) = >>=-eq-ok (check_max_tokens dec p maxima) _ h in
      let (found, amounts, h2) =
        >>=-eq-ok
          (if supply == 0 then first_amounts dec maxima else later_amounts dec p maxima supply) _
          h1 in
      let (q, added, h3) = >>=-eq-ok (add_all p found.0) _ h2 in
      amounts_of-limit p m maxima supply k t l collected small amounts
        (ap (λ r. get k r.1.tokens_to_deposit) (ok-injective h3) ∙ has) allows
