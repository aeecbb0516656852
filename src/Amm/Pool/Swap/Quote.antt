-- ===== src/Amm/Pool/Swap/Quote.antt =====
-- What `Pool::calculate_swap` asks for on the constant-product curve.
use solana_amm.Base.{
  ℕ, ◌+◌, ◌*◌, ◌≤◌, ◌<◌, ◌≡◌, inl, inr, refl, sym, ap, subst, ◌∙◌, List, [], ◌∷◌, map, some, arith,
  ok, ◌==◌, false, Bool-cases, try_map, >>=-eq-ok, unwrap-eq-ok, lift-eq-ok, ok-injective, unwrap,
  lift,
}
use solana_amm.BTree.{Pubkey, BTreeMap, get, collect, values}
use solana_amm.Decimal.{wad, DecimalOps, DecimalLaws}
use solana_amm.Amm.Err.{AmmError}
use solana_amm.Amm.Models.{TokenAmount}
use solana_amm.Amm.Math.Helpers.{fold_product}
use solana_amm.Amm.Math.SwapEquation.{compute_delta_withdraw_token_amount}
use solana_amm.Amm.Math.Exact.{product, fold_product_lem}
use solana_amm.Amm.Pool.{Pool, Reserve, Curve, const_prod, entry, reserves_hashmap}
use solana_amm.Amm.Pool.Reserves.{active, IsValid, balance, initialized-eq}
use solana_amm.Amm.Pool.Weights.{
  Weight, weighted, weighted_map, weighted-collect, get-collect, except, with_change,
}
use solana_amm.Amm.Pool.Swap.{
  except_mint, balance_after_swap, check_swap, bought_balance_after_swap, calculate_swap,
}

-- Every balance counts as it is.
abbrev pub amount : Weight
amount k v = v

-- The product of the balances of a list of reserves.
abbrev pub product_of : List Reserve → ℕ
product_of rs = weighted amount rs

-- The product of the balances of the mints other than `k`.
abbrev pub product_without : Pubkey → List Reserve → ℕ
product_without k rs = weighted (except k amount) rs

product-values : (m : BTreeMap TokenAmount) → product (values m) ≡ weighted_map amount m
product-values [] = refl
product-values ((k, v) ∷ m) = ap (λ t. v * t) (product-values m)

abbrev pub swapped : Pubkey → TokenAmount → Pubkey → Weight
swapped sell t buy = with_change sell (λ n. n + t) (except buy amount)

balance_after_swap-swapped :
    (sell : Pubkey) (t : TokenAmount) (buy k : Pubkey) (v : TokenAmount) {b : ℕ}
    → (k == buy) ≡ false
    → balance_after_swap sell t (k, v) ≡ ok b
    → b ≡ swapped sell t buy k v
unfolding balance_after_swap
balance_after_swap-swapped sell t buy k v miss h = ground arith

-- The balances that the swap leaves in the other reserves have the product of those reserves.
product-balances :
    (sell : Pubkey) (t : TokenAmount) (buy : Pubkey) (m : BTreeMap TokenAmount) {bs : List ℕ}
    → try_map (balance_after_swap sell t) (except_mint buy m) ≡ ok bs
    → product bs ≡ weighted_map (swapped sell t buy) m
unfolding except_mint
product-balances sell t buy [] {bs} h = ap product (sym (ok-injective h))
product-balances sell t buy ((k, v) ∷ m) {bs} h = elim (Bool-cases (k == buy)) [
  | inl hit ↦
      product-balances sell t buy m (rw hit at h)
      ∙ one_times (swapped sell t buy k v) (ground (arith, hit))
  | inr miss ↦
      let (b, e, h1) = >>=-eq-ok (balance_after_swap sell t (k, v)) _ (rw miss at h) in
      let (bs', es, h2) =
        >>=-eq-ok (try_map (balance_after_swap sell t) (except_mint buy m)) _ h1 in
      sym (ap product (ok-injective h2))
      ∙ both b bs' (balance_after_swap-swapped sell t buy k v miss e)
          (product-balances sell t buy m es)
]
  where
    one_times : (x : ℕ) {y : ℕ} → x ≡ 1 → y ≡ x * y
    one_times x {y} h = rw h (omega arith)

    both : (b : ℕ) (bs : List ℕ) {x y : ℕ} → b ≡ x → product bs ≡ y → b * product bs ≡ x * y
    both b bs h h' = rw (h, h')

pub reserves_hashmap-eq :
    (p : Pool) → IsValid p → reserves_hashmap p ≡ ok (collect (map entry (active p)))
unfolding reserves_hashmap
reserves_hashmap-eq p v = rw (initialized-eq p v)

module _ (dec : DecimalOps) (laws : DecimalLaws dec) where
  open dec use {from_u64, try_div, try_floor}

  delta-floor :
      (c e : ℕ) (m : BTreeMap TokenAmount) (buy : Pubkey) {n : TokenAmount}
      → compute_delta_withdraw_token_amount dec c m buy ≡ ok e
      → lift {E = AmmError} (try_floor e) ≡ ok n
      → (b : ℕ) × (get buy m ≡ some b) × (n * wad + c ≤ b * wad)
  unfolding compute_delta_withdraw_token_amount
  delta-floor c e m buy {n} h f =
      let (b, there, h1) = >>=-eq-ok (unwrap (get buy m)) _ h in
      (
        b,
        unwrap-eq-ok (get buy m) there,
        omega (
          arith,
          laws.from_u64-eq b,
          laws.sub-eq (from_u64 b) c e (lift-eq-ok _ h1),
          laws.floor-le e n (lift-eq-ok _ f),
        ),
      )

  -- The quotient of `k` by the product of the other balances, without the scale of the decimals.
  divided-bounds :
      (k prod c : ℕ)
      → try_div (k * wad) (prod * wad) ≡ some c
      → (c * prod ≤ k * wad) × (k * wad < c * prod + prod)
  divided-bounds k prod c h = (
    omega (arith, laws.div-le (k * wad) (prod * wad) c h),
    omega (arith, laws.div-lt (k * wad) (prod * wad) c h),
  )

  const_prod-bought :
      (m : BTreeMap TokenAmount) (ds : List ℕ) (prod : ℕ) {c : ℕ}
      → bought_balance_after_swap dec const_prod m ds (prod * wad) ≡ ok c
      → (c * prod ≤ weighted_map amount m * wad) × (weighted_map amount m * wad < c * prod + prod)
  unfolding bought_balance_after_swap
  const_prod-bought m ds prod {c} h =
      let (k, folded, h1) = >>=-eq-ok (fold_product dec (map from_u64 (values m))) _ h in
      let exact =
        fold_product_lem dec laws (values m) folded ∙ ap (λ t. t * wad) (product-values m) in
      divided-bounds (weighted_map amount m) prod c (lift-eq-ok _ (rw exact at h1))

  -- What `calculate_swap` computes: `c` is the balance that the curve asks for.
  pub record Quote (p : Pool) (sell : Pubkey) (t : TokenAmount) (buy : Pubkey) (n : TokenAmount)
      : Type 0 where
    pub bought : ℕ
    pub c : ℕ
    pub has_bought : balance buy (active p) ≡ some bought
    pub quoted : n * wad + c ≤ bought * wad
    pub at_most : c * weighted (swapped sell t buy) (active p) ≤ product_of (active p) * wad
    pub at_least :
        product_of (active p) * wad
        < c * weighted (swapped sell t buy) (active p) + weighted (swapped sell t buy) (active p)

  const_prod-as :
      (curve : Curve) (m : BTreeMap TokenAmount) (ds : List ℕ) (prod : ℕ) {c : ℕ}
      → curve ≡ const_prod
      → bought_balance_after_swap dec curve m ds prod ≡ ok c
      → bought_balance_after_swap dec const_prod m ds prod ≡ ok c
  const_prod-as curve m ds prod e h = rw e at h

  quote :
      (p : Pool) (sell : Pubkey) (t : TokenAmount) (buy : Pubkey) (m : BTreeMap TokenAmount)
      (bs : List ℕ) (prod c e : ℕ) {n : TokenAmount}
      → IsValid p
      → m ≡ collect (map entry (active p))
      → try_map (balance_after_swap sell t) (except_mint buy m) ≡ ok bs
      → fold_product dec (map from_u64 bs) ≡ ok prod
      → bought_balance_after_swap dec const_prod m (map from_u64 bs) prod ≡ ok c
      → compute_delta_withdraw_token_amount dec c m buy ≡ ok e
      → lift {E = AmmError} (try_floor e) ≡ ok n
      → Quote p sell t buy n
  quote p sell t buy m bs prod c e v same after folded divided delta floored =
      let whole =
        fold_product_lem dec laws bs folded
        ∙ ap (λ x. x * wad) (product-balances sell t buy m after) in
      let (b, there, quoted) = delta-floor c e m buy delta floored in
      let bounds =
        const_prod-bought m (map from_u64 bs) (weighted_map (swapped sell t buy) m)
          (rw whole at divided) in
      let keeps : (w : Weight) → weighted_map w m ≡ weighted w (active p) =
        λ w. ap (weighted_map w) same ∙ weighted-collect w (active p) v.distinct in
      record {
        bought = b;
        c = c;
        has_bought = sym (get-collect buy (active p) v.distinct) ∙ sym (ap (get buy) same) ∙ there;
        quoted = quoted;
        at_most =
            subst (λ x. c * x ≤ product_of (active p) * wad) (keeps (swapped sell t buy))
              (rw (keeps amount) at bounds.0);
        at_least =
            subst (λ x. product_of (active p) * wad < c * x + x) (keeps (swapped sell t buy))
              (rw (keeps amount) at bounds.1);
      }

  pub calculate_swap-Quote :
      (p : Pool) (sell : Pubkey) (t : TokenAmount) (buy : Pubkey) {n : TokenAmount}
      → IsValid p
      → p.curve ≡ const_prod
      → calculate_swap dec p sell t buy ≡ ok n
      → Quote p sell t buy n
  unfolding calculate_swap
  calculate_swap-Quote p sell t buy v curve h =
      let (m, collected, h1) = >>=-eq-ok (reserves_hashmap p) _ h in
      let (u, checked, h2) = >>=-eq-ok (check_swap m sell t buy) _ h1 in
      let (bs, after, h3) =
        >>=-eq-ok (try_map (balance_after_swap sell t) (except_mint buy m)) _ h2 in
      let (prod, folded, h4) = >>=-eq-ok (fold_product dec (map from_u64 bs)) _ h3 in
      let (c, divided, h5) =
        >>=-eq-ok (bought_balance_after_swap dec p.curve m (map from_u64 bs) prod) _ h4 in
      let (e, delta, floored) = >>=-eq-ok (compute_delta_withdraw_token_amount dec c m buy) _ h5 in
      quote p sell t buy m bs prod c e v (ok-injective (sym collected ∙ reserves_hashmap-eq p v))
        after folded (const_prod-as p.curve m (map from_u64 bs) prod curve divided) delta floored
