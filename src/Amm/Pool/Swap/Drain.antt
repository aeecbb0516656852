-- ===== src/Amm/Pool/Swap/Drain.antt =====
-- `Pool::swap` on the constant-product curve: the balance that is bought.
use native.Mathlib.Nat.{mul-le-mul_right}
use native.Mathlib.Decide.{dec_lt}
use solana_amm.Base.{
  ℕ, ◌+◌, ◌-◌, ◌*◌, ◌≤◌, ◌<◌, ◌≡◌, ◌≢◌, sym, ap, subst, ◌∙◌, [], ◌∷◌, map, arith, ok, some,
  some-injective, false, not, any, leb, ◌==◌, ==_refl, ==_false, >>=-eq-ok, raise_if,
  raise_if-eq-ok, unwrap, unwrap-eq-ok, leb_false→lt, ok-injective,
}
use solana_amm.BTree.{Pubkey, BTreeMap, get, contains_key, values, collect}
use solana_amm.Decimal.{wad, DecimalOps, DecimalLaws}
use solana_amm.Amm.Err.{invalid_arg}
use solana_amm.Amm.Models.{TokenAmount}
use solana_amm.Amm.Pool.{Pool, const_prod, entry, reserves_hashmap}
use solana_amm.Amm.Pool.Reserves.{active, IsValid, balance}
use solana_amm.Amm.Pool.Weights.{weighted, weighted-ext, weighted-except, get-collect, except}
use solana_amm.Amm.Pool.Swap.Balances.{swap-Moved, swap-balances}
use solana_amm.Amm.Pool.Swap.{check_swap, calculate_swap, swap}
use solana_amm.Amm.Pool.Swap.Quote.{
  amount, product_of, swapped, calculate_swap-Quote, reserves_hashmap-eq,
}

any_zero-get :
    (k : Pubkey) (m : BTreeMap TokenAmount) (b : TokenAmount)
    → any (λ v. v == 0) (values m) ≡ false
    → get k m ≡ some b
    → 0 < b
any_zero-get k [] b h e = absurd cc
any_zero-get k ((j, v) ∷ m) b h e = ground (arith, any_zero-get k m b)

-- The checks ensure that no balance is zero and that less is sold than the pool holds.
abbrev Passed : BTreeMap TokenAmount → Pubkey → TokenAmount → Type 0
Passed m sell t =
    (any (λ v. v == 0) (values m) ≡ false) × ((s : ℕ) × (get sell m ≡ some s) × (t < s))

check_swap-Passed :
    (m : BTreeMap TokenAmount) (sell : Pubkey) (t : TokenAmount) (buy : Pubkey) {u : Unit {0}}
    → check_swap m sell t buy ≡ ok u
    → Passed m sell t
unfolding check_swap
check_swap-Passed m sell t buy h =
    let (u1, c1, h1) = >>=-eq-ok (raise_if (any (λ v. v == 0) (values m)) invalid_arg) _ h in
    let (u2, c2, h2) = >>=-eq-ok (raise_if (not (contains_key buy m)) invalid_arg) _ h1 in
    let (u3, c3, h3) = >>=-eq-ok (raise_if (not (contains_key sell m)) invalid_arg) _ h2 in
    let (s, there, h4) = >>=-eq-ok (unwrap (get sell m)) _ h3 in
    (
      raise_if-eq-ok _ invalid_arg c1,
      (s, unwrap-eq-ok _ there, leb_false→lt s t (raise_if-eq-ok (leb s t) invalid_arg h4)),
    )

calculate_swap-Passed :
    (dec : DecimalOps) (p : Pool) (sell : Pubkey) (t : TokenAmount) (buy : Pubkey) {n : TokenAmount}
    → IsValid p
    → calculate_swap dec p sell t buy ≡ ok n
    → Passed (collect (map entry (active p))) sell t
unfolding calculate_swap
calculate_swap-Passed dec p sell t buy v h =
    let (m, collected, h1) = >>=-eq-ok (reserves_hashmap p) _ h in
    let (u, checked, h2) = >>=-eq-ok (check_swap m sell t buy) _ h1 in
    subst (λ m. Passed m sell t) (ok-injective (sym collected ∙ reserves_hashmap-eq p v))
      (check_swap-Passed m sell t buy checked)

-- The weights of the swap at the mint that is sold.
swapped-sell :
    (sell : Pubkey) (t : TokenAmount) (buy : Pubkey) (s : TokenAmount)
    → sell ≢ buy
    → swapped sell t buy sell s ≡ s + t
swapped-sell sell t buy s ne = rw (==_refl sell, ==_false sell buy ne)

except-sell : (sell buy : Pubkey) (s : TokenAmount) → sell ≢ buy → except buy amount sell s ≡ s
except-sell sell buy s ne = rw (==_false sell buy ne)

-- Too little would be left: with nothing left, the product would more than halve.
left_positive :
    (b n c s t r k w : ℕ)
    → n * wad + c ≤ b * wad
    → k * wad < c * w + w
    → k ≡ b * (s * r)
    → w ≡ (s + t) * r
    → t < s
    → 0 < b
    → 0 < b - n
left_positive b n c s t r k w quoted least k_eq w_eq less pos = elim (dec_lt 0 (b - n)) [
  | yes some_left ↦ some_left
  | no none_left ↦
      let nothing : c ≡ 0 = omega arith in
      absurd (
        halved (s * r) (t * r) (b * (s * r)) k w (rw nothing at least) k_eq (omega (arith, w_eq))
          (mul-le-mul_right r (below s t less)) (omega (arith, mul-le-mul_right (s * r) pos)))
]
  where
    below : (s t : ℕ) → t < s → t ≤ s
    below s t h = omega arith

    halved : (x y z k w : ℕ) → k * wad < 0 * w + w → k ≡ z → w ≡ x + y → y ≤ x → x ≤ z → ⊥
    halved x y z k w h1 h2 h3 h4 h5 = omega arith

-- The product of the balances of the mints that are neither sold nor bought.
abbrev others : Pool → Pubkey → Pubkey → ℕ
others p sell buy = weighted (except sell (except buy amount)) (active p)

whole :
    (p : Pool) (sell buy : Pubkey) (s b : TokenAmount)
    → IsValid p
    → sell ≢ buy
    → balance sell (active p) ≡ some s
    → balance buy (active p) ≡ some b
    → product_of (active p) ≡ b * (s * others p sell buy)
whole p sell buy s b v ne has_sell has_buy =
    weighted-except amount buy (active p) b v.distinct has_buy
    ∙ ap (λ x. b * x)
        (weighted-except (except buy amount) sell (active p) s v.distinct has_sell
          ∙ ap (λ x. x * others p sell buy) (except-sell sell buy s ne))

swapped_whole :
    (p : Pool) (sell : Pubkey) (t : TokenAmount) (buy : Pubkey) (s : TokenAmount)
    → IsValid p
    → sell ≢ buy
    → balance sell (active p) ≡ some s
    → weighted (swapped sell t buy) (active p) ≡ (s + t) * others p sell buy
swapped_whole p sell t buy s v ne has_sell =
    weighted-except (swapped sell t buy) sell (active p) s v.distinct has_sell
    ∙ ap (λ x. x * weighted (except sell (swapped sell t buy)) (active p))
        (swapped-sell sell t buy s ne)
    ∙ ap (λ x. (s + t) * x) (weighted-ext _ _ (active p) (λ k v. ground arith))

module _ (dec : DecimalOps) (laws : DecimalLaws dec) where
  -- A successful swap on the constant-product curve, between two mints of a valid pool, leaves a
  -- positive balance of the token that is bought.
  pub swap-left :
      (p : Pool) (sell : Pubkey) (t : TokenAmount) (buy : Pubkey) {q : Pool} {n : TokenAmount}
      → IsValid p
      → p.curve ≡ const_prod
      → sell ≢ buy
      → swap dec p sell t buy ≡ ok (q, n)
      → (b : ℕ) × (balance buy (active q) ≡ some b) × (0 < b)
  swap-left p sell t buy {q} {n} v curve ne h =
      let (quoted, m) = swap-Moved dec p sell t buy v h in
      let u = calculate_swap-Quote dec laws p sell t buy v curve quoted in
      let (exactly, valid, sold, (b, has, left, le), rest) =
        swap-balances dec p sell t buy v ne h in
      let (full, (s, sells, less)) = calculate_swap-Passed dec p sell t buy v quoted in
      let has_sell = sym (get-collect sell (active p) v.distinct) ∙ sells in
      let same : u.bought ≡ b = some-injective (sym u.has_bought ∙ has) in
      (
        b - n,
        left,
        left_positive b n u.c s t (others p sell buy) (product_of (active p))
            (weighted (swapped sell t buy) (active p))
            (subst (λ x. n * wad + u.c ≤ x * wad) same u.quoted) u.at_least
            (whole p sell buy s b v ne has_sell has) (swapped_whole p sell t buy s v ne has_sell)
            less
            (any_zero-get buy (collect (map entry (active p))) b full
              (get-collect buy (active p) v.distinct ∙ has)),
      )
