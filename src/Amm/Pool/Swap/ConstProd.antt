-- ===== src/Amm/Pool/Swap/ConstProd.antt =====
-- A swap on the constant-product curve: what the balances and their product become.
use native.Mathlib.Nat.{mul-le-mul_left}
use solana_amm.Base.{
  ℕ, ◌+◌, ◌-◌, ◌*◌, ◌≤◌, ◌<◌, ◌≡◌, ◌≢◌, sym, ap, subst, ◌∙◌, List, arith, ok, some-injective,
}
use solana_amm.BTree.{Pubkey}
use solana_amm.Decimal.{wad, DecimalOps, DecimalLaws}
use solana_amm.Amm.Models.{TokenAmount}
use solana_amm.Amm.Pool.{Pool, Reserve, const_prod}
use solana_amm.Amm.Pool.Reserves.{active, IsValid, Distinct, change, change-Distinct}
use solana_amm.Amm.Pool.Weights.{weighted, weighted-ext, weighted-change, weighted-except, except}
use solana_amm.Amm.Pool.Swap.Balances.{Moved, swap-Moved, swap-balances}
use solana_amm.Amm.Pool.Swap.{swap}
use solana_amm.Amm.Pool.Swap.Quote.{
  amount, product_of, product_without, swapped, calculate_swap-Quote,
}

module _ (dec : DecimalOps) (laws : DecimalLaws dec) where
  -- Taking tokens of one mint leaves the product of the other balances.
  without-change :
      (buy : Pubkey) (g : ℕ → ℕ) (rs : List Reserve)
      → Distinct rs
      → product_without buy (change buy g rs) ≡ product_without buy rs
  without-change buy g rs d =
      weighted-change (except buy amount) buy g rs d ∙ weighted-ext _ _ rs (λ k v. ground arith)

  -- The product of the balances that are not bought, after the swap and in the quote.
  without-swapped :
      (p q : Pool) (sell : Pubkey) (t : TokenAmount) (buy : Pubkey) (n : TokenAmount)
      → IsValid p
      → Moved p q sell t buy n
      → product_without buy (active q) ≡ weighted (swapped sell t buy) (active p)
  without-swapped p q sell t buy n v m =
      let rs = change sell (λ x. x + t) (active p) in
      ap (product_without buy) m.changed
      ∙ without-change buy (λ x. x - n) rs (change-Distinct sell (λ x. x + t) (active p) v.distinct)
      ∙ weighted-change (except buy amount) sell (λ x. x + t) (active p) v.distinct

  -- What is left of the product after a swap, from the quote.
  product_bound :
      (b n c k w : ℕ)
      → n * wad + c ≤ b * wad
      → k * wad < c * w + w
      → k * wad < (b - n) * w * wad + w
  product_bound b n c k w h h' = omega (arith, h', mul-le-mul_left w (left b n c h))
    where
      left : (b n c : ℕ) → n * wad + c ≤ b * wad → c ≤ (b - n) * wad
      left b n c h = omega arith

  -- A successful swap on the constant-product curve, between two mints of a valid pool, does not
  -- lower the product of all balances, up to the last decimal place of the quote: the product
  -- before exceeds the one after by less than the product of the balances that are not bought
  -- over 10^18.
  pub swap-product :
      (p : Pool) (sell : Pubkey) (t : TokenAmount) (buy : Pubkey) {q : Pool} {n : TokenAmount}
      → IsValid p
      → p.curve ≡ const_prod
      → sell ≢ buy
      → swap dec p sell t buy ≡ ok (q, n)
      → product_of (active p) * wad < product_of (active q) * wad + product_without buy (active q)
  swap-product p sell t buy {q} {n} v curve ne h =
      let (quoted, m) = swap-Moved dec p sell t buy v h in
      let u = calculate_swap-Quote dec laws p sell t buy v curve quoted in
      let (exactly, valid, sold, (b, has, left, le), rest) =
        swap-balances dec p sell t buy v ne h in
      let same = some-injective (sym u.has_bought ∙ has) in
      rw
        (
          weighted-except amount buy (active q) (b - n) m.valid.distinct left,
          without-swapped p q sell t buy n v m,
        )
        (product_bound b n u.c (product_of (active p)) (weighted (swapped sell t buy) (active p))
          (subst (λ x. n * wad + u.c ≤ x * wad) same u.quoted) u.at_least)
