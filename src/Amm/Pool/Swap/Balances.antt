-- ===== src/Amm/Pool/Swap/Balances.antt =====
-- `Pool::swap` on either curve: which balances change, and by how much.
use solana_amm.Base.{
  ℕ, ◌+◌, ◌-◌, ◌≤◌, ◌<◌, ◌≡◌, ◌≢◌, sym, ap, subst, ◌∙◌, some, ok, u64_end, >>=-eq-ok, ok-injective,
}
use solana_amm.BTree.{Pubkey}
use solana_amm.Decimal.{DecimalOps}
use solana_amm.Amm.Models.{TokenAmount}
use solana_amm.Amm.Pool.{Pool, reserve_mut, add_tokens, remove_tokens}
use solana_amm.Amm.Pool.Reserves.{
  active, with_active, with_active_twice, length-change, length-active, IsValid, balance, change,
  active-with_active, with_active-IsValid, add_tokens-change, remove_tokens-change,
  balance-change_ne, balance-change_self,
}
use solana_amm.Amm.Pool.Swap.{calculate_swap, swap}

abbrev plus : TokenAmount → ℕ → ℕ
plus t m = m + t

abbrev minus : TokenAmount → ℕ → ℕ
minus n m = m - n

-- The two changes of a swap.
pub record Moved (p q : Pool) (sell : Pubkey) (t : TokenAmount) (buy : Pubkey) (n : TokenAmount)
    : Type 0 where
  pub whole : q ≡ with_active p (change buy (λ m. m - n) (change sell (λ m. m + t) (active p)))
  pub changed : active q ≡ change buy (λ m. m - n) (change sell (λ m. m + t) (active p))
  pub valid : IsValid q
  pub sold : (s : ℕ) × (balance sell (active p) ≡ some s) × (s + t < u64_end)
  pub bought : (b : ℕ) × (balance buy (change sell (λ m. m + t) (active p)) ≡ some b) × (n ≤ b)

moved :
    (p p1 q : Pool) (sell : Pubkey) (t : TokenAmount) (buy : Pubkey) (n : TokenAmount)
    → IsValid p
    → reserve_mut sell (add_tokens t) p ≡ ok p1
    → reserve_mut buy (remove_tokens n) p1 ≡ ok q
    → Moved p q sell t buy n
moved p p1 q sell t buy n v h h' =
    let (to_p1, sold) = add_tokens-change sell t p v h in
    let slice = ap active to_p1 ∙ active-with_active p sell (λ m. m + t) v in
    let v1 : IsValid p1 = subst IsValid (sym to_p1) (with_active-IsValid p sell (λ m. m + t) v) in
    let (to_q, (b, there, le)) = remove_tokens-change buy n p1 v1 h' in
    record {
      whole =
          to_q
          ∙ ap (λ z. with_active z (change buy (minus n) (active z))) to_p1
          ∙ with_active_twice p (change sell (plus t) (active p)) _
              (length-change sell (plus t) (active p) ∙ length-active p v)
          ∙ ap (λ rs. with_active p (change buy (minus n) rs))
              (active-with_active p sell (plus t) v);
      changed =
          ap active to_q
          ∙ active-with_active p1 buy (λ m. m - n) v1
          ∙ ap (change buy (λ m. m - n)) slice;
      valid = subst IsValid (sym to_q) (with_active-IsValid p1 buy (λ m. m - n) v1);
      sold = sold;
      bought = (b, sym (ap (balance buy) slice) ∙ there, le);
    }

-- A swap that succeeds quoted the amount and made the two changes.
pub swap-Moved :
    (dec : DecimalOps) (p : Pool) (sell : Pubkey) (t : TokenAmount) (buy : Pubkey) {q : Pool}
    {n : TokenAmount}
    → IsValid p
    → swap dec p sell t buy ≡ ok (q, n)
    → (calculate_swap dec p sell t buy ≡ ok n) × Moved p q sell t buy n
unfolding swap
swap-Moved dec p sell t buy {q} {n} v h =
    let (n', quoted, h1) = >>=-eq-ok (calculate_swap dec p sell t buy) _ h in
    let (p1, sold, h2) = >>=-eq-ok (reserve_mut sell (add_tokens t) p) _ h1 in
    let (p2, bought, h3) = >>=-eq-ok (reserve_mut buy (remove_tokens n') p1) _ h2 in
    let same : (p2, n') ≡ (q, n) = ok-injective h3 in
    subst (λ r. (calculate_swap dec p sell t buy ≡ ok r.1) × Moved p r.0 sell t buy r.1) same
      (quoted, moved p p1 p2 sell t buy n' v sold bought)

-- After a swap of two different mints, the sold balance is greater by the amount sold and still a
-- `u64`, the bought one is smaller by the amount returned, which it covers, every other balance
-- is what it was, and the pool is still valid. Apart from these two changes of its reserves, the
-- pool is the one before.
pub swap-balances :
    (dec : DecimalOps) (p : Pool) (sell : Pubkey) (t : TokenAmount) (buy : Pubkey) {q : Pool}
    {n : TokenAmount}
    → IsValid p
    → sell ≢ buy
    → swap dec p sell t buy ≡ ok (q, n)
    → (q ≡ with_active p (change buy (λ m. m - n) (change sell (λ m. m + t) (active p))))
      × IsValid q
      × ((s : ℕ) × (balance sell (active p) ≡ some s)
          × (balance sell (active q) ≡ some (s + t))
          × (s + t < u64_end))
      × ((b : ℕ) × (balance buy (active p) ≡ some b)
          × (balance buy (active q) ≡ some (b - n))
          × (n ≤ b))
      × ((k : Pubkey) → sell ≢ k → buy ≢ k → balance k (active q) ≡ balance k (active p))
swap-balances dec p sell t buy {q} {n} v ne h =
    let m = (swap-Moved dec p sell t buy v h).1 in
    let (s, had, fits) = m.sold in
    let (b, has, le) = m.bought in
    let rs = change sell (plus t) (active p) in
    (
      m.whole,
      m.valid,
      (
        s,
        had,
        ap (balance sell) m.changed
            ∙ balance-change_ne sell buy (minus n) rs (λ e. ne (sym e))
            ∙ balance-change_self sell (plus t) (active p) s had,
        fits,
      ),
      (
        b,
        sym (balance-change_ne buy sell (plus t) (active p) ne) ∙ has,
        ap (balance buy) m.changed ∙ balance-change_self buy (minus n) rs b has,
        le,
      ),
      λ k off_sell off_buy.
          ap (balance k) m.changed
          ∙ balance-change_ne k buy (minus n) rs off_buy
          ∙ balance-change_ne k sell (plus t) (active p) off_sell,
    )
