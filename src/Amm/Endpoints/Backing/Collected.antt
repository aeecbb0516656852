-- ===== src/Amm/Endpoints/Backing/Collected.antt =====
-- Step 1 of the handler of a swap: the fee, `Pool::swap`, and the fee's place in the reserves.
use solana_amm.Base.{
  ℕ, ◌+◌, ◌-◌, ◌≤◌, ◌≡◌, ◌≢◌, inl, inr, sym, ap, subst, ◌∙◌, some, any, arith, ok, ◌==◌, >>=-eq-ok,
  ok-injective, some-injective, unwrap-eq-ok, assert, unwrap, checked_sub,
}
use solana_amm.BTree.{Pubkey}
use solana_amm.Decimal.{DecimalOps}
use solana_amm.Runtime.{Runtime}
use solana_amm.Runtime.Vaults.{only}
use solana_amm.Amm.Models.{TokenAmount, Slot}
use solana_amm.Amm.Pool.{Pool, initialized, reserve_mut, add_tokens}
use solana_amm.Amm.Pool.Reserves.{
  active, IsValid, balance, change, add_tokens-change, active-with_active, with_active-IsValid,
}
use solana_amm.Amm.Pool.Swap
use solana_amm.Amm.Pool.Swap.Balances.{Moved, swap-Moved}
use solana_amm.Amm.Endpoints.Swap.{
  SwapAccounts, reserve_mut_unwrap, calculate_swap_fee, SwapTokens, swap_with_fee,
}
use solana_amm.Amm.Endpoints.Backing.{
  vault_of, Follows, Changed, vault_of-change, balance-change-Changed,
}
use solana_amm.Amm.Endpoints.Backing.Accounts.{Read, Checked}

-- What step 1 of the handler makes of the pool.
pub record Swapped (p q : Pool) (sell_mint buy_mint : Pubkey) (sell bought : TokenAmount)
    : Type 0 where
  pub fee : TokenAmount
  pub to_swap : TokenAmount
  pub whole : to_swap + fee ≡ sell
  pub shape : (k : Pubkey) → vault_of k (active q) ≡ vault_of k (active p)
  pub valid : IsValid q
  pub covered :
      (b : ℕ) × (balance buy_mint (change sell_mint (λ m. m + to_swap) (active p)) ≡ some b)
      × (bought ≤ b)
  pub changed :
      active q
      ≡ change sell_mint
          (λ m. m + fee)
          (change buy_mint (λ m. m - bought) (change sell_mint (λ m. m + to_swap) (active p)))

checked_sub-whole : (a b : ℕ) {c : ℕ} → checked_sub a b ≡ some c → c + b ≡ a
checked_sub-whole a b h = ground arith

collected-Swapped :
    (p p1 q : Pool) (sell_mint buy_mint : Pubkey) (sell bought fee to_swap : TokenAmount)
    → Moved p p1 sell_mint to_swap buy_mint bought
    → to_swap + fee ≡ sell
    → reserve_mut sell_mint (add_tokens fee) p1 ≡ ok q
    → Swapped p q sell_mint buy_mint sell bought
collected-Swapped p p1 q sell_mint buy_mint sell bought fee to_swap moved whole h =
    let (to_q, sold) = add_tokens-change sell_mint fee p1 moved.valid h in
    let plus : ℕ → ℕ = λ m. m + fee in
    let slice =
      ap active to_q
      ∙ active-with_active p1 sell_mint plus moved.valid
      ∙ ap (change sell_mint plus) moved.changed in
    record {
      fee = fee;
      to_swap = to_swap;
      whole = whole;
      shape = λ k.
          ap (vault_of k) slice
          ∙ vault_of-change k sell_mint plus _
          ∙ vault_of-change k buy_mint _ _
          ∙ vault_of-change k sell_mint _ (active p);
      valid = subst IsValid (sym to_q) (with_active-IsValid p1 sell_mint plus moved.valid);
      covered = moved.bought;
      changed = slice;
    }

module _ (dec : DecimalOps) where
  pub swap_with_fee-Swapped :
      (accs : SwapAccounts) (time : Slot) (p : Pool) (sell : TokenAmount)
      (sell_mint buy_mint : Pubkey) {q : Pool} {bought fee : TokenAmount}
      → IsValid p
      → swap_with_fee dec accs time sell sell_mint buy_mint p ≡ ok (q, bought, fee)
      → Swapped p q sell_mint buy_mint sell bought
  unfolding swap_with_fee reserve_mut_unwrap
  swap_with_fee-Swapped accs time p sell sell_mint buy_mint {q} {bought} {fee} v h =
      let (f, c1, h1) =
        >>=-eq-ok (calculate_swap_fee dec time sell p.swap_fee accs.discount_data) _ h in
      let (t, c2, h2) = >>=-eq-ok (unwrap (checked_sub sell f)) _ h1 in
      let ((p1, n), c3, h3) = >>=-eq-ok (Swap.swap dec p sell_mint t buy_mint) _ h2 in
      let (q1, c4, h4) = >>=-eq-ok (reserve_mut_unwrap sell_mint (add_tokens f) p1) _ h3 in
      let (rs, c5, h5) = >>=-eq-ok (initialized p1) _ c4 in
      let (u6, c6, h6) = >>=-eq-ok (assert (any (λ r. r.mint == sell_mint) rs)) _ h5 in
      let same : (q1, n, f) ≡ (q, bought, fee) = ok-injective h4 in
      subst (λ (t : Pool × ℕ × ℕ). Swapped p t.0 sell_mint buy_mint sell t.1) same
        (collected-Swapped p p1 q1 sell_mint buy_mint sell n f t
          ((swap-Moved dec p sell_mint t buy_mint v c3).1)
          (checked_sub-whole sell f (unwrap-eq-ok _ c2)) h6)

-- How the three changes add up for one mint, and what its vault gained and spent.
added_up :
    (k sell_mint buy_mint : Pubkey) (b0 b1 b2 b3 to_swap fee bought sell gained spent : ℕ)
    → sell_mint ≢ buy_mint
    → Changed k sell_mint (λ m. m + to_swap) b0 b1
    → Changed k buy_mint (λ m. m - bought) b1 b2
    → Changed k sell_mint (λ m. m + fee) b2 b3
    → to_swap + fee ≡ sell
    → (k ≡ buy_mint → bought ≤ b1)
    → (k ≡ sell_mint → sell ≤ gained)
    → (k ≢ buy_mint → spent ≡ 0)
    → spent ≤ bought
    → b3 + spent ≤ b0 + gained
added_up k sell_mint buy_mint b0 b1 b2 b3 to_swap fee bought sell gained spent ne c0 c1 c2 whole
      covered paid unspent bound =
    elim c1 [
      | inl (is_buy, e1) ↦
          let off : k ≢ sell_mint = λ e. ne (sym e ∙ is_buy) in
          let same = unchanged k sell_mint (λ m. m + to_swap) b0 b1 off c0 in
          let same' = unchanged k sell_mint (λ m. m + fee) b2 b3 off c2 in
          omega (arith, covered is_buy)
      | inr (off_buy, e1) ↦ elim c0 [
        | inl (is_sell, e0) ↦ elim c2 [
          | inl (_, e2) ↦ omega (arith, paid is_sell, unspent off_buy)
          | inr (off, e2) ↦ absurd (off is_sell)
        ]
        | inr (off_sell, e0) ↦
            let same' = unchanged k sell_mint (λ m. m + fee) b2 b3 off_sell c2 in
            omega (arith, unspent off_buy)
      ]
    ]
  where
    unchanged : (k j : Pubkey) (g : ℕ → ℕ) (b b' : ℕ) → k ≢ j → Changed k j g b b' → b' ≡ b
    unchanged k j g b b' off (inl (is, e)) = absurd (off is)
    unchanged k j g b b' off (inr (_, e)) = e

only_le : (j n k : ℕ) → only j n k ≤ n
only_le j n k = ground arith

only_off : (j n k : ℕ) → k ≢ j → only j n k ≡ 0
only_off j n k off = ground arith

module _ (rt : Runtime) where
  pub Swapped-Follows :
      (accs : SwapAccounts) (p q : Pool) (l : rt.Ledger) (t : SwapTokens)
      (sell bought : TokenAmount)
      → Read rt accs l t
      → Checked accs p t
      → Swapped p q t.sell_vault.mint t.buy_vault.mint sell bought
      → Follows rt p q (only accs.sell_vault sell) (only accs.buy_vault bought) l
  Swapped-Follows accs p q l t sell bought read checked swapped k b3 here =
      let (b2, e2, c2) =
        balance-change-Changed k _ _ _ (sym (ap (balance k) swapped.changed) ∙ here) in
      let (b1, e1, c1) = balance-change-Changed k _ _ _ e2 in
      let (b0, e0, c0) = balance-change-Changed k _ _ _ e1 in
      let (had, there, enough) = swapped.covered in
      (
        b0,
        e0,
        λ v x listed loaded minted.
            added_up k t.sell_vault.mint t.buy_vault.mint b0 b1 b2 b3 swapped.to_swap swapped.fee
              bought sell (only accs.sell_vault sell v) (only accs.buy_vault bought v)
              checked.different c0 c1 c2 swapped.whole
              (λ is.
                subst (λ z. bought ≤ z)
                  (some-injective (
                    sym there
                    ∙ ap
                        (λ j.
                          balance j
                            (change t.sell_vault.mint (λ m. m + swapped.to_swap) (active p)))
                        (sym is)
                    ∙ e1))
                  enough)
              (λ is. all_of accs.sell_vault sell v (
                some-injective
                  (sym listed ∙ ap (λ j. vault_of j (active p)) is ∙ checked.sell_listed)))
              (λ off. only_off accs.buy_vault bought v (λ same. off (
                sym minted
                ∙ ap (λ z. z.mint)
                    (some-injective (sym loaded ∙ ap (rt.account l) same ∙ read.buy_loaded)))))
              (only_le accs.buy_vault bought v),
      )
    where
      all_of : (j n k : ℕ) → k ≡ j → n ≤ only j n k
      all_of j n k same = ground arith
