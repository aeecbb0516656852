-- ===== src/Amm/Pool/Redeem/Share.antt =====
-- What `Pool::redeem_tokens` pays and leaves.
use native.Mathlib.Nat.{mul-le-mul_left, mul-le-mul_right}
use solana_amm.Base.{
  ℕ, ◌-◌, ◌*◌, ◌≤◌, ◌≡◌, ◌≢◌, inl, inr, sym, ap, subst, ◌∙◌, List, [], ◌∷◌, some, arith, All, ok,
  false, ltb, ◌==◌, Bool-cases, some-injective, try_map, >>=-eq-ok, lift-eq-ok, raise_if-eq-ok,
  ok-injective, lift, raise_if, length, not, any,
}
use solana_amm.BTree.{Pubkey, BTreeMap, get, contains_key, collect}
use solana_amm.BTree.Laws.{HasKeysOnce, get-collect_pairs, collect_onto-IsSorted}
use solana_amm.Decimal.{wad, DecimalOps, DecimalLaws}
use solana_amm.Amm.Err.{invalid_arg}
use solana_amm.Amm.Models.{TokenAmount}
use solana_amm.Amm.Pool.{Pool, Reserve, initialized}
use solana_amm.Amm.Pool.Reserves.{active, IsValid, Distinct, balance, initialized-eq}
use solana_amm.Amm.Pool.Redeem.Loop.{remove_all-AllPaid, is_any_below_min-false, some≢none}
use solana_amm.Amm.Pool.Redeem.{
  is_any_below_min, remove_all, token_to_redeem, check_min_tokens, redeem_tokens,
}

-- The share `t` of the balance `b` of one mint is paid.
abbrev pub PaysShare :
    Pool
    → Pool
    → BTreeMap TokenAmount
    → TokenAmount
    → TokenAmount
    → BTreeMap TokenAmount
    → Pubkey
    → TokenAmount
    → Type 0
PaysShare p q mins burn supply redeemed k b =
    (t : TokenAmount) × (get k redeemed ≡ some t)
    × (t * supply ≤ b * burn)
    × (t ≤ b)
    × (balance k (active q) ≡ some (b - t))
    × ((l : TokenAmount) × (get k mins ≡ some l) × (l ≤ t))

abbrev pub PaysShares :
    Pool → BTreeMap TokenAmount → TokenAmount → TokenAmount → Pool × BTreeMap TokenAmount → Type 0
PaysShares p mins burn supply (q, redeemed) =
    IsValid q
    × ((k : Pubkey) (b : TokenAmount)
        → balance k (active p) ≡ some b
        → PaysShare p q mins burn supply redeemed k b)

module _ (dec : DecimalOps) (laws : DecimalLaws dec) where
  open dec use {from_u64, try_mul, try_div, try_floor}

  share_bound :
      (tokens weight supply burn t : ℕ)
      → t * wad ≤ tokens * weight
      → weight * supply ≤ burn * wad
      → t * supply ≤ tokens * burn
  share_bound tokens weight supply burn t h h' =
      omega (arith, mul-le-mul_right supply h, mul-le-mul_left tokens h')

  weight_bound :
      (burn supply weight : ℕ)
      → try_div (from_u64 burn) (from_u64 supply) ≡ some weight
      → weight * supply ≤ burn * wad
  weight_bound burn supply weight h = omega (
    arith,
    laws.div-le (burn * wad) (supply * wad) weight
        (rw (laws.from_u64-eq burn, laws.from_u64-eq supply) at h),
  )

  -- A share is rounded down.
  token_to_redeem-bound :
      (weight : ℕ) (r : Reserve) {e : Pubkey × TokenAmount}
      → token_to_redeem dec weight r ≡ ok e
      → (e.0 ≡ r.mint) × (e.1 * wad ≤ r.tokens * weight)
  unfolding token_to_redeem
  token_to_redeem-bound weight r {e} h =
      let (exact, multiplied, h1) = >>=-eq-ok (lift (try_mul (from_u64 r.tokens) weight)) _ h in
      let (t, floored, h2) = >>=-eq-ok (lift (try_floor exact)) _ h1 in
      let product : try_mul (from_u64 r.tokens) weight ≡ some exact = lift-eq-ok _ multiplied in
      let same = ok-injective h2 in
      (
        sym (ap (λ x. x.0) same),
        subst (λ x. x.1 * wad ≤ r.tokens * weight) same
            (omega (
              arith,
              laws.floor-le exact t (lift-eq-ok _ floored),
              laws.mul-le (r.tokens * wad) weight exact (rw (laws.from_u64-eq r.tokens) at product),
            )),
      )

  -- The pairs made of the reserves have the reserves' mints.
  redeemed-absent :
      (weight : ℕ) (k : Pubkey) (rs : List Reserve) {es : BTreeMap TokenAmount}
      → try_map (token_to_redeem dec weight) rs ≡ ok es
      → All (λ s. s.mint ≢ k) rs
      → All (λ e. e.0 ≢ k) es
  redeemed-absent weight k [] h a = subst (All _) (ok-injective h) tt
  redeemed-absent weight k (r ∷ rs) h a =
      let (e, first, h1) = >>=-eq-ok (token_to_redeem dec weight r) _ h in
      let (es, rest, h2) = >>=-eq-ok (try_map (token_to_redeem dec weight) rs) _ h1 in
      subst (All _) (ok-injective h2) (
        subst (λ m. m ≢ k) (sym (token_to_redeem-bound weight r first).0) a.0,
        redeemed-absent weight k rs rest a.1,
      )

  redeemed-HasKeysOnce :
      (weight : ℕ) (rs : List Reserve) {es : BTreeMap TokenAmount}
      → try_map (token_to_redeem dec weight) rs ≡ ok es
      → Distinct rs
      → HasKeysOnce es
  redeemed-HasKeysOnce weight [] h d = subst HasKeysOnce (ok-injective h) tt
  redeemed-HasKeysOnce weight (r ∷ rs) h d =
      let (e, first, h1) = >>=-eq-ok (token_to_redeem dec weight r) _ h in
      let (es, rest, h2) = >>=-eq-ok (try_map (token_to_redeem dec weight) rs) _ h1 in
      subst HasKeysOnce (ok-injective h2) (
        subst (λ m. All (λ x. x.0 ≢ m) es) (sym (token_to_redeem-bound weight r first).0)
            (redeemed-absent weight r.mint rs rest d.0),
        redeemed-HasKeysOnce weight rs rest d.1,
      )

  -- Every balance has its share among the pairs.
  redeemed-share :
      (weight : ℕ) (k : Pubkey) (rs : List Reserve) (b : TokenAmount) {es : BTreeMap TokenAmount}
      → try_map (token_to_redeem dec weight) rs ≡ ok es
      → balance k rs ≡ some b
      → (t : ℕ) × (get k es ≡ some t) × (t * wad ≤ b * weight)
  redeemed-share weight k [] b h e = absurd (some≢none (sym e))
  redeemed-share weight k (r ∷ rs) b h e =
      let (x, first, h1) = >>=-eq-ok (token_to_redeem dec weight r) _ h in
      let (es, rest, h2) = >>=-eq-ok (try_map (token_to_redeem dec weight) rs) _ h1 in
      let (mint, bound) = token_to_redeem-bound weight r first in
      subst (λ m. (t : ℕ) × (get k m ≡ some t) × (t * wad ≤ b * weight)) (ok-injective h2)
        (elim (Bool-cases (r.mint == k)) [
          | inl hit ↦ (
            x.1,
            rw (mint, hit),
            subst (λ y. x.1 * wad ≤ y * weight) (some-injective (rw hit at e)) bound,
          )
          | inr miss ↦
              let (t, there, le) = redeemed-share weight k rs b rest (rw miss at e) in
              (t, rw (mint, miss) there, le)
        ])

  shares-paid :
      (p q : Pool) (mins : BTreeMap TokenAmount) (burn supply weight : TokenAmount)
      (es : BTreeMap TokenAmount)
      → IsValid p
      → weight * supply ≤ burn * wad
      → try_map (token_to_redeem dec weight) (active p) ≡ ok es
      → is_any_below_min mins (collect es) ≡ ok false
      → remove_all p (collect es) ≡ ok q
      → PaysShares p mins burn supply (q, collect es)
  shares-paid p q mins burn supply weight es v bound shares tested taken =
      let (valid, pays, others) =
        remove_all-AllPaid p q (collect es) v (collect_onto-IsSorted [] es tt) taken in
      (
        valid,
        λ k b had.
            let (t, share, le) = redeemed-share weight k (active p) b shares had in
            let there =
              get-collect_pairs k es (redeemed-HasKeysOnce weight (active p) shares v.distinct)
              ∙ share in
            let (b', had', left, covered) = pays k t there in
            let same = some-injective (sym had' ∙ had) in
            (
              t,
              there,
              share_bound b weight supply burn t le bound,
              subst (λ x. t ≤ x) same covered,
              left ∙ ap (λ x. some (x - t)) same,
              is_any_below_min-false mins (collect es) k t tested there,
            ),
      )

  check_min_tokens-active :
      (p : Pool) (mins : BTreeMap TokenAmount) (burn supply : TokenAmount) {rs : List Reserve}
      → IsValid p
      → check_min_tokens dec p mins burn supply ≡ ok rs
      → rs ≡ active p
  unfolding check_min_tokens
  check_min_tokens-active p mins burn supply v h =
      let (u1, c1, h1) = >>=-eq-ok (raise_if (supply == 0) invalid_arg) _ h in
      let (u2, c2, h2) = >>=-eq-ok (raise_if (ltb supply burn) invalid_arg) _ h1 in
      let (u3, c3, h3) = >>=-eq-ok (raise_if (not (length mins == p.dimension)) invalid_arg) _ h2 in
      let (rs, sliced, h4) = >>=-eq-ok (initialized p) _ h3 in
      let (u4, c4, h5) =
        >>=-eq-ok (raise_if (any (λ r. not (contains_key r.mint mins)) rs) invalid_arg) _ h4 in
      sym (ok-injective h5) ∙ ok-injective (sym sliced ∙ initialized-eq p v)

  -- A redemption that succeeds pays for every reserve of a valid pool its pro-rata share at most,
  -- that is `t` of balance `b` with `t * supply ≤ b * burn`, which the balance covers and which
  -- is not below the minimum asked for; the balance is lowered by exactly this share, and the
  -- pool stays valid.
  pub redeem-PaysShares :
      (p : Pool) (mins : BTreeMap TokenAmount) (burn supply : TokenAmount)
      {result : Pool × BTreeMap TokenAmount}
      → IsValid p
      → redeem_tokens dec p mins burn supply ≡ ok result
      → PaysShares p mins burn supply result
  unfolding redeem_tokens
  redeem-PaysShares p mins burn supply {result} v h =
      let (rs, checked, h1) = >>=-eq-ok (check_min_tokens dec p mins burn supply) _ h in
      let (weight, divided, h2) =
        >>=-eq-ok (lift (try_div (from_u64 burn) (from_u64 supply))) _ h1 in
      let (es, shares, h3) = >>=-eq-ok (try_map (token_to_redeem dec weight) rs) _ h2 in
      let (below, tested, h4) = >>=-eq-ok (is_any_below_min mins (collect es)) _ h3 in
      let (u, raised, h5) = >>=-eq-ok (raise_if below invalid_arg) _ h4 in
      let (q, taken, h6) = >>=-eq-ok (remove_all p (collect es)) _ h5 in
      subst (PaysShares p mins burn supply) (ok-injective h6) (
        shares-paid p q mins burn supply weight es v
          (weight_bound burn supply weight (lift-eq-ok _ divided))
          (sym (
              ap (try_map (token_to_redeem dec weight))
                (check_min_tokens-active p mins burn supply v checked))
            ∙ shares)
          (tested ∙ ap (λ b. ok b) (raise_if-eq-ok below invalid_arg raised)) taken)
