-- ===== src/Amm/Endpoints/Backing/Added.antt =====
-- What `Pool::deposit_tokens` adds to the reserves.
use solana_amm.Base.{
  ℕ, ◌+◌, ◌<◌, ◌≡◌, ◌≢◌, ◌⊎◌, inl, inr, refl, sym, ap, subst, ◌∙◌, Option, some, none, Bool, [],
  ◌∷◌, map, arith, ok, ◌==◌, if◌then◌else◌, Bool-cases, >>=-eq-ok, ok-injective, ok_or, lift,
  try_map, true, false,
}
use solana_amm.BTree.{Pubkey, BTreeMap, get}
use solana_amm.BTree.Laws.{IsSorted, Above, get-Above, collect_onto-IsSorted}
use solana_amm.Decimal.{DecimalOps}
use solana_amm.Amm.Err.{invariant_violation}
use solana_amm.Amm.Models.{TokenAmount}
use solana_amm.Amm.Pool.{
  Pool, DepositResult, initialized, reserve_mut, add_tokens, reserves_hashmap, entry,
}
use solana_amm.Amm.Pool.Reserves.{
  active, IsValid, balance, add_tokens-change, active-with_active, with_active-IsValid,
}
use solana_amm.Amm.Pool.Deposit.{
  minimum, add_all, token_to_deposit, get_deposit_ratio, get_eligible_lp_tokens, first_amounts,
  later_amounts, check_max_tokens, deposit_tokens,
}
use solana_amm.Amm.Endpoints.Backing.{vault_of, vault_of-change, balance-change-Changed}
use solana_amm.Amm.Endpoints.Backing.Pairs.{amount_of}

-- Every balance grew by the amount of its mint, and every vault stayed.
pub record AllAdded (p q : Pool) (m : BTreeMap TokenAmount) : Type 0 where
  pub valid : IsValid q
  pub grown :
      (k : Pubkey) (b' : TokenAmount)
      → balance k (active q) ≡ some b'
      → (b : TokenAmount) × (balance k (active p) ≡ some b) × (b' ≡ b + amount_of (get k m))
  pub shape : (k : Pubkey) → vault_of k (active q) ≡ vault_of k (active p)

one_more :
    (k j u b0 b1 b' : ℕ) (m : BTreeMap TokenAmount)
    → get j m ≡ none
    → b' ≡ b1 + amount_of (get k m)
    → ((k ≡ j) × (b1 ≡ b0 + u)) ⊎ ((k ≢ j) × (b1 ≡ b0))
    → b' ≡ b0 + amount_of (get k ((j, u) ∷ m))
unfolding amount_of
one_more k j u b0 b1 b' m absent rest (inl (is, e)) =
    let gone : get k m ≡ none = ap (λ i. get i m) is ∙ absent in
    let hit : (j == k) ≡ true = ground (arith, is) in
    let zero_more : amount_of (get k m) ≡ 0 = ap amount_of gone in
    rw hit (omega (arith, rest, e, zero_more))
one_more k j u b0 b1 b' m absent rest (inr (off, e)) =
    let miss : (j == k) ≡ false = ground (arith, off) in rw miss (omega (arith, rest, e))

pub add_all-AllAdded :
    (p q : Pool) (m : BTreeMap TokenAmount)
    → IsValid p
    → IsSorted m
    → add_all p m ≡ ok q
    → AllAdded p q m
unfolding add_all amount_of
add_all-AllAdded p q [] v s h =
    subst (λ z. AllAdded p z []) (ok-injective h)
      (record { valid = v; grown = λ k b' e. (b', e, omega arith); shape = λ k. refl })
add_all-AllAdded p q ((j, u) ∷ m) v s h =
    let (p1, first, rest) = >>=-eq-ok (reserve_mut j (add_tokens u) p) _ h in
    let (to_p1, fits) = add_tokens-change j u p v first in
    let plus : ℕ → ℕ = λ n. n + u in
    let slice = ap active to_p1 ∙ active-with_active p j plus v in
    let v1 : IsValid p1 = subst IsValid (sym to_p1) (with_active-IsValid p j plus v) in
    let added = add_all-AllAdded p1 q m v1 s.1 rest in
    record {
      valid = added.valid;
      grown = λ k b' e.
          let (b1, e1, g1) = added.grown k b' e in
          let (b0, e0, how) =
            balance-change-Changed k j plus (active p) (sym (ap (balance k) slice) ∙ e1) in
          (b0, e0, one_more k j u b0 b1 b' m (get-Above j m s.0) g1 how);
      shape = λ k. added.shape k ∙ ap (vault_of k) slice ∙ vault_of-change k j plus (active p);
    }

module _ (dec : DecimalOps) where
  -- Amounts are given for the mints of the reserves, in their order.
  token_to_deposit-key :
      (ratio : ℕ) (inverted : Bool) (e : Pubkey × TokenAmount) {f : Pubkey × TokenAmount}
      → token_to_deposit dec ratio inverted e ≡ ok f
      → f.0 ≡ e.0
  unfolding token_to_deposit
  token_to_deposit-key ratio inverted (mint, reserve) h =
      let (x, c1, h1) =
        >>=-eq-ok
          (if inverted
            then lift (dec.try_div (dec.from_u64 reserve) ratio)
            else lift (dec.try_mul (dec.from_u64 reserve) ratio))
          _ h in
      let (n, c2, h2) = >>=-eq-ok (lift (dec.try_ceil x)) _ h1 in
      sym (ap (λ (f : Pubkey × TokenAmount). f.0) (ok-injective h2))

  amounts-Above :
      (ratio : ℕ) (inverted : Bool) (k : Pubkey) (m : BTreeMap TokenAmount)
      {es : BTreeMap TokenAmount}
      → try_map (token_to_deposit dec ratio inverted) m ≡ ok es
      → Above k m
      → Above k es
  amounts-Above ratio inverted k [] h a = subst (Above k) (ok-injective h) tt
  amounts-Above ratio inverted k (e ∷ m) h (lt, a) =
      let (f, c1, h1) = >>=-eq-ok (token_to_deposit dec ratio inverted e) _ h in
      let (fs, c2, h2) = >>=-eq-ok (try_map (token_to_deposit dec ratio inverted) m) _ h1 in
      let key = token_to_deposit-key ratio inverted e c1 in
      subst (Above k) (ok-injective h2)
        (subst (λ j. k < j) (sym key) lt, amounts-Above ratio inverted k m c2 a)

  amounts-IsSorted :
      (ratio : ℕ) (inverted : Bool) (m : BTreeMap TokenAmount) {es : BTreeMap TokenAmount}
      → try_map (token_to_deposit dec ratio inverted) m ≡ ok es
      → IsSorted m
      → IsSorted es
  amounts-IsSorted ratio inverted [] h s = subst IsSorted (ok-injective h) tt
  amounts-IsSorted ratio inverted (e ∷ m) h (above, s) =
      let (f, c1, h1) = >>=-eq-ok (token_to_deposit dec ratio inverted e) _ h in
      let (fs, c2, h2) = >>=-eq-ok (try_map (token_to_deposit dec ratio inverted) m) _ h1 in
      let key = token_to_deposit-key ratio inverted e c1 in
      subst IsSorted (ok-injective h2) (
        subst (λ j. Above j fs) (sym key) (amounts-Above ratio inverted e.0 m c2 above),
        amounts-IsSorted ratio inverted m c2 s,
      )

  later_amounts-IsSorted :
      (p : Pool) (maxima : BTreeMap TokenAmount) (supply : TokenAmount)
      {r : BTreeMap TokenAmount × Option TokenAmount}
      → later_amounts dec p maxima supply ≡ ok r
      → IsSorted (r.0)
  unfolding later_amounts reserves_hashmap
  later_amounts-IsSorted p maxima supply h =
      let (m, c1, h1) = >>=-eq-ok (reserves_hashmap p) _ h in
      let (rs, c2, h2) = >>=-eq-ok (initialized p) _ c1 in
      let ((ratio, inverted), c3, h3) = >>=-eq-ok (get_deposit_ratio dec m maxima) _ h1 in
      let (es, c4, h4) = >>=-eq-ok (try_map (token_to_deposit dec ratio inverted) m) _ h3 in
      let (lp, c5, h5) = >>=-eq-ok (get_eligible_lp_tokens dec p es supply) _ h4 in
      subst (λ (r : BTreeMap TokenAmount × Option TokenAmount). IsSorted (r.0)) (ok-injective h5)
        (amounts-IsSorted ratio inverted m c4
          (subst IsSorted (ok-injective h2) (collect_onto-IsSorted [] (map entry rs) tt)))

  first_amounts-IsSorted :
      (maxima : BTreeMap TokenAmount) {r : BTreeMap TokenAmount × Option TokenAmount}
      → IsSorted maxima
      → first_amounts dec maxima ≡ ok r
      → IsSorted (r.0)
  unfolding first_amounts
  first_amounts-IsSorted maxima s h =
      let (lp, c1, h1) =
        >>=-eq-ok (ok_or (minimum (map (λ e. e.1) maxima)) invariant_violation) _ h in
      subst (λ (r : BTreeMap TokenAmount × Option TokenAmount). IsSorted (r.0)) (ok-injective h1) s

  pub deposit_tokens-AllAdded :
      (p : Pool) (maxima : BTreeMap TokenAmount) (supply : TokenAmount) {q : Pool}
      {result : DepositResult}
      → IsValid p
      → IsSorted maxima
      → deposit_tokens dec p maxima supply ≡ ok (q, result)
      → AllAdded p q result.tokens_to_deposit
  unfolding deposit_tokens
  deposit_tokens-AllAdded p maxima supply {q} {result} v s h =
      let (u1, c1, h1) = >>=-eq-ok (check_max_tokens dec p maxima) _ h in
      let (found, c2, h2) =
        >>=-eq-ok
          (if supply == 0 then first_amounts dec maxima else later_amounts dec p maxima supply) _
          h1 in
      let (q1, c3, h3) = >>=-eq-ok (add_all p found.0) _ h2 in
      let sorted : IsSorted (found.0) = elim (Bool-cases (supply == 0)) [
        | inl first ↦ first_amounts-IsSorted maxima s (rw first at c2)
        | inr later ↦ later_amounts-IsSorted p maxima supply (rw later at c2)
      ] in
      subst (λ (r : Pool × DepositResult). AllAdded p r.0 r.1.tokens_to_deposit) (ok-injective h3)
        (add_all-AllAdded p q1 found.0 v sorted c3)
