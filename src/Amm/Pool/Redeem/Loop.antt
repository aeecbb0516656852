-- ===== src/Amm/Pool/Redeem/Loop.antt =====
-- The loop of `Pool::redeem_tokens` that takes the redeemed tokens, and the test of the minima.
use solana_amm.Base.{
  ℕ, ◌-◌, ◌≤◌, ◌≡◌, ◌≢◌, inl, inr, refl, sym, ap, subst, ◌∙◌, [], ◌∷◌, Option, none, some, arith,
  ok, Bool, true, false, ltb, ◌==◌, if◌then◌else◌, Bool-cases, some-injective, >>=-eq-ok,
  unwrap-eq-ok, ok-injective, unwrap, ltb_false→le,
}
use solana_amm.BTree.{Pubkey, BTreeMap, get}
use solana_amm.BTree.Laws.{IsSorted, get-Above}
use solana_amm.Amm.Err.{Res}
use solana_amm.Amm.Models.{TokenAmount}
use solana_amm.Amm.Pool.{Pool, reserve_mut, remove_tokens}
use solana_amm.Amm.Pool.Reserves.{
  active, IsValid, balance, active-with_active, with_active-IsValid, remove_tokens-change,
  balance-change_ne, balance-change_self,
}
use solana_amm.Amm.Pool.Redeem.{is_any_below_min, remove_all}

-- One step of the loop over the redeemed tokens.
record Paid (p q : Pool) (k : Pubkey) (t : TokenAmount) : Type 0 where
  pub valid : IsValid q
  pub paid :
      (b : ℕ) × (balance k (active p) ≡ some b) × (balance k (active q) ≡ some (b - t)) × (t ≤ b)
  pub others : (j : Pubkey) → k ≢ j → balance j (active q) ≡ balance j (active p)

pay :
    (p q : Pool) (k : Pubkey) (t : TokenAmount)
    → IsValid p
    → reserve_mut k (remove_tokens t) p ≡ ok q
    → Paid p q k t
pay p q k t v h =
    let (to_q, (b, there, le)) = remove_tokens-change k t p v h in
    let slice = ap active to_q ∙ active-with_active p k (λ n. n - t) v in
    record {
      valid = subst IsValid (sym to_q) (with_active-IsValid p k (λ n. n - t) v);
      paid = (
        b,
        there,
        ap (balance k) slice ∙ balance-change_self k (λ n. n - t) (active p) b there,
        le,
      );
      others = λ j ne. ap (balance j) slice ∙ balance-change_ne j k (λ n. n - t) (active p) ne;
    }

-- The balance of `k` covered `t`, which was paid.
abbrev pub Pays : Pool → Pool → Pubkey → TokenAmount → Type 0
Pays p q k t =
    (b : ℕ) × (balance k (active p) ≡ some b) × (balance k (active q) ≡ some (b - t)) × (t ≤ b)

-- The loop pays each entry of the map once.
abbrev pub AllPaid : Pool → Pool → BTreeMap TokenAmount → Type 0
AllPaid p q m =
    IsValid q
    × ((k : Pubkey) (t : TokenAmount) → get k m ≡ some t → Pays p q k t)
    × ((k : Pubkey) → get k m ≡ none → balance k (active q) ≡ balance k (active p))

==→≡ : (a b : ℕ) → (a == b) ≡ true → a ≡ b
==→≡ a b h = ground arith

==_false→≢ : (a b : ℕ) → (a == b) ≡ false → a ≢ b
==_false→≢ a b h = ground arith

pub some≢none : {x : TokenAmount} → ◌≡◌ {A = Option TokenAmount} (some x) none → ⊥
some≢none h = cc

AllPaid-cons :
    (p p1 q : Pool) (j : Pubkey) (u : TokenAmount) (m : BTreeMap TokenAmount)
    → Paid p p1 j u
    → get j m ≡ none
    → AllPaid p1 q m
    → AllPaid p q ((j, u) ∷ m)
AllPaid-cons p p1 q j u m d absent (valid, paid, others) = (
  valid,
  (λ k t e. elim (Bool-cases (j == k)) [
    | inl hit ↦
        let (b, had, left, le) = d.paid in
        subst (λ x. Pays p q k x) (some-injective (rw hit at e))
          (subst (λ i. Pays p q i u) (==→≡ j k hit) (b, had, others j absent ∙ left, le))
    | inr miss ↦
        let (b, had, left, le) = paid k t (rw miss at e) in
        (b, sym (d.others k (==_false→≢ j k miss)) ∙ had, left, le)
  ]),
  λ k e. elim (Bool-cases (j == k)) [
    | inl hit ↦ absurd (some≢none (rw hit at e))
    | inr miss ↦ others k (rw miss at e) ∙ d.others k (==_false→≢ j k miss)
  ],
)

pub remove_all-AllPaid :
    (p q : Pool) (m : BTreeMap TokenAmount)
    → IsValid p
    → IsSorted m
    → remove_all p m ≡ ok q
    → AllPaid p q m
unfolding remove_all
remove_all-AllPaid p q [] v s h =
    let same = ok-injective h in
    (
      subst IsValid same v,
      (λ k t e. absurd (some≢none (sym e))),
      λ k e. ap (λ x. balance k (active x)) (sym same),
    )
remove_all-AllPaid p q ((j, u) ∷ m) v s h =
    let (p1, first, rest) = >>=-eq-ok (reserve_mut j (remove_tokens u) p) _ h in
    let d = pay p p1 j u v first in
    AllPaid-cons p p1 q j u m d (get-Above j m s.0) (remove_all-AllPaid p1 q m d.valid s.1 rest)

-- No entry is below its minimum.
pub is_any_below_min-false :
    (mins m : BTreeMap TokenAmount) (k : Pubkey) (t : TokenAmount)
    → is_any_below_min mins m ≡ ok false
    → get k m ≡ some t
    → (l : ℕ) × (get k mins ≡ some l) × (l ≤ t)
unfolding is_any_below_min
is_any_below_min-false mins [] k t h e = absurd (some≢none (sym e))
is_any_below_min-false mins ((j, u) ∷ m) k t h e =
    let (l, there, h1) = >>=-eq-ok (unwrap (get j mins)) _ h in
    let (enough, rest) = tail (ltb u l) h1 in
    elim (Bool-cases (j == k)) [
      | inl hit ↦
          subst (λ i. (l : ℕ) × (get i mins ≡ some l) × (l ≤ t)) (==→≡ j k hit)
            (
              l,
              unwrap-eq-ok _ there,
              subst (λ x. l ≤ x) (some-injective (rw hit at e)) (ltb_false→le u l enough),
            )
      | inr miss ↦ is_any_below_min-false mins m k t rest (rw miss at e)
    ]
  where
    differ : true ≡ false → ⊥
    differ h = cc

    tail :
        (b : Bool) {r : Res Bool}
        → (if b then ok true else r) ≡ ok false
        → (b ≡ false) × (r ≡ ok false)
    tail true h = absurd (differ (ok-injective h))
    tail false h = (refl, h)
