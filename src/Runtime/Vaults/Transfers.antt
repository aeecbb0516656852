-- ===== src/Runtime/Vaults/Transfers.antt =====
-- One instruction of the token program and the accounts that a derived address owns.
use solana_amm.Base.{
  ℕ, ◌+◌, ◌≡◌, ◌≢◌, inl, inr, refl, sym, ap, subst, ◌∙◌, some, none, ◌==◌, arith, Bool-cases,
  some-injective,
}
use solana_amm.BTree.{Pubkey}
use solana_amm.Runtime.{TokenAccount, Runtime}
use solana_amm.Runtime.Laws.{RuntimeLaws}
use solana_amm.Runtime.Vaults.{
  ==→≡, Keeps, only, nothing, Kept, ==_false→≢, Debited-Kept, Kept-refl, Kept-credit,
}

none≢some : {A : Type 0} {a : A} → none ≡ some a → ⊥
none≢some h = cc

module _ (rt : Runtime) (laws : RuntimeLaws rt) (guard : Pubkey) where
  -- Someone else cannot move a guarded account's tokens.
  foreign :
      (from to who : Pubkey) (n : ℕ) (l l' : rt.Ledger) (k : Pubkey) (x : TokenAccount)
      → who ≢ guard
      → rt.transfer from to who n l ≡ some l'
      → rt.account l k ≡ some x
      → x.owner ≡ guard
      → x.delegate ≡ none
      → k ≢ from
  foreign from to who n l l' k x ne h e o d same =
      let (z, source, covered, authority) = laws.transfer-authority from to who n l l' h in
      let zx : z ≡ x = some-injective (sym source ∙ ap (rt.account l) (sym same) ∙ e) in
      elim authority [
        | inl owned ↦ ne (sym owned ∙ ap (λ a. a.owner) zx ∙ o)
        | inr delegated ↦ none≢some (sym d ∙ ap (λ a. a.delegate) (sym zx) ∙ delegated)
      ]

  transfer-source :
      (from to who : Pubkey) (n : ℕ) (l l' : rt.Ledger) (x : TokenAccount)
      → rt.transfer from to who n l ≡ some l'
      → rt.account l from ≡ some x
      → x.owner ≡ guard
      → x.delegate ≡ none
      → (y : TokenAccount) × (rt.account l' from ≡ some y) × Kept guard 0 n x y
  transfer-source from to who n l l' x h e o d = elim (Bool-cases (from == to)) [
    | inl same ↦ (
      x,
      laws.transfer-self from who n l l' x
          (subst (λ t. rt.transfer from t who n l ≡ some l') (sym (==→≡ from to same)) h) e,
      record { mint = refl; owner = o; delegate = d; close_authority = refl; amount = omega arith },
    )
    | inr other ↦
        let (y, ey, debit) =
          laws.transfer-from from to who n l l' x h (==_false→≢ from to other) e in
        (y, ey, Debited-Kept guard n x y debit o d)
  ]

  transfer-elsewhere :
      (from to who : Pubkey) (n : ℕ) (l l' : rt.Ledger) (k : Pubkey) (x : TokenAccount)
      → rt.transfer from to who n l ≡ some l'
      → k ≢ from
      → rt.account l k ≡ some x
      → x.owner ≡ guard
      → x.delegate ≡ none
      → (y : TokenAccount) × (rt.account l' k ≡ some y) × Kept guard (only to n k) 0 x y
  transfer-elsewhere from to who n l l' k x h off e o d = elim (Bool-cases (k == to)) [
    | inl hit ↦
        let is_to = ==→≡ k to hit in
        let (paid, fits) =
          laws.transfer-to from to who n l l' x h (λ s. off (is_to ∙ sym s))
            (ap (rt.account l) (sym is_to) ∙ e) in
        (
          record x { amount = x.amount + n },
          ap (rt.account l') is_to ∙ paid,
          rw hit (Kept-credit guard n n x (omega arith) o d),
        )
    | inr miss ↦ (
      x,
      laws.transfer-other from to who n l l' k h off (==_false→≢ k to miss) ∙ e,
      rw miss (Kept-refl guard x o d),
    )
  ]

  -- A transfer by another user pays into the account it names.
  pub transfer-Keeps_in :
      (from to who : Pubkey) (n : ℕ) (l l' : rt.Ledger)
      → who ≢ guard
      → rt.transfer from to who n l ≡ some l'
      → Keeps rt guard (only to n) nothing l l'
  transfer-Keeps_in from to who n l l' ne h k x e o d =
      transfer-elsewhere from to who n l l' k x h (foreign from to who n l l' k x ne h e o d) e o d

  Kept-weaken : (g s : ℕ) (x y : TokenAccount) → Kept guard g s x y → Kept guard 0 s x y
  Kept-weaken g s x y kept = record {
    mint = kept.mint;
    owner = kept.owner;
    delegate = kept.delegate;
    close_authority = kept.close_authority;
    amount = omega (arith, kept.amount);
  }

  -- A transfer out of a guarded account takes no more than its amount.
  pub transfer-Keeps_out :
      (from to who : Pubkey) (n : ℕ) (l l' : rt.Ledger)
      → rt.transfer from to who n l ≡ some l'
      → Keeps rt guard nothing (only from n) l l'
  transfer-Keeps_out from to who n l l' h k x e o d = elim (Bool-cases (k == from)) [
    | inl hit ↦
        let is = ==→≡ k from hit in
        let (y, ey, kept) =
          transfer-source from to who n l l' x h (ap (rt.account l) (sym is) ∙ e) o d in
        (y, ap (rt.account l') is ∙ ey, rw hit kept)
    | inr miss ↦
        let (y, ey, kept) =
          transfer-elsewhere from to who n l l' k x h (==_false→≢ k from miss) e o d in
        (y, ey, rw miss (Kept-weaken (only to n k) 0 x y kept))
  ]

  pub mint_to-Keeps :
      (mint to who : Pubkey) (n : ℕ) (l l' : rt.Ledger)
      → rt.mint_to mint to who n l ≡ some l'
      → Keeps rt guard nothing nothing l l'
  mint_to-Keeps mint to who n l l' h k x e o d = elim (Bool-cases (k == to)) [
    | inl hit ↦
        let is_to = ==→≡ k to hit in
        (
          record x { amount = x.amount + n },
          ap (rt.account l') is_to
              ∙ laws.mint_to-account mint to who n l l' x h (ap (rt.account l) (sym is_to) ∙ e),
          Kept-credit guard n 0 x (omega arith) o d,
        )
    | inr miss ↦ (
      x,
      laws.mint_to-other mint to who n l l' k h (==_false→≢ k to miss) ∙ e,
      Kept-refl guard x o d,
    )
  ]

  pub burn-Keeps :
      (mint from who : Pubkey) (n : ℕ) (l l' : rt.Ledger)
      → who ≢ guard
      → rt.burn mint from who n l ≡ some l'
      → Keeps rt guard nothing nothing l l'
  burn-Keeps mint from who n l l' ne h k x e o d =
      (x, laws.burn-other mint from who n l l' k h off ∙ e, Kept-refl guard x o d)
    where
      off : k ≢ from
      off same =
          let (z, source, covered, same_mint, authority) =
            laws.burn-authority mint from who n l l' h in
          let zx : z ≡ x = some-injective (sym source ∙ ap (rt.account l) (sym same) ∙ e) in
          elim authority [
            | inl owned ↦ ne (sym owned ∙ ap (λ a. a.owner) zx ∙ o)
            | inr delegated ↦ none≢some (sym d ∙ ap (λ a. a.delegate) (sym zx) ∙ delegated)
          ]
