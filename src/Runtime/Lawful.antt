-- ===== src/Runtime/Lawful.antt =====
-- The concrete token program against `RuntimeLaws`.
use solana_amm.Base.{
  ℕ, ◌+◌, ◌-◌, ◌≤◌, ◌<◌, ◌≡◌, ◌≢◌, inl, inr, refl, sym, ap, subst, ◌∙◌, true, false, Option, none,
  some, ◌==◌, arith, u64_end, some-injective, Bool-cases, ==_refl, ==_false,
}
use solana_amm.BTree.{Pubkey}
use solana_amm.Runtime.{TokenAccount, Mint}
use solana_amm.Runtime.Laws.{RuntimeLaws}
use solana_amm.Runtime.Concrete.{
  Ledger, credited, debited, at, move, transfer_loaded, transfer, mint_to_loaded, burn_loaded,
  simple, initialize_account, close_account,
}

move-eq :
    (from to : Pubkey) (n : ℕ) (l l' : Ledger) (x y : TokenAccount)
    → move from to n l x y ≡ some l'
    → (from == to) ≡ false
    → (l' ≡ record l { accounts = at to (credited n y) (at from (debited n x) l.accounts) })
      × (y.amount + n < u64_end)
unfolding move
move-eq from to n l l' x y h e = ground (arith, h, e)

-- What a transfer did.
record Transferred (from to who : Pubkey) (n : ℕ) (l l' : Ledger) : Type 0 where
  x : TokenAccount
  y : TokenAccount
  source : l.accounts from ≡ some x
  target : l.accounts to ≡ some y
  covered : n ≤ x.amount
  authority : x.owner ≡ who
  moved : move from to n l x y ≡ some l'

transfer_loaded-Transferred :
    (from to who : Pubkey) (n : ℕ) (l l' : Ledger) (ox oy : Option TokenAccount)
    → l.accounts from ≡ ox
    → l.accounts to ≡ oy
    → transfer_loaded from to who n l ox oy ≡ some l'
    → Transferred from to who n l l'
unfolding transfer_loaded
transfer_loaded-Transferred from to who n l l' none oy e e' h = absurd cc
transfer_loaded-Transferred from to who n l l' (some x) none e e' h = absurd cc
transfer_loaded-Transferred from to who n l l' (some x) (some y) e e' h = record {
  x = x;
  y = y;
  source = e;
  target = e';
  covered = ground arith;
  authority = ground arith;
  moved = ground arith;
}

transfer-Transferred :
    (from to who : Pubkey) (n : ℕ) (l l' : Ledger)
    → transfer from to who n l ≡ some l'
    → Transferred from to who n l l'
unfolding transfer
transfer-Transferred from to who n l l' h =
    transfer_loaded-Transferred from to who n l l' (l.accounts from) (l.accounts to) refl refl h

Transferred-accounts :
    (from to who : Pubkey) (n : ℕ) (l l' : Ledger)
    → (d : Transferred from to who n l l') → from ≢ to
    → (l' ≡ record l { accounts = at to (credited n d.y) (at from (debited n d.x) l.accounts) })
      × (d.y.amount + n < u64_end)
Transferred-accounts from to who n l l' d ne =
    move-eq from to n l l' d.x d.y d.moved (==_false from to ne)

move_self :
    (from : Pubkey) (n : ℕ) (l l' : Ledger) (x y : TokenAccount)
    → move from from n l x y ≡ some l'
    → l' ≡ l
unfolding move
move_self from n l l' x y h = sym (some-injective (rw (==_refl from) at h))

moved_self :
    (from to : Pubkey) (n : ℕ) (l l' : Ledger) (x y : TokenAccount)
    → (from == to) ≡ true
    → move from to n l x y ≡ some l'
    → l' ≡ l
unfolding move
moved_self from to n l l' x y e h = sym (some-injective (rw e at h))

self :
    (from who : Pubkey) (n : ℕ) (l l' : Ledger) (x : TokenAccount)
    → transfer from from who n l ≡ some l'
    → l.accounts from ≡ some x
    → l'.accounts from ≡ some x
self from who n l l' x h e =
    let d = transfer-Transferred from from who n l l' h in
    rw (move_self from n l l' d.x d.y d.moved) e

transfer_other :
    (from to who : Pubkey) (n : ℕ) (l l' : Ledger) (k : Pubkey)
    → transfer from to who n l ≡ some l'
    → k ≢ from
    → k ≢ to
    → l'.accounts k ≡ l.accounts k
transfer_other from to who n l l' k h ne ne' =
    let d = transfer-Transferred from to who n l l' h in
    elim (Bool-cases (from == to)) [
      | inl hit ↦ ap (λ m. m.accounts k) (moved_self from to n l l' d.x d.y hit d.moved)
      | inr miss ↦
          rw
            ((move-eq from to n l l' d.x d.y d.moved miss).0, ==_false k from ne, ==_false k to ne')
    ]

transfer_mint :
    (from to who : Pubkey) (n : ℕ) (l l' : Ledger) (m : Pubkey)
    → transfer from to who n l ≡ some l'
    → l'.mints m ≡ l.mints m
transfer_mint from to who n l l' m h =
    let d = transfer-Transferred from to who n l l' h in
    elim (Bool-cases (from == to)) [
      | inl hit ↦ ap (λ k. k.mints m) (moved_self from to n l l' d.x d.y hit d.moved)
      | inr miss ↦ ap (λ k. k.mints m) (move-eq from to n l l' d.x d.y d.moved miss).0
    ]

record MintedTo (mint to : Pubkey) (n : ℕ) (l l' : Ledger) : Type 0 where
  m : Mint
  x : TokenAccount
  minted : l.mints mint ≡ some m
  target : l.accounts to ≡ some x
  done : l' ≡ record {
    accounts = at to (credited n x) l.accounts;
    mints = at mint (record m { supply = m.supply + n }) l.mints;
  }

mint_to_loaded-MintedTo :
    (mint to : Pubkey) (n : ℕ) (l l' : Ledger) (om : Option Mint) (ox : Option TokenAccount)
    → l.mints mint ≡ om
    → l.accounts to ≡ ox
    → mint_to_loaded mint to n l om ox ≡ some l'
    → MintedTo mint to n l l'
unfolding mint_to_loaded
mint_to_loaded-MintedTo mint to n l l' none ox e e' h = absurd cc
mint_to_loaded-MintedTo mint to n l l' (some m) none e e' h = absurd cc
mint_to_loaded-MintedTo mint to n l l' (some m) (some x) e e' h = record {
  m = m;
  x = x;
  minted = e;
  target = e';
  done = sym (some-injective h);
}

record Burned (mint from who : Pubkey) (n : ℕ) (l l' : Ledger) : Type 0 where
  m : Mint
  x : TokenAccount
  minted : l.mints mint ≡ some m
  source : l.accounts from ≡ some x
  covered : n ≤ x.amount
  same_mint : x.mint ≡ mint
  authority : x.owner ≡ who
  done : l' ≡ record {
    accounts = at from (debited n x) l.accounts;
    mints = at mint (record m { supply = m.supply - n }) l.mints;
  }

burn_loaded-Burned :
    (mint from who : Pubkey) (n : ℕ) (l l' : Ledger) (om : Option Mint) (ox : Option TokenAccount)
    → l.mints mint ≡ om
    → l.accounts from ≡ ox
    → burn_loaded mint from who n l om ox ≡ some l'
    → Burned mint from who n l l'
unfolding burn_loaded
burn_loaded-Burned mint from who n l l' none ox e e' h = absurd cc
burn_loaded-Burned mint from who n l l' (some m) none e e' h = absurd cc
burn_loaded-Burned mint from who n l l' (some m) (some x) e e' h = record {
  m = m;
  x = x;
  minted = e;
  source = e';
  covered = ground arith;
  same_mint = ground arith;
  authority = ground arith;
  done = ground arith;
}

-- The token program `simple` meets the laws.
pub simple_laws : RuntimeLaws simple
unfolding simple initialize_account close_account
simple_laws = record {
  transfer-authority = λ from to who n l l' h.
      let d = transfer-Transferred from to who n l l' h in
      (d.x, d.source, d.covered, inl d.authority);
  transfer-from = λ from to who n l l' x h ne e.
      let d = transfer-Transferred from to who n l l' h in
      let same : d.x ≡ x = some-injective (sym d.source ∙ e) in
      let (done, fits) = Transferred-accounts from to who n l l' d ne in
      (
        debited n x,
        rw (done, ==_false from to ne, ==_refl from, same),
        record {
          mint = refl;
          owner = refl;
          covered = subst (λ z. n ≤ z.amount) same d.covered;
          amount = refl;
          delegate = inl refl;
          close_authority = refl;
        },
      );
  transfer-to = λ from to who n l l' x h ne e.
      let d = transfer-Transferred from to who n l l' h in
      let same : d.y ≡ x = some-injective (sym d.target ∙ e) in
      let (done, fits) = Transferred-accounts from to who n l l' d ne in
      (rw (done, ==_refl to, same), subst (λ z. z.amount + n < u64_end) same fits);
  transfer-self = λ from who n l l' x h e. self from who n l l' x h e;
  transfer-other = λ from to who n l l' k h ne ne'. transfer_other from to who n l l' k h ne ne';
  transfer-mint = λ from to who n l l' m h. transfer_mint from to who n l l' m h;
  mint_to-account = λ mint to who n l l' x h e.
      let d = mint_to_loaded-MintedTo mint to n l l' (l.mints mint) (l.accounts to) refl refl h in
      let same : d.x ≡ x = some-injective (sym d.target ∙ e) in rw (d.done, ==_refl to, same);
  mint_to-other = λ mint to who n l l' k h ne.
      let d = mint_to_loaded-MintedTo mint to n l l' (l.mints mint) (l.accounts to) refl refl h in
      rw (d.done, ==_false k to ne);
  mint_to-supply = λ mint to who n l l' m h e.
      let d = mint_to_loaded-MintedTo mint to n l l' (l.mints mint) (l.accounts to) refl refl h in
      let same : d.m ≡ m = some-injective (sym d.minted ∙ e) in rw (d.done, ==_refl mint, same);
  burn-authority = λ mint from who n l l' h.
      let d =
        burn_loaded-Burned mint from who n l l' (l.mints mint) (l.accounts from) refl refl h in
      (d.x, d.source, d.covered, d.same_mint, inl d.authority);
  burn-other = λ mint from who n l l' k h ne.
      let d =
        burn_loaded-Burned mint from who n l l' (l.mints mint) (l.accounts from) refl refl h in
      rw (d.done, ==_false k from ne);
  burn-supply = λ mint from who n l l' m h e.
      let d =
        burn_loaded-Burned mint from who n l l' (l.mints mint) (l.accounts from) refl refl h in
      let same : d.m ≡ m = some-injective (sym d.minted ∙ e) in rw (d.done, ==_refl mint, same);
  initialize_account-other =
      λ key mint owner l l' k h ne. rw (sym (some-injective h), ==_false k key ne);
  close_account-other = λ key who l l' k h ne. rw (sym (some-injective h), ==_false k key ne);
}
