-- ===== src/Runtime/Vaults.antt =====
-- Accounts that a derived address owns, and what a run of instructions leaves of them.
pub mod Transfers
pub mod Guarded
use solana_amm.Base.{
  ℕ, ◌+◌, ◌≤◌, ◌≡◌, ◌≢◌, inl, inr, refl, sym, ap, subst, ◌∙◌, some, none, true, false, ◌==◌,
  if◌then◌else◌, arith, Bool-cases, some-injective,
}
use solana_amm.BTree.{Pubkey}
use solana_amm.Runtime.{TokenAccount, Runtime}
use solana_amm.Runtime.Laws.{Debited, RuntimeLaws}

-- `n` at one key and 0 at all others.
abbrev pub only : Pubkey → ℕ → Pubkey → ℕ
only j n k = if k == j then n else 0

abbrev pub nothing : Pubkey → ℕ
nothing k = 0

abbrev pub both : (Pubkey → ℕ) → (Pubkey → ℕ) → Pubkey → ℕ
both f g k = f k + g k

-- An account as a guarded one became: at least `gained` more tokens, and at most `spent` fewer.
pub record Kept (who : Pubkey) (gained spent : ℕ) (x y : TokenAccount) : Type 0 where
  pub mint : y.mint ≡ x.mint
  pub owner : y.owner ≡ who
  pub delegate : y.delegate ≡ none
  pub close_authority : y.close_authority ≡ x.close_authority
  pub amount : x.amount + gained ≤ y.amount + spent

-- Every account that `who` owns and has delegated to no one is still so, has the same close
-- authority, and holds the tokens it should.
abbrev pub Keeps :
    (rt : Runtime) → Pubkey → (Pubkey → ℕ) → (Pubkey → ℕ) → rt.Ledger → rt.Ledger → Type 0
Keeps rt who gained spent l l' =
    (k : Pubkey) (x : TokenAccount)
    → rt.account l k ≡ some x
    → x.owner ≡ who
    → x.delegate ≡ none
    → (y : TokenAccount) × (rt.account l' k ≡ some y) × Kept who (gained k) (spent k) x y

pub ==→≡ : (a b : ℕ) → (a == b) ≡ true → a ≡ b
==→≡ a b h = ground arith

pub ==_false→≢ : (a b : ℕ) → (a == b) ≡ false → a ≢ b
==_false→≢ a b h = ground arith

pub Kept-refl :
    (who : Pubkey) (x : TokenAccount) → x.owner ≡ who → x.delegate ≡ none → Kept who 0 0 x x
Kept-refl who x o d = record {
  mint = refl;
  owner = o;
  delegate = d;
  close_authority = refl;
  amount = omega arith;
}

pub Kept-credit :
    (who : Pubkey) (n g : ℕ) (x : TokenAccount)
    → g ≤ n
    → x.owner ≡ who
    → x.delegate ≡ none
    → Kept who g 0 x (record x { amount = x.amount + n })
Kept-credit who n g x le o d = record {
  mint = refl;
  owner = o;
  delegate = d;
  close_authority = refl;
  amount = omega arith;
}

pub Debited-Kept :
    (who : Pubkey) (n : ℕ) (x y : TokenAccount)
    → Debited n x y
    → x.owner ≡ who
    → x.delegate ≡ none
    → Kept who 0 n x y
Debited-Kept who n x y b o d = record {
  mint = b.mint;
  owner = b.owner ∙ o;
  delegate = elim b.delegate [ inl same ↦ same ∙ d | inr gone ↦ gone ];
  close_authority = b.close_authority;
  amount = omega (arith, b.covered, b.amount);
}

pub Keeps-refl : (rt : Runtime) (who : Pubkey) (l : rt.Ledger) → Keeps rt who nothing nothing l l
Keeps-refl rt who l k x e o d = (x, e, Kept-refl who x o d)

pub Keeps-trans :
    (rt : Runtime) (who : Pubkey) (g g' s s' : Pubkey → ℕ) (l m n : rt.Ledger)
    → Keeps rt who g s l m
    → Keeps rt who g' s' m n
    → Keeps rt who (both g g') (both s s') l n
Keeps-trans rt who g g' s s' l m n first second k x e o d =
    let (y, ey, ky) = first k x e o d in
    let (z, ez, kz) = second k y ey ky.owner ky.delegate in
    (
      z,
      ez,
      record {
        mint = kz.mint ∙ ky.mint;
        owner = kz.owner;
        delegate = kz.delegate;
        close_authority = kz.close_authority ∙ ky.close_authority;
        amount = omega (arith, ky.amount, kz.amount);
      },
    )

-- Less gained and more spent is a weaker claim.
pub Keeps-weaken :
    (rt : Runtime) (who : Pubkey) (g g' s s' : Pubkey → ℕ) (l l' : rt.Ledger)
    → ((k : Pubkey) → g' k ≤ g k)
    → ((k : Pubkey) → s k ≤ s' k)
    → Keeps rt who g s l l'
    → Keeps rt who g' s' l l'
Keeps-weaken rt who g g' s s' l l' less more keeps k x e o d =
    let (y, ey, ky) = keeps k x e o d in
    (
      y,
      ey,
      record {
        mint = ky.mint;
        owner = ky.owner;
        delegate = ky.delegate;
        close_authority = ky.close_authority;
        amount = omega (arith, ky.amount, less k, more k);
      },
    )
