-- ===== src/Amm/Endpoints/Backing.antt =====
-- What the vaults of a pool hold against what the pool records, for the AMM's endpoints.
pub mod Accounts
pub mod Collected
pub mod Swap
pub mod Mints
pub mod Pairs
pub mod Redeem
pub mod Built
pub mod Create
pub mod Added
pub mod Listed
pub mod Paid
pub mod Deposit
pub mod Steps
use solana_amm.Base.{
  ℕ, map, ◌+◌, ◌≤◌, ◌≡◌, ◌≢◌, ◌⊎◌, inl, inr, refl, sym, ap, subst, ◌∙◌, List, [], ◌∷◌, Option, none,
  some, find, arith, ok, ◌==◌, if◌then◌else◌, Bool-cases, true, >>=-eq-ok, ok-injective,
  some-injective, ==_false,
}
use solana_amm.BTree.{Pubkey}
use solana_amm.Decimal.{DecimalOps}
use solana_amm.Runtime.{TokenAccount, Runtime}
use solana_amm.Runtime.Vaults.{Keeps, Kept}
use solana_amm.Amm.Models.{TokenAmount}
use solana_amm.Amm.Pool.{Pool, Reserve, Curve, const_prod, stable, initialized, reserve_vault}
use solana_amm.Amm.Pool.Reserves.{active, IsValid, balance, change, initialized-eq}
use solana_amm.Amm.Pool.UpdateCurve.{update_curve, update_curve_invariant, new_invariant_of}
use solana_amm.Amm.Endpoints.Swap.{is_some_of}

-- The vault of the first reserve of a mint.
abbrev pub vault_of : Pubkey → List Reserve → Option Pubkey
vault_of k [] = none
vault_of k (r ∷ rs) = if r.mint == k then some r.vault else vault_of k rs

-- The vault of the reserve of mint `k` belongs to `who`, no one else may move its tokens or close
-- it, and it holds `b` tokens at least.
pub record Holds (rt : Runtime) (who : Pubkey) (p : Pool) (l : rt.Ledger) (k : Pubkey)
    (b : TokenAmount) : Type 0 where
  pub vault : Pubkey
  pub account : TokenAccount
  pub listed : vault_of k (active p) ≡ some vault
  pub loaded : rt.account l vault ≡ some account
  pub mint : account.mint ≡ k
  pub owner : account.owner ≡ who
  pub delegate : account.delegate ≡ none
  pub close_authority : account.close_authority ≡ none
  pub covered : b ≤ account.amount

-- Every balance that the pool records is in the vault.
abbrev pub Backed : (rt : Runtime) → Pubkey → Pool → rt.Ledger → Type 0
Backed rt who p l =
    (k : Pubkey) (b : TokenAmount) → balance k (active p) ≡ some b → Holds rt who p l k b

-- What each balance of `q` was in `p`, and that the vault gained and spent no less and no more.
abbrev pub Follows : (rt : Runtime) → Pool → Pool → (Pubkey → ℕ) → (Pubkey → ℕ) → rt.Ledger → Type 0
Follows rt p q gained spent l =
    (k : Pubkey) (b' : TokenAmount)
    → balance k (active q) ≡ some b'
    → (b : TokenAmount) × (balance k (active p) ≡ some b)
      × ((v : Pubkey) (x : TokenAccount)
          → vault_of k (active p) ≡ some v
          → rt.account l v ≡ some x
          → x.mint ≡ k
          → b' + spent v ≤ b + gained v)

pub Backed-step :
    (rt : Runtime) (who : Pubkey) (p q : Pool) (gained spent : Pubkey → ℕ) (l l' : rt.Ledger)
    → Backed rt who p l
    → Keeps rt who gained spent l l'
    → ((k : Pubkey) → vault_of k (active q) ≡ vault_of k (active p))
    → Follows rt p q gained spent l
    → Backed rt who q l'
Backed-step rt who p q gained spent l l' backed keeps shape follows k b' here =
    let (b, before, bound) = follows k b' here in
    let h = backed k b before in
    let (y, ey, kept) = keeps h.vault h.account h.loaded h.owner h.delegate in
    record {
      vault = h.vault;
      account = y;
      listed = shape k ∙ h.listed;
      loaded = ey;
      mint = kept.mint ∙ h.mint;
      owner = kept.owner;
      delegate = kept.delegate;
      close_authority = kept.close_authority ∙ h.close_authority;
      covered =
          omega (arith, bound h.vault h.account h.listed h.loaded h.mint, kept.amount, h.covered);
    }

pub vault_of-change :
    (k j : Pubkey) (f : ℕ → ℕ) (rs : List Reserve) → vault_of k (change j f rs) ≡ vault_of k rs
unfolding change
vault_of-change k j f [] = refl
vault_of-change k j f (r ∷ rs) = elim (Bool-cases (r.mint == j)) [
  | inl hit ↦ rw hit
  | inr miss ↦ rw (miss, vault_of-change k j f rs)
]

-- A balance after a change is that of the changed mint or what it was.
abbrev pub Changed : Pubkey → Pubkey → (ℕ → ℕ) → ℕ → ℕ → Type 0
Changed k j f b b' = ((k ≡ j) × (b' ≡ f b)) ⊎ ((k ≢ j) × (b' ≡ b))

pub balance-change-Changed :
    (k j : Pubkey) (f : ℕ → ℕ) (rs : List Reserve) {b' : ℕ}
    → balance k (change j f rs) ≡ some b'
    → (b : ℕ) × (balance k rs ≡ some b) × Changed k j f b b'
unfolding change
balance-change-Changed k j f [] h = cc
balance-change-Changed k j f (r ∷ rs) {b'} h = elim (Bool-cases (r.mint == j)) [
  | inl hit ↦ elim (Bool-cases (r.mint == k)) [
    | inl mine ↦ (r.tokens, rw mine, inl (ground arith, some-injective (sym (rw (hit, mine) at h))))
    | inr other ↦ (b', rw other (rw (hit, other) at h), inr (ground arith, refl))
  ]
  | inr miss ↦ elim (Bool-cases (r.mint == k)) [
    | inl mine ↦ (b', rw mine (rw (miss, mine) at h), inr (ground arith, refl))
    | inr other ↦
        let (b, was, how) = balance-change-Changed k j f rs (rw (miss, other) at h) in
        (b, rw other was, how)
  ]
]

-- `update_curve_invariant` changes nothing but the curve.
update_curve_invariant-curve :
    (dec : DecimalOps) (p : Pool) {q : Pool}
    → update_curve_invariant dec p ≡ ok q
    → (c : Curve) × (q ≡ record p { curve = c })
unfolding update_curve_invariant update_curve
update_curve_invariant-curve dec p {q} h = by_curve p.curve h
  where
    by_curve :
        (c : Curve) → update_curve dec c p ≡ ok q → (c : Curve) × (q ≡ record p { curve = c })
    by_curve const_prod e = (p.curve, sym (ok-injective e))
    by_curve (stable amplifier n) e =
        let (rs, sliced, e1) = >>=-eq-ok (initialized p) _ e in
        let (m, new, e2) =
          >>=-eq-ok (new_invariant_of dec amplifier (map (λ r. r.tokens) rs)) _ e1 in
        (stable amplifier m, sym (ok-injective e2))

recurved :
    (rt : Runtime) (who : Pubkey) (c : Curve) (p : Pool) (l : rt.Ledger)
    → Backed rt who p l
    → Backed rt who (record p { curve = c }) l
recurved rt who c p l backed k b h =
    let held = backed k b h in
    record {
      vault = held.vault;
      account = held.account;
      listed = held.listed;
      loaded = held.loaded;
      mint = held.mint;
      owner = held.owner;
      delegate = held.delegate;
      close_authority = held.close_authority;
      covered = held.covered;
    }

pub update_curve_invariant-Backed :
    (dec : DecimalOps) (rt : Runtime) (who : Pubkey) (p : Pool) (l : rt.Ledger) {q : Pool}
    → update_curve_invariant dec p ≡ ok q
    → IsValid p
    → Backed rt who p l
    → IsValid q × Backed rt who q l
update_curve_invariant-Backed dec rt who p l {q} h v backed =
    let (c, curved) = update_curve_invariant-curve dec p h in
    subst (λ z. IsValid z × Backed rt who z l) (sym curved)
      (record { capacity = v.capacity; distinct = v.distinct }, recurved rt who c p l backed)

find-vault :
    (k : Pubkey) (rs : List Reserve)
    → elim (find (λ r. r.mint == k) rs) [ none ↦ none | some r ↦ some r.vault ] ≡ vault_of k rs
find-vault k [] = refl
find-vault k (r ∷ rs) = elim (Bool-cases (r.mint == k)) [
  | inl hit ↦ rw hit
  | inr miss ↦ rw miss (find-vault k rs)
]

is_some_of-some : (o : Option Pubkey) (k : Pubkey) → is_some_of o k ≡ true → o ≡ some k
is_some_of-some none k h = cc
is_some_of-some (some j) k h = ap some (ground arith)

-- The constraint `pool.reserve_vault(mint) == Some(key)`.
pub reserve_vault-listed :
    (p : Pool) (k key : Pubkey) {o : Option Pubkey}
    → IsValid p
    → reserve_vault p k ≡ ok o
    → is_some_of o key ≡ true
    → vault_of k (active p) ≡ some key
unfolding reserve_vault
reserve_vault-listed p k key {o} v h is =
    let (rs, sliced, h1) = >>=-eq-ok (initialized p) _ h in
    let same = ok-injective (sym sliced ∙ initialized-eq p v) in
    sym (ap (vault_of k) same) ∙ sym (find-vault k rs) ∙ ok-injective h1 ∙ is_some_of-some o key is
