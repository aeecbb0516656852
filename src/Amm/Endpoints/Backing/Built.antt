-- ===== src/Amm/Endpoints/Backing/Built.antt =====
-- The reserves that the creation of a pool writes, and the vaults it is given.
use solana_amm.Base.{
  ℕ, ◌+◌, ◌≤◌, ◌<◌, ◌≡◌, ◌≢◌, inl, inr, refl, sym, ap, subst, ◌∙◌, Option, some, none, Bool, true,
  false, not, ◌&&◌, List, [], ◌∷◌, ◌++◌, arith, All, map, length, take, set, any, ok, ◌==◌, ltb,
  ◌||◌, Bool-cases, >>=-eq-ok, ok-injective, some-injective, raise_if-eq-ok, assert-eq-ok, raise_if,
  assert, take-suc-set, length-set,
}
use solana_amm.BTree.{Pubkey}
use solana_amm.Runtime.{TokenAccount, Runtime, load_account}
use solana_amm.Amm.Err.{invalid_account_input}
use solana_amm.Amm.Models.{TokenAmount}
use solana_amm.Amm.Pool.{Pool, Reserve}
use solana_amm.Amm.Pool.Reserves.{active, IsValid, Distinct, balance}
use solana_amm.Amm.Endpoints.CreatePool.{is_none, check_vault, add_reserves}
use solana_amm.Amm.Endpoints.Backing.{vault_of, Backed}
use solana_amm.Amm.Endpoints.Backing.Accounts.{load_account-eq}

-- The vault of a reserve is owned by `who`, no one else may take from it or close it, and it holds
-- what the reserve records.
pub record Filled (rt : Runtime) (who : Pubkey) (l : rt.Ledger) (r : Reserve) : Type 0 where
  pub account : TokenAccount
  pub loaded : rt.account l r.vault ≡ some account
  pub mint : account.mint ≡ r.mint
  pub owner : account.owner ≡ who
  pub delegate : account.delegate ≡ none
  pub close_authority : account.close_authority ≡ none
  pub tokens : r.tokens ≡ account.amount

-- The reserves that the loop has written. Their vaults are `keys`, in order.
pub record Built (rt : Runtime) (who : Pubkey) (l : rt.Ledger) (keys mints : List Pubkey)
    (rs : List Reserve) : Type 0 where
  pub fits : length mints ≤ length rs
  pub filled : All (Filled rt who l) (take (length mints) rs)
  pub distinct : Distinct (take (length mints) rs)
  pub known : All (λ r. any (λ m. m == r.mint) mints ≡ true) (take (length mints) rs)
  pub vaults : map (λ r. r.vault) (take (length mints) rs) ≡ keys

All-snoc :
    (P : Reserve → Type 0) (rs : List Reserve) (r : Reserve) → All P rs → P r → All P (rs ++ r ∷ [])
All-snoc P [] r a p = (p, tt)
All-snoc P (s ∷ rs) r (q, a) p = (q, All-snoc P rs r a p)

vaults-snoc :
    (rs : List Reserve) (r : Reserve)
    → map (λ s. s.vault) (rs ++ r ∷ []) ≡ map (λ s. s.vault) rs ++ r.vault ∷ []
vaults-snoc [] r = refl
vaults-snoc (s ∷ rs) r = ap (λ ks. s.vault ∷ ks) (vaults-snoc rs r)

snoc-++ : (ks : List Pubkey) (k : Pubkey) (js : List Pubkey) → (ks ++ k ∷ []) ++ js ≡ ks ++ k ∷ js
snoc-++ [] k js = refl
snoc-++ (i ∷ ks) k js = ap (λ is. i ∷ is) (snoc-++ ks k js)

++-nil : (ks : List Pubkey) → ks ++ [] ≡ ks
++-nil [] = refl
++-nil (i ∷ ks) = ap (λ is. i ∷ is) (++-nil ks)

All-impl :
    (P Q : Reserve → Type 0) (rs : List Reserve) → ((r : Reserve) → P r → Q r) → All P rs → All Q rs
All-impl P Q [] f a = tt
All-impl P Q (r ∷ rs) f (p, a) = (f r p, All-impl P Q rs f a)

Distinct-snoc :
    (rs : List Reserve) (r : Reserve)
    → Distinct rs
    → All (λ s. r.mint ≢ s.mint) rs
    → Distinct (rs ++ r ∷ [])
Distinct-snoc [] r d a = (tt, tt)
Distinct-snoc (s ∷ rs) r (off, d) (ne, a) =
    (All-snoc (λ t. t.mint ≢ s.mint) rs r off ne, Distinct-snoc rs r d a)

is_none-eq : (o : Option Pubkey) → not (is_none o) ≡ false → o ≡ none
unfolding is_none
is_none-eq none h = refl
is_none-eq (some k) h = cc

-- What is known of a vault that passed.
record Passed (who : Pubkey) (mints : List Pubkey) (x : TokenAccount) : Type 0 where
  fresh : any (λ m. m == x.mint) mints ≡ false
  owner : x.owner ≡ who
  delegate : x.delegate ≡ none
  close_authority : x.close_authority ≡ none

check_vault-Passed :
    (without_supply : Bool) (who : Pubkey) (mints : List Pubkey) (x : TokenAccount) {u : Unit {0}}
    → check_vault without_supply who mints x ≡ ok u
    → Passed who mints x
unfolding check_vault
check_vault-Passed without_supply who mints x h =
    let (u1, c1, h1) =
      >>=-eq-ok (raise_if (without_supply && not (x.amount == 0)) invalid_account_input) _ h in
    let (u2, c2, h2) =
      >>=-eq-ok (raise_if (not without_supply && (x.amount == 0)) invalid_account_input) _ h1 in
    let (u3, c3, h3) =
      >>=-eq-ok (raise_if (any (λ m. m == x.mint) mints) invalid_account_input) _ h2 in
    let (u4, c4, h4) =
      >>=-eq-ok (raise_if (not (is_none x.close_authority)) invalid_account_input) _ h3 in
    let (u5, c5, h5) = >>=-eq-ok (raise_if (not (is_none x.delegate)) invalid_account_input) _ h4 in
    let (u6, c6, h6) = >>=-eq-ok (raise_if (not (x.owner == who)) invalid_account_input) _ h5 in
    record {
      fresh = raise_if-eq-ok _ _ c3;
      owner = same_keys x.owner who (raise_if-eq-ok _ _ c6);
      delegate = is_none-eq x.delegate (raise_if-eq-ok _ _ c5);
      close_authority = is_none-eq x.close_authority (raise_if-eq-ok _ _ c4);
    }
  where
    same_keys : (a b : ℕ) → not (a == b) ≡ false → a ≡ b
    same_keys a b h = ground arith

module _ (rt : Runtime) (who : Pubkey) (l : rt.Ledger) where
  Built-next :
      (keys mints : List Pubkey) (rs : List Reserve) (key : Pubkey) (x : TokenAccount) (r : Reserve)
      → Built rt who l keys mints rs
      → Passed who mints x
      → rt.account l key ≡ some x
      → r ≡ record { tokens = x.amount; mint = x.mint; vault = key }
      → length mints < length rs
      → Built rt who l (keys ++ key ∷ []) (x.mint ∷ mints) (set rs (length mints) r)
  Built-next keys mints rs key x r built passed loaded is room =
      let written = take-suc-set rs (length mints) r room in
      let mint : r.mint ≡ x.mint = ap (λ z. z.mint) is in
      let filled : Filled rt who l r = record {
        account = x;
        loaded = ap (λ z. rt.account l z.vault) is ∙ loaded;
        mint = sym mint;
        owner = passed.owner;
        delegate = passed.delegate;
        close_authority = passed.close_authority;
        tokens = ap (λ z. z.tokens) is;
      } in
      record {
        fits = omega (arith, length-set rs (length mints) r);
        filled =
            subst (All (Filled rt who l)) (sym written)
              (All-snoc (Filled rt who l) (take (length mints) rs) r built.filled filled);
        distinct = subst Distinct (sym written) (
            Distinct-snoc (take (length mints) rs) r built.distinct (
              All-impl (λ s. any (λ m. m == s.mint) mints ≡ true) (λ s. r.mint ≢ s.mint)
                (take (length mints) rs)
                (λ s known same.
                  contradiction (
                    sym known ∙ ap (λ k. any (λ m. m == k) mints) (sym same ∙ mint) ∙ passed.fresh))
                built.known));
        known = subst (All (λ s. any (λ m. m == s.mint) (x.mint ∷ mints) ≡ true)) (sym written) (
            All-snoc (λ s. any (λ m. m == s.mint) (x.mint ∷ mints) ≡ true) (take (length mints) rs)
              r
              (All-impl (λ s. any (λ m. m == s.mint) mints ≡ true)
                (λ s. any (λ m. m == s.mint) (x.mint ∷ mints) ≡ true) (take (length mints) rs)
                (λ s known. or_true (x.mint == s.mint) known) built.known)
              (true_or x.mint r.mint (any (λ m. m == r.mint) mints) (sym mint)));
        vaults =
            ap (map (λ z. z.vault)) written
            ∙ vaults-snoc (take (length mints) rs) r
            ∙ ap (λ ks. ks ++ r.vault ∷ []) built.vaults
            ∙ ap (λ k. keys ++ k ∷ []) (ap (λ z. z.vault) is);
      }
    where
      contradiction : true ≡ false → ⊥
      contradiction h = cc

      or_true : (b : Bool) {c : Bool} → c ≡ true → (b || c) ≡ true
      or_true true h = refl
      or_true false h = h

      true_or : (a b : ℕ) (c : Bool) → a ≡ b → ((a == b) || c) ≡ true
      true_or a b c h = ground arith

  pub add_reserves-Built :
      (without_supply : Bool) (done keys : List Pubkey) (index : ℕ) (mints : List Pubkey)
      (rs : List Reserve) {mints' : List Pubkey} {rs' : List Reserve}
      → index ≡ length mints
      → Built rt who l done mints rs
      → add_reserves rt l without_supply who keys index mints rs ≡ ok (mints', rs')
      → Built rt who l (done ++ keys) mints' rs'
  unfolding add_reserves
  add_reserves-Built without_supply done [] index mints rs count built h =
      subst (λ (t : List Pubkey × List Reserve). Built rt who l (done ++ []) t.0 t.1)
        (ok-injective h) (subst (λ ks. Built rt who l ks mints rs) (sym (++-nil done)) built)
  add_reserves-Built without_supply done (key ∷ keys) index mints rs {mints'} {rs'} count built h =
      let (x, c1, h1) = >>=-eq-ok (load_account rt l key) _ h in
      let (u2, c2, h2) = >>=-eq-ok (check_vault without_supply who mints x) _ h1 in
      let (u3, c3, h3) = >>=-eq-ok (assert (ltb index (length rs))) _ h2 in
      let r : Reserve = record { tokens = x.amount; mint = x.mint; vault = key } in
      let grown =
        subst (λ i. Built rt who l (done ++ key ∷ []) (x.mint ∷ mints) (set rs i r)) (sym count)
          (Built-next done mints rs key x r built (check_vault-Passed without_supply who mints x c2)
            (load_account-eq rt l key c1) refl (room index mints rs count (assert-eq-ok _ c3))) in
      subst (λ ks. Built rt who l ks mints' rs') (snoc-++ done key keys)
        (add_reserves-Built without_supply (done ++ key ∷ []) keys (index + 1) (x.mint ∷ mints)
          (set rs index r) (omega (arith, count)) grown h3)
    where
      room :
          (index : ℕ) (mints : List Pubkey) (rs : List Reserve)
          → index ≡ length mints
          → ltb index (length rs) ≡ true
          → length mints < length rs
      room index mints rs e h = ground arith

  -- A balance among filled reserves is in its vault.
  Filled-Holds :
      (k : Pubkey) (rs : List Reserve) (b : TokenAmount)
      → All (Filled rt who l) rs
      → balance k rs ≡ some b
      → (v : Pubkey) × (x : TokenAccount) × (vault_of k rs ≡ some v)
        × (rt.account l v ≡ some x)
        × (x.mint ≡ k)
        × (x.owner ≡ who)
        × (x.delegate ≡ none)
        × (x.close_authority ≡ none)
        × (b ≤ x.amount)
  Filled-Holds k [] b a h = cc
  Filled-Holds k (r ∷ rs) b (f, a) h = elim (Bool-cases (r.mint == k)) [
    | inl hit ↦
        let is : r.mint ≡ k = ground (arith, hit) in
        let same : r.tokens ≡ b = some-injective (rw hit at h) in
        (
          r.vault,
          f.account,
          rw hit refl,
          f.loaded,
          f.mint ∙ is,
          f.owner,
          f.delegate,
          f.close_authority,
          omega (arith, f.tokens, same),
        )
    | inr miss ↦
        let (v, x, listed, loaded, mint, owner, delegate, close, le) =
          Filled-Holds k rs b a (rw miss at h) in
        (v, x, rw miss listed, loaded, mint, owner, delegate, close, le)
  ]

  pub Built-Backed :
      (keys mints : List Pubkey) (p : Pool)
      → p.dimension ≡ length mints
      → Built rt who l keys mints p.reserves
      → IsValid p × Backed rt who p l × (map (λ r. r.vault) (active p) ≡ keys)
  Built-Backed keys mints p size built =
      let slice : take (length mints) p.reserves ≡ active p =
        ap (λ n. take n p.reserves) (sym size) in
      (
        record {
          capacity = omega (arith, built.fits, size);
          distinct = subst Distinct slice built.distinct;
        },
        λ k b h.
            let (v, x, listed, loaded, mint, owner, delegate, close, le) =
              Filled-Holds k (active p) b (subst (All (Filled rt who l)) slice built.filled) h in
            record {
              vault = v;
              account = x;
              listed = listed;
              loaded = loaded;
              mint = mint;
              owner = owner;
              delegate = delegate;
              close_authority = close;
              covered = le;
            },
        ap (map (λ z. z.vault)) (sym slice) ∙ built.vaults,
      )
