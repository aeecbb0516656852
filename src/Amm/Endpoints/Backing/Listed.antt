-- ===== src/Amm/Endpoints/Backing/Listed.antt =====
-- The pairs of a deposit: every reserve's mint is that of a pair.
use solana_amm.Base.{
  ℕ, ◌≤◌, ◌≡◌, ◌≢◌, inl, inr, refl, sym, ap, subst, ◌∙◌, some, none, Bool, true, false, List, [],
  ◌∷◌, arith, All, suc, length, any, ◌==◌, ◌||◌, if◌then◌else◌, Bool-cases, ==_refl, ==_false,
}
use solana_amm.BTree.{Pubkey, BTreeMap, get}
use solana_amm.Runtime.{Runtime}
use solana_amm.Runtime.Vaults.{only}
use solana_amm.Amm.Models.{TokenAmount}
use solana_amm.Amm.Pool.{Reserve}
use solana_amm.Amm.Pool.Reserves.{Distinct}
use solana_amm.Amm.Endpoints.Backing.{vault_of}
use solana_amm.Amm.Endpoints.Backing.Mints.{Pair, NoneTwice, vault_mints}
use solana_amm.Amm.Endpoints.Backing.Pairs.{amount_of, paid_by}

-- `k` is in the list.
abbrev pub is_in : Pubkey → List Pubkey → Bool
is_in k [] = false
is_in k (j ∷ js) = (j == k) || is_in k js

-- The list without the first `k`.
without : Pubkey → List Pubkey → List Pubkey
without k [] = []
without k (j ∷ js) = if j == k then js else j ∷ without k js

length-without :
    (k : Pubkey) (js : List Pubkey) → is_in k js ≡ true → length js ≡ suc (length (without k js))
unfolding without
length-without k [] h = cc
length-without k (j ∷ js) h = elim (Bool-cases (j == k)) [
  | inl hit ↦ rw hit refl
  | inr miss ↦ rw miss (ap suc (length-without k js (rw miss at h)))
]

is_in-without :
    (i k : Pubkey) (js : List Pubkey) → i ≢ k → is_in i js ≡ true → is_in i (without k js) ≡ true
unfolding without
is_in-without i k [] ne h = cc
is_in-without i k (j ∷ js) ne h = elim (Bool-cases (j == k)) [
  | inl hit ↦ let off : (j == i) ≡ false = ground (arith, hit) in rw hit (rw off at h)
  | inr miss ↦ elim (Bool-cases (j == i)) [
    | inl mine ↦ rw (miss, mine) refl
    | inr other ↦ rw (miss, other) (is_in-without i k js ne (rw other at h))
  ]
]

each_stays_in :
    (k : Pubkey) (ks js : List Pubkey)
    → All (λ i. i ≢ k) ks
    → All (λ i. is_in i js ≡ true) ks
    → All (λ i. is_in i (without k js) ≡ true) ks
each_stays_in k [] js a b = tt
each_stays_in k (i ∷ ks) js (ne, a) (h, b) = (is_in-without i k js ne h, each_stays_in k ks js a b)

-- As many different keys as the list is long, all of them in it, leave none out.
pub covers :
    (ks js : List Pubkey) (k : Pubkey)
    → NoneTwice ks
    → All (λ i. is_in i js ≡ true) ks
    → length js ≡ length ks
    → is_in k js ≡ true
    → is_in k ks ≡ true
covers [] [] k d a e h = cc
covers [] (j ∷ js) k d a e h = absurd (omega arith)
covers (i ∷ ks) js k (off, d) (here, a) e h = elim (Bool-cases (i == k)) [
  | inl hit ↦ rw hit refl
  | inr miss ↦
      let ne : k ≢ i = λ s. differ i k miss (sym s) in
      rw miss (
        covers ks (without i js) k d (each_stays_in i ks js off a)
          (omega (arith, length-without i js here)) (is_in-without k i js ne h))
]
  where
    differ : (a b : ℕ) → (a == b) ≡ false → a ≢ b
    differ a b h = ground arith

-- The mints of the reserves.
abbrev pub mints_of : List Reserve → List Pubkey
mints_of [] = []
mints_of (r ∷ rs) = r.mint ∷ mints_of rs

pub length-mints_of : (rs : List Reserve) → length (mints_of rs) ≡ length rs
length-mints_of [] = refl
length-mints_of (r ∷ rs) = ap suc (length-mints_of rs)

pub vault_of-is_in :
    (k : Pubkey) (rs : List Reserve) {v : Pubkey}
    → vault_of k rs ≡ some v
    → is_in k (mints_of rs) ≡ true
vault_of-is_in k [] h = cc
vault_of-is_in k (r ∷ rs) h = elim (Bool-cases (r.mint == k)) [
  | inl hit ↦ rw hit refl
  | inr miss ↦ rw miss (vault_of-is_in k rs (rw miss at h))
]

none≢some : {A : Type 0} {a : A} → none ≡ some a → ⊥
none≢some h = cc

vault_of-absent : (k : Pubkey) (rs : List Reserve) → All (λ s. s.mint ≢ k) rs → vault_of k rs ≡ none
vault_of-absent k [] a = refl
vault_of-absent k (r ∷ rs) (ne, a) = rw (==_false r.mint k ne) (vault_of-absent k rs a)

-- A vault that some reserve lists is the vault of that reserve's mint.
pub listed-vault_of :
    (rs : List Reserve) (key : Pubkey)
    → Distinct rs
    → any (λ r. r.vault == key) rs ≡ true
    → (k : Pubkey) × (vault_of k rs ≡ some key)
listed-vault_of [] key d h = cc
listed-vault_of (r ∷ rs) key (off, d) h = elim (Bool-cases (r.vault == key)) [
  | inl hit ↦ (r.mint, first r rs key hit)
  | inr miss ↦ let (k, e) = listed-vault_of rs key d (rw miss at h) in (k, later r rs k off e)
]
  where
    first :
        (r : Reserve) (rs : List Reserve) (key : Pubkey)
        → (r.vault == key) ≡ true
        → vault_of r.mint (r ∷ rs) ≡ some key
    first r rs key hit =
        let same : r.vault ≡ key = ground (arith, hit) in rw (==_refl r.mint) (ap some same)

    later :
        (r : Reserve) (rs : List Reserve) (k : Pubkey) {key : Pubkey}
        → All (λ s. s.mint ≢ r.mint) rs
        → vault_of k rs ≡ some key
        → vault_of k (r ∷ rs) ≡ some key
    later r rs k off e = elim (Bool-cases (r.mint == k)) [
      | inl hit ↦
          let is : r.mint ≡ k = ground (arith, hit) in
          absurd (
            none≢some
              (sym (vault_of-absent k rs (subst (λ m. All (λ s. s.mint ≢ m) rs) is off)) ∙ e))
      | inr miss ↦ rw miss e
    ]

module _ (rt : Runtime) (l : rt.Ledger) (amounts : BTreeMap TokenAmount) where
  -- A mint of a pair is paid into the vault of that mint, if the pair's vault is it.
  pub paid_by-is_in :
      (ps : List Pair) (k v : Pubkey)
      → is_in k (vault_mints ps) ≡ true
      → All (λ (p : Pair). p.0.1.mint ≡ k → p.0.0 ≡ v) ps
      → amount_of (get k amounts) ≤ paid_by amounts ps v
  paid_by-is_in [] k v h a = cc
  paid_by-is_in ((vault, wallet) ∷ ps) k v h (here, a) = elim (Bool-cases (vault.1.mint == k)) [
    | inl hit ↦
        let is : vault.1.mint ≡ k = ground (arith, hit) in
        let same : amount_of (get vault.1.mint amounts) ≡ amount_of (get k amounts) =
          ap (λ i. amount_of (get i amounts)) is in
        omega (arith, all_of vault.0 (amount_of (get vault.1.mint amounts)) v (here is), same)
    | inr miss ↦ omega (arith, paid_by-is_in ps k v (rw miss at h) a)
  ]
    where
      all_of : (j n k : ℕ) → j ≡ k → n ≤ only j n k
      all_of j n k same = ground arith
