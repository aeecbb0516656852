-- ===== src/Amm/Pool/Reserves.antt =====
-- What changes through `reserve_mut` do to the reserves of a pool.
use solana_amm.Base.{
  ℕ, zero, suc, ◌+◌, ◌-◌, ◌≤◌, ◌<◌, ◌≡◌, ◌≢◌, inl, inr, refl, sym, ap, ◌∙◌, List, [], ◌∷◌, ◌++◌,
  Option, none, some, arith, length, take, drop, All, ok, ◌==◌, if◌then◌else◌, Bool-cases, le→leb,
  length-append, length-take, u64_end, >>=-eq-ok, ok-injective, some-injective, ==_false,
}
use solana_amm.BTree.{Pubkey}
use solana_amm.Amm.Err.{Res}
use solana_amm.Amm.Models.{TokenAmount}
use solana_amm.Amm.Pool.{
  Reserve, Pool, initialized, update_first, reserve_mut, add_tokens, remove_tokens,
}

abbrev pub active : Pool → List Reserve
active p = take p.dimension p.reserves

abbrev pub Distinct : List Reserve → Type 0
Distinct [] = Unit
Distinct (r ∷ rs) = All (λ s. s.mint ≢ r.mint) rs × Distinct rs

-- The slice of initialized reserves lies in the array, and each has a mint of its own.
pub record IsValid (p : Pool) : Type 0 where
  pub capacity : p.dimension ≤ length p.reserves
  pub distinct : Distinct (active p)

-- The balance of the first reserve of a mint.
abbrev pub balance : Pubkey → List Reserve → Option TokenAmount
balance k [] = none
balance k (r ∷ rs) = if r.mint == k then some r.tokens else balance k rs

-- The balance of the first reserve of a mint is changed.
unfoldable pub change : Pubkey → (ℕ → ℕ) → List Reserve → List Reserve
change k g [] = []
change k g (r ∷ rs) =
    if r.mint == k then record r { tokens = g r.tokens } ∷ rs else r ∷ change k g rs

-- The pool once its slice is changed.
abbrev pub with_active : Pool → List Reserve → Pool
with_active p rs = record p { reserves = rs ++ drop p.dimension p.reserves }

pub initialized-eq : (p : Pool) → IsValid p → initialized p ≡ ok (active p)
unfolding initialized
initialized-eq p v = rw (le→leb _ _ v.capacity)

pub length-change :
    (k : Pubkey) (g : ℕ → ℕ) (rs : List Reserve) → length (change k g rs) ≡ length rs
unfolding change
length-change k g [] = refl
length-change k g (r ∷ rs) = ground (arith, length-change k g rs)

All-change :
    (m k : Pubkey) (g : ℕ → ℕ) (rs : List Reserve)
    → All (λ s. s.mint ≢ m) rs
    → All (λ s. s.mint ≢ m) (change k g rs)
unfolding change
All-change m k g [] a = tt
All-change m k g (r ∷ rs) a = elim (Bool-cases (r.mint == k)) [
  | inl hit ↦ rw hit a
  | inr miss ↦ rw miss (a.0, All-change m k g rs a.1)
]

pub change-Distinct :
    (k : Pubkey) (g : ℕ → ℕ) (rs : List Reserve) → Distinct rs → Distinct (change k g rs)
unfolding change
change-Distinct k g [] d = tt
change-Distinct k g (r ∷ rs) d = elim (Bool-cases (r.mint == k)) [
  | inl hit ↦ rw hit d
  | inr miss ↦ rw miss (All-change r.mint k g rs d.0, change-Distinct k g rs d.1)
]

-- Changing a balance shows in that balance alone.
pub balance-change_ne :
    (j k : Pubkey) (g : ℕ → ℕ) (rs : List Reserve)
    → k ≢ j
    → balance j (change k g rs) ≡ balance j rs
unfolding change
balance-change_ne j k g [] ne = refl
balance-change_ne j k g (r ∷ rs) ne = elim (Bool-cases (r.mint == k)) [
  | inl hit ↦ rw (hit, ==_false r.mint j (ground arith))
  | inr miss ↦ rw (miss, balance-change_ne j k g rs ne)
]

pub balance-change_self :
    (k : Pubkey) (g : ℕ → ℕ) (rs : List Reserve) (b : ℕ)
    → balance k rs ≡ some b
    → balance k (change k g rs) ≡ some (g b)
unfolding change
balance-change_self k g [] b h = cc
balance-change_self k g (r ∷ rs) b h = elim (Bool-cases (r.mint == k)) [
  | inl hit ↦ rw (hit, hit, some-injective (rw hit at h))
  | inr miss ↦ rw (miss, miss) (balance-change_self k g rs b (rw miss at h))
]

-- An update that succeeds found the mint and changed its balance.
Updates : Pubkey → (ℕ → ℕ) → (ℕ → Type 0) → (Reserve → Res Reserve) → Type 0
Updates k g P f = (r s : Reserve) → f r ≡ ok s → (s ≡ record r { tokens = g r.tokens }) × P r.tokens

add_tokens-Updates :
    (k : Pubkey) (t : TokenAmount) → Updates k (λ n. n + t) (λ n. n + t < u64_end) (add_tokens t)
unfolding add_tokens Updates
add_tokens-Updates k t r s h = ground arith

remove_tokens-Updates :
    (k : Pubkey) (t : TokenAmount) → Updates k (λ n. n - t) (λ n. t ≤ n) (remove_tokens t)
unfolding remove_tokens Updates
remove_tokens-Updates k t r s h = ground arith

update_first-change :
    (k : Pubkey) (g : ℕ → ℕ) (P : ℕ → Type 0) (f : Reserve → Res Reserve) (rs ss : List Reserve)
    → Updates k g P f
    → update_first k f rs ≡ ok ss
    → (ss ≡ change k g rs) × ((b : ℕ) × (balance k rs ≡ some b) × P b)
unfolding update_first change Updates
update_first-change k g P f [] ss u h = cc
update_first-change k g P f (r ∷ rs) ss u h = elim (Bool-cases (r.mint == k)) [
  | inl hit ↦
      let (s, done, rest) = >>=-eq-ok (f r) _ (rw hit at h) in
      let (same, p) = u r s done in
      (rw hit (sym (ok-injective rest) ∙ ap (λ s. s ∷ rs) same), (r.tokens, rw hit, p))
  | inr miss ↦
      let (ss', done, rest) = >>=-eq-ok (update_first k f rs) _ (rw miss at h) in
      let (same, (b, there, p)) = update_first-change k g P f rs ss' u done in
      (rw miss (sym (ok-injective rest) ∙ ap (λ s. r ∷ s) same), (b, rw miss there, p))
]

take-append_exact : (xs ys : List Reserve) (n : ℕ) → length xs ≡ n → take n (xs ++ ys) ≡ xs
take-append_exact [] ys zero h = refl
take-append_exact [] ys (suc n) h = absurd (omega arith)
take-append_exact (x ∷ xs) ys zero h = absurd (omega arith)
take-append_exact (x ∷ xs) ys (suc n) h =
    ap (λ zs. x ∷ zs) (take-append_exact xs ys n (omega arith))

drop-append_exact : (xs ys : List Reserve) (n : ℕ) → length xs ≡ n → drop n (xs ++ ys) ≡ ys
drop-append_exact [] ys zero h = refl
drop-append_exact [] ys (suc n) h = absurd (omega arith)
drop-append_exact (x ∷ xs) ys zero h = absurd (omega arith)
drop-append_exact (x ∷ xs) ys (suc n) h = drop-append_exact xs ys n (omega arith)

-- The slice changed twice is the slice changed once, to what it was changed to last.
pub with_active_twice :
    (p : Pool) (rs ss : List Reserve)
    → length rs ≡ p.dimension
    → with_active (with_active p rs) ss ≡ with_active p ss
with_active_twice p rs ss h =
    ap (λ zs. record p { reserves = ss ++ zs })
      (drop-append_exact rs (drop p.dimension p.reserves) p.dimension h)

pub length-active : (p : Pool) → IsValid p → length (active p) ≡ p.dimension
length-active p v = omega (arith, length-take p.dimension p.reserves, v.capacity)

pub active-with_active :
    (p : Pool) (k : Pubkey) (g : ℕ → ℕ)
    → IsValid p
    → active (with_active p (change k g (active p))) ≡ change k g (active p)
active-with_active p k g v =
    take-append_exact (change k g (active p)) (drop p.dimension p.reserves) p.dimension
      (length-change k g (active p) ∙ length-active p v)

pub with_active-IsValid :
    (p : Pool) (k : Pubkey) (g : ℕ → ℕ)
    → IsValid p
    → IsValid (with_active p (change k g (active p)))
with_active-IsValid p k g v = record {
  capacity = omega (
    arith,
    length-append (change k g (active p)) (drop p.dimension p.reserves),
    length-change k g (active p),
    length-active p v,
  );
  distinct = rw (active-with_active p k g v) (change-Distinct k g (active p) v.distinct);
}

-- A successful change through `reserve_mut`.
reserve_mut-change :
    (k : Pubkey) (g : ℕ → ℕ) (P : ℕ → Type 0) (f : Reserve → Res Reserve) (p : Pool) {q : Pool}
    → IsValid p
    → Updates k g P f
    → reserve_mut k f p ≡ ok q
    → (q ≡ with_active p (change k g (active p)))
      × ((b : ℕ) × (balance k (active p) ≡ some b) × P b)
unfolding reserve_mut
reserve_mut-change k g P f p v u h =
    let (rs, sliced, h1) = >>=-eq-ok (initialized p) _ h in
    let (ss, done, h2) = >>=-eq-ok (update_first k f rs) _ h1 in
    let same : rs ≡ active p = ok-injective (sym sliced ∙ initialized-eq p v) in
    let (changed, found) = update_first-change k g P f (active p) ss u (rw same at done) in
    (sym (ok-injective h2) ∙ ap (with_active p) changed, found)

pub add_tokens-change :
    (k : Pubkey) (t : TokenAmount) (p : Pool) {q : Pool}
    → IsValid p
    → reserve_mut k (add_tokens t) p ≡ ok q
    → (q ≡ with_active p (change k (λ n. n + t) (active p)))
      × ((b : ℕ) × (balance k (active p) ≡ some b) × (b + t < u64_end))
add_tokens-change k t p v h = reserve_mut-change k _ _ (add_tokens t) p v (add_tokens-Updates k t) h

pub remove_tokens-change :
    (k : Pubkey) (t : TokenAmount) (p : Pool) {q : Pool}
    → IsValid p
    → reserve_mut k (remove_tokens t) p ≡ ok q
    → (q ≡ with_active p (change k (λ n. n - t) (active p)))
      × ((b : ℕ) × (balance k (active p) ≡ some b) × (t ≤ b))
remove_tokens-change k t p v h =
    reserve_mut-change k _ _ (remove_tokens t) p v (remove_tokens-Updates k t) h
