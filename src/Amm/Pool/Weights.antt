-- ===== src/Amm/Pool/Weights.antt =====
-- Products over the reserves of a pool and over the map that is collected from them.
use native.Mathlib.Nat.{mul_assoc, mul_left_comm}
use solana_amm.Base.{
  ℕ, ◌*◌, ◌≡◌, ◌≢◌, inl, inr, refl, sym, ap, subst, ◌∙◌, List, [], ◌∷◌, map, Option, none, some,
  arith, All, ◌==◌, true, false, if◌then◌else◌, Bool-cases, some-injective, ==_false,
}
use solana_amm.BTree.{Pubkey, BTreeMap, get, insert, collect, collect_onto}
use solana_amm.BTree.Laws.{get-insert}
use solana_amm.Amm.Models.{TokenAmount}
use solana_amm.Amm.Pool.{Reserve, entry}
use solana_amm.Amm.Pool.Reserves.{Distinct, balance, change}

abbrev pub Weight : Type 0
Weight = Pubkey → TokenAmount → ℕ

-- The product of the weights of the reserves, and of the entries of a map.
abbrev pub weighted : Weight → List Reserve → ℕ
weighted w [] = 1
weighted w (r ∷ rs) = w r.mint r.tokens * weighted w rs

abbrev pub weighted_map : Weight → BTreeMap TokenAmount → ℕ
weighted_map w [] = 1
weighted_map w ((k, v) ∷ m) = w k v * weighted_map w m

module _ (w : Weight) where
  weighted_map-insert :
      (k : Pubkey) (v : TokenAmount) (m : BTreeMap TokenAmount)
      → get k m ≡ none
      → weighted_map w (insert k v m) ≡ w k v * weighted_map w m
  weighted_map-insert k v [] h = refl
  weighted_map-insert k v ((j, x) ∷ m) h = elim (Bool-cases (j == k)) [
    | inl hit ↦ absurd (found (rw hit at h))
    | inr miss ↦
        let rest = weighted_map-insert k v m (rw miss at h) in
        ground
          (arith, rest, ap (λ t. w j x * t) rest, mul_left_comm (w j x) (w k v) (weighted_map w m))
  ]
    where
      found : ◌≡◌ {A = Option TokenAmount} (some x) none → ⊥
      found h = cc

-- No reserve of the list has its mint in the map.
abbrev Unused : BTreeMap TokenAmount → List Reserve → Type 0
Unused m rs = All (λ r. get r.mint m ≡ none) rs

Unused-insert :
    (k : Pubkey) (v : TokenAmount) (m : BTreeMap TokenAmount) (rs : List Reserve)
    → All (λ s. s.mint ≢ k) rs
    → Unused m rs
    → Unused (insert k v m) rs
Unused-insert k v m [] a u = tt
Unused-insert k v m (r ∷ rs) a u = (
  rw (get-insert r.mint k v m, ==_false k r.mint (λ e. a.0 (sym e))) u.0,
  Unused-insert k v m rs a.1 u.1,
)

Unused-empty : (rs : List Reserve) → Unused [] rs
Unused-empty [] = tt
Unused-empty (r ∷ rs) = (refl, Unused-empty rs)

weighted-collect_onto :
    (w : Weight) (m : BTreeMap TokenAmount) (rs : List Reserve)
    → Distinct rs
    → Unused m rs
    → weighted_map w (collect_onto m (map entry rs)) ≡ weighted w rs * weighted_map w m
unfolding entry
weighted-collect_onto w m [] d u = omega arith
weighted-collect_onto w m (r ∷ rs) d u = rw (
  weighted-collect_onto w (insert r.mint r.tokens m) rs d.1
      (Unused-insert r.mint r.tokens m rs d.0 u.1),
  weighted_map-insert w r.mint r.tokens m u.0,
  mul_left_comm (weighted w rs) (w r.mint r.tokens) (weighted_map w m),
  mul_assoc,
)

-- Collecting reserves of distinct mints keeps every product.
pub weighted-collect :
    (w : Weight) (rs : List Reserve)
    → Distinct rs
    → weighted_map w (collect (map entry rs)) ≡ weighted w rs
weighted-collect w rs d = weighted-collect_onto w [] rs d (Unused-empty rs) ∙ omega arith

pub weighted-ext :
    (w w' : Weight) (rs : List Reserve)
    → ((k : Pubkey) (v : TokenAmount) → w k v ≡ w' k v)
    → weighted w rs ≡ weighted w' rs
weighted-ext w w' [] h = refl
weighted-ext w w' (r ∷ rs) h = rw (h r.mint r.tokens, weighted-ext w w' rs h)

-- Weights that agree off one mint have one product over reserves without the mint.
weighted-agree :
    (w w' : Weight) (k : Pubkey) (rs : List Reserve)
    → All (λ s. s.mint ≢ k) rs
    → ((j : Pubkey) (v : TokenAmount) → (j == k) ≡ false → w j v ≡ w' j v)
    → weighted w rs ≡ weighted w' rs
weighted-agree w w' k [] a h = refl
weighted-agree w w' k (r ∷ rs) a h =
    rw (h r.mint r.tokens (==_false r.mint k a.0), weighted-agree w w' k rs a.1 h)

abbrev pub with_change : Pubkey → (ℕ → ℕ) → Weight → Weight
with_change k g w j v = if j == k then w j (g v) else w j v

abbrev pub except : Pubkey → Weight → Weight
except k w j v = if j == k then 1 else w j v

-- A change of a balance is a change of the weights.
pub weighted-change :
    (w : Weight) (k : Pubkey) (g : ℕ → ℕ) (rs : List Reserve)
    → Distinct rs
    → weighted w (change k g rs) ≡ weighted (with_change k g w) rs
unfolding change
weighted-change w k g [] d = refl
weighted-change w k g (r ∷ rs) d = elim (Bool-cases (r.mint == k)) [
  | inl hit ↦
      rw (
        hit,
        weighted-agree (with_change k g w) w r.mint rs d.0 (λ j v ne. ground (arith, ne, hit)),
      )
  | inr miss ↦ rw (miss, weighted-change w k g rs d.1)
]

-- The factor of one mint, taken out.
pub weighted-except :
    (w : Weight) (k : Pubkey) (rs : List Reserve) (b : TokenAmount)
    → Distinct rs
    → balance k rs ≡ some b
    → weighted w rs ≡ w k b * weighted (except k w) rs
weighted-except w k [] b d h = absurd cc
weighted-except w k (r ∷ rs) b d h = elim (Bool-cases (r.mint == k)) [
  | inl hit ↦
      rw
        (
          hit,
          weighted-agree (except k w) w r.mint rs d.0 (λ j v ne. ground (arith, ne, hit)),
          sym (some-injective (rw hit at h)),
          sym (==-eq r.mint k hit),
        )
        (omega arith)
  | inr miss ↦
      rw (miss, weighted-except w k rs b d.1 (rw miss at h))
        (mul_left_comm (w r.mint r.tokens) (w k b) (weighted (except k w) rs))
]
  where
    ==-eq : (a b : ℕ) → (a == b) ≡ true → a ≡ b
    ==-eq a b h = ground arith

or_else : Option TokenAmount → Option TokenAmount → Option TokenAmount
or_else none o = o
or_else (some b) o = some b

or_else-none : (o : Option TokenAmount) → or_else o none ≡ o
unfolding or_else
or_else-none none = refl
or_else-none (some b) = refl

balance_absent : (k : Pubkey) (rs : List Reserve) → All (λ s. s.mint ≢ k) rs → balance k rs ≡ none
balance_absent k [] a = refl
balance_absent k (s ∷ rs) a = rw (==_false s.mint k a.0) (balance_absent k rs a.1)

get-collect_onto :
    (k : Pubkey) (m : BTreeMap TokenAmount) (rs : List Reserve)
    → Distinct rs
    → get k (collect_onto m (map entry rs)) ≡ or_else (balance k rs) (get k m)
unfolding entry or_else
get-collect_onto k m [] d = refl
get-collect_onto k m (r ∷ rs) d = elim (Bool-cases (r.mint == k)) [
  | inl hit ↦ rw (
    get-collect_onto k (insert r.mint r.tokens m) rs d.1,
    get-insert k r.mint r.tokens m,
    hit,
    balance_absent k rs (subst (λ j. All (λ s. s.mint ≢ j) rs) (ground (arith, hit)) d.0),
  )
  | inr miss ↦
      rw
        (get-collect_onto k (insert r.mint r.tokens m) rs d.1, get-insert k r.mint r.tokens m, miss)
]

-- The map of a pool's reserves holds the balance of every mint.
pub get-collect :
    (k : Pubkey) (rs : List Reserve) → Distinct rs → get k (collect (map entry rs)) ≡ balance k rs
get-collect k rs d = get-collect_onto k [] rs d ∙ or_else-none (balance k rs)
