-- ===== src/Amm/Pool/Deposit/Least.antt =====
-- The least of the deposit ratios, `Iterator::min`.
use solana_amm.Base.{
  ℕ, ◌≤◌, ◌≡◌, inl, inr, List, [], ◌∷◌, arith, some, none, Option, some-injective, All,
  Option-cases, min,
}
use solana_amm.Amm.Pool.Deposit.{minimum}

minimum-none : (P : ℕ → Type 0) (ys : List ℕ) → minimum ys ≡ none → All P ys
unfolding minimum
minimum-none P [] h = tt
minimum-none P (y ∷ ys) h = elim (Option-cases (minimum ys)) [
  | inl e ↦ absurd (never (rw e at h))
  | inr (z, e) ↦ absurd (never (rw e at h))
]
  where
    never : {x : ℕ} → ◌≡◌ {A = Option ℕ} (some x) none → ⊥
    never h = cc

All-below : (x y : ℕ) (ys : List ℕ) → x ≤ y → All (λ z. y ≤ z) ys → All (λ z. x ≤ z) ys
All-below x y [] h a = tt
All-below x y (z ∷ ys) h a = (omega (arith, a.0), All-below x y ys h a.1)

pub minimum-All : (x : ℕ) (ys : List ℕ) → minimum ys ≡ some x → All (λ y. x ≤ y) ys
unfolding minimum
minimum-All x [] h = absurd cc
minimum-All x (y ∷ ys) h = elim (Option-cases (minimum ys)) [
  | inl e ↦ let same : y ≡ x = some-injective (rw e at h) in (omega arith, minimum-none _ ys e)
  | inr (z, e) ↦
      let same : min y z ≡ x = some-injective (rw e at h) in
      (omega arith, All-below x z ys (omega arith) (minimum-All z ys e))
]
