-- ===== src/Amm/Math/Exact.antt =====
-- `fold_product` in `programs/amm/src/math/helpers.rs`, on whole numbers.
use solana_amm.Base.{
  ℕ, ◌*◌, ◌≡◌, ap, List, [], ◌∷◌, map, arith, some, ok, try_fold, lift, ok-injective, >>=-eq-ok,
  lift-eq-ok,
}
use solana_amm.Decimal.{wad, DecimalOps, DecimalLaws}
use solana_amm.Amm.Err.{AmmError}
use solana_amm.Amm.Math.Helpers.{fold_product}

abbrev pub product : List ℕ → ℕ
product [] = 1
product (x ∷ xs) = x * product xs

module _ (dec : DecimalOps) (laws : DecimalLaws dec) where
  open dec use {from_u64, one, try_mul}

  pub mul_exact : (a b c : ℕ) → try_mul (a * wad) (from_u64 b) ≡ some c → c ≡ a * b * wad
  mul_exact a b c h = omega (
    arith,
    laws.mul-le (a * wad) (from_u64 b) c h,
    laws.mul-lt (a * wad) (from_u64 b) c h,
    ap (λ (t : ℕ). a * wad * t) (laws.from_u64-eq b),
  )

  fold_product_from :
      (n : ℕ) (xs : List ℕ) {c : ℕ}
      → try_fold {E = AmmError} (λ acc el. lift (try_mul acc el)) (n * wad) (map from_u64 xs) ≡ ok c
      → c ≡ n * product xs * wad
  fold_product_from n [] h = omega (arith, ok-injective h)
  fold_product_from n (x ∷ xs) h =
      let (p, first, rest) = >>=-eq-ok (lift (try_mul (n * wad) (from_u64 x))) _ h in
      let exact = mul_exact n x p (lift-eq-ok _ first) in
      omega (arith, fold_product_from (n * x) xs (rw exact at rest))

  -- A product of whole numbers that `fold_product` returns is their exact product.
  pub fold_product_lem :
      (xs : List ℕ) {c : ℕ} → fold_product dec (map from_u64 xs) ≡ ok c → c ≡ product xs * wad
  unfolding fold_product
  fold_product_lem xs h = omega (arith, fold_product_from 1 xs (rw laws.one-eq at h))
