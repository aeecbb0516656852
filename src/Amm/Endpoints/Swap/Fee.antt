-- ===== src/Amm/Endpoints/Swap/Fee.antt =====
-- The fee of a swap: `calculate_swap_fee`.
use native.Mathlib.Nat.{mul-le-mul_left, mul-le-mul_right}
use solana_amm.Base.{
  ℕ, ◌+◌, ◌-◌, ◌*◌, ◌≤◌, ◌<◌, ◌≡◌, ◌⊎◌, inl, inr, Option, none, some, arith, ok, leb, Bool-cases,
  if◌then◌else◌, >>=-eq-ok, ok-injective, lift-eq-ok, lift, ap, sym, ◌∙◌, subst,
}
use solana_amm.Decimal.{wad, DecimalOps, DecimalLaws}
use solana_amm.Amm.Err.{Res}
use solana_amm.Amm.Models.{TokenAmount, Slot, Permillion, Discount, does_apply}
use solana_amm.Amm.Endpoints.Swap.{discounted_share, calculate_swap_fee}

-- The share of the fee that is not charged.
unfoldable pub discount_in_force : Slot → Option Discount → Permillion
discount_in_force time none = 0
discount_in_force time (some d) = if does_apply time d then d.amount else 0

-- A fee of `share` millionths, less `discount` millionths of it, in units of 10^-12.
abbrev pub exact_fee : TokenAmount → Permillion → Permillion → ℕ
exact_fee sell share discount = sell * (share * (1_000_000 - discount))

cut_exact :
    (f d cut : ℕ)
    → cut * wad ≤ (f * 1_000_000_000_000) * (d * 1_000_000_000_000)
    → (f * 1_000_000_000_000) * (d * 1_000_000_000_000) < cut * wad + wad
    → cut ≡ f * d * 1_000_000
cut_exact f d cut h h' = omega arith

product_exact :
    (sell share e : ℕ)
    → e * wad ≤ (sell * wad) * share
    → (sell * wad) * share < e * wad + wad
    → e ≡ sell * share
product_exact sell share e h h' = omega arith

left_over :
    (f d share : ℕ)
    → share + f * d * 1_000_000 ≡ f * 1_000_000_000_000
    → share ≡ f * (1_000_000 - d) * 1_000_000
left_over f d share h = elim (le_or_lt d 1_000_000) [
  | inl le ↦
      let split : f * (1_000_000 - d) + f * d ≡ f * 1_000_000 = distributed f d 1_000_000 le in
      omega arith
  | inr lt ↦
      let wide : f * 1_000_001 ≤ f * d = mul-le-mul_left f lt in
      let none_left : 1_000_000 - d ≡ 0 = omega arith in
      let nothing : share ≡ 0 = omega arith in rw (none_left, nothing) (omega arith)
]
  where
    le_or_lt : (a b : ℕ) → (a ≤ b) ⊎ (b < a)
    le_or_lt a b = elim (Bool-cases (leb a b)) [
      | inl below ↦ inl (ground arith)
      | inr above ↦ inr (ground arith)
    ]

    distributed : (f d n : ℕ) → d ≤ n → f * (n - d) + f * d ≡ f * n
    distributed f d n le =
        let whole : (n - d) + d ≡ n = omega arith in
        let spread : f * ((n - d) + d) ≡ f * (n - d) + f * d = omega arith in
        sym spread ∙ ap (λ z. f * z) whole

module _ (dec : DecimalOps) (laws : DecimalLaws dec) where
  open dec use {from_u64, from_permillion, try_sub, try_mul, try_ceil}

  undiscounted :
      (f : Permillion) {share : ℕ}
      → ◌≡◌ {A = Res ℕ} (ok (from_permillion f)) (ok share)
      → share ≡ f * (1_000_000 - 0) * 1_000_000
  undiscounted f h = omega (arith, laws.from_permillion-eq f, ok-injective h)

  discounted_share-eq :
      (time : Slot) (f : Permillion) (o : Option Discount) {share : ℕ}
      → discounted_share dec time f o ≡ ok share
      → share ≡ f * (1_000_000 - discount_in_force time o) * 1_000_000
  unfolding discounted_share discount_in_force
  discounted_share-eq time f none h = undiscounted f h
  discounted_share-eq time f (some d) {share} h = elim (Bool-cases (does_apply time d)) [
    | inl on ↦
        let (cut, c1, h1) =
          >>=-eq-ok (lift (try_mul (from_permillion f) (from_permillion d.amount))) _
            (rw on at h) in
        rw on (cut_share f d.amount cut share (lift-eq-ok _ c1) (lift-eq-ok _ h1))
    | inr off ↦ rw off (undiscounted f (rw off at h))
  ]
    where
      cut_share :
          (f d cut share : ℕ)
          → try_mul (from_permillion f) (from_permillion d) ≡ some cut
          → try_sub (from_permillion f) cut ≡ some share
          → share ≡ f * (1_000_000 - d) * 1_000_000
      cut_share f d cut share m s =
          let fe = laws.from_permillion-eq f in
          let de = laws.from_permillion-eq d in
          let low : cut * wad ≤ (f * 1_000_000_000_000) * (d * 1_000_000_000_000) =
            subst (λ z. cut * wad ≤ z * (d * 1_000_000_000_000)) fe
              (subst (λ z. cut * wad ≤ from_permillion f * z) de (laws.mul-le _ _ cut m)) in
          let high : (f * 1_000_000_000_000) * (d * 1_000_000_000_000) < cut * wad + wad =
            subst (λ z. z * (d * 1_000_000_000_000) < cut * wad + wad) fe
              (subst (λ z. from_permillion f * z < cut * wad + wad) de (laws.mul-lt _ _ cut m)) in
          let exact = cut_exact f d cut low high in
          left_over f d share (omega (arith, laws.sub-eq _ _ share s, fe, exact))

  -- The fee is the exact fee rounded up to a whole token, with the discount that applies at the
  -- time; so a fee of no more than the whole is covered by the tokens that are sold.
  pub calculate_swap_fee_lem :
      (time : Slot) (sell : TokenAmount) (share : Permillion) (o : Option Discount)
      {fee : TokenAmount}
      → calculate_swap_fee dec time sell share o ≡ ok fee
      → let exact = exact_fee sell share (discount_in_force time o) in
        (exact ≤ fee * 1_000_000_000_000)
        × (fee * 1_000_000_000_000 < exact + 1_000_000_000_000)
        × (share ≤ 1_000_000 → fee ≤ sell)
  unfolding calculate_swap_fee
  calculate_swap_fee_lem time sell f o {fee} h =
      let (share, c1, h1) = >>=-eq-ok (discounted_share dec time f o) _ h in
      let (e, c2, h2) = >>=-eq-ok (lift (try_mul (from_u64 sell) share)) _ h1 in
      rounded sell f (discount_in_force time o) share e fee (discounted_share-eq time f o c1)
        (lift-eq-ok _ c2) (lift-eq-ok _ h2)
    where
      regroup : (a b : ℕ) → a * (b * 1_000_000) ≡ a * b * 1_000_000
      regroup a b = omega arith

      covered :
          (sell f d fee : ℕ)
          → f ≤ 1_000_000
          → fee * 1_000_000_000_000 < exact_fee sell f d + 1_000_000_000_000
          → fee ≤ sell
      covered sell f d fee le high =
          let part : 1_000_000 - d ≤ 1_000_000 = omega arith in
          let share : f * (1_000_000 - d) ≤ f * 1_000_000 = mul-le-mul_left f part in
          let share' : f * 1_000_000 ≤ 1_000_000 * 1_000_000 = mul-le-mul_right 1_000_000 le in
          let all : sell * (f * (1_000_000 - d)) ≤ sell * (1_000_000 * 1_000_000) =
            mul-le-mul_left sell (omega arith) in
          omega arith

      rounded :
          (sell f d share e fee : ℕ)
          → share ≡ f * (1_000_000 - d) * 1_000_000
          → try_mul (from_u64 sell) share ≡ some e
          → try_ceil e ≡ some fee
          → (exact_fee sell f d ≤ fee * 1_000_000_000_000)
            × (fee * 1_000_000_000_000 < exact_fee sell f d + 1_000_000_000_000)
            × (f ≤ 1_000_000 → fee ≤ sell)
      rounded sell f d share e fee is m c =
          let se = laws.from_u64-eq sell in
          let product =
            product_exact sell share e (subst (λ z. e * wad ≤ z * share) se (laws.mul-le _ _ e m))
              (subst (λ z. z * share < e * wad + wad) se (laws.mul-lt _ _ e m)) in
          let whole : e ≡ exact_fee sell f d * 1_000_000 =
            product ∙ ap (λ z. sell * z) is ∙ regroup sell (f * (1_000_000 - d)) in
          let low : exact_fee sell f d ≤ fee * 1_000_000_000_000 =
            omega (arith, laws.ceil-le e fee c, whole) in
          let high : fee * 1_000_000_000_000 < exact_fee sell f d + 1_000_000_000_000 =
            omega (arith, laws.ceil-lt e fee c, whole) in
          (low, high, λ le. covered sell f d fee le high)
