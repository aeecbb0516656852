-- ===== src/Amm/Math/Helpers.antt =====
-- `programs/amm/src/math/helpers.rs`.
use solana_amm.Base.{
  ℕ, zero, suc, ◌+◌, ◌-◌, ◌*◌, ◌/◌, ◌%◌, ◌^◌, min, Option, none, some, List, ltb, leb, ◌==◌,
  if◌then◌else◌, ok, err, panicked, ◌>>=◌, lift, try_fold,
}
use solana_amm.Decimal.{DecimalOps}
use solana_amm.Amm.Err.{Res}

pub record ScaleDownOutput : Type 0 where
  pub scale_down : ℕ
  pub exponent : ℕ

-- `leading_zeros` of a number below 2 ^ w.
unfoldable pub leading_zeros : ℕ → ℕ → ℕ
leading_zeros zero n = 0
leading_zeros (suc w) n = if ltb n (2 ^ w) then leading_zeros w n + 1 else 0

-- The limbs of `U192([lowest, middle, upper])` have 64 bits each.
unfoldable pub integer_leading_zeros : ℕ → ℕ
integer_leading_zeros num =
    let lowest = num % 2 ^ 64 in
    let middle = num / 2 ^ 64 % 2 ^ 64 in
    let upper = num / 2 ^ 128 in
    let leading_zeroes =
      if upper == 0
      then if middle == 0
        then min (leading_zeros 64 lowest) 4 + 64 + 64
        else leading_zeros 64 middle + 64
      else leading_zeros 64 upper in
    let max_exponent : ℕ = 3 * 64 - 60 in max_exponent - leading_zeroes

module _ (dec : DecimalOps) where
  open dec use {from_u64, zero_dec, one, try_add, try_mul, try_div}

  unfoldable pub fold_product : List ℕ → Res ℕ
  fold_product values = try_fold (λ acc el. lift (try_mul acc el)) one values

  unfoldable pub fold_sum : List ℕ → Res ℕ
  fold_sum values = try_fold (λ acc el. lift (try_add acc el)) zero_dec values

  -- The `while` loop, on fuel: `none` means that the fuel ran out.
  unfoldable pub scale_down_loop : ℕ → ℕ → ℕ → Option (Res ScaleDownOutput)
  scale_down_loop zero val n = none
  scale_down_loop (suc fuel) val n =
      let continue : Option (Res ScaleDownOutput) = elim (try_div val (from_u64 1000)) [
        | none ↦ some (lift none)
        | some v ↦ scale_down_loop fuel v (n + 1)
      ] in
      if ltb (from_u64 1000) val
      then continue
      else some (ok (record { scale_down = val; exponent = n }))

  -- A 192-bit number is divided by 1000 at most 13 times.
  unfoldable pub scale_down_value : ℕ → Res ScaleDownOutput
  scale_down_value val = elim (scale_down_loop 20 val 0) [ none ↦ err panicked | some r ↦ r ]

  -- `a.try_mul(b)?.try_div(c)` and `a.try_div(c)?.try_mul(b)`
  abbrev pub mul_then_div : ℕ → ℕ → ℕ → Res ℕ
  mul_then_div a b c = do ab ← lift (try_mul a b); lift (try_div ab c)

  abbrev pub div_then_mul : ℕ → ℕ → ℕ → Res ℕ
  div_then_mul a b c = do ac ← lift (try_div a c); lift (try_mul ac b)

  unfoldable pub try_mul_div : ℕ → ℕ → ℕ → Res ℕ
  try_mul_div a b c =
      let a_lz = integer_leading_zeros a in
      let b_lz = integer_leading_zeros b in
      if ltb c one
      then mul_then_div a b c
      else if leb 130 (a_lz + b_lz)
      then if leb b_lz a_lz then div_then_mul a b c else div_then_mul b a c
      else mul_then_div a b c
