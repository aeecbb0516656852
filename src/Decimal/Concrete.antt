-- ===== src/Decimal/Concrete.antt =====
-- A concrete fixed-point arithmetic that meets `DecimalLaws`: products and quotients rounded
-- down, errors where a raw value or an intermediate one does not fit into 192 bits.
use solana_amm.Base.{
  ℕ, zero, suc, ◌+◌, ◌-◌, ◌*◌, ◌/◌, ◌^◌, ◌≤◌, ◌<◌, ◌≡◌, refl, Option, none, some, arith, ltb, leb,
  if◌then◌else◌, u64_end,
}
use solana_amm.Decimal.{wad, u192_end, DecimalOps, DecimalLaws}

abbrev fits : ℕ → ℕ → Option ℕ
fits bound n = if ltb n bound then some n else none

mul_raw : ℕ → ℕ → Option ℕ
mul_raw a b = if ltb (a * b) u192_end then some (a * b / wad) else none

div_raw : ℕ → ℕ → Option ℕ
div_raw a zero = none
div_raw a (suc b) = if ltb (a * wad) u192_end then some (a * wad / suc b) else none

div_u64_raw : ℕ → ℕ → Option ℕ
div_u64_raw a zero = none
div_u64_raw a (suc n) = some (a / suc n)

sub_raw : ℕ → ℕ → Option ℕ
sub_raw a b = if leb b a then some (a - b) else none

pow_raw : ℕ → ℕ → Option ℕ
unfolding mul_raw
pow_raw a zero = some wad
pow_raw a (suc n) = elim (pow_raw a n) [ none ↦ none | some b ↦ mul_raw b a ]

-- The greatest root found bit by bit.
root_below : ℕ → ℕ → ℕ → ℕ
root_below zero n r = r
root_below (suc k) n r = root_below k n (if leb ((r + 2 ^ k) * (r + 2 ^ k)) n then r + 2 ^ k else r)

add_raw : ℕ → ℕ → Option ℕ
add_raw a b = fits u192_end (a + b)

floor_raw : ℕ → Option ℕ
floor_raw a = fits u64_end (a / wad)

ceil_raw : ℕ → Option ℕ
ceil_raw a = fits u64_end ((a + (wad - 1)) / wad)

round_raw : ℕ → Option ℕ
round_raw a = fits u64_end ((a + wad / 2) / wad)

sqrt_raw : ℕ → Option ℕ
sqrt_raw a = some (root_below 126 (a * wad) 0)

unfoldable pub floored : DecimalOps
unfolding mul_raw div_raw div_u64_raw sub_raw pow_raw root_below add_raw floor_raw ceil_raw
    round_raw sqrt_raw
floored = record {
  from_u64 = λ n. n * wad;
  from_permillion = λ n. n * 1_000_000_000_000;
  from_scaled_val = λ n. n;
  zero_dec = 0;
  one = wad;
  try_add = add_raw;
  try_sub = sub_raw;
  try_mul = mul_raw;
  try_div = div_raw;
  try_div_u64 = div_u64_raw;
  try_pow = pow_raw;
  try_sqrt = sqrt_raw;
  try_floor = floor_raw;
  try_ceil = ceil_raw;
  try_round = round_raw;
}

div-mul-le : (x n c : ℕ) → x / suc n ≡ c → c * suc n ≤ x
div-mul-le x n c h = rw (← h) (omega arith)

lt-div-mul : (x n c : ℕ) → x / suc n ≡ c → x < c * suc n + suc n
lt-div-mul x n c h = rw (← h) (omega arith)

add_raw_lem : (a b c : ℕ) → add_raw a b ≡ some c → c ≡ a + b
unfolding add_raw
add_raw_lem a b c h = ground arith

sub_raw_lem : (a b c : ℕ) → sub_raw a b ≡ some c → c + b ≡ a
unfolding sub_raw
sub_raw_lem a b c h = ground arith

sub_raw-none : (a b : ℕ) → sub_raw a b ≡ none → a < b
unfolding sub_raw
sub_raw-none a b h = ground arith

mul_raw-le : (a b c : ℕ) → mul_raw a b ≡ some c → c * wad ≤ a * b
unfolding mul_raw
mul_raw-le a b c h = ground arith

mul_raw-lt : (a b c : ℕ) → mul_raw a b ≡ some c → a * b < c * wad + wad
unfolding mul_raw
mul_raw-lt a b c h = ground arith

div_raw-le : (a b c : ℕ) → div_raw a b ≡ some c → c * b ≤ a * wad
unfolding div_raw
div_raw-le a zero c h = cc
div_raw-le a (suc b) c h = ground (arith, div-mul-le (a * wad) b c)

div_raw-lt : (a b c : ℕ) → div_raw a b ≡ some c → a * wad < c * b + b
unfolding div_raw
div_raw-lt a zero c h = cc
div_raw-lt a (suc b) c h = ground (arith, lt-div-mul (a * wad) b c)

div_u64_raw-le : (a n c : ℕ) → div_u64_raw a n ≡ some c → c * n ≤ a
unfolding div_u64_raw
div_u64_raw-le a zero c h = cc
div_u64_raw-le a (suc n) c h = ground (arith, div-mul-le a n c)

div_u64_raw-lt : (a n c : ℕ) → div_u64_raw a n ≡ some c → a < c * n + n
unfolding div_u64_raw
div_u64_raw-lt a zero c h = cc
div_u64_raw-lt a (suc n) c h = ground (arith, lt-div-mul a n c)

floor_raw-le : (a n : ℕ) → floor_raw a ≡ some n → n * wad ≤ a
unfolding floor_raw
floor_raw-le a n h = ground arith

floor_raw-lt : (a n : ℕ) → floor_raw a ≡ some n → a < n * wad + wad
unfolding floor_raw
floor_raw-lt a n h = ground arith

ceil_raw-le : (a n : ℕ) → ceil_raw a ≡ some n → a ≤ n * wad
unfolding ceil_raw
ceil_raw-le a n h = ground arith

ceil_raw-lt : (a n : ℕ) → ceil_raw a ≡ some n → n * wad < a + wad
unfolding ceil_raw
ceil_raw-lt a n h = ground arith

pub floored_laws : DecimalLaws floored
unfolding floored
floored_laws = record {
  from_u64-eq = λ n. refl;
  from_permillion-eq = λ n. refl;
  zero-eq = refl;
  one-eq = refl;
  add-eq = add_raw_lem;
  sub-eq = sub_raw_lem;
  sub-none = sub_raw-none;
  mul-le = mul_raw-le;
  mul-lt = mul_raw-lt;
  div-le = div_raw-le;
  div-lt = div_raw-lt;
  div_u64-le = div_u64_raw-le;
  div_u64-lt = div_u64_raw-lt;
  floor-le = floor_raw-le;
  floor-lt = floor_raw-lt;
  ceil-le = ceil_raw-le;
  ceil-lt = ceil_raw-lt;
}
