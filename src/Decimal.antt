-- ===== src/Decimal.antt =====
-- The crate `decimal`, which is not part of this repository: its fixed-point numbers are a
-- parameter of the programs. A value `Decimal(U192(…))` is its raw 192-bit number, which counts
-- units of 10^-18 (one WAD is 10^18), and the crate's order on values is that of the raw numbers.
-- `none` is an error of the crate.
pub mod Concrete
use solana_amm.Base.{ℕ, ◌+◌, ◌-◌, ◌*◌, ◌^◌, ◌≤◌, ◌<◌, ◌≡◌, Option, none, some}

abbrev pub wad : ℕ
wad = 1_000_000_000_000_000_000

-- One more than the greatest raw value.
abbrev pub u192_end : ℕ
u192_end = 2 ^ 192

pub record DecimalOps : Type 0 where
  -- `Decimal::from(u64)`, `Decimal::from_permillion`, `Decimal::from_scaled_val`
  pub from_u64 : ℕ → ℕ
  pub from_permillion : ℕ → ℕ
  pub from_scaled_val : ℕ → ℕ
  -- `Decimal::zero()`, `Decimal::one()`
  pub zero_dec : ℕ
  pub one : ℕ
  pub try_add : ℕ → ℕ → Option ℕ
  pub try_sub : ℕ → ℕ → Option ℕ
  pub try_mul : ℕ → ℕ → Option ℕ
  pub try_div : ℕ → ℕ → Option ℕ
  -- `TryDiv<u64>`
  pub try_div_u64 : ℕ → ℕ → Option ℕ
  pub try_pow : ℕ → ℕ → Option ℕ
  pub try_sqrt : ℕ → Option ℕ
  pub try_floor : ℕ → Option ℕ
  pub try_ceil : ℕ → Option ℕ
  pub try_round : ℕ → Option ℕ

-- What the programs rely on: conversions are exact, sums and differences that are returned are
-- exact and a difference is refused only below zero, products and quotients are rounded down at
-- the last decimal place, and `try_floor` and `try_ceil` return the adjacent whole number.
pub record DecimalLaws (d : DecimalOps) : Type 0 where
  pub from_u64-eq : (n : ℕ) → d.from_u64 n ≡ n * wad
  pub from_permillion-eq : (n : ℕ) → d.from_permillion n ≡ n * 1_000_000_000_000
  pub zero-eq : d.zero_dec ≡ 0
  pub one-eq : d.one ≡ wad
  pub add-eq : (a b c : ℕ) → d.try_add a b ≡ some c → c ≡ a + b
  pub sub-eq : (a b c : ℕ) → d.try_sub a b ≡ some c → c + b ≡ a
  pub sub-none : (a b : ℕ) → d.try_sub a b ≡ none → a < b
  pub mul-le : (a b c : ℕ) → d.try_mul a b ≡ some c → c * wad ≤ a * b
  pub mul-lt : (a b c : ℕ) → d.try_mul a b ≡ some c → a * b < c * wad + wad
  pub div-le : (a b c : ℕ) → d.try_div a b ≡ some c → c * b ≤ a * wad
  pub div-lt : (a b c : ℕ) → d.try_div a b ≡ some c → a * wad < c * b + b
  pub div_u64-le : (a n c : ℕ) → d.try_div_u64 a n ≡ some c → c * n ≤ a
  pub div_u64-lt : (a n c : ℕ) → d.try_div_u64 a n ≡ some c → a < c * n + n
  pub floor-le : (a n : ℕ) → d.try_floor a ≡ some n → n * wad ≤ a
  pub floor-lt : (a n : ℕ) → d.try_floor a ≡ some n → a < n * wad + wad
  pub ceil-le : (a n : ℕ) → d.try_ceil a ≡ some n → a ≤ n * wad
  pub ceil-lt : (a n : ℕ) → d.try_ceil a ≡ some n → n * wad < a + wad
