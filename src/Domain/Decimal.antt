-- ===== src/Domain/Decimal.antt =====
-- github.com/shopspring/decimal and Go's float64, as far as the modelled code calls them. Neither is
-- code of the repository: their operations are fields of `Numerics`, an argument of every
-- definition that computes with them, and what the code relies on is the record `IsExact`.
use envoy_trade.Common.{ℕ, ◌+◌, ◌*◌, ◌/◌, ◌^◌, ◌≤◌, ◌<◌, ◌≡◌, Bool, ℤ, pos}

-- A decimal is `coeff * 10 ^ exp`, the library's documented representation.
pub record Decimal : Type 0 where
  pub coeff : ℤ
  pub exp : ℤ

-- A float64 by its bit pattern.
abbrev pub Float64 : Type 0
Float64 = ℕ

pub record Numerics : Type 0 where
  pub from_int : ℤ → Decimal
  pub mul : Decimal → Decimal → Decimal
  pub div : Decimal → Decimal → Decimal
  pub floor : Decimal → Decimal
  pub int_part : Decimal → ℤ
  pub sign : Decimal → ℤ
  pub equal : Decimal → Decimal → Bool
  pub is_zero : Decimal → Bool
  pub greater_than : Decimal → Decimal → Bool
  pub to_float : Decimal → Float64
  -- `x <= 0` and `x > 0` on float64
  pub float_le_zero : Float64 → Bool
  pub float_gt_zero : Float64 → Bool

-- `DivisionPrecision = 16`: a quotient is rounded to this many decimal places.
abbrev pub ulp : ℕ
ulp = 10000000000000000

-- The documented behaviour on nonnegative decimals. `Means d n k` reads: d is the fraction n / k.
pub record IsExact (N : Numerics) : Type 1 where
  pub Means : Decimal → ℕ → ℕ → Type 0
  pub from_int_exact : (n : ℕ) → Means (N.from_int (pos n)) n 1
  pub mul_exact :
      (a b : Decimal) (n k m l : ℕ) → Means a n k → Means b m l → Means (N.mul a b) (n * m) (k * l)
  -- the quotient c / 10^16 is within half a unit of the last place of (n / k) / (m / l)
  pub div_rounds :
      (a b : Decimal) (n k m l : ℕ)
      → Means a n k
      → Means b m l
      → 0 < k
      → 0 < m
      → (c : ℕ) × Means (N.div a b) c ulp
        × (2 * (c * (k * m)) ≤ 2 * (n * l * ulp) + k * m)
        × (2 * (n * l * ulp) ≤ 2 * (c * (k * m)) + k * m)
  -- an integer part that fits an int64
  pub floor_int_part :
      (d : Decimal) (n k : ℕ)
      → Means d n k
      → 0 < k
      → n / k < 2 ^ 63
      → N.int_part (N.floor d) ≡ pos (n / k)
  pub sign_positive : (d : Decimal) (n k : ℕ) → Means d n k → 0 < n → 0 < k → N.sign d ≡ pos 1
