-- ===== src/Tests/Sizing.antt =====
-- Sizes of concrete orders.
use envoy_trade.Common.{
  ℕ, ◌≡◌, ◌≢◌, ◌≤◌, ◌<◌, ◌+◌, ◌%◌, ◌↔◌, ◌⊎◌, refl, pos, negsuc, ◌≤ℤ◌, ◌*ℤ◌, ◌+ℤ◌, ◌-ℤ◌, wrap64,
  arith,
}
use envoy_trade.Domain.Decimal.{Decimal}
use envoy_trade.Domain.Types.{reason_ok, capped}
use envoy_trade.Domain.Sizing.{size_order, apply_cap, lot_quantity}
use envoy_trade.Domain.Sizing.Caps.{size_order_reason, size_order-le-cap, size_order_capped}
use envoy_trade.Domain.Sizing.Exact.{IsLargest, size_order-IsLargest}
use envoy_trade.Tests.Exact.{exact, exact_laws, stands_means, Stands, num, den, rounded}

-- a clone factor of 1.5
abbrev pub three_halves : Decimal
three_halves = record { coeff = pos 15; exp = negsuc 0 }

three_halves-Stands : Stands three_halves 3 2
unfolding num den
three_halves-Stands = record {
  coeff_pos = refl;
  exp_neg = refl;
  k_pos = omega arith;
  same = omega arith;
}

-- 1.5 times 75, in lots of 25, with a cap of 90: 75
capped_size : size_order exact (pos 75) three_halves (pos 25) (pos 90) ≡ (pos 75, capped)
unfolding size_order exact apply_cap lot_quantity wrap64 ◌*ℤ◌ num rounded den ◌+ℤ◌ ◌-ℤ◌
capped_size = refl

size_order-IsLargest_example :
    (qty : ℕ) × ((size_order exact (pos 75) three_halves (pos 25) (pos 90)).0 ≡ pos qty)
    × IsLargest 75 3 2 25 90 qty
size_order-IsLargest_example =
    size_order-IsLargest exact exact_laws 75 three_halves 3 2 25 90
      (stands_means three_halves 3 2 three_halves-Stands) (omega arith) (omega arith) (omega arith)
      (omega arith) (omega arith)

size_order_reason_example :
    let r = size_order exact (pos 75) three_halves (pos 25) (pos 90) in
    (r.0 ≢ pos 0) ↔ ((r.1 ≡ reason_ok) ⊎ (r.1 ≡ capped))
size_order_reason_example = size_order_reason exact (pos 75) three_halves (pos 25) (pos 90)

size_order-le-cap_example : (size_order exact (pos 75) three_halves (pos 25) (pos 90)).0 ≤ℤ pos 90
size_order-le-cap_example = size_order-le-cap exact (pos 75) three_halves (pos 25) 90 (omega arith)

size_order_capped_example : (0 < 75) × (75 ≤ 90) × (90 < 75 + 25) × (75 % 25 ≡ 0)
size_order_capped_example =
    size_order_capped exact (pos 75) three_halves 25 90 {qty = 75} capped_size
