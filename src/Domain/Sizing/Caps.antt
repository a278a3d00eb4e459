-- ===== src/Domain/Sizing/Caps.antt =====
-- What SizeOrder promises of every call, whatever the decimal library computes.
use envoy_trade.Common.{
  ℕ, ◌+◌, ◌-◌, ◌*◌, ◌/◌, ◌%◌, ◌≤◌, ◌<◌, ◌≡◌, ◌≢◌, ◌⊎◌, ◌↔◌, ℤ, pos, ◌≤ℤ◌, ◌-ℤ◌, arith,
}
use native.Mathlib.Nat.{div-add-mod', mul-mod_left, mod-lt}
use envoy_trade.Domain.Decimal.{Decimal, Numerics}
use envoy_trade.Domain.Types.{reason_ok, capped}
use envoy_trade.Domain.Sizing.{size_order, apply_cap}

-- An order is placed exactly if its reason is ok or capped: a skip is never silent.
pub size_order_reason :
    (N : Numerics) (master_qty : ℤ) (ratio : Decimal) (lot max : ℤ)
    → let r = size_order N master_qty ratio lot max in
      (r.0 ≢ pos 0) ↔ ((r.1 ≡ reason_ok) ⊎ (r.1 ≡ capped))
unfolding size_order apply_cap
size_order_reason N m ratio lot max = (λ h. ground arith, λ h e. ground arith)

-- With a cap set, no quantity passes it.
pub size_order-le-cap :
    (N : Numerics) (master_qty : ℤ) (ratio : Decimal) (lot : ℤ) (max : ℕ)
    → 0 < max
    → (size_order N master_qty ratio lot (pos max)).0 ≤ℤ pos max
unfolding size_order apply_cap ◌-ℤ◌
size_order-le-cap N m ratio lot max h = ground arith

-- What is left of a number below its remainder is a multiple.
pub cap_floor : (max lot : ℕ) → 0 < lot → (max - max % lot) % lot ≡ 0
cap_floor max lot h =
    let e : max - max % lot ≡ max / lot * lot = omega (arith, div-add-mod' max lot) in
    rw e (mul-mod_left (max / lot) lot)

-- A capped order is the largest positive multiple of the lot size within the cap.
pub size_order_capped :
    (N : Numerics) (master_qty : ℤ) (ratio : Decimal) (lot max : ℕ) {qty : ℕ}
    → size_order N master_qty ratio (pos lot) (pos max) ≡ (pos qty, capped)
    → (0 < qty) × (qty ≤ max) × (max < qty + lot) × (qty % lot ≡ 0)
unfolding size_order apply_cap ◌-ℤ◌
size_order_capped N m ratio lot max h = ground (arith, cap_floor max lot, mod-lt max {m = lot})
