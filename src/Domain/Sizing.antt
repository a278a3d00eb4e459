-- ===== src/Domain/Sizing.antt =====
-- internal/domain/sizing.go: the quantity of one follower order.
pub mod Caps
pub mod Exact
use envoy_trade.Common.{
  Bool, ◌&&◌, ℤ, pos, ◌*ℤ◌, ◌-ℤ◌, ◌%ℤ◌, ltb_ℤ, leb_ℤ, eqb_ℤ, wrap64, if◌then◌else◌,
}
use envoy_trade.Domain.Decimal.{Decimal, Numerics}
use envoy_trade.Domain.Types.{
  SizingReason, reason_ok, below_one_lot, capped, bad_instrument, invalid_ratio,
}

-- the test of the cap, which acts only when a cap is set
unfoldable pub over_cap : ℤ → ℤ → Bool
over_cap max_qty qty = ltb_ℤ (pos 0) max_qty && ltb_ℤ max_qty qty

-- the part of SizeOrder after the quantity is computed
unfoldable pub apply_cap : ℤ → ℤ → ℤ → ℤ × SizingReason
unfolding over_cap
apply_cap qty lot_size max_qty =
    if over_cap max_qty qty
    then (let cap_qty = max_qty -ℤ max_qty %ℤ lot_size in
        if eqb_ℤ cap_qty (pos 0) then (pos 0, below_one_lot) else (cap_qty, capped))
    else if eqb_ℤ qty (pos 0)
    then (pos 0, below_one_lot)
    else (qty, reason_ok)

-- `int(lots) * lotSize`, which wraps at 64 bits
unfoldable pub lot_quantity : Numerics → ℤ → Decimal → ℤ → ℤ
lot_quantity N master_qty ratio lot_size =
    let lot = N.from_int lot_size in
    let raw = N.mul (N.from_int master_qty) ratio in
    let lots = N.int_part (N.floor (N.div raw lot)) in wrap64 (lots *ℤ lot_size)

unfoldable pub size_order : Numerics → ℤ → Decimal → ℤ → ℤ → ℤ × SizingReason
size_order N master_qty ratio lot_size max_qty =
    if leb_ℤ lot_size (pos 0)
    then (pos 0, bad_instrument)
    else if leb_ℤ (N.sign ratio) (pos 0)
    then (pos 0, invalid_ratio)
    else apply_cap (lot_quantity N master_qty ratio lot_size) lot_size max_qty
