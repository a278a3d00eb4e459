-- ===== src/Engine/Prices.antt =====
-- resolveExecutionPrices.
use envoy_trade.Common.{ℕ, ◌&&◌, ◌||◌, str_eq, Option, none, some, List, [], ◌∷◌, if◌then◌else◌}
use envoy_trade.Domain.Decimal.{Float64, Numerics}
use envoy_trade.Domain.Types.{MasterFill}

-- the values of the payload fill in only what is not set
abbrev from_payload : Numerics → Option (Float64 × Float64) → Float64 → Float64 → Float64 × Float64
from_payload N none price trigger = (price, trigger)
from_payload N (some (raw_price, raw_trigger)) price trigger = (
  if N.float_le_zero price && N.float_gt_zero raw_price then raw_price else price,
  if N.float_le_zero trigger && N.float_gt_zero raw_trigger then raw_trigger else trigger,
)

-- the payload is read only if it is not empty
abbrev decode : (List ℕ → Option (Float64 × Float64)) → List ℕ → Option (Float64 × Float64)
decode f [] = none
decode f (b ∷ bytes) = f (b ∷ bytes)

unfoldable pub resolve_execution_prices :
    Numerics → (List ℕ → Option (Float64 × Float64)) → MasterFill → Float64 × Float64
resolve_execution_prices N f fill =
    let price = N.to_float fill.price in
    let trigger = N.to_float fill.trigger_price in
    let p =
      if N.float_le_zero price || N.float_le_zero trigger
      then from_payload N (decode f fill.raw_payload) price trigger
      else (price, trigger) in
    if str_eq fill.order_type "LIMIT" && N.float_le_zero p.0
    then (N.to_float fill.average_price, p.1)
    else p
