-- ===== src/Rebalance/Drift.antt =====
-- service.go: calculateFollowerDrift. A map's keys come in no order in Go; the model takes them in
-- the order in which the positions name them. The lot sizes are the answers of the store.
use envoy_trade.Common.{
  Bool, true, false, ◌&&◌, ◌||◌, not, String, str_eq, Option, none, some, List, [], ◌∷◌, ◌++◌, any,
  ℤ, pos, neg, ◌-ℤ◌, ltb_ℤ, leb_ℤ, eqb_ℤ, wrap64, Result, ok, err, if◌then◌else◌,
}
use envoy_trade.Domain.Decimal.{Decimal, Numerics}
use envoy_trade.Domain.Types.{SizingReason, reason_ok, capped}
use envoy_trade.Domain.Types
use envoy_trade.Domain.Sizing.{size_order}

-- broker.Position, less the prices, which the calculation does not read
pub record Position : Type 0 where
  pub exchange : String
  pub tradingsymbol : String
  pub product : String
  pub quantity : ℤ

-- posKey
pub record Key : Type 0 where
  pub exchange : String
  pub symbol : String

unfoldable pub key_of : Position → Key
key_of p = record { exchange = p.exchange; symbol = p.tradingsymbol }

unfoldable pub same_key : Key → Key → Bool
same_key a b = str_eq a.exchange b.exchange && str_eq a.symbol b.symbol

-- domain.SymbolDrift
pub record SymbolDrift : Type 0 where
  pub exchange : String
  pub tradingsymbol : String
  pub product : String
  pub lot_size : ℤ
  pub master_qty : ℤ
  pub target_qty : ℤ
  pub follower_qty : ℤ
  pub drift_qty : ℤ
  pub action : String

-- The part of domain.Account that the calculation reads.
pub record Account : Type 0 where
  pub clone_factor : Option Decimal
  pub max_qty_per_order : Option ℤ

-- abs, which keeps the least int64 as it is
unfoldable pub abs : ℤ → ℤ
abs x = if ltb_ℤ x (pos 0) then wrap64 (neg x) else x

-- masterMap[k]: of the positions with the key and a quantity, the last; the zero value where there is
-- none.
unfoldable pub position_at : Key → List Position → Position → Position
position_at k [] found = found
position_at k (p ∷ ps) found =
    position_at k ps (if not (eqb_ℤ p.quantity (pos 0)) && same_key (key_of p) k then p else found)

abbrev pub no_position : Position
no_position = record { exchange = ""; tradingsymbol = ""; product = ""; quantity = pos 0 }

-- the keys of the positions with a quantity, each once, behind those that are known
unfoldable pub add_keys : List Position → List Key → List Key
add_keys [] known = known
add_keys (p ∷ ps) known = add_keys ps (
    if eqb_ℤ p.quantity (pos 0) || any (same_key (key_of p)) known
    then known
    else known ++ key_of p ∷ [])

-- allKeys
unfoldable pub all_keys : List Position → List Position → List Key
all_keys master follower = add_keys follower (add_keys master [])

unfoldable pub clone_factor_of : Numerics → Option Decimal → Decimal
clone_factor_of N none = N.from_int (pos 1)
clone_factor_of N (some x) = if ltb_ℤ (pos 0) (N.sign x) then x else N.from_int (pos 1)

unfoldable pub max_qty_of : Option ℤ → ℤ
max_qty_of none = pos 0
max_qty_of (some q) = q

-- a missing or unusable lot size counts as 1
unfoldable pub lot_size_or_one : Result ℤ → ℤ
lot_size_or_one (ok lot) = if leb_ℤ lot (pos 0) then pos 1 else lot
lot_size_or_one (err e) = pos 1

abbrev pub is_sized : SizingReason → Bool
is_sized Types.reason_ok = true
is_sized Types.below_one_lot = false
is_sized Types.capped = true
is_sized Types.bad_instrument = false
is_sized Types.invalid_ratio = false
is_sized Types.follower_in_error = false
is_sized Types.follower_pending = false

unfoldable pub signed_target : ℤ → ℤ × SizingReason → ℤ
signed_target master_qty sized =
    if is_sized sized.1
    then (if ltb_ℤ (pos 0) master_qty then sized.0 else wrap64 (neg sized.0))
    else pos 0

unfoldable pub target_of : Numerics → Decimal → ℤ → ℤ → ℤ → ℤ
target_of N factor lot max_qty master_qty =
    if eqb_ℤ master_qty (pos 0)
    then pos 0
    else signed_target master_qty (size_order N (abs master_qty) factor lot max_qty)

unfoldable pub product_of : String → String → String
product_of master follower =
    if not (str_eq master "") then master else if not (str_eq follower "") then follower else "CNC"

unfoldable pub action_of : ℤ → String
action_of drift = if ltb_ℤ drift (pos 0) then "SELL" else "BUY"

unfoldable pub drift_to : Key → String → ℤ → ℤ → ℤ → ℤ → Option SymbolDrift
drift_to k product lot master_qty target_qty follower_qty =
    let drift = wrap64 (target_qty -ℤ follower_qty) in
    if eqb_ℤ drift (pos 0)
    then none
    else some (record {
      exchange = k.exchange;
      tradingsymbol = k.symbol;
      product = product;
      lot_size = lot;
      master_qty = master_qty;
      target_qty = target_qty;
      follower_qty = follower_qty;
      drift_qty = drift;
      action = action_of drift;
    })

module _ (N : Numerics) (lot_size : Key → Result ℤ) (account : Account)
    (master follower : List Position) where
  unfoldable pub drift_at : Key → Option SymbolDrift
  drift_at k =
      let m = position_at k master no_position in
      let f = position_at k follower no_position in
      let lot = lot_size_or_one (lot_size k) in
      drift_to k (product_of m.product f.product) lot m.quantity
        (target_of N (clone_factor_of N account.clone_factor) lot
          (max_qty_of account.max_qty_per_order) m.quantity)
        f.quantity

  unfoldable pub drifts_at : List Key → List SymbolDrift
  drifts_at [] = []
  drifts_at (k ∷ ks) =
      let rest = drifts_at ks in elim (drift_at k) [ none ↦ rest | some d ↦ d ∷ rest ]

  -- calculateFollowerDrift, its Symbols
  unfoldable pub calculate_follower_drift : List SymbolDrift
  calculate_follower_drift = drifts_at (all_keys master follower)
