-- ===== src/Tests/Rebalance.antt =====
-- Drifts of a follower that holds less than its share.
use envoy_trade.Common.{
  if◌then◌else◌, err, not_found, ℤ, ◌≡◌, refl, arith, str_eq, none, some, List, [], ◌∷◌, inl, pos,
  negsuc, Result, ok, ◌-ℤ◌, ◌*ℤ◌, ◌+ℤ◌, wrap64,
}
use envoy_trade.Domain.Sizing.{size_order, apply_cap, lot_quantity}
use envoy_trade.Rebalance.Drift.{
  Position, Key, key_of, same_key, SymbolDrift, Account, abs, position_at, add_keys, all_keys,
  clone_factor_of, lot_size_or_one, max_qty_of, signed_target, target_of, product_of, action_of,
  drift_to, drift_at, drifts_at, calculate_follower_drift,
}
use envoy_trade.Rebalance.Goal.{OneAt, total_at}
use envoy_trade.Rebalance.Balanced.{Balanced, goal_at, FitsAt, calculate_follower_drift-Balanced}
use envoy_trade.Tests.Exact.{exact, num, rounded, den}
use envoy_trade.Tests.Sizing.{three_halves}

abbrev short_master : Position
short_master = record {
  exchange = "NFO";
  tradingsymbol = "NIFTY";
  product = "NRML";
  quantity = negsuc 74;
}

abbrev short_follower : Position
short_follower = record {
  exchange = "NFO";
  tradingsymbol = "NIFTY";
  product = "NRML";
  quantity = negsuc 24;
}

abbrev stray : Position
stray = record { exchange = "NSE"; tradingsymbol = "INFY"; product = ""; quantity = pos 10 }

abbrev pub masters : List Position
masters = short_master ∷ []

abbrev pub followers : List Position
followers = short_follower ∷ stray ∷ []

abbrev pub account : Account
account = record { clone_factor = some three_halves; max_qty_per_order = none }

abbrev pub lots : Key → Result ℤ
lots k = if str_eq k.exchange "NFO" then ok (pos 25) else err not_found

-- The master is short 75; one and a half times that in lots of 25 is 100 short, of which 25 are held.
abbrev pub wanted : SymbolDrift
wanted = record {
  exchange = "NFO";
  tradingsymbol = "NIFTY";
  product = "NRML";
  lot_size = pos 25;
  master_qty = negsuc 74;
  target_qty = negsuc 99;
  follower_qty = negsuc 24;
  drift_qty = negsuc 74;
  action = "SELL";
}

-- The follower's other position is closed.
abbrev pub unwanted : SymbolDrift
unwanted = record {
  exchange = "NSE";
  tradingsymbol = "INFY";
  product = "CNC";
  lot_size = pos 1;
  master_qty = pos 0;
  target_qty = pos 0;
  follower_qty = pos 10;
  drift_qty = negsuc 9;
  action = "SELL";
}

pub both_drifts :
    calculate_follower_drift exact lots account masters followers ≡ wanted ∷ unwanted ∷ []
unfolding calculate_follower_drift drifts_at drift_at all_keys add_keys same_key key_of position_at
    target_of clone_factor_of lot_size_or_one signed_target product_of action_of drift_to abs
    size_order exact apply_cap lot_quantity wrap64 ◌*ℤ◌ num rounded den ◌+ℤ◌ ◌-ℤ◌ max_qty_of
both_drifts = refl

nifty_fits : FitsAt exact lots account masters followers (key_of short_master)
unfolding key_of clone_factor_of lot_size_or_one size_order exact apply_cap lot_quantity wrap64 ◌*ℤ◌
    num rounded den ◌+ℤ◌ ◌-ℤ◌ max_qty_of
nifty_fits = ((omega arith, omega arith), (omega arith, omega arith), (omega arith, omega arith))

one_master : OneAt (key_of short_master) masters
unfolding key_of
one_master = omega arith

one_follower : OneAt (key_of short_master) followers
unfolding key_of
one_follower = omega arith

calculate_follower_drift-Balanced_example :
    Balanced
      (key_of short_master)
      (total_at (key_of short_master) followers)
      (goal_at exact lots account masters followers (key_of short_master))
      (calculate_follower_drift exact lots account masters followers)
calculate_follower_drift-Balanced_example =
    calculate_follower_drift-Balanced exact lots account masters followers short_master
      (inl (inl refl)) refl one_master one_follower nifty_fits
