-- ===== src/Tests/Positions.antt =====
-- The positions of a user with three orders.
use envoy_trade.Common.{◌≡◌, refl, String, [], ◌∷◌, ℤ, pos, map, ◌+ℤ◌, ◌-ℤ◌, wrap64}
use envoy_trade.Common.Keyed.{find}
use envoy_trade.Broker.Order.{Order, OrderEngine}
use envoy_trade.Broker.Book.{get_order}
use envoy_trade.Broker.Positions.{
  Position, is_filled, is_buy, is_sell, position_key, existing, orders_of, new_tally, add_to, tally,
  tally_each, position_of, positions_of, get_positions,
}
use envoy_trade.Broker.Nets.{AreNets, get_positions-AreNets}
use envoy_trade.Tests.Broker.{floats, empty, order}

abbrev bought : Order
bought = record order { status = "COMPLETE"; filled_quantity = pos 50 }

abbrev sold : Order
sold = record order {
  order_id = "o-2";
  status = "COMPLETE";
  filled_quantity = pos 20;
  transaction_type = "SELL";
}

abbrev waiting : Order
waiting = record order { order_id = "o-3" }

abbrev three_orders : OrderEngine
three_orders = record empty {
  orders = ("o-1", bought) ∷ ("o-2", sold) ∷ ("o-3", waiting) ∷ [];
  user_orders = ("AB1234", "o-1" ∷ "o-2" ∷ "o-3" ∷ "o-4" ∷ []) ∷ [];
}

get_positions-AreNets_example :
    AreNets (orders_of "AB1234" three_orders) (get_positions floats "AB1234" three_orders)
get_positions-AreNets_example = get_positions-AreNets floats "AB1234" three_orders

net_quantities :
    map {B = String × ℤ}
      (λ (p : Position). (p.tradingsymbol, p.quantity))
      (get_positions floats "AB1234" three_orders).0
    ≡ ("NIFTY", pos 30) ∷ []
unfolding get_positions positions_of position_of tally_each tally add_to new_tally is_filled is_buy
    is_sell position_key existing orders_of find get_order ◌+ℤ◌ ◌-ℤ◌ wrap64
net_quantities = refl
