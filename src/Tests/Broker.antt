-- ===== src/Tests/Broker.antt =====
-- The mock broker with one open order.
use envoy_trade.Common.{◌≡◌, refl, true, false, some, [], ◌∷◌, pos, ok}
use envoy_trade.Common.Keyed.{find}
use envoy_trade.Worker.Parts.{OrderParams}
use envoy_trade.Broker.Order.{Order, Instrument, Floats, OrderEngine}
use envoy_trade.Broker.Book.{open_order, fill_locked, cancel_order}
use envoy_trade.Broker.Sound.{Good}
use envoy_trade.Broker.Final.{place, fill, cancel, after_all, after_all-Good}
use envoy_trade.Broker.Terminal.{fill_overlaps_cancel}

abbrev pub floats : Floats
floats = record {
  add = λ a b. a;
  sub = λ a b. a;
  mul = λ a b. a;
  div = λ a b. a;
  less = λ a b. false;
  hundred = 100;
  zero_value = 0;
  one = 1;
  of_int = λ n. 0;
  id_text = λ clock n. "240101000001";
  time_text = λ clock. "2024-01-01";
}

abbrev instrument : Instrument
instrument = record {
  exchange = "NFO";
  tradingsymbol = "NIFTY";
  instrument_token = pos 1;
  lot_size = pos 25;
  tick_size = 5;
  ltp = 100;
}

abbrev params : OrderParams
params = record {
  exchange = "NFO";
  tradingsymbol = "NIFTY";
  transaction_type = "BUY";
  product = "NRML";
  order_type = "MARKET";
  quantity = pos 50;
  price = 0;
  trigger_price = 0;
  tag = "t";
}

abbrev pub empty : OrderEngine
empty = record {
  config = record {
    execution_mode = "manual";
    validation = record {
      lot_size_check = true;
      max_quantity_per_order = pos 1800;
      circuit_limit_pct = 0;
      allowed_exchanges = "NFO" ∷ [];
      allowed_products = "NRML" ∷ [];
      allowed_order_types = "MARKET" ∷ [];
    };
    orders = [];
  };
  instruments = ("NFO:NIFTY", instrument) ∷ [];
  initial_ltp = ("NFO:NIFTY", 100) ∷ [];
  orders = [];
  user_orders = [];
  history = [];
  next_id = 0;
  fired = [];
}

empty-Good : Good empty
unfolding find
empty-Good = record { kept = λ id o h. cc }

after_all-Good_example : Good (
    after_all floats
      (place 1 "AB1234" "regular" params
        ∷ fill "240101000001" 101 "t1"
        ∷ cancel "240101000001" "t2"
        ∷ [])
      empty)
after_all-Good_example =
    after_all-Good floats
      (place 1 "AB1234" "regular" params
        ∷ fill "240101000001" 101 "t1"
        ∷ cancel "240101000001" "t2"
        ∷ [])
      empty empty-Good

abbrev pub order : Order
order = record {
  order_id = "o-1";
  exchange_order_id = "1-1";
  parent_order_id = "";
  user_id = "AB1234";
  status = "OPEN";
  status_message = "";
  status_message_raw = "";
  order_timestamp = "t0";
  exchange_update_timestamp = "t0";
  exchange_timestamp = "t0";
  variety = "regular";
  modified = false;
  exchange = "NFO";
  tradingsymbol = "NIFTY";
  instrument_token = pos 1;
  order_type = "MARKET";
  transaction_type = "BUY";
  validity = "DAY";
  validity_ttl = pos 0;
  product = "NRML";
  quantity = pos 50;
  disclosed_quantity = pos 0;
  price = 0;
  trigger_price = 0;
  average_price = 0;
  filled_quantity = pos 0;
  pending_quantity = pos 50;
  cancelled_quantity = pos 0;
  market_protection = pos 0;
  tag = "t";
  guid = "";
  checksum = "";
}

abbrev with_order : Order → OrderEngine
with_order o = record empty { orders = ("o-1", o) ∷ [] }

fill_overlaps_cancel_example :
    let between = cancel_order "o-1" "t1" (with_order order) in
    (open_order "o-1" (with_order order) ≡ ok order)
    × (between.0 ≡ ok tt)
    × ((last : Order) × (find "o-1" (fill_locked "o-1" 101 "t2" between.1).orders ≡ some last)
        × (last.status ≡ "COMPLETE")
        × (last.filled_quantity ≡ order.quantity)
        × (last.cancelled_quantity ≡ order.quantity))
unfolding find
fill_overlaps_cancel_example =
    fill_overlaps_cancel "o-1" order 101 "t1" "t2" (with_order order) refl refl refl
