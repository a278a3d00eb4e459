-- ===== src/Broker/Book.antt =====
-- testbroker/engine.go: the transitions of a stored order. The maps hold pointers: a change of an
-- order is seen by every later read of its id.
use envoy_trade.Common.{
  String, str_eq, str_append, Option, none, some, List, [], ◌∷◌, ◌++◌, pos, other, Result, ok, err,
  if◌then◌else◌,
}
use envoy_trade.Common.Keyed.{find, store}
use envoy_trade.Domain.Decimal.{Float64}
use envoy_trade.Broker.Order.{Order, Instrument, OrderEngine}

-- e.history[id], which is nil where there is none
unfoldable pub history_of : String → OrderEngine → List Order
history_of id e = elim (find id e.history) [ none ↦ [] | some h ↦ h ]

-- The order in the maps, changed, with its snapshot in the history and its hooks called.
unfoldable pub write_order : Order → OrderEngine → OrderEngine
write_order o e = record e {
  orders = store o.order_id o e.orders;
  history = store o.order_id (history_of o.order_id e ++ o ∷ []) e.history;
  fired = e.fired ++ o ∷ [];
}

abbrev pub not_found_text : String → String
not_found_text id = str_append "order " (str_append id " not found")

abbrev pub not_open_text : String → String → String
not_open_text id status =
    str_append "order " (str_append id (str_append " is " (str_append status ", not OPEN")))

-- The guard of the three transitions.
unfoldable pub open_order : String → OrderEngine → Result Order
open_order id e = elim (find id e.orders) [
  | none ↦ err (other (not_found_text id))
  | some o ↦ if str_eq o.status "OPEN" then ok o else err (other (not_open_text id o.status))
]

unfoldable pub filled_order : Float64 → String → Order → Order
filled_order price now o = record o {
  status = "COMPLETE";
  average_price = price;
  filled_quantity = o.quantity;
  pending_quantity = pos 0;
  exchange_update_timestamp = now;
  exchange_timestamp = now;
}

unfoldable pub rejected_order : String → String → Order → Order
rejected_order reason now o = record o {
  status = "REJECTED";
  status_message = reason;
  status_message_raw = reason;
  exchange_update_timestamp = now;
}

unfoldable pub cancelled_order : String → Order → Order
cancelled_order now o = record o {
  status = "CANCELLED";
  cancelled_quantity = o.quantity;
  pending_quantity = pos 0;
  exchange_update_timestamp = now;
}

-- fillOrderLocked works on the order as it is when it takes the lock.
unfoldable pub fill_locked : String → Float64 → String → OrderEngine → OrderEngine
fill_locked id price now e = elim (find id e.orders) [
  | none ↦ e
  | some o ↦ write_order (filled_order price now o) e
]

abbrev pub when_open :
    Result Order → (Order → OrderEngine) → OrderEngine → Result (Unit {0}) × OrderEngine
when_open (ok o) change e = (ok tt, change o)
when_open (err x) change e = (err x, e)

-- FillOrder, without another call between its two critical sections.
unfoldable pub fill_order :
    String → Float64 → String → OrderEngine → Result (Unit {0}) × OrderEngine
fill_order id price now e = when_open (open_order id e) (λ o. fill_locked id price now e) e

unfoldable pub reject_order :
    String → String → String → OrderEngine → Result (Unit {0}) × OrderEngine
reject_order id reason now e =
    when_open (open_order id e) (λ o. write_order (rejected_order reason now o) e) e

unfoldable pub cancel_order : String → String → OrderEngine → Result (Unit {0}) × OrderEngine
cancel_order id now e = when_open (open_order id e) (λ o. write_order (cancelled_order now o) e) e

-- GetOrder and GetOrderHistory
unfoldable pub get_order : String → OrderEngine → Option Order
get_order id e = find id e.orders

unfoldable pub get_order_history : String → OrderEngine → List Order
get_order_history id e = history_of id e

abbrev pub instrument_key : String → String → String
instrument_key exchange symbol = str_append exchange (str_append ":" symbol)

-- GetInstrument
unfoldable pub get_instrument : String → String → OrderEngine → Option Instrument
get_instrument exchange symbol e = find (instrument_key exchange symbol) e.instruments

-- UpdateLTP
unfoldable pub update_ltp :
    String → String → Float64 → OrderEngine → Result (Unit {0}) × OrderEngine
update_ltp exchange symbol ltp e =
    let key = instrument_key exchange symbol in
    elim (find key e.instruments) [
      | none ↦ (err (other (str_append "instrument " (str_append key " not found"))), e)
      | some i ↦
          (ok tt, record e { instruments = store key (record i { ltp = ltp }) e.instruments })
    ]
