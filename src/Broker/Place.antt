-- ===== src/Broker/Place.antt =====
-- testbroker/engine.go: PlaceOrder and Reset.
use envoy_trade.Common.{
  ℕ, suc, ◌%◌, Bool, false, ◌&&◌, ◌||◌, not, String, str_eq, str_append, slice, Option, none, some,
  List, [], ◌∷◌, ◌++◌, ℤ, pos, ltb_ℤ, eqb_ℤ, ◌%ℤ◌, any, ◌⊎◌, inl, inr, if◌then◌else◌,
}
use Prim.Native.String.{len}
use envoy_trade.Common.Keyed.{find, store}
use envoy_trade.Domain.Decimal.{Float64}
use envoy_trade.Worker.Parts.{OrderParams}
use envoy_trade.Broker.Order.{Order, Instrument, ValidationConfig, Floats, OrderEngine}
use envoy_trade.Broker.Book.{instrument_key, fill_locked}

-- contains
unfoldable pub listed : List String → String → Bool
listed ss s = any (λ v. str_eq v s) ss

-- The checks of PlaceOrder, in order; the texts are without their formatted values.
pub data Refusal : Type 0 where
  bad_exchange bad_product bad_order_type unknown_instrument not_lot_multiple above_freeze
        outside_band :
      Refusal

unfoldable pub lot_violation : ValidationConfig → Instrument → ℤ → Bool
lot_violation v inst q =
    v.lot_size_check && ltb_ℤ (pos 0) inst.lot_size && not (eqb_ℤ (q %ℤ inst.lot_size) (pos 0))

unfoldable pub freeze_violation : ValidationConfig → ℤ → Bool
freeze_violation v q = ltb_ℤ (pos 0) v.max_quantity_per_order && ltb_ℤ v.max_quantity_per_order q

unfoldable pub band_violation : Floats → ValidationConfig → Instrument → OrderParams → Bool
band_violation F v inst p =
    let band = F.div (F.mul inst.ltp v.circuit_limit_pct) F.hundred in
    str_eq p.order_type "LIMIT"
    && F.less F.zero_value v.circuit_limit_pct
    && F.less F.zero_value inst.ltp
    && (F.less p.price (F.sub inst.ltp band) || F.less (F.add inst.ltp band) p.price)

unfoldable pub check_instrument :
    Floats → ValidationConfig → OrderParams → Instrument → Option Refusal
check_instrument F v p inst =
    if lot_violation v inst p.quantity
    then some not_lot_multiple
    else if freeze_violation v p.quantity
    then some above_freeze
    else if band_violation F v inst p
    then some outside_band
    else none

abbrev pub Checked : Type 0
Checked = Refusal ⊎ Instrument

abbrev pub checked_instrument :
    Floats → ValidationConfig → OrderParams → Option Instrument → Checked
checked_instrument F v p none = inl unknown_instrument
checked_instrument F v p (some inst) = elim (check_instrument F v p inst) [
  | none ↦ inr inst
  | some r ↦ inl r
]

unfoldable pub check_order : Floats → OrderParams → OrderEngine → Checked
check_order F p e =
    let v = e.config.validation in
    if not (listed v.allowed_exchanges p.exchange)
    then inl bad_exchange
    else if not (listed v.allowed_products p.product)
    then inl bad_product
    else if not (listed v.allowed_order_types p.order_type)
    then inl bad_order_type
    else checked_instrument F v p (find (instrument_key p.exchange p.tradingsymbol) e.instruments)

unfoldable pub new_order : String → String → String → String → OrderParams → Instrument → Order
new_order user variety id now p inst = record {
  order_id = id;
  exchange_order_id = str_append "1" (slice id 1 (len id));
  parent_order_id = "";
  user_id = user;
  status = "OPEN";
  status_message = "";
  status_message_raw = "";
  order_timestamp = now;
  exchange_update_timestamp = now;
  exchange_timestamp = now;
  variety = variety;
  modified = false;
  exchange = p.exchange;
  tradingsymbol = p.tradingsymbol;
  instrument_token = inst.instrument_token;
  order_type = p.order_type;
  transaction_type = p.transaction_type;
  validity = "DAY";
  validity_ttl = pos 0;
  product = p.product;
  quantity = p.quantity;
  disclosed_quantity = pos 0;
  price = p.price;
  trigger_price = p.trigger_price;
  average_price = 0;
  filled_quantity = pos 0;
  pending_quantity = p.quantity;
  cancelled_quantity = pos 0;
  market_protection = pos 0;
  tag = p.tag;
  guid = "";
  checksum = "";
}

abbrev pub orders_of : String → OrderEngine → List String
orders_of user e = elim (find user e.user_orders) [ none ↦ [] | some ids ↦ ids ]

-- The order in the three maps, with the history of an order that is open.
unfoldable pub add_order : Order → OrderEngine → OrderEngine
add_order o e = record e {
  orders = store o.order_id o e.orders;
  user_orders = store o.user_id (orders_of o.user_id e ++ o.order_id ∷ []) e.user_orders;
  history = store o.order_id (o ∷ []) e.history;
}

-- genOrderID: the counter, and the text of its last six digits behind the time
unfoldable pub gen_order_id : Floats → ℕ → OrderEngine → String × OrderEngine
gen_order_id F clock e =
    let id = suc e.next_id in (F.id_text clock (id % 1000000), record e { next_id = id })

unfoldable pub fill_if_instant : Float64 → String → String → OrderEngine → OrderEngine
fill_if_instant ltp id now e =
    if str_eq e.config.execution_mode "instant" then fill_locked id ltp now e else e

unfoldable pub accept_order :
    Floats → ℕ → String → String → OrderParams → Instrument → OrderEngine → String × OrderEngine
accept_order F clock user variety p inst e =
    let g = gen_order_id F clock e in
    let now = F.time_text clock in
    (g.0, fill_if_instant inst.ltp g.0 now (add_order (new_order user variety g.0 now p inst) g.1))

abbrev pub after_checks :
    Floats
    → ℕ
    → String
    → String
    → OrderParams
    → Checked
    → OrderEngine
    → (Refusal ⊎ String) × OrderEngine
after_checks F clock user variety p (inl r) e = (inl r, e)
after_checks F clock user variety p (inr inst) e =
    let r = accept_order F clock user variety p inst e in (inr r.0, r.1)

-- PlaceOrder, at the instant `clock`
unfoldable pub place_order :
    Floats → ℕ → String → String → OrderParams → OrderEngine → (Refusal ⊎ String) × OrderEngine
place_order F clock user variety p e = after_checks F clock user variety p (check_order F p e) e

unfoldable pub load_orders : List Order → OrderEngine → OrderEngine
load_orders [] e = e
load_orders (o ∷ os) e = load_orders os (add_order o e)

unfoldable pub restore_ltp : List (String × Float64) → OrderEngine → OrderEngine
restore_ltp [] e = e
restore_ltp ((key, ltp) ∷ rest) e = restore_ltp rest (elim (find key e.instruments) [
  | none ↦ e
  | some i ↦ record e { instruments = store key (record i { ltp = ltp }) e.instruments }
])

-- Reset; the counter of the ids goes on.
unfoldable pub reset : OrderEngine → OrderEngine
reset e =
    load_orders e.config.orders
      (restore_ltp e.initial_ltp (record e { orders = []; user_orders = []; history = [] }))
