-- ===== src/Broker/Positions.antt =====
-- testbroker/engine.go: GetPositions. A Go map with its list of keys is an association list in the order in
-- which the keys came up.
use envoy_trade.Common.{
  Bool, ◌&&◌, ◌||◌, String, str_eq, str_append, none, some, List, [], ◌∷◌, ℤ, pos, neg, ◌+ℤ◌, ◌-ℤ◌,
  ltb_ℤ, wrap64, if◌then◌else◌,
}
use envoy_trade.Common.Keyed.{find}
use envoy_trade.Domain.Decimal.{Float64}
use envoy_trade.Broker.Order.{Order, Floats, OrderEngine}
use envoy_trade.Broker.Book.{instrument_key, get_order}

-- accum
pub record Tally : Type 0 where
  pub exchange : String
  pub symbol : String
  pub product : String
  pub token : ℤ
  pub buy_qty : ℤ
  pub buy_val : Float64
  pub sell_qty : ℤ
  pub sell_val : Float64

-- Position
pub record Position : Type 0 where
  pub tradingsymbol : String
  pub exchange : String
  pub instrument_token : ℤ
  pub product : String
  pub quantity : ℤ
  pub overnight_quantity : ℤ
  pub multiplier : Float64
  pub average_price : Float64
  pub close_price : Float64
  pub last_price : Float64
  pub value : Float64
  pub pnl : Float64
  pub m2m : Float64
  pub unrealised : Float64
  pub realised : Float64
  pub buy_quantity : ℤ
  pub buy_price : Float64
  pub buy_value : Float64
  pub buy_m2m_value : Float64
  pub sell_quantity : ℤ
  pub sell_price : Float64
  pub sell_value : Float64
  pub sell_m2m_value : Float64
  pub day_buy_quantity : ℤ
  pub day_buy_price : Float64
  pub day_buy_value : Float64
  pub day_sell_quantity : ℤ
  pub day_sell_price : Float64
  pub day_sell_value : Float64

-- the orders that are counted
unfoldable pub is_filled : Order → Bool
is_filled o = str_eq o.status "COMPLETE" && ltb_ℤ (pos 0) o.filled_quantity

unfoldable pub is_buy : String → Bool
is_buy side = str_eq side "BUY" || str_eq side "B"

unfoldable pub is_sell : String → Bool
is_sell side = str_eq side "SELL" || str_eq side "S"

unfoldable pub position_key : Order → String
position_key o =
    str_append o.exchange (str_append ":" (str_append o.tradingsymbol (str_append ":" o.product)))

-- e.userOrders[userID], and the orders of those ids that are there
unfoldable pub existing : List String → OrderEngine → List Order
existing [] e = []
existing (id ∷ ids) e =
    let rest = existing ids e in elim (get_order id e) [ none ↦ rest | some o ↦ o ∷ rest ]

unfoldable pub orders_of : String → OrderEngine → List Order
orders_of user e = elim (find user e.user_orders) [ none ↦ [] | some ids ↦ existing ids e ]

module _ (F : Floats) where
  unfoldable pub new_tally : Order → Tally
  new_tally o = record {
    exchange = o.exchange;
    symbol = o.tradingsymbol;
    product = o.product;
    token = o.instrument_token;
    buy_qty = pos 0;
    buy_val = F.zero_value;
    sell_qty = pos 0;
    sell_val = F.zero_value;
  }

  unfoldable pub add_to : Order → Tally → Tally
  add_to o t =
      let val = F.mul (F.of_int o.filled_quantity) o.average_price in
      if is_buy o.transaction_type
      then record t {
        buy_qty = wrap64 (t.buy_qty +ℤ o.filled_quantity);
        buy_val = F.add t.buy_val val;
      }
      else if is_sell o.transaction_type
      then record t {
        sell_qty = wrap64 (t.sell_qty +ℤ o.filled_quantity);
        sell_val = F.add t.sell_val val;
      }
      else t

  unfoldable pub tally : String → Order → List (String × Tally) → List (String × Tally)
  tally k o [] = (k, add_to o (new_tally o)) ∷ []
  tally k o ((j, t) ∷ m) =
      let rest = tally k o m in if str_eq j k then (j, add_to o t) ∷ m else (j, t) ∷ rest

  unfoldable pub tally_each : List Order → List (String × Tally) → List (String × Tally)
  tally_each [] m = m
  tally_each (o ∷ os) m = tally_each os (if is_filled o then tally (position_key o) o m else m)

  unfoldable pub is_positive : Float64 → Bool
  is_positive x = F.less F.zero_value x

  -- a value divided by its quantity, if there is one
  unfoldable pub price_of : Float64 → ℤ → Float64
  price_of val qty = if ltb_ℤ (pos 0) qty then F.div val (F.of_int qty) else F.zero_value

  unfoldable pub average_of : ℤ → Float64 → Float64 → Float64
  average_of net_qty buy_price sell_price =
      if ltb_ℤ (pos 0) net_qty
      then buy_price
      else if ltb_ℤ net_qty (pos 0)
      then sell_price
      else F.zero_value

  unfoldable pub last_price_of : OrderEngine → Tally → Float64 → Float64
  last_price_of e t avg_price = elim (find (instrument_key t.exchange t.symbol) e.instruments) [
    | none ↦ avg_price
    | some i ↦ if is_positive i.ltp then i.ltp else avg_price
  ]

  unfoldable pub realised_of : Tally → Float64 → Float64 → Float64
  realised_of t buy_price sell_price =
      let closed_qty = if ltb_ℤ t.sell_qty t.buy_qty then t.sell_qty else t.buy_qty in
      if ltb_ℤ (pos 0) closed_qty && is_positive buy_price && is_positive sell_price
      then F.mul (F.of_int closed_qty) (F.sub sell_price buy_price)
      else F.zero_value

  unfoldable pub unrealised_of : ℤ → Float64 → Float64 → Float64 → Float64
  unrealised_of net_qty ltp buy_price sell_price =
      if ltb_ℤ (pos 0) net_qty
      then F.mul (F.of_int net_qty) (F.sub ltp buy_price)
      else if ltb_ℤ net_qty (pos 0)
      then F.mul (F.of_int (wrap64 (neg net_qty))) (F.sub sell_price ltp)
      else F.zero_value

  unfoldable pub position_of : OrderEngine → Tally → Position
  position_of e t =
      let net_qty = wrap64 (t.buy_qty -ℤ t.sell_qty) in
      let buy_price = price_of t.buy_val t.buy_qty in
      let sell_price = price_of t.sell_val t.sell_qty in
      let avg_price = average_of net_qty buy_price sell_price in
      let ltp = last_price_of e t avg_price in
      let realised = realised_of t buy_price sell_price in
      let unrealised = unrealised_of net_qty ltp buy_price sell_price in
      let pnl = F.add realised unrealised in
      record {
        tradingsymbol = t.symbol;
        exchange = t.exchange;
        instrument_token = t.token;
        product = t.product;
        quantity = net_qty;
        overnight_quantity = pos 0;
        multiplier = F.one;
        average_price = avg_price;
        close_price = F.zero_value;
        last_price = ltp;
        value = F.mul (F.of_int net_qty) ltp;
        pnl = pnl;
        m2m = pnl;
        unrealised = unrealised;
        realised = realised;
        buy_quantity = t.buy_qty;
        buy_price = buy_price;
        buy_value = t.buy_val;
        buy_m2m_value = t.buy_val;
        sell_quantity = t.sell_qty;
        sell_price = sell_price;
        sell_value = t.sell_val;
        sell_m2m_value = t.sell_val;
        day_buy_quantity = t.buy_qty;
        day_buy_price = buy_price;
        day_buy_value = t.buy_val;
        day_sell_quantity = t.sell_qty;
        day_sell_price = sell_price;
        day_sell_value = t.sell_val;
      }

  unfoldable pub positions_of : OrderEngine → List (String × Tally) → List Position
  positions_of e [] = []
  positions_of e ((k, t) ∷ m) = position_of e t ∷ positions_of e m

  -- GetPositions: net and day
  unfoldable pub get_positions : String → OrderEngine → List Position × List Position
  get_positions user e = let net = positions_of e (tally_each (orders_of user e) []) in (net, net)
