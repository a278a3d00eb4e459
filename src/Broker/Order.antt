-- ===== src/Broker/Order.antt =====
-- testbroker/engine.go and config.go: orders, instruments and the engine's state. Prices are
-- float64s, whose arithmetic and comparisons are those of `Floats`; times are the formatted texts.
use envoy_trade.Common.{ℕ, Bool, String, List, ℤ}
use envoy_trade.Domain.Decimal.{Float64}

pub record Order : Type 0 where
  pub order_id : String
  pub exchange_order_id : String
  pub parent_order_id : String
  pub user_id : String
  pub status : String
  pub status_message : String
  pub status_message_raw : String
  pub order_timestamp : String
  pub exchange_update_timestamp : String
  pub exchange_timestamp : String
  pub variety : String
  pub modified : Bool
  pub exchange : String
  pub tradingsymbol : String
  pub instrument_token : ℤ
  pub order_type : String
  pub transaction_type : String
  pub validity : String
  pub validity_ttl : ℤ
  pub product : String
  pub quantity : ℤ
  pub disclosed_quantity : ℤ
  pub price : Float64
  pub trigger_price : Float64
  pub average_price : Float64
  pub filled_quantity : ℤ
  pub pending_quantity : ℤ
  pub cancelled_quantity : ℤ
  pub market_protection : ℤ
  pub tag : String
  pub guid : String
  pub checksum : String

pub record Instrument : Type 0 where
  pub exchange : String
  pub tradingsymbol : String
  pub instrument_token : ℤ
  pub lot_size : ℤ
  pub tick_size : Float64
  pub ltp : Float64

pub record ValidationConfig : Type 0 where
  pub lot_size_check : Bool
  pub max_quantity_per_order : ℤ
  pub circuit_limit_pct : Float64
  pub allowed_exchanges : List String
  pub allowed_products : List String
  pub allowed_order_types : List String

-- The part of Config that the engine reads.
pub record Config : Type 0 where
  pub execution_mode : String
  pub validation : ValidationConfig
  pub orders : List Order

-- float64 arithmetic, the texts that fmt and time.Format build, and the order id's text.
pub record Floats : Type 0 where
  pub add : Float64 → Float64 → Float64
  pub sub : Float64 → Float64 → Float64
  pub mul : Float64 → Float64 → Float64
  pub div : Float64 → Float64 → Float64
  pub less : Float64 → Float64 → Bool
  pub hundred : Float64
  pub zero_value : Float64
  pub one : Float64
  pub of_int : ℤ → Float64
  pub id_text : ℕ → ℕ → String
  pub time_text : ℕ → String

-- OrderEngine; `fired` keeps the orders that the terminal hooks were called with, oldest first.
pub record OrderEngine : Type 0 where
  pub config : Config
  pub instruments : List (String × Instrument)
  pub initial_ltp : List (String × Float64)
  pub orders : List (String × Order)
  pub user_orders : List (String × List String)
  pub history : List (String × List Order)
  pub next_id : ℕ
  pub fired : List Order
