-- ===== src/Domain/Types.antt =====
-- internal/domain/types.go: the rows and messages that the components exchange. A UUID is a number
-- (uuid.Nil is 0), a database id is a number (0 where the code has not set it), an instant is a
-- number (0 for the zero time), and a byte slice is the list of its bytes.
use envoy_trade.Common.{ℕ, Bool, ◌||◌, String, List, Option, ℤ, str_eq}
use envoy_trade.Domain.Decimal.{Decimal, Float64}

abbrev pub Uuid : Type 0
Uuid = ℕ

abbrev pub Instant : Type 0
Instant = ℕ

pub data DispatchState : Type 0 where
  pending dispatched dead : DispatchState

-- SizingReason, in the order of its iota.
pub data SizingReason : Type 0 where
  reason_ok below_one_lot capped bad_instrument invalid_ratio : SizingReason
  follower_in_error follower_pending : SizingReason

-- SizingReason.String; the default branch is for integers that no constant names.
unfoldable pub reason_string : SizingReason → String
reason_string reason_ok = "ok"
reason_string below_one_lot = "below_one_lot"
reason_string capped = "capped"
reason_string bad_instrument = "bad_instrument"
reason_string invalid_ratio = "invalid_ratio"
reason_string follower_in_error = "follower_in_error"
reason_string follower_pending = "follower_pending"

pub record MasterFill : Type 0 where
  pub id : ℕ
  pub master_id : Uuid
  pub broker_order_id : String
  pub exchange : String
  pub tradingsymbol : String
  pub instrument_token : ℤ
  pub transaction_type : String
  pub product : String
  pub order_type : String
  pub filled_quantity : ℤ
  pub price : Decimal
  pub trigger_price : Decimal
  pub average_price : Decimal
  pub status : String
  pub order_timestamp : Instant
  pub raw_payload : List ℕ
  pub tag : String
  pub received_at : Instant
  pub dispatch_state : DispatchState
  pub dispatched_at : Option Instant

pub record FollowLink : Type 0 where
  pub follower_id : Uuid
  pub group_id : Uuid
  pub master_id : Uuid
  pub clone_factor : Decimal
  pub max_qty_per_order : ℤ
  pub enabled : Bool
  pub effective_from : Instant
  pub status : String
  pub auth_status : String

pub record FollowerOrder : Type 0 where
  pub id : ℕ
  pub master_fill_id : ℕ
  pub follower_id : Uuid
  pub idempotency_tag : String
  pub intended_qty : ℤ
  pub lot_size : ℤ
  pub sizing_reason : SizingReason
  pub placed_qty : Option ℤ
  pub broker_order_id : String
  pub terminal_status : String
  pub filled_qty : ℤ
  pub average_price : Decimal
  pub attempt_count : ℕ
  pub last_error : String
  pub origin : String
  pub tradingsymbol : String
  pub exchange : String
  pub product : String
  pub transaction_type : String
  pub order_type : String
  pub created_at : Instant
  pub updated_at : Instant

pub record OrderUpdate : Type 0 where
  pub follower_id : Uuid
  pub broker_order_id : String
  pub tradingsymbol : String
  pub exchange : String
  pub product : String
  pub transaction_type : String
  pub order_type : String
  pub quantity : ℤ
  pub status : String
  pub filled_quantity : ℤ
  pub average_price : Decimal
  pub order_timestamp : Instant
  pub tag : String
  pub raw_payload : List ℕ

pub record Job : Type 0 where
  pub follower_order_id : ℕ
  pub follower_id : Uuid
  pub master_fill_id : ℕ
  pub idempotency_tag : String
  pub exchange : String
  pub tradingsymbol : String
  pub transaction_type : String
  pub product : String
  pub order_type : String
  pub quantity : ℤ
  pub price : Float64
  pub trigger_price : Float64

pub record OrderEvent : Type 0 where
  pub id : ℕ
  pub follower_order_id : Option ℕ
  pub master_fill_id : Option ℕ
  pub account_id : Uuid
  pub event_type : String
  pub payload : List ℕ
  pub occurred_at : Instant

-- The Terminal… constants, and IsTerminal.
abbrev pub terminal_complete : String
terminal_complete = "COMPLETE"

abbrev pub terminal_rejected : String
terminal_rejected = "REJECTED"

abbrev pub terminal_cancelled : String
terminal_cancelled = "CANCELLED"

abbrev pub terminal_dead_lettered : String
terminal_dead_lettered = "DEAD_LETTERED"

unfoldable pub is_terminal : String → Bool
is_terminal status =
    str_eq status terminal_complete
    || str_eq status terminal_rejected
    || str_eq status terminal_cancelled
