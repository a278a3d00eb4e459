-- ===== src/Store/Tables.antt =====
-- The order tables of migrations/ and their unique constraints. A nullable column is an `Option`,
-- `integer` columns hold 32 bits, and `clock` is what now() reads. Ids come from a counter; the gaps
-- that a real sequence leaves after a conflict are not modelled, nor are foreign keys.
use Prim.Native.Nat.{ℕ, ◌-◌, ◌%◌, ◌^◌}
use envoy_trade.Common.{
  Bool, false, ◌&&◌, String, str_eq, Option, none, some, List, [], ◌∷◌, ◌==◌, ltb, ℤ, pos, negsuc,
  any, if◌then◌else◌,
}
use envoy_trade.Domain.Decimal.{Decimal}
use envoy_trade.Domain.Types.{Uuid, Instant, SizingReason, MasterFill, OrderEvent}

-- int32(x)
abbrev pub from_bits32 : ℕ → ℤ
from_bits32 r = if ltb r (2 ^ 31) then pos r else negsuc (2 ^ 32 - 1 - r)

unfoldable pub wrap32 : ℤ → ℤ
wrap32 (pos n) = from_bits32 (n % 2 ^ 32)
wrap32 (negsuc n) = from_bits32 (2 ^ 32 - 1 - n % 2 ^ 32)

-- a row of follower_orders
pub record OrderRow : Type 0 where
  pub id : ℕ
  pub master_fill_id : Option ℕ
  pub follower_id : Uuid
  pub idempotency_tag : String
  pub intended_qty : ℤ
  pub lot_size : ℤ
  pub sizing_reason : SizingReason
  pub placed_qty : Option ℤ
  pub broker_order_id : Option String
  pub terminal_status : Option String
  pub filled_qty : ℤ
  pub average_price : Option Decimal
  pub attempt_count : ℕ
  pub last_error : Option String
  pub origin : String
  pub tradingsymbol : String
  pub exchange : String
  pub product : String
  pub transaction_type : String
  pub order_type : String
  pub created_at : Instant
  pub updated_at : Instant

-- a row of pending_order_updates
pub record PendingUpdate : Type 0 where
  pub broker_order_id : String
  pub status : String
  pub filled_quantity : ℤ
  pub average_price : Decimal
  pub raw_payload : List ℕ
  pub received_at : Instant

pub record Db : Type 0 where
  pub master_fills : List MasterFill
  pub next_fill : ℕ
  pub follower_orders : List OrderRow
  pub next_order : ℕ
  pub pending_updates : List PendingUpdate
  pub order_events : List OrderEvent
  pub next_event : ℕ
  pub clock : Instant

-- idempotency_tag text NOT NULL UNIQUE
unfoldable pub has_tag : String → List OrderRow → Bool
has_tag tag rows = any (λ (r : OrderRow). str_eq r.idempotency_tag tag) rows

abbrev pub is_some_of : String → Option String → Bool
is_some_of s none = false
is_some_of s (some t) = str_eq t s

abbrev pub is_some_number : ℕ → Option ℕ → Bool
is_some_number n none = false
is_some_number n (some m) = m == n

-- UNIQUE (master_fill_id, follower_id), which NULL never violates
unfoldable pub has_pair : Option ℕ → Uuid → List OrderRow → Bool
has_pair none follower rows = false
has_pair (some fill) follower rows =
    any (λ (r : OrderRow). is_some_number fill r.master_fill_id && r.follower_id == follower) rows

-- the unique index on (follower_id, broker_order_id)
abbrev pub is_broker_order : Uuid → String → OrderRow → Bool
is_broker_order follower broker_order_id r =
    r.follower_id == follower && is_some_of broker_order_id r.broker_order_id

-- The first row that passes a test, as RETURNING gives it.
unfoldable pub find_row : (OrderRow → Bool) → List OrderRow → Option OrderRow
find_row p [] = none
find_row p (r ∷ rs) = if p r then some r else find_row p rs

-- UPDATE … SET change WHERE p
unfoldable pub update_where :
    (OrderRow → Bool) → (OrderRow → OrderRow) → List OrderRow → List OrderRow
update_where p change [] = []
update_where p change (r ∷ rs) = (if p r then change r else r) ∷ update_where p change rs
