-- ===== src/Store/Inserts.antt =====
-- store.go: InsertMasterFill, InsertFollowerOrder, InsertFollowerOrdersBatch and
-- InsertDirectFollowerOrder. A transaction that fails leaves the tables as they were.
use envoy_trade.Common.{
  ℕ, suc, Bool, ◌&&◌, ◌||◌, String, str_eq, str_append, starts_with, Option, none, some, List, [],
  ◌∷◌, ◌++◌, ◌==◌, ℤ, pos, leb_ℤ, eqb_ℤ, any, Result, ok, err, duplicate, other, if◌then◌else◌,
}
use envoy_trade.Domain.Decimal.{Decimal, Numerics}
use envoy_trade.Domain.Types.{Uuid, pending, reason_ok, MasterFill, FollowerOrder, OrderUpdate}
use envoy_trade.Store.Tables.{
  OrderRow, Db, wrap32, has_tag, has_pair, is_broker_order, find_row, update_where,
}

-- UNIQUE (master_id, broker_order_id, filled_quantity, status)
unfoldable pub same_fill : Uuid → String → ℤ → String → MasterFill → Bool
same_fill master broker_order_id qty status row =
    row.master_id == master
    && str_eq row.broker_order_id broker_order_id
    && eqb_ℤ row.filled_quantity qty
    && str_eq row.status status

-- MasterFillExists
unfoldable pub master_fill_exists : Uuid → String → ℤ → String → Db → Bool
unfolding same_fill
master_fill_exists master broker_order_id qty status db =
    any (same_fill master broker_order_id (wrap32 qty) status) db.master_fills

-- The columns of a fill; the prices of the order and the tag have none.
abbrev pub fill_row : Db → MasterFill → MasterFill
fill_row db f = record f {
  id = db.next_fill;
  price = record { coeff = pos 0; exp = pos 0 };
  trigger_price = record { coeff = pos 0; exp = pos 0 };
  tag = "";
  filled_quantity = wrap32 f.filled_quantity;
  received_at = db.clock;
  dispatch_state = pending;
  dispatched_at = none;
}

unfoldable pub insert_master_fill : MasterFill → Db → Result ℕ × Db
unfolding master_fill_exists
insert_master_fill f db =
    if master_fill_exists f.master_id f.broker_order_id f.filled_quantity f.status db
    then (err duplicate, db)
    else (
      ok db.next_fill,
      record db {
        master_fills = db.master_fills ++ fill_row db f ∷ [];
        next_fill = suc db.next_fill;
      },
    )

abbrev pub default_origin : String → String
default_origin origin = if str_eq origin "" then "copy_trade" else origin

-- the columns that an INSERT of a sized order gives; the others have their defaults
unfoldable pub new_row : Option ℕ → FollowerOrder → Db → OrderRow
new_row master_fill_id o db = record {
  id = db.next_order;
  master_fill_id = master_fill_id;
  follower_id = o.follower_id;
  idempotency_tag = o.idempotency_tag;
  intended_qty = wrap32 o.intended_qty;
  lot_size = wrap32 o.lot_size;
  sizing_reason = o.sizing_reason;
  placed_qty = none;
  broker_order_id = none;
  terminal_status = none;
  filled_qty = pos 0;
  average_price = none;
  attempt_count = 0;
  last_error = none;
  origin = default_origin o.origin;
  tradingsymbol = o.tradingsymbol;
  exchange = o.exchange;
  product = o.product;
  transaction_type = o.transaction_type;
  order_type = o.order_type;
  created_at = db.clock;
  updated_at = db.clock;
}

unfoldable pub add_row : OrderRow → Db → Db
add_row r db = record db {
  follower_orders = db.follower_orders ++ r ∷ [];
  next_order = suc db.next_order;
}

abbrev pub fill_reference : ℕ → Option ℕ
fill_reference id = if id == 0 then none else some id

unfoldable pub insert_follower_order : FollowerOrder → Db → Result ℕ × Db
unfolding add_row
insert_follower_order o db =
    let fill = fill_reference o.master_fill_id in
    if has_tag o.idempotency_tag db.follower_orders
      || has_pair fill o.follower_id db.follower_orders
    then (err duplicate, db)
    else (ok db.next_order, add_row (new_row fill o db) db)

-- One row of the batch: a known tag is skipped, and a known (fill, follower) pair under a new tag
-- fails the statement. The batch passes the fill's id as it is.
unfoldable pub batch_row : FollowerOrder → Db → Option (List (String × ℕ) × Db)
batch_row o db =
    if has_tag o.idempotency_tag db.follower_orders
    then some ([], db)
    else if has_pair (some o.master_fill_id) o.follower_id db.follower_orders
    then none
    else some
        ((o.idempotency_tag, db.next_order) ∷ [], add_row (new_row (some o.master_fill_id) o db) db)

unfoldable pub batch_rows : List FollowerOrder → Db → Option (List (String × ℕ) × Db)
batch_rows [] db = some ([], db)
batch_rows (o ∷ os) db = elim (batch_row o db) [
  | none ↦ none
  | some (ids, db') ↦ elim (batch_rows os db') [
    | none ↦ none
    | some (more, db'') ↦ some (ids ++ more, db'')
  ]
]

abbrev pub batch_violation : String
batch_violation = "execute follower orders batch insert"

unfoldable pub insert_follower_orders_batch :
    List FollowerOrder → Db → Result (List (String × ℕ)) × Db
insert_follower_orders_batch os db = elim (batch_rows os db) [
  | none ↦ (err (other batch_violation), db)
  | some (ids, db') ↦ (ok ids, db')
]

abbrev pub direct_tag : OrderUpdate → String
direct_tag upd = if str_eq upd.tag "" then str_append "ext-" upd.broker_order_id else upd.tag

abbrev pub direct_origin : String → String
direct_origin tag =
    if starts_with tag "sqoff-"
    then "square_off"
    else if starts_with tag "rebal-"
    then "rebalance"
    else "manual"

abbrev pub optional : String → Option String
optional s = if str_eq s "" then none else some s

-- decimal.NullDecimal{Valid: !x.IsZero()}
abbrev pub optional_price : Numerics → Decimal → Option Decimal
optional_price N x = if N.is_zero x then none else some x

abbrev pub direct_quantity : OrderUpdate → ℤ
direct_quantity upd = if leb_ℤ upd.quantity (pos 0) then upd.filled_quantity else upd.quantity

unfoldable pub direct_row : Numerics → OrderUpdate → Db → OrderRow
direct_row N upd db = record {
  id = db.next_order;
  master_fill_id = none;
  follower_id = upd.follower_id;
  idempotency_tag = direct_tag upd;
  intended_qty = wrap32 (direct_quantity upd);
  lot_size = pos 1;
  sizing_reason = reason_ok;
  placed_qty = some (wrap32 (direct_quantity upd));
  broker_order_id = optional upd.broker_order_id;
  terminal_status = optional upd.status;
  filled_qty = wrap32 upd.filled_quantity;
  average_price = optional_price N upd.average_price;
  attempt_count = 0;
  last_error = none;
  origin = direct_origin (direct_tag upd);
  tradingsymbol = upd.tradingsymbol;
  exchange = upd.exchange;
  product = upd.product;
  transaction_type = upd.transaction_type;
  order_type = upd.order_type;
  created_at = db.clock;
  updated_at = db.clock;
}

-- DO UPDATE SET of the conflicting row
unfoldable pub refresh : Numerics → OrderUpdate → Db → OrderRow → OrderRow
refresh N upd db r = record r {
  terminal_status = optional upd.status;
  filled_qty = wrap32 upd.filled_quantity;
  average_price = optional_price N upd.average_price;
  updated_at = db.clock;
}

-- the conflict target (follower_id, broker_order_id), which NULL never meets
unfoldable pub conflicting : OrderUpdate → List OrderRow → Option OrderRow
conflicting upd rows =
    if str_eq upd.broker_order_id ""
    then none
    else find_row (is_broker_order upd.follower_id upd.broker_order_id) rows

unfoldable pub insert_direct_follower_order : Numerics → OrderUpdate → Db → Result ℕ × Db
insert_direct_follower_order N upd db = elim (conflicting upd db.follower_orders) [
  | some row ↦ (
    ok row.id,
    record db {
      follower_orders =
          update_where (is_broker_order upd.follower_id upd.broker_order_id) (refresh N upd db)
            db.follower_orders;
    },
  )
  | none ↦
      if has_tag (direct_tag upd) db.follower_orders
      then (err duplicate, db)
      else (ok db.next_order, add_row (direct_row N upd db) db)
]
