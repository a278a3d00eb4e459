-- ===== src/Store/Updates.antt =====
-- store.go: the updates of follower_orders, the stash of early postbacks and the audit trail.
use envoy_trade.Common.{
  ℕ, suc, ◌+◌, Bool, true, false, ◌&&◌, not, String, str_eq, Option, none, some, List, [], ◌∷◌,
  ◌++◌, map, ◌==◌, ltb, ltb_ℤ, eqb_ℤ, ℤ, pos, select, any, Result, ok, err, not_found, other,
  if◌then◌else◌,
}
use envoy_trade.Domain.Decimal.{Decimal, Numerics}
use envoy_trade.Domain.Types.{
  Uuid, Instant, DispatchState, pending, dispatched, dead, MasterFill, OrderEvent,
}
use envoy_trade.Store.Tables.{
  OrderRow, PendingUpdate, Db, wrap32, is_some_of, is_broker_order, find_row, update_where,
}
use envoy_trade.Store.Inserts.{optional, optional_price}

abbrev dispatched_time : DispatchState → Instant → Option Instant → Option Instant
dispatched_time dispatched now old = some now
dispatched_time pending now old = old
dispatched_time dead now old = old

unfoldable pub set_fill_state : ℕ → DispatchState → Instant → List MasterFill → List MasterFill
set_fill_state id st now [] = []
set_fill_state id st now (f ∷ fs) =
    (if f.id == id
      then record f { dispatch_state = st; dispatched_at = dispatched_time st now f.dispatched_at }
      else f)
    ∷ set_fill_state id st now fs

unfoldable pub set_master_fill_dispatch_state : ℕ → DispatchState → Db → Db
unfolding set_fill_state
set_master_fill_dispatch_state id st db = record db {
  master_fills = set_fill_state id st db.clock db.master_fills;
}

abbrev pub has_id : ℕ → OrderRow → Bool
has_id id r = r.id == id

abbrev pub has_broker_id : String → OrderRow → Bool
has_broker_id broker_order_id r = is_some_of broker_order_id r.broker_order_id

unfoldable pub with_failure : String → String → Instant → OrderRow → OrderRow
with_failure status message now r = record r {
  terminal_status = some status;
  last_error = some message;
  attempt_count = r.attempt_count + 1;
  updated_at = now;
}

-- UpdateFollowerOrderFailed
unfoldable pub update_follower_order_failed : ℕ → String → String → Db → Db
update_follower_order_failed id status message db = record db {
  follower_orders =
      update_where (has_id id) (with_failure status message db.clock) db.follower_orders;
}

-- SET terminal_status, filled_qty, average_price
unfoldable pub with_status : String → ℤ → Decimal → Instant → OrderRow → OrderRow
with_status status filled price now r = record r {
  terminal_status = some status;
  filled_qty = filled;
  average_price = some price;
  updated_at = now;
}

-- UpdateFollowerOrderStatus: every row with the broker's order id is updated, and the first one's id
-- is returned.
unfoldable pub update_follower_order_status : String → String → ℤ → Decimal → Db → Result ℕ × Db
update_follower_order_status broker_order_id status filled price db =
    elim (find_row (has_broker_id broker_order_id) db.follower_orders) [
      | none ↦ (err not_found, db)
      | some row ↦ (
        ok row.id,
        record db {
          follower_orders =
              update_where (has_broker_id broker_order_id)
                (with_status status (wrap32 filled) price db.clock) db.follower_orders;
        },
      )
    ]

abbrev pub has_follower_tag : Uuid → String → OrderRow → Bool
has_follower_tag follower tag r = r.follower_id == follower && str_eq r.idempotency_tag tag

-- The unique index on (follower_id, broker_order_id) refuses a broker id that another row of the
-- follower has.
unfoldable pub broker_id_taken : ℕ → Uuid → String → List OrderRow → Bool
broker_id_taken id follower broker_order_id rows =
    any (λ (r : OrderRow). is_broker_order follower broker_order_id r && not (r.id == id)) rows

abbrev pub index_violation : String
index_violation = "follower_orders_follower_broker_order_id_idx"

unfoldable pub with_postback :
    Numerics → String → String → ℤ → Decimal → Instant → OrderRow → OrderRow
with_postback N broker_order_id status filled price now r = record r {
  broker_order_id = optional broker_order_id;
  terminal_status = optional status;
  filled_qty = wrap32 filled;
  average_price = optional_price N price;
  updated_at = now;
}

-- UpdateFollowerOrderByTag
unfoldable pub update_follower_order_by_tag :
    Numerics → Uuid → String → String → String → ℤ → Decimal → Db → Result ℕ × Db
update_follower_order_by_tag N follower tag broker_order_id status filled price db =
    elim (find_row (has_follower_tag follower tag) db.follower_orders) [
      | none ↦ (err not_found, db)
      | some row ↦
          if not (str_eq broker_order_id "")
            && broker_id_taken row.id follower broker_order_id db.follower_orders
          then (err (other index_violation), db)
          else (
            ok row.id,
            record db {
              follower_orders =
                  update_where (has_follower_tag follower tag)
                    (with_postback N broker_order_id status filled price db.clock)
                    db.follower_orders;
            },
          )
    ]

unfoldable pub without_pending : String → List PendingUpdate → List PendingUpdate
without_pending broker_order_id ps =
    select (λ (p : PendingUpdate). not (str_eq p.broker_order_id broker_order_id)) ps

unfoldable pub find_pending : String → List PendingUpdate → Option PendingUpdate
find_pending broker_order_id [] = none
find_pending broker_order_id (p ∷ ps) =
    if str_eq p.broker_order_id broker_order_id then some p else find_pending broker_order_id ps

abbrev pub out_of_range : String
out_of_range = "is greater than maximum value for int4"

unfoldable pub stashed_row : String → String → ℤ → Decimal → List ℕ → Instant → PendingUpdate
stashed_row broker_order_id status filled price payload now = record {
  broker_order_id = broker_order_id;
  status = status;
  filled_quantity = filled;
  average_price = price;
  raw_payload = payload;
  received_at = now;
}

-- StashPendingOrderUpdate: the quantity goes to the driver as an int, which refuses what the column
-- cannot hold; the upsert keeps one row for a broker id.
unfoldable pub stash_pending_order_update :
    String → String → ℤ → Decimal → List ℕ → Db → Result (Unit {0}) × Db
stash_pending_order_update broker_order_id status filled price payload db =
    if eqb_ℤ (wrap32 filled) filled
    then (
      ok tt,
      record db {
        pending_updates =
            stashed_row broker_order_id status filled price payload db.clock
            ∷ without_pending broker_order_id db.pending_updates;
      },
    )
    else (err (other out_of_range), db)

-- AppendOrderEvent
unfoldable pub append_order_event : OrderEvent → Db → Db
append_order_event ev db = record db {
  order_events = db.order_events ++ record ev { id = db.next_event; occurred_at = db.clock } ∷ [];
  next_event = suc db.next_event;
}

-- UPDATE … SET broker_order_id, placed_qty, attempt_count
unfoldable pub with_placement : String → ℤ → Instant → OrderRow → OrderRow
with_placement broker_order_id placed now r = record r {
  broker_order_id = some broker_order_id;
  placed_qty = some (wrap32 placed);
  attempt_count = r.attempt_count + 1;
  updated_at = now;
}

-- The event of a consumed stash. `master_fill_id` is scanned into an int64, so a row whose column is
-- NULL gets no event.
unfoldable pub consumed_event : ℕ → List ℕ → Option OrderRow → Db → Db
consumed_event id payload none db = db
consumed_event id payload (some row) db = elim row.master_fill_id [
  | none ↦ db
  | some fill ↦
      append_order_event
        (record {
          id = 0;
          follower_order_id = some id;
          master_fill_id = some fill;
          account_id = row.follower_id;
          event_type = "status_update";
          payload = payload;
          occurred_at = 0;
        })
        db
]

unfoldable pub consume_pending : ℕ → String → Db → Db
consume_pending id broker_order_id db = elim (find_pending broker_order_id db.pending_updates) [
  | none ↦ db
  | some p ↦
      (let rows =
          update_where (has_id id) (with_status p.status p.filled_quantity p.average_price db.clock)
            db.follower_orders in
        consumed_event id p.raw_payload (find_row (has_id id) rows) (record db {
          follower_orders = rows;
          pending_updates = without_pending broker_order_id db.pending_updates;
        }))
]

-- A broker id that another row of the same follower has is refused; no row is, if none has the id.
unfoldable pub placement_refused : ℕ → String → List OrderRow → Bool
placement_refused id broker_order_id rows = elim (find_row (has_id id) rows) [
  | none ↦ false
  | some r ↦ broker_id_taken id r.follower_id broker_order_id rows
]

-- UpdateFollowerOrderPlaced, one transaction
unfoldable pub update_follower_order_placed : ℕ → String → ℤ → Db → Result (Unit {0}) × Db
update_follower_order_placed id broker_order_id placed db =
    if placement_refused id broker_order_id db.follower_orders
    then (err (other index_violation), db)
    else (
      ok tt,
      consume_pending id broker_order_id (record db {
        follower_orders =
            update_where (has_id id) (with_placement broker_order_id placed db.clock)
              db.follower_orders;
      }),
    )

-- SweepPendingOrderUpdates
unfoldable pub sweep_pending_order_updates : Instant → Db → List String × Db
sweep_pending_order_updates cutoff db = (
  map (λ (p : PendingUpdate). p.broker_order_id)
      (select (λ (p : PendingUpdate). ltb p.received_at cutoff) db.pending_updates),
  record db {
    pending_updates =
        select (λ (p : PendingUpdate). not (ltb p.received_at cutoff)) db.pending_updates;
  },
)

abbrev pub is_null : Option String → Bool
is_null none = true
is_null (some s) = false

-- FollowerOrderTerminalExists
unfoldable pub follower_order_terminal_exists : Uuid → String → Db → Bool
follower_order_terminal_exists follower broker_order_id db =
    any
      (λ (r : OrderRow).
        is_broker_order follower broker_order_id r && not (is_null r.terminal_status))
      db.follower_orders

-- PendingFollowerOrders; the table is in the order of the ids
unfoldable pub pending_follower_orders : Instant → Db → List OrderRow
pending_follower_orders cutoff db =
    select
      (λ (r : OrderRow).
        is_null r.terminal_status && ltb_ℤ (pos 0) r.intended_qty && ltb r.created_at cutoff)
      db.follower_orders
