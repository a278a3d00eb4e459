-- ===== src/Recon/Master.antt =====
-- reconciler.go: ReconcileMaster, and broker/types.go: Order and ToMasterFill.
use envoy_trade.Common.{
  ℕ, ◌+◌, Bool, false, ◌&&◌, not, String, str_eq, none, List, [], ◌∷◌, ◌==◌, ltb, ℤ, pos, Result,
  ok, err, if◌then◌else◌,
}
use envoy_trade.Common.State.{State, pure, ◌>>=◌, ◌>>◌}
use envoy_trade.Domain.Decimal.{Decimal, Numerics}
use envoy_trade.Domain.Types.{Uuid, Instant, pending, MasterFill, is_terminal}

-- broker.Order
pub record Order : Type 0 where
  pub order_id : String
  pub exchange : String
  pub tradingsymbol : String
  pub transaction_type : String
  pub product : String
  pub order_type : String
  pub status : String
  pub status_message : String
  pub quantity : ℤ
  pub filled_quantity : ℤ
  pub price : Decimal
  pub trigger_price : Decimal
  pub average_price : Decimal
  pub order_timestamp : Instant
  pub tag : String
  pub raw_payload : List ℕ

-- Decimal's zero value
abbrev pub zero_decimal : Decimal
zero_decimal = record { coeff = pos 0; exp = pos 0 }

-- `marshal` is json.Marshal.
module _ (N : Numerics) (marshal : Order → List ℕ) where
  unfoldable pub fill_price : Order → Decimal
  fill_price o =
      if str_eq o.order_type "LIMIT"
        && (N.is_zero o.price && N.greater_than o.average_price zero_decimal)
      then o.average_price
      else o.price

  unfoldable pub raw_of : Order → List ℕ → List ℕ
  raw_of o [] = marshal o
  raw_of o (b ∷ bytes) = b ∷ bytes

  -- The zero values of the fields that the code leaves out. Nothing reads its empty dispatch state: the
  -- insertion writes `pending`.
  unfoldable pub to_master_fill : Uuid → Order → MasterFill
  to_master_fill master_id o = record {
    id = 0;
    master_id = master_id;
    broker_order_id = o.order_id;
    exchange = o.exchange;
    tradingsymbol = o.tradingsymbol;
    instrument_token = pos 0;
    transaction_type = o.transaction_type;
    product = o.product;
    order_type = o.order_type;
    filled_quantity = o.filled_quantity;
    price = fill_price o;
    trigger_price = o.trigger_price;
    average_price = o.average_price;
    status = o.status;
    order_timestamp = o.order_timestamp;
    raw_payload = raw_of o o.raw_payload;
    tag = o.tag;
    received_at = 0;
    dispatch_state = pending;
    dispatched_at = none;
  }

-- What ReconcileMaster uses of the poller's parts. `alert` takes the message.
pub record ReconEnv (S : Type 0) : Type 0 where
  pub numerics : Numerics
  pub marshal : Order → List ℕ
  pub polling_window : ℕ
  pub now : S → Instant × S
  pub get_master_orders : Uuid → S → Result (List Order) × S
  pub master_fill_exists : Uuid → String → ℤ → String → S → Result Bool × S
  pub handle : MasterFill → S → Result (Unit {0}) × S
  pub alert : String → S → Unit {0} × S

-- !o.OrderTimestamp.IsZero() && o.OrderTimestamp.Before(now.Add(-window))
unfoldable pub is_stale : ℕ → Instant → Order → Bool
is_stale window now o = not (o.order_timestamp == 0) && ltb (o.order_timestamp + window) now

-- err == nil && exists
abbrev pub is_known : Result Bool → Bool
is_known (ok exists) = exists
is_known (err e) = false

module _ {S : Type 0} (E : ReconEnv S) (master_id : Uuid) where
  unfoldable pub alert_failed : Result (Unit {0}) → State S (Unit {0})
  alert_failed (ok u) = pure tt
  alert_failed (err e) = E.alert "failed to handle master fill from recon"

  unfoldable pub hand_on : Order → State S (Unit {0})
  hand_on o = do
    handled ← E.handle (to_master_fill E.numerics E.marshal master_id o)
    alert_failed handled

  unfoldable pub check_known : Order → State S (Unit {0})
  check_known o = do
    exists ← E.master_fill_exists master_id o.order_id o.filled_quantity o.status
    if is_known exists then pure tt else hand_on o

  unfoldable pub reconcile_order : Instant → Order → State S (Unit {0})
  reconcile_order now o =
      if not (is_terminal o.status)
      then pure tt
      else if is_stale E.polling_window now o
      then pure tt
      else check_known o

  unfoldable pub reconcile_orders : Instant → List Order → State S (Unit {0})
  reconcile_orders now [] = pure tt
  reconcile_orders now (o ∷ os) = do reconcile_order now o; reconcile_orders now os

  unfoldable pub after_read : Instant → Result (List Order) → State S (Result (Unit {0}))
  after_read now (err e) = do E.alert "failed to read master orders"; pure (err e)
  after_read now (ok os) = do reconcile_orders now os; pure (ok tt)

  unfoldable pub reconcile_master : State S (Result (Unit {0}))
  reconcile_master = do now ← E.now; orders ← E.get_master_orders master_id; after_read now orders
