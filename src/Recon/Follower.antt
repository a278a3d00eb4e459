-- ===== src/Recon/Follower.antt =====
-- reconciler.go: ReconcileFollower, and broker/types.go: ToOrderUpdate.
use envoy_trade.Common.{Bool, not, String, List, [], ◌∷◌, Result, ok, err, if◌then◌else◌}
use envoy_trade.Common.State.{State, pure, ◌>>=◌, ◌>>◌}
use envoy_trade.Domain.Types.{Uuid, Instant, OrderUpdate, is_terminal}
use envoy_trade.Recon.Master.{Order, raw_of, ReconEnv, is_stale, is_known}

-- What ReconcileFollower uses besides. `has_consumer` tells whether FollowerConsumer is set.
pub record FollowerEnv (S : Type 0) : Type 0 where
  pub recon : ReconEnv S
  pub has_consumer : Bool
  pub get_follower_orders : Uuid → S → Result (List Order) × S
  pub follower_order_terminal_exists : Uuid → String → S → Result Bool × S
  pub handle_update : OrderUpdate → S → Result (Unit {0}) × S

module _ {S : Type 0} (E : FollowerEnv S) (follower_id : Uuid) where
  -- Order.ToOrderUpdate
  unfoldable pub to_order_update : Order → OrderUpdate
  to_order_update o = record {
    follower_id = follower_id;
    broker_order_id = o.order_id;
    tradingsymbol = o.tradingsymbol;
    exchange = o.exchange;
    product = o.product;
    transaction_type = o.transaction_type;
    order_type = o.order_type;
    quantity = o.quantity;
    status = o.status;
    filled_quantity = o.filled_quantity;
    average_price = o.average_price;
    order_timestamp = o.order_timestamp;
    tag = o.tag;
    raw_payload = raw_of E.recon.numerics E.recon.marshal o o.raw_payload;
  }

  unfoldable pub alert_unhandled : Result (Unit {0}) → State S (Unit {0})
  alert_unhandled (ok u) = pure tt
  alert_unhandled (err e) = E.recon.alert "failed to handle follower order from recon"

  unfoldable pub pass_on : Order → State S (Unit {0})
  pass_on o = do handled ← E.handle_update (to_order_update o); alert_unhandled handled

  unfoldable pub check_terminal : Order → State S (Unit {0})
  check_terminal o = do
    exists ← E.follower_order_terminal_exists follower_id o.order_id
    if is_known exists then pure tt else pass_on o

  unfoldable pub follow_order : Instant → Order → State S (Unit {0})
  follow_order now o =
      if not (is_terminal o.status)
      then pure tt
      else if is_stale E.recon.polling_window now o
      then pure tt
      else check_terminal o

  unfoldable pub follow_orders : Instant → List Order → State S (Unit {0})
  follow_orders now [] = pure tt
  follow_orders now (o ∷ os) = do follow_order now o; follow_orders now os

  unfoldable pub after_follower_read : Instant → Result (List Order) → State S (Result (Unit {0}))
  after_follower_read now (err e) = do E.recon.alert "failed to read follower orders"; pure (err e)
  after_follower_read now (ok os) = do follow_orders now os; pure (ok tt)

  -- ReconcileFollower
  unfoldable pub reconcile_follower : State S (Result (Unit {0}))
  reconcile_follower = if not E.has_consumer then pure (ok tt) else do
    now ← E.recon.now
    orders ← E.get_follower_orders follower_id
    after_follower_read now orders
