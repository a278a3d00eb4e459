-- ===== src/Recon/Backfill.antt =====
-- ReconcileMaster over the wired consumer, engine and store.
use envoy_trade.Common.{
  ℕ, ◌≡◌, refl, sym, subst, Bool, true, false, inl, inr, String, List, [], ◌∷◌, In, Result, ok, err,
  not, if_cases,
}
use envoy_trade.Common.State.{State, pure}
use envoy_trade.Domain.Types.{Uuid, Instant, MasterFill, is_terminal}
use envoy_trade.Store.Inserts.{master_fill_exists}
use envoy_trade.Listener.Master.{handle_fill}
use envoy_trade.System.{Outside}
use envoy_trade.System.Known.{Known}
use envoy_trade.System.Fills.{System, consumer, after_delivery, delivery_keeps}
use envoy_trade.Recon.Master.{
  Order, to_master_fill, ReconEnv, is_stale, alert_failed, hand_on, check_known, reconcile_order,
  reconcile_orders, after_read, reconcile_master,
}

-- What the system does not determine: the master's broker, the clock and the alerts, over a world `Y`.
pub record Reader (Y : Type 0) : Type 0 where
  pub marshal : Order → List ℕ
  pub polling_window : ℕ
  pub now : Y → Instant × Y
  pub get_master_orders : Uuid → Y → Result (List Order) × Y
  pub alert : String → Y → Unit {0} × Y

module _ {X Y : Type 0} (O : Outside X) (R : Reader Y) (has_syncer : Bool) where
  -- an operation of the reader
  abbrev by_reader : {A : Type 0} → (Y → A × Y) → System O × Y → A × (System O × Y)
  by_reader f w = let r = f w.1 in (r.0, (w.0, r.1))

  -- The poller's wiring.
  unfoldable pub poller : ReconEnv (System O × Y)
  poller = record {
    numerics = O.numerics;
    marshal = R.marshal;
    polling_window = R.polling_window;
    now = by_reader R.now;
    get_master_orders = λ m. by_reader (R.get_master_orders m);
    master_fill_exists = λ m b q s w. (ok (master_fill_exists m b q s w.0.0.world.0), w);
    handle = λ f w. let r = handle_fill (consumer O has_syncer) f w.0 in (r.0, (r.1, w.1));
    alert = λ m. by_reader (R.alert m);
  }

  module _ (m : Uuid) where
    abbrev pub Stored : MasterFill → System O × Y → Type 0
    Stored f w = Known f w.0.0.world.0

    abbrev pub fill_of : Order → MasterFill
    fill_of o = to_master_fill O.numerics R.marshal m o

    alert_failed_system :
        (r : Result (Unit {0})) (w : System O × Y) → (alert_failed poller m r w).1.0 ≡ w.0
    unfolding alert_failed poller
    alert_failed_system (ok u) w = refl
    alert_failed_system (err e) w = refl

    hand_on_system :
        (o : Order) (w : System O × Y)
        → (hand_on poller m o w).1.0 ≡ (handle_fill (consumer O has_syncer) (fill_of o) w.0).1
    unfolding hand_on poller
    hand_on_system o w =
        let r = handle_fill (consumer O has_syncer) (fill_of o) w.0 in
        alert_failed_system r.0 (r.1, w.1)

    hand_on-Stored : (o : Order) (w : System O × Y) → Stored (fill_of o) (hand_on poller m o w).1
    hand_on-Stored o w =
        subst (λ (s : System O). Known (fill_of o) s.0.world.0) (sym (hand_on_system o w))
          (after_delivery O has_syncer (fill_of o) w.0)

    hand_on_keeps :
        (g : MasterFill) (o : Order) (w : System O × Y)
        → Stored g w
        → Stored g (hand_on poller m o w).1
    hand_on_keeps g o w h =
        subst (λ (s : System O). Known g s.0.world.0) (sym (hand_on_system o w))
          (delivery_keeps O has_syncer (fill_of o) g w.0 h)

    check_known-Stored :
        (o : Order) (w : System O × Y) → Stored (fill_of o) (check_known poller m o w).1
    unfolding check_known poller to_master_fill
    check_known-Stored o w =
        if_cases (λ (a : State (System O × Y) (Unit {0})). Stored (fill_of o) (a w).1)
          (master_fill_exists m o.order_id o.filled_quantity o.status w.0.0.world.0) (pure tt)
          (hand_on poller m o) (λ t. t) (λ n. hand_on-Stored o w)

    check_known_keeps :
        (g : MasterFill) (o : Order) (w : System O × Y)
        → Stored g w
        → Stored g (check_known poller m o w).1
    unfolding check_known poller
    check_known_keeps g o w h =
        if_cases (λ (a : State (System O × Y) (Unit {0})). Stored g (a w).1)
          (master_fill_exists m o.order_id o.filled_quantity o.status w.0.0.world.0) (pure tt)
          (hand_on poller m o) (λ t. h) (λ n. hand_on_keeps g o w h)

    reconcile_order-Stored :
        (now : Instant) (o : Order) (w : System O × Y)
        → is_terminal o.status ≡ true
        → is_stale R.polling_window now o ≡ false
        → Stored (fill_of o) (reconcile_order poller m now o w).1
    unfolding reconcile_order poller
    reconcile_order-Stored now o w h k = rw (h, k) (check_known-Stored o w)

    reconcile_order_keeps :
        (g : MasterFill) (now : Instant) (o : Order) (w : System O × Y)
        → Stored g w
        → Stored g (reconcile_order poller m now o w).1
    unfolding reconcile_order poller
    reconcile_order_keeps g now o w h =
        let After = λ (a : State (System O × Y) (Unit {0})). Stored g (a w).1 in
        if_cases After (not (is_terminal o.status)) (pure tt) _ (λ t. h)
          (λ n.
            if_cases After (is_stale R.polling_window now o) (pure tt) (check_known poller m o)
              (λ t. h) (λ f. check_known_keeps g o w h))

    reconcile_orders_keeps :
        (g : MasterFill) (now : Instant) (os : List Order) (w : System O × Y)
        → Stored g w
        → Stored g (reconcile_orders poller m now os w).1
    unfolding reconcile_orders
    reconcile_orders_keeps g now [] w h = h
    reconcile_orders_keeps g now (o ∷ os) w h =
        reconcile_orders_keeps g now os (reconcile_order poller m now o w).1
          (reconcile_order_keeps g now o w h)

    reconcile_orders-Stored :
        (now : Instant) (o : Order) (os : List Order) (w : System O × Y)
        → In o os
        → is_terminal o.status ≡ true
        → is_stale R.polling_window now o ≡ false
        → Stored (fill_of o) (reconcile_orders poller m now os w).1
    unfolding reconcile_orders
    reconcile_orders-Stored now o [] w h t f = elim h [ ]
    reconcile_orders-Stored now o (p ∷ os) w (inr h) t f =
        reconcile_orders-Stored now o os (reconcile_order poller m now p w).1 h t f
    reconcile_orders-Stored now o (p ∷ os) w (inl e) t f =
        reconcile_orders_keeps (fill_of o) now os (reconcile_order poller m now p w).1 (
          subst (λ q. Stored (fill_of o) (reconcile_order poller m now q w).1) e
            (reconcile_order-Stored now o w t f))

    -- If the broker answers the poll with a list of orders, ReconcileMaster returns no error, and each
    -- order of the list that is terminal and not older than the polling window is in master_fills
    -- afterwards, whatever the engine, the workers and the other orders of the list have met with.
    pub reconcile_master-Stored :
        (o : Order) (os : List Order) (w : System O × Y)
        → (R.get_master_orders m (R.now w.1).1).0 ≡ ok os
        → In o os
        → is_terminal o.status ≡ true
        → is_stale R.polling_window (R.now w.1).0 o ≡ false
        → ((reconcile_master poller m w).0 ≡ ok tt)
          × Stored (fill_of o) (reconcile_master poller m w).1
    unfolding reconcile_master after_read poller
    reconcile_master-Stored o os w e h t f = rw e (
      refl,
      reconcile_orders-Stored (R.now w.1).0 o os (w.0, (R.get_master_orders m (R.now w.1).1).1) h t
          f,
    )
