-- ===== src/Broker/Terminal.antt =====
-- testbroker/engine.go: a fill that overlaps a cancellation.
use envoy_trade.Common.{◌≡◌, refl, ap, subst, ◌∙◌, true, String, str_eq, eq_iff, some, ok}
use envoy_trade.Common.Keyed.{find, store, find-store_self}
use envoy_trade.Domain.Decimal.{Float64}
use envoy_trade.Broker.Order.{Order, OrderEngine}
use envoy_trade.Broker.Book.{
  write_order, open_order, filled_order, cancelled_order, fill_locked, when_open, cancel_order,
}
use envoy_trade.Broker.Final.{fill_locked_found}

is_open :
    (id : String) (o : Order) (e : OrderEngine)
    → find id e.orders ≡ some o
    → o.status ≡ "OPEN"
    → open_order id e ≡ ok o
unfolding open_order
is_open id o e h s =
    let t : str_eq o.status "OPEN" ≡ true = (eq_iff o.status "OPEN").1 s in
    rw (h, open_order, t) refl

written_found :
    (id : String) (o : Order) (e : OrderEngine)
    → o.order_id ≡ id
    → find id (write_order o e).orders ≡ some o
unfolding write_order
written_found id o e h =
    subst (λ i. find i (store o.order_id o e.orders) ≡ some o) h
      (find-store_self o.order_id o e.orders)

-- FillOrder leaves its lock between the check and the change: if a cancellation of the same open
-- order runs in between, the check has passed, the cancellation succeeds, and the order ends as
-- COMPLETE with its whole quantity both filled and cancelled.
pub fill_overlaps_cancel :
    (id : String) (o : Order) (price : Float64) (now later : String) (e : OrderEngine)
    → find id e.orders ≡ some o
    → o.order_id ≡ id
    → o.status ≡ "OPEN"
    → let between = cancel_order id now e in
      (open_order id e ≡ ok o)
      × (between.0 ≡ ok tt)
      × ((last : Order) × (find id (fill_locked id price later between.1).orders ≡ some last)
          × (last.status ≡ "COMPLETE")
          × (last.filled_quantity ≡ o.quantity)
          × (last.cancelled_quantity ≡ o.quantity))
unfolding cancel_order filled_order cancelled_order
fill_overlaps_cancel id o price now later e h same s =
    let passed = is_open id o e h s in
    let gone = cancelled_order now o in
    let step : cancel_order id now e ≡ (ok tt, write_order gone e) =
      ap (λ r. when_open r (λ q. write_order (cancelled_order now q) e) e) passed in
    let there = written_found id gone e same in
    let last = filled_order price later gone in
    let end = fill_locked_found id price later (write_order gone e) gone there in
    (
      passed,
      ap (λ r. r.0) step,
      (
        last,
        ap (λ r. find id (fill_locked id price later r.1).orders) step
            ∙ ap (λ f. find id f.orders) end
            ∙ written_found id last (write_order gone e) same,
        refl,
        refl,
        refl,
      ),
    )
