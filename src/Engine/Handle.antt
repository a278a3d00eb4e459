-- ===== src/Engine/Handle.antt =====
-- HandleMasterFill.
use envoy_trade.Common.{
  ℕ, ◌-◌, ◌/◌, Bool, true, false, ◌&&◌, not, str_eq, starts_with, List, [], ◌∷◌, map, ltb, ℤ, pos,
  wrap, Result, ok, if◌then◌else◌,
}
use envoy_trade.Common.State.{State, pure, ◌>>=◌, ◌>>◌, or_return}
use envoy_trade.Domain.Decimal.{Float64}
use envoy_trade.Domain.Types.{
  Instant, DispatchState, dead, MasterFill, FollowLink, terminal_complete,
}
use envoy_trade.Domain.Types
use envoy_trade.Engine.Parts.{
  Env, Engine, set_state, inserted, recorded, ask, note, is_kill_switch_engaged, resolve_lot_size,
}
use envoy_trade.Engine.Sizing.{Candidate, candidate_of, order_of, has_scaled_ratios}
use envoy_trade.Engine.Prices.{resolve_execution_prices}
use envoy_trade.Engine.Dispatch.{Counts, dispatch_all}

module _ {W : Type 0} (E : Env W) where
  unfoldable pub set_dispatch_state : ℕ → DispatchState → State (Engine W) (Result (Unit {0}))
  set_dispatch_state id state = do
    note (set_state id state)
    ask (E.set_master_fill_dispatch_state id state)

  -- A branch that ends the fan-out early: the state is written only for a stored fill.
  unfoldable pub drop_fill : MasterFill → DispatchState → State (Engine W) (Result (Unit {0}))
  drop_fill fill state =
      if ltb 0 fill.id then (do set_dispatch_state fill.id state; pure (ok tt)) else pure (ok tt)

  -- the average price stands in for a price that is not set
  abbrev execution_price : MasterFill → Float64 → Float64
  execution_price fill price =
      if E.numerics.float_le_zero price then E.numerics.to_float fill.average_price else price

  unfoldable pub record_event :
      MasterFill → Instant → Float64 → Counts → State (Engine W) (Unit {0})
  record_event fill start price counts = do
    stamp ← ask E.now
    finish ← ask E.now
    note (
        recorded (record {
          timestamp = stamp;
          tradingsymbol = fill.tradingsymbol;
          exchange = fill.exchange;
          transaction_type = fill.transaction_type;
          master_qty = fill.filled_quantity;
          price = execution_price fill price;
          followers_count = counts.0;
          skipped_count = counts.1;
          latency_ms = (finish - start) / 1000000;
        }))

  unfoldable pub record_execution :
      MasterFill → Instant → Float64 → Counts → State (Engine W) (Unit {0})
  record_execution fill start price counts =
      if E.records then record_event fill start price counts else pure tt

  unfoldable pub finish :
      MasterFill → Instant → Float64 → Counts → State (Engine W) (Result (Unit {0}))
  finish fill start price counts = do
    record_execution fill start price counts
    set_dispatch_state fill.id Types.dispatched

  -- steps 4 and 5, from the candidates on
  unfoldable pub insert_and_dispatch :
      MasterFill → Instant → ℤ → List Candidate → State (Engine W) (Result (Unit {0}))
  insert_and_dispatch fill start lot_size candidates = do
    let orders = map (order_of E.numerics fill lot_size) candidates
    let prices = resolve_execution_prices E.numerics E.decode_prices fill
    note (inserted orders)
    batch ← ask (E.insert_follower_orders_batch orders)
    or_return (wrap "bulk insert follower orders")
        (λ ids. do
          counts ← dispatch_all E fill prices ids candidates (0, 0)
          finish fill start prices.0 counts)
        batch

  -- step 2: the lot size is resolved only if some link is scaled
  unfoldable pub lot_size_for : MasterFill → List FollowLink → State (Engine W) (Result ℤ)
  lot_size_for fill links =
      if has_scaled_ratios E.numerics links
      then resolve_lot_size E fill.exchange fill.tradingsymbol
      else pure (ok (pos 0))

  unfoldable pub fan_out :
      MasterFill → Instant → List FollowLink → State (Engine W) (Result (Unit {0}))
  fan_out fill start links = do
    lot ← lot_size_for fill links
    or_return (wrap "lookup instrument lot size")
        (λ lot_size.
          insert_and_dispatch fill start lot_size
            (map (candidate_of E.numerics E.digest fill lot_size) links))
        lot

  -- the branch `len(links) == 0` records an event with no followers
  unfoldable pub with_links :
      MasterFill → Instant → List FollowLink → State (Engine W) (Result (Unit {0}))
  with_links fill start [] = finish fill start (E.numerics.to_float fill.price) (0, 0)
  with_links fill start (link ∷ links) = fan_out fill start (link ∷ links)

  unfoldable pub if_active : MasterFill → Instant → Bool → State (Engine W) (Result (Unit {0}))
  if_active fill start false = pure (ok tt)
  if_active fill start true = do
    links ← ask (E.enabled_follow_links fill.master_id)
    or_return (wrap "load follow links") (with_links fill start) links

  unfoldable pub check_active : MasterFill → Instant → State (Engine W) (Result (Unit {0}))
  check_active fill start = do
    active ← ask (E.master_active fill.master_id)
    or_return (wrap "check master active") (if_active fill start) active

  -- The gates before the store is asked.
  unfoldable pub gates : MasterFill → Instant → Engine W → Result (Unit {0}) × Engine W
  gates fill start e =
      if is_kill_switch_engaged e
      then drop_fill fill Types.dispatched e
      else if not (str_eq fill.status "") && not (str_eq fill.status terminal_complete)
      then drop_fill fill dead e
      else if starts_with fill.tag "sqoff"
      then drop_fill fill Types.dispatched e
      else check_active fill start e

  unfoldable pub handle_master_fill : MasterFill → State (Engine W) (Result (Unit {0}))
  handle_master_fill fill = do start ← ask E.now; gates fill start
