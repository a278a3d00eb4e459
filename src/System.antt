-- ===== src/System.antt =====
-- The engine wired to the store: cmd/server's wiring, where the engine's Store interface is the
-- Postgres store and everything else is outside.
pub mod Once
pub mod Known
pub mod Fills
use envoy_trade.Common.{ℕ, Bool, String, List, Option, none, some, ℤ, Result, ok, err}
use envoy_trade.Domain.Decimal.{Float64, Numerics}
use envoy_trade.Domain.Idempotency.{Digest}
use envoy_trade.Domain.Types.{Uuid, Instant, DispatchState, FollowLink, FollowerOrder, Job}
use envoy_trade.Engine.Parts.{Env}
use envoy_trade.Store.Tables.{Db}
use envoy_trade.Store.Inserts.{insert_follower_orders_batch}
use envoy_trade.Store.Updates.{set_master_fill_dispatch_state, update_follower_order_failed}

-- What the order tables do not determine: the other tables, the workers, the clock of the process and
-- the broker's own lot sizes, over a world `X`. A resolver cannot see the order tables.
pub record Outside (X : Type 0) : Type 0 where
  pub numerics : Numerics
  pub digest : Digest
  pub decode_prices : List ℕ → Option (Float64 × Float64)
  pub now : X → Instant × X
  pub master_active : Uuid → X → Result Bool × X
  pub enabled_follow_links : Uuid → X → Result (List FollowLink) × X
  pub instrument_lot_size : String → String → X → Result ℤ × X
  pub dispatch : Uuid → Job → X → Bool × X
  pub lot_size_resolver : Option (String → String → X → Result ℤ × X)
  pub records : Bool

module _ {X : Type 0} where
  -- an operation outside the order tables
  abbrev pub outside : {A : Type 0} → (X → A × X) → Db × X → A × (Db × X)
  outside f w = let r = f w.1 in (r.0, (w.0, r.1))

  -- an operation of the store on the order tables
  abbrev pub in_store : {A : Type 0} → (Db → A × Db) → Db × X → A × (Db × X)
  in_store f w = let r = f w.0 in (r.0, (r.1, w.1))

  abbrev pub lift_resolver :
      Option (String → String → X → Result ℤ × X)
      → Option (String → String → Db × X → Result ℤ × (Db × X))
  lift_resolver none = none
  lift_resolver (some f) = some (λ exchange symbol. outside (f exchange symbol))

  unfoldable pub wire : Outside X → Env (Db × X)
  wire O = record {
    numerics = O.numerics;
    digest = O.digest;
    decode_prices = O.decode_prices;
    now = outside O.now;
    master_active = λ m. outside (O.master_active m);
    enabled_follow_links = λ m. outside (O.enabled_follow_links m);
    instrument_lot_size = λ exchange symbol. outside (O.instrument_lot_size exchange symbol);
    insert_follower_orders_batch = λ os. in_store (insert_follower_orders_batch os);
    set_master_fill_dispatch_state =
        λ id st. in_store (λ db. (ok tt, set_master_fill_dispatch_state id st db));
    update_follower_order_failed = λ id status message.
        in_store (λ db. (ok tt, update_follower_order_failed id status message db));
    dispatch = λ id job. outside (O.dispatch id job);
    lot_size_resolver = lift_resolver O.lot_size_resolver;
    records = O.records;
  }
