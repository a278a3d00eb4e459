-- ===== src/Desk.antt =====
-- What internal/squareoff/service.go and internal/rebalance/service.go have in common: the calls of the
-- broker and the store by which an account's orders are cancelled and placed.
pub mod Tags
pub mod Quiet
use envoy_trade.Common.{
  ℕ, Bool, true, false, ◌&&◌, ◌||◌, not, String, Option, none, some, List, [], ◌∷◌, ◌++◌, ℤ, pos,
  ltb_ℤ, contains, Result, ok, err, Error, error_text, if◌then◌else◌,
}
use envoy_trade.Common.State.{State, pure, ◌>>=◌, ◌>>◌}
use envoy_trade.Common.Words.{to_lower}
use envoy_trade.Domain.Types.{Uuid, FollowerOrder, reason_ok}
use envoy_trade.Worker.Parts.{OrderParams}
use envoy_trade.Recon.Master.{Order, zero_decimal}
use envoy_trade.Rebalance.Drift.{Position}

-- The broker, the order store and the portfolio syncer, over a world `S`. `B` is the type of brokers.
-- `unix_time` is time.Now().Unix(), and `uuid_text` is uuid's String.
pub record DeskEnv (B S : Type 0) : Type 0 where
  pub resolve_broker : Uuid → S → Result B × S
  pub get_open_orders : B → S → Result (List Order) × S
  pub cancel_order : B → String → S → Result String × S
  pub get_positions : B → S → Result (List Position) × S
  pub place_order : B → OrderParams → S → Result String × S
  pub has_syncer : Bool
  pub sync_portfolio : Uuid → S → Result (Unit {0}) × S
  pub insert_follower_order : FollowerOrder → S → Result ℤ × S
  pub update_follower_order_placed : ℤ → String → ℤ → S → Result (Unit {0}) × S
  pub update_follower_order_failed : ℤ → String → String → S → Result (Unit {0}) × S
  pub unix_time : S → ℕ × S
  pub uuid_text : Uuid → String

-- The world, and a history that nothing reads: the positions that a broker answered last, and the orders
-- that were cancelled and placed, in order.
pub record Desk (S : Type 0) : Type 0 where
  pub world : S
  pub answered : List Position
  pub cancelled : List String
  pub placed : List OrderParams

unfoldable pub is_auth_error : Error → Bool
is_auth_error e =
    let msg = to_lower (error_text e) in
    contains msg "tokenexception"
    || contains msg "incorrect `api_key` or `access_token`"
    || contains msg "incorrect api_key or access_token"
    || contains msg "invalid token"

-- a market order, with the zero values of the prices
abbrev pub market_order : String → String → String → String → ℤ → String → OrderParams
market_order exchange symbol side product qty tag = record {
  exchange = exchange;
  tradingsymbol = symbol;
  transaction_type = side;
  product = product;
  order_type = "MARKET";
  quantity = qty;
  price = 0;
  trigger_price = 0;
  tag = tag;
}

-- the row of a market order that copies no fill, with the zero values of the other fields
abbrev pub market_row : Uuid → String → OrderParams → FollowerOrder
market_row follower_id origin p = record {
  id = 0;
  master_fill_id = 0;
  follower_id = follower_id;
  idempotency_tag = p.tag;
  intended_qty = p.quantity;
  lot_size = pos 0;
  sizing_reason = reason_ok;
  placed_qty = none;
  broker_order_id = "";
  terminal_status = "";
  filled_qty = pos 0;
  average_price = zero_decimal;
  attempt_count = 0;
  last_error = "";
  origin = origin;
  tradingsymbol = p.tradingsymbol;
  exchange = p.exchange;
  product = p.product;
  transaction_type = p.transaction_type;
  order_type = p.order_type;
  created_at = 0;
  updated_at = 0;
}

module _ {B S : Type 0} (E : DeskEnv B S) where
  abbrev pub ask : {A : Type 0} → (S → A × S) → State (Desk S) A
  ask f d = let r = f d.world in (r.0, record d { world = r.1 })

  abbrev pub note_answer : Result (List Position) → State (Desk S) (Unit {0})
  note_answer (ok ps) d = (tt, record d { answered = ps })
  note_answer (err e) d = (tt, d)

  abbrev pub note_placed : OrderParams → State (Desk S) (Unit {0})
  note_placed p d = (tt, record d { placed = d.placed ++ p ∷ [] })

  abbrev pub note_cancelled : String → State (Desk S) (Unit {0})
  note_cancelled id d = (tt, record d { cancelled = d.cancelled ++ id ∷ [] })

  unfoldable pub read_positions : B → State (Desk S) (Result (List Position))
  read_positions b = do answer ← ask (E.get_positions b); note_answer answer; pure answer

  unfoldable pub with_refreshed :
      B → Result (List Position) → Result B → State (Desk S) (Result (List Position) × B)
  with_refreshed b first (err e) = pure (first, b)
  with_refreshed b first (ok fresh) = do again ← read_positions fresh; pure (again, fresh)

  unfoldable pub after_sync :
      Uuid
      → B
      → Result (List Position)
      → Result (Unit {0})
      → State (Desk S) (Result (List Position) × B)
  after_sync id b first (err e) = pure (first, b)
  after_sync id b first (ok u) = do
    refreshed ← ask (E.resolve_broker id)
    with_refreshed b first refreshed

  unfoldable pub retry_positions :
      Uuid → B → Result (List Position) → State (Desk S) (Result (List Position) × B)
  retry_positions id b (ok ps) = pure (ok ps, b)
  retry_positions id b (err e) =
      if E.has_syncer && is_auth_error e
      then (do synced ← ask (E.sync_portfolio id); after_sync id b (err e) synced)
      else pure (err e, b)

  -- getPositionsWithRetry, with the broker that the later calls go to
  unfoldable pub get_positions_with_retry : Uuid → B → State (Desk S) (Result (List Position) × B)
  get_positions_with_retry id b = do first ← read_positions b; retry_positions id b first

  -- the id of an inserted row; 0 where the insertion fails, which is only logged
  abbrev pub row_id : Result ℤ → ℤ
  row_id (ok id) = id
  row_id (err e) = pos 0

  unfoldable pub update_if_row : ℤ → (ℤ → S → Result (Unit {0}) × S) → State (Desk S) (Unit {0})
  update_if_row id update = if ltb_ℤ (pos 0) id then (do ask (update id); pure tt) else pure tt

  unfoldable pub sync_after : Uuid → State (Desk S) (Unit {0})
  sync_after id = if E.has_syncer then (do ask (E.sync_portfolio id); pure tt) else pure tt
