-- ===== src/Rebalance/Account.antt =====
-- service.go: ComputeAccountDiff and RebalanceAccount.
use envoy_trade.Common.{
  ℕ, suc, Bool, not, String, str_eq, str_append, Option, none, some, List, [], ◌∷◌, ◌++◌, any, ℤ,
  pos, eqb_ℤ, Result, ok, err, Error, wrap, noted, not_found, account_disabled, auth_expired,
  broker_unreachable, error_text, if◌then◌else◌,
}
use envoy_trade.Common.State.{State, pure, ◌>>=◌, ◌>>◌, or_return}
use envoy_trade.Common.Words.{equal_fold}
use envoy_trade.Domain.Decimal.{Numerics}
use envoy_trade.Domain.Types.{Uuid}
use envoy_trade.Worker.Parts.{OrderParams}
use envoy_trade.Recon.Master.{Order}
use envoy_trade.Rebalance.Drift.{Position, Key, SymbolDrift, Account, abs, calculate_follower_drift}
use envoy_trade.Desk.{
  DeskEnv, Desk, is_auth_error, market_order, market_row, ask, note_placed, note_cancelled,
  get_positions_with_retry, row_id, update_if_row, sync_after,
}
use envoy_trade.Desk.Tags.{order_tag}

-- the fields of domain.Account that the service reads
pub record Follower : Type 0 where
  pub role : String
  pub master_id : Option Uuid
  pub enabled : Bool
  pub account : Account

-- `lot_size` is InstrumentLotSize, a read of the instrument table that changes nothing.
pub record RebalanceEnv (B S : Type 0) : Type 0 where
  pub desk : DeskEnv B S
  pub numerics : Numerics
  pub accounts : Uuid → S → Result (List Follower) × S
  pub lot_size : S → Key → Result ℤ

-- domain.FollowerDrift, less what is only displayed
pub record FollowerDrift : Type 0 where
  pub account_id : Uuid
  pub enabled : Bool
  pub symbols : List SymbolDrift

-- domain.RebalanceOrder
pub record RebalanceOrder : Type 0 where
  pub account_id : Uuid
  pub role : String
  pub broker_order_id : String
  pub exchange : String
  pub tradingsymbol : String
  pub product : String
  pub side : String
  pub quantity : ℤ
  pub status : String

-- domain.RebalanceResult
pub record RebalanceResult : Type 0 where
  pub action : String
  pub status : String
  pub group_id : Option Uuid
  pub account_id : Option Uuid
  pub followers_affected : ℕ
  pub cancelled_orders : ℕ
  pub orders_placed : ℕ
  pub orders : List RebalanceOrder
  pub errors : List String

-- wrapBrokerError
unfoldable pub wrap_broker_error : String → Error → Error
wrap_broker_error prefix e =
    if is_auth_error e
    then wrap prefix (noted auth_expired (error_text e))
    else wrap prefix (noted broker_unreachable (error_text e))

unfoldable pub new_result : Uuid → RebalanceResult
new_result id = record {
  action = "rebalance";
  status = "completed";
  group_id = none;
  account_id = some id;
  followers_affected = 1;
  cancelled_orders = 0;
  orders_placed = 0;
  orders = [];
  errors = [];
}

unfoldable pub with_failure : String → RebalanceResult → RebalanceResult
with_failure message r = record r { errors = r.errors ++ message ∷ []; status = "partial" }

unfoldable pub with_placed : RebalanceOrder → RebalanceResult → RebalanceResult
with_placed o r = record r { orders_placed = suc r.orders_placed; orders = r.orders ++ o ∷ [] }

unfoldable pub drift_order : SymbolDrift → String → OrderParams
drift_order s tag = market_order s.exchange s.tradingsymbol s.action s.product (abs s.drift_qty) tag

unfoldable pub has_quantity : SymbolDrift → Bool
has_quantity s = not (eqb_ℤ (abs s.drift_qty) (pos 0))

unfoldable pub is_drifting : List SymbolDrift → String → Bool
is_drifting drifts symbol = any (λ (s : SymbolDrift). equal_fold symbol s.tradingsymbol) drifts

module _ {B S : Type 0} (E : RebalanceEnv B S) (follower_id : Uuid) where
  abbrev D : DeskEnv B S
  D = E.desk

  unfoldable pub diff_of :
      Follower → List Position → Result (List Position) × B → State (Desk S) (Result FollowerDrift)
  diff_of f master (err e, b) = pure (err (wrap_broker_error "fetch follower positions" e))
  diff_of f master (ok mine, b) = λ d. (
    ok (record {
      account_id = follower_id;
      enabled = f.enabled;
      symbols = calculate_follower_drift E.numerics (E.lot_size d.world) f.account master mine;
    }),
    d,
  )

  unfoldable pub read_follower :
      Follower → B → Result (List Position) × B → State (Desk S) (Result FollowerDrift)
  read_follower f b (err e, c) = pure (err (wrap_broker_error "fetch master positions" e))
  read_follower f b (ok master, c) = do
    mine ← get_positions_with_retry D follower_id b
    diff_of f master mine

  unfoldable pub read_both : Follower → Uuid → B → B → State (Desk S) (Result FollowerDrift)
  read_both f master_id master_broker broker = do
    master ← get_positions_with_retry D master_id master_broker
    read_follower f broker master

  unfoldable pub with_master_broker : Follower → Uuid → B → State (Desk S) (Result FollowerDrift)
  with_master_broker f master_id master_broker = do
    resolved ← ask D (D.resolve_broker follower_id)
    or_return (wrap_broker_error "resolve follower broker") (read_both f master_id master_broker)
        resolved

  unfoldable pub diff_against : Follower → Option Uuid → State (Desk S) (Result FollowerDrift)
  diff_against f none = pure (
      err (
        wrap
          (str_append "account " (str_append (D.uuid_text follower_id) " is not a linked follower"))
          not_found))
  diff_against f (some master_id) = do
    resolved ← ask D (D.resolve_broker master_id)
    or_return (wrap_broker_error "resolve master broker") (with_master_broker f master_id) resolved

  unfoldable pub diff_for : List Follower → State (Desk S) (Result FollowerDrift)
  diff_for [] = pure (err not_found)
  diff_for (f ∷ fs) = diff_against f (if str_eq f.role "follower" then f.master_id else none)

  -- ComputeAccountDiff
  unfoldable pub compute_account_diff : State (Desk S) (Result FollowerDrift)
  compute_account_diff = do
    found ← ask D (E.accounts follower_id)
    or_return (wrap "load follower account") diff_for found

  unfoldable pub count_cancelled : Result String → ℕ → ℕ
  count_cancelled (ok id) n = suc n
  count_cancelled (err e) n = n

  unfoldable pub cancel_drifting : B → List SymbolDrift → Order → ℕ → State (Desk S) ℕ
  cancel_drifting b drifts o n =
      if is_drifting drifts o.tradingsymbol
      then (do
        note_cancelled D o.order_id
        cancelled ← ask D (D.cancel_order b o.order_id)
        pure (count_cancelled cancelled n))
      else pure n

  unfoldable pub cancel_each : B → List SymbolDrift → List Order → ℕ → State (Desk S) ℕ
  cancel_each b drifts [] n = pure n
  cancel_each b drifts (o ∷ os) n = do
    more ← cancel_drifting b drifts o n
    cancel_each b drifts os more

  unfoldable pub cancel_open : B → List SymbolDrift → Result (List Order) → State (Desk S) ℕ
  cancel_open b drifts (err e) = pure 0
  cancel_open b drifts (ok os) = cancel_each b drifts os 0

  unfoldable pub receipt_of : OrderParams → String → RebalanceOrder
  receipt_of p broker_order_id = record {
    account_id = follower_id;
    role = "follower";
    broker_order_id = broker_order_id;
    exchange = p.exchange;
    tradingsymbol = p.tradingsymbol;
    product = p.product;
    side = p.transaction_type;
    quantity = p.quantity;
    status = "placed";
  }

  unfoldable pub failure_text : OrderParams → Error → String
  failure_text p e = str_append "follower " (
      str_append (D.uuid_text follower_id) (
        str_append " rebalance " (
          str_append p.transaction_type
            (str_append " " (str_append p.tradingsymbol (str_append ": " (error_text e)))))))

  unfoldable pub after_place :
      OrderParams → ℤ → Result String → RebalanceResult → State (Desk S) RebalanceResult
  after_place p row (err e) r = do
    update_if_row D row (λ id. D.update_follower_order_failed id "REJECTED" (error_text e))
    pure (with_failure (failure_text p e) r)
  after_place p row (ok broker_order_id) r = do
    update_if_row D row (λ id. D.update_follower_order_placed id broker_order_id p.quantity)
    pure (with_placed (receipt_of p broker_order_id) r)

  unfoldable pub place_drift : B → OrderParams → RebalanceResult → State (Desk S) RebalanceResult
  place_drift b p r = do
    inserted ← ask D (D.insert_follower_order (market_row follower_id "rebalance" p))
    note_placed D p
    response ← ask D (D.place_order b p)
    after_place p (row_id D inserted) response r

  unfoldable pub correct_drift : B → SymbolDrift → RebalanceResult → State (Desk S) RebalanceResult
  correct_drift b s r =
      if has_quantity s
      then (do
        ts ← ask D D.unix_time
        place_drift b (drift_order s (order_tag "rebal-f-" (D.uuid_text follower_id) ts)) r)
      else pure r

  unfoldable pub correct_each :
      B → List SymbolDrift → RebalanceResult → State (Desk S) RebalanceResult
  correct_each b [] r = pure r
  correct_each b (s ∷ ss) r = do more ← correct_drift b s r; correct_each b ss more

  unfoldable pub correct_all : List SymbolDrift → B → State (Desk S) (Result RebalanceResult)
  correct_all drifts b = do
    open_orders ← ask D (D.get_open_orders b)
    n ← cancel_open b drifts open_orders
    r ← correct_each b drifts (record (new_result follower_id) { cancelled_orders = n })
    sync_after D follower_id
    pure (ok r)

  unfoldable pub correct : List SymbolDrift → State (Desk S) (Result RebalanceResult)
  correct [] = pure (ok (new_result follower_id))
  correct (s ∷ ss) = do
    resolved ← ask D (D.resolve_broker follower_id)
    or_return (wrap "resolve follower broker") (correct_all (s ∷ ss)) resolved

  unfoldable pub after_diff : FollowerDrift → State (Desk S) (Result RebalanceResult)
  after_diff f =
      if f.enabled
      then correct f.symbols
      else pure (err (wrap (str_append "follower " (D.uuid_text follower_id)) account_disabled))

  -- RebalanceAccount
  unfoldable pub rebalance_account : State (Desk S) (Result RebalanceResult)
  rebalance_account = do drift ← compute_account_diff; or_return (λ e. e) after_diff drift
