-- ===== src/Squareoff/Account.antt =====
-- service.go: SquareOffAccount.
use Prim.Native.String.{len}
use envoy_trade.Common.{
  ℕ, suc, Bool, ◌&&◌, ◌||◌, not, String, str_eq, str_append, slice, Option, none, some, List, [],
  ◌∷◌, ◌++◌, any, is_empty, ℤ, pos, neg, ltb_ℤ, eqb_ℤ, wrap64, Result, ok, err, Error, wrap,
  not_found, account_disabled, error_text, ltb, ◌==◌, if◌then◌else◌,
}
use envoy_trade.Common.State.{State, pure, ◌>>=◌, ◌>>◌}
use envoy_trade.Common.Words.{to_lower, trim_space, equal_fold}
use envoy_trade.Domain.Types.{Uuid}
use envoy_trade.Worker.Parts.{OrderParams}
use envoy_trade.Recon.Master.{Order}
use envoy_trade.Rebalance.Drift.{Position}
use envoy_trade.Desk.{
  DeskEnv, Desk, market_order, market_row, ask, note_placed, note_cancelled,
  get_positions_with_retry, row_id, update_if_row, sync_after,
}
use envoy_trade.Desk.Tags.{order_tag}

-- domain.SquareOffOrder
pub record SquareOffOrder : Type 0 where
  pub account_id : Uuid
  pub role : String
  pub broker_order_id : String
  pub exchange : String
  pub tradingsymbol : String
  pub product : String
  pub side : String
  pub quantity : ℤ
  pub status : String

-- domain.SquareOffResult
pub record SquareOffResult : Type 0 where
  pub action : String
  pub status : String
  pub group_id : Option Uuid
  pub account_id : Option Uuid
  pub role : String
  pub followers_affected : ℕ
  pub cancelled_orders : ℕ
  pub positions_squared_off : ℕ
  pub orders : List SquareOffOrder
  pub errors : List String

-- matchSymbol
unfoldable pub match_symbol : String → List String → Bool
match_symbol symbol selected =
    is_empty selected || any (λ s. equal_fold (trim_space s) (trim_space symbol)) selected

-- What SquareOffAccount uses: the desk, and the store's account. `account_enabled` is Accounts for one
-- id, of which only Enabled is read.
pub record SquareoffEnv (B S : Type 0) : Type 0 where
  pub desk : DeskEnv B S
  pub account_role : Uuid → S → Result String × S
  pub account_enabled : Uuid → S → Result (List Bool) × S

unfoldable pub side_of : ℤ → String
side_of qty = if ltb_ℤ qty (pos 0) then "BUY" else "SELL"

-- abs
unfoldable pub abs : ℤ → ℤ
abs x = if ltb_ℤ x (pos 0) then wrap64 (neg x) else x

unfoldable pub role_prefix : String → String
role_prefix role = if ltb 0 (len role) then to_lower (slice role 0 1) else "a"

unfoldable pub squareoff_tag : String → String → ℕ → String
squareoff_tag role id_text ts =
    order_tag (str_append "sqoff-" (str_append (role_prefix role) "-")) id_text ts

unfoldable pub closing_order : Position → String → OrderParams
closing_order p tag =
    market_order p.exchange p.tradingsymbol (side_of p.quantity) p.product (abs p.quantity) tag

unfoldable pub is_wanted : List String → Position → Bool
is_wanted symbols p = not (eqb_ℤ p.quantity (pos 0) || not (match_symbol p.tradingsymbol symbols))

unfoldable pub new_result : Uuid → String → SquareOffResult
new_result account_id role = record {
  action = "square_off";
  status = "completed";
  group_id = none;
  account_id = some account_id;
  role = role;
  followers_affected = 1;
  cancelled_orders = 0;
  positions_squared_off = 0;
  orders = [];
  errors = [];
}

unfoldable pub with_error : String → SquareOffResult → SquareOffResult
with_error message r = record r { errors = r.errors ++ message ∷ []; status = "partial" }

unfoldable pub with_order : SquareOffOrder → SquareOffResult → SquareOffResult
with_order o r = record r {
  positions_squared_off = suc r.positions_squared_off;
  orders = r.orders ++ o ∷ [];
}

-- nothing placed and nothing failed
unfoldable pub settled : SquareOffResult → SquareOffResult
settled r =
    if r.positions_squared_off == 0 && is_empty r.errors
    then record r { status = "completed" }
    else r

module _ {B S : Type 0} (E : SquareoffEnv B S) (account_id : Uuid) (symbols : List String) where
  abbrev D : DeskEnv B S
  D = E.desk

  unfoldable pub count_cancelled : Result String → ℕ → ℕ
  count_cancelled (ok id) n = suc n
  count_cancelled (err e) n = n

  unfoldable pub cancel_one : B → Order → ℕ → State (Desk S) ℕ
  cancel_one b o n =
      if match_symbol o.tradingsymbol symbols
      then (do
        note_cancelled D o.order_id
        cancelled ← ask D (D.cancel_order b o.order_id)
        pure (count_cancelled cancelled n))
      else pure n

  unfoldable pub cancel_each : B → List Order → ℕ → State (Desk S) ℕ
  cancel_each b [] n = pure n
  cancel_each b (o ∷ os) n = do more ← cancel_one b o n; cancel_each b os more

  unfoldable pub cancel_open : B → Result (List Order) → State (Desk S) ℕ
  cancel_open b (err e) = pure 0
  cancel_open b (ok os) = cancel_each b os 0

  -- a row is written for followers only
  unfoldable pub pre_insert : String → OrderParams → State (Desk S) ℤ
  pre_insert role params =
      if str_eq role "follower"
      then (do
        inserted ← ask D (D.insert_follower_order (market_row account_id "square_off" params))
        pure (row_id D inserted))
      else pure (pos 0)

  unfoldable pub receipt_of : String → OrderParams → String → SquareOffOrder
  receipt_of role params broker_order_id = record {
    account_id = account_id;
    role = role;
    broker_order_id = broker_order_id;
    exchange = params.exchange;
    tradingsymbol = params.tradingsymbol;
    product = params.product;
    side = params.transaction_type;
    quantity = params.quantity;
    status = "placed";
  }

  unfoldable pub failure_text : String → Error → String
  failure_text symbol e = str_append "account " (
      str_append (D.uuid_text account_id)
        (str_append " square off " (str_append symbol (str_append ": " (error_text e)))))

  unfoldable pub after_place :
      String → OrderParams → ℤ → Result String → SquareOffResult → State (Desk S) SquareOffResult
  after_place role params row (err e) r = do
    update_if_row D row (λ id. D.update_follower_order_failed id "REJECTED" (error_text e))
    pure (with_error (failure_text params.tradingsymbol e) r)
  after_place role params row (ok broker_order_id) r = do
    update_if_row D row (λ id. D.update_follower_order_placed id broker_order_id params.quantity)
    pure (with_order (receipt_of role params broker_order_id) r)

  unfoldable pub place_closing :
      B → String → OrderParams → SquareOffResult → State (Desk S) SquareOffResult
  place_closing b role params r = do
    row ← pre_insert role params
    note_placed D params
    response ← ask D (D.place_order b params)
    after_place role params row response r

  unfoldable pub close_position :
      B → String → Position → SquareOffResult → State (Desk S) SquareOffResult
  close_position b role p r =
      if is_wanted symbols p
      then (do
        ts ← ask D D.unix_time
        place_closing b role (closing_order p (squareoff_tag role (D.uuid_text account_id) ts)) r)
      else pure r

  unfoldable pub close_each :
      B → String → List Position → SquareOffResult → State (Desk S) SquareOffResult
  close_each b role [] r = pure r
  close_each b role (p ∷ ps) r = do more ← close_position b role p r; close_each b role ps more

  unfoldable pub close_all :
      String
      → SquareOffResult
      → Result (List Position) × B
      → State (Desk S) (Result SquareOffResult)
  close_all role r (err e, b) = pure (err (wrap "fetch positions" e))
  close_all role r (ok ps, b) = do
    done ← close_each b role ps r
    sync_after D account_id
    pure (ok (settled done))

  unfoldable pub with_broker : String → Result B → State (Desk S) (Result SquareOffResult)
  with_broker role (err e) = pure (err (wrap "resolve broker" e))
  with_broker role (ok b) = do
    open_orders ← ask D (D.get_open_orders b)
    n ← cancel_open b open_orders
    positions ← get_positions_with_retry D account_id b
    close_all role (record (new_result account_id role) { cancelled_orders = n }) positions

  unfoldable pub resolve_for : String → State (Desk S) (Result SquareOffResult)
  resolve_for role = do resolved ← ask D (D.resolve_broker account_id); with_broker role resolved

  unfoldable pub if_enabled : String → Result (List Bool) → State (Desk S) (Result SquareOffResult)
  if_enabled role (err e) = pure (err (wrap "load account" e))
  if_enabled role (ok []) = pure (err not_found)
  if_enabled role (ok (enabled ∷ more)) =
      if enabled
      then resolve_for role
      else pure (err (wrap (str_append "follower " (D.uuid_text account_id)) account_disabled))

  unfoldable pub for_role : Result String → State (Desk S) (Result SquareOffResult)
  for_role (err e) = pure (err (wrap "check account role" e))
  for_role (ok role) =
      if str_eq role "follower"
      then (do enabled ← ask D (E.account_enabled account_id); if_enabled role enabled)
      else resolve_for role

  -- SquareOffAccount
  unfoldable pub square_off_account : State (Desk S) (Result SquareOffResult)
  square_off_account = do role ← ask D (E.account_role account_id); for_role role
