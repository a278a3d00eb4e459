-- ===== src/Squareoff/Group.antt =====
-- service.go: SquareOffGroup. Its goroutines run one after another, each to its end, in the order that
-- `schedule` gives, and none panics.
use envoy_trade.Common.{
  ◌+◌, Bool, false, ◌&&◌, String, str_eq, str_append, some, List, [], ◌∷◌, ◌++◌, length, is_empty,
  Result, ok, err, Error, wrap, error_text, if◌then◌else◌,
}
use envoy_trade.Common.State.{State, pure, ◌>>=◌, ◌>>◌, or_return}
use envoy_trade.Domain.Types.{Uuid}
use envoy_trade.Desk.{Desk, ask}
use envoy_trade.Squareoff.Account.{SquareOffResult, SquareoffEnv, with_error, square_off_account}

-- the fields of domain.GroupDetail that the service reads; a follower with its Enabled
pub record Group : Type 0 where
  pub master_id : Uuid
  pub followers : List (Uuid × Bool)

pub record GroupEnv (B S : Type 0) : Type 0 where
  pub accounts : SquareoffEnv B S
  pub group_detail : Uuid → S → Result Group × S
  pub set_group_imbalance : Uuid → Bool → S → Result (Unit {0}) × S

unfoldable pub enabled_ids : List (Uuid × Bool) → List Uuid
enabled_ids [] = []
enabled_ids ((id, enabled) ∷ fs) = let rest = enabled_ids fs in if enabled then id ∷ rest else rest

unfoldable pub new_group_result : Uuid → Group → SquareOffResult
new_group_result group_id g = record {
  action = "square_off";
  status = "completed";
  group_id = some group_id;
  account_id = some g.master_id;
  role = "master";
  followers_affected = length (enabled_ids g.followers);
  cancelled_orders = 0;
  positions_squared_off = 0;
  orders = [];
  errors = [];
}

unfoldable pub with_errors : List String → SquareOffResult → SquareOffResult
with_errors errors r =
    if is_empty errors then r else record r { errors = r.errors ++ errors; status = "partial" }

-- What an account answered goes into the group's result.
unfoldable pub merge : (Error → String) → Result SquareOffResult → SquareOffResult → SquareOffResult
merge text (err e) r = with_error (text e) r
merge text (ok a) r = with_errors a.errors (record r {
  cancelled_orders = r.cancelled_orders + a.cancelled_orders;
  positions_squared_off = r.positions_squared_off + a.positions_squared_off;
  orders = r.orders ++ a.orders;
})

module _ {B S : Type 0} (E : GroupEnv B S) (schedule : List Uuid → List Uuid) (group_id : Uuid)
    (symbols : List String) where
  unfoldable pub error_of : String → Uuid → Error → String
  error_of role id e =
      str_append role (
        str_append " " (str_append (E.accounts.desk.uuid_text id) (str_append ": " (error_text e))))

  unfoldable pub run_one : String → Uuid → SquareOffResult → State (Desk S) SquareOffResult
  run_one role id r = do
    answer ← square_off_account E.accounts id symbols
    pure (merge (error_of role id) answer r)

  unfoldable pub run_each : List Uuid → SquareOffResult → State (Desk S) SquareOffResult
  run_each [] r = pure r
  run_each (id ∷ ids) r = do one ← run_one "follower" id r; run_each ids one

  unfoldable pub may_clear : SquareOffResult → Bool
  may_clear r = is_empty symbols && is_empty r.errors && str_eq r.status "completed"

  unfoldable pub clear_if_done : SquareOffResult → State (Desk S) (Unit {0})
  clear_if_done r =
      if may_clear r
      then (do ask E.accounts.desk (E.set_group_imbalance group_id false); pure tt)
      else pure tt

  unfoldable pub with_group : Group → State (Desk S) (Result SquareOffResult)
  with_group g = do
    first ← run_one "master" g.master_id (new_group_result group_id g)
    rest ← run_each (schedule (enabled_ids g.followers)) first
    clear_if_done rest
    pure (ok rest)

  -- SquareOffGroup
  unfoldable pub square_off_group : State (Desk S) (Result SquareOffResult)
  square_off_group = do
    found ← ask E.accounts.desk (E.group_detail group_id)
    or_return (wrap "load group detail") with_group found
