-- ===== src/Recon/Pass.antt =====
-- reconciler.go: RunOnce. Times are in nanoseconds.
use envoy_trade.Common.{
  ℕ, ◌+◌, ◌-◌, ◌*◌, ◌^◌, Bool, ◌&&◌, ◌||◌, not, String, str_eq, str_append, Option, none, some,
  List, [], ◌∷◌, select, is_empty, get_last, ltb, ℤ, eqb_ℤ, Result, ok, err, wrap, error_text,
  if◌then◌else◌,
}
use envoy_trade.Common.State.{State, pure, ◌>>=◌, ◌>>◌, or_return}
use envoy_trade.Domain.Decimal.{Decimal}
use envoy_trade.Domain.Types.{
  Uuid, Instant, FollowerOrder, OrderEvent, is_terminal, terminal_complete,
}
use envoy_trade.Recon.Master.{Order, reconcile_master}
use envoy_trade.Recon.Follower.{FollowerEnv, reconcile_follower}

-- the fields of domain.Account that RunOnce reads
pub record Polled : Type 0 where
  pub id : Uuid
  pub role : String
  pub active : Bool

pub record PassEnv (S : Type 0) : Type 0 where
  pub polls : FollowerEnv S
  pub pending_threshold : ℕ
  pub accounts : S → Result (List Polled) × S
  pub pending_follower_orders : Instant → S → Result (List FollowerOrder) × S
  pub get_follower_order_history : Uuid → String → S → Result (List Order) × S
  pub update_follower_order_failed : ℕ → String → String → S → Result (Unit {0}) × S
  pub update_follower_order_status : String → String → ℤ → Decimal → S → Result ℕ × S
  pub append_order_event : OrderEvent → S → Result (Unit {0}) × S
  pub sweep_pending_order_updates : Instant → S → Result (List String) × S

abbrev pub five_minutes : ℕ
five_minutes = 5 * 60 * 10 ^ 9

abbrev pub one_day : ℕ
one_day = 24 * 3600 * 10 ^ 9

unfoldable pub with_role : String → List Polled → List Polled
with_role role accounts = select (λ (a : Polled). a.active && str_eq a.role role) accounts

module _ {S : Type 0} (E : PassEnv S) where
  -- time.Since(fo.CreatedAt) > 5*time.Minute
  unfoldable pub fail_if_old : FollowerOrder → String → State S (Unit {0})
  fail_if_old fo message = do
    now ← E.polls.recon.now
    if ltb (fo.created_at + five_minutes) now
        then (do E.update_follower_order_failed fo.id "FAILED" message; pure tt)
        else pure tt

  unfoldable pub give_up : FollowerOrder → String → String → State S (Unit {0})
  give_up fo alert message = do E.polls.recon.alert alert; fail_if_old fo message

  unfoldable pub reconciled_event : FollowerOrder → Order → OrderEvent
  reconciled_event fo latest = record {
    id = 0;
    follower_order_id = some fo.id;
    master_fill_id = none;
    account_id = fo.follower_id;
    event_type = "reconciled";
    payload = E.polls.recon.marshal latest;
    occurred_at = 0;
  }

  unfoldable pub after_status : FollowerOrder → Order → Result ℕ → State S (Unit {0})
  after_status fo latest (err e) =
      E.polls.recon.alert "failed to update resolved follower order status"
  after_status fo latest (ok id) = do E.append_order_event (reconciled_event fo latest); pure tt

  unfoldable pub check_drift : FollowerOrder → Order → State S (Unit {0})
  check_drift fo latest =
      if not (str_eq latest.status terminal_complete)
        || not (eqb_ℤ latest.filled_quantity fo.intended_qty)
      then E.polls.recon.alert "drift detected on follower order"
      else pure tt

  unfoldable pub settle : FollowerOrder → Order → State S (Unit {0})
  settle fo latest = do
    updated ←
        E.update_follower_order_status fo.broker_order_id latest.status latest.filled_quantity
          latest.average_price
    after_status fo latest updated
    check_drift fo latest

  unfoldable pub judge : FollowerOrder → Option Order → State S (Unit {0})
  judge fo none =
      give_up fo "follower order not found at broker" "order not found at broker past 5m"
  judge fo (some latest) =
      if is_terminal latest.status
      then settle fo latest
      else give_up fo "follower order remains non-terminal past timeout"
          (str_append "order remains non-terminal past 5m: " latest.status)

  unfoldable pub after_history : FollowerOrder → Result (List Order) → State S (Unit {0})
  after_history fo (err e) =
      give_up fo "failed to read follower order history"
        (str_append "order unresolvable at broker past 5m: " (error_text e))
  after_history fo (ok history) = judge fo (get_last history)

  unfoldable pub inspect : FollowerOrder → State S (Unit {0})
  inspect fo =
      if str_eq fo.broker_order_id ""
      then give_up fo "unresolved follower order: missing broker_order_id past threshold"
          "order unplaced without broker_order_id past 5m"
      else do
        history ← E.get_follower_order_history fo.follower_id fo.broker_order_id
        after_history fo history

  unfoldable pub inspect_each : List FollowerOrder → State S (Unit {0})
  inspect_each [] = pure tt
  inspect_each (fo ∷ fos) = do inspect fo; inspect_each fos

  unfoldable pub alert_swept : Result (List String) → State S (Unit {0})
  alert_swept (err e) = pure tt
  alert_swept (ok ids) =
      if is_empty ids
      then pure tt
      else E.polls.recon.alert "stale unmatched pending order updates swept"

  unfoldable pub after_pending : Instant → List FollowerOrder → State S (Result (Unit {0}))
  after_pending now fos = do
    inspect_each fos
    swept ← E.sweep_pending_order_updates (now - one_day)
    alert_swept swept
    pure (ok tt)

  unfoldable pub poll_masters : List Polled → State S (Unit {0})
  poll_masters [] = pure tt
  poll_masters (a ∷ others) = do reconcile_master E.polls.recon a.id; poll_masters others

  unfoldable pub poll_followers : List Polled → State S (Unit {0})
  poll_followers [] = pure tt
  poll_followers (a ∷ others) = do reconcile_follower E.polls a.id; poll_followers others

  unfoldable pub with_accounts : List Polled → State S (Result (Unit {0}))
  with_accounts accounts = do
    now ← E.polls.recon.now
    poll_masters (with_role "master" accounts)
    poll_followers (with_role "follower" accounts)
    pending ← E.pending_follower_orders (now - E.pending_threshold)
    or_return (wrap "recon: fetch pending follower orders") (after_pending now) pending

  -- RunOnce
  unfoldable pub run_once : State S (Result (Unit {0}))
  run_once = do
    accounts ← E.accounts
    or_return (wrap "recon: list accounts") with_accounts accounts
