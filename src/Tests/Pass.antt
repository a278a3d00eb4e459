-- ===== src/Tests/Pass.antt =====
-- A pass of the reconciler over two pending orders.
use envoy_trade.Common.{ℕ, ◌+◌, ◌≡◌, refl, true, false, [], ◌∷◌, ok, err, other, pos, String}
use envoy_trade.Domain.Types.{FollowerOrder, is_terminal}
use envoy_trade.Desk.{market_order, market_row}
use envoy_trade.Recon.Master.{ReconEnv}
use envoy_trade.Recon.Pass.{
  PassEnv, fail_if_old, give_up, reconciled_event, after_status, check_drift, settle, judge,
  after_history, inspect, inspect_each,
}
use envoy_trade.Recon.Logged.{
  clock_read, history_read, failure_written, status_written, appended, alerted, logged,
}
use envoy_trade.Tests.Exact.{exact}
use envoy_trade.Tests.Recon.{missed_order}

abbrev row : String → FollowerOrder
row broker_id =
    record (market_row 5 "copy" (market_order "NFO" "NIFTY" "BUY" "NRML" (pos 50) "tag")) {
      broker_order_id = broker_id;
    }

-- The clock reads ten minutes; the rows are from the beginning.
abbrev reads : ReconEnv ℕ
reads = record {
  numerics = exact;
  marshal = λ o. [];
  polling_window = 900;
  now = λ n. (600000000000, n);
  get_master_orders = λ m n. (err (other "down"), n);
  master_fill_exists = λ m b q s n. (ok true, n);
  handle = λ f n. (ok tt, n);
  alert = λ m n. (tt, n + 1);
}

abbrev env : PassEnv ℕ
env = record {
  polls = record {
    recon = reads;
    has_consumer = true;
    get_follower_orders = λ f n. (ok (missed_order ∷ []), n);
    follower_order_terminal_exists = λ f b n. (ok false, n);
    handle_update = λ u n. (ok tt, n);
  };
  pending_threshold = 15000000000;
  accounts = λ n. (
    ok (
        record { id = 9; role = "master"; active = true }
        ∷ record { id = 5; role = "follower"; active = true }
        ∷ []),
    n,
  );
  pending_follower_orders = λ t n. (ok (row "" ∷ row "m-2" ∷ []), n);
  get_follower_order_history = λ f b n. (ok (missed_order ∷ []), n);
  update_follower_order_failed = λ id t m n. (ok tt, n);
  update_follower_order_status = λ b t q p n. (ok 3, n);
  append_order_event = λ e n. (ok tt, n);
  sweep_pending_order_updates = λ t n. (ok [], n);
}

calls_for_orders :
    (inspect_each (logged env) (row "" ∷ row "m-2" ∷ []) (0, [])).1.1
    ≡ alerted "unresolved follower order: missing broker_order_id past threshold"
      ∷ clock_read 600000000000
      ∷ failure_written (row "").id "FAILED" "order unplaced without broker_order_id past 5m"
      ∷ history_read 5 "m-2" (ok (missed_order ∷ []))
      ∷ status_written "m-2" "COMPLETE" (pos 50) missed_order.average_price (ok 3)
      ∷ appended (reconciled_event (logged env) (row "m-2") missed_order)
      ∷ []
unfolding inspect_each inspect give_up fail_if_old after_history judge settle after_status
    check_drift is_terminal
calls_for_orders = refl
