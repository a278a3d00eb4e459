-- ===== src/Tests/Rebalancing.antt =====
-- A rebalance of one account.
use envoy_trade.Common.{
  ℕ, suc, ◌+◌, ◌≡◌, refl, arith, true, false, String, List, [], ◌∷◌, ok, err, other, some, pos,
  if◌then◌else◌, ◌==◌, map, wrap64, ℤ, subst, sym,
}
use envoy_trade.Worker.Parts.{OrderParams}
use envoy_trade.Rebalance.Drift.{SymbolDrift, abs, calculate_follower_drift}
use envoy_trade.Desk.{
  Desk, DeskEnv, read_positions, retry_positions, get_positions_with_retry, update_if_row,
  sync_after,
}
use envoy_trade.Desk.Tags.{order_tag, without_dashes, short_id, cut}
use envoy_trade.Rebalance.Account.{
  RebalanceEnv, FollowerDrift, drift_order, has_quantity, diff_of, read_follower, read_both,
  with_master_broker, diff_against, diff_for, compute_account_diff, cancel_each, cancel_open,
  after_place, place_drift, correct_drift, correct_each, correct_all, correct, after_diff,
  rebalance_account,
}
use envoy_trade.Rebalance.Outcome.{Outcome, AreBounded, rebalance_account-Outcome}
use envoy_trade.Tests.Exact.{exact}
use envoy_trade.Tests.Rebalance.{masters, followers, account, lots, wanted, unwanted, both_drifts}

-- Account 9 is the master; account 5 follows it. The broker rejects the second order.
abbrev desk : DeskEnv ℕ ℕ
desk = record {
  resolve_broker = λ id n. (ok id, suc n);
  get_open_orders = λ b n. (ok [], suc n);
  cancel_order = λ b id n. (ok id, suc n);
  get_positions = λ b n. (ok (if b == 9 then masters else followers), suc n);
  place_order = λ b p n. (if n == 9 then ok "B-1" else err (other "margin"), suc n);
  has_syncer = false;
  sync_portfolio = λ id n. (ok tt, suc n);
  insert_follower_order = λ o n. (ok (pos 40), suc n);
  update_follower_order_placed = λ id b q n. (ok tt, suc n);
  update_follower_order_failed = λ id s m n. (ok tt, suc n);
  unix_time = λ n. (1760000000 + n, suc n);
  uuid_text = λ id. "0f-3e9b";
}

abbrev env : RebalanceEnv ℕ ℕ
env = record {
  desk = desk;
  numerics = exact;
  accounts = λ id n. (
    ok (record { role = "follower"; master_id = some 9; enabled = true; account = account } ∷ []),
    suc n,
  );
  lot_size = λ n. lots;
}

abbrev at_start : Desk ℕ
at_start = record { world = 0; answered = []; cancelled = []; placed = [] }

abbrev of_follower : List SymbolDrift → FollowerDrift
of_follower ss = record { account_id = 5; enabled = true; symbols = ss }

drift_of_run :
    (compute_account_diff env 5 at_start).0
    ≡ ok (of_follower (calculate_follower_drift exact lots account masters followers))
unfolding compute_account_diff diff_for diff_against with_master_broker read_both read_follower
    diff_of get_positions_with_retry read_positions retry_positions
drift_of_run = refl

two_drifts : (compute_account_diff env 5 at_start).0 ≡ ok (of_follower (wanted ∷ unwanted ∷ []))
two_drifts =
    subst (λ ss. (compute_account_diff env 5 at_start).0 ≡ ok (of_follower ss)) both_drifts
      drift_of_run

drifts_bounded : AreBounded (ok (of_follower (wanted ∷ unwanted ∷ [])))
drifts_bounded = ((omega arith, omega arith), ((omega arith, omega arith), tt))

run_bounded : AreBounded (compute_account_diff env 5 at_start).0
run_bounded = subst AreBounded (sym two_drifts) drifts_bounded

rebalance_account-Outcome_example :
    Outcome at_start (compute_account_diff env 5 at_start).0 (rebalance_account env 5 at_start)
rebalance_account-Outcome_example = rebalance_account-Outcome env 5 at_start run_bounded

abbrev sides : List OrderParams → List (String × String × ℤ)
sides =
    map {B = String × String × ℤ}
      (λ (p : OrderParams). (p.tradingsymbol, p.transaction_type, p.quantity))

-- The orders of the two drifts, whatever their tags.
sides_of_run :
    sides (after_diff env 5 (of_follower (wanted ∷ unwanted ∷ [])) at_start).1.placed
    ≡ ("NIFTY", "SELL", pos 75) ∷ ("INFY", "SELL", pos 10) ∷ []
unfolding after_diff correct correct_all cancel_open cancel_each correct_each correct_drift
    place_drift after_place has_quantity drift_order abs update_if_row sync_after order_tag
    without_dashes short_id cut wrap64
sides_of_run = refl
