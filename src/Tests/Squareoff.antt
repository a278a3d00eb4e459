-- ===== src/Tests/Squareoff.antt =====
-- A square-off of one account.
use envoy_trade.Common.{
  ℕ, suc, ◌+◌, ◌≡◌, refl, arith, true, String, [], ◌∷◌, ok, err, other, pos, negsuc, if◌then◌else◌,
  ◌==◌, map, if_cases, wrap64, error_text, contains, ℤ,
}
use envoy_trade.Common.Words.{to_lower}
use envoy_trade.Worker.Parts.{OrderParams}
use envoy_trade.Rebalance.Drift.{Position}
use envoy_trade.Desk.{
  DeskEnv, Desk, is_auth_error, read_positions, with_refreshed, after_sync, retry_positions,
  get_positions_with_retry, update_if_row, sync_after,
}
use envoy_trade.Desk.Tags.{order_tag, without_dashes, short_id, cut}
use envoy_trade.Squareoff.Account.{
  SquareoffEnv, match_symbol, side_of, abs, role_prefix, squareoff_tag, closing_order, is_wanted,
  cancel_each, cancel_open, pre_insert, after_place, place_closing, close_position, close_each,
  close_all, with_broker, resolve_for, if_enabled, for_role, square_off_account,
}
use envoy_trade.Squareoff.Outcome.{Outcome, AreBounded, square_off_account-Outcome}

abbrev short_infy : Position
short_infy = record {
  exchange = "NSE";
  tradingsymbol = "INFY";
  product = "MIS";
  quantity = negsuc 24;
}

abbrev long_tcs : Position
long_tcs = record { exchange = "NSE"; tradingsymbol = "TCS"; product = "CNC"; quantity = pos 7 }

abbrev flat_sbin : Position
flat_sbin = record { exchange = "NSE"; tradingsymbol = "SBIN"; product = "CNC"; quantity = pos 0 }

-- The first broker's token has expired; the second rejects its second order. The world counts the calls.
abbrev desk : DeskEnv ℕ ℕ
desk = record {
  resolve_broker = λ id n. (ok (if n == 2 then 1 else 2), suc n);
  get_open_orders = λ b n. (ok [], suc n);
  cancel_order = λ b id n. (ok id, suc n);
  get_positions = λ b n. (
    if b == 1 then err (other "TokenException") else ok (short_infy ∷ flat_sbin ∷ long_tcs ∷ []),
    suc n,
  );
  place_order = λ b p n. (if n == 9 then ok "B-1" else err (other "margin"), suc n);
  has_syncer = true;
  sync_portfolio = λ id n. (ok tt, suc n);
  insert_follower_order = λ o n. (ok (pos 40), suc n);
  update_follower_order_placed = λ id b q n. (ok tt, suc n);
  update_follower_order_failed = λ id s m n. (ok tt, suc n);
  unix_time = λ n. (1760000000 + n, suc n);
  uuid_text = λ id. "0f-3e9b";
}

abbrev pub env : SquareoffEnv ℕ ℕ
env = record {
  desk = desk;
  account_role = λ id n. (ok "follower", suc n);
  account_enabled = λ id n. (ok (true ∷ []), suc n);
}

abbrev pub at_start : Desk ℕ
at_start = record { world = 0; answered = []; cancelled = []; placed = [] }

desk_bounded : (b n : ℕ) → AreBounded (desk.get_positions b n).0
desk_bounded b n =
    if_cases AreBounded (b == 1) (err (other "TokenException"))
      (ok (short_infy ∷ flat_sbin ∷ long_tcs ∷ [])) (λ _. tt) (λ _. omega arith)

square_off_account-Outcome_example : Outcome [] at_start (square_off_account env 5 [] at_start)
square_off_account-Outcome_example = square_off_account-Outcome env 5 [] desk_bounded at_start

tag_of_account : order_tag "sqoff-f-" "0f-3e9b" 1760000009 ≡ "sqoff-f-0f3e-0000009"
unfolding order_tag without_dashes short_id cut
tag_of_account = refl

-- The orders of the run, whatever their tags.
sides :
    map {B = String × String × ℤ}
      (λ (p : OrderParams). (p.tradingsymbol, p.transaction_type, p.quantity))
      (square_off_account env 5 [] at_start).1.placed
    ≡ ("INFY", "BUY", pos 25) ∷ ("TCS", "SELL", pos 7) ∷ []
unfolding square_off_account for_role if_enabled resolve_for with_broker cancel_open cancel_each
    get_positions_with_retry read_positions retry_positions is_auth_error after_sync with_refreshed
    close_all close_each close_position place_closing pre_insert after_place update_if_row
    sync_after closing_order is_wanted match_symbol side_of abs squareoff_tag role_prefix to_lower
    wrap64 error_text contains order_tag without_dashes short_id cut
sides = refl
