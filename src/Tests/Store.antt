-- ===== src/Tests/Store.antt =====
-- Runs of the store's operations on small tables.
use envoy_trade.Common.{
  ℕ, ◌≡◌, refl, Bool, true, false, Option, none, some, List, [], ◌∷◌, pos, Result, ok, err,
  not_found,
}
use envoy_trade.Domain.Types.{FollowerOrder, reason_ok}
use envoy_trade.Store.Tables.{Db, wrap32}
use envoy_trade.Store.Inserts.{new_row, add_row}
use envoy_trade.Store.Updates.{
  find_pending, stash_pending_order_update, update_follower_order_status,
  update_follower_order_placed,
}
use envoy_trade.Store.Validity.{IsValid}
use envoy_trade.Store.Steps.{StoreOp, batch, placed, status, failed, apply_all, apply_all-IsValid}
use envoy_trade.Store.Race.{stash_commutes}
use envoy_trade.Tests.Exact.{exact}
use envoy_trade.Tests.World.{no_rows, price_of, zero_price}

abbrev order : envoy_trade.Common.String → ℕ → FollowerOrder
order tag follower = record {
  id = 0;
  master_fill_id = 7;
  follower_id = follower;
  idempotency_tag = tag;
  intended_qty = pos 50;
  lot_size = pos 25;
  sizing_reason = reason_ok;
  placed_qty = none;
  broker_order_id = "";
  terminal_status = "";
  filled_qty = pos 0;
  average_price = zero_price;
  attempt_count = 0;
  last_error = "";
  origin = "copy_trade";
  tradingsymbol = "NIFTY";
  exchange = "NFO";
  product = "NRML";
  transaction_type = "BUY";
  order_type = "MARKET";
  created_at = 0;
  updated_at = 0;
}

no_rows-IsValid : IsValid no_rows
no_rows-IsValid = record { unique_tags = tt; unique_ids = tt; below_next = tt }

abbrev operations : List StoreOp
operations =
    batch (order "t-11" 11 ∷ order "t-12" 12 ∷ [])
    ∷ batch (order "t-11" 11 ∷ [])
    ∷ placed 1 "b-1" (pos 50)
    ∷ status "b-1" "COMPLETE" (pos 50) (price_of 100)
    ∷ failed 2 "REJECTED" "margin"
    ∷ []

apply_all-IsValid_example : IsValid (apply_all exact operations no_rows)
apply_all-IsValid_example = apply_all-IsValid exact operations no_rows no_rows-IsValid

abbrev one_row : Db
one_row = add_row (new_row (some 7) (order "t-11" 11) no_rows) no_rows

stash_commutes_example :
    let stashed =
      (stash_pending_order_update "b-1" "COMPLETE" (pos 50) (price_of 100) [] one_row).1 in
    let late = (update_follower_order_placed 1 "b-1" (pos 50) stashed).1 in
    let usual =
      (update_follower_order_status "b-1" "COMPLETE"
        (pos 50)
        (price_of 100)
        (update_follower_order_placed 1 "b-1" (pos 50) one_row).1).1 in
    (update_follower_order_status "b-1" "COMPLETE" (pos 50) (price_of 100) one_row
      ≡ (err not_found, one_row))
    × (late.follower_orders ≡ usual.follower_orders)
    × (find_pending "b-1" late.pending_updates ≡ none)
unfolding add_row new_row find_pending wrap32
stash_commutes_example =
    stash_commutes 1 "b-1" "COMPLETE" (pos 50) (pos 50) (price_of 100) [] one_row refl refl refl
