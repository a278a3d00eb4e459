-- ===== src/Tests/Recon.antt =====
-- A poll that finds a fill which the stream has missed.
use envoy_trade.Common.{ℕ, ◌≡◌, refl, false, List, [], ◌∷◌, inr, inl, ok, pos}
use envoy_trade.Domain.Types.{Uuid, is_terminal}
use envoy_trade.Store.Tables.{Db}
use envoy_trade.Engine.Parts.{Engine}
use envoy_trade.Recon.Master.{Order, is_stale, reconcile_master}
use envoy_trade.Recon.Backfill.{Reader, poller, Stored, fill_of, reconcile_master-Stored}
use envoy_trade.Tests.World.{around, idle, price_of}

abbrev open_order : Order
open_order = record {
  order_id = "m-1";
  exchange = "NFO";
  tradingsymbol = "NIFTY";
  transaction_type = "BUY";
  product = "NRML";
  order_type = "MARKET";
  status = "OPEN";
  status_message = "";
  quantity = pos 50;
  filled_quantity = pos 0;
  price = price_of 0;
  trigger_price = price_of 0;
  average_price = price_of 0;
  order_timestamp = 990;
  tag = "";
  raw_payload = [];
}

abbrev pub missed_order : Order
missed_order = record open_order {
  order_id = "m-2";
  status = "COMPLETE";
  filled_quantity = pos 50;
  average_price = price_of 100;
}

-- The clock reads 1000, and the window is 900.
abbrev reader : Reader ℕ
reader = record {
  marshal = λ o. [];
  polling_window = 900;
  now = λ n. (1000, n);
  get_master_orders = λ m n. (ok (open_order ∷ missed_order ∷ []), n);
  alert = λ m n. (tt, n);
}

abbrev polled : (Engine (Db × ℕ) × List Uuid) × ℕ
polled = ((idle, []), 0)

reconcile_master-Stored_example :
    ((reconcile_master (poller around reader false) 7 polled).0 ≡ ok tt)
    × Stored around reader false 7
        (fill_of around reader false 7 missed_order)
        (reconcile_master (poller around reader false) 7 polled).1
unfolding is_stale is_terminal
reconcile_master-Stored_example =
    reconcile_master-Stored around reader false 7 missed_order (open_order ∷ missed_order ∷ [])
      polled refl (inr (inl refl)) refl refl
