-- ===== src/Tests/Listener.antt =====
-- Deliveries to the two consumers.
use envoy_trade.Common.{
  ℕ, suc, ◌≡◌, true, false, List, [], ok, err, not_found, duplicate, other, pos,
}
use envoy_trade.Domain.Types.{OrderUpdate, Uuid}
use envoy_trade.Store.Tables.{Db}
use envoy_trade.Engine.Parts.{Engine}
use envoy_trade.Listener.Status.{StatusEnv, Consumer, handle_update}
use envoy_trade.Listener.Audit.{Ended, handle_update-Ended}
use envoy_trade.Listener.Master.{handle_fill}
use envoy_trade.System.Fills.{consumer, redelivery_ignored}
use envoy_trade.Tests.World.{around, fill, idle, price_of}

abbrev update : OrderUpdate
update = record {
  follower_id = 11;
  broker_order_id = "b-1";
  tradingsymbol = "NIFTY";
  exchange = "NFO";
  product = "NRML";
  transaction_type = "BUY";
  order_type = "MARKET";
  quantity = pos 50;
  status = "COMPLETE";
  filled_quantity = pos 50;
  average_price = price_of 100;
  order_timestamp = 1;
  tag = "t-11";
  raw_payload = [];
}

-- A store whose connection fails between the two updates; the world counts the calls.
abbrev failing : StatusEnv ℕ
failing = record {
  update_status = λ b s q p n. (err not_found, suc n);
  update_by_tag = λ f t b s q p n. (err (other "connection reset"), suc n);
  insert_direct = λ u n. (err duplicate, suc n);
  stash = λ b s q p bytes n. (ok tt, suc n);
  follower_of = λ id n. (ok 11, suc n);
  append_event = λ ev n. (ok tt, suc n);
  has_syncer = false;
}

abbrev consumer_state : Consumer ℕ
consumer_state = record { world = 0; synced = []; audited = [] }

handle_update-Ended_example :
    Ended failing update consumer_state (handle_update failing update consumer_state)
handle_update-Ended_example = handle_update-Ended failing update consumer_state

abbrev system : Engine (Db × ℕ) × List Uuid
system = (idle, [])

redelivery_ignored_example :
    let once = (handle_fill (consumer around true) fill system).1 in
    handle_fill (consumer around true) fill once ≡ (ok tt, once)
redelivery_ignored_example = redelivery_ignored around true fill system
