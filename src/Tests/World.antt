-- ===== src/Tests/World.antt =====
-- A small world: one master with two followers, an empty order table and workers with room.
use envoy_trade.Common.{
  ℕ, suc, ◌≡◌, ◌≢◌, refl, subst, true, false, String, str_eq, eq_iff, none, List, [], ◌∷◌, map, pos,
  Distinct, ok, arith, ◌==◌, if◌then◌else◌,
}
use envoy_trade.Domain.Decimal.{Decimal}
use envoy_trade.Domain.Idempotency.{Digest, idempotency_tag}
use envoy_trade.Domain.Types.{MasterFill, FollowLink, pending}
use envoy_trade.Store.Tables.{Db}
use envoy_trade.Engine.Parts.{Engine}
use envoy_trade.System.{Outside}
use envoy_trade.System.Once.{TagsApart}
use envoy_trade.Tests.Exact.{exact}

abbrev pub zero_price : Decimal
zero_price = record { coeff = pos 0; exp = pos 0 }

abbrev pub price_of : ℕ → Decimal
price_of n = record { coeff = pos n; exp = pos 0 }

abbrev pub follower_text : ℕ → String
follower_text n = if n == 11 then "11" else "12"

abbrev pub digest : Digest
digest = record { hex_sha256 = λ s. s; decimal = λ n. "7"; uuid_text = follower_text }

abbrev pub link : ℕ → FollowLink
link follower = record {
  follower_id = follower;
  group_id = 1;
  master_id = 10;
  clone_factor = price_of 1;
  max_qty_per_order = pos 50;
  enabled = true;
  effective_from = 0;
  status = "active";
  auth_status = "authenticated";
}

abbrev pub links : List FollowLink
links = link 11 ∷ link 12 ∷ []

abbrev pub around : Outside ℕ
around = record {
  numerics = exact;
  digest = digest;
  decode_prices = λ bytes. none;
  now = λ clock. (clock, suc clock);
  master_active = λ m clock. (ok true, clock);
  enabled_follow_links = λ m clock. (ok links, clock);
  instrument_lot_size = λ exchange symbol clock. (ok (pos 25), clock);
  dispatch = λ id job clock. (true, clock);
  lot_size_resolver = none;
  records = true;
}

abbrev pub no_rows : Db
no_rows = record {
  master_fills = [];
  next_fill = 1;
  follower_orders = [];
  next_order = 1;
  pending_updates = [];
  order_events = [];
  next_event = 1;
  clock = 5;
}

abbrev pub idle : Engine (Db × ℕ)
idle = record {
  kill_switch = false;
  kill_switch_status = none;
  lot_size_cache = [];
  world = (no_rows, 0);
  calls = [];
}

abbrev pub fill : MasterFill
fill = record {
  id = 7;
  master_id = 10;
  broker_order_id = "m-1";
  exchange = "NFO";
  tradingsymbol = "NIFTY";
  instrument_token = pos 1;
  transaction_type = "BUY";
  product = "NRML";
  order_type = "MARKET";
  filled_quantity = pos 75;
  price = zero_price;
  trigger_price = zero_price;
  average_price = price_of 100;
  status = "COMPLETE";
  order_timestamp = 1;
  raw_payload = [];
  tag = "";
  received_at = 1;
  dispatch_state = pending;
  dispatched_at = none;
}

ok_injective : {A : Type 0} {a b : A} → ok a ≡ ok b → a ≡ b
ok_injective h = cc

different : (s t : String) → str_eq s t ≡ false → s ≢ t
different s t h e = ground (arith, eq_iff s t)

pub around-TagsApart : TagsApart around
unfolding idempotency_tag
around-TagsApart f x given h =
    subst (λ ls. Distinct (map (λ (l : FollowLink). idempotency_tag digest f.id l.follower_id) ls))
      (ok_injective h) ((different "7:11" "7:12" refl, tt), (tt, tt))
