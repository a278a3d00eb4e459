-- ===== src/Tests/Worker.antt =====
-- Workers, channels and the queue on small inputs.
use envoy_trade.Common.{
  ℕ, suc, ◌+◌, ◌≤◌, ◌≡◌, refl, arith, true, false, none, some, List, [], ◌∷◌, ◌++◌, length, ◌%◌,
  ◌==◌, if◌then◌else◌, pos, pos_part, deadline_exceeded, Result, ok, err, full,
}
use envoy_trade.Common.Channel.{Channel, make}
use envoy_trade.Common.Maps.{get, put}
use envoy_trade.Domain.Types.{Job}
use envoy_trade.Worker.Parts.{WorkerEnv, Worker, OrderParams, Answer, accepted, refused, elapsed}
use envoy_trade.Worker.Place.{Settings, retries, first_backoff, place, run_jobs}
use envoy_trade.Worker.Attempts.{Handled, place-Handled}
use envoy_trade.Worker.Clock.{KeepsTime}
use envoy_trade.Worker.Rate.{Spaced, run_jobs-Spaced}
use envoy_trade.Worker.Pool.{Workers, register}
use envoy_trade.Worker.Moves.{PoolOp, registered, dispatched, took}
use envoy_trade.Worker.Fifo.{after_all, accepted as accepted_for, received, after_all-fifo}
use envoy_trade.Queue.{publish, publish_all, consume, deliver_all, published_delivered}

abbrev job : ℕ → Job
job n = record {
  follower_order_id = n;
  follower_id = 11;
  master_fill_id = 7;
  idempotency_tag = "t";
  exchange = "NFO";
  tradingsymbol = "NIFTY";
  transaction_type = "BUY";
  product = "NRML";
  order_type = "MARKET";
  quantity = pos 50;
  price = 0;
  trigger_price = 0;
}

-- The world is the clock: every call takes one tick, a timer its duration, and the broker answers
-- with a timeout at even times.
abbrev broker : OrderParams → ℕ → Answer × ℕ
broker p t = (if t % 2 == 0 then refused deadline_exceeded else accepted "b-1", suc t)

abbrev env : WorkerEnv ℕ
env = record {
  place_order = broker;
  update_placed = λ id b q t. (ok tt, suc t);
  update_failed = λ id s m t. (ok tt, suc t);
  append_event = λ ev t. (ok tt, suc t);
  now = λ t. (t, suc t);
  wait = λ d t. (elapsed, t + pos_part d);
  net_timeout = λ e. false;
  to_lower = λ s. s;
  placed_payload = λ id q. [];
  error_payload = λ s. [];
  has_syncer = true;
}

abbrev settings : Settings
settings = record { rate_limit_interval = pos 100; max_retries = pos 3; initial_backoff = pos 50 }

abbrev fresh : Worker ℕ
fresh = record {
  world = 4;
  answers = [];
  waits = [];
  pauses = [];
  written = [];
  events = [];
  synced = [];
  started = [];
}

place-Handled_example :
    Handled env
      (job 1)
      (retries (pos 3))
      (first_backoff (pos 50))
      fresh
      (place env (job 1) settings fresh).1
place-Handled_example = place-Handled env (job 1) settings fresh

env-KeepsTime : KeepsTime env
env-KeepsTime = record {
  time = λ t. t;
  shows = λ t. refl;
  now_time = λ t. omega arith;
  place_time = λ p t. omega arith;
  placed_time = λ id b q t. omega arith;
  failed_time = λ id s m t. omega arith;
  event_time = λ ev t. omega arith;
  wait_time = λ d t. omega arith;
  wait_elapsed = λ d t h. omega arith;
}

run_jobs-Spaced_example :
    (new : List ℕ) × ((run_jobs env settings (job 1 ∷ job 2 ∷ []) none fresh).1.started
      ≡ fresh.started ++ new)
    × Spaced 100 none new
run_jobs-Spaced_example =
    run_jobs-Spaced env env-KeepsTime settings 100 refl (job 1 ∷ job 2 ∷ []) none fresh tt

abbrev pool : Workers
pool = register 11 2 (register 12 1 [])

abbrev pool_ops : List PoolOp
pool_ops =
    dispatched 11 (job 1)
    ∷ dispatched 12 (job 2)
    ∷ dispatched 11 (job 3)
    ∷ dispatched 11 (job 4)
    ∷ took 11
    ∷ registered 12 5
    ∷ took 11
    ∷ []

after_all-fifo_example :
    (d : Channel Job) × (get 11 (after_all pool_ops pool) ≡ some d)
    × (received 11 pool_ops pool ++ d.buffered ≡ (make 2).buffered ++ accepted_for 11 pool_ops pool)
    × (length d.buffered ≤ (make {A = Job} 2).capacity)
unfolding register make get put
after_all-fifo_example =
    after_all-fifo 11 pool_ops pool (make 2) refl ((λ e. omega (arith, e)), tt) (omega arith)

abbrev log : ℕ → List ℕ → Result (Unit {0}) × List ℕ
log ev seen = (if ev == 2 then err full else ok tt, seen ++ ev ∷ [])

abbrev queue : Channel ℕ
queue = record { capacity = 3; buffered = 1 ∷ [] }

published_delivered_example :
    (length queue.buffered + length {A = ℕ} (2 ∷ 3 ∷ []) ≤ queue.capacity
      → consume log
          (length queue.buffered + length {A = ℕ} (2 ∷ 3 ∷ []))
          (publish_all (2 ∷ 3 ∷ []) queue)
          []
        ≡ (record queue { buffered = [] }, deliver_all log (queue.buffered ++ 2 ∷ 3 ∷ []) []))
    × (queue.capacity ≤ length queue.buffered → publish 9 queue ≡ (err full, queue))
published_delivered_example = published_delivered log (2 ∷ 3 ∷ []) queue [] 9
