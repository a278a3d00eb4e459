-- ===== src/Worker/Place.antt =====
-- pool.go: place, recordFailure and the loop of run.
use envoy_trade.Common.{
  ℕ, zero, suc, ◌-◌, ◌||◌, String, str_append, Option, none, some, List, [], ◌∷◌, ℤ, pos, pos_part,
  ltb_ℤ, leb_ℤ, ◌*ℤ◌, ◌-ℤ◌, wrap64, Error, other, is_context_error, error_text, contains,
  if◌then◌else◌,
}
use envoy_trade.Common.State.{State, pure, ◌>>=◌, ◌>>◌}
use envoy_trade.Domain.Types.{Instant, Job, OrderEvent, terminal_rejected, terminal_dead_lettered}
use envoy_trade.Worker.Parts.{
  WorkerEnv, Worker, Answer, accepted, refused, panicked, Waited, elapsed, context_done, pool_done,
  placed, failed, params_of, ask, note_answer, note_wait, note_pause, note_written, note_event,
  note_sync, note_start, is_timeout,
}

-- the status that recordFailure writes
unfoldable pub failure_status : Error → String
failure_status cause =
    if is_context_error cause || contains (error_text cause) "pool shutdown"
    then terminal_dead_lettered
    else terminal_rejected

abbrev pub response_event : Job → List ℕ → OrderEvent
response_event job payload = record {
  id = 0;
  follower_order_id = some job.follower_order_id;
  master_fill_id = some job.master_fill_id;
  account_id = job.follower_id;
  event_type = "api_response";
  payload = payload;
  occurred_at = 0;
}

abbrev pub shutdown_error : Error
shutdown_error = other "pool shutdown"

abbrev pub panic_error : String → Error
panic_error text = other (str_append "panic placing order: " text)

-- `backoff *= 2` on an int64
unfoldable pub double : ℤ → ℤ
double backoff = wrap64 (backoff *ℤ pos 2)

-- `maxAttempts`, and the attempts that may follow the first
abbrev pub max_attempts : ℤ → ℤ
max_attempts max_retries = if ltb_ℤ max_retries (pos 1) then pos 1 else max_retries

unfoldable pub retries : ℤ → ℕ
retries max_retries = pos_part (max_attempts max_retries) - 1

-- 10 * time.Millisecond stands in for a backoff that is not positive
unfoldable pub first_backoff : ℤ → ℤ
first_backoff backoff = if leb_ℤ backoff (pos 0) then pos 10000000 else backoff

-- A Pool's fields that do not change.
pub record Settings : Type 0 where
  pub rate_limit_interval : ℤ
  pub max_retries : ℤ
  pub initial_backoff : ℤ

module _ {W : Type 0} (E : WorkerEnv W) (job : Job) where
  unfoldable pub record_failure : Error → State (Worker W) (Unit {0})
  record_failure cause = do
    let event = response_event job (E.error_payload (error_text cause))
    note_written (failed job.follower_order_id (failure_status cause) (error_text cause))
    ask (E.update_failed job.follower_order_id (failure_status cause) (error_text cause))
    note_event event
    ask (E.append_event event)
    pure tt

  unfoldable pub start_sync : State (Worker W) (Unit {0})
  start_sync = if E.has_syncer then note_sync job.follower_id else pure tt

  unfoldable pub record_success : String → State (Worker W) (Unit {0})
  record_success order_id = do
    let event = response_event job (E.placed_payload order_id job.quantity)
    note_written (placed job.follower_order_id order_id job.quantity)
    ask (E.update_placed job.follower_order_id order_id job.quantity)
    note_event event
    ask (E.append_event event)
    start_sync

  -- One attempt: the call of the broker.
  unfoldable pub try_place : State (Worker W) Answer
  try_place = do answer ← ask (E.place_order (params_of job)); note_answer answer; pure answer

  unfoldable pub pause : ℤ → State (Worker W) Waited
  pause backoff = do
    note_wait backoff
    waited ← ask (E.wait backoff)
    note_pause waited
    pure waited

  -- The end of the last attempt, or of one that is not retried.
  unfoldable pub conclude : Answer → State (Worker W) (Unit {0})
  conclude (accepted id) = record_success id
  conclude (panicked text) = record_failure (panic_error text)
  conclude (refused e) = record_failure e

  unfoldable pub after_wait : State (Worker W) (Unit {0}) → Waited → State (Worker W) (Unit {0})
  after_wait again elapsed = again
  after_wait again (context_done cause) = record_failure cause
  after_wait again pool_done = record_failure shutdown_error

  unfoldable pub retry : ℤ → State (Worker W) (Unit {0}) → State (Worker W) (Unit {0})
  retry backoff again = do waited ← pause backoff; after_wait again waited

  -- The end of an attempt that may be retried: only a timeout is.
  unfoldable pub retry_or_conclude :
      ℤ → State (Worker W) (Unit {0}) → Answer → State (Worker W) (Unit {0})
  retry_or_conclude backoff again (accepted id) = conclude (accepted id)
  retry_or_conclude backoff again (panicked text) = conclude (panicked text)
  retry_or_conclude backoff again (refused e) =
      if is_timeout E e then retry backoff again else conclude (refused e)

  -- The loop, with `more` attempts left after this one.
  unfoldable pub attempts : ℕ → ℤ → State (Worker W) (Unit {0})
  attempts zero backoff = do answer ← try_place; conclude answer
  attempts (suc more) backoff = do
    answer ← try_place
    retry_or_conclude backoff (attempts more (double backoff)) answer

  unfoldable pub place : Settings → State (Worker W) (Unit {0})
  place s = attempts (retries s.max_retries) (first_backoff s.initial_backoff)

module _ {W : Type 0} (E : WorkerEnv W) (s : Settings) where
  -- What is left of the interval since the last placement began, if anything.
  unfoldable pub rest_of_interval : Instant → Instant → State (Worker W) Waited
  rest_of_interval last now =
      let since = pos now -ℤ pos last in
      if ltb_ℤ since s.rate_limit_interval
      then ask (E.wait (s.rate_limit_interval -ℤ since))
      else pure elapsed

  unfoldable pub limit_rate : Option Instant → State (Worker W) Waited
  limit_rate none = pure elapsed
  limit_rate (some last) =
      if ltb_ℤ (pos 0) s.rate_limit_interval
      then (do now ← ask E.now; rest_of_interval last now)
      else pure elapsed

  unfoldable pub start_placement : Job → State (Worker W) Instant
  start_placement job = do now ← ask E.now; note_start now; place E job s; pure now

  -- The job in hand: if the context or the pool is done during the wait, it is not placed, and the
  -- loop ends.
  unfoldable pub run_job :
      Job → (Option Instant → State (Worker W) (Unit {0})) → Waited → State (Worker W) (Unit {0})
  run_job job rest elapsed = do start ← start_placement job; rest (some start)
  run_job job rest (context_done cause) = pure tt
  run_job job rest pool_done = pure tt

  -- run, for the jobs in the order in which the worker receives them; `last` is `lastCall`.
  unfoldable pub run_jobs : List Job → Option Instant → State (Worker W) (Unit {0})
  run_jobs [] last = pure tt
  run_jobs (job ∷ jobs) last = do waited ← limit_rate last; run_job job (run_jobs jobs) waited
