-- ===== src/Worker/Clock.antt =====
-- The clock during one placement: it goes forward, and no other placement begins.
use envoy_trade.Common.{
  ℕ, zero, suc, ◌+◌, ◌≤◌, ◌≡◌, refl, ◌∙◌, arith, inl, inr, Bool-cases, String, ℤ, pos, Error,
}
use envoy_trade.Domain.Types.{Job, OrderEvent}
use envoy_trade.Worker.Parts.{
  WorkerEnv, Worker, OrderParams, Answer, accepted, refused, panicked, Waited, elapsed,
  context_done, pool_done, is_timeout, params_of,
}
use envoy_trade.Worker.Place.{
  Settings, double, retries, first_backoff, record_failure, start_sync, record_success, try_place,
  pause, conclude, after_wait, retry, retry_or_conclude, attempts, place, panic_error,
  shutdown_error,
}

-- A monotonic clock: `time` is what it shows, no call turns it back, and a timer that has elapsed
-- has taken its duration.
pub record KeepsTime {W : Type 0} (E : WorkerEnv W) : Type 0 where
  pub time : W → ℕ
  pub shows : (w : W) → (E.now w).0 ≡ time w
  pub now_time : (w : W) → time w ≤ time (E.now w).1
  pub place_time : (p : OrderParams) (w : W) → time w ≤ time (E.place_order p w).1
  pub placed_time :
      (id : ℕ) (b : String) (q : ℤ) (w : W) → time w ≤ time (E.update_placed id b q w).1
  pub failed_time : (id : ℕ) (s m : String) (w : W) → time w ≤ time (E.update_failed id s m w).1
  pub event_time : (ev : OrderEvent) (w : W) → time w ≤ time (E.append_event ev w).1
  pub wait_time : (d : ℤ) (w : W) → time w ≤ time (E.wait d w).1
  pub wait_elapsed :
      (d : ℕ) (w : W) → (E.wait (pos d) w).0 ≡ elapsed → time w + d ≤ time (E.wait (pos d) w).1

module _ {W : Type 0} (E : WorkerEnv W) (K : KeepsTime E) (job : Job) where
  -- A step that takes the clock forward and starts no placement.
  pub record Later (w v : Worker W) : Type 0 where
    pub later : K.time w.world ≤ K.time v.world
    pub same : v.started ≡ w.started

  Later-trans : {u v w : Worker W} → Later u v → Later v w → Later u w
  Later-trans a b = record { later = omega (arith, a.later, b.later); same = b.same ∙ a.same }

  success-Later : (id : String) (w : Worker W) → Later w (record_success E job id w).1
  unfolding record_success start_sync
  success-Later id w =
      let a = K.placed_time job.follower_order_id id job.quantity w.world in
      elim (Bool-cases E.has_syncer) [
        | inl h ↦ rw h (record { later = omega (arith, a, K.event_time _ _); same = refl })
        | inr h ↦ rw h (record { later = omega (arith, a, K.event_time _ _); same = refl })
      ]

  failure-Later : (cause : Error) (w : Worker W) → Later w (record_failure E job cause w).1
  unfolding record_failure
  failure-Later cause w = record {
    later = omega (arith, K.failed_time job.follower_order_id _ _ w.world, K.event_time _ _);
    same = refl;
  }

  conclude-Later : (a : Answer) (w : Worker W) → Later w (conclude E job a w).1
  unfolding conclude
  conclude-Later (accepted id) w = success-Later id w
  conclude-Later (panicked text) w = failure-Later (panic_error text) w
  conclude-Later (refused e) w = failure-Later e w

  try_place-Later : (w : Worker W) → Later w (try_place E job w).1
  unfolding try_place
  try_place-Later w = record { later = K.place_time (params_of job) w.world; same = refl }

  after_wait-Later :
      (more : ℕ) (b : ℤ) (p : Waited) (w : Worker W)
      → ((u : Worker W) → Later u (attempts E job more b u).1)
      → Later w (after_wait E job (attempts E job more b) p w).1
  unfolding after_wait
  after_wait-Later more b elapsed w again = again w
  after_wait-Later more b (context_done cause) w again = failure-Later cause w
  after_wait-Later more b pool_done w again = failure-Later shutdown_error w

  pause-Later : (b : ℤ) (w : Worker W) → Later w (pause E job b w).1
  unfolding pause
  pause-Later b w = record { later = K.wait_time b w.world; same = refl }

  retry-Later :
      (more : ℕ) (b : ℤ) (a : Answer) (w : Worker W)
      → ((u : Worker W) → Later u (attempts E job more (double b) u).1)
      → Later w (retry_or_conclude E job b (attempts E job more (double b)) a w).1
  unfolding retry_or_conclude retry
  retry-Later more b (accepted id) w again = conclude-Later (accepted id) w
  retry-Later more b (panicked text) w again = conclude-Later (panicked text) w
  retry-Later more b (refused e) w again = elim (Bool-cases (is_timeout E e)) [
    | inl t ↦ rw t (Later-trans (pause-Later b w) (after_wait-Later more (double b) _ _ again))
    | inr t ↦ rw t (conclude-Later (refused e) w)
  ]

  attempts-Later : (more : ℕ) (b : ℤ) (w : Worker W) → Later w (attempts E job more b w).1
  unfolding attempts
  attempts-Later zero b w = Later-trans (try_place-Later w) (conclude-Later _ _)
  attempts-Later (suc more) b w =
      Later-trans (try_place-Later w) (retry-Later more b _ _ (attempts-Later more (double b)))

  pub place-Later : (s : Settings) (w : Worker W) → Later w (place E job s w).1
  unfolding place
  place-Later s w = attempts-Later (retries s.max_retries) (first_backoff s.initial_backoff) w
