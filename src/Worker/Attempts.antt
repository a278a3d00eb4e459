-- ===== src/Worker/Attempts.antt =====
-- What one placement does: its attempts, its waits, and its one outcome.
use envoy_trade.Common.{
  ℕ, zero, suc, ◌+◌, ◌≤◌, ◌≡◌, refl, sym, ap, ◌∙◌, arith, Bool, true, false, ◌⊎◌, inl, inr,
  Bool-cases, List, [], ◌∷◌, ◌++◌, map, length, All, ℤ, Error, error_text, if_cases,
}
use mathlib.Core.List.{append-nil, append_assoc}
use envoy_trade.Common.State.{State}
use envoy_trade.Domain.Types.{Job}
use envoy_trade.Worker.Parts.{
  WorkerEnv, Worker, Answer, accepted, refused, panicked, Waited, elapsed, context_done, pool_done,
  Written, placed, failed, is_timeout,
}
use envoy_trade.Worker.Place.{
  Settings, failure_status, panic_error, shutdown_error, double, retries, first_backoff,
  record_failure, start_sync, record_success, try_place, pause, conclude, after_wait, retry,
  retry_or_conclude, attempts, place,
}

-- b, 2 * b, 4 * b, …: the first k waits
unfoldable pub backoffs : ℕ → ℤ → List ℤ
backoffs zero b = []
backoffs (suc k) b = b ∷ backoffs k (double b)

module _ {W : Type 0} (E : WorkerEnv W) (job : Job) where
  abbrev pub failed_by : Error → Written
  failed_by cause = failed job.follower_order_id (failure_status cause) (error_text cause)

  -- What a last answer is written as, unless a wait was interrupted.
  abbrev pub outcome_of : Answer → Written
  outcome_of (accepted id) = placed job.follower_order_id id job.quantity
  outcome_of (panicked text) = failed_by (panic_error text)
  outcome_of (refused e) = failed_by e

  abbrev pub IsTimeout : Error → Type 0
  IsTimeout e = is_timeout E e ≡ true

  -- An answer that is not retried.
  abbrev pub IsFinal : Answer → Type 0
  IsFinal (accepted id) = Unit
  IsFinal (panicked text) = Unit
  IsFinal (refused e) = is_timeout E e ≡ false

  -- All waits passed, and the last answer is final or that of the last attempt.
  abbrev pub Finished : ℕ → List Error → List Waited → Answer → Written → Type 0
  Finished more timeouts pauses last x =
      (pauses ≡ map (λ e. elapsed) timeouts)
      × (length timeouts ≤ more)
      × (IsFinal last ⊎ (length timeouts ≡ more))
      × (x ≡ outcome_of last)

  -- The last answer is a timeout that would be retried, but the wait for it was interrupted.
  abbrev pub Interrupted : ℕ → List Error → List Waited → Answer → Written → Type 0
  Interrupted more timeouts pauses last x =
      (suc (length timeouts) ≤ more)
      × ((e : Error) × (last ≡ refused e) × IsTimeout e)
      × ((stop : Waited) × (cause : Error) × (pauses ≡ map (λ e. elapsed) timeouts ++ stop ∷ [])
          × ((stop ≡ context_done cause) ⊎ ((stop ≡ pool_done) × (cause ≡ shutdown_error)))
          × (x ≡ failed_by cause))

  abbrev pub Ending : ℕ → List Error → List Waited → Answer → Written → Type 0
  Ending more timeouts pauses last x =
      Finished more timeouts pauses last x ⊎ Interrupted more timeouts pauses last x

  Ending-again :
      (more : ℕ) (e : Error) (timeouts : List Error) (pauses : List Waited) (last : Answer)
      (x : Written)
      → Ending more timeouts pauses last x
      → Ending (suc more) (e ∷ timeouts) (elapsed ∷ pauses) last x
  Ending-again more e timeouts pauses last x (inl (same, le, inl final, o)) =
      inl (ap (λ ps. elapsed ∷ ps) same, omega (arith, le), inl final, o)
  Ending-again more e timeouts pauses last x (inl (same, le, inr all, o)) =
      inl (ap (λ ps. elapsed ∷ ps) same, omega (arith, le), inr (ap suc all), o)
  Ending-again more e timeouts pauses last x (inr (lt, late, (stop, cause, same, why, o))) =
      inr (omega (arith, lt), late, (stop, cause, ap (λ ps. elapsed ∷ ps) same, why, o))

  -- One outcome was written, and no further attempt was made.
  record Concluded (x : Written) (w v : Worker W) : Type 0 where
    pub same_answers : v.answers ≡ w.answers
    pub same_waits : v.waits ≡ w.waits
    pub same_pauses : v.pauses ≡ w.pauses
    pub wrote : v.written ≡ w.written ++ x ∷ []

  success-Concluded :
      (id : envoy_trade.Common.String) (w : Worker W)
      → Concluded (outcome_of (accepted id)) w (record_success E job id w).1
  unfolding record_success start_sync
  success-Concluded id w =
      if_cases
        (λ (m : State (Worker W) (Unit {0})).
          (u : Worker W)
          → u.answers ≡ w.answers
          → u.waits ≡ w.waits
          → u.pauses ≡ w.pauses
          → u.written ≡ w.written ++ outcome_of (accepted id) ∷ []
          → Concluded (outcome_of (accepted id)) w (m u).1)
        E.has_syncer _ _
        (λ _ u a b c d. record { same_answers = a; same_waits = b; same_pauses = c; wrote = d })
        (λ _ u a b c d. record { same_answers = a; same_waits = b; same_pauses = c; wrote = d }) _
        refl refl refl refl

  failure-Concluded :
      (cause : Error) (w : Worker W)
      → Concluded (failed_by cause) w (record_failure E job cause w).1
  unfolding record_failure
  failure-Concluded cause w = record {
    same_answers = refl;
    same_waits = refl;
    same_pauses = refl;
    wrote = refl;
  }

  conclude-Concluded :
      (a : Answer) (w : Worker W) → Concluded (outcome_of a) w (conclude E job a w).1
  unfolding conclude
  conclude-Concluded (accepted id) w = success-Concluded id w
  conclude-Concluded (panicked text) w = failure-Concluded (panic_error text) w
  conclude-Concluded (refused e) w = failure-Concluded e w

  -- What a placement with `more` retries and the first backoff b leads to.
  pub record Handled (more : ℕ) (b : ℤ) (w v : Worker W) : Type 0 where
    pub timeouts : List Error
    pub last : Answer
    pub pauses : List Waited
    pub outcome : Written
    pub answered : v.answers ≡ w.answers ++ (map refused timeouts ++ last ∷ [])
    pub only_timeouts : All IsTimeout timeouts
    pub waited : v.waits ≡ w.waits ++ backoffs (length pauses) b
    pub paused : v.pauses ≡ w.pauses ++ pauses
    pub wrote : v.written ≡ w.written ++ outcome ∷ []
    pub ending : Ending more timeouts pauses last outcome

  Handled-last :
      (more : ℕ) (b : ℤ) (a : Answer) {w u v : Worker W}
      → IsFinal a ⊎ (0 ≡ more)
      → u.answers ≡ w.answers ++ a ∷ []
      → u.waits ≡ w.waits
      → u.pauses ≡ w.pauses
      → u.written ≡ w.written
      → Concluded (outcome_of a) u v
      → Handled more b w v
  unfolding backoffs
  Handled-last more b a {w} {u} {v} f h k m l c = record {
    timeouts = [];
    last = a;
    pauses = [];
    outcome = outcome_of a;
    answered = c.same_answers ∙ h;
    only_timeouts = tt;
    waited = c.same_waits ∙ k ∙ sym (append-nil w.waits);
    paused = c.same_pauses ∙ m ∙ sym (append-nil w.pauses);
    wrote = c.wrote ∙ ap (λ ws. ws ++ outcome_of a ∷ []) l;
    ending = inl (refl, omega arith, f, refl);
  }

  Handled-interrupted :
      (more : ℕ) (b : ℤ) (e : Error) (stop : Waited) (cause : Error) {w u v : Worker W}
      → IsTimeout e
      → (stop ≡ context_done cause) ⊎ ((stop ≡ pool_done) × (cause ≡ shutdown_error))
      → u.answers ≡ w.answers ++ refused e ∷ []
      → u.waits ≡ w.waits ++ b ∷ []
      → u.pauses ≡ w.pauses ++ stop ∷ []
      → u.written ≡ w.written
      → Concluded (failed_by cause) u v
      → Handled (suc more) b w v
  unfolding backoffs
  Handled-interrupted more b e stop cause {w} {u} {v} t why h k m l c = record {
    timeouts = [];
    last = refused e;
    pauses = stop ∷ [];
    outcome = failed_by cause;
    answered = c.same_answers ∙ h;
    only_timeouts = tt;
    waited = c.same_waits ∙ k;
    paused = c.same_pauses ∙ m;
    wrote = c.wrote ∙ ap (λ ws. ws ++ failed_by cause ∷ []) l;
    ending = inr (omega arith, (e, refl, t), (stop, cause, refl, why, refl));
  }

  Handled-again :
      (more : ℕ) (b : ℤ) (e : Error) {w u v : Worker W}
      → IsTimeout e
      → u.answers ≡ w.answers ++ refused e ∷ []
      → u.waits ≡ w.waits ++ b ∷ []
      → u.pauses ≡ w.pauses ++ elapsed ∷ []
      → u.written ≡ w.written
      → Handled more (double b) u v
      → Handled (suc more) b w v
  unfolding backoffs
  Handled-again more b e {w} {u} {v} t h k m l c = record {
    timeouts = e ∷ c.timeouts;
    last = c.last;
    pauses = elapsed ∷ c.pauses;
    outcome = c.outcome;
    answered =
        c.answered
        ∙ ap (λ xs. xs ++ (map refused c.timeouts ++ c.last ∷ [])) h
        ∙ append_assoc w.answers (refused e ∷ []) (map refused c.timeouts ++ c.last ∷ []);
    only_timeouts = (t, c.only_timeouts);
    waited =
        c.waited
        ∙ ap (λ ws. ws ++ backoffs (length c.pauses) (double b)) k
        ∙ append_assoc w.waits (b ∷ []) (backoffs (length c.pauses) (double b));
    paused = c.paused ∙ ap (λ ps. ps ++ c.pauses) m ∙ append_assoc w.pauses (elapsed ∷ []) c.pauses;
    wrote = c.wrote ∙ ap (λ ws. ws ++ c.outcome ∷ []) l;
    ending = Ending-again more e c.timeouts c.pauses c.last c.outcome c.ending;
  }

  -- What is left to show of the attempts after a first timeout.
  abbrev Again : ℕ → ℤ → Type 0
  Again more b = (u : Worker W) → Handled more b u (attempts E job more b u).1

  after_wait-Handled :
      (more : ℕ) (b : ℤ) (e : Error) (p : Waited) (w u : Worker W)
      → Again more (double b)
      → IsTimeout e
      → u.answers ≡ w.answers ++ refused e ∷ []
      → u.waits ≡ w.waits ++ b ∷ []
      → u.pauses ≡ w.pauses ++ p ∷ []
      → u.written ≡ w.written
      → Handled (suc more) b w (after_wait E job (attempts E job more (double b)) p u).1
  unfolding after_wait
  after_wait-Handled more b e elapsed w u again t h k m l =
      Handled-again more b e t h k m l (again u)
  after_wait-Handled more b e (context_done cause) w u again t h k m l =
      Handled-interrupted more b e (context_done cause) cause t (inl refl) h k m l
        (failure-Concluded cause u)
  after_wait-Handled more b e pool_done w u again t h k m l =
      Handled-interrupted more b e pool_done shutdown_error t (inr (refl, refl)) h k m l
        (failure-Concluded shutdown_error u)

  retry-Handled :
      (more : ℕ) (b : ℤ) (a : Answer) (w : Worker W) (u : Worker W)
      → Again more (double b)
      → u.answers ≡ w.answers ++ a ∷ []
      → u.waits ≡ w.waits
      → u.pauses ≡ w.pauses
      → u.written ≡ w.written
      → Handled (suc more) b w (retry_or_conclude E job b (attempts E job more (double b)) a u).1
  unfolding retry_or_conclude retry pause
  retry-Handled more b (accepted id) w u again h k m l =
      Handled-last (suc more) b (accepted id) (inl tt) h k m l (conclude-Concluded (accepted id) u)
  retry-Handled more b (panicked text) w u again h k m l =
      Handled-last (suc more) b (panicked text) (inl tt) h k m l
        (conclude-Concluded (panicked text) u)
  retry-Handled more b (refused e) w u again h k m l = elim (Bool-cases (is_timeout E e)) [
    | inl t ↦ rw t (
        after_wait-Handled more b e _ w _ again t h (ap (λ ws. ws ++ b ∷ []) k)
          (ap (λ ps. ps ++ (E.wait b u.world).0 ∷ []) m) l)
    | inr t ↦
        rw t
          (Handled-last (suc more) b (refused e) (inl t) h k m l (conclude-Concluded (refused e) u))
  ]

  attempts-Handled :
      (more : ℕ) (b : ℤ) (w : Worker W) → Handled more b w (attempts E job more b w).1
  unfolding attempts try_place
  attempts-Handled zero b w =
      Handled-last zero b _ (inr refl) refl refl refl refl (conclude-Concluded _ _)
  attempts-Handled (suc more) b w =
      retry-Handled more b _ w _ (attempts-Handled more (double b)) refl refl refl refl

  -- A placement calls the broker at most MaxRetries times (once, if that is less than one). All answers but
  -- the last are timeouts, and it waits after each of them, for the first backoff and then its doubles.
  -- Either all waits pass, and the last answer is no timeout or the attempts are used up; then the outcome is
  -- the broker's order id if the answer accepts the order, and else a failure with the answer's error. Or the
  -- last answer is a timeout with attempts left, and the wait after it is interrupted; then the outcome is a
  -- failure with the context's error, or with that of the pool's shutdown. Exactly this one outcome is written
  -- to the order's row.
  pub place-Handled :
      (s : Settings) (w : Worker W)
      → Handled (retries s.max_retries) (first_backoff s.initial_backoff) w (place E job s w).1
  unfolding place
  place-Handled s w = attempts-Handled (retries s.max_retries) (first_backoff s.initial_backoff) w
