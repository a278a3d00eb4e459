-- ===== src/Worker/Rate.antt =====
-- The rate limit: placements of one worker begin at least the interval apart.
use envoy_trade.Common.{
  ℕ, ◌+◌, ◌-◌, ◌≤◌, ◌<◌, ◌≡◌, refl, sym, ap, ◌∙◌, arith, true, false, Option, none, some, List, [],
  ◌∷◌, ◌++◌, ℤ, pos, ◌-ℤ◌, ltb_ℤ, if_cases,
}
use mathlib.Core.List.{append-nil, append_assoc}
use envoy_trade.Common.State.{State}
use envoy_trade.Domain.Types.{Job}
use envoy_trade.Worker.Parts.{WorkerEnv, Worker, Waited, elapsed, context_done, pool_done, ask}
use envoy_trade.Worker.Place.{
  Settings, rest_of_interval, limit_rate, start_placement, run_job, run_jobs,
}
use envoy_trade.Worker.Clock.{KeepsTime, place-Later}

-- Each begins at least `d` after the one before it.
abbrev pub Spaced : ℕ → Option ℕ → List ℕ → Type 0
Spaced d last [] = Unit
Spaced d none (t ∷ ts) = Spaced d (some t) ts
Spaced d (some last) (t ∷ ts) = (last + d ≤ t) × Spaced d (some t) ts

-- The time of the last placement, if there was one, lies in the past.
abbrev pub Past : Option ℕ → ℕ → Type 0
Past none now = Unit
Past (some last) now = last ≤ now

-- The interval since the last placement, if there was one, is over.
abbrev Over : ℕ → Option ℕ → ℕ → Type 0
Over d none now = Unit
Over d (some last) now = last + d ≤ now

rest_value :
    (i last now : ℕ)
    → last ≤ now
    → ltb_ℤ (pos now -ℤ pos last) (pos i) ≡ true
    → (pos i -ℤ (pos now -ℤ pos last) ≡ pos (i + last - now)) × (now < i + last)
unfolding ◌-ℤ◌
rest_value i last now h k = (ground arith, ground arith)

rest_over :
    (i last now : ℕ) → last ≤ now → ltb_ℤ (pos now -ℤ pos last) (pos i) ≡ false → last + i ≤ now
unfolding ◌-ℤ◌
rest_over i last now h k = ground arith

module _ {W : Type 0} (E : WorkerEnv W) (K : KeepsTime E) (s : Settings) (i : ℕ)
    (interval : s.rate_limit_interval ≡ pos i) where
  abbrev Limited : Option ℕ → Worker W → Waited × Worker W → Type 0
  Limited last w r =
      (K.time w.world ≤ K.time r.1.world)
      × (r.1.started ≡ w.started)
      × (r.0 ≡ elapsed → Over i last (K.time r.1.world))

  rest_of_interval-Limited :
      (last now : ℕ) (w : Worker W)
      → last ≤ now
      → now ≤ K.time w.world
      → Limited (some last) w (rest_of_interval E s last now w)
  unfolding rest_of_interval
  rest_of_interval-Limited last now w h k = rw interval (
      if_cases (λ (m : State (Worker W) Waited). Limited (some last) w (m w))
        (ltb_ℤ (pos now -ℤ pos last) (pos i)) _ _
        (λ soon.
          let v = rest_value i last now h soon in
          rw v.0 (
            K.wait_time (pos (i + last - now)) w.world,
            refl,
            λ e. omega (arith, k, v.1, K.wait_elapsed (i + last - now) w.world e),
          ))
        (λ long. (omega arith, refl, λ e. omega (arith, k, rest_over i last now h long))))

  no_interval :
      (r : ℤ) (last now : ℕ) → r ≡ pos i → last ≤ now → ltb_ℤ (pos 0) r ≡ false → last + i ≤ now
  no_interval r last now e h k = ground arith

  limit_rate-Limited :
      (last : Option ℕ) (w : Worker W)
      → Past last (K.time w.world)
      → Limited last w (limit_rate E s last w)
  unfolding limit_rate
  limit_rate-Limited none w h = (omega arith, refl, λ e. tt)
  limit_rate-Limited (some last) w h =
      if_cases (λ (m : State (Worker W) Waited). Limited (some last) w (m w))
        (ltb_ℤ (pos 0) s.rate_limit_interval) _ _
        (λ on.
          let v = (ask E.now w).1 in
          let n = K.shows w.world in
          let t = K.now_time w.world in
          let l =
            rest_of_interval-Limited last (E.now w.world).0 v (omega (arith, n))
              (omega (arith, n, t)) in
          (omega (arith, t, l.0), l.1, l.2))
        (λ off. (
          omega arith,
          refl,
          λ e. no_interval s.rate_limit_interval last (K.time w.world) interval h off,
        ))

  -- The run from a state on: the placements begin spaced.
  abbrev Runs : Option ℕ → Worker W → Worker W → Type 0
  Runs last w v = (new : List ℕ) × (v.started ≡ w.started ++ new) × Spaced i last new

  Runs-none : (last : Option ℕ) (w v : Worker W) → v.started ≡ w.started → Runs last w v
  Runs-none last w v h = ([], h ∙ sym (append-nil w.started), tt)

  Runs-cons :
      (last : Option ℕ) (t : ℕ) (w u v : Worker W)
      → Over i last t
      → u.started ≡ w.started ++ t ∷ []
      → Runs (some t) u v
      → Runs last w v
  Runs-cons none t w u v o h r =
      (t ∷ r.0, r.1 ∙ ap (λ ts. ts ++ r.0) h ∙ append_assoc w.started (t ∷ []) r.0, r.2)
  Runs-cons (some last) t w u v o h r =
      (t ∷ r.0, r.1 ∙ ap (λ ts. ts ++ r.0) h ∙ append_assoc w.started (t ∷ []) r.0, (o, r.2))

  start_placement-Started :
      (job : Job) (w : Worker W)
      → let r = start_placement E s job w in
        (r.0 ≡ K.time w.world)
        × (r.1.started ≡ w.started ++ K.time w.world ∷ [])
        × (K.time w.world ≤ K.time r.1.world)
  unfolding start_placement
  start_placement-Started job w =
      let p = place-Later E K job s _ in
      (
        K.shows w.world,
        p.same ∙ ap (λ t. w.started ++ t ∷ []) (K.shows w.world),
        omega (arith, p.later, K.now_time w.world),
      )

  module _ (job : Job) (jobs : List Job) where
    abbrev Rest : Type 0
    Rest =
        (last : Option ℕ) (u : Worker W)
        → Past last (K.time u.world)
        → Runs last u (run_jobs E s jobs last u).1

    placed-Runs :
        (last : Option ℕ) (w u : Worker W)
        → Rest
        → u.started ≡ w.started
        → Over i last (K.time u.world)
        → Runs last w (run_job E s job (run_jobs E s jobs) elapsed u).1
    unfolding run_job
    placed-Runs last w u rest h o =
        let r = start_placement E s job u in
        let x = start_placement-Started job u in
        let t = K.time u.world in
        rw x.0 (
          Runs-cons last t w r.1 (run_jobs E s jobs (some t) r.1).1 o
            (x.1 ∙ ap (λ ts. ts ++ t ∷ []) h) (rest (some t) r.1 x.2))

    run_job-Runs :
        (last : Option ℕ) (p : Waited) (w u : Worker W)
        → Rest
        → u.started ≡ w.started
        → (p ≡ elapsed → Over i last (K.time u.world))
        → Runs last w (run_job E s job (run_jobs E s jobs) p u).1
    unfolding run_job
    run_job-Runs last elapsed w u rest h o = placed-Runs last w u rest h (o refl)
    run_job-Runs last (context_done cause) w u rest h o = Runs-none last w u h
    run_job-Runs last pool_done w u rest h o = Runs-none last w u h

  -- With a monotonic clock, the placements of a worker begin at least the rate limit's interval
  -- apart, retries and all, and the first of them that long after the last one before.
  pub run_jobs-Spaced :
      (jobs : List Job) (last : Option ℕ) (w : Worker W)
      → Past last (K.time w.world)
      → (new : List ℕ) × ((run_jobs E s jobs last w).1.started ≡ w.started ++ new)
        × Spaced i last new
  unfolding run_jobs
  run_jobs-Spaced [] last w h = Runs-none last w w refl
  run_jobs-Spaced (job ∷ jobs) last w h =
      let l = limit_rate-Limited last w h in
      run_job-Runs job jobs last _ w _ (run_jobs-Spaced jobs) l.1 l.2
