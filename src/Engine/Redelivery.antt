-- ===== src/Engine/Redelivery.antt =====
-- No idempotency tag is handed over twice, over any sequence of fills and redeliveries.
use envoy_trade.Common.{
  ℕ, ◌≡◌, ◌≢◌, refl, ap, subst, ◌∙◌, Bool, inl, inr, String, some, List, [], ◌∷◌, map, ℤ, pos,
  eqb_ℤ, All, All-append, All-map, Distinct, Distinct-append, ok, if_cases, Option-cases,
}
use mathlib.Core.List.{map-append}
use envoy_trade.Domain.Decimal.{Float64}
use envoy_trade.Domain.Idempotency.{idempotency_tag}
use envoy_trade.Domain.Types.{Instant, MasterFill, FollowLink, FollowerOrder, Job}
use envoy_trade.Engine.Parts.{Env, Engine, set_kill_switch, clear_lot_size_cache}
use envoy_trade.Engine.Sizing.{Candidate, candidate_of}
use envoy_trade.Engine.Dispatch.{inserted_id, job_of}
use envoy_trade.Engine.Handle.{handle_master_fill}
use envoy_trade.Engine.Trace.{jobs, planned_one, planned, Reach, here, by_batch, Reach-trans}
use envoy_trade.Engine.Outcome.{Quiet, Batched, candidates, prices}
use envoy_trade.Engine.FanOut.{handle_master_fill-outcome}

-- What the store's unique index on `idempotency_tag` and the primary key of `follow_links` give.
pub record KeepsTags {W : Type 0} (E : Env W) : Type 1 where
  -- a row with the tag is in the table
  pub Present : String → W → Type 0
  pub batch_new :
      (orders : List FollowerOrder) (w : W) (ids : List (String × ℕ)) (tag : String) (id : ℕ)
      → (E.insert_follower_orders_batch orders w).0 ≡ ok ids
      → inserted_id tag ids ≡ some id
      → (¬ Present tag w) × Present tag (E.insert_follower_orders_batch orders w).1
  -- no call deletes a row
  pub kept : (tag : String) (w v : W) → Reach E w v → Present tag w → Present tag v
  -- the followers of a master are distinct, and the digest does not take two to one tag
  pub links_distinct :
      (fill : MasterFill) (w : W) (links : List FollowLink)
      → (E.enabled_follow_links fill.master_id w).0 ≡ ok links
      → Distinct (map (λ (l : FollowLink). idempotency_tag E.digest fill.id l.follower_id) links)

abbrev pub job_tags : List Job → List String
job_tags = map (λ (j : Job). j.idempotency_tag)

abbrev candidate_tags : List Candidate → List String
candidate_tags = map (λ (c : Candidate). c.tag)

module _ (fill : MasterFill) (p : Float64 × Float64) (ids : List (String × ℕ)) where
  -- what holds of a candidate's tag, if its row was inserted, holds of the tag of its job
  planned_one-All :
      (P : String → Type 0) (c : Candidate)
      → ((id : ℕ) → inserted_id c.tag ids ≡ some id → P c.tag)
      → All P (job_tags (planned_one fill p ids c))
  unfolding planned_one job_of
  planned_one-All P c h = elim (Option-cases (inserted_id c.tag ids)) [
    | inl e ↦ rw (e, planned_one) tt
    | inr (id, e) ↦
        rw (e, planned_one)
          (if_cases (λ js. All P (job_tags js)) (eqb_ℤ c.qty (pos 0)) _ _ (λ _. tt)
            (λ _. (h id e, tt)))
  ]

  planned_one-Distinct : (c : Candidate) → Distinct (job_tags (planned_one fill p ids c))
  unfolding planned_one job_of
  planned_one-Distinct c = elim (Option-cases (inserted_id c.tag ids)) [
    | inl e ↦ rw (e, planned_one) tt
    | inr (id, e) ↦
        rw (e, planned_one)
          (if_cases (λ js. Distinct (job_tags js)) (eqb_ℤ c.qty (pos 0)) _ _ (λ _. tt)
            (λ _. (tt, tt)))
  ]

  planned-All :
      (P : String → Type 0) (cs : List Candidate)
      → All (λ (c : Candidate). (id : ℕ) → inserted_id c.tag ids ≡ some id → P c.tag) cs
      → All P (job_tags (planned fill p ids cs))
  unfolding planned
  planned-All P [] h = tt
  planned-All P (c ∷ cs) h =
      rw
        (map-append (λ (j : Job). j.idempotency_tag) (planned_one fill p ids c)
          (planned fill p ids cs))
        (All-append P (job_tags (planned_one fill p ids c)) (job_tags (planned fill p ids cs))
          (planned_one-All P c h.0) (planned-All P cs h.1))

  All-tags :
      (P : String → Type 0) (cs : List Candidate)
      → All P (candidate_tags cs)
      → All (λ (c : Candidate). (id : ℕ) → inserted_id c.tag ids ≡ some id → P c.tag) cs
  All-tags P [] h = tt
  All-tags P (c ∷ cs) h = (λ _ _. h.0, All-tags P cs h.1)

  planned-Distinct :
      (cs : List Candidate)
      → Distinct (candidate_tags cs)
      → Distinct (job_tags (planned fill p ids cs))
  unfolding planned
  planned-Distinct [] d = tt
  planned-Distinct (c ∷ cs) d =
      rw
        (map-append (λ (j : Job). j.idempotency_tag) (planned_one fill p ids c)
          (planned fill p ids cs))
        (Distinct-append (job_tags (planned_one fill p ids c)) (job_tags (planned fill p ids cs))
          (planned_one-Distinct c) (planned-Distinct cs d.1)
          (planned_one-All (λ x. All (λ y. x ≢ y) (job_tags (planned fill p ids cs))) c
            (λ _ _. planned-All (λ y. c.tag ≢ y) cs (All-tags (λ y. c.tag ≢ y) cs d.0))))

-- What happens to an engine between two fills, and the fills.
pub data EngineEvent : Type 0 where
  fill_arrives : MasterFill → EngineEvent
  kill_switch_set : Instant → Bool → String → String → EngineEvent
  cache_cleared : EngineEvent

module _ {W : Type 0} (E : Env W) where
  unfoldable pub after_event : Engine W → EngineEvent → Engine W
  after_event e (fill_arrives fill) = (handle_master_fill E fill e).1
  after_event e (kill_switch_set now engaged reason by) = set_kill_switch now engaged reason by e
  after_event e cache_cleared = clear_lot_size_cache e

  unfoldable pub run : Engine W → List EngineEvent → Engine W
  run e [] = e
  run e (v ∷ vs) = run (after_event e v) vs

  module _ (K : KeepsTags E) where
    -- Each tag that was handed over has its row, and no tag was handed over twice.
    pub record Inv (e : Engine W) : Type 0 where
      pub stored : All (λ t. K.Present t e.world) (job_tags (jobs e.calls))
      pub once : Distinct (job_tags (jobs e.calls))

    All-kept :
        (ts : List String) (w v : W)
        → Reach E w v
        → All (λ t. K.Present t w) ts
        → All (λ t. K.Present t v) ts
    All-kept ts w v r h =
        All-map (λ t. K.Present t w) (λ t. K.Present t v) (λ t. K.kept t w v r) ts h

    Quiet-Inv : {e f : Engine W} → Quiet E e f → Inv e → Inv f
    Quiet-Inv {e} {f} q v = record {
      stored = rw q.same (All-kept (job_tags (jobs e.calls)) e.world f.world q.reach v.stored);
      once = rw q.same v.once;
    }

    candidate_tags-links :
        (fill : MasterFill) (lot : ℤ) (links : List FollowLink)
        → candidate_tags (candidates E fill lot links)
          ≡ map (λ (l : FollowLink). idempotency_tag E.digest fill.id l.follower_id) links
    unfolding candidate_of
    candidate_tags-links fill lot [] = refl
    candidate_tags-links fill lot (l ∷ ls) =
        ap (◌∷◌ (idempotency_tag E.digest fill.id l.follower_id)) (candidate_tags-links fill lot ls)

    tags_where :
        (P : String → Type 0) (ids : List (String × ℕ)) (cs : List Candidate)
        → ((t : String) (id : ℕ) → inserted_id t ids ≡ some id → P t)
        → All (λ (c : Candidate). (id : ℕ) → inserted_id c.tag ids ≡ some id → P c.tag) cs
    tags_where P ids [] h = tt
    tags_where P ids (c ∷ cs) h = (h c.tag, tags_where P ids cs h)

    -- A new tag differs from every tag that has its row.
    apart :
        (w : W) (old new : List String)
        → All (λ t. K.Present t w) old
        → All (λ t. ¬ K.Present t w) new
        → All (λ x. All (λ y. x ≢ y) new) old
    apart w [] new h k = tt
    apart w (x ∷ old) new h k = (
      All-map (λ t. ¬ K.Present t w) (λ y. x ≢ y)
          (λ y absent e. absent (subst (λ t. K.Present t w) e h.0)) new k,
      apart w old new h.1 k,
    )

    Batched-Inv :
        (fill : MasterFill) (cs : List Candidate) (lot : ℤ) {e f : Engine W}
        → Distinct (candidate_tags cs)
        → Batched E fill cs lot e f
        → Inv e
        → Inv f
    Batched-Inv fill cs lot {e} {f} d b v =
        let new = planned fill (prices E fill) b.ids cs in
        let old = All-kept (job_tags (jobs e.calls)) e.world b.before b.reach v.stored in
        let fresh =
          planned-All fill (prices E fill) b.ids (λ t. ¬ K.Present t b.before) cs
            (tags_where (λ t. ¬ K.Present t b.before) b.ids cs
              (λ t id h. (K.batch_new _ b.before b.ids t id b.stored h).0)) in
        let added =
          planned-All fill (prices E fill) b.ids (λ t. K.Present t f.world) cs
            (tags_where (λ t. K.Present t f.world) b.ids cs
              (λ t id h.
                K.kept t _ f.world b.after (K.batch_new _ b.before b.ids t id b.stored h).1)) in
        let split =
          ap job_tags b.handed ∙ map-append (λ (j : Job). j.idempotency_tag) (jobs e.calls) new in
        record {
          stored = rw split (
              All-append (λ t. K.Present t f.world) (job_tags (jobs e.calls)) (job_tags new)
                (All-kept (job_tags (jobs e.calls)) b.before f.world
                  (Reach-trans (by_batch b.before _ here) b.after) old)
                added);
          once = rw split (
              Distinct-append (job_tags (jobs e.calls)) (job_tags new) v.once
                (planned-Distinct fill (prices E fill) b.ids cs d)
                (apart b.before (job_tags (jobs e.calls)) (job_tags new) old fresh));
        }

    after_event-Inv : (e : Engine W) (v : EngineEvent) → Inv e → Inv (after_event e v)
    unfolding after_event set_kill_switch clear_lot_size_cache
    after_event-Inv e (fill_arrives fill) i = elim (handle_master_fill-outcome E fill e) [
      | inl q ↦ Quiet-Inv q i
      | inr (o, f) ↦
          Batched-Inv fill (candidates E fill f.linked.lot f.links) f.linked.lot
            (rw (candidate_tags-links fill f.linked.lot f.links)
              (K.links_distinct fill f.at_links f.links f.given))
            f.linked.batch i
    ]
    after_event-Inv e (kill_switch_set now engaged reason by) i = record {
      stored = i.stored;
      once = i.once;
    }
    after_event-Inv e cache_cleared i = record { stored = i.stored; once = i.once }

    -- With a store that keeps idempotency tags unique, an engine that has handed over no tag twice
    -- hands over none twice: over any sequence of fills, redeliveries and failures among them, and
    -- of kill switch and cache operations, the tags of all jobs handed over stay distinct, and each
    -- has its row.
    pub run-Inv : (e : Engine W) (vs : List EngineEvent) → Inv e → Inv (run e vs)
    unfolding run
    run-Inv e [] i = i
    run-Inv e (v ∷ vs) i = run-Inv (after_event e v) vs (after_event-Inv e v i)
