-- ===== src/Engine/Loop.antt =====
-- The dispatch loop hands over exactly what its candidates are due, whatever the workers answer.
use envoy_trade.Common.{
  ℕ, ◌≡◌, refl, Bool, true, false, String, List, [], ◌∷◌, ◌++◌, pos, eqb_ℤ, inl, inr, Option-cases,
  if◌then◌else◌,
}
use mathlib.Core.List.{append-nil, append_assoc}
use envoy_trade.Domain.Decimal.{Float64}
use envoy_trade.Domain.Types.{MasterFill}
use envoy_trade.Engine.Parts.{Env, Engine}
use envoy_trade.Engine.Sizing.{Candidate}
use envoy_trade.Engine.Dispatch.{
  Counts, inserted_id, job_of, mark_failed, after_dispatch, hand_over, dispatch_one, dispatch_all,
}
use envoy_trade.Engine.Trace.{
  jobs, jobs_laws, planned_one, planned, Reach, here, by_failed, by_dispatch, Reach-trans,
}

module _ {W : Type 0} (E : Env W) (fill : MasterFill) (prices : Float64 × Float64) where
  after_dispatch-jobs :
      (order_id : ℕ) (counts : Counts) (sent : Bool) (e : Engine W)
      → jobs (after_dispatch E order_id counts sent e).1.calls ≡ jobs e.calls
  unfolding after_dispatch mark_failed
  after_dispatch-jobs order_id counts true e = refl
  after_dispatch-jobs order_id counts false e = simp jobs_laws

  hand_over-jobs :
      (order_id : ℕ) (c : Candidate) (counts : Counts) (e : Engine W) (z : Bool)
      → eqb_ℤ c.qty (pos 0) ≡ z
      → jobs (hand_over E fill prices order_id c counts e).1.calls
        ≡ jobs e.calls ++ (if z then [] else job_of fill prices order_id c ∷ [])
  unfolding hand_over mark_failed
  hand_over-jobs order_id c counts e true z = rw z (simp jobs_laws)
  hand_over-jobs order_id c counts e false z = rw z (simp (after_dispatch-jobs, jobs_laws))

  dispatch_one-jobs :
      (ids : List (String × ℕ)) (c : Candidate) (counts : Counts) (e : Engine W)
      → jobs (dispatch_one E fill prices ids c counts e).1.calls
        ≡ jobs e.calls ++ planned_one fill prices ids c
  unfolding dispatch_one planned_one
  dispatch_one-jobs ids c counts e = elim (Option-cases (inserted_id c.tag ids)) [
    | inl h ↦ rw (h, dispatch_one, planned_one) (simp append-nil)
    | inr (id, h) ↦ rw (h, dispatch_one, planned_one) (hand_over-jobs id c counts e _ refl)
  ]

  -- The loop hands over what each candidate is due, in order: no answer of a worker, a full queue
  -- or an error of the store changes what the later followers get.
  pub dispatch_all-jobs :
      (ids : List (String × ℕ)) (cs : List Candidate) (counts : Counts) (e : Engine W)
      → jobs (dispatch_all E fill prices ids cs counts e).1.calls
        ≡ jobs e.calls ++ planned fill prices ids cs
  unfolding dispatch_all planned
  dispatch_all-jobs ids [] counts e = simp append-nil
  dispatch_all-jobs ids (c ∷ cs) counts e =
      let r = dispatch_one E fill prices ids c counts e in
      rw (
        dispatch_all-jobs ids cs r.0 r.1,
        dispatch_one-jobs ids c counts e,
        append_assoc (jobs e.calls) (planned_one fill prices ids c) (planned fill prices ids cs),
      )

  after_dispatch-Reach :
      (order_id : ℕ) (counts : Counts) (sent : Bool) (e : Engine W)
      → Reach E e.world (after_dispatch E order_id counts sent e).1.world
  unfolding after_dispatch mark_failed
  after_dispatch-Reach order_id counts true e = here
  after_dispatch-Reach order_id counts false e = by_failed _ _ _ _ here

  hand_over-Reach :
      (order_id : ℕ) (c : Candidate) (counts : Counts) (e : Engine W) (z : Bool)
      → eqb_ℤ c.qty (pos 0) ≡ z
      → Reach E e.world (hand_over E fill prices order_id c counts e).1.world
  unfolding hand_over mark_failed
  hand_over-Reach order_id c counts e true z = rw z (by_failed _ _ _ _ here)
  hand_over-Reach order_id c counts e false z =
      rw z (Reach-trans (by_dispatch _ _ _ here) (after_dispatch-Reach order_id counts _ _))

  dispatch_one-Reach :
      (ids : List (String × ℕ)) (c : Candidate) (counts : Counts) (e : Engine W)
      → Reach E e.world (dispatch_one E fill prices ids c counts e).1.world
  unfolding dispatch_one
  dispatch_one-Reach ids c counts e = elim (Option-cases (inserted_id c.tag ids)) [
    | inl h ↦ rw (h, dispatch_one) here
    | inr (id, h) ↦ rw (h, dispatch_one) (hand_over-Reach id c counts e _ refl)
  ]

  pub dispatch_all-Reach :
      (ids : List (String × ℕ)) (cs : List Candidate) (counts : Counts) (e : Engine W)
      → Reach E e.world (dispatch_all E fill prices ids cs counts e).1.world
  unfolding dispatch_all
  dispatch_all-Reach ids [] counts e = here
  dispatch_all-Reach ids (c ∷ cs) counts e =
      let r = dispatch_one E fill prices ids c counts e in
      Reach-trans (dispatch_one-Reach ids c counts e) (dispatch_all-Reach ids cs r.0 r.1)
