-- ===== src/Engine/Trace.antt =====
-- The jobs in a history of calls, the jobs that a batch of candidates leads to, and the worlds that
-- the engine's calls lead to.
use envoy_trade.Common.{
  ℕ, ◌≡◌, refl, ap, ◌∙◌, Bool, true, false, String, Option, none, some, List, [], ◌∷◌, ◌++◌, pos,
  eqb_ℤ, if◌then◌else◌, arith,
}
use mathlib.Core.List.{append-nil}
use envoy_trade.Domain.Decimal.{Float64}
use envoy_trade.Domain.Types.{Uuid, DispatchState, MasterFill, FollowerOrder, Job}
use envoy_trade.Engine.Parts.{
  Env, Call, ExecutionEvent, set_state, inserted, failed, dispatched, recorded,
}
use envoy_trade.Engine.Sizing.{Candidate}
use envoy_trade.Engine.Dispatch.{inserted_id, job_of}

-- The jobs that were handed to a worker's queue, in order, whether or not it had room.
unfoldable pub jobs : List Call → List Job
jobs [] = []
jobs (dispatched id job ∷ cs) = job ∷ jobs cs
jobs (set_state id st ∷ cs) = jobs cs
jobs (inserted orders ∷ cs) = jobs cs
jobs (failed id status message ∷ cs) = jobs cs
jobs (recorded event ∷ cs) = jobs cs

pub jobs-append : (cs ds : List Call) → jobs (cs ++ ds) ≡ jobs cs ++ jobs ds
unfolding jobs
jobs-append [] ds = refl
jobs-append (dispatched id job ∷ cs) ds = ap (◌∷◌ job) (jobs-append cs ds)
jobs-append (set_state id st ∷ cs) ds = jobs-append cs ds
jobs-append (inserted orders ∷ cs) ds = jobs-append cs ds
jobs-append (failed id status message ∷ cs) ds = jobs-append cs ds
jobs-append (recorded event ∷ cs) ds = jobs-append cs ds

pub jobs-dispatched :
    (cs : List Call) (id : Uuid) (job : Job)
    → jobs (cs ++ dispatched id job ∷ []) ≡ jobs cs ++ job ∷ []
unfolding jobs
jobs-dispatched cs id job = jobs-append cs (dispatched id job ∷ [])

pub jobs-failed :
    (cs : List Call) (id : ℕ) (status message : String)
    → jobs (cs ++ failed id status message ∷ []) ≡ jobs cs
unfolding jobs
jobs-failed cs id status message =
    jobs-append cs (failed id status message ∷ []) ∙ append-nil (jobs cs)

pub jobs-set_state :
    (cs : List Call) (id : ℕ) (st : DispatchState) → jobs (cs ++ set_state id st ∷ []) ≡ jobs cs
unfolding jobs
jobs-set_state cs id st = jobs-append cs (set_state id st ∷ []) ∙ append-nil (jobs cs)

pub jobs-inserted :
    (cs : List Call) (os : List FollowerOrder) → jobs (cs ++ inserted os ∷ []) ≡ jobs cs
unfolding jobs
jobs-inserted cs os = jobs-append cs (inserted os ∷ []) ∙ append-nil (jobs cs)

pub jobs-recorded : (cs : List Call) (ev : ExecutionEvent) → jobs (cs ++ recorded ev ∷ []) ≡ jobs cs
unfolding jobs
jobs-recorded cs ev = jobs-append cs (recorded ev ∷ []) ∙ append-nil (jobs cs)

pub ruleset jobs_laws =
    (jobs-dispatched, jobs-failed, jobs-set_state, jobs-inserted, jobs-recorded, append-nil)

-- What one candidate is due: nothing if its row was there before or it has no quantity.
unfoldable pub planned_one :
    MasterFill → Float64 × Float64 → List (String × ℕ) → Candidate → List Job
planned_one fill prices ids c = elim (inserted_id c.tag ids) [
  | none ↦ []
  | some id ↦ if eqb_ℤ c.qty (pos 0) then [] else job_of fill prices id c ∷ []
]

unfoldable pub planned :
    MasterFill → Float64 × Float64 → List (String × ℕ) → List Candidate → List Job
planned fill prices ids [] = []
planned fill prices ids (c ∷ cs) = planned_one fill prices ids c ++ planned fill prices ids cs

-- The worlds that calls of the interfaces lead to.
pub data Reach {W : Type 0} (E : Env W) (w : W) : W → Type 0 where
  here : Reach E w w
  by_now : (v : W) → Reach E w v → Reach E w (E.now v).1
  by_active : (v : W) (m : Uuid) → Reach E w v → Reach E w (E.master_active m v).1
  by_links : (v : W) (m : Uuid) → Reach E w v → Reach E w (E.enabled_follow_links m v).1
  by_lot_size : (v : W) (x s : String) → Reach E w v → Reach E w (E.instrument_lot_size x s v).1
  by_batch :
      (v : W) (os : List FollowerOrder)
      → Reach E w v
      → Reach E w (E.insert_follower_orders_batch os v).1
  by_state :
      (v : W) (id : ℕ) (st : DispatchState)
      → Reach E w v
      → Reach E w (E.set_master_fill_dispatch_state id st v).1
  by_failed :
      (v : W) (id : ℕ) (status message : String)
      → Reach E w v
      → Reach E w (E.update_follower_order_failed id status message v).1
  by_dispatch : (v : W) (id : Uuid) (job : Job) → Reach E w v → Reach E w (E.dispatch id job v).1
  by_resolver :
      (v : W) (f : String → String → W → envoy_trade.Common.Result envoy_trade.Common.ℤ × W)
      (x s : String)
      → E.lot_size_resolver ≡ some f
      → Reach E w v
      → Reach E w (f x s v).1

pub Reach-trans : {W : Type 0} {E : Env W} {u v w : W} → Reach E u v → Reach E v w → Reach E u w
Reach-trans r here = r
Reach-trans r (by_now v s) = by_now v (Reach-trans r s)
Reach-trans r (by_active v m s) = by_active v m (Reach-trans r s)
Reach-trans r (by_links v m s) = by_links v m (Reach-trans r s)
Reach-trans r (by_lot_size v x y s) = by_lot_size v x y (Reach-trans r s)
Reach-trans r (by_batch v os s) = by_batch v os (Reach-trans r s)
Reach-trans r (by_state v id st s) = by_state v id st (Reach-trans r s)
Reach-trans r (by_failed v id a b s) = by_failed v id a b (Reach-trans r s)
Reach-trans r (by_dispatch v id job s) = by_dispatch v id job (Reach-trans r s)
Reach-trans r (by_resolver v f x y e s) = by_resolver v f x y e (Reach-trans r s)
