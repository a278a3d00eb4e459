-- ===== src/Tests/Engine.antt =====
-- HandleMasterFill and runs of the engine on a small world.
use envoy_trade.Common.{
  ℕ, ◌≡◌, refl, sym, Bool, true, false, Option, none, some, List, [], ◌∷◌, ◌++◌, ◌⊎◌, inl, inr, map,
  ℤ, pos, All, In, Distinct, Result, ok,
}
use envoy_trade.Domain.Types.{FollowLink, Job}
use envoy_trade.Store.Tables.{Db}
use envoy_trade.Engine.Parts.{Env}
use envoy_trade.Engine.Sizing.{candidate_of}
use envoy_trade.Engine.Dispatch.{dispatch_all}
use envoy_trade.Engine.Handle.{handle_master_fill}
use envoy_trade.Engine.Trace.{jobs, planned, Reach}
use envoy_trade.Engine.Loop.{dispatch_all-jobs}
use envoy_trade.Engine.FanOut.{IsOpen}
use envoy_trade.Engine.Copies.{IsCopy, handle_master_fill-IsCopy}
use envoy_trade.Engine.Redelivery.{
  EngineEvent, fill_arrives, kill_switch_set, cache_cleared, job_tags, run, Inv, run-Inv,
}
use envoy_trade.System.{wire}
use envoy_trade.System.Once.{wired_once, store_keeps_tags}
use envoy_trade.Tests.Exact.{exact}
use envoy_trade.Tests.World.{around, around-TagsApart, digest, fill, idle, links}

abbrev env : Env (Db × ℕ)
env = wire around

-- a redelivery, and a kill switch that goes on and off
abbrev events : List EngineEvent
events =
    fill_arrives fill
    ∷ fill_arrives fill
    ∷ kill_switch_set 3 true "halt" "ops"
    ∷ fill_arrives fill
    ∷ kill_switch_set 4 false "" "ops"
    ∷ cache_cleared
    ∷ fill_arrives fill
    ∷ []

wired_once_example : Distinct (job_tags (jobs (run env idle events).calls))
unfolding jobs
wired_once_example = wired_once around idle events around-TagsApart refl

idle-Inv : Inv env (store_keeps_tags around around-TagsApart) idle
unfolding jobs
idle-Inv = record { stored = tt; once = tt }

run-Inv_example : Inv env (store_keeps_tags around around-TagsApart) (run env idle events)
run-Inv_example = run-Inv env (store_keeps_tags around around-TagsApart) idle events idle-Inv

abbrev batch_ids : List (envoy_trade.Common.String × ℕ)
batch_ids = ("7:11", 1) ∷ []

dispatch_all-jobs_example :
    jobs
      (dispatch_all env fill
        (0, 0)
        batch_ids
        (map (candidate_of exact digest fill (pos 0)) links)
        (0, 0)
        idle).1.calls
    ≡ jobs idle.calls
      ++ planned fill (0, 0) batch_ids (map (candidate_of exact digest fill (pos 0)) links)
dispatch_all-jobs_example =
    dispatch_all-jobs env fill (0, 0) batch_ids (map (candidate_of exact digest fill (pos 0)) links)
      (0, 0) idle

handle_master_fill-IsCopy_example :
    let f = (handle_master_fill env fill idle).1 in
    (new : List Job) × (jobs f.calls ≡ jobs idle.calls ++ new)
    × ((new ≡ [])
        ⊎ (IsOpen env fill idle
            × ((w : Db × ℕ) × Reach env idle.world w
                × ((env.master_active fill.master_id w).0 ≡ ok true))
            × ((given : List FollowLink) × ((w : Db × ℕ) × Reach env idle.world w
                  × ((env.enabled_follow_links fill.master_id w).0 ≡ ok given))
                × All (IsCopy env.numerics env.digest fill given) new)))
handle_master_fill-IsCopy_example = handle_master_fill-IsCopy env fill idle
