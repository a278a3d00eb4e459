-- ===== src/Tests/Debounce.antt =====
-- A request that comes while the account's sync runs.
use envoy_trade.Common.{◌<◌, ◌≡◌, refl, List, [], ◌∷◌}
use envoy_trade.Debounce.Syncer.{
  new_syncer, move, end, request, begin, cool, look_again, panic, SyncEvent, requests, begins,
  cools, looks, panics, sync_step, sync_run,
}
use envoy_trade.Debounce.Refines.{Shows, job_run, idle, sync_run-Shows}
use envoy_trade.Debounce.Served.{syncs, request-served}

abbrev before : List SyncEvent
before = requests 3 ∷ requests 4 ∷ begins 3 ∷ begins 4 ∷ panics 4 ∷ []

abbrev after : List SyncEvent
after = requests 3 ∷ cools 3 ∷ looks 3 ∷ begins 3 ∷ cools 3 ∷ looks 3 ∷ []

sync_run-Shows_example : Shows 3 (sync_run before new_syncer) (job_run 3 before idle)
sync_run-Shows_example = sync_run-Shows 3 before

request-served_example :
    syncs 3 (sync_run before new_syncer).begun
    < syncs 3 (sync_run after (request 3 (sync_run before new_syncer))).begun
unfolding sync_run sync_step request begin cool look_again panic move end
request-served_example =
    request-served 3 before after (refl, (refl, (refl, (refl, (refl, (refl, tt)))))) refl

two_syncs : (sync_run after (request 3 (sync_run before new_syncer))).begun ≡ 3 ∷ 4 ∷ 3 ∷ []
unfolding sync_run sync_step request begin cool look_again panic move end
two_syncs = refl
