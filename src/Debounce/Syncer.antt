-- ===== src/Debounce/Syncer.antt =====
-- sync_debouncer.go: DebouncedSyncer, one section at a time.
use envoy_trade.Common.{Bool, true, false, ◌&&◌, List, [], ◌∷◌, ◌++◌, any, ◌==◌, if◌then◌else◌}
use envoy_trade.Domain.Types.{Uuid}

-- Where a goroutine of `run` is: before its call of the inner syncer, in it, or behind it and the sleep.
pub data Phase : Type 0 where
  starting syncing cooled : Phase

abbrev pub same_phase : Phase → Phase → Bool
same_phase starting starting = true
same_phase syncing syncing = true
same_phase cooled cooled = true
same_phase _ _ = false

-- DebouncedSyncer: its maps as functions, the goroutines that run, and a history, newest first, of the
-- inner syncs that were begun, which nothing reads.
pub record Syncer : Type 0 where
  pub active : Uuid → Bool
  pub pending : Uuid → Bool
  pub runners : List (Uuid × Phase)
  pub begun : List Uuid

-- NewDebouncedSyncer
abbrev pub new_syncer : Syncer
new_syncer = record { active = λ k. false; pending = λ k. false; runners = []; begun = [] }

-- m[k] = b; a deleted key reads as false
abbrev pub update : Uuid → Bool → (Uuid → Bool) → Uuid → Bool
update k b f j = if k == j then b else f j

abbrev pub is_at : Uuid → Phase → Uuid × Phase → Bool
is_at k p r = r.0 == k && same_phase r.1 p

-- The first goroutine of the account at the phase moves on, or ends.
unfoldable pub move : Uuid → Phase → Phase → List (Uuid × Phase) → List (Uuid × Phase)
move k p q [] = []
move k p q (r ∷ rs) = let rest = move k p q rs in if is_at k p r then (k, q) ∷ rs else r ∷ rest

unfoldable pub end : Uuid → Phase → List (Uuid × Phase) → List (Uuid × Phase)
end k p [] = []
end k p (r ∷ rs) = let rest = end k p rs in if is_at k p r then rs else r ∷ rest

-- SyncAccountPortfolio
unfoldable pub request : Uuid → Syncer → Syncer
request k s =
    if s.active k
    then record s { pending = update k true s.pending }
    else record s { active = update k true s.active; runners = s.runners ++ (k, starting) ∷ [] }

-- run, as far as the call of the inner syncer
unfoldable pub begin : Uuid → Syncer → Syncer
begin k s =
    if any (is_at k starting) s.runners
    then record s { runners = move k starting syncing s.runners; begun = k ∷ s.begun }
    else s

-- the inner syncer's return, and the sleep
unfoldable pub cool : Uuid → Syncer → Syncer
cool k s = record s { runners = move k syncing cooled s.runners }

-- run's section under the lock
unfoldable pub look_again : Uuid → Syncer → Syncer
look_again k s =
    if any (is_at k cooled) s.runners
    then (if s.pending k
        then record s {
          pending = update k false s.pending;
          runners = move k cooled starting s.runners;
        }
        else record s { active = update k false s.active; runners = end k cooled s.runners })
    else s

-- a panic of the inner syncer, and the deferred recovery
unfoldable pub panic : Uuid → Syncer → Syncer
panic k s =
    if any (is_at k syncing) s.runners
    then record s {
      active = update k false s.active;
      pending = update k false s.pending;
      runners = end k syncing s.runners;
    }
    else s

pub data SyncEvent : Type 0 where
  requests begins cools looks panics : Uuid → SyncEvent

unfoldable pub sync_step : SyncEvent → Syncer → Syncer
sync_step (requests k) s = request k s
sync_step (begins k) s = begin k s
sync_step (cools k) s = cool k s
sync_step (looks k) s = look_again k s
sync_step (panics k) s = panic k s

unfoldable pub sync_run : List SyncEvent → Syncer → Syncer
sync_run [] s = s
sync_run (e ∷ es) s = sync_run es (sync_step e s)
