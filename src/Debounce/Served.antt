-- ===== src/Debounce/Served.antt =====
-- No request is forgotten.
use envoy_trade.Common.{
  ℕ, ◌+◌, ◌≤◌, ◌<◌, ◌≡◌, refl, sym, subst, ◌∙◌, arith, Bool, true, false, List, [], ◌∷◌, ◌==◌, All,
  if_cases, if◌then◌else◌,
}
use envoy_trade.Domain.Types.{Uuid}
use envoy_trade.Debounce.Syncer.{
  Phase, starting, syncing, cooled, Syncer, new_syncer, request, begin, cool, look_again, panic,
  SyncEvent, requests, begins, cools, looks, panics, sync_step, sync_run,
}
use envoy_trade.Debounce.Phases.{any-phases}
use envoy_trade.Debounce.Refines.{
  Job, idle, busy, job_step, account_of, job_run, Shows, step-Shows, request-Shows, sync_run-Shows,
}

-- how many inner syncs of the account were begun
abbrev pub syncs : Uuid → List Uuid → ℕ
syncs k [] = 0
syncs k (i ∷ is_left) = (if i == k then 1 else 0) + syncs k is_left

-- The inner syncer does not panic on the account.
abbrev pub calm : Uuid → SyncEvent → Bool
calm k (panics i) = if i == k then false else true
calm k _ = true

-- A sync of the account is still to begin.
abbrev owes : Job → Bool
owes idle = false
owes (busy starting again) = true
owes (busy syncing again) = again
owes (busy cooled again) = again

syncs-step :
    (k : Uuid) (e : SyncEvent) (s : Syncer) → syncs k s.begun ≤ syncs k (sync_step e s).begun
unfolding sync_step request begin cool look_again panic
syncs-step k (requests i) s = ground arith
syncs-step k (begins i) s = ground arith
syncs-step k (cools i) s = ground arith
syncs-step k (looks i) s = ground arith
syncs-step k (panics i) s = ground arith

syncs-begin :
    (k : Uuid) (again : Bool) (s : Syncer)
    → Shows k s (busy starting again)
    → syncs k s.begun < syncs k (begin k s).begun
unfolding begin
syncs-begin k again s h = ground (arith, h.phases_same, any-phases k starting s.runners)

syncs-begins :
    (k : Uuid) (again : Bool) (s : Syncer)
    → Shows k s (busy starting again)
    → syncs k s.begun < syncs k (sync_step (begins k) s).begun
unfolding sync_step
syncs-begins k again s h = syncs-begin k again s h

-- Since `n` were begun another was, or one is owed.
record Due (k : Uuid) (n : ℕ) (s : Syncer) (j : Job) : Type 0 where
  least : n ≤ syncs k s.begun
  more : owes j ≡ false → n < syncs k s.begun

requested_owes :
    (i : Uuid) (p : Phase) (again : Bool) → owes (job_step (requests i) (busy p again)) ≡ false → ⊥
requested_owes i starting again o = cc
requested_owes i syncing again o = cc
requested_owes i cooled again o = cc

cools_owes : (i : Uuid) (j : Job) → owes j ≡ owes (job_step (cools i) j)
cools_owes i idle = refl
cools_owes i (busy starting again) = refl
cools_owes i (busy syncing again) = refl
cools_owes i (busy cooled again) = refl

looks_owes : (i : Uuid) (j : Job) → owes (job_step (looks i) j) ≡ false → owes j ≡ false
looks_owes i idle o = refl
looks_owes i (busy starting again) o = o
looks_owes i (busy syncing again) o = o
looks_owes i (busy cooled true) o = cc
looks_owes i (busy cooled false) o = refl

module _ (k : Uuid) (n : ℕ) (s : Syncer) where
  kept :
      (e : SyncEvent) (j : Job) → Due k n s j → owes j ≡ false → n < syncs k (sync_step e s).begun
  kept e j d o = omega (arith, d.more o, syncs-step k e s)

  begun_now :
      (i : Uuid) (again : Bool)
      → i ≡ k
      → Shows k s (busy starting again)
      → Due k n s (busy starting again)
      → n < syncs k (sync_step (begins i) s).begun
  begun_now i again e h d =
      subst (λ a. n < syncs k (sync_step (begins a) s).begun) (sym e)
        (omega (arith, d.least, syncs-begins k again s h))

  own-Due :
      (e : SyncEvent) (j : Job)
      → account_of e ≡ k
      → calm k e ≡ true
      → Shows k s j
      → Due k n s j
      → owes (job_step e j) ≡ false
      → n < syncs k (sync_step e s).begun
  own-Due (requests i) idle e c h d o = cc
  own-Due (requests i) (busy p again) e c h d o = absurd (requested_owes i p again o)
  own-Due (begins i) (busy starting again) e c h d o = begun_now i again e h d
  own-Due (begins i) idle e c h d o = kept (begins i) idle d o
  own-Due (begins i) (busy syncing again) e c h d o = kept (begins i) (busy syncing again) d o
  own-Due (begins i) (busy cooled again) e c h d o = kept (begins i) (busy cooled again) d o
  own-Due (cools i) j e c h d o = kept (cools i) j d (cools_owes i j ∙ o)
  own-Due (looks i) j e c h d o = kept (looks i) j d (looks_owes i j o)
  own-Due (panics i) j e c h d o = ground (arith, e, c)

step-Due :
    (k : Uuid) (n : ℕ) (e : SyncEvent) (s : Syncer) (j : Job)
    → calm k e ≡ true
    → Shows k s j
    → Due k n s j
    → Due k n (sync_step e s) (if account_of e == k then job_step e j else j)
step-Due k n e s j c h d =
    if_cases (Due k n (sync_step e s)) (account_of e == k) (job_step e j) j
      (λ t. record {
        least = omega (arith, d.least, syncs-step k e s);
        more = λ o. own-Due k n s e j (ground (arith, t)) c h d o;
      })
      (λ f. record {
        least = omega (arith, d.least, syncs-step k e s);
        more = λ o. omega (arith, d.more o, syncs-step k e s);
      })

run-Due :
    (k : Uuid) (n : ℕ) (es : List SyncEvent) (s : Syncer) (j : Job)
    → All (λ e. calm k e ≡ true) es
    → Shows k s j
    → Due k n s j
    → Due k n (sync_run es s) (job_run k es j) × Shows k (sync_run es s) (job_run k es j)
unfolding sync_run job_run
run-Due k n [] s j c h d = (d, h)
run-Due k n (e ∷ es) s j c h d =
    run-Due k n es (sync_step e s) _ c.1 (step-Shows k e s j h) (step-Due k n e s j c.0 h d)

request_owes : (i : Uuid) (j : Job) → owes (job_step (requests i) j) ≡ true
request_owes i idle = refl
request_owes i (busy starting again) = refl
request_owes i (busy syncing again) = refl
request_owes i (busy cooled again) = refl

request_kept : (k : Uuid) (s : Syncer) → syncs k s.begun ≤ syncs k (request k s).begun
unfolding request
request_kept k s = ground arith

request-Due :
    (k : Uuid) (s : Syncer) (j : Job)
    → Shows k s j
    → Due k (syncs k s.begun) (request k s) (job_step (requests k) j)
request-Due k s j h = record {
  least = request_kept k s;
  more = λ o. ground (arith, o, request_owes k j);
}

idle_when_inactive :
    (k : Uuid) (s : Syncer) (j : Job) → Shows k s j → s.active k ≡ false → owes j ≡ false
idle_when_inactive k s idle h a = refl
idle_when_inactive k s (busy p again) h a = ground (arith, h.active_same, a)

-- After any history, a request for an account that is followed by any events, none of them a panic of the
-- account's sync, and at whose end no goroutine works for the account, was followed by the beginning of a
-- sync of it.
pub request-served :
    (k : Uuid) (before after : List SyncEvent)
    → All (λ e. calm k e ≡ true) after
    → (sync_run after (request k (sync_run before new_syncer))).active k ≡ false
    → syncs k (sync_run before new_syncer).begun
      < syncs k (sync_run after (request k (sync_run before new_syncer))).begun
request-served k before after c a =
    let s = sync_run before new_syncer in
    let j = job_run k before idle in
    let shown = sync_run-Shows k before in
    let r =
      run-Due k (syncs k s.begun) after (request k s) (job_step (requests k) j) c
        (request-Shows k s j shown) (request-Due k s j shown) in
    r.0.more (idle_when_inactive k _ _ r.1 a)
