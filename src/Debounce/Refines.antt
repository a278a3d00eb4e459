-- ===== src/Debounce/Refines.antt =====
-- One account's view of the syncer is a machine with one goroutine at most.
use envoy_trade.Common.{
  ℕ, ◌≡◌, refl, subst, arith, Bool, true, false, List, [], ◌∷◌, ◌==◌, if_cases, if◌then◌else◌,
}
use envoy_trade.Domain.Types.{Uuid}
use envoy_trade.Debounce.Phases.{
  phases_of, phases-move, phases-end, phases-move_other, phases-end_other, phases-snoc, any-phases,
}
use envoy_trade.Debounce.Syncer.{
  Phase, starting, syncing, cooled, Syncer, new_syncer, request, begin, cool, look_again, panic,
  SyncEvent, requests, begins, cools, looks, panics, sync_step, sync_run,
}

-- The specification: an account is idle, or its one goroutine is at a phase, and has to go again or not.
pub data Job : Type 0 where
  idle : Job
  busy : Phase → Bool → Job

abbrev pub job_step : SyncEvent → Job → Job
job_step (requests k) idle = busy starting false
job_step (requests k) (busy p again) = busy p true
job_step (begins k) (busy starting again) = busy syncing again
job_step (cools k) (busy syncing again) = busy cooled again
job_step (looks k) (busy cooled true) = busy starting false
job_step (looks k) (busy cooled false) = idle
job_step (panics k) (busy syncing again) = idle
job_step _ j = j

abbrev pub account_of : SyncEvent → Uuid
account_of (requests k) = k
account_of (begins k) = k
account_of (cools k) = k
account_of (looks k) = k
account_of (panics k) = k

unfoldable pub job_run : Uuid → List SyncEvent → Job → Job
job_run k [] j = j
job_run k (e ∷ es) j = job_run k es (if account_of e == k then job_step e j else j)

abbrev pub job_active : Job → Bool
job_active idle = false
job_active (busy p again) = true

abbrev pub job_pending : Job → Bool
job_pending idle = false
job_pending (busy p again) = again

abbrev pub job_phases : Job → List Phase
job_phases idle = []
job_phases (busy p again) = p ∷ []

pub record Shows (k : Uuid) (s : Syncer) (j : Job) : Type 0 where
  pub active_same : s.active k ≡ job_active j
  pub pending_same : s.pending k ≡ job_pending j
  pub phases_same : phases_of k s.runners ≡ job_phases j

module _ (k : Uuid) (s : Syncer) where
  pub request-Shows : (j : Job) → Shows k s j → Shows k (request k s) (job_step (requests k) j)
  unfolding request
  request-Shows idle h =
      ground
        (arith, h.active_same, h.pending_same, h.phases_same, phases-snoc k k starting s.runners)
  request-Shows (busy p again) h = ground (arith, h.active_same, h.pending_same, h.phases_same)

  begin-Shows : (j : Job) → Shows k s j → Shows k (begin k s) (job_step (begins k) j)
  unfolding begin
  begin-Shows idle h = ground (arith, h.phases_same, any-phases k starting s.runners)
  begin-Shows (busy starting again) h = ground (
    arith,
    h.phases_same,
    any-phases k starting s.runners,
    phases-move k starting syncing s.runners,
  )
  begin-Shows (busy syncing again) h =
      ground (arith, h.phases_same, any-phases k starting s.runners)
  begin-Shows (busy cooled again) h = ground (arith, h.phases_same, any-phases k starting s.runners)

  cool-Shows : (j : Job) → Shows k s j → Shows k (cool k s) (job_step (cools k) j)
  unfolding cool
  cool-Shows idle h =
      ground (
        arith,
        h.active_same,
        h.pending_same,
        h.phases_same,
        phases-move k syncing cooled s.runners,
      )
  cool-Shows (busy starting again) h =
      ground (
        arith,
        h.active_same,
        h.pending_same,
        h.phases_same,
        phases-move k syncing cooled s.runners,
      )
  cool-Shows (busy syncing again) h =
      ground (
        arith,
        h.active_same,
        h.pending_same,
        h.phases_same,
        phases-move k syncing cooled s.runners,
      )
  cool-Shows (busy cooled again) h =
      ground (
        arith,
        h.active_same,
        h.pending_same,
        h.phases_same,
        phases-move k syncing cooled s.runners,
      )

  look-Shows : (j : Job) → Shows k s j → Shows k (look_again k s) (job_step (looks k) j)
  unfolding look_again
  look-Shows idle h = ground (arith, h.phases_same, any-phases k cooled s.runners)
  look-Shows (busy starting again) h = ground (arith, h.phases_same, any-phases k cooled s.runners)
  look-Shows (busy syncing again) h = ground (arith, h.phases_same, any-phases k cooled s.runners)
  look-Shows (busy cooled true) h = ground (
    arith,
    h.active_same,
    h.pending_same,
    h.phases_same,
    any-phases k cooled s.runners,
    phases-move k cooled starting s.runners,
  )
  look-Shows (busy cooled false) h = ground (
    arith,
    h.active_same,
    h.pending_same,
    h.phases_same,
    any-phases k cooled s.runners,
    phases-end k cooled s.runners,
  )

  panic-Shows : (j : Job) → Shows k s j → Shows k (panic k s) (job_step (panics k) j)
  unfolding panic
  panic-Shows idle h = ground (arith, h.phases_same, any-phases k syncing s.runners)
  panic-Shows (busy starting again) h =
      ground (arith, h.phases_same, any-phases k syncing s.runners)
  panic-Shows (busy syncing again) h = ground (
    arith,
    h.active_same,
    h.pending_same,
    h.phases_same,
    any-phases k syncing s.runners,
    phases-end k syncing s.runners,
  )
  panic-Shows (busy cooled again) h = ground (arith, h.phases_same, any-phases k syncing s.runners)

  -- what is done for another account
  module _ (i : Uuid) (j : Job) (n : (i == k) ≡ false) (h : Shows k s j) where
    request_other : Shows k (request i s) j
    unfolding request
    request_other =
        ground (
          arith,
          n,
          h.active_same,
          h.pending_same,
          h.phases_same,
          phases-snoc k i starting s.runners,
        )

    begin_other : Shows k (begin i s) j
    unfolding begin
    begin_other = ground (
      arith,
      n,
      h.active_same,
      h.pending_same,
      h.phases_same,
      phases-move_other k i starting syncing s.runners n,
    )

    cool_other : Shows k (cool i s) j
    unfolding cool
    cool_other = ground (
      arith,
      h.active_same,
      h.pending_same,
      h.phases_same,
      phases-move_other k i syncing cooled s.runners n,
    )

    look_other : Shows k (look_again i s) j
    unfolding look_again
    look_other = ground (
      arith,
      n,
      h.active_same,
      h.pending_same,
      h.phases_same,
      phases-move_other k i cooled starting s.runners n,
      phases-end_other k i cooled s.runners n,
    )

    panic_other : Shows k (panic i s) j
    unfolding panic
    panic_other = ground (
      arith,
      n,
      h.active_same,
      h.pending_same,
      h.phases_same,
      phases-end_other k i syncing s.runners n,
    )

same_number : (i k : ℕ) → (i == k) ≡ true → k ≡ i
same_number i k h = ground arith

own-Shows :
    (k : Uuid) (e : SyncEvent) (s : Syncer) (j : Job)
    → k ≡ account_of e
    → Shows k s j
    → Shows k (sync_step e s) (job_step e j)
unfolding sync_step
own-Shows k (requests i) s j e h =
    subst (λ a. Shows k (request a s) (job_step (requests a) j)) e (request-Shows k s j h)
own-Shows k (begins i) s j e h =
    subst (λ a. Shows k (begin a s) (job_step (begins a) j)) e (begin-Shows k s j h)
own-Shows k (cools i) s j e h =
    subst (λ a. Shows k (cool a s) (job_step (cools a) j)) e (cool-Shows k s j h)
own-Shows k (looks i) s j e h =
    subst (λ a. Shows k (look_again a s) (job_step (looks a) j)) e (look-Shows k s j h)
own-Shows k (panics i) s j e h =
    subst (λ a. Shows k (panic a s) (job_step (panics a) j)) e (panic-Shows k s j h)

other-Shows :
    (k : Uuid) (e : SyncEvent) (s : Syncer) (j : Job)
    → (account_of e == k) ≡ false
    → Shows k s j
    → Shows k (sync_step e s) j
unfolding sync_step
other-Shows k (requests i) s j n h = request_other k s i j n h
other-Shows k (begins i) s j n h = begin_other k s i j n h
other-Shows k (cools i) s j n h = cool_other k s i j n h
other-Shows k (looks i) s j n h = look_other k s i j n h
other-Shows k (panics i) s j n h = panic_other k s i j n h

pub step-Shows :
    (k : Uuid) (e : SyncEvent) (s : Syncer) (j : Job)
    → Shows k s j
    → Shows k (sync_step e s) (if account_of e == k then job_step e j else j)
step-Shows k e s j h =
    if_cases (Shows k (sync_step e s)) (account_of e == k) (job_step e j) j
      (λ t. own-Shows k e s j (same_number (account_of e) k t) h) (λ n. other-Shows k e s j n h)

run-Shows :
    (k : Uuid) (es : List SyncEvent) (s : Syncer) (j : Job)
    → Shows k s j
    → Shows k (sync_run es s) (job_run k es j)
unfolding sync_run job_run
run-Shows k [] s j h = h
run-Shows k (e ∷ es) s j h = run-Shows k es (sync_step e s) _ (step-Shows k e s j h)

-- Over any interleaving of requests, goroutines and panics, for any accounts, the syncer shows each
-- account as its own machine `job_run`, which sees the account's events only: idle, with no goroutine
-- and both maps false, or busy, with one goroutine, at the machine's phase, and `pending` as the machine
-- says whether to go again.
pub sync_run-Shows :
    (k : Uuid) (es : List SyncEvent) → Shows k (sync_run es new_syncer) (job_run k es idle)
unfolding phases_of
sync_run-Shows k es =
    run-Shows k es new_syncer idle
      (record { active_same = refl; pending_same = refl; phases_same = refl })
