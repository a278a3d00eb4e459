-- ===== src/Listener/Audit.antt =====
-- What FollowerStatusConsumer.Handle does to the audit trail, on every branch.
use envoy_trade.Common.{
  ℕ, ◌≡◌, refl, ap, ◌∙◌, Bool, true, false, ◌&&◌, inl, inr, Bool-cases, str_eq, [], ◌∷◌, ◌++◌,
  Error, Result, ok, err, is_not_found, is_duplicate, if_cases, if_true, if_false,
}
use envoy_trade.Domain.Types.{Uuid, OrderUpdate, terminal_complete}
use envoy_trade.Common.State.{State}
use envoy_trade.Listener.Status.{
  StatusEnv, Consumer, status_event, account_of, sync_complete, audit_as, audit, audit_if_ok,
  stash_then_fail, after_direct, insert_direct_if, by_tag, not_by_broker_id, after_status,
  handle_update,
}

module _ {W : Type 0} (E : StatusEnv W) (upd : OrderUpdate) where
  -- How a delivery ends: one event for the order that was updated or inserted, an error, or a direct
  -- order that the store says it has already.
  pub data Ended (c : Consumer W) : Result (Unit {0}) × Consumer W → Type 0 where
    audited_one :
        (r : Result (Unit {0}) × Consumer W) (id : ℕ) (account : Uuid)
        → r.1.audited ≡ c.audited ++ status_event upd id account ∷ []
        → Ended c r
    failed_with :
        (r : Result (Unit {0}) × Consumer W) (e : Error)
        → r.0 ≡ err e
        → r.1.audited ≡ c.audited
        → Ended c r
    known :
        (r : Result (Unit {0}) × Consumer W) (w : W) (e : Error)
        → (E.insert_direct upd w).0 ≡ err e
        → is_duplicate e ≡ true
        → r.0 ≡ ok tt
        → r.1.audited ≡ c.audited
        → Ended c r

  sync_complete_audited :
      (account : Uuid) (c : Consumer W) → (sync_complete E upd account c).1.audited ≡ c.audited
  unfolding sync_complete
  sync_complete_audited account c =
      if_cases (λ (m : State (Consumer W) (Unit {0})). (m c).1.audited ≡ c.audited)
        (str_eq upd.status terminal_complete && E.has_syncer) _ _ (λ _. refl) (λ _. refl)

  audit_as-Ended :
      (id : ℕ) (found : Result Uuid) (c d : Consumer W)
      → d.audited ≡ c.audited
      → Ended c (audit_as E upd id found d)
  unfolding audit_as
  audit_as-Ended id (err e) c d h = failed_with _ e refl h
  audit_as-Ended id (ok follower) c d h =
      let account = account_of E upd follower in
      audited_one _ id account
        (ap (λ evs. evs ++ status_event upd id account ∷ []) (sync_complete_audited account d ∙ h))

  audit-Ended : (id : ℕ) (c d : Consumer W) → d.audited ≡ c.audited → Ended c (audit E upd id d)
  unfolding audit
  audit-Ended id c d h = audit_as-Ended id _ c _ h

  after_direct-Ended :
      (r : Result ℕ) (w : W) (c d : Consumer W)
      → (E.insert_direct upd w).0 ≡ r
      → d.audited ≡ c.audited
      → Ended c (after_direct E upd r d)
  unfolding after_direct stash_then_fail
  after_direct-Ended (ok id) w c d e h = audit-Ended id c d h
  after_direct-Ended (err x) w c d e h = elim (Bool-cases (is_duplicate x)) [
    | inl dup ↦
        if_true (λ (m : State (Consumer W) (Result (Unit {0}))). Ended c (m d)) (is_duplicate x) _ _
          dup (known _ w x e dup refl h)
    | inr new ↦
        if_false (λ (m : State (Consumer W) (Result (Unit {0}))). Ended c (m d)) (is_duplicate x) _
          _ new (failed_with _ x refl h)
  ]

  audit_if_ok-Ended :
      (r : Result ℕ) (c d : Consumer W) → d.audited ≡ c.audited → Ended c (audit_if_ok E upd r d)
  unfolding audit_if_ok
  audit_if_ok-Ended (ok id) c d h = audit-Ended id c d h
  audit_if_ok-Ended (err e) c d h = failed_with _ e refl h

  insert_direct_if-Ended :
      (b : Bool) (r : Result ℕ) (c d : Consumer W)
      → d.audited ≡ c.audited
      → Ended c (insert_direct_if E upd b r d)
  unfolding insert_direct_if
  insert_direct_if-Ended true r c d h = after_direct-Ended _ d.world c _ refl h
  insert_direct_if-Ended false r c d h = audit_if_ok-Ended r c d h

  by_tag_audited : (e : Error) (c : Consumer W) → (by_tag E upd e c).1.audited ≡ c.audited
  unfolding by_tag
  by_tag_audited e c =
      if_cases (λ (m : State (Consumer W) (Result ℕ)). (m c).1.audited ≡ c.audited)
        (str_eq upd.tag "") _ _ (λ _. refl) (λ _. refl)

  after_status-Ended :
      (r : Result ℕ) (c d : Consumer W) → d.audited ≡ c.audited → Ended c (after_status E upd r d)
  unfolding after_status not_by_broker_id
  after_status-Ended (ok id) c d h = audit-Ended id c d h
  after_status-Ended (err e) c d h =
      if_cases (λ (m : State (Consumer W) (Result (Unit {0}))). Ended c (m d)) (is_not_found e) _ _
        (λ _. insert_direct_if-Ended _ _ c _ (by_tag_audited e d ∙ h)) (λ _. failed_with _ e refl h)

  -- A delivery that returns no error has handed exactly one audit event for the update to the store,
  -- or the store has answered to the insertion of the update as a direct order that it is there
  -- already; a delivery that returns an error has handed over at most that one event.
  pub handle_update-Ended : (c : Consumer W) → Ended c (handle_update E upd c)
  unfolding handle_update
  handle_update-Ended c = after_status-Ended _ c _ refl
