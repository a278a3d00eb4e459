-- ===== src/System/Once.antt =====
-- Exactly-once hand-over, end to end: the store's tables give what the engine's proof asks for.
use envoy_trade.Common.{
  ℕ, ◌≡◌, refl, sym, subst, arith, true, inl, inr, String, Option, none, some, List, [], map, ℤ,
  Distinct, Result, ok, err, Option-cases,
}
use envoy_trade.Domain.Idempotency.{idempotency_tag}
use envoy_trade.Domain.Types.{MasterFill, FollowLink, FollowerOrder}
use envoy_trade.Store.Tables.{Db, has_tag}
use envoy_trade.Store.Inserts.{batch_rows, insert_follower_orders_batch}
use envoy_trade.Store.Updates.{
  set_master_fill_dispatch_state, update_follower_order_failed, with_failure, has_id,
}
use envoy_trade.Store.Rows.{has_tag-update_where}
use envoy_trade.Store.Tagged.{Extends, Extending, batch_rows-Extending}
use envoy_trade.Engine.Parts.{Engine}
use envoy_trade.Engine.Trace.{
  jobs, Reach, here, by_now, by_active, by_links, by_lot_size, by_batch, by_state, by_failed,
  by_dispatch, by_resolver,
}
use envoy_trade.Engine.Redelivery.{EngineEvent, KeepsTags, Inv, job_tags, run, run-Inv}
use envoy_trade.System.{Outside, wire, lift_resolver}

-- A batch's answer, with what it did to the tags: an error leaves the tables alone.
abbrev Answered : Db → Result (List (String × ℕ)) × Db → Type 0
Answered db (ok ids, db') = Extends ids db db'
Answered db (err e, db') = db ≡ db'

batch-Answered :
    (os : List FollowerOrder) (db : Db) → Answered db (insert_follower_orders_batch os db)
unfolding insert_follower_orders_batch
batch-Answered os db = elim (Option-cases (batch_rows os db)) [
  | inl e ↦ rw (e, insert_follower_orders_batch) refl
  | inr ((new, db'), e) ↦
      rw (e, insert_follower_orders_batch) (subst (Extending db) e (batch_rows-Extending os db))
]

ok_injective : {A : Type 0} {a b : A} → ok a ≡ ok b → a ≡ b
ok_injective h = cc

Answered-ids :
    (db : Db) (r : Result (List (String × ℕ)) × Db) (ids : List (String × ℕ))
    → Answered db r
    → r.0 ≡ ok ids
    → Extends ids db r.1
Answered-ids db (ok new, db') ids a h = subst (λ is. Extends is db db') (ok_injective h) a
Answered-ids db (err e, db') ids a h = cc

Answered-keeps :
    (db : Db) (r : Result (List (String × ℕ)) × Db) (t : String)
    → Answered db r
    → has_tag t db.follower_orders ≡ true
    → has_tag t r.1.follower_orders ≡ true
Answered-keeps db (ok new, db') t a h = a.keeps t h
Answered-keeps db (err e, db') t a h = subst (λ (d : Db). has_tag t d.follower_orders ≡ true) a h

module _ {X : Type 0} (O : Outside X) where
  -- What a resolver that is outside leaves alone.
  abbrev pub Spares : Option (String → String → Db × X → Result ℤ × (Db × X)) → Type 0
  Spares none = Unit
  Spares (some f) = (x s : String) (w : Db × X) → (f x s w).1.0 ≡ w.0

  pub lift_resolver-Spares :
      (r : Option (String → String → X → Result ℤ × X)) → Spares (lift_resolver r)
  lift_resolver-Spares none = tt
  lift_resolver-Spares (some f) = λ x s w. refl

  -- No call of the engine takes a tag out of the table.
  Reach-keeps :
      (t : String) (w v : Db × X)
      → Reach (wire O) w v
      → has_tag t w.0.follower_orders ≡ true
      → has_tag t v.0.follower_orders ≡ true
  unfolding wire set_master_fill_dispatch_state update_follower_order_failed with_failure
  Reach-keeps t w v here h = h
  Reach-keeps t w v (by_now u r) h = Reach-keeps t w u r h
  Reach-keeps t w v (by_active u m r) h = Reach-keeps t w u r h
  Reach-keeps t w v (by_links u m r) h = Reach-keeps t w u r h
  Reach-keeps t w v (by_lot_size u x s r) h = Reach-keeps t w u r h
  Reach-keeps t w v (by_batch u os r) h =
      Answered-keeps u.0 (insert_follower_orders_batch os u.0) t (batch-Answered os u.0)
        (Reach-keeps t w u r h)
  Reach-keeps t w v (by_state u id st r) h = Reach-keeps t w u r h
  Reach-keeps t w v (by_failed u id status message r) h =
      rw
        (has_tag-update_where (has_id id) (with_failure status message u.0.clock) (λ q. refl) t
          u.0.follower_orders)
        (Reach-keeps t w u r h)
  Reach-keeps t w v (by_dispatch u id job r) h = Reach-keeps t w u r h
  Reach-keeps t w v (by_resolver u f x s e r) h =
      let spares = subst Spares e (lift_resolver-Spares O.lot_size_resolver) in
      subst (λ (d : Db). has_tag t d.follower_orders ≡ true) (sym (spares x s u))
        (Reach-keeps t w u r h)

  -- The primary key of follow_links and a digest that keeps a fill's followers apart.
  abbrev pub TagsApart : Type 0
  TagsApart =
      (fill : MasterFill) (x : X) (links : List FollowLink)
      → (O.enabled_follow_links fill.master_id x).0 ≡ ok links
      → Distinct (map (λ (l : FollowLink). idempotency_tag O.digest fill.id l.follower_id) links)

  -- The tables keep tags in the sense that the engine relies on.
  pub store_keeps_tags : TagsApart → KeepsTags (wire O)
  unfolding wire
  store_keeps_tags apart = record {
    Present = λ t w. has_tag t w.0.follower_orders ≡ true;
    batch_new = λ os w ids t id h k.
        let x =
          Answered-ids w.0 (insert_follower_orders_batch os w.0) ids (batch-Answered os w.0) h in
        (λ present. ground (arith, x.fresh t id k), (x.fresh t id k).1);
    kept = Reach-keeps;
    links_distinct = λ fill w links h. apart fill w.1 links h;
  }

  -- Engine and store together hand each tag over at most once: from an engine that has handed
  -- nothing over, whatever is in the tables, over any sequence of fills, redeliveries, kill switch and
  -- cache operations, with any answers of the workers and the other tables, the tags of all jobs
  -- handed over are distinct, if the tags of one fill's followers are.
  pub wired_once :
      (e : Engine (Db × X)) (vs : List EngineEvent)
      → TagsApart
      → jobs e.calls ≡ []
      → Distinct (job_tags (jobs (run (wire O) e vs).calls))
  wired_once e vs apart start =
      let K = store_keeps_tags apart in
      let first : Inv (wire O) K e = record { stored = rw start tt; once = rw start tt } in
      (run-Inv (wire O) K e vs first).once
