-- ===== src/System/Fills.antt =====
-- MasterFillConsumer over the wired engine and store: a fill that is delivered twice is fanned out
-- once.
use envoy_trade.Common.{
  ℕ, suc, ◌≡◌, refl, sym, subst, Bool, false, inl, inr, Bool-cases, List, [], ◌∷◌, ◌++◌, Result, ok,
  err, if_cases,
}
use envoy_trade.Common.State.{State}
use envoy_trade.Domain.Types.{Uuid, MasterFill}
use envoy_trade.Store.Tables.{Db, wrap32}
use envoy_trade.Store.Inserts.{same_fill, master_fill_exists, fill_row, insert_master_fill}
use envoy_trade.Engine.Parts.{Engine}
use envoy_trade.Engine.Handle.{handle_master_fill}
use envoy_trade.Listener.Master.{MasterEnv, sync_master, fan_out_as, after_insert, handle_fill}
use envoy_trade.System.{Outside, wire}
use envoy_trade.System.Known.{
  Known, any_front, any-snoc, own_key, Reach-Known, handle_master_fill-Reach,
}

module _ {X : Type 0} (O : Outside X) where
  -- The consumer's wiring: the store's insert, the engine, and the syncs that were started.
  abbrev pub System : Type 0
  System = Engine (Db × X) × List Uuid

  abbrev pub insert_in : MasterFill → System → Result ℕ × System
  insert_in f s =
      let r = insert_master_fill f s.0.world.0 in
      (r.0, (record s.0 { world = (r.1, s.0.world.1) }, s.1))

  abbrev pub handle_in : MasterFill → System → Result (Unit {0}) × System
  handle_in f s = let r = handle_master_fill (wire O) f s.0 in (r.0, (r.1, s.1))

  unfoldable pub consumer : Bool → MasterEnv System
  consumer has_syncer = record {
    insert_master_fill = insert_in;
    handle_master_fill = handle_in;
    has_syncer = has_syncer;
    note_sync = λ id s. (tt, (s.0, s.1 ++ id ∷ []));
  }

  module _ (has_syncer : Bool) (f : MasterFill) where
    abbrev deliver : System → Result (Unit {0}) × System
    deliver = handle_fill (consumer has_syncer) f

    Known-ignored : (s : System) → Known f s.0.world.0 → deliver s ≡ (ok tt, s)
    unfolding handle_fill after_insert consumer insert_master_fill
    Known-ignored s h = rw h refl

    sync_master_engine :
        (r : Result (Unit {0})) (s : System) → (sync_master (consumer has_syncer) f r s).1.0 ≡ s.0
    unfolding sync_master consumer
    sync_master_engine (err e) s = refl
    sync_master_engine (ok u) s =
        if_cases (λ (m : State System (Result (Unit {0}))). (m s).1.0 ≡ s.0) has_syncer _ _
          (λ _. refl) (λ _. refl)

    fan_out_as-Known :
        (g : MasterFill) (id : ℕ) (s : System)
        → Known g s.0.world.0
        → Known g (fan_out_as (consumer has_syncer) f id s).1.0.world.0
    unfolding fan_out_as consumer
    fan_out_as-Known g id s h =
        let r = handle_in (record f { id = id }) s in
        subst (λ (e : Engine (Db × X)). Known g e.world.0) (sym (sync_master_engine r.0 r.1))
          (Reach-Known O g s.0.world r.1.0.world
            (handle_master_fill-Reach O (record f { id = id }) s.0) h)

    inserted_db : Db → Db
    inserted_db db = record db {
      master_fills = db.master_fills ++ fill_row db f ∷ [];
      next_fill = suc db.next_fill;
    }

    inserted-Known : (db : Db) → Known f (inserted_db db)
    unfolding inserted_db master_fill_exists same_fill
    inserted-Known db =
        any-snoc (same_fill f.master_id f.broker_order_id (wrap32 f.filled_quantity) f.status)
          db.master_fills (fill_row db f) (own_key f db)

    inserted_keeps : (g : MasterFill) (db : Db) → Known g db → Known g (inserted_db db)
    unfolding inserted_db master_fill_exists same_fill
    inserted_keeps g db h =
        any_front (same_fill g.master_id g.broker_order_id (wrap32 g.filled_quantity) g.status)
          db.master_fills (fill_row db f) h

    with_db : System → Db → System
    with_db s db = (record s.0 { world = (db, s.0.world.1) }, s.1)

    new_delivered :
        (s : System)
        → master_fill_exists f.master_id f.broker_order_id f.filled_quantity f.status s.0.world.0
          ≡ false
        → deliver s
          ≡ fan_out_as
              (consumer has_syncer)
              f
              s.0.world.0.next_fill
              (with_db s (inserted_db s.0.world.0))
    unfolding handle_fill after_insert consumer insert_master_fill with_db inserted_db
    new_delivered s h = rw h refl

    pub after_delivery : (s : System) → Known f (deliver s).1.0.world.0
    unfolding with_db
    after_delivery s =
        elim (Bool-cases (
          master_fill_exists f.master_id f.broker_order_id f.filled_quantity f.status
            s.0.world.0)) [
              | inl h ↦ subst (λ r. Known f r.1.0.world.0) (sym (Known-ignored s h)) h
              | inr h ↦
                  subst (λ r. Known f r.1.0.world.0) (sym (new_delivered s h))
                    (fan_out_as-Known f s.0.world.0.next_fill (with_db s (inserted_db s.0.world.0))
                      (inserted-Known s.0.world.0))
            ]

    -- A fill that the table has stays there whatever is delivered.
    pub delivery_keeps :
        (g : MasterFill) (s : System) → Known g s.0.world.0 → Known g (deliver s).1.0.world.0
    unfolding with_db
    delivery_keeps g s k =
        elim (Bool-cases (
          master_fill_exists f.master_id f.broker_order_id f.filled_quantity f.status
            s.0.world.0)) [
              | inl h ↦ subst (λ r. Known g r.1.0.world.0) (sym (Known-ignored s h)) k
              | inr h ↦
                  subst (λ r. Known g r.1.0.world.0) (sym (new_delivered s h))
                    (fan_out_as-Known g s.0.world.0.next_fill (with_db s (inserted_db s.0.world.0))
                      (inserted_keeps g s.0.world.0 k))
            ]

    -- Delivering a fill a second time, right after the first, changes nothing and returns no error:
    -- neither the store nor the engine nor the syncs see it.
    pub redelivery_ignored : (s : System) → deliver (deliver s).1 ≡ (ok tt, (deliver s).1)
    redelivery_ignored s = Known-ignored (deliver s).1 (after_delivery s)
