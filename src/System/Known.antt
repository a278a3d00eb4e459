-- ===== src/System/Known.antt =====
-- No call of the engine takes a master fill out of the table.
use envoy_trade.Common.{
  ℕ, ◌≡◌, refl, sym, subst, ◌∙◌, arith, Bool, true, inl, inr, String, eq_iff, Option, none, some,
  List, [], ◌∷◌, ◌++◌, any, ℤ, eqb_ℤ_refl, if_cases, Option-cases, if◌then◌else◌,
}
use envoy_trade.Domain.Types.{Uuid, Instant, DispatchState, MasterFill, FollowerOrder}
use envoy_trade.Store.Tables.{Db, wrap32, has_tag, has_pair}
use envoy_trade.Store.Inserts.{
  same_fill, master_fill_exists, fill_row, batch_row, batch_rows, insert_follower_orders_batch,
  add_row, new_row,
}
use envoy_trade.Store.Updates.{
  set_fill_state, set_master_fill_dispatch_state, update_follower_order_failed,
}
use envoy_trade.Engine.Parts.{Engine}
use envoy_trade.Engine.Handle.{handle_master_fill}
use envoy_trade.Engine.Trace.{
  Reach, here, by_now, by_active, by_links, by_lot_size, by_batch, by_state, by_failed, by_dispatch,
  by_resolver, Reach-trans,
}
use envoy_trade.Engine.FanOut.{handle_master_fill-outcome}
use envoy_trade.System.{Outside, wire}
use envoy_trade.System.Once.{Spares, lift_resolver-Spares}

-- The fill's key is in the table.
abbrev pub Known : MasterFill → Db → Type 0
Known f db = master_fill_exists f.master_id f.broker_order_id f.filled_quantity f.status db ≡ true

same_key : MasterFill → MasterFill → Bool
unfolding same_fill
same_key f = same_fill f.master_id f.broker_order_id (wrap32 f.filled_quantity) f.status

set_fill_state_keeps :
    (m : Uuid) (b : String) (q : ℤ) (s : String) (id : ℕ) (st : DispatchState) (now : Instant)
    (fs : List MasterFill)
    → any (same_fill m b q s) (set_fill_state id st now fs) ≡ any (same_fill m b q s) fs
unfolding set_fill_state same_fill
set_fill_state_keeps m b q s id st now [] = refl
set_fill_state_keeps m b q s id st now (f ∷ fs) =
    ground (arith, set_fill_state_keeps m b q s id st now fs)

pub any-snoc :
    {A : Type 0} (p : A → Bool) (xs : List A) (x : A) → p x ≡ true → any p (xs ++ x ∷ []) ≡ true
any-snoc p [] x h = ground arith
any-snoc p (y ∷ ys) x h = ground (arith, any-snoc p ys x h)

pub any_front :
    {A : Type 0} (p : A → Bool) (xs : List A) (x : A)
    → any p xs ≡ true
    → any p (xs ++ x ∷ []) ≡ true
any_front p [] x h = ground arith
any_front p (y ∷ ys) x h = ground (arith, any_front p ys x)

pub own_key :
    (f : MasterFill) (db : Db)
    → same_fill f.master_id f.broker_order_id (wrap32 f.filled_quantity) f.status (fill_row db f)
      ≡ true
unfolding same_fill
own_key f db = ground (
  arith,
  eq_iff f.broker_order_id f.broker_order_id,
  eq_iff f.status f.status,
  eqb_ℤ_refl (wrap32 f.filled_quantity),
)

abbrev FillsOf : Db → Option (List (String × ℕ) × Db) → Type 0
FillsOf db none = Unit
FillsOf db (some r) = r.1.master_fills ≡ db.master_fills

batch_row_fills : (o : FollowerOrder) (db : Db) → FillsOf db (batch_row o db)
unfolding batch_row add_row new_row
batch_row_fills o db =
    let full = new_row (some o.master_fill_id) o db in
    let added : Option (List (String × ℕ) × Db) =
      some ((o.idempotency_tag, db.next_order) ∷ [], add_row full db) in
    let pair = has_pair (some o.master_fill_id) o.follower_id db.follower_orders in
    if_cases (FillsOf db) (has_tag o.idempotency_tag db.follower_orders) (some ([], db))
      (if pair then none else added) (λ _. refl)
      λ _. if_cases (FillsOf db) pair none added (λ _. tt) (λ _. refl)

batch_rows_fills : (os : List FollowerOrder) (db : Db) → FillsOf db (batch_rows os db)
unfolding batch_rows
batch_rows_fills [] db = refl
batch_rows_fills (o ∷ os) db = elim (Option-cases (batch_row o db)) [
  | inl e ↦ rw (e, batch_rows) tt
  | inr ((new, mid), e) ↦
      rw (e, batch_rows)
        (let first = subst (FillsOf db) e (batch_row_fills o db) in
          let rest = batch_rows_fills os mid in
          elim (Option-cases (batch_rows os mid)) [
            | inl h ↦ rw h tt
            | inr ((more, last), h) ↦ rw h (subst (FillsOf mid) h rest ∙ first)
          ])
]

batch_fills :
    (os : List FollowerOrder) (db : Db)
    → (insert_follower_orders_batch os db).1.master_fills ≡ db.master_fills
unfolding insert_follower_orders_batch
batch_fills os db = elim (Option-cases (batch_rows os db)) [
  | inl e ↦ rw (e, insert_follower_orders_batch) refl
  | inr ((ids, db'), e) ↦
      rw (e, insert_follower_orders_batch) (subst (FillsOf db) e (batch_rows_fills os db))
]

Known-same :
    (f : MasterFill) (d d' : Db) → d'.master_fills ≡ d.master_fills → Known f d → Known f d'
unfolding master_fill_exists
Known-same f d d' h k = rw h k

module _ {X : Type 0} (O : Outside X) where
  pub Reach-Known : (f : MasterFill) (w v : Db × X) → Reach (wire O) w v → Known f w.0 → Known f v.0
  unfolding wire set_master_fill_dispatch_state update_follower_order_failed master_fill_exists
  Reach-Known f w v here h = h
  Reach-Known f w v (by_now u r) h = Reach-Known f w u r h
  Reach-Known f w v (by_active u m r) h = Reach-Known f w u r h
  Reach-Known f w v (by_links u m r) h = Reach-Known f w u r h
  Reach-Known f w v (by_lot_size u x s r) h = Reach-Known f w u r h
  Reach-Known f w v (by_batch u os r) h =
      Known-same f u.0 (insert_follower_orders_batch os u.0).1 (batch_fills os u.0)
        (Reach-Known f w u r h)
  Reach-Known f w v (by_state u id st r) h =
      set_fill_state_keeps f.master_id f.broker_order_id (wrap32 f.filled_quantity) f.status id st
        u.0.clock u.0.master_fills
      ∙ Reach-Known f w u r h
  Reach-Known f w v (by_failed u id status message r) h = Reach-Known f w u r h
  Reach-Known f w v (by_dispatch u id job r) h = Reach-Known f w u r h
  Reach-Known f w v (by_resolver u g x s e r) h =
      let spares = subst (Spares O) e (lift_resolver-Spares O O.lot_size_resolver) in
      subst (Known f) (sym (spares x s u)) (Reach-Known f w u r h)

  pub handle_master_fill-Reach :
      (fill : MasterFill) (e : Engine (Db × X))
      → Reach (wire O) e.world (handle_master_fill (wire O) fill e).1.world
  handle_master_fill-Reach fill e = elim (handle_master_fill-outcome (wire O) fill e) [
    | inl q ↦ q.reach
    | inr (o, f) ↦
        Reach-trans f.linked.batch.reach (Reach-trans (by_batch _ _ here) f.linked.batch.after)
  ]
