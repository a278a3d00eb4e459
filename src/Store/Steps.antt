-- ===== src/Store/Steps.antt =====
-- The operations of store.go on the order tables as one step relation, and the invariant over runs.
use envoy_trade.Common.{
  ℕ, ◌≡◌, refl, subst, arith, false, inl, inr, String, Option, none, some, List, [], ◌∷◌, ℤ,
  if_cases, Option-cases, Result, ok, err, other, eqb_ℤ,
}
use envoy_trade.Domain.Decimal.{Decimal, Numerics}
use envoy_trade.Domain.Types.{
  Uuid, Instant, DispatchState, MasterFill, FollowerOrder, OrderUpdate, OrderEvent,
}
use envoy_trade.Store.Tables.{Db, wrap32, has_tag}
use envoy_trade.Store.Inserts.{
  insert_master_fill, master_fill_exists, new_row, add_row, insert_follower_order, batch_row,
  batch_rows, insert_follower_orders_batch, insert_direct_follower_order,
}
use envoy_trade.Store.Updates.{
  set_master_fill_dispatch_state, update_follower_order_failed, update_follower_order_status,
  stashed_row, out_of_range, without_pending, update_follower_order_by_tag,
  stash_pending_order_update, append_order_event, update_follower_order_placed,
  sweep_pending_order_updates,
}
use envoy_trade.Store.Validity.{
  IsValid, SameKeys-IsValid, add_row-IsValid, insert_follower_order-IsValid, insert_direct-IsValid,
  update_failed-SameKeys, update_status-SameKeys, update_by_tag-SameKeys, update_placed-SameKeys,
}

-- A call of the store that writes one of the order tables, or time that passes.
pub data StoreOp : Type 0 where
  master_fill : MasterFill → StoreOp
  fill_state : ℕ → DispatchState → StoreOp
  follower_order : FollowerOrder → StoreOp
  batch : List FollowerOrder → StoreOp
  direct : OrderUpdate → StoreOp
  placed : ℕ → String → ℤ → StoreOp
  failed : ℕ → String → String → StoreOp
  status : String → String → ℤ → Decimal → StoreOp
  by_tag : Uuid → String → String → String → ℤ → Decimal → StoreOp
  stash : String → String → ℤ → Decimal → List ℕ → StoreOp
  sweep : Instant → StoreOp
  event : OrderEvent → StoreOp
  tick : Instant → StoreOp

unfoldable pub apply : Numerics → StoreOp → Db → Db
apply N (master_fill f) db = (insert_master_fill f db).1
apply N (fill_state id st) db = set_master_fill_dispatch_state id st db
apply N (follower_order o) db = (insert_follower_order o db).1
apply N (batch os) db = (insert_follower_orders_batch os db).1
apply N (direct upd) db = (insert_direct_follower_order N upd db).1
apply N (placed id b q) db = (update_follower_order_placed id b q db).1
apply N (failed id s m) db = update_follower_order_failed id s m db
apply N (status b s q p) db = (update_follower_order_status b s q p db).1
apply N (by_tag f t b s q p) db = (update_follower_order_by_tag N f t b s q p db).1
apply N (stash b s q p bytes) db = (stash_pending_order_update b s q p bytes db).1
apply N (sweep cutoff) db = (sweep_pending_order_updates cutoff db).1
apply N (event ev) db = append_order_event ev db
apply N (tick now) db = record db { clock = now }

unfoldable pub apply_all : Numerics → List StoreOp → Db → Db
apply_all N [] db = db
apply_all N (op ∷ ops) db = apply_all N ops (apply N op db)

-- A batch row that is stored keeps the invariant.
batch_row-IsValid :
    (o : FollowerOrder) (db : Db) {ids : List (String × ℕ)} {db' : Db}
    → batch_row o db ≡ some (ids, db')
    → IsValid db
    → IsValid db'
unfolding batch_row new_row
batch_row-IsValid o db {ids} {db'} h v =
    let added : has_tag o.idempotency_tag db.follower_orders ≡ false
        → IsValid (add_row (new_row (some o.master_fill_id) o db) db) =
      λ free. add_row-IsValid (new_row (some o.master_fill_id) o db) db free refl v in
    ground (arith, added, v)

abbrev Holds : Option (List (String × ℕ) × Db) → Type 0
Holds none = Unit
Holds (some r) = IsValid r.1

-- A batch that succeeds keeps the invariant.
batch_rows-Holds : (os : List FollowerOrder) (db : Db) → IsValid db → Holds (batch_rows os db)
unfolding batch_rows
batch_rows-Holds [] db v = v
batch_rows-Holds (o ∷ os) db v = elim (Option-cases (batch_row o db)) [
  | inl e ↦ rw (e, batch_rows) tt
  | inr ((new, mid), e) ↦
      rw (e, batch_rows)
        (let rest = batch_rows-Holds os mid (batch_row-IsValid o db e v) in
          elim (Option-cases (batch_rows os mid)) [
            | inl h ↦ rw h tt
            | inr ((more, last), h) ↦ rw h (subst Holds h rest)
          ])
]

batch-IsValid :
    (os : List FollowerOrder) (db : Db)
    → IsValid db
    → IsValid (insert_follower_orders_batch os db).1
unfolding insert_follower_orders_batch
batch-IsValid os db v = elim (Option-cases (batch_rows os db)) [
  | inl e ↦ rw (e, insert_follower_orders_batch) v
  | inr ((ids, db'), e) ↦
      rw (e, insert_follower_orders_batch) (subst Holds e (batch_rows-Holds os db v))
]

-- Every operation keeps the tags and the ids of follower_orders unique, and the ids below the
-- counter, on each of its branches.
pub apply-IsValid : (N : Numerics) (op : StoreOp) (db : Db) → IsValid db → IsValid (apply N op db)
unfolding apply insert_master_fill set_master_fill_dispatch_state stash_pending_order_update
    sweep_pending_order_updates append_order_event
apply-IsValid N (master_fill f) db v =
    if_cases (λ (r : Result ℕ × Db). IsValid r.1)
      (master_fill_exists f.master_id f.broker_order_id f.filled_quantity f.status db) _ _ (λ _. v)
      (λ _. SameKeys-IsValid (record { same_tags = refl; same_ids = refl; same_next = refl }) v)
apply-IsValid N (fill_state id st) db v = record {
  unique_tags = v.unique_tags;
  unique_ids = v.unique_ids;
  below_next = v.below_next;
}
apply-IsValid N (follower_order o) db v = insert_follower_order-IsValid o db v
apply-IsValid N (batch os) db v = batch-IsValid os db v
apply-IsValid N (direct upd) db v = insert_direct-IsValid N upd db v
apply-IsValid N (placed id b q) db v = SameKeys-IsValid (update_placed-SameKeys id b q db) v
apply-IsValid N (failed id s m) db v = SameKeys-IsValid (update_failed-SameKeys id s m db) v
apply-IsValid N (status b s q p) db v = SameKeys-IsValid (update_status-SameKeys b s q p db) v
apply-IsValid N (by_tag f t b s q p) db v =
    SameKeys-IsValid (update_by_tag-SameKeys N f t b s q p db) v
apply-IsValid N (stash b s q p bytes) db v =
    if_cases (λ (r : Result (Unit {0}) × Db). IsValid r.1) (eqb_ℤ (wrap32 q) q)
      (
        ok tt,
        record db {
          pending_updates =
              stashed_row b s q p bytes db.clock ∷ without_pending b db.pending_updates;
        },
      )
      (err (other out_of_range), db)
      (λ _. SameKeys-IsValid (record { same_tags = refl; same_ids = refl; same_next = refl }) v)
      (λ _. v)
apply-IsValid N (sweep cutoff) db v = record {
  unique_tags = v.unique_tags;
  unique_ids = v.unique_ids;
  below_next = v.below_next;
}
apply-IsValid N (event ev) db v = record {
  unique_tags = v.unique_tags;
  unique_ids = v.unique_ids;
  below_next = v.below_next;
}
apply-IsValid N (tick now) db v = record {
  unique_tags = v.unique_tags;
  unique_ids = v.unique_ids;
  below_next = v.below_next;
}

-- Over any sequence of store operations, the unique columns of follower_orders stay unique.
pub apply_all-IsValid :
    (N : Numerics) (ops : List StoreOp) (db : Db) → IsValid db → IsValid (apply_all N ops db)
unfolding apply_all
apply_all-IsValid N [] db v = v
apply_all-IsValid N (op ∷ ops) db v =
    apply_all-IsValid N ops (apply N op db) (apply-IsValid N op db v)
