-- ===== src/Store/Validity.antt =====
-- Every operation keeps the tags and the ids of follower_orders unique.
use envoy_trade.Common.{
  ℕ, suc, ◌<◌, ◌≡◌, ◌≢◌, refl, ◌∙◌, false, ◌&&◌, not, other, inl, inr, String, str_eq, Option, none,
  some, List, [], ◌∷◌, ℤ, All, All-append, All-map, Distinct, Result, ok, err, if_cases,
  Option-cases, arith,
}
use mathlib.Core.List.{map-append}
use envoy_trade.Domain.Decimal.{Decimal, Numerics}
use envoy_trade.Domain.Types.{Uuid, FollowerOrder, OrderUpdate}
use envoy_trade.Store.Tables.{OrderRow, Db, has_tag, update_where, find_row}
use envoy_trade.Store.Inserts.{
  new_row, add_row, fill_reference, insert_follower_order, direct_row, refresh, conflicting,
  insert_direct_follower_order,
}
use envoy_trade.Store.Updates.{
  update_follower_order_failed, update_follower_order_status, update_follower_order_by_tag,
  append_order_event, update_follower_order_placed, consume_pending, consumed_event, with_status,
  with_postback, with_failure, broker_id_taken, index_violation, with_placement, placement_refused,
  has_id, has_broker_id, has_follower_tag, find_pending, without_pending,
}
use envoy_trade.Store.Rows.{
  tags, ids, not_tagged, Distinct-snoc, tags-update_where, ids-update_where,
}

pub record IsValid (db : Db) : Type 0 where
  pub unique_tags : Distinct (tags db.follower_orders)
  pub unique_ids : Distinct (ids db.follower_orders)
  pub below_next : All (λ i. i < db.next_order) (ids db.follower_orders)

-- The tables with the same order rows up to columns that no constraint reads.
pub record SameKeys (db db' : Db) : Type 0 where
  pub same_tags : tags db'.follower_orders ≡ tags db.follower_orders
  pub same_ids : ids db'.follower_orders ≡ ids db.follower_orders
  pub same_next : db'.next_order ≡ db.next_order

pub SameKeys-IsValid : {db db' : Db} → SameKeys db db' → IsValid db → IsValid db'
SameKeys-IsValid k v = record {
  unique_tags = rw k.same_tags v.unique_tags;
  unique_ids = rw k.same_ids v.unique_ids;
  below_next = rw (k.same_ids, k.same_next) v.below_next;
}

below_not_equal : (n : ℕ) (is : List ℕ) → All (λ i. i < n) is → All (λ i. i ≢ n) is
below_not_equal n is h = All-map (λ i. i < n) (λ i. i ≢ n) (λ i l e. omega arith) is h

below_suc : (n : ℕ) (is : List ℕ) → All (λ i. i < n) is → All (λ i. i < suc n) is
below_suc n is h = All-map (λ i. i < n) (λ i. i < suc n) (λ i l. omega arith) is h

-- A row under a new tag and the next id.
pub add_row-IsValid :
    (r : OrderRow) (db : Db)
    → has_tag r.idempotency_tag db.follower_orders ≡ false
    → r.id ≡ db.next_order
    → IsValid db
    → IsValid (add_row r db)
unfolding add_row
add_row-IsValid r db new next v = record {
  unique_tags = rw (map-append (λ (q : OrderRow). q.idempotency_tag) db.follower_orders (r ∷ [])) (
      Distinct-snoc (tags db.follower_orders) r.idempotency_tag v.unique_tags
        (not_tagged r.idempotency_tag db.follower_orders new));
  unique_ids =
      rw (map-append (λ (q : OrderRow). q.id) db.follower_orders (r ∷ []), next)
        (Distinct-snoc (ids db.follower_orders) db.next_order v.unique_ids
          (below_not_equal db.next_order (ids db.follower_orders) v.below_next));
  below_next =
      rw (map-append (λ (q : OrderRow). q.id) db.follower_orders (r ∷ []), next)
        (All-append (λ i. i < suc db.next_order) (ids db.follower_orders) (db.next_order ∷ [])
          (below_suc db.next_order (ids db.follower_orders) v.below_next) (omega arith, tt));
}

pub insert_follower_order-IsValid :
    (o : FollowerOrder) (db : Db) → IsValid db → IsValid (insert_follower_order o db).1
unfolding insert_follower_order new_row
insert_follower_order-IsValid o db v =
    if_cases (λ (r : Result ℕ × Db). IsValid r.1) _ _ _ (λ _. v)
      λ free.
        add_row-IsValid (new_row (fill_reference o.master_fill_id) o db) db (ground arith) refl v

pub insert_direct-IsValid :
    (N : Numerics) (upd : OrderUpdate) (db : Db)
    → IsValid db
    → IsValid (insert_direct_follower_order N upd db).1
unfolding insert_direct_follower_order refresh direct_row
insert_direct-IsValid N upd db v = elim (Option-cases (conflicting upd db.follower_orders)) [
  | inl e ↦
      rw (e, insert_direct_follower_order)
        (if_cases (λ (r : Result ℕ × Db). IsValid r.1) _ _ _ (λ _. v)
          (λ new. add_row-IsValid (direct_row N upd db) db new refl v))
  | inr (row, e) ↦
      rw (e, insert_direct_follower_order)
        (SameKeys-IsValid
          (record {
            same_tags = tags-update_where _ (refresh N upd db) (λ r. refl) db.follower_orders;
            same_ids = ids-update_where _ (refresh N upd db) (λ r. refl) db.follower_orders;
            same_next = refl;
          })
          v)
]

pub update_failed-SameKeys :
    (id : ℕ) (status message : String) (db : Db)
    → SameKeys db (update_follower_order_failed id status message db)
unfolding update_follower_order_failed with_failure
update_failed-SameKeys id status message db = record {
  same_tags = tags-update_where _ _ (λ r. refl) db.follower_orders;
  same_ids = ids-update_where _ _ (λ r. refl) db.follower_orders;
  same_next = refl;
}

pub update_status-SameKeys :
    (b status : String) (filled : ℤ) (price : Decimal) (db : Db)
    → SameKeys db (update_follower_order_status b status filled price db).1
unfolding update_follower_order_status with_status
update_status-SameKeys b status filled price db =
    elim (Option-cases (find_row (has_broker_id b) db.follower_orders)) [
      | inl e ↦
          rw (e, update_follower_order_status)
            (record { same_tags = refl; same_ids = refl; same_next = refl })
      | inr (row, e) ↦
          rw (e, update_follower_order_status)
            (record {
              same_tags = tags-update_where _ _ (λ r. refl) db.follower_orders;
              same_ids = ids-update_where _ _ (λ r. refl) db.follower_orders;
              same_next = refl;
            })
    ]

pub update_by_tag-SameKeys :
    (N : Numerics) (follower : Uuid) (tag b status : String) (filled : ℤ) (price : Decimal)
    (db : Db)
    → SameKeys db (update_follower_order_by_tag N follower tag b status filled price db).1
unfolding update_follower_order_by_tag with_postback
update_by_tag-SameKeys N follower tag b status filled price db =
    elim (Option-cases (find_row (has_follower_tag follower tag) db.follower_orders)) [
      | inl e ↦
          rw (e, update_follower_order_by_tag)
            (record { same_tags = refl; same_ids = refl; same_next = refl })
      | inr (row, e) ↦
          rw (e, update_follower_order_by_tag)
            (if_cases (λ (r : Result ℕ × Db). SameKeys db r.1)
              (not (str_eq b "") && broker_id_taken row.id follower b db.follower_orders)
              (err (other index_violation), db)
              (
                ok row.id,
                record db {
                  follower_orders =
                      update_where (has_follower_tag follower tag)
                        (with_postback N b status filled price db.clock) db.follower_orders;
                },
              )
              (λ _. record { same_tags = refl; same_ids = refl; same_next = refl })
              (λ _. record {
                same_tags = tags-update_where _ _ (λ r. refl) db.follower_orders;
                same_ids = ids-update_where _ _ (λ r. refl) db.follower_orders;
                same_next = refl;
              }))
    ]

consumed_event-SameKeys :
    (id : ℕ) (payload : List ℕ) (row : Option OrderRow) (db : Db)
    → SameKeys db (consumed_event id payload row db)
unfolding consumed_event append_order_event
consumed_event-SameKeys id payload none db = record {
  same_tags = refl;
  same_ids = refl;
  same_next = refl;
}
consumed_event-SameKeys id payload (some row) db = elim (Option-cases row.master_fill_id) [
  | inl e ↦ rw (e, consumed_event) (record { same_tags = refl; same_ids = refl; same_next = refl })
  | inr (f, e) ↦
      rw (e, consumed_event) (record { same_tags = refl; same_ids = refl; same_next = refl })
]

SameKeys-trans : {a b c : Db} → SameKeys a b → SameKeys b c → SameKeys a c
SameKeys-trans h k = record {
  same_tags = k.same_tags ∙ h.same_tags;
  same_ids = k.same_ids ∙ h.same_ids;
  same_next = k.same_next ∙ h.same_next;
}

consume_pending-SameKeys : (id : ℕ) (b : String) (db : Db) → SameKeys db (consume_pending id b db)
unfolding consume_pending with_status
consume_pending-SameKeys id b db = elim (Option-cases (find_pending b db.pending_updates)) [
  | inl e ↦ rw (e, consume_pending) (record { same_tags = refl; same_ids = refl; same_next = refl })
  | inr (p, e) ↦
      rw (e, consume_pending)
        (SameKeys-trans
          {b = record db {
            follower_orders =
                update_where (has_id id)
                  (with_status p.status p.filled_quantity p.average_price db.clock)
                  db.follower_orders;
            pending_updates = without_pending b db.pending_updates;
          }}
          (record {
            same_tags = tags-update_where _ _ (λ r. refl) db.follower_orders;
            same_ids = ids-update_where _ _ (λ r. refl) db.follower_orders;
            same_next = refl;
          })
          (consumed_event-SameKeys id p.raw_payload _ _))
]

pub update_placed-SameKeys :
    (id : ℕ) (b : String) (placed : ℤ) (db : Db)
    → SameKeys db (update_follower_order_placed id b placed db).1
unfolding update_follower_order_placed with_placement
update_placed-SameKeys id b placed db =
    if_cases (λ (r : Result (Unit {0}) × Db). SameKeys db r.1)
      (placement_refused id b db.follower_orders) (err (other index_violation), db)
      (
        ok tt,
        consume_pending id b (record db {
          follower_orders =
              update_where (has_id id) (with_placement b placed db.clock) db.follower_orders;
        }),
      )
      (λ _. record { same_tags = refl; same_ids = refl; same_next = refl })
      (λ _.
        SameKeys-trans
          {b = record db {
            follower_orders =
                update_where (has_id id) (with_placement b placed db.clock) db.follower_orders;
          }}
          (record {
            same_tags = tags-update_where _ _ (λ r. refl) db.follower_orders;
            same_ids = ids-update_where _ _ (λ r. refl) db.follower_orders;
            same_next = refl;
          })
          (consume_pending-SameKeys id b _))
