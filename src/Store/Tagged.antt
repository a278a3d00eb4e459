-- ===== src/Store/Tagged.antt =====
-- What the batch insert does to the tags of follower_orders.
use envoy_trade.Common.{
  ℕ, ◌≡◌, subst, arith, true, false, ◌⊎◌, inl, inr, String, eq_iff, Option, none, some, List, [],
  ◌∷◌, ◌++◌, Option-cases, if_cases,
}
use envoy_trade.Domain.Types.{FollowerOrder}
use envoy_trade.Store.Tables.{Db, OrderRow, has_tag, has_pair}
use envoy_trade.Store.Inserts.{new_row, add_row, batch_row, batch_rows}
use envoy_trade.Store.Rows.{tagged-append}
use envoy_trade.Engine.Dispatch.{inserted_id}

pub inserted_id-append :
    (t : String) (xs ys : List (String × ℕ)) {id : ℕ}
    → inserted_id t (xs ++ ys) ≡ some id
    → (inserted_id t xs ≡ some id) ⊎ (inserted_id t ys ≡ some id)
unfolding inserted_id
inserted_id-append t [] ys h = inr h
inserted_id-append t ((u, i) ∷ xs) ys {id} h = ground (arith, inserted_id-append t xs ys {id = id})

-- A row that has a tag keeps it, and a new id means a new tag.
pub record Extends (ids : List (String × ℕ)) (db db' : Db) : Type 0 where
  pub keeps :
      (t : String) → has_tag t db.follower_orders ≡ true → has_tag t db'.follower_orders ≡ true
  pub fresh :
      (t : String) (id : ℕ)
      → inserted_id t ids ≡ some id
      → (has_tag t db.follower_orders ≡ false) × (has_tag t db'.follower_orders ≡ true)

Extends-none : (db : Db) → Extends [] db db
unfolding inserted_id
Extends-none db = record { keeps = λ t h. h; fresh = λ t id h. ground arith }

Extends-append :
    {xs ys : List (String × ℕ)} {a b c : Db}
    → Extends xs a b
    → Extends ys b c
    → Extends (xs ++ ys) a c
Extends-append {xs} {ys} {a} {b} {c} f g = record {
  keeps = λ t h. g.keeps t (f.keeps t h);
  fresh = λ t id h. elim (inserted_id-append t xs ys h) [
    | inl k ↦ ((f.fresh t id k).0, g.keeps t (f.fresh t id k).1)
    | inr k ↦ (ground (arith, f.keeps t, g.fresh t id k), (g.fresh t id k).1)
  ];
}

module _ (r : OrderRow) (db : Db) (n : ℕ)
    (free : has_tag r.idempotency_tag db.follower_orders ≡ false) where
  add_row_keeps :
      (t : String)
      → has_tag t db.follower_orders ≡ true
      → has_tag t (add_row r db).follower_orders ≡ true
  unfolding add_row
  add_row_keeps t h = rw (tagged-append t db.follower_orders r) (ground arith)

  add_row_fresh :
      (t : String) (id : ℕ)
      → inserted_id t ((r.idempotency_tag, n) ∷ []) ≡ some id
      → (has_tag t db.follower_orders ≡ false) × (has_tag t (add_row r db).follower_orders ≡ true)
  unfolding add_row inserted_id
  add_row_fresh t id h =
      let same : r.idempotency_tag ≡ t = ground (arith, eq_iff r.idempotency_tag t) in
      (
        subst (λ u. has_tag u db.follower_orders ≡ false) same free,
        rw (tagged-append t db.follower_orders r) (ground (arith, eq_iff r.idempotency_tag t)),
      )

  add_row-Extends : Extends ((r.idempotency_tag, n) ∷ []) db (add_row r db)
  add_row-Extends = record { keeps = add_row_keeps; fresh = add_row_fresh }

abbrev pub Extending : Db → Option (List (String × ℕ) × Db) → Type 0
Extending db none = Unit
Extending db (some r) = Extends r.0 db r.1

batch_row-Extending : (o : FollowerOrder) (db : Db) → Extending db (batch_row o db)
unfolding batch_row new_row
batch_row-Extending o db =
    if_cases (Extending db) (has_tag o.idempotency_tag db.follower_orders) _ _
      (λ _. Extends-none db)
      λ free.
        if_cases (Extending db) (has_pair (some o.master_fill_id) o.follower_id db.follower_orders)
          _ _ (λ _. tt)
          λ _. add_row-Extends (new_row (some o.master_fill_id) o db) db db.next_order free

-- The batch reports an id exactly for tags that were not in the table, and they are there then; it
-- deletes no row.
pub batch_rows-Extending : (os : List FollowerOrder) (db : Db) → Extending db (batch_rows os db)
unfolding batch_rows
batch_rows-Extending [] db = Extends-none db
batch_rows-Extending (o ∷ os) db = elim (Option-cases (batch_row o db)) [
  | inl e ↦ rw (e, batch_rows) tt
  | inr ((new, mid), e) ↦
      rw (e, batch_rows)
        (let first = subst (Extending db) e (batch_row-Extending o db) in
          let rest = batch_rows-Extending os mid in
          elim (Option-cases (batch_rows os mid)) [
            | inl h ↦ rw h tt
            | inr ((more, last), h) ↦ rw h (Extends-append first (subst (Extending mid) h rest))
          ])
]
