-- ===== src/Store/Race.antt =====
-- A postback that arrives before its placement is recorded: the stash makes up for it.
use envoy_trade.Common.{
  ℕ, ◌≡◌, refl, sym, ap, ◌∙◌, arith, Bool, false, String, eq_iff, Option, none, some, List, [], ◌∷◌,
  ℤ, any, Result, ok, err, not_found, inl, inr, Option-cases, if_true, eqb_ℤ, eqb_ℤ_refl,
}
use envoy_trade.Domain.Decimal.{Decimal}
use envoy_trade.Domain.Types.{Uuid, Instant}
use envoy_trade.Store.Tables.{OrderRow, PendingUpdate, Db, wrap32, find_row, update_where}
use envoy_trade.Store.Updates.{
  has_id, has_broker_id, with_status, with_placement, broker_id_taken, placement_refused,
  find_pending, stashed_row, without_pending, consumed_event, consume_pending, append_order_event,
  stash_pending_order_update, update_follower_order_status, update_follower_order_placed,
}

-- No row has the broker's order id.
abbrev pub Unseen : String → List OrderRow → Type 0
Unseen b rows = any (has_broker_id b) rows ≡ false

Unseen-not_found :
    (b : String) (rows : List OrderRow) → Unseen b rows → find_row (has_broker_id b) rows ≡ none
unfolding find_row
Unseen-not_found b [] h = refl
Unseen-not_found b (r ∷ rs) h = ground (arith, Unseen-not_found b rs)

not_taken :
    (id : ℕ) (follower : Uuid) (b : String) (rows : List OrderRow)
    → Unseen b rows
    → broker_id_taken id follower b rows ≡ false
unfolding broker_id_taken
not_taken id follower b [] h = refl
not_taken id follower b (r ∷ rs) h = ground (arith, not_taken id follower b rs)

not_refused :
    (id : ℕ) (b : String) (rows : List OrderRow)
    → Unseen b rows
    → placement_refused id b rows ≡ false
unfolding placement_refused
not_refused id b rows h = elim (Option-cases (find_row (has_id id) rows)) [
  | inl e ↦ rw (e, placement_refused) refl
  | inr (r, e) ↦ rw (e, placement_refused) (not_taken id r.follower_id b rows h)
]

-- After the placement, the broker's id finds the rows that the id finds.
placed_by_broker_id :
    (id : ℕ) (b : String) (placed : ℤ) (now : Instant) (change : OrderRow → OrderRow)
    (rows : List OrderRow)
    → Unseen b rows
    → let after = update_where (has_id id) (with_placement b placed now) rows in
      update_where (has_broker_id b) change after ≡ update_where (has_id id) change after
unfolding update_where with_placement
placed_by_broker_id id b placed now change [] h = refl
placed_by_broker_id id b placed now change (r ∷ rs) h =
    ground (arith, eq_iff b b, placed_by_broker_id id b placed now change rs)

found_none :
    (p : OrderRow → Bool) (change : OrderRow → OrderRow) (rows : List OrderRow)
    → find_row p rows ≡ none
    → update_where p change rows ≡ rows
unfolding find_row update_where
found_none p change [] h = refl
found_none p change (r ∷ rs) h = ground (arith, found_none p change rs)

abbrev with_stash : String → String → ℤ → Decimal → List ℕ → Db → Db
with_stash b s q p bytes db = record db {
  pending_updates = stashed_row b s q p bytes db.clock ∷ without_pending b db.pending_updates;
}

stash_step :
    (b s : String) (q : ℤ) (p : Decimal) (bytes : List ℕ) (db : Db)
    → wrap32 q ≡ q
    → stash_pending_order_update b s q p bytes db ≡ (ok tt, with_stash b s q p bytes db)
unfolding stash_pending_order_update
stash_step b s q p bytes db h =
    if_true (λ (r : Result (Unit {0}) × Db). r ≡ (ok tt, with_stash b s q p bytes db))
      (eqb_ℤ (wrap32 q) q) _ _ (rw h (eqb_ℤ_refl q)) refl

stash_found :
    (b s : String) (q : ℤ) (p : Decimal) (bytes : List ℕ) (db : Db)
    → find_pending b (with_stash b s q p bytes db).pending_updates
      ≡ some (stashed_row b s q p bytes db.clock)
unfolding find_pending stashed_row
stash_found b s q p bytes db = ground (arith, eq_iff b b)

consumed_event_orders :
    (id : ℕ) (bytes : List ℕ) (row : Option OrderRow) (db : Db)
    → ((consumed_event id bytes row db).follower_orders ≡ db.follower_orders)
      × ((consumed_event id bytes row db).pending_updates ≡ db.pending_updates)
unfolding consumed_event append_order_event
consumed_event_orders id bytes none db = (refl, refl)
consumed_event_orders id bytes (some row) db = elim (Option-cases row.master_fill_id) [
  | inl e ↦ rw (e, consumed_event) (refl, refl)
  | inr (f, e) ↦ rw (e, consumed_event) (refl, refl)
]

-- The status update's rows, found or not.
status_rows :
    (b s : String) (q : ℤ) (p : Decimal) (db : Db)
    → (update_follower_order_status b s q p db).1.follower_orders
      ≡ update_where (has_broker_id b) (with_status s (wrap32 q) p db.clock) db.follower_orders
unfolding update_follower_order_status
status_rows b s q p db = elim (Option-cases (find_row (has_broker_id b) db.follower_orders)) [
  | inl e ↦
      rw (e, update_follower_order_status)
        (sym
          (found_none (has_broker_id b) (with_status s (wrap32 q) p db.clock) db.follower_orders e))
  | inr (row, e) ↦ rw (e, update_follower_order_status) refl
]

without_found :
    (b : String) (ps : List PendingUpdate) → find_pending b (without_pending b ps) ≡ none
unfolding find_pending without_pending
without_found b [] = refl
without_found b (p ∷ ps) = ground (arith, without_found b ps)

status_not_found :
    (b s : String) (q : ℤ) (p : Decimal) (db : Db)
    → Unseen b db.follower_orders
    → update_follower_order_status b s q p db ≡ (err not_found, db)
unfolding update_follower_order_status
status_not_found b s q p db h =
    rw (Unseen-not_found b db.follower_orders h, update_follower_order_status) refl

consume_found :
    (id : ℕ) (b : String) (u : PendingUpdate) (db : Db)
    → find_pending b db.pending_updates ≡ some u
    → ((consume_pending id b db).follower_orders
        ≡ update_where
            (has_id id)
            (with_status u.status u.filled_quantity u.average_price db.clock)
            db.follower_orders)
      × (find_pending b (consume_pending id b db).pending_updates ≡ none)
unfolding consume_pending
consume_found id b u db e =
    rw (e, consume_pending)
      (let x = consumed_event_orders id u.raw_payload _ _ in
        (x.0, rw x.1 (without_found b db.pending_updates)))

consume_none :
    (id : ℕ) (b : String) (db : Db)
    → find_pending b db.pending_updates ≡ none
    → consume_pending id b db ≡ db
unfolding consume_pending
consume_none id b db e = rw (e, consume_pending) refl

abbrev with_placed : ℕ → String → ℤ → Db → Db
with_placed id b placed db = record db {
  follower_orders = update_where (has_id id) (with_placement b placed db.clock) db.follower_orders;
}

placed_step :
    (id : ℕ) (b : String) (placed : ℤ) (db : Db)
    → Unseen b db.follower_orders
    → update_follower_order_placed id b placed db
      ≡ (ok tt, consume_pending id b (with_placed id b placed db))
unfolding update_follower_order_placed
placed_step id b placed db h = rw (not_refused id b db.follower_orders h) refl

late_rows :
    (id : ℕ) (b s : String) (placed q : ℤ) (p : Decimal) (bytes : List ℕ) (db : Db)
    → wrap32 q ≡ q
    → let f = consume_pending id b (with_placed id b placed (with_stash b s q p bytes db)) in
      (f.follower_orders
        ≡ update_where
            (has_id id)
            (with_status s (wrap32 q) p db.clock)
            (update_where (has_id id) (with_placement b placed db.clock) db.follower_orders))
      × (find_pending b f.pending_updates ≡ none)
unfolding stashed_row
late_rows id b s placed q p bytes db fits = rw fits (
    consume_found id b (stashed_row b s q p bytes db.clock)
      (with_placed id b placed (with_stash b s q p bytes db)) (stash_found b s q p bytes db))

-- A postback whose broker id no row has yet is refused as not found and changes nothing; stashed, it
-- is applied by the placement that brings the broker id: the rows are then those of the other order,
-- placement first and postback after it, and the stash is empty of that id. It is assumed that no
-- earlier postback of the id is stashed, that the quantity fits its column, and that the clock stands
-- still.
pub stash_commutes :
    (id : ℕ) (b s : String) (placed q : ℤ) (p : Decimal) (bytes : List ℕ) (db : Db)
    → Unseen b db.follower_orders
    → find_pending b db.pending_updates ≡ none
    → wrap32 q ≡ q
    → let stashed = (stash_pending_order_update b s q p bytes db).1 in
      let late = (update_follower_order_placed id b placed stashed).1 in
      let usual =
        (update_follower_order_status b s q p (update_follower_order_placed id b placed db).1).1 in
      (update_follower_order_status b s q p db ≡ (err not_found, db))
      × (late.follower_orders ≡ usual.follower_orders)
      × (find_pending b late.pending_updates ≡ none)
stash_commutes id b s placed q p bytes db h none_stashed fits =
    let stashed = with_stash b s q p bytes db in
    let stash = ap (λ r. r.1) (stash_step b s q p bytes db fits) in
    let usual =
      placed_step id b placed db h ∙ ap (λ d. (ok tt, d)) (consume_none id b _ none_stashed) in
    let late =
      ap (update_follower_order_placed id b placed) stash ∙ placed_step id b placed stashed h in
    let found = late_rows id b s placed q p bytes db fits in
    let change = with_status s (wrap32 q) p db.clock in
    let after =
      ap (λ r. (update_follower_order_status b s q p r.1).1.follower_orders) usual
      ∙ status_rows b s q p (with_placed id b placed db)
      ∙ placed_by_broker_id id b placed db.clock change db.follower_orders h in
    (
      status_not_found b s q p db h,
      ap (λ r. r.1.follower_orders) late ∙ found.0 ∙ sym after,
      ap (λ r. find_pending b r.1.pending_updates) late ∙ found.1,
    )
