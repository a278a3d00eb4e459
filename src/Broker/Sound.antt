-- ===== src/Broker/Sound.antt =====
-- testbroker/engine.go: what the statuses of an order mean, and what the guard lets through.
use envoy_trade.Common.{
  ◌≡◌, ◌≢◌, refl, sym, ap, subst, ◌∙◌, arith, false, ◌⊎◌, inl, inr, Bool-cases, String, str_eq,
  eq_iff, some, Option-cases, List, [], ◌∷◌, ◌++◌, get_last, pos, other, Result, ok, err, if_cases,
  if◌then◌else◌,
}
use envoy_trade.Common.Keyed.{find, store, find-store_self, find-store_other}
use envoy_trade.Domain.Decimal.{Float64}
use envoy_trade.Broker.Order.{Order, OrderEngine}
use envoy_trade.Broker.Book.{
  history_of, write_order, open_order, filled_order, rejected_order, cancelled_order, not_open_text,
  not_found_text,
}
use envoy_trade.Broker.Place.{add_order}

-- The quantities that go with each status.
pub data Sound (o : Order) : Type 0 where
  is_open :
      o.status ≡ "OPEN"
      → o.filled_quantity ≡ pos 0
      → o.cancelled_quantity ≡ pos 0
      → o.pending_quantity ≡ o.quantity
      → Sound o
  is_complete :
      o.status ≡ "COMPLETE"
      → o.filled_quantity ≡ o.quantity
      → o.cancelled_quantity ≡ pos 0
      → o.pending_quantity ≡ pos 0
      → Sound o
  is_rejected :
      o.status ≡ "REJECTED"
      → o.filled_quantity ≡ pos 0
      → o.cancelled_quantity ≡ pos 0
      → o.pending_quantity ≡ o.quantity
      → Sound o
  is_cancelled :
      o.status ≡ "CANCELLED"
      → o.filled_quantity ≡ pos 0
      → o.cancelled_quantity ≡ o.quantity
      → o.pending_quantity ≡ pos 0
      → Sound o

-- An order in the maps: sound, under its own id, and the last snapshot of its history.
abbrev pub Kept : String → Order → List (String × List Order) → Type 0
Kept id o history =
    Sound o
    × (o.order_id ≡ id)
    × ((h : List Order) × (find id history ≡ some h) × (get_last h ≡ some o))

pub record Good (e : OrderEngine) : Type 0 where
  pub kept : (id : String) (o : Order) → find id e.orders ≡ some o → Kept id o e.history

same_text : (s t : String) → (s ≡ t) ⊎ (s ≢ t)
same_text s t = elim (Bool-cases (str_eq s t)) [
  | inl h ↦ inl ((eq_iff s t).0 h)
  | inr h ↦ inr (λ e. ground (arith, eq_iff s t))
]

pub some_injective : {A : Type 0} {a b : A} → some a ≡ some b → a ≡ b
some_injective h = cc

get_last-snoc : (h : List Order) (o : Order) → get_last (h ++ o ∷ []) ≡ some o
get_last-snoc [] o = refl
get_last-snoc (x ∷ []) o = refl
get_last-snoc (x ∷ y ∷ h) o = get_last-snoc (y ∷ h) o

-- A sound order that is stored with a history that ends in it.
stored-Kept :
    (o : Order) (h : List Order) (e : OrderEngine)
    → Sound o
    → get_last h ≡ some o
    → Good e
    → (id : String) (p : Order) → find id (store o.order_id o e.orders) ≡ some p
    → Kept id p (store o.order_id h e.history)
stored-Kept o h e sound last good id p found = elim (same_text id o.order_id) [
  | inl same ↦
      let q : o ≡ p = some_injective (
        sym (find-store_self o.order_id o e.orders)
        ∙ subst (λ i. find i (store o.order_id o e.orders) ≡ some p) same found) in
      subst (λ r. Kept id r (store o.order_id h e.history)) q
        (
          sound,
          sym same,
          (
            h,
            subst (λ i. find i (store o.order_id h e.history) ≡ some h) (sym same)
                (find-store_self o.order_id h e.history),
            last,
          ),
        )
  | inr other_id ↦
      let k = good.kept id p (sym (find-store_other o.order_id id o e.orders other_id) ∙ found) in
      (k.0, k.1, (k.2.0, find-store_other o.order_id id h e.history other_id ∙ k.2.1, k.2.2))
]

pub write_order-Good : (o : Order) (e : OrderEngine) → Sound o → Good e → Good (write_order o e)
unfolding write_order
write_order-Good o e sound good = record {
  kept =
      stored-Kept o (history_of o.order_id e ++ o ∷ []) e sound
        (get_last-snoc (history_of o.order_id e) o) good;
}

pub add_order-Good : (o : Order) (e : OrderEngine) → Sound o → Good e → Good (add_order o e)
unfolding add_order
add_order-Good o e sound good = record { kept = stored-Kept o (o ∷ []) e sound refl good }

different : (s t u : String) → s ≡ t → s ≡ u → str_eq t u ≡ false → ⊥
different s t u h k d = ground (arith, eq_iff t u)

-- The quantities of an order that is open.
open_parts :
    (o : Order)
    → Sound o
    → o.status ≡ "OPEN"
    → (o.filled_quantity ≡ pos 0)
      × (o.cancelled_quantity ≡ pos 0)
      × (o.pending_quantity ≡ o.quantity)
open_parts o (is_open s f c q) h = (f, c, q)
open_parts o (is_complete s f c q) h = absurd (different o.status "COMPLETE" "OPEN" s h refl)
open_parts o (is_rejected s f c q) h = absurd (different o.status "REJECTED" "OPEN" s h refl)
open_parts o (is_cancelled s f c q) h = absurd (different o.status "CANCELLED" "OPEN" s h refl)

pub filled-Sound :
    (price : Float64) (now : String) (o : Order)
    → Sound o
    → o.status ≡ "OPEN"
    → Sound (filled_order price now o)
unfolding filled_order
filled-Sound price now o s h = is_complete refl refl (open_parts o s h).1 refl

pub rejected-Sound :
    (reason now : String) (o : Order)
    → Sound o
    → o.status ≡ "OPEN"
    → Sound (rejected_order reason now o)
unfolding rejected_order
rejected-Sound reason now o s h = let p = open_parts o s h in is_rejected refl p.0 p.1 p.2

pub cancelled-Sound :
    (now : String) (o : Order) → Sound o → o.status ≡ "OPEN" → Sound (cancelled_order now o)
unfolding cancelled_order
cancelled-Sound now o s h = is_cancelled refl (open_parts o s h).0 refl refl

abbrev guard : String → Order → Result Order
guard id o = if str_eq o.status "OPEN" then ok o else err (other (not_open_text id o.status))

guard_ok : (id : String) (p o : Order) → guard id p ≡ ok o → (p ≡ o) × (p.status ≡ "OPEN")
guard_ok id p o =
    if_cases (λ (r : Result Order). r ≡ ok o → (p ≡ o) × (p.status ≡ "OPEN"))
      (str_eq p.status "OPEN") (ok p) (err (other (not_open_text id p.status)))
      (λ h e. (cc, (eq_iff p.status "OPEN").0 h)) (λ h e. cc)

-- What the guard of the transitions lets through.
pub open_order-found :
    (id : String) (e : OrderEngine) (o : Order)
    → open_order id e ≡ ok o
    → (find id e.orders ≡ some o) × (o.status ≡ "OPEN")
unfolding open_order
open_order-found id e o h = elim (Option-cases (find id e.orders)) [
  | inl none_there ↦
      (let k : err (other (not_found_text id)) ≡ ok o =
          sym (rw (none_there, open_order) refl) ∙ h in
        cc)
  | inr (p, there) ↦
      (let k : guard id p ≡ ok o = sym (rw (there, open_order) refl) ∙ h in
        let g = guard_ok id p o k in
        (there ∙ ap some g.0, subst (λ (q : Order). q.status ≡ "OPEN") g.0 g.1))
]
