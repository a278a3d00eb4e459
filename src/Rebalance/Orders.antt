-- ===== src/Rebalance/Orders.antt =====
-- The orders by which RebalanceAccount corrects drifts, and what its result says of them.
use mathlib.Core.List.{append-nil, append_assoc}
use envoy_trade.Common.{
  ℕ, suc, ◌+◌, ◌^◌, ◌<◌, ◌≡◌, refl, sym, ap, subst, ◌∙◌, arith, true, false, String, List, [], ◌∷◌,
  ◌++◌, length, length-append, is_empty, All, ℤ, pos, negsuc, neg, eqb_ℤ, wrap64_fits, Result, ok,
  err, if◌then◌else◌,
}
use envoy_trade.Domain.Types.{Uuid}
use envoy_trade.Worker.Parts.{OrderParams}
use envoy_trade.Rebalance.Drift.{SymbolDrift, abs, action_of}
use envoy_trade.Desk.{Desk, market_row, ask, note_placed, row_id}
use envoy_trade.Desk.Tags.{order_tag}
use envoy_trade.Squareoff.Flat.{bought, IsBounded}
use envoy_trade.Desk.Quiet.{Quiet, update_if_row-Quiet}
use envoy_trade.Squareoff.Receipts.{not_empty}
use envoy_trade.Rebalance.Account.{
  RebalanceEnv, RebalanceOrder, RebalanceResult, with_failure, with_placed, drift_order,
  has_quantity, after_place, place_drift, correct_drift, correct_each,
}

-- The order is for what is missing.
abbrev pub Corrects : SymbolDrift → OrderParams → Type 0
Corrects s o =
    (o.exchange ≡ s.exchange)
    × (o.tradingsymbol ≡ s.tradingsymbol)
    × (o.product ≡ s.product)
    × (o.order_type ≡ "MARKET")
    × (bought o.transaction_type o.quantity ≡ s.drift_qty)

-- One order for each drift, in order.
abbrev pub CorrectAll : List SymbolDrift → List OrderParams → Type 0
CorrectAll [] [] = Unit
CorrectAll [] (o ∷ os) = ⊥
CorrectAll (s ∷ ss) [] = ⊥
CorrectAll (s ∷ ss) (o ∷ os) = Corrects s o × CorrectAll ss os

-- As calculateFollowerDrift makes them, and with a quantity whose negation fits an int64.
abbrev pub IsSound : SymbolDrift → Type 0
IsSound s =
    (s.action ≡ action_of s.drift_qty) × (eqb_ℤ s.drift_qty (pos 0) ≡ false) × IsBounded s.drift_qty

long_action : (n : ℕ) → action_of (pos n) ≡ "BUY"
unfolding action_of
long_action n = ground arith

short_action : (n : ℕ) → action_of (negsuc n) ≡ "SELL"
unfolding action_of
short_action n = ground arith

long_abs : (n : ℕ) → abs (pos n) ≡ pos n
unfolding abs
long_abs n = ground arith

short_abs : (n : ℕ) → suc n < 2 ^ 63 → abs (negsuc n) ≡ pos (suc n)
unfolding abs
short_abs n h = ground (arith, wrap64_fits (suc n) h)

back : (n : ℕ) → neg (pos (suc n)) ≡ negsuc n
back n = ground arith

action_bought : (q : ℤ) → IsBounded q → bought (action_of q) (abs q) ≡ q
action_bought (pos n) h = rw (long_action n, long_abs n) refl
action_bought (negsuc n) h = rw (short_action n, short_abs n h.1) (back n)

drift_order-Corrects : (s : SymbolDrift) (tag : String) → IsSound s → Corrects s (drift_order s tag)
unfolding drift_order
drift_order-Corrects s tag (e, nonzero, h) =
    (refl, refl, refl, refl, rw e (action_bought s.drift_qty h))

abs_nonzero : (q : ℤ) → IsBounded q → eqb_ℤ q (pos 0) ≡ false → eqb_ℤ (abs q) (pos 0) ≡ false
abs_nonzero (pos n) h z = rw (long_abs n) z
abs_nonzero (negsuc n) h z = rw (short_abs n h.1) (ground arith)

sound_has_quantity : (s : SymbolDrift) → IsSound s → has_quantity s ≡ true
unfolding has_quantity
sound_has_quantity s (e, nonzero, h) = rw (abs_nonzero s.drift_qty h nonzero) refl

CorrectAll-append :
    (ss ts : List SymbolDrift) (os rs : List OrderParams)
    → CorrectAll ss os
    → CorrectAll ts rs
    → CorrectAll (ss ++ ts) (os ++ rs)
CorrectAll-append [] ts [] rs h k = k
CorrectAll-append [] ts (o ∷ os) rs h k = elim h [ ]
CorrectAll-append (s ∷ ss) ts [] rs h k = elim h [ ]
CorrectAll-append (s ∷ ss) ts (o ∷ os) rs h k = (h.0, CorrectAll-append ss ts os rs h.1 k)

-- The result counts every order, and its status tells whether one has failed.
pub record Tells (n : ℕ) (r : RebalanceResult) : Type 0 where
  pub counted : r.orders_placed + length r.errors ≡ n
  pub listed : length r.orders ≡ r.orders_placed
  pub told : r.status ≡ (if is_empty r.errors then "completed" else "partial")

with_placed-Tells :
    (n : ℕ) (o : RebalanceOrder) (r : RebalanceResult) → Tells n r → Tells (suc n) (with_placed o r)
unfolding with_placed
with_placed-Tells n o r t = record {
  counted = omega (arith, t.counted);
  listed = omega (arith, t.listed, length-append r.orders (o ∷ []));
  told = t.told;
}

with_failure-Tells :
    (n : ℕ) (m : String) (r : RebalanceResult) → Tells n r → Tells (suc n) (with_failure m r)
unfolding with_failure
with_failure-Tells n m r t = record {
  counted = omega (arith, t.counted, length-append r.errors (m ∷ []));
  listed = t.listed;
  told = rw (not_empty r.errors m) refl;
}

module _ {B S : Type 0} (E : RebalanceEnv B S) (id : Uuid) where
  after_place-Quiet :
      (o : OrderParams) (row : ℤ) (a : Result String) (r : RebalanceResult) (d : Desk S)
      → Quiet d (after_place E id o row a r d).1
  unfolding after_place
  after_place-Quiet o row (ok b) r d = update_if_row-Quiet E.desk row _ d
  after_place-Quiet o row (err e) r d = update_if_row-Quiet E.desk row _ d

  after_place-Tells :
      (n : ℕ) (o : OrderParams) (row : ℤ) (a : Result String) (r : RebalanceResult) (d : Desk S)
      → Tells n r
      → Tells (suc n) (after_place E id o row a r d).0
  unfolding after_place
  after_place-Tells n o row (ok b) r d t = with_placed-Tells n _ r t
  after_place-Tells n o row (err e) r d t = with_failure-Tells n _ r t

  -- From a desk and a result to later ones: the orders that were placed correct the drifts.
  pub record Step (ss : List SymbolDrift) (r : RebalanceResult) (d : Desk S)
      (a : RebalanceResult × Desk S) : Type 0 where
    pub news : List OrderParams
    pub placed_more : a.1.placed ≡ d.placed ++ news
    pub corrects : CorrectAll ss news
    pub tells : (n : ℕ) → Tells n r → Tells (n + length ss) a.0

  place_drift-Step :
      (b : B) (s : SymbolDrift) (tag : String) (r : RebalanceResult) (d : Desk S)
      → IsSound s
      → Step (s ∷ []) r d (place_drift E id b (drift_order s tag) r d)
  unfolding place_drift
  place_drift-Step b s tag r d h =
      let o = drift_order s tag in
      let inserted = ask E.desk (E.desk.insert_follower_order (market_row id "rebalance" o)) d in
      let noted = (note_placed E.desk o inserted.1).1 in
      let answer = ask E.desk (E.desk.place_order b o) noted in
      let row = row_id E.desk inserted.0 in
      record {
        news = o ∷ [];
        placed_more = (after_place-Quiet o row answer.0 r answer.1).placed_same;
        corrects = (drift_order-Corrects s tag h, tt);
        tells = λ n t.
            subst (λ k. Tells k (after_place E id o row answer.0 r answer.1).0) (omega arith)
              (after_place-Tells n o row answer.0 r answer.1 t);
      }

  correct_drift-Step :
      (b : B) (s : SymbolDrift) (r : RebalanceResult) (d : Desk S)
      → IsSound s
      → Step (s ∷ []) r d (correct_drift E id b s r d)
  unfolding correct_drift
  correct_drift-Step b s r d h =
      rw (sound_has_quantity s h, correct_drift)
        (let now = ask E.desk E.desk.unix_time d in
          let f =
            place_drift-Step b s (order_tag "rebal-f-" (E.desk.uuid_text id) now.0) r now.1 h in
          record {
            news = f.news;
            placed_more = f.placed_more;
            corrects = f.corrects;
            tells = f.tells;
          })

  pub correct_each-Step :
      (b : B) (ss : List SymbolDrift) (r : RebalanceResult) (d : Desk S)
      → All IsSound ss
      → Step ss r d (correct_each E id b ss r d)
  unfolding correct_each
  correct_each-Step b [] r d h = record {
    news = [];
    placed_more = sym (append-nil d.placed);
    corrects = tt;
    tells = λ n t. subst (λ k. Tells k r) (omega arith) t;
  }
  correct_each-Step b (s ∷ ss) r d h =
      let one = correct_drift E id b s r d in
      let f = correct_drift-Step b s r d h.0 in
      let g = correct_each-Step b ss one.0 one.1 h.1 in
      record {
        news = f.news ++ g.news;
        placed_more =
            g.placed_more
            ∙ ap (λ l. l ++ g.news) f.placed_more
            ∙ append_assoc d.placed f.news g.news;
        corrects = CorrectAll-append (s ∷ []) ss f.news g.news f.corrects g.corrects;
        tells = λ n t.
            subst (λ k. Tells k (correct_each E id b ss one.0 one.1).0) (omega arith)
              (g.tells (n + 1) (f.tells n t));
      }
