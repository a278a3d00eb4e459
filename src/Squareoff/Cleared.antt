-- ===== src/Squareoff/Cleared.antt =====
-- What a group's square-off does to its accounts, to its result and to the group's imbalance.
use envoy_trade.Common.{
  ℕ, ◌+◌, ◌≡◌, refl, sym, ap, subst, ◌∙◌, arith, Bool, true, false, ◌&&◌, String, List, [], ◌∷◌,
  ◌++◌, map, select, length, count_if, is_empty, Result, ok, err, wrap, Error, if◌then◌else◌,
  Bool-cases, inl, inr,
}
use mathlib.Core.List.{append-nil, append_assoc}
use envoy_trade.Common.State.{or_return}
use envoy_trade.Domain.Types.{Uuid}
use envoy_trade.Desk.{Desk, ask}
use envoy_trade.Squareoff.Account.{SquareOffOrder, SquareOffResult, with_error, square_off_account}
use envoy_trade.Squareoff.Receipts.{not_empty}
use envoy_trade.Squareoff.Group.{
  Group, GroupEnv, enabled_ids, new_group_result, with_errors, merge, error_of, run_one, run_each,
  may_clear, clear_if_done, with_group, square_off_group,
}

abbrev pub Answer : Type 0
Answer = Result SquareOffResult

-- The account was squared off and no order of it failed.
abbrev pub is_clean : Answer → Bool
is_clean (err e) = false
is_clean (ok a) = is_empty a.errors

abbrev pub all_clean : List Answer → Bool
all_clean [] = true
all_clean (answer ∷ runs) = let rest = all_clean runs in is_clean answer && rest

abbrev pub closed_by : Answer → ℕ
closed_by (err e) = 0
closed_by (ok a) = a.positions_squared_off

abbrev pub all_closed : List Answer → ℕ
all_closed [] = 0
all_closed (answer ∷ runs) = closed_by answer + all_closed runs

abbrev pub cancelled_by : Answer → ℕ
cancelled_by (err e) = 0
cancelled_by (ok a) = a.cancelled_orders

abbrev pub all_cancelled : List Answer → ℕ
all_cancelled [] = 0
all_cancelled (answer ∷ runs) = cancelled_by answer + all_cancelled runs

abbrev pub orders_by : Answer → List SquareOffOrder
orders_by (err e) = []
orders_by (ok a) = a.orders

abbrev pub all_orders : List Answer → List SquareOffOrder
all_orders [] = []
all_orders (answer ∷ runs) = orders_by answer ++ all_orders runs

-- A result for a number of followers sums up what the accounts have answered.
pub record Sums (followers : ℕ) (runs : List Answer) (r : SquareOffResult) : Type 0 where
  pub affected : r.followers_affected ≡ followers
  pub closed : r.positions_squared_off ≡ all_closed runs
  pub cancelled : r.cancelled_orders ≡ all_cancelled runs
  pub ordered : r.orders ≡ all_orders runs
  pub clean : is_empty r.errors ≡ all_clean runs
  pub told : r.status ≡ (if all_clean runs then "completed" else "partial")

all_clean-append :
    (runs more : List Answer) → all_clean (runs ++ more) ≡ (all_clean runs && all_clean more)
all_clean-append [] more = refl
all_clean-append (answer ∷ runs) more = ground (arith, all_clean-append runs more)

all_closed-append :
    (runs more : List Answer) → all_closed (runs ++ more) ≡ all_closed runs + all_closed more
all_closed-append [] more = omega arith
all_closed-append (answer ∷ runs) more = omega (arith, all_closed-append runs more)

all_cancelled-append :
    (runs more : List Answer)
    → all_cancelled (runs ++ more) ≡ all_cancelled runs + all_cancelled more
all_cancelled-append [] more = omega arith
all_cancelled-append (answer ∷ runs) more = omega (arith, all_cancelled-append runs more)

all_orders-append :
    (runs : List Answer) (answer : Answer)
    → all_orders (runs ++ answer ∷ []) ≡ all_orders runs ++ orders_by answer
all_orders-append [] answer = append-nil (orders_by answer)
all_orders-append (a ∷ runs) answer =
    ap (λ l. orders_by a ++ l) (all_orders-append runs answer)
    ∙ sym (append_assoc (orders_by a) (all_orders runs) (orders_by answer))

is_empty-append : (xs ys : List String) → is_empty (xs ++ ys) ≡ (is_empty xs && is_empty ys)
is_empty-append [] ys = refl
is_empty-append (x ∷ xs) ys = refl

merge-Sums :
    (text : Error → String) (n : ℕ) (answer : Answer) (runs : List Answer) (r : SquareOffResult)
    → Sums n runs r
    → Sums n (runs ++ answer ∷ []) (merge text answer r)
unfolding merge with_error with_errors
merge-Sums text n (err e) runs r s =
    let dirty : all_clean (runs ++ err e ∷ []) ≡ false =
      ground (arith, all_clean-append runs (err e ∷ [])) in
    record {
      affected = s.affected;
      closed = omega (arith, s.closed, all_closed-append runs (err e ∷ []));
      cancelled = omega (arith, s.cancelled, all_cancelled-append runs (err e ∷ []));
      ordered = s.ordered ∙ sym (all_orders-append runs (err e) ∙ append-nil (all_orders runs));
      clean = not_empty r.errors (text e) ∙ sym dirty;
      told = rw dirty refl;
    }
merge-Sums text n (ok a) runs r s = elim (Bool-cases (is_empty a.errors)) [
  | inl h ↦
      let same : all_clean (runs ++ ok a ∷ []) ≡ all_clean runs =
        ground (arith, h, all_clean-append runs (ok a ∷ [])) in
      rw h (record {
        affected = s.affected;
        closed = omega (arith, s.closed, all_closed-append runs (ok a ∷ []));
        cancelled = omega (arith, s.cancelled, all_cancelled-append runs (ok a ∷ []));
        ordered = ap (λ l. l ++ a.orders) s.ordered ∙ sym (all_orders-append runs (ok a));
        clean = s.clean ∙ sym same;
        told = rw same s.told;
      })
  | inr h ↦
      let dirty : all_clean (runs ++ ok a ∷ []) ≡ false =
        ground (arith, h, all_clean-append runs (ok a ∷ [])) in
      rw h (record {
        affected = s.affected;
        closed = omega (arith, s.closed, all_closed-append runs (ok a ∷ []));
        cancelled = omega (arith, s.cancelled, all_cancelled-append runs (ok a ∷ []));
        ordered = ap (λ l. l ++ a.orders) s.ordered ∙ sym (all_orders-append runs (ok a));
        clean = ground (arith, h, is_empty-append r.errors a.errors, dirty);
        told = rw dirty refl;
      })
]

-- The enabled followers, in the group's order.
abbrev pub enabled_of : Group → List Uuid
enabled_of g =
    map {B = Uuid} (λ (f : Uuid × Bool). f.0) (select (λ (f : Uuid × Bool). f.1) g.followers)

enabled_ids-same :
    (fs : List (Uuid × Bool))
    → enabled_ids fs
      ≡ map {B = Uuid} (λ (f : Uuid × Bool). f.0) (select (λ (f : Uuid × Bool). f.1) fs)
unfolding enabled_ids
enabled_ids-same [] = refl
enabled_ids-same ((id, true) ∷ fs) = ap (λ l. id ∷ l) (enabled_ids-same fs)
enabled_ids-same ((id, false) ∷ fs) = enabled_ids-same fs

-- A list with the same elements, each as often.
abbrev pub IsOrderOf : List Uuid → List Uuid → Type 0
IsOrderOf new ids = (p : Uuid → Bool) → count_if p new ≡ count_if p ids

module _ {B S : Type 0} (E : GroupEnv B S) (schedule : List Uuid → List Uuid) (group_id : Uuid)
    (symbols : List String) where
  -- SquareOffAccount for each account, one after the other: the answers, and the desk after them.
  abbrev pub square_each : List Uuid → Desk S → List Answer × Desk S
  square_each [] d = ([], d)
  square_each (id ∷ ids) d =
      let one = square_off_account E.accounts id symbols d in
      let rest = square_each ids one.1 in (one.0 ∷ rest.0, rest.1)

  -- What is left to do after the accounts have answered: the call that clears the group's imbalance, if no
  -- symbols were selected and all answers are clean.
  abbrev pub cleared : List Answer → Desk S → Desk S
  cleared runs d =
      if is_empty symbols && all_clean runs
      then (ask E.accounts.desk (E.set_group_imbalance group_id false) d).1
      else d

  pub record SquaredOff (g : Group) (d : Desk S) (r : SquareOffResult) (end : Desk S) : Type 0 where
    pub followers : List Uuid
    pub everyone : IsOrderOf followers (enabled_of g)
    pub sums : Sums (length (enabled_of g)) (square_each (g.master_id ∷ followers) d).0 r
    pub left : let runs = square_each (g.master_id ∷ followers) d in end ≡ cleared runs.0 runs.1

  abbrev pub Told : Result Group → Desk S → Result SquareOffResult → Desk S → Type 0
  Told (err e) d r end = (r ≡ err (wrap "load group detail" e)) × (end ≡ d)
  Told (ok g) d (err e) end = ⊥
  Told (ok g) d (ok r) end = SquaredOff g d r end

  run_each-Sums :
      (n : ℕ) (ids : List Uuid) (runs : List Answer) (r : SquareOffResult) (d : Desk S)
      → Sums n runs r
      → Sums n (runs ++ (square_each ids d).0) (run_each E schedule group_id symbols ids r d).0
        × ((run_each E schedule group_id symbols ids r d).1 ≡ (square_each ids d).1)
  unfolding run_each run_one
  run_each-Sums n [] runs r d s = (subst (λ l. Sums n l r) (sym (append-nil runs)) s, refl)
  run_each-Sums n (id ∷ ids) runs r d s =
      let one = square_off_account E.accounts id symbols d in
      let text = error_of E schedule group_id symbols "follower" id in
      let rest =
        run_each-Sums n ids (runs ++ one.0 ∷ []) (merge text one.0 r) one.1
          (merge-Sums text n one.0 runs r s) in
      (
        subst
            (λ l. Sums n l (run_each E schedule group_id symbols ids (merge text one.0 r) one.1).0)
            (append_assoc runs (one.0 ∷ []) (square_each ids one.1).0) rest.0,
        rest.1,
      )

  clear_if_done_lem :
      (n : ℕ) (runs : List Answer) (r : SquareOffResult) (d : Desk S)
      → Sums n runs r
      → (clear_if_done E schedule group_id symbols r d).1 ≡ cleared runs d
  unfolding clear_if_done may_clear
  clear_if_done_lem n runs r d s = elim (Bool-cases (is_empty symbols)) [
    | inr h ↦ rw h refl
    | inl h ↦ elim (Bool-cases (all_clean runs)) [
      | inl k ↦ rw (h, s.clean, s.told, k) refl
      | inr k ↦ rw (h, s.clean, s.told, k) refl
    ]
  ]

  new-Sums : (g : Group) → Sums (length (enabled_of g)) [] (new_group_result group_id g)
  unfolding new_group_result
  new-Sums g = record {
    affected = ap (λ l. length l) (enabled_ids-same g.followers);
    closed = refl;
    cancelled = refl;
    ordered = refl;
    clean = refl;
    told = refl;
  }

  with_group-Told :
      (g : Group) (d : Desk S)
      → ((ids : List Uuid) → IsOrderOf (schedule ids) ids)
      → let end = with_group E schedule group_id symbols g d in Told (ok g) d end.0 end.1
  unfolding with_group run_one
  with_group-Told g d orders =
      let n = length (enabled_of g) in
      let ids = schedule (enabled_ids g.followers) in
      let first = square_off_account E.accounts g.master_id symbols d in
      let text = error_of E schedule group_id symbols "master" g.master_id in
      let begun = merge text first.0 (new_group_result group_id g) in
      let done =
        run_each-Sums n ids (first.0 ∷ []) begun first.1
          (merge-Sums text n first.0 [] (new_group_result group_id g) (new-Sums g)) in
      let rest = run_each E schedule group_id symbols ids begun first.1 in
      let runs = square_each (g.master_id ∷ ids) d in
      record {
        followers = ids;
        everyone =
            subst (λ l. IsOrderOf ids l) (enabled_ids-same g.followers)
              (orders (enabled_ids g.followers));
        sums = done.0;
        left = clear_if_done_lem n runs.0 rest.0 rest.1 done.0 ∙ ap (λ e. cleared runs.0 e) done.1;
      }

  loaded-Told :
      (r : Result Group) (d : Desk S)
      → ((ids : List Uuid) → IsOrderOf (schedule ids) ids)
      → let end =
          or_return (wrap "load group detail") (with_group E schedule group_id symbols) r d in
        Told r d end.0 end.1
  loaded-Told (err e) d orders = (refl, refl)
  loaded-Told (ok g) d orders = with_group-Told g d orders

  -- SquareOffGroup, with its goroutines one after another in any order and none panicking, returns the error of
  -- loading the group and does nothing more; or it ends where SquareOffAccount for the master and then for each
  -- enabled follower, in some order, leaves the desk, whatever they answer, and after that, exactly if no
  -- symbols were selected and each answered a result without errors, the call that sets the group's imbalance
  -- to false. Its result tells the number of the enabled followers, sums the closed positions and the cancelled
  -- orders of the answers and lists their orders, has no errors exactly if each answered a result without
  -- errors, and its status is then completed, else partial.
  pub square_off_group-Told :
      (d : Desk S)
      → ((ids : List Uuid) → IsOrderOf (schedule ids) ids)
      → let found = ask E.accounts.desk (E.group_detail group_id) d in
        let end = square_off_group E schedule group_id symbols d in Told found.0 found.1 end.0 end.1
  unfolding square_off_group
  square_off_group-Told d orders =
      let r = ask E.accounts.desk (E.group_detail group_id) d in loaded-Told r.0 r.1 orders
