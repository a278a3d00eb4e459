-- ===== src/Squareoff/Closings.antt =====
-- Which orders SquareOffAccount places, and what its result says of them.
use envoy_trade.Common.{
  ℕ, suc, ◌+◌, ◌≡◌, inl, inr, refl, sym, ap, subst, ◌∙◌, arith, String, str_eq, List, [], ◌∷◌, ◌++◌,
  select, length, length-append, All, ℤ, pos, Result, ok, err, if_cases, Bool-cases,
}
use mathlib.Core.List.{append-nil, append_assoc}
use envoy_trade.Common.State.{State, pure}
use envoy_trade.Domain.Types.{Uuid}
use envoy_trade.Worker.Parts.{OrderParams}
use envoy_trade.Rebalance.Drift.{Position}
use envoy_trade.Desk.{Desk, ask, note_placed}
use envoy_trade.Squareoff.Account.{
  SquareOffResult, SquareoffEnv, squareoff_tag, closing_order, is_wanted, pre_insert, after_place,
  place_closing, close_position, close_each,
}
use envoy_trade.Desk.Quiet.{Quiet, Quiet-refl, update_if_row-Quiet}
use envoy_trade.Squareoff.Receipts.{Tells, with_order-Tells, with_error-Tells}
use envoy_trade.Squareoff.Flat.{IsBounded, CloseAll, closing_order-Closes, CloseAll-append}

module _ {B S : Type 0} (E : SquareoffEnv B S) (id : Uuid) (symbols : List String) where
  pre_insert-Quiet :
      (role : String) (o : OrderParams) (d : Desk S) → Quiet d (pre_insert E id symbols role o d).1
  unfolding pre_insert
  pre_insert-Quiet role o d =
      if_cases (λ (a : State (Desk S) ℤ). Quiet d (a d).1) (str_eq role "follower") _ (pure (pos 0))
        (λ _. record { answered_same = refl; placed_same = refl }) (λ _. Quiet-refl d)

  after_place-Quiet :
      (role : String) (o : OrderParams) (row : ℤ) (a : Result String) (r : SquareOffResult)
      (d : Desk S)
      → Quiet d (after_place E id symbols role o row a r d).1
  unfolding after_place
  after_place-Quiet role o row (ok b) r d = update_if_row-Quiet E.desk row _ d
  after_place-Quiet role o row (err e) r d = update_if_row-Quiet E.desk row _ d

  after_place-Tells :
      (n : ℕ) (role : String) (o : OrderParams) (row : ℤ) (a : Result String) (r : SquareOffResult)
      (d : Desk S)
      → Tells n r
      → Tells (suc n) (after_place E id symbols role o row a r d).0
  unfolding after_place
  after_place-Tells n role o row (ok b) r d t = with_order-Tells n _ r t
  after_place-Tells n role o row (err e) r d t = with_error-Tells n _ r t

  -- From a desk and a result to later ones: the orders that were placed close the positions.
  pub record Step (ps : List Position) (r : SquareOffResult) (d : Desk S)
      (a : SquareOffResult × Desk S) : Type 0 where
    pub news : List OrderParams
    pub placed_more : a.1.placed ≡ d.placed ++ news
    pub answered_same : a.1.answered ≡ d.answered
    pub closes : CloseAll ps news
    pub tells : (n : ℕ) → Tells n r → Tells (n + length ps) a.0

  place_closing-Step :
      (b : B) (role : String) (p : Position) (tag : String) (r : SquareOffResult) (d : Desk S)
      → IsBounded p.quantity
      → Step (p ∷ []) r d (place_closing E id symbols b role (closing_order p tag) r d)
  unfolding place_closing
  place_closing-Step b role p tag r d h =
      let o = closing_order p tag in
      let inserted = pre_insert E id symbols role o d in
      let noted = (note_placed E.desk o inserted.1).1 in
      let answer = ask E.desk (E.desk.place_order b o) noted in
      let first = pre_insert-Quiet role o d in
      let last = after_place-Quiet role o inserted.0 answer.0 r answer.1 in
      record {
        news = o ∷ [];
        placed_more = last.placed_same ∙ ap (λ l. l ++ o ∷ []) first.placed_same;
        answered_same = last.answered_same ∙ first.answered_same;
        closes = (closing_order-Closes p tag h, tt);
        tells = λ n t.
            subst (λ k. Tells k (after_place E id symbols role o inserted.0 answer.0 r answer.1).0)
              (omega arith) (after_place-Tells n role o inserted.0 answer.0 r answer.1 t);
      }

  abbrev pub wanted : List Position → List Position
  wanted ps = select (is_wanted symbols) ps

  stay : (r : SquareOffResult) (d : Desk S) → Step [] r d (r, d)
  stay r d = record {
    news = [];
    placed_more = sym (append-nil d.placed);
    answered_same = refl;
    closes = tt;
    tells = λ n t. subst (λ k. Tells k r) (omega arith) t;
  }

  before_ask :
      (ps : List Position) (r : SquareOffResult) (d : Desk S) (w : S) (a : SquareOffResult × Desk S)
      → Step ps r (record d { world = w }) a
      → Step ps r d a
  before_ask ps r d w a f = record {
    news = f.news;
    placed_more = f.placed_more;
    answered_same = f.answered_same;
    closes = f.closes;
    tells = f.tells;
  }

  follow :
      (ps qs : List Position) (r s : SquareOffResult) (d e : Desk S) (a : SquareOffResult × Desk S)
      → Step ps r d (s, e)
      → Step qs s e a
      → Step (ps ++ qs) r d a
  follow ps qs r s d e a f g = record {
    news = f.news ++ g.news;
    placed_more =
        g.placed_more ∙ ap (λ l. l ++ g.news) f.placed_more ∙ append_assoc d.placed f.news g.news;
    answered_same = g.answered_same ∙ f.answered_same;
    closes = CloseAll-append ps qs f.news g.news f.closes g.closes;
    tells = λ n t.
        subst (λ k. Tells k a.0) (omega (arith, length-append ps qs))
          (g.tells (n + length ps) (f.tells n t));
  }

  close_position-Step :
      (b : B) (role : String) (p : Position) (r : SquareOffResult) (d : Desk S)
      → IsBounded p.quantity
      → Step (wanted (p ∷ [])) r d (close_position E id symbols b role p r d)
  unfolding close_position
  close_position-Step b role p r d h = elim (Bool-cases (is_wanted symbols p)) [
    | inl e ↦
        rw (e, close_position)
          (let now = ask E.desk E.desk.unix_time d in
            before_ask (p ∷ []) r d now.1.world _ (
              place_closing-Step b role p (squareoff_tag role (E.desk.uuid_text id) now.0) r now.1
                h))
    | inr e ↦ rw (e, close_position) (stay r d)
  ]

  wanted-cons : (p : Position) (ps : List Position) → wanted (p ∷ ps) ≡ wanted (p ∷ []) ++ wanted ps
  wanted-cons p ps = ground arith

  pub close_each-Step :
      (b : B) (role : String) (ps : List Position) (r : SquareOffResult) (d : Desk S)
      → All (λ (p : Position). IsBounded p.quantity) ps
      → Step (wanted ps) r d (close_each E id symbols b role ps r d)
  unfolding close_each
  close_each-Step b role [] r d h = stay r d
  close_each-Step b role (p ∷ ps) r d h =
      let one = close_position E id symbols b role p r d in
      subst (λ l. Step l r d (close_each E id symbols b role ps one.0 one.1))
        (sym (wanted-cons p ps))
        (follow (wanted (p ∷ [])) (wanted ps) r one.0 d one.1 _
          (close_position-Step b role p r d h.0) (close_each-Step b role ps one.0 one.1 h.1))
