-- ===== src/Squareoff/Outcome.antt =====
-- SquareOffAccount as a whole.
use envoy_trade.Common.{
  ℕ, ◌≡◌, refl, sym, ap, subst, ◌∙◌, arith, Bool, ◌&&◌, String, str_eq, List, [], ◌∷◌, ◌++◌, select,
  length, All, Result, ok, err, Error, if_cases,
}
use envoy_trade.Common.State.{State, pure}
use envoy_trade.Domain.Types.{Uuid}
use envoy_trade.Worker.Parts.{OrderParams}
use envoy_trade.Recon.Master.{Order}
use envoy_trade.Rebalance.Drift.{Position}
use envoy_trade.Desk.{
  Desk, is_auth_error, ask, note_answer, read_positions, with_refreshed, after_sync,
  retry_positions, get_positions_with_retry,
}
use envoy_trade.Squareoff.Account.{
  SquareOffResult, SquareoffEnv, match_symbol, is_wanted, new_result, settled, cancel_one,
  cancel_each, cancel_open, close_each, close_all, with_broker, resolve_for, if_enabled, for_role,
  square_off_account,
}
use envoy_trade.Squareoff.Flat.{IsBounded, CloseAll}
use envoy_trade.Squareoff.Receipts.{Tells, settled-Tells}
use envoy_trade.Squareoff.Closings.{close_each-Step}
use envoy_trade.Desk.Quiet.{sync_after-Quiet}

abbrev pub AreBounded : Result (List Position) → Type 0
AreBounded (err e) = Unit
AreBounded (ok ps) = All (λ (p : Position). IsBounded p.quantity) ps

-- What came of it: an error, and nothing was placed; or a result, and the orders that were placed close
-- the wanted ones of the positions that the broker answered.
abbrev pub Outcome : {S : Type 0} → List String → Desk S → Result SquareOffResult × Desk S → Type 0
Outcome symbols d (err e, e') = e'.placed ≡ d.placed
Outcome symbols d (ok r, e') =
    (news : List OrderParams) × (e'.placed ≡ d.placed ++ news)
    × CloseAll (select (is_wanted symbols) e'.answered) news
    × Tells (length (select (is_wanted symbols) e'.answered)) r

module _ {B S : Type 0} (E : SquareoffEnv B S) (id : Uuid) (symbols : List String) where
  cancel_one_placed :
      (b : B) (o : Order) (n : ℕ) (d : Desk S)
      → (cancel_one E id symbols b o n d).1.placed ≡ d.placed
  unfolding cancel_one
  cancel_one_placed b o n d =
      if_cases (λ (a : State (Desk S) ℕ). (a d).1.placed ≡ d.placed)
        (match_symbol o.tradingsymbol symbols) _ (pure n) (λ _. refl) (λ _. refl)

  cancel_each_placed :
      (b : B) (os : List Order) (n : ℕ) (d : Desk S)
      → (cancel_each E id symbols b os n d).1.placed ≡ d.placed
  unfolding cancel_each
  cancel_each_placed b [] n d = refl
  cancel_each_placed b (o ∷ os) n d =
      let one = cancel_one E id symbols b o n d in
      cancel_each_placed b os one.0 one.1 ∙ cancel_one_placed b o n d

  cancel_open_placed :
      (b : B) (os : Result (List Order)) (d : Desk S)
      → (cancel_open E id symbols b os d).1.placed ≡ d.placed
  unfolding cancel_open
  cancel_open_placed b (err e) d = refl
  cancel_open_placed b (ok os) d = cancel_each_placed b os 0 d

  module _ (bounded : (b : B) (s : S) → AreBounded (E.desk.get_positions b s).0) where
    abbrev Answered : Result (List Position) → Desk S → Type 0
    Answered (err e) d = Unit
    Answered (ok ps) d = (d.answered ≡ ps) × AreBounded (ok ps)

    -- Positions were read, and the desk knows the answer.
    record Got (d : Desk S) (a : (Result (List Position) × B) × Desk S) : Type 0 where
      placed_same : a.1.placed ≡ d.placed
      answer : Answered a.0.0 a.1

    noted-Got :
        (b : B) (r : Result (List Position)) (d : Desk S)
        → AreBounded r
        → Got d ((r, b), (note_answer E.desk r d).1)
    noted-Got b (err e) d h = record { placed_same = refl; answer = tt }
    noted-Got b (ok ps) d h = record { placed_same = refl; answer = (refl, h) }

    read-Got :
        (b : B) (d : Desk S)
        → Got d (((read_positions E.desk b d).0, b), (read_positions E.desk b d).1)
    unfolding read_positions
    read-Got b d =
        let r = E.desk.get_positions b d.world in
        let g = noted-Got b r.0 (record d { world = r.1 }) (bounded b d.world) in
        record { placed_same = g.placed_same; answer = g.answer }

    with_refreshed-Got :
        (b : B) (e : Error) (r : Result B) (d : Desk S)
        → Got d (with_refreshed E.desk b (err e) r d)
    unfolding with_refreshed
    with_refreshed-Got b e (err x) d = record { placed_same = refl; answer = tt }
    with_refreshed-Got b e (ok fresh) d = read-Got fresh d

    after_sync-Got :
        (b : B) (e : Error) (r : Result (Unit {0})) (d : Desk S)
        → Got d (after_sync E.desk id b (err e) r d)
    unfolding after_sync
    after_sync-Got b e (err x) d = record { placed_same = refl; answer = tt }
    after_sync-Got b e (ok u) d =
        let r = ask E.desk (E.desk.resolve_broker id) d in
        let g = with_refreshed-Got b e r.0 r.1 in
        record { placed_same = g.placed_same; answer = g.answer }

    retry-Got :
        (b : B) (r : Result (List Position)) (d e : Desk S)
        → Got d ((r, b), e)
        → Got d (retry_positions E.desk id b r e)
    unfolding retry_positions
    retry-Got b (ok ps) d e g = g
    retry-Got b (err x) d e g =
        if_cases (λ (a : State (Desk S) (Result (List Position) × B)). Got d (a e))
          (E.desk.has_syncer && is_auth_error x) _ (pure (err x, b))
          (λ _.
            let r = ask E.desk (E.desk.sync_portfolio id) e in
            let h = after_sync-Got b x r.0 r.1 in
            record { placed_same = h.placed_same ∙ g.placed_same; answer = h.answer })
          (λ _. g)

    get_positions-Got : (b : B) (d : Desk S) → Got d (get_positions_with_retry E.desk id b d)
    unfolding get_positions_with_retry
    get_positions-Got b d =
        let r = read_positions E.desk b d in retry-Got b r.0 d r.1 (read-Got b d)

    new-Tells :
        (role : String) (n : ℕ) → Tells 0 (record (new_result id role) { cancelled_orders = n })
    unfolding new_result
    new-Tells role n = record { counted = omega arith; listed = refl; told = refl }

    close_all-Outcome :
        (role : String) (r : SquareOffResult) (got : Result (List Position) × B) (d e : Desk S)
        → Tells 0 r
        → Got d (got, e)
        → Outcome symbols d (close_all E id symbols role r got e)
    unfolding close_all
    close_all-Outcome role r (err x, b) d e t g = g.placed_same
    close_all-Outcome role r (ok ps, b) d e t g =
        let done = close_each E id symbols b role ps r e in
        let f = close_each-Step E id symbols b role ps r e g.answer.1 in
        let q = sync_after-Quiet E.desk id done.1 in
        let same = q.answered_same ∙ f.answered_same ∙ g.answer.0 in
        (
          f.news,
          q.placed_same ∙ f.placed_more ∙ ap (λ l. l ++ f.news) g.placed_same,
          subst (λ l. CloseAll (select (is_wanted symbols) l) f.news) (sym same) f.closes,
          subst (λ l. Tells (length (select (is_wanted symbols) l)) (settled done.0)) (sym same)
              (settled-Tells _ done.0 (subst (λ n. Tells n done.0) (omega arith) (f.tells 0 t))),
        )

    Outcome-from :
        (c d : Desk S) (a : Result SquareOffResult × Desk S)
        → d.placed ≡ c.placed
        → Outcome symbols d a
        → Outcome symbols c a
    Outcome-from c d (err x, e) h o = o ∙ h
    Outcome-from c d (ok r, e) h (news, placed, closes, tells) =
        (news, placed ∙ ap (λ l. l ++ news) h, closes, tells)

    with_broker-Outcome :
        (role : String) (b : Result B) (d : Desk S)
        → Outcome symbols d (with_broker E id symbols role b d)
    unfolding with_broker
    with_broker-Outcome role (err x) d = refl
    with_broker-Outcome role (ok b) d =
        let opens = ask E.desk (E.desk.get_open_orders b) d in
        let n = cancel_open E id symbols b opens.0 opens.1 in
        let got = get_positions_with_retry E.desk id b n.1 in
        Outcome-from d n.1
          (close_all E id symbols role (record (new_result id role) { cancelled_orders = n.0 })
            got.0 got.1)
          (cancel_open_placed b opens.0 opens.1)
          (close_all-Outcome role _ got.0 n.1 got.1 (new-Tells role n.0) (get_positions-Got b n.1))

    resolve_for-Outcome :
        (role : String) (d : Desk S) → Outcome symbols d (resolve_for E id symbols role d)
    unfolding resolve_for
    resolve_for-Outcome role d =
        let r = ask E.desk (E.desk.resolve_broker id) d in
        Outcome-from d r.1 (with_broker E id symbols role r.0 r.1) refl
          (with_broker-Outcome role r.0 r.1)

    if_enabled-Outcome :
        (role : String) (r : Result (List Bool)) (d : Desk S)
        → Outcome symbols d (if_enabled E id symbols role r d)
    unfolding if_enabled
    if_enabled-Outcome role (err x) d = refl
    if_enabled-Outcome role (ok []) d = refl
    if_enabled-Outcome role (ok (enabled ∷ more)) d =
        if_cases (λ (a : State (Desk S) (Result SquareOffResult)). Outcome symbols d (a d)) enabled
          _ _ (λ _. resolve_for-Outcome role d) (λ _. refl)

    for_role-Outcome :
        (r : Result String) (d : Desk S) → Outcome symbols d (for_role E id symbols r d)
    unfolding for_role
    for_role-Outcome (err x) d = refl
    for_role-Outcome (ok role) d =
        if_cases (λ (a : State (Desk S) (Result SquareOffResult)). Outcome symbols d (a d))
          (str_eq role "follower") _ _
          (λ _.
            let r = ask E.desk (E.account_enabled id) d in
            Outcome-from d r.1 (if_enabled E id symbols role r.0 r.1) refl
              (if_enabled-Outcome role r.0 r.1))
          (λ _. resolve_for-Outcome role d)

    -- Whatever the store, the broker and the syncer answer: SquareOffAccount returns an error and has placed
    -- no order, or a result, and then it has placed one market order for each position that the broker
    -- answered last, has a quantity and is of a wanted symbol, in order, each with the position's exchange,
    -- symbol and product and the side and quantity that bring it to zero, failed ones included; the result
    -- counts the accepted orders and the errors, as many together as there are such positions, and its status
    -- is "completed" exactly when there are no errors. No quantity that a broker answers is the least int64.
    pub square_off_account-Outcome :
        (d : Desk S) → Outcome symbols d (square_off_account E id symbols d)
    unfolding square_off_account
    square_off_account-Outcome d =
        let r = ask E.desk (E.account_role id) d in
        Outcome-from d r.1 (for_role E id symbols r.0 r.1) refl (for_role-Outcome r.0 r.1)
