-- ===== src/Rebalance/Outcome.antt =====
-- RebalanceAccount as a whole.
use envoy_trade.Common.{
  ℕ, ◌≡◌, refl, sym, subst, ◌∙◌, ap, arith, true, List, [], ◌∷◌, ◌++◌, length, All, Result, ok, err,
  Error, if_cases,
}
use mathlib.Core.List.{append-nil}
use envoy_trade.Common.State.{State, pure, or_return}
use envoy_trade.Domain.Types.{Uuid}
use envoy_trade.Worker.Parts.{OrderParams}
use envoy_trade.Recon.Master.{Order}
use envoy_trade.Rebalance.Drift.{SymbolDrift}
use envoy_trade.Desk.{Desk, ask}
use envoy_trade.Desk.Quiet.{sync_after-Quiet}
use envoy_trade.Squareoff.Flat.{IsBounded}
use envoy_trade.Rebalance.Account.{
  RebalanceEnv, FollowerDrift, RebalanceResult, new_result, compute_account_diff, is_drifting,
  cancel_drifting, cancel_each, cancel_open, correct_each, correct_all, correct, after_diff,
  rebalance_account,
}
use envoy_trade.Rebalance.Orders.{CorrectAll, IsSound, Tells, correct_each-Step}
use envoy_trade.Rebalance.Made.{IsMade, Computed, compute_account_diff-Computed}

abbrev pub AreBounded : Result FollowerDrift → Type 0
AreBounded (err e) = Unit
AreBounded (ok f) = All (λ (s : SymbolDrift). IsBounded s.drift_qty) f.symbols

-- What came of drifts, from a desk: an error, and nothing was placed; or a result.
abbrev pub After : {S : Type 0} → FollowerDrift → Desk S → Result RebalanceResult × Desk S → Type 0
After f d (err e, e') = e'.placed ≡ d.placed
After f d (ok r, e') =
    (f.enabled ≡ true)
    × ((news : List OrderParams) × (e'.placed ≡ d.placed ++ news)
        × CorrectAll f.symbols news
        × Tells (length f.symbols) r)

-- What came of a computed difference.
abbrev pub Outcome :
    {S : Type 0} → Desk S → Result FollowerDrift → Result RebalanceResult × Desk S → Type 0
Outcome d (err e) a = (a.0 ≡ err e) × (a.1.placed ≡ d.placed)
Outcome d (ok f) a = After f d a

All-IsSound :
    (ss : List SymbolDrift)
    → All IsMade ss
    → All (λ (s : SymbolDrift). IsBounded s.drift_qty) ss
    → All IsSound ss
All-IsSound [] h k = tt
All-IsSound (s ∷ ss) h k = ((h.0.0, h.0.1, k.0), All-IsSound ss h.1 k.1)

module _ {B S : Type 0} (E : RebalanceEnv B S) (id : Uuid) where
  cancel_drifting_placed :
      (b : B) (ss : List SymbolDrift) (o : Order) (n : ℕ) (d : Desk S)
      → (cancel_drifting E id b ss o n d).1.placed ≡ d.placed
  unfolding cancel_drifting
  cancel_drifting_placed b ss o n d =
      if_cases (λ (a : State (Desk S) ℕ). (a d).1.placed ≡ d.placed)
        (is_drifting ss o.tradingsymbol) _ (pure n) (λ _. refl) (λ _. refl)

  cancel_each_placed :
      (b : B) (ss : List SymbolDrift) (os : List Order) (n : ℕ) (d : Desk S)
      → (cancel_each E id b ss os n d).1.placed ≡ d.placed
  unfolding cancel_each
  cancel_each_placed b ss [] n d = refl
  cancel_each_placed b ss (o ∷ os) n d =
      let one = cancel_drifting E id b ss o n d in
      cancel_each_placed b ss os one.0 one.1 ∙ cancel_drifting_placed b ss o n d

  cancel_open_placed :
      (b : B) (ss : List SymbolDrift) (os : Result (List Order)) (d : Desk S)
      → (cancel_open E id b ss os d).1.placed ≡ d.placed
  unfolding cancel_open
  cancel_open_placed b ss (err e) d = refl
  cancel_open_placed b ss (ok os) d = cancel_each_placed b ss os 0 d

  new-Tells : (n : ℕ) → Tells 0 (record (new_result id) { cancelled_orders = n })
  unfolding new_result
  new-Tells n = record { counted = omega arith; listed = refl; told = refl }

  correct_all-After :
      (f : FollowerDrift) (b : B) (d : Desk S)
      → f.enabled ≡ true
      → All IsSound f.symbols
      → After f d (correct_all E id f.symbols b d)
  unfolding correct_all
  correct_all-After f b d h sound =
      let opens = ask E.desk (E.desk.get_open_orders b) d in
      let n = cancel_open E id b f.symbols opens.0 opens.1 in
      let start = record (new_result id) { cancelled_orders = n.0 } in
      let done = correct_each E id b f.symbols start n.1 in
      let g = correct_each-Step E id b f.symbols start n.1 sound in
      (
        h,
        (
          g.news,
          (sync_after-Quiet E.desk id done.1).placed_same
              ∙ g.placed_more
              ∙ ap (λ l. l ++ g.news) (cancel_open_placed b f.symbols opens.0 opens.1),
          g.corrects,
          subst (λ k. Tells k done.0) (omega arith) (g.tells 0 (new-Tells n.0)),
        ),
      )

  resolved-After :
      (f : FollowerDrift) (ss : List SymbolDrift) (g : Error → Error) (r : Result B) (d : Desk S)
      → f.symbols ≡ ss
      → f.enabled ≡ true
      → All IsSound f.symbols
      → After f d (or_return g (correct_all E id ss) r d)
  resolved-After f ss g (err e) d same h sound = refl
  resolved-After f ss g (ok b) d same h sound =
      subst (λ l. After f d (correct_all E id l b d)) same (correct_all-After f b d h sound)

  After-from :
      (f : FollowerDrift) (c d : Desk S) (a : Result RebalanceResult × Desk S)
      → d.placed ≡ c.placed
      → After f d a
      → After f c a
  After-from f c d (err x, e) h o = o ∙ h
  After-from f c d (ok r, e) h (en, (news, placed, corrects, tells)) =
      (en, (news, placed ∙ ap (λ l. l ++ news) h, corrects, tells))

  nothing_to_do :
      (f : FollowerDrift) (d : Desk S)
      → f.symbols ≡ []
      → f.enabled ≡ true
      → After f d (ok (new_result id), d)
  unfolding new_result
  nothing_to_do f d same h = (
    h,
    (
      [],
      sym (append-nil d.placed),
      subst (λ l. CorrectAll l []) (sym same) tt,
      subst (λ l. Tells (length l) (new_result id)) (sym same) (new-Tells 0),
    ),
  )

  correct-After :
      (f : FollowerDrift) (ss : List SymbolDrift) (d : Desk S)
      → f.symbols ≡ ss
      → f.enabled ≡ true
      → All IsSound f.symbols
      → After f d (correct E id ss d)
  unfolding correct
  correct-After f [] d same h sound = nothing_to_do f d same h
  correct-After f (s ∷ ss) d same h sound =
      let r = ask E.desk (E.desk.resolve_broker id) d in
      After-from f d r.1 (or_return _ (correct_all E id (s ∷ ss)) r.0 r.1) refl
        (resolved-After f (s ∷ ss) _ r.0 r.1 same h sound)

  after_diff-After :
      (f : FollowerDrift) (d : Desk S) → All IsSound f.symbols → After f d (after_diff E id f d)
  unfolding after_diff
  after_diff-After f d sound =
      if_cases (λ (a : State (Desk S) (Result RebalanceResult)). After f d (a d)) f.enabled _ _
        (λ h. correct-After f f.symbols d refl h sound) (λ _. refl)

  after_compute :
      (c : Desk S) (r : Result FollowerDrift) (d : Desk S)
      → Computed c (r, d)
      → AreBounded r
      → Outcome c r (or_return (λ e. e) (after_diff E id) r d)
  after_compute c (err e) d g h = (refl, g.placed_same)
  after_compute c (ok f) d g h =
      After-from f c d (after_diff E id f d) g.placed_same
        (after_diff-After f d (All-IsSound f.symbols g.made h))

  -- Whatever the store, the brokers and the syncer answer, RebalanceAccount returns the error of
  -- ComputeAccountDiff and has placed no order; or an error of its own, and has placed none; or a result, and
  -- then the follower is enabled and it has placed one market order for each reported drift, in order, each
  -- with the drift's exchange, symbol and product and the side and quantity that buy the drift, failed ones
  -- included; the result counts the accepted orders and the errors, as many together as there are drifts, and
  -- its status is "completed" exactly when there are no errors. No drift is the least int64.
  pub rebalance_account-Outcome :
      (d : Desk S)
      → AreBounded (compute_account_diff E id d).0
      → Outcome d (compute_account_diff E id d).0 (rebalance_account E id d)
  unfolding rebalance_account
  rebalance_account-Outcome d h =
      let r = compute_account_diff E id d in
      after_compute d r.0 r.1 (compute_account_diff-Computed E id d) h
