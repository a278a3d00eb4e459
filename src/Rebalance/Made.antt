-- ===== src/Rebalance/Made.antt =====
-- What ComputeAccountDiff reports, and that it places no order.
use envoy_trade.Common.{
  ◌≡◌, refl, ◌∙◌, false, ◌&&◌, String, Option, none, some, List, [], ◌∷◌, All, ℤ, pos, ◌-ℤ◌, eqb_ℤ,
  wrap64, Result, ok, err, Error, Bool-cases, inl, inr, if_cases,
}
use envoy_trade.Common.State.{State, pure, or_return}
use envoy_trade.Domain.Decimal.{Numerics}
use envoy_trade.Domain.Types.{Uuid}
use envoy_trade.Rebalance.Drift.{
  Position, Key, SymbolDrift, Account, action_of, drift_to, drift_at, drifts_at, all_keys,
  calculate_follower_drift,
}
use envoy_trade.Desk.{
  DeskEnv, Desk, is_auth_error, ask, note_answer, read_positions, with_refreshed, after_sync,
  retry_positions, get_positions_with_retry,
}
use envoy_trade.Rebalance.Account.{
  Follower, RebalanceEnv, FollowerDrift, diff_of, read_follower, read_both, with_master_broker,
  diff_against, diff_for, compute_account_diff,
}

-- The action goes by the sign of a quantity that is not zero.
abbrev pub IsMade : SymbolDrift → Type 0
IsMade s = (s.action ≡ action_of s.drift_qty) × (eqb_ℤ s.drift_qty (pos 0) ≡ false)

abbrev MadeIfSome : Option SymbolDrift → Type 0
MadeIfSome none = Unit
MadeIfSome (some s) = IsMade s

drift_to-IsMade :
    (k : Key) (product : String) (lot m t f : ℤ) → MadeIfSome (drift_to k product lot m t f)
unfolding drift_to
drift_to-IsMade k product lot m t f = elim (Bool-cases (eqb_ℤ (wrap64 (t -ℤ f)) (pos 0))) [
  | inl e ↦ rw e tt
  | inr e ↦ rw e (refl, e)
]

module _ (N : Numerics) (lot_size : Key → Result ℤ) (account : Account)
    (master follower : List Position) where
  cons_if_some :
      (d : Option SymbolDrift) (rest : List SymbolDrift)
      → MadeIfSome d
      → All IsMade rest
      → All IsMade (elim d [ none ↦ rest | some s ↦ s ∷ rest ])
  cons_if_some none rest h k = k
  cons_if_some (some s) rest h k = (h, k)

  drifts_at-IsMade : (ks : List Key) → All IsMade (drifts_at N lot_size account master follower ks)
  unfolding drifts_at drift_at
  drifts_at-IsMade [] = tt
  drifts_at-IsMade (k ∷ ks) =
      cons_if_some (drift_at N lot_size account master follower k) _ (drift_to-IsMade k _ _ _ _ _)
        (drifts_at-IsMade ks)

  calculate-IsMade : All IsMade (calculate_follower_drift N lot_size account master follower)
  unfolding calculate_follower_drift
  calculate-IsMade = drifts_at-IsMade (all_keys master follower)

abbrev AllMade : Result FollowerDrift → Type 0
AllMade (err e) = Unit
AllMade (ok f) = All IsMade f.symbols

-- Nothing was placed, and what is reported is made.
pub record Computed {S : Type 0} (d : Desk S) (a : Result FollowerDrift × Desk S) : Type 0 where
  pub placed_same : a.1.placed ≡ d.placed
  pub made : AllMade a.0

module _ {B S : Type 0} (D : DeskEnv B S) (id : Uuid) where
  note_answer_placed :
      (r : Result (List Position)) (d : Desk S) → (note_answer D r d).1.placed ≡ d.placed
  note_answer_placed (err e) d = refl
  note_answer_placed (ok ps) d = refl

  read_positions_placed : (b : B) (d : Desk S) → (read_positions D b d).1.placed ≡ d.placed
  unfolding read_positions
  read_positions_placed b d =
      let r = D.get_positions b d.world in note_answer_placed r.0 (record d { world = r.1 })

  with_refreshed_placed :
      (b : B) (first : Result (List Position)) (r : Result B) (d : Desk S)
      → (with_refreshed D b first r d).1.placed ≡ d.placed
  unfolding with_refreshed
  with_refreshed_placed b first (err e) d = refl
  with_refreshed_placed b first (ok fresh) d = read_positions_placed fresh d

  after_sync_placed :
      (b : B) (first : Result (List Position)) (r : Result (Unit {0})) (d : Desk S)
      → (after_sync D id b first r d).1.placed ≡ d.placed
  unfolding after_sync
  after_sync_placed b first (err e) d = refl
  after_sync_placed b first (ok u) d =
      let r = ask D (D.resolve_broker id) d in with_refreshed_placed b first r.0 r.1

  retry_positions_placed :
      (b : B) (r : Result (List Position)) (d : Desk S)
      → (retry_positions D id b r d).1.placed ≡ d.placed
  unfolding retry_positions
  retry_positions_placed b (ok ps) d = refl
  retry_positions_placed b (err e) d =
      if_cases (λ (a : State (Desk S) (Result (List Position) × B)). (a d).1.placed ≡ d.placed)
        (D.has_syncer && is_auth_error e) _ (pure (err e, b))
        (λ _. let r = ask D (D.sync_portfolio id) d in after_sync_placed b (err e) r.0 r.1)
        (λ _. refl)

  pub get_positions_placed :
      (b : B) (d : Desk S) → (get_positions_with_retry D id b d).1.placed ≡ d.placed
  unfolding get_positions_with_retry
  get_positions_placed b d =
      let r = read_positions D b d in retry_positions_placed b r.0 r.1 ∙ read_positions_placed b d

module _ {B S : Type 0} (E : RebalanceEnv B S) (id : Uuid) where
  Computed-from :
      (c d : Desk S) (a : Result FollowerDrift × Desk S)
      → d.placed ≡ c.placed
      → Computed d a
      → Computed c a
  Computed-from c d a h g = record { placed_same = g.placed_same ∙ h; made = g.made }

  failed-Computed : (e : Error) (d : Desk S) → Computed d (err e, d)
  failed-Computed e d = record { placed_same = refl; made = tt }

  diff_of-Computed :
      (f : Follower) (master : List Position) (r : Result (List Position) × B) (d : Desk S)
      → Computed d (diff_of E id f master r d)
  unfolding diff_of
  diff_of-Computed f master (err e, b) d = failed-Computed _ d
  diff_of-Computed f master (ok mine, b) d = record {
    placed_same = refl;
    made = calculate-IsMade E.numerics (E.lot_size d.world) f.account master mine;
  }

  read_follower-Computed :
      (f : Follower) (b : B) (r : Result (List Position) × B) (d : Desk S)
      → Computed d (read_follower E id f b r d)
  unfolding read_follower
  read_follower-Computed f b (err e, c) d = failed-Computed _ d
  read_follower-Computed f b (ok master, c) d =
      let r = get_positions_with_retry E.desk id b d in
      Computed-from d r.1 (diff_of E id f master r.0 r.1) (get_positions_placed E.desk id b d)
        (diff_of-Computed f master r.0 r.1)

  or_return-Computed :
      {A : Type 0}
      → (g : Error → Error) (k : A → State (Desk S) (Result FollowerDrift)) (r : Result A)
        (d : Desk S)
      → ((a : A) → Computed d (k a d))
      → Computed d (or_return g k r d)
  or_return-Computed g k (err e) d h = failed-Computed (g e) d
  or_return-Computed g k (ok a) d h = h a

  read_both-Computed :
      (f : Follower) (master_id : Uuid) (m b : B) (d : Desk S)
      → Computed d (read_both E id f master_id m b d)
  unfolding read_both
  read_both-Computed f master_id m b d =
      let r = get_positions_with_retry E.desk master_id m d in
      Computed-from d r.1 (read_follower E id f b r.0 r.1)
        (get_positions_placed E.desk master_id m d) (read_follower-Computed f b r.0 r.1)

  with_master_broker-Computed :
      (f : Follower) (master_id : Uuid) (m : B) (d : Desk S)
      → Computed d (with_master_broker E id f master_id m d)
  unfolding with_master_broker
  with_master_broker-Computed f master_id m d =
      let r = ask E.desk (E.desk.resolve_broker id) d in
      Computed-from d r.1 (or_return _ (read_both E id f master_id m) r.0 r.1) refl (
        or_return-Computed _ (read_both E id f master_id m) r.0 r.1
          (λ b. read_both-Computed f master_id m b r.1))

  diff_against-Computed :
      (f : Follower) (master_id : Option Uuid) (d : Desk S)
      → Computed d (diff_against E id f master_id d)
  unfolding diff_against
  diff_against-Computed f none d = failed-Computed _ d
  diff_against-Computed f (some master_id) d =
      let r = ask E.desk (E.desk.resolve_broker master_id) d in
      Computed-from d r.1 (or_return _ (with_master_broker E id f master_id) r.0 r.1) refl (
        or_return-Computed _ (with_master_broker E id f master_id) r.0 r.1
          (λ b. with_master_broker-Computed f master_id b r.1))

  diff_for-Computed : (fs : List Follower) (d : Desk S) → Computed d (diff_for E id fs d)
  unfolding diff_for
  diff_for-Computed [] d = failed-Computed _ d
  diff_for-Computed (f ∷ fs) d = diff_against-Computed f _ d

  pub compute_account_diff-Computed : (d : Desk S) → Computed d (compute_account_diff E id d)
  unfolding compute_account_diff
  compute_account_diff-Computed d =
      let r = ask E.desk (E.accounts id) d in
      Computed-from d r.1 (or_return _ (diff_for E id) r.0 r.1) refl
        (or_return-Computed _ (diff_for E id) r.0 r.1 (λ fs. diff_for-Computed fs r.1))
