-- ===== src/Rebalance/Balanced.antt =====
-- What calculateFollowerDrift reports, over all positions of the master and the follower.
use envoy_trade.Common.{
  ◌≡◌, ◌∙◌, refl, sym, ap, subst, arith, false, ◌⊎◌, inl, inr, Bool-cases, Option, none, some, List,
  [], ◌∷◌, In, ℤ, pos, eqb_ℤ, Result,
}
use envoy_trade.Domain.Decimal.{Numerics}
use envoy_trade.Rebalance.Drift.{
  Position, Key, key_of, same_key, SymbolDrift, Account, position_at, no_position, all_keys,
  clone_factor_of, max_qty_of, lot_size_or_one, target_of, product_of, drift_at, drifts_at,
  calculate_follower_drift,
}
use envoy_trade.Rebalance.Keys.{same_key-equal, Listed, tail_Listed, all_keys-Listed}
use envoy_trade.Rebalance.Closes.{Small, Closes, drift_to-Closes}
use envoy_trade.Rebalance.Goal.{OneAt, total_at, position_at-total, goal, target_of-goal}

-- The position is at its target, or a drift of the list brings it there.
abbrev pub Balanced : Key → ℤ → ℤ → List SymbolDrift → Type 0
Balanced k held target drifts =
    (held ≡ target) ⊎ ((d : SymbolDrift) × In d drifts × Closes k held target (some d))

abbrev held_at : List Position → Key → ℤ
held_at ps k = (position_at k ps no_position).quantity

module _ (N : Numerics) (lot_size : Key → Result ℤ) (account : Account)
    (master follower : List Position) where
  abbrev target_at : Key → ℤ
  target_at k =
      target_of N (clone_factor_of N account.clone_factor) (lot_size_or_one (lot_size k))
        (max_qty_of account.max_qty_per_order) (held_at master k)

  abbrev SmallAt : Key → Type 0
  SmallAt k = Small (target_at k) × Small (held_at follower k)

  abbrev ClosesAt : Key → Option SymbolDrift → Type 0
  ClosesAt k o = Closes k (held_at follower k) (target_at k) o

  abbrev BalancedAt : Key → List SymbolDrift → Type 0
  BalancedAt k drifts = Balanced k (held_at follower k) (target_at k) drifts

  drift_at-Closes :
      (k : Key) → SmallAt k → ClosesAt k (drift_at N lot_size account master follower k)
  unfolding drift_at
  drift_at-Closes k small =
      drift_to-Closes k
        (product_of (position_at k master no_position).product
          (position_at k follower no_position).product)
        (lot_size_or_one (lot_size k)) (held_at master k) (target_at k) (held_at follower k) small.0
        small.1

  at_head :
      (k : Key) (o : Option SymbolDrift) (rest : List SymbolDrift)
      → ClosesAt k o
      → BalancedAt k (elim o [ none ↦ rest | some d ↦ d ∷ rest ])
  at_head k none rest c = inl c
  at_head k (some d) rest c = inr (d, inl refl, c)

  behind :
      (k : Key) (o : Option SymbolDrift) (rest : List SymbolDrift)
      → BalancedAt k rest
      → BalancedAt k (elim o [ none ↦ rest | some d ↦ d ∷ rest ])
  behind k none rest f = f
  behind k (some e) rest (inl same) = inl same
  behind k (some e) rest (inr (d, h, c)) = inr (d, inr h, c)

  drifts_at-Balanced :
      (k : Key) (ks : List Key)
      → Listed k ks
      → SmallAt k
      → BalancedAt k (drifts_at N lot_size account master follower ks)
  unfolding drifts_at
  drifts_at-Balanced k [] h small = ground arith
  drifts_at-Balanced k (j ∷ ks) h small = elim (Bool-cases (same_key k j)) [
    | inl e ↦
        subst
          (λ i. BalancedAt k (elim (drift_at N lot_size account master follower i) [
            | none ↦ drifts_at N lot_size account master follower ks
            | some d ↦ d ∷ drifts_at N lot_size account master follower ks
          ]))
          (same_key-equal k j e) (at_head k _ _ (drift_at-Closes k small))
    | inr e ↦ behind k _ _ (drifts_at-Balanced k ks (tail_Listed k j ks h e) small)
  ]

  -- What the follower should hold of the symbol, by what the master holds of it.
  abbrev pub goal_at : Key → ℤ
  goal_at k =
      goal N (clone_factor_of N account.clone_factor) (lot_size_or_one (lot_size k))
        (max_qty_of account.max_qty_per_order) (total_at k master)

  -- Within 2^62 of zero: what both hold, and the quantity aimed at.
  abbrev pub FitsAt : Key → Type 0
  FitsAt k = Small (total_at k master) × Small (goal_at k) × Small (total_at k follower)

  -- For each position of the master or the follower that has a quantity: the sum of the follower's positions
  -- of its symbol is the quantity that SizeOrder gives for the sum of the master's, with the sign of that sum,
  -- and nothing where the master holds nothing; or a drift is reported that, added to the follower's sum, gives
  -- it, with BUY where that is more than the sum and SELL where it is less. Conditions: each of the two has at
  -- most one position of the symbol with a quantity, and the three quantities are within 2^62 of zero.
  pub calculate_follower_drift-Balanced :
      (p : Position)
      → In p master ⊎ In p follower
      → eqb_ℤ p.quantity (pos 0) ≡ false
      → OneAt (key_of p) master
      → OneAt (key_of p) follower
      → FitsAt (key_of p)
      → Balanced
          (key_of p)
          (total_at (key_of p) follower)
          (goal_at (key_of p))
          (calculate_follower_drift N lot_size account master follower)
  unfolding calculate_follower_drift
  calculate_follower_drift-Balanced p h z one other fits =
      let k = key_of p in
      let factor = clone_factor_of N account.clone_factor in
      let lot = lot_size_or_one (lot_size k) in
      let max = max_qty_of account.max_qty_per_order in
      let held = position_at-total k follower other in
      let aimed : target_at k ≡ goal_at k =
        ap (λ q. target_of N factor lot max q) (position_at-total k master one)
        ∙ target_of-goal N factor lot max (total_at k master) fits.0 fits.1 in
      let drifts = drifts_at N lot_size account master follower (all_keys master follower) in
      subst (λ x. Balanced k x (goal_at k) drifts) held
        (subst (λ x. Balanced k (held_at follower k) x drifts) aimed
          (drifts_at-Balanced k (all_keys master follower) (all_keys-Listed p master follower h z)
            (subst Small (sym aimed) fits.1, subst Small (sym held) fits.2)))
