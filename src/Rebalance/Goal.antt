-- ===== src/Rebalance/Goal.antt =====
-- What an account holds of a symbol, and what it aims at, said without calculateFollowerDrift's maps.
use envoy_trade.Common.{
  ℕ, zero, suc, ◌≤◌, ◌<◌, ◌^◌, ◌≡◌, refl, sym, ap, ◌∙◌, arith, inl, inr, Bool, true, false, ◌&&◌,
  not, str_eq, List, [], ◌∷◌, count_if, ℤ, pos, negsuc, neg, ltb_ℤ, ◌+ℤ◌, +ℤ-zero, zero-+ℤ, eqb_ℤ,
  eqb_ℤ→eq, eqb_ℤ_refl, wrap64, wrap64_fits, Bool-cases, if_true, if_false, if◌then◌else◌,
}
use envoy_trade.Domain.Decimal.{Decimal, Numerics}
use envoy_trade.Domain.Types.{SizingReason}
use envoy_trade.Domain.Sizing.{size_order}
use envoy_trade.Domain.Sizing.Caps.{size_order_reason}
use envoy_trade.Rebalance.Drift.{
  Position, Key, key_of, same_key, abs, position_at, no_position, is_sized, signed_target,
  target_of,
}
use envoy_trade.Rebalance.Closes.{Small, wrap64_within}

abbrev pub is_at : Key → Position → Bool
is_at k p = str_eq p.exchange k.exchange && str_eq p.tradingsymbol k.symbol

abbrev pub counts_at : Key → Position → Bool
counts_at k p = is_at k p && not (eqb_ℤ p.quantity (pos 0))

-- The sum of the quantities of the symbol.
abbrev pub total_at : Key → List Position → ℤ
total_at k [] = pos 0
total_at k (p ∷ ps) = let rest = total_at k ps in if is_at k p then p.quantity +ℤ rest else rest

-- At most one position with a quantity is of the symbol.
abbrev pub OneAt : Key → List Position → Type 0
OneAt k ps = count_if (counts_at k) ps ≤ 1

kept_test : (a b : Bool) → (a && not b) ≡ true → (not b && a) ≡ true
kept_test a b h = ground arith

kept_test_not : (a b : Bool) → (a && not b) ≡ false → (not b && a) ≡ false
kept_test_not a b h = ground arith

-- A position that does not count adds nothing to the total.
total_skips :
    (k : Key) (p : Position) (ps : List Position)
    → counts_at k p ≡ false
    → total_at k (p ∷ ps) ≡ total_at k ps
total_skips k p ps h = elim (Bool-cases (is_at k p)) [
  | inr e ↦ rw e refl
  | inl e ↦
      let zero : p.quantity ≡ pos 0 = eqb_ℤ→eq p.quantity (pos 0) (ground (arith, h, e)) in
      rw (e, zero) (zero-+ℤ (total_at k ps))
]

position_skips :
    (k : Key) (p : Position) (ps : List Position) (found : Position)
    → counts_at k p ≡ false
    → position_at k (p ∷ ps) found ≡ position_at k ps found
unfolding position_at same_key key_of
position_skips k p ps found h =
    if_false (λ f. position_at k ps f ≡ position_at k ps found) _ p found
      (kept_test_not (is_at k p) (eqb_ℤ p.quantity (pos 0)) h) refl

position_takes :
    (k : Key) (p : Position) (ps : List Position) (found : Position)
    → counts_at k p ≡ true
    → position_at k (p ∷ ps) found ≡ position_at k ps p
unfolding position_at same_key key_of
position_takes k p ps found h =
    if_true (λ f. position_at k ps f ≡ position_at k ps p) _ p found
      (kept_test (is_at k p) (eqb_ℤ p.quantity (pos 0)) h) refl

no_more :
    (k : Key) (ps : List Position) (found : Position)
    → count_if (counts_at k) ps ≡ 0
    → (position_at k ps found ≡ found) × (total_at k ps ≡ pos 0)
unfolding position_at
no_more k [] found h = (refl, refl)
no_more k (p ∷ ps) found h = elim (Bool-cases (counts_at k p)) [
  | inl e ↦
      absurd (if_true (λ n. n ≡ 0 → ⊥) _ _ (count_if (counts_at k) ps) e (λ z. omega (arith, z)) h)
  | inr e ↦
      let rest = no_more k ps found (
        if_false (λ n. n ≡ 0 → count_if (counts_at k) ps ≡ 0) _ (suc (count_if (counts_at k) ps)) _
          e (λ z. z) h) in
      (position_skips k p ps found e ∙ rest.0, total_skips k p ps e ∙ rest.1)
]

-- With one position of the symbol, the position that the map holds has the total.
pub position_at-total :
    (k : Key) (ps : List Position)
    → OneAt k ps
    → (position_at k ps no_position).quantity ≡ total_at k ps
unfolding position_at
position_at-total k [] h = refl
position_at-total k (p ∷ ps) h = elim (Bool-cases (counts_at k p)) [
  | inr e ↦
      ap (λ q. q.quantity) (position_skips k p ps no_position e)
      ∙ position_at-total k ps
          (if_false (λ n. n ≤ 1 → OneAt k ps) _ (suc (count_if (counts_at k) ps)) _ e (λ z. z) h)
      ∙ sym (total_skips k p ps e)
  | inl e ↦
      let rest = no_more k ps p (
        if_true (λ n. n ≤ 1 → count_if (counts_at k) ps ≡ 0) _ _ (count_if (counts_at k) ps) e
          (λ z. omega (arith, z)) h) in
      let here : is_at k p ≡ true = ground (arith, e) in
      ap (λ q. q.quantity) (position_takes k p ps no_position e ∙ rest.0)
      ∙ sym (+ℤ-zero p.quantity)
      ∙ sym (
          if_true (λ t. t ≡ p.quantity +ℤ pos 0) _ (p.quantity +ℤ total_at k ps) _ here
            (ap (λ t. p.quantity +ℤ t) rest.1))
]

-- The quantity that SizeOrder gives, with the master's sign.
abbrev pub goal : Numerics → Decimal → ℤ → ℤ → ℤ → ℤ
goal N factor lot max (pos zero) = pos 0
goal N factor lot max (pos (suc n)) = (size_order N (pos (suc n)) factor lot max).0
goal N factor lot max (negsuc n) = neg (size_order N (pos (suc n)) factor lot max).0

unsized :
    (N : Numerics) (m : ℤ) (ratio : Decimal) (lot max : ℤ)
    → let r = size_order N m ratio lot max in is_sized r.1 ≡ false → r.0 ≡ pos 0
unsized N m ratio lot max h =
    let r = size_order N m ratio lot max in
    elim (Bool-cases (eqb_ℤ r.0 (pos 0))) [
      | inl e ↦ eqb_ℤ→eq r.0 (pos 0) e
      | inr e ↦
          let placed =
            (size_order_reason N m ratio lot max).0 (λ z. cc (z, e, eqb_ℤ_refl (pos 0))) in
          elim placed [ inl o ↦ absurd (cc (o, h)) | inr c ↦ absurd (cc (c, h)) ]
    ]

long_target :
    (m q : ℤ) (r : SizingReason)
    → (is_sized r ≡ false → q ≡ pos 0)
    → ltb_ℤ (pos 0) m ≡ true
    → signed_target m (q, r) ≡ q
unfolding signed_target
long_target m q r f h = elim (Bool-cases (is_sized r)) [
  | inl e ↦ rw (e, h) refl
  | inr e ↦ rw e (sym (f e))
]

short_target :
    (m q : ℤ) (r : SizingReason)
    → (is_sized r ≡ false → q ≡ pos 0)
    → ltb_ℤ (pos 0) m ≡ false
    → Small (neg q)
    → signed_target m (q, r) ≡ neg q
unfolding signed_target
short_target m q r f h small = elim (Bool-cases (is_sized r)) [
  | inl e ↦ rw (e, h) (wrap64_within (neg q) (omega (arith, small.0)) (omega (arith, small.1)))
  | inr e ↦ rw (e, f e) refl
]

abs_pos : (n : ℕ) → abs (pos (suc n)) ≡ pos (suc n)
unfolding abs
abs_pos n = ground arith

neg_negsuc : (n : ℕ) → neg (negsuc n) ≡ pos (suc n)
neg_negsuc n = ground arith

abs_negsuc : (n : ℕ) → suc n < 2 ^ 62 → abs (negsuc n) ≡ pos (suc n)
unfolding abs
abs_negsuc n h =
    if_true (λ x. x ≡ pos (suc n)) (ltb_ℤ (negsuc n) (pos 0)) _ _ (ground arith)
      (ap wrap64 (neg_negsuc n) ∙ wrap64_fits (suc n) (omega (arith, h)))

-- Small quantities are aimed at as calculateFollowerDrift does.
pub target_of-goal :
    (N : Numerics) (factor : Decimal) (lot max m : ℤ)
    → Small m
    → Small (goal N factor lot max m)
    → target_of N factor lot max m ≡ goal N factor lot max m
unfolding target_of
target_of-goal N factor lot max (pos zero) small fits = refl
target_of-goal N factor lot max (pos (suc n)) small fits =
    let aim : ℤ → ℤ = λ x. signed_target (pos (suc n)) (size_order N x factor lot max) in
    if_false (λ x. x ≡ goal N factor lot max (pos (suc n))) (eqb_ℤ (pos (suc n)) (pos 0)) (pos 0) _
      (ground arith)
      (ap aim (abs_pos n)
        ∙ long_target (pos (suc n)) _ _ (unsized N (pos (suc n)) factor lot max) (ground arith))
target_of-goal N factor lot max (negsuc n) small fits =
    let aim : ℤ → ℤ = λ x. signed_target (negsuc n) (size_order N x factor lot max) in
    if_false (λ x. x ≡ goal N factor lot max (negsuc n)) (eqb_ℤ (negsuc n) (pos 0)) (pos 0) _
      (ground arith)
      (ap aim (abs_negsuc n small.1)
        ∙ short_target (negsuc n) _ _ (unsized N (pos (suc n)) factor lot max) (ground arith) fits)
