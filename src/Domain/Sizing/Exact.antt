-- ===== src/Domain/Sizing/Exact.antt =====
-- SizeOrder against exact rational arithmetic.
use native.Mathlib.Nat.{
  div-eq_of_lt-le, div-add-mod', mod-lt, mul-le-mul_right, mul-le-mul_left, div-mul-le_self,
  lt_of_mul-lt-mul_right, div-lt_iff_lt-mul, div-div-eq-div-mul, mul-mod_left,
}
use envoy_trade.Common.{
  ℕ, zero, suc, ◌+◌, ◌-◌, ◌*◌, ◌/◌, ◌%◌, ◌^◌, ◌≤◌, ◌<◌, ◌≡◌, ap, ◌⊎◌, inl, inr, ℤ, pos, arith,
  wrap64_fits, *ℤ-pos, ◌-ℤ◌,
}
use envoy_trade.Domain.Decimal.{Decimal, Numerics, IsExact, ulp}
use envoy_trade.Domain.Sizing.{size_order, apply_cap, lot_quantity}
use envoy_trade.Domain.Sizing.Caps.{cap_floor}
use native.Mathlib.Decide.{dec_lt}

-- A quotient `c / ulp` within half a unit of `(f * d + r) / d` lies between f and f + 1.
not_below : (f r d c : ℕ) → 0 < d → 2 * ((f * d + r) * ulp) ≤ 2 * (c * d) + d → ¬ (suc c ≤ f * ulp)
not_below f r d c pos_d below low = omega (arith, mul-le-mul_right d low)

not_above :
    (f r d c : ℕ)
    → r < d
    → d < 2 * ulp
    → 2 * (c * d) ≤ 2 * ((f * d + r) * ulp) + d
    → ¬ ((f + 1) * ulp ≤ c)
not_above f r d c small_r small above high = omega (arith, mul-le-mul_right d high)

-- Rounding to `ulp` leaves the integer part of n / d as it is, for a denominator below 2 * ulp.
pub floor_of_rounded :
    (n d c : ℕ)
    → 0 < d
    → d < 2 * ulp
    → 2 * (c * d) ≤ 2 * (n * ulp) + d
    → 2 * (n * ulp) ≤ 2 * (c * d) + d
    → c / ulp ≡ n / d
floor_of_rounded n d c pos_d small above below =
    let e : n ≡ n / d * d + n % d = omega (arith, div-add-mod' n d) in
    let above' : 2 * (c * d) ≤ 2 * ((n / d * d + n % d) * ulp) + d = rw (← e) above in
    let below' : 2 * ((n / d * d + n % d) * ulp) ≤ 2 * (c * d) + d = rw (← e) below in
    let low = not_below (n / d) (n % d) d c pos_d below' in
    let high = not_above (n / d) (n % d) d c (mod-lt n pos_d) small above' in
    div-eq_of_lt-le {k = n / d} ulp {m = c} (omega arith) (omega arith)

-- The whole lots in `master_qty * (p / q)`, as a quantity.
abbrev pub whole_lots : ℕ → ℕ → ℕ → ℕ → ℕ
whole_lots m p q lot = m * p / (q * lot) * lot

-- `qty` is the largest multiple of the lot size that is within the scaled intent m * (p / q) and,
-- if there is one, within the cap.
pub record IsLargest (m p q lot max qty : ℕ) : Type 0 where
  pub whole : qty % lot ≡ 0
  pub within_intent : qty * q ≤ m * p
  pub within_cap : 0 < max → qty ≤ max
  pub largest :
      (more : ℕ) → more % lot ≡ 0 → qty < more → (m * p < more * q) ⊎ ((0 < max) × (max < more))

module _ (N : Numerics) (X : IsExact N) (m : ℕ) (ratio : Decimal) (p q lot : ℕ)
    (means : IsExact.Means X ratio p q) (pos_q : 0 < q) (pos_lot : 0 < lot)
    (precise : q * lot < 2 * ulp) (fits : m * p / q < 2 ^ 63) where
  pos_denominator : 0 < q * lot
  pos_denominator = grind arith

  lots_fit : m * p / (q * lot) * lot ≤ m * p / q
  lots_fit = rw (← div-div-eq-div-mul (m * p) q lot) (div-mul-le_self (m * p / q) lot)

  count_fits : m * p / (q * lot) < 2 ^ 63
  count_fits = omega (arith, lots_fit, mul-le-mul_left (m * p / (q * lot)) pos_lot)

  -- With an exact library the computed quantity is the exact one, and nothing wraps.
  pub lot_quantity_exact : lot_quantity N (pos m) ratio (pos lot) ≡ pos (whole_lots m p q lot)
  unfolding lot_quantity
  lot_quantity_exact =
      let raw = X.mul_exact (N.from_int (pos m)) ratio m 1 p q (X.from_int_exact m) means in
      let rounded =
        X.div_rounds _ _ (m * p) (1 * q) lot 1 raw (X.from_int_exact lot) (omega arith) pos_lot in
      let same =
        floor_of_rounded (m * p) (q * lot) rounded.0 pos_denominator precise
          (omega (arith, rounded.2)) (omega (arith, rounded.3)) in
      let count =
        X.floor_int_part (N.div (N.mul (N.from_int (pos m)) ratio) (N.from_int (pos lot))) rounded.0
          ulp rounded.1 (omega arith) (rw same count_fits) in
      rw (count, same, *ℤ-pos (m * p / (q * lot)) lot)
        (wrap64_fits (whole_lots m p q lot) (omega (arith, lots_fit)))

  whole_lots-largest : (more : ℕ) → more % lot ≡ 0 → whole_lots m p q lot < more → m * p < more * q
  whole_lots-largest more whole above =
      let e : more ≡ more / lot * lot = omega (arith, div-add-mod' more lot) in
      let above' : whole_lots m p q lot < more / lot * lot = rw (← e) above in
      let k = lt_of_mul-lt-mul_right lot above' in
      let bound = (div-lt_iff_lt-mul pos_denominator).0 k in
      omega (arith, bound, ap (λ (t : ℕ). t * q) e)

  whole_lots-within : whole_lots m p q lot * q ≤ m * p
  whole_lots-within = omega (arith, div-mul-le_self (m * p) (q * lot))

  whole_lots-IsLargest : IsLargest m p q lot 0 (whole_lots m p q lot)
  whole_lots-IsLargest = record {
    whole = mul-mod_left (m * p / (q * lot)) lot;
    within_intent = whole_lots-within;
    within_cap = λ h. elim h [ ];
    largest = λ more whole above. inl (whole_lots-largest more whole above);
  }

module _ (lot : ℕ) (pos_lot : 0 < lot) where
  multiple_above : (bound more : ℕ) → more % lot ≡ 0 → bound - bound % lot < more → bound < more
  multiple_above bound more whole above =
      let b = div-add-mod' bound lot in
      let e : more ≡ more / lot * lot = omega (arith, div-add-mod' more lot) in
      let above' : bound / lot * lot < more / lot * lot = omega (arith, b, e) in
      let k = lt_of_mul-lt-mul_right lot above' in
      omega (arith, b, e, mod-lt bound pos_lot, mul-le-mul_right lot k)

  over_value :
      (w max : ℕ)
      → 0 < max
      → max < w
      → (apply_cap (pos w) (pos lot) (pos max)).0 ≡ pos (max - max % lot)
  unfolding apply_cap ◌-ℤ◌
  over_value w max h k = ground arith

  under_value :
      (w max : ℕ) → (0 < max → w ≤ max) → (apply_cap (pos w) (pos lot) (pos max)).0 ≡ pos w
  unfolding apply_cap
  under_value w max h = ground arith

  capped-IsLargest :
      (m p q w max : ℕ)
      → IsLargest m p q lot 0 w
      → 0 < max
      → max < w
      → IsLargest m p q lot max (max - max % lot)
  capped-IsLargest m p q w max L h k = record {
    whole = cap_floor max lot pos_lot;
    within_intent =
        omega
          (arith, L.within_intent, mul-le-mul_right {m = max - max % lot} {n = w} q (omega arith));
    within_cap = λ _. omega arith;
    largest = λ more whole above. inr (h, multiple_above max more whole above);
  }

  -- A cap turns the largest quantity without a cap into the largest within it.
  apply_cap-IsLargest :
      (m p q w max : ℕ)
      → IsLargest m p q lot 0 w
      → (qty : ℕ) × ((apply_cap (pos w) (pos lot) (pos max)).0 ≡ pos qty)
        × IsLargest m p q lot max qty
  apply_cap-IsLargest m p q w zero L = (w, under_value w 0 (λ h. elim h [ ]), L)
  apply_cap-IsLargest m p q w (suc max) L = elim (dec_lt (suc max) w) [
    | yes k ↦ (
      _,
      over_value w (suc max) (omega arith) k,
      capped-IsLargest m p q w (suc max) L (omega arith) k,
    )
    | no k ↦ (
      w,
      under_value w (suc max) (λ _. omega arith),
      record {
        whole = L.whole;
        within_intent = L.within_intent;
        within_cap = λ _. omega arith;
        largest = λ more whole above. inl (elim (L.largest more whole above) [
          | inl below ↦ below
          | inr c ↦ absurd (omega (arith, c.0))
        ]);
      },
    )
  ]

size_order_step :
    (N : Numerics) (m : ℤ) (ratio : Decimal) (lot : ℕ) (max : ℤ)
    → 0 < lot
    → N.sign ratio ≡ pos 1
    → size_order N m ratio (pos lot) max
      ≡ apply_cap (lot_quantity N m ratio (pos lot)) (pos lot) max
unfolding size_order
size_order_step N m ratio lot max h s = ground arith

-- With an exact decimal library, a positive clone factor p / q and a positive lot size, the order's
-- quantity is the largest multiple of the lot size that is within both the master's scaled quantity
-- and the cap, provided that q * lot stays below the precision of a division and the quantity fits
-- an int64.
pub size_order-IsLargest :
    (N : Numerics) (X : IsExact N) (m : ℕ) (ratio : Decimal) (p q lot max : ℕ)
    → IsExact.Means X ratio p q
    → 0 < p
    → 0 < q
    → 0 < lot
    → q * lot < 2 * ulp
    → m * p / q < 2 ^ 63
    → (qty : ℕ) × ((size_order N (pos m) ratio (pos lot) (pos max)).0 ≡ pos qty)
      × IsLargest m p q lot max qty
size_order-IsLargest N X m ratio p q lot max means pos_p pos_q pos_lot precise fits =
    let exact = lot_quantity_exact N X m ratio p q lot means pos_q pos_lot precise fits in
    let w = whole_lots m p q lot in
    let best = whole_lots-IsLargest N X m ratio p q lot means pos_q pos_lot precise fits in
    let found = apply_cap-IsLargest lot pos_lot m p q w max best in
    let step =
      size_order_step N (pos m) ratio lot (pos max) pos_lot
        (X.sign_positive ratio p q means pos_p pos_q) in
    (found.0, rw (step, exact) found.1, found.2)
