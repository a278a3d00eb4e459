-- ===== src/Rebalance/Closes.antt =====
-- The drifts that calculateFollowerDrift reports are what is missing, no more and no less.
use envoy_trade.Common.{
  ℕ, ◌^◌, ◌<◌, ◌≡◌, refl, arith, true, false, ◌⊎◌, inl, inr, String, Option, none, some, ℤ, pos,
  negsuc, pos_part, neg_part, ◌+ℤ◌, ◌-ℤ◌, ltb_ℤ, eqb_ℤ, wrap64, wrap64_fits, if_cases,
}
use envoy_trade.Rebalance.Drift.{Key, SymbolDrift, action_of, drift_to}

-- Within 2^62 of zero, so that the difference of two fits an int64.
abbrev pub Small : ℤ → Type 0
Small x = (pos_part x < 2 ^ 62) × (neg_part x < 2 ^ 62)

wrap64_negative : (n : ℕ) → n < 2 ^ 63 → wrap64 (negsuc n) ≡ negsuc n
unfolding wrap64
wrap64_negative n h = ground arith

pub wrap64_within : (x : ℤ) → pos_part x < 2 ^ 63 → neg_part x < 2 ^ 63 → wrap64 x ≡ x
wrap64_within (pos n) h k = wrap64_fits n h
wrap64_within (negsuc n) h k = wrap64_negative n (omega (arith, k))

difference_fits : (a b : ℤ) → Small a → Small b → wrap64 (a -ℤ b) ≡ a -ℤ b
unfolding ◌-ℤ◌
difference_fits a b h k = wrap64_within (a -ℤ b) (ground arith) (ground arith)

sum_of_difference : (a b : ℤ) → b +ℤ (a -ℤ b) ≡ a
unfolding ◌-ℤ◌ ◌+ℤ◌
sum_of_difference a b = ground arith

-- The action that goes with what is held and what is aimed at.
abbrev pub Acts : ℤ → ℤ → String → Type 0
Acts held target action =
    ((action ≡ "BUY") × (ltb_ℤ held target ≡ true))
    ⊎ ((action ≡ "SELL") × (ltb_ℤ target held ≡ true))

-- Nothing is missing, or the drift brings the position to its target.
abbrev pub Closes : Key → ℤ → ℤ → Option SymbolDrift → Type 0
Closes k held target none = held ≡ target
Closes k held target (some d) =
    (d.exchange ≡ k.exchange)
    × (d.tradingsymbol ≡ k.symbol)
    × (held +ℤ d.drift_qty ≡ target)
    × Acts held target d.action

no_difference : (a b : ℤ) → eqb_ℤ (a -ℤ b) (pos 0) ≡ true → b ≡ a
unfolding ◌-ℤ◌
no_difference a b h = ground arith

buys :
    (a b : ℤ) → eqb_ℤ (a -ℤ b) (pos 0) ≡ false → ltb_ℤ (a -ℤ b) (pos 0) ≡ false → ltb_ℤ b a ≡ true
unfolding ◌-ℤ◌
buys a b h k = ground arith

sells : (a b : ℤ) → ltb_ℤ (a -ℤ b) (pos 0) ≡ true → ltb_ℤ a b ≡ true
unfolding ◌-ℤ◌
sells a b h = ground arith

action_of-Acts : (a b : ℤ) → eqb_ℤ (a -ℤ b) (pos 0) ≡ false → Acts b a (action_of (a -ℤ b))
unfolding action_of
action_of-Acts a b h =
    if_cases (Acts b a) (ltb_ℤ (a -ℤ b) (pos 0)) "SELL" "BUY" (λ t. inr (refl, sells a b t))
      (λ n. inl (refl, buys a b h n))

pub drift_to-Closes :
    (k : Key) (product : String) (lot master target held : ℤ)
    → Small target
    → Small held
    → Closes k held target (drift_to k product lot master target held)
unfolding drift_to
drift_to-Closes k product lot master target held h g = rw (difference_fits target held h g) (
    if_cases (Closes k held target) (eqb_ℤ (target -ℤ held) (pos 0)) none
      (some (record {
        exchange = k.exchange;
        tradingsymbol = k.symbol;
        product = product;
        lot_size = lot;
        master_qty = master;
        target_qty = target;
        follower_qty = held;
        drift_qty = target -ℤ held;
        action = action_of (target -ℤ held);
      }))
      (λ z. no_difference target held z)
      (λ n. (refl, refl, sum_of_difference target held, action_of-Acts target held n)))
