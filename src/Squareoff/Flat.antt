-- ===== src/Squareoff/Flat.antt =====
-- An order closes a position, and a list of orders closes a list of positions.
use envoy_trade.Common.{
  ℕ, suc, ◌^◌, ◌<◌, ◌≡◌, refl, arith, String, str_eq, List, [], ◌∷◌, ◌++◌, ℤ, pos, negsuc, pos_part,
  neg_part, neg, ◌+ℤ◌, wrap64_fits, if◌then◌else◌,
}
use envoy_trade.Worker.Parts.{OrderParams}
use envoy_trade.Rebalance.Drift.{Position}
use envoy_trade.Squareoff.Account.{side_of, abs, closing_order}

-- what the order adds to the position
abbrev pub bought : String → ℤ → ℤ
bought side qty = if str_eq side "BUY" then qty else neg qty

-- Above the least int64, whose negation does not fit.
abbrev pub IsBounded : ℤ → Type 0
IsBounded q = (pos_part q < 2 ^ 63) × (neg_part q < 2 ^ 63)

abbrev pub Closes : Position → OrderParams → Type 0
Closes p o =
    (o.exchange ≡ p.exchange)
    × (o.tradingsymbol ≡ p.tradingsymbol)
    × (o.product ≡ p.product)
    × (o.order_type ≡ "MARKET")
    × (p.quantity +ℤ bought o.transaction_type o.quantity ≡ pos 0)

-- One order for each position, in order.
abbrev pub CloseAll : List Position → List OrderParams → Type 0
CloseAll [] [] = Unit
CloseAll [] (o ∷ os) = ⊥
CloseAll (p ∷ ps) [] = ⊥
CloseAll (p ∷ ps) (o ∷ os) = Closes p o × CloseAll ps os

long_side : (n : ℕ) → side_of (pos n) ≡ "SELL"
unfolding side_of
long_side n = ground arith

short_side : (n : ℕ) → side_of (negsuc n) ≡ "BUY"
unfolding side_of
short_side n = ground arith

abs_long : (n : ℕ) → abs (pos n) ≡ pos n
unfolding abs
abs_long n = ground arith

abs_short : (n : ℕ) → suc n < 2 ^ 63 → abs (negsuc n) ≡ pos (suc n)
unfolding abs
abs_short n h = ground (arith, wrap64_fits (suc n) h)

long_sum : (n : ℕ) → pos n +ℤ neg (pos n) ≡ pos 0
unfolding ◌+ℤ◌
long_sum n = ground arith

short_sum : (n : ℕ) → negsuc n +ℤ pos (suc n) ≡ pos 0
unfolding ◌+ℤ◌
short_sum n = ground arith

side_flat : (q : ℤ) → IsBounded q → q +ℤ bought (side_of q) (abs q) ≡ pos 0
side_flat (pos n) h = rw (long_side n, abs_long n) (long_sum n)
side_flat (negsuc n) h = rw (short_side n, abs_short n h.1) (short_sum n)

pub closing_order-Closes :
    (p : Position) (tag : String) → IsBounded p.quantity → Closes p (closing_order p tag)
unfolding closing_order
closing_order-Closes p tag h = (refl, refl, refl, refl, side_flat p.quantity h)

pub CloseAll-append :
    (ps qs : List Position) (os rs : List OrderParams)
    → CloseAll ps os
    → CloseAll qs rs
    → CloseAll (ps ++ qs) (os ++ rs)
CloseAll-append [] qs [] rs h k = k
CloseAll-append [] qs (o ∷ os) rs h k = elim h [ ]
CloseAll-append (p ∷ ps) qs [] rs h k = elim h [ ]
CloseAll-append (p ∷ ps) qs (o ∷ os) rs h k = (h.0, CloseAll-append ps qs os rs h.1 k)
