-- ===== src/Squareoff/Receipts.antt =====
-- What a result says of the orders that were placed, and calls that place none.
use envoy_trade.Common.{
  ℕ, suc, ◌+◌, ◌≡◌, refl, arith, Bool, true, false, ◌&&◌, String, List, [], ◌∷◌, ◌++◌, length,
  length-append, is_empty, ◌==◌, if_cases, if◌then◌else◌,
}
use envoy_trade.Squareoff.Account.{SquareOffOrder, SquareOffResult, with_error, with_order, settled}

-- The result counts every order, and its status tells whether one has failed.
pub record Tells (n : ℕ) (r : SquareOffResult) : Type 0 where
  pub counted : r.positions_squared_off + length r.errors ≡ n
  pub listed : length r.orders ≡ r.positions_squared_off
  pub told : r.status ≡ (if is_empty r.errors then "completed" else "partial")

and_right : (a b : Bool) → (a && b) ≡ true → b ≡ true
and_right a b h = ground arith

pub with_order-Tells :
    (n : ℕ) (o : SquareOffOrder) (r : SquareOffResult) → Tells n r → Tells (suc n) (with_order o r)
unfolding with_order
with_order-Tells n o r t = record {
  counted = omega (arith, t.counted);
  listed = omega (arith, t.listed, length-append r.orders (o ∷ []));
  told = t.told;
}

pub not_empty : (ms : List String) (m : String) → is_empty (ms ++ m ∷ []) ≡ false
not_empty [] m = refl
not_empty (x ∷ ms) m = refl

pub with_error-Tells :
    (n : ℕ) (m : String) (r : SquareOffResult) → Tells n r → Tells (suc n) (with_error m r)
unfolding with_error
with_error-Tells n m r t = record {
  counted = omega (arith, t.counted, length-append r.errors (m ∷ []));
  listed = t.listed;
  told = rw (not_empty r.errors m) refl;
}

pub settled-Tells : (n : ℕ) (r : SquareOffResult) → Tells n r → Tells n (settled r)
unfolding settled
settled-Tells n r t =
    if_cases (Tells n) (r.positions_squared_off == 0 && is_empty r.errors)
      (record r { status = "completed" }) r
      (λ h. record {
        counted = t.counted;
        listed = t.listed;
        told = rw (and_right (r.positions_squared_off == 0) (is_empty r.errors) h) refl;
      })
      (λ _. t)
