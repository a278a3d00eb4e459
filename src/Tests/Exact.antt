-- ===== src/Tests/Exact.antt =====
-- A decimal library that computes exactly, for decimals without a positive exponent.
use native.Mathlib.Nat.{
  div-one, div-add-mod', mod-lt, div-eq_of_lt-le, le_of_mul-le-mul_left, mul-le-mul_right,
  lt_of_mul-lt-mul_left, mul-lt-mul_of_pos_right, div-mul-le_self,
}
use native.Mathlib.Omega.{pow_step}
use envoy_trade.Common.{
  ℕ, zero, suc, ◌+◌, ◌*◌, ◌/◌, ◌^◌, ◌≤◌, ◌<◌, ◌≡◌, refl, sym, ap, ◌∙◌, ◌==◌, ltb, ℤ, pos, negsuc,
  pos_part, neg_part, ◌*ℤ◌, ◌+ℤ◌, *ℤ-pos, arith,
}
use envoy_trade.Domain.Decimal.{Decimal, Numerics, IsExact, ulp}

unfoldable pub num : Decimal → ℕ
num d = pos_part d.coeff

unfoldable pub den : Decimal → ℕ
den d = 10 ^ neg_part d.exp

abbrev pub sign_of : ℤ → ℤ
sign_of (pos zero) = pos 0
sign_of (pos (suc n)) = pos 1
sign_of (negsuc n) = negsuc 0

unfoldable pub rounded : ℕ → ℕ → ℕ
rounded n d = (2 * (n * ulp) + d) / (2 * d)

unfoldable pub exact : Numerics
exact = record {
  from_int = λ a. record { coeff = a; exp = pos 0 };
  mul = λ a b. record { coeff = a.coeff *ℤ b.coeff; exp = a.exp +ℤ b.exp };
  div = λ a b. record { coeff = pos (rounded (num a * den b) (den a * num b)); exp = negsuc 15 };
  floor = λ a. record { coeff = pos (num a / den a); exp = pos 0 };
  int_part = λ a. pos (num a / den a);
  sign = λ a. sign_of a.coeff;
  equal = λ a b. (num a * den b) == (num b * den a);
  is_zero = λ a. num a == 0;
  greater_than = λ a b. ltb (num b * den a) (num a * den b);
  to_float = λ a. num a / den a;
  float_le_zero = λ x. x == 0;
  float_gt_zero = λ x. ltb 0 x;
}

-- d is n / k, it is not negative, and its exponent is not positive.
pub record Stands (d : Decimal) (n k : ℕ) : Type 0 where
  pub coeff_pos : d.coeff ≡ pos (num d)
  pub exp_neg : pos_part d.exp ≡ 0
  pub k_pos : 0 < k
  pub same : num d * k ≡ n * den d

ten_pow_pos : (e : ℕ) → 0 < 10 ^ e
ten_pow_pos zero = omega arith
ten_pow_pos (suc e) = omega (arith, ten_pow_pos e)

mul_pos : (a b : ℕ) → 0 < a → 0 < b → 0 < a * b
mul_pos a b h k = grind arith

b_pos_of : (b l : ℕ) {r : ℕ} → b * l ≡ r → 0 < r → 0 < b
b_pos_of zero l g h = absurd (omega (arith, g))
b_pos_of (suc b) l g h = omega arith

mul_lem : (a k n x b l m y : ℕ) → a * k ≡ n * x → b * l ≡ m * y → a * b * (k * l) ≡ n * m * (x * y)
mul_lem a k n x b l m y h g =
    let e : a * k * (b * l) ≡ n * x * (m * y) = rw (h, g) refl in omega (arith, e)

module _ (a k n x b l m y : ℕ) (h : a * k ≡ n * x) (g : b * l ≡ m * y) (pos_x : 0 < x)
    (pos_y : 0 < y) (pos_m : 0 < m) where
  b_pos : 0 < b
  b_pos = b_pos_of b l g (mul_pos m y pos_m pos_y)

  scaled : a * y * (k * m) ≡ n * l * (x * b)
  scaled = omega (arith, ap (λ t. t * (m * y)) h, ap (λ t. n * x * t) g)

  above :
      (c : ℕ)
      → 2 * (c * (x * b)) ≤ 2 * (a * y * ulp) + x * b
      → 2 * (c * (k * m)) ≤ 2 * (n * l * ulp) + k * m
  above c u =
      le_of_mul-le-mul_left {k = x * b} (omega (arith, scaled, mul-le-mul_right (k * m) u))
        (mul_pos x b pos_x b_pos)

  below :
      (c : ℕ)
      → 2 * (a * y * ulp) ≤ 2 * (c * (x * b)) + x * b
      → 2 * (n * l * ulp) ≤ 2 * (c * (k * m)) + k * m
  below c u =
      le_of_mul-le-mul_left {k = x * b} (omega (arith, scaled, mul-le-mul_right (k * m) u))
        (mul_pos x b pos_x b_pos)

rounded-above : (n d : ℕ) → 0 < d → 2 * (rounded n d * d) ≤ 2 * (n * ulp) + d
unfolding rounded
rounded-above n d h = omega (arith, div-mul-le_self (2 * (n * ulp) + d) (2 * d))

rounded-below : (n d : ℕ) → 0 < d → 2 * (n * ulp) ≤ 2 * (rounded n d * d) + d
unfolding rounded
rounded-below n d h = omega (
  arith,
  div-add-mod' (2 * (n * ulp) + d) (2 * d),
  mod-lt (2 * (n * ulp) + d) {m = 2 * d} (omega arith),
)

lt_next : (n k : ℕ) → 0 < k → n < (n / k + 1) * k
lt_next n k h = omega (arith, div-add-mod' n k, mod-lt n {m = k} h)

div_lem : (a x n k : ℕ) → a * k ≡ n * x → 0 < k → 0 < x → a / x ≡ n / k
div_lem a x n k h pos_k pos_x =
    let f = n / k in
    let low : f * x ≤ a =
      le_of_mul-le-mul_left {k = k} (omega (arith, h, mul-le-mul_right x (div-mul-le_self n k)))
        pos_k in
    let high : a < (f + 1) * x =
      lt_of_mul-lt-mul_left k
        (omega (arith, h, mul-lt-mul_of_pos_right (lt_next n k pos_k) pos_x)) in
    div-eq_of_lt-le {k = f} x {m = a} low (omega (arith, high))

ten_pow-add : (e f : ℕ) → 10 ^ (e + f) ≡ 10 ^ e * 10 ^ f
ten_pow-add zero f = let e : 0 + f ≡ f = omega arith in rw e (omega arith)
ten_pow-add (suc e) f =
    let s : suc e + f ≡ suc (e + f) = omega arith in
    rw (s, pow_step 10 (e + f), pow_step 10 e, ten_pow-add e f) (omega arith)

add_neg : (a b : ℤ) → pos_part a ≡ 0 → pos_part b ≡ 0 → neg_part (a +ℤ b) ≡ neg_part a + neg_part b
unfolding ◌+ℤ◌
add_neg a b h k = ground arith

add_pos : (a b : ℤ) → pos_part a ≡ 0 → pos_part b ≡ 0 → pos_part (a +ℤ b) ≡ 0
unfolding ◌+ℤ◌
add_pos a b h k = ground arith

mul_coeff : (a b : ℤ) {n m : ℕ} → a ≡ pos n → b ≡ pos m → a *ℤ b ≡ pos (n * m)
mul_coeff a b {n} {m} h k = rw (h, k) (*ℤ-pos n m)

mul_den :
    (a b : Decimal) → pos_part a.exp ≡ 0 → pos_part b.exp ≡ 0 → den (exact.mul a b) ≡ den a * den b
unfolding exact den
mul_den a b h k = rw (add_neg a.exp b.exp h k) (ten_pow-add (neg_part a.exp) (neg_part b.exp))

mul_num :
    (a b : Decimal)
    → a.coeff ≡ pos (num a)
    → b.coeff ≡ pos (num b)
    → (exact.mul a b).coeff ≡ pos (num a * num b)
unfolding exact
mul_num a b h k = mul_coeff a.coeff b.coeff h k

mul-Stands :
    (a b : Decimal) (n k m l : ℕ)
    → Stands a n k
    → Stands b m l
    → Stands (exact.mul a b) (n * m) (k * l)
unfolding num exact
mul-Stands a b n k m l s t =
    let c = mul_num a b s.coeff_pos t.coeff_pos in
    let e : num (exact.mul a b) ≡ num a * num b = ap pos_part c in
    record {
      coeff_pos = c ∙ ap pos (sym e);
      exp_neg = add_pos a.exp b.exp s.exp_neg t.exp_neg;
      k_pos = mul_pos k l s.k_pos t.k_pos;
      same =
          rw (e, mul_den a b s.exp_neg t.exp_neg)
            (mul_lem (num a) k n (den a) (num b) l m (den b) s.same t.same);
    }

den_pos : (d : Decimal) → 0 < den d
unfolding den
den_pos d = ten_pow_pos (neg_part d.exp)

from_int-Stands : (n : ℕ) → Stands (exact.from_int (pos n)) n 1
unfolding exact num den
from_int-Stands n = record { coeff_pos = refl; exp_neg = refl; k_pos = omega arith; same = refl }

div_value : ℕ → Decimal
div_value c = record { coeff = pos c; exp = negsuc 15 }

div_value-Stands : (c : ℕ) → Stands (div_value c) c ulp
unfolding div_value num den
div_value-Stands c = record {
  coeff_pos = refl;
  exp_neg = refl;
  k_pos = omega arith;
  same = omega arith;
}

sign_lem : (a : ℤ) (n : ℕ) → a ≡ pos n → 0 < n → sign_of a ≡ pos 1
sign_lem a n h k = ground arith

num_pos : (d : Decimal) (n k : ℕ) → Stands d n k → 0 < n → 0 < num d
num_pos d n k s h = b_pos_of (num d) k s.same (mul_pos n (den d) h (den_pos d))

floor_lem : (d : Decimal) (n k : ℕ) → Stands d n k → exact.int_part (exact.floor d) ≡ pos (n / k)
unfolding exact num den
floor_lem d n k s =
    ap pos (div-one (num d / den d) ∙ div_lem (num d) (den d) n k s.same s.k_pos (den_pos d))

-- The exact library satisfies what the code relies on.
pub exact_laws : IsExact exact
unfolding exact div_value
exact_laws = record {
  Means = Stands;
  from_int_exact = from_int-Stands;
  mul_exact = mul-Stands;
  div_rounds = λ a b n k m l s t pos_k pos_m.
      let c = rounded (num a * den b) (den a * num b) in
      let d_pos = mul_pos (den a) (num b) (den_pos a) (num_pos b m l t pos_m) in
      (
        c,
        div_value-Stands c,
        above (num a) k n (den a) (num b) l m (den b) s.same t.same (den_pos a) (den_pos b) pos_m c
            (rounded-above (num a * den b) (den a * num b) d_pos),
        below (num a) k n (den a) (num b) l m (den b) s.same t.same (den_pos a) (den_pos b) pos_m c
            (rounded-below (num a * den b) (den a * num b) d_pos),
      );
  floor_int_part = λ d n k s pos_k fits. floor_lem d n k s;
  sign_positive =
      λ d n k s pos_n pos_k. sign_lem d.coeff (num d) s.coeff_pos (num_pos d n k s pos_n);
}

pub stands_means : (d : Decimal) (n k : ℕ) → Stands d n k → IsExact.Means exact_laws d n k
unfolding exact_laws
stands_means d n k s = s
