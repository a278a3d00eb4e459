-- ===== src/Common/Int.antt =====
-- Go's int and int64 as integers over the native numbers: `pos n` is n and `negsuc n` is -(n + 1).
use Prim.Native.Nat.{ℕ, suc, ◌+◌, ◌-◌, ◌*◌, ◌%◌, ◌^◌, ◌≤◌, ◌<◌}
use mathlib.Core.Path.{◌≡◌}
use mathlib.Core.Bool.{Bool, true}
use native.Mathlib.Omega.{arith}
use envoy_trade.Common.Tests.{ltb, leb, ◌==◌, if◌then◌else◌}

pub data ℤ : Type 0 where
  pos : ℕ → ℤ
  negsuc : ℕ → ℤ

abbrev pub pos_part : ℤ → ℕ
pos_part (pos n) = n
pos_part (negsuc n) = 0

abbrev pub neg_part : ℤ → ℕ
neg_part (pos n) = 0
neg_part (negsuc n) = suc n

-- a - b, as an integer.
abbrev pub sub_ℕ : ℕ → ℕ → ℤ
sub_ℕ a b = if leb b a then pos (a - b) else negsuc (b - a - 1)

infixl 65 ◌+ℤ◌ ◌-ℤ◌
infixl 70 ◌*ℤ◌ ◌%ℤ◌
infix 50 ◌≤ℤ◌
unfoldable pub ◌+ℤ◌ : ℤ → ℤ → ℤ
a +ℤ b = sub_ℕ (pos_part a + pos_part b) (neg_part a + neg_part b)

unfoldable pub ◌-ℤ◌ : ℤ → ℤ → ℤ
a -ℤ b = sub_ℕ (pos_part a + neg_part b) (neg_part a + pos_part b)

unfoldable pub ◌*ℤ◌ : ℤ → ℤ → ℤ
a *ℤ b =
    sub_ℕ (pos_part a * pos_part b + neg_part a * neg_part b)
      (pos_part a * neg_part b + neg_part a * pos_part b)

abbrev pub ◌≤ℤ◌ : ℤ → ℤ → Type 0
a ≤ℤ b = pos_part a + neg_part b ≤ pos_part b + neg_part a

abbrev pub ltb_ℤ : ℤ → ℤ → Bool
ltb_ℤ a b = ltb (pos_part a + neg_part b) (pos_part b + neg_part a)

abbrev pub leb_ℤ : ℤ → ℤ → Bool
leb_ℤ a b = leb (pos_part a + neg_part b) (pos_part b + neg_part a)

abbrev pub eqb_ℤ : ℤ → ℤ → Bool
eqb_ℤ a b = (pos_part a + neg_part b) == (pos_part b + neg_part a)

-- -a
abbrev pub neg : ℤ → ℤ
neg a = sub_ℕ (neg_part a) (pos_part a)

-- Go's `%`: the remainder has the sign of the dividend. A zero divisor panics in Go; the model
-- returns the dividend there, and every caller has tested the divisor.
abbrev pub ◌%ℤ◌ : ℤ → ℤ → ℤ
a %ℤ b = sub_ℕ (pos_part a % (pos_part b + neg_part b)) (neg_part a % (pos_part b + neg_part b))

-- Two's complement at 64 bits.
abbrev pub from_bits64 : ℕ → ℤ
from_bits64 r = if ltb r (2 ^ 63) then pos r else negsuc (2 ^ 64 - 1 - r)

unfoldable pub wrap64 : ℤ → ℤ
wrap64 (pos n) = from_bits64 (n % 2 ^ 64)
wrap64 (negsuc n) = from_bits64 (2 ^ 64 - 1 - n % 2 ^ 64)

-- A value that fits is unchanged.
pub wrap64_fits : (n : ℕ) → n < 2 ^ 63 → wrap64 (pos n) ≡ pos n
unfolding wrap64
wrap64_fits n h = ground arith

pub eqb_ℤ→eq : (a b : ℤ) → eqb_ℤ a b ≡ true → a ≡ b
eqb_ℤ→eq a b h = ground arith

pub eqb_ℤ_refl : (a : ℤ) → eqb_ℤ a a ≡ true
eqb_ℤ_refl a = ground arith

pub *ℤ-pos : (a b : ℕ) → pos a *ℤ pos b ≡ pos (a * b)
unfolding ◌*ℤ◌
*ℤ-pos a b = ground arith

pub +ℤ-zero : (a : ℤ) → a +ℤ pos 0 ≡ a
unfolding ◌+ℤ◌
+ℤ-zero (pos n) = ground arith
+ℤ-zero (negsuc n) = ground arith

pub zero-+ℤ : (a : ℤ) → pos 0 +ℤ a ≡ a
unfolding ◌+ℤ◌
zero-+ℤ (pos n) = ground arith
zero-+ℤ (negsuc n) = ground arith

pub +ℤ_assoc : (a b c : ℤ) → (a +ℤ b) +ℤ c ≡ a +ℤ (b +ℤ c)
unfolding ◌+ℤ◌
+ℤ_assoc (pos a) (pos b) (pos c) = ground arith
+ℤ_assoc (pos a) (pos b) (negsuc c) = ground arith
+ℤ_assoc (pos a) (negsuc b) (pos c) = ground arith
+ℤ_assoc (pos a) (negsuc b) (negsuc c) = ground arith
+ℤ_assoc (negsuc a) (pos b) (pos c) = ground arith
+ℤ_assoc (negsuc a) (pos b) (negsuc c) = ground arith
+ℤ_assoc (negsuc a) (negsuc b) (pos c) = ground arith
+ℤ_assoc (negsuc a) (negsuc b) (negsuc c) = ground arith

pub wrap64_sum : (a b : ℤ) → wrap64 (wrap64 a +ℤ b) ≡ wrap64 (a +ℤ b)
unfolding wrap64 ◌+ℤ◌
wrap64_sum (pos a) (pos b) = ground arith
wrap64_sum (pos a) (negsuc b) = ground arith
wrap64_sum (negsuc a) (pos b) = ground arith
wrap64_sum (negsuc a) (negsuc b) = ground arith

pub wrap64_idem : (a : ℤ) → wrap64 (wrap64 a) ≡ wrap64 a
unfolding wrap64
wrap64_idem (pos a) = ground arith
wrap64_idem (negsuc a) = ground arith

pub wrap64_difference : (a b : ℤ) → wrap64 (wrap64 a -ℤ wrap64 b) ≡ wrap64 (a -ℤ b)
unfolding wrap64 ◌-ℤ◌
wrap64_difference (pos a) (pos b) = ground arith
wrap64_difference (pos a) (negsuc b) = ground arith
wrap64_difference (negsuc a) (pos b) = ground arith
wrap64_difference (negsuc a) (negsuc b) = ground arith
