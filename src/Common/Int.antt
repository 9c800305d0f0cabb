-- ===== src/Common/Int.antt =====
-- Go's signed integers: ℤ over the native numbers, and the wrap-around of int32 and int64.
use Prim.Native.Nat.{ℕ, suc, ◌+◌, ◌-◌, ◌%◌, ◌^◌, ◌≤◌, ◌<◌}
use mathlib.Core.Path.{◌≡◌, ap, sym, ◌∙◌}
use mathlib.Core.Bool.{Bool}
use native.Mathlib.Omega.{arith}
use fasthttpproxy.Common.Tests.{ltb, leb, if◌then◌else◌}

-- `negsuc n` is -(n + 1).
pub data ℤ : Type 0 where
  pos : ℕ → ℤ
  negsuc : ℕ → ℤ

abbrev pub pos_part : ℤ → ℕ
pos_part (pos n) = n
pos_part (negsuc n) = 0

abbrev pub neg_part : ℤ → ℕ
neg_part (pos n) = 0
neg_part (negsuc n) = suc n

-- a - b, as an integer.
abbrev pub sub_ℕ : ℕ → ℕ → ℤ
sub_ℕ a b = if leb b a then pos (a - b) else negsuc (b - a - 1)

infixl 65 ◌+ℤ◌ ◌-ℤ◌
infix 50 ◌≤ℤ◌
unfoldable pub ◌+ℤ◌ : ℤ → ℤ → ℤ
a +ℤ b = sub_ℕ (pos_part a + pos_part b) (neg_part a + neg_part b)

unfoldable pub ◌-ℤ◌ : ℤ → ℤ → ℤ
a -ℤ b = sub_ℕ (pos_part a + neg_part b) (neg_part a + pos_part b)

abbrev pub ◌≤ℤ◌ : ℤ → ℤ → Type 0
a ≤ℤ b = pos_part a + neg_part b ≤ pos_part b + neg_part a

abbrev pub ltb_ℤ : ℤ → ℤ → Bool
ltb_ℤ a b = ltb (pos_part a + neg_part b) (pos_part b + neg_part a)

abbrev pub leb_ℤ : ℤ → ℤ → Bool
leb_ℤ a b = leb (pos_part a + neg_part b) (pos_part b + neg_part a)

pub +ℤ_parts :
    (a b : ℤ)
    → pos_part (a +ℤ b) + neg_part a + neg_part b ≡ neg_part (a +ℤ b) + pos_part a + pos_part b
unfolding ◌+ℤ◌
+ℤ_parts a b = ground arith

pub -ℤ_parts :
    (a b : ℤ)
    → pos_part (a -ℤ b) + neg_part a + pos_part b ≡ neg_part (a -ℤ b) + pos_part a + neg_part b
unfolding ◌-ℤ◌
-ℤ_parts a b = ground arith

pub eq_of_parts : (a b : ℤ) → pos_part a + neg_part b ≡ pos_part b + neg_part a → a ≡ b
eq_of_parts a b h = ground arith

pub ruleset int_laws = (arith, +ℤ_parts, -ℤ_parts, eq_of_parts)

pub +ℤ_assoc : (a b c : ℤ) → a +ℤ b +ℤ c ≡ a +ℤ (b +ℤ c)
+ℤ_assoc a b c = omega int_laws

pub +ℤ_comm : (a b : ℤ) → a +ℤ b ≡ b +ℤ a
+ℤ_comm a b = omega int_laws

pub +ℤ-zero : (a : ℤ) → a +ℤ pos 0 ≡ a
+ℤ-zero a = omega int_laws

-- What a conversion to a w-bit signed type, or an addition on it, leaves: `half` is 2 ^ (w - 1). The
-- two's complement bits of the integer, and the integer that they stand for.
abbrev bits : ℕ → ℤ → ℕ
bits half (pos n) = n % (half + half)
bits half (negsuc n) = half + half - 1 - n % (half + half)

abbrev signed : ℕ → ℕ → ℤ
signed half r = if ltb r half then pos r else negsuc (half + half - 1 - r)

unfoldable pub wrap : ℕ → ℤ → ℤ
wrap half z = signed half (bits half z)

abbrev pub int32 : ℤ → ℤ
int32 = wrap (2 ^ 31)

abbrev pub int64 : ℤ → ℤ
int64 = wrap (2 ^ 63)

-- A value of the type is left alone.
pub int32_small : (n : ℕ) → n < 2 ^ 31 → int32 (pos n) ≡ pos n
unfolding wrap
int32_small n h = ground arith

-- atomic.AddInt32(&x, 1) and atomic.AddInt32(&x, -1) on a non-negative value.
pub int32_inc : (n : ℕ) → suc n < 2 ^ 31 → int32 (pos n +ℤ pos 1) ≡ pos (suc n)
unfolding wrap ◌+ℤ◌
int32_inc n h = ground arith

pub int32_dec : (n : ℕ) → n < 2 ^ 31 → int32 (pos (suc n) +ℤ negsuc 0) ≡ pos n
unfolding wrap ◌+ℤ◌
int32_dec n h = ground arith

-- Wrapping at each step of a sum is wrapping once at its end.
pub int64-+ℤ : (a b : ℤ) → int64 (int64 a +ℤ b) ≡ int64 (a +ℤ b)
unfolding wrap ◌+ℤ◌
int64-+ℤ (pos a) (pos b) = ground arith
int64-+ℤ (pos a) (negsuc b) = ground arith
int64-+ℤ (negsuc a) (pos b) = ground arith
int64-+ℤ (negsuc a) (negsuc b) = ground arith

pub int64_idem : (a : ℤ) → int64 (int64 a) ≡ int64 a
int64_idem a = ap int64 (sym (+ℤ-zero (int64 a))) ∙ int64-+ℤ a (pos 0) ∙ ap int64 (+ℤ-zero a)
