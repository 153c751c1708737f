-- ===== src/Base/Int.antt =====
-- Signed integers over the native numbers, and Go's int64 arithmetic on them.
use container_app_service_mo.Base.{
  ℕ, suc, ◌+◌, ◌-◌, ◌*◌, ◌/◌, ◌%◌, ◌≤◌, ◌<◌, ◌≡◌, Bool, arith, ltb, leb, if◌then◌else◌,
}

-- `negsuc n` is -(n + 1).
pub data ℤ : Type 0 where
  pos : ℕ → ℤ
  negsuc : ℕ → ℤ

abbrev pub pos_part : ℤ → ℕ
pos_part (pos n) = n
pos_part (negsuc n) = 0

abbrev pub neg_part : ℤ → ℕ
neg_part (pos n) = 0
neg_part (negsuc n) = suc n

-- a - b, as an integer.
abbrev pub sub_ℕ : ℕ → ℕ → ℤ
sub_ℕ a b = if leb b a then pos (a - b) else negsuc (b - a - 1)

infixl 65 ◌+ℤ◌ ◌-ℤ◌
infixl 70 ◌*ℤ◌
abbrev pub ◌+ℤ◌ : ℤ → ℤ → ℤ
a +ℤ b = sub_ℕ (pos_part a + pos_part b) (neg_part a + neg_part b)

abbrev pub ◌-ℤ◌ : ℤ → ℤ → ℤ
a -ℤ b = sub_ℕ (pos_part a + neg_part b) (neg_part a + pos_part b)

abbrev pub ◌*ℤ◌ : ℤ → ℤ → ℤ
a *ℤ b =
    sub_ℕ (pos_part a * pos_part b + neg_part a * neg_part b)
      (pos_part a * neg_part b + neg_part a * pos_part b)

abbrev pub ltb_ℤ : ℤ → ℤ → Bool
ltb_ℤ a b = ltb (pos_part a + neg_part b) (pos_part b + neg_part a)

abbrev pub leb_ℤ : ℤ → ℤ → Bool
leb_ℤ a b = leb (pos_part a + neg_part b) (pos_part b + neg_part a)

infix 50 ◌≤ℤ◌
abbrev pub ◌≤ℤ◌ : ℤ → ℤ → Type 0
a ≤ℤ b = pos_part a + neg_part b ≤ pos_part b + neg_part a

-- 2 ^ 63 and 2 ^ 64.
abbrev pub i64_half : ℕ
i64_half = 9223372036854775808

abbrev pub i64_mod : ℕ
i64_mod = 18446744073709551616

-- The int64 with the bits of `n`.
abbrev pub of_bits : ℕ → ℤ
of_bits n = if ltb n i64_half then pos n else negsuc (i64_mod - n - 1)

-- An exact result, wrapped around to an int64.
unfoldable pub i64 : ℤ → ℤ
i64 (pos n) = of_bits (n % i64_mod)
i64 (negsuc n) = of_bits (i64_mod - 1 - n % i64_mod)

-- Go's division: truncated toward zero.
unfoldable pub quot : ℤ → ℤ → ℤ
quot (pos a) (pos b) = pos (a / b)
quot (pos a) (negsuc b) = sub_ℕ 0 (a / suc b)
quot (negsuc a) (pos b) = sub_ℕ 0 (suc a / b)
quot (negsuc a) (negsuc b) = pos (suc a / suc b)

-- A number that fits is not changed.
pub i64-pos : (n : ℕ) → n < i64_half → i64 (pos n) ≡ pos n
unfolding i64
i64-pos n h = ground arith

pub i64-negsuc : (n : ℕ) → n < i64_half → i64 (negsuc n) ≡ negsuc n
unfolding i64
i64-negsuc n h = ground arith

-- A difference of two numbers that fit does not wrap.
pub i64-sub : (a b : ℕ) → a < i64_half → b < i64_half → i64 (pos a -ℤ pos b) ≡ sub_ℕ a b
i64-sub a b h k = ground (arith, i64-pos (a - b), i64-negsuc (b - a - 1))

pub i64-add : (a b : ℕ) → a + b < i64_half → i64 (pos a +ℤ pos b) ≡ pos (a + b)
i64-add a b h = ground (arith, i64-pos (a + b))
