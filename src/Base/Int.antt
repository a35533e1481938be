-- ===== src/Base/Int.antt =====
-- Signed integers over the native numbers, under the library's names (its ℤ stands on the unary ℕ).
use mmlib.Base.{ℕ, suc, ◌+◌, ◌-◌, ◌*◌, ◌/◌, ◌%◌, ◌≤◌, ◌≡◌, Bool, arith, ltb, leb, if◌then◌else◌}

-- `negsuc n` is -(n + 1).
pub data ℤ : Type 0 where
  pos : ℕ → ℤ
  negsuc : ℕ → ℤ

abbrev pub pos_part : ℤ → ℕ
pos_part (pos n) = n
pos_part (negsuc n) = 0

abbrev pub neg_part : ℤ → ℕ
neg_part (pos n) = 0
neg_part (negsuc n) = suc n

-- a - b, as an integer.
abbrev pub sub_ℕ : ℕ → ℕ → ℤ
sub_ℕ a b = if leb b a then pos (a - b) else negsuc (b - a - 1)

infixl 65 ◌+ℤ◌ ◌-ℤ◌
infix 50 ◌≤ℤ◌
unfoldable pub ◌+ℤ◌ : ℤ → ℤ → ℤ
a +ℤ b = sub_ℕ (pos_part a + pos_part b) (neg_part a + neg_part b)

unfoldable pub ◌-ℤ◌ : ℤ → ℤ → ℤ
a -ℤ b = sub_ℕ (pos_part a + neg_part b) (neg_part a + pos_part b)

abbrev pub ◌≤ℤ◌ : ℤ → ℤ → Type 0
a ≤ℤ b = pos_part a + neg_part b ≤ pos_part b + neg_part a

abbrev pub ltb_ℤ : ℤ → ℤ → Bool
ltb_ℤ a b = ltb (pos_part a + neg_part b) (pos_part b + neg_part a)

pub eq_of_parts : (a b : ℤ) → pos_part a + neg_part b ≡ pos_part b + neg_part a → a ≡ b
eq_of_parts a b h = ground arith

-- a * k, a / k and a % k for a positive number k: as in C, the quotient is rounded towards 0 and the
-- remainder has the sign of a.
unfoldable pub scale : ℤ → ℕ → ℤ
scale a k = sub_ℕ (pos_part a * k) (neg_part a * k)

unfoldable pub quotient : ℤ → ℕ → ℤ
quotient a k = sub_ℕ (pos_part a / k) (neg_part a / k)

unfoldable pub remainder : ℤ → ℕ → ℤ
remainder a k = sub_ℕ (pos_part a % k) (neg_part a % k)

-- `a` is `m - n`.
abbrev pub Parts : ℤ → ℕ → ℕ → Type 0
Parts a m n = pos_part a + n ≡ m + neg_part a

pub sub_ℕ_parts : (a b : ℕ) → pos_part (sub_ℕ a b) + b ≡ a + neg_part (sub_ℕ a b)
sub_ℕ_parts a b = ground arith

pub +ℤ-Parts : (a b : ℤ) → Parts (a +ℤ b) (pos_part a + pos_part b) (neg_part a + neg_part b)
unfolding ◌+ℤ◌
+ℤ-Parts a b = sub_ℕ_parts _ _

pub -ℤ-Parts : (a b : ℤ) → Parts (a -ℤ b) (pos_part a + neg_part b) (neg_part a + pos_part b)
unfolding ◌-ℤ◌
-ℤ-Parts a b = sub_ℕ_parts _ _

pub scale-Parts : (a : ℤ) (k : ℕ) → Parts (scale a k) (pos_part a * k) (neg_part a * k)
unfolding scale
scale-Parts a k = sub_ℕ_parts _ _

pub quotient-Parts : (a : ℤ) (k : ℕ) → Parts (quotient a k) (pos_part a / k) (neg_part a / k)
unfolding quotient
quotient-Parts a k = sub_ℕ_parts _ _

pub remainder-Parts : (a : ℤ) (k : ℕ) → Parts (remainder a k) (pos_part a % k) (neg_part a % k)
unfolding remainder
remainder-Parts a k = sub_ℕ_parts _ _

pub ruleset int_parts =
    (arith, +ℤ-Parts, -ℤ-Parts, scale-Parts, quotient-Parts, remainder-Parts, eq_of_parts)
