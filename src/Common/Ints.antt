-- ===== src/Common/Ints.antt =====
-- Signed machine integers, as integers over the native numbers: the additions wrap around, as in a
-- release build.
use Prim.Native.Nat.{ℕ, suc, ◌+◌, ◌-◌, ◌<◌}
use mathlib.Core.Path.{◌≡◌}
use mathlib.Core.Bool.{Bool, true, false}
use mathlib.Core.List.{List, [], ◌∷◌}
use native.Mathlib.Omega.{arith}
use restartx.Common.Tests.{ltb, leb, ◌==◌, if◌then◌else◌}

-- `negsuc n` is -(n + 1)
pub data ℤ : Type 0 where
  pos : ℕ → ℤ
  negsuc : ℕ → ℤ

abbrev pub pos_part : ℤ → ℕ
pos_part (pos n) = n
pos_part (negsuc n) = 0

abbrev pub neg_part : ℤ → ℕ
neg_part (pos n) = 0
neg_part (negsuc n) = suc n

abbrev pub difference : ℕ → ℕ → ℤ
difference a b = if leb b a then pos (a - b) else negsuc (b - a - 1)

infixl 65 ◌+ℤ◌
unfoldable pub ◌+ℤ◌ : ℤ → ℤ → ℤ
a +ℤ b = difference (pos_part a + pos_part b) (neg_part a + neg_part b)

abbrev pub neg : ℤ → ℤ
neg a = difference (neg_part a) (pos_part a)

-- `unsigned_abs`
abbrev pub abs : ℤ → ℕ
abs (pos n) = n
abs (negsuc n) = suc n

abbrev pub int_eq : ℤ → ℤ → Bool
int_eq (pos a) (pos b) = a == b
int_eq (negsuc a) (negsuc b) = a == b
int_eq (pos _) (negsuc _) = false
int_eq (negsuc _) (pos _) = false

abbrev pub is_positive : ℤ → Bool
is_positive (pos n) = ltb 0 n
is_positive (negsuc n) = false

-- The sum of two integers of the type with the values from -half to half - 1.
unfoldable pub wrapping_add : ℕ → ℤ → ℤ → ℤ
wrapping_add half a b =
    let s = a +ℤ b in
    if leb half (pos_part s)
    then difference (pos_part s) (half + half)
    else if ltb half (neg_part s)
    then difference (half + half) (neg_part s)
    else s

-- Without an overflow it is the sum.
pub wrapping_add_small :
    (half : ℕ) (a b : ℤ) → abs a + abs b < half → wrapping_add half a b ≡ a +ℤ b
unfolding wrapping_add ◌+ℤ◌
wrapping_add_small half a b h = ground (arith, h)

pub add_neg : (a b : ℤ) → int_eq a (neg b) ≡ true → a +ℤ b ≡ pos 0
unfolding ◌+ℤ◌
add_neg a b h = ground (arith, h)

pub zero_add : (a : ℤ) → pos 0 +ℤ a ≡ a
unfolding ◌+ℤ◌
zero_add a = ground arith

pub add_assoc : (a b c : ℤ) → (a +ℤ b) +ℤ c ≡ a +ℤ (b +ℤ c)
unfolding ◌+ℤ◌
add_assoc a b c = ground arith

pub abs_add : (a b : ℤ) → abs (a +ℤ b) < suc (abs a + abs b)
unfolding ◌+ℤ◌
abs_add a b = ground arith

pub add_zero : (a : ℤ) → a +ℤ pos 0 ≡ a
unfolding ◌+ℤ◌
add_zero a = ground arith

abbrev pub sum : List ℤ → ℤ
sum [] = pos 0
sum (z ∷ zs) = z +ℤ sum zs

-- The sum of the absolute values.
abbrev pub total_size : List ℤ → ℕ
total_size [] = 0
total_size (z ∷ zs) = abs z + total_size zs
