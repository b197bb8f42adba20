-- ===== src/Common/Bits.antt =====
-- `&`, `|`, `^`, `count_ones` and `trailing_zeros` on `u64` and `u32`, and what masks and shifts
-- by constants mean in arithmetic. A shift `x >> k` is written `x / 2 ^ k`.
use Prim.Native.Nat.{ℕ, zero, suc, ◌+◌, ◌-◌, ◌*◌, ◌/◌, ◌%◌, ◌^◌, ◌≤◌, ◌<◌, min, max}
use Prim.Native.Nat.{bit_and, bit_or, bit_xor, digits, bitwise, differ}
use Prim.Native.Nat.{bit_and-bitwise, bit_or-bitwise, bit_xor-bitwise}
use mathlib.Core.Path.{◌≡◌, refl, ap}
use native.Mathlib.Omega.{arith}
use restartx.Common.Tests.{◌==◌, if◌then◌else◌}
use native.Mathlib.Nat.{pow-suc, one-le-pow, mul-div_cancel, div-add-mod}

module _ (z : ℕ → ℕ) (f : ℕ → ℕ → ℕ) where
  -- Two bounds on the first number that are both large enough give one result.
  digits_enough : (k l x y : ℕ) → (x ≤ k) × (x ≤ l) → digits z f k x y ≡ digits z f l x y
  digits_enough zero zero x y bounds = refl
  digits_enough zero (suc l) zero y bounds = refl
  digits_enough zero (suc l) (suc x) y bounds = absurd (omega (arith, bounds.0))
  digits_enough (suc k) zero zero y bounds = refl
  digits_enough (suc k) zero (suc x) y bounds = absurd (omega (arith, bounds.1))
  digits_enough (suc k) (suc l) zero y bounds = refl
  digits_enough (suc k) (suc l) (suc x) y bounds =
      let smaller : (suc x / 2 ≤ k) × (suc x / 2 ≤ l) =
        (omega (arith, bounds.0), omega (arith, bounds.1)) in
      omega (arith, digits_enough k l (suc x / 2) (y / 2) smaller)

  bitwise_lowest :
      (x y : ℕ)
      → bitwise z f (suc x) y ≡ f (suc x % 2) (y % 2) + 2 * bitwise z f (suc x / 2) (y / 2)
  bitwise_lowest x y =
      let half = suc x / 2 in
      let smaller : (half ≤ x) × (half ≤ half) = (omega arith, omega arith) in
      omega (arith, digits_enough x half half (y / 2) smaller)

-- Each operation on the lowest digit and on the rest.
and_lowest : (x y : ℕ) → bit_and x y ≡ min (x % 2) (y % 2) + 2 * bit_and (x / 2) (y / 2)
and_lowest zero y = simp bit_and-bitwise (omega arith)
and_lowest (suc x) y = simp bit_and-bitwise (bitwise_lowest (λ v. 0) min x y)

or_lowest : (x y : ℕ) → bit_or x y ≡ max (x % 2) (y % 2) + 2 * bit_or (x / 2) (y / 2)
or_lowest zero y = simp bit_or-bitwise (omega arith)
or_lowest (suc x) y = simp bit_or-bitwise (bitwise_lowest (λ v. v) max x y)

zero-xor : (b : ℕ) → bit_xor 0 b ≡ b
zero-xor b = bit_xor-bitwise 0 b

differ_zero_left : (d : ℕ) → differ 0 d ≡ d
differ_zero_left d = refl

differ_self : (d : ℕ) → differ d d ≡ 0
differ_self zero = refl
differ_self (suc d) = differ_self d

xor_lowest : (x y : ℕ) → bit_xor x y ≡ differ (x % 2) (y % 2) + 2 * bit_xor (x / 2) (y / 2)
xor_lowest zero y = omega (arith, zero-xor y, zero-xor (y / 2))
xor_lowest (suc x) y = simp bit_xor-bitwise (bitwise_lowest (λ v. v) differ x y)

and-zero_fuel : (n a : ℕ) → a ≤ n → bit_and a 0 ≡ 0
and-zero_fuel n zero h = refl
and-zero_fuel zero (suc a) h = absurd (omega arith)
and-zero_fuel (suc n) (suc a) h =
    omega (arith, and_lowest (suc a) 0, and-zero_fuel n (suc a / 2) (omega arith))

and-zero : (a : ℕ) → bit_and a 0 ≡ 0
and-zero a = and-zero_fuel a a (omega arith)

or-zero_fuel : (n a : ℕ) → a ≤ n → bit_or a 0 ≡ a
or-zero_fuel n zero h = refl
or-zero_fuel zero (suc a) h = absurd (omega arith)
or-zero_fuel (suc n) (suc a) h =
    omega (arith, or_lowest (suc a) 0, or-zero_fuel n (suc a / 2) (omega arith))

or-zero : (a : ℕ) → bit_or a 0 ≡ a
or-zero a = or-zero_fuel a a (omega arith)

double_pow : (m k : ℕ) → m * 2 ^ suc k ≡ 2 * (m * 2 ^ k)
double_pow m k = omega (arith, ap (λ (t : ℕ). m * t) (pow-suc 2 k))

-- Operands that are split at the digit `k`.
and_split : (k q r m : ℕ) → r < 2 ^ k → bit_and (q * 2 ^ k + r) (m * 2 ^ k) ≡ bit_and q m * 2 ^ k
and_split zero q r m fits = ground arith
and_split (suc k) q r m fits = ground (
  arith,
  and_lowest (q * 2 ^ suc k + r) (m * 2 ^ suc k),
  double_pow q k,
  double_pow m k,
  double_pow (bit_and q m) k,
  pow-suc 2 k,
  and_split k q (r / 2) m (omega (arith, pow-suc 2 k)),
)

-- `|` of two fields that do not overlap is a sum.
pub or_fields : (k q r : ℕ) → r < 2 ^ k → bit_or (q * 2 ^ k) r ≡ q * 2 ^ k + r
or_fields zero q r fits = ground (arith, or-zero q)
or_fields (suc k) q r fits = ground (
  arith,
  or_lowest (q * 2 ^ suc k) r,
  double_pow q k,
  pow-suc 2 k,
  or_fields k q (r / 2) (omega (arith, pow-suc 2 k)),
)

-- `|` with a digit above the number.
pub or_top : (k r : ℕ) → r < 2 ^ k → bit_or r (2 ^ k) ≡ 2 ^ k + r
or_top zero zero fits = refl
or_top zero (suc r) fits = absurd (omega arith)
or_top (suc k) r fits =
    ground
      (arith, or_lowest r (2 ^ suc k), pow-suc 2 k, or_top k (r / 2) (omega (arith, pow-suc 2 k)))

-- `^` with one digit of the number itself clears that digit.
xor_digit :
    (k q b r : ℕ)
    → b < 2
    → r < 2 ^ k
    → bit_xor (b * 2 ^ k) ((2 * q + b) * 2 ^ k + r) ≡ 2 * q * 2 ^ k + r
xor_digit zero q b r hb fits = ground (arith, xor_lowest b (2 * q + b), zero-xor q, differ_self b)
xor_digit (suc k) q b r hb fits = ground (
  arith,
  xor_lowest (b * 2 ^ suc k) ((2 * q + b) * 2 ^ suc k + r),
  double_pow b k,
  double_pow q k,
  double_pow (2 * q + b) k,
  double_pow (2 * q) k,
  pow-suc 2 k,
  differ_zero_left (r % 2),
  xor_digit k q b (r / 2) hb (omega (arith, pow-suc 2 k)),
)

pub and_shifted : (k a m : ℕ) → bit_and a (m * 2 ^ k) ≡ bit_and (a / 2 ^ k) m * 2 ^ k
and_shifted k a m = ground (arith, one-le-pow k 2, and_split k (a / 2 ^ k) (a % 2 ^ k) m)

-- A mask of the `k` lowest digits keeps the remainder.
and_low : (k q r : ℕ) → r < 2 ^ k → bit_and (q * 2 ^ k + r) (2 ^ k - 1) ≡ r
and_low zero q r fits = ground (arith, and-zero (q * 1 + r))
and_low (suc k) q r fits = ground (
  arith,
  and_lowest (q * 2 ^ suc k + r) (2 ^ suc k - 1),
  double_pow q k,
  pow-suc 2 k,
  one-le-pow k 2,
  and_low k q (r / 2) (omega (arith, pow-suc 2 k)),
)

pub and_mask : (k a : ℕ) → bit_and a (2 ^ k - 1) ≡ a % 2 ^ k
and_mask k a = ground (arith, one-le-pow k 2, and_low k (a / 2 ^ k) (a % 2 ^ k))

-- `(v & (0b11 << k)) >> k`
pub two_digits : (k v : ℕ) → bit_and v (3 * 2 ^ k) / 2 ^ k ≡ v / 2 ^ k % 4
two_digits k v =
    rw (and_shifted k v 3, and_mask 2 (v / 2 ^ k)) (mul-div_cancel _ (one-le-pow k 2 (omega arith)))

-- `v & (0b1 << k)`
pub one_digit : (k v : ℕ) → bit_and v (2 ^ k) ≡ v / 2 ^ k % 2 * 2 ^ k
one_digit k v = ground (arith, and_shifted k v 1, and_mask 1 (v / 2 ^ k))

-- `(v >> k) << k` as a mask: the digits from `k` on, `w` of them.
pub high_digits : (w k v : ℕ) → bit_and v ((2 ^ w - 1) * 2 ^ k) ≡ v / 2 ^ k % 2 ^ w * 2 ^ k
high_digits w k v = rw (and_shifted k v (2 ^ w - 1), and_mask w (v / 2 ^ k))

low_part : (k v : ℕ) → v % 2 ^ k < 2 ^ k
low_part k v = omega (arith, one-le-pow k 2)

digit_split : (k v : ℕ) → (2 * (v / 2 ^ k / 2) + v / 2 ^ k % 2) * 2 ^ k + v % 2 ^ k ≡ v
digit_split k v = rw (the (v / 2 ^ k)) (omega (arith, div-add-mod v (2 ^ k)))
  where
    the : (w : ℕ) → 2 * (w / 2) + w % 2 ≡ w
    the w = omega arith

-- `(v & (1 << k)) ^ v` clears the digit `k`.
pub clear_digit :
    (k v : ℕ) → bit_xor (bit_and v (2 ^ k)) v ≡ 2 * (v / 2 ^ k / 2) * 2 ^ k + v % 2 ^ k
clear_digit k v = rw one_digit (
    rw (digit_split k v) at
      (xor_digit k (v / 2 ^ k / 2) (v / 2 ^ k % 2) (v % 2 ^ k) (omega arith) (low_part k v)))

-- `count_ones` and `trailing_zeros` of a number of `w` digits.
unfoldable pub ones : ℕ → ℕ → ℕ
ones zero v = 0
ones (suc w) v = v % 2 + ones w (v / 2)

unfoldable pub low_zeros : ℕ → ℕ → ℕ
low_zeros zero v = 0
low_zeros (suc w) v = if v % 2 == 1 then 0 else suc (low_zeros w (v / 2))

unfoldable pub count_ones : ℕ → ℕ
unfolding ones
count_ones v = ones 64 v

unfoldable pub trailing_zeros : ℕ → ℕ
unfolding low_zeros
trailing_zeros v = low_zeros 64 v
