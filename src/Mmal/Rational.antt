-- ===== src/Mmal/Rational.antt =====
-- mmal/util/mmal_util_rational.c: fractions of ints, their greatest common divisor, products, quotients,
-- simplest forms, and 16.16 fixed point numbers.
use Prim.Native.Nat.{bit_and, bit_or}
use final.Base.{
  ℕ, zero, suc, ◌+◌, ◌-◌, ◌*◌, ◌/◌, ◌^◌, ltb, leb, ◌==◌, ◌&&◌, not, false, ◌||◌, if◌then◌else◌,
  Bool, Option, none, some, ◌>>=◌,
}
use final.Base.Int.{ℤ, pos, negsuc, pos_part, neg_part, sub_ℕ, ◌*ℤ◌, ◌+ℤ◌, ◌-ℤ◌}
pub mod Divisors
pub mod Rounds
pub mod Gcd
pub mod Simplest
pub mod Fixed
pub mod Factors
pub mod Product
pub mod Sum
pub mod Equal
mod Tests

pub record Rational : Type 0 where
  pub num : ℤ
  pub den : ℤ

-- `!(x & 0x01)`
abbrev pub is_even : ℕ → Bool
is_even x = bit_and x 1 == 0

abbrev pub is_zero : ℤ → Bool
is_zero z = pos_part z + neg_part z == 0

-- ABS: the negation of the least int overflows, and faults.
abbrev pub abs_int : ℤ → Option ℕ
abs_int z = let v = pos_part z + neg_part z in if ltb v (2 ^ 31) then some v else none

-- The first loop: both are halved while both are even, and the halvings counted. Without fuel a
-- loop has not ended.
unfoldable pub halve_both : ℕ → ℕ → ℕ → ℕ → Option (ℕ × ℕ × ℕ)
halve_both zero a b shift = none
halve_both (suc n) a b shift =
    let rest = halve_both n (a / 2) (b / 2) (shift + 1) in
    if is_even (bit_or a b) then rest else some (a, b, shift)

-- The inner loops: halved while even.
unfoldable pub odd_part : ℕ → ℕ → Option ℕ
odd_part zero x = none
odd_part (suc n) x = let rest = odd_part n (x / 2) in if is_even x then rest else some x

-- What one round of the outer loop makes of a and b.
unfoldable pub subtract_halves : ℕ → ℕ → Option (ℕ × ℕ)
subtract_halves a b = odd_part a a >>= λ x.
    odd_part b b >>= λ y. some (if leb y x then ((x - y) / 2, y) else (x, (y - x) / 2))

-- The outer loop, while a > 0.
unfoldable pub reduce : ℕ → ℕ → ℕ → Option ℕ
reduce zero a b = none
reduce (suc n) a b =
    let rest = subtract_halves a b >>= λ (x, y). reduce n x y in if ltb 0 a then rest else some b

abbrev pub shift_left : ℕ → ℕ → Option ℕ
shift_left b shift = let v = b * 2 ^ shift in if ltb v (2 ^ 31) then some v else none

unfoldable pub gcd : ℤ → ℤ → Option ℕ
gcd a b =
    if is_zero a || is_zero b
    then some 1
    else (abs_int a >>= λ x. abs_int b >>= λ y. halve_both (x + y) x y 0 >>= λ (a', b', shift).
        reduce (a' + b' + 1) a' b' >>= λ g. shift_left g shift)

-- The `/` of ints cuts the fraction off; a division by zero faults.
abbrev pub quotient : ℤ → ℕ → Option ℤ
quotient (pos n) g = if g == 0 then none else some (pos (n / g))
quotient (negsuc n) g = if g == 0 then none else some (sub_ℕ 0 (suc n / g))

unfoldable pub simplify : Rational → Option Rational
simplify rational = gcd rational.num rational.den >>= λ g. quotient rational.num g >>= λ n.
    quotient rational.den g >>= λ d. some (record { num = n; den = d })

abbrev pub q16_one : ℕ
q16_one = 65536

unfoldable pub from_fixed_16_16 : ℤ → Option Rational
from_fixed_16_16 fixed = simplify (record { num = fixed; den = pos q16_one })

-- A division of 64-bit numbers by an int that is not zero.
abbrev pub quotient_ℤ : ℤ → ℤ → ℤ
quotient_ℤ (pos n) (pos d) = pos (n / d)
quotient_ℤ (pos n) (negsuc d) = sub_ℕ 0 (n / suc d)
quotient_ℤ (negsuc n) (pos d) = sub_ℕ 0 (suc n / d)
quotient_ℤ (negsuc n) (negsuc d) = pos (suc n / suc d)

-- No more than INT_MAX, no less than INT_MIN.
abbrev pub clamp : ℤ → ℤ
clamp z =
    if leb (2 ^ 31) (pos_part z)
    then pos (2 ^ 31 - 1)
    else if ltb (2 ^ 31) (neg_part z)
    then negsuc (2 ^ 31 - 1)
    else z

unfoldable pub to_fixed_16_16 : Rational → ℤ
to_fixed_16_16 rational =
    let result = rational.num *ℤ pos q16_one in
    clamp (if is_zero rational.den then result else quotient_ℤ result rational.den)

-- An int: a result that does not fit faults.
abbrev pub as_int : ℤ → Option ℤ
as_int z = if ltb (pos_part z) (2 ^ 31) && leb (neg_part z) (2 ^ 31) then some z else none

unfoldable pub multiply : Rational → Rational → Option Rational
multiply a b = gcd a.num b.den >>= λ gcd1. gcd b.num a.den >>= λ gcd2. quotient a.num gcd1 >>= λ x.
    quotient b.num gcd2 >>= λ y. as_int (x *ℤ y) >>= λ n. quotient a.den gcd2 >>= λ z.
    quotient b.den gcd1 >>= λ w. as_int (z *ℤ w) >>= λ d. some (record { num = n; den = d })

-- A division by zero fails the assertion, and counts as a fault.
unfoldable pub divide : Rational → Rational → Option Rational
divide a b =
    if is_zero b.num
    then none
    else if is_zero a.num
    then some a
    else (gcd a.num b.num >>= λ gcd1. gcd b.den a.den >>= λ gcd2. quotient a.num gcd1 >>= λ x.
        quotient b.den gcd2 >>= λ y. as_int (x *ℤ y) >>= λ n. quotient a.den gcd2 >>= λ z.
        quotient b.num gcd1 >>= λ w. as_int (z *ℤ w) >>= λ d. some (record { num = n; den = d }))

unfoldable pub add : Rational → Rational → Option Rational
add a b = gcd a.den b.den >>= λ g. quotient a.den g >>= λ a_den. quotient b.den g >>= λ b_part.
    as_int (a.num *ℤ b_part) >>= λ x. as_int (b.num *ℤ a_den) >>= λ y. as_int (x +ℤ y) >>= λ a_num.
    gcd a_num (pos g) >>= λ h. quotient a_num h >>= λ n.
    quotient b.den h >>= λ z. as_int (a_den *ℤ z) >>= λ d. some (record { num = n; den = d })

unfoldable pub subtract : Rational → Rational → Option Rational
subtract a b = as_int (pos 0 -ℤ b.num) >>= λ n. add a (record b { num = n })

abbrev pub eq_ℤ : ℤ → ℤ → Bool
eq_ℤ a b = pos_part a == pos_part b && neg_part a == neg_part b

-- The products have 64 bits, in which those of two ints fit.
unfoldable pub equal : Rational → Rational → Bool
equal a b =
    if not (eq_ℤ a.num b.num) && is_zero (a.num *ℤ b.num)
    then false
    else eq_ℤ (a.num *ℤ b.den) (b.num *ℤ a.den)
