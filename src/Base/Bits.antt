-- ===== src/Base/Bits.antt =====
-- Binary digits of a number, and what `&`, `|` and `^` do to each of them.
use Prim.Native.Nat.{
  ℕ, zero, suc, ◌+◌, ◌*◌, ◌/◌, ◌%◌, ◌≤◌, ◌<◌, min, max, differ, digits, bit_and, bit_or, bit_xor,
  bit_and-bitwise, bit_or-bitwise, bit_xor-bitwise,
}
use mathlib.Core.Path.{◌≡◌, refl, ap, ◌∙◌}
use native.Mathlib.Omega.{arith}

-- The digit of weight 2^i.
abbrev pub bit : ℕ → ℕ → ℕ
bit a zero = a % 2
bit a (suc i) = bit (a / 2) i

module _ (z : ℕ → ℕ) (f : ℕ → ℕ → ℕ) where
  -- Digits beyond those of the first number are not asked for.
  spare_digits : (n k a b : ℕ) → a ≤ n → a ≤ k → digits z f n a b ≡ digits z f k a b
  spare_digits zero zero zero b p q = refl
  spare_digits zero (suc k) zero b p q = refl
  spare_digits (suc n) zero zero b p q = refl
  spare_digits (suc n) (suc k) zero b p q = refl
  spare_digits zero k (suc a) b p q = absurd (omega arith)
  spare_digits (suc n) zero (suc a) b p q = absurd (omega arith)
  spare_digits (suc n) (suc k) (suc a) b p q =
      let halves = spare_digits n k (suc a / 2) (b / 2) (omega arith) (omega arith) in
      omega (arith, halves)

  -- The lowest digit, and the rest.
  lowest_digit :
      ((b : ℕ) → z b ≡ z (b / 2) * 2 + f 0 (b % 2))
      → (a b : ℕ) → digits z f a a b ≡ digits z f (a / 2) (a / 2) (b / 2) * 2 + f (a % 2) (b % 2)
  lowest_digit runs_out zero b = runs_out b
  lowest_digit runs_out (suc a) b =
      let halves = spare_digits a (suc a / 2) (suc a / 2) (b / 2) (omega arith) (omega arith) in
      omega (arith, halves)

and_lowest : (a b : ℕ) → bit_and a b ≡ bit_and (a / 2) (b / 2) * 2 + min (a % 2) (b % 2)
and_lowest a b = omega (
  arith,
  bit_and-bitwise a b,
  bit_and-bitwise (a / 2) (b / 2),
  lowest_digit (λ b. zero) min (λ b. omega arith) a b,
)

or_lowest : (a b : ℕ) → bit_or a b ≡ bit_or (a / 2) (b / 2) * 2 + max (a % 2) (b % 2)
or_lowest a b = omega (
  arith,
  bit_or-bitwise a b,
  bit_or-bitwise (a / 2) (b / 2),
  lowest_digit (λ b. b) max (λ b. omega arith) a b,
)

xor_lowest : (a b : ℕ) → bit_xor a b ≡ bit_xor (a / 2) (b / 2) * 2 + differ (a % 2) (b % 2)
xor_lowest a b = omega (
  arith,
  bit_xor-bitwise a b,
  bit_xor-bitwise (a / 2) (b / 2),
  lowest_digit (λ b. b) differ (λ b. omega arith) a b,
)

pub bit_small : (a i : ℕ) → bit a i < 2
bit_small a zero = omega arith
bit_small a (suc i) = bit_small (a / 2) i

-- Of two digits, `&` gives the smaller, `|` the larger, and `^` whether they differ.
pub bit-bit_and : (a b i : ℕ) → bit (bit_and a b) i ≡ min (bit a i) (bit b i)
bit-bit_and a b zero = omega (arith, and_lowest a b)
bit-bit_and a b (suc i) =
    let half : bit_and a b / 2 ≡ bit_and (a / 2) (b / 2) = omega (arith, and_lowest a b) in
    rw half (bit-bit_and (a / 2) (b / 2) i)

pub bit-bit_or : (a b i : ℕ) → bit (bit_or a b) i ≡ max (bit a i) (bit b i)
bit-bit_or a b zero = omega (arith, or_lowest a b)
bit-bit_or a b (suc i) =
    let half : bit_or a b / 2 ≡ bit_or (a / 2) (b / 2) = omega (arith, or_lowest a b) in
    rw half (bit-bit_or (a / 2) (b / 2) i)

differ_small : (x y : ℕ) → x < 2 → y < 2 → differ x y < 2
differ_small zero y p q = q
differ_small (suc x) zero p q = p
differ_small (suc zero) (suc zero) p q = omega arith
differ_small (suc zero) (suc (suc y)) p q = absurd (omega arith)
differ_small (suc (suc x)) (suc y) p q = absurd (omega arith)

pub bit-bit_xor : (a b i : ℕ) → bit (bit_xor a b) i ≡ differ (bit a i) (bit b i)
bit-bit_xor a b zero =
    omega (arith, xor_lowest a b, differ_small (a % 2) (b % 2) (omega arith) (omega arith))
bit-bit_xor a b (suc i) =
    let half : bit_xor a b / 2 ≡ bit_xor (a / 2) (b / 2) =
      omega (arith, xor_lowest a b, differ_small (a % 2) (b % 2) (omega arith) (omega arith)) in
    rw half (bit-bit_xor (a / 2) (b / 2) i)

-- The number of `n` digits that are all 1.
abbrev ones : ℕ → ℕ
ones zero = 0
ones (suc n) = ones n * 2 + 1

bit-ones : (n i : ℕ) → i < n → bit (ones n) i ≡ 1
bit-ones zero i p = absurd (omega arith)
bit-ones (suc n) zero p = omega arith
bit-ones (suc n) (suc i) p =
    let half : (ones n * 2 + 1) / 2 ≡ ones n = omega arith in rw half (bit-ones n i (omega arith))

-- `~a` of 32 bits.
abbrev pub complement : ℕ → ℕ
complement a = bit_xor a 0xffff_ffff

pub bit-complement : (a i : ℕ) → i < 32 → bit (complement a) i + bit a i ≡ 1
bit-complement a i p =
    let flipped : bit (complement a) i ≡ differ (bit a i) 1 =
      bit-bit_xor a 0xffff_ffff i ∙ ap (differ (bit a i)) (bit-ones 32 i p) in
    flipped_sum (bit a i) _ (bit_small a i) flipped
  where
    flipped_sum : (x y : ℕ) → x < 2 → y ≡ differ x 1 → y + x ≡ 1
    flipped_sum zero y p e = omega arith
    flipped_sum (suc zero) y p e = omega arith
    flipped_sum (suc (suc x)) y p e = absurd (omega arith)

-- Numbers with the same digits are the same.
same_bits : (n a b : ℕ) → a ≤ n → b ≤ n → ((i : ℕ) → bit a i ≡ bit b i) → a ≡ b
same_bits zero a b p q same = omega arith
same_bits (suc n) a b p q same =
    let halves = same_bits n (a / 2) (b / 2) (omega arith) (omega arith) (λ i. same (suc i)) in
    omega (arith, halves, same 0)

same_number : (a b : ℕ) → ((i : ℕ) → bit a i ≡ bit b i) → a ≡ b
same_number a b = same_bits (a + b) a b (omega arith) (omega arith)

pub bit_and_zero : (a : ℕ) → bit_and 0 a ≡ 0
bit_and_zero a = bit_and-bitwise 0 a

pub bit_and_comm : (a b : ℕ) → bit_and a b ≡ bit_and b a
bit_and_comm a b = same_number _ _ λ i. omega (arith, bit-bit_and a b i, bit-bit_and b a i)

-- `a & 1` is the lowest digit.
pub bit_and-one : (a : ℕ) → bit_and a 1 ≡ a % 2
bit_and-one a = omega (arith, and_lowest a 1, bit_and_comm (a / 2) 0, bit_and_zero (a / 2))

-- Less on the left, less of the right that is found there.
pub bit_and_shuffle : (a b c : ℕ) → bit_and (bit_and a b) c ≡ bit_and (bit_and a c) b
bit_and_shuffle a b c = same_number _ _ λ i. omega (
  arith,
  bit-bit_and (bit_and a b) c i,
  bit-bit_and a b i,
  bit-bit_and (bit_and a c) b i,
  bit-bit_and a c i,
)

-- What all of `c` is found in after `&` was there before.
pub bit_and_all : (a b c : ℕ) → bit_and (bit_and a b) c ≡ c → bit_and a c ≡ c
bit_and_all a b c e = same_number _ _ λ i. omega (
  arith,
  bit-bit_and a c i,
  bit-bit_and (bit_and a b) c i,
  bit-bit_and a b i,
  ap (λ n. bit n i) e,
)

pub bit_zero : (i : ℕ) → bit 0 i ≡ 0
bit_zero zero = refl
bit_zero (suc i) = bit_zero i

-- A mask inside another mask finds the same.
pub bit_and_inner : (a m k : ℕ) → bit_and m k ≡ k → bit_and (bit_and a m) k ≡ bit_and a k
bit_and_inner a m k e = same_number _ _ λ i. omega (
  arith,
  bit-bit_and (bit_and a m) k i,
  bit-bit_and a m i,
  bit-bit_and a k i,
  bit-bit_and m k i,
  ap (λ n. bit n i) e,
)
