-- ===== src/Mmal/Rational/Gcd.antt =====
-- gcd of mmal_util_rational.c: its loops end, and what they give.
use Prim.Native.Nat.{bit_or}
use final.Base.{
  ℕ, zero, suc, ◌+◌, ◌*◌, ◌/◌, ◌%◌, ◌^◌, ◌≤◌, ◌<◌, ◌≡◌, refl, arith, subst, ℕ_discrete, Bool, true,
  false, ◌⊎◌, inl, inr, ◌==◌, ◌||◌, lt→ltb, not_zero, Yields, yields, Yields-mono, Yields-bind,
}
use final.Base.Int.{ℤ, pos_part, neg_part}
use final.Base.Bits.{bit-bit_or}
use final.Mmal.Rational.{is_even, is_zero, halve_both, gcd}
use final.Mmal.Rational.Divisors.{Divides, IsGcd, IsGcd-both}
use final.Mmal.Rational.Rounds.{is_even-eq, not_even, OneOdd, reduce-IsGcd}

-- What the first loop leaves, after some halvings.
record Halved (a b shift : ℕ) (left : ℕ × ℕ × ℕ) : Type 0 where
  pub first : 0 < left.0
  pub second : 0 < left.1
  pub odd : OneOdd left.0 left.1
  pub count : ℕ
  pub counted : left.2 ≡ shift + count
  pub common : (g : ℕ) → IsGcd g left.0 left.1 → IsGcd (g * 2 ^ count) a b

bit_or-lowest : (a b : ℕ) → a % 2 ≡ 0 → b % 2 ≡ 0 → is_even (bit_or a b) ≡ true
bit_or-lowest a b e f = is_even-eq (bit_or a b) (omega (arith, bit-bit_or a b 0, e, f))

not_both : (a b : ℕ) → OneOdd a b → is_even (bit_or a b) ≡ false
not_both a b one = not_even (bit_or a b) (omega (arith, bit-bit_or a b 0, one))

shift_twice : (g n : ℕ) → 2 * (g * 2 ^ n) ≡ g * 2 ^ suc n
shift_twice g n = let twice : 2 ^ suc n ≡ 2 * 2 ^ n = omega arith in rw twice (grind arith)

halve_both_lem :
    (n a b shift : ℕ) → 0 < a → 0 < b → a ≤ n → Yields (Halved a b shift) (halve_both n a b shift)
unfolding halve_both
halve_both_lem zero a b shift p q r = absurd (omega arith)
halve_both_lem (suc n) a b shift p q r = elim (ℕ_discrete (a % 2 + b % 2) 0) [
  | yes e ↦
      let left : 2 * (a / 2) ≡ a = omega (arith, e) in
      let right : 2 * (b / 2) ≡ b = omega (arith, e) in
      rw (bit_or-lowest a b (omega (arith, e)) (omega (arith, e))) (
        Yields-mono
          (halve_both_lem n (a / 2) (b / 2) (shift + 1) (omega (arith, e)) (omega (arith, e))
            (omega arith))
          λ t h. record {
            first = h.first;
            second = h.second;
            odd = h.odd;
            count = suc h.count;
            counted = omega (arith, h.counted);
            common = λ g i.
                subst (λ z. IsGcd z a b) (shift_twice g h.count)
                  (subst (λ z. IsGcd (2 * (g * 2 ^ h.count)) z b) left
                    (subst (λ z. IsGcd (2 * (g * 2 ^ h.count)) (2 * (a / 2)) z) right
                      (IsGcd-both (g * 2 ^ h.count) (a / 2) (b / 2) (h.common g i))));
          })
  | no ne ↦
      let one : OneOdd a b = omega (arith, ne) in
      rw (not_both a b one) (
        yields (record {
          first = p;
          second = q;
          odd = one;
          count = 0;
          counted = omega arith;
          common = λ g i. subst (λ z. IsGcd z a b) (omega arith) i;
        }))
]

abbrev pub magnitude : ℤ → ℕ
magnitude z = pos_part z + neg_part z

pub IsGcd-le : {g a b : ℕ} → 0 < a → IsGcd g a b → g ≤ a
IsGcd-le {g} {a} p i = let (k, e) = i.left in factor k e
  where
    factor : (k : ℕ) → a ≡ k * g → g ≤ a
    factor zero e = absurd (omega (arith, e))
    factor (suc k) e = grind arith

pub IsGcd-positive : {g a b : ℕ} → 0 < a → IsGcd g a b → 0 < g
IsGcd-positive {g} {a} p i = let (k, e) = i.left in factor g k e
  where
    factor : (g k : ℕ) → a ≡ k * g → 0 < g
    factor zero k e = absurd (grind arith)
    factor (suc g) k e = omega arith

-- The result of gcd: 1 where one of the numbers is 0, the greatest common divisor elsewhere.
pub record Common (a b : ℤ) (g : ℕ) : Type 0 where
  pub positive : 0 < g
  pub left : Divides g (magnitude a)
  pub right : Divides g (magnitude b)
  pub with_zero : (magnitude a ≡ 0) ⊎ (magnitude b ≡ 0) → g ≡ 1
  pub greatest : 0 < magnitude a → 0 < magnitude b → IsGcd g (magnitude a) (magnitude b)

gcd_nonzero :
    (a b : ℤ)
    → 0 < magnitude a
    → 0 < magnitude b
    → magnitude a < 2 ^ 31
    → magnitude b < 2 ^ 31
    → Yields (λ g. IsGcd g (magnitude a) (magnitude b)) (gcd a b)
unfolding gcd
gcd_nonzero a b p q r s =
    rw
      (
        not_zero (magnitude a) (omega (arith, p)),
        not_zero (magnitude b) (omega (arith, q)),
        lt→ltb (magnitude a) (2 ^ 31) r,
        lt→ltb (magnitude b) (2 ^ 31) s,
      )
      (Yields-bind
        (halve_both_lem (magnitude a + magnitude b) (magnitude a) (magnitude b) 0 p q (omega arith))
        λ (x, y, n) h.
          Yields-bind (reduce-IsGcd (x + y + 1) x y (omega arith) h.second h.odd) λ g i.
            let counted : h.count ≡ n = omega (arith, h.counted) in
            let whole : IsGcd (g * 2 ^ n) (magnitude a) (magnitude b) =
              subst (λ k. IsGcd (g * 2 ^ k) (magnitude a) (magnitude b)) counted (h.common g i) in
            let fits = IsGcd-le p whole in
            rw (lt→ltb (g * 2 ^ n) (2 ^ 31) (omega (arith, fits, r))) (yields whole))

gcd_zero : (a b : ℤ) → (magnitude a ≡ 0) ⊎ (magnitude b ≡ 0) → Yields (Common a b) (gcd a b)
unfolding gcd
gcd_zero a b z = rw (is_one a b z) (
    yields (record {
      positive = omega arith;
      left = (magnitude a, omega arith);
      right = (magnitude b, omega arith);
      with_zero = λ w. refl;
      greatest =
          λ p q. absurd (elim z [ inl e ↦ omega (arith, e, p) | inr e ↦ omega (arith, e, q) ]);
    }))
  where
    either : (x : Bool) → (x || true) ≡ true
    either true = refl
    either false = refl

    is_one : (a b : ℤ) → (magnitude a ≡ 0) ⊎ (magnitude b ≡ 0) → (is_zero a || is_zero b) ≡ true
    is_one a b (inl e) = rw e refl
    is_one a b (inr e) = rw e (either (magnitude a == 0))

-- gcd ends and does not fault on numbers other than the least int. Where one is 0 it gives 1; elsewhere it gives
-- a common divisor of their magnitudes that every common divisor divides.
pub gcd-Common :
    (a b : ℤ) → magnitude a < 2 ^ 31 → magnitude b < 2 ^ 31 → Yields (Common a b) (gcd a b)
gcd-Common a b r s = elim (ℕ_discrete (magnitude a) 0) [
  | yes e ↦ gcd_zero a b (inl e)
  | no p ↦ elim (ℕ_discrete (magnitude b) 0) [
    | yes e ↦ gcd_zero a b (inr e)
    | no q ↦
        let first : 0 < magnitude a = omega (arith, p) in
        let second : 0 < magnitude b = omega (arith, q) in
        Yields-mono (gcd_nonzero a b first second r s) λ g i. record {
          positive = IsGcd-positive first i;
          left = i.left;
          right = i.right;
          with_zero = λ z. elim z [ inl e ↦ absurd (p e) | inr e ↦ absurd (q e) ];
          greatest = λ u v. i;
        }
  ]
]
