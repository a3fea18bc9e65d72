-- ===== src/Mmal/Rational/Rounds.antt =====
-- The loops of gcd in mmal_util_rational.c: halving to odd numbers, and rounds of subtraction.

use final.Base.{
  ℕ, zero, suc, ◌+◌, ◌-◌, ◌*◌, ◌/◌, ◌%◌, ◌≤◌, ◌<◌, ◌≡◌, refl, arith, subst, ℕ_discrete, true, false,
  Bool-cases, inl, inr, leb, leb→le, not_leb→lt, lt→ltb, Yields, yields, Yields-mono, Yields-bind,
}
use final.Base.Bits.{bit_and-one}
use final.Mmal.Rational.{is_even, odd_part, subtract_halves, reduce}
use final.Mmal.Rational.Divisors.{IsGcd, IsGcd-swap, IsGcd-zero, IsGcd-double, IsGcd-add}

pub is_even-eq : (x : ℕ) → x % 2 ≡ 0 → is_even x ≡ true
is_even-eq x e = rw (bit_and-one x) (rw e refl)

pub not_even : (x : ℕ) → x % 2 ≡ 1 → is_even x ≡ false
not_even x e = rw (bit_and-one x) (rw e refl)

-- Of x remains the odd y: beside odd numbers it has the same common divisors.
record OddPart (x y : ℕ) : Type 0 where
  pub positive : 0 < y
  pub odd : y % 2 ≡ 1
  pub below : y ≤ x
  pub same : x % 2 ≡ 1 → y ≡ x
  pub common : (g b : ℕ) → b % 2 ≡ 1 → IsGcd g y b → IsGcd g x b

odd_part_lem : (n x : ℕ) → 0 < x → x ≤ n → Yields (OddPart x) (odd_part n x)
unfolding odd_part
odd_part_lem zero x p q = absurd (omega arith)
odd_part_lem (suc n) x p q = elim (ℕ_discrete (x % 2) 0) [
  | yes e ↦
      let twice : 2 * (x / 2) ≡ x = omega (arith, e) in
      rw (is_even-eq x e) (
        Yields-mono (odd_part_lem n (x / 2) (omega (arith, e)) (omega arith)) λ y o. record {
          positive = o.positive;
          odd = o.odd;
          below = omega (arith, o.below);
          same = λ f. absurd (omega (arith, e, f));
          common = λ g b f i.
              subst (λ z. IsGcd g z b) twice (IsGcd-double g (x / 2) b f (o.common g b f i));
        })
  | no ne ↦
      let odd : x % 2 ≡ 1 = omega (arith, ne) in
      rw (not_even x odd) (
        yields (record {
          positive = p;
          odd = odd;
          below = omega arith;
          same = λ f. refl;
          common = λ g b f i. i;
        }))
]

abbrev pub OneOdd : ℕ → ℕ → Type 0
OneOdd a b = 0 < a % 2 + b % 2

-- The next pair is smaller, and has the same greatest common divisor.
record Rounded (a b : ℕ) (next : ℕ × ℕ) : Type 0 where
  pub smaller : next.0 + next.1 < a + b
  pub positive : 0 < next.1
  pub odd : OneOdd next.0 next.1
  pub common : (g : ℕ) → IsGcd g next.0 next.1 → IsGcd g a b

IsGcd-apart : (g x y : ℕ) → x % 2 ≡ 1 → y % 2 ≡ 1 → y ≤ x → IsGcd g ((x - y) / 2) y → IsGcd g x y
IsGcd-apart g x y o r le i =
    let whole : 2 * ((x - y) / 2) + y ≡ x = omega (arith, o, r) in
    subst (λ z. IsGcd g z y) whole
      (IsGcd-add g (2 * ((x - y) / 2)) y (IsGcd-double g ((x - y) / 2) y r i))

OddPart-common :
    {a b x y : ℕ} (g : ℕ) → OneOdd a b → OddPart a x → OddPart b y → IsGcd g x y → IsGcd g a b
OddPart-common {a} {b} {x} {y} g one p q i =
    let half : IsGcd g x b = IsGcd-swap (q.common g x p.odd (IsGcd-swap i)) in
    elim (ℕ_discrete (b % 2) 1) [
      | yes e ↦ p.common g b e half
      | no ne ↦ subst (λ z. IsGcd g z b) (p.same (omega (arith, one, ne))) half
    ]

subtract_halves_lem :
    (a b : ℕ) → 0 < a → 0 < b → OneOdd a b → Yields (Rounded a b) (subtract_halves a b)
unfolding subtract_halves
subtract_halves_lem a b pa pb one = Yields-bind (odd_part_lem a a pa (omega arith)) λ x p.
    Yields-bind (odd_part_lem b b pb (omega arith)) λ y q. elim (Bool-cases (leb y x)) [
      | inl t ↦
          let le = leb→le y x t in
          rw t (
            yields (record {
              smaller = omega (arith, p.below, q.below, p.positive);
              positive = q.positive;
              odd = omega (arith, q.odd);
              common = λ g i. OddPart-common g one p q (IsGcd-apart g x y p.odd q.odd le i);
            }))
      | inr f ↦
          let lt = not_leb→lt y x f in
          rw f (
            yields (record {
              smaller = omega (arith, p.below, q.below, q.positive, lt);
              positive = omega (arith, lt, p.odd, q.odd);
              odd = omega (arith, p.odd);
              common = λ g i.
                  OddPart-common g one p q
                    (IsGcd-swap (IsGcd-apart g y x q.odd p.odd (omega (arith, lt)) (IsGcd-swap i)));
            }))
    ]

pub reduce-IsGcd :
    (n a b : ℕ) → a + b < n → 0 < b → OneOdd a b → Yields (λ g. IsGcd g a b) (reduce n a b)
unfolding reduce
reduce-IsGcd zero a b p q one = absurd (omega arith)
reduce-IsGcd (suc n) zero b p q one = yields (IsGcd-zero b)
reduce-IsGcd (suc n) (suc a) b p q one = rw (lt→ltb 0 (suc a) (omega arith)) (
    Yields-bind (subtract_halves_lem (suc a) b (omega arith) q one) λ (x, y) r.
      Yields-mono (reduce-IsGcd n x y (omega (arith, r.smaller)) r.positive r.odd) r.common)
