-- ===== src/Mmal/Rational/Equal.antt =====
-- mmal_rational_equal: the products across are compared.
use final.Base.{
  ℕ, zero, suc, ◌*◌, ◌<◌, ◌≡◌, ◌↔◌, refl, sym, ◌∙◌, arith, ap, subst, ◌⊎◌, inl, inr, true, ==_iff,
  Bool-cases, eq_self,
}
use final.Base.Int.{ℤ, pos, negsuc, pos_part, neg_part, ◌*ℤ◌}
use final.Mmal.Rational.{Rational, equal, eq_ℤ, is_zero}
use final.Mmal.Rational.Gcd.{magnitude}
use final.Mmal.Rational.Factors.{magnitude-times}

eq_ℤ→≡ : (a b : ℤ) → eq_ℤ a b ≡ true → a ≡ b
eq_ℤ→≡ (pos n) (pos m) e = ap pos (ground arith)
eq_ℤ→≡ (pos n) (negsuc m) e = absurd (ground arith)
eq_ℤ→≡ (negsuc n) (pos m) e = absurd (ground arith)
eq_ℤ→≡ (negsuc n) (negsuc m) e = ap negsuc (ground arith)

eq_ℤ_self : (a : ℤ) → eq_ℤ a a ≡ true
eq_ℤ_self a = rw (eq_self (pos_part a), eq_self (neg_part a)) refl

pub eq_ℤ_iff : (a b : ℤ) → (eq_ℤ a b ≡ true) ↔ (a ≡ b)
eq_ℤ_iff a b = (eq_ℤ→≡ a b, λ e. subst (λ c. eq_ℤ a c ≡ true) e (eq_ℤ_self a))

factor_zero : (m n : ℕ) → m * n ≡ 0 → (m ≡ 0) ⊎ (n ≡ 0)
factor_zero zero n e = inl refl
factor_zero (suc m) n e = inr (grind arith)

one_zero : (a b : ℤ) → is_zero (a *ℤ b) ≡ true → (magnitude a ≡ 0) ⊎ (magnitude b ≡ 0)
one_zero a b e =
    factor_zero (magnitude a) (magnitude b)
      (sym (magnitude-times a b) ∙ (==_iff (magnitude (a *ℤ b)) 0).0 e)

only_zero : (a : ℤ) → magnitude a ≡ 0 → a ≡ pos 0
only_zero (pos n) e = ap pos (omega (arith, e))
only_zero (negsuc n) e = absurd (omega (arith, e))

-- Where one numerator is 0 and the products across are the same, so is the other.
both_zero : (a b c d : ℤ) → 0 < magnitude d → magnitude a ≡ 0 → a *ℤ c ≡ b *ℤ d → a ≡ b
both_zero a b c d q e f =
    let none_left : magnitude b * magnitude d ≡ 0 =
      sym (magnitude-times b d)
      ∙ ap magnitude (sym f)
      ∙ magnitude-times a c
      ∙ ap (λ n. n * magnitude c) e
      ∙ omega arith in
    elim (factor_zero (magnitude b) (magnitude d) none_left) [
      | inl z ↦ only_zero a e ∙ sym (only_zero b z)
      | inr z ↦ absurd (omega (arith, q, z))
    ]

-- Two fractions with denominators other than 0 are equal exactly where the products across are the same.
pub equal_iff :
    (a b : Rational)
    → 0 < magnitude a.den
    → 0 < magnitude b.den
    → (equal a b ≡ true) ↔ (a.num *ℤ b.den ≡ b.num *ℤ a.den)
unfolding equal
equal_iff a b p q = elim (Bool-cases (eq_ℤ a.num b.num)) [
  | inl y ↦ rw y (eq_ℤ_iff (a.num *ℤ b.den) (b.num *ℤ a.den))
  | inr n ↦
      let differ : ¬ (a.num ≡ b.num) = λ e. cc (n, (eq_ℤ_iff a.num b.num).1 e) in
      elim (Bool-cases (is_zero (a.num *ℤ b.num))) [
        | inr o ↦ rw (n, o) (eq_ℤ_iff (a.num *ℤ b.den) (b.num *ℤ a.den))
        | inl y ↦
            rw (n, y)
              (
                λ e. absurd (ground arith),
                λ e. absurd (
                    differ (elim (one_zero a.num b.num y) [
                      | inl z ↦ both_zero a.num b.num b.den a.den p z e
                      | inr z ↦ sym (both_zero b.num a.num a.den b.den q z (sym e))
                    ])),
              )
      ]
]
