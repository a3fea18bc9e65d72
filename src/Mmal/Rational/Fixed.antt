-- ===== src/Mmal/Rational/Fixed.antt =====
-- mmal_rational_from_fixed_16_16 and mmal_rational_to_fixed_16_16.
use final.Base.{
  ℕ, zero, suc, ◌+◌, ◌-◌, ◌*◌, ◌/◌, ◌^◌, ◌<◌, ◌≡◌, refl, sym, ◌∙◌, arith, ap, subst, not_zero,
  Yields, Yields-mono,
}
use final.Base.Int.{ℤ, pos, negsuc, ◌*ℤ◌}
use final.Mmal.Rational.{from_fixed_16_16, to_fixed_16_16, q16_one, quotient_ℤ, clamp}
use final.Mmal.Rational.Gcd.{magnitude}
use final.Mmal.Rational.Simplest.{
  Divided, simplify-Simplified, times_pos, times_negsuc, negative, exact,
}

clamp-eq : (z : ℤ) → magnitude z < 2 ^ 31 → clamp z ≡ z
clamp-eq (pos n) p = ground arith
clamp-eq (negsuc n) p = ground arith

-- The denominator stays positive.
positive_part :
    (g n : ℕ) (d : ℤ) → 0 < g → Divided g (pos n) d → (k : ℕ) × (d ≡ pos k) × (n ≡ k * g)
positive_part g n (pos k) p u = (k, refl, omega (arith, u.size))
positive_part g n (negsuc k) p u =
    let some_of : 0 < suc k * g = grind arith in
    let amount : suc (suc k * g - 1) ≡ suc k * g = omega (arith, some_of) in
    absurd (no_sign (u.product ∙ times_negsuc g k (suc k * g - 1) amount))
  where
    no_sign : {a b : ℕ} → pos a ≡ negsuc b → ⊥
    no_sign e = cc

negsuc-times : (n m b : ℕ) → suc m ≡ suc n * b → negsuc n *ℤ pos b ≡ negsuc m
unfolding ◌*ℤ◌
negsuc-times n m b e =
    negative (0 * b + suc n * 0) (0 * 0 + suc n * b) m (omega arith) (omega (arith, e))

scaled : (g k n b : ℕ) → k * g ≡ b → b * n ≡ n * g * k
scaled g k n b e = ap (λ m. m * n) (sym e) ∙ grind arith

nonzero : (k g : ℕ) → k * g ≡ q16_one → 0 < k
nonzero zero g e = absurd (omega (arith, e))
nonzero (suc k) g e = omega arith

to_fixed-Divided :
    (g k : ℕ) (z num : ℤ)
    → 0 < g
    → k * g ≡ q16_one
    → Divided g z num
    → magnitude z < 2 ^ 31
    → to_fixed_16_16 (record { num = num; den = pos k }) ≡ z
unfolding to_fixed_16_16
to_fixed-Divided g k z (pos n) p e u small =
    let inner =
      ap (λ w. quotient_ℤ w (pos k)) (times_pos n q16_one)
      ∙ ap (λ m. pos (m / k)) (scaled g k n q16_one e)
      ∙ ap pos (exact (n * g) k (nonzero k g e))
      ∙ sym (times_pos g n)
      ∙ sym u.product in
    rw (not_zero (k + 0) (omega (arith, nonzero k g e)), inner) (clamp-eq z small)
to_fixed-Divided g k z (negsuc n) p e u small =
    let some_of : 0 < suc n * g = grind arith in
    let amount : suc (suc n * g - 1) ≡ suc n * g = omega (arith, some_of) in
    let back : z ≡ negsuc (suc n * g - 1) = u.product ∙ times_negsuc g n (suc n * g - 1) amount in
    let m = suc n * q16_one - 1 in
    let whole : suc m ≡ suc n * g * k = omega (arith, scaled g k (suc n) q16_one e) in
    let divided : suc m / k ≡ suc n * g =
      ap (λ a. a / k) whole ∙ exact (suc n * g) k (nonzero k g e) in
    let inner : quotient_ℤ (negsuc n *ℤ pos q16_one) (pos k) ≡ z =
      ap (λ w. quotient_ℤ w (pos k)) (negsuc-times n m q16_one (omega arith))
      ∙ negative 0 (suc m / k) (suc n * g - 1) refl (omega (arith, divided, amount))
      ∙ sym back in
    rw (not_zero (k + 0) (omega (arith, nonzero k g e)), inner) (clamp-eq z small)

-- Every int but the least comes back from its fraction unchanged.
pub to_fixed_16_16-from_fixed_16_16 :
    (fixed : ℤ)
    → magnitude fixed < 2 ^ 31
    → Yields (λ r. to_fixed_16_16 r ≡ fixed) (from_fixed_16_16 fixed)
unfolding from_fixed_16_16
to_fixed_16_16-from_fixed_16_16 fixed p =
    Yields-mono (simplify-Simplified (record { num = fixed; den = pos q16_one }) p (omega arith))
      λ s m.
        let (k, e, f) = positive_part m.factor q16_one s.den m.positive m.den in
        subst (λ d. to_fixed_16_16 (record { num = s.num; den = d }) ≡ fixed) (sym e)
          (to_fixed-Divided m.factor k fixed s.num m.positive (sym f) m.num p)
