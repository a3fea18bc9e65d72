-- ===== src/Mmal/Rational/Sum.antt =====
-- mmal_rational_add and mmal_rational_subtract: sums over a common denominator.
use final.Base.{
  ℕ, zero, suc, ◌+◌, ◌*◌, ◌^◌, ◌≤◌, ◌<◌, ◌≡◌, refl, sym, ◌∙◌, arith, ap, subst, ℕ_discrete, inl,
  Yields, yields, Yields-bind,
}
use mathlib.Core.Path.{ap₂}
use final.Base.Int.{ℤ, pos, negsuc, pos_part, neg_part, sub_ℕ, ◌*ℤ◌, ◌+ℤ◌, ◌-ℤ◌}
use final.Mmal.Rational.{Rational, add, subtract, as_int}
use final.Mmal.Rational.Divisors.{Divides}
use final.Mmal.Rational.Gcd.{magnitude, Common, gcd-Common}
use final.Mmal.Rational.Factors.{
  swapped, magnitude-times, same_difference, parts, pos-eq, times-eq, sub_ℕ-times,
}
use final.Mmal.Rational.Simplest.{Divided, quotient-Divided, times_one, times_pos}
use final.Mmal.Rational.Product.{Fits, left_over, as_int-eq, positive_product}

magnitude-plus : (x y : ℤ) → magnitude (x +ℤ y) ≤ magnitude x + magnitude y
unfolding ◌+ℤ◌
magnitude-plus x y = ground arith

sub_ℕ-plus : (a b c d : ℕ) → sub_ℕ a b +ℤ sub_ℕ c d ≡ sub_ℕ (a + c) (b + d)
unfolding ◌+ℤ◌
sub_ℕ-plus a b c d =
    let p = parts a b in
    let q = parts c d in same_difference _ _ (a + c) (b + d) (omega (arith, p, q))

-- A common factor of two terms.
times_sum : (g : ℕ) (x y : ℤ) → pos g *ℤ x +ℤ pos g *ℤ y ≡ pos g *ℤ (x +ℤ y)
unfolding ◌+ℤ◌
times_sum g x y =
    let p = pos_part x + pos_part y in
    let n = neg_part x + neg_part y in
    ap₂ (λ z w. z +ℤ w) (times-eq g x) (times-eq g y)
    ∙ sub_ℕ-plus (g * pos_part x) (g * neg_part x) (g * pos_part y) (g * neg_part y)
    ∙ ap₂ sub_ℕ (grind arith) (grind arith)
    ∙ sym (ap (λ z. z *ℤ sub_ℕ p n) (pos-eq g) ∙ sub_ℕ-times g 0 p n)

pulled : (g : ℕ) (x y : ℤ) → x *ℤ (pos g *ℤ y) ≡ pos g *ℤ (x *ℤ y)
pulled g x y =
    ap (λ z. z *ℤ (pos g *ℤ y)) (sym (times_one x))
    ∙ swapped 1 g x y
    ∙ ap (λ k. pos k *ℤ (x *ℤ y)) (omega arith)

joined : (g h : ℕ) (n : ℤ) → pos g *ℤ (pos h *ℤ n) ≡ pos (g * h) *ℤ n
joined g h n =
    ap (λ z. z *ℤ (pos h *ℤ n)) (ap pos (omega arith) ∙ sym (times_pos g 1))
    ∙ swapped g h (pos 1) n
    ∙ ap (λ z. pos (g * h) *ℤ z) (times_one n)

Divides-le : (g a : ℕ) → 0 < a → Divides g a → g ≤ a
Divides-le g a p (zero, e) = absurd (omega (arith, p, e))
Divides-le g a p (suc k, e) = grind arith

Divides-through : (h g b : ℕ) → Divides h (g + 0) → Divides g b → Divides h b
Divides-through h g b (l, e) (k, f) =
    let same : g ≡ l * h = omega (arith, e) in (k * l, f ∙ ap (λ n. k * n) same ∙ grind arith)

Common-small : {a b : ℤ} {g : ℕ} → magnitude a < 2 ^ 31 → Common a b g → g + 0 < 2 ^ 31
Common-small {a} {b} {g} p c = elim (ℕ_discrete (magnitude a) 0) [
  | yes e ↦ omega (arith, c.with_zero (inl e))
  | no ne ↦ omega (arith, p, Divides-le g (magnitude a) (omega (arith, ne)) c.left)
]

-- `r` is the fraction of `total` and `whole` with both divided by one positive number.
pub record Reduces (total whole : ℤ) (r : Rational) : Type 0 where
  pub factor : ℕ
  pub positive : 0 < factor
  pub num : total ≡ pos factor *ℤ r.num
  pub den : whole ≡ pos factor *ℤ r.den

-- The sizes of the products across, and of that of the denominators, are ints together.
pub record SumFits (a b : Rational) : Type 0 where
  pub first : Fits a
  pub second : Fits b
  pub terms : magnitude a.num * magnitude b.den + magnitude b.num * magnitude a.den < 2 ^ 31
  pub dens : magnitude a.den * magnitude b.den < 2 ^ 31

part_int :
    (g : ℕ) (x y z : ℤ)
    → 0 < g
    → Divided g y z
    → magnitude x * magnitude y < 2 ^ 31
    → Yields (λ w. (w ≡ x *ℤ z) × (magnitude w ≤ magnitude x * magnitude y)) (as_int (x *ℤ z))
part_int g x y z p u small =
    let fewer =
      left_over (magnitude x) (magnitude z) 1 g (magnitude x) (magnitude y) (omega arith) p
        (omega arith) u.size in
    let below : magnitude (x *ℤ z) ≤ magnitude x * magnitude y =
      omega (arith, fewer, magnitude-times x z) in
    rw (as_int-eq (x *ℤ z) (omega (arith, below, small))) (yields (refl, below))

-- Where the products across are small enough, add ends and does not fault, and its result is the sum over the product of
-- the denominators, with both divided by one positive number.
pub add-Reduces :
    (a b : Rational)
    → SumFits a b
    → Yields (Reduces (a.num *ℤ b.den +ℤ b.num *ℤ a.den) (a.den *ℤ b.den)) (add a b)
unfolding add
add-Reduces a b f =
    let fa = f.first in
    let fb = f.second in
    Yields-bind (gcd-Common a.den b.den fa.den fb.den) λ g c.
      Yields-bind (quotient-Divided g a.den c.positive c.left) λ a_den u.
        Yields-bind (quotient-Divided g b.den c.positive c.right) λ b_part v.
          Yields-bind (part_int g a.num b.den b_part c.positive v (omega (arith, f.terms)))
            λ x (ex, bx).
              Yields-bind (part_int g b.num a.den a_den c.positive u (omega (arith, f.terms)))
                λ y (ey, by).
                  let below = magnitude-plus x y in
                  let small : magnitude (x +ℤ y) < 2 ^ 31 = omega (arith, below, bx, by, f.terms) in
                  rw (as_int-eq (x +ℤ y) small) (
                    Yields-bind (gcd-Common (x +ℤ y) (pos g) small (Common-small fa.den c)) λ h k.
                      Yields-bind (quotient-Divided h (x +ℤ y) k.positive k.left) λ n w.
                        Yields-bind
                          (quotient-Divided h b.den k.positive
                            (Divides-through h g (magnitude b.den) k.right c.right))
                          λ z t.
                            let fewer =
                              left_over (magnitude a_den) (magnitude z) g h (magnitude a.den)
                                (magnitude b.den) c.positive k.positive u.size t.size in
                            rw
                              (as_int-eq (a_den *ℤ z)
                                (omega (arith, fewer, magnitude-times a_den z, f.dens)))
                              (yields (record {
                                factor = g * h;
                                positive = positive_product g h c.positive k.positive;
                                num =
                                    ap₂ (λ p q. p +ℤ q)
                                      (ap (λ p. a.num *ℤ p) v.product ∙ pulled g a.num b_part)
                                      (ap (λ p. b.num *ℤ p) u.product ∙ pulled g b.num a_den)
                                    ∙ times_sum g (a.num *ℤ b_part) (b.num *ℤ a_den)
                                    ∙ ap (λ p. pos g *ℤ p)
                                        (ap₂ (λ p q. p +ℤ q) (sym ex) (sym ey) ∙ w.product)
                                    ∙ joined g h n;
                                den = ap₂ (λ p q. p *ℤ q) u.product t.product ∙ swapped g h a_den z;
                              })))

abbrev opposite : ℤ → ℤ
opposite z = pos 0 -ℤ z

magnitude-opposite : (z : ℤ) → magnitude (opposite z) ≡ magnitude z
unfolding ◌-ℤ◌
magnitude-opposite (pos n) = ground arith
magnitude-opposite (negsuc n) = ground arith

sub_ℕ-minus : (a b c d : ℕ) → sub_ℕ a b -ℤ sub_ℕ c d ≡ sub_ℕ (a + d) (b + c)
unfolding ◌-ℤ◌
sub_ℕ-minus a b c d =
    let p = parts a b in
    let q = parts c d in same_difference _ _ (a + d) (b + c) (omega (arith, p, q))

two_parts : (z : ℤ) → z ≡ sub_ℕ (pos_part z) (neg_part z)
two_parts (pos n) = ground arith
two_parts (negsuc n) = ground arith

opposite-parts : (z : ℤ) → opposite z ≡ sub_ℕ (neg_part z) (pos_part z)
unfolding ◌-ℤ◌
opposite-parts z = ap₂ sub_ℕ (omega arith) (omega arith)

minus-plus : (x n d : ℤ) → x +ℤ opposite n *ℤ d ≡ x -ℤ n *ℤ d
minus-plus x n d =
    let a = pos_part n in
    let b = neg_part n in
    let p = pos_part d in
    let q = neg_part d in
    ap₂ (λ z w. z +ℤ w) (two_parts x)
      (ap₂ (λ z w. z *ℤ w) (opposite-parts n) (two_parts d) ∙ sub_ℕ-times b a p q)
    ∙ sub_ℕ-plus (pos_part x) (neg_part x) (b * p + a * q) (b * q + a * p)
    ∙ ap₂ sub_ℕ (omega arith) (omega arith)
    ∙ sym (
        ap₂ (λ z w. z -ℤ w) (two_parts x)
          (ap₂ (λ z w. z *ℤ w) (two_parts n) (two_parts d) ∙ sub_ℕ-times a b p q)
        ∙ sub_ℕ-minus (pos_part x) (neg_part x) (a * p + b * q) (a * q + b * p))

-- Where the products across are small enough, subtract ends and does not fault, and its result is the difference over
-- the product of the denominators, with both divided by one positive number.
pub subtract-Reduces :
    (a b : Rational)
    → SumFits a b
    → Yields (Reduces (a.num *ℤ b.den -ℤ b.num *ℤ a.den) (a.den *ℤ b.den)) (subtract a b)
unfolding subtract
subtract-Reduces a b f =
    let fb = f.second in
    let size = magnitude-opposite b.num in
    let turned = record b { num = opposite b.num } in
    let fits : SumFits a turned = record {
      first = f.first;
      second = record { num = rw size fb.num; den = fb.den };
      terms = rw size f.terms;
      dens = f.dens;
    } in
    rw (as_int-eq (opposite b.num) (rw size fb.num)) (
      subst (λ t. Yields (Reduces t (a.den *ℤ b.den)) (add a turned))
        (minus-plus (a.num *ℤ b.den) b.num a.den) (add-Reduces a turned fits))
