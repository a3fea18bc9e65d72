-- ===== src/Mmal/Rational/Product.antt =====
-- mmal_rational_multiply and mmal_rational_divide: products of parts from which common divisors were taken.
use final.Base.{
  ℕ, zero, suc, ◌*◌, ◌^◌, ◌≤◌, ◌<◌, ◌≡◌, refl, ◌∙◌, arith, ap, ℕ_discrete, not_zero, lt→ltb, le→leb,
  Yields, yields, Yields-mono, Yields-bind, some,
}
use mathlib.Core.Path.{ap₂}
use final.Base.Int.{ℤ, pos, pos_part, neg_part, ◌*ℤ◌}
use final.Mmal.Rational.{Rational, multiply, divide, as_int}
use final.Mmal.Rational.Gcd.{magnitude, gcd-Common}
use final.Mmal.Rational.Factors.{swapped, magnitude-times}
use final.Mmal.Rational.Simplest.{Divided, quotient-Divided}

pub as_int-eq : (z : ℤ) → magnitude z < 2 ^ 31 → as_int z ≡ some z
as_int-eq z p =
    rw
      (
        lt→ltb (pos_part z) (2 ^ 31) (omega (arith, p)),
        le→leb (neg_part z) (2 ^ 31) (omega (arith, p)),
      )
      refl

-- What is left of two factors is not more than they were.
pub left_over : (x y g h a b : ℕ) → 0 < g → 0 < h → a ≡ x * g → b ≡ y * h → x * y ≤ a * b
left_over x y (suc g) (suc h) a b p q e f =
    let first : x ≤ a = grind arith in
    let second : y ≤ b = grind arith in
    let some_of : x * y ≤ a * y = grind arith in
    let all : a * y ≤ a * b = grind arith in omega (arith, some_of, all)
left_over x y zero h a b p q e f = absurd (omega (arith, p))
left_over x y (suc g) zero a b p q e f = absurd (omega (arith, q))

-- The parts of `r` are the products of the parts, divided by one positive number.
pub record Product (a b c d : ℤ) (r : Rational) : Type 0 where
  pub factor : ℕ
  pub positive : 0 < factor
  pub num : a *ℤ b ≡ pos factor *ℤ r.num
  pub den : c *ℤ d ≡ pos factor *ℤ r.den

product_int :
    (g h : ℕ) (a b x y : ℤ)
    → 0 < g
    → 0 < h
    → Divided g a x
    → Divided h b y
    → magnitude (a *ℤ b) < 2 ^ 31
    → Yields (λ z. a *ℤ b ≡ pos (g * h) *ℤ z) (as_int (x *ℤ y))
product_int g h a b x y p q u v small =
    let fewer = left_over (magnitude x) (magnitude y) g h _ _ p q u.size v.size in
    rw (as_int-eq (x *ℤ y) (omega (arith, magnitude-times x y, magnitude-times a b, fewer, small)))
      (yields (ap₂ (λ z w. z *ℤ w) u.product v.product ∙ swapped g h x y))

same_factor : (g h : ℕ) (a z : ℤ) → a ≡ pos (h * g) *ℤ z → a ≡ pos (g * h) *ℤ z
same_factor g h a z e = e ∙ ap (λ k. pos k *ℤ z) (grind arith)

pub positive_product : (g h : ℕ) → 0 < g → 0 < h → 0 < g * h
positive_product g h p q = grind arith

-- The ints that multiply and divide work on: none is the least.
pub record Fits (r : Rational) : Type 0 where
  pub num : magnitude r.num < 2 ^ 31
  pub den : magnitude r.den < 2 ^ 31

-- Where the products of the parts are ints, multiply ends and does not fault, and its result is
-- the fraction of these products with both divided by one positive number.
pub multiply-Product :
    (a b : Rational)
    → Fits a
    → Fits b
    → magnitude (a.num *ℤ b.num) < 2 ^ 31
    → magnitude (a.den *ℤ b.den) < 2 ^ 31
    → Yields (Product a.num b.num a.den b.den) (multiply a b)
unfolding multiply
multiply-Product a b fa fb small_num small_den =
    Yields-bind (gcd-Common a.num b.den fa.num fb.den) λ g cg.
      Yields-bind (gcd-Common b.num a.den fb.num fa.den) λ h ch.
        Yields-bind (quotient-Divided g a.num cg.positive cg.left) λ x u.
          Yields-bind (quotient-Divided h b.num ch.positive ch.left) λ y v.
            Yields-bind (product_int g h a.num b.num x y cg.positive ch.positive u v small_num)
              λ n en. Yields-bind (quotient-Divided h a.den ch.positive ch.right) λ z u'.
                Yields-bind (quotient-Divided g b.den cg.positive cg.right) λ w v'.
                  Yields-bind
                    (product_int h g a.den b.den z w ch.positive cg.positive u' v' small_den)
                    λ d ed. yields (record {
                      factor = g * h;
                      positive = positive_product g h cg.positive ch.positive;
                      num = en;
                      den = same_factor g h (a.den *ℤ b.den) d ed;
                    })

divide_parts :
    (a b : Rational)
    → Fits a
    → Fits b
    → 0 < magnitude a.num
    → 0 < magnitude b.num
    → magnitude (a.num *ℤ b.den) < 2 ^ 31
    → magnitude (a.den *ℤ b.num) < 2 ^ 31
    → Yields (Product a.num b.den a.den b.num) (divide a b)
unfolding divide
divide_parts a b fa fb p q small_num small_den =
    rw
      (not_zero (magnitude b.num) (omega (arith, q)), not_zero (magnitude a.num) (omega (arith, p)))
      (Yields-bind (gcd-Common a.num b.num fa.num fb.num) λ g cg.
        Yields-bind (gcd-Common b.den a.den fb.den fa.den) λ h ch.
          Yields-bind (quotient-Divided g a.num cg.positive cg.left) λ x u.
            Yields-bind (quotient-Divided h b.den ch.positive ch.left) λ y v.
              Yields-bind (product_int g h a.num b.den x y cg.positive ch.positive u v small_num)
                λ n en. Yields-bind (quotient-Divided h a.den ch.positive ch.right) λ z u'.
                  Yields-bind (quotient-Divided g b.num cg.positive cg.right) λ w v'.
                    Yields-bind
                      (product_int h g a.den b.num z w ch.positive cg.positive u' v' small_den)
                      λ d ed. yields (record {
                        factor = g * h;
                        positive = positive_product g h cg.positive ch.positive;
                        num = en;
                        den = same_factor g h (a.den *ℤ b.num) d ed;
                      }))

-- The result of a division: `a` itself where it is 0, else the product with the other turned over.
pub record Ratio (a b r : Rational) : Type 0 where
  pub of_zero : magnitude a.num ≡ 0 → r ≡ a
  pub product : 0 < magnitude a.num → Product a.num b.den a.den b.num r

divide_zero :
    (a b : Rational) → magnitude a.num ≡ 0 → 0 < magnitude b.num → Yields (Ratio a b) (divide a b)
unfolding divide
divide_zero a b e q =
    rw (not_zero (magnitude b.num) (omega (arith, q)), e)
      (yields (record { of_zero = λ z. refl; product = λ p. absurd (omega (arith, e, p)) }))

-- On fractions of numbers other than the least int, where the divisor's numerator is not 0 and the
-- products across are ints, divide ends and does not fault. It gives the dividend where that has the
-- numerator 0, and elsewhere the fraction of the products across, both divided by one positive
-- number.
pub divide-Ratio :
    (a b : Rational)
    → Fits a
    → Fits b
    → 0 < magnitude b.num
    → magnitude (a.num *ℤ b.den) < 2 ^ 31
    → magnitude (a.den *ℤ b.num) < 2 ^ 31
    → Yields (Ratio a b) (divide a b)
divide-Ratio a b fa fb q small_num small_den = elim (ℕ_discrete (magnitude a.num) 0) [
  | yes e ↦ divide_zero a b e q
  | no p ↦
      Yields-mono (divide_parts a b fa fb (omega (arith, p)) q small_num small_den)
        λ r m. record { of_zero = λ e. absurd (p e); product = λ x. m }
]
