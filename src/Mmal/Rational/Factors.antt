-- ===== src/Mmal/Rational/Factors.antt =====
-- Products of ints: what can be taken out of them, and their size. mmal_util_rational.c relies on both.
use final.Base.{ℕ, ◌+◌, ◌*◌, ◌≡◌, refl, sym, ◌∙◌, arith, ap, ◌⊎◌, inl, inr}
use mathlib.Core.Path.{ap₂}
use final.Base.Int.{ℤ, pos, negsuc, pos_part, neg_part, sub_ℕ, ◌*ℤ◌}
use final.Mmal.Rational.Gcd.{magnitude}

-- Differences of the same amount are the same int.
pub same_difference : (a b c d : ℕ) → a + d ≡ c + b → sub_ℕ a b ≡ sub_ℕ c d
same_difference a b c d e = ground arith

pub parts : (a b : ℕ) → pos_part (sub_ℕ a b) + b ≡ a + neg_part (sub_ℕ a b)
parts a b = ground arith

cross :
    (p n x y q m u v : ℕ)
    → p + y ≡ x + n
    → q + v ≡ u + m
    → p * q + n * m + (x * v + y * u) ≡ x * u + y * v + (p * m + n * q)
cross p n x y q m u v e f =
    let a : p * q + y * q ≡ x * q + n * q = spread p y x n q e in
    let b : p * m + y * m ≡ x * m + n * m = spread p y x n m e in
    let c : q * x + v * x ≡ u * x + m * x = spread q v u m x f in
    let d : q * y + v * y ≡ u * y + m * y = spread q v u m y f in grind (arith, a, b, c, d)
  where
    distributed : (a b k : ℕ) → (a + b) * k ≡ a * k + b * k
    distributed a b k = grind arith

    spread : (a b c d k : ℕ) → a + b ≡ c + d → a * k + b * k ≡ c * k + d * k
    spread a b c d k e = sym (distributed a b k) ∙ ap (λ n. n * k) e ∙ distributed c d k

pub sub_ℕ-times : (x y u v : ℕ) → sub_ℕ x y *ℤ sub_ℕ u v ≡ sub_ℕ (x * u + y * v) (x * v + y * u)
unfolding ◌*ℤ◌
sub_ℕ-times x y u v = same_difference _ _ (x * u + y * v) (x * v + y * u) (
    cross (pos_part (sub_ℕ x y)) (neg_part (sub_ℕ x y)) x y (pos_part (sub_ℕ u v))
      (neg_part (sub_ℕ u v)) u v (parts x y) (parts u v))

pub pos-eq : (g : ℕ) → pos g ≡ sub_ℕ g 0
pos-eq g = ground arith

pub times-eq : (g : ℕ) (x : ℤ) → pos g *ℤ x ≡ sub_ℕ (g * pos_part x) (g * neg_part x)
unfolding ◌*ℤ◌
times-eq g x = same_difference _ _ (g * pos_part x) (g * neg_part x) (omega arith)

product-eq :
    (x y : ℤ)
    → x *ℤ y
      ≡ sub_ℕ
          (pos_part x * pos_part y + neg_part x * neg_part y)
          (pos_part x * neg_part y + neg_part x * pos_part y)
unfolding ◌*ℤ◌
product-eq x y = refl

regroup : (g h a b c d : ℕ) → g * a * (h * c) + g * b * (h * d) ≡ g * h * (a * c + b * d)
regroup g h a b c d = grind arith

-- Factors taken out of a product.
pub swapped : (g h : ℕ) (x y : ℤ) → pos g *ℤ x *ℤ (pos h *ℤ y) ≡ pos (g * h) *ℤ (x *ℤ y)
swapped g h x y =
    let a = pos_part x in
    let b = neg_part x in
    let c = pos_part y in
    let d = neg_part y in
    let p = a * c + b * d in
    let n = a * d + b * c in
    ap₂ (λ z w. z *ℤ w) (times-eq g x) (times-eq h y)
    ∙ sub_ℕ-times (g * a) (g * b) (h * c) (h * d)
    ∙ ap₂ sub_ℕ (regroup g h a b c d ∙ padded p n) (regroup g h a b d c ∙ padded n p)
    ∙ sym (
        ap (λ w. pos (g * h) *ℤ w) (product-eq x y)
        ∙ ap (λ z. z *ℤ sub_ℕ p n) (pos-eq (g * h))
        ∙ sub_ℕ-times (g * h) 0 p n)
  where
    padded : (p n : ℕ) → g * h * p ≡ g * h * p + 0 * n
    padded p n = omega arith

magnitude-sub_ℕ : (a b : ℕ) → (a ≡ 0) ⊎ (b ≡ 0) → magnitude (sub_ℕ a b) ≡ a + b
magnitude-sub_ℕ a b (inl e) = ground arith
magnitude-sub_ℕ a b (inr e) = ground arith

pub magnitude-times : (a b : ℤ) → magnitude (a *ℤ b) ≡ magnitude a * magnitude b
unfolding ◌*ℤ◌
magnitude-times (pos n) (pos m) = magnitude-sub_ℕ _ _ (inr (omega arith)) ∙ grind arith
magnitude-times (pos n) (negsuc m) = magnitude-sub_ℕ _ _ (inl (omega arith)) ∙ grind arith
magnitude-times (negsuc n) (pos m) = magnitude-sub_ℕ _ _ (inl (omega arith)) ∙ grind arith
magnitude-times (negsuc n) (negsuc m) = magnitude-sub_ℕ _ _ (inr (omega arith)) ∙ grind arith
