-- ===== src/Mmal/Rational/Simplest.antt =====
-- mmal_rational_simplify: the same fraction, with nothing left to divide both parts by.
use final.Base.{
  ℕ, zero, suc, ◌+◌, ◌*◌, ◌/◌, ◌^◌, ◌<◌, ◌≡◌, refl, sym, ◌∙◌, arith, ap, ◌⊎◌, not_zero, Yields,
  yields, Yields-bind,
}
use mathlib.Core.Path.{ap₂}
use final.Base.Int.{ℤ, pos, negsuc, sub_ℕ, ◌*ℤ◌}
use final.Mmal.Rational.{Rational, quotient, simplify}
use final.Mmal.Rational.Divisors.{Divides, IsGcd}
use final.Mmal.Rational.Gcd.{magnitude, gcd-Common}

-- `b` is `a` divided by `g`, with the sign of `a`.
pub record Divided (g : ℕ) (a b : ℤ) : Type 0 where
  pub product : a ≡ pos g *ℤ b
  pub size : magnitude a ≡ magnitude b * g

pub exact : (k g : ℕ) → 0 < g → k * g / g ≡ k
exact k g p = grind arith

pub times_pos : (g k : ℕ) → pos g *ℤ pos k ≡ pos (k * g)
unfolding ◌*ℤ◌
times_pos g k = ground arith

pub negative : (a b n : ℕ) → a ≡ 0 → b ≡ suc n → sub_ℕ a b ≡ negsuc n
negative a b n e f = ground arith

pub times_negsuc : (g k n : ℕ) → suc n ≡ suc k * g → pos g *ℤ negsuc k ≡ negsuc n
unfolding ◌*ℤ◌
times_negsuc g k n e =
    negative (g * 0 + 0 * suc k) (g * suc k + 0 * 0) n (omega arith) (sym (e ∙ grind arith))

pub quotient-Divided :
    (g : ℕ) (a : ℤ) → 0 < g → Divides g (magnitude a) → Yields (Divided g a) (quotient a g)
quotient-Divided g (pos n) p (k, e) =
    let amount : n ≡ k * g = omega (arith, e) in
    let whole : n / g ≡ k = ap (λ m. m / g) amount ∙ exact k g p in
    rw (not_zero g (omega (arith, p)), whole)
      (yields
        (record { product = ap pos amount ∙ sym (times_pos g k); size = omega (arith, amount) }))
quotient-Divided g (negsuc n) p (zero, e) = absurd (omega (arith, e))
quotient-Divided g (negsuc n) p (suc k, e) =
    let amount : suc n ≡ suc k * g = omega (arith, e) in
    let whole : suc n / g ≡ suc k = ap (λ m. m / g) amount ∙ exact (suc k) g p in
    rw (not_zero g (omega (arith, p)), whole)
      (rw (negative 0 (suc k) k refl refl)
        (yields (record { product = sym (times_negsuc g k n amount); size = grind arith })))

-- The fraction `s` is `r` with both parts divided by one number, and in lowest terms unless a part of `r` is 0.
pub record Simplified (r s : Rational) : Type 0 where
  pub factor : ℕ
  pub positive : 0 < factor
  pub num : Divided factor r.num s.num
  pub den : Divided factor r.den s.den
  pub lowest :
      0 < magnitude r.num
      → 0 < magnitude r.den
      → (d : ℕ) → Divides d (magnitude s.num)
      → Divides d (magnitude s.den)
      → d ≡ 1
  pub with_zero : (magnitude r.num ≡ 0) ⊎ (magnitude r.den ≡ 0) → s ≡ r

no_factor : (d m g : ℕ) → 0 < g → g ≡ m * (d * g) → d ≡ 1
no_factor zero m g p e = absurd (grind arith)
no_factor (suc zero) m g p e = refl
no_factor (suc (suc d)) zero g p e = absurd (omega (arith, e))
no_factor (suc (suc d)) (suc m) g p e = absurd (grind arith)

IsGcd-lowest :
    {g x y : ℕ} (a b d : ℕ)
    → 0 < g
    → IsGcd g a b
    → a ≡ x * g
    → b ≡ y * g
    → Divides d x
    → Divides d y
    → d ≡ 1
IsGcd-lowest {g} a b d p i e f (k, u) (l, v) =
    let (m, h) =
      i.greatest (d * g) (k, e ∙ ap (λ n. n * g) u ∙ shared k)
        (l, f ∙ ap (λ n. n * g) v ∙ shared l) in
    no_factor d m g p h
  where
    shared : (n : ℕ) → n * d * g ≡ n * (d * g)
    shared n = grind arith

pub times_one : (b : ℤ) → pos 1 *ℤ b ≡ b
unfolding ◌*ℤ◌
times_one (pos n) = ground arith
times_one (negsuc n) = ground arith

same_quotient : (g : ℕ) (a b : ℤ) → g ≡ 1 → Divided g a b → b ≡ a
same_quotient g a b one d = sym (times_one b) ∙ ap (λ k. pos k *ℤ b) (sym one) ∙ sym d.product

-- simplify ends and does not fault on a fraction of numbers other than the least int. It divides both parts by
-- one positive number; then no number but 1 divides both, unless a part was 0: such a fraction stays as it is.
pub simplify-Simplified :
    (r : Rational)
    → magnitude r.num < 2 ^ 31
    → magnitude r.den < 2 ^ 31
    → Yields (Simplified r) (simplify r)
unfolding simplify
simplify-Simplified r p q = Yields-bind (gcd-Common r.num r.den p q) λ g c.
    Yields-bind (quotient-Divided g r.num c.positive c.left) λ n u.
      Yields-bind (quotient-Divided g r.den c.positive c.right) λ d v. yields (record {
        factor = g;
        positive = c.positive;
        num = u;
        den = v;
        lowest = λ x y k.
            IsGcd-lowest (magnitude r.num) (magnitude r.den) k c.positive (c.greatest x y) u.size
              v.size;
        with_zero = λ z.
            ap₂ (λ x y. record { num = x; den = y }) (same_quotient g r.num n (c.with_zero z) u)
              (same_quotient g r.den d (c.with_zero z) v);
      })
