-- ===== src/Mmal/Rational/Tests.antt =====
-- Fractions at concrete numbers.
use final.Base.{true, ◌↔◌, ◌≡◌, refl, arith, some, none, subst, sym, ◌<◌, ◌^◌, Yields}
use final.Base.Int.{pos, negsuc, ◌*ℤ◌, ◌+ℤ◌, ◌-ℤ◌}
use final.Mmal.Rational.{
  add, subtract, equal, Rational, gcd, halve_both, odd_part, subtract_halves, reduce, simplify,
  multiply, divide, from_fixed_16_16, to_fixed_16_16,
}
use final.Mmal.Rational.Gcd.{Common, gcd-Common}
use final.Mmal.Rational.Simplest.{Simplified, simplify-Simplified}
use final.Mmal.Rational.Product.{Product, Ratio, multiply-Product, divide-Ratio}
use final.Mmal.Rational.Factors.{magnitude-times}
use final.Mmal.Rational.Sum.{SumFits, Reduces, add-Reduces}
use final.Mmal.Rational.Equal.{equal_iff}
use final.Mmal.Rational.Fixed.{to_fixed_16_16-from_fixed_16_16}

gcd_of_84 : gcd (negsuc 83) (pos 120) ≡ some 12
unfolding gcd halve_both odd_part subtract_halves reduce
gcd_of_84 = refl

gcd-Common_example : Yields (Common (negsuc 83) (pos 120)) (gcd (negsuc 83) (pos 120))
gcd-Common_example = gcd-Common (negsuc 83) (pos 120) (omega arith) (omega arith)

abbrev frame_rate : Rational
frame_rate = record { num = pos 30000; den = pos 1000 }

frame_rate_simplified : simplify frame_rate ≡ some (record { num = pos 30; den = pos 1 })
unfolding simplify gcd halve_both odd_part subtract_halves reduce
frame_rate_simplified = refl

simplify-Simplified_example : Yields (Simplified frame_rate) (simplify frame_rate)
simplify-Simplified_example = simplify-Simplified frame_rate (omega arith) (omega arith)

abbrev third : Rational
third = record { num = pos 1; den = pos 3 }

abbrev minus_half : Rational
minus_half = record { num = negsuc 5; den = pos 12 }

third_of_minus_half : multiply minus_half third ≡ some (record { num = negsuc 1; den = pos 12 })
unfolding multiply gcd halve_both odd_part subtract_halves reduce ◌*ℤ◌
third_of_minus_half = refl

multiply-Product_example :
    Yields (Product (negsuc 5) (pos 1) (pos 12) (pos 3)) (multiply minus_half third)
multiply-Product_example =
    multiply-Product minus_half third (record { num = omega arith; den = omega arith })
      (record { num = omega arith; den = omega arith })
      (subst (λ n. n < 2 ^ 31) (sym (magnitude-times (negsuc 5) (pos 1))) (omega arith))
      (subst (λ n. n < 2 ^ 31) (sym (magnitude-times (pos 12) (pos 3))) (omega arith))

divided_by_zero : divide third (record { num = pos 0; den = pos 5 }) ≡ none
unfolding divide
divided_by_zero = refl

divide-Ratio_example : Yields (Ratio minus_half third) (divide minus_half third)
divide-Ratio_example =
    divide-Ratio minus_half third (record { num = omega arith; den = omega arith })
      (record { num = omega arith; den = omega arith }) (omega arith)
      (subst (λ n. n < 2 ^ 31) (sym (magnitude-times (negsuc 5) (pos 3))) (omega arith))
      (subst (λ n. n < 2 ^ 31) (sym (magnitude-times (pos 12) (pos 1))) (omega arith))

SumFits-halves : SumFits minus_half third
SumFits-halves = record {
  first = record { num = omega arith; den = omega arith };
  second = record { num = omega arith; den = omega arith };
  terms = omega arith;
  dens = omega arith;
}

sum_of_parts : add minus_half third ≡ some (record { num = negsuc 1; den = pos 12 })
unfolding add gcd halve_both odd_part subtract_halves reduce ◌*ℤ◌ ◌+ℤ◌
sum_of_parts = refl

add-Reduces_example :
    Yields (Reduces (negsuc 5 *ℤ pos 3 +ℤ pos 1 *ℤ pos 12) (pos 12 *ℤ pos 3)) (add minus_half third)
add-Reduces_example = add-Reduces minus_half third SumFits-halves

difference_of_parts : subtract minus_half third ≡ some (record { num = negsuc 9; den = pos 12 })
unfolding subtract add gcd halve_both odd_part subtract_halves reduce ◌*ℤ◌ ◌+ℤ◌ ◌-ℤ◌
difference_of_parts = refl

equal_iff_example : (equal minus_half third ≡ true) ↔ (negsuc 5 *ℤ pos 3 ≡ pos 1 *ℤ pos 12)
equal_iff_example = equal_iff minus_half third (omega arith) (omega arith)

half_back : to_fixed_16_16 (record { num = negsuc 0; den = pos 2 }) ≡ negsuc 32767
unfolding to_fixed_16_16 ◌*ℤ◌
half_back = refl

to_fixed_16_16-from_fixed_16_16_example :
    Yields (λ r. to_fixed_16_16 r ≡ negsuc 32767) (from_fixed_16_16 (negsuc 32767))
to_fixed_16_16-from_fixed_16_16_example =
    to_fixed_16_16-from_fixed_16_16 (negsuc 32767) (omega arith)
