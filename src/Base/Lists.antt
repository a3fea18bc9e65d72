-- ===== src/Base/Lists.antt =====
-- Lists measured by native numbers, and membership of numbers as a test.
use Prim.Native.Nat.{ℕ, zero, suc, ◌+◌}
use mathlib.Core.Path.{◌≡◌, refl, ap}
use mathlib.Core.Logic.{◌≢◌}
use mathlib.Core.Bool.{Bool, true, false, ◌||◌}
use mathlib.Core.List.{List, [], ◌∷◌, ◌++◌}
use mathlib.Core.Option.{Option, none, some}
use native.Mathlib.Omega.{arith}
use final.Base.Tests.{◌==◌}

module _ {ℓ} {A : Type ℓ} where
  abbrev pub length : List A → ℕ
  length [] = 0
  length (x ∷ xs) = suc (length xs)

  abbrev pub get_elem? : List A → ℕ → Option A
  get_elem? [] i = none
  get_elem? (x ∷ xs) zero = some x
  get_elem? (x ∷ xs) (suc i) = get_elem? xs i

  pub length-append : (xs ys : List A) → length (xs ++ ys) ≡ length xs + length ys
  length-append [] ys = omega arith
  length-append (x ∷ xs) ys = omega (arith, length-append xs ys)

-- Whether `a` stands in the list.
abbrev pub has : ℕ → List ℕ → Bool
has a [] = false
has a (x ∷ xs) = (x == a) || has a xs

pub has-append : (a : ℕ) (xs ys : List ℕ) → has a (xs ++ ys) ≡ (has a xs || has a ys)
has-append a [] ys = refl
has-append a (x ∷ xs) ys = ground (arith, has-append a xs ys)

pub ne_of_has : (a b : ℕ) (xs : List ℕ) → has a xs ≡ true → has b xs ≡ false → a ≢ b
ne_of_has a b xs h k e = cc (ap (λ c. has c xs) e)
