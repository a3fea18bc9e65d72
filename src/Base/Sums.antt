-- ===== src/Base/Sums.antt =====
-- Sums of the first numbers of a family.
use Prim.Native.Nat.{ℕ, zero, suc, ◌+◌, ◌≤◌, ◌<◌}
use mathlib.Core.Path.{◌≡◌, refl}
use mathlib.Core.Logic.{◌≢◌}
use native.Mathlib.Omega.{arith}
use native.Mathlib.Decide.{ℕ_discrete}

abbrev pub total : (ℕ → ℕ) → ℕ → ℕ
total f zero = 0
total f (suc n) = total f n + f n

pub total-ext : (f g : ℕ → ℕ) (n : ℕ) → ((i : ℕ) → i < n → f i ≡ g i) → total f n ≡ total g n
total-ext f g zero same = refl
total-ext f g (suc n) same =
    let before = total-ext f g n (λ i p. same i (omega arith)) in
    omega (arith, before, same n (omega arith))

pub total-zero : (f : ℕ → ℕ) (n : ℕ) → ((i : ℕ) → i < n → f i ≡ 0) → total f n ≡ 0
total-zero f zero none_left = refl
total-zero f (suc n) none_left =
    let before = total-zero f n (λ i p. none_left i (omega arith)) in
    omega (arith, before, none_left n (omega arith))

pub le-total : (f : ℕ → ℕ) (n i : ℕ) → i < n → f i ≤ total f n
le-total f zero i p = absurd (omega arith)
le-total f (suc n) i p = elim (ℕ_discrete i n) [
  | yes e ↦ rw e (omega arith)
  | no ne ↦ let before = le-total f n i (omega arith) in omega (arith, before)
]

-- Two families that differ at one place have sums that differ by as much.
pub total-differ :
    (f g : ℕ → ℕ) (n i : ℕ)
    → i < n
    → ((j : ℕ) → j ≢ i → g j ≡ f j)
    → total g n + f i ≡ total f n + g i
total-differ f g zero i p same = absurd (omega arith)
total-differ f g (suc n) i p same = elim (ℕ_discrete i n) [
  | yes e ↦
      let before = total-ext g f n (λ j q. same j (omega arith)) in rw e (omega (arith, before))
  | no ne ↦
      let before = total-differ f g n i (omega arith) same in
      omega (arith, before, same n (λ q. ne (omega arith)))
]

pub total-next : (f : ℕ → ℕ) (n : ℕ) → total f (n + 1) ≡ total f n + f n
total-next f n = let next : n + 1 ≡ suc n = omega arith in rw next refl

pub total_mono : (f : ℕ → ℕ) (n m : ℕ) → n ≤ m → total f n ≤ total f m
total_mono f n zero p = let none_left : n ≡ 0 = omega arith in rw none_left (omega arith)
total_mono f n (suc m) p = elim (ℕ_discrete n (suc m)) [
  | yes e ↦ rw e (omega arith)
  | no ne ↦ let before = total_mono f n m (omega (arith, ne)) in omega (arith, before)
]
