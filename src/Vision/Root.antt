-- ===== src/Vision/Root.antt =====
-- sqrt of math.h, as an assignment to int takes it: the fraction is cut off.
use final.Base.{
  ℕ, zero, suc, ◌+◌, ◌*◌, ◌^◌, ◌≤◌, ◌<◌, arith, leb, if◌then◌else◌, ◌≡◌, Bool-cases, inl, inr,
  leb→le, not_leb→lt, subst,
}

-- The binary digits of the root below the k-th, from the highest on, above those found so far.
abbrev root_digits : ℕ → ℕ → ℕ → ℕ
root_digits zero r n = r
root_digits (suc k) r n =
    root_digits k (if leb ((r + 2 ^ k) * (r + 2 ^ k)) n then r + 2 ^ k else r) n

-- The root of a number below 2 ^ 32 has 16 digits.
unfoldable pub int_sqrt : ℕ → ℕ
int_sqrt n = root_digits 16 0 n

abbrev IsRoot : ℕ → ℕ → Type 0
IsRoot n r = (r * r ≤ n) × (n < (r + 1) * (r + 1))

root_digits-IsRoot :
    (k r n : ℕ) → r * r ≤ n → n < (r + 2 ^ k) * (r + 2 ^ k) → IsRoot n (root_digits k r n)
root_digits-IsRoot zero r n lo hi = (lo, hi)
root_digits-IsRoot (suc k) r n lo hi =
    let twice : 2 ^ suc k ≡ 2 ^ k + 2 ^ k = omega arith in
    elim (Bool-cases (leb ((r + 2 ^ k) * (r + 2 ^ k)) n)) [
      | inl y ↦
          let wider : r + 2 ^ suc k ≡ r + 2 ^ k + 2 ^ k = omega (arith, twice) in
          rw y (root_digits-IsRoot k (r + 2 ^ k) n (leb→le _ _ y) (subst (λ z. n < z * z) wider hi))
      | inr o ↦ rw o (root_digits-IsRoot k r n lo (not_leb→lt _ _ o))
    ]

pub int_sqrt-IsRoot : (n : ℕ) → n < 2 ^ 32 → IsRoot n (int_sqrt n)
unfolding int_sqrt
int_sqrt-IsRoot n p = root_digits-IsRoot 16 0 n (omega arith) p
