-- ===== src/Base/Loops.antt =====
-- Counting loops whose body may fault, and the rule for their invariants.
use Prim.Native.Nat.{ℕ, zero, suc, ◌+◌, ◌-◌, ◌≤◌, ◌<◌}
use mathlib.Core.Path.{◌≡◌, subst}
use mathlib.Core.Option.{Option, some}
use native.Mathlib.Omega.{arith}
use final.Base.Tests.{◌>>=◌, Yields, yields, Yields-bind}

-- for (k = i; k < i + n; k++) s = body k s: recursion on the count of rounds left.
abbrev pub for_range {ℓ} : {S : Type ℓ} → ℕ → ℕ → (ℕ → S → Option S) → S → Option S
for_range zero i body s = some s
for_range (suc n) i body s = body i s >>= λ t. for_range n (i + 1) body t

-- A loop from `i` up to `j` whose rounds keep an invariant does not fault, and ends with it.
pub for_range-Yields {ℓ κ} :
    {S : Type ℓ} (P : ℕ → S → Type κ) (body : ℕ → S → Option S)
    → (n i j : ℕ) (s : S) → i + n ≡ j
    → ((k : ℕ) (t : S) → i ≤ k → k < j → P k t → Yields (P (k + 1)) (body k t))
    → P i s
    → Yields (P j) (for_range n i body s)
for_range-Yields P body zero i j s e round p = yields (subst (λ k. P k s) (omega arith) p)
for_range-Yields P body (suc n) i j s e round p =
    Yields-bind (round i s (omega arith) (omega arith) p) λ t q.
      for_range-Yields P body n (i + 1) j t (omega arith) (λ k u lo hi. round k u (omega arith) hi)
        q

-- The same with the invariant given by the number of rounds that are done.
pub for_range-Rounds {ℓ κ} :
    {S : Type ℓ} (P : ℕ → S → Type κ) (body : ℕ → S → Option S)
    → (n i : ℕ) (s : S) → ((k : ℕ) (t : S) → k < n → P k t → Yields (P (k + 1)) (body (k + i) t))
    → P 0 s
    → Yields (P n) (for_range n i body s)
for_range-Rounds P body n i s round p =
    subst (λ k. Yields (P k) (for_range n i body s)) (omega arith)
      (for_range-Yields (λ j t. P (j - i) t) body n i (i + n) s (omega arith)
        (λ j t lo hi q.
          let at : j - i + i ≡ j = omega arith in
          let next : j - i + 1 ≡ j + 1 - i = omega arith in
          subst (λ k. Yields (λ u. P k u) (body j t)) next
            (subst (λ k. Yields (P (j - i + 1)) (body k t)) at (round (j - i) t (omega arith) q)))
        (subst (λ k. P k s) (omega arith) p))
