-- ===== src/Vision/Detect/Biggest.antt =====
-- The search for the blob of the greatest mass.
use final.Base.{
  ℕ, ◌+◌, ◌≤◌, ◌<◌, ◌≡◌, refl, arith, ltb, ◌⊎◌, inl, inr, Bool-cases, ltb→lt, not_ltb→le, Yields,
  yields, ℕ_discrete,
}
use final.Base.Loops.{for_range-Yields}
use final.Vision.Blobs.{Table}
use final.Vision.Blobs.Labelled.{mass_at, entry-eq}
use final.Vision.Detect.{larger, find_biggest}

-- Among the first `n` blobs `r` is one of the greatest mass; of none it is 0.
pub record Greatest (t : Table) (n r : ℕ) : Type 0 where
  pub greatest : (k : ℕ) → k < n → mass_at t k ≤ mass_at t r
  pub among : (r < n) ⊎ ((n ≡ 0) × (r ≡ 0))

larger-Greatest :
    (t : Table) (i r : ℕ)
    → i < t.entries
    → Greatest t i r
    → Yields (Greatest t (i + 1)) (larger t i r)
unfolding larger
larger-Greatest t i r p m =
    let inside : r < t.entries = elim m.among [
      | inl a ↦ omega arith
      | inr (_, e) ↦ omega (arith, e)
    ] in
    rw (entry-eq t i p, entry-eq t r inside)
      (elim (Bool-cases (ltb (mass_at t r) (mass_at t i))) [
        | inl y ↦
            let more = ltb→lt (mass_at t r) (mass_at t i) y in
            rw y (
              yields (record {
                greatest = λ k q. elim (ℕ_discrete k i) [
                  | yes e ↦ rw e (omega arith)
                  | no ne ↦ omega (arith, more, m.greatest k (omega (arith, ne)))
                ];
                among = inl (omega arith);
              }))
        | inr o ↦
            let less = not_ltb→le (mass_at t r) (mass_at t i) o in
            rw o (
              yields (record {
                greatest = λ k q. elim (ℕ_discrete k i) [
                  | yes e ↦ rw e less
                  | no ne ↦ m.greatest k (omega (arith, ne))
                ];
                among = elim m.among [
                  | inl a ↦ inl (omega arith)
                  | inr (_, e) ↦ inl (omega (arith, e))
                ];
              }))
      ])

pub find_biggest-Greatest :
    (t : Table) (n : ℕ) → n ≤ t.entries → Yields (Greatest t n) (find_biggest t n)
unfolding find_biggest
find_biggest-Greatest t n p =
    for_range-Yields (Greatest t) (larger t) n 0 n 0 (omega arith)
      (λ i r a b m. larger-Greatest t i r (omega arith) m)
      (record { greatest = λ k q. absurd (omega arith); among = inr (refl, refl) })
