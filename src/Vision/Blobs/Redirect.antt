-- ===== src/Vision/Blobs/Redirect.antt =====
-- The pass that redirects labels: from each label the pointers lead to the label that it gets.
use final.Base.{
  ℕ, ◌+◌, ◌-◌, ◌≤◌, ◌<◌, ◌≡◌, ◌≢◌, refl, sym, ap, ◌∙◌, subst, arith, ◌==◌, Bool-cases, inl, inr,
  update-all, update_other, Yields, yields, Yields-mono, ==_iff, ℕ_discrete,
}
use final.Base.Loops.{for_range-Yields}
use final.Vision.Blobs.{Blob, Table, redirect_label, redirect}
use final.Vision.Blobs.Labelled.{entry-eq, set_entry-eq, Blobs, Blobs-relabel}

abbrev pub label_at : Table → ℕ → ℕ
label_at t i = let b = t.blob i in b.label

-- From `i` the pointers lead to the end `r` of the chain, which points to itself.
pub data Leads (next : ℕ → ℕ) : ℕ → ℕ → Type 0 where
  ends : {r : ℕ} → next r ≡ r → Leads next r r
  goes : {i r : ℕ} → Leads next (next i) r → Leads next i r

Leads-end : {next : ℕ → ℕ} {i r : ℕ} → Leads next i r → next r ≡ r
Leads-end (ends e) = e
Leads-end (goes l) = Leads-end l

Leads-root : {next : ℕ → ℕ} {i r : ℕ} → next i ≡ i → Leads next i r → r ≡ i
Leads-root e (ends f) = refl
Leads-root {next} e (goes l) = Leads-root (ap next e) l ∙ e

abbrev pub unlabelled : Blob → Blob
unlabelled b = record b { label = 0 }

-- The labels of `u` are the ends of the chains of `t`, and its blobs are those of `t` in all else.
pub record Redirected (t : Table) (count : ℕ) (u : Table) : Type 0 where
  pub entries : u.entries ≡ t.entries
  pub leads : (i : ℕ) → 1 ≤ i → i < count → Leads (label_at t) i (label_at u i)
  pub kept : (i : ℕ) → unlabelled (u.blob i) ≡ unlabelled (t.blob i)
  pub flat : (i : ℕ) → 1 ≤ i → i < count → label_at u (label_at u i) ≡ label_at u i

-- The labels below `i` are redirected.
record Redirecting (width height count active : ℕ) (t : Table) (i : ℕ) (u : Table) : Type 0 where
  pub entries : u.entries ≡ t.entries
  pub blobs : Blobs width height count active u
  pub done : (j : ℕ) → 1 ≤ j → j < i → Leads (label_at t) j (label_at u j)
  pub rest : (j : ℕ) → i ≤ j → label_at u j ≡ label_at t j
  pub kept : (j : ℕ) → unlabelled (u.blob j) ≡ unlabelled (t.blob j)

module _ {width height count active : ℕ} (t : Table) (in_use : count ≤ t.entries) where
  redirects :
      (i : ℕ) (u : Table)
      → 1 ≤ i
      → i < count
      → Redirecting width height count active t i u
      → Yields (Redirecting width height count active t (i + 1)) (redirect_label i u)
  unfolding redirect_label
  redirects i u p q m =
      let e = (let b = m.blobs in b.each i p q) in
      let d = label_at u i in
      let as_before : d ≡ label_at t i = m.rest i (omega arith) in
      rw (entry-eq u i (omega (arith, m.entries))) (elim (Bool-cases (d == i)) [
        | inl y ↦
            let own : d ≡ i = (==_iff d i).0 y in
            let itself : Leads (label_at t) i d =
              subst (λ k. Leads (label_at t) i k) (sym own) (ends (sym as_before ∙ own)) in
            rw y (
              yields (record {
                entries = m.entries;
                blobs = m.blobs;
                done = λ j a b. elim (ℕ_discrete i j) [
                  | yes f ↦ subst (λ k. Leads (label_at t) k (label_at u k)) f itself
                  | no ne ↦ m.done j a (omega (arith, ne))
                ];
                rest = λ j a. m.rest j (omega arith);
                kept = m.kept;
              }))
        | inr n ↦
            let other : d ≢ i = λ q. cc (n, (==_iff d i).1 q) in
            let before : d < i = omega (arith, e.label_high, other) in
            let new : Blob = record (u.blob i) { label = label_at u d } in
            let target = m.blobs.each d e.label_low (omega arith) in
            rw
              (
                n,
                entry-eq u d (omega (arith, m.entries)),
                set_entry-eq u i (record (u.blob i) { label = label_at u d })
                    (omega (arith, m.entries)),
              )
              (yields (record {
                entries = m.entries;
                blobs =
                    Blobs-relabel m.blobs i (label_at u d) target.label_low
                      (λ z. omega (arith, target.label_high));
                done = λ j a b.
                    update-all (λ k c. 1 ≤ k → k < i + 1 → Leads (label_at t) k c.label) u.blob i
                      new j
                      (λ x y. goes (
                        subst (λ k. Leads (label_at t) k (label_at u d)) as_before
                          (m.done d e.label_low before)))
                      (λ ne x y. m.done j x (omega (arith, ne))) a b;
                rest = λ j a.
                    ap (λ c. c.label) (update_other u.blob i new j (omega arith))
                    ∙ m.rest j (omega arith);
                kept = λ j.
                    update-all (λ k c. unlabelled c ≡ unlabelled (t.blob k)) u.blob i new j
                      (m.kept i) (λ ne. m.kept j);
              }))
      ])

  -- On a table of blobs of an image with their masses added up, in which each label in use points to
  -- itself or to an earlier one, the pass does not fault, changes nothing but labels, and gives each
  -- label in use the end of its chain of pointers, which points to itself. The labels still point to
  -- themselves or to earlier ones, and the blobs have the same mass together.
  pub redirect-Redirected :
      1 ≤ count
      → Blobs width height count active t
      → Yields (λ u. Redirected t count u × Blobs width height count active u) (redirect count t)
  unfolding redirect
  redirect-Redirected first m =
      Yields-mono
        (for_range-Yields (Redirecting width height count active t) redirect_label (count - 1) 1
          count t (omega arith) (λ i u p q n. redirects i u p q n)
          (record {
            entries = refl;
            blobs = m;
            done = λ j a b. absurd (omega arith);
            rest = λ j a. refl;
            kept = λ j. refl;
          }))
        λ u n. (
          record {
            entries = n.entries;
            leads = n.done;
            kept = n.kept;
            flat = λ i p q.
                let e = (let b = n.blobs in b.each i p q) in
                let r = label_at u i in
                Leads-root (Leads-end (n.done i p q))
                  (n.done r e.label_low (omega (arith, e.label_high)));
          },
          n.blobs,
        )
