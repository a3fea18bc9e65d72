-- ===== src/Vision/Pixels.antt =====
-- The iterations of two nested loops over rows and columns, as the list of jobs of a thread.
use final.Base.{
  ℕ, zero, suc, ◌+◌, ◌≤◌, ◌<◌, ◌≡◌, refl, Bool, true, Option, some, List, [], ◌∷◌, ◌++◌, arith, inl,
  inr, ◌>>=◌, subst, ℕ_discrete, ◌∙◌, sym, ap, bind_same, bind_assoc,
}
use final.Base.Loops.{for_range}
use final.Vision.Painters.{Covers, All}

pub record Pixel : Type 0 where
  pub row : ℕ
  pub col : ℕ

-- for (c = col; c < col + n; c++)
abbrev pub row_jobs : ℕ → ℕ → ℕ → List Pixel
row_jobs zero row col = []
row_jobs (suc n) row col = record { row = row; col = col } ∷ row_jobs n row (col + 1)

-- for (r = row; r < row + m; r++) for (c = col; c < col + n; c++)
abbrev pub jobs : ℕ → ℕ → ℕ → ℕ → List Pixel
jobs zero n row col = []
jobs (suc m) n row col = row_jobs n row col ++ jobs m n (row + 1) col

abbrev pub run_jobs {ℓ} : {S : Type ℓ} → (Pixel → S → Option S) → List Pixel → S → Option S
run_jobs work [] s = some s
run_jobs work (j ∷ js) s = work j s >>= run_jobs work js

-- Running the jobs in order is running the loops.
module _ {ℓ} {S : Type ℓ} (work : ℕ → ℕ → S → Option S) where
  abbrev at_pixel : Pixel → S → Option S
  at_pixel p = work p.row p.col

  run_row :
      (n row col : ℕ) (s : S)
      → run_jobs at_pixel (row_jobs n row col) s ≡ for_range n col (work row) s
  run_row zero row col s = refl
  run_row (suc n) row col s = bind_same (work row col s) (λ t. run_row n row (col + 1) t)

  run_append :
      (js ks : List Pixel) (s : S)
      → run_jobs at_pixel (js ++ ks) s ≡ (run_jobs at_pixel js s >>= run_jobs at_pixel ks)
  run_append [] ks s = refl
  run_append (j ∷ js) ks s =
      bind_same (work j.row j.col s) (λ t. run_append js ks t)
      ∙ sym (bind_assoc (work j.row j.col s) (run_jobs at_pixel js) (run_jobs at_pixel ks))

  pub run_jobs-jobs :
      (m n row col : ℕ) (s : S)
      → run_jobs at_pixel (jobs m n row col) s ≡ for_range m row (λ r. for_range n col (work r)) s
  run_jobs-jobs zero n row col s = refl
  run_jobs-jobs (suc m) n row col s =
      run_append (row_jobs n row col) (jobs m n (row + 1) col) s
      ∙ ap (λ o. o >>= run_jobs at_pixel (jobs m n (row + 1) col)) (run_row n row col s)
      ∙ bind_same (for_range n col (work row) s) (λ t. run_jobs-jobs m n (row + 1) col t)

module _ (V : Pixel → Type 0) where
  All-append : (js ks : List Pixel) → All V js → All V ks → All V (js ++ ks)
  All-append [] ks p q = q
  All-append (j ∷ js) ks p q = (p.0, All-append js ks p.1 q)

  All-row :
      (n row col : ℕ)
      → ((c : ℕ) → col ≤ c → c < col + n → V (record { row = row; col = c }))
      → All V (row_jobs n row col)
  All-row zero row col v = tt
  All-row (suc n) row col v = (
    v col (omega arith) (omega arith),
    All-row n row (col + 1) (λ c a b. v c (omega arith) (omega arith)),
  )

  -- What holds of all pixels of the rectangle holds of all jobs.
  pub All-jobs :
      (m n row col : ℕ)
      → ((r c : ℕ)
          → row ≤ r
          → r < row + m
          → col ≤ c
          → c < col + n
          → V (record { row = r; col = c }))
      → All V (jobs m n row col)
  All-jobs zero n row col v = tt
  All-jobs (suc m) n row col v =
      All-append (row_jobs n row col) (jobs m n (row + 1) col)
        (All-row n row col (λ c a b. v row c (omega arith) (omega arith) a b))
        (All-jobs m n (row + 1) col (λ r c a b. v r c (omega arith) (omega arith)))

  -- A cell that is written is written by some job that has the property.
  pub Covers-All :
      (touches : Pixel → ℕ → Bool) (k : ℕ) (js : List Pixel)
      → All V js
      → Covers touches k js
      → (j : Pixel) × V j × (touches j k ≡ true)
  Covers-All touches k [] p c = absurd c
  Covers-All touches k (j ∷ js) p (inl t) = (j, p.0, t)
  Covers-All touches k (j ∷ js) p (inr c) = Covers-All touches k js p.1 c

module _ (touches : Pixel → ℕ → Bool) (k : ℕ) where
  Covers-left : (js ks : List Pixel) → Covers touches k js → Covers touches k (js ++ ks)
  Covers-left [] ks c = absurd c
  Covers-left (j ∷ js) ks (inl t) = inl t
  Covers-left (j ∷ js) ks (inr c) = inr (Covers-left js ks c)

  Covers-right : (js ks : List Pixel) → Covers touches k ks → Covers touches k (js ++ ks)
  Covers-right [] ks c = c
  Covers-right (j ∷ js) ks c = inr (Covers-right js ks c)

  Covers-row :
      (n row col c : ℕ)
      → touches (record { row = row; col = c }) k ≡ true
      → col ≤ c
      → c < col + n
      → Covers touches k (row_jobs n row col)
  Covers-row zero row col c t p q = absurd (omega arith)
  Covers-row (suc n) row col c t p q = elim (ℕ_discrete c col) [
    | yes e ↦ inl (subst (λ x. touches (record { row = row; col = x }) k ≡ true) e t)
    | no ne ↦ inr (Covers-row n row (col + 1) c t (omega (arith, ne)) (omega arith))
  ]

  -- The cells of a pixel of the rectangle are written.
  pub Covers-jobs :
      (m n row col r c : ℕ)
      → touches (record { row = r; col = c }) k ≡ true
      → row ≤ r
      → r < row + m
      → col ≤ c
      → c < col + n
      → Covers touches k (jobs m n row col)
  Covers-jobs zero n row col r c t p q a b = absurd (omega arith)
  Covers-jobs (suc m) n row col r c t p q a b = elim (ℕ_discrete r row) [
    | yes e ↦ Covers-left (row_jobs n row col) (jobs m n (row + 1) col) (
        Covers-row n row col c (subst (λ x. touches (record { row = x; col = c }) k ≡ true) e t) a
          b)
    | no ne ↦
        Covers-right (row_jobs n row col) (jobs m n (row + 1) col)
          (Covers-jobs m n (row + 1) col r c t (omega (arith, ne)) (omega arith) a b)
  ]
