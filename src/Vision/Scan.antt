-- ===== src/Vision/Scan.antt =====
-- Loops over all pixels but the border, whose rounds change one pixel each.
use final.Base.{
  ℕ, ◌+◌, ◌-◌, ◌*◌, ◌/◌, ◌%◌, ◌≤◌, ◌<◌, ◌≡◌, ◌≢◌, refl, sym, ap, ◌∙◌, subst, arith, Option, ◌⊎◌,
  inl, inr, Yields, Yields-mono, ℕ_discrete,
}
use final.Base.Loops.{for_range, for_range-Yields}
use final.Vision.Image.{Image, index-mod, index-div}

-- A pixel that is not on the border.
pub record Inner (width height row col : ℕ) : Type 0 where
  pub row_low : 1 ≤ row
  pub row_high : row + 1 < height
  pub col_low : 1 ≤ col
  pub col_high : col + 1 < width

-- One pixel was changed to `v`.
pub record Changed (im : Image) (k v : ℕ) (new : Image) : Type 0 where
  pub size : new.size ≡ im.size
  pub at : new.cells k ≡ v
  pub others : (i : ℕ) → k ≢ i → new.cells i ≡ im.cells i

-- Every inner pixel was changed to its value, and the border is as before.
pub record Scanned (width height : ℕ) (value : ℕ → ℕ → ℕ) (old new : Image) : Type 0 where
  pub size : new.size ≡ old.size
  pub inner :
      (row col : ℕ) → Inner width height row col → new.cells (row * width + col) ≡ value row col
  pub border :
      (k : ℕ)
      → ((row col : ℕ) → Inner width height row col → row * width + col ≢ k)
      → new.cells k ≡ old.cells k

index_inj :
    (width r c r' c' : ℕ)
    → c < width
    → c' < width
    → r * width + c ≡ r' * width + c'
    → (r ≡ r') × (c ≡ c')
index_inj width r c r' c' p q e = (
  sym (index-div width r c p) ∙ ap (λ n. n / width) e ∙ index-div width r' c' q,
  sym (index-mod width r c p) ∙ ap (λ n. n % width) e ∙ index-mod width r' c' q,
)

-- Before (r, c) in the order of the loops, or not.
abbrev Done : ℕ → ℕ → ℕ → ℕ → Type 0
Done r c row col = (row < r) ⊎ ((row ≡ r) × (col < c))

abbrev Left : ℕ → ℕ → ℕ → ℕ → Type 0
Left r c row col = (r < row) ⊎ ((row ≡ r) × (c ≤ col))

record Scanning (width height : ℕ) (value : ℕ → ℕ → ℕ) (old : Image) (r c : ℕ) (new : Image)
    : Type 0 where
  pub size : new.size ≡ old.size
  pub done :
      (row col : ℕ)
      → Inner width height row col
      → Done r c row col
      → new.cells (row * width + col) ≡ value row col
  pub left :
      (row col : ℕ)
      → Inner width height row col
      → Left r c row col
      → new.cells (row * width + col) ≡ old.cells (row * width + col)
  pub border :
      (k : ℕ)
      → ((row col : ℕ) → Inner width height row col → row * width + col ≢ k)
      → new.cells k ≡ old.cells k

apart :
    {width height : ℕ} (r c row col : ℕ)
    → Inner width height r c
    → Inner width height row col
    → (r ≢ row) ⊎ (c ≢ col)
    → r * width + c ≢ row * width + col
apart {width} r c row col a b ne e =
    let (p, q) =
      index_inj width r c row col (omega (arith, a.col_high)) (omega (arith, b.col_high)) e in
    elim ne [ inl n ↦ n p | inr n ↦ n q ]

earlier_col : {r c row col : ℕ} → Done r (c + 1) row col → r ≡ row → c ≢ col → Done r c row col
earlier_col (inl p) e ne = inl p
earlier_col (inr (f, p)) e ne = inr (f, omega (arith, ne))

earlier_row : {r c row col : ℕ} → Done r (c + 1) row col → r ≢ row → Done r c row col
earlier_row (inl p) ne = inl p
earlier_row (inr (f, p)) ne = absurd (ne (sym f))

module _ {width height : ℕ} {value : ℕ → ℕ → ℕ} {old : Image} where
  Scanning-next :
      (r c : ℕ) (im new : Image)
      → Inner width height r c
      → Scanning width height value old r c im
      → Changed im (r * width + c) (value r c) new
      → Scanning width height value old r (c + 1) new
  Scanning-next r c im new inside m ch = record {
    size = ch.size ∙ m.size;
    done = λ row col i d. elim (ℕ_discrete r row) [
      | yes e ↦ elim (ℕ_discrete c col) [
        | yes f ↦
            subst (λ x. new.cells (x * width + col) ≡ value x col) e
              (subst (λ y. new.cells (r * width + y) ≡ value r y) f ch.at)
        | no ne ↦
            ch.others (row * width + col) (apart r c row col inside i (inr ne))
            ∙ m.done row col i (earlier_col d e ne)
      ]
      | no ne ↦
          ch.others (row * width + col) (apart r c row col inside i (inl ne))
          ∙ m.done row col i (earlier_row d ne)
    ];
    left = λ row col i d.
        ch.others (row * width + col) (
          apart r c row col inside i
            (elim d [ inl n ↦ inl (omega arith) | inr (_, n) ↦ inr (omega arith) ]))
        ∙ m.left row col i (elim d [ inl n ↦ inl n | inr (e, n) ↦ inr (e, omega arith) ]);
    border = λ k out. ch.others k (out r c inside) ∙ m.border k out;
  }

  module _ (body : ℕ → ℕ → Image → Option Image)
      (changes : (r c : ℕ) (im : Image)
        → Inner width height r c
        → im.size ≡ old.size
        → im.cells (r * width + c) ≡ old.cells (r * width + c)
        → Yields (Changed im (r * width + c) (value r c)) (body r c im)) where
    scan_row :
        (r : ℕ) (im : Image)
        → 1 ≤ r
        → r + 1 < height
        → Scanning width height value old r 1 im
        → Yields (Scanning width height value old (r + 1) 1) (for_range (width - 2) 1 (body r) im)
    scan_row r im p q m =
        Yields-mono
          (for_range-Yields (Scanning width height value old r) (body r) (width - 2) 1
            (1 + (width - 2)) im refl
            (λ c t a b n.
              let inside : Inner width height r c = record {
                row_low = p;
                row_high = q;
                col_low = a;
                col_high = omega arith;
              } in
              Yields-mono
                (changes r c t inside n.size (n.left r c inside (inr (refl, omega arith))))
                λ new ch. Scanning-next r c t new inside n ch)
            m)
          λ new n. record {
            size = n.size;
            done = λ row col i d. n.done row col i (elim d [
              | inl less ↦ elim (ℕ_discrete row r) [
                | yes e ↦ inr (e, omega (arith, i.col_high))
                | no ne ↦ inl (omega (arith, ne))
              ]
              | inr (e, less) ↦ absurd (omega (arith, i.col_low))
            ]);
            left = λ row col i d.
                n.left row col i (elim d [
                  | inl more ↦ inl (omega arith)
                  | inr (e, more) ↦ inl (omega (arith, e))
                ]);
            border = n.border;
          }

    pub scan :
        Yields
          (Scanned width height value old)
          (for_range (height - 2) 1 (λ r. for_range (width - 2) 1 (body r)) old)
    scan =
        Yields-mono
          (for_range-Yields (λ r t. Scanning width height value old r 1 t)
            (λ r. for_range (width - 2) 1 (body r)) (height - 2) 1 (1 + (height - 2)) old refl
            (λ r t a b n. scan_row r t a (omega arith) n)
            (record {
              size = refl;
              done = λ row col i d. absurd (never d i.row_low i.col_low);
              left = λ row col i d. refl;
              border = λ k out. refl;
            }))
          λ new n. record {
            size = n.size;
            inner = λ row col i. n.done row col i (inl (omega (arith, i.row_high)));
            border = n.border;
          }
      where
        never : {row col : ℕ} → Done 1 1 row col → 1 ≤ row → 1 ≤ col → ⊥
        never (inl p) a b = omega arith
        never (inr (e, p)) a b = omega arith
