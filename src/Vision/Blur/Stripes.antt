-- ===== src/Vision/Blur/Stripes.antt =====
-- blur_par.cpp: the bytes that the 32 stripes of columns cover.

use final.Base.{
  ℕ, ◌+◌, ◌-◌, ◌*◌, ◌/◌, ◌%◌, ◌≤◌, ◌<◌, ◌≡◌, sym, ◌∙◌, arith, subst, true, false, ltb, [], ltb→lt,
  lt→ltb, Bool-cases, inl, inr, ==_iff, if◌then◌else◌, ap,
}
use final.Vision.Image.{Image, index-lt, index-mod}
use final.Vision.Pixels.{Pixel, All-jobs, Covers-All, Covers-jobs}
use final.Vision.Painters.{Covers}
use final.Vision.Blur.{Blur, near_end, blur_args, stripe_jobs, blur_parallel, num_threads}
use final.Vision.Blur.Helper.{paints, columns-le, scaled, next-scaled, inner_parts}

-- Byte `k` belongs to a pixel of the frame that is not near its edges, in a column of some stripe
-- that is not the last column of the stripe.
pub record InStripe (p : Blur) (k : ℕ) : Type 0 where
  pub in_frame : k / 3 < p.frame_height * p.frame_width
  pub row_inner : near_end p (k / 3 / p.frame_width) p.frame_height ≡ false
  pub col_inner : near_end p (k / 3 % p.frame_width) p.frame_width ≡ false
  pub below : k / 3 % p.frame_width < num_threads * (p.frame_width / num_threads)
  pub not_last :
      k / 3 % p.frame_width % (p.frame_width / num_threads) + 1 < p.frame_width / num_threads

-- Those bytes are blurred as in `seq`, and the others are left as in `res`.
pub record Striped (p : Blur) (res seq im : Image) : Type 0 where
  pub size : im.size ≡ seq.size
  pub blurred : (k : ℕ) → InStripe p k → im.cells k ≡ seq.cells k
  pub left_out : (k : ℕ) → ¬ InStripe p k → im.cells k ≡ res.cells k

module _ (p : Blur) (res : Image) (k : ℕ) where
  abbrev pub CoveredBy : ℕ → Type 0
  CoveredBy i = Covers (paints p) k (let s = blur_parallel p res in s.todo i)

  pub InStripe-CoveredBy : InStripe p k → (i : ℕ) × CoveredBy i
  InStripe-CoveredBy m =
      let w = p.frame_width in
      let c = w / num_threads in
      let row = k / 3 / w in
      let col = k / 3 % w in
      let i = col / c in
      let lt : i < num_threads = grind arith in
      let start : i * c ≤ col = grind arith in
      let stop : col < (i + 1) * c - 1 = grind arith in
      let at_row : row < p.frame_height = grind arith in
      let at : row * w + col ≡ k / 3 = grind arith in
      let painted : paints p (record { row = row; col = col }) k ≡ true =
        rw (m.row_inner, m.col_inner) ((==_iff _ _).1 at) in
      (
        i,
        rw (lt→ltb i num_threads lt) (
            Covers-jobs (paints p) k (p.frame_height - 0) ((i + 1) * c - 1 - i * c) 0 (i * c) row
              col painted (omega arith) (omega arith) start (omega (arith, start, stop))),
      )

  abbrev InPart : ℕ → Pixel → Type 0
  InPart i px =
      (px.row < p.frame_height)
      × (i * (p.frame_width / num_threads) ≤ px.col)
      × (px.col < (i + 1) * (p.frame_width / num_threads) - 1)

  pixel-InStripe :
      (i row col : ℕ)
      → i < num_threads
      → InPart i (record { row = row; col = col })
      → near_end p row p.frame_height ≡ false
      → near_end p col p.frame_width ≡ false
      → row * p.frame_width + col ≡ k / 3
      → InStripe p k
  pixel-InStripe i row col lt (a, b, d) e f at =
      let w = p.frame_width in
      let c = w / num_threads in
      let within : (i + 1) * c ≤ w = columns-le w i lt in
      let at_row : k / 3 / w ≡ row = grind arith in
      let at_col : k / 3 % w ≡ col = grind arith in
      let next_part = next-scaled i c in
      let split : i * c + (col - i * c) ≡ col = omega (arith, b) in
      let part : col % c ≡ col - i * c =
        ap (λ n. n % c) (sym split) ∙ index-mod c i (col - i * c) (omega (arith, d, next_part)) in
      let limit = scaled (i + 1) num_threads c (omega arith) in
      record {
        in_frame =
            subst (λ n. n < p.frame_height * w) at
              (index-lt w p.frame_height row col a (omega arith));
        row_inner = rw at_row e;
        col_inner = rw at_col f;
        below = rw at_col (omega arith);
        not_last = rw at_col (rw part (omega arith));
      }

  pub CoveredBy-InStripe : (i : ℕ) → CoveredBy i → InStripe p k
  CoveredBy-InStripe i c = elim (Bool-cases (ltb i num_threads)) [
    | inl y ↦
        let a = blur_args p i in
        let c' : Covers (paints p) k (stripe_jobs p i) =
          subst (λ t. Covers (paints p) k (if t then stripe_jobs p i else [])) y c in
        let (px, part, e) =
          Covers-All (InPart i) (paints p) k (stripe_jobs p i)
            (All-jobs (InPart i) (a.end_row - a.start_row) (a.end_col - a.start_col) a.start_row
              a.start_col (λ r d b f g h. (omega arith, g, omega arith)))
            c' in
        let (e_row, e_col, at) = inner_parts _ _ _ e in
        pixel-InStripe i px.row px.col (ltb→lt i num_threads y) part e_row e_col ((==_iff _ _).0 at)
    | inr o ↦ absurd (subst (λ t. Covers (paints p) k (if t then stripe_jobs p i else [])) o c)
  ]
