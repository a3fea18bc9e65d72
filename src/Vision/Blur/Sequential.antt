-- ===== src/Vision/Blur/Sequential.antt =====
-- src/blur.cpp: every pixel of the result is the weighted average around that pixel of the frame.
use final.Base.{
  ℕ, zero, suc, ◌+◌, ◌*◌, ◌/◌, ◌%◌, ◌≤◌, ◌<◌, ◌≡◌, ◌≢◌, refl, sym, ◌∙◌, Option, none, some, arith,
  ◌==◌, Bool, Yields, yields, Yields-mono, subst, ℕ_discrete, update, update_self, update_other,
  Yields-gives, ap, ==_iff, not_eq, Yields-eq,
}
use final.Base.Loops.{for_range, for_range-Yields}
use final.Vision.Image.{divide-eq, Image, write-eq, int-eq}
use final.Vision.Pixels.{Pixel}
use final.Vision.Painters.{Did}
use final.Vision.Blur.{Blur, Sums, blur_sums, byte, blur_pixel, blur}
use final.Vision.Blur.Weights.{IsBlur, Between}
use final.Vision.Blur.Average.{blur_sums-Averaged}

-- The byte of channel `c` that sums give.
abbrev pub channel_of : Option Sums → ℕ → ℕ
channel_of none c = 0
channel_of (some s) zero = byte (s.new_r / s.blur_value_total)
channel_of (some s) (suc zero) = byte (s.new_g / s.blur_value_total)
channel_of (some s) (suc (suc c)) = byte (s.new_b / s.blur_value_total)

-- Byte `k` of the blurred frame.
unfoldable pub blurred : Blur → ℕ → ℕ
blurred p k = channel_of (blur_sums p (k / 3 / p.frame_width) (k / 3 % p.frame_width)) (k % 3)

abbrev pub touches : ℕ → Pixel → ℕ → Bool
touches width px k = px.row * width + px.col == k / 3

-- Three bytes from `3 * c` on.
abbrev write_three : Image → ℕ → ℕ → ℕ → ℕ → Image
write_three im c r g b = record im {
  cells = update (update (update im.cells (c * 3 + 0) r) (c * 3 + 1) g) (c * 3 + 2) b;
}

module _ (im : Image) (c r g b : ℕ) where
  open (write_three im c r g b) use {cells}

  abbrev after_r : ℕ → ℕ
  after_r = update im.cells (c * 3 + 0) r

  abbrev after_g : ℕ → ℕ
  after_g = update after_r (c * 3 + 1) g

  three-r : cells (c * 3 + 0) ≡ r
  three-r =
      update_other after_g (c * 3 + 2) b (c * 3 + 0) (omega arith)
      ∙ update_other after_r (c * 3 + 1) g (c * 3 + 0) (omega arith)
      ∙ update_self im.cells (c * 3 + 0) r

  three-g : cells (c * 3 + 1) ≡ g
  three-g =
      update_other after_g (c * 3 + 2) b (c * 3 + 1) (omega arith)
      ∙ update_self after_r (c * 3 + 1) g

  three-b : cells (c * 3 + 2) ≡ b
  three-b = update_self after_g (c * 3 + 2) b

  three_other : (k : ℕ) → c ≢ k / 3 → cells k ≡ im.cells k
  three_other k ne =
      update_other after_g (c * 3 + 2) b k (omega (arith, ne))
      ∙ update_other after_r (c * 3 + 1) g k (omega (arith, ne))
      ∙ update_other im.cells (c * 3 + 0) r k (omega (arith, ne))

  -- What holds of each of the three bytes holds of any byte of the pixel.
  three_all :
      (P : ℕ → Type 0) → P (c * 3 + 0) → P (c * 3 + 1) → P (c * 3 + 2) → (k : ℕ) → c ≡ k / 3 → P k
  three_all P p q t k e = elim (ℕ_discrete (c * 3 + 0) k) [
    | yes d ↦ subst P d p
    | no n ↦ elim (ℕ_discrete (c * 3 + 1) k) [
      | yes d ↦ subst P d q
      | no o ↦ subst P (omega (arith, n, o)) t
    ]
  ]

module _ {p : Blur} (ok : IsBlur p) (bytes : Between 0 255 p.frame) where
  blurred-eq :
      (row col i : ℕ)
      → col < p.frame_width
      → i < 3
      → blurred p ((row * p.frame_width + col) * 3 + i) ≡ channel_of (blur_sums p row col) i
  unfolding blurred
  blurred-eq row col i a b =
      let c = row * p.frame_width + col in
      let third : (c * 3 + i) / 3 ≡ c = omega arith in
      let rest : (c * 3 + i) % 3 ≡ i = omega arith in
      let at_row : c / p.frame_width ≡ row = grind arith in
      let at_col : c % p.frame_width ≡ col = grind arith in rw (third, rest, at_row, at_col) refl

  writes :
      (row col : ℕ) (im : Image) (s : Sums)
      → row < p.frame_height
      → col < p.frame_width
      → im.size ≡ p.frame_height * p.frame_width * 3
      → blur_sums p row col ≡ some s
      → 0 < s.blur_value_total
      → blur_pixel p row col im
        ≡ some (
            write_three im
              (row * p.frame_width + col)
              (byte (s.new_r / s.blur_value_total))
              (byte (s.new_g / s.blur_value_total))
              (byte (s.new_b / s.blur_value_total)))
  unfolding blur_pixel
  writes row col im s a b size e pos =
      let c = row * p.frame_width + col in
      let inner : c < p.frame_height * p.frame_width = grind arith in
      let room : c * 3 + 2 < im.size = omega (arith, size) in
      let r = byte (s.new_r / s.blur_value_total) in
      let g = byte (s.new_g / s.blur_value_total) in
      let with_r = record im { cells = update im.cells (c * 3 + 0) r } in
      let with_g = record im { cells = update with_r.cells (c * 3 + 1) g } in
      rw
        (
          int-eq (c * 3) (omega (arith, ok.small)),
          e,
          divide-eq s.new_r s.blur_value_total pos,
          divide-eq s.new_g s.blur_value_total pos,
          divide-eq s.new_b s.blur_value_total pos,
          write-eq im (c * 3 + 0) r (omega arith),
          write-eq with_r (c * 3 + 1) g (omega arith),
          write-eq with_g (c * 3 + 2) (byte (s.new_b / s.blur_value_total)) room,
        )
        refl

  wrote :
      (row col : ℕ) (im : Image) (s : Sums)
      → col < p.frame_width
      → blur_sums p row col ≡ some s
      → (k : ℕ) → row * p.frame_width + col ≡ k / 3
      → (let new =
            write_three im
              (row * p.frame_width + col)
              (byte (s.new_r / s.blur_value_total))
              (byte (s.new_g / s.blur_value_total))
              (byte (s.new_b / s.blur_value_total)) in
          new.cells k)
        ≡ blurred p k
  wrote row col im s a e k t =
      let c = row * p.frame_width + col in
      let r = byte (s.new_r / s.blur_value_total) in
      let g = byte (s.new_g / s.blur_value_total) in
      let b = byte (s.new_b / s.blur_value_total) in
      let new = write_three im c r g b in
      three_all im c r g b (λ i. new.cells i ≡ blurred p i)
        (three-r im c r g b
          ∙ sym (blurred-eq row col 0 a (omega arith) ∙ ap (λ o. channel_of o 0) e))
        (three-g im c r g b
          ∙ sym (blurred-eq row col 1 a (omega arith) ∙ ap (λ o. channel_of o 1) e))
        (three-b im c r g b
          ∙ sym (blurred-eq row col 2 a (omega arith) ∙ ap (λ o. channel_of o 2) e))
        k t

  -- The bytes of the pixel are written, and nothing else.
  pub blur_pixel-Did :
      (row col : ℕ) (im : Image)
      → row < p.frame_height
      → col < p.frame_width
      → im.size ≡ p.frame_height * p.frame_width * 3
      → Yields
          (Did (touches p.frame_width) (blurred p) (record { row = row; col = col }) im)
          (blur_pixel p row col im)
  blur_pixel-Did row col im a b size =
      let sums = blur_sums-Averaged ok bytes row col a b in
      let (s, e) = Yields-gives sums in
      let (avg, pos) = Yields-eq sums e in
      rw (writes row col im s a b size e pos) (
        yields (record {
          size = refl;
          wrote = λ k t. wrote row col im s b e k ((==_iff _ _).0 t);
          kept = λ k n.
              three_other im (row * p.frame_width + col) _ _ _ k
                (λ q. cc (n, (==_iff (row * p.frame_width + col) (k / 3)).1 q));
        }))

-- The first `n` pixels are blurred, and the others are those of `old`.
pub record Blurred (p : Blur) (old : Image) (n : ℕ) (new : Image) : Type 0 where
  pub size : new.size ≡ old.size
  pub painted : (k : ℕ) → k / 3 < n → new.cells k ≡ blurred p k
  pub after : (k : ℕ) → n ≤ k / 3 → new.cells k ≡ old.cells k

Blurred-next :
    (p : Blur) (old im new : Image) (row col : ℕ)
    → Blurred p old (row * p.frame_width + col) im
    → Did (touches p.frame_width) (blurred p) (record { row = row; col = col }) im new
    → Blurred p old (row * p.frame_width + (col + 1)) new
Blurred-next p old im new row col m did =
    let c = row * p.frame_width + col in
    record {
      size = did.size ∙ m.size;
      painted = λ k b. elim (ℕ_discrete c (k / 3)) [
        | yes e ↦ did.wrote k ((==_iff _ _).1 e)
        | no ne ↦ did.kept k (not_eq _ _ ne) ∙ m.painted k (omega (arith, ne))
      ];
      after = λ k b. did.kept k (not_eq c (k / 3) (omega arith)) ∙ m.after k (omega arith);
    }

-- Where sizes and weights fit, blur does not fault, and writes every pixel of the result.
pub blur-Blurred :
    {p : Blur} (res : Image)
    → IsBlur p
    → Between 0 255 p.frame
    → res.size ≡ p.frame_height * p.frame_width * 3
    → Yields (Blurred p res (p.frame_height * p.frame_width)) (blur p res)
unfolding blur
blur-Blurred {p} res ok bytes size =
    for_range-Yields (λ row t. Blurred p res (row * p.frame_width) t)
      (λ row. for_range p.frame_width 0 (blur_pixel p row)) p.frame_height 0 p.frame_height res
      (omega arith)
      (λ row t a b m.
        subst (λ j. Yields (Blurred p res j) (for_range p.frame_width 0 (blur_pixel p row) t))
          (grind arith)
          (for_range-Yields (λ col u. Blurred p res (row * p.frame_width + col) u)
            (blur_pixel p row) p.frame_width 0 p.frame_width t (omega arith)
            (λ col u c d n.
              Yields-mono (blur_pixel-Did ok bytes row col u b d (n.size ∙ size))
                λ v did. Blurred-next p res u v row col n did)
            (subst (λ j. Blurred p res j t) (omega arith) m)))
      (record { size = refl; painted = λ k a. absurd (omega arith); after = λ k a. refl })
