-- ===== src/Vision/BgSub/Sequential.antt =====
-- The loops over rows and columns: a range of rows of the mask is painted.
use final.Base.{
  sym, ltb, ltb→lt, not_ltb→le, Bool-cases, inl, inr, ℕ, ◌+◌, ◌-◌, ◌*◌, ◌^◌, ◌≤◌, ◌<◌, ◌≡◌, refl,
  some, ◌∙◌, arith, Yields, yields, subst, ℕ_discrete, update, update_self, update_other,
}
use final.Base.Loops.{for_range, for_range-Yields}
use final.Vision.Image.{Image, Image-ext, index-lt}
use final.Vision.BgSub.{bg_sub_pixel, bg_sub_row, bg_sub, bg_sub_helper}
use final.Vision.BgSub.Mask.{mask, IsBytes, bg_sub_pixel-eq}

-- Frames of `width` by `height` pixels, three bytes of each, whose indices an int can hold.
pub record IsFrame (bg fr : Image) (width height : ℕ) : Type 0 where
  pub bytes_bg : IsBytes bg
  pub bytes_fr : IsBytes fr
  pub size_bg : bg.size ≡ height * width * 3
  pub size_fr : fr.size ≡ height * width * 3
  pub small : height * width * 3 ≤ 2 ^ 31

-- The cells from `lo` up to `hi` are those of the mask, and the others are those of `old`.
pub record Masked (bg fr old : Image) (lo hi : ℕ) (new : Image) : Type 0 where
  pub size : new.size ≡ old.size
  pub painted : (k : ℕ) → lo ≤ k → k < hi → new.cells k ≡ mask bg fr k
  pub before : (k : ℕ) → k < lo → new.cells k ≡ old.cells k
  pub after : (k : ℕ) → hi ≤ k → new.cells k ≡ old.cells k

module _ {bg fr : Image} {width height : ℕ} (frame : IsFrame bg fr width height) where
  pub paint_pixel :
      (row col : ℕ) (res : Image)
      → row < height
      → col < width
      → res.size ≡ height * width
      → bg_sub_pixel bg fr width row col res
        ≡ some (record res {
          cells = update res.cells (row * width + col) (mask bg fr (row * width + col));
        })
  paint_pixel row col res p q size =
      let inside = index-lt width height row col p q in
      bg_sub_pixel-eq bg fr width row col res frame.bytes_bg frame.bytes_fr
        (omega (arith, frame.size_bg)) (omega (arith, frame.size_fr)) (omega arith)
        (omega (arith, frame.small))

  module _ (old : Image) (size : old.size ≡ height * width) (lo : ℕ) where
    pub Masked-update :
        (k : ℕ) (im : Image)
        → lo ≤ k
        → Masked bg fr old lo k im
        → Masked bg fr old lo (k + 1) (record im { cells = update im.cells k (mask bg fr k) })
    Masked-update k im p m = record {
      size = m.size;
      painted = λ i a b. elim (ℕ_discrete k i) [
        | yes e ↦
            subst (λ j. update im.cells k (mask bg fr k) j ≡ mask bg fr j) e
              (update_self im.cells k (mask bg fr k))
        | no ne ↦ update_other im.cells k (mask bg fr k) i ne ∙ m.painted i a (omega (arith, ne))
      ];
      before = λ i a. update_other im.cells k (mask bg fr k) i (omega arith) ∙ m.before i a;
      after =
          λ i a. update_other im.cells k (mask bg fr k) i (omega arith) ∙ m.after i (omega arith);
    }

    paint_row :
        (row : ℕ) (im : Image)
        → row < height
        → lo ≤ row * width
        → Masked bg fr old lo (row * width) im
        → Yields (Masked bg fr old lo ((row + 1) * width)) (bg_sub_row bg fr width row im)
    paint_row row im p q m =
        subst (λ j. Yields (Masked bg fr old lo j) (bg_sub_row bg fr width row im)) (grind arith)
          (for_range-Yields (λ col t. Masked bg fr old lo (row * width + col) t)
            (bg_sub_pixel bg fr width row) width 0 width im (omega arith)
            (λ col t a b n. rw (paint_pixel row col t p b (n.size ∙ size)) (
              yields (
                subst
                  (λ j. Masked bg fr old lo j (record t {
                    cells = update t.cells (row * width + col) (mask bg fr (row * width + col));
                  }))
                  (omega arith) (Masked-update (row * width + col) t (omega arith) n))))
            (subst (λ j. Masked bg fr old lo j im) (omega arith) m))

    paint_rows :
        (n row last : ℕ) (im : Image)
        → row + n ≡ last
        → last ≤ height
        → lo ≡ row * width
        → Masked bg fr old lo (row * width) im
        → Yields (Masked bg fr old lo (last * width)) (for_range n row (bg_sub_row bg fr width) im)
    paint_rows n row last im e p start m =
        for_range-Yields (λ r t. Masked bg fr old lo (r * width) t) (bg_sub_row bg fr width) n row
          last im e (λ r t a b k. paint_row r t (omega arith) (grind arith) k) m

    pub Masked-start : (k : ℕ) → k ≡ lo → Masked bg fr old lo k old
    Masked-start k e = record {
      size = refl;
      painted = λ i a b. absurd (omega arith);
      before = λ i a. refl;
      after = λ i a. refl;
    }

  -- A thread's rows, from `start_row` up to `end_row`, are painted without a fault.
  pub bg_sub_helper-Masked :
      (res : Image) (start_row end_row : ℕ)
      → res.size ≡ height * width
      → start_row ≤ end_row
      → end_row ≤ height
      → Yields
          (Masked bg fr res (start_row * width) (end_row * width))
          (bg_sub_helper bg fr res width height start_row end_row)
  unfolding bg_sub_helper
  bg_sub_helper-Masked res start_row end_row size p q =
      paint_rows res size (start_row * width) (end_row - start_row) start_row end_row res
        (omega arith) q refl (Masked-start res size (start_row * width) (start_row * width) refl)

-- On frames of `width` by `height` pixels bg_sub does not fault, and makes white the pixels whose
-- colours are at least 31 apart and black all others.
pub bg_sub-Masked :
    {bg fr : Image} {width height : ℕ} (res : Image)
    → IsFrame bg fr width height
    → res.size ≡ height * width
    → Yields (Masked bg fr res 0 (height * width)) (bg_sub bg fr res width height)
unfolding bg_sub
bg_sub-Masked {width} {height} res frame size =
    paint_rows frame res size 0 height 0 height res (omega arith) (omega arith) (omega arith)
      (Masked-start frame res size 0 (0 * width) (omega arith))

-- There is one such image.
pub Masked-unique :
    {bg fr old im seq : Image} {n : ℕ}
    → Masked bg fr old 0 n im
    → Masked bg fr old 0 n seq
    → im ≡ seq
Masked-unique {im} {seq} {n} p m = Image-ext im seq (p.size ∙ sym m.size) λ k.
    elim (Bool-cases (ltb k n)) [
      | inl y ↦
          p.painted k (omega arith) (ltb→lt k n y) ∙ sym (m.painted k (omega arith) (ltb→lt k n y))
      | inr o ↦ p.after k (not_ltb→le k n o) ∙ sym (m.after k (not_ltb→le k n o))
    ]
