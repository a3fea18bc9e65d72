-- ===== src/Vision/BgSub/Parallel.antt =====
-- src/bg_sub_par.cpp: four threads that paint rows of the same mask, in any interleaving.
use final.Base.{
  ℕ, zero, suc, ◌+◌, ◌-◌, ◌*◌, ◌/◌, ◌%◌, ◌≤◌, ◌<◌, ◌≡◌, refl, ◌∙◌, arith, Yields, yields,
  Yields-mono, subst, sym, update, update_self, update_other, ◌==◌, Bool, [], ltb, inl, inr,
  Bool-cases, ltb→lt, not_ltb→le, ==_iff,
}
use final.Vision.Image.{index-lt, Image, Image-ext}
use final.Vision.Pixels.{Pixel, run_jobs, run_jobs-jobs, All-jobs, Covers-All, Covers-jobs}
use final.Vision.Painters.{Painting, Reach, Covers, All, Did, Painted, Reach-Painted, Reach-ends}
use final.Vision.BgSub.{
  bg_sub_pixel, bg_sub, bg_sub_helper, BgSubArgs, thread_todo, thread_jobs, bg_sub_parallel,
  thread_body,
}
use final.Vision.BgSub.Mask.{mask}
use final.Vision.BgSub.Sequential.{IsFrame, Masked, paint_pixel, bg_sub-Masked}

-- A thread's list of jobs is what bg_sub_helper does.
pub run_jobs-bg_sub_helper :
    (bg fr : Image) (width height : ℕ) (args : BgSubArgs) (res : Image)
    → run_jobs (thread_body bg fr width) (thread_jobs width args) res
      ≡ bg_sub_helper bg fr res width height args.start_row args.end_row
unfolding bg_sub_helper
run_jobs-bg_sub_helper bg fr width height args res =
    run_jobs-jobs (bg_sub_pixel bg fr width) (args.end_row - args.start_row) width args.start_row 0
      res

abbrev touches : ℕ → Pixel → ℕ → Bool
touches width p k = p.row * width + p.col == k

abbrev Inside : ℕ → ℕ → Pixel → Type 0
Inside width height p = (p.row < height) × (p.col < width)

module _ {bg fr : Image} {width height : ℕ} (frame : IsFrame bg fr width height) (res : Image)
    (size : res.size ≡ height * width) where
  works :
      (p : Pixel) (im : Image)
      → Inside width height p
      → im.size ≡ res.size
      → Yields (Did (touches width) (mask bg fr) p im) (thread_body bg fr width p im)
  works p im inside e =
      let k = p.row * width + p.col in
      rw (paint_pixel frame p.row p.col im inside.0 inside.1 (e ∙ size)) (
        yields (record {
          size = refl;
          wrote = λ i t.
              subst (λ x. update im.cells k (mask bg fr k) x ≡ mask bg fr x) ((==_iff k i).0 t)
                (update_self im.cells k (mask bg fr k));
          kept = λ i n. update_other im.cells k (mask bg fr k) i (ground arith);
        }))

  valid_rows :
      (first last : ℕ)
      → last ≤ height
      → All (Inside width height) (thread_jobs width (record { start_row = first; end_row = last }))
  valid_rows first last p =
      All-jobs (Inside width height) (last - first) width first 0
        (λ r c a b d e. (omega arith, omega arith))

  valid : (t : ℕ) → All (Inside width height) (thread_todo width height t)
  valid zero = valid_rows 0 (height / 4) (omega arith)
  valid (suc zero) = valid_rows (height / 4) (height / 2) (omega arith)
  valid (suc (suc zero)) = valid_rows (height / 2) (height / 4 * 3) (omega arith)
  valid (suc (suc (suc zero))) = valid_rows (height / 4 * 3) height (omega arith)
  valid (suc (suc (suc (suc t)))) = tt

  covered_rows :
      (first last k r c : ℕ)
      → r * width + c ≡ k
      → first ≤ r
      → r < last
      → c < width
      → Covers (touches width) k (thread_jobs width (record { start_row = first; end_row = last }))
  covered_rows first last k r c e p q w =
      Covers-jobs (touches width) k (last - first) width first 0 r c ((==_iff _ _).1 e) p
        (omega arith) (omega arith) (omega arith)

  -- The parts of the four threads leave no row out.
  covered :
      (k r c : ℕ)
      → r * width + c ≡ k
      → r < height
      → c < width
      → (t : ℕ) × Covers (touches width) k (thread_todo width height t)
  covered k r c e p w = elim (Bool-cases (ltb r (height / 4))) [
    | inl y ↦ (0, covered_rows 0 (height / 4) k r c e (omega arith) (ltb→lt _ _ y) w)
    | inr n ↦ elim (Bool-cases (ltb r (height / 2))) [
      | inl y ↦
          (1, covered_rows (height / 4) (height / 2) k r c e (not_ltb→le _ _ n) (ltb→lt _ _ y) w)
      | inr o ↦ elim (Bool-cases (ltb r (height / 4 * 3))) [
        | inl y ↦ (
          2,
          covered_rows (height / 2) (height / 4 * 3) k r c e (not_ltb→le _ _ o) (ltb→lt _ _ y) w,
        )
        | inr q ↦ (3, covered_rows (height / 4 * 3) height k r c e (not_ltb→le _ _ q) p w)
      ]
    ]
  ]

  uncovered :
      (k t : ℕ) → height * width ≤ k → Covers (touches width) k (thread_todo width height t) → ⊥
  uncovered k t p c =
      let (j, inside, e) =
        Covers-All (Inside width height) (touches width) k (thread_todo width height t) (valid t)
          c in
      let at : j.row * width + j.col ≡ k = (==_iff _ _).0 e in
      let below = index-lt width height j.row j.col inside.0 inside.1 in omega arith

  no_thread : (t : ℕ) → 4 ≤ t → thread_todo width height t ≡ []
  no_thread zero p = absurd (omega arith)
  no_thread (suc zero) p = absurd (omega arith)
  no_thread (suc (suc zero)) p = absurd (omega arith)
  no_thread (suc (suc (suc zero))) p = absurd (omega arith)
  no_thread (suc (suc (suc (suc t)))) p = refl

  same_image :
      (im seq : Image)
      → Painted
          (thread_body bg fr width)
          (touches width)
          (mask bg fr)
          (Inside width height)
          (bg_sub_parallel res width height)
          works
          im
      → Masked bg fr res 0 (height * width) seq
      → im ≡ seq
  same_image im seq p m = Image-ext im seq (p.size ∙ sym m.size) λ k.
      elim (Bool-cases (ltb k (height * width))) [
        | inl y ↦
            let below = ltb→lt k (height * width) y in
            let (t, c) =
              covered k (k / width) (k % width) (grind arith) (grind arith) (grind arith) in
            p.painted t k c ∙ sym (m.painted k (omega arith) below)
        | inr n ↦
            let above = not_ltb→le k (height * width) n in
            p.kept k (λ t c. uncovered k t above c) ∙ sym (m.after k above)
      ]

-- On frames of `width` by `height` pixels, in whatever order the four threads have run, once all have
-- ended the image is the one that bg_sub computes.
pub bg_sub_parallel-bg_sub :
    {bg fr : Image} {width height : ℕ} {s : Painting Pixel} (res : Image)
    → IsFrame bg fr width height
    → res.size ≡ height * width
    → Reach (thread_body bg fr width) (bg_sub_parallel res width height) s
    → ((t : ℕ) → s.todo t ≡ [])
    → Yields (λ im. s.image ≡ im) (bg_sub bg fr res width height)
bg_sub_parallel-bg_sub {bg} {fr} {width} {height} {s} res frame size r over =
    Yields-mono (bg_sub-Masked res frame size) λ im m.
      same_image frame res size s.image im
        (Reach-Painted (thread_body bg fr width) (touches width) (mask bg fr) (Inside width height)
          (bg_sub_parallel res width height) (works frame res size) (valid frame res size) r over)
        m

-- On frames of `width` by `height` pixels, however far the four threads have run, they can run on, no
-- job faulting, until all have ended.
pub bg_sub_parallel-ends :
    {bg fr : Image} {width height : ℕ} {s : Painting Pixel} (res : Image)
    → IsFrame bg fr width height
    → res.size ≡ height * width
    → Reach (thread_body bg fr width) (bg_sub_parallel res width height) s
    → (u : Painting Pixel) × Reach (thread_body bg fr width) s u × ((t : ℕ) → u.todo t ≡ [])
bg_sub_parallel-ends {bg} {fr} {width} {height} {s} res frame size r =
    Reach-ends (thread_body bg fr width) (touches width) (mask bg fr) (Inside width height)
      (bg_sub_parallel res width height) (works frame res size) 4 (valid frame res size)
      (no_thread frame res size) r
