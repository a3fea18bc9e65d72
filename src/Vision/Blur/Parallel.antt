-- ===== src/Vision/Blur/Parallel.antt =====
-- blur_par.cpp: the blur by 32 threads.

use final.Base.{ℕ, ◌*◌, ◌≡◌, sym, ◌∙◌, Yields, Yields-mono, []}
use final.Vision.Image.{Image}
use final.Vision.Pixels.{Pixel}
use final.Vision.Painters.{Painting, Reach, Reach-Painted, Reach-ends}
use final.Vision.Blur.{Blur, blur, helper_job, blur_parallel, num_threads}
use final.Vision.Blur.Weights.{IsBlur, Between}
use final.Vision.Blur.Sequential.{blurred, blur-Blurred}
use final.Vision.Blur.Helper.{paints, works, valid, no_thread, InFrame}
use final.Vision.Blur.Stripes.{Striped, InStripe-CoveredBy, CoveredBy-InStripe}

-- Where sizes and weights fit, in whatever order the 32 threads have run, once all have ended the bytes
-- of the stripes without their last columns, away from the edges, are those that blur computes. All
-- others are as they were: no thread blurs the last column of its stripe.
pub blur_parallel-Striped :
    {p : Blur} {s : Painting Pixel} (res : Image)
    → IsBlur p
    → Between 0 255 p.frame
    → res.size ≡ p.frame_height * p.frame_width * 3
    → Reach (helper_job p) (blur_parallel p res) s
    → ((t : ℕ) → s.todo t ≡ [])
    → Yields (λ seq. Striped p res seq s.image) (blur p res)
blur_parallel-Striped {p} {s} res ok bytes size r over =
    let done =
      Reach-Painted (helper_job p) (paints p) (blurred p) (InFrame p) (blur_parallel p res)
        (works ok bytes res size) (valid ok bytes res size) r over in
    Yields-mono (blur-Blurred res ok bytes size) λ seq m. record {
      size = done.size ∙ sym m.size;
      blurred = λ k i.
          let (t, c) = InStripe-CoveredBy p res k i in
          done.painted t k c ∙ sym (m.painted k i.in_frame);
      left_out = λ k out. done.kept k (λ t c. out (CoveredBy-InStripe p res k t c));
    }

-- Where sizes and weights fit, however far the 32 threads have run, they can run on, no job faulting,
-- until all have ended.
pub blur_parallel-ends :
    {p : Blur} {s : Painting Pixel} (res : Image)
    → IsBlur p
    → Between 0 255 p.frame
    → res.size ≡ p.frame_height * p.frame_width * 3
    → Reach (helper_job p) (blur_parallel p res) s
    → (u : Painting Pixel) × Reach (helper_job p) s u × ((t : ℕ) → u.todo t ≡ [])
blur_parallel-ends {p} res ok bytes size r =
    Reach-ends (helper_job p) (paints p) (blurred p) (InFrame p) (blur_parallel p res)
      (works ok bytes res size) num_threads (valid ok bytes res size) (no_thread ok bytes res size)
      r
