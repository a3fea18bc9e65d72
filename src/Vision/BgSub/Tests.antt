-- ===== src/Vision/BgSub/Tests.antt =====
-- Runs of the background subtraction on small frames.
use final.Base.{update, ℕ, zero, suc, ◌≡◌, refl, none, arith, Yields, []}
use final.Base.Int.{◌+ℤ◌, ◌-ℤ◌, ◌*ℤ◌}
use final.Vision.Root.{int_sqrt}
use final.Vision.Image.{Image}
use final.Vision.Pixels.{Pixel, row_jobs}
use final.Vision.Painters.{Painting, Reach, here, next, does}
use final.Vision.BgSub.{bg_sub, bg_sub_parallel, thread_body, thread_todo, bg_sub_pixel, total_diff}
use final.Vision.BgSub.Mask.{mask, IsBytes}
use final.Vision.BgSub.Sequential.{IsFrame, Masked, bg_sub-Masked}
use final.Vision.BgSub.Parallel.{bg_sub_parallel-bg_sub, bg_sub_parallel-ends}
use final.Vision.BgSub.Simd.{vector_bg_sub, vector_helper, vector_bg_sub-bg_sub}

-- A black background of 4 by 1 pixels, and a frame with a bright second pixel.
abbrev background : Image
background = record { size = 12; cells = λ k. 0 }

abbrev bright : ℕ → ℕ
bright (suc (suc (suc zero))) = 200
bright k = 0

abbrev frame : Image
frame = record { size = 12; cells = bright }

abbrev blank : Image
blank = record { size = 4; cells = λ k. 7 }

bright-IsBytes : IsBytes frame
bright-IsBytes zero = omega arith
bright-IsBytes (suc zero) = omega arith
bright-IsBytes (suc (suc zero)) = omega arith
bright-IsBytes (suc (suc (suc zero))) = omega arith
bright-IsBytes (suc (suc (suc (suc k)))) = omega arith

is_frame : IsFrame background frame 4 1
is_frame = record {
  bytes_bg = λ k. omega arith;
  bytes_fr = bright-IsBytes;
  size_bg = refl;
  size_fr = refl;
  small = omega arith;
}

bg_sub-Masked_example :
    Yields (Masked background frame blank 0 4) (bg_sub background frame blank 4 1)
bg_sub-Masked_example = bg_sub-Masked blank is_frame refl

mask_runs : mask background frame 1 ≡ 255
mask_runs = refl

vector_bg_sub-bg_sub_example :
    Yields
      (λ im. Yields (λ seq. im ≡ seq) (bg_sub background frame blank 4 1))
      (vector_bg_sub background frame blank 4 1)
vector_bg_sub-bg_sub_example = vector_bg_sub-bg_sub blank is_frame refl refl

-- The last thread does the first pixel.
one_job : Reach (thread_body background frame 4) (bg_sub_parallel blank 4 1) (record {
  image = record { size = 4; cells = update (λ k. 7) 0 0 };
  todo = update (thread_todo 4 1) 3 (row_jobs 3 0 1);
})
unfolding bg_sub_pixel total_diff int_sqrt ◌+ℤ◌ ◌-ℤ◌ ◌*ℤ◌
one_job = next here (
    does 3 (record { row = 0; col = 0 }) (row_jobs 3 0 1)
      (record { size = 4; cells = update (λ k. 7) 0 0 }) refl refl)

bg_sub_parallel-ends_example :
    (u : Painting Pixel) × Reach
      (thread_body background frame 4)
      (record {
        image = record { size = 4; cells = update (λ k. 7) 0 0 };
        todo = update (thread_todo 4 1) 3 (row_jobs 3 0 1);
      })
      u
    × ((t : ℕ) → u.todo t ≡ [])
bg_sub_parallel-ends_example = bg_sub_parallel-ends blank is_frame refl one_job

all_done :
    (u : Painting Pixel) × Reach (thread_body background frame 4) (bg_sub_parallel blank 4 1) u
    × ((t : ℕ) → u.todo t ≡ [])
all_done = bg_sub_parallel-ends blank is_frame refl here

bg_sub_parallel-bg_sub_example :
    Yields (λ im. let u = all_done.0 in u.image ≡ im) (bg_sub background frame blank 4 1)
bg_sub_parallel-bg_sub_example = bg_sub_parallel-bg_sub blank is_frame refl all_done.1 all_done.2

-- With a width of 2 the lanes run past the end of the image.
past_the_end : vector_bg_sub background frame (record { size = 2; cells = λ k. 7 }) 2 1 ≡ none
unfolding vector_bg_sub vector_helper total_diff int_sqrt ◌+ℤ◌ ◌-ℤ◌ ◌*ℤ◌
past_the_end = refl
