-- ===== src/Vision/BgSub.antt =====
-- src/bg_sub.cpp, the background subtraction; src/bg_sub_par.cpp, the same by four threads; and
-- src/bg_sub_simd.cpp, the same by vectors of four lanes.
pub mod Mask
pub mod Sequential
pub mod Parallel
pub mod Simd
mod Tests
use final.Base.{
  ℕ, ◌+◌, ◌-◌, ◌*◌, ◌/◌, ◌%◌, ◌^◌, Option, some, List, [], ◌∷◌, ◌>>=◌, ltb, if◌then◌else◌, ◌++◌,
  zero, suc,
}
use final.Base.Int.{ℤ, pos, pos_part, ◌+ℤ◌, ◌-ℤ◌, ◌*ℤ◌}
use final.Base.Loops.{for_range}
use final.Vision.Image.{Image, read, write, int}
use final.Vision.Pixels.{Pixel, jobs}
use final.Vision.Painters.{Painting}
use final.Vision.Root.{int_sqrt}

abbrev pub threshold : ℕ
threshold = 30

-- for (i = 0; i < 3; i++): the squares of the differences of the three channels from `rgb` on.
abbrev channel : Image → Image → ℕ → ℕ → ℤ → Option ℤ
channel bg fr rgb i total_diff = do
  b ← read bg (rgb + i)
  f ← read fr (rgb + i)
  let diff = pos b -ℤ pos f
  some (total_diff +ℤ diff *ℤ diff)

unfoldable pub total_diff : Image → Image → ℕ → Option ℕ
total_diff bg fr rgb = do
  total ← for_range 3 0 (channel bg fr rgb) (pos 0)
  some (int_sqrt (pos_part total))

-- The body of the loop over columns.
unfoldable pub bg_sub_pixel : Image → Image → ℕ → ℕ → ℕ → Image → Option Image
bg_sub_pixel bg fr width row col res = do
  pixel_index_rgb ← int ((row * width + col) * 3)
  pixel_index_grey ← int (row * width + col)
  diff ← total_diff bg fr pixel_index_rgb
  write res pixel_index_grey (if ltb threshold diff then 255 else 0)

abbrev pub bg_sub_row : Image → Image → ℕ → ℕ → Image → Option Image
bg_sub_row bg fr width row res = for_range width 0 (bg_sub_pixel bg fr width row) res

unfoldable pub bg_sub : Image → Image → Image → ℕ → ℕ → Option Image
bg_sub bg fr res width height = for_range height 0 (bg_sub_row bg fr width) res

-- What a thread runs: the rows from `start_row` up to `end_row`.
unfoldable pub bg_sub_helper : Image → Image → Image → ℕ → ℕ → ℕ → ℕ → Option Image
bg_sub_helper bg fr res width height start_row end_row =
    for_range (end_row - start_row) start_row (bg_sub_row bg fr width) res

-- bg_sub_args: the rows of one thread. The other fields are the same in all.
pub record BgSubArgs : Type 0 where
  pub start_row : ℕ
  pub end_row : ℕ

abbrev pub thread_jobs : ℕ → BgSubArgs → List Pixel
thread_jobs width args = jobs (args.end_row - args.start_row) width args.start_row 0

-- The three threads that are created, and the caller's own part as the fourth.
abbrev pub thread_todo : ℕ → ℕ → ℕ → List Pixel
thread_todo width height zero = thread_jobs width (record { start_row = 0; end_row = height / 4 })
thread_todo width height (suc zero) =
    thread_jobs width (record { start_row = height / 4; end_row = height / 2 })
thread_todo width height (suc (suc zero)) =
    thread_jobs width (record { start_row = height / 2; end_row = height / 4 * 3 })
thread_todo width height (suc (suc (suc zero))) =
    thread_jobs width (record { start_row = height / 4 * 3; end_row = height })
thread_todo width height (suc (suc (suc (suc t)))) = []

-- bg_sub_parallel before the threads have done anything.
abbrev pub bg_sub_parallel : Image → ℕ → ℕ → Painting Pixel
bg_sub_parallel res width height = record { image = res; todo = thread_todo width height }

-- The body that every thread runs.
abbrev pub thread_body : Image → Image → ℕ → Pixel → Image → Option Image
thread_body bg fr width p = bg_sub_pixel bg fr width p.row p.col
