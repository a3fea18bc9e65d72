-- ===== src/Vision/Blur.antt =====
-- src/blur.cpp, the blur by a table of weights, and src/blur_par.cpp, the same by 32 threads.
pub mod Weights
pub mod Average
pub mod Sequential
pub mod Range
pub mod Helper
pub mod Stripes
pub mod Parallel
mod Tests
use final.Base.{
  ℕ, zero, suc, ◌+◌, ◌-◌, ◌*◌, ◌/◌, ◌%◌, ◌^◌, Option, none, some, List, [], ◌∷◌, ◌>>=◌, ltb, ◌==◌,
  Bool, true, false, not, ◌&&◌, ◌||◌, if◌then◌else◌,
}
use final.Base.Int.{ℤ, pos, pos_part, ◌+ℤ◌, ◌-ℤ◌, ltb_ℤ}
use final.Base.Loops.{for_range}
use final.Vision.Image.{divide, Image, read, write, int}
use final.Vision.Pixels.{Pixel, jobs}
use final.Vision.Painters.{Painting}

-- The parameters that stay the same: frame, blur_vector, and the sizes of both.
pub record Blur : Type 0 where
  pub frame : Image
  pub blur_vector : Image
  pub frame_width : ℕ
  pub frame_height : ℕ
  pub blur_width : ℕ
  pub blur_height : ℕ

-- The local variables that the loops over the table add to.
pub record Sums : Type 0 where
  pub new_r : ℕ
  pub new_g : ℕ
  pub new_b : ℕ
  pub blur_value_total : ℕ

abbrev pub no_sums : Sums
no_sums = record { new_r = 0; new_g = 0; new_b = 0; blur_value_total = 0 }

-- i - blur_half places from `at`.
abbrev pub shifted : ℕ → ℕ → ℕ → ℤ
shifted at i half = pos at +ℤ (pos i -ℤ pos half)

abbrev pub inside : ℤ → ℕ → Bool
inside at size = not (ltb_ℤ at (pos 0)) && ltb_ℤ at (pos size)

-- The pixel with its first byte at `blur_pixel_index` is added with weight `weight`.
unfoldable pub add_pixel : Image → ℕ → ℕ → Sums → Option Sums
add_pixel frame blur_value blur_pixel_index s = do
  r ← read frame (blur_pixel_index + 0)
  g ← read frame (blur_pixel_index + 1)
  b ← read frame (blur_pixel_index + 2)
  blur_value_total ← int (s.blur_value_total + blur_value)
  new_r ← int (s.new_r + blur_value * r)
  new_g ← int (s.new_g + blur_value * g)
  new_b ← int (s.new_b + blur_value * b)
  some (record { new_r = new_r; new_g = new_g; new_b = new_b; blur_value_total = blur_value_total })

-- The body of the loops over the table.
unfoldable pub blur_tap : Blur → ℕ → ℕ → ℕ → ℕ → Sums → Option Sums
blur_tap p row col i j s =
    let blur_row = shifted row i (p.blur_height / 2) in
    let blur_col = shifted col j (p.blur_width / 2) in
    if inside blur_row p.frame_height && inside blur_col p.frame_width
    then (do
      blur_value ← read p.blur_vector (i * p.blur_width + j)
      blur_pixel_index ← int ((pos_part blur_row * p.frame_width + pos_part blur_col) * 3)
      add_pixel p.frame blur_value blur_pixel_index s)
    else some s

unfoldable pub blur_sums : Blur → ℕ → ℕ → Option Sums
blur_sums p row col =
    for_range p.blur_height 0 (λ i. for_range p.blur_width 0 (blur_tap p row col i)) no_sums

-- What is written to an unsigned char.
abbrev pub byte : ℕ → ℕ
byte n = n % 256

-- The body of the loop over columns: the three bytes of a pixel are written.
unfoldable pub blur_pixel : Blur → ℕ → ℕ → Image → Option Image
blur_pixel p row col res = do
  center_pixel_index ← int ((row * p.frame_width + col) * 3)
  s ← blur_sums p row col
  new_r ← divide s.new_r s.blur_value_total
  new_g ← divide s.new_g s.blur_value_total
  new_b ← divide s.new_b s.blur_value_total
  with_r ← write res (center_pixel_index + 0) (byte new_r)
  with_g ← write with_r (center_pixel_index + 1) (byte new_g)
  write with_g (center_pixel_index + 2) (byte new_b)

unfoldable pub blur : Blur → Image → Option Image
blur p res = for_range p.frame_height 0 (λ row. for_range p.frame_width 0 (blur_pixel p row)) res

-- blur_args: the part of one thread. The other fields are the same in all.
pub record BlurArgs : Type 0 where
  pub start_row : ℕ
  pub end_row : ℕ
  pub start_col : ℕ
  pub end_col : ℕ

abbrev pub num_threads : ℕ
num_threads = 32

-- (i + 1) * cols_per_thread - 1: with no column to each thread there is none before column 0.
abbrev pub blur_args : Blur → ℕ → BlurArgs
blur_args p i =
    let cols_per_thread = p.frame_width / num_threads in
    record {
      start_row = 0;
      end_row = p.frame_height;
      start_col = i * cols_per_thread;
      end_col = (i + 1) * cols_per_thread - 1;
    }

-- Closer to an end of 0 .. size - 1 than the radius: these rows and columns are passed over.
abbrev pub near_end : Blur → ℕ → ℕ → Bool
near_end p at size =
    let blur_radius = (p.blur_width - 1) / 2 in
    ltb at blur_radius || ltb_ℤ (pos size -ℤ pos 1 -ℤ pos blur_radius) (pos at)

abbrev pub helper_pixel : Blur → ℕ → ℕ → Image → Option Image
helper_pixel p row col res =
    if near_end p col p.frame_width then some res else blur_pixel p row col res

unfoldable pub blur_helper : Blur → Image → BlurArgs → Option Image
blur_helper p res a =
    for_range (a.end_row - a.start_row) a.start_row
      (λ row im.
        if near_end p row p.frame_height
        then some im
        else for_range (a.end_col - a.start_col) a.start_col (helper_pixel p row) im)
      res

-- What a thread does at one pixel of its part.
abbrev pub helper_job : Blur → Pixel → Image → Option Image
helper_job p px res =
    if near_end p px.row p.frame_height then some res else helper_pixel p px.row px.col res

-- blur_parallel before the threads have done anything.
abbrev pub stripe_jobs : Blur → ℕ → List Pixel
stripe_jobs p i =
    let a = blur_args p i in
    jobs (a.end_row - a.start_row) (a.end_col - a.start_col) a.start_row a.start_col

abbrev pub blur_parallel : Blur → Image → Painting Pixel
blur_parallel p res = record {
  image = res;
  todo = λ i. if ltb i num_threads then stripe_jobs p i else [];
}
