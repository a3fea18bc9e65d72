-- ===== src/Vision/Blur/Tests.antt =====
-- Runs of the blur on small frames.
use final.Base.{
  ℕ, zero, suc, ◌≡◌, ◌<◌, ◌≤◌, refl, some, [], arith, Yields, update, ltb, if◌then◌else◌,
}
use final.Vision.Image.{Image}
use final.Vision.Painters.{Painting, Reach, here, next, does, Reach-after}
use final.Vision.Pixels.{Pixel, jobs}
use final.Base.Int.{◌+ℤ◌, ◌-ℤ◌}
use final.Vision.Blur.{
  Blur, blur, helper_job, blur_parallel, blur_pixel, blur_sums, blur_tap, add_pixel,
}
use final.Vision.Blur.Weights.{IsBlur, Between}
use final.Vision.Blur.Range.{Ranges, blur-Ranges}
use final.Vision.Blur.Stripes.{Striped, InStripe}
use final.Vision.Blur.Parallel.{blur_parallel-Striped, blur_parallel-ends}

-- A frame of 3 by 2 pixels with bytes from 10 to 40, and the table of seq: 9 in the centre of threes.
abbrev grey : ℕ → ℕ
grey zero = 10
grey (suc zero) = 40
grey (suc (suc k)) = 20

abbrev table : ℕ → ℕ
table (suc (suc (suc (suc zero)))) = 9
table k = 3

abbrev params : Blur
params = record {
  frame = record { size = 18; cells = grey };
  blur_vector = record { size = 9; cells = table };
  frame_width = 3;
  frame_height = 2;
  blur_width = 3;
  blur_height = 3;
}

table-lt : (k : ℕ) → table k < 256
table-lt zero = omega arith
table-lt (suc zero) = omega arith
table-lt (suc (suc zero)) = omega arith
table-lt (suc (suc (suc zero))) = omega arith
table-lt (suc (suc (suc (suc zero)))) = omega arith
table-lt (suc (suc (suc (suc (suc k))))) = omega arith

is_blur : IsBlur params
is_blur = record {
  size_frame = refl;
  size_vector = refl;
  weights = table-lt;
  small = omega arith;
  small_sums = omega arith;
  has_height = omega arith;
  has_width = omega arith;
  centre = omega arith;
}

between : Between 10 40 (record { size = 18; cells = grey })
between = record { low = low; high = high; is_byte = omega arith }
  where
    low : (k : ℕ) → 10 ≤ grey k
    low zero = omega arith
    low (suc zero) = omega arith
    low (suc (suc k)) = omega arith

    high : (k : ℕ) → grey k ≤ 40
    high zero = omega arith
    high (suc zero) = omega arith
    high (suc (suc k)) = omega arith

bytes : Between 0 255 (record { size = 18; cells = grey })
bytes = record {
  low = λ k. omega arith;
  high = λ k. omega (arith, between.high k);
  is_byte = omega arith;
}

abbrev blank : Image
blank = record { size = 18; cells = λ k. 0 }

blur-Ranges_example : Yields (Ranges params 10 40 blank) (blur params blank)
blur-Ranges_example = blur-Ranges blank is_blur between refl

-- A frame of 64 by 3 pixels, two columns to each of the 32 threads: the first row is darker.
abbrev dusk : ℕ → ℕ
dusk k = if ltb k 192 then 10 else 40

abbrev wide : Blur
wide = record {
  frame = record { size = 576; cells = dusk };
  blur_vector = record { size = 9; cells = table };
  frame_width = 64;
  frame_height = 3;
  blur_width = 3;
  blur_height = 3;
}

wide-IsBlur : IsBlur wide
wide-IsBlur = record {
  size_frame = refl;
  size_vector = refl;
  weights = table-lt;
  small = omega arith;
  small_sums = omega arith;
  has_height = omega arith;
  has_width = omega arith;
  centre = omega arith;
}

dusk_bytes : Between 0 255 (record { size = 576; cells = dusk })
dusk_bytes = record { low = λ k. omega arith; high = λ k. ground arith; is_byte = omega arith }

abbrev black : Image
black = record { size = 576; cells = λ k. 0 }

-- Thread 1 has passed over its pixel of the first row, and blurred that of the second, byte by byte.
abbrev first_blurred : Painting Pixel
first_blurred = record {
  image = record { size = 576; cells = update (update (update (λ k. 0) 198 31) 199 31) 200 31 };
  todo =
      update (update (let s = blur_parallel wide black in s.todo) 1 (jobs 2 1 1 2)) 1
        (jobs 1 1 2 2);
}

two_jobs : Reach (helper_job wide) (blur_parallel wide black) first_blurred
unfolding blur_pixel blur_sums blur_tap add_pixel ◌+ℤ◌ ◌-ℤ◌
two_jobs = next (next here (does 1 (record { row = 0; col = 2 }) (jobs 2 1 1 2) black refl refl)) (
    does 1 (record { row = 1; col = 2 }) (jobs 1 1 2 2)
      (record { size = 576; cells = update (update (update (λ k. 0) 198 31) 199 31) 200 31 }) refl
      refl)

all_done :
    (u : Painting Pixel) × Reach (helper_job wide) first_blurred u × ((t : ℕ) → u.todo t ≡ [])
all_done = blur_parallel-ends black wide-IsBlur dusk_bytes refl two_jobs

blur_parallel-ends_example :
    (u : Painting Pixel) × Reach (helper_job wide) first_blurred u × ((t : ℕ) → u.todo t ≡ [])
blur_parallel-ends_example = blur_parallel-ends black wide-IsBlur dusk_bytes refl two_jobs

blur_parallel-Striped_example :
    Yields (λ seq. Striped wide black seq (let u = all_done.0 in u.image)) (blur wide black)
blur_parallel-Striped_example =
    blur_parallel-Striped black wide-IsBlur dusk_bytes refl (Reach-after two_jobs all_done.1)
      all_done.2

-- The bytes that thread 1 wrote are in its stripe, and those of the column behind are in none.
blurred_byte : InStripe wide 198
unfolding ◌-ℤ◌
blurred_byte = record {
  in_frame = omega arith;
  row_inner = refl;
  col_inner = refl;
  below = omega arith;
  not_last = omega arith;
}

left_out_byte : ¬ InStripe wide 201
left_out_byte m = omega (arith, m.not_last)

-- The red of the first pixel: 9 * 10 and 3 * 20 from three neighbours, by 18.
first_sums :
    blur_sums params 0 0
    ≡ some (record { new_r = 270; new_g = 540; new_b = 360; blur_value_total = 18 })
unfolding blur_sums blur_tap add_pixel ◌+ℤ◌ ◌-ℤ◌
first_sums = refl
