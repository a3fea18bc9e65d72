-- ===== src/Vision/Tests.antt =====
-- Runs of the comparison and of the pipeline on small frames.
use final.Base.{ℕ, zero, suc, ◌≤◌, ◌≡◌, refl, none, some, false, arith, Yields}
use final.Vision.Blobs.{no_blob}
use final.Vision.Blur.Weights.{Between}
use final.Vision.Compare.{compare, Answers, compare-Answers}
use final.Vision.Pipeline.{short, seq, zeros, IsQuiet, seq_quiet}

-- The first two bytes are 30, and all others 20.
abbrev bright : ℕ → ℕ
bright zero = 30
bright (suc zero) = 30
bright (suc (suc k)) = 20

compare-Answers_example :
    Yields
      (Answers (record { size = 4; cells = bright }) (record { size = 5; cells = λ k. 20 }) 0 4)
      (compare (record { size = 4; cells = bright }) (record { size = 5; cells = λ k. 20 }) 2 2)
compare-Answers_example =
    compare-Answers (record { size = 4; cells = bright }) (record { size = 5; cells = λ k. 20 }) 2 2
      (omega arith) (omega arith) (omega arith)

differs :
    compare (record { size = 4; cells = bright }) (record { size = 4; cells = λ k. 20 }) 2 2
    ≡ some false
unfolding compare
differs = refl

-- The last pixel is out of range, but the loop does not come to it.
stops_early :
    compare (record { size = 3; cells = bright }) (record { size = 3; cells = λ k. 20 }) 2 2
    ≡ some false
unfolding compare
stops_early = refl

-- 65536 pixels to each of 65536 rows: the product is no int.
too_many :
    compare (record { size = 4; cells = bright }) (record { size = 4; cells = bright }) 65536 65536
    ≡ none
unfolding compare
too_many = refl

-- 40000 as a short is negative, and 65540 is 4.
as_short : (short 40000 ≡ none) × (short 65540 ≡ some 4)
as_short = (refl, refl)

bright-Between : Between 15 32 (record { size = 48; cells = bright })
bright-Between = record { low = low; high = high; is_byte = omega arith }
  where
    low : (k : ℕ) → 15 ≤ bright k
    low zero = omega arith
    low (suc zero) = omega arith
    low (suc (suc k)) = omega arith

    high : (k : ℕ) → bright k ≤ 32
    high zero = omega arith
    high (suc zero) = omega arith
    high (suc (suc k)) = omega arith

is_quiet :
    IsQuiet
      (record { size = 48; cells = λ k. 25 })
      (record { size = 48; cells = bright })
      (zeros 16)
      15
      4
      4
is_quiet = record {
  size_bg = refl;
  size_raw = refl;
  size_blobs = refl;
  blank = λ k. refl;
  near_bg = record { low = λ k. omega arith; high = λ k. omega arith; is_byte = omega arith };
  near_raw = bright-Between;
  small = omega arith;
  entries = omega arith;
  narrow = omega arith;
  low = omega arith;
  fits = record { across = omega arith; down = omega arith };
}

seq_quiet_example :
    Yields
      (λ d. d.num_blobs ≡ 0)
      (seq
        (λ k. no_blob)
        48
        4
        4
        (record { size = 48; cells = λ k. 25 })
        (record { size = 48; cells = bright })
        (zeros 16)
        no_blob)
seq_quiet_example = seq_quiet (λ k. no_blob) no_blob is_quiet
