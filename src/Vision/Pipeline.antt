-- ===== src/Vision/Pipeline.antt =====
-- src/sequential.cpp: a frame is blurred, the background is subtracted, and blobs are looked for.
use final.Base.{
  ℕ, zero, suc, ◌+◌, ◌-◌, ◌*◌, ◌/◌, ◌%◌, ◌^◌, some, none, if◌then◌else◌, lt→ltb, ◌≤◌, ◌<◌, ◌≡◌,
  refl, Option, ◌>>=◌, arith, Yields, Yields-bind, Yields-mono, Bool-cases, ltb, ltb→lt, not_ltb→le,
  not_leb, inl, inr, ◌∙◌,
}
use final.Base.Sums.{total-zero}
use final.Vision.Image.{Image, index-lt}
use final.Vision.BgSub.{bg_sub}
use final.Vision.Blur.{Blur, blur}
use final.Vision.Blobs.{Blob}
use final.Vision.BgSub.Mask.{gap, gap-le, gap_at, distance, mask}
use final.Vision.BgSub.Sequential.{IsFrame, Masked, bg_sub-Masked}
use final.Vision.Blur.Weights.{IsBlur, Between}
use final.Vision.Blur.Range.{Ranges, blur-Ranges}
use final.Vision.Blobs.Step.{Fits}
use final.Vision.Blobs.Loops.{active_pixels, lit, lit_in_row}
use final.Vision.Detect.Whole.{IsMask, blob_detect_dark}
use final.Vision.Detect.{Detected, blob_detect}

-- blur_vector: nine weights by their index.
abbrev pub blur_weights : ℕ → ℕ
blur_weights (suc (suc (suc (suc zero)))) = 9
blur_weights k = 3

abbrev pub blur_table : Image
blur_table = record { size = 9; cells = blur_weights }

-- new unsigned char[n](): n zeros.
abbrev pub zeros : ℕ → Image
zeros n = record { size = n; cells = λ k. 0 }

abbrev pub frame_params : Image → ℕ → ℕ → Blur
frame_params frame_raw frame_width frame_height = record {
  frame = frame_raw;
  blur_vector = blur_table;
  frame_width = frame_width;
  frame_height = frame_height;
  blur_width = 3;
  blur_height = 3;
}

-- The conversion of an int to the type short of a parameter keeps 16 binary digits. With a size that is
-- negative then blob_detect is not modelled, and the call counts as a fault.
abbrev pub short : ℕ → Option ℕ
short n = let lowest = n % 2 ^ 16 in if ltb lowest (2 ^ 15) then some lowest else none

short-eq : (n : ℕ) → n < 2 ^ 15 → short n ≡ some n
short-eq n p =
    let same : n % 2 ^ 16 ≡ n = omega (arith, p) in rw same (rw (lt→ltb n (2 ^ 15) p) refl)

unfoldable pub seq : (ℕ → Blob) → ℕ → ℕ → ℕ → Image → Image → Image → Blob → Option Detected
seq stack img_size_bytes frame_width frame_height background frame_raw frame_blobs biggest_blob = do
  frame_blur ← blur (frame_params frame_raw frame_width frame_height) (zeros img_size_bytes)
  frame_thresh ←
      bg_sub background frame_blur (zeros (frame_width * frame_height)) frame_width frame_height
  width ← short frame_width
  height ← short frame_height
  blob_detect stack biggest_blob frame_blobs frame_thresh width height

-- All bytes of the background and of the frame lie in a range of 17 grey levels, and the sizes are shorts.
pub record IsQuiet (background frame_raw frame_blobs : Image) (lo width height : ℕ) : Type 0 where
  pub size_bg : background.size ≡ height * width * 3
  pub size_raw : frame_raw.size ≡ height * width * 3
  pub size_blobs : frame_blobs.size ≡ height * width
  pub blank : (k : ℕ) → frame_blobs.cells k ≡ 0
  pub near_bg : Between lo (lo + 17) background
  pub near_raw : Between lo (lo + 17) frame_raw
  pub small : height * width * 3 ≤ 2 ^ 31
  pub narrow : width < 2 ^ 15
  pub low : height < 2 ^ 15
  pub entries : 4 ≤ width * height
  pub fits : Fits width height (width * height / 4)

weights-lt : (k : ℕ) → blur_weights k < 256
weights-lt zero = omega arith
weights-lt (suc zero) = omega arith
weights-lt (suc (suc zero)) = omega arith
weights-lt (suc (suc (suc zero))) = omega arith
weights-lt (suc (suc (suc (suc zero)))) = omega arith
weights-lt (suc (suc (suc (suc (suc k))))) = omega arith

gap_near : (lo a b : ℕ) → lo ≤ a → a ≤ lo + 17 → lo ≤ b → b ≤ lo + 17 → gap a b ≤ 289
gap_near lo a b p q r s = gap-le a b 17 (omega arith) (omega arith)

module _ {background frame_raw frame_blobs : Image} {lo width height : ℕ}
    (quiet : IsQuiet background frame_raw frame_blobs lo width height) where
  is_blur : IsBlur (frame_params frame_raw width height)
  is_blur = record {
    size_frame = quiet.size_raw;
    size_vector = refl;
    weights = weights-lt;
    small = quiet.small;
    small_sums = omega arith;
    has_height = omega arith;
    has_width = omega arith;
    centre = omega arith;
  }

  module _ {blurred : Image}
      (m : Ranges
        (frame_params frame_raw width height)
        lo
        (lo + 17)
        (zeros (height * width * 3))
        blurred) where
    open quiet use {near_bg}

    bytes : (k : ℕ) → blurred.cells k < 256
    bytes k = elim (Bool-cases (ltb k (height * width * 3))) [
      | inl y ↦ omega (arith, m.high k (ltb→lt _ _ y), near_bg.is_byte)
      | inr o ↦ omega (arith, m.behind k (not_ltb→le _ _ o))
    ]

    is_frame : IsFrame background blurred width height
    is_frame = record {
      bytes_bg = λ k. omega (arith, near_bg.high k, near_bg.is_byte);
      bytes_fr = bytes;
      size_bg = quiet.size_bg;
      size_fr = m.size;
      small = quiet.small;
    }

    near_at : (i : ℕ) → i < height * width * 3 → gap_at background blurred i ≤ 289
    near_at i p =
        gap_near lo (background.cells i) (blurred.cells i) (near_bg.low i) (near_bg.high i)
          (m.low i p) (m.high i p)

    -- No pixel is far enough from the background.
    mask_dark : (k : ℕ) → k < height * width → mask background blurred k ≡ 0
    mask_dark k p =
        let near : distance background blurred k < 31 * 31 = omega (
          arith,
          near_at (k * 3) (omega arith),
          near_at (k * 3 + 1) (omega arith),
          near_at (k * 3 + 2) (omega arith),
        ) in
        rw (not_leb (31 * 31) (distance background blurred k) near) refl

    module _ {thresh : Image}
        (t : Masked background blurred (zeros (width * height)) 0 (height * width) thresh) where
      dark : active_pixels thresh width height ≡ 0
      dark =
          total-zero (λ r. lit_in_row thresh width (r + 1) (width - 2)) (height - 2)
            λ r p.
              total-zero (λ c. lit thresh ((r + 1) * width + (c + 1))) (width - 2)
                λ c q.
                  let k = (r + 1) * width + (c + 1) in
                  let inside = index-lt width height (r + 1) (c + 1) (omega arith) (omega arith) in
                  let black : thresh.cells k ≡ 0 =
                    t.painted k (omega arith) inside ∙ mask_dark k inside in
                  rw black refl

      is_mask : IsMask thresh frame_blobs width height
      is_mask =
          let turned : width * height ≡ height * width = grind arith in
          record {
            size_in = t.size ∙ turned;
            size_out = quiet.size_blobs;
            blank = quiet.blank;
            few = omega (arith, dark, quiet.entries);
            fits = quiet.fits;
          }

-- Where all bytes of the background and the frame lie in a range of 17 grey levels, the output is
-- all zeros, the sizes are shorts and fit, and the frame has at least 4 pixels, seq does not fault and
-- finds no blob.
pub seq_quiet :
    {background frame_raw frame_blobs : Image} {lo width height : ℕ} (stack : ℕ → Blob)
    (biggest_blob : Blob)
    → IsQuiet background frame_raw frame_blobs lo width height
    → Yields
        (λ d. d.num_blobs ≡ 0)
        (seq stack (height * width * 3) width height background frame_raw frame_blobs biggest_blob)
unfolding seq
seq_quiet {width} {height} stack biggest_blob quiet =
    Yields-bind (blur-Ranges (zeros (height * width * 3)) (is_blur quiet) quiet.near_raw refl)
      λ blurred m.
        Yields-bind
          (bg_sub-Masked (zeros (width * height)) (is_frame quiet m) (turned width height))
          λ thresh t.
            rw (short-eq width quiet.narrow, short-eq height quiet.low)
              (Yields-mono
                (blob_detect_dark stack biggest_blob (is_mask quiet m t) (dark quiet m t))
                λ d e. e.0)
  where
    turned : (w h : ℕ) → w * h ≡ h * w
    turned w h = grind arith
