-- ===== src/Vision/BgSub/Simd.antt =====
-- src/bg_sub_simd.cpp: vectors of four lanes of uint32_t, each lane by itself.
use final.Base.{
  ℕ, ◌+◌, ◌-◌, ◌*◌, ◌/◌, ◌%◌, ◌^◌, ◌≤◌, ◌<◌, ◌≡◌, Option, arith, Yields, yields, Yields-mono, subst,
  ltb, if◌then◌else◌, ◌>>=◌,
}
use final.Base.Loops.{for_range, for_range-Yields}
use final.Vision.Image.{index-lt, Image, write}
use final.Vision.BgSub.{total_diff, threshold, bg_sub}
use final.Vision.BgSub.Mask.{grey_pixel-eq}
use final.Vision.BgSub.Sequential.{
  IsFrame, Masked, Masked-update, Masked-start, Masked-unique, bg_sub-Masked,
}

abbrev pub uint32 : ℕ → ℕ
uint32 n = n % 2 ^ 32

-- uint32x4_t by the number of the lane, and what the intrinsics of arm_neon.h do to it.
abbrev pub Vector : Type 0
Vector = ℕ → ℕ

abbrev pub vdupq_n_u32 : ℕ → Vector
vdupq_n_u32 n lane = uint32 n

abbrev pub vaddq_u32 : Vector → Vector → Vector
vaddq_u32 a b lane = uint32 (a lane + b lane)

abbrev pub vmulq_u32 : Vector → Vector → Vector
vmulq_u32 a b lane = uint32 (a lane * b lane)

-- c0123, which the loop in front fills with {0, 1, 2, 3}.
abbrev pub c0123 : Vector
c0123 lane = lane

abbrev pub pixel_index_grey : ℕ → ℕ → ℕ → Vector
pixel_index_grey width row col =
    vaddq_u32 (vmulq_u32 (vdupq_n_u32 row) (vdupq_n_u32 width)) (vaddq_u32 (vdupq_n_u32 col) c0123)

abbrev pub pixel_index_rgb : ℕ → ℕ → ℕ → Vector
pixel_index_rgb width row col = vmulq_u32 (pixel_index_grey width row col) (vdupq_n_u32 3)

-- The body of the loop over lanes.
abbrev pub lane_pixel : Image → Image → ℕ → ℕ → ℕ → ℕ → Image → Option Image
lane_pixel bg fr width row col lane res = do
  diff ← total_diff bg fr (pixel_index_rgb width row col lane)
  write res (pixel_index_grey width row col lane) (if ltb threshold diff then 255 else 0)

-- for (col = 0; col < width; col += 4): the rounds are counted in fours.
abbrev pub vector_row : Image → Image → ℕ → ℕ → Image → Option Image
vector_row bg fr width row res =
    for_range ((width + 3) / 4) 0
      (λ four im. for_range 4 0 (lane_pixel bg fr width row (4 * four)) im) res

unfoldable pub vector_helper : Image → Image → Image → ℕ → ℕ → ℕ → ℕ → Option Image
vector_helper bg fr res width height start_row end_row =
    for_range (end_row - start_row) start_row (vector_row bg fr width) res

-- bg_sub_parallel of this file: one thread, all rows.
unfoldable pub vector_bg_sub : Image → Image → Image → ℕ → ℕ → Option Image
unfolding vector_helper
vector_bg_sub bg fr res width height = vector_helper bg fr res width height 0 height

uint32-eq : (n : ℕ) → n < 2 ^ 32 → uint32 n ≡ n
uint32-eq n p = omega arith

-- Where nothing wraps around, the lanes are the pixels.
pixel_index_grey-eq :
    (width row col lane : ℕ)
    → row < 2 ^ 32
    → width < 2 ^ 32
    → row * width + (col + lane) < 2 ^ 32
    → pixel_index_grey width row col lane ≡ row * width + (col + lane)
pixel_index_grey-eq width row col lane p q r =
    rw
      (
        uint32-eq row p,
        uint32-eq width q,
        uint32-eq (row * width) (omega arith),
        uint32-eq col (omega arith),
        uint32-eq (col + lane) (omega arith),
      )
      (uint32-eq (row * width + (col + lane)) r)

module _ {bg fr : Image} {width height : ℕ} (frame : IsFrame bg fr width height) (old : Image)
    (size : old.size ≡ height * width) where
  paint_lane :
      (row col lane : ℕ) (im : Image)
      → row < height
      → col + lane < width
      → Masked bg fr old 0 (row * width + (col + lane)) im
      → Yields
          (Masked bg fr old 0 (row * width + (col + lane) + 1))
          (lane_pixel bg fr width row col lane im)
  paint_lane row col lane im p q m =
      let k = row * width + (col + lane) in
      let inside : k < height * width = index-lt width height row (col + lane) p q in
      let fits : height * width * 3 < 2 ^ 32 = omega (arith, frame.small) in
      let rows : height ≤ height * width = grind arith in
      let columns : width ≤ height * width = grind arith in
      let grey : pixel_index_grey width row col lane ≡ k =
        pixel_index_grey-eq width row col lane (omega arith) (omega arith) (omega arith) in
      let thrice : uint32 (k * 3) ≡ k * 3 = uint32-eq (k * 3) (omega arith) in
      rw (grey, thrice)
        (rw
          (grey_pixel-eq bg fr k im frame.bytes_bg frame.bytes_fr (omega (arith, frame.size_bg))
            (omega (arith, frame.size_fr)) (omega (arith, m.size)))
          (yields (Masked-update frame old size 0 k im (omega arith) m)))

  paint_vector_row :
      (row : ℕ) (im : Image)
      → width % 4 ≡ 0
      → row < height
      → Masked bg fr old 0 (row * width) im
      → Yields (Masked bg fr old 0 ((row + 1) * width)) (vector_row bg fr width row im)
  paint_vector_row row im fours p m =
      let all : 4 * ((width + 3) / 4) ≡ width = omega arith in
      let next_row : row * width + width ≡ (row + 1) * width = grind arith in
      subst (λ j. Yields (Masked bg fr old 0 j) (vector_row bg fr width row im))
        (omega (arith, all, next_row))
        (for_range-Yields (λ four t. Masked bg fr old 0 (row * width + 4 * four) t) _
          ((width + 3) / 4) 0 ((width + 3) / 4) im (omega arith)
          (λ four t a b n.
            subst
              (λ j.
                Yields (Masked bg fr old 0 j)
                  (for_range 4 0 (lane_pixel bg fr width row (4 * four)) t))
              (omega arith)
              (for_range-Yields (λ lane u. Masked bg fr old 0 (row * width + (4 * four + lane)) u)
                (lane_pixel bg fr width row (4 * four)) 4 0 4 t (omega arith)
                (λ lane u c d o.
                  subst
                    (λ j.
                      Yields (Masked bg fr old 0 j) (lane_pixel bg fr width row (4 * four) lane u))
                    (omega arith) (paint_lane row (4 * four) lane u p (omega arith) o))
                (subst (λ j. Masked bg fr old 0 j t) (omega arith) n)))
          (subst (λ j. Masked bg fr old 0 j im) (omega arith) m))

  paint_vectors :
      width % 4 ≡ 0
      → Yields (Masked bg fr old 0 (height * width)) (vector_bg_sub bg fr old width height)
  unfolding vector_bg_sub vector_helper
  paint_vectors fours =
      for_range-Yields (λ row t. Masked bg fr old 0 (row * width) t) (vector_row bg fr width)
        (height - 0) 0 height old (omega arith) (λ row t a b m. paint_vector_row row t fours b m)
        (Masked-start frame old size 0 (0 * width) (omega arith))

-- On frames whose width is a multiple of 4 the vector version does not fault, and computes the image
-- that bg_sub computes.
pub vector_bg_sub-bg_sub :
    {bg fr : Image} {width height : ℕ} (res : Image)
    → IsFrame bg fr width height
    → res.size ≡ height * width
    → width % 4 ≡ 0
    → Yields
        (λ im. Yields (λ seq. im ≡ seq) (bg_sub bg fr res width height))
        (vector_bg_sub bg fr res width height)
vector_bg_sub-bg_sub res frame size fours =
    Yields-mono (paint_vectors frame res size fours)
      λ im m. Yields-mono (bg_sub-Masked res frame size) λ seq n. Masked-unique m n
