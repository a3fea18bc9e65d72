-- ===== src/Vision/Blur/Range.antt =====
-- The bytes of a blurred frame lie in the range of the bytes of the frame.
use native.Mathlib.Nat.{le-div_iff_mul-le, div-lt_iff_lt-mul}
use final.Base.{
  ℕ, zero, suc, ◌*◌, ◌/◌, ◌%◌, ◌≤◌, ◌<◌, ◌≡◌, Option, arith, Yields, yields, Yields-mono, sym,
  subst,
}
use final.Vision.Image.{Image}
use final.Vision.Blur.{Blur, Sums, byte, blur}
use final.Vision.Blur.Weights.{IsBlur, Between, Averaged}
use final.Vision.Blur.Average.{blur_sums-Averaged}
use final.Vision.Blur.Sequential.{channel_of, blurred, blur-Blurred}

-- A weighted average lies between its least and its greatest part.
average :
    (lo hi total x : ℕ)
    → 0 < total
    → (lo * total ≤ x) × (x ≤ hi * total)
    → hi ≤ 255
    → (lo ≤ byte (x / total)) × (byte (x / total) ≤ hi)
average lo hi total x p (a, b) small =
    let low : lo ≤ x / total = (le-div_iff_mul-le p).1 a in
    let above : x < suc hi * total = grind arith in
    let high : x / total < suc hi = (div-lt_iff_lt-mul p).1 above in (omega arith, omega arith)

channel_of-Between :
    {lo hi n : ℕ} {o : Option Sums} (c : ℕ)
    → hi ≤ 255
    → Yields (λ s. Averaged lo hi n s × (0 < s.blur_value_total)) o
    → (lo ≤ channel_of o c) × (channel_of o c ≤ hi)
channel_of-Between {lo} {hi} zero small (yields {a = s} (m, pos)) =
    average lo hi s.blur_value_total s.new_r pos m.r small
channel_of-Between {lo} {hi} (suc zero) small (yields {a = s} (m, pos)) =
    average lo hi s.blur_value_total s.new_g pos m.g small
channel_of-Between {lo} {hi} (suc (suc c)) small (yields {a = s} (m, pos)) =
    average lo hi s.blur_value_total s.new_b pos m.b small

blurred-Between :
    {p : Blur} {lo hi : ℕ} (k : ℕ)
    → IsBlur p
    → Between lo hi p.frame
    → k / 3 < p.frame_height * p.frame_width
    → (lo ≤ blurred p k) × (blurred p k ≤ hi)
unfolding blurred
blurred-Between {p} {lo} {hi} k ok between q =
    let row = k / 3 / p.frame_width in
    let col = k / 3 % p.frame_width in
    let at_row : row < p.frame_height = grind arith in
    let at_col : col < p.frame_width = grind arith in
    channel_of-Between (k % 3) between.is_byte (blur_sums-Averaged ok between row col at_row at_col)

-- The bytes of the pixels of the frame lie between `lo` and `hi`, and what is behind them in the
-- array is as before.
pub record Ranges (p : Blur) (lo hi : ℕ) (res im : Image) : Type 0 where
  pub size : im.size ≡ res.size
  pub low : (k : ℕ) → k < p.frame_height * p.frame_width * 3 → lo ≤ im.cells k
  pub high : (k : ℕ) → k < p.frame_height * p.frame_width * 3 → im.cells k ≤ hi
  pub behind : (k : ℕ) → p.frame_height * p.frame_width * 3 ≤ k → im.cells k ≡ res.cells k

Between-bytes : {lo hi : ℕ} {im : Image} → Between lo hi im → Between 0 255 im
Between-bytes m = record {
  low = λ k. omega arith;
  high = λ k. omega (arith, m.high k, m.is_byte);
  is_byte = omega arith;
}

-- Where sizes and weights fit and the table has a weight in its centre, blur does not fault: no read or
-- write is out of range, no sum overflows and no division is by zero. If the bytes of the frame
-- lie between two bounds, so do those of the result, and none is cut off by the conversion to a byte.
pub blur-Ranges :
    {p : Blur} {lo hi : ℕ} (res : Image)
    → IsBlur p
    → Between lo hi p.frame
    → res.size ≡ p.frame_height * p.frame_width * 3
    → Yields (Ranges p lo hi res) (blur p res)
blur-Ranges {p} {lo} {hi} res ok between size =
    Yields-mono (blur-Blurred res ok (Between-bytes between) size) λ im m. record {
      size = m.size;
      behind = λ k b. m.after k (omega arith);
      low = λ k b.
          subst (λ v. lo ≤ v) (sym (m.painted k (omega arith)))
            (blurred-Between k ok between (omega arith)).0;
      high = λ k b.
          subst (λ v. v ≤ hi) (sym (m.painted k (omega arith)))
            (blurred-Between k ok between (omega arith)).1;
    }
