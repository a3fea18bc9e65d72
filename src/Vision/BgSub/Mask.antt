-- ===== src/Vision/BgSub/Mask.antt =====
-- One pixel of the mask, by squares and without roots.
use final.Base.{
  ◌>>=◌, ℕ, ◌+◌, ◌-◌, ◌*◌, ◌^◌, ◌≤◌, ◌<◌, ◌≡◌, refl, some, arith, leb, ltb, ap, sym, leb→le,
  not_leb→lt, ltb→lt, le→leb, not_ltb→le, not_leb, if◌then◌else◌, Bool-cases, inl, inr, update,
}
use final.Base.Int.{add_pos, square_gap, pos}
use final.Vision.Image.{write, Image, read-eq, write-eq, int-eq}
use final.Vision.Root.{int_sqrt, int_sqrt-IsRoot}
use final.Vision.BgSub.{threshold, total_diff, bg_sub_pixel, channel}

abbrev pub gap : ℕ → ℕ → ℕ
gap a b = (a - b) * (a - b) + (b - a) * (b - a)

-- The squared distance of the colours at pixel `k`.
abbrev pub gap_at : Image → Image → ℕ → ℕ
gap_at bg fr i = gap (bg.cells i) (fr.cells i)

abbrev pub distance : Image → Image → ℕ → ℕ
distance bg fr k = gap_at bg fr (k * 3) + gap_at bg fr (k * 3 + 1) + gap_at bg fr (k * 3 + 2)

-- White where the colours are at least 31 apart.
abbrev pub mask : Image → Image → ℕ → ℕ
mask bg fr k = if leb (31 * 31) (distance bg fr k) then 255 else 0

-- The cells are unsigned chars.
abbrev pub IsBytes : Image → Type 0
IsBytes im = (k : ℕ) → im.cells k < 256

square_mono : (a b : ℕ) → a ≤ b → a * a ≤ b * b
square_mono a b p = grind arith

-- Bytes that are at most `n` apart.
pub gap-le : (a b n : ℕ) → a ≤ b + n → b ≤ a + n → gap a b ≤ n * n
gap-le a b n p q = elim (Bool-cases (leb a b)) [
  | inl y ↦
      let below = leb→le a b y in
      let none_left : a - b ≡ 0 = omega arith in
      rw none_left (omega (arith, square_mono (b - a) n (omega arith)))
  | inr o ↦
      let above = not_leb→lt a b o in
      let none_left : b - a ≡ 0 = omega arith in
      rw none_left (omega (arith, square_mono (a - b) n (omega arith)))
]

gap_small : (a b : ℕ) → a < 256 → b < 256 → gap a b ≤ 255 * 255
gap_small a b p q = gap-le a b 255 (omega arith) (omega arith)

channel-eq :
    (bg fr : Image) (rgb i t : ℕ)
    → rgb + i < bg.size
    → rgb + i < fr.size
    → channel bg fr rgb i (pos t) ≡ some (pos (t + gap_at bg fr (rgb + i)))
channel-eq bg fr rgb i t p q =
    rw
      (
        read-eq bg (rgb + i) p,
        read-eq fr (rgb + i) q,
        square_gap (bg.cells (rgb + i)) (fr.cells (rgb + i)),
        add_pos t (gap_at bg fr (rgb + i)),
      )
      refl

total_diff-eq :
    (bg fr : Image) (k : ℕ)
    → k * 3 + 2 < bg.size
    → k * 3 + 2 < fr.size
    → total_diff bg fr (k * 3) ≡ some (int_sqrt (distance bg fr k))
unfolding total_diff
total_diff-eq bg fr k p q =
    let first : k * 3 + 0 ≡ k * 3 = omega arith in
    let sum : 0 + gap_at bg fr (k * 3 + 0) + gap_at bg fr (k * 3 + 1) + gap_at bg fr (k * 3 + 2)
        ≡ distance bg fr k =
      rw first (omega arith) in
    rw
      (
        channel-eq bg fr (k * 3) 0 0 (omega arith) (omega arith),
        channel-eq bg fr (k * 3) 1 (0 + gap_at bg fr (k * 3 + 0)) (omega arith) (omega arith),
        channel-eq bg fr (k * 3) 2 (0 + gap_at bg fr (k * 3 + 0) + gap_at bg fr (k * 3 + 1))
            (omega arith) (omega arith),
      )
      (ap (λ n. some (int_sqrt n)) sum)

same_test : (n r : ℕ) → (r * r ≤ n) × (n < (r + 1) * (r + 1)) → ltb 30 r ≡ leb (31 * 31) n
same_test n r (lo, hi) = elim (Bool-cases (ltb 30 r)) [
  | inl y ↦
      let above : 30 < r = ltb→lt 30 r y in
      let large : 31 * 31 ≤ n = grind arith in rw y (sym (le→leb 961 n large))
  | inr o ↦
      let below : r ≤ 30 = not_ltb→le 30 r o in
      let less : n < 31 * 31 = grind arith in rw o (sym (not_leb 961 n less))
]

root_test : (n : ℕ) → n < 2 ^ 32 → ltb 30 (int_sqrt n) ≡ leb (31 * 31) n
root_test n p = same_test n (int_sqrt n) (int_sqrt-IsRoot n p)

-- What is left to do once the indices of pixel `k` are known.
pub grey_pixel-eq :
    (bg fr : Image) (k : ℕ) (res : Image)
    → IsBytes bg
    → IsBytes fr
    → k * 3 + 2 < bg.size
    → k * 3 + 2 < fr.size
    → k < res.size
    → (total_diff bg fr (k * 3) >>= λ diff. write res k (if ltb threshold diff then 255 else 0))
      ≡ some (record res { cells = update res.cells k (mask bg fr k) })
grey_pixel-eq bg fr k res bytes_bg bytes_fr p q r =
    let bound : distance bg fr k < 2 ^ 32 = omega (
      arith,
      gap_small _ _ (bytes_bg (k * 3)) (bytes_fr (k * 3)),
      gap_small _ _ (bytes_bg (k * 3 + 1)) (bytes_fr (k * 3 + 1)),
      gap_small _ _ (bytes_bg (k * 3 + 2)) (bytes_fr (k * 3 + 2)),
    ) in
    rw
      (
        total_diff-eq bg fr k p q,
        root_test (distance bg fr k) bound,
        write-eq res k (mask bg fr k) r,
      )
      refl

pub bg_sub_pixel-eq :
    (bg fr : Image) (width row col : ℕ) (res : Image)
    → IsBytes bg
    → IsBytes fr
    → (row * width + col) * 3 + 2 < bg.size
    → (row * width + col) * 3 + 2 < fr.size
    → row * width + col < res.size
    → (row * width + col) * 3 < 2 ^ 31
    → bg_sub_pixel bg fr width row col res
      ≡ some (record res {
        cells = update res.cells (row * width + col) (mask bg fr (row * width + col));
      })
unfolding bg_sub_pixel
bg_sub_pixel-eq bg fr width row col res bytes_bg bytes_fr p q r small =
    let k = row * width + col in
    rw (int-eq (k * 3) small, int-eq k (omega arith))
      (grey_pixel-eq bg fr k res bytes_bg bytes_fr p q r)
