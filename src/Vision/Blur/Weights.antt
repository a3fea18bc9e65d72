-- ===== src/Vision/Blur/Weights.antt =====
-- blur.cpp: one pixel of the weighted average, between the least and the greatest byte of the frame.
use final.Base.{ℕ, ◌+◌, ◌*◌, ◌/◌, ◌^◌, ◌≤◌, ◌<◌, ◌≡◌, refl, some, arith, Yields, yields}
use final.Vision.Image.{Image, int, read-eq, int-eq}
use final.Vision.Blur.{Blur, Sums, add_pixel}

-- Sizes that fit, and a table whose centre has a weight.
pub record IsBlur (p : Blur) : Type 0 where
  pub size_frame : (let f = p.frame in f.size) ≡ p.frame_height * p.frame_width * 3
  pub size_vector : (let v = p.blur_vector in v.size) ≡ p.blur_height * p.blur_width
  pub weights : (k : ℕ) → (let v = p.blur_vector in v.cells k) < 256
  pub small : p.frame_height * p.frame_width * 3 ≤ 2 ^ 31
  pub small_sums : p.blur_height * p.blur_width * 65025 < 2 ^ 31
  pub has_height : 0 < p.blur_height
  pub has_width : 0 < p.blur_width
  pub centre :
      0 < (let v = p.blur_vector in v.cells (p.blur_height / 2 * p.blur_width + p.blur_width / 2))

-- All bytes of the image lie between `lo` and `hi`.
pub record Between (lo hi : ℕ) (im : Image) : Type 0 where
  pub low : (k : ℕ) → lo ≤ im.cells k
  pub high : (k : ℕ) → im.cells k ≤ hi
  pub is_byte : hi ≤ 255

abbrev Weighs : ℕ → ℕ → ℕ → ℕ → Type 0
Weighs lo hi total x = (lo * total ≤ x) × (x ≤ hi * total)

-- After `n` pixels.
pub record Averaged (lo hi n : ℕ) (s : Sums) : Type 0 where
  pub r : Weighs lo hi s.blur_value_total s.new_r
  pub g : Weighs lo hi s.blur_value_total s.new_g
  pub b : Weighs lo hi s.blur_value_total s.new_b
  pub weight : s.blur_value_total ≤ 255 * n

Weighs-add :
    (lo hi total x v c : ℕ)
    → lo ≤ c
    → c ≤ hi
    → Weighs lo hi total x
    → Weighs lo hi (total + v) (x + v * c)
Weighs-add lo hi total x v c p q (a, b) = (grind arith, grind arith)

Weighs-int :
    (lo hi total x n : ℕ)
    → hi ≤ 255
    → total ≤ 255 * n
    → n * 65025 < 2 ^ 31
    → Weighs lo hi total x
    → int x ≡ some x
Weighs-int lo hi total x n p q r (a, b) =
    let below : hi * total ≤ 255 * total = grind arith in int-eq x (omega arith)

pub add_pixel-Averaged :
    (frame : Image) (lo hi n v k : ℕ) (s : Sums)
    → Between lo hi frame
    → v ≤ 255
    → k + 2 < frame.size
    → (n + 1) * 65025 < 2 ^ 31
    → Averaged lo hi n s
    → Yields
        (λ t. Averaged lo hi (n + 1) t × (t.blur_value_total ≡ s.blur_value_total + v))
        (add_pixel frame v k s)
unfolding add_pixel
add_pixel-Averaged frame lo hi n v k s f w p small a =
    let total : s.blur_value_total + v ≤ 255 * (n + 1) = omega (arith, a.weight) in
    let r = new 0 s.new_r a.r in
    let g = new 1 s.new_g a.g in
    let b = new 2 s.new_b a.b in
    rw
      (
        read-eq frame (k + 0) (omega arith),
        read-eq frame (k + 1) (omega arith),
        read-eq frame (k + 2) p,
        int-eq (s.blur_value_total + v) (omega (arith, total, small)),
        fits (s.new_r + v * frame.cells (k + 0)) total r,
        fits (s.new_g + v * frame.cells (k + 1)) total g,
        fits (s.new_b + v * frame.cells (k + 2)) total b,
      )
      (yields (record { r = r; g = g; b = b; weight = total }, refl))
  where
    new :
        (i x : ℕ)
        → Weighs lo hi s.blur_value_total x
        → Weighs lo hi (s.blur_value_total + v) (x + v * frame.cells (k + i))
    new i x =
        Weighs-add lo hi s.blur_value_total x v (frame.cells (k + i)) (f.low (k + i))
          (f.high (k + i))

    fits :
        (x : ℕ)
        → s.blur_value_total + v ≤ 255 * (n + 1)
        → Weighs lo hi (s.blur_value_total + v) x
        → int x ≡ some x
    fits x total = Weighs-int lo hi (s.blur_value_total + v) x (n + 1) f.is_byte total small
