-- ===== src/Vision/Image.antt =====
-- The arrays of unsigned char and unsigned short that the images are, with their sizes: an access
-- out of range faults. And the index arithmetic on int.
use mathlib.Core.Path.{ap₂, fun_ext}
use final.Base.{
  ◌==◌, not_zero, ℕ, ◌+◌, ◌*◌, ◌/◌, ◌%◌, arith, ◌^◌, ◌<◌, ◌≡◌, refl, Option, none, some, ltb,
  update, if◌then◌else◌, lt→ltb,
}

pub record Image : Type 0 where
  pub size : ℕ
  pub cells : ℕ → ℕ

abbrev pub read : Image → ℕ → Option ℕ
read im k = if ltb k im.size then some (im.cells k) else none

abbrev pub write : Image → ℕ → ℕ → Option Image
write im k v = if ltb k im.size then some (record im { cells = update im.cells k v }) else none

-- A computation on int that gives a number: it faults where it overflows.
abbrev pub int : ℕ → Option ℕ
int n = if ltb n (2 ^ 31) then some n else none

pub read-eq : (im : Image) (k : ℕ) → k < im.size → read im k ≡ some (im.cells k)
read-eq im k p = rw (lt→ltb k im.size p) refl

pub write-eq :
    (im : Image) (k v : ℕ)
    → k < im.size
    → write im k v ≡ some (record im { cells = update im.cells k v })
write-eq im k v p = rw (lt→ltb k im.size p) refl

pub int-eq : (n : ℕ) → n < 2 ^ 31 → int n ≡ some n
int-eq n p = rw (lt→ltb n (2 ^ 31) p) refl

pub Image-ext : (a b : Image) → a.size ≡ b.size → ((k : ℕ) → a.cells k ≡ b.cells k) → a ≡ b
Image-ext a b e same = ap₂ (λ n f. record { size = n; cells = f }) e (fun_ext same)

-- Rows and columns, and the index of a pixel.
pub index-lt :
    (width height row col : ℕ) → row < height → col < width → row * width + col < height * width
index-lt width height row col p q = grind arith

pub index-mod : (width row col : ℕ) → col < width → (row * width + col) % width ≡ col
index-mod width row col p = grind arith

pub index-div : (width row col : ℕ) → col < width → (row * width + col) / width ≡ row
index-div width row col p = grind arith

-- A division by zero faults.
abbrev pub divide : ℕ → ℕ → Option ℕ
divide a b = if b == 0 then none else some (a / b)

pub divide-eq : (a b : ℕ) → 0 < b → divide a b ≡ some (a / b)
divide-eq a b p = rw (not_zero b (omega arith)) refl
