-- ===== src/Vision/Compare.antt =====
-- src/compare.cpp: the loop returns at the first pixel in which two images differ.
use final.Base.{
  ℕ, zero, suc, ◌+◌, ◌*◌, ◌^◌, ◌<◌, ◌≤◌, ◌≡◌, ◌≢◌, arith, Option, some, Bool, true, false,
  Bool-cases, inl, inr, ◌==◌, ==_iff, if◌then◌else◌, ◌>>=◌, Yields, yields, Yields-mono, ℕ_discrete,
}
use final.Vision.Image.{Image, read, read-eq, int, int-eq}

-- The rounds from `i` on, of which `n` are left.
abbrev compare_from : Image → Image → ℕ → ℕ → Option Bool
compare_from image1 image2 i zero = some true
compare_from image1 image2 i (suc n) = do
  a ← read image1 i
  b ← read image2 i
  if a == b then compare_from image1 image2 (i + 1) n else some false

-- The bound of the loop is a product of ints.
unfoldable pub compare : Image → Image → ℕ → ℕ → Option Bool
compare image1 image2 width height = int (width * height) >>= λ n. compare_from image1 image2 0 n

-- The answer is about the `n` pixels from `i` on.
pub data Answers (image1 image2 : Image) (i n : ℕ) : Bool → Type 0 where
  same :
      ((k : ℕ) → i ≤ k → k < i + n → image1.cells k ≡ image2.cells k)
      → Answers image1 image2 i n true
  differ :
      (k : ℕ)
      → i ≤ k
      → k < i + n
      → image1.cells k ≢ image2.cells k
      → Answers image1 image2 i n false

compare_from-Answers :
    (image1 image2 : Image) (i n : ℕ)
    → i + n ≤ image1.size
    → i + n ≤ image2.size
    → Yields (Answers image1 image2 i n) (compare_from image1 image2 i n)
compare_from-Answers image1 image2 i zero p q = yields (same (λ k a b. absurd (omega arith)))
compare_from-Answers image1 image2 i (suc n) p q =
    rw (read-eq image1 i (omega arith), read-eq image2 i (omega arith))
      (elim (Bool-cases (image1.cells i == image2.cells i)) [
        | inl y ↦
            let first = (==_iff (image1.cells i) (image2.cells i)).0 y in
            rw y (
              Yields-mono (compare_from-Answers image1 image2 (i + 1) n (omega arith) (omega arith))
                λ r a. later first a)
        | inr o ↦ rw o (
            yields (
              differ i (omega arith) (omega arith)
                (λ e. cc (o, (==_iff (image1.cells i) (image2.cells i)).1 e))))
      ])
  where
    later :
        {r : Bool}
        → image1.cells i ≡ image2.cells i
        → Answers image1 image2 (i + 1) n r
        → Answers image1 image2 i (suc n) r
    later first (same s) = same (λ k a b. elim (ℕ_discrete i k) [
      | yes e ↦ rw (← e) first
      | no ne ↦ s k (omega (arith, ne)) (omega arith)
    ])
    later first (differ k a b ne) = differ k (omega arith) (omega arith) ne

-- On images with at least width * height pixels, a product that an int can hold, compare does not
-- fault, and answers whether the first width * height pixels are the same; where it answers no, there
-- is one in which they differ.
pub compare-Answers :
    (image1 image2 : Image) (width height : ℕ)
    → width * height < 2 ^ 31
    → width * height ≤ image1.size
    → width * height ≤ image2.size
    → Yields (Answers image1 image2 0 (width * height)) (compare image1 image2 width height)
unfolding compare
compare-Answers image1 image2 width height fits p q =
    rw (int-eq (width * height) fits)
      (compare_from-Answers image1 image2 0 (width * height) (omega arith) (omega arith))
