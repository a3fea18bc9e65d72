-- ===== src/Vision/Blobs/Axis.antt =====
-- The extent of a blob along one axis: its ends, its mass and the sum of its coordinates.
use final.Base.{ℕ, ◌+◌, ◌*◌, ◌^◌, ◌≤◌, ◌<◌, ◌≡◌, arith, ltb, if◌then◌else◌}
use final.Vision.Blobs.{ulong}

-- The mean of the coordinates lies between the ends, which lie inside an image of size `size`.
pub record Axis (size lo hi mass sum : ℕ) : Type 0 where
  pub low : lo * mass ≤ sum
  pub high : sum ≤ hi * mass
  pub from : 1 ≤ lo
  pub to : hi + 1 < size

pub Axis-pixel : (size at : ℕ) → 1 ≤ at → at + 1 < size → Axis size at at 1 at
Axis-pixel size at p q = record { low = omega arith; high = omega arith; from = p; to = q }

-- A sum that fits is not cut off.
sum_fits :
    (size n hi mass sum : ℕ)
    → size * n ≤ 2 ^ 32
    → mass ≤ n
    → 0 < mass
    → hi + 1 < size
    → sum ≤ hi * mass
    → ulong sum ≡ sum
sum_fits size n hi mass sum fits p z q r =
    let below : hi * mass < size * n = grind arith in omega arith

widen :
    (size lo hi mass sum lo₁ hi₁ : ℕ)
    → lo ≤ lo₁
    → hi₁ ≤ hi
    → Axis size lo₁ hi₁ mass sum
    → (lo * mass ≤ sum) × (sum ≤ hi * mass)
widen size lo hi mass sum lo₁ hi₁ p q a = (grind (arith, a.low), grind (arith, a.high))

-- Two extents together, as long as no sum wraps around.
pub Axis-join :
    {size lo₁ hi₁ mass₁ sum₁ lo₂ hi₂ mass₂ sum₂ : ℕ} (n : ℕ)
    → size * n ≤ 2 ^ 32
    → mass₁ + mass₂ ≤ n
    → 0 < mass₁
    → Axis size lo₁ hi₁ mass₁ sum₁
    → Axis size lo₂ hi₂ mass₂ sum₂
    → Axis size
        (if ltb lo₂ lo₁ then lo₂ else lo₁)
        (if ltb hi₁ hi₂ then hi₂ else hi₁)
        (mass₁ + mass₂)
        (ulong (sum₁ + sum₂))
Axis-join {size} {lo₁} {hi₁} {mass₁} {sum₁} {lo₂} {hi₂} {mass₂} {sum₂} n fits p z a b =
    let lo = if ltb lo₂ lo₁ then lo₂ else lo₁ in
    let hi = if ltb hi₁ hi₂ then hi₂ else hi₁ in
    let (low₁, high₁) = widen size lo hi mass₁ sum₁ lo₁ hi₁ (ground arith) (ground arith) a in
    let (low₂, high₂) = widen size lo hi mass₂ sum₂ lo₂ hi₂ (ground arith) (ground arith) b in
    let low : lo * (mass₁ + mass₂) ≤ sum₁ + sum₂ = omega (arith, low₁, low₂) in
    let high : sum₁ + sum₂ ≤ hi * (mass₁ + mass₂) = omega (arith, high₁, high₂) in
    let to : hi + 1 < size = ground (arith, a.to, b.to) in
    let from : 1 ≤ lo = ground (arith, a.from, b.from) in
    let whole = sum_fits size n hi (mass₁ + mass₂) (sum₁ + sum₂) fits p (omega arith) to high in
    record { low = rw whole low; high = rw whole high; from = from; to = to }
