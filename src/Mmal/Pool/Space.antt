-- ===== src/Mmal/Pool/Space.antt =====
-- mmal_pool.c: the space for the headers of a pool, and for the pointers to them, in one block.
use final.Base.{ℕ, suc, ◌+◌, ◌*◌, ◌≤◌, ◌<◌, ◌≡◌, update, ◌∙◌, true, arith, ◌^◌, le→leb, ap}
use native.Mathlib.Nat.{zero-add}
use mathlib.Core.Path.{ap₂}
use final.Mmal.World.{Ptr, Pool}
use final.Mmal.Buffer.{Sizes, buffer_header_size, round_up}
use final.Mmal.Pool.{
  uint, new_pool, chosen_allocator, pool_header_size, headers_array_size, block_size, header_fits,
  entry_fits,
}

-- The pool's record after a round.
abbrev pub next_pool : Pool → ℕ → Ptr → Pool
next_pool pl i at = record pl { header = update pl.header i at; headers_num = i + 1 }

-- The block has space for `n` more headers from `at` on, and for the pointers to all before the first.
pub record Spacious (z : Sizes) (pl : Pool) (n i at : ℕ) : Type 0 where
  pub entries : pl.array + z.pointer * (i + n) + i * pl.header_size ≤ at
  pub space : at + n * pl.header_size ≤ pl.array + pl.array_size

pub Spacious-header :
    {z : Sizes} {pl : Pool} (n i at : ℕ) → Spacious z pl (suc n) i at → header_fits z pl at ≡ true
Spacious-header {pl} n i at r =
    let split : suc n * pl.header_size ≡ pl.header_size + n * pl.header_size = grind arith in
    le→leb _ _ (omega (arith, r.space, split))

pub Spacious-entry :
    {z : Sizes} {pl : Pool} (n i at : ℕ) → Spacious z pl (suc n) i at → entry_fits z pl i at ≡ true
Spacious-entry {z} n i at r =
    let split : z.pointer * (i + suc n) ≡ z.pointer * (i + 1) + z.pointer * n = grind arith in
    le→leb _ _ (omega (arith, r.entries, split))

pub Spacious-next :
    {z : Sizes} {pl : Pool} (n i at : ℕ)
    → Spacious z pl (suc n) i at
    → Spacious z (next_pool pl i at) n (i + 1) (at + pl.header_size)
Spacious-next {z} {pl} n i at r =
    let entries : z.pointer * (i + 1 + n) ≡ z.pointer * (i + suc n) = grind arith in
    let before : (i + 1) * pl.header_size ≡ i * pl.header_size + pl.header_size = grind arith in
    let split : suc n * pl.header_size ≡ pl.header_size + n * pl.header_size = grind arith in
    record {
      entries = omega (arith, r.entries, entries, before);
      space = omega (arith, r.space, split);
    }

-- The sizes of a header and of the block for `headers` of them do not wrap around.
pub record BlockFits (z : Sizes) (headers : ℕ) : Type 0 where
  pub header : round_up (buffer_header_size z) 8 < 2 ^ 32
  pub block :
      round_up (z.pointer * headers) 8 + round_up (buffer_header_size z) 8 * headers < 2 ^ 32

-- A size that is rounded up is not less.
round_up-le : (n : ℕ) → n ≤ round_up n 8
round_up-le n = omega arith

pub pool_header_size-le :
    {z : Sizes} {headers : ℕ} → BlockFits z headers → buffer_header_size z ≤ pool_header_size z
pool_header_size-le {z} f = omega (arith, f.header, round_up-le (buffer_header_size z))

pub pool_header_size-pos : {z : Sizes} {headers : ℕ} → BlockFits z headers → 0 < pool_header_size z
unfolding buffer_header_size
pool_header_size-pos f = let le = pool_header_size-le f in omega (arith, le)

-- The block that a pool is created with has space for all its headers.
pub new_pool-Spacious :
    (z : Sizes) (queue array headers payload_size : ℕ) (allocator : ℕ × ℕ × Ptr)
    → BlockFits z headers
    → Spacious z
        (new_pool z queue array headers payload_size (chosen_allocator z allocator))
        headers
        0
        (array + headers_array_size z headers)
unfolding headers_array_size block_size
new_pool-Spacious z queue array headers payload_size allocator f =
    let size = round_up (buffer_header_size z) 8 in
    let first = round_up (z.pointer * headers) 8 in
    let same : pool_header_size z ≡ size = omega (arith, f.header) in
    let listed : headers_array_size z headers ≡ first = omega (arith, f.block) in
    let none_before : 0 * pool_header_size z ≡ 0 = omega arith in
    let all = ap (λ n. z.pointer * n) (zero-add headers) in
    let rows : headers * pool_header_size z ≡ size * headers =
      ap (λ n. headers * n) same ∙ mul_comm headers size in
    let whole : block_size z (pool_header_size z) headers ≡ first + size * headers =
      ap uint (ap₂ (λ m n. m + n) listed (ap (λ n. n * headers) same)) ∙ omega (arith, f.block) in
    record {
      entries = omega (arith, listed, none_before, all, round_up-le (z.pointer * headers));
      space = omega (arith, listed, rows, whole);
    }
  where
    mul_comm : (m n : ℕ) → m * n ≡ n * m
    mul_comm m n = grind arith
