-- ===== src/Mmal/Pool/Create.antt =====
-- mmal_pool_create_with_allocator.
use final.Base.{ℕ, zero, suc, ◌+◌, ◌*◌, ◌<◌, ◌≡◌, true, some, none, List, [], ◌∷◌, ◌++◌, has}
use final.Mmal.World.{Ptr, null, Pool, World}
use final.Mmal.Queue.Fifo.{Holds}
use final.Mmal.Buffer.{Sizes, zero_header}
use final.Mmal.Pool.{pooled, headers_array_size}
use final.Mmal.Pool.Fill.{payload_of}

-- `n` headers of `size` bytes one after the other, from the address `at` on.
abbrev pub addresses : ℕ → (at size : ℕ) → List Ptr
addresses zero at size = []
addresses (suc n) at size = at ∷ addresses n (at + size) size

-- Every address of the list is below the bound.
abbrev pub Below : List Ptr → ℕ → Type 0
Below xs at = (a : Ptr) → has a xs ≡ true → a < at

-- The headers from `at` on stand in the queue behind `xs`; of them and of all others only links
-- have changed.
pub record Queued (w : World) (qp : Ptr) (xs : List Ptr) (n at size : ℕ) (v : World) : Type 0 where
  pub queued : Holds v qp 0 (xs ++ addresses n at size)
  pub pools : v.pools ≡ w.pools
  pub freed : v.freed ≡ w.freed
  pub links :
      (a : Ptr) → record (v.headers a) { next = null } ≡ record (w.headers a) { next = null }

-- A pool that was just created: all its headers are in it and in its queue, in the order of their
-- addresses, each with one count and the payload that the allocator gave.
pub record Created (z : Sizes) (pl : Pool) (pool : Ptr) (alloc : ℕ → Ptr) (headers : ℕ) (v : World)
    : Type 0 where
  pub entry : Pool
  pub lives : v.pools pool ≡ some entry
  pub count : entry.headers_num ≡ headers
  pub queue : entry.queue ≡ pl.queue
  pub cb : entry.cb ≡ none
  pub slots :
      (k : ℕ)
      → k < headers
      → entry.header k ≡ pl.array + headers_array_size z headers + k * pl.header_size
  pub queued :
      Holds v pl.queue 0
        (addresses headers (pl.array + headers_array_size z headers) pl.header_size)
  pub made :
      (k : ℕ)
      → k < headers
      → record (v.headers (pl.array + headers_array_size z headers + k * pl.header_size)) {
        next = null;
      }
        ≡ pooled pl pool (payload_of pl alloc k) zero_header
