-- ===== src/Mmal/Pool.antt =====
-- core/mmal_pool.c: pools of buffer headers with their payloads and the queue of the free ones.
-- What an allocator returns is an argument: `alloc i` for the header with the index i.
pub mod Space
pub mod Fill
pub mod Create
pub mod Failure
mod Tests
use final.Base.{
  ℕ, zero, suc, ◌+◌, ◌-◌, ◌*◌, ◌%◌, Bool, true, false, ◌||◌, ◌&&◌, not, Option, none, some, List,
  [], ◌∷◌, ◌==◌, ltb, leb, ◌^◌, if◌then◌else◌, ◌>>=◌, update,
}
use final.Mmal.World.{
  Ptr, null, pool_buffer_header_release, Callback, HeaderPrivate, Header, Pool, World, set_header,
  set_pool,
}
use final.Mmal.Queue
use final.Mmal.Buffer.{
  Status, is_success, success, einval, enomem, Sizes, round_up, buffer_header_size, initialise,
  pre_release_cb_set,
}

-- Sizes are unsigned ints of 32 bits, and wrap around; so are size_t and the addresses.
abbrev pub uint : ℕ → ℕ
uint n = n % 2 ^ 32

-- The functions of mmal_pool_create's own allocator, by their names.
abbrev pub default_alloc : ℕ
default_alloc = 1

abbrev pub default_free : ℕ
default_free = 2

-- Whether a payload goes back to its allocator, and the memory after that.
abbrev pub owns_payload : HeaderPrivate → Bool
owns_payload h =
    not (h.pf_payload_free == null) && not (h.payload == null) && not (h.payload_size == 0)

abbrev pub free_payload : Header → World → World
free_payload h w = if owns_payload h.priv then record w { freed = h.priv.payload ∷ w.freed } else w

-- The test of mmal_pool_initialise_buffer_headers: whether it allocates the payloads.
abbrev pub allocates : Pool → Bool
allocates pl = not (pl.payload_size == 0) && not (pl.allocator_alloc == null)

-- The fields that mmal_pool_initialise_buffer_headers sets.
abbrev pub pooled : Pool → Ptr → Ptr → Header → Header
pooled pl pool payload h = record h {
  data_ptr = payload;
  alloc_size = pl.payload_size;
  priv = record (h.priv) {
    pf_release = pool_buffer_header_release;
    owner = pool;
    refcount = 1;
    payload = payload;
    payload_context = pl.allocator_context;
    pf_payload_free = pl.allocator_free;
    payload_size = pl.payload_size;
  };
}

-- `for (i = 0; i < pool->headers_num; i++) mmal_queue_put(queue, pool->header[i]);`
put_loop : ℕ → (queue : Ptr) (header : ℕ → Ptr) (i : ℕ) → World → Option World
put_loop zero queue header i w = some w
put_loop (suc n) queue header i w = do
  w₁ ← Queue.put queue (header i) w
  put_loop n queue header (i + 1) w₁

get_loop : ℕ → (queue : Ptr) → World → Option World
get_loop zero queue w = some w
get_loop (suc n) queue w = do (_, w₁) ← Queue.get queue w; get_loop n queue w₁

free_loop : ℕ → (header : ℕ → Ptr) (i : ℕ) → World → World
free_loop zero header i w = w
free_loop (suc n) header i w = free_loop n header (i + 1) (free_payload (w.headers (header i)) w)

pub destroy : Ptr → World → Option World
destroy pool w = if pool == null then some w else do
  pl ← w.pools pool
  let w₁ = free_loop pl.headers_num pl.header 0 w
  let w₂ = Queue.destroy pl.queue w₁
  some (record w₂ { pools = update w₂.pools pool none })

pub callback_set : Ptr → Option Callback → World → Option World
callback_set pool cb w = do pl ← w.pools pool; some (set_pool w pool (record pl { cb = cb }))

pre_release_loop : ℕ → (size : ℕ) → Option Callback → (at : Ptr) → World → World
pre_release_loop zero size cb at w = w
pre_release_loop (suc n) size cb at w =
    pre_release_loop n size cb (at + size) (pre_release_cb_set at cb w)

-- The header at `header` becomes entry `i` of the pool.
enlist : Ptr → Pool → ℕ → Ptr → Ptr → World → World
enlist pool pl i header payload w =
    set_pool (set_header w header (pooled pl pool payload (w.headers header))) pool
      (record pl { header = update pl.header i header; headers_num = i + 1 })

module _ (z : Sizes) where
  -- One round: the header, the payload that it gets, and whether its allocation failed.
  prepare : Bool → Ptr → ℕ → World → Ptr × World
  prepare true header size w = initialise z header size w
  prepare false header size w = (header, w)

  -- The header at `at` ends inside the block, and entry `i` of the pointers before the first header.
  abbrev pub header_fits : Pool → Ptr → Bool
  header_fits pl at = leb (at + pl.header_size) (pl.array + pl.array_size)

  abbrev pub entry_fits : Pool → ℕ → Ptr → Bool
  entry_fits pl i at = leb (pl.array + z.pointer * (i + 1) + i * pl.header_size) at

  -- The rounds from `i` on, `n` of them; `payload` is the local variable that a round leaves.
  pub header_loop :
      ℕ
      → (pool : Ptr) (reinitialise : Bool) (alloc : ℕ → Ptr) (i : ℕ) (at payload : Ptr) → World
      → Option (Status × World)
  header_loop zero pool reinitialise alloc i at payload w = some (success, w)
  header_loop (suc n) pool reinitialise alloc i at payload w = do
    pl ← w.pools pool
    let (header, w₁) = prepare reinitialise at pl.header_size w
    let payload' = if allocates pl then alloc i else payload
    let w₂ = if allocates pl then w₁ else free_payload (w₁.headers header) w₁
    let rest =
        header_loop n pool reinitialise alloc (i + 1) (header + pl.header_size) payload'
          (enlist pool pl i header payload' w₂)
    if not (header_fits pl at)
        then none
        else if allocates pl && (payload' == null)
        then some (enomem, w₂)
        else if (header == null) || not (entry_fits pl i at)
        then none
        else rest

  pub headers_array_size : ℕ → ℕ
  headers_array_size headers = uint (round_up (z.pointer * headers) 8)

  abbrev pub pool_header_size : ℕ
  pool_header_size = uint (round_up (buffer_header_size z) 8)

  -- What vcos_calloc is asked for: the pointers and the headers behind them.
  pub block_size : (header_size headers : ℕ) → ℕ
  block_size header_size headers = uint (headers_array_size headers + header_size * headers)

  pub initialise_buffer_headers :
      (pool : Ptr) (headers : ℕ) (reinitialise : Bool) (alloc : ℕ → Ptr)
      → World
      → Option (Status × World)
  initialise_buffer_headers pool headers reinitialise alloc w = do
    pl ← w.pools pool
    header_loop headers pool reinitialise alloc 0 (pl.array + headers_array_size headers) null w

  -- mmal_pool_create_with_allocator from the point where its memory is allocated.
  fill_queue : Ptr → Ptr → Status × World → Option (Ptr × World)
  fill_queue pool queue (st, w) =
      if is_success st
      then (do pl ← w.pools pool; w₁ ← put_loop pl.headers_num queue pl.header 0 w; some (pool, w₁))
      else (do w₁ ← destroy pool w; some (null, w₁))

  -- Both functions of the allocator, or the default ones if one is missing.
  abbrev pub chosen_allocator : ℕ × ℕ × Ptr → ℕ × ℕ × Ptr
  chosen_allocator (alloc, free, context) =
      if (alloc == null) || (free == null)
      then (default_alloc, default_free, null)
      else (alloc, free, context)

  abbrev pub new_pool : (queue array : Ptr) → ℕ → ℕ → ℕ × ℕ × Ptr → Pool
  new_pool queue array headers payload_size (alloc, free, context) = record {
    queue = queue;
    headers_num = 0;
    header = λ _. null;
    array = array;
    array_size = block_size pool_header_size headers;
    cb = none;
    allocator_alloc = alloc;
    allocator_free = free;
    allocator_context = context;
    header_size = pool_header_size;
    payload_size = payload_size;
    headers_alloc_num = headers;
  }

  -- The pointers are what mmal_queue_create, and vcos_calloc for the pool and for the headers, give.
  create_in :
      (private_mem array : Ptr) (alloc : ℕ → Ptr) (headers payload_size : ℕ)
      → ℕ × ℕ × Ptr
      → Ptr × World
      → Option (Ptr × World)
  create_in private_mem array alloc headers payload_size allocator (queue, w) =
      if queue == null
      then some (null, w)
      else if (private_mem == null) || (array == null)
      then some (null, Queue.destroy queue w)
      else (do
        let pl = new_pool queue array headers payload_size (chosen_allocator allocator)
        r ← initialise_buffer_headers private_mem headers true alloc (set_pool w private_mem pl)
        fill_queue private_mem queue r)

  pub create_with_allocator :
      (queue_mem : Ptr) (mutex_ok semaphore_ok : Bool) (private_mem array : Ptr) (alloc : ℕ → Ptr)
      → (headers payload_size : ℕ) → (allocator : ℕ × ℕ × Ptr) → World
      → Option (Ptr × World)
  create_with_allocator queue_mem mutex_ok semaphore_ok private_mem array alloc headers payload_size
        allocator w =
      create_in private_mem array alloc headers payload_size allocator
        (Queue.create queue_mem mutex_ok semaphore_ok w)

  pub create :
      (queue_mem : Ptr) (mutex_ok semaphore_ok : Bool) (private_mem array : Ptr) (alloc : ℕ → Ptr)
      → (headers payload_size : ℕ) → World
      → Option (Ptr × World)
  create queue_mem mutex_ok semaphore_ok private_mem array alloc headers payload_size w =
      create_with_allocator queue_mem mutex_ok semaphore_ok private_mem array alloc headers
        payload_size (default_alloc, default_free, null) w

  -- mmal_pool_resize once the old payloads are gone: `array` is what vcos_calloc returns if it is
  -- called, and the status of the initialisation is dropped, as the code drops it.
  refill :
      (pool array : Ptr) (alloc : ℕ → Ptr) (headers payload_size : ℕ)
      → World
      → Option (Status × World)
  refill pool array alloc headers payload_size w = do
    pl ← w.pools pool
    let w₁ = set_pool w pool (record pl { payload_size = payload_size })
    (_, w₂) ← initialise_buffer_headers pool headers true alloc w₁
    pl₂ ← w₂.pools pool
    w₃ ← put_loop pl₂.headers_num pl₂.queue pl₂.header 0 w₂
    some (success, w₃)

  reallocate :
      (pool array : Ptr) (alloc : ℕ → Ptr) (headers payload_size : ℕ)
      → World
      → Option (Status × World)
  reallocate pool array alloc headers payload_size w = do
    pl ← w.pools pool
    let size = block_size pl.header_size headers
    let grown = record pl { array = array; array_size = size; headers_alloc_num = headers }
    if ltb pl.headers_alloc_num headers
        then (if array == null
            then some (
              enomem,
              set_pool w pool (record pl { array = null; array_size = 0; headers_alloc_num = 0 }),
            )
            else refill pool array alloc headers payload_size (set_pool w pool grown))
        else refill pool array alloc headers payload_size w

  pub resize :
      (pool array : Ptr) (alloc : ℕ → Ptr) (headers payload_size : ℕ)
      → World
      → Option (Status × World)
  resize pool array alloc headers payload_size w =
      if (pool == null) || (headers == 0) then some (einval, w) else do
        pl ← w.pools pool
        if (headers == pl.headers_num) && (payload_size == pl.payload_size)
            then some (success, w)
            else (do
              w₁ ← get_loop pl.headers_num pl.queue w
              pl₁ ← w₁.pools pool
              let w₂ = set_pool w₁ pool (record pl₁ { payload_size = 0 })
              (_, w₃) ← initialise_buffer_headers pool pl.headers_num false alloc w₂
              pl₃ ← w₃.pools pool
              reallocate pool array alloc headers payload_size
                  (set_pool w₃ pool (record pl₃ { headers_num = 0 })))

  pub pre_release_callback_set : Ptr → Option Callback → World → Option World
  pre_release_callback_set pool cb w = do
    pl ← w.pools pool
    some (
        pre_release_loop pl.headers_num pl.header_size cb
          (pl.array + headers_array_size pl.headers_num) w)
