-- ===== src/Mmal/World.antt =====
-- The memory that the MMAL core works on: buffer headers (mmal_buffer.h and
-- core/mmal_buffer_private.h), queues (core/mmal_queue.c) and pools (core/mmal_pool.c).
-- A pointer is a number, and NULL is 0. Objects of one C type live in one map.
use final.Base.{ℕ, ◌+◌, ◌%◌, ◌^◌, Option, some, List, update}

abbrev pub Ptr : Type 0
Ptr = ℕ

abbrev pub null : Ptr
null = 0

-- MMAL_TIME_UNKNOWN, INT64_MIN as a bit pattern.
abbrev pub time_unknown : ℕ
time_unknown = 0x8000_0000_0000_0000

-- What `pf_release` points to: the pool's function, or one of another owner.
pub data ReleaseFn : Type 0 where
  unset : ReleaseFn
  pool_buffer_header_release : ReleaseFn
  other : ℕ → ReleaseFn

-- A callback with its user data; the number names the client's function.
pub record Callback : Type 0 where
  pub function : ℕ
  pub userdata : Ptr

pub record HeaderPrivate : Type 0 where
  pub refcount : ℕ
  pub reference : Ptr
  pub pf_release : ReleaseFn
  pub owner : Ptr
  pub pf_pre_release : Option Callback
  pub payload : Ptr
  pub payload_context : Ptr
  pub pf_payload_free : ℕ
  pub payload_size : ℕ
  pub component_data : Ptr

pub record Header : Type 0 where
  pub next : Ptr
  pub cmd : ℕ
  pub data_ptr : Ptr
  pub alloc_size : ℕ
  pub length : ℕ
  pub offset : ℕ
  pub flags : ℕ
  pub pts : ℕ
  pub dts : ℕ
  pub type_info : ℕ
  pub user_data : Ptr
  pub priv : HeaderPrivate

-- Where `MMAL_BUFFER_HEADER_T **last` points: to `queue->first`, or to a header's `next`.
pub data Slot : Type 0 where
  first_slot : Slot
  next_slot : Ptr → Slot

-- The lock is not a field: each operation below holds it from its first access to its last.
pub record Queue : Type 0 where
  pub length : ℕ
  pub first : Ptr
  pub last : Slot
  pub semaphore : ℕ

pub record Pool : Type 0 where
  pub queue : Ptr
  pub headers_num : ℕ
  pub header : ℕ → Ptr
  pub array : Ptr
  -- the bytes of the block at `array`
  pub array_size : ℕ
  pub cb : Option Callback
  pub allocator_alloc : ℕ
  pub allocator_free : ℕ
  pub allocator_context : Ptr
  pub header_size : ℕ
  pub payload_size : ℕ
  pub headers_alloc_num : ℕ

pub record World : Type 0 where
  pub headers : Ptr → Header
  pub queues : Ptr → Option Queue
  pub pools : Ptr → Option Pool
  -- the payloads given back to their allocators, the latest first
  pub freed : List Ptr

-- `unsigned int` counts modulo 2^32.
abbrev pub increment : ℕ → ℕ
increment n = (n + 1) % 2 ^ 32

abbrev pub decrement : ℕ → ℕ
decrement n = (n + 0xffff_ffff) % 2 ^ 32

abbrev pub set_header : World → Ptr → Header → World
set_header w p h = record w { headers = update w.headers p h }

abbrev pub set_private : World → Ptr → HeaderPrivate → World
set_private w p q = set_header w p (record (w.headers p) { priv = q })

abbrev pub set_next : World → Ptr → Ptr → World
set_next w p q = set_header w p (record (w.headers p) { next = q })

abbrev pub set_queue : World → Ptr → Queue → World
set_queue w p q = record w { queues = update w.queues p (some q) }

abbrev pub set_pool : World → Ptr → Pool → World
set_pool w p q = record w { pools = update w.pools p (some q) }
