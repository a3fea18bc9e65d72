-- ===== src/Mmal/Buffer.antt =====
-- core/mmal_buffer.c: buffer headers, their reference counts and their references to one another,
-- and mmal_pool_buffer_header_release of core/mmal_pool.c, which a pool's headers are released by.
-- A call that dereferences NULL is a fault, `none`, and so is a release that runs out of fuel.
pub mod Release
pub mod Replicate
use final.Base.{
  ℕ, zero, suc, ◌+◌, ◌*◌, ◌/◌, Bool, true, false, ◌||◌, Option, none, some, ◌==◌, ltb,
  if◌then◌else◌, ◌>>=◌,
}
use final.Mmal.World.{
  Ptr, null, time_unknown, ReleaseFn, unset, pool_buffer_header_release, other, Callback,
  HeaderPrivate, Header, World, increment, decrement, set_header, set_private,
}
use final.Mmal.Queue.{put}

-- The client's functions that are called back: what they do to the memory, and their result.
pub record Client : Type 0 where
  pub pre_release : Callback → Ptr → World → World × Bool
  pub pool_release : Callback → Ptr → Ptr → World → World × Bool
  pub other_release : ℕ → Ptr → World → World

pub data Status : Type 0 where
  success enomem enospc einval enosys enoent enxio eio espipe ecorrupt enotready econfig : Status
  eisconn enotconn eagain efault : Status

abbrev pub is_success : Status → Bool
is_success success = true
is_success _ = false

pub set_refcount : World → Ptr → ℕ → World
set_refcount w p n = set_private w p (record ((w.headers p).priv) { refcount = n })

pub set_reference : World → Ptr → Ptr → World
set_reference w p q = set_private w p (record ((w.headers p).priv) { reference = q })

-- A count is an int32_t: its 32 binary digits, in two's complement. Counting up the greatest or down
-- the least overflows, and faults.
abbrev pub most_counts : ℕ
most_counts = 0x7fff_ffff

abbrev pub least_count : ℕ
least_count = 0x8000_0000

pub acquire : Ptr → World → Option World
acquire p w =
    let count = (w.headers p).priv.refcount in
    if (p == null) || (count == most_counts)
    then none
    else some (set_refcount w p (increment count))

-- The fields of a header after mmal_buffer_header_reset.
abbrev pub reset_header : Header → Header
reset_header h = record h {
  length = 0;
  offset = 0;
  flags = 0;
  pts = time_unknown;
  dts = time_unknown;
}

pub reset : Ptr → World → World
reset p w = set_header w p (reset_header (w.headers p))

module _ (client : Client) where
  -- `queue_buffer` in mmal_pool_buffer_header_release: whether the header goes back on the queue.
  client_allows : Option Callback → Ptr → Ptr → World → World × Bool
  client_allows none pool p w = (w, true)
  client_allows (some cb) pool p w = client.pool_release cb pool p w

  requeue : Ptr → Ptr → World × Bool → Option World
  requeue queue p (w, true) = put queue p w
  requeue queue p (w, false) = some w

  pub pool_release : Ptr → World → Option World
  pool_release p w = do
    pool ← w.pools (w.headers p).priv.owner
    requeue pool.queue p (client_allows pool.cb (w.headers p).priv.owner p (set_refcount w p 1))

  -- The call of `header->priv->pf_release`.
  run_release : ReleaseFn → Ptr → World → Option World
  run_release unset p w = none
  run_release pool_buffer_header_release p w = pool_release p w
  run_release (other f) p w = some (client.other_release f p w)

  -- mmal_buffer_header_release_continue, where `release` is the release of the referenced header.
  pub continue_by : (Ptr → World → Option World) → Ptr → World → Option World
  continue_by release p w =
      let w₁ = reset p w in
      let reference = (w₁.headers p).priv.reference in
      do
        w₂ ← if reference == null then some w₁ else release reference w₁
        let w₃ = set_reference w₂ p null
        run_release (w₃.headers p).priv.pf_release p w₃

  -- The result of the pre-release callback: whether the release is delayed.
  delayed : Option Callback → Ptr → World → World × Bool
  delayed none p w = (w, false)
  delayed (some cb) p w = client.pre_release cb p w

  continue_unless : (Ptr → World → Option World) → Ptr → World × Bool → Option World
  continue_unless release p (w, true) = some w
  continue_unless release p (w, false) = continue_by release p w

  -- The fuel bounds the chain of references.
  pub release : ℕ → Ptr → World → Option World
  release zero p w = none
  release (suc fuel) p w =
      if p == null
      then none
      else let h = (w.headers p).priv in
        let left = decrement h.refcount in
        let w₁ = set_refcount w p left in
        let finish = continue_unless (release fuel) p (delayed h.pf_pre_release p w₁) in
        if h.refcount == least_count then none else if left == 0 then finish else some w₁

  pub release_continue : ℕ → Ptr → World → Option World
  release_continue fuel p w = if p == null then none else continue_by (release fuel) p w

pub replicate : (dest src : Ptr) → World → Option (Status × World)
replicate dest src w =
    if (dest == null) || (src == null)
    then some (einval, w)
    else if (w.headers dest).priv.reference == null
    then (do
      w₁ ← acquire src w
      let w₂ = set_reference w₁ dest src
      let s = w₂.headers src
      some (
        success,
        set_header w₂ dest (record (w₂.headers dest) {
          cmd = s.cmd;
          alloc_size = s.alloc_size;
          data_ptr = s.data_ptr;
          offset = s.offset;
          length = s.length;
          flags = s.flags;
          pts = s.pts;
          dts = s.dts;
          type_info = s.type_info;
        }),
      ))
    else some (einval, w)

pub reference : Ptr → World → Ptr
reference p w = (w.headers p).priv.reference

pub pre_release_cb_set : Ptr → Option Callback → World → World
pre_release_cb_set p cb w = set_private w p (record ((w.headers p).priv) { pf_pre_release = cb })

-- `sizeof` of the structures, which the compiler fixes.
pub record Sizes : Type 0 where
  pub pointer : ℕ
  pub header : ℕ
  pub type_specific : ℕ
  pub private_area : ℕ

-- ROUND_UP: `(s & ~(align - 1)) + align` for an alignment that is a power of two. A size that is
-- aligned already grows by `align` too.
abbrev pub round_up : ℕ → ℕ → ℕ
round_up s align = s / align * align + align

abbrev pub default_command_size : ℕ
default_command_size = 256

unfoldable pub buffer_header_size : Sizes → ℕ
buffer_header_size z =
    round_up z.header 8
    + round_up z.type_specific 8
    + round_up default_command_size 8
    + round_up z.private_area 8

abbrev pub zero_private : HeaderPrivate
zero_private = record {
  refcount = 0;
  reference = null;
  pf_release = unset;
  owner = null;
  pf_pre_release = none;
  payload = null;
  payload_context = null;
  pf_payload_free = null;
  payload_size = 0;
  component_data = null;
}

abbrev pub zero_header : Header
zero_header = record {
  next = null;
  cmd = 0;
  data_ptr = null;
  alloc_size = 0;
  length = 0;
  offset = 0;
  flags = 0;
  pts = 0;
  dts = 0;
  type_info = 0;
  user_data = null;
  priv = zero_private;
}

-- mmal_buffer_header_initialise: the header stands at `mem` itself.
unfoldable pub initialise : Sizes → (mem : Ptr) (length : ℕ) → World → Ptr × World
initialise z mem length w =
    if ltb length (buffer_header_size z) then (null, w) else (mem, set_header w mem zero_header)
