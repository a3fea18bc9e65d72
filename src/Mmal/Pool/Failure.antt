-- ===== src/Mmal/Pool/Failure.antt =====
-- mmal_pool_destroy, and mmal_pool_create_with_allocator where an allocation fails.
use final.Base.{
  ℕ, zero, suc, ◌+◌, ◌<◌, ◌≡◌, refl, ◌≢◌, ◌∙◌, true, none, arith, List, [], ◌∷◌, not_zero, eq_self,
  sym, ap, Yields, yields, Yields-mono, Yields-bind,
}
use native.Mathlib.Nat.{zero-add, add-zero}
use final.Mmal.World.{Ptr, null, Header, Pool, World}
use final.Mmal.Buffer.{Sizes, zero_header}
use final.Mmal.Queue
use final.Mmal.Queue.Fifo.{Holds}
use final.Mmal.Queue.Lifecycle.{create-Opens}
use final.Mmal.Pool.{
  pooled, owns_payload, free_payload, free_loop, destroy, headers_array_size, fill_queue, create_in,
  initialise_buffer_headers, new_pool, chosen_allocator, create_with_allocator, allocates,
}
use final.Mmal.Pool.Space.{BlockFits, pool_header_size-le, new_pool-Spacious}
use final.Mmal.Pool.Fill.{Filled, payload_of, next_index, header_loop-fails}

-- The payloads of `n` headers from the index `i` on, given back in that order.
abbrev pub given_back : ℕ → (ℕ → Ptr) → ℕ → List Ptr → List Ptr
given_back zero alloc i freed = freed
given_back (suc n) alloc i freed = given_back n alloc (i + 1) (alloc i ∷ freed)

free_payload-owns :
    (h : Header) (w : World)
    → owns_payload h.priv ≡ true
    → free_payload h w ≡ record w { freed = h.priv.payload ∷ w.freed }
free_payload-owns h w e = rw e

-- The loop of mmal_pool_destroy gives each payload back once, and touches nothing else.
free_loop-given_back :
    (n i : ℕ) (header alloc : ℕ → Ptr) (w : World)
    → ((k : ℕ) → k < n → owns_payload (w.headers (header (i + k))).priv ≡ true)
    → ((k : ℕ) → k < n → (w.headers (header (i + k))).priv.payload ≡ alloc (i + k))
    → free_loop n header i w ≡ record w { freed = given_back n alloc i w.freed }
unfolding free_loop
free_loop-given_back zero i header alloc w owns is = refl
free_loop-given_back (suc n) i header alloc w owns is =
    let zeroth = ap header (sym (add-zero i)) in
    let owns₀ : owns_payload (w.headers (header i)).priv ≡ true =
      ap (λ a. owns_payload (w.headers a).priv) zeroth ∙ owns zero (omega arith) in
    let is₀ : (w.headers (header i)).priv.payload ≡ alloc i =
      ap (λ a. (w.headers a).priv.payload) zeroth
      ∙ (is zero (omega arith) ∙ ap alloc (add-zero i)) in
    rw (free_payload-owns (w.headers (header i)) w owns₀, is₀)
      (free_loop-given_back n (i + 1) header alloc (record w { freed = alloc i ∷ w.freed })
        (λ k lt.
          ap (λ j. owns_payload (w.headers (header j)).priv) (sym (next_index i k))
          ∙ owns (suc k) (omega arith))
        (λ k lt.
          ap (λ j. (w.headers (header j)).priv.payload) (sym (next_index i k))
          ∙ (is (suc k) (omega arith) ∙ ap alloc (next_index i k))))

pooled_owns :
    (pl : Pool) (pool : Ptr) (alloc : ℕ → Ptr) (j : ℕ)
    → allocates pl ≡ true
    → pl.allocator_free ≢ null
    → alloc j ≢ null
    → owns_payload (pooled pl pool (payload_of pl alloc j) zero_header).priv ≡ true
pooled_owns pl pool alloc j y nf nz = ground arith

-- What is left of a pool whose creation failed at its header `k`: nothing, and every payload that
-- was allocated is given back.
pub record Abandons (pool queue : Ptr) (alloc : ℕ → Ptr) (k : ℕ) (freed : List Ptr) (v : World)
    : Type 0 where
  pub given : v.freed ≡ given_back k alloc 0 freed
  pub no_pool : v.pools pool ≡ none
  pub no_queue : v.queues queue ≡ none

destroy-Abandons :
    (pl : Pool) (pool : Ptr) (alloc : ℕ → Ptr) (k at : ℕ) {w u : World}
    → Filled pl pool alloc k 0 at w u
    → pool ≢ null
    → pl.queue ≢ null
    → allocates pl ≡ true
    → pl.allocator_free ≢ null
    → ((j : ℕ) → j < k → alloc j ≢ null)
    → Yields (Abandons pool pl.queue alloc k w.freed) (destroy pool u)
unfolding destroy Queue.destroy
destroy-Abandons pl pool alloc k at {w} {u} f np nq y nf given =
    let counted : f.entry.headers_num ≡ k = omega (arith, f.count) in
    let made : (j : ℕ)
        → j < k
        → u.headers (f.entry.header (0 + j))
          ≡ pooled pl pool (payload_of pl alloc (0 + j)) zero_header =
      λ j lt. rw (f.slots j lt) (f.made j lt) in
    let given₀ : (j : ℕ) → j < k → alloc (0 + j) ≢ null =
      λ j lt e. given j lt (ap alloc (sym (zero-add j)) ∙ e) in
    let back =
      free_loop-given_back k 0 f.entry.header alloc u
        (λ j lt. rw (made j lt) (pooled_owns pl pool alloc (0 + j) y nf (given₀ j lt)))
        (λ j lt. rw (made j lt, y)) in
    rw (not_zero pool np, f.lives, counted, back, f.queue, not_zero pl.queue nq)
      (yields (record {
        given = ap (given_back k alloc 0) f.freed;
        no_pool = rw (eq_self pool);
        no_queue = rw (eq_self pl.queue);
      }))

module _ (z : Sizes) where
  chosen-allocates :
      (queue array headers payload_size alloc free context : ℕ)
      → payload_size ≢ 0
      → allocates
          (new_pool z queue array headers payload_size (chosen_allocator z (alloc, free, context)))
        ≡ true
  chosen-allocates queue array headers payload_size alloc free context ns = ground arith

  chosen-frees : (alloc free context : ℕ) → (chosen_allocator z (alloc, free, context)).1 ≢ null
  chosen-frees alloc free context = ground arith

  create_in-Abandons :
      (pool array queue : Ptr) (alloc : ℕ → Ptr) (headers payload_size k : ℕ)
      → (allocator : ℕ × ℕ × Ptr) (w : World) → pool ≢ null
      → array ≢ null
      → BlockFits z headers
      → Holds w queue 0 []
      → k < headers
      → payload_size ≢ 0
      → ((j : ℕ) → j < k → alloc j ≢ null)
      → alloc k ≡ null
      → Yields
          (λ (p, v). (p ≡ null) × Abandons pool queue alloc k w.freed v)
          (create_in z pool array alloc headers payload_size allocator (queue, w))
  unfolding create_in initialise_buffer_headers fill_queue headers_array_size
  create_in-Abandons pool array queue alloc headers payload_size k (a, free, context) w np na sizes
        h lt ns given fails =
      rw (not_zero queue h.ne_null, not_zero pool np, not_zero array na, eq_self pool)
        (Yields-bind
          (header_loop-fails z pool alloc headers k 0 _ null
            (new_pool z queue array headers payload_size (chosen_allocator z (a, free, context))) _
            lt (rw (eq_self pool)) refl (omega arith) (pool_header_size-le sizes)
            (new_pool-Spacious z queue array headers payload_size (a, free, context) sizes)
            (chosen-allocates queue array headers payload_size a free context ns)
            (λ j l e. given j l (ap alloc (sym (zero-add j)) ∙ e)) (ap alloc (zero-add k) ∙ fails))
          λ (s, u) (ok, f). rw ok (
            Yields-bind
              (destroy-Abandons _ pool alloc k _ f np h.ne_null
                (chosen-allocates queue array headers payload_size a free context ns)
                (chosen-frees a free context) given)
              λ v a. yields (refl, a)))

  -- Where memory, mutex and semaphore can be had, the sizes of the headers and of their block do not
  -- wrap around, the payload size is not 0, and the allocation for header `k` is the first to fail,
  -- the pool's creation gives NULL; the payloads that were allocated before are given back, each once,
  -- and neither the pool nor its queue is left.
  pub create_with_allocator-Abandons :
      (queue_mem pool array : Ptr) (alloc : ℕ → Ptr) (headers payload_size k : ℕ)
      → (allocator : ℕ × ℕ × Ptr) (w : World) → queue_mem ≢ null
      → pool ≢ null
      → array ≢ null
      → BlockFits z headers
      → k < headers
      → payload_size ≢ 0
      → ((j : ℕ) → j < k → alloc j ≢ null)
      → alloc k ≡ null
      → Yields
          (λ (p, v). (p ≡ null) × Abandons pool queue_mem alloc k w.freed v)
          (create_with_allocator z queue_mem true true pool array alloc headers payload_size
            allocator w)
  unfolding create_with_allocator
  create_with_allocator-Abandons queue_mem pool array alloc headers payload_size k allocator w nq np
        na sizes lt ns given fails =
      let (u, e, opened) = create-Opens queue_mem w nq in
      rw e (
        Yields-mono
          (create_in-Abandons pool array queue_mem alloc headers payload_size k allocator u np na
            sizes opened.empty lt ns given fails)
          λ (p, v) (is_null, a). (
            is_null,
            record {
              given = a.given ∙ ap (given_back k alloc 0) opened.rest.freed;
              no_pool = a.no_pool;
              no_queue = a.no_queue;
            },
          ))
