-- ===== src/Mmal/Pool/Fill.antt =====
-- mmal_pool_initialise_buffer_headers where every allocation succeeds.
use final.Base.{
  ℕ, zero, suc, ◌+◌, ◌*◌, ◌≤◌, ◌<◌, ◌≡◌, refl, ◌≢◌, ◌∙◌, true, false, some, arith, if◌then◌else◌,
  not_zero, not_ltb, not_eq, eq_self, sym, ap, Bool-cases, inl, inr, Yields, yields, Yields-mono,
}
use native.Mathlib.Nat.{add-zero}
use final.Mmal.World.{Ptr, null, Pool, World, set_header}
use final.Mmal.Buffer.{success, enomem, Sizes, buffer_header_size, initialise, zero_header}
use final.Mmal.Pool.Space.{next_pool, Spacious, Spacious-header, Spacious-entry, Spacious-next}
use final.Mmal.Pool.{allocates, pooled, enlist, prepare, header_loop}

-- The payload of the header with the index `j`.
abbrev pub payload_of : Pool → (ℕ → Ptr) → ℕ → Ptr
payload_of pl alloc j = if allocates pl then alloc j else null

-- `n` headers from the address `at` on are the pool's entries from `i` on, and nothing below `at`
-- has changed.
pub record Filled (pl : Pool) (pool : Ptr) (alloc : ℕ → Ptr) (n i at : ℕ) (w v : World)
    : Type 0 where
  pub entry : Pool
  pub lives : v.pools pool ≡ some entry
  pub count : entry.headers_num ≡ i + n
  pub queue : entry.queue ≡ pl.queue
  pub cb : entry.cb ≡ pl.cb
  pub slots : (k : ℕ) → k < n → entry.header (i + k) ≡ at + k * pl.header_size
  pub before : (j : ℕ) → j < i → entry.header j ≡ pl.header j
  pub made :
      (k : ℕ)
      → k < n
      → v.headers (at + k * pl.header_size)
        ≡ pooled pl pool (payload_of pl alloc (i + k)) zero_header
  pub spared : (a : Ptr) → a < at → v.headers a ≡ w.headers a
  pub queues : v.queues ≡ w.queues
  pub freed : v.freed ≡ w.freed

buffer_header_size_pos : (z : Sizes) → 0 < buffer_header_size z
unfolding buffer_header_size
buffer_header_size_pos z = omega arith

pub first_at : (at size : ℕ) → at + 0 * size ≡ at
first_at at size = omega arith

pub next_at : (at size k : ℕ) → at + suc k * size ≡ at + size + k * size
next_at at size k = omega arith

pub next_index : (i k : ℕ) → i + suc k ≡ i + 1 + k
next_index i k = omega arith

module _ (z : Sizes) (pool : Ptr) (alloc : ℕ → Ptr) where
  -- The memory after one round.
  round : Pool → ℕ → Ptr → World → World
  round pl i at w = enlist pool pl i at (payload_of pl alloc i) (set_header w at zero_header)

  header_loop-round :
      (n i at payload : ℕ) (pl : Pool) (w : World)
      → w.pools pool ≡ some pl
      → at ≢ null
      → buffer_header_size z ≤ pl.header_size
      → Spacious z pl (suc n) i at
      → (allocates pl ≡ true → alloc i ≢ null)
      → (allocates pl ≡ false → payload ≡ null)
      → header_loop z (suc n) pool true alloc i at payload w
        ≡ header_loop z n pool true alloc
            (i + 1)
            (at + pl.header_size)
            (payload_of pl alloc i)
            (round pl i at w)
  unfolding header_loop prepare initialise round
  header_loop-round n i at payload pl w lives nz fits room given empty =
      let inside = Spacious-header n i at room in
      let listed = Spacious-entry n i at room in
      elim (Bool-cases (allocates pl)) [
        | inl yes' ↦ rw (
          lives,
          inside,
          not_ltb _ _ fits,
          yes',
          not_zero (alloc i) (given yes'),
          not_zero at nz,
          listed,
        )
        | inr no' ↦
            rw (lives, inside, not_ltb _ _ fits, no', empty no', not_zero at nz, eq_self at, listed)
      ]

  Filled-zero :
      (i at : ℕ) (pl : Pool) (w : World)
      → w.pools pool ≡ some pl
      → pl.headers_num ≡ i
      → Filled pl pool alloc 0 i at w w
  Filled-zero i at pl w lives counted = record {
    entry = pl;
    lives = lives;
    count = omega arith;
    queue = refl;
    cb = refl;
    slots = λ k lt. absurd (omega arith);
    before = λ j lt. refl;
    made = λ k lt. absurd (omega arith);
    spared = λ a lt. refl;
    queues = refl;
    freed = refl;
  }

  slots-suc :
      (n i at : ℕ) (pl : Pool) {w v : World}
      → (f : Filled (next_pool pl i at) pool alloc n (i + 1) (at + pl.header_size) w v) → (k : ℕ)
      → k < suc n
      → f.entry.header (i + k) ≡ at + k * pl.header_size
  slots-suc n i at pl f zero lt =
      rw (add-zero i, first_at at pl.header_size) (f.before i (omega arith) ∙ rw (eq_self i))
  slots-suc n i at pl f (suc k) lt =
      rw (next_index i k, next_at at pl.header_size k) (f.slots k (omega arith))

  made-suc :
      (n i at : ℕ) (pl : Pool) (w : World) {v : World}
      → 0 < pl.header_size
      → (f : Filled
          (next_pool pl i at)
          pool
          alloc
          n
          (i + 1)
          (at + pl.header_size)
          (round pl i at w)
          v)
      → (k : ℕ) → k < suc n
      → v.headers (at + k * pl.header_size)
        ≡ pooled pl pool (payload_of pl alloc (i + k)) zero_header
  unfolding round enlist
  made-suc n i at pl w pos f zero lt =
      rw (add-zero i, first_at at pl.header_size) (f.spared at (omega arith) ∙ rw (eq_self at))
  made-suc n i at pl w pos f (suc k) lt =
      rw (next_index i k, next_at at pl.header_size k) (f.made k (omega arith))

  Filled-suc :
      (n i at : ℕ) (pl : Pool) (w : World) {v : World}
      → 0 < pl.header_size
      → Filled (next_pool pl i at) pool alloc n (i + 1) (at + pl.header_size) (round pl i at w) v
      → Filled pl pool alloc (suc n) i at w v
  unfolding round enlist
  Filled-suc n i at pl w pos f = record {
    entry = f.entry;
    lives = f.lives;
    count = omega (arith, f.count);
    queue = f.queue;
    cb = f.cb;
    slots = slots-suc n i at pl f;
    before = λ j lt. f.before j (omega arith) ∙ rw (not_eq i j (omega arith));
    made = made-suc n i at pl w pos f;
    spared = λ a lt. f.spared a (omega arith) ∙ rw (not_eq at a (omega arith));
    queues = f.queues;
    freed = f.freed;
  }

  round-pools :
      (i at : ℕ) (pl : Pool) (w : World) → (round pl i at w).pools pool ≡ some (next_pool pl i at)
  unfolding round enlist
  round-pools i at pl w = rw (eq_self pool)

  -- Enough space at every header, and no allocation that fails, fill the pool in order.
  pub header_loop-Filled :
      (n i at payload : ℕ) (pl : Pool) (w : World)
      → w.pools pool ≡ some pl
      → pl.headers_num ≡ i
      → at ≢ null
      → buffer_header_size z ≤ pl.header_size
      → Spacious z pl n i at
      → (allocates pl ≡ true → (j : ℕ) → alloc j ≢ null)
      → (allocates pl ≡ false → payload ≡ null)
      → Yields
          (λ (s, v). (s ≡ success) × Filled pl pool alloc n i at w v)
          (header_loop z n pool true alloc i at payload w)
  unfolding header_loop
  header_loop-Filled zero i at payload pl w lives counted nz fits room given empty =
      yields (refl, Filled-zero i at pl w lives counted)
  header_loop-Filled (suc n) i at payload pl w lives counted nz fits room given empty =
      rw (header_loop-round n i at payload pl w lives nz fits room (λ y. given y i) empty) (
        Yields-mono
          (header_loop-Filled n (i + 1) (at + pl.header_size) (payload_of pl alloc i)
            (next_pool pl i at) (round pl i at w) (round-pools i at pl w) refl (omega arith) fits
            (Spacious-next n i at room) given (λ no'. rw no'))
          λ (s, v) (ok, f).
            (ok, Filled-suc n i at pl w (omega (arith, buffer_header_size_pos z)) f))

  -- The round whose allocation fails ends the loop with ENOMEM; its header was initialised.
  header_loop-none :
      (n i at payload : ℕ) (pl : Pool) (w : World)
      → w.pools pool ≡ some pl
      → buffer_header_size z ≤ pl.header_size
      → Spacious z pl (suc n) i at
      → allocates pl ≡ true
      → alloc i ≡ null
      → header_loop z (suc n) pool true alloc i at payload w
        ≡ some (enomem, set_header w at zero_header)
  unfolding header_loop prepare initialise
  header_loop-none n i at payload pl w lives fits room y fails =
      rw (lives, Spacious-header n i at room, not_ltb _ _ fits, y, fails)

  Filled-none :
      (i at : ℕ) (pl : Pool) (w : World)
      → w.pools pool ≡ some pl
      → pl.headers_num ≡ i
      → Filled pl pool alloc 0 i at w (set_header w at zero_header)
  Filled-none i at pl w lives counted = record {
    entry = pl;
    lives = lives;
    count = omega arith;
    queue = refl;
    cb = refl;
    slots = λ k lt. absurd (omega arith);
    before = λ j lt. refl;
    made = λ k lt. absurd (omega arith);
    spared = λ a lt. rw (not_eq at a (omega arith));
    queues = refl;
    freed = refl;
  }

  -- The first `k` allocations succeed and the next fails: `k` headers are filled.
  pub header_loop-fails :
      (n k i at payload : ℕ) (pl : Pool) (w : World)
      → k < n
      → w.pools pool ≡ some pl
      → pl.headers_num ≡ i
      → at ≢ null
      → buffer_header_size z ≤ pl.header_size
      → Spacious z pl n i at
      → allocates pl ≡ true
      → ((j : ℕ) → j < k → alloc (i + j) ≢ null)
      → alloc (i + k) ≡ null
      → Yields
          (λ (s, v). (s ≡ enomem) × Filled pl pool alloc k i at w v)
          (header_loop z n pool true alloc i at payload w)
  header_loop-fails zero k i at payload pl w lt lives counted nz fits room y given fails =
      absurd (omega arith)
  header_loop-fails (suc n) zero i at payload pl w lt lives counted nz fits room y given fails =
      rw
        (header_loop-none n i at payload pl w lives fits room y
          (ap alloc (sym (add-zero i)) ∙ fails))
        (yields (refl, Filled-none i at pl w lives counted))
  header_loop-fails (suc n) (suc k) i at payload pl w lt lives counted nz fits room y given fails =
      rw
        (header_loop-round n i at payload pl w lives nz fits room
          (λ _ e. given zero (omega arith) (ap alloc (add-zero i) ∙ e)) (λ no'. cc))
        (Yields-mono
          (header_loop-fails n k (i + 1) (at + pl.header_size) (payload_of pl alloc i)
            (next_pool pl i at) (round pl i at w) (omega arith) (round-pools i at pl w) refl
            (omega arith) fits (Spacious-next n i at room) y
            (λ j lt' e. given (suc j) (omega arith) (ap alloc (next_index i j) ∙ e))
            (ap alloc (sym (next_index i k)) ∙ fails))
          λ (s, v) (ok, f).
            (ok, Filled-suc k i at pl w (omega (arith, buffer_header_size_pos z)) f))
