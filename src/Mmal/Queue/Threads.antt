-- ===== src/Mmal/Queue/Threads.antt =====
-- core/mmal_queue.c under threads. `put` and `put_back` hold the lock throughout; `get` claims a
-- unit of the semaphore first and locks later, so other threads run in between.
use final.Base.{
  ℕ, suc, ◌≡◌, ◌≢◌, some, List, [], ◌∷◌, ◌++◌, arith, has, Yields, Yields-eq, some-injective, subst,
  sym, ap, ◌∙◌, ◌<◌, Bool-cases, inl, inr, true, false,
}
use final.Mmal.World.{Ptr, null, Queue, World}
use final.Mmal.Chain.{Chain}
use final.Mmal.Queue.{put, put_back, get_core, trywait}
use final.Mmal.Queue.Fifo.{Holds, put-Holds, put_back-Holds}
use final.Mmal.Queue.Take.{Takes, trywait-Holds, get_core-cons}

-- The memory, and how many threads stand between `trywait` and `get_core`.
pub record Threads : Type 0 where
  pub world : World
  pub claimed : ℕ

-- The header at `b` is on no chain of the queue.
abbrev NotQueued : World → Ptr → Ptr → Type 0
NotQueued w qp b =
    (q : Queue) (xs : List Ptr)
    → w.queues qp ≡ some q
    → Chain w.headers q.first xs
    → has b xs ≡ true
    → ⊥

-- One atomic action of some thread.
pub data Step (qp : Ptr) (t : Threads) : Threads → Type 0 where
  puts :
      (b : Ptr) (v : World)
      → b ≢ null
      → NotQueued t.world qp b
      → put qp b t.world ≡ some v
      → Step qp t (record { world = v; claimed = t.claimed })
  puts_back :
      (b : Ptr) (v : World)
      → b ≢ null
      → NotQueued t.world qp b
      → put_back qp b t.world ≡ some v
      → Step qp t (record { world = v; claimed = t.claimed })
  claims :
      (q : Queue) (v : World)
      → t.world.queues qp ≡ some q
      → trywait qp q t.world ≡ (true, v)
      → Step qp t (record { world = v; claimed = suc t.claimed })
  takes :
      (b : Ptr) (v : World) (n : ℕ)
      → t.claimed ≡ suc n
      → get_core qp t.world ≡ some (b, v)
      → Step qp t (record { world = v; claimed = n })

pub data Reach (qp : Ptr) (s : Threads) : Threads → Type 0 where
  here : Reach qp s s
  next : {t u : Threads} → Reach qp s t → Step qp t u → Reach qp s u

-- The units of the semaphore and the claims together are the headers in the queue.
abbrev pub Balanced : Ptr → Threads → Type 0
Balanced qp t = (xs : List Ptr) × Holds t.world qp t.claimed xs

absent :
    {w : World} {qp : Ptr} {claimed : ℕ} {xs : List Ptr} (b : Ptr)
    → NotQueued w qp b
    → Holds w qp claimed xs
    → has b xs ≡ false
absent {xs} b free h = elim (Bool-cases (has b xs)) [
  | inl i ↦ absurd (free h.state xs h.lives h.chain i)
  | inr o ↦ o
]

trywait-pos : (qp : Ptr) (q : Queue) (w v : World) → trywait qp q w ≡ (true, v) → 0 < q.semaphore
unfolding trywait
trywait-pos qp q w v e = ground arith

claims-Holds :
    {w : World} {qp : Ptr} {claimed : ℕ} (q : Queue) (v : World) (xs : List Ptr)
    → w.queues qp ≡ some q
    → trywait qp q w ≡ (true, v)
    → Holds w qp claimed xs
    → Holds v qp (suc claimed) xs
claims-Holds {w} {qp} {claimed} q v xs lives e h =
    let same : q ≡ h.state = some-injective _ _ (sym lives ∙ h.lives) in
    let e' : trywait qp h.state w ≡ (true, v) = subst (λ r. trywait qp r w ≡ (true, v)) same e in
    let pos : 0 < h.state.semaphore = trywait-pos qp h.state w v e' in
    let (taken, h', _, _) = trywait-Holds xs h (omega (arith, h.posted)) in
    subst (λ u. Holds u qp (suc claimed) xs) (ap (λ r. r.1) (sym taken ∙ e')) h'

pub Step-Balanced : {qp : Ptr} {t u : Threads} → Step qp t u → Balanced qp t → Balanced qp u
Step-Balanced (puts b v nz free e) (xs, h) =
    (xs ++ b ∷ [], (Yields-eq (put-Holds b xs h nz (absent b free h)) e).0)
Step-Balanced (puts_back b v nz free e) (xs, h) =
    (b ∷ xs, (Yields-eq (put_back-Holds b xs h nz (absent b free h)) e).0)
Step-Balanced (claims q v lives e) (xs, h) = (xs, claims-Holds q v xs lives e h)
Step-Balanced (takes b v n some_claim e) ([], h) = absurd (omega (arith, h.posted))
Step-Balanced {qp} {t} (takes b v n some_claim e) (x ∷ xs, h) =
    let h' = subst (λ c. Holds t.world qp c (x ∷ xs)) some_claim h in
    (xs, (Yields-eq (get_core-cons xs h') e).1)

Reach-Balanced : {qp : Ptr} {s t : Threads} → Balanced qp s → Reach qp s t → Balanced qp t
Reach-Balanced b here = b
Reach-Balanced b (next r st) = Step-Balanced st (Reach-Balanced b r)

abbrev Finds : Ptr → Threads → ℕ → Type 0
Finds qp t n =
    (x : Ptr) × (xs : List Ptr) × Holds t.world qp t.claimed (x ∷ xs)
    × Yields (Takes t.world qp n x xs) (get_core qp t.world)

finds : {qp : Ptr} {t : Threads} (n : ℕ) → Balanced qp t → t.claimed ≡ suc n → Finds qp t n
finds n ([], h) some_claim = absurd (omega (arith, h.posted))
finds {qp} {t} n (x ∷ xs, h) some_claim =
    let h' = subst (λ c. Holds t.world qp c (x ∷ xs)) some_claim h in
    (x, xs, h, get_core-cons xs h')

-- Whatever threads have put, put back, claimed and taken, a thread that has claimed a unit finds a
-- header: `get_core` never meets an empty queue, and hands out the oldest header.
pub get_core-Reach :
    {qp : Ptr} {s t : Threads} (n : ℕ)
    → Balanced qp s
    → Reach qp s t
    → t.claimed ≡ suc n
    → (x : Ptr) × (xs : List Ptr) × Holds t.world qp t.claimed (x ∷ xs)
      × Yields (Takes t.world qp n x xs) (get_core qp t.world)
get_core-Reach n b r some_claim = finds n (Reach-Balanced b r) some_claim
