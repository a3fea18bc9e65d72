-- ===== src/Vcos/ReentrantMutex/Exclusion.antt =====
-- Mutual exclusion, over interleavings of locks and unlocks.
use final.Base.{
  ℕ, ◌+◌, ◌-◌, ◌<◌, ◌^◌, ◌%◌, ◌≡◌, ◌≢◌, sym, ap, ◌∙◌, true, false, not, arith, ◌==◌, if◌then◌else◌,
  update, not_eq, ℕ_discrete, ==_iff, Bool-cases, inl, inr,
}
use final.Vcos.ReentrantMutex.{ReentrantMutex, Locking, locked, sleeps, lock, unlock}

-- The mutex, and how many of its locks each thread has not yet undone.
pub record Holders : Type 0 where
  pub mutex : ReentrantMutex
  pub depth : ℕ → ℕ

-- One call that returns. A thread unlocks only what it has locked.
pub data Step (h : Holders) : Holders → Type 0 where
  locks :
      (t : ℕ) (v : ReentrantMutex)
      → t ≢ 0
      → h.depth t + 1 < 2 ^ 32
      → lock t h.mutex ≡ locked v
      → Step h (record { mutex = v; depth = update h.depth t (h.depth t + 1) })
  unlocks :
      (t : ℕ)
      → t ≢ 0
      → 0 < h.depth t
      → Step h (record { mutex = unlock h.mutex; depth = update h.depth t (h.depth t - 1) })

pub data Reach (h : Holders) : Holders → Type 0 where
  here : Reach h h
  next : {g k : Holders} → Reach h g → Step g k → Reach h k

-- The owner's locks are the count, no other thread has one, and the inner mutex is held while there is
-- an owner.
pub record Owned (h : Holders) : Type 0 where
  pub held : h.mutex.held ≡ not (h.mutex.owner == 0)
  pub count : h.mutex.count < 2 ^ 32
  pub some_owner : h.mutex.owner ≢ 0 → 0 < h.mutex.count
  pub no_owner : h.mutex.owner ≡ 0 → h.mutex.count ≡ 0
  pub depths : (a : ℕ) → a ≢ 0 → h.depth a ≡ (if h.mutex.owner == a then h.mutex.count else 0)

locked-mutex : {v u : ReentrantMutex} → locked v ≡ locked u → v ≡ u
locked-mutex {u} e = ap (λ r. mutex_of u r) e
  where
    mutex_of : ReentrantMutex → Locking → ReentrantMutex
    mutex_of u (locked v) = v
    mutex_of u sleeps = u

module _ (t : ℕ) (m : ReentrantMutex) where
  abbrev again : ReentrantMutex
  again = record m { count = (m.count + 1) % 2 ^ 32 }

  abbrev taken : ReentrantMutex
  taken = record { held = true; owner = t; count = (m.count + 1) % 2 ^ 32 }

  lock-again : m.owner ≡ t → lock t m ≡ locked again
  unfolding lock
  lock-again own = let y = (==_iff m.owner t).1 own in rw y

  lock-taken : m.owner ≢ t → m.held ≡ false → lock t m ≡ locked taken
  unfolding lock
  lock-taken other free = let n = not_eq m.owner t other in rw (n, free)

  lock-sleeps : m.owner ≢ t → m.held ≡ true → lock t m ≡ sleeps
  unfolding lock
  lock-sleeps other busy = let n = not_eq m.owner t other in rw (n, busy)

again-Owned :
    {h : Holders} (t : ℕ)
    → t ≢ 0
    → h.depth t + 1 < 2 ^ 32
    → h.mutex.owner ≡ t
    → Owned h
    → Owned (record { mutex = again t h.mutex; depth = update h.depth t (h.depth t + 1) })
again-Owned {h} t nt small own o =
    let mine = o.depths t nt in
    record {
      held = o.held;
      count = omega arith;
      some_owner = λ ne. ground (arith, mine);
      no_owner = λ z. absurd (nt (sym own ∙ z));
      depths = λ a na. ground (arith, mine, o.depths a na);
    }

taken-Owned :
    {h : Holders} (t : ℕ)
    → t ≢ 0
    → h.depth t + 1 < 2 ^ 32
    → h.mutex.owner ≡ 0
    → Owned h
    → Owned (record { mutex = taken t h.mutex; depth = update h.depth t (h.depth t + 1) })
taken-Owned {h} t nt small none o =
    let mine = o.depths t nt in
    let zero_count = o.no_owner none in
    record {
      held = ground arith;
      count = omega arith;
      some_owner = λ ne. ground (arith, zero_count);
      no_owner = λ z. absurd (nt z);
      depths = λ a na. ground (arith, mine, zero_count, o.depths a na);
    }

unlock-Owned :
    {h : Holders} (t : ℕ)
    → t ≢ 0
    → 0 < h.depth t
    → Owned h
    → Owned (record { mutex = unlock h.mutex; depth = update h.depth t (h.depth t - 1) })
unfolding unlock
unlock-Owned {h} t nt pos o =
    let mine = o.depths t nt in
    let small = o.count in
    record {
      held = ground (arith, mine, o.held);
      count = ground (arith, small);
      some_owner = λ ne. ground (arith, mine, small);
      no_owner = λ z. ground (arith, mine, small);
      depths = λ a na. ground (arith, mine, small, o.depths a na);
    }

not_locked : {v : ReentrantMutex} → sleeps ≡ locked v → ⊥
not_locked e = cc

Step-Owned : {h k : Holders} → Step h k → Owned h → Owned k
Step-Owned {h} (locks t v nt small e) o = elim (ℕ_discrete h.mutex.owner t) [
  | yes own ↦ rw (locked-mutex (sym e ∙ lock-again t h.mutex own)) (again-Owned t nt small own o)
  | no other ↦ elim (Bool-cases h.mutex.held) [
    | inl busy ↦ absurd (not_locked (sym (lock-sleeps t h.mutex other busy) ∙ e))
    | inr free ↦
        rw (locked-mutex (sym e ∙ lock-taken t h.mutex other free))
          (taken-Owned t nt small (ground (arith, o.held)) o)
  ]
]
Step-Owned (unlocks t nt pos) o = unlock-Owned t nt pos o

Reach-Owned : {h k : Holders} → Reach h k → Owned h → Owned k
Reach-Owned here o = o
Reach-Owned (next r st) o = Step-Owned st (Reach-Owned r o)

owner_alone :
    {h : Holders} (a b : ℕ)
    → Owned h
    → a ≢ 0
    → b ≢ 0
    → a ≢ b
    → 0 < h.depth a
    → (h.mutex.owner ≡ a) × (h.mutex.count ≡ h.depth a) × (h.depth b ≡ 0)
owner_alone {h} a b o na nb ne pos =
    let mine = o.depths a na in
    let other = o.depths b nb in
    (ground (arith, mine), ground (arith, mine), ground (arith, mine, other))

-- From a mutex whose count is what its owner holds of it, whatever locks and unlocks have returned,
-- where no thread locks it 2^32 times or unlocks what it has not locked: a thread that holds it is its
-- owner, has undone all its locks but `count`, and no other thread holds it.
pub lock-Reach :
    {h k : Holders} (a b : ℕ)
    → Owned h
    → Reach h k
    → a ≢ 0
    → b ≢ 0
    → a ≢ b
    → 0 < k.depth a
    → (k.mutex.owner ≡ a) × (k.mutex.count ≡ k.depth a) × (k.depth b ≡ 0)
lock-Reach a b o r na nb ne pos = owner_alone a b (Reach-Owned r o) na nb ne pos
