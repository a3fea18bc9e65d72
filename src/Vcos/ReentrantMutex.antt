-- ===== src/Vcos/ReentrantMutex.antt =====
-- vcos/generic/vcos_generic_reentrant_mtx.c: a mutex that its owner may lock again.
-- A thread's address stands for it, and NULL is 0. Only the thread that holds the inner mutex writes
-- the fields, and the test of `owner` can only be true for that thread, so a lock that succeeds and an
-- unlock are one step each.
pub mod Exclusion
pub mod Tests
use final.Base.{ℕ, ◌+◌, ◌-◌, ◌%◌, ◌^◌, Bool, true, false, ◌==◌, if◌then◌else◌}
use final.Vcos.EventFlags.{VcosStatus}

pub record ReentrantMutex : Type 0 where
  pub held : Bool
  pub owner : ℕ
  pub count : ℕ

-- vcos_generic_reentrant_mutex_create, which returns the status of the inner mutex's creation.
pub create : VcosStatus → VcosStatus × ReentrantMutex
create status = (status, record { held = false; owner = 0; count = 0 })

-- A thread gets the mutex, or sleeps on the inner mutex.
pub data Locking : Type 0 where
  locked : ReentrantMutex → Locking
  sleeps : Locking

pub lock : (thread : ℕ) → ReentrantMutex → Locking
lock thread m =
    let again = record m { count = (m.count + 1) % 2 ^ 32 } in
    let taken = record m { held = true; owner = thread; count = (m.count + 1) % 2 ^ 32 } in
    if m.owner == thread then locked again else if m.held then sleeps else locked taken

pub unlock : ReentrantMutex → ReentrantMutex
unlock m =
    let left = (m.count + 0xffff_ffff) % 2 ^ 32 in
    if left == 0 then record { held = false; owner = 0; count = 0 } else record m { count = left }
