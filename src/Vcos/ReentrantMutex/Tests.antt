-- ===== src/Vcos/ReentrantMutex/Tests.antt =====
-- The reentrant mutex at a concrete input: a thread locks it twice and unlocks it once.
use final.Base.{ℕ, ◌≡◌, refl, true, false, arith, update}
use final.Vcos.ReentrantMutex.{ReentrantMutex, lock, unlock}
use final.Vcos.ReentrantMutex.Exclusion.{
  Holders, Reach, here, next, locks, unlocks, Owned, lock-Reach,
}

abbrev nobody : Holders
nobody = record { mutex = record { held = false; owner = 0; count = 0 }; depth = λ _. 0 }

nobody-Owned : Owned nobody
nobody-Owned = record {
  held = refl;
  count = omega arith;
  some_owner = λ ne. absurd (ne refl);
  no_owner = λ z. refl;
  depths = λ a na. ground arith;
}

abbrev locked_times : ℕ → ReentrantMutex
locked_times n = record { held = true; owner = 300; count = n }

abbrev after_unlock : Holders
after_unlock = record {
  mutex = unlock (locked_times 2);
  depth = update (update (update (λ _. 0) 300 1) 300 2) 300 1;
}

locks_and_unlocks : Reach nobody after_unlock
unfolding lock
locks_and_unlocks =
    next
      (next (next here (locks 300 (locked_times 1) (ground arith) (omega arith) refl))
        (locks 300 (locked_times 2) (ground arith) (omega arith) refl))
      (unlocks 300 (ground arith) (omega arith))

lock-Reach_example :
    (after_unlock.mutex.owner ≡ 300) × (after_unlock.mutex.count ≡ 1) × (after_unlock.depth 400 ≡ 0)
lock-Reach_example =
    lock-Reach 300 400 nobody-Owned locks_and_unlocks (ground arith) (ground arith) (ground arith)
      (omega arith)
