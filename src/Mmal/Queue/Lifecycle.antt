-- ===== src/Mmal/Queue/Lifecycle.antt =====
-- mmal_queue_create and mmal_queue_destroy, and calls with NULL.
use final.Base.{◌≡◌, refl, ◌≢◌, true, [], arith, not_zero, eq_self}
use final.Mmal.World.{Ptr, null, World, set_queue}
use final.Mmal.Queue.{create, empty_queue}
use final.Mmal.Queue.Fifo.{Holds, OnlyLinks}

-- A queue that was just created: empty, and nothing else has changed.
pub record Opens (mem : Ptr) (w u : World) : Type 0 where
  pub empty : Holds u mem 0 []
  pub headers : u.headers ≡ w.headers
  pub rest : OnlyLinks w u mem []

-- With memory, a mutex and a semaphore a queue is created, and it is empty.
pub create-Opens :
    (mem : Ptr) (w : World)
    → mem ≢ null
    → (u : World) × (create mem true true w ≡ (mem, u)) × Opens mem w u
unfolding create
create-Opens mem w nz = (
  set_queue w mem empty_queue,
  rw (not_zero mem nz),
  record {
    empty = record {
      state = empty_queue;
      lives = rw (eq_self mem);
      ne_null = nz;
      chain = refl;
      last = refl;
      counted = refl;
      posted = refl;
    };
    headers = refl;
    rest = record {
      pools = refl;
      freed = refl;
      queues = λ a ne. ground arith;
      headers = λ a i. refl;
      links = λ a. refl;
    };
  },
)
