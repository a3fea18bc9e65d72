-- ===== src/Mmal/Tests.antt =====
-- The MMAL core at concrete inputs: an empty queue, a pool whose headers are in use, and a pool that
-- is created.
use final.Base.{
  ℕ, zero, suc, ◌<◌, ◌≡◌, ◌≢◌, refl, true, false, none, some, List, [], ◌∷◌, arith, ◌==◌,
  if◌then◌else◌, Yields, has, sym, ap, some-injective, ◌∙◌,
}
use final.Mmal.World.{
  Ptr, null, pool_buffer_header_release, Header, next_slot, Queue, Pool, World, set_next, set_queue,
}
use final.Mmal.Chain.{Chain}
use final.Mmal.Queue.{empty_queue, put, get_core}
use final.Mmal.Queue.Fifo.{Holds, Appends, put-Holds}
use final.Mmal.Queue.Take.{Takes, trywait-Holds, claimed_world}
use final.Mmal.Queue.History.{Call, gets, run, run-spec_run}
use final.Mmal.Queue.Threads.{Threads, Reach, here, next, puts, claims, get_core-Reach}
use final.Mmal.Buffer.{
  Client, Sizes, buffer_header_size, success, zero_header, zero_private, replicate, release,
}
use final.Mmal.Buffer.Release.{IsLast, Recycles, release-Recycles}
use final.Mmal.Buffer.Replicate.{Restores, replicate-release}
use final.Mmal.Pool.Space.{BlockFits}
use final.Mmal.Pool.{create_with_allocator, new_pool, chosen_allocator}
use final.Mmal.Pool.Failure.{Abandons, create_with_allocator-Abandons}

-- Nothing is allocated.
abbrev no_objects : World
no_objects = record {
  headers = λ _. zero_header;
  queues = λ _. none;
  pools = λ _. none;
  freed = [];
}

-- Only the empty queue at 100 is there.
abbrev with_queue : World
with_queue = record no_objects { queues = λ a. if a == 100 then some empty_queue else none }

with_queue-Holds : Holds with_queue 100 0 []
with_queue-Holds = record {
  state = empty_queue;
  lives = refl;
  ne_null = ground arith;
  chain = refl;
  last = refl;
  counted = refl;
  posted = refl;
}

abbrev history : List Call
history = Call.puts 8 ∷ Call.puts 16 ∷ Call.puts_back 24 ∷ gets ∷ gets ∷ []

run-spec_run_example :
    Yields
      (λ (rs, v). (rs ≡ 0 ∷ 0 ∷ 0 ∷ 24 ∷ 8 ∷ []) × Holds v 100 0 (16 ∷ []))
      (run 100 history with_queue)
run-spec_run_example =
    run-spec_run history [] with_queue-Holds
      ((ground arith, refl), ((ground arith, refl), ((ground arith, refl), (tt, (tt, tt)))))

put-Holds_example : Yields (Appends with_queue 100 0 8 []) (put 100 8 with_queue)
put-Holds_example = put-Holds 8 [] with_queue-Holds (ground arith) refl

-- The header at 8 is put on the empty queue, and a thread claims it.
abbrev one_queued : Queue
one_queued = record { length = 1; first = 8; last = next_slot 8; semaphore = 1 }

abbrev with_header : World
with_header =
    set_queue
      (set_next (set_queue with_queue 100 (record empty_queue { length = 1; first = 8 })) 8 null)
      100 one_queued

abbrev with_claim : Threads
with_claim = record { world = claimed_world with_header 100 one_queued; claimed = 1 }

put-with_header : put 100 8 with_queue ≡ some with_header
unfolding put
put-with_header = refl

with_header-Holds : Holds with_header 100 0 (8 ∷ [])
with_header-Holds = record {
  state = one_queued;
  lives = refl;
  ne_null = ground arith;
  chain = ground arith;
  last = refl;
  counted = refl;
  posted = refl;
}

not_queued :
    (q : Queue) (xs : List Ptr)
    → some empty_queue ≡ some q
    → Chain with_queue.headers q.first xs
    → has 8 xs ≡ true
    → ⊥
not_queued q [] e c i = cc
not_queued q (x ∷ xs) e c i =
    c.1 (sym c.0 ∙ ap (λ (p : Queue). p.first) (sym (some-injective _ _ e)))

claims_header : Reach 100 (record { world = with_queue; claimed = 0 }) with_claim
unfolding with_header-Holds
claims_header = next (next here (puts 8 with_header (ground arith) not_queued put-with_header)) (
    claims one_queued (claimed_world with_header 100 one_queued) refl
      (trywait-Holds (8 ∷ []) with_header-Holds (omega arith)).0)

get_core-Reach_example :
    (x : Ptr) × (xs : List Ptr) × Holds with_claim.world 100 1 (x ∷ xs)
    × Yields (Takes with_claim.world 100 0 x xs) (get_core 100 with_claim.world)
get_core-Reach_example = get_core-Reach 0 ([], with_queue-Holds) claims_header refl

abbrev sizes : Sizes
sizes = record { pointer = 4; header = 80; type_specific = 48; private_area = 120 }

-- The client's functions do nothing, and let the buffers go back.
abbrev quiet_client : Client
quiet_client = record {
  pre_release = λ cb p w. (w, false);
  pool_release = λ cb pool p w. (w, true);
  other_release = λ f p w. w;
}

abbrev pool_at_40 : Pool
pool_at_40 = new_pool sizes 100 1000 2 0 (chosen_allocator sizes (0, 0, null))

abbrev held_header : Header
held_header = record zero_header {
  priv = record zero_private { refcount = 1; pf_release = pool_buffer_header_release; owner = 40 };
}

-- A pool at 40 whose headers all have one user; its queue is empty.
abbrev with_pool : World
with_pool = record with_queue {
  headers = λ _. held_header;
  pools = λ a. if a == 40 then some pool_at_40 else none;
}

with_pool-Holds : Holds with_pool 100 0 []
with_pool-Holds = record {
  state = empty_queue;
  lives = refl;
  ne_null = ground arith;
  chain = refl;
  last = refl;
  counted = refl;
  posted = refl;
}

user-IsLast : IsLast with_pool 8 40 100
user-IsLast = record {
  ne_null = ground arith;
  refcount = refl;
  undelayed = refl;
  of_pool = refl;
  owner = refl;
  state = pool_at_40;
  lives = refl;
  quiet = refl;
  queue = refl;
}

release-Recycles_example : Yields (Recycles with_pool 8 100 []) (release quiet_client 1 8 with_pool)
release-Recycles_example = release-Recycles quiet_client 0 user-IsLast refl with_pool-Holds refl

replicate-release_example :
    Yields
      (λ (s, v).
        (s ≡ success) × Yields (Restores with_pool 8 16 100 []) (release quiet_client 2 8 v))
      (replicate 8 16 with_pool)
replicate-release_example =
    replicate-release quiet_client 0 0 user-IsLast refl (ground arith) (ground arith) refl
      (ground arith) with_pool-Holds refl

two_fit : BlockFits sizes 2
unfolding buffer_header_size
two_fit = record { header = omega arith; block = omega arith }

-- Memory for one payload only.
abbrev one_payload : ℕ → Ptr
one_payload zero = 5000
one_payload (suc j) = null

first_succeeds : (j : ℕ) → j < 1 → one_payload j ≢ null
first_succeeds zero lt = ground arith
first_succeeds (suc j) lt = absurd (omega arith)

create_with_allocator-Abandons_example :
    Yields
      (λ (p, v). (p ≡ null) × Abandons 40 100 one_payload 1 [] v)
      (create_with_allocator sizes 100 true true 40 1000 one_payload 2 64 (0, 0, null) no_objects)
create_with_allocator-Abandons_example =
    create_with_allocator-Abandons sizes 100 40 1000 one_payload 2 64 1 (0, 0, null) no_objects
      (ground arith) (ground arith) (ground arith) two_fit (omega arith) (ground arith)
      first_succeeds refl
