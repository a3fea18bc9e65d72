-- ===== src/Mmal/Queue.antt =====
-- core/mmal_queue.c: the queue of buffer headers, a chain through their `next` fields with a
-- pointer to its last link and a semaphore that counts the entries.
-- A call that dereferences NULL, or a queue that was freed, is a fault: `none`.
pub mod Fifo
pub mod Take
pub mod History
pub mod Lifecycle
pub mod Threads
use final.Base.{
  ℕ, ◌+◌, ◌-◌, ◌%◌, ◌^◌, Bool, true, false, ◌||◌, Option, none, some, ◌==◌, ltb, if◌then◌else◌,
  ◌>>=◌, update,
}
use final.Mmal.World.{
  Ptr, null, Header, Slot, first_slot, next_slot, Queue, World, increment, decrement, set_next,
  set_queue,
}

abbrev pub empty_queue : Queue
empty_queue = record { length = 0; first = null; last = first_slot; semaphore = 0 }

-- `mem` is what vcos_malloc returns; the flags say whether the mutex and the semaphore are created.
pub create : (mem : Ptr) (mutex_ok semaphore_ok : Bool) → World → Ptr × World
create mem mutex_ok semaphore_ok w =
    if mem == null
    then (null, w)
    else if mutex_ok
    then (if semaphore_ok then (mem, set_queue w mem empty_queue) else (null, w))
    else (null, w)

-- `*slot = v`, where a slot is `&queue->first` or `&header->next`.
write_slot : Ptr → Queue → Slot → Ptr → World → World
write_slot qp q first_slot v w = set_queue w qp (record q { first = v })
write_slot qp q (next_slot a) v w = set_queue (set_next w a v) qp q

unfoldable pub put : Ptr → Ptr → World → Option World
unfolding write_slot
put qp b w = if (qp == null) || (b == null) then some w else do
  q ← w.queues qp
  let q₁ = record q { length = increment q.length }
  let w₁ = set_next (write_slot qp q₁ q.last b w) b null
  q₂ ← w₁.queues qp
  some (set_queue w₁ qp (record q₂ { last = next_slot b; semaphore = q.semaphore + 1 }))

is_first_slot : Slot → Bool
is_first_slot first_slot = true
is_first_slot (next_slot _) = false

pub put_back : Ptr → Ptr → World → Option World
unfolding is_first_slot
put_back qp b w = if (qp == null) || (b == null) then some w else do
  q ← w.queues qp
  let w₁ = set_next w b q.first
  some (
      set_queue w₁ qp (record {
        length = increment q.length;
        first = b;
        last = if is_first_slot q.last then next_slot b else q.last;
        semaphore = q.semaphore + 1;
      }))

-- The semaphore is already claimed. A queue with no entry faults on `buffer->next`.
pub get_core : Ptr → World → Option (Ptr × World)
get_core qp w = do
  q ← w.queues qp
  if q.first == null
      then none
      else let next = (w.headers q.first).next in
        some (
          q.first,
          set_queue w qp (record q {
            length = decrement q.length;
            first = next;
            last = if next == null then first_slot else q.last;
          }),
        )

-- Takes one unit of the semaphore if it has one, and says whether it did.
pub trywait : Ptr → Queue → World → Bool × World
trywait qp q w =
    if ltb 0 q.semaphore
    then (true, set_queue w qp (record q { semaphore = q.semaphore - 1 }))
    else (false, w)

claim_then_get : Ptr → Bool × World → Option (Ptr × World)
claim_then_get qp (true, w) = get_core qp w
claim_then_get qp (false, w) = some (null, w)

pub get : Ptr → World → Option (Ptr × World)
unfolding get_core trywait claim_then_get
get qp w =
    if qp == null then some (null, w) else do q ← w.queues qp; claim_then_get qp (trywait qp q w)

-- What a call that may block gives: its result, or a thread that sleeps on the semaphore.
pub data Wait : Type 0 where
  done : Ptr → World → Wait
  blocked : Wait

wait_result : Option (Ptr × World) → Option Wait
wait_result none = none
wait_result (some (b, w)) = some (done b w)

-- mmal_queue_wait sleeps until the semaphore has a unit.
pub wait : Ptr → World → Option Wait
unfolding get_core trywait claim_then_get wait_result
wait qp w = if qp == null then some (done null w) else do
  q ← w.queues qp
  if ltb 0 q.semaphore then wait_result (claim_then_get qp (trywait qp q w)) else some blocked

-- mmal_queue_timedwait, where nobody posts before the timeout.
pub timedwait : Ptr → World → Option (Ptr × World)
unfolding get_core trywait claim_then_get
timedwait qp w =
    if qp == null then some (null, w) else do q ← w.queues qp; claim_then_get qp (trywait qp q w)

pub queue_length : Ptr → World → Option ℕ
queue_length qp w = if qp == null then some 0 else do q ← w.queues qp; some q.length

unfoldable pub destroy : Ptr → World → World
destroy qp w = if qp == null then w else record w { queues = update w.queues qp none }
