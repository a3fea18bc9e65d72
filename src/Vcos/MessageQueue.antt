-- ===== src/Vcos/MessageQueue.antt =====
-- vcos/generic/vcos_msgqueue.c: queues of messages, and the replies to them.
-- Addresses stand for messages, queues, waiters and pools, and NULL is 0. The blocks of a pool come
-- from a block pool, whose result is an argument.
pub mod Messages
pub mod Receivers
pub mod Replies
pub mod Tests
use final.Base.{
  ℕ, ◌+◌, ◌-◌, Bool, true, false, Option, none, some, List, ◌∷◌, ◌==◌, ltb, if◌then◌else◌, update,
}
use Prim.Native.Nat.{bit_or}
use final.Vcos.EventFlags.{VcosStatus, vcos_success}

-- VCOS_MSGQ_MAGIC and MSG_REPLY_BIT.
abbrev pub magic_number : ℕ
magic_number = 0x5147_534d

abbrev pub reply_bit : ℕ
reply_bit = 0x8000_0000

-- A VCOS_MSG_WAITER_T by its `on_reply`: none, the waiter in a message queue, the simple waiter of
-- vcos_msg_sendwait, or the one in a pool; with the address of what it is in.
pub data MsgWaiter : Type 0 where
  no_waiter : MsgWaiter
  queue_waiter : ℕ → MsgWaiter
  simple_waiter : ℕ → MsgWaiter
  pool_waiter : ℕ → MsgWaiter

pub record Message : Type 0 where
  pub magic : ℕ
  pub code : ℕ
  pub next : ℕ
  pub src_thread : ℕ
  pub waiter : MsgWaiter
  pub pool : ℕ

pub record MsgQueue : Type 0 where
  pub head : ℕ
  pub tail : ℕ
  pub sem : ℕ

pub record Mailroom : Type 0 where
  pub queues : ℕ → MsgQueue
  pub messages : ℕ → Message
  -- the semaphores of the simple waiters and of the pools
  pub waitsems : ℕ → ℕ
  pub pool_sems : ℕ → ℕ
  -- the messages that went back to their block pools, the latest first
  pub freed : List ℕ

abbrev pub set_queue : Mailroom → ℕ → MsgQueue → Mailroom
set_queue s q v = record s { queues = update s.queues q v }

abbrev pub set_message : Mailroom → ℕ → Message → Mailroom
set_message s m v = record s { messages = update s.messages m v }

-- The status of two steps, of which the second runs if the first succeeds.
abbrev pub both : VcosStatus → VcosStatus → VcosStatus
both vcos_success st = st
both st _ = st

abbrev pub on_success : VcosStatus → Mailroom → Mailroom → Mailroom
on_success vcos_success made s = made
on_success _ made s = s

-- vcos_msgq_create_internal, which vcos_msgq_create calls: the queue is cleared, whether or not its
-- semaphore and its mutex can be had.
pub create : (sem_status mutex_status : VcosStatus) (q : ℕ) → Mailroom → VcosStatus × Mailroom
create sem_status mutex_status q s =
    (both sem_status mutex_status, set_queue s q (record { head = 0; tail = 0; sem = 0 }))

pub append : (q m : ℕ) → Mailroom → Mailroom
append q m s =
    let v = s.queues q in
    let linked = set_message s v.tail (record (s.messages v.tail) { next = m }) in
    if v.head == 0
    then set_queue s q (record v { head = m; tail = m })
    else set_queue linked q (record v { tail = m })

abbrev pub post : ℕ → Mailroom → Mailroom
post q s = set_queue s q (record (s.queues q) { sem = (s.queues q).sem + 1 })

-- vcos_msgq_queue_waiter_on_reply.
abbrev pub queue_on_reply : (q m : ℕ) → Mailroom → Mailroom
queue_on_reply q m s = post q (append q m s)

-- A waiter that is given replaces the message's own.
abbrev pub chosen_waiter : MsgWaiter → MsgWaiter → MsgWaiter
chosen_waiter no_waiter own = own
chosen_waiter given own = given

abbrev pub stamp : MsgWaiter → (code thread : ℕ) → Message → Message
stamp given code thread v = record v {
  code = code;
  waiter = chosen_waiter given v.waiter;
  next = 0;
  src_thread = thread;
}

pub send_helper : MsgWaiter → (dest code m thread : ℕ) → Mailroom → Mailroom
send_helper given dest code m thread s =
    post dest (append dest m (set_message s m (stamp given code thread (s.messages m))))

pub send : (dest code m thread : ℕ) → Mailroom → Mailroom
send dest code m thread s = send_helper no_waiter dest code m thread s

-- vcos_msg_sendwait up to the wait: `w` is the simple waiter on the stack.
pub sendwait : (w dest code m thread : ℕ) → Mailroom → Mailroom
sendwait w dest code m thread s =
    send_helper (simple_waiter w) dest code m thread (record s { waitsems = update s.waitsems w 0 })

-- `queue->head = msg->next`, and the tail with it if that was the last message.
abbrev pub take_head : ℕ → Mailroom → Mailroom
take_head q s =
    let v = s.queues q in
    let n = (s.messages v.head).next in
    set_queue s q (record v { head = n; tail = if n == 0 then 0 else v.tail })

-- What a call gives: a message and the memory, the memory with the thread asleep on a semaphore, or, of
-- a queue with no message, the access to `msg->next` of NULL.
pub data Receipt : Type 0 where
  received : ℕ → Mailroom → Receipt
  sleeps : Mailroom → Receipt
  faults : Receipt

abbrev pub wait_sem : ℕ → Mailroom → Mailroom
wait_sem q s = set_queue s q (record (s.queues q) { sem = (s.queues q).sem - 1 })

-- vcos_msg_wait: the wait on the semaphore, and what follows under the lock.
pub take : ℕ → Mailroom → Receipt
take q s = if (s.queues q).head == 0 then faults else received (s.queues q).head (take_head q s)

pub wait : ℕ → Mailroom → Receipt
unfolding take
wait q s = if ltb 0 (s.queues q).sem then take q (wait_sem q s) else sleeps s

-- vcos_msg_peek: a thread that sleeps here has taken the message off the queue, and holds the lock.
pub peek : ℕ → Mailroom → Receipt
peek q s =
    let m = (s.queues q).head in
    if m == 0
    then received 0 s
    else if ltb 0 (s.queues q).sem
    then received m (wait_sem q (take_head q s))
    else sleeps (take_head q s)

-- vcos_msgq_pool_free, which vcos_msgq_pool_on_reply calls.
pub pool_free : ℕ → Mailroom → Mailroom
pool_free m s =
    let p = (s.messages m).pool in
    if m == 0
    then s
    else record s { freed = m ∷ s.freed; pool_sems = update s.pool_sems p (s.pool_sems p + 1) }

-- `waiter->on_reply(waiter, msg)`; with no waiter only an assertion fails.
on_reply : MsgWaiter → ℕ → Mailroom → Mailroom
on_reply no_waiter m s = s
on_reply (queue_waiter q) m s = queue_on_reply q m s
on_reply (simple_waiter w) m s = record s { waitsems = update s.waitsems w (s.waitsems w + 1) }
on_reply (pool_waiter p) m s = pool_free m s

pub reply : ℕ → Mailroom → Mailroom
unfolding on_reply
reply m s =
    let v = s.messages m in
    on_reply v.waiter m (set_message s m (record v { code = bit_or v.code reply_bit }))

pub set_source : (m q : ℕ) → Mailroom → Mailroom
set_source m q s = set_message s m (record (s.messages m) { waiter = queue_waiter q })

-- vcos_msgq_pool_create, after the creation of the block pool and of the semaphore.
pub pool_create :
    (blockpool_status sem_status : VcosStatus) (p count : ℕ) → Mailroom → VcosStatus × Mailroom
pool_create blockpool_status sem_status p count s =
    let st = both blockpool_status sem_status in
    (st, on_success st (record s { pool_sems = update s.pool_sems p count }) s)

-- A block of a pool, all zero, as a message.
abbrev pub pool_message : ℕ → Message
pool_message p = record {
  magic = magic_number;
  code = 0;
  next = 0;
  src_thread = 0;
  waiter = pool_waiter p;
  pool = p;
}

-- vcos_msgq_pool_alloc and vcos_msgq_pool_wait, where `block` is what vcos_blockpool_calloc returns.
pub pool_alloc : (p block : ℕ) → Mailroom → ℕ × Mailroom
pool_alloc p block s =
    if ltb 0 (s.pool_sems p)
    then (
      block,
      set_message (record s { pool_sems = update s.pool_sems p (s.pool_sems p - 1) }) block
          (pool_message p),
    )
    else (0, s)

pub pool_wait : (p block : ℕ) → Mailroom → Option (ℕ × Mailroom)
unfolding pool_alloc
pool_wait p block s = if ltb 0 (s.pool_sems p) then some (pool_alloc p block s) else none

pub msg_init : ℕ → Mailroom → Mailroom
msg_init m s =
    set_message s m
      (record (s.messages m) { magic = magic_number; next = 0; waiter = no_waiter; pool = 0 })
