-- ===== src/Vcos/EventFlags.antt =====
-- vcos/generic/vcos_generic_event_flags.c: event flags over a list of waiters, which threads that
-- sleep keep on their stacks. A waiter's address stands for it, and NULL is 0.
-- The mutex makes every function here one step, up to the point where `get` goes to sleep.
pub mod Waits
pub mod Wakes
pub mod Set
pub mod Expiry
pub mod Fuel
pub mod Get
pub mod Sleepers
pub mod Tests
use final.Base.{
  ℕ, zero, suc, Bool, true, false, not, ◌&&◌, Option, none, some, List, ◌∷◌, ◌==◌, if◌then◌else◌,
  ◌>>=◌, update,
}
use final.Base.Bits.{complement}
use Prim.Native.Nat.{bit_and, bit_or}

-- VCOS_OR, VCOS_AND and VCOS_CONSUME, the bits of a VCOS_OPTION.
abbrev pub or_option : ℕ
or_option = 1

abbrev pub and_option : ℕ
and_option = 2

abbrev pub consume_option : ℕ
consume_option = 4

abbrev pub op_mask : ℕ
op_mask = 3

pub data VcosStatus : Type 0 where
  vcos_success vcos_eagain vcos_enoent vcos_enospc vcos_einval vcos_eaccess vcos_enomem
        vcos_enosys :
      VcosStatus
  vcos_eexist vcos_enxio vcos_eintr : VcosStatus

pub record Waiter : Type 0 where
  pub requested_events : ℕ
  pub actual_events : ℕ
  pub op : ℕ
  pub return_status : VcosStatus
  pub thread : ℕ
  pub next : ℕ

-- The event flags, the waiters in memory, and the threads whose semaphore was posted, the latest
-- first.
pub record Flags : Type 0 where
  pub events : ℕ
  pub head : ℕ
  pub tail : ℕ
  pub waiters : ℕ → Waiter
  pub posted : List ℕ

-- Where a `VCOS_EVENT_WAITER_T **` points: to the list's head, or to the `next` of a waiter.
pub data Link : Type 0 where
  head_link : Link
  next_link : ℕ → Link

abbrev pub read_link : Flags → Link → ℕ
read_link s head_link = s.head
read_link s (next_link a) = (s.waiters a).next

abbrev pub set_waiter : Flags → ℕ → Waiter → Flags
set_waiter s a x = record s { waiters = update s.waiters a x }

abbrev pub write_link : Flags → Link → ℕ → Flags
write_link s head_link v = record s { head = v }
write_link s (next_link a) v = set_waiter s a (record (s.waiters a) { next = v })

-- `*current = x->next`, and the tail goes back to the waiter before if `x` was the last.
abbrev pub unlink : Link → (prev p : ℕ) → Flags → Flags
unlink current prev p s =
    let n = (s.waiters p).next in
    let s₁ = write_link s current n in if n == 0 then record s₁ { tail = prev } else s₁

abbrev pub post : ℕ → Flags → Flags
post thread s = record s { posted = thread ∷ s.posted }

abbrev pub has_option : ℕ → ℕ → Bool
has_option op option = not (bit_and op option == 0)

-- `waiter_satisfied`: all requested events are there, or any.
abbrev pub satisfied : ℕ → Waiter → Bool
satisfied events x =
    let common = bit_and events x.requested_events in
    if has_option x.op and_option then common == x.requested_events else not (common == 0)

abbrev pub consumes : Waiter → ℕ → ℕ
consumes x consumed =
    if has_option x.op consume_option then bit_or consumed x.requested_events else consumed

-- The fields of a waiter that is woken.
abbrev pub woken : ℕ → Waiter → Waiter
woken events x = record x { return_status = vcos_success; actual_events = events }

pub wake : Link → (prev p : ℕ) → Flags → Flags
wake current prev p s =
    let s₁ = unlink current prev p s in
    post (s₁.waiters p).thread (set_waiter s₁ p (woken s₁.events (s₁.waiters p)))

-- vcos_generic_event_flags_create, after the mutex was created with the status `rc`.
pub create : VcosStatus → Flags → VcosStatus × Flags
create vcos_success s = (vcos_success, record s { events = 0; head = 0; tail = 0 })
create rc s = (rc, s)

-- One round of the walk over the waiters, at the waiter `p`: whether the list ends, and whether the
-- waiter is satisfied. `walk` is the rest of the walk.
set_round :
    (walk : Link → ℕ → ℕ → Flags → Option (ℕ × Flags))
    → (current : Link) (prev consumed p : ℕ) (ends wakes : Bool) → Flags
    → Option (ℕ × Flags)
set_round walk current prev consumed p true wakes s = some (consumed, s)
set_round walk current prev consumed p false true s =
    walk current prev (consumes (s.waiters p) consumed) (wake current prev p s)
set_round walk current prev consumed p false false s = walk (next_link p) p consumed s

-- The walk; the fuel is one more than the number of waiters. `consumed` is `consumed_events`, and
-- `current` and `prev` are the loop's pointers.
pub set_walk : ℕ → (current : Link) (prev consumed : ℕ) → Flags → Option (ℕ × Flags)
set_walk zero current prev consumed s = none
set_walk (suc fuel) current prev consumed s =
    let p = read_link s current in
    set_round (set_walk fuel) current prev consumed p (p == 0) (satisfied s.events (s.waiters p)) s

-- An `op` that is neither VCOS_OR nor VCOS_AND only fails an assertion.
abbrev pub set_events : (bitmask op events : ℕ) → ℕ
set_events bitmask op events =
    if op == or_option
    then bit_or events bitmask
    else if op == and_option
    then bit_and events bitmask
    else events

pub set : ℕ → (bitmask op : ℕ) → Flags → Option Flags
set fuel bitmask op s =
    let s₁ = record s { events = set_events bitmask op s.events } in
    if s₁.head == 0 then some s₁ else do
      (consumed, s₂) ← set_walk fuel head_link 0 0 s₁
      some (record s₂ { events = bit_and s₂.events (complement consumed) })

-- VCOS_QUEUE_APPEND_TAIL (vcos_common.h); a list with a head and no tail is a fault.
pub append_tail : ℕ → Flags → Option Flags
append_tail p s =
    let s₁ = set_waiter s p (record (s.waiters p) { next = 0 }) in
    if s₁.head == 0
    then some (record s₁ { head = p; tail = p })
    else if s₁.tail == 0
    then none
    else some (record (write_link s₁ (next_link s₁.tail) p) { tail = p })

-- What `get` does under the lock: it returns a status and the retrieved bits, or the thread sleeps.
pub data Got : Type 0 where
  returns : VcosStatus → ℕ → Flags → Got
  sleeps : Flags → Got

-- Whether the request is satisfied at once, by the kind of operation.
abbrev pub get_satisfied : (bitmask op events : ℕ) → Bool
get_satisfied bitmask op events =
    if bit_and op op_mask == and_option
    then bit_and events bitmask == bitmask
    else if bit_and op op_mask == or_option
    then not (bit_and events bitmask == 0)
    else false

abbrev pub unsatisfied_status : ℕ → VcosStatus
unsatisfied_status op =
    if bit_and op op_mask == and_option
    then vcos_eagain
    else if bit_and op op_mask == or_option
    then vcos_eagain
    else vcos_einval

asleep : Option Flags → Option Got
asleep none = none
asleep (some s) = some (sleeps s)

-- `self` is the address of `waitreq` on the stack of the thread `thread`.
pub get : (self thread bitmask op suspend : ℕ) → Flags → Option Got
unfolding asleep
get self thread bitmask op suspend s =
    if get_satisfied bitmask op s.events
    then some (
        returns vcos_success s.events (record s {
          events =
              if has_option op consume_option
              then bit_and s.events (complement bitmask)
              else s.events;
        }))
    else if suspend == 0
    then some (returns (unsatisfied_status op) 0 s)
    else asleep (
        append_tail self (
          set_waiter s self (record {
            requested_events = bitmask;
            actual_events = 0;
            op = op;
            return_status = vcos_eagain;
            thread = thread;
            next = 0;
          })))

-- What `get` returns once its semaphore was posted.
pub get_woken : (self : ℕ) → Flags → VcosStatus × ℕ
get_woken self s = ((s.waiters self).return_status, (s.waiters self).actual_events)

-- The search of event_flags_timer_expired; it gives the thread that waits, or 0.
expire_round :
    (search : Link → ℕ → Flags → Option (ℕ × Flags))
    → (current : Link) (prev p : ℕ) (ends found : Bool) → Flags
    → Option (ℕ × Flags)
expire_round search current prev p true found s = some (0, s)
expire_round search current prev p false true s =
    some ((s.waiters p).thread, unlink current prev p s)
expire_round search current prev p false false s = search (next_link p) p s

pub expire_walk : ℕ → (self : ℕ) (current : Link) (prev : ℕ) → Flags → Option (ℕ × Flags)
expire_walk zero self current prev s = none
expire_walk (suc fuel) self current prev s =
    let p = read_link s current in
    expire_round (expire_walk fuel self) current prev p (p == 0) (p == self) s

pub timer_expired : ℕ → (self : ℕ) → Flags → Option Flags
timer_expired fuel self s = do
  (thread, s₁) ← expire_walk fuel self head_link 0 s
  some (if thread == 0 then s₁ else post thread s₁)

-- waiter_list_valid, a check of builds with assertions.
pub waiter_list_valid : Flags → Bool
waiter_list_valid s =
    if not (s.head == 0) && (s.head == s.tail)
    then (s.waiters s.head).next == 0
    else if s.head == 0
    then s.tail == 0
    else not (s.tail == 0)
