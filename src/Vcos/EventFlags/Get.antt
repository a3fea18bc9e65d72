-- ===== src/Vcos/EventFlags/Get.antt =====
-- vcos_generic_event_flags_get: a request that is not satisfied at once joins the waiters.
use final.Base.{
  ℕ, ◌≡◌, ◌≢◌, refl, sym, ap, ◌∙◌, ◌⊎◌, inl, inr, true, false, Option, List, [], ◌∷◌, ◌++◌, arith,
  has, has-append, not_eq, not_zero, ne_of_has, eq_self, if◌then◌else◌, Yields, yields, Bool-cases,
  ℕ_discrete,
}
use final.Base.Bits.{complement, bit_and_inner}
use Prim.Native.Nat.{bit_and}
use final.Vcos.EventFlags.{
  Flags, Waiter, VcosStatus, vcos_eagain, vcos_success, satisfied, has_option, or_option,
  and_option, consume_option, op_mask, Got, returns, sleeps, get_satisfied, unsatisfied_status,
  set_waiter, append_tail, asleep, get,
}
use final.Vcos.EventFlags.Waits.{Waits, Waits-frame, OnlyLinked, append_tail-Waits}
use final.Vcos.EventFlags.Wakes.{unlinked}
use final.Vcos.EventFlags.Set.{satisfied_and, satisfied_or, satisfied_fewer}

-- The kind of an operation is VCOS_OR or VCOS_AND.
abbrev pub IsOp : ℕ → Type 0
IsOp op = (bit_and op op_mask ≡ or_option) ⊎ (bit_and op op_mask ≡ and_option)

-- The waiters `xs` are in the list, and the events satisfy none of them.
pub record Calm (s : Flags) (xs : List ℕ) : Type 0 where
  pub waits : Waits s xs
  pub unsatisfied : (a : ℕ) → has a xs ≡ true → satisfied s.events (s.waiters a) ≡ false

has_and-or : (op : ℕ) → bit_and op op_mask ≡ or_option → has_option op and_option ≡ false
has_and-or op e = rw (sym (bit_and_inner op op_mask and_option refl), e)

has_and-and : (op : ℕ) → bit_and op op_mask ≡ and_option → has_option op and_option ≡ true
has_and-and op e = rw (sym (bit_and_inner op op_mask and_option refl), e)

-- The test of `get` for a request is the test of `set` for the waiter with that request, where the
-- operation is VCOS_OR or VCOS_AND.
pub get_satisfied-satisfied :
    (events : ℕ) (x : Waiter)
    → IsOp x.op
    → get_satisfied x.requested_events x.op events ≡ satisfied events x
get_satisfied-satisfied events x (inl e) = rw e (sym (satisfied_or events x (has_and-or x.op e)))
get_satisfied-satisfied events x (inr e) = rw e (sym (satisfied_and events x (has_and-and x.op e)))

-- The request of a thread that sleeps.
abbrev pub request : (thread bitmask op : ℕ) → Waiter
request thread bitmask op = record {
  requested_events = bitmask;
  actual_events = 0;
  op = op;
  return_status = vcos_eagain;
  thread = thread;
  next = 0;
}

-- A thread that did not sleep: its request was satisfied by the events, which it is told, or it was
-- not and the thread did not want to sleep. The others wait on.
pub record Answers (s : Flags) (x : Waiter) (suspend : ℕ) (xs : List ℕ) (st : VcosStatus) (bits : ℕ)
    (v : Flags) : Type 0 where
  pub calm : Calm v xs
  pub waiters : v.waiters ≡ s.waiters
  pub posted : v.posted ≡ s.posted
  pub answer :
      ((satisfied s.events x ≡ true) × (st ≡ vcos_success) × (bits ≡ s.events))
      ⊎ ((satisfied s.events x ≡ false)
          × (suspend ≡ 0)
          × (st ≡ vcos_eagain)
          × (bits ≡ 0)
          × (v.events ≡ s.events))

-- A thread that sleeps: its request, which is not satisfied, waits behind the others.
pub record Joins (s : Flags) (x : Waiter) (self : ℕ) (xs : List ℕ) (v : Flags) : Type 0 where
  pub calm : Calm v (xs ++ self ∷ [])
  pub request : unlinked (v.waiters self) ≡ unlinked x
  pub others : (a : ℕ) → a ≢ self → unlinked (v.waiters a) ≡ unlinked (s.waiters a)
  pub events : v.events ≡ s.events
  pub posted : v.posted ≡ s.posted

abbrev pub Gets : Flags → Waiter → (self suspend : ℕ) → List ℕ → Got → Type 0
Gets s x self suspend xs (returns st bits v) = Answers s x suspend xs st bits v
Gets s x self suspend xs (sleeps v) = Joins s x self xs v

unsatisfied_status_lem : (op : ℕ) → IsOp op → unsatisfied_status op ≡ vcos_eagain
unsatisfied_status_lem op (inl e) = rw e
unsatisfied_status_lem op (inr e) = rw e

-- A set of events with no more in it leaves the waiters calm.
Calm-fewer :
    {s : Flags} (c : ℕ) (xs : List ℕ)
    → Calm s xs
    → Calm (record s { events = bit_and s.events c }) xs
Calm-fewer {s} c xs k = record {
  waits = (let w = k.waits in record { chain = w.chain; tail = w.tail });
  unsatisfied = λ a i. satisfied_fewer s.events c (s.waiters a) (k.unsatisfied a i);
}

Calm-consume :
    {s : Flags} (op c : ℕ) (xs : List ℕ)
    → Calm s xs
    → Calm
        (record s {
          events = if has_option op consume_option then bit_and s.events c else s.events;
        })
        xs
Calm-consume op c xs k = elim (Bool-cases (has_option op consume_option)) [
  | inl y ↦ rw y (Calm-fewer c xs k)
  | inr n ↦ rw n k
]

asleep-Yields :
    {P : Flags → Type 0} {Q : Got → Type 0} {o : Option Flags}
    → Yields P o
    → ((v : Flags) → P v → Q (sleeps v))
    → Yields Q (asleep o)
unfolding asleep
asleep-Yields (yields p) next = yields (next _ p)

linked-Joins :
    {s v : Flags} (x : Waiter) (self : ℕ) (xs : List ℕ)
    → Calm s xs
    → satisfied s.events x ≡ false
    → Waits v (xs ++ self ∷ [])
    → OnlyLinked (set_waiter s self x) v
    → Joins s x self xs v
linked-Joins {s} {v} x self xs k unmet w l =
    let at_self : unlinked (v.waiters self) ≡ unlinked x =
      l.waiters self ∙ rw (eq_self self) refl in
    let at_others : (a : ℕ) → a ≢ self → unlinked (v.waiters a) ≡ unlinked (s.waiters a) =
      λ a ne. l.waiters a ∙ rw (not_eq self a (λ e. ne (sym e))) refl in
    record {
      calm = record {
        waits = w;
        unsatisfied = λ a i. elim (ℕ_discrete a self) [
          | yes e ↦ rw (e, l.events) (ap (satisfied s.events) at_self ∙ unmet)
          | no ne ↦ rw l.events (
              ap (satisfied s.events) (at_others a ne)
              ∙ k.unsatisfied a (ground (arith, ne, has-append a xs (self ∷ []))))
        ];
      };
      request = at_self;
      others = at_others;
      events = l.events;
      posted = l.posted;
    }

asleep-Joins :
    {s : Flags} (x : Waiter) (self suspend : ℕ) (xs : List ℕ)
    → Calm s xs
    → self ≢ 0
    → has self xs ≡ false
    → satisfied s.events x ≡ false
    → Yields (Gets s x self suspend xs) (asleep (append_tail self (set_waiter s self x)))
asleep-Joins {s} x self suspend xs k nz out unmet =
    asleep-Yields
      (append_tail-Waits self xs
        (Waits-frame xs refl refl
          (λ a i. rw (not_eq self a (λ e. ne_of_has a self xs i out (sym e))) refl) k.waits)
        nz out)
      λ v (w, l). linked-Joins x self xs k unmet w l

-- A get by VCOS_OR or VCOS_AND, of a request that is not NULL and not among the waiters, succeeds
-- where no waiter is satisfied, and leaves none satisfied. It answers success and the events if they
-- satisfy the request, and else VCOS_EAGAIN and 0 if it may not suspend; otherwise the request waits
-- behind the others.
pub get-Gets :
    (self thread bitmask op suspend : ℕ) (xs : List ℕ) {s : Flags}
    → Calm s xs
    → self ≢ 0
    → has self xs ≡ false
    → IsOp op
    → Yields
        (Gets s (request thread bitmask op) self suspend xs)
        (get self thread bitmask op suspend s)
unfolding get
get-Gets self thread bitmask op suspend xs {s} k nz out valid =
    let x = request thread bitmask op in
    let agree : get_satisfied bitmask op s.events ≡ satisfied s.events x =
      get_satisfied-satisfied s.events x valid in
    elim (Bool-cases (satisfied s.events x)) [
      | inl met ↦ rw (agree ∙ met) (
          yields (record {
            calm = Calm-consume op (complement bitmask) xs k;
            waiters = refl;
            posted = refl;
            answer = inl (met, refl, refl);
          }))
      | inr unmet ↦ elim (ℕ_discrete suspend 0) [
        | yes e ↦
            rw (agree ∙ unmet, e)
              (yields (record {
                calm = k;
                waiters = refl;
                posted = refl;
                answer = inr (unmet, refl, unsatisfied_status_lem op valid, refl, refl);
              }))
        | no ne ↦
            rw (agree ∙ unmet, not_zero suspend ne) (asleep-Joins x self suspend xs k nz out unmet)
      ]
    ]
