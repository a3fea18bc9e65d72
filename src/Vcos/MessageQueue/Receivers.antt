-- ===== src/Vcos/MessageQueue/Receivers.antt =====
-- A message queue under threads. A sender appends under the lock and posts the semaphore later; a
-- receiver waits on the semaphore and takes the message under the lock later; a peek takes the message
-- first and then waits on the semaphore, both under the lock, in which it may sleep.
use final.Base.{
  ℕ, suc, ◌+◌, ◌<◌, ◌≡◌, ◌≢◌, ◌↔◌, refl, sym, ap, if◌then◌else◌, Bool, ◌∙◌, true, false, List, [],
  ◌∷◌, ◌++◌, arith, has, length, length-append, not_zero, eq_self, ◌==◌, ltb, lt→ltb, Bool-cases,
  inl, inr, ℕ_discrete,
}
use final.Vcos.MessageQueue.{
  MsgWaiter, Mailroom, set_message, append, post, stamp, take_head, wait_sem, Receipt, received,
  sleeps, faults, take, peek,
}
use final.Vcos.MessageQueue.Messages.{Mail, sent-Mail, take_head-Mail, post-Mail, Mail-frame}

-- The memory, how many receivers have waited and not yet taken, how many senders have appended and not
-- yet posted, and whether a peek sleeps, with the lock.
pub record Room : Type 0 where
  pub room : Mailroom
  pub claimed : ℕ
  pub pending : ℕ
  pub locked : Bool

-- One atomic action of some thread on the queue at `q`. While a peek sleeps only posts and waits on the
-- semaphore are possible, and it wakes when the semaphore has a unit.
pub data Step (q : ℕ) (t : Room) : Room → Type 0 where
  appends :
      (given : MsgWaiter) (code m thread : ℕ)
      → t.locked ≡ false
      → m ≢ 0
      → ((xs : List ℕ) → Mail t.room q xs → has m xs ≡ true → ⊥)
      → Step q t (record t {
        room = append q m (set_message t.room m (stamp given code thread (t.room.messages m)));
        pending = suc t.pending;
      })
  posts : (n : ℕ) → t.pending ≡ suc n → Step q t (record t { room = post q t.room; pending = n })
  claims :
      0 < (t.room.queues q).sem
      → Step q t (record t { room = wait_sem q t.room; claimed = suc t.claimed })
  takes :
      (n m : ℕ) (v : Mailroom)
      → t.locked ≡ false
      → t.claimed ≡ suc n
      → take q t.room ≡ received m v
      → Step q t (record t { room = v; claimed = n })
  peeks :
      (m : ℕ) (v : Mailroom)
      → t.locked ≡ false
      → peek q t.room ≡ received m v
      → Step q t (record t { room = v })
  falls_asleep :
      (v : Mailroom)
      → t.locked ≡ false
      → peek q t.room ≡ sleeps v
      → Step q t (record t { room = v; locked = true })
  wakes :
      t.locked ≡ true
      → 0 < (t.room.queues q).sem
      → Step q t (record t { room = wait_sem q t.room; locked = false })

pub data Reach (q : ℕ) (s : Room) : Room → Type 0 where
  here : Reach q s s
  next : {t u : Room} → Reach q s t → Step q t u → Reach q s u

-- The message that a sleeping peek has taken, and has not waited for.
abbrev pub owed : Bool → ℕ
owed locked = if locked then 1 else 0

-- The units of the semaphore, the claims and the posts to come are together the messages, with that of
-- a sleeping peek.
pub record Balanced (q : ℕ) (t : Room) (xs : List ℕ) : Type 0 where
  pub mail : Mail t.room q xs
  pub counted : (t.room.queues q).sem + t.claimed + t.pending ≡ length xs + owed t.locked

append_sem : (q m : ℕ) (s : Mailroom) → ((append q m s).queues q).sem ≡ (s.queues q).sem
unfolding append
append_sem q m s = ground arith

absent :
    {q : ℕ} (m : ℕ) (xs : List ℕ) {s : Mailroom}
    → ((ys : List ℕ) → Mail s q ys → has m ys ≡ true → ⊥)
    → Mail s q xs
    → has m xs ≡ false
absent m xs out h = elim (Bool-cases (has m xs)) [ inl i ↦ absurd (out xs h i) | inr o ↦ o ]

take-received :
    (q x : ℕ) (xs : List ℕ) {s : Mailroom}
    → Mail s q (x ∷ xs)
    → take q s ≡ received x (take_head q s)
unfolding take
take-received q x xs {s} h =
    let c = h.chain in
    let some_there : ((s.queues q).head == 0) ≡ false = rw c.0 (not_zero x c.1) in
    rw some_there (ap (λ m. received m (take_head q s)) c.0)

peek-empty : (q : ℕ) {s : Mailroom} → Mail s q [] → peek q s ≡ received 0 s
unfolding peek
peek-empty q {s} h = let none_there : ((s.queues q).head == 0) ≡ true = rw h.chain in rw none_there

peek-received :
    (q x : ℕ) (xs : List ℕ) {s : Mailroom}
    → Mail s q (x ∷ xs)
    → 0 < (s.queues q).sem
    → peek q s ≡ received x (wait_sem q (take_head q s))
unfolding peek
peek-received q x xs {s} h pos =
    let c = h.chain in
    let some_there : ((s.queues q).head == 0) ≡ false = rw c.0 (not_zero x c.1) in
    rw (some_there, lt→ltb 0 (s.queues q).sem pos)
      (ap (λ m. received m (wait_sem q (take_head q s))) c.0)

peek-blocked :
    (q x : ℕ) (xs : List ℕ) {s : Mailroom}
    → Mail s q (x ∷ xs)
    → (s.queues q).sem ≡ 0
    → peek q s ≡ sleeps (take_head q s)
unfolding peek
peek-blocked q x xs {s} h zero_left =
    let c = h.chain in
    let some_there : ((s.queues q).head == 0) ≡ false = rw c.0 (not_zero x c.1) in
    let no_unit : ltb 0 (s.queues q).sem ≡ false = rw zero_left in rw (some_there, no_unit)

received-room : {m x : ℕ} {u v : Mailroom} → received m v ≡ received x u → v ≡ u
received-room {u} e = ap (λ r. room_of u r) e
  where
    room_of : Mailroom → Receipt → Mailroom
    room_of u (received m v) = v
    room_of u (sleeps v) = u
    room_of u faults = u

wait_sem-Mail : (q : ℕ) (xs : List ℕ) {s : Mailroom} → Mail s q xs → Mail (wait_sem q s) q xs
wait_sem-Mail q xs h = Mail-frame q xs (rw (eq_self q)) (rw (eq_self q)) (λ a i. refl) h

sleeps-room : {u v : Mailroom} → sleeps v ≡ sleeps u → v ≡ u
sleeps-room {u} e = ap (λ r. room_of u r) e
  where
    room_of : Mailroom → Receipt → Mailroom
    room_of u (sleeps v) = v
    room_of u (received m v) = u
    room_of u faults = u

not_sleeping : {m : ℕ} {u v : Mailroom} → sleeps u ≡ received m v → ⊥
not_sleeping e = cc

owed_free : {locked : Bool} → locked ≡ false → owed locked ≡ 0
owed_free e = ap owed e

owed_locked : {locked : Bool} → locked ≡ true → owed locked ≡ 1
owed_locked e = ap owed e

Step-Balanced :
    {q : ℕ} {t u : Room}
    → Step q t u
    → (xs : List ℕ) × Balanced q t xs
    → (xs : List ℕ) × Balanced q u xs
Step-Balanced {q} {t} (appends given code m thread free nz out) (xs, b) = (
  xs ++ m ∷ [],
  record {
    mail = sent-Mail given q code m thread xs b.mail nz (absent m xs out b.mail);
    counted = omega (
      arith,
      b.counted,
      append_sem q m (set_message t.room m (stamp given code thread (t.room.messages m))),
      length-append xs (m ∷ []),
    );
  },
)
Step-Balanced {q} {t} (posts n e) (xs, b) =
    (xs, record { mail = post-Mail q xs b.mail; counted = ground (arith, b.counted, eq_self q) })
Step-Balanced {q} {t} (claims pos) (xs, b) = (
  xs,
  record { mail = wait_sem-Mail q xs b.mail; counted = ground (arith, b.counted, eq_self q) },
)
Step-Balanced {t} (takes n m v free e r) ([], b) =
    absurd (omega (arith, b.counted, owed_free free, e))
Step-Balanced {q} {t} (takes n m v free e r) (x ∷ xs, b) =
    let same = received-room (sym r ∙ take-received q x xs b.mail) in
    (
      xs,
      rw same (record {
        mail = take_head-Mail q x xs b.mail;
        counted = ground (arith, b.counted, eq_self q);
      }),
    )
Step-Balanced {q} {t} (peeks m v free r) ([], b) =
    let same = received-room (sym r ∙ peek-empty q b.mail) in
    ([], rw same (record { mail = b.mail; counted = b.counted }))
Step-Balanced {q} {t} (peeks m v free r) (x ∷ xs, b) = elim (ℕ_discrete (t.room.queues q).sem 0) [
  | yes none_left ↦ absurd (not_sleeping (sym (peek-blocked q x xs b.mail none_left) ∙ r))
  | no some_left ↦
      let same = received-room (sym r ∙ peek-received q x xs b.mail (omega arith)) in
      (
        xs,
        rw same (record {
          mail = wait_sem-Mail q xs (take_head-Mail q x xs b.mail);
          counted = ground (arith, b.counted, eq_self q);
        }),
      )
]
Step-Balanced {q} {t} (falls_asleep v free r) ([], b) =
    absurd (not_sleeping (sym r ∙ peek-empty q b.mail))
Step-Balanced {q} {t} (falls_asleep v free r) (x ∷ xs, b) =
    elim (ℕ_discrete (t.room.queues q).sem 0) [
      | yes none_left ↦
          let same = sleeps-room (sym r ∙ peek-blocked q x xs b.mail none_left) in
          (
            xs,
            rw same (record {
              mail = take_head-Mail q x xs b.mail;
              counted = ground (arith, b.counted, eq_self q, owed_free free);
            }),
          )
      | no some_left ↦ absurd (not_sleeping (sym r ∙ peek-received q x xs b.mail (omega arith)))
    ]
Step-Balanced {q} {t} (wakes asleep pos) (xs, b) = (
  xs,
  record {
    mail = wait_sem-Mail q xs b.mail;
    counted = ground (arith, b.counted, eq_self q, owed_locked asleep);
  },
)

Reach-Balanced :
    {q : ℕ} {s t : Room}
    → Reach q s t
    → (xs : List ℕ) × Balanced q s xs
    → (xs : List ℕ) × Balanced q t xs
Reach-Balanced here b = b
Reach-Balanced (next r st) b = Step-Balanced st (Reach-Balanced r b)

abbrev FindsMail : ℕ → Room → Type 0
FindsMail q t =
    (x : ℕ) × (xs : List ℕ) × Mail t.room q (x ∷ xs)
    × (take q t.room ≡ received x (take_head q t.room))
    × Mail (take_head q t.room) q xs

finds_mail :
    {q : ℕ} {t : Room} (n : ℕ)
    → (xs : List ℕ) × Balanced q t xs
    → t.locked ≡ false
    → t.claimed ≡ suc n
    → FindsMail q t
finds_mail n ([], b) free e = absurd (omega (arith, b.counted, owed_free free))
finds_mail {q} n (x ∷ xs, b) free e =
    (x, xs, b.mail, take-received q x xs b.mail, take_head-Mail q x xs b.mail)

-- From a queue whose semaphore, claims and posts to come count its messages, with that of a peek that
-- sleeps, whatever interleaving of sends, receipts and peeks has run, peeks that fall asleep with the
-- lock and wake again among them, a receiver that has waited finds a message once no sleeping peek
-- holds the lock: it takes the oldest and leaves the others in order.
pub take-Reach :
    {q : ℕ} {s t : Room} (n : ℕ) (xs : List ℕ)
    → Balanced q s xs
    → Reach q s t
    → t.locked ≡ false
    → t.claimed ≡ suc n
    → (x : ℕ) × (ys : List ℕ) × Mail t.room q (x ∷ ys)
      × (take q t.room ≡ received x (take_head q t.room))
      × Mail (take_head q t.room) q ys
take-Reach n xs b r free e = finds_mail n (Reach-Balanced r (xs, b)) free e

peek_sleeps :
    {q : ℕ} {t : Room}
    → (xs : List ℕ) × Balanced q t xs
    → t.locked ≡ false
    → (peek q t.room ≡ sleeps (take_head q t.room))
      ↔ (((t.room.queues q).sem ≡ 0) × (t.claimed + t.pending ≢ 0))
peek_sleeps {q} {t} ([], b) free = (
  (λ e. absurd (not_sleeping (sym e ∙ peek-empty q b.mail))),
  (λ (z, ne). absurd (omega (arith, b.counted, owed_free free))),
)
peek_sleeps {q} {t} (x ∷ xs, b) free = (
  (λ e. elim (ℕ_discrete (t.room.queues q).sem 0) [
    | yes z ↦ (z, omega (arith, b.counted))
    | no ne ↦ absurd (not_sleeping (sym e ∙ peek-received q x xs b.mail (omega arith)))
  ]),
  (λ (z, ne). peek-blocked q x xs b.mail z),
)

-- From a queue whose semaphore, claims and posts to come count its messages, with that of a peek that
-- sleeps, whatever interleaving of sends, receipts and peeks has run, a peek that gets the lock takes
-- the oldest message off the queue and goes to sleep with the lock exactly if the semaphore is 0 and
-- some receiver has waited and not yet taken its message, or some sender has not yet posted.
pub peek-Reach :
    {q : ℕ} {s t : Room} (xs : List ℕ)
    → Balanced q s xs
    → Reach q s t
    → t.locked ≡ false
    → (peek q t.room ≡ sleeps (take_head q t.room))
      ↔ (((t.room.queues q).sem ≡ 0) × (t.claimed + t.pending ≢ 0))
peek-Reach xs b r free = peek_sleeps (Reach-Balanced r (xs, b)) free
