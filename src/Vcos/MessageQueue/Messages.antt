-- ===== src/Vcos/MessageQueue/Messages.antt =====
-- The messages in a queue, and what appending and taking one do to them.
use final.Base.{
  ℕ, ◌≡◌, ◌≢◌, refl, ◌∙◌, true, false, List, [], ◌∷◌, ◌++◌, arith, has, ne_of_has, eq_self,
}
use final.Base.Chains.{
  Links, end_of, last_from, last_from-has, last_from-append, Links-frame, Links-snoc,
}
use final.Vcos.MessageQueue.{MsgWaiter, Mailroom, set_message, append, post, stamp, take_head}

-- The queue at `q` holds the messages `xs`, in order.
pub record Mail (s : Mailroom) (q : ℕ) (xs : List ℕ) : Type 0 where
  pub chain : Links (λ a. (s.messages a).next) (s.queues q).head xs
  pub tail : (s.queues q).tail ≡ end_of xs

-- A message with no link, which is not NULL and not in the queue, is appended to it.
pub append-Mail :
    (q m : ℕ) (xs : List ℕ) {s : Mailroom}
    → Mail s q xs
    → m ≢ 0
    → has m xs ≡ false
    → (s.messages m).next ≡ 0
    → Mail (append q m s) q (xs ++ m ∷ [])
unfolding append
append-Mail q m [] {s} h nz out e =
    let empty : (s.queues q).head ≡ 0 = h.chain in
    record { chain = (ground arith, nz, refl, ground arith); tail = ground arith }
append-Mail q m (x ∷ xs) {s} h nz out e =
    let c = h.chain in
    let some_there : (s.queues q).head ≡ x = c.0 in
    let nx : x ≢ 0 = c.1 in
    let last : (s.queues q).tail ≡ last_from x xs = h.tail in
    let ne : last_from x xs ≢ m = ne_of_has _ m (x ∷ xs) (last_from-has x xs) out in
    record {
      chain =
          Links-snoc {next = λ a. (s.messages a).next} _ x m xs nz out (ground arith) (ground arith)
            (λ a n k. ground arith) (ground arith, c.1, c.2, c.3);
      tail = ground (arith, last_from-append x m xs []);
    }

-- What sending a message leaves of it and of the queue.
pub sent-Mail :
    (given : MsgWaiter) (q code m thread : ℕ) (xs : List ℕ) {s : Mailroom}
    → Mail s q xs
    → m ≢ 0
    → has m xs ≡ false
    → Mail (append q m (set_message s m (stamp given code thread (s.messages m)))) q (xs ++ m ∷ [])
sent-Mail given q code m thread xs {s} h nz out =
    append-Mail q m xs
      (record {
        chain =
            Links-frame {next = λ a. (s.messages a).next} _ xs
              (λ a i. ground (arith, ne_of_has a m xs)) h.chain;
        tail = h.tail;
      })
      nz out (ground arith)

pub take_head-Mail :
    (q x : ℕ) (xs : List ℕ) {s : Mailroom} → Mail s q (x ∷ xs) → Mail (take_head q s) q xs
take_head-Mail q x [] {s} h =
    let c = h.chain in
    let at_x : (s.queues q).head ≡ x = c.0 in
    let alone : (s.messages x).next ≡ 0 = c.3 in
    record { chain = ground arith; tail = ground arith }
take_head-Mail q x (y ∷ ys) {s} h =
    let c = h.chain in
    let c' = c.3 in
    let at_x : (s.queues q).head ≡ x = c.0 in
    let at_y : (s.messages x).next ≡ y = c'.0 in
    let ny : y ≢ 0 = c'.1 in
    let last : (s.queues q).tail ≡ last_from y ys = h.tail in
    record { chain = (ground arith, c'.1, c'.2, c'.3); tail = ground arith }

pub post-Mail : (q : ℕ) (xs : List ℕ) {s : Mailroom} → Mail s q xs → Mail (post q s) q xs
post-Mail q xs {s} h = record { chain = rw (eq_self q) h.chain; tail = rw (eq_self q) h.tail }

-- A queue whose head, tail and messages' links are the same holds the same.
pub Mail-frame :
    (q : ℕ) (xs : List ℕ) {s v : Mailroom}
    → ((v.queues q).head ≡ (s.queues q).head)
    → ((v.queues q).tail ≡ (s.queues q).tail)
    → ((a : ℕ) → has a xs ≡ true → (v.messages a).next ≡ (s.messages a).next)
    → Mail s q xs
    → Mail v q xs
Mail-frame q xs {s} {v} head tail same h = record {
  chain = rw head (Links-frame _ xs same h.chain);
  tail = tail ∙ h.tail;
}
