-- ===== src/Vcos/MessageQueue/Replies.antt =====
-- vcos_msg_reply to a message whose waiter is a message queue. A received message keeps its link, and
-- the reply appends it as it is.
use final.Base.{ℕ, ◌≡◌, ◌≢◌, refl, sym, ap, false, List, [], ◌∷◌, ◌++◌, arith, has, not_eq}
use final.Base.Chains.{Links, Links-frame}
use final.Vcos.MessageQueue.{
  queue_waiter, MsgQueue, Mailroom, set_message, append, post, reply, on_reply, take_head,
  reply_bit,
}
use final.Vcos.MessageQueue.Messages.{Mail, append-Mail, take_head-Mail, post-Mail, Mail-frame}
use Prim.Native.Nat.{bit_or}

reply_code : ℕ → Mailroom → Mailroom
reply_code m s =
    set_message s m (record (s.messages m) { code = bit_or (s.messages m).code reply_bit })

reply_queue_waiter :
    (m r : ℕ) (s : Mailroom)
    → (s.messages m).waiter ≡ queue_waiter r
    → reply m s ≡ post r (append r m (reply_code m s))
unfolding reply on_reply reply_code
reply_queue_waiter m r s e = rw e

-- The reply to a message with no link left is put at the end of its waiter's queue.
pub reply-Mail :
    (m r : ℕ) (xs : List ℕ) {s : Mailroom}
    → (s.messages m).waiter ≡ queue_waiter r
    → Mail s r xs
    → m ≢ 0
    → has m xs ≡ false
    → (s.messages m).next ≡ 0
    → Mail (reply m s) r (xs ++ m ∷ [])
unfolding reply_code
reply-Mail m r xs {s} e h nz out unlinked =
    let k =
      append-Mail r m xs {s = reply_code m s}
        (record {
          chain = Links-frame {next = λ a. (s.messages a).next} _ xs (λ a i. ground arith) h.chain;
          tail = h.tail;
        })
        nz out (ground arith) in
    rw (reply_queue_waiter m r s e) (post-Mail r (xs ++ m ∷ []) k)

-- A reply into an empty queue makes the message its head, and leaves every link as it was.
record RepliesAlone (m r : ℕ) (s v : Mailroom) : Type 0 where
  head : (v.queues r).head ≡ m
  queues : (q : ℕ) → r ≢ q → v.queues q ≡ s.queues q
  links : (a : ℕ) → (v.messages a).next ≡ (s.messages a).next

reply-RepliesAlone :
    (m r : ℕ) (s : Mailroom)
    → (s.messages m).waiter ≡ queue_waiter r
    → (s.queues r).head ≡ 0
    → RepliesAlone m r s (reply m s)
unfolding reply_code append
reply-RepliesAlone m r s e empty =
    rw (reply_queue_waiter m r s e)
      (record { head = ground arith; queues = λ q ne. ground arith; links = λ a. ground arith })

-- A server that takes the first of two or more messages and replies to it while the others are still
-- queued links them into the waiter's queue too: that queue, if it was empty, starts with the reply
-- and goes on with the messages that are still in the server's queue.
pub reply-Links :
    (q r x y : ℕ) (ys : List ℕ) {s : Mailroom}
    → Mail s q (x ∷ y ∷ ys)
    → (s.messages x).waiter ≡ queue_waiter r
    → r ≢ q
    → Mail s r []
    → Mail (reply x (take_head q s)) q (y ∷ ys)
      × Links
          (λ a. ((reply x (take_head q s)).messages a).next)
          ((reply x (take_head q s)).queues r).head
          (x ∷ y ∷ ys)
reply-Links q r x y ys {s} h e ne empty =
    let c = h.chain in
    let at_x : (s.queues q).head ≡ x = c.0 in
    let k =
      reply-RepliesAlone x r (take_head q s) e (rw (not_eq q r (λ a. ne (sym a))) empty.chain) in
    (
      Mail-frame q (y ∷ ys) (ap (λ (v : MsgQueue). v.head) (k.queues q ne))
          (ap (λ (v : MsgQueue). v.tail) (k.queues q ne)) (λ a i. k.links a)
          (take_head-Mail q x (y ∷ ys) h),
      rw k.head (Links-frame x (x ∷ y ∷ ys) (λ a i. k.links a) (refl, c.1, c.2, c.3)),
    )
