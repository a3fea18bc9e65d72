-- ===== src/Vcos/MessageQueue/Tests.antt =====
-- Message queues at concrete inputs: two messages that wait for a server, and the client's queue.
use final.Base.{true, false, ℕ, ◌+◌, ◌≡◌, ◌≢◌, ◌↔◌, refl, List, [], ◌∷◌, arith, ◌==◌, if◌then◌else◌}
use final.Base.Chains.{Links}
use final.Vcos.MessageQueue.{
  queue_waiter, Mailroom, magic_number, take_head, wait_sem, post, received, sleeps, take, peek,
  reply,
}
use final.Vcos.MessageQueue.Messages.{Mail}
use final.Vcos.MessageQueue.Receivers.{
  Room, Reach, here, next, claims, posts, wakes, falls_asleep, Balanced, take-Reach, peek-Reach,
}
use final.Vcos.MessageQueue.Replies.{reply-Mail, reply-Links}

-- The messages at 8 and 16 are in the queue at 100, and want their replies in the queue at 200.
abbrev two_messages : Mailroom
two_messages = record {
  queues = λ q.
      if q == 100
      then record { head = 8; tail = 16; sem = 2 }
      else record { head = 0; tail = 0; sem = 0 };
  messages = λ m. record {
    magic = magic_number;
    code = 1;
    next = if m == 8 then 16 else 0;
    src_thread = 300;
    waiter = queue_waiter 200;
    pool = 0;
  };
  waitsems = λ _. 0;
  pool_sems = λ _. 0;
  freed = [];
}

two_messages-Mail : Mail two_messages 100 (8 ∷ 16 ∷ [])
two_messages-Mail = record {
  chain = (refl, ground arith, refl, (refl, ground arith, refl, refl));
  tail = refl;
}

abbrev quiet_room : Room
quiet_room = record { room = two_messages; claimed = 0; pending = 0; locked = false }

quiet_room-Balanced : Balanced 100 quiet_room (8 ∷ 16 ∷ [])
quiet_room-Balanced = record { mail = two_messages-Mail; counted = refl }

-- Two receivers have waited.
abbrev both_claimed : Room
both_claimed = record {
  room = wait_sem 100 (wait_sem 100 two_messages);
  claimed = 2;
  pending = 0;
  locked = false;
}

claims_both : Reach 100 quiet_room both_claimed
claims_both = next (next here (claims (omega arith))) (claims (omega arith))

-- One of the two messages is not posted yet. A receiver waits, a peek takes the first message and falls
-- asleep, and wakes when the other message is posted.
abbrev unposted_room : Room
unposted_room = record {
  room = wait_sem 100 two_messages;
  claimed = 0;
  pending = 1;
  locked = false;
}

abbrev asleep_room : Room
asleep_room = record {
  room = take_head 100 (wait_sem 100 (wait_sem 100 two_messages));
  claimed = 1;
  pending = 1;
  locked = true;
}

abbrev awake_room : Room
awake_room = record {
  room = wait_sem 100 (post 100 asleep_room.room);
  claimed = 1;
  pending = 0;
  locked = false;
}

unposted_room-Balanced : Balanced 100 unposted_room (8 ∷ 16 ∷ [])
unposted_room-Balanced = record {
  mail = record {
    chain = (refl, ground arith, refl, (refl, ground arith, refl, refl));
    tail = refl;
  };
  counted = refl;
}

peek_asleep : Reach 100 unposted_room asleep_room
unfolding peek
peek_asleep = next (next here (claims (omega arith))) (falls_asleep asleep_room.room refl refl)

peek_awake : Reach 100 unposted_room awake_room
peek_awake = next (next peek_asleep (posts 0 refl)) (wakes refl (omega arith))

take-Reach_example :
    (x : ℕ) × (ys : List ℕ) × Mail awake_room.room 100 (x ∷ ys)
    × (take 100 awake_room.room ≡ received x (take_head 100 awake_room.room))
    × Mail (take_head 100 awake_room.room) 100 ys
take-Reach_example = take-Reach 0 (8 ∷ 16 ∷ []) unposted_room-Balanced peek_awake refl refl

-- It takes the second message.
takes_second : take 100 awake_room.room ≡ received 16 (take_head 100 awake_room.room)
unfolding take
takes_second = refl

peek-Reach_example :
    (peek 100 both_claimed.room ≡ sleeps (take_head 100 both_claimed.room))
    ↔ (((both_claimed.room.queues 100).sem ≡ 0) × (both_claimed.claimed + both_claimed.pending ≢ 0))
peek-Reach_example = peek-Reach (8 ∷ 16 ∷ []) quiet_room-Balanced claims_both refl

reply-Mail_example : Mail (reply 24 two_messages) 200 (24 ∷ [])
reply-Mail_example =
    reply-Mail 24 200 [] refl (record { chain = refl; tail = refl }) (ground arith) refl refl

reply-Links_example :
    Mail (reply 8 (take_head 100 two_messages)) 100 (16 ∷ [])
    × Links
        (λ a. ((reply 8 (take_head 100 two_messages)).messages a).next)
        ((reply 8 (take_head 100 two_messages)).queues 200).head
        (8 ∷ 16 ∷ [])
reply-Links_example =
    reply-Links 100 200 8 16 [] two_messages-Mail refl (ground arith)
      (record { chain = refl; tail = refl })
