-- ===== src/Vcos/EventFlags/Tests.antt =====
-- Event flags at concrete inputs: two waiters, one for an event that it consumes, one for two events.
use final.Base.{
  ℕ, ◌≡◌, refl, true, some, List, [], ◌∷◌, arith, ◌==◌, if◌then◌else◌, Yields, inl, inr,
}
use final.Vcos.EventFlags.{
  Flags, Waiter, vcos_eagain, head_link, satisfied, wake, set_round, set_walk, set, get,
  get_satisfied, timer_expired, waiter_list_valid,
}
use final.Vcos.EventFlags.Set.{Sets, set-Sets}
use final.Vcos.EventFlags.Expiry.{TimesOut, timer_expired-TimesOut}
use final.Vcos.EventFlags.Get.{Calm, Gets, request, get-Gets, get_satisfied-satisfied}
use final.Vcos.EventFlags.Sleepers.{here, next, sets, waiter_list_valid-Reach}

abbrev consumer : Waiter
consumer = record {
  requested_events = 1;
  actual_events = 0;
  op = 5;
  return_status = vcos_eagain;
  thread = 100;
  next = 16;
}

abbrev both_events : Waiter
both_events = record {
  requested_events = 3;
  actual_events = 0;
  op = 2;
  return_status = vcos_eagain;
  thread = 200;
  next = 0;
}

abbrev two_waiters : Flags
two_waiters = record {
  events = 0;
  head = 8;
  tail = 16;
  waiters = λ a. if a == 8 then consumer else both_events;
  posted = [];
}

two_waiters-Calm : Calm two_waiters (8 ∷ 16 ∷ [])
two_waiters-Calm = record {
  waits = record {
    chain = (refl, ground arith, refl, (refl, ground arith, refl, refl));
    tail = refl;
  };
  unsatisfied = λ a i. ground arith;
}

-- Event 1 is set: the first waiter is woken, and takes it.
abbrev after_set : Flags
after_set = record (wake head_link 0 8 (record two_waiters { events = 1 })) { events = 0 }

set-after_set : set 3 1 1 two_waiters ≡ some after_set
unfolding set set_walk set_round wake
set-after_set = refl

set-Sets_example : Yields (Sets two_waiters 1 (8 ∷ 16 ∷ [])) (set 3 1 1 two_waiters)
set-Sets_example = set-Sets 3 1 1 (8 ∷ 16 ∷ []) (omega arith) two_waiters-Calm.waits

waiter_list_valid-Reach_example :
    (waiter_list_valid after_set ≡ true) × ((ys : List ℕ) × Calm after_set ys)
waiter_list_valid-Reach_example =
    waiter_list_valid-Reach (8 ∷ 16 ∷ []) two_waiters-Calm
      (next here (sets 3 1 1 after_set set-after_set))

get-Gets_example :
    Yields (Gets two_waiters (request 300 4 1) 24 50 (8 ∷ 16 ∷ [])) (get 24 300 4 1 50 two_waiters)
get-Gets_example =
    get-Gets 24 300 4 1 50 (8 ∷ 16 ∷ []) two_waiters-Calm (ground arith) refl (inl refl)

get_satisfied-satisfied_example : get_satisfied 3 2 1 ≡ satisfied 1 both_events
get_satisfied-satisfied_example = get_satisfied-satisfied 1 both_events (inr refl)

timer_expired-TimesOut_example :
    Yields (TimesOut two_waiters 16 (8 ∷ 16 ∷ [])) (timer_expired 3 16 two_waiters)
timer_expired-TimesOut_example =
    timer_expired-TimesOut 3 16 (8 ∷ 16 ∷ []) (omega arith) two_waiters-Calm.waits (ground arith)
