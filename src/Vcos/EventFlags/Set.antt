-- ===== src/Vcos/EventFlags/Set.antt =====
-- vcos_generic_event_flags_set as a whole, and that no waiter that it leaves is satisfied.
use final.Base.{
  ℕ, ◌<◌, ◌≡◌, refl, sym, ap, ◌∙◌, true, false, List, [], ◌∷◌, arith, has, length, not_zero, not_eq,
  not, if◌then◌else◌, ◌==◌, Yields, yields, Yields-bind, Bool-cases, inl, inr, ==_iff,
}
use final.Base.Bits.{
  bit, complement, bit-bit_and, bit-complement, bit_small, bit_zero, bit_and_zero, bit_and_shuffle,
  bit_and_all,
}
use Prim.Native.Nat.{bit_and}
use final.Vcos.EventFlags.{
  Flags, Waiter, head_link, satisfied, has_option, and_option, set_events, set,
}
use final.Vcos.EventFlags.Waits.{Waits}
use final.Vcos.EventFlags.Wakes.{unlinked, kept, posts, all_consumed, told, Walked, set_walk-Walked}

-- What a set leaves, of the waiters `xs` at the events `e` that it sets: those that `e` does not
-- satisfy wait on in their order; the threads of the others were posted, in their order; each of
-- those was told success and `e`, no other waiter has changed; and the events that are left are
-- those of `e` that no woken waiter consumes.
pub record Sets (s : Flags) (e : ℕ) (xs : List ℕ) (v : Flags) : Type 0 where
  pub waits : Waits v (kept e s.waiters xs)
  pub posted : v.posted ≡ posts e s.waiters xs s.posted
  pub events :
      (i : ℕ)
      → i < 32
      → bit v.events i ≡ (if bit (all_consumed e s.waiters xs 0) i == 0 then bit e i else 0)
  pub fewer : (a : ℕ) → satisfied e (s.waiters a) ≡ false → satisfied v.events (s.waiters a) ≡ false
  pub told : (a : ℕ) → has a xs ≡ true → unlinked (v.waiters a) ≡ unlinked (told e (s.waiters a))
  pub others : (a : ℕ) → has a xs ≡ false → unlinked (v.waiters a) ≡ unlinked (s.waiters a)

pub satisfied_and :
    (e : ℕ) (x : Waiter)
    → has_option x.op and_option ≡ true
    → satisfied e x ≡ (bit_and e x.requested_events == x.requested_events)
satisfied_and e x y = rw y

pub satisfied_or :
    (e : ℕ) (x : Waiter)
    → has_option x.op and_option ≡ false
    → satisfied e x ≡ not (bit_and e x.requested_events == 0)
satisfied_or e x n = rw n

fewer_and : (e c r : ℕ) → (bit_and e r == r) ≡ false → (bit_and (bit_and e c) r == r) ≡ false
fewer_and e c r n = not_eq _ r λ z. cc (n, (==_iff _ _).1 (bit_and_all e c r z))

fewer_or : (e c r : ℕ) → not (bit_and e r == 0) ≡ false → not (bit_and (bit_and e c) r == 0) ≡ false
fewer_or e c r n =
    let none_before : bit_and e r ≡ 0 = ground arith in
    let none_now : bit_and (bit_and e c) r ≡ 0 =
      bit_and_shuffle e c r ∙ ap (λ a. bit_and a c) none_before ∙ bit_and_zero c in
    rw none_now

-- Fewer events satisfy no more requests.
pub satisfied_fewer :
    (e c : ℕ) (x : Waiter) → satisfied e x ≡ false → satisfied (bit_and e c) x ≡ false
satisfied_fewer e c x n = elim (Bool-cases (has_option x.op and_option)) [
  | inl y ↦
      satisfied_and (bit_and e c) x y
      ∙ fewer_and e c x.requested_events (sym (satisfied_and e x y) ∙ n)
  | inr o ↦
      satisfied_or (bit_and e c) x o
      ∙ fewer_or e c x.requested_events (sym (satisfied_or e x o) ∙ n)
]

left_bits :
    (e c i : ℕ) → i < 32 → bit (bit_and e (complement c)) i ≡ (if bit c i == 0 then bit e i else 0)
left_bits e c i lt =
    let sum = bit-complement c i lt in
    let both = bit-bit_and e (complement c) i in
    let small = bit_small e i in ground (arith, sum, both, small)

no_bits : (e i : ℕ) → bit e i ≡ (if bit 0 i == 0 then bit e i else 0)
no_bits e i = rw (bit_zero i)

module _ {s v : Flags} {xs : List ℕ} (e c : ℕ) where
  Walked-Sets :
      Walked s.waiters (record s { events = e }) [] xs 0 c v
      → Sets s e xs (record v { events = bit_and v.events (complement c) })
  Walked-Sets w = record {
    waits = record { chain = let t = w.waits in t.chain; tail = let t = w.waits in t.tail };
    posted = w.posted;
    events = λ i lt. rw (w.events, w.consumed) (left_bits e (all_consumed e s.waiters xs 0) i lt);
    fewer = λ a n. rw w.events (satisfied_fewer e (complement c) (s.waiters a) n);
    told = w.answered;
    others = w.others;
  }

-- A set with fuel for one round more than there are waiters succeeds. With `e` the events that it
-- sets: the waiters that `e` does not satisfy wait on in their order, the threads of the others are
-- posted in their order and told success and `e`, no other waiter changes, the events left are those
-- of `e` that no woken waiter consumes, and they satisfy no waiter that `e` does not.
pub set-Sets :
    (fuel bitmask op : ℕ) (xs : List ℕ) {s : Flags}
    → length xs < fuel
    → Waits s xs
    → Yields (Sets s (set_events bitmask op s.events) xs) (set fuel bitmask op s)
unfolding set
set-Sets fuel bitmask op [] {s} lt w =
    let none_waits : (s.head == 0) ≡ true = rw w.chain in
    rw none_waits (
      yields (record {
        waits = record { chain = w.chain; tail = w.tail };
        posted = refl;
        events = λ i lt. no_bits (set_events bitmask op s.events) i;
        fewer = λ a n. n;
        told = λ a i. cc;
        others = λ a i. refl;
      }))
set-Sets fuel bitmask op (x ∷ xs) {s} lt w =
    let c = w.chain in
    let e = set_events bitmask op s.events in
    let some_waits : (s.head == 0) ≡ false = rw c.0 (not_zero x c.1) in
    rw some_waits (
      Yields-bind
        (set_walk-Walked s.waiters fuel [] (x ∷ xs) head_link 0 0 (record s { events = e }) lt refl
          refl (record { chain = c; tail = w.tail }) (λ a i. refl))
        λ (c, v) t. yields (Walked-Sets e c t))
