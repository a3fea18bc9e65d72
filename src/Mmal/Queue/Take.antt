-- ===== src/Mmal/Queue/Take.antt =====
-- mmal_queue_get as it takes the first header of the queue: the claim of a unit, and the taking.
use final.Base.{
  ℕ, ◌-◌, ◌≡◌, refl, true, some, List, [], ◌∷◌, arith, ◌==◌, if◌then◌else◌, length, not_zero,
  eq_self, lt→ltb, suc, Yields, yields, Yields-mono, ◌∙◌, ◌<◌, ◌≤◌,
}
use final.Mmal.World.{Ptr, null, Queue, World, first_slot, decrement, set_queue}
use final.Mmal.Chain.{end_slot-tail}
use final.Mmal.Queue.{trywait, get, get_core}
use final.Mmal.Queue.Fifo.{Holds, OnlyLinks, OnlyLinks-trans}

-- With no unit left, `get` gives NULL and changes nothing.
pub get-nil :
    {w : World} {qp : Ptr} (xs : List Ptr) → Holds w qp (length xs) xs → get qp w ≡ some (null, w)
unfolding get
get-nil {qp} xs h =
    let none_left : h.state.semaphore ≡ 0 = omega (arith, h.posted) in
    rw (not_zero qp h.ne_null, h.lives, none_left)

-- What taking the first header of `x ∷ xs` leaves.
abbrev pub Takes : World → Ptr → ℕ → Ptr → List Ptr → Ptr × World → Type 0
Takes w qp c x xs (b, v) = (b ≡ x) × Holds v qp c xs × (v.headers ≡ w.headers) × OnlyLinks w v qp []

abbrev pub claimed_world : World → Ptr → Queue → World
claimed_world w qp q = set_queue w qp (record q { semaphore = q.semaphore - 1 })

module _ {w : World} {qp : Ptr} where
  pub get_core-cons :
      {claimed : ℕ} {x : Ptr} (xs : List Ptr)
      → Holds w qp (suc claimed) (x ∷ xs)
      → Yields (Takes w qp claimed x xs) (get_core qp w)
  unfolding get_core
  get_core-cons {x} xs h =
      rw (h.lives, h.chain.0, not_zero x h.chain.1)
        (yields (
          refl,
          record {
            state = record {
              length = decrement h.state.length;
              first = (w.headers x).next;
              last = if (w.headers x).next == null then first_slot else h.state.last;
              semaphore = h.state.semaphore;
            };
            lives = rw (eq_self qp);
            ne_null = h.ne_null;
            chain = h.chain.3;
            last = rw h.last (end_slot-tail w.headers x _ xs h.chain.3);
            counted = omega (arith, h.counted);
            posted = omega (arith, h.posted);
          },
          refl,
          record {
            pools = refl;
            freed = refl;
            queues = λ a ne. ground arith;
            headers = λ a i. refl;
            links = λ a. refl;
          },
        ))

  -- While a unit is left, `trywait` claims it, and the header that it stands for stays queued.
  pub trywait-Holds :
      {claimed : ℕ} (xs : List Ptr) (h : Holds w qp claimed xs)
      → claimed < length xs
      → (trywait qp h.state w ≡ (true, claimed_world w qp h.state))
        × Holds (claimed_world w qp h.state) qp (suc claimed) xs
        × ((claimed_world w qp h.state).headers ≡ w.headers)
        × OnlyLinks w (claimed_world w qp h.state) qp []
  unfolding trywait
  trywait-Holds xs h some_left = (
    rw (lt→ltb 0 h.state.semaphore (omega (arith, h.posted))),
    record {
      state = record h.state { semaphore = h.state.semaphore - 1 };
      lives = rw (eq_self qp);
      ne_null = h.ne_null;
      chain = h.chain;
      last = h.last;
      counted = h.counted;
      posted = omega (arith, h.posted);
    },
    refl,
    record {
      pools = refl;
      freed = refl;
      queues = λ a ne. ground arith;
      headers = λ a i. refl;
      links = λ a. refl;
    },
  )

module _ {w : World} {qp : Ptr} where
  -- While a unit is left, `get` takes the first header and leaves the rest in order.
  pub get-cons :
      {claimed : ℕ} {x : Ptr} (xs : List Ptr)
      → Holds w qp claimed (x ∷ xs)
      → claimed ≤ length xs
      → Yields (Takes w qp claimed x xs) (get qp w)
  unfolding get
  get-cons {x} xs h left =
      let (e, h', same, links) = trywait-Holds (x ∷ xs) h (omega arith) in
      rw (not_zero qp h.ne_null, h.lives, e)
        (Yields-mono (get_core-cons xs h')
          λ (b, v) t. (t.0, t.1, t.2 ∙ same, OnlyLinks-trans links t.3))
