-- ===== src/Mmal/Queue/Fifo.antt =====
-- core/mmal_queue.c as a queue of addresses, first in, first out.
use final.Base.{
  ℕ, ◌+◌, ◌%◌, ◌^◌, ◌≡◌, refl, sym, ap, ◌≢◌, true, false, some, List, [], ◌∷◌, ◌++◌, arith,
  if◌then◌else◌, has, has-append, ne_of_has, length, length-append, not_zero, eq_self, Yields,
  yields, ◌∙◌,
}
use final.Mmal.World.{Ptr, null, Header, Queue, World, next_slot, increment, set_next}
use final.Base.Chains.{last_from, last_from-has, last_from-append}
use final.Mmal.Chain.{Chain, end_slot, Chain-frame, Chain-cons}
use final.Mmal.Queue.{is_first_slot, put, put_back}

-- The queue at `qp` holds the headers `xs`, in order; `claimed` threads hold a unit of its
-- semaphore and have yet to take their header.
pub record Holds (w : World) (qp : Ptr) (claimed : ℕ) (xs : List Ptr) : Type 0 where
  pub state : Queue
  pub lives : w.queues qp ≡ some state
  pub ne_null : qp ≢ null
  pub chain : Chain w.headers state.first xs
  pub last : state.last ≡ end_slot xs
  pub counted : state.length ≡ length xs % 2 ^ 32
  pub posted : state.semaphore + claimed ≡ length xs

-- What `put` leaves of the headers: the `next` fields of the old last header and of the new one.
Chain-snoc :
    (hs gs : Ptr → Header) (p x b : Ptr) (xs : List Ptr)
    → b ≢ null
    → has b (x ∷ xs) ≡ false
    → (gs b).next ≡ null
    → (gs (last_from x xs)).next ≡ b
    → ((a : Ptr) → has a (x ∷ xs) ≡ true → a ≢ last_from x xs → (gs a).next ≡ (hs a).next)
    → Chain hs p (x ∷ xs)
    → Chain gs p (x ∷ xs ++ b ∷ [])
Chain-snoc hs gs p x b [] nz out e l same c = (c.0, c.1, ground arith, (l, nz, refl, e))
Chain-snoc hs gs p x b (y ∷ ys) nz out e l same c = (
  c.0,
  c.1,
  ground (arith, has-append x (y ∷ ys) (b ∷ [])),
  Chain-snoc hs gs (gs x).next y b ys nz (ground arith) e l (λ a i ne. same a (ground arith) ne)
      (rw (same x (ground arith) (λ q. ne_of_has _ x (y ∷ ys) (last_from-has y ys) c.2 (sym q)))
        c.3),
)

-- The two worlds differ at most in the queue at `qp` and in the `next` fields of `xs`.
pub record OnlyLinks (w v : World) (qp : Ptr) (xs : List Ptr) : Type 0 where
  pub pools : v.pools ≡ w.pools
  pub freed : v.freed ≡ w.freed
  pub queues : (a : Ptr) → a ≢ qp → v.queues a ≡ w.queues a
  pub headers : (a : Ptr) → has a xs ≡ false → v.headers a ≡ w.headers a
  pub links :
      (a : Ptr) → record (v.headers a) { next = null } ≡ record (w.headers a) { next = null }

-- What a queue holds does not depend on anything but the queue and the links of its headers.
pub Holds-frame :
    {w v : World} {qp : Ptr} {claimed : ℕ} {xs : List Ptr}
    → v.queues qp ≡ w.queues qp
    → ((a : Ptr) → has a xs ≡ true → (v.headers a).next ≡ (w.headers a).next)
    → Holds w qp claimed xs
    → Holds v qp claimed xs
Holds-frame {w} {v} {xs} same links h = record {
  state = h.state;
  lives = same ∙ h.lives;
  ne_null = h.ne_null;
  chain = Chain-frame w.headers v.headers h.state.first xs links h.chain;
  last = h.last;
  counted = h.counted;
  posted = h.posted;
}

pub OnlyLinks-trans :
    {u v w : World} {qp : Ptr} {xs : List Ptr}
    → OnlyLinks u v qp xs
    → OnlyLinks v w qp xs
    → OnlyLinks u w qp xs
OnlyLinks-trans p q = record {
  pools = q.pools ∙ p.pools;
  freed = q.freed ∙ p.freed;
  queues = λ a ne. q.queues a ne ∙ p.queues a ne;
  headers = λ a i. q.headers a i ∙ p.headers a i;
  links = λ a. q.links a ∙ p.links a;
}

abbrev pub Appends : World → Ptr → ℕ → Ptr → List Ptr → World → Type 0
Appends w qp c b xs v = Holds v qp c (xs ++ b ∷ []) × OnlyLinks w v qp (b ∷ xs)

put_back_last :
    (b : Ptr) (xs : List Ptr)
    → (if is_first_slot (end_slot xs) then next_slot b else end_slot xs) ≡ end_slot (b ∷ xs)
unfolding is_first_slot
put_back_last b [] = refl
put_back_last b (x ∷ xs) = refl

module _ {w : World} {qp : Ptr} {claimed : ℕ} (b : Ptr) where
  -- `put` of a header that is not queued succeeds and puts it at the end of the queue; it changes
  -- no field of any header but the link of the new header and of the old last one.
  pub put-Holds :
      (xs : List Ptr)
      → Holds w qp claimed xs
      → b ≢ null
      → has b xs ≡ false
      → Yields (Appends w qp claimed b xs) (put qp b w)
  unfolding put
  put-Holds [] h nz out =
      rw (not_zero qp h.ne_null, not_zero b nz, h.lives, h.last, eq_self qp)
        (yields (
          record {
            state = record {
              length = increment h.state.length;
              first = b;
              last = next_slot b;
              semaphore = h.state.semaphore + 1;
            };
            lives = rw (eq_self qp);
            ne_null = h.ne_null;
            chain = ground arith;
            last = refl;
            counted = omega (arith, h.counted);
            posted = omega (arith, h.posted);
          },
          record {
            pools = refl;
            freed = refl;
            queues = λ a ne. ground arith;
            headers = λ a i. ground arith;
            links = λ a. ground arith;
          },
        ))
  put-Holds (x ∷ xs) h nz out =
      let ne : last_from x xs ≢ b = ne_of_has _ b (x ∷ xs) (last_from-has x xs) out in
      rw (not_zero qp h.ne_null, not_zero b nz, h.lives, h.last, eq_self qp)
        (yields (
          record {
            state = record {
              length = increment h.state.length;
              first = h.state.first;
              last = next_slot b;
              semaphore = h.state.semaphore + 1;
            };
            lives = rw (eq_self qp);
            ne_null = h.ne_null;
            chain =
                Chain-snoc w.headers (set_next (set_next w (last_from x xs) b) b null).headers _ x b
                  xs nz out (ground arith) (ground arith) (ground arith) h.chain;
            last = ap next_slot (sym (last_from-append x b xs []));
            counted = omega (arith, h.counted, length-append xs (b ∷ []));
            posted = omega (arith, h.posted, length-append xs (b ∷ []));
          },
          record {
            pools = refl;
            freed = refl;
            queues = λ a ne. ground arith;
            headers = λ a i. ground (arith, ne_of_has _ a (x ∷ xs) (last_from-has x xs));
            links = λ a. ground arith;
          },
        ))

  pub put_back-Holds :
      (xs : List Ptr)
      → Holds w qp claimed xs
      → b ≢ null
      → has b xs ≡ false
      → Yields (λ v. Holds v qp claimed (b ∷ xs) × OnlyLinks w v qp (b ∷ [])) (put_back qp b w)
  unfolding put_back
  put_back-Holds xs h nz out =
      rw (not_zero qp h.ne_null, not_zero b nz, h.lives)
        (yields (
          record {
            state = record {
              length = increment h.state.length;
              first = b;
              last = if is_first_slot h.state.last then next_slot b else h.state.last;
              semaphore = h.state.semaphore + 1;
            };
            lives = rw (eq_self qp);
            ne_null = h.ne_null;
            chain =
                Chain-cons w.headers (set_next w b h.state.first).headers h.state.first b xs nz out
                  (ground arith) (λ a i. ground arith) h.chain;
            last = rw h.last (put_back_last b xs);
            counted = omega (arith, h.counted);
            posted = omega (arith, h.posted);
          },
          record {
            pools = refl;
            freed = refl;
            queues = λ a ne. ground arith;
            headers = λ a i. ground arith;
            links = λ a. ground arith;
          },
        ))
