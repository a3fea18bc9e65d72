-- ===== src/Mmal/Buffer/Release.antt =====
-- What acquiring, releasing and replicating do to reference counts, and where released headers go.
use final.Base.{
  ℕ, suc, ◌^◌, ◌<◌, ◌≡◌, refl, ◌≢◌, ◌∙◌, false, Option, none, some, List, [], ◌∷◌, ◌++◌, arith, has,
  not_zero, not_eq, not_eq, eq_self, sym, ap, ℕ_discrete, Yields, Yields-mono,
}
use final.Mmal.World.{Ptr, null, pool_buffer_header_release, Header, Pool, World, decrement}
use final.Mmal.Queue.{put}
use final.Mmal.Queue.Fifo.{Holds, Holds-frame, put-Holds}
use final.Mmal.Buffer.{
  least_count, Client, set_refcount, set_reference, reset_header, reset, continue_by, run_release,
  pool_release, client_allows, requeue, delayed, continue_unless, release,
}

-- A header that only its last user holds: of the pool at `pool`, whose free headers are queued at
-- `qp`, with no reference to another header and with nothing that delays or intercepts its return.
pub record IsLast (w : World) (p pool qp : Ptr) : Type 0 where
  pub ne_null : p ≢ null
  pub refcount : (w.headers p).priv.refcount ≡ 1
  pub undelayed : (w.headers p).priv.pf_pre_release ≡ none
  pub of_pool : (w.headers p).priv.pf_release ≡ pool_buffer_header_release
  pub owner : (w.headers p).priv.owner ≡ pool
  pub state : Pool
  pub lives : w.pools pool ≡ some state
  pub quiet : state.cb ≡ none
  pub queue : state.queue ≡ qp

-- A recycled header, still with its old link.
abbrev recycled : Header → Header
recycled h = record (reset_header h) { priv = record (h.priv) { refcount = 1; reference = null } }

-- The header went to the end of the queue, recycled; no other header changed but for its link.
pub record Recycles (w : World) (p qp : Ptr) (xs : List Ptr) (v : World) : Type 0 where
  pub queued : Holds v qp 0 (xs ++ p ∷ [])
  pub header :
      record (v.headers p) { next = null } ≡ record (recycled (w.headers p)) { next = null }
  pub headers :
      (a : Ptr)
      → a ≢ p
      → record (v.headers a) { next = null } ≡ record (w.headers a) { next = null }
  pub pools : v.pools ≡ w.pools

-- What each write leaves at the header that it is made to.
pub set_refcount_self :
    (w : World) (p : Ptr) (n : ℕ)
    → (set_refcount w p n).headers p
      ≡ record (w.headers p) { priv = record ((w.headers p).priv) { refcount = n } }
unfolding set_refcount
set_refcount_self w p n = rw (eq_self p)

pub set_reference_self :
    (w : World) (p q : Ptr)
    → (set_reference w p q).headers p
      ≡ record (w.headers p) { priv = record ((w.headers p).priv) { reference = q } }
unfolding set_reference
set_reference_self w p q = rw (eq_self p)

pub reset_self : (w : World) (p : Ptr) → (reset p w).headers p ≡ reset_header (w.headers p)
unfolding reset
reset_self w p = rw (eq_self p)

pub set_refcount-pools : (w : World) (p : Ptr) (n : ℕ) → (set_refcount w p n).pools ≡ w.pools
unfolding set_refcount
set_refcount-pools w p n = refl

pub set_reference-pools : (w : World) (p q : Ptr) → (set_reference w p q).pools ≡ w.pools
unfolding set_reference
set_reference-pools w p q = refl

pub reset-pools : (w : World) (p : Ptr) → (reset p w).pools ≡ w.pools
unfolding reset
reset-pools w p = refl

-- The memory when a pool's header is about to be put back on the queue.
recycled_world : Ptr → World → World
recycled_world p w = set_refcount (set_reference (reset p (set_refcount w p 0)) p null) p 1

recycled_world_self :
    (p : Ptr) (w : World) → (recycled_world p w).headers p ≡ recycled (w.headers p)
unfolding recycled_world
recycled_world_self p w = rw (
  set_refcount_self (set_reference (reset p (set_refcount w p 0)) p null) p 1,
  set_reference_self (reset p (set_refcount w p 0)) p null,
  reset_self (set_refcount w p 0) p,
  set_refcount_self w p 0,
)

recycled_world-ne : (p a : Ptr) (w : World) → a ≢ p → (recycled_world p w).headers a ≡ w.headers a
unfolding recycled_world set_refcount set_reference reset
recycled_world-ne p a w ne = rw (not_eq p a (λ e. ne (sym e)))

recycled_world-pools : (p : Ptr) (w : World) → (recycled_world p w).pools ≡ w.pools
unfolding recycled_world set_refcount set_reference reset
recycled_world-pools p w = refl

recycled_world-queues : (p : Ptr) (w : World) → (recycled_world p w).queues ≡ w.queues
unfolding recycled_world set_refcount set_reference reset
recycled_world-queues p w = refl

recycled_world-next :
    (p a : Ptr) (w : World) → ((recycled_world p w).headers a).next ≡ (w.headers a).next
recycled_world-next p a w = elim (ℕ_discrete a p) [
  | yes e ↦ rw (e, recycled_world_self p w)
  | no ne ↦ rw (recycled_world-ne p a w ne)
]

recycled_world-Holds :
    (p : Ptr) {w : World} {qp : Ptr} {xs : List Ptr}
    → Holds w qp 0 xs
    → Holds (recycled_world p w) qp 0 xs
recycled_world-Holds p {w} {qp} h =
    Holds-frame (ap (λ q. q qp) (recycled_world-queues p w)) (λ a i. recycled_world-next p a w) h

module _ (client : Client) where
  pub pool_release-put :
      (p qp : Ptr) (w : World) (state : Pool)
      → w.pools (w.headers p).priv.owner ≡ some state
      → state.cb ≡ none
      → state.queue ≡ qp
      → pool_release client p w ≡ put qp p (set_refcount w p 1)
  unfolding pool_release client_allows requeue
  pool_release-put p qp w state l c q = rw (l, c, q)

  -- The header's own release, once its reference is gone: `v` is the memory then.
  release_own-put :
      (p qp : Ptr) (v : World) (state : Pool)
      → (v.headers p).priv.pf_release ≡ pool_buffer_header_release
      → v.pools (v.headers p).priv.owner ≡ some state
      → state.cb ≡ none
      → state.queue ≡ qp
      → run_release client
          ((set_reference v p null).headers p).priv.pf_release
          p
          (set_reference v p null)
        ≡ put qp p (set_refcount (set_reference v p null) p 1)
  unfolding run_release
  release_own-put p qp v state f l c q =
      rw (set_reference_self v p null, f)
        (pool_release-put p qp _ state
          (rw (set_reference_self v p null, set_reference-pools v p null) l) c q)

  continue_by-put :
      (rel : Ptr → World → Option World) (p qp : Ptr) (w : World) (state : Pool)
      → (w.headers p).priv.reference ≡ null
      → (w.headers p).priv.pf_release ≡ pool_buffer_header_release
      → w.pools (w.headers p).priv.owner ≡ some state
      → state.cb ≡ none
      → state.queue ≡ qp
      → continue_by client rel p w ≡ put qp p (set_refcount (set_reference (reset p w) p null) p 1)
  unfolding continue_by
  continue_by-put rel p qp w state e f l c q =
      rw (reset_self w p, e)
        (release_own-put p qp (reset p w) state (rw (reset_self w p) f)
          (rw (reset_self w p, reset-pools w p) l) c q)

  -- The same through a reference, whose own release leaves `v`.
  pub continue_by-through :
      (rel : Ptr → World → Option World) (p r qp : Ptr) (w v : World) (state : Pool)
      → (w.headers p).priv.reference ≡ r
      → r ≢ null
      → rel r (reset p w) ≡ some v
      → (v.headers p).priv.pf_release ≡ pool_buffer_header_release
      → v.pools (v.headers p).priv.owner ≡ some state
      → state.cb ≡ none
      → state.queue ≡ qp
      → continue_by client rel p w ≡ put qp p (set_refcount (set_reference v p null) p 1)
  unfolding continue_by
  continue_by-through rel p r qp w v state e nz through f l c q =
      rw (reset_self w p, e, not_zero r nz, through) (release_own-put p qp v state f l c q)

  -- A header that others still hold is only counted down.
  pub release-shared :
      (fuel n : ℕ) (p : Ptr) (w : World)
      → p ≢ null
      → (w.headers p).priv.refcount ≡ suc (suc n)
      → suc (suc n) < 2 ^ 31
      → release client (suc fuel) p w ≡ some (set_refcount w p (suc n))
  unfolding release
  release-shared fuel n p w nz e small =
      let left : decrement (suc (suc n)) ≡ suc n = omega arith in
      rw (
        not_zero p nz,
        e,
        not_eq (suc (suc n)) least_count (omega arith),
        left,
        not_zero (suc n) (omega arith),
      )

  -- The last release of a header with no pre-release callback goes on with the recycling.
  pub release-last :
      (fuel : ℕ) (p : Ptr) (w : World)
      → p ≢ null
      → (w.headers p).priv.refcount ≡ 1
      → (w.headers p).priv.pf_pre_release ≡ none
      → release client (suc fuel) p w
        ≡ continue_by client (release client fuel) p (set_refcount w p 0)
  unfolding release delayed continue_unless
  release-last fuel p w nz one undelayed = rw (not_zero p nz, one, undelayed)

  release-put :
      (fuel : ℕ) {p pool qp : Ptr} {w : World}
      → IsLast w p pool qp
      → (w.headers p).priv.reference ≡ null
      → release client (suc fuel) p w ≡ put qp p (recycled_world p w)
  unfolding recycled_world
  release-put fuel {p} {pool} {qp} {w} l none_referenced =
      release-last fuel p w l.ne_null l.refcount l.undelayed
      ∙ continue_by-put (release client fuel) p qp (set_refcount w p 0) l.state
          (rw (set_refcount_self w p 0) none_referenced) (rw (set_refcount_self w p 0) l.of_pool)
          (rw (set_refcount_self w p 0, l.owner, set_refcount-pools w p 0) l.lives) l.quiet l.queue

  -- The last release of a pool's header recycles it and puts it at the end of the pool's queue.
  pub release-Recycles :
      (fuel : ℕ) {p pool qp : Ptr} {w : World} {xs : List Ptr}
      → IsLast w p pool qp
      → (w.headers p).priv.reference ≡ null
      → Holds w qp 0 xs
      → has p xs ≡ false
      → Yields (Recycles w p qp xs) (release client (suc fuel) p w)
  release-Recycles fuel {p} {pool} {qp} {w} {xs} l none_referenced h out =
      rw (release-put fuel l none_referenced) (
        Yields-mono (put-Holds p xs (recycled_world-Holds p h) l.ne_null out) λ v (held, links).
          record {
            queued = held;
            header = rw (links.links p, recycled_world_self p w);
            headers = λ a ne. rw (links.links a, recycled_world-ne p a w ne);
            pools = links.pools ∙ recycled_world-pools p w;
          })
