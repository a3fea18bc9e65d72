-- ===== src/Mmal/Buffer/Replicate.antt =====
-- mmal_buffer_header_replicate, and the release of the replica.
use final.Base.{
  ℕ, suc, ◌+◌, ◌^◌, ◌<◌, ◌≡◌, refl, ◌≢◌, ◌∙◌, false, List, [], ◌∷◌, ◌++◌, arith, has, not_zero,
  not_eq, ap, Yields, yields, Yields-mono,
}
use final.Mmal.World.{Ptr, null, Header, World}
use final.Mmal.Queue.{put}
use final.Mmal.Queue.Fifo.{Holds, Holds-frame, OnlyLinks, put-Holds}
use final.Mmal.Buffer.{
  most_counts, Client, success, set_refcount, set_reference, acquire, reset, release, replicate,
}
use final.Mmal.Buffer.Release.{
  IsLast, release-shared, release-last, continue_by-through, set_refcount_self,
}

-- What a header shows of the source that it replicates.
pub record Shows (d s : Header) : Type 0 where
  pub cmd : d.cmd ≡ s.cmd
  pub data_ptr : d.data_ptr ≡ s.data_ptr
  pub alloc_size : d.alloc_size ≡ s.alloc_size
  pub length : d.length ≡ s.length
  pub offset : d.offset ≡ s.offset
  pub flags : d.flags ≡ s.flags
  pub pts : d.pts ≡ s.pts
  pub dts : d.dts ≡ s.dts
  pub type_info : d.type_info ≡ s.type_info

-- What replicating `src` to `dest` leaves: the copy, and one count more on the source.
pub record Replicates (w : World) (dest src : Ptr) (v : World) : Type 0 where
  pub shows : Shows (v.headers dest) (w.headers src)
  pub dest_priv : (v.headers dest).priv ≡ record ((w.headers dest).priv) { reference = src }
  pub links : (a : Ptr) → (v.headers a).next ≡ (w.headers a).next
  pub source : v.headers src ≡ record (w.headers src) {
    priv = record ((w.headers src).priv) { refcount = (w.headers src).priv.refcount + 1 };
  }
  pub headers : (a : Ptr) → a ≢ dest → a ≢ src → v.headers a ≡ w.headers a
  pub queues : v.queues ≡ w.queues
  pub pools : v.pools ≡ w.pools

-- A header replicates another, and holds a count of it, unless it already refers to one.
pub replicate-Replicates :
    (dest src : Ptr) (w : World)
    → dest ≢ null
    → src ≢ null
    → dest ≢ src
    → (w.headers dest).priv.reference ≡ null
    → (w.headers src).priv.refcount + 1 < 2 ^ 31
    → Yields (λ (s, v). (s ≡ success) × Replicates w dest src v) (replicate dest src w)
unfolding replicate acquire set_refcount set_reference
replicate-Replicates dest src w nd ns ne free small =
    rw
      (
        not_zero dest nd,
        not_zero src ns,
        free,
        not_eq (w.headers src).priv.refcount most_counts (omega arith),
      )
      (yields (
        refl,
        record {
          shows = ground arith;
          dest_priv = ground arith;
          links = λ a. ground arith;
          source = ground arith;
          headers = λ a n m. ground arith;
          queues = refl;
          pools = refl;
        },
      ))

-- The memory when a replica is about to be put back, the source left with `n` counts.
returned_world : (dest src : Ptr) → ℕ → World → World
returned_world dest src n w =
    let w₁ = set_refcount (reset dest (set_refcount w dest 0)) src n in
    set_refcount (set_reference w₁ dest null) dest 1

-- What the last release of a replica leaves: the replica at the end of its queue with no reference
-- and one count, the source with one count less, and no other header changed but for its link.
pub record Returns (w : World) (dest src qp : Ptr) (n : ℕ) (xs : List Ptr) (v : World)
    : Type 0 where
  pub queued : Holds v qp 0 (xs ++ dest ∷ [])
  pub dest_priv :
      (v.headers dest).priv ≡ record ((w.headers dest).priv) { refcount = 1; reference = null }
  pub source : record (v.headers src) { next = null } ≡ record (w.headers src) {
    next = null;
    priv = record ((w.headers src).priv) { refcount = n };
  }
  pub headers :
      (a : Ptr)
      → a ≢ dest
      → a ≢ src
      → record (v.headers a) { next = null } ≡ record (w.headers a) { next = null }
  pub pools : v.pools ≡ w.pools

returned_world-next :
    (dest src n a : ℕ) (w : World)
    → ((returned_world dest src n w).headers a).next ≡ (w.headers a).next
unfolding returned_world set_refcount set_reference reset
returned_world-next dest src n a w = ground arith

returned_world-Holds :
    (dest src n : ℕ) {w : World} {qp : Ptr} {xs : List Ptr}
    → Holds w qp 0 xs
    → Holds (returned_world dest src n w) qp 0 xs
unfolding returned_world set_refcount set_reference reset
returned_world-Holds dest src n {w} h =
    Holds-frame refl (λ a i. returned_world-next dest src n a w) h

-- Whatever only links and queues change on top of `returned_world` keeps what it left.
Returns-links :
    {w v : World} (dest src : Ptr) {qp : Ptr} (n : ℕ) {xs : List Ptr}
    → dest ≢ src
    → Holds v qp 0 (xs ++ dest ∷ [])
    → OnlyLinks (returned_world dest src n w) v qp (dest ∷ xs)
    → Returns w dest src qp n xs v
unfolding returned_world set_refcount set_reference reset
Returns-links dest src n ne held links = record {
  queued = held;
  dest_priv = ap (λ h. h.priv) (links.links dest) ∙ ground arith;
  source = links.links src ∙ ground arith;
  headers = λ a nd ns. links.links a ∙ ground arith;
  pools = links.pools;
}

module _ (client : Client) where
  release-returned :
      (fuel n : ℕ) {dest src pool qp : Ptr} {w : World}
      → IsLast w dest pool qp
      → (w.headers dest).priv.reference ≡ src
      → src ≢ null
      → dest ≢ src
      → (w.headers src).priv.refcount ≡ suc (suc n)
      → suc (suc n) < 2 ^ 31
      → release client (suc (suc fuel)) dest w ≡ put qp dest (returned_world dest src (suc n) w)
  unfolding returned_world set_refcount set_reference reset
  release-returned fuel n {dest} {src} {pool} {qp} {w} l e ns ne counts small =
      release-last client (suc fuel) dest w l.ne_null l.refcount l.undelayed
      ∙ continue_by-through client (release client (suc fuel)) dest src qp (set_refcount w dest 0) _
          l.state (rw (set_refcount_self w dest 0) e) ns
          (release-shared client fuel n src _ ns (ground arith) small) (ground arith) (ground arith)
          l.quiet l.queue

  -- The last release of a replica gives up its count of the source, and puts the replica back.
  pub release-Returns :
      (fuel n : ℕ) {dest src pool qp : Ptr} {w : World} {xs : List Ptr}
      → IsLast w dest pool qp
      → (w.headers dest).priv.reference ≡ src
      → src ≢ null
      → dest ≢ src
      → (w.headers src).priv.refcount ≡ suc (suc n)
      → suc (suc n) < 2 ^ 31
      → Holds w qp 0 xs
      → has dest xs ≡ false
      → Yields (Returns w dest src qp (suc n) xs) (release client (suc (suc fuel)) dest w)
  release-Returns fuel n {dest} {src} {xs} l e ns ne counts small h out =
      rw (release-returned fuel n l e ns ne counts small) (
        Yields-mono (put-Holds dest xs (returned_world-Holds dest src (suc n) h) l.ne_null out)
          λ v (held, links). Returns-links dest src (suc n) ne held links)

Replicates-IsLast :
    {w v : World} {dest src pool qp : Ptr}
    → Replicates w dest src v
    → IsLast w dest pool qp
    → IsLast v dest pool qp
Replicates-IsLast r l = record {
  ne_null = l.ne_null;
  refcount = rw r.dest_priv l.refcount;
  undelayed = rw r.dest_priv l.undelayed;
  of_pool = rw r.dest_priv l.of_pool;
  owner = rw r.dest_priv l.owner;
  state = l.state;
  lives = rw r.pools l.lives;
  quiet = l.quiet;
  queue = l.queue;
}

-- What a replica that is made and released leaves: the source as it was, but for its link, and the
-- replica at the end of its queue with the private fields that it had.
pub record Restores (w : World) (dest src qp : Ptr) (xs : List Ptr) (v : World) : Type 0 where
  pub queued : Holds v qp 0 (xs ++ dest ∷ [])
  pub source : record (v.headers src) { next = null } ≡ record (w.headers src) { next = null }
  pub dest_priv : (v.headers dest).priv ≡ (w.headers dest).priv

Returns-Restores :
    {w v u : World} {dest src qp : Ptr} (n : ℕ) {xs : List Ptr}
    → Replicates w dest src v
    → (w.headers dest).priv.reference ≡ null
    → (w.headers dest).priv.refcount ≡ 1
    → (w.headers src).priv.refcount ≡ suc n
    → Returns v dest src qp (suc n) xs u
    → Restores w dest src qp xs u
Returns-Restores n r free one counts t = record {
  queued = t.queued;
  source = t.source ∙ ground arith;
  dest_priv = t.dest_priv ∙ ground arith;
}

-- Where the header `dest` of a pool has one count, no reference and no callback and is not in the
-- pool's queue, and the source is another header with at least one count, to which an int can add
-- one, replicating the source to `dest` succeeds and then the release of the replica succeeds.
-- Together they leave the source as it was but for its link, and the private fields of the replica,
-- and put the replica at the end of the queue.
pub replicate-release :
    (client : Client) (fuel n : ℕ) {dest src pool qp : Ptr} {w : World} {xs : List Ptr}
    → IsLast w dest pool qp
    → (w.headers dest).priv.reference ≡ null
    → src ≢ null
    → dest ≢ src
    → (w.headers src).priv.refcount ≡ suc n
    → suc (suc n) < 2 ^ 31
    → Holds w qp 0 xs
    → has dest xs ≡ false
    → Yields
        (λ (s, v).
          (s ≡ success)
          × Yields (Restores w dest src qp xs) (release client (suc (suc fuel)) dest v))
        (replicate dest src w)
replicate-release client fuel n {dest} {src} {qp = qp} {w} {xs} l free ns ne counts small h out =
    Yields-mono (replicate-Replicates dest src w l.ne_null ns ne free (omega arith))
      λ (s, v) (ok, r). (
        ok,
        Yields-mono
            (release-Returns client fuel n (Replicates-IsLast r l) (ground arith) ns ne
              (ground arith) small (Holds-frame (ap (λ q. q qp) r.queues) (λ a i. r.links a) h) out)
            λ u t. Returns-Restores n r free l.refcount counts t,
      )
