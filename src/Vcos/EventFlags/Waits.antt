-- ===== src/Vcos/EventFlags/Waits.antt =====
-- The list of waiters of event flags, and what unlinking and appending a waiter do to it.
use final.Base.{
  ℕ, ◌≡◌, ◌≢◌, refl, sym, ap, ◌∙◌, true, false, List, [], ◌∷◌, ◌++◌, arith, has, not_zero, not_eq,
  eq_self, append-nil, ne_of_has, if◌then◌else◌, ◌==◌, Yields, yields,
}
use final.Base.Chains.{
  Links, first_of, end_of, last_from, last_from-append, last_from-has, Links-ne_zero, end_of-append,
  Links-frame, Links-past, Links-snoc, Links-distinct, next-last_from,
}
use final.Vcos.EventFlags.{
  Flags, Link, head_link, next_link, read_link, unlink, append_tail, waiter_list_valid,
}

-- The waiters `xs` stand in the list in order, and its tail is the last of them.
pub record Waits (s : Flags) (xs : List ℕ) : Type 0 where
  pub chain : Links (λ a. (s.waiters a).next) s.head xs
  pub tail : s.tail ≡ end_of xs

-- The link that holds the address of the element behind `ds`.
abbrev pub link_of : List ℕ → Link
link_of [] = head_link
link_of (d ∷ ds) = next_link (last_from d ds)

pub link_of-snoc : (ds : List ℕ) (x : ℕ) → next_link x ≡ link_of (ds ++ x ∷ [])
link_of-snoc [] x = refl
link_of-snoc (d ∷ ds) x = ap next_link (sym (last_from-append d x ds []))

pub read_link-link_of :
    (ds xs : List ℕ) {s : Flags} → Waits s (ds ++ xs) → read_link s (link_of ds) ≡ first_of xs
read_link-link_of [] [] w = w.chain
read_link-link_of [] (x ∷ xs) w = let c = w.chain in c.0
read_link-link_of (d ∷ ds) xs {s} w =
    next-last_from (λ a. (s.waiters a).next) s.head d ds xs w.chain

pub Waits-frame :
    {s v : Flags} (xs : List ℕ)
    → v.head ≡ s.head
    → v.tail ≡ s.tail
    → ((a : ℕ) → has a xs ≡ true → (v.waiters a).next ≡ (s.waiters a).next)
    → Waits s xs
    → Waits v xs
Waits-frame {s} {v} xs head tail same w = record {
  chain = rw head (Links-frame s.head xs same w.chain);
  tail = tail ∙ w.tail;
}

-- The two states differ at most in links and in the ends of the list.
pub record OnlyLinked (s v : Flags) : Type 0 where
  pub events : v.events ≡ s.events
  pub posted : v.posted ≡ s.posted
  pub waiters : (a : ℕ) → record (v.waiters a) { next = 0 } ≡ record (s.waiters a) { next = 0 }

pub unlink-OnlyLinked :
    (ds : List ℕ) (prev x : ℕ) (s : Flags) → OnlyLinked s (unlink (link_of ds) prev x s)
unlink-OnlyLinked [] prev x s = record {
  events = ground arith;
  posted = ground arith;
  waiters = λ a. ground arith;
}
unlink-OnlyLinked (d ∷ ds) prev x s = record {
  events = ground arith;
  posted = ground arith;
  waiters = λ a. ground arith;
}

end_of-past :
    (next : ℕ → ℕ) (ds : List ℕ) (x n : ℕ) (xs : List ℕ)
    → Links next n xs
    → (if n == 0 then end_of ds else end_of (ds ++ x ∷ xs)) ≡ end_of (ds ++ xs)
end_of-past next ds x n [] c = rw c (ap end_of (sym (append-nil ds)))
end_of-past next ds x n (y ∷ ys) c =
    rw (c.0, not_zero y c.1) (end_of-append x ds (y ∷ ys) ∙ sym (end_of-append y ds ys))

unlink_head :
    (prev x : ℕ) (s : Flags)
    → ((unlink head_link prev x s).head ≡ (s.waiters x).next)
      × ((unlink head_link prev x s).waiters ≡ s.waiters)
unlink_head prev x s = (ground arith, ground arith)

unlink_next :
    (d prev x : ℕ) (s : Flags)
    → ((unlink (next_link d) prev x s).head ≡ s.head)
      × (((unlink (next_link d) prev x s).waiters d).next ≡ (s.waiters x).next)
      × ((a : ℕ) → a ≢ d → ((unlink (next_link d) prev x s).waiters a).next ≡ (s.waiters a).next)
unlink_next d prev x s = (ground arith, ground arith, λ a ne. ground arith)

unlink-tail :
    (l : Link) (prev x : ℕ) (s : Flags)
    → (unlink l prev x s).tail ≡ (if (s.waiters x).next == 0 then prev else s.tail)
unlink-tail head_link prev x s = ground arith
unlink-tail (next_link d) prev x s = ground arith

unlink-Links :
    (ds : List ℕ) (x : ℕ) (xs : List ℕ) (prev : ℕ) (s : Flags)
    → Links (λ a. (s.waiters a).next) s.head (ds ++ x ∷ xs)
    → Links
        (λ a. ((unlink (link_of ds) prev x s).waiters a).next)
        (unlink (link_of ds) prev x s).head
        (ds ++ xs)
unlink-Links [] x xs prev s c = let (head, same) = unlink_head prev x s in rw (head, same) c.3
unlink-Links (d ∷ ds) x xs prev s c =
    let (head, past, same) = unlink_next (last_from d ds) prev x s in
    rw head (Links-past s.head d x ds xs past same c)

-- Unlinking the element behind `ds` leaves the others in order.
pub unlink-Waits :
    (ds : List ℕ) (x : ℕ) (xs : List ℕ) {s : Flags}
    → Waits s (ds ++ x ∷ xs)
    → Waits (unlink (link_of ds) (end_of ds) x s) (ds ++ xs)
unlink-Waits ds x xs {s} w =
    let (_, _, _, behind) = Links-distinct (λ a. (s.waiters a).next) s.head x ds xs w.chain in
    record {
      chain = unlink-Links ds x xs (end_of ds) s w.chain;
      tail =
          unlink-tail (link_of ds) (end_of ds) x s
          ∙ rw w.tail (end_of-past (λ a. (s.waiters a).next) ds x _ xs behind);
    }

-- A waiter that is not NULL and not in the list is appended to it.
pub append_tail-Waits :
    (p : ℕ) (xs : List ℕ) {s : Flags}
    → Waits s xs
    → p ≢ 0
    → has p xs ≡ false
    → Yields (λ v. Waits v (xs ++ p ∷ []) × OnlyLinked s v) (append_tail p s)
unfolding append_tail
append_tail-Waits p [] {s} w nz out = rw w.chain (
    yields (
      record { chain = (refl, nz, refl, ground arith); tail = refl },
      record { events = refl; posted = refl; waiters = λ a. ground arith },
    ))
append_tail-Waits p (x ∷ xs) {s} w nz out =
    let c = w.chain in
    let nt =
      Links-ne_zero (λ a. (s.waiters a).next) s.head (last_from x xs) (x ∷ xs) w.chain
        (last_from-has x xs) in
    let ne : last_from x xs ≢ p = ne_of_has _ p (x ∷ xs) (last_from-has x xs) out in
    rw (c.0, not_zero x c.1, w.tail, not_zero _ nt)
      (yields (
        record {
          chain =
              Links-snoc x x p xs nz out (ground arith) (ground arith) (λ a n m. ground arith)
                (refl, c.1, c.2, c.3);
          tail = sym (last_from-append x p xs []);
        },
        record { events = refl; posted = refl; waiters = λ a. ground arith },
      ))

-- The check of builds with assertions holds of every list of waiters.
pub waiter_list_valid-Waits : (xs : List ℕ) {s : Flags} → Waits s xs → waiter_list_valid s ≡ true
unfolding waiter_list_valid
waiter_list_valid-Waits [] w = rw (w.chain, w.tail)
waiter_list_valid-Waits (x ∷ []) w =
    let c = w.chain in rw (c.0, w.tail, not_zero x c.1, eq_self x, c.3)
waiter_list_valid-Waits (x ∷ y ∷ ys) {s} w =
    let c = w.chain in
    let last_in = last_from-has y ys in
    let ne = ne_of_has (last_from y ys) x (y ∷ ys) last_in c.2 in
    let nz = Links-ne_zero (λ a. (s.waiters a).next) _ (last_from y ys) (y ∷ ys) c.3 last_in in
    rw (c.0, w.tail, not_zero x c.1, not_eq x _ (λ e. ne (sym e)), not_zero _ nz)
