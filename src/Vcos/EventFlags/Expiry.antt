-- ===== src/Vcos/EventFlags/Expiry.antt =====
-- event_flags_timer_expired: the end of a wait with a timeout.
use final.Base.{
  ℕ, zero, suc, ◌<◌, ◌≡◌, ◌≢◌, refl, sym, ap, subst, ◌∙◌, some, List, [], ◌∷◌, ◌++◌, arith, has,
  length, not_zero, not_eq, append_assoc, if◌then◌else◌, ◌==◌, ==_iff, Yields, yields, Yields-mono,
  Yields-bind, ℕ_discrete, Bool-cases, inl, inr,
}
use final.Base.Chains.{end_of, end_of-append, Links-distinct}
use final.Vcos.EventFlags.{
  Flags, Link, head_link, next_link, read_link, unlink, expire_round, expire_walk, timer_expired,
  post,
}
use final.Vcos.EventFlags.Waits.{
  Waits, link_of, link_of-snoc, read_link-link_of, OnlyLinked, unlink-OnlyLinked, unlink-Waits,
}

-- The list without the first of its elements that is `a`.
abbrev pub without : ℕ → List ℕ → List ℕ
without a [] = []
without a (x ∷ xs) = if x == a then xs else x ∷ without a xs

-- What the search of the waiters `rest` for `self` does: `t` is the thread that it gives.
record Expired (self : ℕ) (s : Flags) (ds rest : List ℕ) (t : ℕ) (v : Flags) : Type 0 where
  waits : Waits v (ds ++ without self rest)
  linked : OnlyLinked s v
  thread : t ≡ (if has self rest then (s.waiters self).thread else 0)

module _ (self fuel x : ℕ) (current : Link) (prev : ℕ) (s : Flags) where
  expire_walk_end :
      read_link s current ≡ 0 → expire_walk (suc fuel) self current prev s ≡ some (0, s)
  unfolding expire_walk expire_round
  expire_walk_end e = rw e

  expire_walk_finds :
      read_link s current ≡ x
      → x ≢ 0
      → x ≡ self
      → expire_walk (suc fuel) self current prev s
        ≡ some ((s.waiters x).thread, unlink current prev x s)
  unfolding expire_walk expire_round
  expire_walk_finds e nz found = rw (e, not_zero x nz, (==_iff x self).1 found)

  expire_walk_passes :
      read_link s current ≡ x
      → x ≢ 0
      → x ≢ self
      → expire_walk (suc fuel) self current prev s ≡ expire_walk fuel self (next_link x) x s
  unfolding expire_walk expire_round
  expire_walk_passes e nz other = rw (e, not_zero x nz, not_eq x self other)

expire_walk-Expired :
    (self fuel : ℕ) (ds rest : List ℕ) (current : Link) (prev : ℕ) (s : Flags)
    → length rest < fuel
    → current ≡ link_of ds
    → prev ≡ end_of ds
    → Waits s (ds ++ rest)
    → Yields (λ (t, v). Expired self s ds rest t v) (expire_walk fuel self current prev s)
expire_walk-Expired self zero ds rest current prev s lt cur pre w = absurd (omega arith)
expire_walk-Expired self (suc fuel) ds [] current prev s lt cur pre w =
    rw
      (expire_walk_end self fuel 0 current prev s
        (ap (read_link s) cur ∙ read_link-link_of ds [] w))
      (yields (record {
        waits = w;
        linked = record { events = refl; posted = refl; waiters = λ a. refl };
        thread = refl;
      }))
expire_walk-Expired self (suc fuel) ds (x ∷ xs) current prev s lt cur pre w =
    let (nz, front, back, _) = Links-distinct (λ a. (s.waiters a).next) s.head x ds xs w.chain in
    let at_x = ap (read_link s) cur ∙ read_link-link_of ds (x ∷ xs) w in
    elim (ℕ_discrete x self) [
      | yes e ↦
          rw (expire_walk_finds self fuel x current prev s at_x nz e, cur, pre)
            (yields (record {
              waits = rw ((==_iff x self).1 e) (unlink-Waits ds x xs w);
              linked = unlink-OnlyLinked ds (end_of ds) x s;
              thread = rw ((==_iff x self).1 e, e);
            }))
      | no ne ↦ rw (expire_walk_passes self fuel x current prev s at_x nz ne) (
          Yields-mono
            (expire_walk-Expired self fuel (ds ++ x ∷ []) xs (next_link x) x s (omega arith)
              (link_of-snoc ds x) (sym (end_of-append x ds []))
              (subst (Waits s) (sym (append_assoc ds (x ∷ []) xs)) w))
            λ (t, v) k. record {
              waits =
                  rw (not_eq x self ne)
                    (subst (Waits v) (append_assoc ds (x ∷ []) (without self xs)) k.waits);
              linked = k.linked;
              thread = rw (not_eq x self ne) k.thread;
            })
    ]

-- What the timer of `self` leaves of the waiters `xs`: a list without `self`, whose thread was posted
-- if it was still there; the events and all waiters stay as they were, but for links.
pub record TimesOut (s : Flags) (self : ℕ) (xs : List ℕ) (v : Flags) : Type 0 where
  pub waits : Waits v (without self xs)
  pub events : v.events ≡ s.events
  pub posted : v.posted ≡ (if has self xs then (s.waiters self).thread ∷ s.posted else s.posted)
  pub waiters : (a : ℕ) → record (v.waiters a) { next = 0 } ≡ record (s.waiters a) { next = 0 }

Expired-TimesOut :
    {s v : Flags} (self t : ℕ) (xs : List ℕ)
    → (s.waiters self).thread ≢ 0
    → Expired self s [] xs t v
    → TimesOut s self xs (if t == 0 then v else post t v)
Expired-TimesOut {s} {v} self t xs nz k = elim (Bool-cases (has self xs)) [
  | inl i ↦
      let e : t ≡ (s.waiters self).thread = k.thread ∙ rw i refl in
      rw (e, not_zero _ nz)
        (record {
          waits = (let w = k.waits in record { chain = w.chain; tail = w.tail });
          events = k.linked.events;
          posted = rw i (ap (λ ts. (s.waiters self).thread ∷ ts) k.linked.posted);
          waiters = k.linked.waiters;
        })
  | inr o ↦
      let e : t ≡ 0 = k.thread ∙ rw o refl in
      rw e (record {
        waits = k.waits;
        events = k.linked.events;
        posted = rw o k.linked.posted;
        waiters = k.linked.waiters;
      })
]

-- The timer of a waiter whose thread is not NULL succeeds with fuel for one round more than there are
-- waiters: it removes this waiter alone and posts its thread once if the waiter still waits, and does
-- nothing if it was woken before.
pub timer_expired-TimesOut :
    (fuel self : ℕ) (xs : List ℕ) {s : Flags}
    → length xs < fuel
    → Waits s xs
    → (s.waiters self).thread ≢ 0
    → Yields (TimesOut s self xs) (timer_expired fuel self s)
unfolding timer_expired
timer_expired-TimesOut fuel self xs {s} lt w nz =
    Yields-bind (expire_walk-Expired self fuel [] xs head_link 0 s lt refl refl w)
      λ (t, v) k. yields (Expired-TimesOut self t xs nz k)
