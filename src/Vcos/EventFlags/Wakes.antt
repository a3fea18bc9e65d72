-- ===== src/Vcos/EventFlags/Wakes.antt =====
-- vcos_generic_event_flags_set: which waiters it wakes, which stay, and what it consumes.
use final.Base.{
  ℕ, suc, zero, ◌<◌, ◌≡◌, ◌≢◌, refl, sym, ap, subst, ◌∙◌, true, false, List, [], ◌∷◌, ◌++◌, arith,
  has, length, not_zero, eq_self, not_eq, append_assoc, if◌then◌else◌, some, Yields, yields,
  Yields-mono, Bool-cases, inl, inr, ne_of_has, ℕ_discrete,
}
use final.Base.Chains.{end_of, end_of-append, Links-distinct}
use final.Vcos.EventFlags.{
  vcos_success, Flags, Waiter, Link, next_link, read_link, satisfied, consumes, woken, wake,
  set_walk, set_round,
}
use final.Vcos.EventFlags.Waits.{
  link_of-snoc, Waits, Waits-frame, link_of, read_link-link_of, unlink-OnlyLinked, unlink-Waits,
}

-- A waiter but for its link.
abbrev pub unlinked : Waiter → Waiter
unlinked x = record x { next = 0 }

-- Of the waiters `xs`, which are as `waiters` says: those that stay, the threads that are woken
-- (put before `posted`, the latest first), and the events that are consumed (added to `consumed`).
module _ (events : ℕ) (waiters : ℕ → Waiter) where
  abbrev pub kept : List ℕ → List ℕ
  kept [] = []
  kept (x ∷ xs) = if satisfied events (waiters x) then kept xs else x ∷ kept xs

  abbrev pub posts : List ℕ → List ℕ → List ℕ
  posts [] posted = posted
  posts (x ∷ xs) posted =
      if satisfied events (waiters x)
      then posts xs ((waiters x).thread ∷ posted)
      else posts xs posted

  abbrev pub all_consumed : List ℕ → ℕ → ℕ
  all_consumed [] consumed = consumed
  all_consumed (x ∷ xs) consumed =
      if satisfied events (waiters x)
      then all_consumed xs (consumes (waiters x) consumed)
      else all_consumed xs consumed

-- What a waiter is told: nothing, or that it is woken by the events.
abbrev pub told : ℕ → Waiter → Waiter
told events x =
    if satisfied events x
    then record x { return_status = vcos_success; actual_events = events }
    else x

-- One waiter behind `ds` is woken.
record Wakes (s : Flags) (ds : List ℕ) (x : ℕ) (xs : List ℕ) (v : Flags) : Type 0 where
  waits : Waits v (ds ++ xs)
  events : v.events ≡ s.events
  posted : v.posted ≡ (s.waiters x).thread ∷ s.posted
  self : unlinked (v.waiters x) ≡ unlinked (woken s.events (s.waiters x))
  others : (a : ℕ) → a ≢ x → unlinked (v.waiters a) ≡ unlinked (s.waiters a)

wake-Wakes :
    (ds : List ℕ) (x : ℕ) (xs : List ℕ) {s : Flags}
    → Waits s (ds ++ x ∷ xs)
    → Wakes s ds x xs (wake (link_of ds) (end_of ds) x s)
unfolding wake
wake-Wakes ds x xs {s} w =
    let l = unlink-OnlyLinked ds (end_of ds) x s in
    record {
      waits = Waits-frame (ds ++ xs) refl refl (λ a i. ground arith) (unlink-Waits ds x xs w);
      events = l.events;
      posted = rw (l.posted, ap (λ (y : Waiter). y.thread) (l.waiters x));
      self = rw (eq_self x) (ap (woken _) (l.waiters x) ∙ rw l.events);
      others = λ a ne. rw (not_eq x a (λ e. ne (sym e))) (l.waiters a);
    }

-- What the walk over the waiters `rest` does: `v` is the state after it and `c` what it consumed.
pub record Walked (waiters : ℕ → Waiter) (s : Flags) (ds rest : List ℕ) (c₀ c : ℕ) (v : Flags)
    : Type 0 where
  pub waits : Waits v (ds ++ kept s.events waiters rest)
  pub events : v.events ≡ s.events
  pub consumed : c ≡ all_consumed s.events waiters rest c₀
  pub posted : v.posted ≡ posts s.events waiters rest s.posted
  pub answered :
      (a : ℕ) → has a rest ≡ true → unlinked (v.waiters a) ≡ unlinked (told s.events (waiters a))
  pub others : (a : ℕ) → has a rest ≡ false → unlinked (v.waiters a) ≡ unlinked (s.waiters a)

module _ (fuel : ℕ) (current : Link) (prev consumed : ℕ) (s : Flags) where
  set_walk_end :
      read_link s current ≡ 0 → set_walk (suc fuel) current prev consumed s ≡ some (consumed, s)
  unfolding set_walk set_round
  set_walk_end e = rw e

module _ (fuel x : ℕ) (current : Link) (prev consumed : ℕ) (s : Flags) where
  set_walk_wakes :
      read_link s current ≡ x
      → x ≢ 0
      → satisfied s.events (s.waiters x) ≡ true
      → set_walk (suc fuel) current prev consumed s
        ≡ set_walk fuel current prev (consumes (s.waiters x) consumed) (wake current prev x s)
  unfolding set_walk set_round
  set_walk_wakes e nz y = rw (e, not_zero x nz, y)

  set_walk_keeps :
      read_link s current ≡ x
      → x ≢ 0
      → satisfied s.events (s.waiters x) ≡ false
      → set_walk (suc fuel) current prev consumed s ≡ set_walk fuel (next_link x) x consumed s
  unfolding set_walk set_round
  set_walk_keeps e nz n = rw (e, not_zero x nz, n)

module _ {waiters : ℕ → Waiter} {s : Flags} (ds : List ℕ) (x : ℕ) (xs : List ℕ) (c₀ c : ℕ) where
  Walked-Wakes :
      {u v : Flags}
      → satisfied s.events (waiters x) ≡ true
      → has x xs ≡ false
      → unlinked (s.waiters x) ≡ unlinked (waiters x)
      → Wakes s ds x xs u
      → Walked waiters u ds xs (consumes (s.waiters x) c₀) c v
      → Walked waiters s ds (x ∷ xs) c₀ c v
  Walked-Wakes {u} {v} y out same k w = record {
    waits = rw y (subst (λ e. Waits v (ds ++ kept e waiters xs)) k.events w.waits);
    events = w.events ∙ k.events;
    consumed = rw y (
        w.consumed
        ∙ ap (λ e. all_consumed e waiters xs (consumes (s.waiters x) c₀)) k.events
        ∙ ap (λ q. all_consumed s.events waiters xs (consumes q c₀)) same);
    posted = rw y (
        w.posted
        ∙ ap (λ e. posts e waiters xs u.posted) k.events
        ∙ ap (posts s.events waiters xs)
            (k.posted ∙ ap (λ (q : Waiter). q.thread ∷ s.posted) same));
    answered = λ a i. elim (ℕ_discrete a x) [
      | yes e ↦ rw (e, y) (w.others x out ∙ k.self ∙ ap (woken s.events) same)
      | no ne ↦ w.answered a (ground (arith, ne)) ∙ ap (λ e. unlinked (told e (waiters a))) k.events
    ];
    others = λ a o. w.others a (ground arith) ∙ k.others a (λ e. ground (arith, e));
  }

  Walked-keeps :
      {v : Flags}
      → satisfied s.events (waiters x) ≡ false
      → has x xs ≡ false
      → unlinked (s.waiters x) ≡ unlinked (waiters x)
      → Walked waiters s (ds ++ x ∷ []) xs c₀ c v
      → Walked waiters s ds (x ∷ xs) c₀ c v
  Walked-keeps {v} n out same w = record {
    waits = rw n (subst (Waits v) (append_assoc ds (x ∷ []) (kept s.events waiters xs)) w.waits);
    events = w.events;
    consumed = rw n w.consumed;
    posted = rw n w.posted;
    answered = λ a i. elim (ℕ_discrete a x) [
      | yes e ↦ rw (e, n) (w.others x out ∙ same)
      | no ne ↦ w.answered a (ground (arith, ne))
    ];
    others = λ a o. w.others a (ground arith);
  }

module _ (waiters : ℕ → Waiter) where
  pub set_walk-Walked :
      (fuel : ℕ) (ds rest : List ℕ) (current : Link) (prev consumed : ℕ) (s : Flags)
      → length rest < fuel
      → current ≡ link_of ds
      → prev ≡ end_of ds
      → Waits s (ds ++ rest)
      → ((a : ℕ) → has a rest ≡ true → unlinked (s.waiters a) ≡ unlinked (waiters a))
      → Yields
          (λ (c, v). Walked waiters s ds rest consumed c v)
          (set_walk fuel current prev consumed s)
  set_walk-Walked zero ds rest current prev consumed s lt cur pre w same = absurd (omega arith)
  set_walk-Walked (suc fuel) ds [] current prev consumed s lt cur pre w same =
      rw
        (set_walk_end fuel current prev consumed s
          (ap (read_link s) cur ∙ read_link-link_of ds [] w))
        (yields (record {
          waits = w;
          events = refl;
          consumed = refl;
          posted = refl;
          answered = λ a i. cc;
          others = λ a i. refl;
        }))
  set_walk-Walked (suc fuel) ds (x ∷ xs) current prev consumed s lt cur pre w same =
      let (nz, front, back, _) = Links-distinct (λ a. (s.waiters a).next) s.head x ds xs w.chain in
      let at_x = ap (read_link s) cur ∙ read_link-link_of ds (x ∷ xs) w in
      let same₀ = same x (ground (arith, eq_self x)) in
      let k = wake-Wakes ds x xs w in
      elim (Bool-cases (satisfied s.events (s.waiters x))) [
        | inl y ↦
            rw (set_walk_wakes fuel x current prev consumed s at_x nz y, cur, pre)
              (Yields-mono
                (set_walk-Walked fuel ds xs (link_of ds) (end_of ds)
                  (consumes (s.waiters x) consumed) (wake (link_of ds) (end_of ds) x s)
                  (omega arith) refl refl k.waits
                  (λ a i. k.others a (ne_of_has a x xs i back) ∙ same a (ground arith)))
                λ (c, v) t.
                  Walked-Wakes ds x xs consumed c (sym (ap (satisfied s.events) same₀) ∙ y) back
                    same₀ k t)
        | inr n ↦ rw (set_walk_keeps fuel x current prev consumed s at_x nz n) (
            Yields-mono
              (set_walk-Walked fuel (ds ++ x ∷ []) xs (next_link x) x consumed s (omega arith)
                (link_of-snoc ds x) (sym (end_of-append x ds []))
                (subst (Waits s) (sym (append_assoc ds (x ∷ []) xs)) w)
                (λ a i. same a (ground arith)))
              λ (c, v) t.
                Walked-keeps ds x xs consumed c (sym (ap (satisfied s.events) same₀) ∙ n) back same₀
                  t)
      ]
