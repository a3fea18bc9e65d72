-- ===== src/Vcos/EventFlags/Sleepers.antt =====
-- Event flags under threads: sets, gets and timers in any order, each under the mutex.
use final.Base.{
  ℕ, suc, ◌≡◌, ◌≢◌, refl, sym, ap, ◌∙◌, true, false, some, List, [], ◌∷◌, ◌++◌, arith, has, length,
  max, Bool-cases, inl, inr, ℕ_discrete, Yields-eq,
}
use final.Vcos.EventFlags.{
  Flags, Waiter, VcosStatus, returns, sleeps, satisfied, set_events, set, get, timer_expired,
  waiter_list_valid,
}
use final.Vcos.EventFlags.Waits.{Waits, waiter_list_valid-Waits}
use final.Vcos.EventFlags.Wakes.{unlinked, kept, told}
use final.Vcos.EventFlags.Set.{Sets, set-Sets}
use final.Vcos.EventFlags.Expiry.{without, TimesOut, timer_expired-TimesOut}
use final.Vcos.EventFlags.Fuel.{set_more, timer_expired_more}
use final.Vcos.EventFlags.Get.{IsOp, Calm, get-Gets}

-- One call, as far as it runs under the mutex. A thread has one request, so `self` is not among the
-- waiters when its thread calls `get`.
pub data Step (s : Flags) : Flags → Type 0 where
  sets : (fuel bitmask op : ℕ) (v : Flags) → set fuel bitmask op s ≡ some v → Step s v
  gets :
      (self thread bitmask op suspend bits : ℕ) (st : VcosStatus) (v : Flags)
      → self ≢ 0
      → ((xs : List ℕ) → Waits s xs → has self xs ≡ true → ⊥)
      → IsOp op
      → get self thread bitmask op suspend s ≡ some (returns st bits v)
      → Step s v
  goes_to_sleep :
      (self thread bitmask op suspend : ℕ) (v : Flags)
      → self ≢ 0
      → ((xs : List ℕ) → Waits s xs → has self xs ≡ true → ⊥)
      → IsOp op
      → get self thread bitmask op suspend s ≡ some (sleeps v)
      → Step s v
  expires :
      (fuel self : ℕ) (v : Flags)
      → (s.waiters self).thread ≢ 0
      → timer_expired fuel self s ≡ some v
      → Step s v

pub data Reach (s : Flags) : Flags → Type 0 where
  here : Reach s s
  next : {t u : Flags} → Reach s t → Step t u → Reach s u

has-kept :
    (e a : ℕ) (waiters : ℕ → Waiter) (xs : List ℕ)
    → has a (kept e waiters xs) ≡ true
    → (has a xs ≡ true) × (satisfied e (waiters a) ≡ false)
has-kept e a waiters [] i = cc
has-kept e a waiters (x ∷ xs) i = elim (Bool-cases (satisfied e (waiters x))) [
  | inl y ↦
      let (inside, unmet) = has-kept e a waiters xs (rw y at i) in (ground (arith, inside), unmet)
  | inr n ↦
      let i' : has a (x ∷ kept e waiters xs) ≡ true = rw n at i in
      elim (ℕ_discrete x a) [
        | yes same ↦ (ground (arith, same), rw (sym same) n)
        | no ne ↦
            let (inside, unmet) = has-kept e a waiters xs (ground (arith, ne, i')) in
            (ground (arith, inside), unmet)
      ]
]

has-without : (a self : ℕ) (xs : List ℕ) → has a (without self xs) ≡ true → has a xs ≡ true
has-without a self [] i = cc
has-without a self (x ∷ xs) i = ground (arith, has-without a self xs)

told_unmet : (e : ℕ) (x : Waiter) → satisfied e x ≡ false → unlinked (told e x) ≡ unlinked x
told_unmet e x unmet = rw unmet refl

Sets-Calm : {s v : Flags} (e : ℕ) (xs : List ℕ) → Sets s e xs v → Calm v (kept e s.waiters xs)
Sets-Calm {s} {v} e xs k = record {
  waits = k.waits;
  unsatisfied = λ a i.
      let (inside, unmet) = has-kept e a s.waiters xs i in
      ap (satisfied v.events) (k.told a inside ∙ told_unmet e (s.waiters a) unmet)
      ∙ k.fewer a unmet;
}

TimesOut-Calm :
    {s v : Flags} (self : ℕ) (xs : List ℕ)
    → Calm s xs
    → TimesOut s self xs v
    → Calm v (without self xs)
TimesOut-Calm {s} {v} self xs k t = record {
  waits = t.waits;
  unsatisfied = λ a i.
      ap (satisfied v.events) (t.waiters a)
      ∙ rw t.events (k.unsatisfied a (has-without a self xs i));
}

absent :
    (self : ℕ) (xs : List ℕ) {s : Flags}
    → ((ys : List ℕ) → Waits s ys → has self ys ≡ true → ⊥)
    → Waits s xs
    → has self xs ≡ false
absent self xs out w = elim (Bool-cases (has self xs)) [ inl i ↦ absurd (out xs w i) | inr o ↦ o ]

Step-Calm : {s t : Flags} → Step s t → (xs : List ℕ) × Calm s xs → (xs : List ℕ) × Calm t xs
Step-Calm {s} (sets fuel bitmask op v e) (xs, k) =
    let enough : ℕ = max fuel (suc (length xs)) in
    (
      kept (set_events bitmask op s.events) s.waiters xs,
      Sets-Calm _ xs (
          Yields-eq (set-Sets enough bitmask op xs (omega arith) k.waits)
            (set_more fuel enough bitmask op s v (omega arith) e)),
    )
Step-Calm (gets self thread bitmask op suspend bits st v nz out valid e) (xs, k) =
    let answered =
      Yields-eq (get-Gets self thread bitmask op suspend xs k nz (absent self xs out k.waits) valid)
        e in
    (xs, answered.calm)
Step-Calm (goes_to_sleep self thread bitmask op suspend v nz out valid e) (xs, k) =
    let joined =
      Yields-eq (get-Gets self thread bitmask op suspend xs k nz (absent self xs out k.waits) valid)
        e in
    (xs ++ self ∷ [], joined.calm)
Step-Calm {s} (expires fuel self v nz e) (xs, k) =
    let enough : ℕ = max fuel (suc (length xs)) in
    (
      without self xs,
      TimesOut-Calm self xs k (
          Yields-eq (timer_expired-TimesOut enough self xs (omega arith) k.waits nz)
            (timer_expired_more fuel enough self s v (omega arith) e)),
    )

Reach-Calm : {s t : Flags} → Reach s t → (xs : List ℕ) × Calm s xs → (xs : List ℕ) × Calm t xs
Reach-Calm here k = k
Reach-Calm (next r st) k = Step-Calm st (Reach-Calm r k)

-- No wakeup is lost: from event flags whose waiters are in order and unsatisfied, whatever sets, gets
-- and timers have run, the waiters are in order, the list passes the check of builds with assertions,
-- and no waiter is left whose request the events satisfy.
pub waiter_list_valid-Reach :
    {s t : Flags} (xs : List ℕ)
    → Calm s xs
    → Reach s t
    → (waiter_list_valid t ≡ true) × ((ys : List ℕ) × Calm t ys)
waiter_list_valid-Reach xs k r =
    let (ys, j) = Reach-Calm r (xs, k) in (waiter_list_valid-Waits ys j.waits, (ys, j))
