-- ===== src/Vcos/EventFlags/Fuel.antt =====
-- The loops over the waiters: a run that ends, ends in the same way with more fuel.
use final.Base.{
  ℕ, zero, suc, ◌≤◌, ◌≡◌, refl, Bool, true, false, Option, none, some, arith, ◌==◌, if◌then◌else◌,
  ◌>>=◌,
}
use final.Vcos.EventFlags.{
  Flags, Link, head_link, set_round, set_walk, set_events, set, expire_round, expire_walk,
  timer_expired,
}

set_round_more :
    (short long : Link → ℕ → ℕ → Flags → Option (ℕ × Flags))
    → (current : Link) (prev consumed p : ℕ) (ends wakes : Bool) (s : Flags) (r : ℕ × Flags)
    → ((l : Link) (a c : ℕ) (u : Flags) → short l a c u ≡ some r → long l a c u ≡ some r)
    → set_round short current prev consumed p ends wakes s ≡ some r
    → set_round long current prev consumed p ends wakes s ≡ some r
unfolding set_round
set_round_more short long current prev consumed p true wakes s r more e = e
set_round_more short long current prev consumed p false true s r more e = more _ _ _ _ e
set_round_more short long current prev consumed p false false s r more e = more _ _ _ _ e

set_walk_more :
    (n m : ℕ) (current : Link) (prev consumed : ℕ) (s : Flags) (r : ℕ × Flags)
    → n ≤ m
    → set_walk n current prev consumed s ≡ some r
    → set_walk m current prev consumed s ≡ some r
unfolding set_walk
set_walk_more zero m current prev consumed s r le e = cc
set_walk_more (suc n) zero current prev consumed s r le e = absurd (omega arith)
set_walk_more (suc n) (suc m) current prev consumed s r le e =
    set_round_more (set_walk n) (set_walk m) current prev consumed _ _ _ s r
      (λ l a c u. set_walk_more n m l a c u r (omega arith)) e

expire_round_more :
    (short long : Link → ℕ → Flags → Option (ℕ × Flags))
    → (current : Link) (prev p : ℕ) (ends found : Bool) (s : Flags) (r : ℕ × Flags)
    → ((l : Link) (a : ℕ) (u : Flags) → short l a u ≡ some r → long l a u ≡ some r)
    → expire_round short current prev p ends found s ≡ some r
    → expire_round long current prev p ends found s ≡ some r
unfolding expire_round
expire_round_more short long current prev p true found s r more e = e
expire_round_more short long current prev p false true s r more e = e
expire_round_more short long current prev p false false s r more e = more _ _ _ e

expire_walk_more :
    (n m self : ℕ) (current : Link) (prev : ℕ) (s : Flags) (r : ℕ × Flags)
    → n ≤ m
    → expire_walk n self current prev s ≡ some r
    → expire_walk m self current prev s ≡ some r
unfolding expire_walk
expire_walk_more zero m self current prev s r le e = cc
expire_walk_more (suc n) zero self current prev s r le e = absurd (omega arith)
expire_walk_more (suc n) (suc m) self current prev s r le e =
    expire_round_more (expire_walk n self) (expire_walk m self) current prev _ _ _ s r
      (λ l a u. expire_walk_more n m self l a u r (omega arith)) e

-- A result of the first run is one of the second.
abbrev Leads : {A : Type 0} → Option A → Option A → Type 0
Leads {A} o o' = (r : A) → o ≡ some r → o' ≡ some r

bind_more :
    {A B : Type 0} (o o' : Option A) (f : A → Option B) → Leads o o' → Leads (o >>= f) (o' >>= f)
bind_more none o' f more r e = cc
bind_more (some a) o' f more r e = rw (more a refl) e

if_more :
    {A : Type 0} (b : Bool) (o short long : Option A)
    → Leads short long
    → Leads (if b then o else short) (if b then o else long)
if_more true o short long more r e = e
if_more false o short long more r e = more r e

pub timer_expired_more :
    (n m self : ℕ) (s v : Flags)
    → n ≤ m
    → timer_expired n self s ≡ some v
    → timer_expired m self s ≡ some v
unfolding timer_expired
timer_expired_more n m self s v le e =
    bind_more (expire_walk n self head_link 0 s) (expire_walk m self head_link 0 s) _
      (λ r. expire_walk_more n m self head_link 0 s r le) v e

pub set_more :
    (n m bitmask op : ℕ) (s v : Flags)
    → n ≤ m
    → set n bitmask op s ≡ some v
    → set m bitmask op s ≡ some v
unfolding set
set_more n m bitmask op s v le e =
    let s₁ = record s { events = set_events bitmask op s.events } in
    if_more (s.head == 0) (some s₁) _ _
      (bind_more (set_walk n head_link 0 0 s₁) (set_walk m head_link 0 0 s₁) _
        (λ r. set_walk_more n m head_link 0 0 s₁ r le))
      v e
