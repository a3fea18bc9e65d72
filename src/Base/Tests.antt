-- ===== src/Base/Tests.antt =====
-- Boolean tests on the native numbers, the conditional, updates of a map, and chains of options.
use Prim.Native.Nat.{ℕ, ◌≤◌, ◌<◌, compare, Ordering}
use mathlib.Core.Path.{◌≡◌, refl, subst, sym}
use native.Mathlib.Decide.{ℕ_discrete}
use mathlib.Core.Logic.{◌↔◌, ◌≢◌, ◌⊎◌, inl, inr}
use mathlib.Core.Bool.{Bool, true, false}
use mathlib.Core.Option.{Option, none, some, some-injective}
use native.Mathlib.Omega.{arith}

abbrev pub ltb : ℕ → ℕ → Bool
ltb a b = elim (compare a b) [ Ordering.lt ↦ true | _ ↦ false ]

abbrev pub leb : ℕ → ℕ → Bool
leb a b = elim (compare a b) [ Ordering.gt ↦ false | _ ↦ true ]

infix 50 ◌==◌
abbrev pub ◌==◌ : ℕ → ℕ → Bool
a == b = elim (compare a b) [ Ordering.eq ↦ true | _ ↦ false ]

infix 1 if◌then◌else◌
abbrev pub if◌then◌else◌ {ℓ} : {A : Type ℓ} → Bool → A → A → A
if true then x else y = x
if false then x else y = y

pub ltb→lt : (a b : ℕ) → ltb a b ≡ true → a < b
ltb→lt a b h = ground arith

pub lt→ltb : (a b : ℕ) → a < b → ltb a b ≡ true
lt→ltb a b h = ground arith

pub leb→le : (a b : ℕ) → leb a b ≡ true → a ≤ b
leb→le a b h = ground arith

pub le→leb : (a b : ℕ) → a ≤ b → leb a b ≡ true
le→leb a b h = ground arith

pub not_leb : (a b : ℕ) → b < a → leb a b ≡ false
not_leb a b h = ground arith

pub not_leb→lt : (a b : ℕ) → leb a b ≡ false → b < a
not_leb→lt a b h = ground arith

pub not_ltb→le : (a b : ℕ) → ltb a b ≡ false → b ≤ a
not_ltb→le a b h = ground arith

pub ==_iff : (a b : ℕ) → ((a == b) ≡ true) ↔ (a ≡ b)
==_iff a b = ground arith

pub not_zero : (a : ℕ) → a ≢ 0 → (a == 0) ≡ false
not_zero a h = ground arith

pub not_ltb : (a b : ℕ) → b ≤ a → ltb a b ≡ false
not_ltb a b h = ground arith

pub not_eq : (a b : ℕ) → a ≢ b → (a == b) ≡ false
not_eq a b h = ground arith

pub eq_self : (a : ℕ) → (a == a) ≡ true
eq_self a = ground arith

pub ruleset tests = (arith, ltb→lt, lt→ltb, leb→le)

pub Bool-cases : (b : Bool) → (b ≡ true) ⊎ (b ≡ false)
Bool-cases true = inl refl
Bool-cases false = inr refl

pub Option-cases {ℓ} : {A : Type ℓ} (o : Option A) → (o ≡ none) ⊎ ((a : A) × (o ≡ some a))
Option-cases none = inl refl
Option-cases (some a) = inr (a, refl)

-- The map `f`, but `v` at `a`: one cell of memory is written.
abbrev pub update {ℓ} : {A : Type ℓ} → (ℕ → A) → ℕ → A → ℕ → A
update f a v b = if a == b then v else f b

pub update_self {ℓ} : {A : Type ℓ} (f : ℕ → A) (a : ℕ) (v : A) → update f a v a ≡ v
update_self f a v = rw (eq_self a) refl

pub update_other {ℓ} :
    {A : Type ℓ} (f : ℕ → A) (a : ℕ) (v : A) (b : ℕ) → a ≢ b → update f a v b ≡ f b
update_other f a v b ne = rw (not_eq a b ne) refl

-- What holds of the new value, and of the old ones elsewhere, holds after the write.
pub update-all {ℓ κ} :
    {A : Type ℓ} (P : ℕ → A → Type κ) (f : ℕ → A) (a : ℕ) (v : A) (b : ℕ)
    → P a v
    → (a ≢ b → P b (f b))
    → P b (update f a v b)
update-all P f a v b new old = elim (ℕ_discrete a b) [
  | yes e ↦ subst (λ c. P c (update f a v c)) e (subst (P a) (sym (update_self f a v)) new)
  | no ne ↦ subst (P b) (sym (update_other f a v b ne)) (old ne)
]

-- A chain of steps that may fault.
infixl 5 ◌>>=◌
abbrev pub ◌>>=◌ {ℓ κ} : {A : Type ℓ} {B : Type κ} → Option A → (A → Option B) → Option B
none >>= f = none
some a >>= f = f a

-- A run that does not fault, with a postcondition.
pub data Yields {ℓ κ} {A : Type ℓ} (P : A → Type κ) : Option A → Type (ℓ ⊔ κ) where
  yields : {a : A} → P a → Yields P (some a)

pub Yields-bind {ℓ κ μ ν} :
    {A : Type ℓ} {B : Type κ} {P : A → Type μ} {Q : B → Type ν} {m : Option A} {f : A → Option B}
    → Yields P m
    → ((a : A) → P a → Yields Q (f a))
    → Yields Q (m >>= f)
Yields-bind (yields p) next = next _ p

pub Yields-mono {ℓ κ ν} :
    {A : Type ℓ} {P : A → Type κ} {Q : A → Type ν} {m : Option A}
    → Yields P m
    → ((a : A) → P a → Q a)
    → Yields Q m
Yields-mono (yields p) weaken = yields (weaken _ p)

pub Yields-eq {ℓ κ} :
    {A : Type ℓ} {P : A → Type κ} {m : Option A} {a : A} → Yields P m → m ≡ some a → P a
Yields-eq {P} (yields p) e = subst P (some-injective _ _ e) p

-- Chains that continue in the same way.
pub bind_same {ℓ κ} :
    {A : Type ℓ} {B : Type κ} {f g : A → Option B} (m : Option A)
    → ((a : A) → f a ≡ g a)
    → (m >>= f) ≡ (m >>= g)
bind_same none same = refl
bind_same (some a) same = same a

pub bind_assoc {ℓ κ μ} :
    {A : Type ℓ} {B : Type κ} {C : Type μ} (m : Option A) (f : A → Option B) (g : B → Option C)
    → (m >>= f >>= g) ≡ (m >>= λ a. f a >>= g)
bind_assoc none f g = refl
bind_assoc (some a) f g = refl

pub Yields-gives {ℓ κ} :
    {A : Type ℓ} {P : A → Type κ} {m : Option A} → Yields P m → (a : A) × (m ≡ some a)
Yields-gives (yields {a} p) = (a, refl)
