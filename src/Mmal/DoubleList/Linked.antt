-- ===== src/Mmal/DoubleList/Linked.antt =====
-- What a doubly linked list holds, and how links may change around an element.
use final.Base.{ℕ, ◌%◌, ◌^◌, ◌≡◌, ◌∙◌, true, List, [], ◌∷◌, ◌++◌, arith, has, length}
use final.Base.Chains.{Links, end_of, last_from}
use final.Mmal.DoubleList.{DoubleList}

-- The link back of each element leads to the one before it, and of the first to `p`.
abbrev pub Backs : (ℕ → ℕ) → ℕ → List ℕ → Type 0
Backs prev p [] = Unit
Backs prev p (x ∷ xs) = (prev x ≡ p) × Backs prev x xs

-- The list holds `xs`, in order, with links both ways.
pub record Lists (l : DoubleList) (xs : List ℕ) : Type 0 where
  pub forward : Links l.next l.first xs
  pub backward : Backs l.prev 0 xs
  pub last : l.last ≡ end_of xs
  pub counted : l.length ≡ length xs % 2 ^ 32

module _ {prev prev' : ℕ → ℕ} where
  pub Backs-frame :
      (p : ℕ) (xs : List ℕ)
      → ((a : ℕ) → has a xs ≡ true → prev' a ≡ prev a)
      → Backs prev p xs
      → Backs prev' p xs
  Backs-frame p [] same b = tt
  Backs-frame p (x ∷ xs) same b =
      (same x (ground arith) ∙ b.0, Backs-frame x xs (λ a i. same a (ground arith)) b.1)

  -- The element in front changes, and with it the link back of the first.
  pub Backs-head :
      (p q : ℕ) (x : ℕ) (xs : List ℕ)
      → prev' x ≡ q
      → ((a : ℕ) → has a xs ≡ true → prev' a ≡ prev a)
      → Backs prev p (x ∷ xs)
      → Backs prev' q (x ∷ xs)
  Backs-head p q x xs e same b = (e, Backs-frame x xs same b.1)

  -- Elements with the links back that they had, and behind them one with a link back to the last.
  pub Backs-append :
      (p d : ℕ) (ds ys : List ℕ)
      → ((a : ℕ) → has a (d ∷ ds) ≡ true → prev' a ≡ prev a)
      → Backs prev p (d ∷ ds)
      → Backs prev' (last_from d ds) ys
      → Backs prev' p (d ∷ ds ++ ys)
  Backs-append p d [] ys same b c = (same d (ground arith) ∙ b.0, c)
  Backs-append p d (e ∷ es) ys same b c =
      (same d (ground arith) ∙ b.0, Backs-append d e es ys (λ a i. same a (ground arith)) b.1 c)

-- The links back of the front, and of the rest.
pub Backs-front :
    (prev : ℕ → ℕ) (p : ℕ) (ds ys : List ℕ) → Backs prev p (ds ++ ys) → Backs prev p ds
Backs-front prev p [] ys b = tt
Backs-front prev p (d ∷ ds) ys b = (b.0, Backs-front prev d ds ys b.1)

pub Backs-rest :
    (prev : ℕ → ℕ) (p d : ℕ) (ds ys : List ℕ)
    → Backs prev p (d ∷ ds ++ ys)
    → Backs prev (last_from d ds) ys
Backs-rest prev p d [] ys b = b.1
Backs-rest prev p d (e ∷ es) ys b = Backs-rest prev d e es ys b.1
