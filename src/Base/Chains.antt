-- ===== src/Base/Chains.antt =====
-- Singly linked lists in memory, as lists of addresses: `next` gives the link of each element, and 0
-- is NULL.
use Prim.Native.Nat.{ℕ}
use mathlib.Core.Path.{◌≡◌, refl, sym, ◌∙◌}
use mathlib.Core.Logic.{◌≢◌}
use mathlib.Core.Bool.{true, false}
use mathlib.Core.List.{List, [], ◌∷◌, ◌++◌}
use native.Mathlib.Omega.{arith}
use native.Mathlib.Decide.{ℕ_discrete}
use final.Base.Lists.{has, has-append, ne_of_has}

-- From `p` the links lead through the distinct elements `xs` to NULL.
abbrev pub Links : (ℕ → ℕ) → ℕ → List ℕ → Type 0
Links next p [] = p ≡ 0
Links next p (x ∷ xs) = (p ≡ x) × (x ≢ 0) × (has x xs ≡ false) × Links next (next x) xs

abbrev pub first_of : List ℕ → ℕ
first_of [] = 0
first_of (x ∷ xs) = x

-- The last element of a list that starts with `x`, and of any list.
abbrev pub last_from : ℕ → List ℕ → ℕ
last_from x [] = x
last_from x (y ∷ ys) = last_from y ys

abbrev pub end_of : List ℕ → ℕ
end_of [] = 0
end_of (x ∷ xs) = last_from x xs

pub last_from-has : (x : ℕ) (xs : List ℕ) → has (last_from x xs) (x ∷ xs) ≡ true
last_from-has x [] = ground arith
last_from-has x (y ∷ ys) = ground (arith, last_from-has y ys)

pub last_from-append : (x y : ℕ) (xs ys : List ℕ) → last_from x (xs ++ y ∷ ys) ≡ last_from y ys
last_from-append x y [] ys = refl
last_from-append x y (z ∷ xs) ys = last_from-append z y xs ys

pub end_of-append : (y : ℕ) (xs ys : List ℕ) → end_of (xs ++ y ∷ ys) ≡ last_from y ys
end_of-append y [] ys = refl
end_of-append y (x ∷ xs) ys = last_from-append x y xs ys

module _ {next next' : ℕ → ℕ} where
  -- Links that are the same at all elements lead through the same list.
  pub Links-frame :
      (p : ℕ) (xs : List ℕ)
      → ((a : ℕ) → has a xs ≡ true → next' a ≡ next a)
      → Links next p xs
      → Links next' p xs
  Links-frame p [] same c = c
  Links-frame p (x ∷ xs) same c = (
    c.0,
    c.1,
    c.2,
    Links-frame (next' x) xs (λ a i. same a (ground arith)) (rw (same x (ground arith)) c.3),
  )

  -- The same from an address that is given in another way.
  pub Links-moved :
      (p q : ℕ) (xs : List ℕ)
      → q ≡ p
      → ((a : ℕ) → has a xs ≡ true → next' a ≡ next a)
      → Links next p xs
      → Links next' q xs
  Links-moved p q xs e same c = rw e (Links-frame p xs same c)

  -- The element behind `ds` is linked past.
  pub Links-past :
      (p d x : ℕ) (ds xs : List ℕ)
      → next' (last_from d ds) ≡ next x
      → ((a : ℕ) → a ≢ last_from d ds → next' a ≡ next a)
      → Links next p (d ∷ ds ++ x ∷ xs)
      → Links next' p (d ∷ ds ++ xs)
  Links-past p d x [] xs past same c =
      let out : has d xs ≡ false = ground arith in
      (
        c.0,
        c.1,
        out,
        rw past (
            Links-frame (next x) xs (λ a i. same a (ne_of_has a d xs i out))
              (let c' = c.3 in c'.3)),
      )
  Links-past p d x (e ∷ es) xs past same c = (
    c.0,
    c.1,
    ground (arith, has-append d (e ∷ es) (x ∷ xs), has-append d (e ∷ es) xs),
    rw
        (same d (λ q.
          ne_of_has _ d (e ∷ es) (last_from-has e es)
            (ground (arith, c.2, has-append d (e ∷ es) (x ∷ xs))) (sym q)))
        (Links-past (next d) e x es xs past same c.3),
  )

  -- An element is linked between `d ∷ ds` and `x`.
  pub Links-between :
      (p d x b : ℕ) (ds xs : List ℕ)
      → b ≢ 0
      → has b (d ∷ ds ++ x ∷ xs) ≡ false
      → next' (last_from d ds) ≡ b
      → next' b ≡ x
      → ((a : ℕ) → a ≢ last_from d ds → a ≢ b → next' a ≡ next a)
      → Links next p (d ∷ ds ++ x ∷ xs)
      → Links next' p (d ∷ ds ++ b ∷ x ∷ xs)
  Links-between p d x b [] xs nz out l n same c =
      let c' = c.3 in
      let out_d : has d (x ∷ xs) ≡ false = c.2 in
      (
        c.0,
        c.1,
        ground arith,
        (
          l,
          nz,
          ground arith,
          (
            n,
            c'.1,
            c'.2,
            Links-moved (next x) (next' x) xs (same x (ground arith) (ground arith))
                (λ a i.
                  same a (ne_of_has a d xs i (ground arith)) (ne_of_has a b xs i (ground arith)))
                c'.3,
          ),
        ),
      )
  Links-between p d x b (e ∷ es) xs nz out l n same c = (
    c.0,
    c.1,
    ground (arith, has-append d (e ∷ es) (x ∷ xs), has-append d (e ∷ es) (b ∷ x ∷ xs)),
    rw
        (same d
          (λ q.
            ne_of_has _ d (e ∷ es) (last_from-has e es)
              (ground (arith, c.2, has-append d (e ∷ es) (x ∷ xs))) (sym q))
          (ground arith))
        (Links-between (next d) e x b es xs nz (ground arith) l n same c.3),
  )

  -- An element is linked behind the last one.
  pub Links-snoc :
      (p d b : ℕ) (ds : List ℕ)
      → b ≢ 0
      → has b (d ∷ ds) ≡ false
      → next' b ≡ 0
      → next' (last_from d ds) ≡ b
      → ((a : ℕ) → a ≢ last_from d ds → a ≢ b → next' a ≡ next a)
      → Links next p (d ∷ ds)
      → Links next' p (d ∷ ds ++ b ∷ [])
  Links-snoc p d b [] nz out e l same c = (c.0, c.1, ground arith, (l, nz, refl, e))
  Links-snoc p d b (y ∷ ys) nz out e l same c = (
    c.0,
    c.1,
    ground (arith, has-append d (y ∷ ys) (b ∷ [])),
    rw (same d (λ q. ne_of_has _ d (y ∷ ys) (last_from-has y ys) c.2 (sym q)) (ground arith))
        (Links-snoc (next d) y b ys nz (ground arith) e l same c.3),
  )

module _ (next : ℕ → ℕ) where
  -- Behind the last element of the front stands the first of the rest.
  pub next-last_from :
      (p d : ℕ) (ds xs : List ℕ) → Links next p (d ∷ ds ++ xs) → next (last_from d ds) ≡ first_of xs
  next-last_from p d [] [] c = c.3
  next-last_from p d [] (x ∷ xs) c = let c' = c.3 in c'.0
  next-last_from p d (e ∷ es) xs c = next-last_from (next d) e es xs c.3

  -- What stands behind the front is not on it, and not further behind.
  pub Links-distinct :
      (p x : ℕ) (ds xs : List ℕ)
      → Links next p (ds ++ x ∷ xs)
      → (x ≢ 0) × (has x ds ≡ false) × (has x xs ≡ false) × Links next (next x) xs
  Links-distinct p x [] xs c = (c.1, refl, c.2, c.3)
  Links-distinct p x (d ∷ ds) xs c =
      let (nz, front, back, behind) = Links-distinct (next d) x ds xs c.3 in
      (nz, ground (arith, c.2, has-append d ds (x ∷ xs)), back, behind)

  pub Links-first : (p : ℕ) (xs : List ℕ) → Links next p xs → p ≡ first_of xs
  Links-first p [] c = c
  Links-first p (x ∷ xs) c = c.0

  pub Links-ne_zero : (p a : ℕ) (xs : List ℕ) → Links next p xs → has a xs ≡ true → a ≢ 0
  Links-ne_zero p a [] c i = cc
  Links-ne_zero p a (x ∷ xs) c i = elim (ℕ_discrete x a) [
    | yes e ↦ λ z. c.1 (e ∙ z)
    | no ne ↦ Links-ne_zero (next x) a xs c.3 (ground (arith, ne))
  ]
