-- ===== src/Mmal/DoubleList/Insert.antt =====
-- mmal_list_insert: the place of the new element.
use final.Base.{
  ℕ, zero, suc, ◌<◌, ◌≡◌, ◌≢◌, sym, subst, Bool, true, false, List, [], ◌∷◌, ◌++◌, append_assoc,
  append-nil, Yields-mono, arith, has, has-append, length, length-append, ne_of_has, not_zero,
  if◌then◌else◌, ◌==◌, Yields, yields, Bool-cases, inl, inr,
}
use final.Base.Chains.{
  first_of, last_from, last_from-has, last_from-append, Links-moved, Links-between, Links-distinct,
  Links-first,
}
use final.Mmal.DoubleList.{DoubleList, insert_before, insert_round, insert_walk, insert}
use final.Mmal.DoubleList.Linked.{Lists, Backs-frame, Backs-append, Backs-front, Backs-rest}
use final.Mmal.DoubleList.Ends.{push_front-Lists, push_back-Lists}

-- The new element in front of `x`, which stands behind `ds`.
insert_before-Lists :
    (b x : ℕ) (ds xs : List ℕ) {l : DoubleList}
    → Lists l (ds ++ x ∷ xs)
    → b ≢ 0
    → has b (ds ++ x ∷ xs) ≡ false
    → Lists (insert_before b x l) (ds ++ b ∷ x ∷ xs)
insert_before-Lists b x [] xs {l} h nz out =
    let f = h.forward in
    let k = h.backward in
    let at_x : l.first ≡ x = f.0 in
    let out_x : has x xs ≡ false = f.2 in
    record {
      forward = (
        ground arith,
        nz,
        out,
        Links-moved {next = l.next} l.first _ (x ∷ xs) (ground arith)
            (λ a i. ground (arith, ne_of_has a b (x ∷ xs))) f,
      );
      backward = (
        ground (arith, k.0),
        (
          ground arith,
          Backs-frame x xs (λ a i. ground (arith, ne_of_has a b (x ∷ xs), ne_of_has a x xs)) k.1,
        ),
      );
      last = ground (arith, h.last);
      counted = ground (arith, h.counted);
    }
insert_before-Lists b x (d ∷ es) xs {l} h nz out =
    let (nx, out_x, out_xs, after) = Links-distinct l.next l.first x (d ∷ es) xs h.forward in
    let f = h.forward in
    let k = Backs-rest l.prev 0 d es (x ∷ xs) h.backward in
    let at_d : l.first ≡ d = f.0 in
    let before : l.prev x ≡ last_from d es = k.0 in
    let in_list = last_from-has d es in
    let out_b : has b (d ∷ es) ≡ false = ground (arith, has-append b (d ∷ es) (x ∷ xs)) in
    let out_bx : has b (x ∷ xs) ≡ false = ground (arith, has-append b (d ∷ es) (x ∷ xs)) in
    let ne : last_from d es ≢ x = ne_of_has _ x (d ∷ es) in_list out_x in
    let nb : last_from d es ≢ b = ne_of_has _ b (d ∷ es) in_list out_b in
    let xd : x ≢ d = ground arith in
    let bx : b ≢ x = ground arith in
    record {
      forward =
          Links-between {next = l.next} _ d x b es xs nz out (ground arith) (ground arith)
            (λ a n m. ground arith) (ground arith, f.1, f.2, f.3);
      backward =
          Backs-append 0 d es (b ∷ x ∷ xs)
            (λ a i. ground (arith, ne_of_has a b (d ∷ es), ne_of_has a x (d ∷ es)))
            (Backs-front l.prev 0 (d ∷ es) (x ∷ xs) h.backward)
            (
              ground arith,
              (
                ground arith,
                Backs-frame x xs (λ a i. ground (arith, ne_of_has a b (x ∷ xs), ne_of_has a x xs))
                    k.1,
              ),
            );
      last = ground (arith, h.last, last_from-append d x es xs, last_from-append d b es (x ∷ xs));
      counted =
          ground (
            arith,
            h.counted,
            length-append (d ∷ es) (x ∷ xs),
            length-append (d ∷ es) (b ∷ x ∷ xs),
          );
    }

module _ (compare : ℕ → ℕ → Bool) where
  -- The new element stands in front of the first that it compares before, or at the end.
  abbrev pub inserted : ℕ → List ℕ → List ℕ
  inserted b [] = b ∷ []
  inserted b (x ∷ xs) = if compare b x then b ∷ x ∷ xs else x ∷ inserted b xs

  -- No element of the list compares before the one in front of it.
  abbrev pub IsNextTo : ℕ → List ℕ → Type 0
  IsNextTo x [] = Unit
  IsNextTo x (y ∷ ys) = compare y x ≡ false

  abbrev pub IsOrdered : List ℕ → Type 0
  IsOrdered [] = Unit
  IsOrdered (x ∷ xs) = IsNextTo x xs × IsOrdered xs

  inserted-IsNextTo :
      (b x : ℕ) (xs : List ℕ) → compare b x ≡ false → IsNextTo x xs → IsNextTo x (inserted b xs)
  inserted-IsNextTo b x [] n k = n
  inserted-IsNextTo b x (y ∷ ys) n k = elim (Bool-cases (compare b y)) [
    | inl e ↦ rw e n
    | inr e ↦ rw e k
  ]

  inserted-IsOrdered :
      (b : ℕ) (xs : List ℕ)
      → ((x y : ℕ) → compare x y ≡ true → compare y x ≡ false)
      → IsOrdered xs
      → IsOrdered (inserted b xs)
  inserted-IsOrdered b [] asym k = (tt, tt)
  inserted-IsOrdered b (x ∷ xs) asym k = elim (Bool-cases (compare b x)) [
    | inl e ↦ rw e (asym b x e, k)
    | inr e ↦ rw e (inserted-IsNextTo b x xs e k.0, inserted-IsOrdered b xs asym k.1)
  ]

  insert_walk-Lists :
      (fuel b cur : ℕ) (ds rest : List ℕ) {l : DoubleList}
      → length rest < fuel
      → cur ≡ first_of rest
      → Lists l (ds ++ rest)
      → b ≢ 0
      → has b (ds ++ rest) ≡ false
      → Yields (λ v. Lists v (ds ++ inserted b rest)) (insert_walk compare fuel b cur l)
  unfolding insert_walk insert_round
  insert_walk-Lists zero b cur ds rest lt e h nz out = absurd (omega arith)
  insert_walk-Lists (suc fuel) b cur ds [] {l} lt e h nz out =
      let same = append-nil ds in
      rw e (
        yields (
          push_back-Lists b ds (subst (Lists l) same h) nz
            (subst (λ xs. has b xs ≡ false) same out)))
  insert_walk-Lists (suc fuel) b cur ds (x ∷ xs) {l} lt e h nz out =
      let (nx, _, _, after) = Links-distinct l.next l.first x ds xs h.forward in
      let assoc = append_assoc ds (x ∷ []) xs in
      elim (Bool-cases (compare b x)) [
        | inl y ↦ rw (e, not_zero x nx, y) (yields (insert_before-Lists b x ds xs h nz out))
        | inr n ↦
            let rest : Yields (λ v. Lists v ((ds ++ x ∷ []) ++ inserted b xs))
                (insert_walk compare fuel b (l.next x) l) =
              insert_walk-Lists fuel b (l.next x) (ds ++ x ∷ []) xs (omega arith)
                (Links-first l.next (l.next x) xs after) (subst (Lists l) (sym assoc) h) nz
                (subst (λ ys. has b ys ≡ false) (sym assoc) out) in
            rw (e, not_zero x nx, n)
              (Yields-mono rest λ v t. subst (Lists v) (append_assoc ds (x ∷ []) (inserted b xs)) t)
      ]

  -- Where `compare` is asymmetric, inserting an element that is not NULL and not in the list into an
  -- ordered list succeeds with fuel for one round more than there are elements. The element then
  -- stands in front of the first that it compares before, or at the end, and the list is ordered.
  pub insert-IsOrdered :
      (fuel b : ℕ) (xs : List ℕ) {l : DoubleList}
      → length xs < fuel
      → Lists l xs
      → b ≢ 0
      → has b xs ≡ false
      → ((x y : ℕ) → compare x y ≡ true → compare y x ≡ false)
      → IsOrdered xs
      → Yields (λ v. Lists v (inserted b xs) × IsOrdered (inserted b xs)) (insert compare fuel b l)
  unfolding insert
  insert-IsOrdered fuel b [] {l} lt h nz out asym k =
      let none_there : (l.first == 0) ≡ true = rw h.forward in
      rw none_there (yields (push_front-Lists b [] h nz out, inserted-IsOrdered b [] asym k))
  insert-IsOrdered fuel b (x ∷ xs) {l} lt h nz out asym k =
      let f = h.forward in
      let some_there : (l.first == 0) ≡ false = rw f.0 (not_zero x f.1) in
      rw some_there (
        Yields-mono (insert_walk-Lists fuel b l.first [] (x ∷ xs) lt f.0 h nz out)
          λ v t. (t, inserted-IsOrdered b (x ∷ xs) asym k))
