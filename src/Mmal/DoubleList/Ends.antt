-- ===== src/Mmal/DoubleList/Ends.antt =====
-- mmal_list_push_front, mmal_list_push_back, mmal_list_pop_front and mmal_list_pop_back.
use final.Base.{
  ℕ, ◌≡◌, ◌≢◌, refl, sym, ◌∙◌, false, List, [], ◌∷◌, ◌++◌, arith, has, has-append, length-append,
  ne_of_has, append-nil, subst,
}
use final.Base.Chains.{
  Links, last_from, last_from-has, last_from-append, Links-moved, Links-past, Links-snoc,
  Links-distinct, Links-ne_zero,
}
use final.Mmal.DoubleList.{DoubleList, pop_front, pop_back, push_front, push_back}
use final.Mmal.DoubleList.Linked.{
  Lists, Backs-frame, Backs-head, Backs-append, Backs-front, Backs-rest,
}

-- A list that is not empty gives its first element, and holds the others.
pub pop_front-Lists :
    (x : ℕ) (xs : List ℕ) {l : DoubleList}
    → Lists l (x ∷ xs)
    → ((pop_front l).0 ≡ x) × Lists (pop_front l).1 xs
unfolding pop_front
pop_front-Lists x [] {l} h =
    let f = h.forward in
    (
      ground arith,
      record {
        forward = ground arith;
        backward = tt;
        last = ground arith;
        counted = ground (arith, h.counted);
      },
    )
pop_front-Lists x (y ∷ ys) {l} h =
    let f = h.forward in
    let g = f.3 in
    let b = h.backward in
    let at_x : l.first ≡ x = f.0 in
    let at_y : l.next x ≡ y = g.0 in
    let ne : x ≢ y = ground arith in
    let nx : x ≢ 0 = f.1 in
    let ny : y ≢ 0 = g.1 in
    let out_x : has x (y ∷ ys) ≡ false = f.2 in
    let out_y : has y ys ≡ false = g.2 in
    (
      ground arith,
      record {
        forward = (
          ground arith,
          ny,
          out_y,
          Links-moved (l.next y) _ ys (ground arith) (λ a i. ground (arith, ne_of_has a x (y ∷ ys)))
              g.3,
        );
        backward =
            Backs-head x 0 y ys (ground arith)
              (λ a i. ground (arith, ne_of_has a x (y ∷ ys), ne_of_has a y ys)) b.1;
        last = ground (arith, h.last);
        counted = ground (arith, h.counted);
      },
    )

-- An element that is not NULL and not in the list becomes its first.
pub push_front-Lists :
    (b : ℕ) (xs : List ℕ) {l : DoubleList}
    → Lists l xs
    → b ≢ 0
    → has b xs ≡ false
    → Lists (push_front b l) (b ∷ xs)
unfolding push_front
push_front-Lists b [] {l} h nz out =
    let f : l.first ≡ 0 = h.forward in
    record {
      forward = (refl, nz, refl, ground arith);
      backward = (ground arith, tt);
      last = ground arith;
      counted = ground (arith, h.counted);
    }
push_front-Lists b (x ∷ xs) {l} h nz out =
    let f = h.forward in
    let at_x : l.first ≡ x = f.0 in
    let nx : x ≢ 0 = f.1 in
    let out_x : has x xs ≡ false = f.2 in
    record {
      forward = (
        refl,
        nz,
        out,
        Links-moved l.first _ (x ∷ xs) (ground arith)
            (λ a i. ground (arith, ne_of_has a b (x ∷ xs))) f,
      );
      backward = (
        ground arith,
        Backs-head 0 b x xs (ground arith)
            (λ a i. ground (arith, ne_of_has a b (x ∷ xs), ne_of_has a x xs)) h.backward,
      );
      last = ground (arith, h.last);
      counted = ground (arith, h.counted);
    }

-- An element that is not NULL and not in the list becomes its last.
pub push_back-Lists :
    (b : ℕ) (xs : List ℕ) {l : DoubleList}
    → Lists l xs
    → b ≢ 0
    → has b xs ≡ false
    → Lists (push_back b l) (xs ++ b ∷ [])
unfolding push_back
push_back-Lists b [] {l} h nz out =
    let f : l.first ≡ 0 = h.forward in
    let e : l.last ≡ 0 = h.last in
    record {
      forward = (ground arith, nz, refl, ground arith);
      backward = (ground arith, tt);
      last = refl;
      counted = ground (arith, h.counted);
    }
push_back-Lists b (x ∷ xs) {l} h nz out =
    let f = h.forward in
    let e : l.last ≡ last_from x xs = h.last in
    let in_list = last_from-has x xs in
    let nl : last_from x xs ≢ 0 =
      Links-ne_zero l.next l.first (last_from x xs) (x ∷ xs) f in_list in
    let ne : last_from x xs ≢ b = ne_of_has _ b (x ∷ xs) in_list out in
    record {
      forward =
          Links-snoc _ x b xs nz out (ground arith) (ground arith) (λ a n m. ground arith)
            (ground arith, f.1, f.2, f.3);
      backward =
          Backs-append 0 x xs (b ∷ []) (λ a i. ground (arith, ne_of_has a b (x ∷ xs))) h.backward
            (ground arith, tt);
      last = sym (last_from-append x b xs []);
      counted = ground (arith, h.counted, length-append (x ∷ xs) (b ∷ []));
    }

-- A list that is not empty gives its last element, and holds the others.
pub pop_back-Lists :
    (x : ℕ) (ds : List ℕ) {l : DoubleList}
    → Lists l (ds ++ x ∷ [])
    → ((pop_back l).0 ≡ x) × Lists (pop_back l).1 ds
unfolding pop_back
pop_back-Lists x [] {l} h =
    let f = h.forward in
    let b = h.backward in
    (
      ground arith,
      record {
        forward = ground arith;
        backward = tt;
        last = ground arith;
        counted = ground (arith, h.counted);
      },
    )
pop_back-Lists x (d ∷ es) {l} h =
    let (nx, out, _, after) = Links-distinct l.next l.first x (d ∷ es) [] h.forward in
    let b = Backs-rest l.prev 0 d es (x ∷ []) h.backward in
    let at_x : l.last ≡ x = h.last ∙ last_from-append d x es [] in
    let before : l.prev x ≡ last_from d es = b.0 in
    let in_list = last_from-has d es in
    let ne : last_from d es ≢ x = ne_of_has _ x (d ∷ es) in_list out in
    let np : last_from d es ≢ 0 =
      Links-ne_zero l.next l.first (last_from d es) (d ∷ es ++ x ∷ []) h.forward
        (ground (arith, in_list, has-append (last_from d es) (d ∷ es) (x ∷ []))) in
    let f = h.forward in
    (
      ground arith,
      record {
        forward = subst (Links _ _) (append-nil (d ∷ es)) (
            Links-past {next = l.next} _ d x es [] (ground (arith, after))
              (λ a n. ground (arith, after)) (ground arith, f.1, f.2, f.3));
        backward =
            Backs-frame 0 (d ∷ es) (λ a i. ground (arith, ne_of_has a x (d ∷ es)))
              (Backs-front l.prev 0 (d ∷ es) (x ∷ []) h.backward);
        last = ground arith;
        counted = ground (arith, h.counted, length-append (d ∷ es) (x ∷ []));
      },
    )
