-- ===== src/Mmal/DoubleList/Histories.antt =====
-- mmal/util/mmal_list.c refines a list: whole histories of pushes and pops at both ends.
use final.Base.{ℕ, ◌≡◌, ◌≢◌, refl, true, ◌==◌, ap, subst, false, List, [], ◌∷◌, ◌++◌, has}
use final.Base.Chains.{end_of}
use final.Mmal.DoubleList.{DoubleList, push_front, push_back, pop_front, pop_back}
use final.Mmal.DoubleList.Linked.{Lists}
use final.Mmal.DoubleList.Ends.{push_front-Lists, push_back-Lists, pop_front-Lists, pop_back-Lists}

pub data ListCall : Type 0 where
  pushes_front : ℕ → ListCall
  pushes_back : ℕ → ListCall
  pops_front : ListCall
  pops_back : ListCall

-- A call and what it returns; NULL stands for no result.
pub list_call : ListCall → DoubleList → ℕ × DoubleList
list_call (pushes_front b) l = (0, push_front b l)
list_call (pushes_back b) l = (0, push_back b l)
list_call pops_front l = pop_front l
list_call pops_back l = pop_back l

pub list_run : List ListCall → DoubleList → List ℕ × DoubleList
unfolding list_call
list_run [] l = ([], l)
list_run (c ∷ cs) l = let r = list_call c l in let rs = list_run cs r.1 in (r.0 ∷ rs.0, rs.1)

abbrev pub init : List ℕ → List ℕ
init [] = []
init (x ∷ []) = []
init (x ∷ y ∷ ys) = x ∷ init (y ∷ ys)

abbrev pub tail : List ℕ → List ℕ
tail [] = []
tail (x ∷ xs) = xs

abbrev pub head : List ℕ → ℕ
head [] = 0
head (x ∷ xs) = x

-- The specification: what each call returns and leaves of a list.
abbrev pub spec_list_call : ListCall → List ℕ → ℕ × List ℕ
spec_list_call (pushes_front b) xs = (0, b ∷ xs)
spec_list_call (pushes_back b) xs = (0, xs ++ b ∷ [])
spec_list_call pops_front xs = (head xs, tail xs)
spec_list_call pops_back xs = (end_of xs, init xs)

abbrev pub spec_list_run : List ListCall → List ℕ → List ℕ × List ℕ
spec_list_run [] xs = ([], xs)
spec_list_run (c ∷ cs) xs =
    let r = spec_list_call c xs in let rs = spec_list_run cs r.1 in (r.0 ∷ rs.0, rs.1)

-- No call pushes NULL, or an element that is in the list already.
abbrev pub IsAllowed : ListCall → List ℕ → Type 0
IsAllowed (pushes_front b) xs = (b ≢ 0) × (has b xs ≡ false)
IsAllowed (pushes_back b) xs = (b ≢ 0) × (has b xs ≡ false)
IsAllowed pops_front xs = Unit
IsAllowed pops_back xs = Unit

abbrev pub AreAllowed : List ListCall → List ℕ → Type 0
AreAllowed [] xs = Unit
AreAllowed (c ∷ cs) xs = IsAllowed c xs × AreAllowed cs (spec_list_call c xs).1

init-end_of : (x : ℕ) (xs : List ℕ) → x ∷ xs ≡ init (x ∷ xs) ++ end_of (x ∷ xs) ∷ []
init-end_of x [] = refl
init-end_of x (y ∷ ys) = ap (λ zs. x ∷ zs) (init-end_of y ys)

pop_empty : {l : DoubleList} → Lists l [] → (pop_front l ≡ (0, l)) × (pop_back l ≡ (0, l))
unfolding pop_front pop_back
pop_empty {l} h =
    let none_first : (l.first == 0) ≡ true = rw h.forward in
    let none_last : (l.last == 0) ≡ true = rw h.last in (rw none_first, rw none_last)

list_call-Lists :
    (c : ListCall) (xs : List ℕ) {l : DoubleList}
    → Lists l xs
    → IsAllowed c xs
    → ((list_call c l).0 ≡ (spec_list_call c xs).0)
      × Lists (list_call c l).1 (spec_list_call c xs).1
unfolding list_call
list_call-Lists (pushes_front b) xs h ok = (refl, push_front-Lists b xs h ok.0 ok.1)
list_call-Lists (pushes_back b) xs h ok = (refl, push_back-Lists b xs h ok.0 ok.1)
list_call-Lists pops_front [] h ok = rw (pop_empty h).0 (refl, h)
list_call-Lists pops_front (x ∷ xs) h ok = pop_front-Lists x xs h
list_call-Lists pops_back [] h ok = rw (pop_empty h).1 (refl, h)
list_call-Lists pops_back (x ∷ xs) {l} h ok =
    pop_back-Lists (end_of (x ∷ xs)) (init (x ∷ xs)) (subst (Lists l) (init-end_of x xs) h)

-- Every history of pushes and pops at both ends that pushes neither NULL nor an element of the list
-- returns what the same calls on a list of addresses return, and leaves a doubly linked list that
-- holds what they leave.
pub list_run-spec_list_run :
    (cs : List ListCall) (xs : List ℕ) {l : DoubleList}
    → Lists l xs
    → AreAllowed cs xs
    → ((list_run cs l).0 ≡ (spec_list_run cs xs).0)
      × Lists (list_run cs l).1 (spec_list_run cs xs).1
unfolding list_run list_call
list_run-spec_list_run [] xs h ok = (refl, h)
list_run-spec_list_run (c ∷ cs) xs {l} h ok =
    let (e, t) = list_call-Lists c xs h ok.0 in
    let (es, u) = list_run-spec_list_run cs (spec_list_call c xs).1 t ok.1 in (rw (e, es) refl, u)
