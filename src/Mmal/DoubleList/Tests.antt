-- ===== src/Mmal/DoubleList/Tests.antt =====
-- The doubly linked list at concrete inputs.
use final.Base.{◌≡◌, refl, List, [], ◌∷◌, arith, ltb, Yields, ◌==◌, if◌then◌else◌}
use final.Mmal.DoubleList.{DoubleList, insert}
use final.Mmal.DoubleList.Linked.{Lists}
use final.Mmal.DoubleList.Insert.{IsOrdered, insert-IsOrdered}
use final.Mmal.DoubleList.Histories.{
  ListCall, pushes_front, pushes_back, pops_front, pops_back, list_run, list_run-spec_list_run,
}

abbrev no_elements : DoubleList
no_elements = record { first = 0; last = 0; length = 0; next = λ _. 0; prev = λ _. 0 }

no_elements-Lists : Lists no_elements []
no_elements-Lists = record { forward = refl; backward = tt; last = refl; counted = refl }

abbrev calls : List ListCall
calls = pushes_front 8 ∷ pushes_back 16 ∷ pushes_front 24 ∷ pops_back ∷ pops_front ∷ []

list_run-spec_list_run_example :
    ((list_run calls no_elements).0 ≡ 0 ∷ 0 ∷ 0 ∷ 16 ∷ 24 ∷ [])
    × Lists (list_run calls no_elements).1 (8 ∷ [])
list_run-spec_list_run_example =
    list_run-spec_list_run calls [] no_elements-Lists
      ((ground arith, refl), ((ground arith, refl), ((ground arith, refl), (tt, (tt, tt)))))

-- Two elements, ordered by their addresses.
abbrev two_elements : DoubleList
two_elements = record {
  first = 8;
  last = 24;
  length = 2;
  next = λ a. if a == 8 then 24 else 0;
  prev = λ a. if a == 24 then 8 else 0;
}

two_elements-Lists : Lists two_elements (8 ∷ 24 ∷ [])
two_elements-Lists = record {
  forward = (refl, ground arith, refl, (refl, ground arith, refl, refl));
  backward = (refl, (refl, tt));
  last = refl;
  counted = refl;
}

insert-IsOrdered_example :
    Yields
      (λ v. Lists v (8 ∷ 16 ∷ 24 ∷ []) × IsOrdered ltb (8 ∷ 16 ∷ 24 ∷ []))
      (insert ltb 3 16 two_elements)
insert-IsOrdered_example =
    insert-IsOrdered ltb 3 16 (8 ∷ 24 ∷ []) (omega arith) two_elements-Lists (ground arith) refl
      (λ x y lt. ground arith) (refl, (tt, tt))
