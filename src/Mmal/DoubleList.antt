-- ===== src/Mmal/DoubleList.antt =====
-- mmal/util/mmal_list.c: a doubly linked list of elements that their owners embed it in.
-- An element's address stands for it, and NULL is 0. The mutex makes every function one step, but for
-- insert, which gives it up before it pushes.
pub mod Linked
pub mod Ends
pub mod Insert
pub mod Histories
pub mod Tests
use final.Base.{
  ℕ, zero, suc, ◌+◌, ◌%◌, ◌^◌, Bool, true, false, Option, none, some, ◌==◌, if◌then◌else◌, update,
}

-- MMAL_LIST_T, and the links of the elements in memory.
pub record DoubleList : Type 0 where
  pub first : ℕ
  pub last : ℕ
  pub length : ℕ
  pub next : ℕ → ℕ
  pub prev : ℕ → ℕ

-- What mmal_list_create makes, if it gets memory and a mutex.
abbrev pub empty_list : DoubleList → DoubleList
empty_list l = record l { first = 0; last = 0; length = 0 }

pub create : (mem : ℕ) (mutex_ok : Bool) → DoubleList → ℕ × DoubleList
create mem mutex_ok l =
    if mem == 0 then (0, l) else if mutex_ok then (mem, empty_list l) else (0, l)

abbrev less : ℕ → ℕ
less n = (n + 0xffff_ffff) % 2 ^ 32

abbrev more : ℕ → ℕ
more n = (n + 1) % 2 ^ 32

abbrev clear : ℕ → DoubleList → DoubleList
clear x l = record l { prev = update l.prev x 0; next = update l.next x 0 }

pub pop_back : DoubleList → ℕ × DoubleList
pop_back l =
    let x = l.last in
    let p = l.prev x in
    let l₁ = record l { length = less l.length; last = p } in
    let l₂ = if p == 0 then record l₁ { first = 0 } else record l₁ { next = update l.next p 0 } in
    if x == 0 then (0, l) else (x, clear x l₂)

pub pop_front : DoubleList → ℕ × DoubleList
pop_front l =
    let x = l.first in
    let n = l.next x in
    let l₁ = record l { length = less l.length; first = n } in
    let l₂ = if n == 0 then record l₁ { last = 0 } else record l₁ { prev = update l.prev n 0 } in
    if x == 0 then (0, l) else (x, clear x l₂)

pub push_front : ℕ → DoubleList → DoubleList
push_front b l =
    let l₁ = record l {
      length = more l.length;
      prev = update l.prev b 0;
      next = update l.next b l.first;
    } in
    let l₂ =
      if l₁.first == 0
      then record l₁ { last = b }
      else record l₁ { prev = update l₁.prev l₁.first b } in
    record l₂ { first = b }

pub push_back : ℕ → DoubleList → DoubleList
push_back b l =
    let l₁ = record l {
      length = more l.length;
      next = update l.next b 0;
      prev = update l.prev b l.last;
    } in
    let l₂ =
      if l₁.last == 0
      then record l₁ { first = b }
      else record l₁ { next = update l₁.next l₁.last b } in
    record l₂ { last = b }

-- The slot in front of `cur` is found; `compare` is the client's function.
abbrev pub insert_before : ℕ → ℕ → DoubleList → DoubleList
insert_before b cur l =
    let l₁ = record l { length = more l.length } in
    let l₂ =
      if cur == l₁.first
      then record l₁ { first = b }
      else record l₁ { next = update l₁.next (l₁.prev cur) b } in
    let l₃ = record l₂ { prev = update l₂.prev b (l₂.prev cur); next = update l₂.next b cur } in
    record l₃ { prev = update l₃.prev cur b }

module _ (compare : ℕ → ℕ → Bool) where
  insert_round :
      (ends found : Bool) (rest : DoubleList → Option DoubleList) (b cur : ℕ)
      → DoubleList
      → Option DoubleList
  insert_round true found rest b cur l = some (push_back b l)
  insert_round false true rest b cur l = some (insert_before b cur l)
  insert_round false false rest b cur l = rest l

  -- The loop, from the element `cur` on; the fuel is one more than there are elements.
  insert_walk : ℕ → (b cur : ℕ) → DoubleList → Option DoubleList
  insert_walk zero b cur l = none
  insert_walk (suc fuel) b cur l =
      insert_round (cur == 0) (compare b cur) (insert_walk fuel b (l.next cur)) b cur l

  pub insert : ℕ → (b : ℕ) → DoubleList → Option DoubleList
  insert fuel b l = if l.first == 0 then some (push_front b l) else insert_walk fuel b l.first l
