-- ===== src/Vcos/SafeString/Truncation.antt =====
-- vcos_safe_strcpy and vcos_safe_vsprintf: what they write, and that they write the same.
use final.Base.{
  ℕ, zero, suc, ◌+◌, ◌-◌, ◌<◌, ◌≡◌, ◌≢◌, refl, sym, ap, ◌∙◌, true, false, some, List, [], ◌∷◌,
  arith, ◌==◌, ltb, length, get_elem?, update, min, not_zero, eq_self, ℕ_discrete, lt→ltb,
}
use final.Vcos.SafeString.{take, write_string, safe_vsprintf, copy_loop, safe_strcpy}

-- `n` bytes of the text stand at `at`, and a NUL behind them; no other byte has changed.
pub record Written (mem : ℕ → ℕ) (text : List ℕ) (at n : ℕ) (v : ℕ → ℕ) : Type 0 where
  pub bytes : (i : ℕ) → i < n → get_elem? text i ≡ some (v (at + i))
  pub nul : v (at + n) ≡ 0
  pub below : (a : ℕ) → a < at → v a ≡ mem a
  pub above : (a : ℕ) → at + n < a → v a ≡ mem a

-- The copy stops at the last byte of the buffer, as printing into its space does.
copy_loop-write_string :
    (src : List ℕ) (dst n : ℕ) (mem : ℕ → ℕ)
    → copy_loop src dst (dst + n) mem ≡ write_string (take n src) dst mem
unfolding copy_loop
copy_loop-write_string [] dst zero mem = refl
copy_loop-write_string [] dst (suc n) mem = refl
copy_loop-write_string (c ∷ cs) dst zero mem =
    let at_end : (dst == dst + 0) ≡ true = ground arith in rw at_end
copy_loop-write_string (c ∷ cs) dst (suc n) mem =
    let inside : (dst == dst + suc n) ≡ false = ground arith in
    let same : dst + suc n ≡ dst + 1 + n = omega arith in
    rw (inside, same) (copy_loop-write_string cs (dst + 1) n (update mem dst c))

copy_loop_fits :
    (dst dstlen offset : ℕ) (src : List ℕ) (mem : ℕ → ℕ)
    → offset < dstlen
    → copy_loop src (dst + offset) (dst + dstlen - 1) mem
      ≡ write_string (take (dstlen - offset - 1) src) (dst + offset) mem
copy_loop_fits dst dstlen offset src mem lt =
    let e : dst + dstlen - 1 ≡ dst + offset + (dstlen - offset - 1) = omega arith in
    rw e (copy_loop-write_string src (dst + offset) (dstlen - offset - 1) mem)

-- Copying a string to a buffer that is not NULL and printing it there give the same offset and leave
-- the same memory.
pub safe_strcpy-safe_vsprintf :
    (dst dstlen offset : ℕ) (src : List ℕ) (mem : ℕ → ℕ)
    → dst ≢ 0
    → safe_strcpy dst src dstlen offset mem ≡ safe_vsprintf dst dstlen offset src mem
unfolding safe_strcpy safe_vsprintf
safe_strcpy-safe_vsprintf dst dstlen offset src mem nz = elim (ℕ_discrete (dstlen - offset) 0) [
  | yes full ↦
      let outside : ltb offset dstlen ≡ false = ground arith in rw (outside, not_zero dst nz)
  | no room ↦
      let inside : ltb offset dstlen ≡ true = ground arith in
      let space : dstlen - offset ≡ suc (dstlen - offset - 1) = omega arith in
      rw (inside, not_zero dst nz, space)
        (ap (λ m. (offset + length src, m))
          (copy_loop_fits dst dstlen offset src mem (omega arith)))
]

Written-nil : (text : List ℕ) (at : ℕ) (mem : ℕ → ℕ) → Written mem text at 0 (update mem at 0)
Written-nil text at mem = record {
  bytes = λ i lt. absurd (omega arith);
  nul = ground arith;
  below = λ a lt. ground arith;
  above = λ a lt. ground arith;
}

Written-cons :
    (c : ℕ) (cs : List ℕ) (at n : ℕ) {mem v : ℕ → ℕ}
    → Written (update mem at c) cs (at + 1) n v
    → Written mem (c ∷ cs) at (suc n) v
Written-cons c cs at n {mem} {v} w = record {
  bytes = Written-bytes;
  nul = rw (next_to at n) w.nul;
  below = λ a lt. w.below a (omega arith) ∙ ground arith;
  above = λ a lt. w.above a (omega arith) ∙ ground arith;
}
  where
    next_to : (x i : ℕ) → x + suc i ≡ x + 1 + i
    next_to x i = omega arith

    same_place : (x : ℕ) → x + 0 ≡ x
    same_place x = omega arith

    Written-bytes : (i : ℕ) → i < suc n → get_elem? (c ∷ cs) i ≡ some (v (at + i))
    Written-bytes zero lt =
        rw (same_place at, w.below at (omega arith)) (ap some (sym (update_self at)))
      where
        update_self : (x : ℕ) → update mem x c x ≡ c
        update_self x = rw (eq_self x)
    Written-bytes (suc i) lt = rw (next_to at i) (w.bytes i (omega arith))

write_string-Written :
    (text : List ℕ) (at n : ℕ) (mem : ℕ → ℕ)
    → Written mem text at (min (length text) n) (write_string (take n text) at mem)
write_string-Written [] at zero mem = Written-nil [] at mem
write_string-Written [] at (suc n) mem =
    let none_fits : min 0 (suc n) ≡ 0 = omega arith in rw none_fits (Written-nil [] at mem)
write_string-Written (c ∷ cs) at zero mem =
    let none_fits : min (suc (length cs)) 0 ≡ 0 = omega arith in
    rw none_fits (Written-nil (c ∷ cs) at mem)
write_string-Written (c ∷ cs) at (suc n) mem =
    let one_more : min (suc (length cs)) (suc n) ≡ suc (min (length cs) n) = omega arith in
    rw one_more (Written-cons c cs at _ (write_string-Written cs (at + 1) n (update mem at c)))

-- Where the offset is inside a buffer, the copy writes as many bytes of the string as leave room for
-- the NUL, and the NUL behind them, inside the buffer, and no other byte; the result is the offset
-- behind the whole string.
pub safe_strcpy-Written :
    (dst dstlen offset : ℕ) (src : List ℕ) (mem : ℕ → ℕ)
    → offset < dstlen
    → Written mem src
        (dst + offset)
        (min (length src) (dstlen - offset - 1))
        (safe_strcpy dst src dstlen offset mem).1
      × ((safe_strcpy dst src dstlen offset mem).0 ≡ offset + length src)
unfolding safe_strcpy
safe_strcpy-Written dst dstlen offset src mem lt = (
  rw (lt→ltb offset dstlen lt, copy_loop_fits dst dstlen offset src mem lt)
      (write_string-Written src (dst + offset) (dstlen - offset - 1) mem),
  refl,
)
