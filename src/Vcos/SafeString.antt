-- ===== src/Vcos/SafeString.antt =====
-- vcos/generic/vcos_generic_safe_string.c: strings that are copied and printed into a buffer of a
-- given length. Memory is a map from addresses to bytes, and a C string is the list of its bytes
-- before the NUL. Buffers lie below the end of the address space, and no sum here wraps around.
pub mod Truncation
pub mod Tests
use final.Base.{ℕ, zero, suc, ◌+◌, ◌-◌, List, [], ◌∷◌, ◌==◌, ltb, if◌then◌else◌, length, update}

-- The first `n` elements.
abbrev pub take : ℕ → List ℕ → List ℕ
take zero xs = []
take (suc n) [] = []
take (suc n) (x ∷ xs) = x ∷ take n xs

-- The bytes of a string from `at` on, and a NUL.
abbrev pub write_string : List ℕ → (at : ℕ) → (ℕ → ℕ) → ℕ → ℕ
write_string [] at mem = update mem at 0
write_string (c ∷ cs) at mem = write_string cs (at + 1) (update mem at c)

-- What vsnprintf of the C library does with the text that the format and its arguments give, whose
-- length is one that the int it returns can hold.
abbrev pub vsnprintf : (text : List ℕ) (at space : ℕ) → (ℕ → ℕ) → ℕ → ℕ
vsnprintf text at zero mem = mem
vsnprintf text at (suc n) mem = write_string (take n text) at mem

-- vcos_safe_vsprintf, and vcos_safe_sprintf, which differs in how the arguments arrive. A NULL buffer
-- comes with no space. The result is the new offset.
pub safe_vsprintf : (buf buflen offset : ℕ) (text : List ℕ) → (ℕ → ℕ) → ℕ × (ℕ → ℕ)
safe_vsprintf buf buflen offset text mem =
    let space = if ltb offset buflen then buflen - offset else 0 in
    (offset + length text, if buf == 0 then mem else vsnprintf text (buf + offset) space mem)

-- The loop of vcos_safe_strcpy, and the NUL behind it.
pub copy_loop : List ℕ → (dst endp : ℕ) → (ℕ → ℕ) → ℕ → ℕ
copy_loop [] dst endp mem = update mem dst 0
copy_loop (c ∷ cs) dst endp mem =
    let rest = copy_loop cs (dst + 1) endp (update mem dst c) in
    if dst == endp then update mem dst 0 else rest

pub safe_strcpy : (dst : ℕ) (src : List ℕ) (dstlen offset : ℕ) → (ℕ → ℕ) → ℕ × (ℕ → ℕ)
safe_strcpy dst src dstlen offset mem = (
  offset + length src,
  if ltb offset dstlen then copy_loop src (dst + offset) (dst + dstlen - 1) mem else mem,
)
