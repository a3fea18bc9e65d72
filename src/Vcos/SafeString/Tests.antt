-- ===== src/Vcos/SafeString/Tests.antt =====
-- Four characters into a buffer of three bytes at 10.
use final.Base.{ℕ, ◌≡◌, List, [], ◌∷◌, arith}
use final.Vcos.SafeString.{safe_strcpy, safe_vsprintf}
use final.Vcos.SafeString.Truncation.{Written, safe_strcpy-safe_vsprintf, safe_strcpy-Written}

abbrev word : List ℕ
word = 65 ∷ 66 ∷ 67 ∷ 68 ∷ []

abbrev blank : ℕ → ℕ
blank a = 32

safe_strcpy-safe_vsprintf_example : safe_strcpy 10 word 3 0 blank ≡ safe_vsprintf 10 3 0 word blank
safe_strcpy-safe_vsprintf_example = safe_strcpy-safe_vsprintf 10 3 0 word blank (ground arith)

safe_strcpy-Written_example :
    Written blank word 10 2 (safe_strcpy 10 word 3 0 blank).1
    × ((safe_strcpy 10 word 3 0 blank).0 ≡ 4)
safe_strcpy-Written_example = safe_strcpy-Written 10 3 0 word blank (omega arith)
