-- ===== src/CString/Tests.antt =====
-- The string functions of src/lib/string.c at concrete inputs.
use kontol_os.Base.{ℕ, ◌≡◌, refl, none, some, List, [], ◌∷◌, arith, negsuc, pos, replicate}
use mathlib.Core.Option
use kontol_os.CString.{CString, strlen, strncpy, strstr, strrchr, strchr}
use kontol_os.CString.Number.{itoa, put_number, write_at, write_digits, digit_char, swap_ends, atoi}
use kontol_os.CString.Round.{atoi-itoa}
use kontol_os.CString.Copy.{strncpy-overrun}

-- "ab", with bytes behind its NUL.
abbrev ab : CString
ab = b'a' ∷ b'b' ∷ 0 ∷ b'x' ∷ []

abbrev six : List ℕ
six = 9 ∷ 9 ∷ 9 ∷ 9 ∷ 9 ∷ 9 ∷ []

strncpy-overrun_example : strncpy six ab 6 ≡ none
unfolding strlen
strncpy-overrun_example = strncpy-overrun six ab 6 (omega arith) (omega arith)

-- The zeros of strncpy reach one byte beyond `n`.
strncpy_writes : strncpy six ab 4 ≡ some (b'a' ∷ b'b' ∷ 0 ∷ 0 ∷ 0 ∷ 9 ∷ [])
unfolding strncpy
strncpy_writes = refl

search_results :
    (strstr (b'c' ∷ b'a' ∷ b'b' ∷ []) ab ≡ some 1)
    × (strrchr (b'a' ∷ b'b' ∷ b'a' ∷ []) b'a' ≡ some 2)
    × (strchr ab 0 ≡ some 2)
unfolding strstr strrchr strchr
search_results = (refl, refl, refl)

atoi-itoa_example :
    (s : List ℕ) × (itoa (negsuc 41) (replicate 12 9) 10 ≡ some s) × (atoi s ≡ negsuc 41)
atoi-itoa_example = atoi-itoa (negsuc 41) (replicate 12 9) (omega arith) (omega arith)

itoa_hex : itoa (pos 255) (9 ∷ 9 ∷ 9 ∷ []) 16 ≡ some (b'f' ∷ b'f' ∷ 0 ∷ [])
unfolding itoa put_number write_at write_digits digit_char swap_ends Option.bind
itoa_hex = refl

-- The array is too short for the NUL.
itoa_overrun : itoa (pos 255) (9 ∷ 9 ∷ []) 16 ≡ none
unfolding itoa put_number write_at write_digits digit_char swap_ends Option.bind
itoa_overrun = refl
