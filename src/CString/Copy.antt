-- ===== src/CString/Copy.antt =====
-- What the copying functions of src/lib/string.c write, and when they run past the target.
use kontol_os.Base.{
  ℕ, zero, suc, ◌+◌, ◌-◌, ◌≤◌, ◌<◌, ◌≡◌, refl, ap, none, some, List, [], ◌∷◌, ◌++◌, arith, ◌==◌,
  length, take, drop, replicate, Bool-cases, inl, inr,
}
use kontol_os.CString.{CString, strlen, strcpy, strncpy, strcat, pad}
use kontol_os.CString.Compare.{text}

-- A target with room for the string and its NUL receives both, and keeps what lies behind.
pub strcpy_lem :
    (d : List ℕ) (s : CString)
    → strlen s < length d
    → strcpy d s ≡ some (text s ++ (0 ∷ drop (suc (strlen s)) d))
unfolding strcpy strlen
strcpy_lem [] s h = absurd (omega arith)
strcpy_lem (x ∷ d) [] h = refl
strcpy_lem (x ∷ d) (c ∷ s) h = elim (Bool-cases (c == 0)) [
  | inl end ↦ rw end
  | inr more ↦ rw (more, strcpy_lem d s (ground arith))
]

-- Any other target is written past its end.
pub strcpy_overrun : (d : List ℕ) (s : CString) → length d ≤ strlen s → strcpy d s ≡ none
unfolding strcpy strlen
strcpy_overrun [] s h = refl
strcpy_overrun (x ∷ d) [] h = absurd (omega arith)
strcpy_overrun (x ∷ d) (c ∷ s) h = ground (arith, strcpy_overrun d s)

pad_lem : (d : List ℕ) (n : ℕ) → n ≤ length d → pad d n ≡ some (replicate n 0 ++ drop n d)
unfolding pad
pad_lem d zero h = refl
pad_lem [] (suc n) h = absurd (omega arith)
pad_lem (x ∷ d) (suc n) h = rw (pad_lem d n (omega arith))

pad_overrun : (d : List ℕ) (n : ℕ) → length d < n → pad d n ≡ none
unfolding pad
pad_overrun d zero h = absurd (omega arith)
pad_overrun [] (suc n) h = refl
pad_overrun (x ∷ d) (suc n) h = rw (pad_overrun d n (omega arith))

-- A string shorter than `n`: its characters, and zeros up to the byte `n` included, which is one byte
-- more than `n`.
pub strncpy-short :
    (d : List ℕ) (s : CString) (n : ℕ)
    → strlen s < n
    → n < length d
    → strncpy d s n ≡ some (text s ++ (replicate (suc n - strlen s) 0 ++ drop (suc n) d))
unfolding strncpy strlen
strncpy-short d s zero h room = absurd (omega arith)
strncpy-short [] s (suc n) h room = absurd (omega arith)
strncpy-short (x ∷ d) [] (suc n) h room =
    let whole : suc (suc n) - 0 ≡ suc (suc n) = omega arith in
    rw (whole, pad_lem d (suc n) (omega arith))
strncpy-short (x ∷ d) (c ∷ s) (suc n) h room = elim (Bool-cases (c == 0)) [
  | inl end ↦
      let whole : suc (suc n) - 0 ≡ suc (suc n) = omega arith in
      rw (end, whole, pad_lem d (suc n) (omega arith))
  | inr more ↦
      let less : suc (suc n) - suc (strlen s) ≡ suc n - strlen s = omega arith in
      rw (more, less, strncpy-short d s n (ground arith) (omega arith))
]

-- A string of `n` characters or more: the first `n`, with no NUL.
pub strncpy-long :
    (d : List ℕ) (s : CString) (n : ℕ)
    → n ≤ strlen s
    → n ≤ length d
    → strncpy d s n ≡ some (take n (text s) ++ drop n d)
unfolding strncpy strlen
strncpy-long d s zero h room = refl
strncpy-long [] s (suc n) h room = absurd (omega arith)
strncpy-long (x ∷ d) [] (suc n) h room = absurd (omega arith)
strncpy-long (x ∷ d) (c ∷ s) (suc n) h room = elim (Bool-cases (c == 0)) [
  | inl end ↦ absurd (ground arith)
  | inr more ↦ rw (more, strncpy-long d s n (ground arith) (omega arith))
]

-- strncpy of a string shorter than `n` to an array of no more than `n` bytes writes past its end.
pub strncpy-overrun :
    (d : List ℕ) (s : CString) (n : ℕ) → strlen s < n → length d ≤ n → strncpy d s n ≡ none
unfolding strncpy strlen
strncpy-overrun d s zero h room = absurd (omega arith)
strncpy-overrun [] s (suc n) h room = refl
strncpy-overrun (x ∷ d) [] (suc n) h room = rw (pad_overrun d (suc n) (omega arith))
strncpy-overrun (x ∷ d) (c ∷ s) (suc n) h room =
    ground (arith, pad_overrun d (suc n), strncpy-overrun d s n)

-- A target that holds a string, with room for both: the characters of both, then the NUL.
pub strcat_lem :
    (d : List ℕ) (s : CString)
    → strlen d + strlen s < length d
    → strcat d s ≡ some (text d ++ (text s ++ (0 ∷ drop (suc (strlen d + strlen s)) d)))
unfolding strcat strlen
strcat_lem [] s h = absurd (omega arith)
strcat_lem (x ∷ d) s h = elim (Bool-cases (x == 0)) [
  | inl end ↦
      rw (end, strcpy_lem (x ∷ d) s (ground arith))
        (ap (λ k. some (text s ++ (0 ∷ drop k d))) (omega arith))
  | inr more ↦
      rw (more, strcat_lem d s (ground arith))
        (ap (λ k. some (x ∷ (text d ++ (text s ++ (0 ∷ drop k d))))) {x = suc (strlen d + strlen s)}
          (omega arith))
]

-- Without that room strcat runs past the target.
pub strcat_overrun : (d : List ℕ) (s : CString) → length d ≤ strlen d + strlen s → strcat d s ≡ none
unfolding strcat strlen
strcat_overrun [] s h = refl
strcat_overrun (x ∷ d) s h = elim (Bool-cases (x == 0)) [
  | inl end ↦ rw (end, strcpy_overrun (x ∷ d) s (ground arith))
  | inr more ↦ rw (more, strcat_overrun d s (ground arith))
]
