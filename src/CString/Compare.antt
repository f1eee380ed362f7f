-- ===== src/CString/Compare.antt =====
-- What strcmp of src/lib/string.c decides.
use kontol_os.Base.{ℕ, ◌≡◌, ◌↔◌, refl, List, [], ◌∷◌, arith, if◌then◌else◌, ◌==◌, pos, length}
use kontol_os.CString.{CString, strlen, strcmp}

-- The characters in front of the NUL.
abbrev pub text : CString → List ℕ
text [] = []
text (c ∷ s) = if c == 0 then [] else c ∷ text s

pub length-text : (s : CString) → length (text s) ≡ strlen s
unfolding strlen
length-text [] = refl
length-text (c ∷ s) = ground (arith, length-text s)

text_of-strcmp : (s t : CString) → strcmp s t ≡ pos 0 → text s ≡ text t
unfolding strcmp
text_of-strcmp [] [] e = refl
text_of-strcmp [] (d ∷ t) e = ground arith
text_of-strcmp (c ∷ s) [] e = ground arith
text_of-strcmp (c ∷ s) (d ∷ t) e = ground (arith, text_of-strcmp s t)

strcmp_of-text : (s t : CString) → text s ≡ text t → strcmp s t ≡ pos 0
unfolding strcmp
strcmp_of-text [] [] e = refl
strcmp_of-text [] (d ∷ t) e = ground arith
strcmp_of-text (c ∷ s) [] e = ground arith
strcmp_of-text (c ∷ s) (d ∷ t) e = ground (arith, strcmp_of-text s t)

-- strcmp answers 0 exactly for strings with the same characters up to the first NUL.
pub strcmp_iff : (s t : CString) → (strcmp s t ≡ pos 0) ↔ (text s ≡ text t)
strcmp_iff s t = (text_of-strcmp s t, strcmp_of-text s t)
