-- ===== src/Ramfs/Store.antt =====
-- The names that src/fs/ramfs.c stores in its arrays of 32 bytes.
use kontol_os.Base.{
  ℕ, zero, suc, ◌-◌, ◌≤◌, ◌<◌, ◌≡◌, refl, sym, ap, ◌∙◌, some, List, [], ◌∷◌, ◌++◌, arith, set,
  length, take, drop, replicate, length-set, length-append, length-replicate, length-drop,
}
use native.Mathlib.Decide.{dec_lt}
use kontol_os.CString.{CString, strlen}
use kontol_os.CString.Compare.{text, length-text}
use kontol_os.CString.Copy.{strncpy-short, strncpy-long}
use kontol_os.Ramfs.{fs_max_filename, store_name}

-- The NUL behind the characters of `s` ends the text, whatever follows.
pub text-append : (s r : CString) → text (text s ++ (0 ∷ r)) ≡ text s
text-append [] r = refl
text-append (c ∷ s) r = ground (arith, text-append s r)

-- Writing a NUL at or behind the end of the text keeps the text.
text-set : (b : CString) (k : ℕ) → strlen b ≤ k → text (set b k 0) ≡ text b
unfolding strlen
text-set [] k h = refl
text-set (c ∷ b) zero h = ground arith
text-set (c ∷ b) (suc k) h = ground (arith, text-set b k)

strlen-append : (s r : CString) → strlen (text s ++ (0 ∷ r)) ≡ strlen s
strlen-append s r =
    sym (length-text (text s ++ (0 ∷ r))) ∙ ap length (text-append s r) ∙ length-text s

set-append : (xs ys : List ℕ) (v : ℕ) → set (xs ++ ys) (length xs) v ≡ xs ++ set ys 0 v
set-append [] ys v = refl
set-append (x ∷ xs) ys v = ap (λ zs. x ∷ zs) (set-append xs ys v)

take_all : (xs : List ℕ) → take (length xs) xs ≡ xs
take_all [] = refl
take_all (x ∷ xs) = ap (λ ys. x ∷ ys) (take_all xs)

-- The array that `strncpy` and the write behind it leave: 32 bytes that read as the name.
pub record Stored (name : CString) (b : List ℕ) : Type 0 where
  pub same : text b ≡ text name
  pub size : length b ≡ fs_max_filename

store-short :
    (buffer : List ℕ) (name : CString)
    → length buffer ≡ fs_max_filename
    → strlen name < 31
    → (b : List ℕ) × (store_name buffer name ≡ some b) × Stored name b
unfolding store_name
store-short buffer name size short =
    let zeros : suc 31 - strlen name ≡ suc (31 - strlen name) = omega arith in
    let r : List ℕ = replicate (31 - strlen name) 0 ++ drop 32 buffer in
    (
      set (text name ++ (0 ∷ r)) 31 0,
      rw (strncpy-short buffer name 31 short (omega arith), zeros),
      record {
        same =
            text-set (text name ++ (0 ∷ r)) 31 (omega (arith, strlen-append name r))
            ∙ text-append name r;
        size = rw (length-set (text name ++ (0 ∷ r)) 31 0) (
            omega (
              arith,
              length-append (text name) (0 ∷ r),
              length-append (replicate (31 - strlen name) 0) (drop 32 buffer),
              length-replicate {A = ℕ} (31 - strlen name) 0,
              length-drop 32 buffer,
              length-text name,
            ));
      },
    )

set-first : (ys : List ℕ) → 0 < length ys → set ys 0 0 ≡ 0 ∷ drop 1 ys
set-first [] h = absurd (omega arith)
set-first (y ∷ ys) h = refl

store-long :
    (buffer : List ℕ) (name : CString)
    → length buffer ≡ fs_max_filename
    → strlen name ≡ 31
    → (b : List ℕ) × (store_name buffer name ≡ some b) × Stored name b
unfolding store_name
store-long buffer name size long =
    let whole : take 31 (text name) ≡ text name =
      ap (λ k. take k (text name)) (sym (length-text name ∙ long)) ∙ take_all (text name) in
    let end : set (text name ++ drop 31 buffer) 31 0 ≡ text name ++ (0 ∷ drop 1 (drop 31 buffer)) =
      ap (λ k. set (text name ++ drop 31 buffer) k 0) (sym (length-text name ∙ long))
      ∙ set-append (text name) (drop 31 buffer) 0
      ∙ ap (λ r. text name ++ r)
          (set-first (drop 31 buffer) (omega (arith, length-drop 31 buffer))) in
    (
      text name ++ (0 ∷ drop 1 (drop 31 buffer)),
      rw (strncpy-long buffer name 31 (omega arith) (omega arith), whole) (ap some end),
      record {
        same = text-append name (drop 1 (drop 31 buffer));
        size = omega (
          arith,
          length-append (text name) (0 ∷ drop 1 (drop 31 buffer)),
          length-drop 1 (drop 31 buffer),
          length-drop 31 buffer,
          length-text name,
        );
      },
    )

-- A valid name is stored whole in an array of 32 bytes, and no byte is written outside it.
pub store_name-Stored :
    (buffer : List ℕ) (name : CString)
    → length buffer ≡ fs_max_filename
    → strlen name < fs_max_filename
    → (b : List ℕ) × (store_name buffer name ≡ some b) × Stored name b
store_name-Stored buffer name size short = elim (dec_lt (strlen name) 31) [
  | yes less ↦ store-short buffer name size less
  | no full ↦ store-long buffer name size (omega arith)
]

pub strlen-Stored : {name : CString} {b : List ℕ} → Stored name b → strlen b ≡ strlen name
strlen-Stored {name} {b} st = sym (length-text b) ∙ ap length st.same ∙ length-text name
