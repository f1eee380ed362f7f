-- ===== src/Shell/Words.antt =====
-- The words of a string, and what the inner loops of parse_args in src/kernel/shell.c make of them.
use kontol_os.Base.{
  ℕ, suc, ◌≡◌, refl, sym, ap, subst, ◌∙◌, inl, inr, true, false, List, [], ◌∷◌, ◌++◌, append-nil,
  append_assoc, arith, if◌then◌else◌, ◌==◌, drop, take, Bool-cases,
}
use kontol_os.CString.{CString, deref}
use kontol_os.CString.Compare.{text}
use kontol_os.Shell.{is_blank, blanks, word_length}

abbrev pub flush : List ℕ → List (List ℕ)
flush [] = []
flush (c ∷ s) = (c ∷ s) ∷ []

-- The words of `s`, up to its NUL, where `word` are the characters of a word that has begun.
abbrev pub split : List ℕ → CString → List (List ℕ)
split word [] = flush word
split word (c ∷ s) =
    let more = split (word ++ (c ∷ [])) s in
    let next = split [] s in
    if c == 0 then flush word else if is_blank c then flush word ++ next else more

abbrev pub words : CString → List (List ℕ)
words s = split [] s

pub words-blanks : (s : CString) → words s ≡ words (drop (blanks s) s)
unfolding blanks
words-blanks [] = refl
words-blanks (c ∷ s) = elim (Bool-cases (is_blank c)) [
  | inr other ↦
      let none_skipped : blanks (c ∷ s) ≡ 0 = rw other refl in
      ap (λ k. words (drop k (c ∷ s))) (sym none_skipped)
  | inl blank ↦
      let nonzero : (c == 0) ≡ false = ground arith in rw (blank, nonzero) (words-blanks s)
]

pub words-end : (s : CString) → (deref s == 0) ≡ true → words s ≡ []
words-end [] h = refl
words-end (c ∷ s) h = rw h refl

-- What stands behind the whitespace is no blank.
pub deref-blanks : (s : CString) → is_blank (deref (drop (blanks s) s)) ≡ false
unfolding blanks
deref-blanks [] = refl
deref-blanks (c ∷ s) = elim (Bool-cases (is_blank c)) [
  | inl blank ↦ rw blank (deref-blanks s)
  | inr other ↦ rw other other
]

-- The words if the one that has begun ends `k` characters on.
abbrev pub cut_at : List ℕ → ℕ → CString → List (List ℕ)
cut_at word k s =
    if deref (drop k s) == 0
    then flush (word ++ take k s)
    else flush (word ++ take k s) ++ words (drop (suc k) s)

-- The word at the start, and the words behind it.
pub split-word : (word : List ℕ) (s : CString) → split word s ≡ cut_at word (word_length s) s
unfolding word_length
split-word word [] = ap flush (sym (append-nil word))
split-word word (c ∷ s) = elim (Bool-cases (c == 0)) [
  | inl end ↦
      let k : word_length (c ∷ s) ≡ 0 = rw end refl in
      subst (λ k. split word (c ∷ s) ≡ cut_at word k (c ∷ s)) (sym k)
        (rw end (ap flush (sym (append-nil word))))
  | inr more ↦ elim (Bool-cases (is_blank c)) [
    | inl blank ↦
        let k : word_length (c ∷ s) ≡ 0 = rw (more, blank) refl in
        subst (λ k. split word (c ∷ s) ≡ cut_at word k (c ∷ s)) (sym k)
          (rw (more, blank) (ap (λ w. flush w ++ words s) (sym (append-nil word))))
    | inr other ↦
        let k : word_length (c ∷ s) ≡ suc (word_length s) = rw (more, other) refl in
        subst (λ k. split word (c ∷ s) ≡ cut_at word k (c ∷ s)) (sym k)
          (rw (more, other)
            (split-word (word ++ (c ∷ [])) s
              ∙ ap
                  (λ w.
                    if deref (drop (word_length s) s) == 0
                    then flush w
                    else flush w ++ words (drop (suc (word_length s)) s))
                  (append_assoc word (c ∷ []) (take (word_length s) s))))
  ]
]

-- The characters of the word are its text once a NUL stands behind it.
pub text-word : (s r : List ℕ) → text (take (word_length s) s ++ (0 ∷ r)) ≡ take (word_length s) s
unfolding word_length
text-word [] r = refl
text-word (c ∷ s) r = ground (arith, text-word s r)

pub text-last :
    (s : List ℕ) → (deref (drop (word_length s) s) == 0) ≡ true → text s ≡ take (word_length s) s
unfolding word_length
text-last [] h = refl
text-last (c ∷ s) h = ground (arith, text-last s)

-- A word is not empty where neither a blank nor the end stands.
pub word_length-pos :
    (s : List ℕ)
    → (deref s == 0) ≡ false
    → is_blank (deref s) ≡ false
    → (c : ℕ) × (w : List ℕ) × (take (word_length s) s ≡ c ∷ w)
unfolding word_length
word_length-pos [] h b = absurd (ground arith)
word_length-pos (c ∷ s) h b = (c, take (word_length s) s, rw (h, b) refl)
