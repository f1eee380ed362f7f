-- ===== src/Shell/Parse.antt =====
-- parse_args of src/kernel/shell.c finds the words of the line.
use kontol_os.Base.{
  drop-append, ℕ, zero, suc, ◌+◌, ◌≡◌, refl, sym, ap, ap₂, subst, ◌∙◌, inl, inr, true, false, not,
  List, [], ◌∷◌, ◌++◌, append_assoc, arith, if◌then◌else◌, ◌==◌, drop, take, length, length-append,
  length-set, set, Bool-cases,
}
use kontol_os.CString.{deref}
use kontol_os.CString.Compare.{text}
use kontol_os.Shell.{is_blank, blanks, word_length, with_arg, parse_from, parse_args}
use kontol_os.Shell.Words.{
  words, words-blanks, words-end, deref-blanks, split-word, text-word, text-last, word_length-pos,
}

-- What the arguments read as in the line.
abbrev pub texts : List ℕ → List ℕ → List (List ℕ)
texts [] line = []
texts (a ∷ argv) line = text (drop a line) ∷ texts argv line

drop-length : (pre s : List ℕ) → drop (length pre) (pre ++ s) ≡ s
drop-length [] s = refl
drop-length (x ∷ pre) s = drop-length pre s

take-drop : (k : ℕ) (s : List ℕ) → take k s ++ drop k s ≡ s
take-drop zero s = refl
take-drop (suc k) [] = refl
take-drop (suc k) (x ∷ s) = ap (x ∷◌) (take-drop k s)

-- Where a byte stands, the string is cut in front of it and behind it.
set-drop :
    (k : ℕ) (s : List ℕ)
    → (deref (drop k s) == 0) ≡ false
    → set s k 0 ≡ take k s ++ (0 ∷ drop (suc k) s)
set-drop zero [] h = absurd (ground arith)
set-drop zero (x ∷ s) h = refl
set-drop (suc k) [] h = absurd (ground arith)
set-drop (suc k) (x ∷ s) h = ap (x ∷◌) (set-drop k s h)

set-append : (pre s : List ℕ) (k : ℕ) → set (pre ++ s) (length pre + k) 0 ≡ pre ++ set s k 0
set-append [] s k = ap (λ j. set s j 0) (omega arith)
set-append (x ∷ pre) s k =
    let at : suc (length pre) + k ≡ suc (length pre + k) = omega arith in
    ap (λ j. set (x ∷ (pre ++ s)) j 0) at ∙ ap (x ∷◌) (set-append pre s k)

length-take-drop : (k : ℕ) (s : List ℕ) → (deref (drop k s) == 0) ≡ false → length (take k s) ≡ k
length-take-drop zero s h = refl
length-take-drop (suc k) [] h = absurd (ground arith)
length-take-drop (suc k) (x ∷ s) h = ap suc (length-take-drop k s h)

-- The loop on the part of the line behind `pre`, which it leaves alone.
abbrev Parses : ℕ → List ℕ → List ℕ → List ℕ × List ℕ → Type 0
Parses left pre s r =
    (s' : List ℕ) × (r.1 ≡ pre ++ s')
    × (length s' ≡ length s)
    × (texts r.0 r.1 ≡ take left (words s))

parse_from-end :
    (left p : ℕ) (line : List ℕ)
    → (deref (drop p line) == 0) ≡ true
    → parse_from left p line ≡ ([], line)
unfolding parse_from
parse_from-end zero p line h = refl
parse_from-end (suc left) p line h = rw h refl

-- The rest of a round, from the start `a` of an argument on.
abbrev word_round : ℕ → ℕ → ℕ → List ℕ → List ℕ × List ℕ
word_round left a n line = with_arg a (
    if not (deref (drop (a + n) line) == 0)
    then parse_from left (a + n + 1) (set line (a + n) 0)
    else parse_from left (a + n) line)

parse_from-round :
    (left p : ℕ) (line s w : List ℕ)
    → drop p line ≡ s
    → drop (p + blanks s) line ≡ w
    → (deref s == 0) ≡ false
    → (deref w == 0) ≡ false
    → parse_from (suc left) p line ≡ word_round left (p + blanks s) (word_length w) line
unfolding parse_from
parse_from-round left p line s w here there more word = rw (here, there, more, word) refl

take-nil : (k : ℕ) → take {A = List ℕ} k [] ≡ []
take-nil zero = refl
take-nil (suc k) = refl

module _ (left : ℕ)
    (ih : (pre s : List ℕ) → Parses left pre s (parse_from left (length pre) (pre ++ s)))
    (pre w : List ℕ) (more : (deref w == 0) ≡ false) (word : is_blank (deref w) ≡ false) where
  n : ℕ
  n = word_length w

  last_word :
      (deref (drop n w) == 0) ≡ true
      → Parses (suc left) pre w (word_round left (length pre) n (pre ++ w))
  unfolding n
  last_word end =
      let (c, t, shape) = word_length-pos w more word in
      let stop : (deref (drop (length pre + n) (pre ++ w)) == 0) ≡ true =
        ap (λ u. deref u == 0) (drop-append pre w n) ∙ end in
      let run : word_round left (length pre) n (pre ++ w) ≡ (length pre ∷ [], pre ++ w) =
        rw stop
          (ap (with_arg (length pre)) (parse_from-end left (length pre + n) (pre ++ w) stop)) in
      let one : words w ≡ take n w ∷ [] = split-word [] w ∙ rw (end, shape) refl in
      subst (Parses (suc left) pre w) (sym run) (
        w,
        refl,
        refl,
        ap (λ u. text u ∷ []) (drop-length pre w)
            ∙ ap (λ u. u ∷ []) (text-last w end)
            ∙ ap (take n w ∷◌) (sym (take-nil left))
            ∙ ap (take (suc left)) (sym one),
      )

  next_word :
      (deref (drop n w) == 0) ≡ false
      → Parses (suc left) pre w (word_round left (length pre) n (pre ++ w))
  unfolding n
  next_word goes =
      let (c, t, shape) = word_length-pos w more word in
      let on : (deref (drop (length pre + n) (pre ++ w)) == 0) ≡ false =
        ap (λ u. deref u == 0) (drop-append pre w n) ∙ goes in
      let rest = drop (suc n) w in
      let pre' = pre ++ (take n w ++ (0 ∷ [])) in
      let joined : (r : List ℕ) → pre' ++ r ≡ pre ++ (take n w ++ (0 ∷ r)) = λ r.
        append_assoc pre (take n w ++ (0 ∷ [])) r
        ∙ ap (pre ++◌) (append_assoc (take n w) (0 ∷ []) r) in
      let cut : set (pre ++ w) (length pre + n) 0 ≡ pre' ++ rest =
        set-append pre w n ∙ ap (pre ++◌) (set-drop n w goes) ∙ sym (joined rest) in
      let len : length pre + n + 1 ≡ length pre' = omega (
        arith,
        length-append pre (take n w ++ (0 ∷ [])),
        length-append (take n w) (0 ∷ []),
        length-take-drop n w goes,
      ) in
      let run : word_round left (length pre) n (pre ++ w)
          ≡ with_arg (length pre) (parse_from left (length pre') (pre' ++ rest)) =
        rw on (ap₂ (λ p l. with_arg (length pre) (parse_from left p l)) len cut) in
      let (s'', out, size, found) = ih pre' rest in
      let split : words w ≡ take n w ∷ words rest = split-word [] w ∙ rw (goes, shape) refl in
      subst (Parses (suc left) pre w) (sym run) (
        take n w ++ (0 ∷ s''),
        out ∙ joined s'',
        omega (
          arith,
          length-append (take n w) (0 ∷ s''),
          size,
          sym (length-set w n 0)
              ∙ ap length (set-drop n w goes)
              ∙ length-append (take n w) (0 ∷ rest),
        ),
        ap₂ (λ u us. u ∷ us)
              (ap (λ l. text (drop (length pre) l)) (out ∙ joined s'')
                ∙ ap text (drop-length pre (take n w ++ (0 ∷ s'')))
                ∙ text-word w s'')
              found
            ∙ ap (take (suc left)) (sym split),
      )

  any_word : Parses (suc left) pre w (word_round left (length pre) n (pre ++ w))
  unfolding n
  any_word = elim (Bool-cases (deref (drop n w) == 0)) [
    | inl end ↦ last_word end
    | inr goes ↦ next_word goes
  ]

-- The loop may be seen from in front of the whitespace.
Parses-widen :
    (k : ℕ) (pre t w s : List ℕ) (r : List ℕ × List ℕ)
    → t ++ w ≡ s
    → words s ≡ words w
    → Parses k (pre ++ t) w r
    → Parses k pre s r
Parses-widen k pre t w s r e same (w', out, size, found) = (
  t ++ w',
  out ∙ append_assoc pre t w',
  omega (arith, length-append t w', length-append t w, ap length e),
  found ∙ ap (take k) (sym same),
)

parse_from-blank :
    (left p : ℕ) (line s w : List ℕ)
    → drop p line ≡ s
    → drop (p + blanks s) line ≡ w
    → (deref w == 0) ≡ true
    → parse_from (suc left) p line ≡ ([], line)
unfolding parse_from
parse_from-blank left p line s w here there end = elim (Bool-cases (deref s == 0)) [
  | inl first ↦ rw (here, there, first) refl
  | inr more ↦ rw (here, there, more, end) refl
]

nothing : (k : ℕ) (pre s : List ℕ) → words s ≡ [] → Parses k pre s ([], pre ++ s)
nothing k pre s h = (s, refl, refl, sym (take-nil k) ∙ ap (take k) (sym h))

parse_from-Parses :
    (left : ℕ) (pre s : List ℕ) → Parses left pre s (parse_from left (length pre) (pre ++ s))
unfolding parse_from n
parse_from-Parses zero pre s = (s, refl, refl, refl)
parse_from-Parses (suc left) pre s = elim (Bool-cases (deref s == 0)) [
  | inl end ↦
      subst (Parses (suc left) pre s)
        (sym (
          parse_from-end (suc left) (length pre) (pre ++ s)
            (ap (λ u. deref u == 0) (drop-length pre s) ∙ end)))
        (nothing (suc left) pre s (words-end s end))
  | inr more ↦
      let w = drop (blanks s) s in
      let t = take (blanks s) s in
      let at : drop (length pre + blanks s) (pre ++ s) ≡ w = drop-append pre s (blanks s) in
      elim (Bool-cases (deref w == 0)) [
        | inl end ↦
            subst (Parses (suc left) pre s)
              (sym (parse_from-blank left (length pre) (pre ++ s) s w (drop-length pre s) at end))
              (nothing (suc left) pre s (words-blanks s ∙ words-end w end))
        | inr word ↦
            let start : length (pre ++ t) ≡ length pre + blanks s =
              omega (arith, length-append pre t, length-take-drop (blanks s) s word) in
            let line : (pre ++ t) ++ w ≡ pre ++ s =
              append_assoc pre t w ∙ ap (pre ++◌) (take-drop (blanks s) s) in
            subst (Parses (suc left) pre s)
              (ap₂ (λ a l. word_round left a (word_length w) l) start line
                ∙ sym (
                    parse_from-round left (length pre) (pre ++ s) s w (drop-length pre s) at more
                      word))
              (Parses-widen (suc left) pre t w s
                (word_round left (length (pre ++ t)) (word_length w) ((pre ++ t) ++ w))
                (take-drop (blanks s) s) (words-blanks s)
                (any_word left (λ p q. parse_from-Parses left p q) (pre ++ t) w word
                  (deref-blanks s)))
      ]
]

-- parse_args answers the words of the line in their order, the first `max_args` of them: each argument points
-- at its word with a NUL behind it, and the line keeps its length.
pub parse_args-words :
    (line : List ℕ) (max_args : ℕ)
    → (texts (parse_args line max_args).0 (parse_args line max_args).1 ≡ take max_args (words line))
      × (length (parse_args line max_args).1 ≡ length line)
unfolding parse_args
parse_args-words line max_args =
    let (s', out, size, found) = parse_from-Parses max_args [] line in (found, ap length out ∙ size)
