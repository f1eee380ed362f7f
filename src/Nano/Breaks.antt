-- ===== src/Nano/Breaks.antt =====
-- Enter and Backspace at the start of a line in the editor of src/kernel/shell.c: what becomes of the
-- lines.
use kontol_os.Base.{
  rev_onto, length-rev_onto, rev_onto-rev_onto, get_or-rev_onto, set-rev_onto, ℕ, suc, ◌+◌, ◌-◌,
  ◌<◌, ◌≤◌, ◌≡◌, refl, sym, ap, ap₂, ◌∙◌, Bool, true, none, some, List, [], ◌∷◌, ◌++◌, arith,
  length, length-set, set, lt→ltb,
}
use mathlib.Core.Option
use kontol_os.CString.Copy.{strcat_overrun}
use kontol_os.Nano.{line_at, end_at, shift_up, shift_down, merge_line, split_line}
use kontol_os.Nano.Rows.{shift_up-rev_onto, shift_down-rev_onto}
use kontol_os.Nano.Page.{Holds, Rows, editor}
use kontol_os.Nano.Lines.{Holds-strlen, length-Rows, shift_up-Rows, shift_down-Rows}
use kontol_os.Nano.Characters.{cut, cut_off, joined}

-- The array `i` places behind those in front.
pub line_at-behind :
    (pre : List (List ℕ)) (k i : ℕ) (ls : List (List ℕ))
    → k ≡ length pre + i
    → line_at k (rev_onto pre ls) ≡ line_at i ls
line_at-behind pre k i ls e = ap (λ n. line_at n (rev_onto pre ls)) e ∙ get_or-rev_onto pre ls i []

pub set-behind :
    (pre : List (List ℕ)) (k i : ℕ) (ls : List (List ℕ)) (b : List ℕ)
    → k ≡ length pre + i
    → set (rev_onto pre ls) k b ≡ rev_onto pre (set ls i b)
set-behind pre k i ls b e = ap (λ n. set (rev_onto pre ls) n b) e ∙ set-rev_onto pre ls i b

-- The line with the cursor breaks there, and those below make room for the rest of it.
pub split_line-Rows :
    (pre : List (List ℕ)) (l r d : List ℕ) (ts post : List (List ℕ)) (y : List ℕ)
    (spare : List (List ℕ)) (modified : Bool)
    → Holds (rev_onto l r) d
    → Rows ts post
    → length y ≡ 80
    → (a : List ℕ) × (b : List ℕ) × (post' : List (List ℕ)) × (split_line
          (editor pre d post (y ∷ spare) (length l) modified)
        ≡ some (editor (a ∷ pre) b post' spare 0 true))
      × Holds (rev_onto l []) a
      × Holds r b
      × Rows ts post'
      × (length post' ≡ length post)
unfolding split_line Option.bind
split_line-Rows pre l r d ts post y spare modified h rows room =
    let n = length post in
    let row = length pre in
    let (x, post', moved, rows', wide) = shift_down-Rows ts post y spare rows room in
    let (a, ended, first) = cut l r d h in
    let (b, copy, second) = cut_off l r d x h wide in
    let count : length post' ≡ n =
      omega (arith, length-Rows ts post rows, length-Rows ts post' rows') in
    let rounds : (row + suc n) - (row + 1) ≡ n = omega arith in
    let from : row + suc n ≡ length (d ∷ pre) + n = omega arith in
    let lines' = rev_onto pre (d ∷ x ∷ (post' ++ spare)) in
    let down : shift_down ((row + suc n) - (row + 1)) (row + suc n)
          (rev_onto pre (d ∷ (post ++ (y ∷ spare))))
        ≡ some lines' =
      ap₂ (λ k i. shift_down k i (rev_onto pre (d ∷ (post ++ (y ∷ spare))))) rounds from
      ∙ shift_down-rev_onto n n (d ∷ pre) (post ++ (y ∷ spare)) (omega arith)
      ∙ ap (Option.map (rev_onto (d ∷ pre))) moved in
    let here = line_at-behind pre row 0 (d ∷ x ∷ (post' ++ spare)) (omega arith) in
    let next = line_at-behind pre (row + 1) 1 (d ∷ x ∷ (post' ++ spare)) (omega arith) in
    let put = set-behind pre (row + 1) 1 (d ∷ x ∷ (post' ++ spare)) b (omega arith) in
    let again = line_at-behind pre row 0 (d ∷ b ∷ (post' ++ spare)) (omega arith) in
    let last = set-behind pre row 0 (d ∷ b ∷ (post' ++ spare)) a (omega arith) in
    (
      a,
      b,
      post',
      rw (down, next, here, copy, put, again, ended, last)
          (ap₂
            (λ k i. some (record {
              lines = rev_onto pre (a ∷ b ∷ (post' ++ spare));
              num_lines = k;
              cur_line = i;
              cur_col = 0;
              modified = true;
            }))
            (omega (arith, count)) (omega arith)),
      first,
      second,
      rows',
      count,
    )

module _ (t : List ℕ) (a : List ℕ) (pre : List (List ℕ)) (r d : List ℕ)
    (ts post spare : List (List ℕ)) (modified : Bool) (above : Holds t a) (h : Holds r d) where
  -- The joined line is longer than its array.
  pub merge_line-overrun :
      80 ≤ length t + length r → merge_line (editor (a ∷ pre) d post spare 0 modified) ≡ none
  unfolding merge_line Option.bind
  merge_line-overrun long =
      let row = suc (length pre) - 1 in
      let there = line_at-behind pre row 0 (a ∷ d ∷ (post ++ spare)) (omega arith) in
      let here = line_at-behind pre (row + 1) 1 (a ∷ d ∷ (post ++ spare)) (omega arith) in
      rw
        (
          there,
          here,
          strcat_overrun a d
              (omega (arith, above.room, Holds-strlen t a above, Holds-strlen r d h)),
        )
        refl

  -- The line with the cursor joins the one above, and those below move up.
  pub merge_line-Rows :
      length t + length r < 80
      → Rows ts post
      → (b : List ℕ) × (post' : List (List ℕ)) × (last : List ℕ) × (merge_line
            (editor (a ∷ pre) d post spare 0 modified)
          ≡ some (editor pre b post' (last ∷ spare) (length t) true))
        × Holds (rev_onto (rev_onto t []) r) b
        × Rows ts post'
        × (length last ≡ 80)
        × (length post' ≡ length post)
  unfolding merge_line Option.bind end_at
  merge_line-Rows fits rows =
      let n = length post in
      let row = suc (length pre) - 1 in
      let end = (suc (length pre) + suc n) - 1 in
      let (b, cat, both) = joined t r a d above h fits in
      let (post', x, moved, rows', wide) = shift_up-Rows ts post d spare rows h.room in
      let count : length post' ≡ n =
        omega (arith, length-Rows ts post rows, length-Rows ts post' rows') in
      let there = line_at-behind pre row 0 (a ∷ d ∷ (post ++ spare)) (omega arith) in
      let here = line_at-behind pre (row + 1) 1 (a ∷ d ∷ (post ++ spare)) (omega arith) in
      let put = set-behind pre row 0 (a ∷ d ∷ (post ++ spare)) b (omega arith) in
      let rounds : end - (row + 1) ≡ n = omega arith in
      let from : row + 1 ≡ length (b ∷ pre) + 0 = omega arith in
      let before = rev_onto post' (b ∷ pre) in
      let up : shift_up (end - (row + 1)) (row + 1) (rev_onto pre (b ∷ d ∷ (post ++ spare)))
          ≡ some (rev_onto before (x ∷ spare)) =
        ap₂ (λ k i. shift_up k i (rev_onto pre (b ∷ d ∷ (post ++ spare)))) rounds from
        ∙ shift_up-rev_onto n 0 (b ∷ pre) (d ∷ (post ++ spare))
        ∙ ap (Option.map (rev_onto (b ∷ pre))) moved
        ∙ ap some (sym (rev_onto-rev_onto post' (b ∷ pre) (x ∷ spare))) in
      let at : end ≡ length before + 0 = omega (arith, length-rev_onto post' (b ∷ pre), count) in
      let found = line_at-behind before end 0 (x ∷ spare) at in
      let cleared = set x 0 0 in
      let stored =
        set-behind before end 0 (x ∷ spare) cleared at
        ∙ rev_onto-rev_onto post' (b ∷ pre) (cleared ∷ spare) in
      (
        b,
        post',
        cleared,
        rw
            (
              there,
              here,
              cat,
              put,
              up,
              found,
              lt→ltb 0 (length x) (omega (arith, wide)),
              stored,
              Holds-strlen t a above,
            )
            (ap₂
              (λ k i. some (record {
                lines = rev_onto pre (b ∷ (post' ++ (cleared ∷ spare)));
                num_lines = k;
                cur_line = i;
                cur_col = length t;
                modified = true;
              }))
              (omega (arith, count)) (omega arith)),
        both,
        rows',
        length-set x 0 0 ∙ wide,
        count,
      )
