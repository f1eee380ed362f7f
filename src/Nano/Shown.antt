-- ===== src/Nano/Shown.antt =====
-- How the editor of src/kernel/shell.c goes on showing a text: the steps that its keys are made of.
use kontol_os.Base.{
  rev_onto, length-rev_onto, ℕ, suc, ◌+◌, ◌-◌, ◌<◌, ◌≡◌, ◌≢◌, refl, sym, ap, ◌∙◌, Bool, true, false,
  Option, none, some, List, [], ◌∷◌, ◌++◌, arith, ltb, leb, length, lt→ltb, set,
}
use mathlib.Core.Option
use kontol_os.CString.{strlen}
use kontol_os.Nano.{
  Editor, line_at, delete_char, insert_char, clamp, split_line, shift_left, shift_right,
}
use kontol_os.Nano.Page.{Page, Holds, Rows, Wide, editor, Shows}
use kontol_os.Nano.Lines.{Holds-strlen}
use kontol_os.Nano.Characters.{erased, inserted}
use kontol_os.Nano.Breaks.{line_at-behind, set-behind, split_line-Rows}

-- The editor ends up showing the page, or writes outside an array where there is none.
abbrev pub Follows : Option Page → Option Editor → Type 0
Follows none r = r ≡ none
Follows (some p) r = (e : Editor) × (r ≡ some e) × Shows e p

-- The length of the line with the cursor.
pub len_here :
    (l r d : List ℕ) (pre tail : List (List ℕ))
    → Holds (rev_onto l r) d
    → strlen (line_at (length pre) (rev_onto pre (d ∷ tail))) ≡ length l + length r
len_here l r d pre tail h =
    ap strlen (line_at-behind pre (length pre) 0 (d ∷ tail) (omega arith))
    ∙ Holds-strlen (rev_onto l r) d h
    ∙ length-rev_onto l r

-- The checks at the end of a round find nothing to do.
pub clamp-Shows : (e : Editor) (p : Page) → Shows e p → clamp e ≡ e
unfolding clamp
clamp-Shows e p h =
    let tail = h.post ++ h.spare in
    let n = len_here p.left p.right h.here h.pre tail h.current in
    let row : leb (length h.pre + suc (length h.post)) (length h.pre) ≡ false = ground arith in
    let col : ltb (length p.left + length p.right) (length p.left) ≡ false = ground arith in
    ap clamp h.arrays ∙ rw (row, n, col) refl ∙ sym h.arrays

pub clamped : (q : Option Page) (r : Option Editor) → Follows q r → Follows q (Option.map clamp r)
clamped none r h = ap (Option.map clamp) h
clamped (some p) r (e, run, h) = (e, ap (Option.map clamp) run ∙ ap some (clamp-Shows e p h), h)

pub shown :
    {above below : List (List ℕ)} {l r d : List ℕ} (pre post spare : List (List ℕ)) (col : ℕ)
    (modified : Bool)
    → col ≡ length l
    → Rows above pre
    → Holds (rev_onto l r) d
    → Rows below post
    → Wide spare
    → length pre + suc (length post + length spare) ≡ 100
    → Shows
        (editor pre d post spare col modified)
        (record { above = above; left = l; right = r; below = below })
shown {above} {below} {l} {r} {d} pre post spare col modified at before current after rest count =
    record {
      pre = pre;
      here = d;
      post = post;
      spare = spare;
      arrays = ap (λ k. editor pre d post spare k modified) at;
      before = before;
      current = current;
      after = after;
      rest = rest;
      count = count;
    }

pub erase-Shows :
    (above : List (List ℕ)) (c : ℕ) (l r : List ℕ) (below pre : List (List ℕ)) (d : List ℕ)
    (post spare : List (List ℕ)) (modified : Bool)
    → Rows above pre
    → Holds (rev_onto (c ∷ l) r) d
    → Rows below post
    → Wide spare
    → length pre + suc (length post + length spare) ≡ 100
    → Shows
        (delete_char (editor pre d post spare (suc (length l)) modified))
        (record { above = above; left = l; right = r; below = below })
unfolding delete_char
erase-Shows above c l r below pre d post spare modified before h after rest count =
    let tail = post ++ spare in
    let col : suc (length l) - 1 ≡ length l = omega arith in
    let here = line_at-behind pre (length pre) 0 (d ∷ tail) (omega arith) in
    let put =
      set-behind pre (length pre) 0 (d ∷ tail) (shift_left (strlen d - length l) (length l) d)
        (omega arith) in
    rw (col, here, put)
      (shown pre post spare (length l) true refl before (erased c l r d h) after rest count)

pub insert-Shows :
    (c : ℕ) (above : List (List ℕ)) (l r : List ℕ) (below pre : List (List ℕ)) (d : List ℕ)
    (post spare : List (List ℕ)) (modified : Bool)
    → c ≢ 0
    → length l + length r < 79
    → Rows above pre
    → Holds (rev_onto l r) d
    → Rows below post
    → Wide spare
    → length pre + suc (length post + length spare) ≡ 100
    → Follows
        (some (record { above = above; left = c ∷ l; right = r; below = below }))
        (insert_char c (editor pre d post spare (length l) modified))
unfolding insert_char
insert-Shows c above l r below pre d post spare modified set_c short before h after rest count =
    let tail = post ++ spare in
    let n : strlen d ≡ length l + length r =
      Holds-strlen (rev_onto l r) d h ∙ length-rev_onto l r in
    let here = line_at-behind pre (length pre) 0 (d ∷ tail) (omega arith) in
    let b = set (shift_right (strlen d + 1 - length l) (strlen d + 1) d) (length l) c in
    let put = set-behind pre (length pre) 0 (d ∷ tail) b (omega arith) in
    let room = lt→ltb (strlen d + 1) (length d) (omega (arith, n, h.room)) in
    (
      editor pre b post spare (length l + 1) true,
      rw (here, room, put) refl,
      shown pre post spare (length l + 1) true (omega arith) before (inserted c l r d set_c h short)
          after rest count,
    )

pub split-Shows :
    (above : List (List ℕ)) (l r : List ℕ) (below pre : List (List ℕ)) (d : List ℕ)
    (post spare : List (List ℕ)) (modified : Bool)
    → length pre + suc (length post) < 100
    → Rows above pre
    → Holds (rev_onto l r) d
    → Rows below post
    → Wide spare
    → length pre + suc (length post + length spare) ≡ 100
    → Follows
        (some (record { above = rev_onto l [] ∷ above; left = []; right = r; below = below }))
        (split_line (editor pre d post spare (length l) modified))
split-Shows above l r below pre d post [] modified left before h after rest count =
    absurd (omega (arith, left, count))
split-Shows above l r below pre d post (y ∷ spare) modified left before h after (room, rest) count =
    let (a, b, post', run, first, second, rows, same) =
      split_line-Rows pre l r d below post y spare modified h after room in
    (
      _,
      run,
      shown (a ∷ pre) post' spare 0 true refl (first, before) second rows rest
          (omega (arith, count, same)),
    )
