-- ===== src/Nano/Typing.antt =====
-- What a key does in the editor of src/kernel/shell.c, by the text that the editor shows.
use kontol_os.Base.{
  rev_onto, length-rev_onto, ℕ, suc, ◌+◌, ◌≡◌, refl, sym, subst, inl, inr, Bool, true, false, ◌&&◌,
  ◌||◌, List, [], ◌∷◌, ◌++◌, arith, ltb, leb, ◌==◌, length, lt→ltb, ltb→lt, ==_iff, Bool-cases,
}
use kontol_os.Nano.{Editor, edit, press}
use kontol_os.Nano.Page.{
  Page, rub_out, break_line, put_in, type_key, Holds, Rows, Wide, editor, Shows,
}
use kontol_os.Nano.Lines.{length-Rows}
use kontol_os.Nano.Breaks.{merge_line-overrun, merge_line-Rows}
use kontol_os.Nano.Shown.{Follows, len_here, clamped, shown, erase-Shows, insert-Shows, split-Shows}

-- Backspace.
rub-Follows :
    (above : List (List ℕ)) (l r : List ℕ) (below pre : List (List ℕ)) (d : List ℕ)
    (post spare : List (List ℕ)) (modified : Bool)
    → Rows above pre
    → Holds (rev_onto l r) d
    → Rows below post
    → Wide spare
    → length pre + suc (length post + length spare) ≡ 100
    → Follows
        (rub_out (record { above = above; left = l; right = r; below = below }))
        (edit 8 (editor pre d post spare (length l) modified))
unfolding edit rub_out
rub-Follows above (c ∷ l) r below pre d post spare modified before h after rest count =
    rw (lt→ltb 0 (suc (length l)) (omega arith))
      (_, refl, erase-Shows above c l r below pre d post spare modified before h after rest count)
rub-Follows [] [] r below [] d post spare modified before h after rest count =
    (_, refl, shown [] post spare 0 modified refl tt h after rest count)
rub-Follows [] [] r below (a ∷ pre) d post spare modified before h after rest count =
    elim before [ ]
rub-Follows (t ∷ above) [] r below [] d post spare modified before h after rest count =
    elim before [ ]
rub-Follows (t ∷ above) [] r below (a ∷ pre) d post spare modified (first, before) h after rest
      count =
    rw (lt→ltb 0 (suc (length pre)) (omega arith))
      (elim (Bool-cases (ltb (length t + length r) 80)) [
        | inl fits ↦
            let (b, post', last, run, both, rows, wide, same) =
              merge_line-Rows t a pre r d below post spare modified first h (ltb→lt _ _ fits)
                after in
            rw fits (
              _,
              run,
              shown pre post' (last ∷ spare) (length t) true (omega (arith, length-rev_onto t []))
                  before both rows (wide, rest) (omega (arith, count, same)),
            )
        | inr long ↦
            rw long
              (merge_line-overrun t a pre r d below post spare modified first h (ground arith))
      ])

-- Enter.
break-Follows :
    (c : ℕ) (above : List (List ℕ)) (l r : List ℕ) (below pre : List (List ℕ)) (d : List ℕ)
    (post spare : List (List ℕ)) (modified : Bool)
    → (c == 8) ≡ false
    → (c == 10 || c == 13) ≡ true
    → Rows above pre
    → Holds (rev_onto l r) d
    → Rows below post
    → Wide spare
    → length pre + suc (length post + length spare) ≡ 100
    → Follows
        (type_key c (record { above = above; left = l; right = r; below = below }))
        (edit c (editor pre d post spare (length l) modified))
unfolding edit type_key break_line
break-Follows c above l r below pre d post spare modified other enter before h after rest count =
    let lines : length above + suc (length below) ≡ length pre + suc (length post) =
      omega (arith, length-Rows above pre before, length-Rows below post after) in
    rw (other, enter, lines)
      (elim (Bool-cases (ltb (length pre + suc (length post)) 100)) [
        | inl left ↦ rw left (
            split-Shows above l r below pre d post spare modified (ltb→lt _ _ left) before h after
              rest count)
        | inr full ↦
            rw full
              (_, refl, shown pre post spare (length l) modified refl before h after rest count)
      ])

-- A character.
put-Follows :
    (c : ℕ) (above : List (List ℕ)) (l r : List ℕ) (below pre : List (List ℕ)) (d : List ℕ)
    (post spare : List (List ℕ)) (modified : Bool)
    → (c == 8) ≡ false
    → (c == 10 || c == 13) ≡ false
    → (leb 32 c && ltb c 127) ≡ true
    → Rows above pre
    → Holds (rev_onto l r) d
    → Rows below post
    → Wide spare
    → length pre + suc (length post + length spare) ≡ 100
    → Follows
        (type_key c (record { above = above; left = l; right = r; below = below }))
        (edit c (editor pre d post spare (length l) modified))
unfolding edit type_key put_in
put-Follows c above l r below pre d post spare modified other line print before h after rest count =
    rw (other, line, print, len_here l r d pre (post ++ spare) h)
      (elim (Bool-cases (ltb (length l + length r) 79)) [
        | inl fits ↦ rw fits (
            insert-Shows c above l r below pre d post spare modified
              (λ nul. ground (arith, nul, print)) (ltb→lt _ _ fits) before h after rest count)
        | inr full ↦
            rw full
              (_, refl, shown pre post spare (length l) modified refl before h after rest count)
      ])

edit-Follows :
    (c : ℕ) (above : List (List ℕ)) (l r : List ℕ) (below pre : List (List ℕ)) (d : List ℕ)
    (post spare : List (List ℕ)) (modified : Bool)
    → Rows above pre
    → Holds (rev_onto l r) d
    → Rows below post
    → Wide spare
    → length pre + suc (length post + length spare) ≡ 100
    → Follows
        (type_key c (record { above = above; left = l; right = r; below = below }))
        (edit c (editor pre d post spare (length l) modified))
unfolding edit type_key
edit-Follows c above l r below pre d post spare modified before h after rest count =
    elim (Bool-cases (c == 8)) [
      | inl back ↦
          rw ((==_iff c 8).0 back)
            (rub-Follows above l r below pre d post spare modified before h after rest count)
      | inr other ↦ elim (Bool-cases (c == 10 || c == 13)) [
        | inl enter ↦
            break-Follows c above l r below pre d post spare modified other enter before h after
              rest count
        | inr line ↦ elim (Bool-cases (leb 32 c && ltb c 127)) [
          | inl print ↦
              put-Follows c above l r below pre d post spare modified other line print before h
                after rest count
          | inr control ↦
              rw (other, line, control)
                (_, refl, shown pre post spare (length l) modified refl before h after rest count)
        ]
      ]
    ]

-- While the editor shows a page, a key does to its arrays and numbers what type_key does to the page,
-- and it writes outside an array exactly where type_key gives none.
pub press-Follows : (c : ℕ) (e : Editor) (p : Page) → Shows e p → Follows (type_key c p) (press c e)
unfolding press
press-Follows c e p h = clamped (type_key c p) (edit c e) (
    subst (λ e'. Follows (type_key c p) (edit c e')) (sym h.arrays)
      (edit-Follows c p.above p.left p.right p.below h.pre h.here h.post h.spare e.modified h.before
        h.current h.after h.rest h.count))
