-- ===== src/Nano/Characters.antt =====
-- What the editor of src/kernel/shell.c does to the characters of one line.
use kontol_os.Base.{
  rev_onto, length-rev_onto, rev_onto-rev_onto, rev_onto-append, set-rev_onto, drop-rev_onto, ℕ,
  suc, ◌+◌, ◌-◌, ◌<◌, ◌≡◌, ◌≢◌, refl, sym, ap, ap₂, ◌∙◌, subst, some, List, [], ◌∷◌, ◌++◌,
  append_assoc, arith, length, length-append, length-set, length-drop, drop, set, lt→ltb,
}
use kontol_os.CString.{strlen, strcpy, strcat}
use kontol_os.CString.Compare.{text}
use kontol_os.CString.Copy.{strcat_lem}
use kontol_os.Nano.{end_at, shift_left, shift_right}
use kontol_os.Nano.Rows.{
  shift_left-rev_onto, shift_left-text, shift_right-rev_onto, shift_right-text,
}
use kontol_os.Nano.Page.{Filled, Holds}
use kontol_os.Nano.Lines.{
  Filled-append, text_of-Filled, strlen-Filled, Filled-rev_onto, rev_onto-Filled, Holds-strlen,
  copied,
}

-- The size of the array, by its parts.
sizes :
    (l r d : List ℕ) (h : Holds (rev_onto l r) d) → length l + length r + suc (length h.junk) ≡ 80
sizes l r d h = omega (
  arith,
  h.room,
  ap length h.same,
  length-append (rev_onto l r) (0 ∷ h.junk),
  length-rev_onto l r,
)

size_of :
    (l r junk : List ℕ)
    → length (rev_onto l r ++ (0 ∷ junk)) ≡ length l + length r + suc (length junk)
size_of l r junk = omega (arith, length-append (rev_onto l r) (0 ∷ junk), length-rev_onto l r)

pub erased :
    (c : ℕ) (l r d : List ℕ)
    → Holds (rev_onto (c ∷ l) r) d
    → Holds (rev_onto l r) (shift_left (strlen d - length l) (length l) d)
erased c l r d h =
    let n : strlen d - length l ≡ suc (length r) =
      omega (arith, Holds-strlen (rev_onto (c ∷ l) r) d h, length-rev_onto (c ∷ l) r) in
    let (l_filled, rest) = rev_onto-Filled l (c ∷ r) h.filled in
    let (set_c, r_filled) = rest in
    let at : d ≡ rev_onto l (c ∷ (r ++ (0 ∷ h.junk))) =
      h.same ∙ sym (rev_onto-append l (c ∷ r) (0 ∷ h.junk)) in
    let moved : shift_left (strlen d - length l) (length l) d ≡ rev_onto l r ++ (0 ∷ 0 ∷ h.junk) =
      ap₂ (λ k b. shift_left k (length l) b) n at
      ∙ ap (λ i. shift_left (suc (length r)) i (rev_onto l (c ∷ (r ++ (0 ∷ h.junk))))) (omega arith)
      ∙ shift_left-rev_onto (suc (length r)) 0 l (c ∷ (r ++ (0 ∷ h.junk)))
      ∙ ap (rev_onto l) (shift_left-text c r h.junk)
      ∙ rev_onto-append l r (0 ∷ 0 ∷ h.junk) in
    record {
      filled = Filled-rev_onto l r l_filled r_filled;
      room = omega (arith, ap length moved, size_of l r (0 ∷ h.junk), sizes (c ∷ l) r d h);
      junk = 0 ∷ h.junk;
      same = moved;
    }

spread :
    (c y : ℕ) (l r junk : List ℕ)
    → set
        (shift_right
          (suc (length r))
          (length l + suc (length r))
          (rev_onto l (r ++ (0 ∷ y ∷ junk))))
        (length l)
        c
      ≡ rev_onto (c ∷ l) (r ++ (0 ∷ junk))
spread c y l r junk =
    let n = suc (length r) in
    let q = rev_onto (r ++ (0 ∷ [])) [] in
    let (h, e) = shift_right-text q y junk in
    let long : length q ≡ n =
      omega (arith, length-rev_onto (r ++ (0 ∷ [])) [], length-append r (0 ∷ [])) in
    let whole : (z : List ℕ) → rev_onto q z ≡ r ++ (0 ∷ z) =
      λ z. rev_onto-rev_onto (r ++ (0 ∷ [])) [] z ∙ append_assoc r (0 ∷ []) z in
    let moved : shift_right n n (r ++ (0 ∷ y ∷ junk)) ≡ h ∷ (r ++ (0 ∷ junk)) =
      ap₂ (λ k z. shift_right k k z) (sym long) (sym (whole (y ∷ junk)))
      ∙ e
      ∙ ap (λ z. h ∷ z) (whole junk) in
    ap (λ b. set b (length l) c)
      (shift_right-rev_onto n n l (r ++ (0 ∷ y ∷ junk)) (omega arith) ∙ ap (rev_onto l) moved)
    ∙ ap (λ i. set (rev_onto l (h ∷ (r ++ (0 ∷ junk)))) i c) (omega arith)
    ∙ set-rev_onto l (h ∷ (r ++ (0 ∷ junk))) 0 c

inserted_at :
    (c : ℕ) (l r d junk : List ℕ)
    → c ≢ 0
    → Filled (rev_onto l r)
    → d ≡ rev_onto l r ++ (0 ∷ junk)
    → length d ≡ 80
    → length l + length r < 79
    → Holds
        (rev_onto (c ∷ l) r)
        (set (shift_right (strlen d + 1 - length l) (strlen d + 1) d) (length l) c)
inserted_at c l r d [] set_c filled same room short =
    absurd (omega (arith, ap length same, size_of l r []))
inserted_at c l r d (y ∷ junk) set_c filled same room short =
    let s : strlen d ≡ length l + length r =
      ap strlen same ∙ strlen-Filled (rev_onto l r) (y ∷ junk) filled ∙ length-rev_onto l r in
    let m : strlen d + 1 - length l ≡ suc (length r) = omega (arith, s) in
    let i : strlen d + 1 ≡ length l + suc (length r) = omega (arith, s) in
    let (l_filled, r_filled) = rev_onto-Filled l r filled in
    let b = set (shift_right (strlen d + 1 - length l) (strlen d + 1) d) (length l) c in
    let moved : b ≡ rev_onto (c ∷ l) r ++ (0 ∷ junk) =
      ap₂ (λ k j. set (shift_right k j d) (length l) c) m i
      ∙ ap (λ x. set (shift_right (suc (length r)) (length l + suc (length r)) x) (length l) c)
          (same ∙ sym (rev_onto-append l r (0 ∷ y ∷ junk)))
      ∙ spread c y l r junk
      ∙ rev_onto-append (c ∷ l) r (0 ∷ junk) in
    record {
      filled = Filled-rev_onto (c ∷ l) r (set_c, l_filled) r_filled;
      room =
          omega (
            arith,
            ap length moved,
            size_of (c ∷ l) r junk,
            ap length same,
            size_of l r (y ∷ junk),
          );
      junk = junk;
      same = moved;
    }

pub inserted :
    (c : ℕ) (l r d : List ℕ)
    → c ≢ 0
    → Holds (rev_onto l r) d
    → length l + length r < 79
    → Holds
        (rev_onto (c ∷ l) r)
        (set (shift_right (strlen d + 1 - length l) (strlen d + 1) d) (length l) c)
inserted c l r d set_c h short = inserted_at c l r d h.junk set_c h.filled h.same h.room short

head_set : (r junk : List ℕ) → (junk' : List ℕ) × (set (r ++ (0 ∷ junk)) 0 0 ≡ 0 ∷ junk')
head_set [] junk = (junk, refl)
head_set (x ∷ r) junk = (r ++ (0 ∷ junk), refl)

-- The part in front of the cursor, once a NUL stands at the cursor.
pub cut :
    (l r d : List ℕ)
    → Holds (rev_onto l r) d
    → (b : List ℕ) × (end_at (length l) d ≡ some b) × Holds (rev_onto l []) b
unfolding end_at
cut l r d h =
    let (l_filled, r_filled) = rev_onto-Filled l r h.filled in
    let n = sizes l r d h in
    let at : d ≡ rev_onto l (r ++ (0 ∷ h.junk)) = h.same ∙ sym (rev_onto-append l r (0 ∷ h.junk)) in
    let (junk, ended) = head_set r h.junk in
    let b = set d (length l) 0 in
    let done : b ≡ rev_onto l [] ++ (0 ∷ junk) =
      ap₂ (λ x i. set x i 0) at (omega arith)
      ∙ set-rev_onto l (r ++ (0 ∷ h.junk)) 0 0
      ∙ ap (rev_onto l) ended
      ∙ rev_onto-append l [] (0 ∷ junk) in
    (
      b,
      rw (lt→ltb (length l) (length d) (omega (arith, h.room))) refl,
      record {
        filled = Filled-rev_onto l [] l_filled tt;
        room = length-set d (length l) 0 ∙ h.room;
        junk = junk;
        same = done;
      },
    )

-- The part from the cursor on, copied to the array `y`.
pub cut_off :
    (l r d y : List ℕ)
    → Holds (rev_onto l r) d
    → length y ≡ 80
    → (b : List ℕ) × (strcpy y (drop (length l) d) ≡ some b) × Holds r b
cut_off l r d y h room =
    let (l_filled, r_filled) = rev_onto-Filled l r h.filled in
    let (b, e, k) = copied r h.junk y r_filled (omega (arith, sizes l r d h)) room in
    let at : d ≡ rev_onto l (r ++ (0 ∷ h.junk)) = h.same ∙ sym (rev_onto-append l r (0 ∷ h.junk)) in
    (b, ap (strcpy y) (ap₂ drop (omega arith) at ∙ drop-rev_onto l (r ++ (0 ∷ h.junk)) 0) ∙ e, k)

-- The line `r` behind the line `t`, if they fit together.
pub joined :
    (t r a d : List ℕ)
    → Holds t a
    → Holds r d
    → length t + length r < 80
    → (b : List ℕ) × (strcat a d ≡ some b) × Holds (rev_onto (rev_onto t []) r) b
joined t r a d h k short =
    let na = Holds-strlen t a h in
    let nd = Holds-strlen r d k in
    let rest = drop (suc (length t + length r)) a in
    let whole : rev_onto (rev_onto t []) r ≡ t ++ r = rev_onto-rev_onto t [] r in
    let b = (t ++ r) ++ (0 ∷ rest) in
    let texts : text a ≡ t = ap text h.same ∙ text_of-Filled t h.junk h.filled in
    let texts_d : text d ≡ r = ap text k.same ∙ text_of-Filled r k.junk k.filled in
    (
      b,
      strcat_lem a d (omega (arith, na, nd, h.room))
          ∙ ap₂ (λ u v. some (u ++ (v ++ (0 ∷ drop (suc (strlen a + strlen d)) a)))) texts texts_d
          ∙ ap₂ (λ i j. some (t ++ (r ++ (0 ∷ drop (suc (i + j)) a)))) na nd
          ∙ ap some (sym (append_assoc t r (0 ∷ rest))),
      record {
        filled = subst Filled (sym whole) (Filled-append t r h.filled k.filled);
        room = omega (
          arith,
          length-append (t ++ r) (0 ∷ rest),
          length-append t r,
          length-drop (suc (length t + length r)) a,
          h.room,
        );
        junk = rest;
        same = ap (λ u. u ++ (0 ∷ rest)) (sym whole);
      },
    )
