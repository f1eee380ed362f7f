-- ===== src/Nano/Saving.antt =====
-- What Ctrl+S of the editor of src/kernel/shell.c puts into the buffer that it writes to the file.
use kontol_os.Base.{
  rev_onto, rev_onto-append, length-rev_onto, ℕ, zero, suc, ◌+◌, ◌≤◌, ◌≡◌, refl, sym, ap, ap₂, ◌∙◌,
  some, List, [], ◌∷◌, ◌++◌, append_assoc, arith, length, length-append, length-drop, drop,
  drop-append, drop-drop, append-nil,
}
use mathlib.Core.Option
use kontol_os.CString.{strlen, strcat}
use kontol_os.CString.Compare.{text, length-text}
use kontol_os.CString.Copy.{strcat_lem}
use kontol_os.Nano.{Editor}
use kontol_os.Nano.Page.{Page, Filled, Rows, Shows}
use kontol_os.Nano.Lines.{Filled-append, text_of-Filled, strlen-Filled, Holds-strlen, Rows-rev_onto}
use kontol_os.Nano.Breaks.{line_at-behind}
use kontol_os.Nano.Storage.{total_size, join_lines}

-- The lines, each with a newline behind it.
abbrev pub flat : List (List ℕ) → List ℕ
flat [] = []
flat (t ∷ ts) = t ++ (10 ∷ flat ts)

-- The lines of the page, in their order.
abbrev pub lines_of : Page → List (List ℕ)
lines_of p = rev_onto p.above (rev_onto p.left p.right ∷ p.below)

-- strcat of a string with the characters `u`, where the array has the room.
append_text :
    (t u junk s : List ℕ)
    → Filled t
    → text s ≡ u
    → length u ≤ length junk
    → strcat (t ++ (0 ∷ junk)) s ≡ some ((t ++ u) ++ (0 ∷ drop (length u) junk))
append_text t u junk s h e room =
    let d = t ++ (0 ∷ junk) in
    let nt = strlen-Filled t junk h in
    let nu : strlen s ≡ length u = sym (length-text s) ∙ ap length e in
    let end : suc (strlen d + strlen s) ≡ length t + suc (length u) = omega (arith, nt, nu) in
    strcat_lem d s (omega (arith, nt, nu, length-append t (0 ∷ junk)))
    ∙ ap₂ (λ a b. some (a ++ (b ++ (0 ∷ drop (suc (strlen d + strlen s)) d))))
        (text_of-Filled t junk h) e
    ∙ ap (λ n. some (t ++ (u ++ (0 ∷ drop n d)))) end
    ∙ ap (λ x. some (t ++ (u ++ (0 ∷ x)))) (drop-append t (0 ∷ junk) (suc (length u)))
    ∙ ap some (sym (append_assoc t u (0 ∷ drop (length u) junk)))

drop_all : (n : ℕ) (xs : List ℕ) → length xs ≡ n → drop n xs ≡ []
drop_all zero [] e = refl
drop_all zero (x ∷ xs) e = absurd (omega (arith, e))
drop_all (suc n) [] e = refl
drop_all (suc n) (x ∷ xs) e = drop_all n xs (omega (arith, e))

total_size-flat :
    (ts ds q spare : List (List ℕ))
    → Rows ts ds
    → total_size (length ds) (length q) (rev_onto q (ds ++ spare)) ≡ length (flat ts)
unfolding total_size
total_size-flat [] [] q spare h = refl
total_size-flat [] (d ∷ ds) q spare h = elim h [ ]
total_size-flat (t ∷ ts) [] q spare h = elim h [ ]
total_size-flat (t ∷ ts) (d ∷ ds) q spare (a, h) =
    let here = line_at-behind q (length q) 0 (d ∷ (ds ++ spare)) (omega arith) in
    let next : length q + 1 ≡ length (d ∷ q) = omega arith in
    rw (here, next, total_size-flat ts ds (d ∷ q) spare h, Holds-strlen t d a)
      (omega (arith, length-append t (10 ∷ flat ts)))

-- The loop that joins the lines behind the text `done`.
join_lines-flat :
    (ts ds q spare : List (List ℕ)) (done junk : List ℕ)
    → Rows ts ds
    → Filled done
    → length (flat ts) ≤ length junk
    → join_lines (length ds) (length q) (rev_onto q (ds ++ spare)) (done ++ (0 ∷ junk))
      ≡ some ((done ++ flat ts) ++ (0 ∷ drop (length (flat ts)) junk))
unfolding join_lines Option.bind
join_lines-flat [] [] q spare done junk h filled room =
    ap (λ u. some (u ++ (0 ∷ junk))) (sym (append-nil done))
join_lines-flat [] (d ∷ ds) q spare done junk h filled room = elim h [ ]
join_lines-flat (t ∷ ts) [] q spare done junk h filled room = elim h [ ]
join_lines-flat (t ∷ ts) (d ∷ ds) q spare done junk (a, h) filled room =
    let size = length-append t (10 ∷ flat ts) in
    let here = line_at-behind q (length q) 0 (d ∷ (ds ++ spare)) (omega arith) in
    let next : length q + 1 ≡ length (d ∷ q) = omega arith in
    let junk1 = drop (length t) junk in
    let junk2 = drop 1 junk1 in
    let n1 = length-drop (length t) junk in
    let line : strcat (done ++ (0 ∷ junk)) d ≡ some ((done ++ t) ++ (0 ∷ junk1)) =
      append_text done t junk d filled (ap text a.same ∙ text_of-Filled t a.junk a.filled)
        (omega (arith, size)) in
    let filled1 = Filled-append done t filled a.filled in
    let newline : Filled (10 ∷ []) = (λ e. omega (arith, e), tt) in
    let behind =
      append_text (done ++ t) (10 ∷ []) junk1 (10 ∷ []) filled1 refl (omega (arith, size, n1)) in
    let rest =
      join_lines-flat ts ds (d ∷ q) spare ((done ++ t) ++ (10 ∷ [])) junk2 h
        (Filled-append (done ++ t) (10 ∷ []) filled1 newline)
        (omega (arith, size, n1, length-drop 1 junk1)) in
    rw (here, line, behind, next)
      (rest
        ∙ ap₂ (λ u x. some (u ++ (0 ∷ x)))
            (append_assoc (done ++ t) (10 ∷ []) (flat ts) ∙ append_assoc done t (10 ∷ flat ts))
            (drop-drop (length (flat ts)) 1 junk1
              ∙ drop-drop (length (flat ts) + 1) (length t) junk
              ∙ ap (λ n. drop n junk) (omega (arith, size))))

-- The arrays that hold the lines of the page.
abbrev pub arrays_of : (e : Editor) (p : Page) → Shows e p → List (List ℕ)
arrays_of e p h = rev_onto h.pre (h.here ∷ h.post)

pub lines_of-Rows : (e : Editor) (p : Page) (h : Shows e p) → Rows (lines_of p) (arrays_of e p h)
lines_of-Rows e p h = Rows-rev_onto p.above h.pre _ _ h.before (h.current, h.after)

count_of : (e : Editor) (p : Page) (h : Shows e p) → e.num_lines ≡ length (arrays_of e p h)
count_of e p h = ap (λ x. x.num_lines) h.arrays ∙ sym (length-rev_onto h.pre (h.here ∷ h.post))

lines_at : (e : Editor) (p : Page) (h : Shows e p) → e.lines ≡ arrays_of e p h ++ h.spare
lines_at e p h = ap (λ x. x.lines) h.arrays ∙ rev_onto-append h.pre (h.here ∷ h.post) h.spare

pub total_size-Shows :
    (e : Editor) (p : Page)
    → Shows e p
    → total_size e.num_lines 0 e.lines ≡ length (flat (lines_of p))
total_size-Shows e p h =
    ap₂ (λ n ls. total_size n 0 ls) (count_of e p h) (lines_at e p h)
    ∙ total_size-flat (lines_of p) (arrays_of e p h) [] h.spare (lines_of-Rows e p h)

-- The buffer of Ctrl+S has room for the text and its NUL, and the loop fills it with the lines of the page,
-- each with a newline behind it.
pub join_lines-Shows :
    (e : Editor) (p : Page) (junk : List ℕ)
    → Shows e p
    → length junk ≡ total_size e.num_lines 0 e.lines
    → join_lines e.num_lines 0 e.lines (0 ∷ junk) ≡ some (flat (lines_of p) ++ (0 ∷ []))
join_lines-Shows e p junk h room =
    let ts = lines_of p in
    let size = total_size-Shows e p h in
    ap₂ (λ n ls. join_lines n 0 ls (0 ∷ junk)) (count_of e p h) (lines_at e p h)
    ∙ join_lines-flat ts (arrays_of e p h) [] h.spare [] junk (lines_of-Rows e p h) tt
        (omega (arith, room, size))
    ∙ ap (λ x. some (flat ts ++ (0 ∷ x))) (drop_all (length (flat ts)) junk (room ∙ size))
