-- ===== src/Nano/Lines.antt =====
-- The copies of lines that the editor of src/kernel/shell.c makes, on arrays that hold texts.
use kontol_os.Base.{
  rev_onto, length-rev_onto, rev_onto-rev_onto, get_or-rev_onto, set-rev_onto, split-rev_onto, ℕ,
  suc, ◌+◌, ◌-◌, ◌<◌, ◌≡◌, refl, sym, ap, ap₂, ◌∙◌, subst, some, List, [], ◌∷◌, ◌++◌, append-nil,
  arith, length, length-append, length-drop, drop, ==_of_ne, set,
}
use mathlib.Core.Option
use kontol_os.CString.{strlen, strcpy}
use kontol_os.CString.Compare.{text, length-text}
use kontol_os.CString.Copy.{strcpy_lem}
use kontol_os.Nano.{line_at, copy_line, shift_up, shift_down}
use kontol_os.Nano.Rows.{shift_up-rev_onto}
use kontol_os.Nano.Page.{Filled, Holds, Rows}

pub text_of-Filled : (t junk : List ℕ) → Filled t → text (t ++ (0 ∷ junk)) ≡ t
text_of-Filled [] junk h = refl
text_of-Filled (c ∷ t) junk (set_c, h) =
    rw (==_of_ne c 0 set_c) (ap (λ u. c ∷ u) (text_of-Filled t junk h))

pub strlen-Filled : (t junk : List ℕ) → Filled t → strlen (t ++ (0 ∷ junk)) ≡ length t
strlen-Filled t junk h = sym (length-text (t ++ (0 ∷ junk))) ∙ ap length (text_of-Filled t junk h)

pub Filled-rev_onto : (a b : List ℕ) → Filled a → Filled b → Filled (rev_onto a b)
Filled-rev_onto [] b h k = k
Filled-rev_onto (c ∷ a) b (set_c, h) k = Filled-rev_onto a (c ∷ b) h (set_c, k)

pub rev_onto-Filled : (a b : List ℕ) → Filled (rev_onto a b) → Filled a × Filled b
rev_onto-Filled [] b h = (tt, h)
rev_onto-Filled (c ∷ a) b h =
    let (a_filled, rest) = rev_onto-Filled a (c ∷ b) h in
    let (c_set, b_filled) = rest in ((c_set, a_filled), b_filled)

pub Filled-append : (a b : List ℕ) → Filled a → Filled b → Filled (a ++ b)
Filled-append [] b h k = k
Filled-append (c ∷ a) b (set_c, h) k = (set_c, Filled-append a b h k)

pub Holds-strlen : (t d : List ℕ) → Holds t d → strlen d ≡ length t
Holds-strlen t d h = ap strlen h.same ∙ strlen-Filled t h.junk h.filled

pub Holds-short : (t d : List ℕ) → Holds t d → length t < 80
Holds-short t d h = omega (arith, h.room, ap length h.same, length-append t (0 ∷ h.junk))

pub copied :
    (t junk d : List ℕ)
    → Filled t
    → length t < 80
    → length d ≡ 80
    → (b : List ℕ) × (strcpy d (t ++ (0 ∷ junk)) ≡ some b) × Holds t b
copied t junk d filled short room =
    let n = strlen-Filled t junk filled in
    let rest = drop (suc (length t)) d in
    (
      t ++ (0 ∷ rest),
      strcpy_lem d (t ++ (0 ∷ junk)) (omega (arith, n))
          ∙ ap₂ (λ u k. some (u ++ (0 ∷ drop (suc k) d))) (text_of-Filled t junk filled) n,
      record {
        filled = filled;
        room = omega (arith, length-append t (0 ∷ rest), length-drop (suc (length t)) d);
        junk = rest;
        same = refl;
      },
    )

copied_line :
    (t s d : List ℕ) → Holds t s → length d ≡ 80 → (b : List ℕ) × (strcpy d s ≡ some b) × Holds t b
copied_line t s d h room =
    let (b, e, k) = copied t h.junk d h.filled (Holds-short t s h) room in
    (b, ap (strcpy d) h.same ∙ e, k)

pub length-Rows : (ts ds : List (List ℕ)) → Rows ts ds → length ts ≡ length ds
length-Rows [] [] h = refl
length-Rows [] (d ∷ ds) h = elim h [ ]
length-Rows (t ∷ ts) [] h = elim h [ ]
length-Rows (t ∷ ts) (d ∷ ds) (_, h) = ap suc (length-Rows ts ds h)

pub Rows-rev_onto :
    (ts ds us es : List (List ℕ)) → Rows ts ds → Rows us es → Rows (rev_onto ts us) (rev_onto ds es)
Rows-rev_onto [] [] us es h k = k
Rows-rev_onto [] (d ∷ ds) us es h k = elim h [ ]
Rows-rev_onto (t ∷ ts) [] us es h k = elim h [ ]
Rows-rev_onto (t ∷ ts) (d ∷ ds) us es (a, h) k = Rows-rev_onto ts ds (t ∷ us) (d ∷ es) h (a, k)

-- The lines move up by one, over the array `x`.
pub shift_up-Rows :
    (ts ds : List (List ℕ)) (x : List ℕ) (spare : List (List ℕ))
    → Rows ts ds
    → length x ≡ 80
    → (ds' : List (List ℕ)) × (last : List ℕ) × (shift_up (length ds) 0 (x ∷ (ds ++ spare))
        ≡ some (ds' ++ (last ∷ spare)))
      × Rows ts ds'
      × (length last ≡ 80)
unfolding shift_up copy_line Option.bind
shift_up-Rows [] [] x spare h room = ([], x, refl, tt, room)
shift_up-Rows [] (d ∷ ds) x spare h room = elim h [ ]
shift_up-Rows (t ∷ ts) [] x spare h room = elim h [ ]
shift_up-Rows (t ∷ ts) (d ∷ ds) x spare (a, h) room =
    let (b, e, k) = copied_line t d x a room in
    let (ds', last, moved, rows, wide) = shift_up-Rows ts ds d spare h a.room in
    (
      b ∷ ds',
      last,
      rw e (
          shift_up-rev_onto (length ds) 0 (b ∷ []) (d ∷ (ds ++ spare))
          ∙ ap (Option.map (λ ls. b ∷ ls)) moved),
      (k, rows),
      wide,
    )

-- The lines move down by one, onto the array `y`; they are listed from the last one on.
shift_down-reversed :
    (ts ds : List (List ℕ)) (y : List ℕ) (spare : List (List ℕ))
    → Rows ts ds
    → length y ≡ 80
    → (x : List ℕ) × (ds' : List (List ℕ)) × (shift_down
          (length ds)
          (length ds)
          (rev_onto ds (y ∷ spare))
        ≡ some (x ∷ rev_onto ds' spare))
      × Rows ts ds'
      × (length x ≡ 80)
unfolding shift_down copy_line Option.bind
shift_down-reversed [] [] y spare h room = (y, [], refl, tt, room)
shift_down-reversed [] (d ∷ ds) y spare h room = elim h [ ]
shift_down-reversed (t ∷ ts) [] y spare h room = elim h [ ]
shift_down-reversed (t ∷ ts) (d ∷ ds) y spare (a, h) room =
    let (b, e, k) = copied_line t d y a room in
    let (x, ds', moved, rows, wide) = shift_down-reversed ts ds d (b ∷ spare) h a.room in
    let n = length ds in
    let last : suc n - 1 ≡ n = omega arith in
    let at0 : n ≡ n + 0 = omega arith in
    let at1 : suc n ≡ n + 1 = omega arith in
    let ls = rev_onto ds (d ∷ y ∷ spare) in
    let from : line_at n ls ≡ d =
      ap (λ k. line_at k ls) at0 ∙ get_or-rev_onto ds (d ∷ y ∷ spare) 0 [] in
    let to : line_at (suc n) ls ≡ y =
      ap (λ k. line_at k ls) at1 ∙ get_or-rev_onto ds (d ∷ y ∷ spare) 1 [] in
    let put : set ls (suc n) b ≡ rev_onto ds (d ∷ b ∷ spare) =
      ap (λ k. set ls k b) at1 ∙ set-rev_onto ds (d ∷ y ∷ spare) 1 b in
    (x, b ∷ ds', rw (last, from, to, e, put) moved, (k, rows), wide)

pub shift_down-Rows :
    (ts ds : List (List ℕ)) (y : List ℕ) (spare : List (List ℕ))
    → Rows ts ds
    → length y ≡ 80
    → (x : List ℕ) × (ds' : List (List ℕ)) × (shift_down (length ds) (length ds) (ds ++ (y ∷ spare))
        ≡ some (x ∷ (ds' ++ spare)))
      × Rows ts ds'
      × (length x ≡ 80)
shift_down-Rows ts ds y spare h room =
    let q = rev_onto ds [] in
    let (x, q', moved, rows, wide) =
      shift_down-reversed (rev_onto ts []) q y spare (Rows-rev_onto ts ds [] [] h tt) room in
    let same : length q ≡ length ds = omega (arith, length-rev_onto ds []) in
    let back : rev_onto (rev_onto ts []) [] ≡ ts = rev_onto-rev_onto ts [] [] ∙ append-nil ts in
    (
      x,
      rev_onto q' [],
      ap₂ (λ n ls. shift_down n n ls) (sym same) (sym (rev_onto-rev_onto ds [] (y ∷ spare)))
          ∙ moved
          ∙ ap (λ ls. some (x ∷ ls)) (split-rev_onto q' spare),
      subst (λ us. Rows us (rev_onto q' [])) back (Rows-rev_onto (rev_onto ts []) q' [] [] rows tt),
      wide,
    )
