-- ===== src/Nano/Rows.antt =====
-- The loops of the editor of src/kernel/shell.c that move bytes and lines: a sequence is given by what
-- stands before the cursor, nearest first, and what stands from the cursor on.
use kontol_os.Base.{
  rev_onto, get_or-rev_onto, set-rev_onto, ℕ, zero, suc, ◌+◌, ◌-◌, ◌≤◌, ◌≡◌, refl, ap, ◌∙◌, some,
  List, [], ◌∷◌, ◌++◌, arith, get_or, set, length, inl, inr, ap₂, Option-cases,
}
use mathlib.Core.Option
use kontol_os.CString.{strcpy}
use kontol_os.Nano.{line_at, copy_line, shift_left, shift_right, shift_up, shift_down}

pub shift_left-rev_onto :
    (n i : ℕ) (l x : List ℕ)
    → shift_left n (length l + i) (rev_onto l x) ≡ rev_onto l (shift_left n i x)
unfolding shift_left
shift_left-rev_onto zero i l x = refl
shift_left-rev_onto (suc n) i l x =
    let next : (length l + i) + 1 ≡ length l + (i + 1) = omega arith in
    rw (next, get_or-rev_onto l x (i + 1) 0, set-rev_onto l x i (get_or x (i + 1) 0))
      (shift_left-rev_onto n (i + 1) l (set x i (get_or x (i + 1) 0)))

-- The removal of the first character, up to the NUL.
pub shift_left-text :
    (x : ℕ) (r junk : List ℕ)
    → shift_left (suc (length r)) 0 (x ∷ (r ++ (0 ∷ junk))) ≡ r ++ (0 ∷ 0 ∷ junk)
unfolding shift_left
shift_left-text x [] junk = refl
shift_left-text x (y ∷ r) junk =
    shift_left-rev_onto (suc (length r)) 0 (y ∷ []) (y ∷ (r ++ (0 ∷ junk)))
    ∙ ap (λ d. y ∷ d) (shift_left-text y r junk)

pub shift_right-rev_onto :
    (n i : ℕ) (l x : List ℕ)
    → n ≤ i
    → shift_right n (length l + i) (rev_onto l x) ≡ rev_onto l (shift_right n i x)
unfolding shift_right
shift_right-rev_onto zero i l x h = refl
shift_right-rev_onto (suc n) i l x h =
    let j = i - 1 in
    let last : (length l + i) - 1 ≡ length l + j = omega arith in
    rw (last, get_or-rev_onto l x j 0, set-rev_onto l x i (get_or x j 0))
      (shift_right-rev_onto n j l (set x i (get_or x j 0)) (omega arith))

-- The room that is made in front of `q`, nearest last, takes the byte `y` behind it.
pub shift_right-text :
    (q : List ℕ) (y : ℕ) (junk : List ℕ)
    → (h : ℕ) × (shift_right (length q) (length q) (rev_onto q (y ∷ junk)) ≡ h ∷ rev_onto q junk)
unfolding shift_right
shift_right-text [] y junk = (y, refl)
shift_right-text (z ∷ q) y junk =
    let (h, e) = shift_right-text q z (z ∷ junk) in
    let n = length q in
    let last : suc n - 1 ≡ n + 0 = omega arith in
    let here : suc n ≡ n + 1 = omega arith in
    let end : n + 0 ≡ n = omega arith in
    (
      h,
      ap
            (λ k.
              shift_right n k
                (set (rev_onto q (z ∷ y ∷ junk)) (suc n) (get_or (rev_onto q (z ∷ y ∷ junk)) k 0)))
            last
          ∙ ap₂ (λ k c. shift_right n (n + 0) (set (rev_onto q (z ∷ y ∷ junk)) k c)) here
              (get_or-rev_onto q (z ∷ y ∷ junk) 0 0)
          ∙ ap₂ (λ k d. shift_right n k d) end (set-rev_onto q (z ∷ y ∷ junk) 1 z)
          ∙ e,
    )

copy_line-rev_onto :
    (i j : ℕ) (l x : List (List ℕ))
    → copy_line (length l + i) (length l + j) (rev_onto l x)
      ≡ Option.map (rev_onto l) (copy_line i j x)
unfolding copy_line
copy_line-rev_onto i j l x =
    rw (get_or-rev_onto l x i [], get_or-rev_onto l x j [])
      (elim (Option-cases (strcpy (line_at j x) (line_at i x))) [
        | inl over ↦ rw over refl
        | inr (b, e) ↦ rw e (ap some (set-rev_onto l x j b))
      ])

pub shift_up-rev_onto :
    (n i : ℕ) (l x : List (List ℕ))
    → shift_up n (length l + i) (rev_onto l x) ≡ Option.map (rev_onto l) (shift_up n i x)
unfolding shift_up Option.bind
shift_up-rev_onto zero i l x = refl
shift_up-rev_onto (suc n) i l x =
    let next : (length l + i) + 1 ≡ length l + (i + 1) = omega arith in
    rw (next, copy_line-rev_onto (i + 1) i l x)
      (elim (Option-cases (copy_line (i + 1) i x)) [
        | inl over ↦ rw over refl
        | inr (x', e) ↦ rw e (shift_up-rev_onto n (i + 1) l x')
      ])

pub shift_down-rev_onto :
    (n i : ℕ) (l x : List (List ℕ))
    → n ≤ i
    → shift_down n (length l + i) (rev_onto l x) ≡ Option.map (rev_onto l) (shift_down n i x)
unfolding shift_down Option.bind
shift_down-rev_onto zero i l x h = refl
shift_down-rev_onto (suc n) i l x h =
    let j = i - 1 in
    let last : (length l + i) - 1 ≡ length l + j = omega arith in
    rw (last, copy_line-rev_onto j i l x)
      (elim (Option-cases (copy_line j i x)) [
        | inl over ↦ rw over refl
        | inr (x', e) ↦ rw e (shift_down-rev_onto n j l x' (omega arith))
      ])
