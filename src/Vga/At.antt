-- ===== src/Vga/At.antt =====
-- vga_print_at of src/drivers/vga.c.
use kontol_os.Base.{
  ℕ, suc, ◌+◌, ◌-◌, ◌*◌, ◌≤◌, ◌<◌, ◌≡◌, ◌≢◌, refl, sym, ap, ◌∙◌, true, false, arith, if◌then◌else◌,
  ◌==◌, ==_of_ne, ltb, update, List, [], ◌∷◌, length, get_or,
}
use native.Mathlib.Decide.{dec_lt}
use native.Mathlib.Nat.{add_assoc}
use kontol_os.Bytes.Copy.{within}
use kontol_os.CString.{CString}
use kontol_os.Vga.{Vga, vga_width, vga_height, vga_entry, vga_put_at, print_from, vga_print_at}
use kontol_os.Vga.Cursor.{Inside}

put_at-Inside : (row col c : ℕ) (v : Vga) → Inside v (vga_put_at row col c v)
unfolding vga_put_at
put_at-Inside row col c v a h = ground arith

print_from-Inside : (col : ℕ) (s : CString) (v : Vga) → Inside v (print_from col s v)
unfolding print_from
print_from-Inside col [] v a h = refl
print_from-Inside col (c ∷ s) v a h =
    let next = record (vga_put_at v.row v.col c v) { col = v.col + 1 } in
    ground (
      arith,
      print_from-Inside col s (record v { row = v.row + 1; col = col }) a h,
      print_from-Inside col s next a h,
      put_at-Inside v.row v.col c v a h,
    )

print_from-outs : (col : ℕ) (s : CString) (v : Vga) → (print_from col s v).outs ≡ v.outs
unfolding print_from vga_put_at
print_from-outs col [] v = refl
print_from-outs col (c ∷ s) v = ground (
  arith,
  print_from-outs col s (record v { row = v.row + 1; col = col }),
  print_from-outs col s (record (vga_put_at v.row v.col c v) { col = v.col + 1 }),
)

-- vga_print_at of any string at any place writes to no cell outside the screen, leaves the cursor where it
-- was, and writes to no port.
pub vga_print_at-Inside :
    (row col : ℕ) (s : CString) (v : Vga)
    → Inside v (vga_print_at row col s v)
      × ((vga_print_at row col s v).row ≡ v.row)
      × ((vga_print_at row col s v).col ≡ v.col)
      × ((vga_print_at row col s v).outs ≡ v.outs)
unfolding vga_print_at
vga_print_at-Inside row col s v = (
  print_from-Inside col s (record v { row = row; col = col }),
  refl,
  refl,
  print_from-outs col s (record v { row = row; col = col }),
)

-- No NUL and no newline.
abbrev pub IsLine : List ℕ → Type 0
IsLine [] = Unit
IsLine (c ∷ s) = (c ≢ 0) × (c ≢ 10) × IsLine s

-- The cells from `p` on with the characters of `s`.
abbrev pub with_line : ℕ → List ℕ → ℕ → (ℕ → ℕ) → ℕ → ℕ
with_line p s color b a =
    if within p (length s) a then vga_entry (get_or s (a - p) 0) color else b a

outside-step :
    (p n a x e y z : ℕ)
    → a < p
    → (if within (p + 1) n a then x else if a == p then e else z)
      ≡ (if within p (suc n) a then y else z)
outside-step p n a x e y z h = ground arith

here-step :
    (p n a x e z : ℕ)
    → a ≡ p
    → (if within (p + 1) n a then x else if a == p then e else z)
      ≡ (if within p (suc n) a then e else z)
here-step p n a x e z h = ground arith

later-step :
    (p n a x e z : ℕ)
    → p < a
    → (if within (p + 1) n a then x else if a == p then e else z)
      ≡ (if within p (suc n) a then x else z)
later-step p n a x e z h = ground arith

with_line-step :
    (p c : ℕ) (s : List ℕ) (color : ℕ) (b : ℕ → ℕ) (a : ℕ)
    → with_line (p + 1) s color (update b p (vga_entry c color)) a ≡ with_line p (c ∷ s) color b a
with_line-step p c s color b a = elim (dec_lt a p) [
  | yes before ↦ outside-step p (length s) a _ (vga_entry c color) _ (b a) before
  | no behind ↦ elim (dec_lt p a) [
    | no here ↦
        let at : a - p ≡ 0 = omega arith in
        rw at (here-step p (length s) a _ (vga_entry c color) (b a) (omega arith))
    | yes later ↦
        let at : a - p ≡ suc (a - (p + 1)) = omega arith in
        rw at (later-step p (length s) a _ (vga_entry c color) (b a) later)
  ]
]

put_at-cell :
    (row col c : ℕ) (v : Vga)
    → row < 25
    → col < 80
    → vga_put_at row col c v
      ≡ record v { buffer = update v.buffer (row * 80 + col) (vga_entry c v.color) }
unfolding vga_put_at
put_at-cell row col c v r k =
    let a : ltb row 25 ≡ true = ground arith in
    let b : ltb col 80 ≡ true = ground arith in rw (a, b) refl

print_from-line :
    (col : ℕ) (s : List ℕ) (v : Vga) (a : ℕ)
    → IsLine s
    → v.row < 25
    → v.col + length s ≤ 80
    → (print_from col s v).buffer a ≡ with_line (v.row * 80 + v.col) s v.color v.buffer a
unfolding print_from
print_from-line col [] v a h r k = ground arith
print_from-line col (c ∷ s) v a (nonzero, no_newline, h) r k =
    let n : (c == 0) ≡ false = ==_of_ne c 0 nonzero in
    let m : (c == 10) ≡ false = ==_of_ne c 10 no_newline in
    let l : ltb v.col 80 ≡ true = ground arith in
    rw (n, m, l, put_at-cell v.row v.col c v r (omega arith))
      (print_from-line col s _ a h r (omega arith)
        ∙ ap
            (λ q.
              with_line q s v.color (update v.buffer (v.row * 80 + v.col) (vga_entry c v.color)) a)
            (sym (add_assoc (v.row * 80) v.col 1))
        ∙ with_line-step (v.row * 80 + v.col) c s v.color v.buffer a)

-- vga_print_at of a line without NUL or newline that fits in its row shows it at its place, in the current
-- colour, and no other cell changes.
pub vga_print_at-line :
    (row col : ℕ) (s : List ℕ) (v : Vga) (a : ℕ)
    → IsLine s
    → row < vga_height
    → col + length s ≤ vga_width
    → (vga_print_at row col s v).buffer a ≡ with_line (row * 80 + col) s v.color v.buffer a
unfolding vga_print_at
vga_print_at-line row col s v a h r k =
    print_from-line col s (record v { row = row; col = col }) a h r k
