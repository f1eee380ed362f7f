-- ===== src/Screen/Calls.antt =====
-- Every sequence of calls of the functions of src/drivers/vga.c keeps to the screen.
use kontol_os.Base.{
  ℕ, zero, suc, ◌≡◌, refl, ◌∙◌, ◌&&◌, inl, inr, List, [], ◌∷◌, ◌++◌, ℤ, pos, negsuc, Bool, true,
  false, arith, ltb, Bool-cases,
}
use kontol_os.CString.{CString}
use kontol_os.Vga.{
  Vga, vga_print, vga_putchar, vga_set_color, vga_print_dec, vga_print_hex, vga_clear,
  vga_set_cursor, vga_hide_cursor, vga_show_cursor, vga_put_at, vga_print_centered, print_reversed,
  print_digits, vga_update_cursor, dec_digits, neg32, skip_zeros, hex_fill,
}
use kontol_os.Vga.Scroll.{vga_clear_lem}
use kontol_os.Vga.Cursor.{IsOnScreen, Inside, vga_print-IsOnScreen, vga_putchar-Shown}
use kontol_os.Vga.At.{vga_print_at-Inside}
use kontol_os.Screen.{
  Call, set_color, print, print_dec, print_hex, putchar, clear, set_cursor, hide_cursor,
  show_cursor, put_at, print_centered, perform, calls,
}

-- The cursor is on the screen afterwards, and no cell outside the screen has changed.
abbrev pub Keeps : Vga → Vga → Type 0
Keeps v v' = IsOnScreen v' × Inside v v'

Keeps-trans : (v1 v2 v3 : Vga) → Keeps v1 v2 → Keeps v2 v3 → Keeps v1 v3
Keeps-trans v1 v2 v3 (h2, i2) (h3, i3) = (h3, λ a out. i3 a out ∙ i2 a out)

putchar-Keeps : (c : ℕ) (v : Vga) → IsOnScreen v → Keeps v (vga_putchar c v)
putchar-Keeps c v h = let (on, inside, shown) = vga_putchar-Shown c v h in (on, inside)

reversed-Keeps : (cs : List ℕ) (v : Vga) → IsOnScreen v → Keeps v (print_reversed cs v)
unfolding print_reversed
reversed-Keeps [] v h = (h, λ a out. refl)
reversed-Keeps (c ∷ cs) v h =
    let k = reversed-Keeps cs v h in
    let v1 = print_reversed cs v in Keeps-trans v v1 (vga_putchar c v1) k (putchar-Keeps c v1 k.0)

digits-Keeps : (n : ℤ) (minus : Bool) (v : Vga) → IsOnScreen v → Keeps v (print_digits n minus v)
unfolding print_digits
digits-Keeps (pos n) false v h = reversed-Keeps (dec_digits 11 n) v h
digits-Keeps (pos n) true v h =
    let k = putchar-Keeps b'-' v h in
    let v1 = vga_putchar b'-' v in
    Keeps-trans v v1 (print_reversed (dec_digits 11 n) v1) k
      (reversed-Keeps (dec_digits 11 n) v1 k.0)
digits-Keeps (negsuc n) false v h = (h, λ a out. refl)
digits-Keeps (negsuc n) true v h = putchar-Keeps b'-' v h

print_dec-Keeps : (n : ℤ) (v : Vga) → IsOnScreen v → Keeps v (vga_print_dec n v)
unfolding vga_print_dec
print_dec-Keeps (pos zero) v h = putchar-Keeps b'0' v h
print_dec-Keeps (pos (suc n)) v h = digits-Keeps (pos (suc n)) false v h
print_dec-Keeps (negsuc n) v h = digits-Keeps (neg32 (negsuc n)) true v h

print_hex-Keeps : (n : ℕ) (v : Vga) → IsOnScreen v → Keeps v (vga_print_hex n v)
unfolding vga_print_hex
print_hex-Keeps n v h =
    let v1 = vga_print (b'0' ∷ b'x' ∷ []) v in
    let s = skip_zeros (hex_fill 8 n []) in
    let k = vga_print-IsOnScreen (b'0' ∷ b'x' ∷ []) v h in
    Keeps-trans v v1 (vga_print s v1) k (vga_print-IsOnScreen s v1 k.0)

clear-Keeps : (v : Vga) → Keeps v (vga_clear v)
clear-Keeps v = (
  (omega (arith, vga_clear_lem v 0), omega (arith, vga_clear_lem v 0)),
  λ a out. ground (arith, vga_clear_lem v a),
)

set_cursor-Keeps : (row col : ℕ) (v : Vga) → IsOnScreen v → Keeps v (vga_set_cursor row col v)
unfolding vga_set_cursor vga_update_cursor
set_cursor-Keeps row col v h = elim (Bool-cases (ltb row 25 && ltb col 80)) [
  | inl inside ↦ rw inside ((ground arith, ground arith), λ a out. refl)
  | inr outside ↦ rw outside (h, λ a out. refl)
]

put_at-Keeps : (row col c : ℕ) (v : Vga) → IsOnScreen v → Keeps v (vga_put_at row col c v)
unfolding vga_put_at
put_at-Keeps row col c v h = elim (Bool-cases (ltb row 25 && ltb col 80)) [
  | inl inside ↦ rw inside (h, λ a out. ground arith)
  | inr outside ↦ rw outside (h, λ a out. refl)
]

centered-Keeps :
    (row : ℕ) (s : CString) (v : Vga) → IsOnScreen v → Keeps v (vga_print_centered row s v)
unfolding vga_print_centered
centered-Keeps row s v h =
    let (inside, r, c, _) = vga_print_at-Inside row _ s v in ((rw r h.0, rw c h.1), inside)

pub perform-Keeps : (c : Call) (v : Vga) → IsOnScreen v → Keeps v (perform c v)
unfolding perform vga_set_color vga_hide_cursor vga_show_cursor
perform-Keeps (set_color fg bg) v h = (h, λ a out. refl)
perform-Keeps (print s) v h = vga_print-IsOnScreen s v h
perform-Keeps (print_dec n) v h = print_dec-Keeps n v h
perform-Keeps (print_hex n) v h = print_hex-Keeps n v h
perform-Keeps (putchar c) v h = putchar-Keeps c v h
perform-Keeps clear v h = clear-Keeps v
perform-Keeps (set_cursor row col) v h = set_cursor-Keeps row col v h
perform-Keeps hide_cursor v h = (h, λ a out. refl)
perform-Keeps (show_cursor read1 read2) v h = (h, λ a out. refl)
perform-Keeps (put_at row col c) v h = put_at-Keeps row col c v h
perform-Keeps (print_centered row s) v h = centered-Keeps row s v h

-- A sequence of calls of any length, with any texts, numbers and places, keeps the cursor on the screen
-- and changes no cell outside the screen.
pub calls-Keeps : (cs : List Call) (v : Vga) → IsOnScreen v → Keeps v (calls cs v)
unfolding calls
calls-Keeps [] v h = (h, λ a out. refl)
calls-Keeps (c ∷ cs) v h =
    let k = perform-Keeps c v h in
    Keeps-trans v (perform c v) (calls cs (perform c v)) k (calls-Keeps cs (perform c v) k.0)

pub calls-append : (cs ds : List Call) (v : Vga) → calls (cs ++ ds) v ≡ calls ds (calls cs v)
unfolding calls
calls-append [] ds v = refl
calls-append (c ∷ cs) ds v = calls-append cs ds (perform c v)
