-- ===== src/Vga/Cursor.antt =====
-- The cursor of src/drivers/vga.c stays on the screen, and what the printing functions write.
use kontol_os.Base.{
  ℕ, ◌+◌, ◌-◌, ◌*◌, ◌^◌, ◌≤◌, ◌<◌, ◌≡◌, refl, ap, ◌∙◌, ◌⊎◌, inl, inr, Bool, true, arith, ◌==◌, ltb,
  leb, leb→le, List, [], ◌∷◌, Bool-cases, all_below, all_below_lem, bit_and,
}
use kontol_os.CString.{CString}
use kontol_os.Vga.{
  Vga, vga_width, vga_height, vga_ctrl_port, vga_data_port, vga_update_cursor, place_char,
  wrap_line, scroll_if, vga_putchar, vga_print,
}
use kontol_os.Vga.Scroll.{vga_scroll_lem}

abbrev pub IsOnScreen : Vga → Type 0
IsOnScreen v = (v.row < vga_height) × (v.col < vga_width)

-- No cell outside the screen differs.
abbrev pub Inside : Vga → Vga → Type 0
Inside v v' = (a : ℕ) → 2000 ≤ a → v'.buffer a ≡ v.buffer a

-- The last four writes to the ports place the hardware cursor where the driver's is.
pub record Shown (v : Vga) : Type 0 where
  pub hi : ℕ
  pub lo : ℕ
  pub before : List (ℕ × ℕ)
  pub outs :
      v.outs
      ≡ (vga_data_port, lo)
        ∷ (vga_ctrl_port, 15)
        ∷ (vga_data_port, hi)
        ∷ (vga_ctrl_port, 14)
        ∷ before
  pub bytes : (hi < 2 ^ 8) × (lo < 2 ^ 8)
  pub at : hi * 2 ^ 8 + lo ≡ v.row * vga_width + v.col

update_cursor-Shown : (v : Vga) → IsOnScreen v → Shown (vga_update_cursor v)
unfolding vga_update_cursor
update_cursor-Shown v (r, c) = record {
  hi = _;
  lo = _;
  before = v.outs;
  outs = refl;
  bytes = (omega arith, omega arith);
  at = omega arith;
}

tab_check : ℕ → Bool
tab_check col = leb (bit_and (col + 4) (2 ^ 32 - 4)) 80

tab_checked : all_below 80 tab_check ≡ true
unfolding tab_check
tab_checked = refl

tab_bound : (col : ℕ) → col < 80 → bit_and (col + 4) (2 ^ 32 - 4) ≤ 80
unfolding tab_check
tab_bound col h = leb→le _ 80 (all_below_lem 80 tab_check tab_checked col h)

-- Before the wrap: on the screen, but for one column or one row too many.
place_char-bounds :
    (c : ℕ) (v : Vga)
    → IsOnScreen v
    → ((place_char c v).row ≤ 25)
      × ((place_char c v).col ≤ 80)
      × (((place_char c v).row < 25) ⊎ ((place_char c v).col ≡ 0))
      × Inside v (place_char c v)
unfolding place_char
place_char-bounds c v (r, k) = elim (Bool-cases (c == 10)) [
  | inl newline ↦ rw newline (omega arith, omega arith, inr refl, λ a h. refl)
  | inr a1 ↦ elim (Bool-cases (c == 13)) [
    | inl return ↦ rw (a1, return) (omega arith, omega arith, inr refl, λ a h. refl)
    | inr a2 ↦ elim (Bool-cases (c == 9)) [
      | inl tab ↦ rw (a1, a2, tab) (omega arith, tab_bound v.col k, inl r, λ a h. refl)
      | inr a3 ↦ elim (Bool-cases (c == 8)) [
        | inr plain ↦ rw (a1, a2, a3, plain) (omega arith, omega arith, inl r, λ a h. ground arith)
        | inl back ↦ elim (Bool-cases (ltb 0 v.col)) [
          | inl some_left ↦
              rw (a1, a2, a3, back, some_left)
                (omega arith, omega arith, inl r, λ a h. ground arith)
          | inr start ↦ rw (a1, a2, a3, back, start) (omega arith, omega arith, inl r, λ a h. refl)
        ]
      ]
    ]
  ]
]

wrap_line-bounds :
    (v : Vga)
    → v.row ≤ 25
    → v.col ≤ 80
    → (v.row < 25) ⊎ (v.col ≡ 0)
    → ((wrap_line v).row ≤ 25) × ((wrap_line v).col < 80) × Inside v (wrap_line v)
unfolding wrap_line
wrap_line-bounds v r c h = elim (Bool-cases (leb 80 v.col)) [
  | inl end ↦ rw end (ground arith, omega arith, λ a h. refl)
  | inr more ↦ rw more (omega arith, ground arith, λ a h. refl)
]

scroll_if-bounds :
    (v : Vga) → v.row ≤ 25 → v.col < 80 → IsOnScreen (scroll_if v) × Inside v (scroll_if v)
unfolding scroll_if
scroll_if-bounds v r c = elim (Bool-cases (leb 25 v.row)) [
  | inl below ↦ rw below (
    (omega (arith, vga_scroll_lem v 0), omega (arith, vga_scroll_lem v 0)),
    λ a h. ground (arith, vga_scroll_lem v a),
  )
  | inr fits ↦ rw fits ((ground arith, c), λ a h. refl)
]

update_cursor-buffer : (v : Vga) → (vga_update_cursor v).buffer ≡ v.buffer
unfolding vga_update_cursor
update_cursor-buffer v = refl

update_cursor-IsOnScreen : (v : Vga) → IsOnScreen v → IsOnScreen (vga_update_cursor v)
unfolding vga_update_cursor
update_cursor-IsOnScreen v h = h

-- With the cursor on the screen, vga_putchar of any character keeps it there, writes to no cell outside
-- the screen, and sends the position of the cursor to the hardware.
pub vga_putchar-Shown :
    (c : ℕ) (v : Vga)
    → IsOnScreen v
    → IsOnScreen (vga_putchar c v) × Inside v (vga_putchar c v) × Shown (vga_putchar c v)
unfolding vga_putchar
vga_putchar-Shown c v h =
    let v1 = place_char c v in
    let v2 = wrap_line v1 in
    let v3 = scroll_if v2 in
    let (r1, c1, e1, i1) = place_char-bounds c v h in
    let (r2, c2, i2) = wrap_line-bounds v1 r1 c1 e1 in
    let (h3, i3) = scroll_if-bounds v2 r2 c2 in
    (
      update_cursor-IsOnScreen v3 h3,
      λ a out. ap (λ b. b a) (update_cursor-buffer v3) ∙ i3 a out ∙ i2 a out ∙ i1 a out,
      update_cursor-Shown v3 h3,
    )

-- vga_print of any string does so too.
pub vga_print-IsOnScreen :
    (s : CString) (v : Vga) → IsOnScreen v → IsOnScreen (vga_print s v) × Inside v (vga_print s v)
unfolding vga_print
vga_print-IsOnScreen [] v h = (h, λ a out. refl)
vga_print-IsOnScreen (c ∷ s) v h = elim (Bool-cases (c == 0)) [
  | inl end ↦ rw end (h, λ a out. refl)
  | inr more ↦
      let (h1, i1, shown) = vga_putchar-Shown c v h in
      let (h2, i2) = vga_print-IsOnScreen s (vga_putchar c v) h1 in
      rw more (h2, λ a out. i2 a out ∙ i1 a out)
]
