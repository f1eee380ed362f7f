-- ===== src/Vga/Scroll.antt =====
-- What the loops of vga_scroll and vga_clear of src/drivers/vga.c leave on the screen.
use kontol_os.Base.{
  ℕ, zero, suc, ◌+◌, ◌-◌, ◌*◌, ◌≤◌, ◌≡◌, refl, ap, ap₂, ◌∙◌, arith, if◌then◌else◌, ltb, update,
  for_range,
}
use kontol_os.Bytes.Copy.{within}
use kontol_os.Vga.{
  Vga, vga_entry, blank_row, copy_row, copy_rows, vga_scroll, vga_clear, vga_update_cursor,
}

blank_row_lem :
    (color y lo n : ℕ) (b : ℕ → ℕ) (a : ℕ)
    → blank_row color y lo n b a ≡ (if within (y * 80 + lo) n a then vga_entry b' ' color else b a)
unfolding for_range
blank_row_lem color y lo zero b a = ground arith
blank_row_lem color y lo (suc n) b a =
    ground
      (arith, blank_row_lem color y (lo + 1) n (update b (y * 80 + lo) (vga_entry b' ' color)) a)

-- A row is copied from the one below it, which it does not overlap.
copy_row_lem :
    (y lo n : ℕ) (b : ℕ → ℕ) (a : ℕ)
    → lo + n ≤ 80
    → copy_row (y + 1) lo n b a ≡ (if within (y * 80 + lo) n a then b (a + 80) else b a)
unfolding for_range
copy_row_lem y lo zero b a h = ground arith
copy_row_lem y lo (suc n) b a h = ground (
  arith,
  copy_row_lem y (lo + 1) n (update b ((y + 1 - 1) * 80 + lo) (b ((y + 1) * 80 + lo))) a
      (omega arith),
)

-- A region and the 80 cells in front of it.
joined_regions :
    (p m a x y : ℕ)
    → (if within (p + 80) m a then x else if within (p + 0) 80 a then x else y)
      ≡ (if within p (80 + m) a then x else y)
joined_regions p m a x y = ground arith

region_at :
    (p q m n a x y : ℕ)
    → p ≡ q
    → m ≡ n
    → (if within p m a then x else y) ≡ (if within q n a then x else y)
region_at p q m n a x y e f = ap₂ (λ s l. if within s l a then x else y) e f

-- In the region behind the row, what is copied is not what was written.
behind :
    (p m a x y z : ℕ)
    → (if within (p + 80) m a then (if within (p + 0) 80 (a + 80) then z else x) else y)
      ≡ (if within (p + 80) m a then x else y)
behind p m a x y z = ground arith

copy_rows_lem :
    (y n : ℕ) (b : ℕ → ℕ) (a : ℕ)
    → copy_rows (y + 1) n b a ≡ (if within (y * 80) (n * 80) a then b (a + 80) else b a)
unfolding for_range
copy_rows_lem y zero b a = ground arith
copy_rows_lem y (suc n) b a =
    let below = copy_row (y + 1) 0 80 b in
    copy_rows_lem (y + 1) n below a
    ∙ region_at ((y + 1) * 80) (y * 80 + 80) (n * 80) (n * 80) a (below (a + 80)) (below a)
        (omega arith) refl
    ∙ ap₂ (λ s t. if within (y * 80 + 80) (n * 80) a then s else t)
        (copy_row_lem y 0 80 b (a + 80) (omega arith)) (copy_row_lem y 0 80 b a (omega arith))
    ∙ behind (y * 80) (n * 80) a (b (a + 80)) (if within (y * 80 + 0) 80 a then b (a + 80) else b a)
        (b (a + 80 + 80))
    ∙ joined_regions (y * 80) (n * 80) a (b (a + 80)) (b a)
    ∙ region_at (y * 80) (y * 80) (80 + n * 80) (suc n * 80) a (b (a + 80)) (b a) refl (omega arith)

blank_rows_lem :
    (color y n : ℕ) (b : ℕ → ℕ) (a : ℕ)
    → for_range y n (λ y b. blank_row color y 0 80 b) b a
      ≡ (if within (y * 80) (n * 80) a then vga_entry b' ' color else b a)
unfolding for_range
blank_rows_lem color y zero b a = ground arith
blank_rows_lem color y (suc n) b a =
    let first = blank_row color y 0 80 b in
    let e = vga_entry b' ' color in
    blank_rows_lem color (y + 1) n first a
    ∙ region_at ((y + 1) * 80) (y * 80 + 80) (n * 80) (n * 80) a e (first a) (omega arith) refl
    ∙ ap (λ t. if within (y * 80 + 80) (n * 80) a then e else t) (blank_row_lem color y 0 80 b a)
    ∙ joined_regions (y * 80) (n * 80) a e (b a)
    ∙ region_at (y * 80) (y * 80) (80 + n * 80) (suc n * 80) a e (b a) refl (omega arith)

-- vga_scroll moves every row of the screen up by one, over the first; the last row becomes blank in the
-- current colour; nothing outside the screen changes, and the cursor row is the last one.
pub vga_scroll_lem :
    (v : Vga) (a : ℕ)
    → ((vga_scroll v).buffer a ≡ (
        if ltb a 1920
        then v.buffer (a + 80)
        else if ltb a 2000
        then vga_entry b' ' v.color
        else v.buffer a))
      × ((vga_scroll v).row ≡ 24)
      × ((vga_scroll v).col ≡ v.col)
unfolding vga_scroll
vga_scroll_lem v a = (
  ground (
    arith,
    blank_row_lem v.color 24 0 80 (copy_rows 1 24 v.buffer) a,
    copy_rows_lem 0 24 v.buffer a,
  ),
  refl,
  refl,
)

-- vga_clear makes every cell of the screen blank, changes none outside it, and puts the cursor on the
-- first cell.
pub vga_clear_lem :
    (v : Vga) (a : ℕ)
    → ((vga_clear v).buffer a ≡ (if ltb a 2000 then vga_entry b' ' v.color else v.buffer a))
      × ((vga_clear v).row ≡ 0)
      × ((vga_clear v).col ≡ 0)
unfolding vga_clear vga_update_cursor
vga_clear_lem v a = (ground (arith, blank_rows_lem v.color 0 25 v.buffer a), refl, refl)
