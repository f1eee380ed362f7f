-- ===== src/Vga.antt =====
-- The text-mode driver of src/drivers/vga.c: the screen, the cursor, and the functions that print.
--
-- The screen memory at 0xB8000 is a function from cell indices; its 2000 cells are the ones on the
-- screen. `outb` appends to the list of the writes to ports, the newest first.
pub mod Scroll
pub mod Cursor
pub mod At
pub mod Decimal
pub mod Hex
mod Tests
use kontol_os.Base.{
  ℕ, zero, suc, ◌+◌, ◌-◌, ◌*◌, ◌/◌, ◌%◌, ◌^◌, bit_and, bit_or, Bool, true, false, not, ◌&&◌, ◌||◌,
  List, [], ◌∷◌, if◌then◌else◌, ◌==◌, ltb, leb, get_or, update, for_range, ℤ, pos, negsuc,
}
use kontol_os.CString.{CString, deref, strlen}

abbrev pub vga_width : ℕ
vga_width = 80

abbrev pub vga_height : ℕ
vga_height = 25

abbrev pub vga_ctrl_port : ℕ
vga_ctrl_port = 0x3d4

abbrev pub vga_data_port : ℕ
vga_data_port = 0x3d5

pub record Vga : Type 0 where
  pub row : ℕ
  pub col : ℕ
  pub color : ℕ
  pub buffer : ℕ → ℕ
  pub outs : List (ℕ × ℕ)

-- VGA_MAKE_COLOR
abbrev pub vga_make_color : ℕ → ℕ → ℕ
vga_make_color fg bg = bit_or fg (bg * 2 ^ 4) % 2 ^ 8

-- A `char` is the byte that `unsigned char` makes of it.
unfoldable pub vga_entry : ℕ → ℕ → ℕ
vga_entry c color = bit_or c (color * 2 ^ 8) % 2 ^ 16

-- `vga_buffer[index] = entry`
abbrev pub put_cell : ℕ → ℕ → Vga → Vga
put_cell i entry v = record v { buffer = update v.buffer i entry }

abbrev pub outb : ℕ → ℕ → Vga → Vga
outb port value v = record v { outs = (port, value) ∷ v.outs }

unfoldable pub vga_update_cursor : Vga → Vga
vga_update_cursor v =
    let p = (v.row * vga_width + v.col) % 2 ^ 16 in
    outb vga_data_port (p % 2 ^ 8)
      (outb vga_ctrl_port 15 (outb vga_data_port (p / 2 ^ 8 % 2 ^ 8) (outb vga_ctrl_port 14 v)))

unfoldable pub vga_init : Vga → Vga
vga_init v = record v { row = 0; col = 0; color = vga_make_color 7 0 }

-- A row of blanks at `y`, from column `lo` on.
abbrev pub blank_row : ℕ → ℕ → ℕ → ℕ → (ℕ → ℕ) → ℕ → ℕ
blank_row color y lo n b =
    for_range lo n (λ x b. update b (y * vga_width + x) (vga_entry b' ' color)) b

unfoldable pub vga_clear : Vga → Vga
vga_clear v = vga_update_cursor (record v {
  buffer = for_range 0 vga_height (λ y b. blank_row v.color y 0 vga_width b) v.buffer;
  row = 0;
  col = 0;
})

unfoldable pub vga_set_color : ℕ → ℕ → Vga → Vga
vga_set_color fg bg v = record v { color = vga_make_color fg bg }

-- The inner loop of vga_scroll on the row `y`, from column `lo` on.
abbrev pub copy_row : ℕ → ℕ → ℕ → (ℕ → ℕ) → ℕ → ℕ
copy_row y lo n b =
    for_range lo n (λ x b. update b ((y - 1) * vga_width + x) (b (y * vga_width + x))) b

abbrev pub copy_rows : ℕ → ℕ → (ℕ → ℕ) → ℕ → ℕ
copy_rows lo n b = for_range lo n (λ y b. copy_row y 0 vga_width b) b

unfoldable pub vga_scroll : Vga → Vga
vga_scroll v = record v {
  buffer = blank_row v.color (vga_height - 1) 0 vga_width (copy_rows 1 (vga_height - 1) v.buffer);
  row = vga_height - 1;
}

-- The chain of tests on the character.
unfoldable pub place_char : ℕ → Vga → Vga
place_char c v =
    if c == 10
    then record v { col = 0; row = v.row + 1 }
    else if c == 13
    then record v { col = 0 }
    else if c == 9
    then record v { col = bit_and (v.col + 4) (2 ^ 32 - 4) }
    else if c == 8
    then if ltb 0 v.col
      then put_cell (v.row * vga_width + (v.col - 1)) (vga_entry b' ' v.color)
          (record v { col = v.col - 1 })
      else v
    else record (put_cell (v.row * vga_width + v.col) (vga_entry c v.color) v) { col = v.col + 1 }

unfoldable pub wrap_line : Vga → Vga
wrap_line v = if leb vga_width v.col then record v { col = 0; row = v.row + 1 } else v

unfoldable pub scroll_if : Vga → Vga
scroll_if v = if leb vga_height v.row then vga_scroll v else v

unfoldable pub vga_putchar : ℕ → Vga → Vga
vga_putchar c v = vga_update_cursor (scroll_if (wrap_line (place_char c v)))

unfoldable pub vga_print : CString → Vga → Vga
vga_print [] v = v
vga_print (c ∷ s) v = let rest = vga_print s (vga_putchar c v) in if c == 0 then v else rest

unfoldable pub vga_println : CString → Vga → Vga
vga_println s v = vga_putchar 10 (vga_print s v)

-- `-num` of an `int32_t`, which leaves the least value.
abbrev pub neg32 : ℤ → ℤ
neg32 (pos zero) = pos 0
neg32 (pos (suc n)) = negsuc n
neg32 (negsuc n) = if n + 1 == 2 ^ 31 then negsuc n else pos (n + 1)

-- `while (num > 0)`: the digits, the lowest first, in at most `fuel` rounds.
unfoldable pub dec_digits : ℕ → ℕ → List ℕ
dec_digits zero n = []
dec_digits (suc fuel) n =
    let rest = dec_digits fuel (n / 10) in if n == 0 then [] else (b'0' + n % 10) ∷ rest

-- `while (--i >= 0) vga_putchar(buffer[i]);`
unfoldable pub print_reversed : List ℕ → Vga → Vga
print_reversed [] v = v
print_reversed (c ∷ cs) v = vga_putchar c (print_reversed cs v)

-- The loops of vga_print_dec; a number that is not positive has no rounds.
unfoldable pub print_digits : ℤ → Bool → Vga → Vga
print_digits (pos n) negative v =
    print_reversed (dec_digits 11 n) (if negative then vga_putchar b'-' v else v)
print_digits (negsuc n) negative v = if negative then vga_putchar b'-' v else v

unfoldable pub vga_print_dec : ℤ → Vga → Vga
vga_print_dec (pos zero) v = vga_putchar b'0' v
vga_print_dec (pos (suc n)) v = print_digits (pos (suc n)) false v
vga_print_dec (negsuc n) v = print_digits (neg32 (negsuc n)) true v

unfoldable pub vga_set_cursor : ℕ → ℕ → Vga → Vga
vga_set_cursor row col v =
    if ltb row vga_height && ltb col vga_width
    then vga_update_cursor (record v { row = row; col = col })
    else v

unfoldable pub vga_get_row : Vga → ℕ
vga_get_row v = v.row

unfoldable pub vga_get_col : Vga → ℕ
vga_get_col v = v.col

unfoldable pub vga_hide_cursor : Vga → Vga
vga_hide_cursor v = outb vga_data_port 0x20 (outb vga_ctrl_port 0x0a v)

unfoldable pub vga_put_at : ℕ → ℕ → ℕ → Vga → Vga
vga_put_at row col c v =
    if ltb row vga_height && ltb col vga_width
    then put_cell (row * vga_width + col) (vga_entry c v.color) v
    else v

-- The loop of vga_print_at, which moves the cursor of the driver as it goes.
unfoldable pub print_from : ℕ → CString → Vga → Vga
print_from col [] v = v
print_from col (c ∷ s) v =
    let line = print_from col s (record v { row = v.row + 1; col = col }) in
    let next = print_from col s (record (vga_put_at v.row v.col c v) { col = v.col + 1 }) in
    if not (c == 0) && ltb v.col vga_width then if c == 10 then line else next else v

unfoldable pub vga_print_at : ℕ → ℕ → CString → Vga → Vga
vga_print_at row col s v = record (print_from col s (record v { row = row; col = col })) {
  row = v.row;
  col = v.col;
}

unfoldable pub vga_print_centered : ℕ → CString → Vga → Vga
vga_print_centered row s v =
    let len = strlen s in
    vga_print_at row (if ltb len vga_width then (vga_width - len) / 2 else 0) s v

-- The string literal of vga_print_hex.
abbrev pub hex_chars : List ℕ
hex_chars =
    b'0' ∷ b'1' ∷ b'2' ∷ b'3' ∷ b'4' ∷ b'5' ∷ b'6' ∷ b'7' ∷ b'8' ∷ b'9' ∷ b'A' ∷ b'B' ∷ b'C' ∷ b'D'
    ∷ b'E' ∷ b'F' ∷ []

-- The loop that fills the buffer from the end, `n` characters in front of those that are there.
unfoldable pub hex_fill : ℕ → ℕ → List ℕ → List ℕ
hex_fill zero num buffer = buffer
hex_fill (suc n) num buffer = hex_fill n (num / 2 ^ 4) (get_or hex_chars (num % 2 ^ 4) 0 ∷ buffer)

-- `while (*ptr == '0' && *(ptr + 1) != '\0') ptr++;`
unfoldable pub skip_zeros : CString → CString
skip_zeros [] = []
skip_zeros (c ∷ s) =
    let rest = skip_zeros s in if c == b'0' && not (deref s == 0) then rest else c ∷ s

unfoldable pub vga_print_hex : ℕ → Vga → Vga
vga_print_hex num v = vga_print (skip_zeros (hex_fill 8 num [])) (vga_print (b'0' ∷ b'x' ∷ []) v)

-- What the two reads of the data port give comes first.
unfoldable pub vga_show_cursor : ℕ → ℕ → Vga → Vga
vga_show_cursor read1 read2 v = outb vga_data_port (bit_or (bit_and read2 0xe0) 15) (
    outb vga_ctrl_port 0x0b
      (outb vga_data_port (bit_or (bit_and read1 0xc0) 14) (outb vga_ctrl_port 0x0a v)))
