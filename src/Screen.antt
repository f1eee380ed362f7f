-- ===== src/Screen.antt =====
-- The colours of src/drivers/vga.h, and the string literals that src/kernel/shell.c and
-- src/kernel/kernel.c print.
pub mod Calls
mod Tests
use Prim.Native.Char.{code}
use Prim.Native.String.{String}
use kontol_os.Base.{ℕ, ◌^◌, ◌-◌, List, [], ◌∷◌, ltb, if◌then◌else◌, ℤ, pos, negsuc}
use kontol_os.CString.{CString}
use kontol_os.Vga.{
  Vga, vga_print, vga_putchar, vga_set_color, vga_print_dec, vga_print_hex, vga_clear,
  vga_set_cursor, vga_hide_cursor, vga_show_cursor, vga_put_at, vga_print_centered,
}

abbrev pub black : ℕ
black = 0

abbrev pub red : ℕ
red = 4

abbrev pub light_grey : ℕ
light_grey = 7

abbrev pub dark_grey : ℕ
dark_grey = 8

abbrev pub light_green : ℕ
light_green = 10

abbrev pub light_cyan : ℕ
light_cyan = 11

abbrev pub light_red : ℕ
light_red = 12

abbrev pub light_brown : ℕ
light_brown = 14

abbrev pub white : ℕ
white = 15

-- The bytes of a literal. `String` has its own `[]` and `∷`.
abbrev pub codes : String → List ℕ
codes String.[] = []
codes (String.◌∷◌ c s) = code c ∷ codes s

-- A call of a function of src/drivers/vga.c. The two numbers of `show_cursor` are what its reads of the
-- data port give.
pub data Call : Type 0 where
  set_color : ℕ → ℕ → Call
  print : CString → Call
  print_dec : ℤ → Call
  print_hex : ℕ → Call
  putchar : ℕ → Call
  clear : Call
  set_cursor : ℕ → ℕ → Call
  hide_cursor : Call
  show_cursor : ℕ → ℕ → Call
  put_at : ℕ → ℕ → ℕ → Call
  print_centered : ℕ → CString → Call

unfoldable pub perform : Call → Vga → Vga
perform (set_color fg bg) v = vga_set_color fg bg v
perform (print s) v = vga_print s v
perform (print_dec n) v = vga_print_dec n v
perform (print_hex n) v = vga_print_hex n v
perform (putchar c) v = vga_putchar c v
perform clear v = vga_clear v
perform (set_cursor row col) v = vga_set_cursor row col v
perform hide_cursor v = vga_hide_cursor v
perform (show_cursor read1 read2) v = vga_show_cursor read1 read2 v
perform (put_at row col c) v = vga_put_at row col c v
perform (print_centered row s) v = vga_print_centered row s v

-- The calls of a piece of code without branches, in order.
unfoldable pub calls : List Call → Vga → Vga
calls [] v = v
calls (c ∷ cs) v = calls cs (perform c v)

-- `vga_print("...")`
abbrev pub say : String → Call
say s = print (codes s)

-- `vga_set_color(fg, VGA_COLOR_BLACK)`
abbrev pub ink : ℕ → Call
ink fg = set_color fg black

-- A 32-bit number passed as an `int32_t`.
unfoldable pub to_int : ℕ → ℤ
to_int n = if ltb n (2 ^ 31) then pos n else negsuc (2 ^ 32 - 1 - n)
