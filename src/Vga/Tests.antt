-- ===== src/Vga/Tests.antt =====
-- The text-mode driver of src/drivers/vga.c at concrete inputs.
use kontol_os.Base.{ℕ, ◌+◌, ◌-◌, ◌^◌, ◌≡◌, List, [], ◌∷◌, arith, if◌then◌else◌, ◌==◌, negsuc}
use kontol_os.Vga.{Vga, vga_putchar, vga_print, vga_print_at, vga_print_dec}
use kontol_os.Vga.Cursor.{IsOnScreen, Inside, Shown, vga_putchar-Shown}
use kontol_os.Vga.At.{with_line, vga_print_at-line}
use kontol_os.Vga.Decimal.{IsNumeral, vga_print_dec-negsuc}

-- The cursor on the last cell of the screen.
abbrev screen : Vga
screen = record { row = 24; col = 79; color = 7; buffer = λ a. a; outs = [] }

abbrev hi_text : List ℕ
hi_text = b'h' ∷ b'i' ∷ []

vga_putchar-Shown_example :
    IsOnScreen (vga_putchar b'x' screen)
    × Inside screen (vga_putchar b'x' screen)
    × Shown (vga_putchar b'x' screen)
vga_putchar-Shown_example = vga_putchar-Shown b'x' screen (omega arith, omega arith)

vga_print_at-line_example :
    (vga_print_at 3 4 hi_text screen).buffer 245 ≡ with_line 244 hi_text 7 (λ a. a) 245
vga_print_at-line_example =
    vga_print_at-line 3 4 hi_text screen 245
      (omega arith, omega arith, (omega arith, omega arith, tt)) (omega arith) (omega arith)

vga_print_dec-negsuc_example :
    (s : List ℕ) × (vga_print_dec (negsuc (2 ^ 31 - 1)) screen ≡ vga_print (b'-' ∷ s) screen)
    × (if 2 ^ 31 - 1 + 1 == 2 ^ 31 then s ≡ [] else IsNumeral (2 ^ 31 - 1 + 1) s)
vga_print_dec-negsuc_example = vga_print_dec-negsuc (2 ^ 31 - 1) screen (omega arith)
