-- ===== src/Screen/Tests.antt =====
-- The literals of src/kernel/shell.c at concrete inputs.
use kontol_os.Base.{◌≡◌, refl, negsuc, pos, List, [], ◌∷◌, arith}
use kontol_os.Vga.{Vga}
use kontol_os.Screen.{Call, to_int, codes, say, ink, print_dec, set_cursor, putchar, calls, red}
use kontol_os.Screen.Calls.{Keeps, calls-Keeps}

to_int-large : to_int 4294967295 ≡ negsuc 0
unfolding to_int
to_int-large = refl

codes-ok : codes "OK\n" ≡ b'O' ∷ b'K' ∷ 10 ∷ []
codes-ok = refl

abbrev corner : Vga
corner = record { row = 24; col = 79; color = 7; buffer = λ a. a; outs = [] }

abbrev title : List Call
title = ink red ∷ say "KontolOS\n" ∷ print_dec (pos 42) ∷ set_cursor 24 79 ∷ putchar b'!' ∷ []

calls-Keeps_example : Keeps corner (calls title corner)
calls-Keeps_example = calls-Keeps title corner (omega arith, omega arith)
