-- ===== src/Nano/Loop.antt =====
-- The main loop of the editor of src/kernel/shell.c, and the command that runs it.
use kontol_os.Base.{
  ℕ, zero, suc, ◌+◌, ◌-◌, ◌*◌, Option, none, some, List, [], ◌∷◌, ◌++◌, if◌then◌else◌, ◌==◌, length,
  replicate, min,
}
use mathlib.Core.Option
use kontol_os.CString.{CString, strlen}
use kontol_os.Memory.{kmalloc, kfree, null}
use kontol_os.Keyboard.{keyboard_getchar}
use kontol_os.Ramfs.{fs_exists, fs_create}
use kontol_os.Screen.{
  Call, set_color, print, print_dec, putchar, clear, set_cursor, hide_cursor, show_cursor, say, ink,
  to_int, black, white, light_grey,
}
use kontol_os.Shell.System.{System, Outcome, Handler, draw, finish, second}
use kontol_os.Nano.{Editor, line_at, press, clamp, nano_max_lines}
use kontol_os.Nano.Storage.{alloc_lines, free_lines, open_file, save}

-- The loop over the content area: `n` lines from the line `i` on.
unfoldable pub content_calls : ℕ → ℕ → List (List ℕ) → List Call
content_calls zero i ls = []
content_calls (suc n) i ls =
    set_cursor (i + 1) 0 ∷ print (line_at i ls) ∷ content_calls n (i + 1) ls

-- The drawing at the start of a round.
unfoldable pub screen_calls : CString → ℕ × ℕ → Editor → List Call
screen_calls filename (read1, read2) e =
    clear
    ∷ hide_cursor
    ∷ set_color black white
    ∷ say "  KontolOS nano - "
    ∷ print filename
    ∷ ((if e.modified then say " [modified]" ∷ [] else [])
        ++ (replicate (80 - (40 + strlen filename)) (putchar b' ')
            ++ (ink white
                ∷ (content_calls (min 22 e.num_lines) 0 e.lines
                    ++ (set_cursor 23 0
                        ∷ set_color black light_grey
                        ∷ say "  ^S Save  ^X Exit                                Line:"
                        ∷ print_dec (to_int (e.cur_line + 1))
                        ∷ say " Col:"
                        ∷ print_dec (to_int (e.cur_col + 1))
                        ∷ say "          "
                        ∷ ink white
                        ∷ set_cursor (e.cur_line + 1) e.cur_col
                        ∷ show_cursor read1 read2
                        ∷ [])))))

-- The `while` loop, in at most `fuel` rounds; `none` also while it waits for a key.
unfoldable pub nano_loop : ℕ → CString → Editor → System → Option (Editor × System)
nano_loop zero filename e s = none
nano_loop (suc fuel) filename e s =
    let s1 = draw (screen_calls filename s.shape e) s in
    Option.bind (keyboard_getchar s1.arriving s1.keyboard) λ (c, k, rest).
      let s2 = record s1 { keyboard = k; arriving = rest } in
      let saved =
        Option.bind (save filename e s2) λ (e', s3). nano_loop fuel filename (clamp e') s3 in
      let pressed = Option.bind (press c e) (λ e'. nano_loop fuel filename e' s2) in
      if c == 19 then saved else if c == 24 then some (clamp e, s2) else pressed

-- `if (!fs_exists(filename)) fs_create(filename);`
unfoldable pub ensure_file : CString → System → Option System
ensure_file filename s =
    if fs_exists filename s.fs
    then some s
    else Option.map (λ (result, fs). record s { fs = fs }) (fs_create (some filename) s.fs)

-- The cleanup, and the screen that is left.
unfoldable pub leave : ℕ → List ℕ → System → Option Outcome
leave table ps s = Option.bind (free_lines ps s.memory) λ m1.
    Option.bind (kfree table m1) λ m2. finish (clear ∷ ink white ∷ []) (record s { memory = m2 })

-- The editor with its table of lines at `table`. The ring holds at most 255 characters, and an
-- interrupt adds at most one.
unfoldable pub run_nano : CString → ℕ → System → Option Outcome
run_nano filename table s = Option.bind (alloc_lines nano_max_lines s.memory) λ (ps, ls, m).
    Option.bind (open_file filename ls (record s { memory = m })) λ (e, s1).
      Option.bind (nano_loop (256 + length s1.arriving) filename e s1) λ (e', s2). leave table ps s2

unfoldable pub nano_file : CString → System → Option Outcome
nano_file filename s = Option.bind (ensure_file filename s) λ s1.
    Option.bind (kmalloc (nano_max_lines * 4) s1.memory) λ (table, m).
      let s2 = record s1 { memory = m } in
      if table == null
      then finish (say "Error: Out of memory\n" ∷ []) s2
      else run_nano filename table s2

unfoldable pub cmd_nano : Handler
cmd_nano argv s = elim (second argv) [
  | none ↦ finish (say "Usage: nano <filename>\n" ∷ []) s
  | some filename ↦ nano_file filename s
]
