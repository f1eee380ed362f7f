-- ===== src/Nano.antt =====
-- The editor of src/kernel/shell.c (cmd_nano): its text buffer, and what a key does to it.
--
-- `lines` are the arrays that `lines[i]` point to, 80 bytes each, apart from the heap that holds them;
-- a line that kmalloc did not give is an array of no bytes, so writing to it is a fault. `none` is a
-- write outside an array.
pub mod Storage
pub mod Loop
pub mod Cleanup
pub mod Loading
pub mod Opened
pub mod Rows
pub mod Page
pub mod Lines
pub mod Characters
pub mod Breaks
pub mod Shown
pub mod Typing
pub mod Saving
pub mod Saved
pub mod Sizes
pub mod Sound
mod Tests
use kontol_os.Base.{
  ℕ, zero, suc, ◌+◌, ◌-◌, Bool, true, false, ◌&&◌, ◌||◌, Option, none, some, List, [], ◌∷◌,
  if◌then◌else◌, ◌==◌, ltb, leb, get_or, set, length, drop,
}
use mathlib.Core.Option
use kontol_os.CString.{CString, strlen, strcpy, strcat}

abbrev pub nano_max_lines : ℕ
nano_max_lines = 100

abbrev pub nano_line_len : ℕ
nano_line_len = 80

pub record Editor : Type 0 where
  pub lines : List (List ℕ)
  pub num_lines : ℕ
  pub cur_line : ℕ
  pub cur_col : ℕ
  pub modified : Bool

-- `lines[i]`
abbrev pub line_at : ℕ → List (List ℕ) → List ℕ
line_at i ls = get_or ls i []

-- `line[k] = '\0'`
unfoldable pub end_at : ℕ → List ℕ → Option (List ℕ)
end_at k line = if ltb k (length line) then some (set line k 0) else none

-- `strcpy(lines[dst], lines[src])`
unfoldable pub copy_line : ℕ → ℕ → List (List ℕ) → Option (List (List ℕ))
copy_line src dst ls = Option.map (λ b. set ls dst b) (strcpy (line_at dst ls) (line_at src ls))

-- `n` rounds of the loop that removes a character, from `i` on.
unfoldable pub shift_left : ℕ → ℕ → List ℕ → List ℕ
shift_left zero i line = line
shift_left (suc n) i line = shift_left n (i + 1) (set line i (get_or line (i + 1) 0))

-- `n` rounds of the loop that makes room for a character, from `i` down.
unfoldable pub shift_right : ℕ → ℕ → List ℕ → List ℕ
shift_right zero i line = line
shift_right (suc n) i line = shift_right n (i - 1) (set line i (get_or line (i - 1) 0))

-- `n` rounds of the loop that shifts the lines up, from `i` on.
unfoldable pub shift_up : ℕ → ℕ → List (List ℕ) → Option (List (List ℕ))
shift_up zero i ls = some ls
shift_up (suc n) i ls = Option.bind (copy_line (i + 1) i ls) (λ ls'. shift_up n (i + 1) ls')

-- `n` rounds of the loop that shifts the lines down, from `i` down.
unfoldable pub shift_down : ℕ → ℕ → List (List ℕ) → Option (List (List ℕ))
shift_down zero i ls = some ls
shift_down (suc n) i ls = Option.bind (copy_line (i - 1) i ls) (λ ls'. shift_down n (i - 1) ls')

-- Backspace behind a character.
unfoldable pub delete_char : Editor → Editor
delete_char e =
    let col = e.cur_col - 1 in
    let line = line_at e.cur_line e.lines in
    record e {
      lines = set e.lines e.cur_line (shift_left (strlen line - col) col line);
      cur_col = col;
      modified = true;
    }

-- Backspace at the start of a line: the line is appended to the one before.
unfoldable pub merge_line : Editor → Option Editor
merge_line e =
    let row = e.cur_line - 1 in
    let col = strlen (line_at row e.lines) in
    let last = e.num_lines - 1 in
    Option.bind (strcat (line_at row e.lines) (line_at (row + 1) e.lines)) λ joined.
      Option.bind (shift_up (last - (row + 1)) (row + 1) (set e.lines row joined)) λ ls.
        Option.map
          (λ b. record e {
            lines = set ls last b;
            num_lines = last;
            cur_line = row;
            cur_col = col;
            modified = true;
          })
          (end_at 0 (line_at last ls))

-- Enter, when a line is left.
unfoldable pub split_line : Editor → Option Editor
split_line e =
    let row = e.cur_line in
    Option.bind (shift_down (e.num_lines - (row + 1)) e.num_lines e.lines) λ ls.
      Option.bind (strcpy (line_at (row + 1) ls) (drop e.cur_col (line_at row ls))) λ below.
        Option.map
          (λ above. record e {
            lines = set (set ls (row + 1) below) row above;
            num_lines = e.num_lines + 1;
            cur_line = row + 1;
            cur_col = 0;
            modified = true;
          })
          (end_at e.cur_col (line_at row (set ls (row + 1) below)))

-- A printable character, when the line has room.
unfoldable pub insert_char : ℕ → Editor → Option Editor
insert_char c e =
    let line = line_at e.cur_line e.lines in
    let len = strlen line in
    if ltb (len + 1) (length line)
    then some (record e {
      lines =
          set e.lines e.cur_line
            (set (shift_right (len + 1 - e.cur_col) (len + 1) line) e.cur_col c);
      cur_col = e.cur_col + 1;
      modified = true;
    })
    else none

-- The branches on a key that edits.
unfoldable pub edit : ℕ → Editor → Option Editor
edit c e =
    let len = strlen (line_at e.cur_line e.lines) in
    if c == 8
    then if ltb 0 e.cur_col
      then some (delete_char e)
      else if ltb 0 e.cur_line
      then merge_line e
      else some e
    else if c == 10 || c == 13
    then if ltb e.num_lines nano_max_lines then split_line e else some e
    else if leb 32 c && ltb c 127
    then if ltb len (nano_line_len - 1) then insert_char c e else some e
    else some e

-- The bounds checks at the end of a round. Neither number is ever negative.
unfoldable pub clamp : Editor → Editor
clamp e =
    let row = if leb e.num_lines e.cur_line then e.num_lines - 1 else e.cur_line in
    let len = strlen (line_at row e.lines) in
    record e { cur_line = row; cur_col = if ltb len e.cur_col then len else e.cur_col }

-- A round of the editor on a key other than those that save or leave.
unfoldable pub press : ℕ → Editor → Option Editor
press c e = Option.map clamp (edit c e)
