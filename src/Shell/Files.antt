-- ===== src/Shell/Files.antt =====
-- The commands of src/kernel/shell.c on files: ls, cat, touch, rm, mkdir, rmdir, cd.
use Prim.Native.String.{String}
use kontol_os.Base.{
  ℕ, zero, suc, ◌+◌, ◌-◌, ◌&&◌, Option, none, some, List, [], ◌∷◌, ◌++◌, if◌then◌else◌, ◌==◌, ℤ,
  pos, negsuc, add32, update, not, ltb,
}
use mathlib.Core.Option
use kontol_os.Bytes.{Bytes}
use kontol_os.CString.{CString, deref}
use kontol_os.Memory.{Memory, kmalloc, kfree, null, room}
use kontol_os.Ramfs.{
  Fs, fs_count, fs_open, fs_get_size, fs_create, fs_delete, fs_mkdir, fs_rmdir, fs_chdir, root_name,
}
use kontol_os.Ramfs.Data.{fs_read}
use kontol_os.Ramfs.Listing.{fs_list}
use kontol_os.Screen.{
  Call, print, print_dec, say, ink, to_int, light_cyan, white, dark_grey, light_green, light_red,
}
use kontol_os.Shell.System.{System, Outcome, returned, Handler, draw, finish, second}

-- The characters from `line` to `end`.
unfoldable pub take_line : CString → CString
take_line [] = []
take_line (c ∷ s) = let rest = take_line s in if not (c == 0) && not (c == 10) then c ∷ rest else []

-- `if (*end) end++; line = end;`, with `*end` restored.
unfoldable pub after_line : CString → CString
after_line [] = []
after_line (c ∷ s) =
    let rest = after_line s in
    if not (c == 0) && not (c == 10) then rest else if c == 0 then c ∷ s else s

-- The body of the loop of cmd_ls.
unfoldable pub file_calls : CString → Fs → List Call
file_calls line fs =
    ink light_green
    ∷ say "  "
    ∷ print line
    ∷ (elim (fs_open line fs) [
      | none ↦ []
      | some i ↦
          ink dark_grey
          ∷ say "  ("
          ∷ print_dec (to_int (fs_get_size (some i) fs))
          ∷ say " bytes)"
          ∷ []
    ]
        ++ (say "\n" ∷ []))

-- The loop of cmd_ls; `none` if the fuel runs out.
unfoldable pub ls_loop : ℕ → CString → Fs → Option (List Call)
ls_loop zero line fs = none
ls_loop (suc fuel) line fs =
    let rest = ls_loop fuel (after_line line) fs in
    if deref line == 0
    then some []
    else Option.map (λ cs. file_calls (take_line line) fs ++ cs) rest

unfoldable pub ls_calls : ℕ → List Call → List Call
ls_calls count files =
    ink light_cyan
    ∷ say "\nFiles in filesystem:\n"
    ∷ say "--------------------\n"
    ∷ ink white
    ∷ (files
        ++ (ink dark_grey
            ∷ say "\nTotal: "
            ∷ print_dec (to_int count)
            ∷ say " file(s)\n\n"
            ∷ ink white
            ∷ []))

-- A line of the buffer takes a byte at least, so 1025 rounds are enough.
unfoldable pub cmd_ls : Handler
cmd_ls argv s =
    let count = fs_count s.fs in
    if count == 0
    then finish (ls_calls count (ink dark_grey ∷ say "  (no files)\n" ∷ ink white ∷ [])) s
    else Option.bind (fs_list (some s.stack) 1024 s.fs) (λ (listed, buffer).
      Option.bind (ls_loop 1025 buffer s.fs) (λ files. finish (ls_calls count files) s))

-- "Error: File 'x' not found", and its likes.
unfoldable pub error_calls : String → CString → String → List Call
error_calls before name behind =
    ink light_red ∷ say before ∷ print name ∷ say behind ∷ ink white ∷ []

unfoldable pub success_calls : String → CString → List Call
success_calls before name = ink light_green ∷ say before ∷ print name ∷ say "'\n" ∷ ink white ∷ []

-- The `n` bytes from `p` on.
unfoldable pub string_at : ℕ → ℕ → Bytes → CString
string_at zero p b = []
string_at (suc n) p b = b p ∷ string_at n (p + 1) b

unfoldable pub text_calls : ℕ → ℕ → Bytes → List Call
text_calls size p b =
    print (string_at size p b) ∷ (if not (b (p + size - 1) == 10) then say "\n" ∷ [] else [])

-- cmd_cat with the buffer at `p`: the NUL behind the `size` bytes ends the text that is printed. `none` if
-- the NUL is outside the block of the buffer.
unfoldable pub show_file : ℕ → ℕ → ℕ → System → Option Outcome
show_file i size p s =
    let (got, m) = fs_read (some i) p size 0 s.fs s.memory in
    let b = update m.bytes (p + size) 0 in
    if ltb size (room p s.memory)
    then Option.map (λ m'. returned (record (draw (text_calls size p b) s) { memory = m' }))
        (kfree p (record m { bytes = b }))
    else none

unfoldable pub cat_file : ℕ → System → Option Outcome
cat_file i s =
    let size = fs_get_size (some i) s.fs in
    if size == 0
    then finish (ink dark_grey ∷ say "(empty file)\n" ∷ ink white ∷ []) s
    else Option.bind (kmalloc (add32 size 1) s.memory) (λ (p, m).
      let s1 = record s { memory = m } in
      if p == null then some (returned s1) else show_file i size p s1)

unfoldable pub cmd_cat : Handler
cmd_cat argv s = elim (second argv) [
  | none ↦ finish (say "Usage: cat <filename>\n" ∷ []) s
  | some name ↦ elim (fs_open name s.fs) [
    | none ↦ finish (error_calls "Error: File '" name "' not found\n") s
    | some i ↦ cat_file i s
  ]
]

-- The three branches on a result: 0, -2, and any other.
abbrev pub by_code : ℤ → List Call → List Call → List Call → List Call
by_code (pos zero) ok exists other = ok
by_code (pos (suc n)) ok exists other = other
by_code (negsuc zero) ok exists other = other
by_code (negsuc (suc zero)) ok exists other = exists
by_code (negsuc (suc (suc n))) ok exists other = other

unfoldable pub touch_calls : CString → ℤ → List Call
touch_calls name result =
    by_code result (success_calls "Created file '" name)
      (say "File '" ∷ print name ∷ say "' already exists\n" ∷ [])
      (ink light_red ∷ say "Error: Could not create file\n" ∷ ink white ∷ [])

-- What follows a call that may have changed the file table.
unfoldable pub after_fs : (ℤ → List Call) → System → Option (ℤ × Fs) → Option Outcome
after_fs report s r =
    Option.map (λ (result, fs). returned (draw (report result) (record s { fs = fs }))) r

unfoldable pub cmd_touch : Handler
cmd_touch argv s = elim (second argv) [
  | none ↦ finish (say "Usage: touch <filename>\n" ∷ []) s
  | some name ↦ after_fs (touch_calls name) s (fs_create (some name) s.fs)
]

unfoldable pub rm_calls : CString → ℤ → List Call
rm_calls name result =
    let missing = error_calls "Error: File '" name "' not found\n" in
    by_code result (success_calls "Deleted file '" name) missing missing

-- What follows the call of fs_delete.
unfoldable pub removed : CString → System → ℤ × Fs × Memory → Outcome
removed name s (result, fs, m) =
    returned (draw (rm_calls name result) (record s { fs = fs; memory = m }))

unfoldable pub cmd_rm : Handler
cmd_rm argv s = elim (second argv) [
  | none ↦ finish (say "Usage: rm <filename>\n" ∷ []) s
  | some name ↦ Option.map (removed name s) (fs_delete name s.fs s.memory)
]

unfoldable pub mkdir_calls : CString → ℤ → List Call
mkdir_calls name result =
    by_code result (success_calls "Created directory '" name)
      (say "Directory '" ∷ print name ∷ say "' already exists\n" ∷ [])
      (ink light_red ∷ say "Error: Could not create directory\n" ∷ ink white ∷ [])

unfoldable pub cmd_mkdir : Handler
cmd_mkdir argv s = elim (second argv) [
  | none ↦ finish (say "Usage: mkdir <dirname>\n" ∷ []) s
  | some name ↦ after_fs (mkdir_calls name) s (fs_mkdir (some name) s.fs)
]

unfoldable pub rmdir_calls : CString → ℤ → List Call
rmdir_calls name result =
    by_code result (success_calls "Removed directory '" name)
      (error_calls "Error: '" name "' is not a directory\n")
      (error_calls "Error: Directory '" name "' not found\n")

unfoldable pub cmd_rmdir : Handler
cmd_rmdir argv s = elim (second argv) [
  | none ↦ finish (say "Usage: rmdir <dirname>\n" ∷ []) s
  | some name ↦ after_fs (rmdir_calls name) s (some (fs_rmdir name s.fs))
]

unfoldable pub cd_calls : CString → ℤ → List Call
cd_calls target result =
    by_code result [] (error_calls "Error: '" target "' is not a directory\n")
      (error_calls "Error: Directory '" target "' not found\n")

unfoldable pub cd_to : CString → System → Option Outcome
cd_to target s = after_fs (cd_calls target) s (fs_chdir (some target) s.fs)

unfoldable pub cmd_cd : Handler
cmd_cd argv s = elim (second argv) [ none ↦ cd_to root_name s | some name ↦ cd_to name s ]
