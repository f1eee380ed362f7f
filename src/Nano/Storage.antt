-- ===== src/Nano/Storage.antt =====
-- The editor of src/kernel/shell.c and the heap: its lines are allocated and freed, a file is loaded and
-- saved.
use kontol_os.Base.{
  ℕ, zero, suc, ◌+◌, ◌-◌, Bool, false, not, ◌||◌, Option, none, some, List, [], ◌∷◌, if◌then◌else◌,
  ◌==◌, ltb, leb, set, length, add32, update,
}
use mathlib.Core.Option
use kontol_os.Bytes.{Bytes}
use kontol_os.CString.{CString, deref, strlen, strncpy, strcat}
use kontol_os.Memory.{Memory, kmalloc, kfree, null, room}
use kontol_os.Ramfs.{fs_open, fs_get_size, free_data}
use kontol_os.Ramfs.Data.{fs_read, fs_write}
use kontol_os.Shell.System.{System}
use kontol_os.Shell.Files.{take_line, after_line, string_at}
use kontol_os.Nano.{Editor, line_at, end_at, nano_line_len, nano_max_lines}

-- The array behind what kmalloc returned, with `lines[i][0] = '\0'` if there is one.
unfoldable pub new_line : ℕ → Bytes → List ℕ
new_line p b = if p == null then [] else set (string_at nano_line_len p b) 0 0

-- The array has its bytes in the block of the heap.
abbrev pub fits_in : ℕ → ℕ → Memory → Bool
fits_in n p m = p == null || leb n (room p m)

-- The loop that allocates `n` lines: their addresses and their arrays.
unfoldable pub alloc_lines : ℕ → Memory → Option (List ℕ × List (List ℕ) × Memory)
alloc_lines zero m = some ([], [], m)
alloc_lines (suc n) m = Option.bind (kmalloc nano_line_len m) λ (p, m1).
    let rest = alloc_lines n m1 in
    if fits_in nano_line_len p m1
    then Option.map (λ (ps, ls, m2). (p ∷ ps, new_line p m1.bytes ∷ ls, m2)) rest
    else none

-- The loop of the cleanup.
unfoldable pub free_lines : List ℕ → Memory → Option Memory
free_lines [] m = some m
free_lines (p ∷ ps) m = Option.bind (free_data p m) (λ m1. free_lines ps m1)

-- The number of characters that a line keeps.
unfoldable pub kept : ℕ → ℕ
kept len = if leb nano_line_len len then nano_line_len - 1 else len

-- The loop that parses `p` into lines, from the line `num` on, with room for `left` more.
unfoldable pub load_lines : ℕ → ℕ → CString → List (List ℕ) → Option (ℕ × List (List ℕ))
load_lines zero num p ls = some (num, ls)
load_lines (suc left) num p ls =
    let len = kept (length (take_line p)) in
    let rest =
      Option.bind (Option.bind (strncpy (line_at num ls) p len) (λ b. end_at len b))
        λ b. load_lines left (num + 1) (after_line p) (set ls num b) in
    if deref p == 0 then some (num, ls) else rest

-- `num_lines = 1` if the file gave none.
unfoldable pub start : ℕ → List (List ℕ) → Editor
start num ls = record {
  lines = ls;
  num_lines = if num == 0 then 1 else num;
  cur_line = 0;
  cur_col = 0;
  modified = false;
}

-- The existing content of the file at `i`, read through a buffer of the heap.
unfoldable pub load : ℕ → List (List ℕ) → System → Option (Editor × System)
load i ls s =
    let size = fs_get_size (some i) s.fs in
    Option.bind (kmalloc (add32 size 1) s.memory) λ (p, m).
      let (got, m1) = fs_read (some i) p size 0 s.fs m in
      let b = update m1.bytes (p + size) 0 in
      if p == null
      then some (start 1 ls, record s { memory = m })
      else if not (fits_in (size + 1) p m)
      then none
      else Option.bind (load_lines nano_max_lines 0 (string_at size p b) ls) (λ (num, ls').
        Option.map (λ m2. (start num ls', record s { memory = m2 }))
          (kfree p (record m1 { bytes = b })))

-- `if (file && fs_get_size(file) > 0)`
unfoldable pub open_file : CString → List (List ℕ) → System → Option (Editor × System)
open_file filename ls s = elim (fs_open filename s.fs) [
  | none ↦ some (start 1 ls, s)
  | some i ↦ if ltb 0 (fs_get_size (some i) s.fs) then load i ls s else some (start 1 ls, s)
]

-- The bytes that the first `n` lines take, from the line `i` on.
unfoldable pub total_size : ℕ → ℕ → List (List ℕ) → ℕ
total_size zero i ls = 0
total_size (suc n) i ls = strlen (line_at i ls) + 1 + total_size n (i + 1) ls

-- The loop that appends `n` lines to the content, from the line `i` on.
unfoldable pub join_lines : ℕ → ℕ → List (List ℕ) → List ℕ → Option (List ℕ)
join_lines zero i ls content = some content
join_lines (suc n) i ls content =
    Option.bind (strcat content (line_at i ls))
      λ c1. Option.bind (strcat c1 (10 ∷ [])) (λ c2. join_lines n (i + 1) ls c2)

-- Puts an array back into the heap.
unfoldable pub store : ℕ → List ℕ → Bytes → Bytes
store p [] b = b
store p (c ∷ cs) b = store (p + 1) cs (update b p c)

-- Writes the content at `p` to the file, if there is one. The answer of fs_write is not looked at.
unfoldable pub save_to : CString → ℕ → ℕ → Editor → System → Option (Editor × System)
save_to filename p size e s = elim (fs_open filename s.fs) [
  | none ↦ some (e, s)
  | some i ↦
      Option.map
        (λ (result, fs, m). (record e { modified = false }, record s { fs = fs; memory = m }))
        (fs_write (some i) p size s.fs s.memory)
]

-- Ctrl+S
unfoldable pub save : CString → Editor → System → Option (Editor × System)
save filename e s =
    let size = total_size e.num_lines 0 e.lines + 1 in
    Option.bind (kmalloc size s.memory) λ (p, m).
      if p == null
      then some (e, record s { memory = m })
      else if not (fits_in size p m)
      then none
      else Option.bind (join_lines e.num_lines 0 e.lines (set (string_at size p m.bytes) 0 0))
          (λ content.
            Option.bind
              (save_to filename p (strlen content) e
                (record s { memory = record m { bytes = store p content m.bytes } }))
              (λ (e', s'). Option.map (λ m'. (e', record s' { memory = m' })) (kfree p s'.memory)))
