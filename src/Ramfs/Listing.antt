-- ===== src/Ramfs/Listing.antt =====
-- fs_list of src/fs/ramfs.c: the names of the files, a line each, written to a buffer.
use kontol_os.Base.{
  ℕ, zero, suc, ◌+◌, ◌&&◌, Option, none, some, List, [], ◌∷◌, if◌then◌else◌, ◌==◌, ltb, ℤ, pos,
  negsuc, set,
}
use mathlib.Core.Option
use kontol_os.CString.{CString, strlen, strcpy, put}
use kontol_os.Ramfs.{File, Fs, has_flag, fs_flag_used}

-- `strcpy(buffer + pos, s)`
unfoldable pub strcpy_at : ℕ → List ℕ → CString → Option (List ℕ)
strcpy_at zero buffer s = strcpy buffer s
strcpy_at (suc p) [] s = none
strcpy_at (suc p) (x ∷ buffer) s = put x (strcpy_at p buffer s)

-- The loop over the table, with `pos`, `count` and the buffer.
unfoldable pub list_from : ℕ → List File → ℕ → ℕ → List ℕ → Option (ℕ × List ℕ)
list_from buffer_size [] p count buffer = some (count, buffer)
list_from buffer_size (f ∷ fs) p count buffer =
    let name_len = strlen f.name in
    let skip = list_from buffer_size fs p count buffer in
    let listed = Option.bind (strcpy_at p buffer f.name) λ b.
      list_from buffer_size fs (p + name_len + 1) (count + 1)
        (set (set b (p + name_len) 10) (p + name_len + 1) 0) in
    if has_flag fs_flag_used f && ltb (p + name_len + 2) buffer_size then listed else skip

-- `none` as the buffer is NULL; `buffer_size` is the caller's claim of its length.
unfoldable pub fs_list : Option (List ℕ) → ℕ → Fs → Option (ℤ × List ℕ)
fs_list none buffer_size fs = some (negsuc 0, [])
fs_list (some buffer) buffer_size fs =
    if buffer_size == 0
    then some (negsuc 0, buffer)
    else Option.map (λ (count, b). (pos count, b))
        (list_from buffer_size fs.file_table 0 0 (set buffer 0 0))
