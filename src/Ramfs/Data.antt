-- ===== src/Ramfs/Data.antt =====
-- Reading and writing the contents of a file of src/fs/ramfs.c.
use kontol_os.Base.{
  ℕ, not, ◌&&◌, ◌||◌, Option, none, some, if◌then◌else◌, ◌==◌, ltb, leb, ℤ, pos, negsuc, add32,
  sub32,
}
use mathlib.Core.Option
use kontol_os.Bytes.{memcpy}
use kontol_os.Memory.{Memory, kmalloc, null}
use kontol_os.Ramfs.{Fs, file_at, write_file, fs_max_filesize, free_data}

-- The bytes to copy, or the code to return.
unfoldable pub fs_read : Option ℕ → ℕ → ℕ → ℕ → Fs → Memory → ℤ × Memory
fs_read none buffer size offset fs m = (negsuc 0, m)
fs_read (some i) buffer size offset fs m =
    let f = file_at fs i in
    let available = sub32 f.size offset in
    let to_read = if ltb size available then size else available in
    if buffer == null
    then (negsuc 0, m)
    else if leb f.size offset
    then (pos 0, m)
    else if f.data_ptr == null
    then (pos to_read, m)
    else (pos to_read, record m { bytes = memcpy buffer (add32 f.data_ptr offset) to_read m.bytes })

-- The end of fs_write, once the old data is freed and `p` is what kmalloc returned.
unfoldable pub fill_file : ℕ → ℕ → ℕ → ℕ → Fs → Memory → ℤ × Fs × Memory
fill_file i source size p fs m =
    let f = file_at fs i in
    if p == null then (negsuc 2, write_file i (record f { data_ptr = null }) fs, m) else (
      pos size,
      write_file i (record f { data_ptr = p; size = size }) fs,
      record m { bytes = memcpy p source size m.bytes },
    )

-- fs_write from the test `size > 0` on, with the old data freed.
unfoldable pub rewrite_file : ℕ → ℕ → ℕ → Fs → Memory → Option (ℤ × Fs × Memory)
rewrite_file i source size fs m =
    let f = file_at fs i in
    if size == 0
    then some (pos 0, write_file i (record f { data_ptr = null; size = 0 }) fs, m)
    else Option.map (λ (p, m'). fill_file i source size p fs m') (kmalloc size m)

unfoldable pub fs_write : Option ℕ → ℕ → ℕ → Fs → Memory → Option (ℤ × Fs × Memory)
fs_write none source size fs m = some (negsuc 0, fs, m)
fs_write (some i) source size fs m =
    if source == null
    then some (negsuc 0, fs, m)
    else if ltb fs_max_filesize size
    then some (negsuc 1, fs, m)
    else Option.bind (free_data (file_at fs i).data_ptr m) (rewrite_file i source size fs)

-- The end of fs_append: the bytes of the file and the new ones go to the buffer `p`.
unfoldable pub join_data : ℕ → ℕ → ℕ → ℕ → Fs → Memory → Option (ℤ × Fs × Memory)
join_data i source size p fs m =
    let f = file_at fs i in
    let old =
      if not (f.data_ptr == null) && ltb 0 f.size
      then memcpy p f.data_ptr f.size m.bytes
      else m.bytes in
    let m1 = record m { bytes = memcpy (add32 p f.size) source size old } in
    if p == null
    then some (negsuc 2, fs, m)
    else Option.map
        (λ m2.
          (pos size, write_file i (record f { data_ptr = p; size = add32 f.size size }) fs, m2))
        (free_data f.data_ptr m1)

unfoldable pub fs_append : Option ℕ → ℕ → ℕ → Fs → Memory → Option (ℤ × Fs × Memory)
fs_append none source size fs m = some (negsuc 0, fs, m)
fs_append (some i) source size fs m =
    let new_size = add32 (file_at fs i).size size in
    if source == null || size == 0
    then some (negsuc 0, fs, m)
    else if ltb fs_max_filesize new_size
    then some (negsuc 1, fs, m)
    else Option.bind (kmalloc new_size m) (λ (p, m'). join_data i source size p fs m')

unfoldable pub fs_truncate : Option ℕ → Fs → Memory → Option (ℤ × Fs × Memory)
fs_truncate none fs m = some (negsuc 0, fs, m)
fs_truncate (some i) fs m =
    Option.map
      (λ m'. (pos 0, write_file i (record (file_at fs i) { data_ptr = null; size = 0 }) fs, m'))
      (free_data (file_at fs i).data_ptr m)
