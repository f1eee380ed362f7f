-- ===== src/Ramfs.antt =====
-- The file system of src/fs/ramfs.c: the file table, the current directory, and the functions on them.
--
-- An index into the table stands for a `fs_file_t *`; `none` is NULL, as for a `const char *`. The
-- functions that allocate take the heap of src/kernel/memory.c. `none` as a result is a write outside an
-- array, or a walk of the heap that does not end.
pub mod Data
pub mod Listing
pub mod Table
pub mod Slots
pub mod Store
pub mod Create
pub mod Remove
pub mod Contents
pub mod Lines
pub mod Start
pub mod Claims
pub mod Rewrite
pub mod Copies
pub mod Same
mod Tests
use kontol_os.Base.{
  ℕ, zero, suc, ◌+◌, ◌-◌, ◌*◌, ◌%◌, bit_and, bit_or, Bool, true, false, not, ◌&&◌, ◌||◌, Option,
  none, some, List, [], ◌∷◌, if◌then◌else◌, ◌==◌, ltb, leb, ℤ, pos, negsuc, get_or, set, length,
  replicate, drop, take, ◌++◌, add32, sub32,
}
use mathlib.Core.Option
use kontol_os.Bytes.{Bytes, memcpy}
use kontol_os.Memory.{Memory, kmalloc, kfree, null}
use kontol_os.CString.{CString, strlen, strcmp, strncpy, strcpy}

abbrev pub fs_max_files : ℕ
fs_max_files = 64

abbrev pub fs_max_filename : ℕ
fs_max_filename = 32

abbrev pub fs_max_filesize : ℕ
fs_max_filesize = 64 * 1024

abbrev pub fs_flag_free : ℕ
fs_flag_free = 0x00

abbrev pub fs_flag_used : ℕ
fs_flag_used = 0x01

abbrev pub fs_flag_directory : ℕ
fs_flag_directory = 0x04

-- `fs_file_t`: `name` is the array, `data` an address.
pub record File : Type 0 where
  pub name : List ℕ
  pub data_ptr : ℕ
  pub size : ℕ
  pub flags : ℕ

pub record Fs : Type 0 where
  pub file_table : List File
  pub current_dir : List ℕ
  pub fs_initialized : ℕ

-- What a slot reads as outside the table.
abbrev pub no_file : File
no_file = record { name = []; data_ptr = null; size = 0; flags = fs_flag_free }

abbrev pub file_at : Fs → ℕ → File
file_at fs i = get_or fs.file_table i no_file

abbrev pub write_file : ℕ → File → Fs → Fs
write_file i f fs = record fs { file_table = set fs.file_table i f }

-- `f->flags & flag`
unfoldable pub has_flag : ℕ → File → Bool
has_flag flag f = not (bit_and f.flags flag == 0)

-- The body of the loop of fs_init: `name[0] = '\0'`, and the other fields.
unfoldable pub clear_entry : File → File
clear_entry f = record { name = set f.name 0 0; data_ptr = null; size = 0; flags = fs_flag_free }

unfoldable pub clear_table : List File → List File
clear_table [] = []
clear_table (f ∷ fs) = clear_entry f ∷ clear_table fs

unfoldable pub fs_init : Fs → Fs
fs_init fs = record fs { file_table = clear_table fs.file_table; fs_initialized = 1 }

-- `strcmp(a, b) == 0`
unfoldable pub same_string : CString → CString → Bool
same_string a b = elim (strcmp a b) [ pos n ↦ n == 0 | negsuc n ↦ false ]

-- The loop of fs_find on the entries from index `i` on; `none` is -1.
unfoldable pub find_from : CString → ℕ → List File → Option ℕ
find_from name i [] = none
find_from name i (f ∷ fs) =
    let rest = find_from name (i + 1) fs in
    if has_flag fs_flag_used f && same_string f.name name then some i else rest

unfoldable pub fs_find : CString → Fs → Option ℕ
fs_find name fs = find_from name 0 fs.file_table

unfoldable pub free_from : ℕ → List File → Option ℕ
free_from i [] = none
free_from i (f ∷ fs) =
    let rest = free_from (i + 1) fs in if not (has_flag fs_flag_used f) then some i else rest

unfoldable pub fs_find_free : Fs → Option ℕ
fs_find_free fs = free_from 0 fs.file_table

abbrev pub is_invalid : CString → Bool
is_invalid name = strlen name == 0 || leb fs_max_filename (strlen name)

-- `strncpy(buffer, name, FS_MAX_FILENAME - 1); buffer[FS_MAX_FILENAME - 1] = '\0';`
unfoldable pub store_name : List ℕ → CString → Option (List ℕ)
store_name buffer name =
    Option.map (λ b. set b (fs_max_filename - 1) 0) (strncpy buffer name (fs_max_filename - 1))

-- The entry that fs_create and fs_mkdir write to a slot, with their flags.
unfoldable pub new_entry : ℕ → CString → Fs → ℕ → Option (ℤ × Fs)
new_entry flags name fs slot = elim (store_name (file_at fs slot).name name) [
  | none ↦ none
  | some b ↦
      some
        (pos 0, write_file slot (record { name = b; data_ptr = null; size = 0; flags = flags }) fs)
]

-- The checks that fs_create and fs_mkdir make before they write the entry.
unfoldable pub create_with : ℕ → CString → Fs → Option (ℤ × Fs)
create_with flags name fs =
    if is_invalid name then some (negsuc 0, fs) else (elim (fs_find name fs) [
      | some i ↦ some (negsuc 1, fs)
      | none ↦ elim (fs_find_free fs) [
        | none ↦ some (negsuc 2, fs)
        | some slot ↦ new_entry flags name fs slot
      ]
    ])

unfoldable pub fs_create : Option CString → Fs → Option (ℤ × Fs)
fs_create none fs = some (negsuc 0, fs)
fs_create (some name) fs = create_with fs_flag_used name fs

unfoldable pub fs_mkdir : Option CString → Fs → Option (ℤ × Fs)
fs_mkdir none fs = some (negsuc 0, fs)
fs_mkdir (some name) fs = create_with (bit_or fs_flag_used fs_flag_directory) name fs

-- `if (p != NULL) kfree(p);`
unfoldable pub free_data : ℕ → Memory → Option Memory
free_data p m = if p == null then some m else kfree p m

unfoldable pub fs_delete : CString → Fs → Memory → Option (ℤ × Fs × Memory)
fs_delete name fs m = elim (fs_find name fs) [
  | none ↦ some (negsuc 0, fs, m)
  | some i ↦
      Option.map (λ m'. (pos 0, write_file i (clear_entry (file_at fs i)) fs, m'))
        (free_data (file_at fs i).data_ptr m)
]

unfoldable pub fs_open : CString → Fs → Option ℕ
fs_open name fs = fs_find name fs

unfoldable pub fs_exists : CString → Fs → Bool
fs_exists name fs = elim (fs_find name fs) [ none ↦ false | some i ↦ true ]

unfoldable pub count_used : List File → ℕ
count_used [] = 0
count_used (f ∷ fs) = (if has_flag fs_flag_used f then 1 else 0) + count_used fs

unfoldable pub fs_count : Fs → ℕ
fs_count fs = count_used fs.file_table

unfoldable pub fs_get_size : Option ℕ → Fs → ℕ
fs_get_size none fs = 0
fs_get_size (some i) fs = (file_at fs i).size

unfoldable pub fs_get_name : Option ℕ → Fs → Option CString
fs_get_name none fs = none
fs_get_name (some i) fs = some (file_at fs i).name

unfoldable pub fs_is_dir : Option ℕ → Fs → Bool
fs_is_dir none fs = false
fs_is_dir (some i) fs = has_flag fs_flag_directory (file_at fs i)

unfoldable pub fs_rmdir : CString → Fs → ℤ × Fs
fs_rmdir name fs = elim (fs_find name fs) [
  | none ↦ (negsuc 0, fs)
  | some i ↦
      if not (has_flag fs_flag_directory (file_at fs i))
      then (negsuc 1, fs)
      else (pos 0, write_file i (clear_entry (file_at fs i)) fs)
]

-- "/" and ".."
abbrev pub root_name : CString
root_name = b'/' ∷ []

abbrev pub parent_name : CString
parent_name = b'.' ∷ b'.' ∷ []

unfoldable pub set_dir : Option (List ℕ) → Fs → Option (ℤ × Fs)
set_dir none fs = none
set_dir (some d) fs = some (pos 0, record fs { current_dir = d })

unfoldable pub fs_chdir : Option CString → Fs → Option (ℤ × Fs)
fs_chdir none fs = some (negsuc 0, fs)
fs_chdir (some name) fs =
    if same_string name root_name || same_string name parent_name
    then set_dir (strcpy fs.current_dir root_name) fs
    else (elim (fs_find name fs) [
      | none ↦ some (negsuc 0, fs)
      | some i ↦
          if not (has_flag fs_flag_directory (file_at fs i))
          then some (negsuc 1, fs)
          else set_dir (store_name fs.current_dir name) fs
    ])

unfoldable pub fs_getcwd : Fs → CString
fs_getcwd fs = fs.current_dir
