-- ===== src/Ramfs/Create.antt =====
-- fs_create and fs_mkdir of src/fs/ramfs.c.
use kontol_os.Base.{
  ℕ, ◌+◌, ◌<◌, ◌≡◌, ◌≢◌, refl, sym, ap, ◌∙◌, ◌⊎◌, inl, inr, true, false, not, Option, none, some,
  List, arith, if◌then◌else◌, ◌==◌, get_or-set_self, get_or-set_ne, length, length-set, Bool-cases,
  Option-cases, ℤ, pos, negsuc, bit_or, bit_and,
}
use kontol_os.Memory.{null}
use kontol_os.CString.{CString}
use kontol_os.Ramfs.{
  File, Fs, no_file, file_at, write_file, fs_flag_used, fs_flag_directory, fs_max_files, has_flag,
  same_string, fs_find, fs_find_free, free_from, find_from, store_name, new_entry, create_with,
  fs_create, fs_mkdir, fs_count, is_invalid,
}
use kontol_os.Ramfs.Store.{Stored, strlen-Stored, store_name-Stored}
use kontol_os.Ramfs.Table.{
  is_used, IsValid, same_string_iff, same_string-text, find_from-text, find_from-set_other,
  find_from-set_new, free_from-some, free_from-none, count_used-set,
}
use kontol_os.Ramfs.Slots.{Distinct-fill, WellNamed-set, length-name}

-- The file system after a new entry for `name` in a slot that was free.
pub record Created (flags : ℕ) (name : CString) (fs fs' : Fs) : Type 0 where
  pub valid : IsValid fs'
  pub finds :
      (slot : ℕ) × ((n : CString)
        → fs_find n fs' ≡ (if same_string name n then some slot else fs_find n fs))
      × ((file_at fs' slot).flags ≡ flags)
      × ((file_at fs' slot).size ≡ 0)
      × ((file_at fs' slot).data_ptr ≡ null)
      × ((k : ℕ) → k ≢ slot → file_at fs' k ≡ file_at fs k)
  pub counted : fs_count fs' ≡ fs_count fs + 1
  pub table :
      (slot : ℕ) × (f : File) × (slot < length fs.file_table)
      × (fs' ≡ write_file slot f fs)
      × (f.data_ptr ≡ null)
      × (f.size ≡ 0)

-- What fs_create and fs_mkdir do with a name, on every branch.
abbrev pub Creates : ℕ → CString → Fs → Option (ℤ × Fs) → Type 0
Creates flags name fs r =
    (is_invalid name ≡ true) × (r ≡ some (negsuc 0, fs))
    ⊎ (is_invalid name ≡ false) × (fs_find name fs ≢ none) × (r ≡ some (negsuc 1, fs))
    ⊎ (is_invalid name ≡ false)
      × (fs_find name fs ≡ none)
      × (fs_count fs ≡ fs_max_files)
      × (r ≡ some (negsuc 2, fs))
    ⊎ ((fs' : Fs) × (is_invalid name ≡ false)
        × (fs_find name fs ≡ none)
        × Created flags name fs fs'
        × (r ≡ some (pos 0, fs')))

module _ (flags : ℕ) (name : CString) (fs : Fs) (v : IsValid fs) (slot : ℕ) (b : List ℕ)
    (used : (f : File) → f.flags ≡ flags → is_used f ≡ true) (proper : is_invalid name ≡ false)
    (miss : fs_find name fs ≡ none) (inside : slot < length fs.file_table)
    (idle : is_used (file_at fs slot) ≡ false) (st : Stored name b) where
  entry : File
  entry = record { name = b; data_ptr = null; size = 0; flags = flags }

  is_entry : is_used entry ≡ true
  unfolding entry
  is_entry = used entry refl

  fresh : (n : CString) → same_string name n ≡ true → find_from n 0 fs.file_table ≡ none
  unfolding fs_find
  fresh n same =
      sym (find_from-text name n 0 fs.file_table ((same_string_iff name n).0 same)) ∙ miss

  reads : (n : CString) → same_string b n ≡ same_string name n
  reads n = same_string-text b name n n st.same refl

  entry-finds :
      (n : CString)
      → fs_find n (write_file slot entry fs)
        ≡ (if same_string name n then some slot else fs_find n fs)
  unfolding fs_find entry
  entry-finds n = elim (Bool-cases (same_string name n)) [
    | inl same ↦ rw same (
        find_from-set_new n 0 slot fs.file_table entry inside (fresh n same)
          (rw (is_entry, reads n) same)
        ∙ ap some (omega arith))
    | inr other ↦
        rw other
          (find_from-set_other n 0 slot fs.file_table entry idle (rw (is_entry, reads n) other))
  ]

  entry-IsValid : IsValid (write_file slot entry fs)
  unfolding entry
  entry-IsValid = record {
    slots = length-set fs.file_table slot entry ∙ v.slots;
    named =
        WellNamed-set slot fs.file_table entry st.size (inr (ground (arith, strlen-Stored st)))
          v.named;
    distinct =
        Distinct-fill 0 slot fs.file_table entry idle
          (find_from-text b name 0 fs.file_table st.same
            ∙ fresh name ((same_string_iff name name).1 refl))
          v.distinct;
    dir = v.dir;
  }

  entry-Created : Created flags name fs (write_file slot entry fs)
  unfolding entry fs_count
  entry-Created = record {
    valid = entry-IsValid;
    finds = (
      slot,
      entry-finds,
      ap (λ (f : File). f.flags) at,
      ap (λ (f : File). f.size) at,
      ap (λ (f : File). f.data_ptr) at,
      λ k ne. get_or-set_ne fs.file_table entry no_file (λ e. ne (sym e)),
    );
    counted = count_used-set slot fs.file_table entry inside idle is_entry;
    table = (slot, entry, inside, refl, refl, refl);
  }
    where
      at : file_at (write_file slot entry fs) slot ≡ entry
      at = get_or-set_self fs.file_table slot entry no_file inside

new_entry-stored :
    (flags : ℕ) (name : CString) (fs : Fs) (slot : ℕ) (b : List ℕ)
    → store_name (file_at fs slot).name name ≡ some b
    → new_entry flags name fs slot
      ≡ some (
        pos 0,
        write_file slot (record { name = b; data_ptr = null; size = 0; flags = flags }) fs,
      )
unfolding new_entry
new_entry-stored flags name fs slot b stored = rw (stored, new_entry)

create_with-slot :
    (flags : ℕ) (name : CString) (fs : Fs) (slot : ℕ)
    → is_invalid name ≡ false
    → fs_find name fs ≡ none
    → fs_find_free fs ≡ some slot
    → create_with flags name fs ≡ new_entry flags name fs slot
unfolding create_with
create_with-slot flags name fs slot proper miss free = rw (proper, miss, free)

-- The checks of fs_create and fs_mkdir, and the entry that they write.
create_with-Creates :
    (flags : ℕ) (name : CString) (fs : Fs)
    → ((f : File) → f.flags ≡ flags → is_used f ≡ true)
    → IsValid fs
    → Creates flags name fs (create_with flags name fs)
unfolding create_with fs_find_free fs_count entry
create_with-Creates flags name fs used v = elim (Bool-cases (is_invalid name)) [
  | inl bad ↦ inl (bad, rw bad)
  | inr proper ↦ elim (Option-cases (fs_find name fs)) [
    | inr (i, found) ↦ inr (inl (proper, (λ nothing. cc), rw (proper, found)))
    | inl miss ↦ elim (Option-cases (free_from 0 fs.file_table)) [
      | inl full ↦ inr (
          inr (
            inl (
              proper,
              miss,
              free_from-none 0 fs.file_table full ∙ v.slots,
              rw (proper, miss, full),
            )))
      | inr (k, found) ↦
          let (slot, e, inside, idle) = free_from-some 0 k fs.file_table found in
          let (b, stored, st) =
            store_name-Stored (file_at fs slot).name name
              (length-name slot fs.file_table v.named inside) (ground arith) in
          inr (
            inr (
              inr (
                write_file slot (entry flags name fs v slot b used proper miss inside idle st) fs,
                proper,
                miss,
                entry-Created flags name fs v slot b used proper miss inside idle st,
                create_with-slot flags name fs slot proper miss (found ∙ ap some (e ∙ omega arith))
                    ∙ new_entry-stored flags name fs slot b stored,
              )))
    ]
  ]
]

is_used_of_flags :
    (flags : ℕ)
    → not (bit_and flags fs_flag_used == 0) ≡ true
    → (f : File) → f.flags ≡ flags
    → is_used f ≡ true
unfolding has_flag
is_used_of_flags flags h f e = ap (λ k. not (bit_and k fs_flag_used == 0)) e ∙ h

-- fs_create never writes outside an array. An invalid name is refused with -1, a name in use with -2,
-- a full table with -3, and nothing changes. Otherwise the answer is 0: the name now leads to a slot
-- that was free, with an empty file whose flags say in use and no more, every other name and slot is
-- as before, the count is one more, and the table is valid.
pub fs_create-Creates :
    (name : CString) {fs : Fs}
    → IsValid fs
    → Creates fs_flag_used name fs (fs_create (some name) fs)
unfolding fs_create
fs_create-Creates name {fs} v =
    create_with-Creates fs_flag_used name fs (is_used_of_flags fs_flag_used refl) v

-- fs_mkdir never writes outside an array. It refuses what fs_create refuses, with the same codes, and
-- nothing changes. Otherwise the answer is 0: the name now leads to a slot that was free, with an empty
-- entry whose flags say in use and directory, every other name and slot is as before, the count is one
-- more, and the table is valid.
pub fs_mkdir-Creates :
    (name : CString) {fs : Fs}
    → IsValid fs
    → Creates (bit_or fs_flag_used fs_flag_directory) name fs (fs_mkdir (some name) fs)
unfolding fs_mkdir
fs_mkdir-Creates name {fs} v =
    create_with-Creates (bit_or fs_flag_used fs_flag_directory) name fs
      (is_used_of_flags (bit_or fs_flag_used fs_flag_directory) refl) v
