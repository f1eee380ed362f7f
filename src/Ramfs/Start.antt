-- ===== src/Ramfs/Start.antt =====
-- fs_init and fs_chdir of src/fs/ramfs.c.
use kontol_os.Base.{
  ℕ, zero, suc, ◌+◌, ◌<◌, ◌≡◌, refl, sym, ap, ◌∙◌, ◌⊎◌, inl, inr, Bool, true, false, ◌||◌, Option,
  none, some, List, [], ◌∷◌, ◌++◌, arith, get_or, length, length-set, length-drop, drop, Bool-cases,
  Option-cases, ℤ, pos, negsuc,
}
use mathlib.Core.Bool.{true≢false}
use kontol_os.CString.{CString, strlen, strcpy}
use kontol_os.CString.Compare.{text, length-text}
use kontol_os.CString.Copy.{strcpy_lem}
use kontol_os.Ramfs.{
  File, Fs, no_file, file_at, has_flag, clear_entry, clear_table, fs_init, fs_find, find_from,
  fs_count, count_used, fs_flag_directory, fs_max_files, fs_max_filename, same_string, root_name,
  parent_name, store_name, set_dir, fs_chdir,
}
use kontol_os.Ramfs.Table.{same_string_iff, is_used, IsValid, WellNamed, Distinct, find_from-some}
use kontol_os.Ramfs.Store.{text-append, store_name-Stored}

-- The arrays have their declared sizes.
abbrev pub Sized : List File → Type 0
Sized [] = Unit
Sized (f ∷ fs) = (length f.name ≡ fs_max_filename) × Sized fs

length-clear_table : (fs : List File) → length (clear_table fs) ≡ length fs
unfolding clear_table
length-clear_table [] = refl
length-clear_table (f ∷ fs) = ap suc (length-clear_table fs)

pub clear_table-WellNamed : (fs : List File) → Sized fs → WellNamed (clear_table fs)
unfolding clear_table clear_entry has_flag
clear_table-WellNamed [] h = h
clear_table-WellNamed (f ∷ fs) (l, h) =
    (length-set f.name 0 0 ∙ l, inl refl, clear_table-WellNamed fs h)

pub clear_table-Distinct : (fs : List File) → Distinct (clear_table fs)
unfolding clear_table clear_entry has_flag
clear_table-Distinct [] = tt
clear_table-Distinct (f ∷ fs) = (inl refl, clear_table-Distinct fs)

find_from-clear_table :
    (n : CString) (i : ℕ) (fs : List File) → find_from n i (clear_table fs) ≡ none
unfolding clear_table clear_entry has_flag find_from
find_from-clear_table n i [] = refl
find_from-clear_table n i (f ∷ fs) = find_from-clear_table n (i + 1) fs

count_used-clear_table : (fs : List File) → count_used (clear_table fs) ≡ 0
unfolding clear_table clear_entry has_flag count_used
count_used-clear_table [] = refl
count_used-clear_table (f ∷ fs) = omega (arith, count_used-clear_table fs)

-- Whatever the memory held before, fs_init leaves a valid table in which no name is found and no slot is
-- in use, if the arrays have their declared sizes.
pub fs_init-IsValid :
    (fs : Fs)
    → length fs.file_table ≡ fs_max_files
    → length fs.current_dir ≡ fs_max_filename
    → Sized fs.file_table
    → IsValid (fs_init fs)
      × ((n : CString) → fs_find n (fs_init fs) ≡ none)
      × (fs_count (fs_init fs) ≡ 0)
unfolding fs_init fs_find fs_count
fs_init-IsValid fs slots dir named = (
  record {
    slots = length-clear_table fs.file_table ∙ slots;
    named = clear_table-WellNamed fs.file_table named;
    distinct = clear_table-Distinct fs.file_table;
    dir = dir;
  },
  λ n. find_from-clear_table n 0 fs.file_table,
  count_used-clear_table fs.file_table,
)

-- The file system after a change of directory to `name`: the table is as before.
pub record Entered (name : CString) (fs fs' : Fs) : Type 0 where
  pub table : fs'.file_table ≡ fs.file_table
  pub valid : IsValid fs'
  pub path : text fs'.current_dir ≡ text name

abbrev pub is_root : CString → Bool
is_root name = same_string name root_name || same_string name parent_name

-- What fs_chdir does, on every branch.
abbrev pub Changes : CString → Fs → Option (ℤ × Fs) → Type 0
Changes name fs r =
    ((fs' : Fs) × (is_root name ≡ true) × (r ≡ some (pos 0, fs')) × Entered root_name fs fs')
    ⊎ (is_root name ≡ false) × (fs_find name fs ≡ none) × (r ≡ some (negsuc 0, fs))
    ⊎ ((slot : ℕ) × (is_root name ≡ false)
        × (fs_find name fs ≡ some slot)
        × ((has_flag fs_flag_directory (file_at fs slot) ≡ false) × (r ≡ some (negsuc 1, fs))
            ⊎ ((fs' : Fs) × (has_flag fs_flag_directory (file_at fs slot) ≡ true)
                × (r ≡ some (pos 0, fs'))
                × Entered name fs fs')))

strlen-WellNamed :
    (j : ℕ) (fs : List File)
    → WellNamed fs
    → j < length fs
    → is_used (get_or fs j no_file) ≡ true
    → strlen (get_or fs j no_file).name < fs_max_filename
strlen-WellNamed j [] w h busy = absurd (omega arith)
strlen-WellNamed zero (g ∷ fs) (l, n, ws) h busy = elim n [
  | inl idle ↦ absurd (true≢false (sym busy ∙ idle))
  | inr (low, high) ↦ high
]
strlen-WellNamed (suc j) (g ∷ fs) (l, n, ws) h busy = strlen-WellNamed j fs ws (omega arith) busy

-- A name that is found fits the arrays.
found-short :
    (name : CString) (slot : ℕ) {fs : Fs}
    → IsValid fs
    → fs_find name fs ≡ some slot
    → strlen name < fs_max_filename
unfolding fs_find
found-short name slot {fs} v found =
    let (j, e, inside, busy, same) = find_from-some name 0 slot fs.file_table found in
    let f = get_or fs.file_table j no_file in
    omega (
      arith,
      strlen-WellNamed j fs.file_table v.named inside busy,
      sym (length-text f.name)
          ∙ ap length ((same_string_iff f.name name).0 same)
          ∙ length-text name,
    )

enter-root :
    (fs : Fs)
    → IsValid fs
    → (d : List ℕ) × (strcpy fs.current_dir root_name ≡ some d)
      × Entered root_name fs (record fs { current_dir = d })
unfolding strlen
enter-root fs v = (
  text root_name ++ (0 ∷ drop 2 fs.current_dir),
  strcpy_lem fs.current_dir root_name (omega (arith, v.dir)),
  record {
    table = refl;
    valid = record {
      slots = v.slots;
      named = v.named;
      distinct = v.distinct;
      dir = omega (arith, v.dir, length-drop 2 fs.current_dir);
    };
    path = text-append root_name (drop 2 fs.current_dir);
  },
)

enter-found :
    (name : CString) (slot : ℕ) (fs : Fs)
    → IsValid fs
    → fs_find name fs ≡ some slot
    → (d : List ℕ) × (store_name fs.current_dir name ≡ some d)
      × Entered name fs (record fs { current_dir = d })
enter-found name slot fs v found =
    let (d, stored, st) =
      store_name-Stored fs.current_dir name v.dir (found-short name slot v found) in
    (
      d,
      stored,
      record {
        table = refl;
        valid = record { slots = v.slots; named = v.named; distinct = v.distinct; dir = st.size };
        path = st.same;
      },
    )

-- fs_chdir never writes outside `current_dir`. Of "/" and ".." it answers 0 and the directory is "/";
-- a name that is not there is refused with -1, one that is no directory with -2, and nothing changes;
-- otherwise it answers 0 and the directory is the name. The table is as before and valid.
pub fs_chdir-Changes :
    (name : CString) {fs : Fs} → IsValid fs → Changes name fs (fs_chdir (some name) fs)
unfolding fs_chdir set_dir
fs_chdir-Changes name {fs} v = elim (Bool-cases (is_root name)) [
  | inl root ↦
      let (d, copied, entered) = enter-root fs v in inl (_, root, rw (root, copied) refl, entered)
  | inr other ↦ elim (Option-cases (fs_find name fs)) [
    | inl miss ↦ inr (inl (other, miss, rw (other, miss) refl))
    | inr (slot, found) ↦ elim (Bool-cases (has_flag fs_flag_directory (file_at fs slot))) [
      | inr plain ↦
          inr (inr (slot, other, found, inl (plain, rw (other, found, fs_chdir) (rw plain refl))))
      | inl dir ↦
          let (d, stored, entered) = enter-found name slot fs v found in
          inr (
            inr (
              slot,
              other,
              found,
              inr (_, dir, rw (other, found, fs_chdir) (rw (dir, stored) refl), entered),
            ))
    ]
  ]
]
