-- ===== src/Ramfs/Remove.antt =====
-- fs_delete and fs_rmdir of src/fs/ramfs.c.
use kontol_os.Base.{
  subst, ◌==◌, ==_of_ne, ℕ, zero, suc, ◌+◌, ◌<◌, ◌≡◌, ◌≢◌, refl, sym, ap, ◌∙◌, ◌⊎◌, inl, inr, true,
  false, Option, none, some, List, [], ◌∷◌, ◌++◌, arith, if◌then◌else◌, get_or, get_or-set_ne, set,
  length, length-set, Bool-cases, Option-cases, ℤ, pos, negsuc,
}
use kontol_os.Memory.{Memory, kfree, null}
use kontol_os.Memory.Block.{block, Blocks, coalesce}
use kontol_os.Memory.Layout.{Represents}
use kontol_os.Memory.Free.{payload, kfree-coalesce}
use kontol_os.Memory.Owned.{IsHeap, Owned, Owned-in_heap}
use kontol_os.CString.{CString}
use kontol_os.Ramfs.{
  File, Fs, no_file, file_at, write_file, fs_flag_directory, has_flag, same_string, clear_entry,
  free_data, fs_find, fs_rmdir, fs_delete, fs_count, count_used,
}
use kontol_os.Ramfs.Table.{is_used, IsValid, find_from-some}
use kontol_os.Ramfs.Slots.{find_from-clear, Distinct-clear, WellNamed-set, length-name}

-- The file system after the entry of `name` at `slot` is cleared.
pub record Removed (name : CString) (slot : ℕ) (fs fs' : Fs) : Type 0 where
  pub valid : IsValid fs'
  pub finds : (n : CString) → fs_find n fs' ≡ (if same_string name n then none else fs_find n fs)
  pub counted : fs_count fs' + 1 ≡ fs_count fs
  pub others : (k : ℕ) → k ≢ slot → file_at fs' k ≡ file_at fs k
  pub table : fs' ≡ write_file slot (clear_entry (file_at fs slot)) fs

count_used-clear :
    (j : ℕ) (fs : List File) (f : File)
    → j < length fs
    → is_used (get_or fs j no_file) ≡ true
    → is_used f ≡ false
    → count_used (set fs j f) + 1 ≡ count_used fs
unfolding count_used
count_used-clear j [] f h old new = absurd (omega arith)
count_used-clear zero (g ∷ fs) f h old new = rw (old, new) (omega arith)
count_used-clear (suc j) (g ∷ fs) f h old new =
    omega (arith, count_used-clear j fs f (omega arith) old new)

clear_entry-free : (f : File) → is_used (clear_entry f) ≡ false
unfolding clear_entry has_flag
clear_entry-free f = refl

length-clear_entry : (f : File) → length (clear_entry f).name ≡ length f.name
unfolding clear_entry
length-clear_entry f = length-set f.name 0 0

pub clear-Removed :
    (name : CString) (slot : ℕ) {fs : Fs}
    → IsValid fs
    → fs_find name fs ≡ some slot
    → Removed name slot fs (write_file slot (clear_entry (file_at fs slot)) fs)
unfolding fs_find fs_count
clear-Removed name slot {fs} v found =
    let f : File = clear_entry (file_at fs slot) in
    let (j, e, inside, busy, same) = find_from-some name 0 slot fs.file_table found in
    let at : j ≡ slot = omega arith in
    record {
      valid = record {
        slots = length-set fs.file_table slot f ∙ v.slots;
        named =
            WellNamed-set slot fs.file_table f
              (length-clear_entry (file_at fs slot)
                ∙ length-name slot fs.file_table v.named (omega arith))
              (inl (clear_entry-free (file_at fs slot))) v.named;
        distinct =
            Distinct-clear slot fs.file_table f (clear_entry-free (file_at fs slot)) v.distinct;
        dir = v.dir;
      };
      finds = λ n.
          find_from-clear name n 0 slot fs.file_table f v.distinct
            (clear_entry-free (file_at fs slot)) (found ∙ ap some (omega arith));
      counted =
          count_used-clear slot fs.file_table f (omega arith)
            (ap (λ k. is_used (get_or fs.file_table k no_file)) (sym at) ∙ busy)
            (clear_entry-free (file_at fs slot));
      others = λ k ne. get_or-set_ne fs.file_table f no_file (λ e2. ne (sym e2));
      table = refl;
    }

-- What fs_rmdir does, on every branch.
abbrev pub RemovesDir : CString → Fs → ℤ × Fs → Type 0
RemovesDir name fs r =
    (fs_find name fs ≡ none) × (r ≡ (negsuc 0, fs))
    ⊎ ((slot : ℕ) × (fs_find name fs ≡ some slot)
        × ((has_flag fs_flag_directory (file_at fs slot) ≡ false) × (r ≡ (negsuc 1, fs))
            ⊎ (has_flag fs_flag_directory (file_at fs slot) ≡ true)
              × (r.0 ≡ pos 0)
              × Removed name slot fs r.1))

fs_rmdir-dir :
    (name : CString) (slot : ℕ) (fs : Fs)
    → fs_find name fs ≡ some slot
    → has_flag fs_flag_directory (file_at fs slot) ≡ true
    → fs_rmdir name fs ≡ (pos 0, write_file slot (clear_entry (file_at fs slot)) fs)
unfolding fs_rmdir
fs_rmdir-dir name slot fs found dir = rw (found, fs_rmdir) (rw dir)

-- fs_rmdir answers -1 for a name that is not there and -2 for one that is no directory, and changes
-- nothing. Otherwise it answers 0: the name is no longer found, all other names and slots are as
-- before, the count is one less, and the table is valid.
pub fs_rmdir-RemovesDir :
    (name : CString) {fs : Fs} → IsValid fs → RemovesDir name fs (fs_rmdir name fs)
unfolding fs_rmdir
fs_rmdir-RemovesDir name {fs} v = elim (Option-cases (fs_find name fs)) [
  | inl miss ↦ inl (miss, rw (miss, fs_rmdir))
  | inr (slot, found) ↦ elim (Bool-cases (has_flag fs_flag_directory (file_at fs slot))) [
    | inr plain ↦ inr (slot, found, inl (plain, rw (found, fs_rmdir) (rw plain)))
    | inl dir ↦
        let run = fs_rmdir-dir name slot fs found dir in
        inr (
          slot,
          found,
          inr (
            dir,
            ap (λ r. r.0) run,
            subst (λ r. Removed name slot fs r.1) (sym run) (clear-Removed name slot v found),
          ),
        )
  ]
]

-- The heap holds the contents of a file: its pointer is NULL, or owned by the file.
abbrev pub Holds : Memory → File → Type 0
Holds m f = (f.data_ptr ≡ null) ⊎ ((n : ℕ) × Owned m f.data_ptr n)

-- The block of the payload `p` is given back, merged with its free neighbours; nothing is done for NULL.
abbrev pub Freed : ℕ → Memory → Memory → Type 0
Freed p m m' =
    ((p ≡ null) × (m' ≡ m))
    ⊎ ((pre : Blocks) × (s : ℕ) × (post : Blocks) × (p ≡ payload pre)
        × Represents m (pre ++ (block s true ∷ post))
        × Represents m' (coalesce (pre ++ (block s false ∷ post))))

free_data-Freed :
    (m : Memory) (f : File)
    → IsHeap m
    → Holds m f
    → (m' : Memory) × (free_data f.data_ptr m ≡ some m')
      × IsHeap m'
      × (m'.bytes ≡ m.bytes)
      × Freed f.data_ptr m m'
unfolding free_data
free_data-Freed m f h (inl nothing) = (m, rw nothing, h, refl, inl (nothing, refl))
free_data-Freed m f h (inr (n, owned)) =
    let (low, high) = Owned-in_heap m f.data_ptr n owned in
    let (pre, s, post, r, at, room) = owned in
    let (m', freed, r', same) = kfree-coalesce pre s post r in
    let freed_here : kfree f.data_ptr m ≡ some m' = ap (λ q. kfree q m) at ∙ freed in
    let set_ptr : (f.data_ptr == null) ≡ false = ==_of_ne f.data_ptr null (omega arith) in
    (m', rw set_ptr freed_here, (_, r'), same, inr (pre, s, post, at, r, r'))

pub free_data-Holds :
    (m : Memory) (f : File)
    → IsHeap m
    → Holds m f
    → (m' : Memory) × (free_data f.data_ptr m ≡ some m') × IsHeap m' × (m'.bytes ≡ m.bytes)
free_data-Holds m f h holds =
    let (m', freed, h', same, gone) = free_data-Freed m f h holds in (m', freed, h', same)

-- What fs_delete does for a name that is at `slot`.
abbrev pub Deletes : CString → ℕ → Fs → Memory → Option (ℤ × Fs × Memory) → Type 0
Deletes name slot fs m r =
    (fs' : Fs) × (m' : Memory) × (r ≡ some (pos 0, fs', m'))
    × Removed name slot fs fs'
    × IsHeap m'
    × (m'.bytes ≡ m.bytes)
    × Freed (file_at fs slot).data_ptr m m'

pub fs_delete-slot :
    (name : CString) (slot : ℕ) (fs : Fs) (m m' : Memory)
    → fs_find name fs ≡ some slot
    → free_data (file_at fs slot).data_ptr m ≡ some m'
    → fs_delete name fs m ≡ some (pos 0, write_file slot (clear_entry (file_at fs slot)) fs, m')
unfolding fs_delete
fs_delete-slot name slot fs m m' found freed = rw (found, fs_delete) (rw freed)

-- Where a file's pointer is NULL or owned by it, fs_delete of its name answers 0. The block of its data is
-- free afterwards, merged with its free neighbours, in a heap in order whose bytes are unchanged; with
-- NULL the heap is unchanged. The name is no longer found, all other
-- names and slots are as before, the count is one less, and the table is valid.
pub fs_delete-Deletes :
    (name : CString) (slot : ℕ) {fs : Fs} {m : Memory}
    → IsValid fs
    → IsHeap m
    → fs_find name fs ≡ some slot
    → Holds m (file_at fs slot)
    → Deletes name slot fs m (fs_delete name fs m)
fs_delete-Deletes name slot {fs} {m} v h found holds =
    let (m', freed, h', same, gone) = free_data-Freed m (file_at fs slot) h holds in
    (
      write_file slot (clear_entry (file_at fs slot)) fs,
      m',
      fs_delete-slot name slot fs m m' found freed,
      clear-Removed name slot v found,
      h',
      same,
      gone,
    )
