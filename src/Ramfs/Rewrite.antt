-- ===== src/Ramfs/Rewrite.antt =====
-- fs_write of src/fs/ramfs.c among files that each own their data.
use kontol_os.Base.{
  ℕ, zero, suc, ◌≤◌, ◌<◌, ◌≡◌, ◌≢◌, refl, sym, ap, ◌∙◌, subst, ◌⊎◌, inl, inr, false, some, Option,
  List, [], ◌∷◌, arith, get_or, set, length, ◌==◌, ==_of_ne, ==_iff, ltb, ltb→lt, ℤ, pos, negsuc,
  Bool-cases,
}
use mathlib.Core.Option
use kontol_os.Bytes.{memcpy}
use kontol_os.Memory.{Memory, kmalloc, null}
use kontol_os.Memory.Layout.{Represents-bytes}
use kontol_os.Memory.Claims.{Claims, kmalloc-Claims}
use kontol_os.Memory.Slots.{null_cases}
use kontol_os.Ramfs.{File, Fs, no_file, file_at, write_file, fs_max_filesize, free_data}
use kontol_os.Ramfs.Contents.{fill_file-null, fill_file-set}
use kontol_os.Ramfs.Claims.{claims, claims-set, InOrder, refill, clear_slot}
use kontol_os.Ramfs.Data.{fill_file, rewrite_file, fs_write}

set-same : (fs : List File) (i : ℕ) → set fs i (get_or fs i no_file) ≡ fs
set-same [] i = refl
set-same (f ∷ fs) zero = refl
set-same (f ∷ fs) (suc i) = ap (f ∷◌) (set-same fs i)

-- Once the old data is freed, kmalloc has no block of `size` bytes.
abbrev pub NoRoom : ℕ → ℕ → Fs → Memory → Type 0
NoRoom i size fs m =
    (m1 : Memory) × (m2 : Memory) × (free_data (file_at fs i).data_ptr m ≡ some m1)
    × (kmalloc size m1 ≡ some (null, m2))

-- Without a source fs_write answers -1, and -2 for too large a one, and nothing is done.
abbrev pub Refuses : ℕ → ℕ → ℕ → Fs → Memory → ℤ → File → Memory → Type 0
Refuses i source size fs m code f m' =
    (f ≡ file_at fs i)
    × (m' ≡ m)
    × ((source ≡ null) × (code ≡ negsuc 0)
        ⊎ (source ≢ null) × (fs_max_filesize < size) × (code ≡ negsuc 1))

-- What fs_write comes to. It refuses; or `size` is 0, and the file is empty; or no memory is left, and the
-- file has a NULL pointer under its old size; or it has `size` bytes, which memcpy has copied from the
-- source.
abbrev pub Stores : ℕ → ℕ → ℕ → Fs → Memory → ℤ → File → Memory → Type 0
Stores i source size fs m code f m' =
    Refuses i source size fs m code f m'
    ⊎ ((source ≢ null)
        × (size ≤ fs_max_filesize)
        × ((size ≡ 0)
              × (code ≡ pos 0)
              × (f ≡ record (file_at fs i) { data_ptr = null; size = 0 })
              × (m'.bytes ≡ m.bytes)
            ⊎ (code ≡ negsuc 2)
              × (f ≡ record (file_at fs i) { data_ptr = null })
              × NoRoom i size fs m
              × (m'.bytes ≡ m.bytes)
            ⊎ (0 < size)
              × (code ≡ pos size)
              × (f.data_ptr ≢ null)
              × (f ≡ record (file_at fs i) { data_ptr = f.data_ptr; size = size })
              × (m'.bytes ≡ memcpy f.data_ptr source size m.bytes)))

-- fs_write of a slot ends: the slot keeps its name and its flags, no file has more than 64 KiB, and the
-- heap and the table stay in order.
abbrev pub Rewrites : ℕ → ℕ → ℕ → List (ℕ × ℕ) → Fs → Memory → Option (ℤ × Fs × Memory) → Type 0
Rewrites i source size cs fs m r =
    (code : ℤ) × (f : File) × (m' : Memory) × (r ≡ some (code, write_file i f fs, m'))
    × (f.name ≡ (file_at fs i).name)
    × (f.flags ≡ (file_at fs i).flags)
    × ((f.size ≡ (file_at fs i).size) ⊎ (f.size ≤ fs_max_filesize))
    × Stores i source size fs m code f m'
    × InOrder cs (write_file i f fs) m'

write_file-same : (i : ℕ) (fs : Fs) → write_file i (file_at fs i) fs ≡ fs
write_file-same i fs = ap (λ t. record fs { file_table = t }) (set-same fs.file_table i)

kept :
    (i source size : ℕ) (code : ℤ) (cs : List (ℕ × ℕ)) (fs : Fs) (m : Memory)
    → (source ≡ null) × (code ≡ negsuc 0)
      ⊎ (source ≢ null) × (fs_max_filesize < size) × (code ≡ negsuc 1)
    → InOrder cs fs m
    → Rewrites i source size cs fs m (some (code, fs, m))
kept i source size code cs fs m why h = (
  code,
  file_at fs i,
  m,
  ap (λ g. some (code, g, m)) (sym (write_file-same i fs)),
  refl,
  refl,
  inl refl,
  inl (refl, refl, why),
  subst (λ g. InOrder cs g m) (sym (write_file-same i fs)) h,
)

-- The file without its data.
abbrev emptied : ℕ → Fs → File
emptied i fs = record (file_at fs i) { data_ptr = null }

filled :
    (i source size : ℕ) (cs : List (ℕ × ℕ)) (fs : Fs) (m0 m : Memory)
    → free_data (file_at fs i).data_ptr m0 ≡ some m
    → m.bytes ≡ m0.bytes
    → i < length fs.file_table
    → source ≢ null
    → 0 < size
    → size ≤ fs_max_filesize
    → InOrder cs (write_file i (emptied i fs) fs) m
    → Rewrites i source size cs fs m0
        (Option.map (λ (p, m'). fill_file i source size p fs m') (kmalloc size m))
filled i source size cs fs m0 m freed before inside set_source more small (bs, r, h) =
    let f0 = emptied i fs in
    let (p, m', bs', got, r', h', same) =
      kmalloc-Claims size bs (claims (set fs.file_table i f0) cs) more (omega arith) r h in
    elim (null_cases p) [
      | inl nothing ↦ (
        negsuc 2,
        f0,
        m',
        rw got (
            ap some (
              ap (λ q. fill_file i source size q fs m') nothing
              ∙ fill_file-null i source size fs m')),
        refl,
        refl,
        inl refl,
        inr (
          set_source,
          small,
          inr (
              inl
                (refl, refl, (m, m', freed, got ∙ ap (λ q. some (q, m')) nothing), same ∙ before)),
        ),
        (bs', r', h'.2),
      )
      | inr set_ptr ↦
          let f = record f0 { data_ptr = p; size = size } in
          (
            pos size,
            f,
            record m' { bytes = memcpy p source size m'.bytes },
            rw got (ap some (fill_file-set i source size p fs m' set_ptr)),
            refl,
            refl,
            inr small,
            inr (
              set_source,
              small,
              inr (inr (more, refl, set_ptr, refl, ap (memcpy p source size) (same ∙ before))),
            ),
            (
              bs',
              Represents-bytes _ r',
              refill bs' i f (null, f0.size) fs.file_table cs inside
                  (subst (λ c. Claims bs' ((p, size) ∷ c))
                    (sym (claims-set fs.file_table i f0 cs inside)) h'),
            ),
          )
    ]

rewritten :
    (i source size : ℕ) (cs : List (ℕ × ℕ)) (fs : Fs) (m0 m : Memory)
    → free_data (file_at fs i).data_ptr m0 ≡ some m
    → m.bytes ≡ m0.bytes
    → i < length fs.file_table
    → source ≢ null
    → size ≤ fs_max_filesize
    → ((f : File) → f.data_ptr ≡ null → InOrder cs (write_file i f fs) m)
    → Rewrites i source size cs fs m0 (rewrite_file i source size fs m)
unfolding rewrite_file
rewritten i source zero cs fs m0 m freed before inside set_source small h = (
  pos 0,
  record (file_at fs i) { data_ptr = null; size = 0 },
  m,
  refl,
  refl,
  refl,
  inr (omega arith),
  inr (set_source, small, inl (refl, refl, refl, before)),
  h _ refl,
)
rewritten i source (suc n) cs fs m0 m freed before inside set_source small h =
    let nonzero : (suc n == 0) ≡ false = ==_of_ne (suc n) 0 (omega arith) in
    rw nonzero (
      filled i source (suc n) cs fs m0 m freed before inside set_source (omega arith) small
        (h (emptied i fs) refl))

fs_write-rest :
    (i source size : ℕ) (fs : Fs) (m m1 : Memory)
    → (source == null) ≡ false
    → ltb fs_max_filesize size ≡ false
    → free_data (file_at fs i).data_ptr m ≡ some m1
    → fs_write (some i) source size fs m ≡ rewrite_file i source size fs m1
unfolding fs_write Option.bind
fs_write-rest i source size fs m m1 set_ptr fits freed = rw (set_ptr, fits, freed) refl

-- With the heap in order, fs_write of a slot always returns, and the slot keeps its name and its flags. Without a source it answers
-- -1 and with too large a one -2, and nothing is done. A size of 0 empties the file and answers 0. If
-- kmalloc has no block once the old data is freed, it answers -3, and the file has a NULL pointer
-- under its old size. Else it answers the size, and the file has the bytes that memcpy copied from the
-- source. Its size is as before or at most 64 KiB, and every file keeps a block of its own in a heap
-- in order.
pub fs_write-Rewrites :
    (i source size : ℕ) (cs : List (ℕ × ℕ)) (fs : Fs) (m : Memory)
    → i < length fs.file_table
    → InOrder cs fs m
    → Rewrites i source size cs fs m (fs_write (some i) source size fs m)
unfolding fs_write Option.bind
fs_write-Rewrites i source size cs fs m inside h = elim (Bool-cases (source == null)) [
  | inl nothing ↦
      rw nothing
        (kept i source size (negsuc 0) cs fs m (inl ((==_iff source null).0 nothing, refl)) h)
  | inr set_ptr ↦
      let set_source : source ≢ null = λ e. ground (arith, e, set_ptr) in
      elim (Bool-cases (ltb fs_max_filesize size)) [
        | inl large ↦
            rw (set_ptr, large)
              (kept i source size (negsuc 1) cs fs m (inr (set_source, ltb→lt _ _ large, refl)) h)
        | inr fits ↦
            let (m1, freed, clears, same) = clear_slot i cs fs m inside h in
            subst (Rewrites i source size cs fs m)
              (sym (fs_write-rest i source size fs m m1 set_ptr fits freed))
              (rewritten i source size cs fs m m1 freed same inside set_source (ground arith)
                clears)
      ]
]
