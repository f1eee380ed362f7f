-- ===== src/Shell/Sound/Files.antt =====
-- The commands of src/kernel/shell.c on files keep the system in order.
use kontol_os.Base.{
  true, ◌≢◌, ltb, lt→ltb, ℕ, ◌+◌, ◌≤◌, ◌<◌, ◌≡◌, refl, sym, ap, subst, inl, inr, Option, none, some,
  List, [], ◌∷◌, arith, ◌==◌, Bool-cases, Option-cases, ℤ, pos, negsuc, add32, length, update,
}
use mathlib.Core.Option
use kontol_os.CString.{CString}
use kontol_os.Memory.{Memory, null, room}
use kontol_os.Ramfs.{
  File, Fs, file_at, write_file, clear_entry, fs_find, fs_open, fs_get_size, fs_create, fs_mkdir,
  fs_delete, fs_rmdir, fs_chdir, fs_max_filesize, root_name,
}
use kontol_os.Ramfs.Data.{fs_read}
use kontol_os.Ramfs.Table.{IsValid, find_from-some}
use kontol_os.Ramfs.Create.{Creates, fs_create-Creates, fs_mkdir-Creates}
use kontol_os.Ramfs.Remove.{fs_rmdir-RemovesDir, fs_delete-slot, clear-Removed}
use kontol_os.Ramfs.Start.{fs_chdir-Changes, Entered}
use kontol_os.Ramfs.Claims.{
  held_room, InOrder, allocate, release, InOrder-bytes, clear_slot, null_entry, claims, forget,
}
use kontol_os.Memory.Claims.{Claims}
use kontol_os.Ramfs.Same.{Bounded, Bounded-set, Bounded-get}
use kontol_os.Screen.{Call}
use kontol_os.Shell.System.{System, returned, draw, second}
use kontol_os.Shell.Files.{
  after_fs, cmd_touch, touch_calls, cmd_mkdir, mkdir_calls, cmd_rm, rm_calls, removed, cmd_rmdir,
  rmdir_calls, cd_to, cd_calls, cmd_cd, cmd_cat, cat_file, show_file, text_calls,
}
use kontol_os.Shell.Sound.{Sound, IsSound, Runs, draw-Sound, memory-Sound, files-Sound, finish-Runs}

-- A call that leaves the file system in order, beside the same heap.
abbrev pub Returns : System → Option (ℤ × Fs) → Type 0
Returns s r =
    (code : ℤ) × (fs : Fs) × (r ≡ some (code, fs))
    × IsValid fs
    × Bounded fs.file_table
    × InOrder [] fs s.memory

after_fs-Runs :
    (report : ℤ → List Call) (s : System) (r : Option (ℤ × Fs))
    → IsSound s
    → Returns s r
    → Runs (after_fs report s r)
unfolding after_fs
after_fs-Runs report s r h (code, fs, e, valid, bounded, heap) = (
  returned (draw (report code) (record s { fs = fs })),
  rw e refl,
  draw-Sound [] (report code) (record s { fs = fs })
      (files-Sound [] fs s.memory s h valid bounded heap),
)

unchanged : (code : ℤ) (s : System) → IsSound s → Returns s (some (code, s.fs))
unchanged code s h = (code, s.fs, refl, h.valid, h.bounded, h.heap)

pub Creates-Returns :
    (flags : ℕ) (name : CString) (s : System) (r : Option (ℤ × Fs))
    → IsSound s
    → Creates flags name s.fs r
    → Returns s r
Creates-Returns flags name s r h (inl (_, e)) = subst (Returns s) (sym e) (unchanged _ s h)
Creates-Returns flags name s r h (inr (inl (_, _, e))) = subst (Returns s) (sym e) (unchanged _ s h)
Creates-Returns flags name s r h (inr (inr (inl (_, _, _, e)))) =
    subst (Returns s) (sym e) (unchanged _ s h)
Creates-Returns flags name s r h (inr (inr (inr (fs', _, _, c, e)))) =
    let (slot, f, inside, same, nothing, size) = c.table in
    (
      pos 0,
      fs',
      e,
      c.valid,
      subst (λ g. Bounded g.file_table) (sym same)
          (Bounded-set slot s.fs.file_table f (omega (arith, size)) h.bounded),
      subst (λ g. InOrder [] g s.memory) (sym same)
          (null_entry slot f [] s.fs s.memory inside nothing h.heap),
    )

pub cmd_touch-Runs : (argv : List CString) (s : System) → IsSound s → Runs (cmd_touch argv s)
unfolding cmd_touch
cmd_touch-Runs argv s h = elim (Option-cases (second argv)) [
  | inl usage ↦ rw (usage, cmd_touch) (finish-Runs _ s h)
  | inr (name, given) ↦
      rw (given, cmd_touch)
        (after_fs-Runs (touch_calls name) s (fs_create (some name) s.fs) h
          (Creates-Returns _ name s _ h (fs_create-Creates name h.valid)))
]

pub cmd_mkdir-Runs : (argv : List CString) (s : System) → IsSound s → Runs (cmd_mkdir argv s)
unfolding cmd_mkdir
cmd_mkdir-Runs argv s h = elim (Option-cases (second argv)) [
  | inl usage ↦ rw (usage, cmd_mkdir) (finish-Runs _ s h)
  | inr (name, given) ↦
      rw (given, cmd_mkdir)
        (after_fs-Runs (mkdir_calls name) s (fs_mkdir (some name) s.fs) h
          (Creates-Returns _ name s _ h (fs_mkdir-Creates name h.valid)))
]

-- A slot that a name leads to.
pub find-inside :
    (name : CString) (slot : ℕ) (fs : Fs)
    → fs_find name fs ≡ some slot
    → slot < length fs.file_table
unfolding fs_find
find-inside name slot fs found =
    let (j, e, inside, busy, same) = find_from-some name 0 slot fs.file_table found in omega arith

cleared_size : (f : File) → (clear_entry f).size ≡ 0
unfolding clear_entry
cleared_size f = refl

cleared_data : (f : File) → (clear_entry f).data_ptr ≡ null
unfolding clear_entry
cleared_data f = refl

abbrev cleared : ℕ → Fs → Fs
cleared slot fs = write_file slot (clear_entry (file_at fs slot)) fs

cleared-Bounded :
    (slot : ℕ) (fs : Fs) → Bounded fs.file_table → Bounded (cleared slot fs).file_table
cleared-Bounded slot fs h =
    Bounded-set slot fs.file_table (clear_entry (file_at fs slot))
      (omega (arith, cleared_size (file_at fs slot))) h

rm_found :
    (name : CString) (slot : ℕ) (s : System)
    → IsSound s
    → fs_find name s.fs ≡ some slot
    → Runs (Option.map (removed name s) (fs_delete name s.fs s.memory))
unfolding removed
rm_found name slot s h found =
    let (m, freed, clears, same) =
      clear_slot slot [] s.fs s.memory (find-inside name slot s.fs found) h.heap in
    let gone = clear-Removed name slot h.valid found in
    (
      removed name s (pos 0, cleared slot s.fs, m),
      ap (Option.map (removed name s)) (fs_delete-slot name slot s.fs s.memory m found freed),
      draw-Sound [] (rm_calls name (pos 0)) _ (
          files-Sound [] (cleared slot s.fs) m s h gone.valid (cleared-Bounded slot s.fs h.bounded)
            (clears _ (cleared_data (file_at s.fs slot)))),
    )

delete-none :
    (name : CString) (fs : Fs) (m : Memory)
    → fs_find name fs ≡ none
    → fs_delete name fs m ≡ some (negsuc 0, fs, m)
unfolding fs_delete
delete-none name fs m miss = rw (miss, fs_delete) refl

pub cmd_rm-Runs : (argv : List CString) (s : System) → IsSound s → Runs (cmd_rm argv s)
unfolding cmd_rm removed
cmd_rm-Runs argv s h = elim (Option-cases (second argv)) [
  | inl usage ↦ rw (usage, cmd_rm) (finish-Runs _ s h)
  | inr (name, given) ↦
      rw (given, cmd_rm)
        (elim (Option-cases (fs_find name s.fs)) [
          | inl miss ↦ (
            removed name s (negsuc 0, s.fs, s.memory),
            ap (Option.map (removed name s)) (delete-none name s.fs s.memory miss),
            draw-Sound [] (rm_calls name (negsuc 0)) s h,
          )
          | inr (slot, found) ↦ rm_found name slot s h found
        ])
]

pub cmd_rmdir-Runs : (argv : List CString) (s : System) → IsSound s → Runs (cmd_rmdir argv s)
unfolding cmd_rmdir
cmd_rmdir-Runs argv s h = elim (Option-cases (second argv)) [
  | inl usage ↦ rw (usage, cmd_rmdir) (finish-Runs _ s h)
  | inr (name, given) ↦
      rw (given, cmd_rmdir)
        (after_fs-Runs (rmdir_calls name) s (some (fs_rmdir name s.fs)) h
          (elim (fs_rmdir-RemovesDir name h.valid) [
            | inl (miss, e) ↦ subst (Returns s) (ap some (sym e)) (unchanged _ s h)
            | inr (slot, found, inl (plain, e)) ↦
                subst (Returns s) (ap some (sym e)) (unchanged _ s h)
            | inr (slot, found, inr (dir, code, removed)) ↦ (
              (fs_rmdir name s.fs).0,
              (fs_rmdir name s.fs).1,
              refl,
              removed.valid,
              subst (λ g. Bounded g.file_table) (sym removed.table)
                  (cleared-Bounded slot s.fs h.bounded),
              subst (λ g. InOrder [] g s.memory) (sym removed.table)
                  (null_entry slot _ [] s.fs s.memory (find-inside name slot s.fs found)
                    (cleared_data (file_at s.fs slot)) h.heap),
            )
          ]))
]

Entered-Returns :
    (s : System) (r : Option (ℤ × Fs)) (name : CString) (fs' : Fs)
    → IsSound s
    → r ≡ some (pos 0, fs')
    → Entered name s.fs fs'
    → Returns s r
Entered-Returns s r name fs' h e en = (
  pos 0,
  fs',
  e,
  en.valid,
  subst Bounded (sym en.table) h.bounded,
  let (bs, rep, c) = h.heap in (bs, rep, subst (λ t. Claims bs (claims t [])) (sym en.table) c),
)

cd_to-Runs : (target : CString) (s : System) → IsSound s → Runs (cd_to target s)
unfolding cd_to
cd_to-Runs target s h =
    after_fs-Runs (cd_calls target) s (fs_chdir (some target) s.fs) h
      (elim (fs_chdir-Changes target h.valid) [
        | inl (fs', root, e, en) ↦ Entered-Returns s _ root_name fs' h e en
        | inr (inl (_, _, e)) ↦ subst (Returns s) (sym e) (unchanged _ s h)
        | inr (inr (slot, _, _, inl (_, e))) ↦ subst (Returns s) (sym e) (unchanged _ s h)
        | inr (inr (slot, _, _, inr (fs', _, e, en))) ↦ Entered-Returns s _ target fs' h e en
      ])

pub cmd_cd-Runs : (argv : List CString) (s : System) → IsSound s → Runs (cmd_cd argv s)
unfolding cmd_cd
cmd_cd-Runs argv s h = elim (Option-cases (second argv)) [
  | inl home ↦ rw (home, cmd_cd) (cd_to-Runs root_name s h)
  | inr (name, given) ↦ rw (given, cmd_cd) (cd_to-Runs name s h)
]

pub read-InOrder :
    (i p size : ℕ) (cs : List (ℕ × ℕ)) (fs : Fs) (m : Memory)
    → InOrder cs fs m
    → InOrder cs fs (fs_read (some i) p size 0 fs m).1
unfolding fs_read
read-InOrder i p size cs fs m h = ground (arith, InOrder-bytes cs fs m)

show_file-Runs :
    (i size p : ℕ) (s : System)
    → p ≢ null
    → Sound ((p, size + 1) ∷ []) s
    → Runs (show_file i size p s)
unfolding show_file draw
show_file-Runs i size p s set_ptr h =
    let read = fs_read (some i) p size 0 s.fs s.memory in
    let b = update read.1.bytes (p + size) 0 in
    let (m', freed, heap, same) =
      release p (size + 1) [] s.fs (record read.1 { bytes = b })
        (InOrder-bytes _ s.fs read.1 b (read-InOrder i p size _ s.fs s.memory h.heap)) in
    let ds = text_calls size p b in
    let fits : ltb size (room p s.memory) ≡ true =
      lt→ltb _ _ (omega (arith, held_room p (size + 1) [] s.fs s.memory set_ptr h.heap)) in
    (
      returned (draw ds (record s { memory = m' })),
      rw fits (ap (Option.map (λ m'. returned (record (draw ds s) { memory = m' }))) freed),
      draw-Sound [] ds (record s { memory = m' }) (memory-Sound _ [] m' s h heap),
    )

cat_file-Runs : (i : ℕ) (s : System) → IsSound s → Runs (cat_file i s)
unfolding cat_file fs_get_size Option.bind
cat_file-Runs i s h =
    let size = (file_at s.fs i).size in
    let small : size ≤ fs_max_filesize = Bounded-get i s.fs.file_table h.bounded in
    let sum : add32 size 1 ≡ size + 1 = omega arith in
    elim (Bool-cases (size == 0)) [
      | inl empty ↦ rw empty (finish-Runs _ s h)
      | inr full ↦
          let (p, m, got, heap, same) =
            allocate (size + 1) [] s.fs s.memory (omega arith) (omega arith) h.heap in
          let h1 = memory-Sound [] ((p, size + 1) ∷ []) m s h heap in
          rw (full, sum, got)
            (elim (Bool-cases (p == null)) [
              | inl nothing ↦ rw nothing (
                returned (record s { memory = m }),
                refl,
                memory-Sound [] [] m s h (forget p (size + 1) [] s.fs m heap),
              )
              | inr set_ptr ↦ rw set_ptr (
                  show_file-Runs i size p (record s { memory = m })
                    (λ e. ground (arith, e, set_ptr)) h1)
            ])
    ]

pub cmd_cat-Runs : (argv : List CString) (s : System) → IsSound s → Runs (cmd_cat argv s)
unfolding cmd_cat fs_open
cmd_cat-Runs argv s h = elim (Option-cases (second argv)) [
  | inl usage ↦ rw (usage, cmd_cat) (finish-Runs _ s h)
  | inr (name, given) ↦ elim (Option-cases (fs_find name s.fs)) [
    | inl miss ↦ rw (given, cmd_cat) (rw miss (finish-Runs _ s h))
    | inr (i, found) ↦ rw (given, cmd_cat) (rw found (cat_file-Runs i s h))
  ]
]
