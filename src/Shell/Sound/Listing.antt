-- ===== src/Shell/Sound/Listing.antt =====
-- The command ls of src/kernel/shell.c.
use kontol_os.Base.{
  ℕ, zero, suc, ◌≤◌, ◌<◌, ◌≡◌, ◌≢◌, refl, sym, ap, subst, inl, inr, false, some, List, [], ◌∷◌,
  ◌++◌, append_assoc, arith, ◌==◌, ==_of_ne, length, length-append, Bool-cases, pos,
}
use mathlib.Core.Option
use kontol_os.CString.{CString, deref}
use kontol_os.Ramfs.{Fs, fs_count}
use kontol_os.Ramfs.Listing.{fs_list}
use kontol_os.Ramfs.Lines.{listing, lines, fs_list-lines}
use kontol_os.Vga.At.{IsLine}
use kontol_os.Screen.{Call}
use kontol_os.Shell.System.{System, finish}
use kontol_os.Shell.Files.{take_line, after_line, file_calls, ls_loop, cmd_ls}
use kontol_os.Shell.Sound.Entries.{each_file, printed_list, ls_calls-printed}
use kontol_os.Shell.Sound.{IsSound, Runs, finish-Runs}

length-after_line : (s : CString) → length (after_line s) ≤ length s
unfolding after_line
length-after_line [] = omega arith
length-after_line (c ∷ s) = ground (arith, length-after_line s)

after_line-shorter :
    (c : ℕ) (s : CString) → (c == 0) ≡ false → length (after_line (c ∷ s)) ≤ length s
unfolding after_line
after_line-shorter c s nonzero = ground (arith, length-after_line s)

-- Every round leaves the line.
ls_loop-ends :
    (fuel : ℕ) (line : CString) (fs : Fs)
    → length line < fuel
    → (files : List Call) × (ls_loop fuel line fs ≡ some files)
unfolding ls_loop
ls_loop-ends zero line fs h = absurd (omega arith)
ls_loop-ends (suc fuel) [] fs h = ([], refl)
ls_loop-ends (suc fuel) (c ∷ s) fs h = elim (Bool-cases (c == 0)) [
  | inl end ↦ ([], rw end refl)
  | inr more ↦
      let (files, run) =
        ls_loop-ends fuel (after_line (c ∷ s)) fs (omega (arith, after_line-shorter c s more)) in
      (file_calls (take_line (c ∷ s)) fs ++ files, rw (more, run) refl)
]

pub take_line-text : (t r : List ℕ) → IsLine t → take_line (t ++ (10 ∷ r)) ≡ t
unfolding take_line
take_line-text [] r h = refl
take_line-text (c ∷ t) r (nonzero, no_newline, h) =
    rw (==_of_ne c 0 nonzero, ==_of_ne c 10 no_newline, take_line-text t r h)

pub after_line-text : (t r : List ℕ) → IsLine t → after_line (t ++ (10 ∷ r)) ≡ r
unfolding after_line
after_line-text [] r h = refl
after_line-text (c ∷ t) r (nonzero, no_newline, h) =
    rw (==_of_ne c 0 nonzero, ==_of_ne c 10 no_newline, after_line-text t r h)

abbrev pub AreLines : List (List ℕ) → Type 0
AreLines [] = Unit
AreLines (t ∷ ts) = IsLine t × AreLines ts

pub deref-text : (t r : List ℕ) → IsLine t → (deref (t ++ (10 ∷ r)) == 0) ≡ false
deref-text [] r h = refl
deref-text (c ∷ t) r (nonzero, no_newline, h) = ==_of_ne c 0 nonzero

ls_loop-lines :
    (fuel : ℕ) (ts : List (List ℕ)) (rest : List ℕ) (fs : Fs)
    → AreLines ts
    → length ts < fuel
    → ls_loop fuel (lines ts ++ (0 ∷ rest)) fs ≡ some (each_file ts fs)
unfolding ls_loop
ls_loop-lines zero ts rest fs h enough = absurd (omega arith)
ls_loop-lines (suc fuel) [] rest fs h enough = refl
ls_loop-lines (suc fuel) (t ∷ ts) rest fs (h, hs) enough =
    let r = lines ts ++ (0 ∷ rest) in
    let shape : lines (t ∷ ts) ++ (0 ∷ rest) ≡ t ++ (10 ∷ r) =
      append_assoc t (10 ∷ lines ts) (0 ∷ rest) in
    subst (λ l. ls_loop (suc fuel) l fs ≡ some (file_calls t fs ++ each_file ts fs)) (sym shape)
      (rw
        (
          deref-text t r h,
          take_line-text t r h,
          after_line-text t r h,
          ls_loop-lines fuel ts rest fs hs (omega arith),
        )
        refl)

length-lines : (ts : List (List ℕ)) → length ts ≤ length (lines ts)
length-lines [] = omega arith
length-lines (t ∷ ts) = omega (arith, length-lines ts, length-append t (10 ∷ lines ts))

-- The array of cmd_ls after fs_list.
listed :
    (s : System)
    → IsSound s
    → (count : ℕ) × (rest : List ℕ) × (fs_list (some s.stack) 1024 s.fs
        ≡ some (pos count, lines (listing 1024 0 s.fs.file_table) ++ (0 ∷ rest)))
      × (length (lines (listing 1024 0 s.fs.file_table) ++ (0 ∷ rest)) ≡ 1024)
listed s h = go s.stack h.stack
  where
    go :
        (stack : List ℕ)
        → length stack ≡ 1024
        → (count : ℕ) × (rest : List ℕ) × (fs_list (some stack) 1024 s.fs
            ≡ some (pos count, lines (listing 1024 0 s.fs.file_table) ++ (0 ∷ rest)))
          × (length (lines (listing 1024 0 s.fs.file_table) ++ (0 ∷ rest)) ≡ 1024)
    go [] size = absurd (omega arith)
    go (x ∷ buffer) size =
        let (rest, run, len) = fs_list-lines 1024 x buffer s.fs (omega arith) (omega arith) in
        (
          _,
          rest,
          run,
          omega (arith, len, length-append (lines (listing 1024 0 s.fs.file_table)) (0 ∷ rest)),
        )

pub cmd_ls-Runs : (argv : List CString) (s : System) → IsSound s → Runs (cmd_ls argv s)
unfolding cmd_ls Option.bind
cmd_ls-Runs argv s h = elim (Bool-cases (fs_count s.fs == 0)) [
  | inl empty ↦ rw empty (finish-Runs _ s h)
  | inr some_files ↦
      let (count, rest, run, size) = listed s h in
      let buffer = lines (listing 1024 0 s.fs.file_table) ++ (0 ∷ rest) in
      let (files, ends) = ls_loop-ends 1025 buffer s.fs (omega (arith, size)) in
      rw (some_files, run, ends) (finish-Runs _ s h)
]

-- In a system in order that has files, and whose names that ls gets have no newline, cmd_ls prints its
-- title; then the name and the size of each file, as the table has them and in its order, of those whose
-- name is not passed over for want of room in 1024 bytes (the name, a newline, a NUL and one byte more
-- behind the names before it); then the number of all files in use.
pub cmd_ls-each_file :
    (argv : List CString) (s : System)
    → IsSound s
    → fs_count s.fs ≢ 0
    → AreLines (listing 1024 0 s.fs.file_table)
    → cmd_ls argv s ≡ finish (printed_list s.fs.file_table) s
unfolding cmd_ls Option.bind
cmd_ls-each_file argv s h nonempty plain =
    let (count, rest, run, size) = listed s h in
    let ts = listing 1024 0 s.fs.file_table in
    let enough : length ts < 1025 =
      omega (arith, size, length-lines ts, length-append (lines ts) (0 ∷ rest)) in
    rw (==_of_ne (fs_count s.fs) 0 nonempty, run, ls_loop-lines 1025 ts rest s.fs plain enough)
      (ap (λ cs. finish cs s) (ls_calls-printed s.fs h.valid.distinct))
