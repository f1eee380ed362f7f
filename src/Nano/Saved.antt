-- ===== src/Nano/Saved.antt =====
-- Ctrl+S of the editor of src/kernel/shell.c, down to the bytes of the file.
use kontol_os.Base.{
  true, le→leb, leb, rev_onto, length-rev_onto, ℕ, zero, suc, ◌+◌, ◌*◌, ◌≤◌, ◌<◌, ◌≡◌, ◌≢◌, refl,
  ap, ap₂, ◌∙◌, ◌⊎◌, inl, inr, false, Option, some, List, [], ◌∷◌, ◌++◌, arith, length,
  length-append, update, set, ◌==◌, ==_of_ne, ==_iff, Bool-cases,
}
use mathlib.Core.Option
use kontol_os.Bytes.{Bytes}
use kontol_os.Bytes.Copy.{Copied}
use kontol_os.CString.{CString, strlen}
use kontol_os.Memory.{Memory, kmalloc, null, room}
use kontol_os.Ramfs.{File, Fs, write_file, fs_open}
use kontol_os.Ramfs.Claims.{held_room, InOrder, InOrder-bytes, allocate, release}
use kontol_os.Ramfs.Rewrite.{NoRoom}
use kontol_os.Ramfs.Copies.{fs_write-Copies}
use kontol_os.Shell.System.{System}
use kontol_os.Shell.Files.{string_at}
use kontol_os.Shell.Sound.Files.{find-inside}
use kontol_os.Nano.Sizes.{length-string_at}
use kontol_os.Nano.{Editor}
use kontol_os.Nano.Page.{Page, Filled, Rows, Shows}
use kontol_os.Nano.Lines.{Filled-append, strlen-Filled, Holds-short}
use kontol_os.Nano.Saving.{flat, lines_of, join_lines-Shows, lines_of-Rows, total_size-Shows}
use kontol_os.Nano.Storage.{total_size, join_lines, store, save_to, save}

store-below : (p : ℕ) (cs : List ℕ) (b : Bytes) (a : ℕ) → a < p → store p cs b a ≡ b a
unfolding store
store-below p [] b a h = refl
store-below p (c ∷ cs) b a h =
    store-below (p + 1) cs (update b p c) a (omega arith) ∙ rw (==_of_ne a p (omega arith)) refl

-- An array that was put back reads as its contents.
string_at-store :
    (p : ℕ) (t more : List ℕ) (b : Bytes) → string_at (length t) p (store p (t ++ more) b) ≡ t
unfolding string_at store
string_at-store p [] more b = refl
string_at-store p (c ∷ t) more b =
    let first : store (p + 1) (t ++ more) (update b p c) p ≡ c =
      store-below (p + 1) (t ++ more) (update b p c) p (omega arith) ∙ ground arith in
    ap₂ (λ x xs. x ∷ xs) first (string_at-store (p + 1) t more (update b p c))

pub string_at-same :
    (n p q : ℕ) (b b' : Bytes)
    → ((j : ℕ) → j < n → b (p + j) ≡ b' (q + j))
    → string_at n p b ≡ string_at n q b'
unfolding string_at
string_at-same zero p q b b' h = refl
string_at-same (suc n) p q b b' h =
    let here_p : p ≡ p + 0 = omega arith in
    let here_q : q + 0 ≡ q = omega arith in
    ap₂ (λ x xs. x ∷ xs) (ap b here_p ∙ h 0 (omega arith) ∙ ap b' here_q)
      (string_at-same n (p + 1) (q + 1) b b' (λ j less.
        let next_p : (p + 1) + j ≡ p + (j + 1) = omega arith in
        let next_q : q + (j + 1) ≡ (q + 1) + j = omega arith in
        ap b next_p ∙ h (j + 1) (omega arith) ∙ ap b' next_q))

string_at-Copied :
    (d s n : ℕ) (b b' : Bytes) → Copied d s n b b' → string_at n d b' ≡ string_at n s b
string_at-Copied d s n b b' h = string_at-same n d s b' b (λ j less. ground (arith, h (d + j)))

flat-Filled : (ts ds : List (List ℕ)) → Rows ts ds → Filled (flat ts)
flat-Filled [] [] h = tt
flat-Filled [] (d ∷ ds) h = elim h [ ]
flat-Filled (t ∷ ts) [] h = elim h [ ]
flat-Filled (t ∷ ts) (d ∷ ds) (a, h) =
    Filled-append t (10 ∷ flat ts) a.filled ((λ e. omega (arith, e)), flat-Filled ts ds h)

flat-bound : (ts ds : List (List ℕ)) → Rows ts ds → length (flat ts) ≤ 80 * length ds
flat-bound [] [] h = omega arith
flat-bound [] (d ∷ ds) h = elim h [ ]
flat-bound (t ∷ ts) [] h = elim h [ ]
flat-bound (t ∷ ts) (d ∷ ds) (a, h) =
    omega (arith, flat-bound ts ds h, Holds-short t d a, length-append t (10 ∷ flat ts))

-- The file `i` after the write that `m` was the memory of: without data, as there was no memory for it, or
-- with the text of the page.
abbrev pub FileSaved : ℕ → Page → Fs → Memory → System → Type 0
FileSaved i p fs m s' =
    (f : File) × (s'.fs ≡ write_file i f fs)
    × ((f.data_ptr ≡ null) × NoRoom i (length (flat (lines_of p))) fs m
        ⊎ (f.data_ptr ≢ null)
          × (f.size ≡ length (flat (lines_of p)))
          × (string_at f.size f.data_ptr s'.memory.bytes ≡ flat (lines_of p)))

-- What Ctrl+S leaves, where kmalloc gives `q` for the text and its NUL. If that is NULL, nothing is done.
-- Else the mark of modification is cleared, and the file is written from the text at `q`.
abbrev pub Saves : ℕ → Editor → Page → System → Option (Editor × System) → Type 0
Saves i e p s r =
    (q : ℕ) × (m : Memory) × (e' : Editor) × (s' : System) × (kmalloc
        (length (flat (lines_of p)) + 1) s.memory
      ≡ some (q, m))
    × (r ≡ some (e', s'))
    × ((q ≡ null) × (e' ≡ e) × (s' ≡ record s { memory = m })
        ⊎ (q ≢ null)
          × (e' ≡ record e { modified = false })
          × FileSaved i p s.fs
              (record m { bytes = store q (flat (lines_of p) ++ (0 ∷ [])) m.bytes }) s')

-- A page has a line at least.
flat-positive : (p : Page) → 0 < length (flat (lines_of p))
flat-positive p = go p.above (rev_onto p.left p.right) p.below
  where
    go :
        (a : List (List ℕ)) (t : List ℕ) (b : List (List ℕ))
        → 0 < length (flat (rev_onto a (t ∷ b)))
    go [] t b = omega (arith, length-append t (10 ∷ flat b))
    go (x ∷ a) t b = go a x (t ∷ b)

-- The page has at most 100 lines.
flat-small : (e : Editor) (p : Page) → Shows e p → length (flat (lines_of p)) ≤ 8000
flat-small e p h = omega (
  arith,
  flat-bound (lines_of p) _ (lines_of-Rows e p h),
  length-rev_onto h.pre (h.here ∷ h.post),
  h.count,
)

-- From the test of the buffer on, with the text in it.
save_to-Saves :
    (filename : CString) (i q : ℕ) (e : Editor) (p : Page) (cs : List (ℕ × ℕ)) (s : System)
    → Shows e p
    → fs_open filename s.fs ≡ some i
    → q ≢ null
    → string_at (length (flat (lines_of p))) q s.memory.bytes ≡ flat (lines_of p)
    → InOrder ((q, length (flat (lines_of p)) + 1) ∷ cs) s.fs s.memory
    → (e' : Editor) × (s' : System) × (save_to filename q (length (flat (lines_of p))) e s
        ≡ some (e', s'))
      × InOrder ((q, length (flat (lines_of p)) + 1) ∷ cs) s'.fs s'.memory
      × (e' ≡ record e { modified = false })
      × FileSaved i p s.fs s.memory s'
unfolding save_to fs_open
save_to-Saves filename i q e p cs s h found set_q holds order =
    let n = length (flat (lines_of p)) in
    let (code, f, m', run, stored, order') =
      fs_write-Copies i q n (n + 1) cs s.fs s.memory (find-inside filename i s.fs found) set_q
        (flat-positive p) (omega (arith, flat-small e p h)) (omega arith) order in
    (
      record e { modified = false },
      record s { fs = write_file i f s.fs; memory = m' },
      rw (found, save_to) (rw run refl),
      order',
      refl,
      (
        f,
        refl,
        elim stored [
          | inl (answer, gone, none_left, bytes) ↦ inl (gone, none_left)
          | inr (answer, set_f, size, copied) ↦ inr (
            set_f,
            size,
            ap (λ k. string_at k f.data_ptr m'.bytes) size
                ∙ string_at-Copied f.data_ptr q n s.memory.bytes m'.bytes copied
                ∙ holds,
          )
        ],
      ),
    )

-- The buffer of Ctrl+S at `q`, once the loop has filled it.
buffer_fills :
    (e : Editor) (p : Page) (q : ℕ) (b : Bytes)
    → Shows e p
    → join_lines e.num_lines 0 e.lines
        (set (string_at (total_size e.num_lines 0 e.lines + 1) q b) 0 0)
      ≡ some (flat (lines_of p) ++ (0 ∷ []))
unfolding string_at
buffer_fills e p q b h =
    let n = total_size e.num_lines 0 e.lines in
    let next : n + 1 ≡ suc n = omega arith in
    ap (λ k. join_lines e.num_lines 0 e.lines (set (string_at k q b) 0 0)) next
    ∙ join_lines-Shows e p (string_at n (q + 1) b) h (length-string_at n (q + 1) b)

-- Ctrl+S while the editor shows a page and the file exists, with the heap in order. If kmalloc has no block
-- for the text and a NUL, nothing is done. Else the mark of modification is cleared: if kmalloc has no
-- block for the file, once its old data is freed, the file has no data any more; otherwise it has
-- exactly the lines of the page, each with a newline behind it.
pub save-Saves :
    (filename : CString) (i : ℕ) (e : Editor) (p : Page) (cs : List (ℕ × ℕ)) (s : System)
    → Shows e p
    → fs_open filename s.fs ≡ some i
    → InOrder cs s.fs s.memory
    → Saves i e p s (save filename e s)
unfolding save Option.bind
save-Saves filename i e p cs s h found order =
    let ts = flat (lines_of p) in
    let n = length ts in
    let total : total_size e.num_lines 0 e.lines ≡ n = total_size-Shows e p h in
    let (q, m, got, order1, same) =
      allocate (n + 1) cs s.fs s.memory (omega arith) (omega (arith, flat-small e p h)) order in
    let got' : kmalloc (total_size e.num_lines 0 e.lines + 1) s.memory ≡ some (q, m) =
      ap (λ k. kmalloc (k + 1) s.memory) total ∙ got in
    elim (Bool-cases (q == null)) [
      | inl nothing ↦ (
        q,
        m,
        e,
        record s { memory = m },
        got,
        rw (got', nothing) refl,
        inl ((==_iff q null).0 nothing, refl, refl),
      )
      | inr set_q ↦
          let fill = buffer_fills e p q m.bytes h in
          let size : strlen (ts ++ (0 ∷ [])) ≡ n =
            strlen-Filled ts [] (flat-Filled (lines_of p) _ (lines_of-Rows e p h)) in
          let b = store q (ts ++ (0 ∷ [])) m.bytes in
          let s1 = record s { memory = record m { bytes = b } } in
          let ne : q ≢ null = λ z. ground (arith, z, set_q) in
          let (e', s2, run, order2, clean, file) =
            save_to-Saves filename i q e p cs s1 h found ne (string_at-store q ts (0 ∷ []) m.bytes)
              (InOrder-bytes ((q, n + 1) ∷ cs) s.fs m b order1) in
          let (m3, freed, order3, kept) = release q (n + 1) cs s2.fs s2.memory order2 in
          let (f, table, stored) = file in
          let fits : leb (n + 1) (room q m) ≡ true =
            le→leb _ _ (held_room q (n + 1) cs s.fs m ne order1) in
          let fits' : leb (total_size e.num_lines 0 e.lines + 1) (room q m) ≡ true =
            ap (λ k. leb (k + 1) (room q m)) total ∙ fits in
          (
            q,
            m,
            e',
            record s2 { memory = m3 },
            got,
            rw (got', set_q, fits', fill, size, run, freed) refl,
            inr (
              ne,
              clean,
              (
                f,
                table,
                elim stored [
                  | inl gone ↦ inl gone
                  | inr (set_f, k, text) ↦
                      inr (set_f, k, ap (string_at f.size f.data_ptr) kept ∙ text)
                ],
              ),
            ),
          )
    ]
