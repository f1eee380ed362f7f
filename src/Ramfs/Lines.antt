-- ===== src/Ramfs/Lines.antt =====
-- What fs_list of src/fs/ramfs.c writes to its buffer.
use kontol_os.Base.{
  ℕ, suc, ◌+◌, ◌≤◌, ◌<◌, ◌≡◌, refl, sym, ap, ap₂, subst, ◌∙◌, inl, inr, true, false, ◌&&◌, Option,
  some, List, [], ◌∷◌, ◌++◌, append_assoc, arith, if◌then◌else◌, ◌==◌, ==_of_ne, ltb, length, set,
  drop, length-append, length-drop, Bool-cases, pos,
}
use mathlib.Core.Option
use kontol_os.CString.{CString, strlen, strcpy}
use kontol_os.CString.Compare.{text, length-text}
use kontol_os.CString.Copy.{strcpy_lem}
use kontol_os.Ramfs.{File, Fs, has_flag, fs_flag_used}
use kontol_os.Ramfs.Listing.{strcpy_at, list_from, fs_list}

-- The names that are written behind `p` characters to a buffer of `size` bytes, in the order of the table. A
-- name is passed over if it does not fit with a newline, a NUL and one byte more, so also if it fits exactly
-- with its newline and its NUL.
unfoldable pub listing : ℕ → ℕ → List File → List (List ℕ)
listing size p [] = []
listing size p (f ∷ fs) =
    let skip = listing size p fs in
    let rest = listing size (p + strlen f.name + 1) fs in
    if has_flag fs_flag_used f && ltb (p + strlen f.name + 2) size then text f.name ∷ rest else skip

-- Each text with a newline behind it.
abbrev pub lines : List (List ℕ) → List ℕ
lines [] = []
lines (t ∷ ts) = t ++ (10 ∷ lines ts)

strcpy_at-append :
    (pre d d' : List ℕ) (s : CString)
    → strcpy d s ≡ some d'
    → strcpy_at (length pre) (pre ++ d) s ≡ some (pre ++ d')
unfolding strcpy_at
strcpy_at-append [] d d' s h = h
strcpy_at-append (x ∷ pre) d d' s h = rw (strcpy_at-append pre d d' s h)

pub set-append : (pre d : List ℕ) (k v : ℕ) → set (pre ++ d) (length pre + k) v ≡ pre ++ set d k v
set-append [] d k v = ap (λ j. set d j v) (omega arith)
set-append (x ∷ pre) d k v =
    let at : suc (length pre) + k ≡ suc (length pre + k) = omega arith in
    ap (λ j. set (x ∷ (pre ++ d)) j v) at ∙ ap (x ∷◌) (set-append pre d k v)

pub uncons :
    (r : List ℕ)
    → 0 < length r
    → (r' : List ℕ) × (set r 0 0 ≡ 0 ∷ r') × (length r ≡ suc (length r'))
uncons [] h = absurd (omega arith)
uncons (x ∷ r) h = (r, refl, refl)

-- The writes of one round: the name, the newline over its NUL, and a NUL behind it.
one_line :
    (pre rest : List ℕ) (name : CString)
    → strlen name < length rest
    → (rest' : List ℕ) × (strcpy_at (length pre) (pre ++ (0 ∷ rest)) name
        ≡ some (pre ++ (text name ++ (0 ∷ drop (strlen name) rest))))
      × (set
            (set
              (pre ++ (text name ++ (0 ∷ drop (strlen name) rest)))
              (length pre + strlen name)
              10)
            (length pre + strlen name + 1)
            0
          ≡ (pre ++ (text name ++ (10 ∷ []))) ++ (0 ∷ rest'))
      × (length rest ≡ strlen name + 1 + length rest')
one_line pre rest name room =
    let d = drop (strlen name) rest in
    let (rest', e, l) = uncons d (omega (arith, length-drop (strlen name) rest)) in
    let first : set (pre ++ (text name ++ (0 ∷ d))) (length pre + strlen name) 10
        ≡ pre ++ (text name ++ (10 ∷ d)) =
      set-append pre (text name ++ (0 ∷ d)) (strlen name) 10
      ∙ ap (pre ++◌) (
          ap (λ k. set (text name ++ (0 ∷ d)) k 10) (omega (arith, length-text name))
          ∙ set-append (text name) (0 ∷ d) 0 10) in
    let second : set (pre ++ (text name ++ (10 ∷ d))) (length pre + strlen name + 1) 0
        ≡ pre ++ (text name ++ (10 ∷ (0 ∷ rest'))) =
      ap (λ k. set (pre ++ (text name ++ (10 ∷ d))) k 0) (omega arith)
      ∙ set-append pre (text name ++ (10 ∷ d)) (strlen name + 1) 0
      ∙ ap (pre ++◌) (
          ap (λ k. set (text name ++ (10 ∷ d)) k 0) (omega (arith, length-text name))
          ∙ set-append (text name) (10 ∷ d) 1 0
          ∙ ap (λ r. text name ++ (10 ∷ r)) e) in
    (
      rest',
      strcpy_at-append pre (0 ∷ rest) _ name (strcpy_lem (0 ∷ rest) name (omega arith)),
      ap (λ b. set b (length pre + strlen name + 1) 0) first
          ∙ second
          ∙ ap (pre ++◌) (sym (append_assoc (text name) (10 ∷ []) (0 ∷ rest')))
          ∙ sym (append_assoc pre (text name ++ (10 ∷ [])) (0 ∷ rest')),
      omega (arith, l, length-drop (strlen name) rest),
    )

-- What the loop makes of a buffer with `pre` and a NUL in front.
abbrev Lists : ℕ → List File → ℕ → List ℕ → List ℕ → Option (ℕ × List ℕ) → Type 0
Lists size fs count pre rest r =
    (rest' : List ℕ) × (r
      ≡ some (
        count + length (listing size (length pre) fs),
        pre ++ (lines (listing size (length pre) fs) ++ (0 ∷ rest')),
      ))
    × (length (lines (listing size (length pre) fs)) + length rest' ≡ length rest)

list_from-round :
    (size : ℕ) (f : File) (fs : List File) (count : ℕ) (pre rest rest' : List ℕ)
    → has_flag fs_flag_used f && ltb (length pre + strlen f.name + 2) size ≡ true
    → strcpy_at (length pre) (pre ++ (0 ∷ rest)) f.name
      ≡ some (pre ++ (text f.name ++ (0 ∷ drop (strlen f.name) rest)))
    → set
        (set
          (pre ++ (text f.name ++ (0 ∷ drop (strlen f.name) rest)))
          (length pre + strlen f.name)
          10)
        (length pre + strlen f.name + 1)
        0
      ≡ (pre ++ (text f.name ++ (10 ∷ []))) ++ (0 ∷ rest')
    → list_from size (f ∷ fs) (length pre) count (pre ++ (0 ∷ rest))
      ≡ list_from size fs
          (length pre + strlen f.name + 1)
          (count + 1)
          ((pre ++ (text f.name ++ (10 ∷ []))) ++ (0 ∷ rest'))
unfolding list_from Option.bind
list_from-round size f fs count pre rest rest' fits copied written = rw (fits, copied, written) refl

Lists-round :
    (size : ℕ) (f : File) (fs : List File) (count : ℕ) (pre rest rest' : List ℕ)
    (r : Option (ℕ × List ℕ))
    → has_flag fs_flag_used f && ltb (length pre + strlen f.name + 2) size ≡ true
    → length (pre ++ (text f.name ++ (10 ∷ []))) ≡ length pre + strlen f.name + 1
    → length rest ≡ strlen f.name + 1 + length rest'
    → Lists size fs (count + 1) (pre ++ (text f.name ++ (10 ∷ []))) rest' r
    → Lists size (f ∷ fs) count pre rest r
unfolding listing
Lists-round size f fs count pre rest rest' r fits len l (rest2, run, l2) =
    let more : List (List ℕ) = listing size (length pre + strlen f.name + 1) fs in
    let run' : r
        ≡ some (
          count + 1 + length more,
          (pre ++ (text f.name ++ (10 ∷ []))) ++ (lines more ++ (0 ∷ rest2)),
        ) =
      rw len at run in
    let l3 : length (lines more) + length rest2 ≡ length rest' = rw len at l2 in
    let joined : (pre ++ (text f.name ++ (10 ∷ []))) ++ (lines more ++ (0 ∷ rest2))
        ≡ pre ++ (lines (text f.name ∷ more) ++ (0 ∷ rest2)) =
      append_assoc pre (text f.name ++ (10 ∷ [])) (lines more ++ (0 ∷ rest2))
      ∙ ap (pre ++◌) (
          append_assoc (text f.name) (10 ∷ []) (lines more ++ (0 ∷ rest2))
          ∙ sym (append_assoc (text f.name) (10 ∷ lines more) (0 ∷ rest2))) in
    let total : count + 1 + length more ≡ count + length (text f.name ∷ more) = omega arith in
    rw fits (
      rest2,
      run' ∙ ap₂ (λ k b. some (k, b)) total joined,
      omega (arith, l3, l, length-append (text f.name) (10 ∷ lines more), length-text f.name),
    )

list_from-Lists :
    (size : ℕ) (fs : List File) (count : ℕ) (pre rest : List ℕ)
    → size ≤ length pre + 1 + length rest
    → Lists size fs count pre rest (list_from size fs (length pre) count (pre ++ (0 ∷ rest)))
unfolding list_from listing
list_from-Lists size [] count pre rest room =
    (rest, ap (λ k. some (k, _)) (omega arith), omega arith)
list_from-Lists size (f ∷ fs) count pre rest room =
    elim (Bool-cases (has_flag fs_flag_used f && ltb (length pre + strlen f.name + 2) size)) [
      | inr skip ↦ rw (skip, list_from) (list_from-Lists size fs count pre rest room)
      | inl fits ↦
          let (rest', copied, written, l) = one_line pre rest f.name (ground arith) in
          let pre' = pre ++ (text f.name ++ (10 ∷ [])) in
          let len : length pre' ≡ length pre + strlen f.name + 1 = omega (
            arith,
            length-append pre (text f.name ++ (10 ∷ [])),
            length-append (text f.name) (10 ∷ []),
            length-text f.name,
          ) in
          Lists-round size f fs count pre rest rest' _ fits len l (
            subst (λ r. Lists size fs (count + 1) pre' rest' r)
              (ap (λ p. list_from size fs p (count + 1) (pre' ++ (0 ∷ rest'))) len
                ∙ sym (list_from-round size f fs count pre rest rest' fits copied written))
              (list_from-Lists size fs (count + 1) pre' rest' (omega arith)))
    ]

-- fs_list of a buffer of at least `size` bytes, at least one, never writes outside the buffer. It leaves
-- there, in the order of the table and each with a newline, the names of the files in use that have room
-- with their newline, a NUL and one byte more behind the names before them, and a NUL behind the last one.
-- It answers how many they are; the others are passed over, one that fits exactly among them.
pub fs_list-lines :
    (size : ℕ) (x : ℕ) (buffer : List ℕ) (fs : Fs)
    → 0 < size
    → size ≤ length (x ∷ buffer)
    → (rest : List ℕ) × (fs_list (some (x ∷ buffer)) size fs
        ≡ some (
          pos (length (listing size 0 fs.file_table)),
          lines (listing size 0 fs.file_table) ++ (0 ∷ rest),
        ))
      × (length (lines (listing size 0 fs.file_table)) + length rest ≡ length buffer)
unfolding fs_list
fs_list-lines size x buffer fs more room =
    let (rest, run, l) = list_from-Lists size fs.file_table 0 [] buffer (omega arith) in
    let nonzero : (size == 0) ≡ false = ==_of_ne size 0 (omega arith) in
    (
      rest,
      rw (nonzero, run)
          (ap (λ k. some (pos k, lines (listing size 0 fs.file_table) ++ (0 ∷ rest)))
            (omega arith)),
      l,
    )
