-- ===== src/Ramfs/Table.antt =====
-- The file table of src/fs/ramfs.c: its invariant, and what the searches find after a write to a slot.
use kontol_os.Base.{
  ℕ, zero, suc, ◌+◌, ◌<◌, ◌≡◌, ◌↔◌, refl, sym, ap, ◌∙◌, ◌⊎◌, inl, inr, Bool, true, false, ◌&&◌,
  none, some, List, [], ◌∷◌, arith, get_or, set, length, Bool-cases,
}
use kontol_os.CString.{CString, strlen}
use kontol_os.CString.Compare.{text, strcmp_iff}
use kontol_os.Ramfs.{
  File, Fs, no_file, fs_flag_used, fs_max_files, fs_max_filename, has_flag, same_string, find_from,
  free_from, count_used,
}

abbrev pub is_used : File → Bool
is_used f = has_flag fs_flag_used f

-- Every name array has its 32 bytes, and the name of a file in use has 1 to 31 characters.
abbrev pub WellNamed : List File → Type 0
WellNamed [] = Unit
WellNamed (f ∷ fs) =
    (length f.name ≡ fs_max_filename)
    × ((is_used f ≡ false) ⊎ ((0 < strlen f.name) × (strlen f.name < fs_max_filename)))
    × WellNamed fs

-- No name of a file in use is found a second time behind it.
abbrev pub Distinct : List File → Type 0
Distinct [] = Unit
Distinct (f ∷ fs) = ((is_used f ≡ false) ⊎ (find_from f.name 0 fs ≡ none)) × Distinct fs

pub record IsValid (fs : Fs) : Type 0 where
  pub slots : length fs.file_table ≡ fs_max_files
  pub named : WellNamed fs.file_table
  pub distinct : Distinct fs.file_table
  pub dir : length fs.current_dir ≡ fs_max_filename

pub bool_eq : (a b : Bool) → ((a ≡ true) ↔ (b ≡ true)) → a ≡ b
bool_eq true b h = sym (h.0 refl)
bool_eq false true h = h.1 refl
bool_eq false false h = refl

pub same_string_iff : (a b : CString) → (same_string a b ≡ true) ↔ (text a ≡ text b)
unfolding same_string
same_string_iff a b = ground (arith, strcmp_iff a b)

-- Only the characters in front of the NUL count.
pub same_string-text :
    (a a' b b' : CString)
    → text a ≡ text a'
    → text b ≡ text b'
    → same_string a b ≡ same_string a' b'
same_string-text a a' b b' p q = bool_eq _ _ (
  λ h. (same_string_iff a' b').1 (sym p ∙ (same_string_iff a b).0 h ∙ q),
  λ h. (same_string_iff a b).1 (p ∙ (same_string_iff a' b').0 h ∙ sym q),
)

pub find_from-none :
    (n : CString) (i k : ℕ) (fs : List File) → find_from n i fs ≡ none → find_from n k fs ≡ none
unfolding find_from
find_from-none n i k [] h = refl
find_from-none n i k (f ∷ fs) h = ground (arith, find_from-none n (i + 1) (k + 1) fs)

-- Names with the same characters find the same entry.
pub find_from-text :
    (n n' : CString) (i : ℕ) (fs : List File)
    → text n ≡ text n'
    → find_from n i fs ≡ find_from n' i fs
unfolding find_from
find_from-text n n' i [] h = refl
find_from-text n n' i (f ∷ fs) h =
    rw (same_string-text f.name f.name n n' refl h, find_from-text n n' (i + 1) fs h)

-- A slot that was free is filled with another name.
pub find_from-set_other :
    (n : CString) (i j : ℕ) (fs : List File) (f : File)
    → is_used (get_or fs j no_file) ≡ false
    → is_used f && same_string f.name n ≡ false
    → find_from n i (set fs j f) ≡ find_from n i fs
unfolding find_from
find_from-set_other n i j [] f old new = refl
find_from-set_other n i zero (g ∷ fs) f old new = rw (old, new)
find_from-set_other n i (suc j) (g ∷ fs) f old new =
    rw (find_from-set_other n (i + 1) j fs f old new)

-- A slot is filled with a name that was not there.
pub find_from-set_new :
    (n : CString) (i j : ℕ) (fs : List File) (f : File)
    → j < length fs
    → find_from n i fs ≡ none
    → is_used f && same_string f.name n ≡ true
    → find_from n i (set fs j f) ≡ some (i + j)
unfolding find_from
find_from-set_new n i j [] f h miss new = absurd (omega arith)
find_from-set_new n i zero (g ∷ fs) f h miss new = rw new (ap some (omega arith))
find_from-set_new n i (suc j) (g ∷ fs) f h miss new =
    ground (arith, find_from-set_new n (i + 1) j fs f)

-- What a search for a free slot finds.
pub free_from-some :
    (i k : ℕ) (fs : List File)
    → free_from i fs ≡ some k
    → (j : ℕ) × (k ≡ i + j) × (j < length fs) × (is_used (get_or fs j no_file) ≡ false)
unfolding free_from
free_from-some i k [] h = cc
free_from-some i k (f ∷ fs) h = elim (Bool-cases (is_used f)) [
  | inl busy ↦
      let (j, e, inside, idle) = free_from-some (i + 1) k fs (rw busy at h) in
      (suc j, omega arith, omega arith, idle)
  | inr idle ↦ (0, ground arith, omega arith, idle)
]

pub free_from-none : (i : ℕ) (fs : List File) → free_from i fs ≡ none → count_used fs ≡ length fs
unfolding free_from count_used
free_from-none i [] h = refl
free_from-none i (f ∷ fs) h = ground (arith, free_from-none (i + 1) fs)

pub count_used-set :
    (j : ℕ) (fs : List File) (f : File)
    → j < length fs
    → is_used (get_or fs j no_file) ≡ false
    → is_used f ≡ true
    → count_used (set fs j f) ≡ count_used fs + 1
unfolding count_used
count_used-set j [] f h old new = absurd (omega arith)
count_used-set zero (g ∷ fs) f h old new = rw (old, new) (omega arith)
count_used-set (suc j) (g ∷ fs) f h old new =
    omega (arith, count_used-set j fs f (omega arith) old new)

-- What a search for a name finds.
pub find_from-some :
    (n : CString) (i k : ℕ) (fs : List File)
    → find_from n i fs ≡ some k
    → (j : ℕ) × (k ≡ i + j)
      × (j < length fs)
      × (is_used (get_or fs j no_file) ≡ true)
      × (same_string (get_or fs j no_file).name n ≡ true)
unfolding find_from
find_from-some n i k [] h = cc
find_from-some n i k (f ∷ fs) h = elim (Bool-cases (is_used f && same_string f.name n)) [
  | inl hit ↦ (0, ground arith, omega arith, ground arith, ground arith)
  | inr miss ↦
      let (j, e, inside, busy, same) = find_from-some n (i + 1) k fs (rw miss at h) in
      (suc j, omega arith, omega arith, busy, same)
]
