-- ===== src/Ramfs/Same.antt =====
-- An entry of the file table of src/fs/ramfs.c that keeps its name and its flags, and the sizes of the
-- files.
use kontol_os.Base.{
  ℕ, zero, suc, ◌+◌, ◌≤◌, ◌≡◌, refl, ◌∙◌, List, [], ◌∷◌, arith, get_or, set, length-set,
}
use kontol_os.CString.{CString}
use kontol_os.Ramfs.{File, Fs, no_file, file_at, write_file, fs_max_filesize, has_flag, find_from}
use kontol_os.Ramfs.Table.{is_used, WellNamed, Distinct, IsValid}

module _ (f g : File) (name : f.name ≡ g.name) (flags : f.flags ≡ g.flags) where
  used_same : is_used f ≡ is_used g
  unfolding has_flag
  used_same = rw flags

  find_same :
      (n : CString) (i : ℕ) (fs : List File) → find_from n i (f ∷ fs) ≡ find_from n i (g ∷ fs)
  unfolding find_from has_flag
  find_same n i fs = rw (flags, name)

find_from-same :
    (n : CString) (k i : ℕ) (fs : List File) (f : File)
    → f.name ≡ (get_or fs i no_file).name
    → f.flags ≡ (get_or fs i no_file).flags
    → find_from n k (set fs i f) ≡ find_from n k fs
unfolding find_from
find_from-same n k i [] f name flags = refl
find_from-same n k zero (g ∷ fs) f name flags = find_same f g name flags n k fs
find_from-same n k (suc i) (g ∷ fs) f name flags = rw (find_from-same n (k + 1) i fs f name flags)

WellNamed-same :
    (i : ℕ) (fs : List File) (f : File)
    → f.name ≡ (get_or fs i no_file).name
    → f.flags ≡ (get_or fs i no_file).flags
    → WellNamed fs
    → WellNamed (set fs i f)
WellNamed-same i [] f name flags h = tt
WellNamed-same zero (g ∷ fs) f name flags (len, n, h) =
    (rw name len, rw (used_same f g name flags, name) n, h)
WellNamed-same (suc i) (g ∷ fs) f name flags (len, n, h) =
    (len, n, WellNamed-same i fs f name flags h)

Distinct-same :
    (i : ℕ) (fs : List File) (f : File)
    → f.name ≡ (get_or fs i no_file).name
    → f.flags ≡ (get_or fs i no_file).flags
    → Distinct fs
    → Distinct (set fs i f)
Distinct-same i [] f name flags h = tt
Distinct-same zero (g ∷ fs) f name flags (d, h) = (rw (used_same f g name flags, name) d, h)
Distinct-same (suc i) (g ∷ fs) f name flags (d, h) =
    (rw (find_from-same g.name 0 i fs f name flags) d, Distinct-same i fs f name flags h)

-- The table stays valid.
pub IsValid-same :
    (i : ℕ) (fs : Fs) (f : File)
    → f.name ≡ (file_at fs i).name
    → f.flags ≡ (file_at fs i).flags
    → IsValid fs
    → IsValid (write_file i f fs)
IsValid-same i fs f name flags v = record {
  slots = length-set fs.file_table i f ∙ v.slots;
  named = WellNamed-same i fs.file_table f name flags v.named;
  distinct = Distinct-same i fs.file_table f name flags v.distinct;
  dir = v.dir;
}

-- No file has more than 64 KiB.
abbrev pub Bounded : List File → Type 0
Bounded [] = Unit
Bounded (f ∷ fs) = (f.size ≤ fs_max_filesize) × Bounded fs

pub Bounded-set :
    (i : ℕ) (fs : List File) (f : File)
    → f.size ≤ fs_max_filesize
    → Bounded fs
    → Bounded (set fs i f)
Bounded-set i [] f small h = tt
Bounded-set zero (g ∷ fs) f small (b, h) = (small, h)
Bounded-set (suc i) (g ∷ fs) f small (b, h) = (b, Bounded-set i fs f small h)

pub Bounded-get :
    (i : ℕ) (fs : List File) → Bounded fs → (get_or fs i no_file).size ≤ fs_max_filesize
Bounded-get i [] h = omega arith
Bounded-get zero (g ∷ fs) (b, h) = b
Bounded-get (suc i) (g ∷ fs) (b, h) = Bounded-get i fs h
