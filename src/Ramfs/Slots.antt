-- ===== src/Ramfs/Slots.antt =====
-- What clearing or filling a slot of the table of src/fs/ramfs.c does to its invariant.
use kontol_os.Base.{
  ℕ, zero, suc, ◌+◌, ◌≤◌, ◌<◌, ◌≡◌, refl, sym, ap, ◌∙◌, ◌⊎◌, inl, inr, Bool, true, false, ◌&&◌,
  none, some, List, [], ◌∷◌, arith, if◌then◌else◌, get_or, set, length, Bool-cases,
}
use kontol_os.CString.{CString, strlen}
use kontol_os.CString.Compare.{text}
use kontol_os.Ramfs.{File, no_file, fs_max_filename, same_string, find_from}
use kontol_os.Ramfs.Table.{
  is_used, WellNamed, Distinct, bool_eq, same_string_iff, same_string-text, find_from-none,
  find_from-text, find_from-set_other, find_from-some,
}

-- A slot is cleared: what was not found is not found.
find_from-set_free :
    (n : CString) (i j : ℕ) (fs : List File) (f : File)
    → is_used f ≡ false
    → find_from n i fs ≡ none
    → find_from n i (set fs j f) ≡ none
unfolding find_from
find_from-set_free n i j [] f idle h = refl
find_from-set_free n i zero (g ∷ fs) f idle h = ground arith
find_from-set_free n i (suc j) (g ∷ fs) f idle h =
    ground (arith, find_from-set_free n (i + 1) j fs f)

same_string-sym : (a b : CString) → same_string a b ≡ same_string b a
same_string-sym a b = bool_eq _ _ (
  λ h. (same_string_iff b a).1 (sym ((same_string_iff a b).0 h)),
  λ h. (same_string_iff a b).1 (sym ((same_string_iff b a).0 h)),
)

-- Two names that are the same as a third.
same_string-join : (a n m : CString) → same_string a n ≡ true → same_string a m ≡ same_string n m
same_string-join a n m h = same_string-text a n m m ((same_string_iff a n).0 h) refl

-- A search finds no index below its own.
find_from-ge : (n : CString) (i k : ℕ) (fs : List File) → find_from n i fs ≡ some k → i ≤ k
find_from-ge n i k fs h = let (j, e, inside, busy, same) = find_from-some n i k fs h in omega arith

-- An entry with the name that is cleared has, of two equal names, both or none.
hits : CString → File → Bool
hits n f = is_used f && same_string f.name n

hits-same : (n m : CString) (f : File) → same_string n m ≡ true → hits n f ≡ hits m f
unfolding hits
hits-same n m f h = rw (same_string-text f.name f.name n m refl ((same_string_iff n m).0 h))

-- The slot that a search found is cleared: its name is no longer found, and all others are found
-- where they were.
pub find_from-clear :
    (n m : CString) (i j : ℕ) (fs : List File) (f : File)
    → Distinct fs
    → is_used f ≡ false
    → find_from n i fs ≡ some (i + j)
    → find_from m i (set fs j f) ≡ (if same_string n m then none else find_from m i fs)
unfolding find_from hits
find_from-clear n m i j [] f d idle h = cc
find_from-clear n m i zero (g ∷ fs) f (d, ds) idle h = elim (Bool-cases (hits n g)) [
  | inr miss ↦ absurd (omega (arith, find_from-ge n (i + 1) (i + 0) fs (rw miss at h)))
  | inl hit ↦ elim (Bool-cases (same_string n m)) [
    | inl same ↦
        let gone : find_from g.name 0 fs ≡ none = ground arith in
        let names : text g.name ≡ text m =
          (same_string_iff g.name n).0 (ground arith) ∙ (same_string_iff n m).0 same in
        rw (same, idle, ← find_from-text g.name m (i + 1) fs names)
          (find_from-none g.name 0 (i + 1) fs gone)
    | inr other ↦
        let miss : same_string g.name m ≡ false =
          same_string-join g.name n m (ground arith) ∙ other in
        rw (other, idle, miss) (ground arith)
  ]
]
find_from-clear n m i (suc j) (g ∷ fs) f (d, ds) idle h = elim (Bool-cases (hits n g)) [
  | inl hit ↦ let e : some i ≡ some (i + suc j) = rw hit at h in absurd (ground arith)
  | inr miss ↦
      let found : find_from n (i + 1) fs ≡ some (i + 1 + j) =
        (rw miss at h) ∙ ap some (omega arith) in
      let rest = find_from-clear n m (i + 1) j fs f ds idle found in
      elim (Bool-cases (same_string n m)) [
        | inl same ↦
            let miss_m : hits m g ≡ false = sym (hits-same n m g same) ∙ miss in
            rw (rest, same, miss_m)
        | inr other ↦ rw (rest, other)
      ]
]

-- Clearing a slot keeps the names distinct.
pub Distinct-clear :
    (j : ℕ) (fs : List File) (f : File) → is_used f ≡ false → Distinct fs → Distinct (set fs j f)
Distinct-clear j [] f idle d = tt
Distinct-clear zero (g ∷ fs) f idle (d, ds) = (inl idle, ds)
Distinct-clear (suc j) (g ∷ fs) f idle (d, ds) = (
  elim d [ inl free ↦ inl free | inr gone ↦ inr (find_from-set_free g.name 0 j fs f idle gone) ],
  Distinct-clear j fs f idle ds,
)

-- Filling a free slot with a name that was not there keeps the names distinct.
pub Distinct-fill :
    (i j : ℕ) (fs : List File) (f : File)
    → is_used (get_or fs j no_file) ≡ false
    → find_from f.name i fs ≡ none
    → Distinct fs
    → Distinct (set fs j f)
unfolding find_from hits
Distinct-fill i j [] f old miss d = tt
Distinct-fill i zero (g ∷ fs) f old miss (d, ds) =
    (inr (find_from-none f.name (i + 1) 0 fs (rw old at miss)), ds)
Distinct-fill i (suc j) (g ∷ fs) f old miss (d, ds) = elim (Bool-cases (hits f.name g)) [
  | inl hit ↦ cc (rw hit at miss)
  | inr away ↦ (
    elim d [
      | inl free ↦ inl free
      | inr gone ↦ elim (Bool-cases (is_used g)) [
        | inr free ↦ inl free
        | inl busy ↦
            let other : same_string f.name g.name ≡ false =
              same_string-sym f.name g.name ∙ ground arith in
            inr (find_from-set_other g.name 0 j fs f old (ground arith) ∙ gone)
      ]
    ],
    Distinct-fill (i + 1) j fs f old (rw away at miss) ds,
  )
]

pub WellNamed-set :
    (j : ℕ) (fs : List File) (f : File)
    → length f.name ≡ fs_max_filename
    → (is_used f ≡ false) ⊎ ((0 < strlen f.name) × (strlen f.name < fs_max_filename))
    → WellNamed fs
    → WellNamed (set fs j f)
WellNamed-set j [] f size ok w = tt
WellNamed-set zero (g ∷ fs) f size ok (l, n, ws) = (size, ok, ws)
WellNamed-set (suc j) (g ∷ fs) f size ok (l, n, ws) = (l, n, WellNamed-set j fs f size ok ws)

pub length-name :
    (j : ℕ) (fs : List File)
    → WellNamed fs
    → j < length fs
    → length (get_or fs j no_file).name ≡ fs_max_filename
length-name j [] w h = absurd (omega arith)
length-name zero (g ∷ fs) (l, n, ws) h = l
length-name (suc j) (g ∷ fs) (l, n, ws) h = length-name j fs ws (omega arith)
