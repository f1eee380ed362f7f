-- ===== src/Shell/Sound/Entries.antt =====
-- What the command ls of src/kernel/shell.c prints, read off the file table.
use kontol_os.Base.{
  ℕ, ◌+◌, ◌≡◌, refl, sym, ap, ap₂, ◌∙◌, subst, inl, inr, true, ◌&&◌, some, List, [], ◌∷◌, ◌++◌,
  append_assoc, arith, if◌then◌else◌, ltb, length, get_or, Bool-cases,
}
use mathlib.Core.Option
use kontol_os.CString.{CString, strlen}
use kontol_os.CString.Compare.{text}
use kontol_os.Ramfs.{
  File, Fs, no_file, same_string, find_from, fs_find, fs_open, fs_get_size, fs_count, count_used,
}
use kontol_os.Ramfs.Table.{is_used, Distinct, same_string_iff, find_from-text}
use kontol_os.Ramfs.Lines.{listing}
use kontol_os.Screen.{
  Call, print, print_dec, say, ink, to_int, light_cyan, white, dark_grey, light_green,
}
use kontol_os.Shell.Files.{file_calls, ls_calls}

-- A line of the list: the name of the file and its size.
abbrev pub printed_file : File → List Call
printed_file f =
    ink light_green
    ∷ say "  "
    ∷ print (text f.name)
    ∷ ink dark_grey
    ∷ say "  ("
    ∷ print_dec (to_int f.size)
    ∷ say " bytes)"
    ∷ say "\n"
    ∷ []

-- The lines of the files in use, `p` characters of the names written already; a file is passed over if its
-- name, a newline, a NUL and one byte more do not fit in the 1024 bytes.
abbrev pub printed_files : ℕ → List File → List Call
printed_files p [] = []
printed_files p (f ∷ fs) =
    let skip = printed_files p fs in
    let rest = printed_files (p + strlen f.name + 1) fs in
    if is_used f && ltb (p + strlen f.name + 2) 1024 then printed_file f ++ rest else skip

-- The files in use.
abbrev pub files_of : List File → List File
files_of [] = []
files_of (f ∷ fs) = if is_used f then f ∷ files_of fs else files_of fs

-- The title, the lines and the number of all files.
abbrev pub printed_list : List File → List Call
printed_list table =
    ink light_cyan
    ∷ say "\nFiles in filesystem:\n"
    ∷ say "--------------------\n"
    ∷ ink white
    ∷ (printed_files 0 table
        ++ (ink dark_grey
            ∷ say "\nTotal: "
            ∷ print_dec (to_int (length (files_of table)))
            ∷ say " file(s)\n\n"
            ∷ ink white
            ∷ []))

-- What the loop of cmd_ls makes of the names.
abbrev pub each_file : List (List ℕ) → Fs → List Call
each_file [] fs = []
each_file (t ∷ ts) fs = file_calls t fs ++ each_file ts fs

text-text : (s : CString) → text (text s) ≡ text s
text-text [] = refl
text-text (c ∷ s) = ground (arith, text-text s)

-- The name of an entry finds the entry itself.
find_from-entry :
    (i : ℕ) (pre post : List File) (f : File)
    → Distinct (pre ++ (f ∷ post))
    → is_used f ≡ true
    → find_from (text f.name) i (pre ++ (f ∷ post)) ≡ some (i + length pre)
unfolding find_from
find_from-entry i [] post f h busy =
    let same : same_string f.name (text f.name) ≡ true =
      (same_string_iff f.name (text f.name)).1 (sym (text-text f.name)) in
    rw (busy, same) (ap some (omega arith))
find_from-entry i (g ∷ pre) post f (other, h) busy =
    let rest = pre ++ (f ∷ post) in
    let later = find_from-entry (i + 1) pre post f h busy in
    elim (Bool-cases (is_used g && same_string g.name (text f.name))) [
      | inl hit ↦ elim other [
        | inl idle ↦ absurd (ground arith)
        | inr missing ↦
            let same : same_string g.name (text f.name) ≡ true = ground arith in
            let texts = (same_string_iff g.name (text f.name)).0 same in
            absurd (
              Option.none-ne-some (0 + length pre) (
                sym missing
                ∙ find_from-text g.name (text f.name) 0 rest texts
                ∙ find_from-entry 0 pre post f h busy))
      ]
      | inr miss ↦ rw (miss, later) (ap some (omega arith))
    ]

get_or-append :
    (pre post : List File) (f : File) → get_or (pre ++ (f ∷ post)) (length pre) no_file ≡ f
get_or-append [] post f = refl
get_or-append (g ∷ pre) post f = get_or-append pre post f

file_calls-entry :
    (fs : Fs) (pre post : List File) (f : File)
    → fs.file_table ≡ pre ++ (f ∷ post)
    → Distinct fs.file_table
    → is_used f ≡ true
    → file_calls (text f.name) fs ≡ printed_file f
unfolding file_calls fs_open fs_find fs_get_size
file_calls-entry fs pre post f shape h busy =
    let found : find_from (text f.name) 0 fs.file_table ≡ some (length pre) =
      ap (find_from (text f.name) 0) shape
      ∙ find_from-entry 0 pre post f (subst Distinct shape h) busy
      ∙ ap some (omega arith) in
    let entry : get_or fs.file_table (length pre) no_file ≡ f =
      ap (λ t. get_or t (length pre) no_file) shape ∙ get_or-append pre post f in
    let size : fs_get_size (some (length pre)) fs ≡ f.size = ap (λ g. g.size) entry in
    rw (found, size)

each_file-entries :
    (p : ℕ) (fs : Fs) (pre post : List File)
    → fs.file_table ≡ pre ++ post
    → Distinct fs.file_table
    → each_file (listing 1024 p post) fs ≡ printed_files p post
unfolding listing
each_file-entries p fs pre [] shape h = refl
each_file-entries p fs pre (f ∷ post) shape h =
    let shape' : fs.file_table ≡ (pre ++ (f ∷ [])) ++ post =
      shape ∙ sym (append_assoc pre (f ∷ []) post) in
    elim (Bool-cases (is_used f && ltb (p + strlen f.name + 2) 1024)) [
      | inl fits ↦
          let busy : is_used f ≡ true = ground arith in
          rw fits (
            ap₂ (λ a b. a ++ b) (file_calls-entry fs pre post f shape h busy)
              (each_file-entries (p + strlen f.name + 1) fs (pre ++ (f ∷ [])) post shape' h))
      | inr skip ↦ rw skip (each_file-entries p fs (pre ++ (f ∷ [])) post shape' h)
    ]

files_of-count : (fs : List File) → count_used fs ≡ length (files_of fs)
unfolding count_used
files_of-count [] = refl
files_of-count (f ∷ fs) = ground (arith, files_of-count fs)

-- The calls of cmd_ls are the list read off the table.
pub ls_calls-printed :
    (fs : Fs)
    → Distinct fs.file_table
    → ls_calls (fs_count fs) (each_file (listing 1024 0 fs.file_table) fs)
      ≡ printed_list fs.file_table
unfolding ls_calls fs_count
ls_calls-printed fs h =
    rw (each_file-entries 0 fs [] fs.file_table refl h, files_of-count fs.file_table)
