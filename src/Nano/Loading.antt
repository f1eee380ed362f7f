-- ===== src/Nano/Loading.antt =====
-- The loop of the editor of src/kernel/shell.c that parses a file into its lines.
use kontol_os.Base.{
  ℕ, zero, suc, ◌+◌, ◌≤◌, ◌<◌, ◌≡◌, refl, sym, ap, ap₂, ◌∙◌, Option, some, List, [], ◌∷◌, ◌++◌,
  append_assoc, arith, true, ltb, ==_of_ne, get_or, set, drop, length, length-append, length-drop,
}
use mathlib.Core.Option
use kontol_os.CString.{strncpy}
use kontol_os.Vga.At.{IsLine}
use kontol_os.Ramfs.Lines.{set-append, uncons}
use kontol_os.Shell.Sound.Listing.{AreLines, take_line-text, after_line-text, deref-text}
use kontol_os.Nano.{end_at}
use kontol_os.Nano.Page.{Filled, Holds, Rows, Wide}
use kontol_os.Nano.Saving.{flat}
use kontol_os.Nano.Storage.{kept, load_lines}

-- Each line fits an array with its NUL.
abbrev pub Fitting : List (List ℕ) → Type 0
Fitting [] = Unit
Fitting (t ∷ ts) = (length t < 80) × Fitting ts

line-Filled : (t : List ℕ) → IsLine t → Filled t
line-Filled [] h = tt
line-Filled (c ∷ t) (nonzero, no_newline, h) = (nonzero, line-Filled t h)

-- strncpy of the characters in front.
strncpy-front :
    (d t r : List ℕ)
    → IsLine t
    → length t ≤ length d
    → strncpy d (t ++ r) (length t) ≡ some (t ++ drop (length t) d)
unfolding strncpy
strncpy-front d [] r h room = refl
strncpy-front [] (c ∷ t) r h room = absurd (omega arith)
strncpy-front (x ∷ d) (c ∷ t) r (nonzero, no_newline, h) room =
    rw (==_of_ne c 0 nonzero, strncpy-front d t r h (omega arith))

-- A line is copied to an array, with a NUL behind it.
line-Holds :
    (d t r : List ℕ)
    → IsLine t
    → length t < 80
    → length d ≡ 80
    → (b : List ℕ) × (Option.bind (strncpy d (t ++ r) (length t)) (λ b. end_at (length t) b)
        ≡ some b)
      × Holds t b
unfolding end_at Option.bind
line-Holds d t r h short wide =
    let (junk, cut, len) = uncons (drop (length t) d) (omega (arith, length-drop (length t) d)) in
    let whole = length-append t (drop (length t) d) in
    let inside : ltb (length t) (length (t ++ drop (length t) d)) ≡ true =
      ground (arith, whole, length-drop (length t) d) in
    let here : set (t ++ drop (length t) d) (length t) 0 ≡ t ++ (0 ∷ junk) =
      ap (λ k. set (t ++ drop (length t) d) k 0) (omega arith)
      ∙ set-append t (drop (length t) d) 0 0
      ∙ ap (λ u. t ++ u) cut in
    (
      t ++ (0 ∷ junk),
      rw (strncpy-front d t r h (omega arith), inside) (ap some here),
      record {
        filled = line-Filled t h;
        room = omega (arith, length-append t (0 ∷ junk), len, length-drop (length t) d);
        junk = junk;
        same = refl;
      },
    )

kept-short : (n : ℕ) → n < 80 → kept n ≡ n
unfolding kept
kept-short n h = ground arith

get_or-front :
    (pre : List (List ℕ)) (d : List ℕ) (ls : List (List ℕ))
    → get_or (pre ++ (d ∷ ls)) (length pre) [] ≡ d
get_or-front [] d ls = refl
get_or-front (x ∷ pre) d ls = get_or-front pre d ls

set-front :
    (pre : List (List ℕ)) (d b : List ℕ) (ls : List (List ℕ))
    → set (pre ++ (d ∷ ls)) (length pre) b ≡ (pre ++ (b ∷ [])) ++ ls
set-front [] d b ls = refl
set-front (x ∷ pre) d b ls = ap (λ r. x ∷ r) (set-front pre d b ls)

-- What the loop makes of the arrays `ls`, those in `pre` being done.
abbrev Parses : List (List ℕ) → List (List ℕ) → List (List ℕ) → Option (ℕ × List (List ℕ)) → Type 0
Parses ts pre ls r =
    (ds : List (List ℕ)) × (spare : List (List ℕ)) × (r
      ≡ some (length pre + length ts, pre ++ (ds ++ spare)))
    × Rows ts ds
    × Wide spare
    × (length ds + length spare ≡ length ls)

pub load_lines-Parses :
    (left : ℕ) (ts pre ls : List (List ℕ))
    → AreLines ts
    → Fitting ts
    → length ts ≤ left
    → length ts ≤ length ls
    → Wide ls
    → Parses ts pre ls (load_lines left (length pre) (flat ts) (pre ++ ls))
unfolding load_lines Option.bind
load_lines-Parses zero [] pre ls h fit few room wide =
    ([], ls, ap (λ k. some (k, pre ++ ls)) (omega arith), tt, wide, omega arith)
load_lines-Parses zero (t ∷ ts) pre ls h fit few room wide = absurd (omega arith)
load_lines-Parses (suc left) [] pre ls h fit few room wide =
    ([], ls, ap (λ k. some (k, pre ++ ls)) (omega arith), tt, wide, omega arith)
load_lines-Parses (suc left) (t ∷ ts) pre [] h fit few room wide = absurd (omega arith)
load_lines-Parses (suc left) (t ∷ ts) pre (d ∷ ls) (plain, h) (short, fit) few room (w, wide) =
    let (b, stored, holds) = line-Holds d t (10 ∷ flat ts) plain short w in
    let pre' = pre ++ (b ∷ []) in
    let next : length pre' ≡ length pre + 1 = length-append pre (b ∷ []) in
    let (ds, spare, run, rows, wide', count) =
      load_lines-Parses left ts pre' ls h fit (omega arith) (omega arith) wide in
    let round = ap (λ k. load_lines left k (flat ts) (pre' ++ ls)) (sym next) ∙ run in
    let ended = append_assoc pre (b ∷ []) (ds ++ spare) in
    (
      b ∷ ds,
      spare,
      rw
          (
            deref-text t (flat ts) plain,
            take_line-text t (flat ts) plain,
            kept-short (length t) short,
            get_or-front pre d ls,
            stored,
            after_line-text t (flat ts) plain,
            set-front pre d b ls,
          )
          (round ∙ ap₂ (λ n l. some (n, l)) (omega (arith, next)) ended),
      (holds, rows),
      wide',
      omega (arith, count),
    )
