-- ===== src/Nano/Page.antt =====
-- What the editor of src/kernel/shell.c is meant to be: a text of lines with a cursor in it, and what a
-- key does to that text. How the arrays of the editor hold it.
use kontol_os.Base.{
  rev_onto, ℕ, suc, ◌+◌, ◌-◌, ◌≡◌, ◌≢◌, Bool, ◌&&◌, ◌||◌, Option, none, some, List, [], ◌∷◌, ◌++◌,
  ◌==◌, ltb, leb, if◌then◌else◌, length,
}
use kontol_os.Nano.{Editor, nano_max_lines, nano_line_len}

-- The lines above the cursor and the characters in front of it are listed from the cursor away.
pub record Page : Type 0 where
  pub above : List (List ℕ)
  pub left : List ℕ
  pub right : List ℕ
  pub below : List (List ℕ)

-- The characters of the line with the cursor.
abbrev pub width : Page → ℕ
width p = length p.left + length p.right

abbrev pub line_count : Page → ℕ
line_count p = length p.above + suc (length p.below)

-- Backspace: `none` if the joined line is longer than an array holds.
unfoldable pub rub_out : Page → Option Page
rub_out p = elim p.left [
  | c ∷ left ↦ some (record p { left = left })
  | [] ↦ elim p.above [
    | [] ↦ some p
    | t ∷ above ↦
        if ltb (length t + length p.right) nano_line_len
        then some (record p { above = above; left = rev_onto t [] })
        else none
  ]
]

-- Enter.
unfoldable pub break_line : Page → Page
break_line p =
    if ltb (line_count p) nano_max_lines
    then record p { above = rev_onto p.left [] ∷ p.above; left = [] }
    else p

-- A character.
unfoldable pub put_in : ℕ → Page → Page
put_in c p = if ltb (width p) (nano_line_len - 1) then record p { left = c ∷ p.left } else p

-- The key `c`.
unfoldable pub type_key : ℕ → Page → Option Page
type_key c p =
    if c == 8
    then rub_out p
    else if c == 10 || c == 13
    then some (break_line p)
    else if leb 32 c && ltb c 127
    then some (put_in c p)
    else some p

-- No character is a NUL.
abbrev pub Filled : List ℕ → Type 0
Filled [] = Unit
Filled (c ∷ t) = (c ≢ 0) × Filled t

-- The array of 80 bytes holds the text.
pub record Holds (t d : List ℕ) : Type 0 where
  pub filled : Filled t
  pub room : length d ≡ 80
  pub junk : List ℕ
  pub same : d ≡ t ++ (0 ∷ junk)

-- The arrays hold the lines.
abbrev pub Rows : List (List ℕ) → List (List ℕ) → Type 0
Rows [] [] = Unit
Rows [] (d ∷ ds) = ⊥
Rows (t ∷ ts) [] = ⊥
Rows (t ∷ ts) (d ∷ ds) = Holds t d × Rows ts ds

-- Each array has 80 bytes.
abbrev pub Wide : List (List ℕ) → Type 0
Wide [] = Unit
Wide (d ∷ ds) = (length d ≡ 80) × Wide ds

-- The editor with these arrays, the cursor behind `col` characters.
abbrev pub editor : List (List ℕ) → List ℕ → List (List ℕ) → List (List ℕ) → ℕ → Bool → Editor
editor pre d post spare col modified = record {
  lines = rev_onto pre (d ∷ (post ++ spare));
  num_lines = length pre + suc (length post);
  cur_line = length pre;
  cur_col = col;
  modified = modified;
}

-- The editor shows the page: its 100 arrays hold the lines in their order, and its numbers are those of
-- the page.
pub record Shows (e : Editor) (p : Page) : Type 0 where
  pub pre : List (List ℕ)
  pub here : List ℕ
  pub post : List (List ℕ)
  pub spare : List (List ℕ)
  pub arrays : e ≡ editor pre here post spare (length p.left) e.modified
  pub before : Rows p.above pre
  pub current : Holds (rev_onto p.left p.right) here
  pub after : Rows p.below post
  pub rest : Wide spare
  pub count : length pre + suc (length post + length spare) ≡ 100
