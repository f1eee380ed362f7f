-- ===== src/Shell.antt =====
-- The command line of src/kernel/shell.c: parse_args, which cuts a line into arguments in place.
--
-- `char *line` is the list of the bytes of its array; an argument of `argv` is the index where it starts.
pub mod System
pub mod Reports
pub mod Power
pub mod Files
pub mod Execute
pub mod Sound
pub mod Sample
pub mod Words
pub mod Parse
mod Tests
use kontol_os.Base.{
  ℕ, zero, suc, ◌+◌, Bool, true, false, not, ◌&&◌, ◌||◌, List, [], ◌∷◌, if◌then◌else◌, ◌==◌, drop,
  set,
}
use kontol_os.CString.{CString, deref}

-- ' ' or '\t'
abbrev pub is_blank : ℕ → Bool
is_blank c = c == b' ' || c == 9

-- The rounds of the loop that skips whitespace.
unfoldable pub blanks : CString → ℕ
blanks [] = 0
blanks (c ∷ s) = let rest = blanks s in if is_blank c then suc rest else 0

-- The rounds of the loop that finds the end of an argument.
unfoldable pub word_length : CString → ℕ
word_length [] = 0
word_length (c ∷ s) =
    let rest = word_length s in if not (c == 0) && not (is_blank c) then suc rest else 0

-- `argv[argc++] = p;`, then the rounds that follow.
abbrev pub with_arg : ℕ → List ℕ × List ℕ → List ℕ × List ℕ
with_arg a (argv, line) = (a ∷ argv, line)

-- The outer loop from `p` on, while `left` more arguments fit in `argv`.
unfoldable pub parse_from : ℕ → ℕ → List ℕ → List ℕ × List ℕ
parse_from zero p line = ([], line)
parse_from (suc left) p line =
    let a = p + blanks (drop p line) in
    let e = a + word_length (drop a line) in
    let closed = parse_from left (e + 1) (set line e 0) in
    let last = parse_from left e line in
    if deref (drop p line) == 0
    then ([], line)
    else if deref (drop a line) == 0
    then ([], line)
    else with_arg a (if not (deref (drop e line) == 0) then closed else last)

-- `argv`, whose length is `argc`, and the line.
unfoldable pub parse_args : List ℕ → ℕ → List ℕ × List ℕ
parse_args line max_args = parse_from max_args 0 line
