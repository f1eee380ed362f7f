-- ===== src/CString.antt =====
-- The string functions of src/lib/string.c.
--
-- A `const char *` that is only read is the list of the bytes from the pointer on; the end of the
-- list reads as the terminating NUL. A `char *` that is written is the list of the bytes from the
-- pointer to the end of its array, and a write past that end is the fault `none`. A position that a
-- function returns as a pointer is the offset from its argument, and `none` is NULL.
pub mod Compare
pub mod Copy
pub mod Number
pub mod Decimal
pub mod Round
mod Tests
use kontol_os.Base.{
  ℕ, zero, suc, ◌+◌, ◌-◌, ◌%◌, ◌≡◌, Bool, true, false, not, ◌&&◌, ◌||◌, Option, none, some, List,
  [], ◌∷◌, if◌then◌else◌, ◌==◌, leb, ℤ, pos, negsuc,
}
use mathlib.Core.Option
use kontol_os.Bytes.{byte_diff}

abbrev pub CString : Type 0
CString = List ℕ

-- `*s`
abbrev pub deref : CString → ℕ
deref [] = 0
deref (c ∷ s) = c

-- `s + 1`
abbrev pub advance : CString → CString
advance [] = []
advance (c ∷ s) = s

unfoldable pub strlen : CString → ℕ
strlen [] = 0
strlen (c ∷ s) = if c == 0 then 0 else suc (strlen s)

unfoldable pub strcmp : CString → CString → ℤ
strcmp [] t = byte_diff 0 (deref t)
strcmp (c ∷ s) t =
    let rest = strcmp s (advance t) in
    if not (c == 0) && c == deref t then rest else byte_diff c (deref t)

unfoldable pub strncmp : CString → CString → ℕ → ℤ
strncmp s t zero = pos 0
strncmp s t (suc n) =
    let rest = strncmp (advance s) (advance t) n in
    if not (deref s == 0) && deref s == deref t then rest else byte_diff (deref s) (deref t)

-- `*d = c`, then the writes that follow to `d + 1`.
abbrev pub put : ℕ → Option (List ℕ) → Option (List ℕ)
put c none = none
put c (some d) = some (c ∷ d)

unfoldable pub strcpy : List ℕ → CString → Option (List ℕ)
strcpy [] s = none
strcpy (x ∷ d) s =
    let rest = strcpy d (advance s) in if deref s == 0 then some (0 ∷ d) else put (deref s) rest

-- `while (n--) *d++ = '\0';`
unfoldable pub pad : List ℕ → ℕ → Option (List ℕ)
pad d zero = some d
pad [] (suc n) = none
pad (x ∷ d) (suc n) = put 0 (pad d n)

-- The round that copies the NUL does not reach `n--`, so `n` zeros are written behind it.
unfoldable pub strncpy : List ℕ → CString → ℕ → Option (List ℕ)
unfolding pad
strncpy d s zero = some d
strncpy [] s (suc n) = none
strncpy (x ∷ d) s (suc n) =
    let rest = strncpy d (advance s) n in
    if deref s == 0 then put 0 (pad d (suc n)) else put (deref s) rest

unfoldable pub strcat : List ℕ → CString → Option (List ℕ)
unfolding strcpy
strcat [] s = none
strcat (x ∷ d) s = let rest = strcat d s in if x == 0 then strcpy (x ∷ d) s else put x rest

unfoldable pub strchr : CString → ℕ → Option ℕ
strchr [] c = if c == 0 then some 0 else none
strchr (x ∷ s) c =
    let rest = Option.map suc (strchr s c) in
    if x == 0 then (if c == 0 then some 0 else none) else if x == c % 256 then some 0 else rest

-- The loop of strrchr: `i` is the offset of `s`, `last` that of the last occurrence so far.
pub strrchr_from : CString → ℕ → ℕ → Option ℕ → Option ℕ
strrchr_from [] c i last = if c == 0 then some i else last
strrchr_from (x ∷ s) c i last =
    let rest = strrchr_from s c (i + 1) (if x == c % 256 then some i else last) in
    if x == 0 then (if c == 0 then some i else last) else rest

unfoldable pub strrchr : CString → ℕ → Option ℕ
unfolding strrchr_from
strrchr s c = strrchr_from s c 0 none

-- The inner loop of strstr, and its test `!*n`.
pub match_here : CString → CString → Bool
match_here h [] = true
match_here [] (d ∷ n) = d == 0
match_here (c ∷ h) (d ∷ n) =
    let rest = match_here h n in if not (c == 0) && not (d == 0) && c == d then rest else d == 0

pub strstr_from : CString → CString → Option ℕ
strstr_from [] n = none
strstr_from (c ∷ h) n =
    let rest = Option.map suc (strstr_from h n) in
    if c == 0 then none else if match_here (c ∷ h) n then some 0 else rest

unfoldable pub strstr : CString → CString → Option ℕ
unfolding strstr_from match_here
strstr h n = if deref n == 0 then some 0 else strstr_from h n

unfoldable pub toupper : ℕ → ℕ
toupper c = if leb b'a' c && leb c b'z' then c - 32 else c

unfoldable pub tolower : ℕ → ℕ
tolower c = if leb b'A' c && leb c b'Z' then c + 32 else c

unfoldable pub isalpha : ℕ → Bool
isalpha c = (leb b'a' c && leb c b'z') || (leb b'A' c && leb c b'Z')

unfoldable pub isdigit : ℕ → Bool
isdigit c = leb b'0' c && leb c b'9'

unfoldable pub isalnum : ℕ → Bool
unfolding isalpha isdigit
isalnum c = isalpha c || isdigit c

unfoldable pub isspace : ℕ → Bool
isspace c = c == 32 || c == 9 || c == 10 || c == 13 || c == 12 || c == 11
