-- ===== src/CString/Number.antt =====
-- itoa and atoi of src/lib/string.c.
use kontol_os.Base.{
  ℕ, zero, suc, ◌+◌, ◌-◌, ◌/◌, ◌%◌, ◌&&◌, ◌||◌, Option, none, some, List, [], ◌∷◌, if◌then◌else◌,
  ◌==◌, ltb, leb, get_or, set, length, ℤ, pos, negsuc, add32, sub32, mul32,
}
use mathlib.Core.Option
use kontol_os.CString.{CString}

-- `*p = c` at the offset `p` of the array.
unfoldable pub write_at : ℕ → ℕ → List ℕ → Option (List ℕ)
write_at p c d = if ltb p (length d) then some (set d p c) else none

unfoldable pub digit_char : ℕ → ℕ
digit_char k = if ltb k 10 then b'0' + k else b'a' + k - 10

-- The loop that writes the digits from `p` on, in reverse order, in at most `fuel` rounds: the place
-- behind them, and the array.
unfoldable pub write_digits : ℕ → ℕ → ℕ → ℕ → List ℕ → Option (ℕ × List ℕ)
write_digits zero u base p d = none
write_digits (suc fuel) u base p d = Option.bind (write_at p (digit_char (u % base)) d) λ d'.
    let rest = write_digits fuel (u / base) base (p + 1) d' in
    if u / base == 0 then some (p + 1, d') else rest

-- The loop that reverses the array from `p1` to `p2`, in at most `fuel` rounds.
unfoldable pub swap_ends : ℕ → ℕ → ℕ → List ℕ → List ℕ
swap_ends zero p1 p2 d = d
swap_ends (suc fuel) p1 p2 d =
    let rest =
      swap_ends fuel (p1 + 1) (p2 - 1) (set (set d p1 (get_or d p2 0)) p2 (get_or d p1 0)) in
    if ltb p1 p2 then rest else d

-- itoa from the digits on, with `start` behind the sign. A number of 32 bits has at most 32 digits, and a
-- base of 0 is a fault of the division.
unfoldable pub put_number : ℕ → ℕ → ℕ → List ℕ → Option (List ℕ)
put_number u base start d =
    if base == 0
    then none
    else Option.bind (write_digits 33 u base start d)
        (λ (p, d1). Option.map (swap_ends p start (p - 1)) (write_at p 0 d1))

-- The argument as an unsigned number; `-value` of the least one wraps to itself.
unfoldable pub itoa : ℤ → List ℕ → ℕ → Option (List ℕ)
itoa (pos n) d base = put_number n base 0 d
itoa (negsuc n) d base =
    if base == 10
    then Option.bind (write_at 0 b'-' d) (put_number (n + 1) base 1)
    else put_number (sub32 0 (n + 1)) base 0 d

unfoldable pub skip_blanks : CString → CString
skip_blanks [] = []
skip_blanks (c ∷ s) = let rest = skip_blanks s in if c == 32 || c == 9 then rest else c ∷ s

-- The loop over the digits; `result` is the bits of the int.
unfoldable pub read_digits : ℕ → CString → ℕ
read_digits result [] = result
read_digits result (c ∷ s) =
    let rest = read_digits (add32 (mul32 result 10) (c - b'0')) s in
    if leb b'0' c && leb c b'9' then rest else result

-- The bits as an int.
unfoldable pub signed : ℕ → ℤ
signed r = if ltb r 2147483648 then pos r else negsuc (4294967295 - r)

-- `sign * result`
unfoldable pub read_sign : CString → ℤ
read_sign [] = signed 0
read_sign (c ∷ s) =
    if c == b'-'
    then signed (sub32 0 (read_digits 0 s))
    else if c == b'+'
    then signed (read_digits 0 s)
    else signed (read_digits 0 (c ∷ s))

unfoldable pub atoi : CString → ℤ
atoi s = read_sign (skip_blanks s)
