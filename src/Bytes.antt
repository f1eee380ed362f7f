-- ===== src/Bytes.antt =====
-- The byte routines of src/kernel/memory.c (memcpy, memset, memcmp, memmove) over a store of bytes. A
-- pointer is an address; each loop runs once for each round that `n--` counts.
pub mod Copy
pub mod Compare
mod Tests
use kontol_os.Base.{
  ℕ, zero, suc, ◌+◌, ◌-◌, ◌%◌, Bool, update, if◌then◌else◌, ◌==◌, ltb, ℤ, pos, negsuc, leb,
}

abbrev pub Bytes : Type 0
Bytes = ℕ → ℕ

-- `while (n--) *d++ = *s++;`
pub copy_up : ℕ → ℕ → ℕ → Bytes → Bytes
copy_up d s zero m = m
copy_up d s (suc n) m = copy_up (d + 1) (s + 1) n (update m d (m s))

-- `while (n--) *--d = *--s;`, with `d` and `s` the start of both regions.
pub copy_down : ℕ → ℕ → ℕ → Bytes → Bytes
copy_down d s zero m = m
copy_down d s (suc n) m = copy_down d s n (update m (d + n) (m (s + n)))

unfoldable pub memcpy : ℕ → ℕ → ℕ → Bytes → Bytes
memcpy dest src n m = copy_up dest src n m

-- The `(uint8_t)c` of the source.
unfoldable pub memset : ℕ → ℕ → ℕ → Bytes → Bytes
memset s c zero m = m
memset s c (suc n) m = memset (s + 1) c n (update m s (c % 256))

-- `*p1 - *p2`, computed in `int`.
abbrev pub byte_diff : ℕ → ℕ → ℤ
byte_diff a b = if leb b a then pos (a - b) else negsuc (b - a - 1)

unfoldable pub memcmp : ℕ → ℕ → ℕ → Bytes → ℤ
memcmp p1 p2 zero m = pos 0
memcmp p1 p2 (suc n) m =
    let rest = memcmp (p1 + 1) (p2 + 1) n m in
    if m p1 == m p2 then rest else byte_diff (m p1) (m p2)

unfoldable pub memmove : ℕ → ℕ → ℕ → Bytes → Bytes
unfolding copy_up copy_down
memmove dest src n m = if ltb dest src then copy_up dest src n m else copy_down dest src n m
