-- ===== src/Base/Words.antt =====
-- The C integers of a 32-bit x86 target (src/include/types.h): `size_t` and `uint32_t` as numbers below
-- 2 ^ 32 with the wrap-around written out, and `int` as an integer.
use Prim.Native.Nat.{ℕ, ◌+◌, ◌-◌, ◌*◌, ◌%◌, ◌^◌}

-- 2 ^ 32, the number of values of `size_t`.
abbrev pub size_mod : ℕ
size_mod = 2 ^ 32

abbrev pub add32 : ℕ → ℕ → ℕ
add32 a b = (a + b) % size_mod

-- `-` on ℕ stops at 0, so the modulus is added first.
abbrev pub sub32 : ℕ → ℕ → ℕ
sub32 a b = (a + size_mod - b) % size_mod

abbrev pub mul32 : ℕ → ℕ → ℕ
mul32 a b = (a * b) % size_mod

-- `negsuc n` is -(n + 1).
pub data ℤ : Type 0 where
  pos : ℕ → ℤ
  negsuc : ℕ → ℤ
