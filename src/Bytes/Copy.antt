-- ===== src/Bytes/Copy.antt =====
-- What the copying and filling loops of src/kernel/memory.c leave in the store.
use kontol_os.Base.{
  ℕ, zero, suc, ◌+◌, ◌-◌, ◌%◌, ◌≤◌, ◌≡◌, ◌⊎◌, inl, inr, arith, update, if◌then◌else◌, ltb, leb,
  ◌&&◌, Bool, Bool-cases,
}
use kontol_os.Bytes.{Bytes, copy_up, copy_down, memcpy, memset, memmove}

-- Whether `a` lies in the `n` bytes from `p` on.
abbrev pub within : ℕ → ℕ → ℕ → Bool
within p n a = leb p a && ltb a (p + n)

-- The store `m` in which the `n` bytes from `d` on are those that `m` has from `s` on.
abbrev pub Copied : ℕ → ℕ → ℕ → Bytes → Bytes → Type 0
Copied d s n m m' = (a : ℕ) → m' a ≡ (if within d n a then m (s + (a - d)) else m a)

-- The upward loop reads what it has not written if the target is not inside the source from above.
copy_up-Copied : (d s n : ℕ) (m : Bytes) → (d ≤ s) ⊎ (s + n ≤ d) → Copied d s n m (copy_up d s n m)
unfolding copy_up
copy_up-Copied d s zero m h a = ground arith
copy_up-Copied d s (suc n) m h a =
    ground (arith, copy_up-Copied (d + 1) (s + 1) n (update m d (m s)) shifted a)
  where
    shifted : (d + 1 ≤ s + 1) ⊎ (s + 1 + n ≤ d + 1)
    shifted = ground arith

-- The downward loop reads what it has not written if the target starts above the source.
copy_down-Copied : (d s n : ℕ) (m : Bytes) → s ≤ d → Copied d s n m (copy_down d s n m)
unfolding copy_down
copy_down-Copied d s zero m h a = ground arith
copy_down-Copied d s (suc n) m h a =
    ground (arith, copy_down-Copied d s n (update m (d + n) (m (s + n))) h a)

-- `memcpy` of regions that do not overlap, or whose target is not above its source.
pub memcpy-Copied :
    (d s n : ℕ) (m : Bytes) → (d ≤ s) ⊎ (s + n ≤ d) → Copied d s n m (memcpy d s n m)
unfolding memcpy
memcpy-Copied d s n m h = copy_up-Copied d s n m h

-- After `memmove` the target region holds the bytes that the source region held before, whatever
-- the overlap, and every other byte is unchanged.
pub memmove-Copied : (d s n : ℕ) (m : Bytes) → Copied d s n m (memmove d s n m)
unfolding memmove
memmove-Copied d s n m a = elim (Bool-cases (ltb d s)) [
  | inl below ↦ rw below (copy_up-Copied d s n m (ground arith) a)
  | inr above ↦ rw above (copy_down-Copied d s n m (ground arith) a)
]

-- `memset` writes the low byte of `c` to the `n` bytes from `s` on, and nothing else.
pub memset_lem :
    (s c n : ℕ) (m : Bytes) (a : ℕ) → memset s c n m a ≡ (if within s n a then c % 256 else m a)
unfolding memset
memset_lem s c zero m a = ground arith
memset_lem s c (suc n) m a = ground (arith, memset_lem (s + 1) c n (update m s (c % 256)) a)
