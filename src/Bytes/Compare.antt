-- ===== src/Bytes/Compare.antt =====
-- What memcmp of src/kernel/memory.c decides.
use kontol_os.Base.{ℕ, zero, suc, ◌+◌, ◌<◌, ◌≡◌, ◌↔◌, refl, arith, pos}
use kontol_os.Bytes.{Bytes, memcmp}

-- The `n` bytes at `p` and at `q` agree.
abbrev pub SameBytes : ℕ → ℕ → ℕ → Bytes → Type 0
SameBytes p q n m = (i : ℕ) → i < n → m (p + i) ≡ m (q + i)

SameBytes-of_memcmp : (p q n : ℕ) (m : Bytes) → memcmp p q n m ≡ pos 0 → SameBytes p q n m
unfolding memcmp
SameBytes-of_memcmp p q zero m e i h = absurd (omega arith)
SameBytes-of_memcmp p q (suc n) m e zero h = ground arith
SameBytes-of_memcmp p q (suc n) m e (suc i) h =
    ground (arith, SameBytes-of_memcmp (p + 1) (q + 1) n m (ground arith) i)

memcmp_of-SameBytes : (p q n : ℕ) (m : Bytes) → SameBytes p q n m → memcmp p q n m ≡ pos 0
unfolding memcmp
memcmp_of-SameBytes p q zero m same = refl
memcmp_of-SameBytes p q (suc n) m same =
    ground
      (arith, same 0, memcmp_of-SameBytes (p + 1) (q + 1) n m (λ i h. ground (arith, same (suc i))))

-- `memcmp` answers 0 exactly when the two regions hold the same bytes.
pub memcmp_iff : (p q n : ℕ) (m : Bytes) → (memcmp p q n m ≡ pos 0) ↔ SameBytes p q n m
memcmp_iff p q n m = (SameBytes-of_memcmp p q n m, memcmp_of-SameBytes p q n m)
