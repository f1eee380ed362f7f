-- ===== src/Memory/Cycle.antt =====
-- kmalloc and kfree together, and kcalloc.
use kontol_os.Base.{
  ℕ, ◌+◌, ◌*◌, ◌^◌, ◌-◌, ◌≤◌, ◌<◌, ◌≡◌, ◌≢◌, ◌⊎◌, inl, inr, ◌∷◌, ◌++◌, true, some, arith, ap, ◌∙◌,
  subst, ==_of_ne, mul32, if◌then◌else◌,
}
use native.Mathlib.Nat.{mod-eq_of_lt}
use kontol_os.Bytes.{memset}
use kontol_os.Bytes.Copy.{within, memset_lem}
use kontol_os.Memory.{Memory, heap_begin, kmalloc, kfree, kcalloc, null}
use kontol_os.Memory.Block.{block, Blocks, fit, place, all_bytes}
use kontol_os.Memory.Layout.{Represents, Represents-bytes}
use kontol_os.Memory.Alloc.{request, kmalloc-fit}
use kontol_os.Memory.Free.{payload, kfree-coalesce}
use kontol_os.Memory.Fit.{fit_cases, spared}

-- kmalloc, and kfree of what it returned, lead back to the blocks `bs`.
abbrev pub Undone : ℕ → Memory → Blocks → Type 0
Undone size m bs =
    (p : ℕ) × (m1 : Memory) × (m2 : Memory) × (kmalloc size m ≡ some (p, m1))
    × (kfree p m1 ≡ some m2)
    × Represents m2 bs
    × (m2.bytes ≡ m.bytes)

-- If a block fits a size of 1 to 2 ^ 32 - 16, kmalloc of it ends, and freeing what it returned ends and gives
-- back the blocks of before, with every byte as it was.
pub kfree-kmalloc :
    (size : ℕ) {m : Memory} {bs : Blocks}
    → 0 < size
    → size ≤ 2 ^ 32 - 16
    → Represents m bs
    → fit (request size) heap_begin bs ≢ 0
    → Undone size m bs
kfree-kmalloc size {m} {bs} pos small r room = elim (fit_cases (request size) heap_begin bs) [
  | inl (nothing, _) ↦ absurd (room nothing)
  | inr (pre, s, rest, f) ↦
      let (m1, got, r1, same) = kmalloc-fit size pos small r in
      let (m2, freed, r2, same2) = kfree-coalesce pre s rest (subst (Represents m1) f.placed r1) in
      (
        payload pre,
        m1,
        m2,
        got ∙ ap (λ p. some (p, m1)) f.at,
        freed,
        subst (Represents m2) (f.undone r.merged) r2,
        same2 ∙ same,
      )
]

-- kmalloc returns a payload outside the block in use between `pre` and `post`, which stays.
abbrev pub Spares : ℕ → Blocks → ℕ → Blocks → Memory → Type 0
Spares size pre s post m =
    (p : ℕ) × (m1 : Memory) × (pre' : Blocks) × (post' : Blocks) × (kmalloc size m ≡ some (p, m1))
    × Represents m1 (pre' ++ (block s true ∷ post'))
    × (payload pre' ≡ payload pre)
    × ((p ≡ null) ⊎ (p + size ≤ heap_begin + all_bytes pre) ⊎ (heap_begin + all_bytes pre + s ≤ p))
    × (m1.bytes ≡ m.bytes)

-- A block in use stays where it is with its size when kmalloc runs, and the `size` bytes that kmalloc
-- returns, if any, lie outside that block.
pub kmalloc-Spares :
    (size : ℕ) (pre : Blocks) (s : ℕ) (post : Blocks) {m : Memory}
    → 0 < size
    → size ≤ 2 ^ 32 - 16
    → Represents m (pre ++ (block s true ∷ post))
    → Spares size pre s post m
kmalloc-Spares size pre s post {m} pos small r =
    let (m1, got, r1, same) = kmalloc-fit size pos small r in
    let (pre', post', sp) = spared (request size) heap_begin pre s post (omega arith) in
    (
      _,
      m1,
      pre',
      post',
      got,
      subst (Represents m1) sp.placed r1,
      ap (λ k. heap_begin + k + 12) sp.moved,
      elim sp.away [
        | inl nothing ↦ inl nothing
        | inr (inl before) ↦ inr (inl (omega arith))
        | inr (inr behind) ↦ inr (inr (omega arith))
      ],
      same,
    )

kcalloc_of-kmalloc :
    (num size p : ℕ) (m m1 : Memory)
    → num * size < 2 ^ 32
    → kmalloc (num * size) m ≡ some (p, m1)
    → p ≢ null
    → kcalloc num size m ≡ some (p, record m1 { bytes = memset p 0 (num * size) m1.bytes })
unfolding kcalloc
kcalloc_of-kmalloc num size p m m1 small got ne =
    let exact : mul32 num size ≡ num * size = mod-eq_of_lt small in
    rw (exact, got, ==_of_ne p null ne, kcalloc) (rw exact)

-- kcalloc returns the first fit of the product with its bytes 0 and all others as they were.
abbrev pub Zeroes : ℕ → ℕ → Memory → Blocks → Type 0
Zeroes num size m bs =
    (m1 : Memory) × (kcalloc num size m ≡ some (fit (request (num * size)) heap_begin bs, m1))
    × Represents m1 (place (request (num * size)) bs)
    × ((a : ℕ)
        → m1.bytes a ≡ (
            if within (fit (request (num * size)) heap_begin bs) (num * size) a
            then 0
            else m.bytes a))

-- kcalloc of a product that does not wrap, for which a block fits, ends and answers what kmalloc
-- answers for the product: the bytes asked for are 0 and no other byte has changed.
pub kcalloc_zeroed :
    (num size : ℕ) {m : Memory} {bs : Blocks}
    → 0 < num * size
    → num * size ≤ 2 ^ 32 - 16
    → Represents m bs
    → fit (request (num * size)) heap_begin bs ≢ 0
    → Zeroes num size m bs
kcalloc_zeroed num size {m} {bs} pos small r room =
    let (m1, got, r1, same) = kmalloc-fit (num * size) pos small r in
    (
      _,
      kcalloc_of-kmalloc num size _ m m1 (omega arith) got room,
      Represents-bytes _ r1,
      λ a. memset_lem _ 0 (num * size) m1.bytes a ∙ rw same,
    )
