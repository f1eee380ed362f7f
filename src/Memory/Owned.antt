-- ===== src/Memory/Owned.antt =====
-- What a holder of a payload may count on.
use kontol_os.Base.{
  ℕ, ◌+◌, ◌-◌, ◌^◌, ◌≤◌, ◌<◌, ◌≡◌, sym, subst, ◌⊎◌, inl, inr, ◌∷◌, ◌++◌, true, some, arith,
}
use kontol_os.Memory.{Memory, heap_begin, heap_end, kmalloc, kfree, null}
use kontol_os.Memory.Block.{block, Blocks}
use kontol_os.Memory.Layout.{Represents, Layout-suffix, all_bytes-Layout}
use kontol_os.Memory.Alloc.{request, kmalloc-fit}
use kontol_os.Memory.Free.{payload, kfree-coalesce}
use kontol_os.Memory.Fit.{fit_cases}

-- The heap is in order.
abbrev pub IsHeap : Memory → Type 0
IsHeap m = (bs : Blocks) × Represents m bs

-- `p` is the payload of a block in use that holds `n` bytes.
abbrev pub Owned : Memory → ℕ → ℕ → Type 0
Owned m p n =
    (pre : Blocks) × (s : ℕ) × (post : Blocks) × Represents m (pre ++ (block s true ∷ post))
    × (p ≡ payload pre)
    × (n + 12 ≤ s)

pub kfree-Owned :
    (m : Memory) (p n : ℕ)
    → Owned m p n
    → (m' : Memory) × (kfree p m ≡ some m') × IsHeap m' × (m'.bytes ≡ m.bytes)
kfree-Owned m p n (pre, s, post, r, at, room) =
    let (m', freed, r', same) = kfree-coalesce pre s post r in
    (m', subst (λ q. kfree q m ≡ some m') (sym at) freed, (_, r'), same)

-- kmalloc either answers NULL, or a payload of the size asked for that the caller now owns.
pub kmalloc-Owned :
    (size : ℕ) (m : Memory)
    → 0 < size
    → size ≤ 2 ^ 32 - 16
    → IsHeap m
    → (p : ℕ) × (m' : Memory) × (kmalloc size m ≡ some (p, m'))
      × IsHeap m'
      × ((p ≡ null) ⊎ Owned m' p size)
      × (m'.bytes ≡ m.bytes)
kmalloc-Owned size m pos small (bs, r) =
    let (m', got, r', same) = kmalloc-fit size pos small r in
    elim (fit_cases (request size) heap_begin bs) [
      | inl (nothing, _) ↦ (_, m', got, (_, r'), inl nothing, same)
      | inr (pre, s, rest, f) ↦ (
        _,
        m',
        got,
        (_, r'),
        inr (pre, s, rest, subst (Represents m') f.placed r', f.at, omega (arith, f.room)),
        same,
      )
    ]

-- An owned payload lies in the heap.
pub Owned-in_heap : (m : Memory) (p n : ℕ) → Owned m p n → (heap_begin < p) × (p + n ≤ heap_end)
Owned-in_heap m p n (pre, s, post, r, at, room) =
    let here = Layout-suffix m.header heap_begin pre (block s true ∷ post) heap_end r.layout in
    let ends = all_bytes-Layout m.header _ (block s true ∷ post) heap_end here in
    (omega arith, omega (arith, ends))
