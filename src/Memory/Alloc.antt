-- ===== src/Memory/Alloc.antt =====
-- kmalloc against the first fit of the abstract heap.
use kontol_os.Base.{
  ℕ, zero, suc, ◌+◌, ◌-◌, ◌*◌, ◌/◌, ◌^◌, ◌≤◌, ◌<◌, ◌≡◌, refl, inl, inr, false, [], ◌∷◌, some, arith,
  ◌==◌, length, Bool-cases, add32, Option, subst, ◌∙◌, ap,
}
use kontol_os.Memory.{
  mem_block, Memory, header_size, heap_begin, heap_size, heap_end, take_block, find_block, kmalloc,
  align_size, walk_fuel,
}
use kontol_os.Memory.Block.{
  Block, Blocks, used_bytes-le, fit, place, taken, used_bytes-place, place-Merged,
}
use kontol_os.Memory.Layout.{
  Layout, link, Represents, all_bytes-Layout, link-start, walk_enough, link-start, walk_enough,
}
use kontol_os.Memory.Place.{Placed, fits, take_block-Placed}

take_block-ptr :
    (total a : ℕ) (m : Memory) → a < heap_end → (take_block total a m).0 ≡ a + header_size
unfolding take_block
take_block-ptr total a m h = omega arith

-- A block that does not fit is passed over.
Placed-cons :
    (total a : ℕ) (b : Block) (bs : Blocks) (e : ℕ) (m m' : Memory)
    → header_size ≤ b.size
    → m.header a ≡ mem_block b.size b.used (link bs (a + b.size))
    → fits total b ≡ false
    → Placed total (a + b.size) bs e m m'
    → Placed total a (b ∷ bs) e m m'
unfolding place taken
Placed-cons total a b bs e m m' size here miss p = record {
  layout = rw miss (
    p.below a (omega arith) ∙ here ∙ ap (mem_block b.size b.used) (link-place bs),
    size,
    p.layout,
  );
  below = λ q h. p.below q (omega arith);
  counted = rw miss p.counted;
  start = p.start;
  whole = p.whole;
  bytes = p.bytes;
}
  where
    link-place : (cs : Blocks) → link cs (a + b.size) ≡ link (place total cs) (a + b.size)
    link-place [] = refl
    link-place (c ∷ cs) = ground arith

-- The search from the first of `bs` on: with fuel for each of them it finds the first fit.
find_block-Placed :
    (fuel total a : ℕ) (bs : Blocks) (e : ℕ) (m : Memory)
    → header_size ≤ total
    → 0 < a
    → Layout m.header a bs e
    → e ≤ heap_end
    → m.used_memory ≤ heap_size
    → length bs < fuel
    → (m' : Memory) × (find_block fuel total (link bs a) m ≡ some (fit total a bs, m'))
      × Placed total a bs e m m'
unfolding find_block fit place taken
find_block-Placed zero total a bs e m low pos lay high count enough = absurd (omega arith)
find_block-Placed (suc fuel) total a [] e m low pos lay high count enough = (
  m,
  refl,
  record {
    layout = lay;
    below = λ p h. refl;
    counted = omega arith;
    start = refl;
    whole = refl;
    bytes = refl;
  },
)
find_block-Placed (suc fuel) total a (b ∷ bs) e m low pos lay high count enough =
    let there : (a == 0) ≡ false = ground arith in
    elim (Bool-cases (fits total b)) [
      | inl hit ↦ (
        (take_block total a m).1,
        rw (lay.0, there, hit)
            (ap (λ q. some (q, (take_block total a m).1))
              (take_block-ptr total a m
                (omega (arith, all_bytes-Layout _ (a + b.size) bs e lay.2)))),
        take_block-Placed total a b bs e m low lay high count hit,
      )
      | inr miss ↦
          let (m', found, p) =
            find_block-Placed fuel total (a + b.size) bs e m low (omega arith) lay.2 high count
              (omega arith) in
          (m', rw (lay.0, there, miss) found, Placed-cons total a b bs e m m' lay.1 lay.0 miss p)
    ]

-- The bytes that a request for `size` takes, header included: the multiple of 8 above it, and 12.
abbrev pub request : ℕ → ℕ
request size = (size + 7) / 8 * 8 + header_size

kmalloc_of-find_block :
    (size : ℕ) (m : Memory) {r : Option (ℕ × Memory)}
    → 0 < size
    → size ≤ 2 ^ 32 - 16
    → find_block walk_fuel (request size) m.heap_start m ≡ r
    → kmalloc size m ≡ r
unfolding kmalloc
kmalloc_of-find_block size m pos small found =
    let aligned : add32 (align_size size) header_size ≡ request size = omega arith in
    let some_size : (size == 0) ≡ false = ground arith in rw (some_size, aligned) found

-- kmalloc ends with the answer of first fit in the blocks `bs`, and with its blocks.
abbrev pub Allocates : ℕ → Memory → Blocks → Type 0
Allocates size m bs =
    (m' : Memory) × (kmalloc size m ≡ some (fit (request size) heap_begin bs, m'))
    × Represents m' (place (request size) bs)
    × (m'.bytes ≡ m.bytes)

-- kmalloc of a size from 1 to 2 ^ 32 - 16 on a heap in order ends, answers what first fit answers, keeps the invariant and writes no payload byte. The
-- bound on the size is what keeps the rounding and the header from wrapping round.
pub kmalloc-fit :
    (size : ℕ) {m : Memory} {bs : Blocks}
    → 0 < size
    → size ≤ 2 ^ 32 - 16
    → Represents m bs
    → Allocates size m bs
kmalloc-fit size {m} {bs} pos small r =
    let total : ℕ = request size in
    let whole = all_bytes-Layout _ heap_begin bs heap_end r.layout in
    let count : m.used_memory ≤ heap_size = omega (arith, r.counted, used_bytes-le bs, whole) in
    let (m', found, p) =
      find_block-Placed walk_fuel total heap_begin bs heap_end m (omega arith) (omega arith)
        r.layout (omega arith) count (omega (arith, walk_enough r)) in
    (
      m',
      kmalloc_of-find_block size m pos small (
          subst (λ q. find_block walk_fuel total q m ≡ some (fit total heap_begin bs, m'))
            (link-start bs r) found),
      record {
        start = p.start ∙ r.start;
        total = p.whole ∙ r.total;
        layout = p.layout;
        counted = rw (p.counted, used_bytes-place, r.counted);
        merged = place-Merged total bs r.merged;
      },
      p.bytes,
    )
