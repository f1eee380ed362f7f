-- ===== src/Memory/Place.antt =====
-- What split_block and take_block of kmalloc in src/kernel/memory.c do to the layout.
use kontol_os.Base.{
  ℕ, ◌+◌, ◌-◌, ◌≤◌, ◌<◌, ◌≡◌, ◌≢◌, inl, inr, Bool, true, false, not, ◌&&◌, ◌∷◌, arith,
  if◌then◌else◌, ◌==◌, leb, Bool-cases, add32, sub32, leb→le, ◌∙◌, ==_refl,
}
use kontol_os.Memory.{
  MemBlock, mem_block, Memory, header_size, heap_size, heap_end, write_block, split_block,
  take_block,
}
use kontol_os.Memory.Block.{Block, block, Blocks, all_bytes, place, taken}
use kontol_os.Memory.Layout.{Layout, link, frame, all_bytes-Layout}

-- What a search for `total` bytes leaves, in the blocks `bs` that lie from `a` up to `e`.
pub record Placed (total a : ℕ) (bs : Blocks) (e : ℕ) (m m' : Memory) : Type 0 where
  pub layout : Layout m'.header a (place total bs) e
  pub below : (p : ℕ) → p < a → m'.header p ≡ m.header p
  pub counted : m'.used_memory ≡ m.used_memory + taken total bs
  pub start : m'.heap_start ≡ m.heap_start
  pub whole : m'.total_memory ≡ m.total_memory
  pub bytes : m'.bytes ≡ m.bytes

module _ (total a s n : ℕ) (m : Memory) (here : m.header a ≡ mem_block s false n) (room : total ≤ s)
    (high : a + s ≤ heap_end) where
  split_block-large :
      leb (total + 28) s ≡ true
      → split_block total a m
        ≡ write_block a
            (mem_block total false (a + total))
            (write_block (a + total) (mem_block (s - total) false n) m)
  unfolding split_block
  split_block-large large =
      let sum : add32 (add32 total header_size) 16 ≡ total + 28 = omega arith in
      let there : add32 a total ≡ a + total = omega arith in
      let rest : sub32 s total ≡ s - total = omega arith in rw (here, sum, there, rest, large)

  split_block-small : leb (total + 28) s ≡ false → split_block total a m ≡ m
  unfolding split_block
  split_block-small small =
      let sum : add32 (add32 total header_size) 16 ≡ total + 28 = omega arith in
      rw (here, sum, small)

-- The heap after `take_block` at `a`, with the header of `a` and, if the block was split, of `q`.
record Taken (a : ℕ) (b : MemBlock) (m m' : Memory) : Type 0 where
  pub here : m'.header a ≡ b
  counted : m'.used_memory ≡ add32 m.used_memory b.size
  start : m'.heap_start ≡ m.heap_start
  whole : m'.total_memory ≡ m.total_memory
  bytes : m'.bytes ≡ m.bytes

module _ (total a s n : ℕ) (m : Memory) (here : m.header a ≡ mem_block s false n)
    (low : header_size ≤ total) (room : total ≤ s) (high : a + s ≤ heap_end) where
  take_block-large :
      leb (total + 28) s ≡ true
      → Taken a (mem_block total true (a + total)) m (take_block total a m).1
        × ((p : ℕ)
            → p ≢ a
            → (take_block total a m).1.header p
              ≡ (if p == a + total then mem_block (s - total) false n else m.header p))
  unfolding take_block
  take_block-large large =
      rw (split_block-large total a s n m here room high large) (ground arith, λ p ne. ground arith)

  take_block-small :
      leb (total + 28) s ≡ false
      → Taken a (mem_block s true n) m (take_block total a m).1
        × ((p : ℕ) → p ≢ a → (take_block total a m).1.header p ≡ m.header p)
  unfolding take_block
  take_block-small small =
      rw (split_block-small total a s n m here room high small) (ground arith, λ p ne. ground arith)

abbrev pub fits : ℕ → Block → Bool
fits total b = not b.used && leb total b.size

module _ (total a : ℕ) (b : Block) (bs : Blocks) (e : ℕ) (m : Memory) (low : header_size ≤ total)
    (lay : Layout m.header a (b ∷ bs) e) (high : e ≤ heap_end) (count : m.used_memory ≤ heap_size)
    (hit : fits total b ≡ true) where
  pub ends : a + b.size + all_bytes bs ≡ e
  ends = all_bytes-Layout _ (a + b.size) bs e lay.2

  free : m.header a ≡ mem_block b.size false (link bs (a + b.size))
  free = ground (arith, lay.0)

  room : total ≤ b.size
  room = ground arith

  place-large :
      leb (total + 28) b.size ≡ true
      → place total (b ∷ bs) ≡ block total true ∷ block (b.size - total) false ∷ bs
  unfolding place
  place-large large = rw (hit, large)

  place-small : leb (total + 28) b.size ≡ false → place total (b ∷ bs) ≡ block b.size true ∷ bs
  unfolding place
  place-small small = rw (hit, small)

  taken-large : leb (total + 28) b.size ≡ true → taken total (b ∷ bs) ≡ total
  unfolding taken
  taken-large large = rw (hit, large)

  taken-small : leb (total + 28) b.size ≡ false → taken total (b ∷ bs) ≡ b.size
  unfolding taken
  taken-small small = rw (hit, small)

  Placed-large :
      leb (total + 28) b.size ≡ true → Placed total a (b ∷ bs) e m (take_block total a m).1
  Placed-large large =
      let (t, other) =
        take_block-large total a b.size _ m free low room (omega (arith, ends)) large in
      let start : a + total + (b.size - total) ≡ a + b.size = omega (arith, room) in
      let rest : Layout (take_block total a m).1.header (a + b.size) bs e =
        frame _ _ (a + b.size) bs e
          (λ p above below.
            other p (omega arith) ∙ ground (arith, leb→le (total + 28) b.size large))
          lay.2 in
      record {
        layout = rw (place-large large) (
          t.here,
          low,
          (
            other (a + total) (omega arith) ∙ rw (start, ==_refl (a + total)),
            omega (arith, leb→le (total + 28) b.size large),
            rw start rest,
          ),
        );
        below = λ p h. other p (omega arith) ∙ ground arith;
        counted = rw (t.counted, taken-large large) (omega (arith, ends));
        start = t.start;
        whole = t.whole;
        bytes = t.bytes;
      }

  Placed-small :
      leb (total + 28) b.size ≡ false → Placed total a (b ∷ bs) e m (take_block total a m).1
  Placed-small small =
      let (t, other) =
        take_block-small total a b.size _ m free low room (omega (arith, ends)) small in
      record {
        layout = rw (place-small small) (
          t.here,
          lay.1,
          frame _ _ (a + b.size) bs e (λ p above below. other p (omega (arith, lay.1))) lay.2,
        );
        below = λ p h. other p (omega arith);
        counted = rw (t.counted, taken-small small) (omega (arith, ends));
        start = t.start;
        whole = t.whole;
        bytes = t.bytes;
      }

  pub take_block-Placed : Placed total a (b ∷ bs) e m (take_block total a m).1
  take_block-Placed = elim (Bool-cases (leb (total + 28) b.size)) [
    | inl large ↦ Placed-large large
    | inr small ↦ Placed-small small
  ]
