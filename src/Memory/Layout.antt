-- ===== src/Memory/Layout.antt =====
-- The invariant of the heap: from `heap_start` the `next` pointers lead through adjacent blocks that
-- fill the heap exactly, and the counters agree with them.
use kontol_os.Base.{
  ℕ, ◌+◌, ◌*◌, ◌≤◌, ◌<◌, ◌≡◌, sym, refl, ◌⊎◌, false, [], ◌∷◌, ◌++◌, arith, update, length,
}
use native.Mathlib.Nat.{add-zero, add_assoc}
use kontol_os.Bytes.{Bytes}
use kontol_os.Memory.{
  MemBlock, mem_block, Memory, header_size, heap_begin, heap_size, heap_end, null, memory_init,
  walk_fuel,
}
use kontol_os.Memory.Block.{Block, block, Blocks, all_bytes, used_bytes, Merged}

abbrev pub Headers : Type 0
Headers = ℕ → MemBlock

-- The `next` of a block that ends at `a`, with `bs` behind it.
abbrev pub link : Blocks → ℕ → ℕ
link [] a = null
link (_ ∷ _) a = a

-- The headers from `a` on describe `bs`, which fill the addresses up to `e`.
abbrev pub Layout : Headers → ℕ → Blocks → ℕ → Type 0
Layout hd a [] e = a ≡ e
Layout hd a (b ∷ bs) e =
    (hd a ≡ mem_block b.size b.used (link bs (a + b.size)))
    × (header_size ≤ b.size)
    × Layout hd (a + b.size) bs e

pub record Represents (m : Memory) (bs : Blocks) : Type 0 where
  pub start : m.heap_start ≡ heap_begin
  pub total : m.total_memory ≡ heap_size
  pub layout : Layout m.header heap_begin bs heap_end
  pub counted : m.used_memory ≡ used_bytes bs
  pub merged : Merged bs

pub all_bytes-Layout :
    (hd : Headers) (a : ℕ) (bs : Blocks) (e : ℕ) → Layout hd a bs e → a + all_bytes bs ≡ e
all_bytes-Layout hd a [] e h = omega arith
all_bytes-Layout hd a (b ∷ bs) e (h, l, hs) =
    omega (arith, all_bytes-Layout hd (a + b.size) bs e hs)

-- A block is at least a header, so there are not too many for the walks.
pub length-Layout :
    (hd : Headers) (a : ℕ) (bs : Blocks) (e : ℕ)
    → Layout hd a bs e
    → header_size * length bs + a ≤ e
length-Layout hd a [] e h = omega arith
length-Layout hd a (b ∷ bs) e (h, l, hs) = omega (arith, length-Layout hd (a + b.size) bs e hs)

-- A layout depends on the headers of its addresses alone.
pub frame :
    (hd hd' : Headers) (a : ℕ) (bs : Blocks) (e : ℕ)
    → ((p : ℕ) → a ≤ p → p < e → hd' p ≡ hd p)
    → Layout hd a bs e
    → Layout hd' a bs e
frame hd hd' a [] e same h = h
frame hd hd' a (b ∷ bs) e same (h, l, hs) = (
  ground (arith, same a, all_bytes-Layout hd (a + b.size) bs e hs),
  l,
  frame hd hd' (a + b.size) bs e (λ p above below. same p (omega arith) below) hs,
)

-- A header outside the layout may change.
pub Layout-update :
    (hd : Headers) (a : ℕ) (bs : Blocks) (e p : ℕ) (v : MemBlock)
    → (p < a) ⊎ (e ≤ p)
    → Layout hd a bs e
    → Layout (update hd p v) a bs e
Layout-update hd a bs e p v out h = frame hd _ a bs e (λ q above below. ground arith) h

-- The layout of the blocks behind `pre`.
pub Layout-suffix :
    (hd : Headers) (a : ℕ) (pre bs : Blocks) (e : ℕ)
    → Layout hd a (pre ++ bs) e
    → Layout hd (a + all_bytes pre) bs e
Layout-suffix hd a [] bs e h = rw add-zero h
Layout-suffix hd a (b ∷ pre) bs e (h, l, hs) =
    rw (← add_assoc) (Layout-suffix hd (a + b.size) pre bs e hs)

-- The blocks behind `pre` may be replaced by others at the same place.
pub Layout-replace :
    (hd hd' : Headers) (a : ℕ) (pre : Blocks) (b : Block) (bs : Blocks) (c : Block) (cs : Blocks)
    (e : ℕ)
    → ((p : ℕ) → p < a + all_bytes pre → hd' p ≡ hd p)
    → Layout hd a (pre ++ (b ∷ bs)) e
    → Layout hd' (a + all_bytes pre) (c ∷ cs) e
    → Layout hd' a (pre ++ (c ∷ cs)) e
Layout-replace hd hd' a [] b bs c cs e same h new = rw add-zero at new
Layout-replace hd hd' a (d ∷ []) b bs c cs e same (h, l, hs) new =
    (ground (arith, same a), l, rw add-zero at new)
Layout-replace hd hd' a (d ∷ (d' ∷ pre)) b bs c cs e same (h, l, hs) new = (
  ground (arith, same a),
  l,
  Layout-replace hd hd' (a + d.size) (d' ∷ pre) b bs c cs e (λ p q. same p (omega arith)) hs
      (rw (← add_assoc a d.size (d'.size + all_bytes pre)) at new),
)

-- The state after `memory_init`: one free block.
pub memory_init-Represents : (m : Memory) → Represents (memory_init m) (block heap_size false ∷ [])
unfolding memory_init
memory_init-Represents m = ground arith

-- `heap_start` leads to the first block.
pub link-start : {m : Memory} (bs : Blocks) → Represents m bs → link bs heap_begin ≡ m.heap_start
link-start [] r = absurd (omega (arith, r.layout))
link-start (b ∷ bs) r = sym r.start

-- The walks have fuel for every block.
pub walk_enough : {m : Memory} {bs : Blocks} → Represents m bs → length bs + 1 < walk_fuel
walk_enough {bs} r = omega (arith, length-Layout _ heap_begin bs heap_end r.layout)

pub link-append : (pre : Blocks) (b : Block) (bs : Blocks) (x : ℕ) → link (pre ++ (b ∷ bs)) x ≡ x
link-append [] b bs x = refl
link-append (c ∷ pre) b bs x = refl

-- The invariant says nothing of the payload bytes.
pub Represents-bytes :
    {m : Memory} {bs : Blocks} (b : Bytes)
    → Represents m bs
    → Represents (record m { bytes = b }) bs
Represents-bytes b r = record {
  start = r.start;
  total = r.total;
  layout = r.layout;
  counted = r.counted;
  merged = r.merged;
}
