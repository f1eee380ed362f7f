-- ===== src/Memory.antt =====
-- The heap of src/kernel/memory.c: `struct mem_block` headers at their addresses, the three variables of
-- the memory manager, and the functions that read and write them.
--
-- A header and the bytes behind it are kept in two stores: `header` holds what is read through a
-- `struct mem_block *`, `bytes` what is read through a `uint8_t *`. The two agree with one memory as
-- long as nobody writes outside the payload that `kmalloc` returned.
pub mod Block
pub mod Layout
pub mod Search
pub mod Alloc
pub mod Place
pub mod Free
pub mod Merge
pub mod Unmark
pub mod Fit
pub mod Cycle
pub mod Owned
pub mod InUse
pub mod Claims
pub mod Drops
pub mod Slots
pub mod Realloc
pub mod Overflow
pub mod Stats
mod Tests
use kontol_os.Base.{
  ℕ, zero, suc, ◌+◌, ◌/◌, ◌*◌, Bool, true, false, not, ◌&&◌, ◌||◌, Option, none, some, update,
  if◌then◌else◌, ◌==◌, leb, add32, sub32, mul32, size_mod,
}
use kontol_os.Bytes.{Bytes, memcpy, memset}

-- `sizeof(struct mem_block)`: a 32-bit size, one byte padded to four, a 32-bit pointer.
abbrev pub header_size : ℕ
header_size = 12

-- HEAP_START
abbrev pub heap_begin : ℕ
heap_begin = 0x200000

abbrev pub heap_size : ℕ
heap_size = 0x400000

abbrev pub heap_end : ℕ
heap_end = heap_begin + heap_size

abbrev pub null : ℕ
null = 0

pub record MemBlock : Type 0 where
  pub size : ℕ
  pub used : Bool
  pub next : ℕ

abbrev pub mem_block : ℕ → Bool → ℕ → MemBlock
mem_block s u n = record { size = s; used = u; next = n }

pub record Memory : Type 0 where
  pub heap_start : ℕ
  pub total_memory : ℕ
  pub used_memory : ℕ
  pub header : ℕ → MemBlock
  pub bytes : Bytes

-- `*p = b;`
abbrev pub write_block : ℕ → MemBlock → Memory → Memory
write_block p b m = record m { header = update m.header p b }

unfoldable pub memory_init : Memory → Memory
memory_init m = record {
  heap_start = heap_begin;
  total_memory = heap_size;
  used_memory = 0;
  header = update m.header heap_begin (mem_block heap_size false null);
  bytes = m.bytes;
}

-- Rounds for a walk along the blocks: there are at most heap_size / header_size of them.
abbrev pub walk_fuel : ℕ
walk_fuel = heap_size / header_size + 2

-- The body of the `if` that splits: the rest of the block becomes a free block of its own.
pub split_block : ℕ → ℕ → Memory → Memory
split_block total_size p m =
    let block = m.header p in
    let q = add32 p total_size in
    if leb (add32 (add32 total_size header_size) 16) block.size
    then write_block p (mem_block total_size block.used q)
        (write_block q (mem_block (sub32 block.size total_size) false block.next) m)
    else m

-- The body of the `if` that finds a suitable block at `p`.
pub take_block : ℕ → ℕ → Memory → ℕ × Memory
take_block total_size p m =
    let m1 = split_block total_size p m in
    let block = m1.header p in
    (
      add32 p header_size,
      record m1 {
        used_memory = add32 m1.used_memory block.size;
        header = update m1.header p (record block { used = true });
      },
    )

-- The `while` loop of kmalloc from the block at `p` on; `none` if the fuel runs out.
pub find_block : ℕ → ℕ → ℕ → Memory → Option (ℕ × Memory)
find_block zero total_size p m = none
find_block (suc fuel) total_size p m =
    let rest = find_block fuel total_size (m.header p).next m in
    if p == null
    then some (null, m)
    else if not (m.header p).used && leb total_size (m.header p).size
    then some (take_block total_size p m)
    else rest

-- `(size + 7) & ~7`
abbrev pub align_size : ℕ → ℕ
align_size size = add32 size 7 / 8 * 8

unfoldable pub kmalloc : ℕ → Memory → Option (ℕ × Memory)
kmalloc size m =
    if size == 0
    then some (null, m)
    else find_block walk_fuel (add32 (align_size size) header_size) m.heap_start m

unfoldable pub kcalloc : ℕ → ℕ → Memory → Option (ℕ × Memory)
kcalloc num size m =
    let total = mul32 num size in
    elim (kmalloc total m) [
      | none ↦ none
      | some (p, m') ↦
          some (p, if p == null then m' else record m' { bytes = memset p 0 total m'.bytes })
    ]

-- Coalesces the block at `p` with the next one if that is free.
pub join_next : ℕ → Memory → Memory
join_next p m =
    let block = m.header p in
    let next = m.header block.next in
    if not (block.next == null) && not next.used
    then write_block p (mem_block (add32 block.size next.size) block.used next.next) m
    else m

-- `while (prev != NULL && prev->next != block) prev = prev->next;`
pub find_prev : ℕ → ℕ → ℕ → Memory → Option ℕ
find_prev zero block prev m = none
find_prev (suc fuel) block prev m =
    let rest = find_prev fuel block (m.header prev).next m in
    if prev == null || (m.header prev).next == block then some prev else rest

-- Coalesces the free block at `p` with the block at `prev` if there is one and it is free.
pub join_prev : ℕ → ℕ → Memory → Memory
join_prev p prev m =
    let block = m.header p in
    let before = m.header prev in
    if not (prev == null) && not before.used
    then write_block prev (mem_block (add32 before.size block.size) before.used block.next) m
    else m

-- `block->used = false; used_memory -= block->size;`
pub mark_free : ℕ → Memory → Memory
mark_free p m =
    let block = m.header p in
    record m {
      used_memory = sub32 m.used_memory block.size;
      header = update m.header p (record block { used = false });
    }

unfoldable pub kfree : ℕ → Memory → Option Memory
kfree ptr m =
    let p = sub32 ptr header_size in
    if ptr == null
    then some m
    else if not (m.header p).used
    then some m
    else (let m1 = join_next p (mark_free p m) in
        elim (find_prev walk_fuel p m1.heap_start m1) [
          | none ↦ none
          | some prev ↦ some (join_prev p prev m1)
        ])

-- The bytes from the payload `p` to the end of its block, as krealloc computes them. A function that fills an
-- array of the heap beyond them has the result `none`.
unfoldable pub room : ℕ → Memory → ℕ
room p m = sub32 (m.header (sub32 p header_size)).size header_size

-- The end of krealloc, once `kmalloc` has returned `new_ptr`.
pub move_block : ℕ → ℕ → ℕ → Memory → Option (ℕ × Memory)
move_block ptr old_size new_ptr m =
    if new_ptr == null
    then some (null, m)
    else elim (kfree ptr (record m { bytes = memcpy new_ptr ptr old_size m.bytes })) [
      | none ↦ none
      | some m' ↦ some (new_ptr, m')
    ]

unfoldable pub krealloc : ℕ → ℕ → Memory → Option (ℕ × Memory)
krealloc ptr size m =
    let old_size = sub32 (m.header (sub32 ptr header_size)).size header_size in
    if ptr == null
    then kmalloc size m
    else if size == 0
    then elim (kfree ptr m) [ none ↦ none | some m' ↦ some (null, m') ]
    else if leb size old_size
    then some (ptr, m)
    else elim (kmalloc size m) [ none ↦ none | some (p, m') ↦ move_block ptr old_size p m' ]

unfoldable pub memory_get_total : Memory → ℕ
memory_get_total m = m.total_memory

unfoldable pub memory_get_used : Memory → ℕ
memory_get_used m = m.used_memory

unfoldable pub memory_get_free : Memory → ℕ
memory_get_free m = sub32 m.total_memory m.used_memory
