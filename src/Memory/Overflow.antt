-- ===== src/Memory/Overflow.antt =====
-- What kmalloc does with the sizes for which `size + 7` or the header wraps round.
use kontol_os.Base.{true, ℕ, ◌+◌, ◌-◌, ◌^◌, ◌≤◌, ◌<◌, ◌≡◌, refl, some, arith, ==_of_ne, add32}
use kontol_os.Memory.{
  Memory, mem_block, kmalloc, find_block, take_block, split_block, memory_init, align_size,
  header_size, heap_begin, walk_fuel,
}

-- A size within 7 of 2 ^ 32 is rounded to 0: kmalloc answers as for a request of a mere header.
kmalloc-wraps :
    (size : ℕ) (m : Memory)
    → 2 ^ 32 - 7 ≤ size
    → size < 2 ^ 32
    → kmalloc size m ≡ find_block walk_fuel header_size m.heap_start m
unfolding kmalloc
kmalloc-wraps size m low high =
    let none_left : add32 (align_size size) header_size ≡ header_size = omega arith in
    rw (==_of_ne size 0 (omega arith), none_left)

-- The request is granted with a block of a header and no payload.
abbrev pub Overflows : ℕ → Memory → Type 0
Overflows size m =
    (m' : Memory) × (kmalloc size (memory_init m) ≡ some (heap_begin + header_size, m'))
    × (m'.header heap_begin ≡ mem_block header_size true (heap_begin + header_size))

-- On the heap that `memory_init` leaves, a request for 2 ^ 32 - 7 bytes or more is granted: kmalloc
-- answers the address behind the first header, and the block there has 12 bytes, the header alone.
pub kmalloc-overflow :
    (size : ℕ) (m : Memory) → 2 ^ 32 - 7 ≤ size → size < 2 ^ 32 → Overflows size m
unfolding memory_init find_block take_block split_block
kmalloc-overflow size m low high = (_, kmalloc-wraps size (memory_init m) low high, refl)
