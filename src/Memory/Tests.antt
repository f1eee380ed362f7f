-- ===== src/Memory/Tests.antt =====
-- The heap of src/kernel/memory.c at concrete inputs.
use kontol_os.Base.{◌%◌, ◌≡◌, ◌≢◌, refl, true, false, [], ◌∷◌, some, arith, inl, inr, update}
use kontol_os.Memory.{
  Memory, mem_block, heap_begin, heap_size, memory_init, kmalloc, find_block, take_block,
  split_block,
}
use kontol_os.Memory.Block.{block, Blocks, fit}
use kontol_os.Memory.Layout.{Represents}
use kontol_os.Memory.Alloc.{Allocates, kmalloc-fit}
use kontol_os.Memory.Free.{Frees, kfree-coalesce}
use kontol_os.Memory.Cycle.{Undone, Zeroes, kfree-kmalloc, kcalloc_zeroed}
use kontol_os.Memory.InUse.{in_use}
use kontol_os.Memory.Claims.{Claims, Claimed, Released, kmalloc-Claims, kfree-Claims}
use kontol_os.Memory.Realloc.{Moves, krealloc-Moves}
use kontol_os.Memory.Overflow.{Overflows, kmalloc-overflow}

abbrev blank : Memory
blank = record {
  heap_start = 0;
  total_memory = 0;
  used_memory = 0;
  header = λ a. mem_block 0 false 0;
  bytes = λ a. a % 256;
}

-- A block of 112 bytes in use between a free one and the free rest.
abbrev busy : Memory
busy = record blank {
  heap_start = heap_begin;
  total_memory = heap_size;
  used_memory = 112;
  header =
      update
        (update (update (λ a. mem_block 0 false 0) 0x200000 (mem_block 0x100 false 0x200100))
          0x200100 (mem_block 112 true 0x200170))
        0x200170 (mem_block 0x3ffe90 false 0);
}

abbrev front : Blocks
front = block 0x100 false ∷ []

abbrev back : Blocks
back = block 0x3ffe90 false ∷ []

busy-Represents : Represents busy (block 0x100 false ∷ block 112 true ∷ block 0x3ffe90 false ∷ [])
busy-Represents = ground arith

kmalloc-fit_example :
    Allocates 100 busy (block 0x100 false ∷ block 112 true ∷ block 0x3ffe90 false ∷ [])
kmalloc-fit_example = kmalloc-fit 100 (omega arith) (omega arith) busy-Represents

kfree-coalesce_example : Frees front 112 back busy
kfree-coalesce_example = kfree-coalesce front 112 back busy-Represents

room : fit 116 heap_begin (block 0x100 false ∷ block 112 true ∷ block 0x3ffe90 false ∷ []) ≢ 0
unfolding fit
room = omega arith

kfree-kmalloc_example :
    Undone 100 busy (block 0x100 false ∷ block 112 true ∷ block 0x3ffe90 false ∷ [])
kfree-kmalloc_example = kfree-kmalloc 100 (omega arith) (omega arith) busy-Represents room

kcalloc_zeroed_example :
    Zeroes 25 4 busy (block 0x100 false ∷ block 112 true ∷ block 0x3ffe90 false ∷ [])
kcalloc_zeroed_example = kcalloc_zeroed 25 4 (omega arith) (omega arith) busy-Represents room

krealloc-Moves_example : Moves front 112 back 400 busy
krealloc-Moves_example =
    krealloc-Moves front 112 back 400 (omega arith) (omega arith) busy-Represents

kmalloc-overflow_example : Overflows 0xffff_ffff blank
kmalloc-overflow_example = kmalloc-overflow 0xffff_ffff blank (omega arith) (omega arith)

-- Two requests and a release: the second payload lies behind the first block of 112 bytes.
two_requests :
    (m1 : Memory) × (m2 : Memory) × (kmalloc 100 (memory_init blank) ≡ some (0x20000c, m1))
    × (kmalloc 8 m1 ≡ some (0x200080, m2))
unfolding kmalloc find_block take_block split_block memory_init
two_requests = (_, _, refl, refl)

-- The block in use is held for 100 bytes, beside a NULL.
busy-Claims :
    Claims
      (block 0x100 false ∷ block 112 true ∷ block 0x3ffe90 false ∷ [])
      ((0x20010c, 100) ∷ (0, 5) ∷ [])
unfolding in_use
busy-Claims =
    (inr (112, inl (refl, refl), omega arith), (inr (λ e. omega arith), tt), (inl refl, tt, tt))

kmalloc-Claims_example : Claimed 300 busy ((0x20010c, 100) ∷ (0, 5) ∷ [])
kmalloc-Claims_example =
    kmalloc-Claims 300 (block 0x100 false ∷ block 112 true ∷ block 0x3ffe90 false ∷ [])
      ((0x20010c, 100) ∷ (0, 5) ∷ []) (omega arith) (omega arith) busy-Represents busy-Claims

kfree-Claims_example : Released 0x20010c busy ((0, 5) ∷ [])
kfree-Claims_example =
    kfree-Claims 0x20010c 100 (block 0x100 false ∷ block 112 true ∷ block 0x3ffe90 false ∷ [])
      ((0, 5) ∷ []) busy-Represents busy-Claims
