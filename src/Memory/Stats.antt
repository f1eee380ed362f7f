-- ===== src/Memory/Stats.antt =====
-- The counters of src/kernel/memory.c that the shell shows.
use kontol_os.Base.{◌+◌, ◌-◌, ◌≡◌, arith}
use kontol_os.Memory.{Memory, memory_get_total, memory_get_used, memory_get_free}
use kontol_os.Memory.Block.{Blocks, all_bytes, used_bytes, used_bytes-le}
use kontol_os.Memory.Layout.{Represents, all_bytes-Layout}

-- The counters of a heap in order are the bytes of the blocks in use, headers included, and those of the
-- free ones, and add up to the heap.
pub memory_get-used_bytes :
    (m : Memory) (bs : Blocks)
    → Represents m bs
    → (memory_get_used m ≡ used_bytes bs)
      × (memory_get_free m ≡ all_bytes bs - used_bytes bs)
      × (memory_get_used m + memory_get_free m ≡ memory_get_total m)
unfolding memory_get_total memory_get_used memory_get_free
memory_get-used_bytes m bs r =
    let le = used_bytes-le bs in
    let all = all_bytes-Layout m.header _ bs _ r.layout in
    (r.counted, omega (arith, r.total, r.counted), omega (arith, r.total, r.counted))
