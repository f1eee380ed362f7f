-- ===== src/Ramfs/Contents.antt =====
-- fs_write, fs_read and fs_truncate of src/fs/ramfs.c on the contents of a file.
use kontol_os.Base.{
  ℕ, ◌+◌, ◌-◌, ◌≤◌, ◌<◌, ◌≡◌, ◌≢◌, refl, ap, ◌∙◌, subst, ◌⊎◌, inl, inr, false, Option, some, arith,
  if◌then◌else◌, ◌==◌, ==_of_ne, ltb, leb, get_or-set_self, length, ℤ, pos, negsuc, min, add32,
  sub32,
}
use mathlib.Core.Option
use kontol_os.Bytes.{memcpy}
use kontol_os.Bytes.Copy.{Copied, memcpy-Copied}
use kontol_os.Memory.{Memory, null, heap_begin, heap_end, kmalloc}
use kontol_os.Memory.Layout.{Represents-bytes}
use kontol_os.Memory.Owned.{IsHeap, Owned, kmalloc-Owned, Owned-in_heap}
use kontol_os.Ramfs.{File, Fs, no_file, file_at, write_file, fs_max_filesize, free_data}
use kontol_os.Ramfs.Data.{fs_read, fill_file, rewrite_file, fs_write, fs_truncate}
use kontol_os.Ramfs.Remove.{Holds, free_data-Holds}

-- A region of `n` bytes that is not in the heap.
abbrev pub Outside : ℕ → ℕ → Type 0
Outside p n = (p ≢ null) × ((p + n ≤ heap_begin) ⊎ (heap_end ≤ p))

-- The file after a write of `size` bytes from `source`: it owns a block that holds them.
pub record Written (i source size : ℕ) (fs : Fs) (m : Memory) (fs' : Fs) (m' : Memory)
    : Type 0 where
  pub address : ℕ
  pub contents : fs' ≡ write_file i (record (file_at fs i) { data_ptr = address; size = size }) fs
  pub heap : IsHeap m'
  pub owned : Owned m' address size
  pub copied : Copied address source size m.bytes m'.bytes

-- What is left of the file when there is no memory: a null pointer under the old size.
pub record Stale (i : ℕ) (fs : Fs) (m : Memory) (fs' : Fs) (m' : Memory) : Type 0 where
  pub contents : fs' ≡ write_file i (record (file_at fs i) { data_ptr = null }) fs
  pub heap : IsHeap m'
  pub same : m'.bytes ≡ m.bytes

abbrev pub Writes : ℕ → ℕ → ℕ → Fs → Memory → Option (ℤ × Fs × Memory) → Type 0
Writes i source size fs m r =
    (fs' : Fs) × (m' : Memory) × ((r ≡ some (pos size, fs', m')) × Written i source size fs m fs' m'
      ⊎ (r ≡ some (negsuc 2, fs', m')) × Stale i fs m fs' m')

Owned-bytes : (m : Memory) (p n : ℕ) (b : ℕ → ℕ) → Owned m p n → Owned (record m { bytes = b }) p n
Owned-bytes m p n b (pre, s, post, r, at, room) = (pre, s, post, Represents-bytes b r, at, room)

fs_write-rewrite :
    (i source size : ℕ) (fs : Fs) (m m1 m2 : Memory) (p : ℕ)
    → source ≢ null
    → 0 < size
    → size ≤ fs_max_filesize
    → free_data (file_at fs i).data_ptr m ≡ some m1
    → kmalloc size m1 ≡ some (p, m2)
    → fs_write (some i) source size fs m ≡ some (fill_file i source size p fs m2)
unfolding fs_write rewrite_file Option.bind fill_file
fs_write-rewrite i source size fs m m1 m2 p set_ptr more small freed got =
    let nonnull : (source == null) ≡ false = ==_of_ne source null set_ptr in
    let nonzero : (size == 0) ≡ false = ==_of_ne size 0 (omega arith) in
    let fits : ltb fs_max_filesize size ≡ false = ground arith in
    rw (nonnull, fits, freed, rewrite_file, nonzero, got) refl

pub fill_file-null :
    (i source size : ℕ) (fs : Fs) (m : Memory)
    → fill_file i source size null fs m
      ≡ (negsuc 2, write_file i (record (file_at fs i) { data_ptr = null }) fs, m)
unfolding fill_file
fill_file-null i source size fs m = refl

pub fill_file-set :
    (i source size p : ℕ) (fs : Fs) (m : Memory)
    → p ≢ null
    → fill_file i source size p fs m ≡ (
      pos size,
      write_file i (record (file_at fs i) { data_ptr = p; size = size }) fs,
      record m { bytes = memcpy p source size m.bytes },
    )
unfolding fill_file
fill_file-set i source size p fs m h =
    let nonnull : (p == null) ≡ false = ==_of_ne p null h in rw nonnull

-- For 1 to 64 KiB from a source outside the heap, fs_write always returns and leaves the heap in order. Either it answers
-- the size, the file owns a block of that size, the block holds the bytes of the source, no other byte
-- is changed and no other field of the table is; or it answers -3, and the file is left with a null
-- pointer and its old size.
pub fs_write-Writes :
    (i source size : ℕ) {fs : Fs} {m : Memory}
    → IsHeap m
    → Holds m (file_at fs i)
    → 0 < size
    → size ≤ fs_max_filesize
    → Outside source size
    → Writes i source size fs m (fs_write (some i) source size fs m)
fs_write-Writes i source size {fs} {m} h holds more small (set_ptr, out) =
    let (m1, freed, h1, same1) = free_data-Holds m (file_at fs i) h holds in
    let (p, m2, got, h2, owner, same2) = kmalloc-Owned size m1 more (omega arith) h1 in
    let run = fs_write-rewrite i source size fs m m1 m2 p set_ptr more small freed got in
    elim owner [
      | inl nothing ↦ (
        _,
        m2,
        inr (
          run
              ∙ ap some (
                  ap (λ q. fill_file i source size q fs m2) nothing
                  ∙ fill_file-null i source size fs m2),
          record { contents = refl; heap = h2; same = same2 ∙ same1 },
        ),
      )
      | inr owned ↦
          let (low, high) = Owned-in_heap m2 p size owned in
          let (bs, r) = h2 in
          (
            _,
            record m2 { bytes = memcpy p source size m2.bytes },
            inl (
              run ∙ ap some (fill_file-set i source size p fs m2 (omega arith)),
              record {
                address = p;
                contents = refl;
                heap = (bs, Represents-bytes _ r);
                owned = Owned-bytes m2 p size _ owned;
                copied =
                    subst (λ b. Copied p source size b (memcpy p source size m2.bytes))
                      (same2 ∙ same1) (memcpy-Copied p source size m2.bytes (ground arith));
              },
            ),
          )
    ]

pub fs_read-copy :
    (i buffer n offset : ℕ) (fs : Fs) (m : Memory) (p size : ℕ)
    → (file_at fs i).data_ptr ≡ p
    → (file_at fs i).size ≡ size
    → buffer ≢ null
    → offset < size
    → size ≤ heap_end
    → p ≢ null
    → p + size ≤ heap_end
    → fs_read (some i) buffer n offset fs m ≡ (
      pos (min n (size - offset)),
      record m { bytes = memcpy buffer (p + offset) (min n (size - offset)) m.bytes },
    )
unfolding fs_read
fs_read-copy i buffer n offset fs m p size at len set_buffer more small nonnull high =
    let b : (buffer == null) ≡ false = ==_of_ne buffer null set_buffer in
    let q : (p == null) ≡ false = ==_of_ne p null nonnull in
    let l : leb size offset ≡ false = ground arith in
    let a : sub32 size offset ≡ size - offset = omega arith in
    let s : add32 p offset ≡ p + offset = omega arith in
    let t : (if ltb n (size - offset) then n else size - offset) ≡ min n (size - offset) =
      ground arith in
    rw (at, len, b, l, q, a, s, t) refl

-- fs_write answers -3, and fs_read of the file then answers as many bytes as the old size allows, with
-- the memory as it was.
abbrev pub ReadsStale : ℕ → ℕ → ℕ → ℕ → ℕ → ℕ → Fs → Memory → Memory → Type 0
ReadsStale i source size buffer n offset fs m m2 =
    (fs' : Fs) × (fs_write (some i) source size fs m ≡ some (negsuc 2, fs', m2))
    × (fs_read (some i) buffer n offset fs' m2 ≡ (pos (min n ((file_at fs i).size - offset)), m2))

fs_read-null :
    (i buffer n offset : ℕ) (fs : Fs) (m : Memory)
    → buffer ≢ null
    → (file_at fs i).data_ptr ≡ null
    → offset < (file_at fs i).size
    → (file_at fs i).size ≤ fs_max_filesize
    → fs_read (some i) buffer n offset fs m ≡ (pos (min n ((file_at fs i).size - offset)), m)
unfolding fs_read
fs_read-null i buffer n offset fs m set_buffer gone more small =
    let size = (file_at fs i).size in
    let b : (buffer == null) ≡ false = ==_of_ne buffer null set_buffer in
    let l : leb size offset ≡ false = ground arith in
    let a : sub32 size offset ≡ size - offset = omega arith in
    let t : (if ltb n (size - offset) then n else size - offset) ≡ min n (size - offset) =
      ground arith in
    rw (gone, b, l, a, t) refl

-- If kmalloc has no block of 1 to 64 KiB once fs_write has freed the old data, fs_write answers -3. fs_read
-- of the file into a buffer then answers as many bytes as the old size allows, and writes none of them.
pub fs_read-Stale :
    (i source size buffer n offset : ℕ) (fs : Fs) (m : Memory) {m1 m2 : Memory}
    → i < length fs.file_table
    → source ≢ null
    → 0 < size
    → size ≤ fs_max_filesize
    → free_data (file_at fs i).data_ptr m ≡ some m1
    → kmalloc size m1 ≡ some (null, m2)
    → buffer ≢ null
    → offset < (file_at fs i).size
    → (file_at fs i).size ≤ fs_max_filesize
    → ReadsStale i source size buffer n offset fs m m2
fs_read-Stale i source size buffer n offset fs m {m1} {m2} inside set_source more fits freed got
      set_buffer below small =
    let f : File = record (file_at fs i) { data_ptr = null } in
    let fs' = write_file i f fs in
    let at : file_at fs' i ≡ f = get_or-set_self fs.file_table i f no_file inside in
    let old = ap (λ g. g.size) at in
    (
      fs',
      fs_write-rewrite i source size fs m m1 m2 null set_source more fits freed got
          ∙ ap some (fill_file-null i source size fs m2),
      fs_read-null i buffer n offset fs' m2 set_buffer (ap (λ g. g.data_ptr) at)
            (omega (arith, old, below)) (omega (arith, old, small))
          ∙ ap (λ k. (pos (min n (k - offset)), m2)) old,
    )

-- fs_truncate of a file whose pointer is NULL or owned by it answers 0 and leaves the heap in order, with
-- its bytes unchanged; the file has no data and size 0.
pub fs_truncate_lem :
    (i : ℕ) (fs : Fs) (m : Memory)
    → IsHeap m
    → Holds m (file_at fs i)
    → (m' : Memory) × (fs_truncate (some i) fs m
        ≡ some (pos 0, write_file i (record (file_at fs i) { data_ptr = null; size = 0 }) fs, m'))
      × IsHeap m'
      × (m'.bytes ≡ m.bytes)
unfolding fs_truncate
fs_truncate_lem i fs m h holds =
    let (m', freed, h', same) = free_data-Holds m (file_at fs i) h holds in
    (m', rw freed refl, h', same)
