-- ===== src/Ramfs/Copies.antt =====
-- The contents that fs_write of src/fs/ramfs.c stores, for a source that is a block of the same heap.
use kontol_os.Base.{
  [], ℕ, ◌+◌, ◌≤◌, ◌<◌, ◌≡◌, ◌≢◌, sym, ap, ◌∙◌, subst, ◌⊎◌, inl, inr, some, Option, List, ◌∷◌,
  arith, get_or-set_self, length-set, length, ℤ, pos, negsuc, min, ◌-◌,
}
use kontol_os.Bytes.{memcpy}
use kontol_os.Bytes.Copy.{Copied, memcpy-Copied}
use kontol_os.Memory.{Memory, heap_begin, heap_end, null}
use kontol_os.Memory.InUse.{found, Layout-Spaced, Uses-disjoint}
use kontol_os.Memory.Claims.{Holding}
use kontol_os.Memory.Owned.{Owned-in_heap}
use kontol_os.Memory.Slots.{Claims-pull, Apart-slot}
use kontol_os.Ramfs.{File, Fs, no_file, file_at, write_file, fs_max_filesize}
use kontol_os.Ramfs.Claims.{claims, claims-get, Claims-front, data_of, InOrder, InOrder-front}
use kontol_os.Ramfs.Rewrite.{NoRoom, fs_write-Rewrites}
use kontol_os.Ramfs.Contents.{fs_read-copy}
use kontol_os.Memory.Layout.{Represents}
use kontol_os.Ramfs.Data.{fs_read, fs_write}

apart_by :
    (p n s q k t : ℕ)
    → n + 12 ≤ s
    → k + 12 ≤ t
    → (p + s ≤ q) ⊎ (q + t ≤ p)
    → (p + n ≤ q) ⊎ (q + k ≤ p)
apart_by p n s q k t a b (inl h) = inl (omega arith)
apart_by p n s q k t a b (inr h) = inr (omega arith)

below : (p n q k size : ℕ) → size ≤ n → (p + n ≤ q) ⊎ (q + k ≤ p) → (q ≤ p) ⊎ (p + size ≤ q)
below p n q k size small (inl h) = inr (omega arith)
below p n q k size small (inr h) = inl (omega arith)

-- The block of a file does not overlap one that another holds.
pub file_apart :
    (i p n : ℕ) (cs : List (ℕ × ℕ)) (fs : Fs) (m : Memory)
    → i < length fs.file_table
    → InOrder ((p, n) ∷ cs) fs m
    → p ≢ null
    → (file_at fs i).data_ptr ≢ null
    → (p + n ≤ (file_at fs i).data_ptr) ⊎ ((file_at fs i).data_ptr + (file_at fs i).size ≤ p)
file_apart i p n cs fs m inside (bs, r, h) set_p set_q =
    let q = (file_at fs i).data_ptr in
    let (hold_p, other, h') = Claims-front bs p n (data_of fs.file_table) cs h in
    let entry = claims-get fs.file_table i cs inside in
    let away = Apart-slot p i (claims fs.file_table cs) other in
    let hold_q : Holding bs q (file_at fs i).size =
      subst (λ c. Holding bs c.0 c.1) entry (Claims-pull bs i 0 (claims fs.file_table cs) h').0 in
    let apart : q ≢ p = elim away [
      | inl e ↦ absurd (set_p e)
      | inr (inl e) ↦ absurd (set_q (sym (ap (λ c. c.0) entry) ∙ e))
      | inr (inr ne) ↦ (λ e. ne (ap (λ c. c.0) entry ∙ e))
    ] in
    elim hold_p [
      | inl e ↦ absurd (set_p e)
      | inr (s, uses_p, room_p) ↦ elim hold_q [
        | inl e ↦ absurd (set_q e)
        | inr (t, uses_q, room_q) ↦ apart_by p n s q (file_at fs i).size t room_p room_q (
            Uses-disjoint heap_begin p s q t bs
              (Layout-Spaced m.header heap_begin bs heap_end r.layout) (λ e. apart (sym e)) uses_p
              uses_q)
      ]
    ]

-- fs_write finds no memory for the new data; or it answers the size, and the file has a copy of the source.
abbrev pub Copies : ℕ → ℕ → ℕ → List (ℕ × ℕ) → Fs → Memory → Option (ℤ × Fs × Memory) → Type 0
Copies i source size cs fs m r =
    (code : ℤ) × (f : File) × (m' : Memory) × (r ≡ some (code, write_file i f fs, m'))
    × ((code ≡ negsuc 2) × (f.data_ptr ≡ null) × NoRoom i size fs m × (m'.bytes ≡ m.bytes)
        ⊎ (code ≡ pos size)
          × (f.data_ptr ≢ null)
          × (f.size ≡ size)
          × Copied f.data_ptr source size m.bytes m'.bytes)
    × InOrder cs (write_file i f fs) m'

-- fs_write of 1 to 64 KiB from a block of the heap that another holds, of `size` bytes at least: without
-- memory for the new data the file has none; else the file has a block with exactly the bytes of the
-- source, and no other byte changes. The heap is in order.
pub fs_write-Copies :
    (i source size n : ℕ) (cs : List (ℕ × ℕ)) (fs : Fs) (m : Memory)
    → i < length fs.file_table
    → source ≢ null
    → 0 < size
    → size ≤ fs_max_filesize
    → size ≤ n
    → InOrder ((source, n) ∷ cs) fs m
    → Copies i source size ((source, n) ∷ cs) fs m (fs_write (some i) source size fs m)
fs_write-Copies i source size n cs fs m inside set_p more fits small h =
    let (code, f, m', run, name, flags, bound, stores, h') =
      fs_write-Rewrites i source size ((source, n) ∷ cs) fs m inside h in
    let at : file_at (write_file i f fs) i ≡ f = get_or-set_self fs.file_table i f no_file inside in
    (
      code,
      f,
      m',
      run,
      elim stores [
        | inl (same_f, same_m, inl (nothing, answer)) ↦ absurd (set_p nothing)
        | inl (same_f, same_m, inr (some_source, large, answer)) ↦
            absurd (omega (arith, large, fits))
        | inr (some_source, low, inl (empty, answer, entry, bytes)) ↦
            absurd (omega (arith, empty, more))
        | inr (some_source, low, inr (inl (answer, entry, none_left, bytes))) ↦
            inl (answer, ap (λ g. g.data_ptr) entry, none_left, bytes)
        | inr (some_source, low, inr (inr (positive, answer, set_q, entry, bytes))) ↦
            let apart =
              file_apart i source n cs (write_file i f fs) m'
                (omega (arith, inside, length-set fs.file_table i f)) h' set_p
                (λ e. set_q (sym (ap (λ g. g.data_ptr) at) ∙ e)) in
            inr (
              answer,
              set_q,
              ap (λ g. g.size) entry,
              λ a.
                  ap (λ b. b a) bytes
                  ∙ memcpy-Copied f.data_ptr source size m.bytes
                      (below source n f.data_ptr f.size size small (
                        subst (λ g. (source + n ≤ g.data_ptr) ⊎ (g.data_ptr + g.size ≤ source)) at
                          apart))
                      a,
            )
      ],
      h',
    )

-- The data of a file lies in the heap.
pub file_in_heap :
    (i : ℕ) (cs : List (ℕ × ℕ)) (fs : Fs) (m : Memory)
    → i < length fs.file_table
    → InOrder cs fs m
    → (file_at fs i).data_ptr ≢ null
    → (file_at fs i).data_ptr + (file_at fs i).size ≤ heap_end
file_in_heap i cs fs m inside (bs, r, h) set_q =
    let q = (file_at fs i).data_ptr in
    let k = (file_at fs i).size in
    let hold : Holding bs q k =
      subst (λ c. Holding bs c.0 c.1) (claims-get fs.file_table i cs inside)
        (Claims-pull bs i 0 (claims fs.file_table cs) h).0 in
    elim hold [
      | inl e ↦ absurd (set_q e)
      | inr (s, uses, room) ↦
          let (pre, post, shape, at) = found heap_begin q s bs uses in
          (Owned-in_heap m q k (pre, s, post, subst (Represents m) shape r, at, room)).1
    ]

-- fs_write and then fs_read of the file: the bytes of the source come to the buffer.
abbrev pub ReadsBack : ℕ → ℕ → ℕ → ℕ → ℕ → ℕ → Fs → Memory → Type 0
ReadsBack i source size buffer n offset fs m =
    (fs' : Fs) × (m1 : Memory) × ((fs_write (some i) source size fs m ≡ some (negsuc 2, fs', m1))
        × NoRoom i size fs m
      ⊎ (fs_write (some i) source size fs m ≡ some (pos size, fs', m1))
        × ((m2 : Memory) × (fs_read (some i) buffer n offset fs' m1
              ≡ (pos (min n (size - offset)), m2))
            × ((k : ℕ)
                → k < min n (size - offset)
                → m2.bytes (buffer + k) ≡ m.bytes (source + offset + k))))

-- Where source and buffer are blocks of the heap of others, with room for what is written and read: fs_write
-- of 1 to 64 KiB finds no memory, or fs_read from an offset inside the file then answers the number
-- of bytes asked for, or of those behind the offset if they are fewer, and the buffer has the bytes that
-- the source had before.
pub fs_read-fs_write :
    (i source size k buffer n j offset : ℕ) (cs : List (ℕ × ℕ)) (fs : Fs) (m : Memory)
    → i < length fs.file_table
    → source ≢ null
    → 0 < size
    → size ≤ fs_max_filesize
    → size ≤ k
    → buffer ≢ null
    → n ≤ j
    → offset < size
    → InOrder ((source, k) ∷ (buffer, j) ∷ cs) fs m
    → ReadsBack i source size buffer n offset fs m
fs_read-fs_write i source size k buffer n j offset cs fs m inside set_s more fits small set_b room
      below_end h =
    let (code, f, m1, run, outcome, h1) =
      fs_write-Copies i source size k ((buffer, j) ∷ cs) fs m inside set_s more fits small h in
    let fs' = write_file i f fs in
    let at : file_at fs' i ≡ f = get_or-set_self fs.file_table i f no_file inside in
    let inside' : i < length fs'.file_table = omega (arith, inside, length-set fs.file_table i f) in
    (
      fs',
      m1,
      elim outcome [
        | inl (answer, gone, none_left, bytes) ↦
            inl (run ∙ ap (λ c. some (c, fs', m1)) answer, none_left)
        | inr (answer, set_q, len, copied) ↦
            let q = f.data_ptr in
            let place = ap (λ g. g.data_ptr) at in
            let length_of : (file_at fs' i).size ≡ size = ap (λ g. g.size) at ∙ len in
            let set_q' : (file_at fs' i).data_ptr ≢ null = λ e. set_q (sym place ∙ e) in
            let high = file_in_heap i _ fs' m1 inside' h1 set_q' in
            let away =
              file_apart i buffer j ((source, k) ∷ cs) fs' m1 inside'
                (InOrder-front buffer j ((source, k) ∷ []) cs fs' m1 h1) set_b set_q' in
            let apart : (buffer ≤ q + offset) ⊎ (q + offset + min n (size - offset) ≤ buffer) =
              elim away [
                | inl before ↦ inl (omega (arith, before, place))
                | inr behind ↦ inr (omega (arith, behind, place, length_of, below_end))
              ] in
            let got =
              fs_read-copy i buffer n offset fs' m1 q size place length_of set_b below_end
                (omega (arith, fits)) set_q (omega (arith, high, place, length_of)) in
            inr (
              run ∙ ap (λ c. some (c, fs', m1)) answer,
              (
                record m1 { bytes = memcpy buffer (q + offset) (min n (size - offset)) m1.bytes },
                got,
                λ a less. ground (
                  arith,
                  memcpy-Copied buffer (q + offset) (min n (size - offset)) m1.bytes apart
                      (buffer + a),
                  copied (q + offset + a),
                ),
              ),
            )
      ],
    )
