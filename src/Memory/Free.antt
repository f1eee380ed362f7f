-- ===== src/Memory/Free.antt =====
-- kfree against the abstract heap.
use kontol_os.Base.{
  ℕ, ◌+◌, ◌<◌, ◌≡◌, ◌^◌, ◌≢◌, true, false, ◌∷◌, ◌++◌, some, arith, ◌∙◌, ap, sub32, ==_of_ne, Option,
  subst, sym,
}
use kontol_os.Memory.{
  Memory, mem_block, null, heap_begin, heap_end, header_size, kfree, find_prev, join_next,
  join_prev, mark_free, walk_fuel,
}
use kontol_os.Memory.Block.{
  Block, block, Blocks, all_bytes, used_bytes, used_bytes-append, used_bytes-le, merge_last,
  merge_last-coalesce, coalesce, coalesce-Merged, coalesce_bytes,
}
use kontol_os.Memory.Layout.{
  Layout, Represents, Layout-suffix, Layout-replace, all_bytes-Layout, link-append, length-Layout,
}
use kontol_os.Memory.Search.{prev_of, find_prev-prev_of}
use kontol_os.Memory.Merge.{first_of-join, join_prev-Joined}
use kontol_os.Memory.Unmark.{join_next-Freed}

-- The address of the payload of the block behind the blocks `pre`.
abbrev pub payload : Blocks → ℕ
payload pre = heap_begin + all_bytes pre + header_size

-- What kfree makes of the block at `p`, once the walk has found `prev`.
abbrev stepped : ℕ → ℕ → Memory → Memory
stepped p prev m = join_prev p prev (join_next p (mark_free p m))

abbrev walk : ℕ → Memory → Option ℕ
walk p m = let m1 = join_next p (mark_free p m) in find_prev walk_fuel p m1.heap_start m1

kfree_at :
    (ptr s n prev : ℕ) (m : Memory)
    → ptr ≢ null
    → m.header (sub32 ptr header_size) ≡ mem_block s true n
    → walk (sub32 ptr header_size) m ≡ some prev
    → kfree ptr m ≡ some (stepped (sub32 ptr header_size) prev m)
unfolding kfree
kfree_at ptr s n prev m ne here found = rw (==_of_ne ptr null ne, here, found)

kfree_of-steps :
    (p s n prev : ℕ) (m : Memory)
    → p < heap_end
    → m.header p ≡ mem_block s true n
    → walk p m ≡ some prev
    → kfree (p + header_size) m ≡ some (stepped p prev m)
kfree_of-steps p s n prev m low =
    subst
      (λ q.
        m.header q ≡ mem_block s true n
        → walk q m ≡ some prev
        → kfree (p + header_size) m ≡ some (stepped q prev m))
      (omega arith) (kfree_at (p + header_size) s n prev m (omega arith))

count_freed :
    (pre : Blocks) (s : ℕ) (post : Blocks)
    → all_bytes (pre ++ (block s true ∷ post)) < 2 ^ 32
    → sub32 (used_bytes (pre ++ (block s true ∷ post))) s
      ≡ used_bytes (coalesce (pre ++ (block s false ∷ post)))
count_freed pre s post small = omega (
  arith,
  (coalesce_bytes (pre ++ (block s false ∷ post))).1,
  used_bytes-append pre (block s true ∷ post),
  used_bytes-append pre (block s false ∷ post),
  used_bytes-le (pre ++ (block s true ∷ post)),
)

-- The walk of kfree, once the block at the end of `pre` is marked free and joined with the next.
walk-prev_of :
    (pre : Blocks) (b : Block) (bs : Blocks) (m : Memory)
    → m.heap_start ≡ heap_begin
    → Layout m.header heap_begin (pre ++ (b ∷ bs)) heap_end
    → find_prev walk_fuel (heap_begin + all_bytes pre) m.heap_start m
      ≡ some (prev_of heap_begin pre)
walk-prev_of pre b bs m start lay =
    subst
      (λ q. find_prev walk_fuel (heap_begin + all_bytes pre) q m ≡ some (prev_of heap_begin pre))
      (link-append pre b bs heap_begin ∙ sym start)
      (find_prev-prev_of walk_fuel heap_begin pre b bs heap_end m (omega arith) lay
        (omega (arith, length-Layout m.header heap_begin (pre ++ (b ∷ bs)) heap_end lay)))

-- kfree at the block in use between `pre` and `post` ends with that block free and merged.
abbrev pub Frees : Blocks → ℕ → Blocks → Memory → Type 0
Frees pre s post m =
    (m' : Memory) × (kfree (payload pre) m ≡ some m')
    × Represents m' (coalesce (pre ++ (block s false ∷ post)))
    × (m'.bytes ≡ m.bytes)

-- kfree at the payload of a block in use ends, leaves the blocks with that one free and every run of
-- free blocks made one, keeps the invariant and writes no payload byte.
pub kfree-coalesce :
    (pre : Blocks) (s : ℕ) (post : Blocks) {m : Memory}
    → Represents m (pre ++ (block s true ∷ post))
    → Frees pre s post m
kfree-coalesce pre s post {m} r =
    let p : ℕ = heap_begin + all_bytes pre in
    let here = Layout-suffix m.header heap_begin pre (block s true ∷ post) heap_end r.layout in
    let ends = all_bytes-Layout m.header p (block s true ∷ post) heap_end here in
    let m1 = join_next p (mark_free p m) in
    let f = join_next-Freed p s heap_end m (omega arith) here.1 (omega arith) post here.0 here.2 in
    let (b, bs, front, idle) = first_of-join s post in
    let lay1 : Layout m1.header heap_begin (pre ++ (b ∷ bs)) heap_end =
      Layout-replace m.header m1.header heap_begin pre (block s true) post b bs heap_end
        (λ q below. f.other q (omega arith)) r.layout (rw front at f.layout) in
    let j =
      join_prev-Joined heap_begin pre b bs heap_end m1 (omega arith) (omega arith) idle lay1 in
    let found : walk p m ≡ some (prev_of heap_begin pre) =
      walk-prev_of pre b bs m1 (f.kept.start ∙ r.start) lay1 in
    let merged : merge_last pre (b ∷ bs) ≡ coalesce (pre ++ (block s false ∷ post)) =
      rw (← front) (merge_last-coalesce pre s post r.merged) in
    (
      stepped p (prev_of heap_begin pre) m,
      kfree_of-steps p s _ _ m (omega arith) here.0 found,
      record {
        start = j.kept.start ∙ f.kept.start ∙ r.start;
        total = j.kept.whole ∙ f.kept.whole ∙ r.total;
        layout = rw (← merged) j.layout;
        counted =
            j.counted
            ∙ f.counted
            ∙ ap (λ u. sub32 u s) r.counted
            ∙ count_freed pre s post
                (omega (arith, all_bytes-Layout m.header heap_begin _ heap_end r.layout));
        merged = coalesce-Merged (pre ++ (block s false ∷ post));
      },
      j.kept.bytes ∙ f.kept.bytes,
    )
