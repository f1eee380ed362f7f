-- ===== src/Memory/Unmark.antt =====
-- What kfree of src/kernel/memory.c does before it looks for the block in front.
use kontol_os.Base.{
  ℕ, ◌+◌, ◌≤◌, ◌<◌, ◌≡◌, ◌≢◌, refl, true, false, [], ◌∷◌, arith, ◌∙◌, ap, Bool-cases, inl, inr,
  add32, ==_refl, ==_of_ne, ◌⊎◌, sub32,
}
use native.Mathlib.Nat.{add_assoc}
use kontol_os.Memory.{
  mem_block, Memory, null, join_next, mark_free, heap_end, header_size, write_block,
}
use kontol_os.Memory.Block.{Block, block, Blocks, join}
use kontol_os.Memory.Layout.{Layout, link, frame, all_bytes-Layout}

-- What no step of kfree touches.
pub record Kept (m m' : Memory) : Type 0 where
  pub start : m'.heap_start ≡ m.heap_start
  pub whole : m'.total_memory ≡ m.total_memory
  pub bytes : m'.bytes ≡ m.bytes

-- The block at `p` marked free, and joined with the blocks `post` behind it if the first is free.
pub record Freed (p s : ℕ) (post : Blocks) (e : ℕ) (m m' : Memory) : Type 0 where
  pub layout : Layout m'.header p (join (block s false) post) e
  pub other : (q : ℕ) → q ≢ p → m'.header q ≡ m.header q
  pub counted : m'.used_memory ≡ sub32 m.used_memory s
  pub kept : Kept m m'

-- A free block whose neighbour is missing or in use stays as it is.
join_next-keep :
    (p s n : ℕ) (m : Memory)
    → m.header p ≡ mem_block s false n
    → (n ≡ null) ⊎ ((m.header n).used ≡ true)
    → join_next p m ≡ m
unfolding join_next
join_next-keep p s n m here (inl none_behind) = rw (here, none_behind)
join_next-keep p s n m here (inr busy) = rw (here, busy) (ground arith)

join_next-join :
    (p s n t k : ℕ) (m : Memory)
    → m.header p ≡ mem_block s false n
    → n ≢ null
    → m.header n ≡ mem_block t false k
    → join_next p m ≡ write_block p (mem_block (add32 s t) false k) m
unfolding join_next
join_next-join p s n t k m here ne there = rw (here, there, ==_of_ne n null ne)

mark_free-header :
    (p s n : ℕ) (m : Memory)
    → m.header p ≡ mem_block s true n
    → (mark_free p m).header p ≡ mem_block s false n
unfolding mark_free
mark_free-header p s n m here = rw (here, ==_refl p)

mark_free-other : (p : ℕ) (m : Memory) (q : ℕ) → q ≢ p → (mark_free p m).header q ≡ m.header q
unfolding mark_free
mark_free-other p m q ne = rw (==_of_ne q p ne)

mark_free-counted :
    (p s n : ℕ) (m : Memory)
    → m.header p ≡ mem_block s true n
    → (mark_free p m).used_memory ≡ sub32 m.used_memory s
unfolding mark_free
mark_free-counted p s n m here = rw here

mark_free-Kept : (p : ℕ) (m : Memory) → Kept m (mark_free p m)
unfolding mark_free
mark_free-Kept p m = record { start = refl; whole = refl; bytes = refl }

module _ (p s e : ℕ) (m : Memory) (pos : 0 < p) (size : header_size ≤ s) (high : e ≤ heap_end) where
  -- The joined block is not moved: nothing but its header changes.
  Freed-kept :
      (n : ℕ) (post : Blocks)
      → m.header p ≡ mem_block s true n
      → join (block s false) post ≡ block s false ∷ post
      → n ≡ link post (p + s)
      → Layout m.header (p + s) post e
      → join_next p (mark_free p m) ≡ mark_free p m
      → Freed p s post e m (join_next p (mark_free p m))
  Freed-kept n post here joined next lay keep = rw keep (record {
    layout = rw joined (
      mark_free-header p s n m here ∙ ap (mem_block s false) next,
      size,
      frame _ _ (p + s) post e (λ q above below. mark_free-other p m q (omega arith)) lay,
    );
    other = mark_free-other p m;
    counted = mark_free-counted p s n m here;
    kept = mark_free-Kept p m;
  })

  Freed-joined :
      (c : Block) (post : Blocks)
      → m.header p ≡ mem_block s true (p + s)
      → c.used ≡ false
      → Layout m.header (p + s) (c ∷ post) e
      → Freed p s (c ∷ post) e m (join_next p (mark_free p m))
  unfolding join
  Freed-joined c post here idle lay =
      let m1 = mark_free p m in
      let h1 = mark_free-header p s (p + s) m here in
      let h2 : m1.header (p + s) ≡ mem_block c.size false (link post (p + s + c.size)) =
        mark_free-other p m (p + s) (omega arith) ∙ lay.0 ∙ rw idle in
      let k = mark_free-Kept p m in
      let ends = all_bytes-Layout m.header (p + s + c.size) post e lay.2 in
      let fits_word : add32 s c.size ≡ s + c.size = omega (arith, ends) in
      rw (join_next-join p s (p + s) c.size (link post (p + s + c.size)) m1 h1 (omega arith) h2)
        (record {
          layout = rw idle (
            rw (==_refl p, fits_word, add_assoc p s c.size),
            omega arith,
            rw (← add_assoc p s c.size) (
                frame m.header _ (p + s + c.size) post e
                  (λ q above below.
                    rw (==_of_ne q p (omega arith)) (mark_free-other p m q (omega arith)))
                  lay.2),
          );
          other = λ q ne. rw (==_of_ne q p ne) (mark_free-other p m q ne);
          counted = mark_free-counted p s (p + s) m here;
          kept = record { start = k.start; whole = k.whole; bytes = k.bytes };
        })

  -- The first step of kfree at a block in use.
  pub join_next-Freed :
      (post : Blocks)
      → m.header p ≡ mem_block s true (link post (p + s))
      → Layout m.header (p + s) post e
      → Freed p s post e m (join_next p (mark_free p m))
  unfolding join
  join_next-Freed [] here lay =
      Freed-kept null [] here refl refl lay
        (join_next-keep p s null _ (mark_free-header p s null m here) (inl refl))
  join_next-Freed (c ∷ post) here lay = elim (Bool-cases c.used) [
    | inl busy ↦ Freed-kept (p + s) (c ∷ post) here (rw busy) refl lay (
        join_next-keep p s (p + s) _ (mark_free-header p s (p + s) m here)
          (inr (rw (mark_free-other p m (p + s) (omega arith), lay.0) busy)))
    | inr idle ↦ Freed-joined c post here idle lay
  ]
