-- ===== src/Memory/Merge.antt =====
-- The two coalescing steps of kfree.
use kontol_os.Base.{
  ℕ, ◌+◌, ◌≤◌, ◌<◌, ◌≡◌, ◌≢◌, refl, true, false, [], ◌∷◌, ◌++◌, arith, ◌∙◌, Bool-cases, inl, inr,
  add32, ==_refl, ==_of_ne,
}
use native.Mathlib.Nat.{add-zero, add_assoc}
use kontol_os.Memory.{mem_block, MemBlock, Memory, null, join_prev, heap_end, write_block}
use kontol_os.Memory.Block.{
  Block, block, Blocks, all_bytes, join, join-apart, join-free, merge_last,
}
use kontol_os.Memory.Layout.{Layout, link, frame, all_bytes-Layout}
use kontol_os.Memory.Search.{prev_of}
use kontol_os.Memory.Unmark.{Kept}

-- `join` leaves a block in front, and what it does not touch keeps its place.
pub first_of-join :
    (s : ℕ) (post : Blocks)
    → (b : Block) × (bs : Blocks) × (join (block s false) post ≡ b ∷ bs) × (b.used ≡ false)
unfolding join
first_of-join s [] = (block s false, [], refl, refl)
first_of-join s (c ∷ post) = elim (Bool-cases c.used) [
  | inl busy ↦ (block s false, c ∷ post, rw busy, refl)
  | inr idle ↦ (block (s + c.size) false, post, rw idle, refl)
]

link-merge_last : (d : Block) (pre ys : Blocks) (x : ℕ) → link (merge_last (d ∷ pre) ys) x ≡ x
unfolding merge_last join
link-merge_last d [] [] x = refl
link-merge_last d [] (y ∷ ys) x = ground arith
link-merge_last d (e ∷ pre) ys x = refl

-- What joining with the block in front leaves of the blocks from `a` on.
pub record Joined (a : ℕ) (bs : Blocks) (e : ℕ) (m m' : Memory) : Type 0 where
  pub layout : Layout m'.header a bs e
  pub below : (q : ℕ) → q < a → m'.header q ≡ m.header q
  pub counted : m'.used_memory ≡ m.used_memory
  pub kept : Kept m m'

join_prev-keep : (p a s n : ℕ) (m : Memory) → m.header a ≡ mem_block s true n → join_prev p a m ≡ m
unfolding join_prev
join_prev-keep p a s n m here = rw here (ground arith)

join_prev-join :
    (p a s n : ℕ) (b : MemBlock) (m : Memory)
    → a ≢ null
    → m.header a ≡ mem_block s false n
    → m.header p ≡ b
    → join_prev p a m ≡ write_block a (mem_block (add32 s b.size) false b.next) m
unfolding join_prev
join_prev-join p a s n b m ne here there = rw (here, there, ==_of_ne a null ne)

join_prev-null :
    (a : ℕ) (b : Block) (post : Blocks) (e : ℕ) (m : Memory)
    → Layout m.header a (b ∷ post) e
    → Joined a (b ∷ post) e m (join_prev (a + 0) null m)
unfolding join_prev
join_prev-null a b post e m lay = record {
  layout = lay;
  below = λ q h. refl;
  counted = refl;
  kept = record { start = refl; whole = refl; bytes = refl };
}

-- One block in front.
join_prev-one :
    (a : ℕ) (c b : Block) (post : Blocks) (e : ℕ) (m : Memory)
    → 0 < a
    → e ≤ heap_end
    → b.used ≡ false
    → Layout m.header a (c ∷ b ∷ post) e
    → Joined a (join c (b ∷ post)) e m (join_prev (a + c.size) a m)
join_prev-one a c b post e m pos high idle lay = elim (Bool-cases c.used) [
  | inl busy ↦
      rw
        (
          join-apart c (b ∷ post) (rw busy),
          join_prev-keep (a + c.size) a c.size (a + c.size) m (lay.0 ∙ rw busy),
        )
        (record {
          layout = lay;
          below = λ q h. refl;
          counted = refl;
          kept = record { start = refl; whole = refl; bytes = refl };
        })
  | inr free ↦
      let ends = all_bytes-Layout m.header (a + c.size + b.size) post e lay.2.2 in
      let fits_word : add32 c.size b.size ≡ c.size + b.size = omega (arith, ends) in
      rw
        (
          join-free c b post free idle,
          join_prev-join (a + c.size) a c.size (a + c.size) _ m (omega arith) (lay.0 ∙ rw free)
              lay.2.0,
        )
        (record {
          layout = (
            rw (==_refl a, fits_word, add_assoc a c.size b.size),
            omega (arith, lay.1),
            rw (← add_assoc a c.size b.size) (
                frame m.header _ (a + c.size + b.size) post e
                  (λ q above below. rw (==_of_ne q a (omega (arith, lay.1)))) lay.2.2),
          );
          below = λ q h. rw (==_of_ne q a (omega arith));
          counted = refl;
          kept = record { start = refl; whole = refl; bytes = refl };
        })
]

-- The second step of kfree, for the free block `b` behind the blocks `pre`.
pub join_prev-Joined :
    (a : ℕ) (pre : Blocks) (b : Block) (post : Blocks) (e : ℕ) (m : Memory)
    → 0 < a
    → e ≤ heap_end
    → b.used ≡ false
    → Layout m.header a (pre ++ (b ∷ post)) e
    → Joined a (merge_last pre (b ∷ post)) e m (join_prev (a + all_bytes pre) (prev_of a pre) m)
unfolding merge_last
join_prev-Joined a [] b post e m pos high idle lay = join_prev-null a b post e m lay
join_prev-Joined a (c ∷ []) b post e m pos high idle lay =
    rw (add-zero c.size) (join_prev-one a c b post e m pos high idle lay)
join_prev-Joined a (c ∷ d ∷ pre) b post e m pos high idle lay =
    let j = join_prev-Joined (a + c.size) (d ∷ pre) b post e m (omega arith) high idle lay.2 in
    rw (← add_assoc a c.size (d.size + all_bytes pre)) (record {
      layout = (
        j.below a (omega (arith, lay.1))
            ∙ lay.0
            ∙ rw (link-merge_last d pre (b ∷ post) (a + c.size)),
        lay.1,
        j.layout,
      );
      below = λ q h. j.below q (omega arith);
      counted = j.counted;
      kept = j.kept;
    })
