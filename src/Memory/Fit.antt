-- ===== src/Memory/Fit.antt =====
-- Where a first fit lands: the block that it takes, and the blocks in use that it spares.
use kontol_os.Base.{
  ℕ, ◌+◌, ◌-◌, ◌≤◌, ◌≡◌, refl, sym, ap₂, ◌⊎◌, inl, inr, true, false, not, ◌&&◌, [], ◌∷◌, ◌++◌,
  arith, leb, Bool-cases, ap, ◌∙◌, leb→le,
}
use kontol_os.Memory.Block.{
  Block, block, Blocks, all_bytes, Merged, fit, place, coalesce, coalesce-of_Merged, apart-same_use,
  join-apart, join-free,
}

-- A first fit of `total` bytes in `bs`, which lie from `a` on: the block at the end of `pre` is taken,
-- it is large enough, and freeing it again gives `bs` back.
pub record Fits (total a : ℕ) (bs pre : Blocks) (s : ℕ) (rest : Blocks) : Type 0 where
  pub placed : place total bs ≡ pre ++ (block s true ∷ rest)
  pub at : fit total a bs ≡ a + all_bytes pre + 12
  pub room : total ≤ s
  pub undone : Merged bs → coalesce (pre ++ (block s false ∷ rest)) ≡ bs

module _ (total a : ℕ) (b : Block) (bs : Blocks) (hit : not b.used && leb total b.size ≡ true) where
  free : b.used ≡ false
  free = ground arith

  room : total ≤ b.size
  room = ground arith

  Fits-whole : leb (total + 28) b.size ≡ false → Fits total a (b ∷ bs) [] b.size bs
  unfolding place fit coalesce
  Fits-whole small = record {
    placed = rw (hit, small);
    at = rw hit (omega arith);
    room = room;
    undone = λ (h, hs). rw (coalesce-of_Merged bs hs) (
        join-apart (block b.size false) bs (apart-same_use b (block b.size false) bs (rw free) h)
        ∙ ap (λ u. block b.size u ∷ bs) (sym free));
  }

  Fits-split :
      leb (total + 28) b.size ≡ true
      → Fits total a (b ∷ bs) [] total (block (b.size - total) false ∷ bs)
  unfolding place fit coalesce
  Fits-split large = record {
    placed = rw (hit, large);
    at = rw hit (omega arith);
    room = omega arith;
    undone = λ (h, hs).
        rw
          (
            coalesce-of_Merged bs hs,
            join-apart (block (b.size - total) false) bs
                (apart-same_use b (block (b.size - total) false) bs (rw free) h),
            join-free (block total false) (block (b.size - total) false) bs refl refl,
          )
          (ap₂ (λ k u. block k u ∷ bs) (omega (arith, room)) (sym free));
  }

Fits-cons :
    (total a : ℕ) (b : Block) (bs pre : Blocks) (s : ℕ) (rest : Blocks)
    → not b.used && leb total b.size ≡ false
    → Fits total (a + b.size) bs pre s rest
    → Fits total a (b ∷ bs) (b ∷ pre) s rest
unfolding place fit coalesce
Fits-cons total a b bs pre s rest miss f = record {
  placed = rw (miss, f.placed);
  at = rw (miss, f.at) (omega arith);
  room = f.room;
  undone = λ (h, hs). rw (f.undone hs) (join-apart b bs h);
}

-- Either nothing fits, the answer is NULL and the blocks stay as they are, or `Fits` holds.
pub fit_cases :
    (total a : ℕ) (bs : Blocks)
    → (fit total a bs ≡ 0) × (place total bs ≡ bs)
      ⊎ ((pre : Blocks) × (s : ℕ) × (rest : Blocks) × Fits total a bs pre s rest)
unfolding fit place
fit_cases total a [] = inl (refl, refl)
fit_cases total a (b ∷ bs) = elim (Bool-cases (not b.used && leb total b.size)) [
  | inl hit ↦ elim (Bool-cases (leb (total + 28) b.size)) [
    | inl large ↦
        inr ([], total, block (b.size - total) false ∷ bs, Fits-split total a b bs hit large)
    | inr small ↦ inr ([], b.size, bs, Fits-whole total a b bs hit small)
  ]
  | inr miss ↦ elim (fit_cases total (a + b.size) bs) [
    | inl (null, same) ↦ inl (rw (miss, null), rw (miss, same))
    | inr (pre, s, rest, f) ↦ inr (b ∷ pre, s, rest, Fits-cons total a b bs pre s rest miss f)
  ]
]

-- A block in use behind the blocks `pre` keeps its place, and the bytes that a first fit hands out
-- lie before it or behind it.
pub record Spared (total a : ℕ) (pre : Blocks) (s : ℕ) (post : Blocks) (pre' post' : Blocks)
    : Type 0 where
  pub placed : place total (pre ++ (block s true ∷ post)) ≡ pre' ++ (block s true ∷ post')
  pub moved : all_bytes pre' ≡ all_bytes pre
  pub away :
      (fit total a (pre ++ (block s true ∷ post)) ≡ 0)
      ⊎ (fit total a (pre ++ (block s true ∷ post)) + total ≤ a + all_bytes pre + 12)
      ⊎ (a + all_bytes pre + s + 12 ≤ fit total a (pre ++ (block s true ∷ post)))

fit-ge : (total a : ℕ) (bs : Blocks) → (fit total a bs ≡ 0) ⊎ (a + 12 ≤ fit total a bs)
unfolding fit
fit-ge total a [] = inl refl
fit-ge total a (b ∷ bs) = ground (arith, fit-ge total (a + b.size) bs)

pub spared :
    (total a : ℕ) (pre : Blocks) (s : ℕ) (post : Blocks)
    → 12 ≤ total
    → (pre' : Blocks) × (post' : Blocks) × Spared total a pre s post pre' post'
unfolding fit place
spared total a [] s post low = (
  [],
  place total post,
  record { placed = refl; moved = refl; away = ground (arith, fit-ge total (a + s) post) },
)
spared total a (b ∷ pre) s post low = elim (Bool-cases (not b.used && leb total b.size)) [
  | inl hit ↦ elim (Bool-cases (leb (total + 28) b.size)) [
    | inl large ↦ (
      block total true ∷ block (b.size - total) false ∷ pre,
      post,
      record {
        placed = rw (hit, large);
        moved = omega (arith, leb→le (total + 28) b.size large);
        away = inr (inl (rw hit (omega (arith, leb→le (total + 28) b.size large))));
      },
    )
    | inr small ↦ (
      block b.size true ∷ pre,
      post,
      record {
        placed = rw (hit, small);
        moved = refl;
        away = inr (inl (rw hit (omega (arith, room total a b pre hit))));
      },
    )
  ]
  | inr miss ↦
      let (pre', post', sp) = spared total (a + b.size) pre s post low in
      (
        b ∷ pre',
        post',
        record {
          placed = rw (miss, sp.placed);
          moved = ap (λ k. b.size + k) sp.moved;
          away = rw miss (elim sp.away [
            | inl nothing ↦ inl nothing
            | inr (inl before) ↦ inr (inl (omega arith))
            | inr (inr behind) ↦ inr (inr (omega arith))
          ]);
        },
      )
]
