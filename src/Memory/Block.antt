-- ===== src/Memory/Block.antt =====
-- The abstract heap: the blocks in the order of their addresses, with what an allocation and a
-- release do to them.
use kontol_os.Base.{
  ℕ, ◌+◌, ◌-◌, ◌≤◌, ◌≡◌, refl, sym, Bool, true, false, not, ◌&&◌, ◌||◌, List, [], ◌∷◌, ◌++◌, arith,
  if◌then◌else◌, leb,
}

pub record Block : Type 0 where
  pub size : ℕ
  pub used : Bool

abbrev pub block : ℕ → Bool → Block
block s u = record { size = s; used = u }

abbrev pub Blocks : Type 0
Blocks = List Block

-- The bytes of all blocks, headers included.
abbrev pub all_bytes : Blocks → ℕ
all_bytes [] = 0
all_bytes (b ∷ bs) = b.size + all_bytes bs

-- The bytes of the blocks in use, headers included.
abbrev pub used_bytes : Blocks → ℕ
used_bytes [] = 0
used_bytes (b ∷ bs) = (if b.used then b.size else 0) + used_bytes bs

-- Not both `b` and the block behind it are free.
abbrev pub apart : Block → Blocks → Bool
apart b [] = true
apart b (c ∷ bs) = b.used || c.used

-- No two neighbours are free.
abbrev pub Merged : Blocks → Type 0
Merged [] = Unit
Merged (b ∷ bs) = (apart b bs ≡ true) × Merged bs

-- First fit: the address of the block that takes `total` bytes, counted from `a`, if any does.
unfoldable pub fit : ℕ → ℕ → Blocks → ℕ
fit total a [] = 0
fit total a (b ∷ bs) = if not b.used && leb total b.size then a + 12 else fit total (a + b.size) bs

-- First fit: the blocks after `total` bytes are taken. A rest of 28 bytes or more is split off.
unfoldable pub place : ℕ → Blocks → Blocks
place total [] = []
place total (b ∷ bs) =
    if not b.used && leb total b.size
    then (if leb (total + 28) b.size
        then block total true ∷ block (b.size - total) false ∷ bs
        else block b.size true ∷ bs)
    else b ∷ place total bs

-- Puts `b` in front, as one block with its neighbour if both are free.
unfoldable pub join : Block → Blocks → Blocks
join b [] = b ∷ []
join b (c ∷ bs) =
    if not b.used && not c.used then block (b.size + c.size) false ∷ bs else b ∷ c ∷ bs

-- Every run of free blocks made one.
unfoldable pub coalesce : Blocks → Blocks
unfolding join
coalesce [] = []
coalesce (b ∷ bs) = join b (coalesce bs)

pub used_bytes-le : (bs : Blocks) → used_bytes bs ≤ all_bytes bs
used_bytes-le [] = omega arith
used_bytes-le (b ∷ bs) = ground (arith, used_bytes-le bs)

pub all_bytes-append : (bs cs : Blocks) → all_bytes (bs ++ cs) ≡ all_bytes bs + all_bytes cs
all_bytes-append [] cs = omega arith
all_bytes-append (b ∷ bs) cs = omega (arith, all_bytes-append bs cs)

pub used_bytes-append : (bs cs : Blocks) → used_bytes (bs ++ cs) ≡ used_bytes bs + used_bytes cs
used_bytes-append [] cs = omega arith
used_bytes-append (b ∷ bs) cs = omega (arith, used_bytes-append bs cs)

-- The bytes that a first fit takes: none if nothing fits.
unfoldable pub taken : ℕ → Blocks → ℕ
taken total [] = 0
taken total (b ∷ bs) =
    if not b.used && leb total b.size
    then (if leb (total + 28) b.size then total else b.size)
    else taken total bs

pub used_bytes-place :
    (total : ℕ) (bs : Blocks) → used_bytes (place total bs) ≡ used_bytes bs + taken total bs
unfolding place taken
used_bytes-place total [] = omega arith
used_bytes-place total (b ∷ bs) = ground (arith, used_bytes-place total bs)

pub all_bytes-place : (total : ℕ) (bs : Blocks) → all_bytes (place total bs) ≡ all_bytes bs
unfolding place
all_bytes-place total [] = refl
all_bytes-place total (b ∷ bs) = ground (arith, all_bytes-place total bs)

apart-place :
    (total : ℕ) (b : Block) (bs : Blocks) → apart b bs ≡ true → apart b (place total bs) ≡ true
unfolding place
apart-place total b [] h = refl
apart-place total b (c ∷ bs) h = ground arith

apart-used : (s : ℕ) (bs : Blocks) → apart (block s true) bs ≡ true
apart-used s [] = refl
apart-used s (c ∷ bs) = refl

pub apart-same_use :
    (b c : Block) (bs : Blocks) → c.used ≡ b.used → apart b bs ≡ true → apart c bs ≡ true
apart-same_use b c [] e h = refl
apart-same_use b c (d ∷ bs) e h = ground arith

pub place-Merged : (total : ℕ) (bs : Blocks) → Merged bs → Merged (place total bs)
unfolding place
place-Merged total [] h = tt
place-Merged total (b ∷ bs) (h, hs) = ground (
  arith,
  apart-place total b bs h,
  place-Merged total bs hs,
  apart-used b.size bs,
  apart-same_use b (block (b.size - total) false) bs,
)

join-Merged : (b : Block) (bs : Blocks) → Merged bs → Merged (join b bs)
unfolding join
join-Merged b [] h = (refl, tt)
join-Merged b (c ∷ bs) (h, hs) = ground (arith, apart-same_use c (block (b.size + c.size) false) bs)

pub coalesce-Merged : (bs : Blocks) → Merged (coalesce bs)
unfolding coalesce
coalesce-Merged [] = tt
coalesce-Merged (b ∷ bs) = join-Merged b (coalesce bs) (coalesce-Merged bs)

join_bytes :
    (b : Block) (bs : Blocks)
    → (all_bytes (join b bs) ≡ all_bytes (b ∷ bs)) × (used_bytes (join b bs) ≡ used_bytes (b ∷ bs))
unfolding join
join_bytes b [] = (refl, refl)
join_bytes b (c ∷ bs) = ground arith

pub coalesce_bytes :
    (bs : Blocks)
    → (all_bytes (coalesce bs) ≡ all_bytes bs) × (used_bytes (coalesce bs) ≡ used_bytes bs)
unfolding coalesce
coalesce_bytes [] = (refl, refl)
coalesce_bytes (b ∷ bs) = ground (arith, join_bytes b (coalesce bs), coalesce_bytes bs)

pub join-apart : (b : Block) (bs : Blocks) → apart b bs ≡ true → join b bs ≡ b ∷ bs
unfolding join
join-apart b [] h = refl
join-apart b (c ∷ bs) h = ground arith

pub coalesce-of_Merged : (bs : Blocks) → Merged bs → coalesce bs ≡ bs
unfolding coalesce
coalesce-of_Merged [] h = refl
coalesce-of_Merged (b ∷ bs) (h, hs) = rw (coalesce-of_Merged bs hs) (join-apart b bs h)

pub join-free :
    (b c : Block) (bs : Blocks)
    → b.used ≡ false
    → c.used ≡ false
    → join b (c ∷ bs) ≡ block (b.size + c.size) false ∷ bs
unfolding join
join-free b c bs p q = rw (p, q)

-- Joins the last block of `pre` with the blocks `ys` behind it.
unfoldable pub merge_last : Blocks → Blocks → Blocks
merge_last [] ys = ys
merge_last (c ∷ []) ys = join c ys
merge_last (c ∷ d ∷ pre) ys = c ∷ merge_last (d ∷ pre) ys

apart-merge_last :
    (c d : Block) (pre ys : Blocks)
    → c.used || d.used ≡ true
    → apart c (merge_last (d ∷ pre) ys) ≡ true
unfolding merge_last join
apart-merge_last c d [] [] h = h
apart-merge_last c d [] (y ∷ ys) h = ground arith
apart-merge_last c d (e ∷ pre) ys h = h

-- Among blocks that were merged before, freeing one and joining it with its two neighbours is all
-- the merging there is to do.
pub merge_last-coalesce :
    (pre : Blocks) (s : ℕ) (post : Blocks)
    → Merged (pre ++ (block s true ∷ post))
    → merge_last pre (join (block s false) post) ≡ coalesce (pre ++ (block s false ∷ post))
unfolding merge_last coalesce
merge_last-coalesce [] s post h = rw (coalesce-of_Merged post h.1)
merge_last-coalesce (c ∷ []) s post h = rw (coalesce-of_Merged post h.1.1)
merge_last-coalesce (c ∷ d ∷ pre) s post (h, hs) = rw (← merge_last-coalesce (d ∷ pre) s post hs) (
    sym (
      join-apart c (merge_last (d ∷ pre) (join (block s false) post))
        (apart-merge_last c d pre (join (block s false) post) h)))
