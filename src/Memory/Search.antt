-- ===== src/Memory/Search.antt =====
-- The walk of kfree to the block in front of the one that is freed.
use kontol_os.Base.{
  ℕ, zero, suc, ◌+◌, ◌≤◌, ◌<◌, ◌≡◌, refl, true, false, [], ◌∷◌, ◌++◌, some, arith, ◌==◌, length,
}
use kontol_os.Memory.{Memory, find_prev, null}
use kontol_os.Memory.Block.{Block, Blocks, all_bytes}
use kontol_os.Memory.Layout.{Layout, link}

-- The address of the last block of `pre`, which lie from `a` on; `null` if there is none.
abbrev pub prev_of : ℕ → Blocks → ℕ
prev_of a [] = null
prev_of a (c ∷ []) = a
prev_of a (c ∷ d ∷ pre) = prev_of (a + c.size) (d ∷ pre)

link-ne : (bs : Blocks) (a t : ℕ) → 0 < t → t < a → (link bs a == t) ≡ false
link-ne [] a t pos h = ground arith
link-ne (b ∷ bs) a t pos h = ground arith

-- No block behind the address `t` leads back to it.
find_prev-null :
    (fuel t a : ℕ) (bs : Blocks) (e : ℕ) (m : Memory)
    → 0 < t
    → t ≤ a
    → Layout m.header a bs e
    → length bs < fuel
    → find_prev fuel t (link bs a) m ≡ some null
unfolding find_prev
find_prev-null zero t a bs e m pos le lay enough = absurd (omega arith)
find_prev-null (suc fuel) t a [] e m pos le lay enough = refl
find_prev-null (suc fuel) t a (b ∷ bs) e m pos le lay enough =
    let there : (a == 0) ≡ false = ground arith in
    rw (lay.0, there, link-ne bs (a + b.size) t pos (omega (arith, lay.1)))
      (find_prev-null fuel t (a + b.size) bs e m pos (omega arith) lay.2 (omega arith))

-- The walk finds the block in front.
pub find_prev-prev_of :
    (fuel a : ℕ) (pre : Blocks) (b : Block) (post : Blocks) (e : ℕ) (m : Memory)
    → 0 < a
    → Layout m.header a (pre ++ (b ∷ post)) e
    → length (pre ++ (b ∷ post)) < fuel
    → find_prev fuel (a + all_bytes pre) (link (pre ++ (b ∷ post)) a) m ≡ some (prev_of a pre)
unfolding find_prev
find_prev-prev_of zero a pre b post e m pos lay enough = absurd (omega arith)
find_prev-prev_of (suc fuel) a [] b post e m pos lay enough =
    find_prev-null (suc fuel) (a + 0) a (b ∷ post) e m (omega arith) (omega arith) lay enough
find_prev-prev_of (suc fuel) a (c ∷ []) b post e m pos lay enough =
    let there : (a == 0) ≡ false = ground arith in
    let hit : (a + c.size == a + (c.size + 0)) ≡ true = ground arith in rw (lay.0, there, hit)
find_prev-prev_of (suc fuel) a (c ∷ d ∷ pre) b post e m pos lay enough =
    let there : (a == 0) ≡ false = ground arith in
    let miss : (a + c.size == a + (c.size + (d.size + all_bytes pre))) ≡ false =
      ground (arith, lay.2.1) in
    let shift : a + c.size + (d.size + all_bytes pre) ≡ a + (c.size + (d.size + all_bytes pre)) =
      omega arith in
    rw (lay.0, there, miss, ← shift)
      (find_prev-prev_of fuel (a + c.size) (d ∷ pre) b post e m (omega arith) lay.2 (omega arith))
