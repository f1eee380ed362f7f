-- ===== src/Memory/Drops.antt =====
-- What kfree of src/kernel/memory.c takes out of the blocks in use.
use kontol_os.Base.{
  ℕ, ◌≡◌, ◌≢◌, ◌↔◌, refl, sym, ap, ◌∙◌, subst, inl, inr, true, false, some, List, [], ◌∷◌, ◌++◌,
  arith,
}
use kontol_os.Memory.{Memory, heap_begin, heap_end, kfree}
use kontol_os.Memory.Block.{block, Blocks, coalesce}
use kontol_os.Memory.Layout.{Represents}
use kontol_os.Memory.Free.{payload, kfree-coalesce}
use kontol_os.Memory.InUse.{in_use, Uses, found, Layout-Spaced, freed_keeps, taken_adds, between}
use kontol_os.Memory.Claims.{Claims, Claims-keep, kfree-null}

-- Not one of the pointers `ps`.
abbrev pub Besides : ℕ → List ℕ → Type 0
Besides q [] = Unit
Besides q (p ∷ ps) = (q ≢ p) × Besides q ps

-- The blocks in use of `bs'` are those of `bs` but for the ones at `ps`.
abbrev pub Drops : List ℕ → Blocks → Blocks → Type 0
Drops ps bs bs' =
    (q t : ℕ)
    → (Uses q t (in_use heap_begin bs') ↔ (Uses q t (in_use heap_begin bs) × Besides q ps))

-- kfree of `p`, which is NULL or held, takes out the block at `p` alone, and the others keep theirs.
pub kfree-Drops :
    (p n : ℕ) {m : Memory} (bs : Blocks) (cs : List (ℕ × ℕ))
    → Represents m bs
    → Claims bs ((p, n) ∷ cs)
    → (m' : Memory) × (bs' : Blocks) × (kfree p m ≡ some m')
      × Represents m' bs'
      × Claims bs' cs
      × (m'.bytes ≡ m.bytes)
      × Drops (p ∷ []) bs bs'
kfree-Drops p n {m} bs cs r (inl nothing, apart, h) = (
  m,
  bs,
  ap (λ q. kfree q m) nothing ∙ kfree-null m,
  r,
  h,
  refl,
  λ q t. (
    λ uses.
        let spaced = Layout-Spaced m.header heap_begin bs heap_end r.layout in
        (uses, ((λ e. omega (arith, between heap_begin q t bs spaced uses, e, nothing)), tt)),
    λ (uses, other). uses,
  ),
)
kfree-Drops p n {m} bs cs r (inr (s, uses, room), apart, h) =
    let (pre, post, shape, at) = found heap_begin p s bs uses in
    let r1 = subst (Represents m) shape r in
    let (m', freed, r', same) = kfree-coalesce pre s post r1 in
    let h1 = subst (λ b. Claims b cs) shape h in
    let p1 : p ≡ payload pre = at in
    let spaced =
      Layout-Spaced m.header heap_begin (pre ++ (block s true ∷ post)) heap_end r1.layout in
    (
      m',
      coalesce (pre ++ (block s false ∷ post)),
      ap (λ q. kfree q m) p1 ∙ freed,
      r',
      Claims-keep (pre ++ (block s true ∷ post)) _ p cs (omega arith)
          (λ q t ne. freed_keeps heap_begin pre s post q t (λ e. ne (e ∙ sym p1))) apart h1,
      same,
      λ q t. (
        λ uses'.
            let (before, away) = taken_adds heap_begin pre s post q t spaced uses' in
            (
              subst (λ b. Uses q t (in_use heap_begin b)) (sym shape) before,
              ((λ e. away (e ∙ p1)), tt),
            ),
        λ (before, other).
            freed_keeps heap_begin pre s post q t (λ e. other.0 (e ∙ sym p1))
              (subst (λ b. Uses q t (in_use heap_begin b)) shape before),
      ),
    )

Besides-append : (q : ℕ) (ps rs : List ℕ) → (Besides q (ps ++ rs) ↔ (Besides q ps × Besides q rs))
Besides-append q [] rs = (λ h. (tt, h), λ (done, h). h)
Besides-append q (p ∷ ps) rs =
    let (to, from) = Besides-append q ps rs in
    (
      λ (other, h). let (first, rest) = to h in ((other, first), rest),
      λ ((other, first), rest). (other, from (first, rest)),
    )

-- One after the other.
pub Drops-both :
    (ps rs : List ℕ) (bs bs1 bs2 : Blocks)
    → Drops ps bs bs1
    → Drops rs bs1 bs2
    → Drops (ps ++ rs) bs bs2
Drops-both ps rs bs bs1 bs2 first then q t =
    let (split, join) = Besides-append q ps rs in
    (
      λ uses.
          let (uses1, behind) = (then q t).0 uses in
          let (uses0, front) = (first q t).0 uses1 in (uses0, join (front, behind)),
      λ (uses0, others).
          let (front, behind) = split others in (then q t).1 ((first q t).1 (uses0, front), behind),
    )
