-- ===== src/Memory/Realloc.antt =====
-- krealloc at a block in use.
use kontol_os.Base.{
  ℕ, ◌+◌, ◌-◌, ◌^◌, ◌≤◌, ◌<◌, ◌≡◌, ◌≢◌, ◌⊎◌, refl, sym, inl, inr, [], ◌∷◌, ◌++◌, true, false, none,
  some, arith, ap, ◌∙◌, subst, ==_of_ne, leb, sub32, if◌then◌else◌,
}
use native.Mathlib.Decide.{ℕ_discrete}
use kontol_os.Bytes.{Bytes, memcpy}
use kontol_os.Bytes.Copy.{within, memcpy-Copied}
use kontol_os.Memory.{
  Memory, heap_begin, heap_end, header_size, kmalloc, kfree, krealloc, move_block, null,
}
use kontol_os.Memory.Block.{block, Blocks, all_bytes, coalesce}
use kontol_os.Memory.Layout.{Represents, Represents-bytes, Layout-suffix, all_bytes-Layout}
use kontol_os.Memory.Free.{payload, kfree-coalesce}
use kontol_os.Memory.Cycle.{kmalloc-Spares}
use kontol_os.Memory.InUse.{in_use, Uses, Uses-payload}
use kontol_os.Memory.Claims.{kmalloc-Claims, kfree-Claims}

module _ (pre : Blocks) (s : ℕ) (post : Blocks) (m : Memory)
    (r : Represents m (pre ++ (block s true ∷ post))) where
  -- The size that krealloc reads in the header.
  pub old_size :
      sub32 (m.header (sub32 (payload pre) header_size)).size header_size ≡ s - header_size
  old_size =
      let p : ℕ = heap_begin + all_bytes pre in
      let here = Layout-suffix m.header heap_begin pre (block s true ∷ post) heap_end r.layout in
      let ends = all_bytes-Layout m.header p (block s true ∷ post) heap_end here in
      let back : sub32 (payload pre) header_size ≡ p = omega arith in
      rw (back, here.0) (omega (arith, here.1, ends))

  -- A request that the block already holds is answered by the same pointer, and changes nothing.
  pub krealloc-fits :
      (size : ℕ)
      → 0 < size
      → size + header_size ≤ s
      → krealloc (payload pre) size m ≡ some (payload pre, m)
  unfolding krealloc
  krealloc-fits size pos room =
      let small : leb size (s - header_size) ≡ true = ground arith in
      rw (old_size, ==_of_ne (payload pre) null (omega arith), ==_of_ne size 0 (omega arith), small)

krealloc_of-steps :
    (ptr size old p : ℕ) (m m1 : Memory)
    → ptr ≢ null
    → size ≢ 0
    → sub32 (m.header (sub32 ptr header_size)).size header_size ≡ old
    → old < size
    → kmalloc size m ≡ some (p, m1)
    → krealloc ptr size m ≡ move_block ptr old p m1
unfolding krealloc
krealloc_of-steps ptr size old p m m1 ne pos read grows got =
    let larger : leb size old ≡ false = ground arith in
    rw (read, ==_of_ne ptr null ne, ==_of_ne size 0 pos, larger, got) (rw read)

move_block-null : (ptr old p : ℕ) (m : Memory) → p ≡ null → move_block ptr old p m ≡ some (p, m)
unfolding move_block
move_block-null ptr old p m e = subst (λ q. move_block ptr old q m ≡ some (q, m)) (sym e) refl

move_block-moved :
    (ptr old p : ℕ) (m m' : Memory)
    → p ≢ null
    → kfree ptr (record m { bytes = memcpy p ptr old m.bytes }) ≡ some m'
    → move_block ptr old p m ≡ some (p, m')
unfolding move_block
move_block-moved ptr old p m m' ne freed = rw (==_of_ne p null ne, freed)

-- A new payload outside the old block does not overlap the bytes that are copied.
copies_apart :
    (pre : Blocks) (s p size : ℕ)
    → header_size ≤ s
    → (p ≡ null) ⊎ (p + size ≤ heap_begin + all_bytes pre) ⊎ (heap_begin + all_bytes pre + s ≤ p)
    → p ≢ null
    → (p ≤ payload pre) ⊎ (payload pre + (s - header_size) ≤ p)
copies_apart pre s p size low (inl nothing) found = absurd (found nothing)
copies_apart pre s p size low (inr (inl before)) found = inl (omega arith)
copies_apart pre s p size low (inr (inr behind)) found = inr (omega arith)

-- `p` is the payload of a block in use with room for `size` bytes, in a heap in order.
abbrev pub HasRoom : ℕ → ℕ → Memory → Type 0
HasRoom p size m =
    (bs : Blocks) × (t : ℕ) × Represents m bs × Uses p t (in_use heap_begin bs) × (size + 12 ≤ t)

some_inj : {A : Type 0} {a b : A} → some a ≡ some b → a ≡ b
some_inj {a} e = ap (λ r. elim r [ none ↦ a | some x ↦ x ]) e

-- A new payload keeps its room when another block is freed.
new-HasRoom :
    (pre : Blocks) (s : ℕ) (post : Blocks) (size p : ℕ) (b : Bytes) (m m1 m' : Memory)
    → 0 < size
    → size ≤ 2 ^ 32 - 16
    → header_size ≤ s
    → Represents m (pre ++ (block s true ∷ post))
    → kmalloc size m ≡ some (p, m1)
    → p ≢ null
    → kfree (payload pre) (record m1 { bytes = b }) ≡ some m'
    → HasRoom p size m'
new-HasRoom pre s post size p b m m1 m' more small low r got set_p freed =
    let q = payload pre in
    let bs = pre ++ (block s true ∷ post) in
    let (p2, m2, bs2, got2, r2, claims2, same2) =
      kmalloc-Claims size bs ((q, s - header_size) ∷ []) more small r
        (inr (s, Uses-payload heap_begin pre s post, omega (arith, low)), tt, tt) in
    let (hold_p, apart_p, old_claim) = claims2 in
    let (swap, none_left) = apart_p in
    let (hold_q, none_other, rest) = old_claim in
    let e = some_inj (sym got2 ∙ got) in
    let same_p : p2 ≡ p = ap (λ x. x.0) e in
    let same_m : m2 ≡ m1 = ap (λ x. x.1) e in
    let set_2 : p2 ≢ null = λ x. set_p (sym same_p ∙ x) in
    let away : p2 ≢ q = elim swap [ inl x ↦ absurd (set_2 x) | inr ne ↦ (λ x. ne (sym x)) ] in
    let (m3, bs3, freed3, r3, kept, bytes3) =
      kfree-Claims q (s - header_size) bs2 ((p2, size) ∷ []) (Represents-bytes b r2)
        (hold_q, (inr away, tt), (hold_p, tt, tt)) in
    let after : m3 ≡ m' =
      some_inj (sym freed3 ∙ ap (λ x. kfree q (record x { bytes = b })) same_m ∙ freed) in
    elim kept.0 [
      | inl x ↦ absurd (set_2 x)
      | inr (t, uses, room) ↦ (
        bs3,
        t,
        subst (λ x. Represents x bs3) after r3,
        subst (λ x. Uses x t (in_use heap_begin bs3)) same_p uses,
        room,
      )
    ]

-- krealloc to `size` bytes of the block in use between `pre` and `post` fails and changes nothing, or
-- moves the payload and frees the block.
abbrev pub Moves : Blocks → ℕ → Blocks → ℕ → Memory → Type 0
Moves pre s post size m =
    (p : ℕ) × (m' : Memory) × (pre' : Blocks) × (post' : Blocks) × (krealloc (payload pre) size m
      ≡ some (p, m'))
    × (all_bytes pre' ≡ all_bytes pre)
    × ((p ≡ null) × Represents m' (pre' ++ (block s true ∷ post')) × (m'.bytes ≡ m.bytes)
        ⊎ ((p ≢ null)
            × HasRoom p size m'
            × Represents m' (coalesce (pre' ++ (block s false ∷ post')))
            × ((a : ℕ)
                → m'.bytes a ≡ (
                    if within p (s - header_size) a
                    then m.bytes (payload pre + (a - p))
                    else m.bytes a))))

-- krealloc of a block in use to a size beyond its payload, of at most 2 ^ 32 - 16 bytes, ends. Either nothing fits: it answers NULL,
-- and the block stays in use with every byte as it was. Or it answers the payload of another block in use
-- with room for `size` bytes: the bytes of the
-- old payload stand behind it, no other byte has changed, and the old block is freed.
pub krealloc-Moves :
    (pre : Blocks) (s : ℕ) (post : Blocks) (size : ℕ) {m : Memory}
    → s < size + header_size
    → size ≤ 2 ^ 32 - 16
    → Represents m (pre ++ (block s true ∷ post))
    → Moves pre s post size m
krealloc-Moves pre s post size {m} grows small r =
    let here = Layout-suffix m.header heap_begin pre (block s true ∷ post) heap_end r.layout in
    let old : ℕ = s - header_size in
    let (p, m1, pre', post', got, r1, same_place, away, same) =
      kmalloc-Spares size pre s post (omega (arith, here.1)) small r in
    let call : krealloc (payload pre) size m ≡ move_block (payload pre) old p m1 =
      krealloc_of-steps (payload pre) size old p m m1 (omega arith) (omega (arith, here.1))
        (old_size pre s post m r) (omega (arith, here.1)) got in
    let apart : p ≢ null → (p ≤ payload pre) ⊎ (payload pre + old ≤ p) =
      copies_apart pre s p size here.1 away in
    elim (ℕ_discrete p null) [
      | yes nothing ↦ (
        p,
        m1,
        pre',
        post',
        call ∙ move_block-null (payload pre) old p m1 nothing,
        omega arith,
        inl (nothing, r1, same),
      )
      | no found ↦
          let b2 = memcpy p (payload pre) old m1.bytes in
          let (m', freed, r', kept) = kfree-coalesce pre' s post' (Represents-bytes b2 r1) in
          let freed_here : kfree (payload pre) (record m1 { bytes = b2 }) ≡ some m' =
            subst (λ q. kfree q (record m1 { bytes = b2 }) ≡ some m') same_place freed in
          (
            p,
            m',
            pre',
            post',
            call ∙ move_block-moved (payload pre) old p m1 m' found freed_here,
            omega arith,
            inr (
              found,
              new-HasRoom pre s post size p b2 m m1 m' (omega arith) small here.1 r got found
                  freed_here,
              r',
              λ a.
                  ap (λ (b : Bytes). b a) kept
                  ∙ memcpy-Copied p (payload pre) old m1.bytes (apart found) a
                  ∙ ap (λ (b : Bytes). if within p old a then b (payload pre + (a - p)) else b a)
                      same,
            ),
          )
    ]
