-- ===== src/Memory/InUse.antt =====
-- The blocks in use of the abstract heap: those that a release or an allocation leaves as they are.
use kontol_os.Base.{
  ℕ, ◌+◌, ◌≤◌, ◌<◌, ◌≡◌, ◌≢◌, refl, sym, ap, ap₂, ◌∙◌, ◌⊎◌, inl, inr, true, false, List, [], ◌∷◌,
  ◌++◌, arith, if◌then◌else◌, ◌↔◌, Bool-cases,
}
use kontol_os.Memory.Block.{Block, block, Blocks, all_bytes, join, coalesce}
use kontol_os.Memory.Layout.{Layout, Headers}

-- The payloads of the blocks in use that lie from `a` on, with the sizes of the blocks.
unfoldable pub in_use : ℕ → Blocks → List (ℕ × ℕ)
in_use a [] = []
in_use a (b ∷ bs) =
    let rest = in_use (a + b.size) bs in if b.used then (a + 12, b.size) ∷ rest else rest

-- The block of the payload `p` has the size `s`.
abbrev pub Uses : ℕ → ℕ → List (ℕ × ℕ) → Type 0
Uses p s [] = ⊥
Uses p s ((q, t) ∷ us) = ((p ≡ q) × (s ≡ t)) ⊎ Uses p s us

Uses-append : (p s : ℕ) (us vs : List (ℕ × ℕ)) → Uses p s (us ++ vs) ↔ (Uses p s us ⊎ Uses p s vs)
Uses-append p s [] vs = (inr, λ h. elim h [ inl e ↦ absurd e | inr u ↦ u ])
Uses-append p s ((q, t) ∷ us) vs = ground (arith, Uses-append p s us vs)

in_use-append :
    (a : ℕ) (bs cs : Blocks) → in_use a (bs ++ cs) ≡ in_use a bs ++ in_use (a + all_bytes bs) cs
unfolding in_use
in_use-append a [] cs = ap (λ k. in_use k cs) (omega arith)
in_use-append a (b ∷ bs) cs =
    let at : (a + b.size) + all_bytes bs ≡ a + (b.size + all_bytes bs) = omega arith in
    let ih : in_use (a + b.size) (bs ++ cs)
        ≡ in_use (a + b.size) bs ++ in_use (a + (b.size + all_bytes bs)) cs =
      in_use-append (a + b.size) bs cs ∙ ap (λ k. in_use (a + b.size) bs ++ in_use k cs) at in
    elim (Bool-cases b.used) [
      | inl used ↦ rw used (ap (λ us. (a + 12, b.size) ∷ us) ih)
      | inr idle ↦ rw idle ih
    ]

in_use-join : (a : ℕ) (b : Block) (bs : Blocks) → in_use a (join b bs) ≡ in_use a (b ∷ bs)
unfolding in_use join
in_use-join a b [] = refl
in_use-join a b (c ∷ bs) =
    let at : a + (b.size + c.size) ≡ a + b.size + c.size = omega arith in
    elim (Bool-cases b.used) [
      | inl used ↦ rw used refl
      | inr idle ↦ elim (Bool-cases c.used) [
        | inl used ↦ rw (idle, used) refl
        | inr idle2 ↦ rw (idle, idle2) (rw at refl)
      ]
    ]

-- Merging free blocks changes no block in use.
in_use-coalesce : (a : ℕ) (bs : Blocks) → in_use a (coalesce bs) ≡ in_use a bs
unfolding coalesce in_use
in_use-coalesce a [] = refl
in_use-coalesce a (b ∷ bs) = in_use-join a b (coalesce bs) ∙ rw (in_use-coalesce (a + b.size) bs)

-- A block in use may be found.
pub found :
    (a p s : ℕ) (bs : Blocks)
    → Uses p s (in_use a bs)
    → (pre : Blocks) × (post : Blocks) × (bs ≡ pre ++ (block s true ∷ post))
      × (p ≡ a + all_bytes pre + 12)
unfolding in_use
found a p s [] h = absurd h
found a p s (b ∷ bs) h = elim (Bool-cases b.used) [
  | inr idle ↦
      let (pre, post, shape, at) = found (a + b.size) p s bs (rw idle at h) in
      (b ∷ pre, post, ap (b ∷◌) shape, omega arith)
  | inl used ↦ elim (rw used at h) [
    | inl (here, size) ↦ ([], bs, ap₂ (λ k u. block k u ∷ bs) (sym size) used, omega arith)
    | inr there ↦
        let (pre, post, shape, at) = found (a + b.size) p s bs there in
        (b ∷ pre, post, ap (b ∷◌) shape, omega arith)
  ]
]

-- Every block of a layout takes room.
abbrev pub Spaced : Blocks → Type 0
Spaced [] = Unit
Spaced (b ∷ bs) = (12 ≤ b.size) × Spaced bs

pub Layout-Spaced : (hd : Headers) (a : ℕ) (bs : Blocks) (e : ℕ) → Layout hd a bs e → Spaced bs
Layout-Spaced hd a [] e h = tt
Layout-Spaced hd a (b ∷ bs) e (h, l, hs) = (l, Layout-Spaced hd (a + b.size) bs e hs)

-- The payloads lie in their order.
pub between :
    (a p s : ℕ) (bs : Blocks)
    → Spaced bs
    → Uses p s (in_use a bs)
    → (a + 12 ≤ p) × (p < a + all_bytes bs + 12)
unfolding in_use
between a p s [] sp h = absurd h
between a p s (b ∷ bs) (l, sp) h = ground (arith, between (a + b.size) p s bs sp)

-- Two blocks in use do not overlap.
pub Uses-disjoint :
    (a p s q t : ℕ) (bs : Blocks)
    → Spaced bs
    → p ≢ q
    → Uses p s (in_use a bs)
    → Uses q t (in_use a bs)
    → (p + s ≤ q) ⊎ (q + t ≤ p)
unfolding in_use
Uses-disjoint a p s q t [] sp ne h k = absurd h
Uses-disjoint a p s q t (b ∷ bs) (l, sp) ne h k = ground (
  arith,
  Uses-disjoint (a + b.size) p s q t bs sp ne,
  between (a + b.size) p s bs sp,
  between (a + b.size) q t bs sp,
)

pub Spaced-split :
    (pre : Blocks) (s : ℕ) (post : Blocks)
    → Spaced (pre ++ (block s true ∷ post))
    → Spaced pre × (12 ≤ s) × Spaced post
Spaced-split [] s post (l, sp) = (tt, l, sp)
Spaced-split (b ∷ pre) s post (l, sp) =
    let (sp1, l', sp2) = Spaced-split pre s post sp in ((l, sp1), l', sp2)

module _ (a : ℕ) (pre : Blocks) (s : ℕ) (post : Blocks) where
  abbrev pub here : ℕ
  here = a + all_bytes pre + 12

  with_used :
      in_use a (pre ++ (block s true ∷ post))
      ≡ in_use a pre ++ ((here, s) ∷ in_use (a + all_bytes pre + s) post)
  unfolding in_use
  with_used = in_use-append a pre (block s true ∷ post)

  with_free :
      in_use a (coalesce (pre ++ (block s false ∷ post)))
      ≡ in_use a pre ++ in_use (a + all_bytes pre + s) post
  unfolding in_use
  with_free =
      in_use-coalesce a (pre ++ (block s false ∷ post)) ∙ in_use-append a pre (block s false ∷ post)

  -- All blocks in use but the one that is freed stay.
  pub freed_keeps :
      (q t : ℕ)
      → q ≢ here
      → Uses q t (in_use a (pre ++ (block s true ∷ post)))
      → Uses q t (in_use a (coalesce (pre ++ (block s false ∷ post))))
  freed_keeps q t ne h =
      let split = (Uses-append q t (in_use a pre) (in_use (a + all_bytes pre + s) post)).1 in
      let both =
        (Uses-append q t (in_use a pre) ((here, s) ∷ in_use (a + all_bytes pre + s) post)).0
          (rw with_used at h) in
      rw with_free (elim both [
        | inl low ↦ split (inl low)
        | inr (inl (same, size)) ↦ absurd (ne same)
        | inr (inr high) ↦ split (inr high)
      ])

  -- The block that is taken is new, and the others were there before.
  pub taken_adds :
      (q t : ℕ)
      → Spaced (pre ++ (block s true ∷ post))
      → Uses q t (in_use a (coalesce (pre ++ (block s false ∷ post))))
      → Uses q t (in_use a (pre ++ (block s true ∷ post))) × (q ≢ here)
  taken_adds q t sp h =
      let join =
        (Uses-append q t (in_use a pre) ((here, s) ∷ in_use (a + all_bytes pre + s) post)).1 in
      let (low_sp, size, high_sp) = Spaced-split pre s post sp in
      elim ((Uses-append q t (in_use a pre) (in_use (a + all_bytes pre + s) post)).0
        (rw with_free at h)) [
          | inl low ↦
              (rw with_used (join (inl low)), λ e. omega (arith, between a q t pre low_sp low))
          | inr high ↦ (
            rw with_used (join (inr (inr high))),
            λ e. omega (arith, between (a + all_bytes pre + s) q t post high_sp high),
          )
        ]

  -- The block itself is in use.
  pub Uses-payload : Uses here s (in_use a (pre ++ (block s true ∷ post)))
  Uses-payload = rw with_used (
      (Uses-append here s (in_use a pre) ((here, s) ∷ in_use (a + all_bytes pre + s) post)).1
        (inr (inl (refl, refl))))
