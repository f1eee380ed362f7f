-- ===== src/Memory/Claims.antt =====
-- Who holds which payloads of the heap: kmalloc adds a claim, kfree takes one away, and every other
-- claim stays.
use kontol_os.Base.{
  ℕ, ◌+◌, ◌-◌, ◌≤◌, ◌<◌, ◌^◌, ◌≡◌, ◌≢◌, refl, sym, ap, ◌∙◌, subst, ◌⊎◌, inl, inr, true, false, some,
  List, [], ◌∷◌, ◌++◌, arith,
}
use kontol_os.Memory.{Memory, heap_begin, heap_end, kmalloc, kfree, null}
use kontol_os.Memory.Block.{block, Blocks, coalesce, place}
use kontol_os.Memory.Layout.{Represents}
use kontol_os.Memory.Alloc.{request, kmalloc-fit}
use kontol_os.Memory.Free.{payload, kfree-coalesce}
use kontol_os.Memory.Fit.{fit_cases}
use kontol_os.Memory.InUse.{
  in_use, Uses, found, Layout-Spaced, freed_keeps, taken_adds, Uses-payload,
}

-- `p` is NULL, or the payload of a block in use with room for `n` bytes.
abbrev pub Holding : Blocks → ℕ → ℕ → Type 0
Holding bs p n = (p ≡ null) ⊎ ((s : ℕ) × Uses p s (in_use heap_begin bs) × (n + 12 ≤ s))

-- No other claim is on `p`.
abbrev pub Apart : ℕ → List (ℕ × ℕ) → Type 0
Apart p [] = Unit
Apart p ((q, n) ∷ cs) = ((p ≡ null) ⊎ (q ≢ p)) × Apart p cs

-- Pointers with the numbers of bytes behind them: each is NULL or held, and no two are the same block.
abbrev pub Claims : Blocks → List (ℕ × ℕ) → Type 0
Claims bs [] = Unit
Claims bs ((p, n) ∷ cs) = Holding bs p n × Apart p cs × Claims bs cs

pub Claims-keep :
    (bs bs' : Blocks) (p : ℕ) (cs : List (ℕ × ℕ))
    → p ≢ null
    → ((q t : ℕ) → q ≢ p → Uses q t (in_use heap_begin bs) → Uses q t (in_use heap_begin bs'))
    → Apart p cs
    → Claims bs cs
    → Claims bs' cs
Claims-keep bs bs' p [] ne keep ap h = tt
Claims-keep bs bs' p ((q, n) ∷ cs) ne keep (a, apart_cs) (hold, other, h) = (
  elim hold [
    | inl nothing ↦ inl nothing
    | inr (s, uses, room) ↦ elim a [
      | inl nothing ↦ absurd (ne nothing)
      | inr away ↦ inr (s, keep q s away uses, room)
    ]
  ],
  other,
  Claims-keep bs bs' p cs ne keep apart_cs h,
)

-- What kfree of a claimed pointer does to the other claims.
abbrev pub Released : ℕ → Memory → List (ℕ × ℕ) → Type 0
Released p m cs =
    (m' : Memory) × (bs : Blocks) × (kfree p m ≡ some m')
    × Represents m' bs
    × Claims bs cs
    × (m'.bytes ≡ m.bytes)

pub kfree-null : (m : Memory) → kfree null m ≡ some m
unfolding kfree
kfree-null m = refl

-- kfree of a pointer that is NULL or held ends, leaves the heap in order with its bytes unchanged, and
-- every other claim stands.
pub kfree-Claims :
    (p n : ℕ) {m : Memory} (bs : Blocks) (cs : List (ℕ × ℕ))
    → Represents m bs
    → Claims bs ((p, n) ∷ cs)
    → Released p m cs
kfree-Claims p n {m} bs cs r (inl nothing, apart, h) =
    (m, bs, ap (λ q. kfree q m) nothing ∙ kfree-null m, r, h, refl)
kfree-Claims p n {m} bs cs r (inr (s, uses, room), apart, h) =
    let (pre, post, shape, at) = found heap_begin p s bs uses in
    let (m', freed, r', same) = kfree-coalesce pre s post (subst (Represents m) shape r) in
    let h1 = subst (λ b. Claims b cs) shape h in
    let p1 : p ≡ payload pre = at in
    (
      m',
      coalesce (pre ++ (block s false ∷ post)),
      ap (λ q. kfree q m) p1 ∙ freed,
      r',
      Claims-keep (pre ++ (block s true ∷ post)) _ p cs (omega arith)
          (λ q t ne. freed_keeps heap_begin pre s post q t (λ e. ne (e ∙ sym p1))) apart h1,
      same,
    )

-- What kmalloc does to the claims.
abbrev pub Claimed : ℕ → Memory → List (ℕ × ℕ) → Type 0
Claimed size m cs =
    (p : ℕ) × (m' : Memory) × (bs : Blocks) × (kmalloc size m ≡ some (p, m'))
    × Represents m' bs
    × Claims bs ((p, size) ∷ cs)
    × (m'.bytes ≡ m.bytes)

pub Apart-null : (p : ℕ) (cs : List (ℕ × ℕ)) → p ≡ null → Apart p cs
Apart-null p [] h = tt
Apart-null p ((q, n) ∷ cs) h = (inl h, Apart-null p cs h)

module _ (bs bs' : Blocks) (p : ℕ) (set_ptr : p ≢ null)
    (adds : (q t : ℕ)
      → Uses q t (in_use heap_begin bs)
      → Uses q t (in_use heap_begin bs') × (q ≢ p)) where
  Claims-more : (cs : List (ℕ × ℕ)) → Claims bs cs → Apart p cs × Claims bs' cs
  Claims-more [] h = (tt, tt)
  Claims-more ((q, n) ∷ cs) (hold, other, h) =
      let (apart_cs, rest) = Claims-more cs h in
      elim hold [
        | inl nothing ↦
            ((inr (λ e. set_ptr (sym e ∙ nothing)), apart_cs), (inl nothing, other, rest))
        | inr (s, uses, room) ↦
            let (there, away) = adds q s uses in
            ((inr away, apart_cs), (inr (s, there, room), other, rest))
      ]

-- kmalloc of 1 to 2 ^ 32 - 16 bytes ends, answers NULL or a new block with room for them, leaves the heap in order with its
-- bytes unchanged, and every claim from before stands, on another block than the new one.
pub kmalloc-Claims :
    (size : ℕ) {m : Memory} (bs : Blocks) (cs : List (ℕ × ℕ))
    → 0 < size
    → size ≤ 2 ^ 32 - 16
    → Represents m bs
    → Claims bs cs
    → Claimed size m cs
kmalloc-Claims size {m} bs cs pos small r h =
    let (m', got, r', same) = kmalloc-fit size pos small r in
    elim (fit_cases (request size) heap_begin bs) [
      | inl (nothing, kept) ↦ (
        _,
        m',
        place (request size) bs,
        got,
        r',
        (inl nothing, Apart-null _ cs nothing, subst (λ b. Claims b cs) (sym kept) h),
        same,
      )
      | inr (pre, s, rest, f) ↦
          let bs' = pre ++ (block s true ∷ rest) in
          let r1 : Represents m' bs' = subst (Represents m') f.placed r' in
          let sp = Layout-Spaced m'.header heap_begin bs' heap_end r1.layout in
          let h1 = subst (λ b. Claims b cs) (sym (f.undone r.merged)) h in
          let (apart_cs, rest_h) =
            Claims-more (coalesce (pre ++ (block s false ∷ rest))) bs' _ (omega (arith, f.at))
              (λ q t uses.
                let (there, away) = taken_adds heap_begin pre s rest q t sp uses in
                (there, λ e. away (e ∙ f.at)))
              cs h1 in
          (
            _,
            m',
            bs',
            got,
            r1,
            (
              inr (
                s,
                subst (λ q. Uses q s (in_use heap_begin bs')) (sym f.at)
                    (Uses-payload heap_begin pre s rest),
                omega (arith, f.room),
              ),
              apart_cs,
              rest_h,
            ),
            same,
          )
    ]
