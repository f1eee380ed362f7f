-- ===== src/Memory/Slots.antt =====
-- The claims of a table of pointers: the one of a slot is taken out, cleared or replaced.
use kontol_os.Base.{
  ℕ, zero, suc, ◌≡◌, ◌≢◌, refl, sym, ◌∙◌, ◌⊎◌, inl, inr, List, [], ◌∷◌, arith, get_or, set,
}
use kontol_os.Memory.{null}
use kontol_os.Memory.Block.{Blocks}
use kontol_os.Memory.Claims.{Apart, Claims, Apart-null}

-- NULL, or not.
pub null_cases : (p : ℕ) → (p ≡ null) ⊎ (p ≢ null)
null_cases zero = inl refl
null_cases (suc p) = inr (omega arith)

pub Apart-slot :
    (p i : ℕ) (cs : List (ℕ × ℕ))
    → Apart p cs
    → (p ≡ null) ⊎ ((get_or cs i (null, 0)).0 ≡ null) ⊎ ((get_or cs i (null, 0)).0 ≢ p)
Apart-slot p i [] h = inr (inl refl)
Apart-slot p zero ((q, n) ∷ cs) (inl nothing, h) = inl nothing
Apart-slot p zero ((q, n) ∷ cs) (inr away, h) = inr (inr away)
Apart-slot p (suc i) ((q, n) ∷ cs) (a, h) = Apart-slot p i cs h

-- What is apart from `p` still is when a slot takes another pointer that is.
Apart-set :
    (p i q n : ℕ) (cs : List (ℕ × ℕ))
    → (p ≡ null) ⊎ (q ≢ p)
    → Apart p cs
    → Apart p (set cs i (q, n))
Apart-set p i q n [] new h = tt
Apart-set p zero q n (c ∷ cs) new (a, h) = (new, h)
Apart-set p (suc i) q n (c ∷ cs) new (a, h) = (a, Apart-set p i q n cs new h)

null_apart : (p : ℕ) → (p ≡ null) ⊎ (null ≢ p)
null_apart p = elim (null_cases p) [ inl e ↦ inl e | inr ne ↦ inr (λ e. ne (sym e)) ]

pub swap_apart : (p q : ℕ) → (p ≡ null) ⊎ (q ≡ null) ⊎ (q ≢ p) → (q ≡ null) ⊎ (p ≢ q)
swap_apart p q h = elim (null_cases q) [
  | inl e ↦ inl e
  | inr ne ↦ elim h [
    | inl zero_p ↦ inr (λ e. ne (sym e ∙ zero_p))
    | inr (inl zero_q) ↦ inl zero_q
    | inr (inr away) ↦ inr (λ e. away (sym e))
  ]
]

-- The claim of a slot, in front of the others with that slot cleared.
pub Claims-pull :
    (bs : Blocks) (i k : ℕ) (cs : List (ℕ × ℕ))
    → Claims bs cs
    → Claims bs (get_or cs i (null, 0) ∷ set cs i (null, k))
Claims-pull bs i k [] h = (inl refl, tt, tt)
Claims-pull bs zero k ((p, n) ∷ cs) (hold, other, h) =
    (hold, (null_apart p, other), (inl refl, Apart-null null cs refl, h))
Claims-pull bs (suc i) k ((p, n) ∷ cs) (hold, other, h) =
    let (hold_i, other_i, rest) = Claims-pull bs i k cs h in
    let q = (get_or cs i (null, 0)).0 in
    (
      hold_i,
      (swap_apart p q (Apart-slot p i cs other), other_i),
      (hold, Apart-set p i null k cs (null_apart p) other, rest),
    )

-- A claim goes into a slot whose own claim is dropped.
pub Claims-put :
    (bs : Blocks) (i p n : ℕ) (cs : List (ℕ × ℕ))
    → Claims bs ((p, n) ∷ cs)
    → Claims bs (set cs i (p, n))
Claims-put bs i p n [] h = tt
Claims-put bs zero p n (c ∷ cs) (hold, (a, other), (hold_c, other_c, h)) = (hold, other, h)
Claims-put bs (suc i) p n ((q, k) ∷ cs) (hold, (a, other), (hold_q, other_q, h)) = (
  hold_q,
  Apart-set q i p n cs (swap_apart p q (elim a [ inl e ↦ inl e | inr ne ↦ inr (inr ne) ])) other_q,
  Claims-put bs i p n cs (hold, other, h),
)

pub Claims-null :
    (bs : Blocks) (n : ℕ) (cs : List (ℕ × ℕ)) → Claims bs cs → Claims bs ((null, n) ∷ cs)
Claims-null bs n cs h = (inl refl, Apart-null null cs refl, h)
