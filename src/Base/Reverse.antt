-- ===== src/Base/Reverse.antt =====
-- A sequence around a place: what stands before it, nearest first, and what stands from it on.
use Prim.Native.Nat.{ℕ, suc, ◌+◌}
use mathlib.Core.Path.{◌≡◌, refl, ap, ◌∙◌}
use mathlib.Core.List.{List, [], ◌∷◌, ◌++◌}
use native.Mathlib.Omega.{arith}
use kontol_os.Base.Lists.{length, get_or, set, drop}

module _ {ℓ} {A : Type ℓ} where
  -- `before`, nearest first, and then `rest`.
  abbrev pub rev_onto : List A → List A → List A
  rev_onto [] rest = rest
  rev_onto (x ∷ before) rest = rev_onto before (x ∷ rest)

  pub length-rev_onto :
      (before rest : List A) → length (rev_onto before rest) ≡ length before + length rest
  length-rev_onto [] rest = omega arith
  length-rev_onto (x ∷ before) rest = omega (arith, length-rev_onto before (x ∷ rest))

  pub rev_onto-rev_onto :
      (a b rest : List A) → rev_onto (rev_onto a b) rest ≡ rev_onto b (a ++ rest)
  rev_onto-rev_onto [] b rest = refl
  rev_onto-rev_onto (x ∷ a) b rest = rev_onto-rev_onto a (x ∷ b) rest

  pub rev_onto-append : (a rest more : List A) → rev_onto a (rest ++ more) ≡ rev_onto a rest ++ more
  rev_onto-append [] rest more = refl
  rev_onto-append (x ∷ a) rest more = rev_onto-append a (x ∷ rest) more

  pub split-rev_onto : (a rest : List A) → rev_onto a rest ≡ rev_onto a [] ++ rest
  split-rev_onto a rest = rev_onto-append a [] rest

  pub get_or-rev_onto :
      (before rest : List A) (i : ℕ) (d : A)
      → get_or (rev_onto before rest) (length before + i) d ≡ get_or rest i d
  get_or-rev_onto [] rest i d = ap (λ n. get_or rest n d) (omega arith)
  get_or-rev_onto (x ∷ before) rest i d =
      ap (λ n. get_or (rev_onto before (x ∷ rest)) n d) (omega arith)
      ∙ get_or-rev_onto before (x ∷ rest) (suc i) d

  pub set-rev_onto :
      (before rest : List A) (i : ℕ) (v : A)
      → set (rev_onto before rest) (length before + i) v ≡ rev_onto before (set rest i v)
  set-rev_onto [] rest i v = ap (λ n. set rest n v) (omega arith)
  set-rev_onto (x ∷ before) rest i v =
      ap (λ n. set (rev_onto before (x ∷ rest)) n v) (omega arith)
      ∙ set-rev_onto before (x ∷ rest) (suc i) v

  pub drop-rev_onto :
      (before rest : List A) (i : ℕ) → drop (length before + i) (rev_onto before rest) ≡ drop i rest
  drop-rev_onto [] rest i = ap (λ n. drop n rest) (omega arith)
  drop-rev_onto (x ∷ before) rest i =
      ap (λ n. drop n (rev_onto before (x ∷ rest))) (omega arith)
      ∙ drop-rev_onto before (x ∷ rest) (suc i)
