-- ===== src/Base/Checks.antt =====
-- Statements on all numbers below a bound, decided by a run.
use Prim.Native.Nat.{ℕ, zero, suc, ◌<◌}
use mathlib.Core.Path.{◌≡◌, refl, sym, ap, ◌∙◌}
use mathlib.Core.Logic.{inl, inr}
use mathlib.Core.Bool.{Bool, true, false, not, ◌&&◌}
use native.Mathlib.Omega.{arith}
use native.Mathlib.Decide.{dec_lt}
use kontol_os.Base.Tests.{Bool-cases}

-- A test of every number below `n`.
abbrev pub all_below : ℕ → (ℕ → Bool) → Bool
all_below zero p = true
all_below (suc n) p = p n && all_below n p

pub all_below_lem : (n : ℕ) (p : ℕ → Bool) → all_below n p ≡ true → (i : ℕ) → i < n → p i ≡ true
all_below_lem zero p h i below = absurd (omega arith)
all_below_lem (suc n) p h i below = elim (Bool-cases (p n)) [
  | inr no_n ↦ absurd (ground arith)
  | inl yes_n ↦ elim (dec_lt i n) [
    | yes less ↦ all_below_lem n p (rw yes_n at h) i less
    | no last ↦ ap p {x = i} {y = n} (omega arith) ∙ yes_n
  ]
]

-- Two truth values that agree.
abbrev pub same_bool : Bool → Bool → Bool
same_bool true b = b
same_bool false b = not b

pub same_bool_lem : (a b : Bool) → same_bool a b ≡ true → a ≡ b
same_bool_lem true true h = refl
same_bool_lem true false h = sym h
same_bool_lem false true h = h
same_bool_lem false false h = refl
