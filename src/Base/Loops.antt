-- ===== src/Base/Loops.antt =====
-- A store of cells at addresses, and counted loops that write one.
use Prim.Native.Nat.{ℕ, zero, suc, ◌+◌}
use kontol_os.Base.Tests.{◌==◌, if◌then◌else◌}

module _ {ℓ} {A : Type ℓ} where
  -- The store `m` with `v` at `p`.
  abbrev pub update : (ℕ → A) → ℕ → A → ℕ → A
  update m p v a = if a == p then v else m a

-- `for (i = lo; i < lo + n; i++) body`.
unfoldable pub for_range {ℓ} : {S : Type ℓ} → ℕ → ℕ → (ℕ → S → S) → S → S
for_range lo zero body s = s
for_range lo (suc n) body s = for_range (lo + 1) n body (body lo s)
