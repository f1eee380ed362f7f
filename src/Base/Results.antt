-- ===== src/Base/Results.antt =====
-- What holds of a result, if there is one.
use mathlib.Core.Path.{◌≡◌, refl}
use mathlib.Core.Bool.{Bool, true, false}
use kontol_os.Base.Tests.{if◌then◌else◌}
use mathlib.Core.Option.{Option, none, some}
use mathlib.Core.Option

module _ {A : Type 0} (P : A → Type 0) where
  abbrev pub Whenever : Option A → Type 0
  Whenever none = Unit
  Whenever (some a) = P a

module _ {A B : Type 0} (P : A → Type 0) (Q : B → Type 0) where
  pub Whenever-bind :
      (r : Option A) (f : A → Option B)
      → Whenever P r
      → ((a : A) → P a → Whenever Q (f a))
      → Whenever Q (Option.bind r f)
  unfolding Option.bind
  Whenever-bind none f h g = tt
  Whenever-bind (some a) f h g = g a h

  pub Whenever-map :
      (r : Option A) (f : A → B)
      → Whenever P r
      → ((a : A) → P a → Q (f a))
      → Whenever Q (Option.map f r)
  Whenever-map none f h g = tt
  Whenever-map (some a) f h g = g a h

module _ {A : Type 0} (P : A → Type 0) where
  pub Whenever-if :
      (b : Bool) (x y : Option A)
      → (b ≡ true → Whenever P x)
      → (b ≡ false → Whenever P y)
      → Whenever P (if b then x else y)
  Whenever-if true x y f g = f refl
  Whenever-if false x y f g = g refl

pub Whenever-any : {A : Type 0} (r : Option A) → Whenever (λ _. Unit) r
Whenever-any none = tt
Whenever-any (some a) = tt
