-- ===== src/Base/Map.antt =====
-- A `HashMap` as an association list. No code that is modelled depends on the order of entries.
use Prim.Native.Nat.{ℕ}
use mathlib.Core.Path.{◌≡◌, refl}
use mathlib.Core.Bool.{Bool}
use mathlib.Core.List.{List, [], ◌∷◌}
use mathlib.Core.Option.{Option, none, some}
use native.Mathlib.Omega.{arith}
use metamath_knife.Base.Tests.{◌==◌, if◌then◌else◌}

-- The key type comes with the test of its `Eq`.
module _ {ℓ κ} {K : Type ℓ} {V : Type κ} (eq : K → K → Bool) where
  unfoldable pub lookup : K → List (K × V) → Option V
  lookup k [] = none
  lookup k ((j, v) ∷ m) = if eq j k then some v else lookup k m

  unfoldable pub insert : K → V → List (K × V) → List (K × V)
  insert k v [] = (k, v) ∷ []
  insert k v ((j, w) ∷ m) = if eq j k then (k, v) ∷ m else (j, w) ∷ insert k v m

-- What an insertion under a number changes.
pub lookup-insert {κ} :
    {V : Type κ} (k j : ℕ) (v : V) (m : List (ℕ × V))
    → lookup (λ a b. a == b) j (insert (λ a b. a == b) k v m)
      ≡ (if k == j then some v else lookup (λ a b. a == b) j m)
unfolding lookup insert
lookup-insert k j v [] = refl
lookup-insert k j v ((i, w) ∷ m) = ground (arith, lookup-insert k j v m)
