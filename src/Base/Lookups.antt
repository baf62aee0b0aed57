-- ===== src/Base/Lookups.antt =====
-- Where an entry of a list is found, after the list has grown or an entry was set.
use mathlib.Core.Path.{◌≡◌, refl}
use mathlib.Core.List.{List, [], ◌∷◌, ◌++◌}
use mathlib.Core.Option.{some}
use Prim.Native.Nat.{ℕ, zero, suc, ◌<◌}
use native.Mathlib.Omega.{arith}
use metamath_knife.Base.Lists.{length, get_elem?, replicate}

-- An index in a list has an entry.
pub data Found {ℓ} {A : Type ℓ} (xs : List A) (i : ℕ) : Type ℓ where
  found : (x : A) → get_elem? xs i ≡ some x → Found xs i

-- A list has no entry at two places.
abbrev pub IsDistinct {ℓ} : {A : Type ℓ} → List A → Type ℓ
IsDistinct {A} xs = (i j : ℕ) (x : A) → get_elem? xs i ≡ some x → get_elem? xs j ≡ some x → i ≡ j

module _ {ℓ} {A : Type ℓ} where
  pub get_elem?-Found : (xs : List A) (i : ℕ) → i < length xs → Found xs i
  get_elem?-Found [] i h = absurd (omega (arith, h))
  get_elem?-Found (x ∷ xs) zero h = found x refl
  get_elem?-Found (x ∷ xs) (suc i) h = elim (get_elem?-Found xs i (omega (arith, h))) [
    | found y e ↦ found y e
  ]

  pub get_elem?-inside : (xs : List A) (i : ℕ) {x : A} → get_elem? xs i ≡ some x → i < length xs
  get_elem?-inside [] i e = cc (e)
  get_elem?-inside (y ∷ ys) zero e = omega arith
  get_elem?-inside (y ∷ ys) (suc i) e = omega (arith, get_elem?-inside ys i e)

  pub get_elem?-append_left :
      (xs ys : List A) (i : ℕ) {x : A} → get_elem? xs i ≡ some x → get_elem? (xs ++ ys) i ≡ some x
  get_elem?-append_left [] ys i e = cc (e)
  get_elem?-append_left (z ∷ xs) ys zero e = e
  get_elem?-append_left (z ∷ xs) ys (suc i) e = get_elem?-append_left xs ys i e

  pub get_elem?-append_end : (xs : List A) (x : A) → get_elem? (xs ++ x ∷ []) (length xs) ≡ some x
  get_elem?-append_end [] x = refl
  get_elem?-append_end (y ∷ xs) x = get_elem?-append_end xs x

  -- What is found in a list that has one more entry at its end.
  pub data FoundIn (xs : List A) (x : A) (i : ℕ) (y : A) : Type ℓ where
    before : get_elem? xs i ≡ some y → FoundIn xs x i y
    at_end : i ≡ length xs → x ≡ y → FoundIn xs x i y

  pub get_elem?-FoundIn :
      (xs : List A) (x : A) (i : ℕ) {y : A} → get_elem? (xs ++ x ∷ []) i ≡ some y → FoundIn xs x i y
  get_elem?-FoundIn [] x zero e = at_end refl (cc (e))
  get_elem?-FoundIn [] x (suc i) e = cc (e)
  get_elem?-FoundIn (z ∷ xs) x zero e = before e
  get_elem?-FoundIn (z ∷ xs) x (suc i) e = elim (get_elem?-FoundIn xs x i e) [
    | before f ↦ before f
    | at_end f g ↦ at_end (omega (arith, f)) g
  ]

  pub get_elem?-replicate : (n i : ℕ) (a : A) {x : A} → get_elem? (replicate n a) i ≡ some x → x ≡ a
  get_elem?-replicate zero i a e = cc (e)
  get_elem?-replicate (suc n) zero a e = cc (e)
  get_elem?-replicate (suc n) (suc i) a e = get_elem?-replicate n i a e
