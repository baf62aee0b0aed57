-- ===== src/Base/Slices.antt =====
-- Slices of a buffer that grows at its end, and facts that hold of every entry of a list.
use mathlib.Core.Path.{◌≡◌, refl, ap, subst, ◌∙◌}
use mathlib.Core.List.{List, [], ◌∷◌, ◌++◌}
use mathlib.Core.Logic.{◌≢◌}
use mathlib.Core.Option
use mathlib.Core.Option.{Option, none, some}
use Prim.Native.Nat.{ℕ, zero, suc, ◌+◌, ◌-◌, ◌≤◌}
use native.Mathlib.Omega.{arith}
use metamath_knife.Base.Lists.{length, take, drop, get_elem?, slice, mark_last, length-append}

take-append_left : (n : ℕ) (xs zs : List ℕ) → n ≤ length xs → take n (xs ++ zs) ≡ take n xs
take-append_left zero xs zs h = refl
take-append_left (suc n) [] zs h = absurd (omega arith)
take-append_left (suc n) (x ∷ xs) zs h = ap (λ ys. x ∷ ys) (take-append_left n xs zs (omega arith))

take-drop-append :
    (s n : ℕ) (xs zs : List ℕ) → s + n ≤ length xs → take n (drop s (xs ++ zs)) ≡ take n (drop s xs)
take-drop-append zero n xs zs h = take-append_left n xs zs (omega arith)
take-drop-append (suc s) n [] zs h = absurd (omega arith)
take-drop-append (suc s) n (x ∷ xs) zs h = take-drop-append s n xs zs (omega arith)

-- What stands in a buffer is not changed by what is put behind it.
pub slice-append :
    (xs zs : List ℕ) (start end : ℕ) (ys : List ℕ)
    → slice xs start end ≡ some ys
    → slice (xs ++ zs) start end ≡ some ys
unfolding slice
slice-append xs zs start end ys h =
    ground (arith, length-append xs zs, take-drop-append start (end - start) xs zs)

take_all : (ys : List ℕ) (n : ℕ) → n ≡ length ys → take n ys ≡ ys
take_all [] zero h = refl
take_all [] (suc n) h = refl
take_all (y ∷ ys) zero h = absurd (omega arith)
take_all (y ∷ ys) (suc n) h = ap (λ zs. y ∷ zs) (take_all ys n (omega arith))

drop-append_length : (xs ys : List ℕ) → drop (length xs) (xs ++ ys) ≡ ys
drop-append_length [] ys = refl
drop-append_length (x ∷ xs) ys = drop-append_length xs ys

-- What was put at the end of a buffer is the slice from the old end to the new one.
pub slice-append_end : (xs ys : List ℕ) → slice (xs ++ ys) (length xs) (length (xs ++ ys)) ≡ some ys
unfolding slice
slice-append_end xs ys =
    rw drop-append_length
      (ground (arith, length-append xs ys, take_all ys (length (xs ++ ys) - length xs)))

map-eq-some :
    (f : List ℕ → List ℕ) (o : Option (List ℕ)) {zs : List ℕ}
    → Option.map f o ≡ some zs
    → (ys : List ℕ) × (o ≡ some ys) × (zs ≡ f ys)
map-eq-some f none h = cc
map-eq-some f (some ys) h = (ys, refl, cc)

pub mark_last-append :
    (xs ys zs : List ℕ)
    → ys ≢ []
    → mark_last (xs ++ ys) ≡ some zs
    → (marked : List ℕ) × (mark_last ys ≡ some marked) × (zs ≡ xs ++ marked)
unfolding mark_last
mark_last-append [] ys zs ne h = (zs, h, refl)
mark_last-append (x ∷ []) [] zs ne h = absurd (ne refl)
mark_last-append (x ∷ []) (y ∷ ys) zs ne h = ground arith
mark_last-append (x ∷ x' ∷ xs) ys zs ne h =
    let (inner, found, whole) = map-eq-some (λ ws. x ∷ ws) (mark_last (x' ∷ (xs ++ ys))) h in
    let (marked, last, parts) = mark_last-append (x' ∷ xs) ys inner ne found in
    (marked, last, whole ∙ ap (λ ws. x ∷ ws) parts)

module _ {ℓ κ} {A : Type ℓ} where
  -- Every entry satisfies `P`.
  abbrev pub All : (A → Type κ) → List A → Type κ
  All P [] = Unit
  All P (x ∷ xs) = P x × All P xs

  pub All-get_elem? :
      (P : A → Type κ) (xs : List A) (i : ℕ) {x : A} → All P xs → get_elem? xs i ≡ some x → P x
  All-get_elem? P [] i h e = cc
  All-get_elem? P (y ∷ xs) zero {x} h e = let same : y ≡ x = cc in subst P same h.0
  All-get_elem? P (y ∷ xs) (suc i) h e = All-get_elem? P xs i h.1 e

  pub All-append : (P : A → Type κ) (xs ys : List A) → All P xs → All P ys → All P (xs ++ ys)
  All-append P [] ys h k = k
  All-append P (x ∷ xs) ys h k = (h.0, All-append P xs ys h.1 k)

  pub All-take : (P : A → Type κ) (n : ℕ) (xs : List A) → All P xs → All P (take n xs)
  All-take P zero xs h = tt
  All-take P (suc n) [] h = tt
  All-take P (suc n) (x ∷ xs) h = (h.0, All-take P n xs h.1)

  pub All-imp : (P Q : A → Type κ) → ((x : A) → P x → Q x) → (xs : List A) → All P xs → All Q xs
  All-imp P Q f [] h = tt
  All-imp P Q f (x ∷ xs) h = (f x h.0, All-imp P Q f xs h.1)
