-- ===== src/Verify/Distinct.antt =====
-- src/verify.rs: the check of disjoint variables that ends the application of an assertion.
use metamath_knife.Base.{
  ℕ, true, false, none, some, List, [], ◌∷◌, get_elem?, All, ◌≡◌, sym, ◌∙◌, contains, ◌==◌, ==_iff,
  subst, Bool-cases, Option-cases, inl, inr, arith,
}
use metamath_knife.BitSet.{Bitset, has_bit, elements}
use metamath_knife.BitSet.Iter.{IsBitset, contains-elements}
use metamath_knife.Diag.{ok, try_assert, bound, >>=-eq-ok, or_panic-eq-ok, try_assert-eq-ok}
use metamath_knife.Scopeck.{Range, Frame}
use metamath_knife.Verify.{Oracle, index}
use metamath_knife.Verify.Execute.{Substitution, disjoint_from, all_disjoint, check_dv}
use metamath_knife.Verify.Substitute.{vars_of, IsAssigned}
use metamath_knife.Verify.Derivation.{Disjoint}

abbrev InRow : List Bitset → ℕ → ℕ → Type 0
InRow dv_map x y = (row : Bitset) × (get_elem? dv_map x ≡ some row) × (has_bit row y ≡ true)

row_of :
    (dv_map : List Bitset) (x y : ℕ)
    → (elim (get_elem? dv_map x) [ none ↦ false | some row ↦ has_bit row y ]) ≡ true
    → InRow dv_map x y
row_of dv_map x y h = elim (Option-cases (get_elem? dv_map x)) [
  | inl none_there ↦ absurd (ground (arith, h, none_there))
  | inr (row, there) ↦ (row, there, ground (arith, h, there))
]

disjoint_from_sound :
    (dv_map : List Bitset) (x : ℕ) (ys : List ℕ) (y : ℕ)
    → disjoint_from dv_map x ys ≡ ok tt
    → contains ys y ≡ true
    → InRow dv_map x y
unfolding disjoint_from
disjoint_from_sound dv_map x [] y h c = cc
disjoint_from_sound dv_map x (z ∷ ys) y h c =
    elim (>>=-eq-ok
      (try_assert (elim (get_elem? dv_map x) [ none ↦ false | some row ↦ has_bit row z ]) _) _ h) [
        | bound _ passes h1 ↦ elim (Bool-cases (y == z)) [
          | inl same ↦
              subst (λ w. InRow dv_map x w) (sym ((==_iff y z).0 same))
                (row_of dv_map x z (try_assert-eq-ok _ _ passes))
          | inr other ↦ disjoint_from_sound dv_map x ys y h1 (ground (arith, c, other))
        ]
      ]

all_disjoint_sound :
    (dv_map : List Bitset) (info : Substitution) (j : ℕ) (xs : List ℕ) (x y : ℕ)
    → all_disjoint dv_map info j xs ≡ ok tt
    → contains xs x ≡ true
    → ((entry : Range × Bitset)
        → get_elem? info j ≡ some entry
        → contains (elements entry.1) y ≡ true)
    → InRow dv_map x y
unfolding all_disjoint
all_disjoint_sound dv_map info j [] x y h c d = cc
all_disjoint_sound dv_map info j (z ∷ xs) x y h c d = elim (>>=-eq-ok (index info j) _ h) [
  | bound right hr h1 ↦ elim (>>=-eq-ok (disjoint_from dv_map z (elements right.1)) _ h1) [
    | bound u first h2 ↦ elim (Bool-cases (x == z)) [
      | inl same ↦
          subst (λ w. InRow dv_map w y) (sym ((==_iff x z).0 same))
            (disjoint_from_sound dv_map z (elements right.1) y first
              (d right (or_panic-eq-ok _ hr)))
      | inr other ↦ all_disjoint_sound dv_map info j xs x y h2 (ground (arith, c, other)) d
    ]
  ]
]

module _ (o : Oracle) (cur : Frame) where
  -- Each pair that the frame wants disjoint is disjoint under the substitution.
  pub check_dv_sound :
      (buf : List ℕ) (info : Substitution) (pairs : List (ℕ × ℕ))
      → All (λ pair. IsAssigned buf info pair.0 × IsAssigned buf info pair.1) pairs
      → check_dv cur.optional_dv info pairs ≡ ok tt
      → All (λ pair. Disjoint o cur (vars_of info pair.0) (vars_of info pair.1)) pairs
  unfolding check_dv vars_of
  check_dv_sound buf info [] a h = tt
  check_dv_sound buf info ((i, j) ∷ pairs) a h = elim (>>=-eq-ok (index info i) _ h) [
    | bound left hl h1 ↦
        elim (>>=-eq-ok (all_disjoint cur.optional_dv info j (elements left.1)) _ h1) [
          | bound u all h2 ↦ (
            λ x y p q.
                all_disjoint_sound cur.optional_dv info j (elements left.1) x y all
                  (member info i left x (or_panic-eq-ok _ hl) a.0.0 p)
                  (λ right there. member info j right y there a.0.1 q),
            check_dv_sound buf info pairs a.1 h2,
          )
        ]
  ]
    where
      member :
          (info : Substitution) (i : ℕ) (entry : Range × Bitset) (x : ℕ)
          → get_elem? info i ≡ some entry
          → IsAssigned buf info i
          → has_bit (vars_of info i) x ≡ true
          → contains (elements entry.1) x ≡ true
      member info i entry x e a p =
          let same : entry.1 ≡ a.vars = ground (arith, e, a.entry) in
          let words : IsBitset entry.1 = rw same a.words in
          contains-elements entry.1 x words ∙ ground (arith, e, p)
