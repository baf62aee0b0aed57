-- ===== src/Scopeck/Build/Symmetric.antt =====
-- src/scopeck.rs: the table of disjoint variables is symmetric.
use metamath_knife.Base.{
  ℕ, zero, suc, Bool, true, false, ◌||◌, ◌&&◌, none, some, List, [], ◌∷◌, get_elem?, set, ◌==◌,
  ==_iff, ◌≡◌, refl, sym, ap, subst, ◌∙◌, Bool-cases, inl, inr, arith,
}
use metamath_knife.BitSet.{Bitset, has_bit, set_bit}
use metamath_knife.BitSet.Laws.{has_bit-set_bit, replace_bit_lem}
use metamath_knife.Diag.{ok, or_panic, bound, >>=-eq-ok, or_panic-eq-ok}
use metamath_knife.Scopeck.Build.{InchoateFrame, add_dv, add_dvs, add_all_dvs}

-- Are two variables disjoint? This is how the verifier reads the table.
abbrev pub disjoint : List Bitset → ℕ → ℕ → Bool
disjoint rows i j = elim (get_elem? rows i) [ none ↦ false | some row ↦ has_bit row j ]

abbrev pub IsSymmetric : InchoateFrame → Type 0
IsSymmetric f = (i j : ℕ) → disjoint f.optional_dv i j ≡ disjoint f.optional_dv j i

disjoint-set :
    (rows : List Bitset) (i x k j : ℕ) {row : Bitset}
    → get_elem? rows i ≡ some row
    → disjoint (set rows i (set_bit row x)) k j ≡ ((k == i && j == x) || disjoint rows k j)
disjoint-set [] i x k j h = cc
disjoint-set (r ∷ rows) zero x zero j {row} h = has_bit-set_bit row x j ∙ ground (arith, h)
disjoint-set (r ∷ rows) zero x (suc k) j h = ground arith
disjoint-set (r ∷ rows) (suc i) x zero j h = ground arith
disjoint-set (r ∷ rows) (suc i) x (suc k) j h = ground (arith, disjoint-set rows i x k j h)

absorbed :
    (rows : List Bitset) (a b i j : ℕ)
    → disjoint rows a b ≡ true
    → ((i == a && j == b) || disjoint rows i j) ≡ disjoint rows i j
absorbed rows a b i j h = elim (Bool-cases (i == a)) [
  | inr other ↦ rw other refl
  | inl same ↦ elim (Bool-cases (j == b)) [
    | inr other ↦ rw (same, other) refl
    | inl same_too ↦
        let here : disjoint rows i j ≡ true =
          subst (λ x. disjoint rows x j ≡ true) (sym ((==_iff i a).0 same))
            (subst (λ y. disjoint rows a y ≡ true) (sym ((==_iff j b).0 same_too)) h) in
        rw (same, same_too, here) refl
  ]
]

-- The pairs that are disjoint once a pair has been added.
abbrev pub with_pair : List Bitset → ℕ → ℕ → ℕ → ℕ → Bool
with_pair rows left right i j =
    (i == left && j == right) || ((i == right && j == left) || disjoint rows i j)

-- Where the table is symmetric, adding a pair that returns makes the pair disjoint in both
-- directions and changes no other entry.
pub add_dv_lem :
    (f : InchoateFrame) (left right : ℕ) {f' : InchoateFrame}
    → IsSymmetric f
    → add_dv f left right ≡ ok f'
    → (i j : ℕ) → disjoint f'.optional_dv i j ≡ with_pair f.optional_dv left right i j
unfolding add_dv
add_dv_lem f left right {f'} s h i j =
    elim (>>=-eq-ok (or_panic (get_elem? f.optional_dv left)) _ h) [
      | bound row at_left h1 ↦
          let there = or_panic-eq-ok _ at_left in
          let one = disjoint-set f.optional_dv left right i j there in
          elim (Bool-cases (has_bit row right)) [
            | inl had ↦
                let same : set f.optional_dv left (set_bit row right) ≡ f'.optional_dv =
                  cc (rw (replace_bit_lem row right, had) at h1) in
                let known : disjoint f.optional_dv left right ≡ true = ground (arith, there, had) in
                subst (λ rows. disjoint rows i j ≡ with_pair f.optional_dv left right i j) same
                  (one
                    ∙ ap (λ b. (i == left && j == right) || b)
                        (sym (absorbed f.optional_dv right left i j (s right left ∙ known))))
            | inr new ↦
                elim (>>=-eq-ok
                  (or_panic (get_elem? (set f.optional_dv left (set_bit row right)) right)) _
                  (rw (replace_bit_lem row right, new) at h1)) [
                    | bound other at_right h2 ↦
                        let same : set (set f.optional_dv left (set_bit row right)) right
                              (set_bit other left)
                            ≡ f'.optional_dv =
                          cc (h2) in
                        let two =
                          disjoint-set (set f.optional_dv left (set_bit row right)) right left i j
                            (or_panic-eq-ok _ at_right) in
                        subst (λ rows. disjoint rows i j ≡ with_pair f.optional_dv left right i j)
                          same (ground (arith, one, two))
                  ]
          ]
    ]

add_dv-IsSymmetric :
    (f : InchoateFrame) (left right : ℕ) {f' : InchoateFrame}
    → IsSymmetric f
    → add_dv f left right ≡ ok f'
    → IsSymmetric f'
add_dv-IsSymmetric f left right s h i j =
    ground (arith, add_dv_lem f left right s h i j, add_dv_lem f left right s h j i, s i j)

add_dvs-IsSymmetric :
    (f : InchoateFrame) (left : ℕ) (rights : List ℕ) {f' : InchoateFrame}
    → IsSymmetric f
    → add_dvs f left rights ≡ ok f'
    → IsSymmetric f'
unfolding add_dvs
add_dvs-IsSymmetric f left [] {f'} s h = let same : f ≡ f' = cc in subst IsSymmetric same s
add_dvs-IsSymmetric f left (right ∷ rights) s h = elim (>>=-eq-ok (add_dv f left right) _ h) [
  | bound next adds h1 ↦
      add_dvs-IsSymmetric next left rights (add_dv-IsSymmetric f left right s adds) h1
]

-- Where the table is symmetric it stays so when all pairs of a `$d` are added.
pub add_all_dvs-IsSymmetric :
    (f : InchoateFrame) (vars : List ℕ) {f' : InchoateFrame}
    → IsSymmetric f
    → add_all_dvs f vars ≡ ok f'
    → IsSymmetric f'
unfolding add_all_dvs
add_all_dvs-IsSymmetric f [] {f'} s h = let same : f ≡ f' = cc in subst IsSymmetric same s
add_all_dvs-IsSymmetric f (left ∷ rights) s h = elim (>>=-eq-ok (add_dvs f left rights) _ h) [
  | bound next adds h1 ↦
      add_all_dvs-IsSymmetric next rights (add_dvs-IsSymmetric f left rights s adds) h1
]
