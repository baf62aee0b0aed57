-- ===== src/Verify/Numbering.antt =====
-- src/verify.rs: `var2bit`, the numbers that the variables have while a proof is verified.
use metamath_knife.Base.{
  ℕ, zero, suc, ◌+◌, ◌<◌, none, some, List, [], ◌∷◌, ◌++◌, append_assoc, append-nil, IsDistinct,
  length, length-append, get_elem?, get_elem?-inside, get_elem?-append_left, get_elem?-append_end,
  get_elem?-FoundIn, before, at_end, ◌≡◌, refl, sym, ap, subst, ◌∙◌, ◌==◌, ==_iff, Bool-cases,
  Option-cases, inl, inr, ◌⊎◌, arith,
}
use metamath_knife.Base.Map
use metamath_knife.BitSet.{Bitset, set_bit}
use metamath_knife.Scopeck.{Frame}
use metamath_knife.Verify.{Oracle, nat_eq}
use metamath_knife.Verify.Prepare.{map_var, map_vars}
use metamath_knife.Verify.Run.{number_vars}

-- Numbers once given are kept.
abbrev pub Grows : List (ℕ × ℕ) → List (ℕ × ℕ) → Type 0
Grows m m' = (a n : ℕ) → Map.lookup nat_eq a m ≡ some n → Map.lookup nat_eq a m' ≡ some n

-- The variables of the frame have their places for numbers, and no two variables have one number.
pub record IsNumbering (var_list : List ℕ) (m : List (ℕ × ℕ)) : Type 0 where
  pub own : (i a : ℕ) → get_elem? var_list i ≡ some a → Map.lookup nat_eq a m ≡ some i
  pub bounded : (a n : ℕ) → Map.lookup nat_eq a m ≡ some n → n < length m
  pub injective :
      (a b n : ℕ) → Map.lookup nat_eq a m ≡ some n → Map.lookup nat_eq b m ≡ some n → a ≡ b

pub map_var-old :
    (m : List (ℕ × ℕ)) (a n : ℕ) → Map.lookup nat_eq a m ≡ some n → map_var m a ≡ (m, n)
unfolding map_var
map_var-old m a n e = ground (arith, e)

pub map_var-new :
    (m : List (ℕ × ℕ)) (a : ℕ)
    → Map.lookup nat_eq a m ≡ none
    → map_var m a ≡ (Map.insert nat_eq a (length m) m, length m)
unfolding map_var
map_var-new m a e = ground (arith, e)

pub insert-Grows :
    (m : List (ℕ × ℕ)) (a k : ℕ) → Map.lookup nat_eq a m ≡ none → Grows m (Map.insert nat_eq a k m)
insert-Grows m a k new b n e = elim (Bool-cases (a == b)) [
  | inl same ↦ cc (ap (λ c. Map.lookup nat_eq c m) ((==_iff a b).0 same), new, e)
  | inr other ↦ Map.lookup-insert a b k m ∙ rw other e
]

insert-here : (m : List (ℕ × ℕ)) (a k : ℕ) → Map.lookup nat_eq a (Map.insert nat_eq a k m) ≡ some k
insert-here m a k = Map.lookup-insert a a k m ∙ ground arith

-- What is found once a variable was given a number.
lookup-inserted :
    (m : List (ℕ × ℕ)) (a k b : ℕ) {n : ℕ}
    → Map.lookup nat_eq b (Map.insert nat_eq a k m) ≡ some n
    → (Map.lookup nat_eq b m ≡ some n) ⊎ ((a ≡ b) × (k ≡ n))
lookup-inserted m a k b e = elim (Bool-cases (a == b)) [
  | inl same ↦ inr ((==_iff a b).0 same, ground (arith, e, same, Map.lookup-insert a b k m))
  | inr other ↦ inl (ground (arith, e, other, Map.lookup-insert a b k m))
]

length-insert :
    (m : List (ℕ × ℕ)) (a k : ℕ)
    → Map.lookup nat_eq a m ≡ none
    → length (Map.insert nat_eq a k m) ≡ length m + 1
unfolding Map.lookup Map.insert
length-insert [] a k h = refl
length-insert ((j, w) ∷ m) a k h = elim (Bool-cases (j == a)) [
  | inl same ↦ absurd (ground (arith, h, same))
  | inr other ↦
      let absent : Map.lookup nat_eq a m ≡ none = rw other at h in
      rw other (omega (arith, length-insert m a k absent))
]

-- A variable that has no number gets the next one.
IsNumbering-next :
    (vs : List ℕ) (m : List (ℕ × ℕ)) (a : ℕ)
    → Map.lookup nat_eq a m ≡ none
    → IsNumbering vs m
    → IsNumbering vs (Map.insert nat_eq a (length m) m)
IsNumbering-next vs m a new s = record {
  own = λ i b e. insert-Grows m a (length m) new b i (s.own i b e);
  bounded = λ b n e. elim (lookup-inserted m a (length m) b e) [
    | inl old ↦ omega (arith, s.bounded b n old, length-insert m a (length m) new)
    | inr (_, same) ↦ omega (arith, same, length-insert m a (length m) new)
  ];
  injective = λ b c n e f. elim (lookup-inserted m a (length m) b e) [
    | inl old ↦ elim (lookup-inserted m a (length m) c f) [
      | inl old2 ↦ s.injective b c n old old2
      | inr (_, next) ↦ absurd (omega (arith, s.bounded b n old, next))
    ]
    | inr (same, next) ↦ elim (lookup-inserted m a (length m) c f) [
      | inl old2 ↦ absurd (omega (arith, s.bounded c n old2, next))
      | inr (same2, _) ↦ sym same ∙ same2
    ]
  ];
}

map_var-IsNumbering :
    (vs : List ℕ) (m : List (ℕ × ℕ)) (a : ℕ) → IsNumbering vs m → IsNumbering vs (map_var m a).0
map_var-IsNumbering vs m a s = elim (Option-cases (Map.lookup nat_eq a m)) [
  | inl new ↦ rw (map_var-new m a new) (IsNumbering-next vs m a new s)
  | inr (n, old) ↦ rw (map_var-old m a n old) s
]

pub map_vars-IsNumbering :
    (vs : List ℕ) (m : List (ℕ × ℕ)) (out : Bitset) (atoms : List ℕ)
    → IsNumbering vs m
    → IsNumbering vs (map_vars m out atoms).0
unfolding map_vars
map_vars-IsNumbering vs m out [] s = s
map_vars-IsNumbering vs m out (a ∷ as') s =
    map_vars-IsNumbering vs (map_var m a).0 (set_bit out (map_var m a).1) as'
      (map_var-IsNumbering vs m a s)

-- The numbers given are the places in the list.
record IsPlaced (done : List ℕ) (m : List (ℕ × ℕ)) : Type 0 where
  own : (i a : ℕ) → get_elem? done i ≡ some a → Map.lookup nat_eq a m ≡ some i
  back : (a n : ℕ) → Map.lookup nat_eq a m ≡ some n → get_elem? done n ≡ some a
  count : length m ≡ length done

IsPlaced-next :
    (done : List ℕ) (m : List (ℕ × ℕ)) (a : ℕ)
    → Map.lookup nat_eq a m ≡ none
    → IsPlaced done m
    → IsPlaced (done ++ a ∷ []) (Map.insert nat_eq a (length done) m)
IsPlaced-next done m a new s = record {
  own = λ i b e. elim (get_elem?-FoundIn done a i e) [
    | before old ↦ insert-Grows m a (length done) new b i (s.own i b old)
    | at_end last same ↦
        subst (λ c. Map.lookup nat_eq c (Map.insert nat_eq a (length done) m) ≡ some i) same
          (insert-here m a (length done) ∙ ap some (sym last))
  ];
  back = λ b n e. elim (lookup-inserted m a (length done) b e) [
    | inl old ↦ get_elem?-append_left done (a ∷ []) n (s.back b n old)
    | inr (same, place) ↦
        subst (λ i. get_elem? (done ++ a ∷ []) i ≡ some b) place
          (get_elem?-append_end done a ∙ ap some same)
  ];
  count = omega (arith, s.count, length-insert m a (length done) new, length-append done (a ∷ []));
}

IsPlaced-IsNumbering : (vs : List ℕ) (m : List (ℕ × ℕ)) → IsPlaced vs m → IsNumbering vs m
IsPlaced-IsNumbering vs m s = record {
  own = s.own;
  bounded = λ a n e. omega (arith, s.count, get_elem?-inside vs n (s.back a n e));
  injective = λ a b n e f. cc (s.back a n e, s.back b n f);
}

module _ (o : Oracle) (cur : Frame) where
  number_vars-IsPlaced :
      (done vs : List ℕ) (m : List (ℕ × ℕ)) (ix : ℕ)
      → ix ≡ length done
      → IsDistinct (done ++ vs)
      → IsPlaced done m
      → IsPlaced (done ++ vs) (number_vars o cur m ix vs)
  unfolding number_vars
  number_vars-IsPlaced done [] m ix at d s = rw append-nil s
  number_vars-IsPlaced done (a ∷ vs) m ix at d s = elim (Option-cases (Map.lookup nat_eq a m)) [
    | inr (n, old) ↦
        let earlier = s.back a n old in
        let twice =
          d n (length done) a (get_elem?-append_left done (a ∷ vs) n earlier) (here done a vs) in
        absurd (omega (arith, twice, get_elem?-inside done n earlier))
    | inl new ↦
        let whole = append_assoc done (a ∷ []) vs in
        let next : IsPlaced (done ++ a ∷ []) (Map.insert nat_eq a ix m) =
          subst (λ i. IsPlaced (done ++ a ∷ []) (Map.insert nat_eq a i m)) (sym at)
            (IsPlaced-next done m a new s) in
        subst (λ l. IsPlaced l (number_vars o cur (Map.insert nat_eq a ix m) (ix + 1) vs)) whole
          (number_vars-IsPlaced (done ++ a ∷ []) vs (Map.insert nat_eq a ix m) (ix + 1)
            (omega (arith, at, length-append done (a ∷ []))) (subst IsDistinct (sym whole) d) next)
  ]
    where
      here : (xs : List ℕ) (x : ℕ) (ys : List ℕ) → get_elem? (xs ++ x ∷ ys) (length xs) ≡ some x
      here [] x ys = refl
      here (y ∷ xs) x ys = here xs x ys

  -- The loop over the variables of the frame, where they are distinct.
  pub number_vars-IsNumbering :
      IsDistinct cur.var_list → IsNumbering cur.var_list (number_vars o cur [] 0 cur.var_list)
  number_vars-IsNumbering d = IsPlaced-IsNumbering cur.var_list _ (
      number_vars-IsPlaced [] cur.var_list [] 0 refl d (record {
        own = λ i a e. cc (nothing i, e);
        back = λ a n e. unfold Map.lookup in cc (e);
        count = refl;
      }))
    where
      nothing : (i : ℕ) → get_elem? {A = ℕ} [] i ≡ none
      nothing zero = refl
      nothing (suc i) = refl
