-- ===== src/Scopeck/Build/Indices.antt =====
-- src/scopeck.rs: the indices of variables while a frame is built.
use metamath_knife.Base.{
  ℕ, ◌+◌, none, some, List, [], ◌∷◌, ◌++◌, length, length-append, get_elem?, ◌==◌, ==_iff, true,
  IsDistinct, get_elem?-append_left, get_elem?-append_end, get_elem?-FoundIn, before, at_end,
  mark_last, append_assoc, append-nil, ◌≡◌, refl, sym, ap, subst, ◌∙◌, Bool-cases, Option-cases,
  inl, inr, arith,
}
use metamath_knife.Base.Map
use metamath_knife.BitSet
use metamath_knife.Diag.{ok, or_panic, bound, >>=-eq-ok}
use metamath_knife.Scopeck.{ExprFragment, VerifyExpr}
use metamath_knife.Scopeck.Build.{
  LocalFloatInfo, CheckedToken, const_, var_, InchoateFrame, atom_eq, variable_index, scan_tokens,
  scan_expression,
}

-- The map and the list of variables agree in both directions, and every variable has a row of disjoint variables.
pub record IsNumbered (f : InchoateFrame) : Type 0 where
  pub entries : length f.variables ≡ length f.var_list
  pub rows : length f.optional_dv ≡ length f.var_list
  pub names :
      (a : ℕ) (known : ℕ × LocalFloatInfo)
      → Map.lookup atom_eq a f.variables ≡ some known
      → get_elem? f.var_list known.0 ≡ some a
  pub places :
      (i a : ℕ)
      → get_elem? f.var_list i ≡ some a
      → (lfi : LocalFloatInfo) × (Map.lookup atom_eq a f.variables ≡ some (i, lfi))

-- Then no variable stands in the list twice, which the verifier relies on.
IsNumbered-IsDistinct : (f : InchoateFrame) → IsNumbered f → IsDistinct f.var_list
IsNumbered-IsDistinct f n i j a e k =
    let (lfi, first) = n.places i a e in
    let (lfi2, second) = n.places j a k in
    let at_i : ℕ × LocalFloatInfo = (i, lfi) in
    let at_j : ℕ × LocalFloatInfo = (j, lfi2) in
    let same : some at_i ≡ some at_j = sym first ∙ second in cc (same)

length-insert :
    {V : Type 0} (k : ℕ) (v : V) (m : List (ℕ × V))
    → Map.lookup atom_eq k m ≡ none
    → length (Map.insert atom_eq k v m) ≡ length m + 1
unfolding Map.lookup Map.insert
length-insert k v [] h = refl
length-insert k v ((j, w) ∷ m) h = elim (Bool-cases (j == k)) [
  | inl same ↦ absurd (ground (arith, h, same))
  | inr other ↦
      let absent : Map.lookup atom_eq k m ≡ none = rw other at h in
      rw other (omega (arith, length-insert k v m absent))
]

variable_index-old :
    (f : InchoateFrame) (a : ℕ) (lfi : LocalFloatInfo) (known : ℕ × LocalFloatInfo)
    → Map.lookup atom_eq a f.variables ≡ some known
    → variable_index f a lfi ≡ (f, known.0)
unfolding variable_index
variable_index-old f a lfi known e = ground (arith, e)

-- The frame with one more variable.
abbrev extended : InchoateFrame → ℕ → LocalFloatInfo → InchoateFrame
extended f a lfi = record f {
  var_list = f.var_list ++ a ∷ [];
  optional_dv = f.optional_dv ++ BitSet.new ∷ [];
  variables = Map.insert atom_eq a (length f.variables, lfi) f.variables;
}

variable_index-new :
    (f : InchoateFrame) (a : ℕ) (lfi : LocalFloatInfo)
    → Map.lookup atom_eq a f.variables ≡ none
    → variable_index f a lfi ≡ (extended f a lfi, length f.variables)
unfolding variable_index
variable_index-new f a lfi e = ground (arith, e)

-- What giving an index to a variable comes to.
pub record IsIndexOf (f : InchoateFrame) (a : ℕ) (result : InchoateFrame × ℕ) : Type 0 where
  pub numbered : IsNumbered result.0
  pub named : get_elem? result.0.var_list result.1 ≡ some a
  pub kept : (i b : ℕ) → get_elem? f.var_list i ≡ some b → get_elem? result.0.var_list i ≡ some b

==-self : (a : ℕ) → (a == a) ≡ true
==-self a = ground arith

extended-IsNumbered :
    (f : InchoateFrame) (a : ℕ) (lfi : LocalFloatInfo)
    → Map.lookup atom_eq a f.variables ≡ none
    → IsNumbered f
    → IsNumbered (extended f a lfi)
extended-IsNumbered f a lfi new n = record {
  entries = omega (
    arith,
    length-insert a (length f.variables, lfi) f.variables new,
    length-append f.var_list (a ∷ []),
    n.entries,
  );
  rows = omega (
    arith,
    length-append f.optional_dv (BitSet.new ∷ []),
    length-append f.var_list (a ∷ []),
    n.rows,
  );
  names = named;
  places = placed;
}
  where
    placed :
        (i b : ℕ)
        → get_elem? (f.var_list ++ a ∷ []) i ≡ some b
        → (info : LocalFloatInfo) × (Map.lookup atom_eq b
              (Map.insert atom_eq a (length f.variables, lfi) f.variables)
            ≡ some (i, info))
    placed i b e = elim (get_elem?-FoundIn f.var_list a i e) [
      | before old ↦
          let (info, known) = n.places i b old in
          (
            info,
            elim (Bool-cases (a == b)) [
              | inl same ↦
                  cc (ap (λ c. Map.lookup atom_eq c f.variables) ((==_iff a b).0 same), new, known)
              | inr other ↦
                  Map.lookup-insert a b (length f.variables, lfi) f.variables ∙ rw other known
            ],
          )
      | at_end last same ↦ (
        lfi,
        subst
            (λ c.
              Map.lookup atom_eq c (Map.insert atom_eq a (length f.variables, lfi) f.variables)
              ≡ some (i, lfi))
            same
            (Map.lookup-insert a a (length f.variables, lfi) f.variables
              ∙ rw (==-self a) (ap (λ k. some (k, lfi)) (n.entries ∙ sym last))),
      )
    ]

    named :
        (b : ℕ) (known : ℕ × LocalFloatInfo)
        → Map.lookup atom_eq b (Map.insert atom_eq a (length f.variables, lfi) f.variables)
          ≡ some known
        → get_elem? (f.var_list ++ a ∷ []) known.0 ≡ some b
    named b known e = elim (Bool-cases (a == b)) [
      | inl same ↦
          let here : some (length f.variables, lfi) ≡ some known =
            ground (arith, e, same, Map.lookup-insert a b (length f.variables, lfi) f.variables) in
          let place : length f.variables ≡ known.0 = cc in
          subst (λ i. get_elem? (f.var_list ++ a ∷ []) i ≡ some b) (sym n.entries ∙ place)
            (get_elem?-append_end f.var_list a ∙ ap some ((==_iff a b).0 same))
      | inr other ↦
          let before : Map.lookup atom_eq b f.variables ≡ some known =
            ground (arith, e, other, Map.lookup-insert a b (length f.variables, lfi) f.variables) in
          get_elem?-append_left f.var_list (a ∷ []) known.0 (n.names b known before)
    ]

-- Where the map and the list agree: a variable keeps the index that it has, or gets the next one;
-- its index leads back to it, no index that was given changes, and the map and the list agree.
pub variable_index-IsIndexOf :
    (f : InchoateFrame) (a : ℕ) (lfi : LocalFloatInfo)
    → IsNumbered f
    → IsIndexOf f a (variable_index f a lfi)
variable_index-IsIndexOf f a lfi n = elim (Option-cases (Map.lookup atom_eq a f.variables)) [
  | inr (known, found) ↦
      subst (IsIndexOf f a) (sym (variable_index-old f a lfi known found))
        (record { numbered = n; named = n.names a known found; kept = λ i b e. e })
  | inl new ↦ subst (IsIndexOf f a) (sym (variable_index-new f a lfi new)) (record {
    numbered = extended-IsNumbered f a lfi new n;
    named =
        subst (λ i. get_elem? (f.var_list ++ a ∷ []) i ≡ some a) (sym n.entries)
          (get_elem?-append_end f.var_list a);
    kept = λ i b e. get_elem?-append_left f.var_list (a ∷ []) i e;
  })
]

-- The variables of an expression, in their order.
abbrev pub atoms_of : List CheckedToken → List ℕ
atoms_of [] = []
atoms_of (const_ _ _ ∷ toks) = atoms_of toks
atoms_of (var_ _ atom _ ∷ toks) = atom ∷ atoms_of toks

-- The indices of the parts are, one by one, those of the variables in the list.
abbrev pub LeadBack : List ℕ → List ExprFragment → List ℕ → Type 0
LeadBack vars [] [] = Unit {0}
LeadBack vars [] (a ∷ atoms) = ⊥
LeadBack vars (part ∷ parts) [] = ⊥
LeadBack vars (part ∷ parts) (a ∷ atoms) =
    (get_elem? vars part.var ≡ some a) × LeadBack vars parts atoms

LeadBack-append :
    (vars : List ℕ) (parts : List ExprFragment) (atoms : List ℕ) (part : ExprFragment) (a : ℕ)
    → LeadBack vars parts atoms
    → get_elem? vars part.var ≡ some a
    → LeadBack vars (parts ++ part ∷ []) (atoms ++ a ∷ [])
LeadBack-append vars [] [] part a b e = (e, tt)
LeadBack-append vars [] (x ∷ atoms) part a b e = absurd b
LeadBack-append vars (p ∷ parts) [] part a b e = absurd b
LeadBack-append vars (p ∷ parts) (x ∷ atoms) part a b e =
    (b.0, LeadBack-append vars parts atoms part a b.1 e)

-- No index that was given changes.
abbrev pub Keeps : List ℕ → List ℕ → Type 0
Keeps vars vars' = (i b : ℕ) → get_elem? vars i ≡ some b → get_elem? vars' i ≡ some b

LeadBack-mono :
    (vars vars' : List ℕ) (parts : List ExprFragment) (atoms : List ℕ)
    → Keeps vars vars'
    → LeadBack vars parts atoms
    → LeadBack vars' parts atoms
LeadBack-mono vars vars' [] [] k b = tt
LeadBack-mono vars vars' [] (x ∷ atoms) k b = absurd b
LeadBack-mono vars vars' (p ∷ parts) [] k b = absurd b
LeadBack-mono vars vars' (p ∷ parts) (x ∷ atoms) k b =
    (k p.var x b.0, LeadBack-mono vars vars' parts atoms k b.1)

-- A frame that only grew, and the parts of an expression with the variables `atoms`.
pub record IsScanned (f f' : InchoateFrame) (tail : List ExprFragment) (atoms : List ℕ)
    : Type 0 where
  pub numbered : IsNumbered f'
  pub kept : Keeps f.var_list f'.var_list
  pub named : LeadBack f'.var_list tail atoms

scan_tokens-IsScanned :
    (f : InchoateFrame) (open_const : ℕ) (tail : List ExprFragment) (atoms : List ℕ)
    (toks : List CheckedToken) {result : InchoateFrame × (ℕ × List ExprFragment)}
    → IsNumbered f
    → LeadBack f.var_list tail atoms
    → scan_tokens f open_const tail toks ≡ ok result
    → IsScanned f result.0 result.1.1 (atoms ++ atoms_of toks)
unfolding scan_tokens
scan_tokens-IsScanned f open_const tail atoms [] {result} n a h =
    let same : (f, (open_const, tail)) ≡ result = cc in
    subst (λ r. IsScanned f r.0 r.1.1 (atoms ++ [])) same
      (record { numbered = n; kept = λ i b e. e; named = rw (append-nil atoms) a })
scan_tokens-IsScanned f open_const tail atoms (const_ tok _ ∷ toks) n a h =
    elim (>>=-eq-ok (or_panic (mark_last (f.const_pool ++ tok))) _ h) [
      | bound pool _ h1 ↦
          let next : InchoateFrame = record f { const_pool = pool } in
          let ih =
            scan_tokens-IsScanned next open_const tail atoms toks
              (record { entries = n.entries; rows = n.rows; names = n.names; places = n.places }) a
              h1 in
          record { numbered = ih.numbered; kept = ih.kept; named = ih.named }
    ]
scan_tokens-IsScanned f open_const tail atoms (var_ tok atom lfi ∷ toks) {result} n a h =
    let next = variable_index-IsIndexOf f atom lfi n in
    let vars = (variable_index f atom lfi).0.var_list in
    let part : ExprFragment = record {
      prefix = record { start = open_const; end = length f.const_pool };
      var = (variable_index f atom lfi).1;
    } in
    let ih =
      scan_tokens-IsScanned (variable_index f atom lfi).0 (length f.const_pool) (tail ++ part ∷ [])
        (atoms ++ atom ∷ []) toks next.numbered
        (LeadBack-append vars tail atoms part atom
          (LeadBack-mono f.var_list vars tail atoms next.kept a) next.named)
        h in
    record {
      numbered = ih.numbered;
      kept = λ i b e. ih.kept i b (next.kept i b e);
      named =
          subst (LeadBack result.0.var_list result.1.1) (append_assoc atoms (atom ∷ []) _) ih.named;
    }

-- Where the map and the list agree, scanning an expression that returns keeps them so, gives the
-- variables of the expression, one by one, indices that lead back to them, and changes no index that
-- was given.
pub scan_expression-IsScanned :
    (f : InchoateFrame) (expr : List CheckedToken) {result : InchoateFrame × VerifyExpr}
    → IsNumbered f
    → scan_expression f expr ≡ ok result
    → IsScanned f result.0 result.1.tail (atoms_of expr)
unfolding scan_expression
scan_expression-IsScanned f [] n h = cc
scan_expression-IsScanned f (var_ _ _ _ ∷ toks) n h = cc
scan_expression-IsScanned f (const_ tok head ∷ toks) {result} n h =
    elim (>>=-eq-ok (scan_tokens f (length f.const_pool) [] toks) _ h) [
      | bound scanned scans h1 ↦
          let ih = scan_tokens-IsScanned f (length f.const_pool) [] [] toks n tt scans in
          let same : scanned.0 ≡ result.0 = cc in
          let same_tail : scanned.1.1 ≡ result.1.tail = cc in
          subst (λ t. IsScanned f result.0 t (atoms_of toks)) same_tail
            (subst (λ g. IsScanned f g scanned.1.1 (atoms_of toks)) same ih)
    ]
