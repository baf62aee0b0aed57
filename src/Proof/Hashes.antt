-- ===== src/Proof/Hashes.antt =====
-- src/proof.rs: the hashes of the children of a proof tree, and the arrays that are kept by `build`.
use metamath_knife.Base.{
  ℕ, ◌<◌, Bool, some, List, [], ◌∷◌, length, get_elem?, ◌==◌, All, found, get_elem?-Found, ◌≡◌,
  refl, subst, arith,
}
use metamath_knife.Base.Map.{lookup}
use metamath_knife.Address.{StatementAddress}
use metamath_knife.Diag.{ok, or_panic, >>=-eq-ok, bound, or_panic-eq-ok}
use metamath_knife.Scanner.Moves.{Returns, returned}
use metamath_knife.Proof.{ProofTree, ProofTreeArray, child_hashes}
use metamath_knife.Proof.Tree.{Proof, Proofs, Denotes, applied, DenoteAll, none_left, one_more}
use metamath_knife.Proof.Sharing.{IsTopological}

-- Whatever trees are put after them, the trees of an array stand for the same proofs.
abbrev pub Kept : List ProofTree → List ProofTree → Type 0
Kept trees trees' =
    (ix : ℕ) (tree : ProofTree) → get_elem? trees ix ≡ some tree → get_elem? trees' ix ≡ some tree

mutual
  pub Denotes-Kept :
      (trees trees' : List ProofTree) (ix : ℕ) (p : Proof)
      → Kept trees trees'
      → Denotes trees ix p
      → Denotes trees' ix p
  Denotes-Kept trees trees' _ _ k (applied ix tree ps e ds) =
      applied ix tree ps (k ix tree e) (DenoteAll-Kept trees trees' tree.children ps k ds)

  pub DenoteAll-Kept :
      (trees trees' : List ProofTree) (ixs : List ℕ) (ps : Proofs)
      → Kept trees trees'
      → DenoteAll trees ixs ps
      → DenoteAll trees' ixs ps
  DenoteAll-Kept trees trees' _ _ k none_left = none_left
  DenoteAll-Kept trees trees' _ _ k (one_more ix ixs p ps d ds) =
      one_more ix ixs p ps (Denotes-Kept trees trees' ix p k d)
        (DenoteAll-Kept trees trees' ixs ps k ds)

abbrev pub same : ℕ → ℕ → Bool
same a b = a == b

module _ (hash_of : StatementAddress → List ℕ → ℕ) where
  -- The map leads from the hash of every tree to its place, and nowhere else.
  pub record IsBuilt (arity : StatementAddress → ℕ) (arr : ProofTreeArray) : Type 0 where
    pub topological : IsTopological arity arr.trees
    pub indexed :
        (ix : ℕ) (tree : ProofTree)
        → get_elem? arr.trees ix ≡ some tree
        → lookup same tree.hash arr.map ≡ some ix
    pub leads :
        (h ix : ℕ)
        → lookup same h arr.map ≡ some ix
        → (tree : ProofTree) × ((get_elem? arr.trees ix ≡ some tree) × (tree.hash ≡ h))
    pub hashed :
        (ix : ℕ) (tree : ProofTree)
        → get_elem? arr.trees ix ≡ some tree
        → (hs : List ℕ) × ((child_hashes hash_of arr.trees tree.children ≡ ok hs)
            × (tree.hash ≡ hash_of tree.address hs))

  -- No tree of the array has the hash of another statement or of other children.
  abbrev pub NoCollision : ProofTreeArray → StatementAddress → List ℕ → Type 0
  NoCollision arr addr children =
      (ix : ℕ) (tree : ProofTree) (hs ks : List ℕ)
      → get_elem? arr.trees ix ≡ some tree
      → child_hashes hash_of arr.trees tree.children ≡ ok hs
      → child_hashes hash_of arr.trees children ≡ ok ks
      → hash_of tree.address hs ≡ hash_of addr ks
      → (tree.address ≡ addr) × (hs ≡ ks)

  pub child_hashes-ok :
      (trees : List ProofTree) (ixs : List ℕ)
      → All (λ c. c < length trees) ixs
      → Returns (λ hs. Unit {0}) (child_hashes hash_of trees ixs)
  unfolding child_hashes
  child_hashes-ok trees [] a = returned [] refl tt
  child_hashes-ok trees (ix ∷ ixs) (h, a) = elim (get_elem?-Found trees ix h) [
    | found tree e ↦ elim (child_hashes-ok trees ixs a) [
      | returned hs e1 _ ↦ returned (tree.hash ∷ hs) (ground (arith, e, e1)) tt
    ]
  ]

  pub child_hashes-Kept :
      (trees trees' : List ProofTree) (ixs : List ℕ) {hs : List ℕ}
      → Kept trees trees'
      → child_hashes hash_of trees ixs ≡ ok hs
      → child_hashes hash_of trees' ixs ≡ ok hs
  unfolding child_hashes
  child_hashes-Kept trees trees' [] k e = e
  child_hashes-Kept trees trees' (ix ∷ ixs) k e =
      elim (>>=-eq-ok (or_panic (get_elem? trees ix)) _ e) [
        | bound tree e1 h1 ↦ elim (>>=-eq-ok (child_hashes hash_of trees ixs) _ h1) [
          | bound hs e2 h2 ↦
              let here = k ix tree (or_panic-eq-ok (get_elem? trees ix) e1) in
              let rest = child_hashes-Kept trees trees' ixs k e2 in ground (arith, here, rest, h2)
        ]
      ]

  -- The hashes of children tell the children.
  pub child_hashes_unique :
      (arity : StatementAddress → ℕ) (arr : ProofTreeArray) (cs ds : List ℕ) {hs : List ℕ}
      → IsBuilt arity arr
      → child_hashes hash_of arr.trees cs ≡ ok hs
      → child_hashes hash_of arr.trees ds ≡ ok hs
      → cs ≡ ds
  unfolding child_hashes
  child_hashes_unique arity arr [] [] w e f = refl
  child_hashes_unique arity arr [] (d ∷ ds) w e f =
      elim (>>=-eq-ok (or_panic (get_elem? arr.trees d)) _ f) [
        | bound tree e1 h1 ↦ elim (>>=-eq-ok (child_hashes hash_of arr.trees ds) _ h1) [
          | bound hs e2 h2 ↦ cc (e, h2)
        ]
      ]
  child_hashes_unique arity arr (c ∷ cs) [] w e f =
      elim (>>=-eq-ok (or_panic (get_elem? arr.trees c)) _ e) [
        | bound tree e1 h1 ↦ elim (>>=-eq-ok (child_hashes hash_of arr.trees cs) _ h1) [
          | bound hs e2 h2 ↦ cc (f, h2)
        ]
      ]
  child_hashes_unique arity arr (c ∷ cs) (d ∷ ds) w e f =
      elim (>>=-eq-ok (or_panic (get_elem? arr.trees c)) _ e) [
        | bound t e1 h1 ↦ elim (>>=-eq-ok (child_hashes hash_of arr.trees cs) _ h1) [
          | bound hs e2 h2 ↦ elim (>>=-eq-ok (or_panic (get_elem? arr.trees d)) _ f) [
            | bound u f1 k1 ↦ elim (>>=-eq-ok (child_hashes hash_of arr.trees ds) _ k1) [
              | bound ks f2 k2 ↦
                  let hashes : t.hash ≡ u.hash = cc (h2, k2) in
                  let tails : ks ≡ hs = cc (h2, k2) in
                  let at_c = w.indexed c t (or_panic-eq-ok (get_elem? arr.trees c) e1) in
                  let at_d = w.indexed d u (or_panic-eq-ok (get_elem? arr.trees d) f1) in
                  let heads : c ≡ d = cc (hashes, at_c, at_d) in
                  let rests =
                    child_hashes_unique arity arr cs ds w e2
                      (subst (λ l. child_hashes hash_of arr.trees ds ≡ ok l) tails f2) in
                  cc (heads, rests)
            ]
          ]
        ]
      ]
