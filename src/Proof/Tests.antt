-- ===== src/Proof/Tests.antt =====
-- src/proof.rs: a small proof in which a subtree is shared.
use metamath_knife.Base.{
  get_elem?, ℕ, zero, suc, false, true, none, some, List, [], ◌∷◌, length, All, ◌<◌, ◌≡◌, refl, sym,
  ◌∙◌, subst, Bool-cases, inl, inr, ◌==◌, ==_iff, arith,
}
use metamath_knife.Address.{StatementAddress}
use metamath_knife.Diag.{ok}
use metamath_knife.Scanner.Moves.{Returns}
use metamath_knife.Proof.{
  ProofTree, ProofTreeArray, normal, backref, count_parents, to_rpn, normal_iter, build,
  child_hashes,
}
use metamath_knife.Proof.Tree.{Proof, Denotes, Machine, replay, empty_machine}
use metamath_knife.Base.Map.{lookup}
use metamath_knife.Proof.Sharing.{IsTopological, to_rpn-Denotes}
use metamath_knife.Proof.Rounds.{steps_of}
use metamath_knife.Proof.Unshared.{to_rpn-normal_iter}
use metamath_knife.Proof.Hashes.{IsBuilt, NoCollision, same}
use metamath_knife.Proof.Build.{IsAdded, build-IsAdded}

abbrev at : ℕ → StatementAddress
at i = record { segment_id = 1; index = i }

-- The statement at an index has as many hypotheses.
abbrev arity_at : StatementAddress → ℕ
arity_at addr = addr.index

abbrev shared_pair : List ProofTree
shared_pair =
    record { address = at 0; children = []; hash = 1 }
    ∷ record { address = at 2; children = 0 ∷ 0 ∷ []; hash = 2 }
    ∷ record { address = at 2; children = 1 ∷ 1 ∷ []; hash = 3 }
    ∷ []

abbrev pair_array : ProofTreeArray
pair_array = record { map = []; trees = shared_pair; exprs = []; qed = 2; indent = [] }

parents-pair_array : count_parents pair_array ≡ ok (2 ∷ 2 ∷ 0 ∷ [])
unfolding count_parents
parents-pair_array = refl

steps-pair_array :
    to_rpn pair_array (2 ∷ 2 ∷ 0 ∷ []) true
    ≡ ok (
        normal 0 (at 0) (some (at 2, 0))
        ∷ normal 0 (at 0) (some (at 2, 1))
        ∷ normal 1 (at 2) (some (at 2, 0))
        ∷ backref 1 (some (at 2, 1))
        ∷ normal 0 (at 2) none
        ∷ [])
unfolding to_rpn
steps-pair_array = refl

abbrev TopologicalAt : ℕ → ProofTree → Type 0
TopologicalAt ix tree =
    (length tree.children ≡ tree.address.index) × All (λ c. c < ix) tree.children

same_tree : (P : ProofTree → Type 0) {t tree : ProofTree} → some t ≡ some tree → P t → P tree
same_tree P {t} {tree} e h = let same : t ≡ tree = cc (e) in subst P same h

shared_pair-IsTopological : IsTopological arity_at shared_pair
shared_pair-IsTopological zero tree e = same_tree (TopologicalAt 0) e (refl, tt)
shared_pair-IsTopological (suc zero) tree e =
    same_tree (TopologicalAt 1) e (refl, (omega arith, (omega arith, tt)))
shared_pair-IsTopological (suc (suc zero)) tree e =
    same_tree (TopologicalAt 2) e (refl, (omega arith, (omega arith, tt)))
shared_pair-IsTopological (suc (suc (suc ix))) tree e = cc (e)

to_rpn_example :
    Returns
      (λ steps.
        (p : Proof) × ((m : Machine) × ((replay arity_at empty_machine steps ≡ ok m)
            × ((m.stack ≡ p ∷ []) × Denotes shared_pair 2 p))))
      (to_rpn pair_array (2 ∷ 2 ∷ 0 ∷ []) false)
to_rpn_example =
    to_rpn-Denotes arity_at pair_array (2 ∷ 2 ∷ 0 ∷ []) false shared_pair-IsTopological refl
      (omega arith)

unshared_steps :
    steps_of pair_array false 8 (normal_iter pair_array false)
    ≡ ok (
        normal 0 (at 0) none
        ∷ normal 0 (at 0) none
        ∷ normal 0 (at 2) none
        ∷ normal 0 (at 0) none
        ∷ normal 0 (at 0) none
        ∷ normal 0 (at 2) none
        ∷ normal 0 (at 2) none
        ∷ [])
unfolding steps_of
unshared_steps = refl

to_rpn-normal_iter_example :
    (p : Proof) × (Returns
        (λ steps.
          (m : Machine) × ((replay arity_at empty_machine steps ≡ ok m) × (m.stack ≡ p ∷ [])))
        (to_rpn pair_array (2 ∷ 2 ∷ 0 ∷ []) false)
      × ((n : ℕ) × Returns
            (λ steps.
              replay arity_at empty_machine steps ≡ ok (record { stack = p ∷ []; saved = [] }))
            (steps_of pair_array false n (normal_iter pair_array false))))
to_rpn-normal_iter_example =
    to_rpn-normal_iter pair_array false arity_at shared_pair-IsTopological (2 ∷ 2 ∷ 0 ∷ []) refl
      (omega arith)

-- An array with one leaf, where an address is hashed to its index.
abbrev hash_at : StatementAddress → List ℕ → ℕ
hash_at addr hs = addr.index

abbrev leaf : ProofTree
leaf = record { address = at 0; children = []; hash = 0 }

abbrev leaf_array : ProofTreeArray
leaf_array = record {
  map = (0, 0) ∷ [];
  trees = leaf ∷ [];
  exprs = (65 ∷ []) ∷ [];
  qed = 0;
  indent = [];
}

leaf_array-IsBuilt : IsBuilt hash_at arity_at leaf_array
unfolding lookup child_hashes
leaf_array-IsBuilt = record {
  topological = topological;
  indexed = indexed;
  leads = leads;
  hashed = hashed;
}
  where
    topological : IsTopological arity_at (leaf ∷ [])
    topological zero tree e = same_tree (TopologicalAt 0) e (refl, tt)
    topological (suc ix) tree e = cc (e)

    indexed :
        (ix : ℕ) (tree : ProofTree)
        → get_elem? (leaf ∷ []) ix ≡ some tree
        → lookup same tree.hash leaf_array.map ≡ some ix
    indexed zero tree e = same_tree (λ t. lookup same t.hash leaf_array.map ≡ some 0) e refl
    indexed (suc ix) tree e = cc (e)

    leads :
        (h ix : ℕ)
        → lookup same h leaf_array.map ≡ some ix
        → (tree : ProofTree) × ((get_elem? (leaf ∷ []) ix ≡ some tree) × (tree.hash ≡ h))
    leads h ix f = elim (Bool-cases (0 == h)) [
      | inl equal ↦
          let place : 0 ≡ ix = ground (arith, equal, f) in
          (
            leaf,
            (subst (λ i. get_elem? (leaf ∷ []) i ≡ some leaf) place refl, (==_iff 0 h).0 equal),
          )
      | inr differ ↦ absurd (ground (arith, differ, f))
    ]

    hashed :
        (ix : ℕ) (tree : ProofTree)
        → get_elem? (leaf ∷ []) ix ≡ some tree
        → (hs : List ℕ) × ((child_hashes hash_at (leaf ∷ []) tree.children ≡ ok hs)
            × (tree.hash ≡ hash_at tree.address hs))
    hashed zero tree e =
        same_tree
          (λ t.
            (hs : List ℕ) × ((child_hashes hash_at (leaf ∷ []) t.children ≡ ok hs)
              × (t.hash ≡ hash_at t.address hs)))
          e ([], (refl, refl))
    hashed (suc ix) tree e = cc (e)

leaf_array-NoCollision : NoCollision hash_at leaf_array (at 2) (0 ∷ 0 ∷ [])
leaf_array-NoCollision zero tree hs ks e f g h =
    let zero_index : 0 ≡ 2 = sym (same_tree (λ t. t.address.index ≡ 0) e refl) ∙ h in
    absurd (omega (arith, zero_index))
leaf_array-NoCollision (suc ix) tree hs ks e f g h = cc (e)

build_example :
    Returns
      (λ r. IsAdded hash_at arity_at leaf_array (at 2) (0 ∷ 0 ∷ []) r.0 r.1)
      (build hash_at leaf_array (at 2) (0 ∷ 0 ∷ []) (65 ∷ 193 ∷ []) 0 2)
build_example =
    build-IsAdded hash_at arity_at leaf_array (at 2) (0 ∷ 0 ∷ []) (65 ∷ 193 ∷ []) 0 2
      leaf_array-IsBuilt leaf_array-NoCollision (omega arith, (omega arith, tt)) refl (omega arith)
      (omega arith)
