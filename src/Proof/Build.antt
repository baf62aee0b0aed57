-- ===== src/Proof/Build.antt =====
-- src/proof.rs: `build` keeps one tree for each proof, after its children.
use metamath_knife.Base.{
  ℕ, ◌<◌, ◌≤◌, none, some, List, [], ◌∷◌, ◌++◌, length, get_elem?, slice, ◌==◌, if◌then◌else◌, take,
  drop, ◌-◌, All, Bool-cases, Option-cases, get_elem?-append_left, get_elem?-append_end, before,
  at_end, get_elem?-FoundIn, ◌≡◌, refl, sym, ap, subst, ◌∙◌, inl, inr, arith, ==_iff,
}
use metamath_knife.Base.Map.{lookup, lookup-insert}
use metamath_knife.Address.{StatementAddress}
use metamath_knife.Diag.{ok}
use metamath_knife.Scanner.Moves.{Returns, returned}
use metamath_knife.Proof.{ProofTree, ProofTreeArray, child_hashes, index_of, add_tree, build}
use metamath_knife.Proof.Tree.{Proof, apply, Proofs, Denotes, applied, DenoteAll}
use metamath_knife.Proof.Hashes.{
  Kept, Denotes-Kept, DenoteAll-Kept, same, IsBuilt, NoCollision, child_hashes-ok,
  child_hashes-Kept, child_hashes_unique,
}

module _ (hash_of : StatementAddress → List ℕ → ℕ) where
  append-Kept : (trees : List ProofTree) (tree : ProofTree) → Kept trees (trees ++ tree ∷ [])
  append-Kept trees tree ix t e = get_elem?-append_left trees (tree ∷ []) ix e

  -- A tree whose hash is new is put at the end.
  add_tree-IsBuilt :
      (arity : StatementAddress → ℕ) (arr : ProofTreeArray) (tree : ProofTree) (hs expr : List ℕ)
      → IsBuilt hash_of arity arr
      → index_of hash_of arr tree ≡ none
      → child_hashes hash_of arr.trees tree.children ≡ ok hs
      → tree.hash ≡ hash_of tree.address hs
      → All (λ c. c < length arr.trees) tree.children
      → length tree.children ≡ arity tree.address
      → IsBuilt hash_of arity (add_tree hash_of arr tree expr).0
  unfolding add_tree
  add_tree-IsBuilt arity arr tree hs expr w fresh e hash below n = record {
    topological = λ ix t f. elim (get_elem?-FoundIn arr.trees tree ix f) [
      | before g ↦ w.topological ix t g
      | at_end i s ↦
          subst (λ u. (length u.children ≡ arity u.address) × All (λ c. c < ix) u.children) s
            (n, subst (λ k. All (λ c. c < k) tree.children) (sym i) below)
    ];
    indexed = λ ix t f. elim (get_elem?-FoundIn arr.trees tree ix f) [
      | before g ↦
          lookup-insert tree.hash t.hash (length arr.trees) arr.map ∙ other t ix (w.indexed ix t g)
      | at_end i s ↦
          lookup-insert tree.hash t.hash (length arr.trees) arr.map
          ∙ ground (arith, i, ap (λ u. u.hash) s)
    ];
    leads = λ h ix f. by_hash h ix (sym (lookup-insert tree.hash h (length arr.trees) arr.map) ∙ f);
    hashed = λ ix t f. elim (get_elem?-FoundIn arr.trees tree ix f) [
      | before g ↦
          let (ks, (e1, h1)) = w.hashed ix t g in
          (
            ks,
            (
              child_hashes-Kept hash_of arr.trees (arr.trees ++ tree ∷ []) t.children
                  (append-Kept arr.trees tree) e1,
              h1,
            ),
          )
      | at_end i s ↦
          subst
            (λ u.
              (ks : List ℕ) × ((child_hashes hash_of (arr.trees ++ tree ∷ []) u.children ≡ ok ks)
                × (u.hash ≡ hash_of u.address ks)))
            s
            (
              hs,
              (
                child_hashes-Kept hash_of arr.trees (arr.trees ++ tree ∷ []) tree.children
                    (append-Kept arr.trees tree) e,
                hash,
              ),
            )
    ];
  }
    where
      other :
          (t : ProofTree) (ix : ℕ)
          → lookup same t.hash arr.map ≡ some ix
          → (if tree.hash == t.hash then some (length arr.trees) else lookup same t.hash arr.map)
            ≡ some ix
      other t ix g = elim (Bool-cases (tree.hash == t.hash)) [
        | inr differ ↦ rw differ g
        | inl equal ↦
            let hashes : tree.hash ≡ t.hash = (==_iff tree.hash t.hash).0 equal in
            absurd (cc (hashes, fresh, g))
      ]

      by_hash :
          (h ix : ℕ)
          → (if tree.hash == h then some (length arr.trees) else lookup same h arr.map) ≡ some ix
          → (t : ProofTree) × ((get_elem? (arr.trees ++ tree ∷ []) ix ≡ some t) × (t.hash ≡ h))
      by_hash h ix f = elim (Bool-cases (tree.hash == h)) [
        | inl equal ↦
            let place : length arr.trees ≡ ix = ground (arith, equal, f) in
            (
              tree,
              (
                subst (λ i. get_elem? (arr.trees ++ tree ∷ []) i ≡ some tree) place
                    (get_elem?-append_end arr.trees tree),
                ground (arith, equal),
              ),
            )
        | inr differ ↦
            let (t, (g, k)) = w.leads h ix (ground (arith, differ, f)) in
            (t, (get_elem?-append_left arr.trees (tree ∷ []) ix g, k))
      ]

  -- What `build` hands out.
  pub record IsAdded (arity : StatementAddress → ℕ) (arr : ProofTreeArray) (addr : StatementAddress)
      (children : List ℕ) (arr' : ProofTreeArray) (ix : ℕ) : Type 0 where
    pub built : IsBuilt hash_of arity arr'
    pub kept : (i : ℕ) (p : Proof) → Denotes arr.trees i p → Denotes arr'.trees i p
    pub new :
        (ps : Proofs) → DenoteAll arr.trees children ps → Denotes arr'.trees ix (apply addr ps)

  -- A tree with the hash is the tree that is wanted.
  found-IsAdded :
      (arity : StatementAddress → ℕ) (arr : ProofTreeArray) (addr : StatementAddress)
      (children hs : List ℕ) (ix : ℕ)
      → IsBuilt hash_of arity arr
      → NoCollision hash_of arr addr children
      → child_hashes hash_of arr.trees children ≡ ok hs
      → lookup same (hash_of addr hs) arr.map ≡ some ix
      → IsAdded arity arr addr children arr ix
  found-IsAdded arity arr addr children hs ix w free e f =
      let (tree, (g, h)) = w.leads (hash_of addr hs) ix f in
      let (ks, (e1, h1)) = w.hashed ix tree g in
      let (same_address, same_hashes) = free ix tree ks hs g e1 e (sym h1 ∙ h) in
      let same_children =
        child_hashes_unique hash_of arity arr tree.children children w e1
          (subst (λ l. child_hashes hash_of arr.trees children ≡ ok l) (sym same_hashes) e) in
      record {
        built = w;
        kept = λ i p d. d;
        new = λ ps ds.
            subst (λ a. Denotes arr.trees ix (apply a ps)) same_address
              (applied ix tree ps g
                (subst (λ cs. DenoteAll arr.trees cs ps) (sym same_children) ds));
      }

  -- Where the map of an array leads from the hash of every tree to its place, the trees stand after their
  -- children and have as many as their statements have hypotheses, no tree collides with the new one,
  -- and the children and the expression exist, `build` returns an index that stands for the statement
  -- applied to the proofs of the children, whether the tree was there or not. The array is as it was
  -- required to be, and what its indexes stood for they still stand for.
  pub build-IsAdded :
      (arity : StatementAddress → ℕ) (arr : ProofTreeArray) (addr : StatementAddress)
      (children pool : List ℕ) (start end : ℕ)
      → IsBuilt hash_of arity arr
      → NoCollision hash_of arr addr children
      → All (λ c. c < length arr.trees) children
      → length children ≡ arity addr
      → start ≤ end
      → end ≤ length pool
      → Returns
          (λ r. IsAdded arity arr addr children r.0 r.1)
          (build hash_of arr addr children pool start end)
  unfolding build slice
  build-IsAdded arity arr addr children pool start end w free below n lo hi =
      elim (child_hashes-ok hash_of arr.trees children below) [
        | returned hs e _ ↦ elim (Option-cases (lookup same (hash_of addr hs) arr.map)) [
          | inr (ix, f) ↦
              returned (arr, ix) (ground (arith, e, f))
                (found-IsAdded arity arr addr children hs ix w free e f)
          | inl fresh ↦
              let tree : ProofTree = record {
                address = addr;
                children = children;
                hash = hash_of addr hs;
              } in
              let expr = take (end - start) (drop start pool) in
              returned (add_tree hash_of arr tree expr) (ground (arith, e, fresh, lo, hi)) (record {
                built = add_tree-IsBuilt arity arr tree hs expr w fresh e refl below n;
                kept = λ i p d.
                    Denotes-Kept arr.trees (arr.trees ++ tree ∷ []) i p (append-Kept arr.trees tree)
                      d;
                new = λ ps ds.
                    applied (length arr.trees) tree ps (get_elem?-append_end arr.trees tree) (
                      DenoteAll-Kept arr.trees (arr.trees ++ tree ∷ []) children ps
                        (append-Kept arr.trees tree) ds);
              })
        ]
      ]
