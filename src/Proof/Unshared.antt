-- ===== src/Proof/Unshared.antt =====
-- src/proof.rs: the iterator writes the tree of the last step, with all its copies.
use metamath_knife.Base.{
  ℕ, suc, ◌+◌, ◌<◌, Bool, none, some, List, [], ◌∷◌, ◌++◌, length, get_elem?, get_elem?-inside,
  append_assoc, ◌≡◌, refl, sym, ap, subst, ◌∙◌, arith,
}
use metamath_knife.Address.{StatementAddress}
use metamath_knife.Diag.{ok}
use metamath_knife.Scanner.Moves.{Returns, returned}
use metamath_knife.Proof.{
  ProofTree, ProofTreeArray, RpnStep, HypRef, normal, NormalIter, normal_iter, next, to_rpn,
}
use metamath_knife.Proof.Tree.{
  Proof, apply, Proofs, nil, Denotes, applied, DenoteAll, none_left, one_more, Machine, take_args,
  replay, empty_machine,
}
use metamath_knife.Proof.Replay.{
  push_all, count, DenoteAll-count, take_args-push_all, replay-append,
}
use metamath_knife.Proof.Sharing.{IsTopological, to_rpn-Denotes}
use metamath_knife.Proof.Rounds.{
  depth, IsPath, after_give, Runs, one, Runs-append, Runs-from, steps_of-Runs, give-ok, steps_of,
  next-child,
}

module _ (arr : ProofTreeArray) (explicit : Bool) where
  module _ (arity : StatementAddress → ℕ) (topological : IsTopological arity arr.trees) where
    -- The steps of a tree, and what the machine does with them.
    record Given (below : List (ℕ × ℕ)) (ix : ℕ) (p : Proof) : Type 0 where
      steps : List RpnStep
      runs :
          Runs arr explicit
            (record { stack = (ix, 0) ∷ below })
            steps
            (record { stack = after_give arr explicit below })
      replays : (m : Machine) → replay arity m steps ≡ ok (record m { stack = p ∷ m.stack })

    -- The steps of the children that are left, before others.
    record AllGiven (below : List (ℕ × ℕ)) (ix c : ℕ) (ixs : List ℕ) (ps : Proofs) : Type 0 where
      steps : List RpnStep
      runs :
          (xs : List RpnStep) (it' : NormalIter)
          → Runs arr explicit (record { stack = (ix, c + length ixs) ∷ below }) xs it'
          → Runs arr explicit (record { stack = (ix, c) ∷ below }) (steps ++ xs) it'
      replays : (m : Machine) → replay arity m steps ≡ ok (record m { stack = push_all ps m.stack })

    get_elem?-end : (xs : List ℕ) → get_elem? xs (length xs) ≡ none
    get_elem?-end [] = refl
    get_elem?-end (x ∷ xs) = get_elem?-end xs

    give-Runs :
        (ix : ℕ) (tree : ProofTree) (below : List (ℕ × ℕ))
        → get_elem? arr.trees ix ≡ some tree
        → IsPath arr explicit below
        → (hyp : HypRef) × Runs arr explicit
            (record { stack = (ix, length tree.children) ∷ below })
            (normal 0 tree.address hyp ∷ [])
            (record { stack = after_give arr explicit below })
    unfolding next
    give-Runs ix tree below here w = elim (give-ok arr explicit tree below w) [
      | returned r e q ↦
          let (hyp, same) = q in
          let ended = get_elem?-end tree.children in
          let given : next arr explicit (depth arr explicit)
                (record { stack = (ix, length tree.children) ∷ below })
              ≡ ok (
                record { stack = after_give arr explicit below },
                some (normal 0 tree.address hyp),
              ) =
            ground (arith, here, ended, e, same) in
          (
            hyp,
            one (record { stack = (ix, length tree.children) ∷ below })
                (record { stack = after_give arr explicit below }) (normal 0 tree.address hyp)
                given,
          )
    ]

    -- The step of a tree takes the proofs of its children off the stack.
    replay-normal :
        (m : Machine) (tree : ProofTree) (ps : Proofs) (hyp : HypRef)
        → count ps ≡ arity tree.address
        → replay arity (record m { stack = push_all ps m.stack }) (normal 0 tree.address hyp ∷ [])
          ≡ ok (record m { stack = apply tree.address ps ∷ m.stack })
    unfolding replay
    replay-normal m tree ps hyp n =
        rw
          (subst (λ k. take_args k (push_all ps m.stack) nil ≡ ok (ps, m.stack)) n
            (take_args-push_all ps m.stack))
          refl

    replay-nothing : (m : Machine) → replay arity m [] ≡ ok m
    unfolding replay
    replay-nothing m = refl

    mutual
      walk :
          (below : List (ℕ × ℕ)) (ix : ℕ) (p : Proof)
          → IsPath arr explicit below
          → Denotes arr.trees ix p
          → Given below ix p
      walk below _ _ w (applied ix tree ps here ds) =
          let inside = get_elem?-inside arr.trees ix here in
          let children =
            walk_all below ix 0 tree tree.children ps here
              (λ j. ap (get_elem? tree.children) (omega arith)) inside w ds in
          let (hyp, last) = give-Runs ix tree below here w in
          record {
            steps = children.steps ++ normal 0 tree.address hyp ∷ [];
            runs =
                children.runs (normal 0 tree.address hyp ∷ [])
                  (record { stack = after_give arr explicit below })
                  (subst
                    (λ c.
                      Runs arr explicit (record { stack = (ix, c) ∷ below })
                        (normal 0 tree.address hyp ∷ [])
                        (record { stack = after_give arr explicit below }))
                    (omega arith) last);
            replays = λ m.
                replay-append arity m children.steps (normal 0 tree.address hyp ∷ [])
                  (children.replays m)
                ∙ replay-normal m tree ps hyp
                    (DenoteAll-count arr.trees tree.children ps ds ∙ (topological ix tree here).0);
          }

      walk_all :
          (below : List (ℕ × ℕ)) (ix c : ℕ) (tree : ProofTree) (ixs : List ℕ) (ps : Proofs)
          → get_elem? arr.trees ix ≡ some tree
          → ((j : ℕ) → get_elem? ixs j ≡ get_elem? tree.children (c + j))
          → ix < length arr.trees
          → IsPath arr explicit below
          → DenoteAll arr.trees ixs ps
          → AllGiven below ix c ixs ps
      walk_all below ix c tree _ _ here left inside w none_left = record {
        steps = [];
        runs = λ xs it' r.
            subst (λ k. Runs arr explicit (record { stack = (ix, k) ∷ below }) xs it') (omega arith)
              r;
        replays = λ m. replay-nothing m;
      }
      walk_all below ix c tree _ _ here left inside w (one_more hix ixs p ps d ds) =
          let first = walk ((ix, c) ∷ below) hix p (inside, w) d in
          let more : get_elem? tree.children c ≡ some hix =
            ap (get_elem? tree.children) (omega arith) ∙ sym (left 0) in
          let rest =
            walk_all below ix (suc c) tree ixs ps here
              (λ j. left (suc j) ∙ ap (get_elem? tree.children) (omega arith)) inside w ds in
          record {
            steps = first.steps ++ rest.steps;
            runs = λ xs it' r.
                subst (λ ys. Runs arr explicit (record { stack = (ix, c) ∷ below }) ys it')
                  (sym (append_assoc first.steps rest.steps xs))
                  (Runs-append arr explicit (record { stack = (ix, c) ∷ below })
                    (record { stack = (ix, suc c) ∷ below }) it' first.steps (rest.steps ++ xs)
                    (Runs-from arr explicit (record { stack = (ix, c) ∷ below })
                      (record { stack = (hix, 0) ∷ (ix, c) ∷ below })
                      (record { stack = (ix, suc c) ∷ below }) first.steps
                      (next-child arr explicit arity topological ix c hix tree below here more w)
                      first.runs)
                    (rest.runs xs it' (
                      subst (λ k. Runs arr explicit (record { stack = (ix, k) ∷ below }) xs it')
                        (omega arith) r)));
            replays = λ m.
                replay-append arity m first.steps rest.steps (first.replays m)
                ∙ rest.replays (record m { stack = p ∷ m.stack });
          }

    normal_iter-Denotes :
        (p : Proof)
        → Denotes arr.trees arr.qed p
        → (n : ℕ) × Returns
            (λ steps. replay arity empty_machine steps ≡ ok (record { stack = p ∷ []; saved = [] }))
            (steps_of arr explicit n (normal_iter arr explicit))
    normal_iter-Denotes p d =
        let all = walk [] arr.qed p tt d in
        (
          suc (length all.steps),
          returned all.steps
              (steps_of-Runs arr explicit (normal_iter arr explicit) all.steps all.runs)
              (all.replays empty_machine),
        )

    -- For an array whose trees stand after their children and have as many as their statements have
    -- hypotheses, counts of parents for all of them, and a last step in the array, `to_rpn` and, with enough
    -- rounds, the iterator of `normal_iter` both return steps, and both lists of steps, replayed on an empty
    -- stack, leave the same one proof, which for the iterator needs no numbers.
    pub to_rpn-normal_iter :
        (parents : List ℕ)
        → length parents ≡ length arr.trees
        → arr.qed < length arr.trees
        → (p : Proof) × (Returns
              (λ steps.
                (m : Machine) × ((replay arity empty_machine steps ≡ ok m) × (m.stack ≡ p ∷ [])))
              (to_rpn arr parents explicit)
            × ((n : ℕ) × Returns
                  (λ steps.
                    replay arity empty_machine steps ≡ ok (record { stack = p ∷ []; saved = [] }))
                  (steps_of arr explicit n (normal_iter arr explicit))))
    to_rpn-normal_iter parents counted inside =
        elim (to_rpn-Denotes arity arr parents explicit topological counted inside) [
          | returned steps e q ↦
              let (p, (m, (run, (top, d)))) = q in
              (p, (returned steps e (m, (run, top)), normal_iter-Denotes p d))
        ]
