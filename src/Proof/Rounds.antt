-- ===== src/Proof/Rounds.antt =====
-- src/proof.rs: the rounds of the iterator over all the steps of a proof.
use metamath_knife.Base.{
  ℕ, zero, suc, ◌<◌, Bool, Option, none, some, List, [], ◌∷◌, ◌++◌, length, get_elem?, All,
  All-get_elem?, Bool-cases, found, get_elem?-Found, get_elem?-inside, Option-cases, ◌≡◌, refl, sym,
  ◌∙◌, inl, inr, arith,
}
use metamath_knife.Address.{StatementAddress}
use metamath_knife.Diag.{Outcome, ok, panic, ◌>>=◌}
use metamath_knife.Scanner.Moves.{Returns, returned}
use metamath_knife.Proof.{
  ProofTree, ProofTreeArray, RpnStep, HypRef, normal, NormalIter, give, next,
}
use metamath_knife.Proof.Sharing.{IsTopological}

module _ (arr : ProofTreeArray) (explicit : Bool) where
  abbrev pub depth : ℕ
  depth = suc (length arr.trees)

  -- All the steps that are left, on fuel.
  unfoldable pub steps_of : ℕ → NormalIter → Outcome (List RpnStep)
  unfolding next
  steps_of zero it = panic
  steps_of (suc n) it = do
    got ← next arr explicit depth it
    elim got.1 [ none ↦ ok [] | some step ↦ do rest ← steps_of n got.0; ok (step ∷ rest) ]

  abbrev pub IsPath : List (ℕ × ℕ) → Type 0
  IsPath stack = All (λ e. e.0 < length arr.trees) stack

  -- The tree on top was given.
  abbrev pub after_give : List (ℕ × ℕ) → List (ℕ × ℕ)
  after_give [] = []
  after_give ((lix, i) ∷ below) = (lix, suc i) ∷ below

  -- Rounds of the iterator, at least one.
  pub data Runs : NormalIter → List RpnStep → NormalIter → Type 0 where
    one :
        (it it' : NormalIter) (step : RpnStep)
        → next arr explicit depth it ≡ ok (it', some step)
        → Runs it (step ∷ []) it'
    then :
        (it it1 it' : NormalIter) (step : RpnStep) (steps : List RpnStep)
        → next arr explicit depth it ≡ ok (it1, some step)
        → Runs it1 steps it'
        → Runs it (step ∷ steps) it'

  pub Runs-append :
      (it it1 it' : NormalIter) (xs ys : List RpnStep)
      → Runs it xs it1
      → Runs it1 ys it'
      → Runs it (xs ++ ys) it'
  Runs-append _ _ it' _ ys (one it it1 step e) r = then it it1 it' step ys e r
  Runs-append _ it2 it' _ ys (then it it1 _ step steps e q) r =
      then it it1 it' step (steps ++ ys) e (Runs-append it1 it2 it' steps ys q r)

  -- The first round alone depends on where it starts.
  pub Runs-from :
      (it jt it' : NormalIter) (xs : List RpnStep)
      → next arr explicit depth it ≡ next arr explicit depth jt
      → Runs jt xs it'
      → Runs it xs it'
  Runs-from it _ it' _ h (one jt _ step e) = one it it' step (h ∙ e)
  Runs-from it _ it' _ h (then jt it1 _ step steps e q) = then it it1 it' step steps (h ∙ e) q

  pub steps_of-Runs :
      (it : NormalIter) (steps : List RpnStep)
      → Runs it steps (record { stack = [] })
      → steps_of (suc (length steps)) it ≡ ok steps
  unfolding steps_of
  steps_of-Runs _ _ (one it _ step e) = rw e refl
  steps_of-Runs _ _ (then it it1 _ step steps e q) =
      let rest = steps_of-Runs it1 steps q in rw e (rw rest refl)

  pub give-ok :
      (tree : ProofTree) (below : List (ℕ × ℕ))
      → IsPath below
      → Returns
          (λ r.
            (hyp : HypRef) × (r
              ≡ (record { stack = after_give below }, some (normal 0 tree.address hyp))))
          (give arr explicit tree below)
  give-ok tree [] w =
      returned (record { stack = [] }, some (normal 0 tree.address none)) refl (none, refl)
  give-ok tree ((lix, i) ∷ below) (h, w) = elim (Bool-cases explicit) [
    | inr brief ↦
        returned (record { stack = (lix, suc i) ∷ below }, some (normal 0 tree.address none))
          (ground (arith, brief)) (none, refl)
    | inl named ↦ elim (get_elem?-Found arr.trees lix h) [
      | found parent e ↦
          returned
            (
              record { stack = (lix, suc i) ∷ below },
              some (normal 0 tree.address (some (parent.address, i))),
            )
            (ground (arith, named, e)) (some (parent.address, i), refl)
    ]
  ]

  next-more :
      (f : ℕ) (stack : List (ℕ × ℕ)) (r : NormalIter × Option RpnStep)
      → next arr explicit f (record { stack = stack }) ≡ ok r
      → next arr explicit (suc f) (record { stack = stack }) ≡ ok r
  unfolding next
  next-more zero stack r e = cc (e)
  next-more (suc f) [] r e = e
  next-more (suc f) ((ix, c) ∷ below) r e = elim (Option-cases (get_elem? arr.trees ix)) [
    | inl gone ↦ absurd (ground (arith, gone, e))
    | inr (tree, here) ↦ elim (Option-cases (get_elem? tree.children c)) [
      | inl given ↦ ground (arith, here, given, e)
      | inr (hix, more) ↦
          let deeper = next-more f ((hix, 0) ∷ (ix, c) ∷ below) r (ground (arith, here, more, e)) in
          ground (arith, here, more, deeper)
    ]
  ]

  module _ (arity : StatementAddress → ℕ) (topological : IsTopological arity arr.trees) where
    next-enough :
        (f ix c : ℕ) (below : List (ℕ × ℕ))
        → ix < f
        → ix < length arr.trees
        → IsPath below
        → Returns (λ r. Unit {0}) (next arr explicit f (record { stack = (ix, c) ∷ below }))
    unfolding next
    next-enough zero ix c below h i w = absurd (omega (arith, h))
    next-enough (suc f) ix c below h i w = elim (get_elem?-Found arr.trees ix i) [
      | found tree here ↦ elim (Option-cases (get_elem? tree.children c)) [
        | inl given ↦ elim (give-ok tree below w) [
          | returned r e _ ↦ returned r (ground (arith, here, given, e)) tt
        ]
        | inr (hix, more) ↦
            let lower : hix < ix =
              All-get_elem? (λ k. k < ix) tree.children c (topological ix tree here).1 more in
            elim (next-enough f hix 0 ((ix, c) ∷ below) (omega (arith, lower, h))
              (omega (arith, lower, i)) (i, w)) [
                | returned r e _ ↦ returned r (ground (arith, here, more, e)) tt
              ]
      ]
    ]

    -- A child that is left comes next.
    pub next-child :
        (ix c hix : ℕ) (tree : ProofTree) (below : List (ℕ × ℕ))
        → get_elem? arr.trees ix ≡ some tree
        → get_elem? tree.children c ≡ some hix
        → IsPath below
        → next arr explicit depth (record { stack = (ix, c) ∷ below })
          ≡ next arr explicit depth (record { stack = (hix, 0) ∷ (ix, c) ∷ below })
    unfolding next
    next-child ix c hix tree below here more w =
        let inside = get_elem?-inside arr.trees ix here in
        let lower : hix < ix =
          All-get_elem? (λ k. k < ix) tree.children c (topological ix tree here).1 more in
        elim (next-enough (length arr.trees) hix 0 ((ix, c) ∷ below) (omega (arith, lower, inside))
          (omega (arith, lower, inside)) (inside, w)) [
            | returned r e _ ↦
                let deeper = next-more (length arr.trees) ((hix, 0) ∷ (ix, c) ∷ below) r e in
                ground (arith, here, more, e) ∙ sym deeper
          ]
