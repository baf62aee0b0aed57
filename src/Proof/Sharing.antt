-- ===== src/Proof/Sharing.antt =====
-- src/proof.rs: `to_rpn` writes the tree of the last step, with a number for every subtree that is shared.
use metamath_knife.Base.{
  ℕ, zero, suc, ◌+◌, ◌<◌, Bool, not, ◌&&◌, none, some, List, [], ◌∷◌, ◌++◌, length, length-append,
  length-set, length-replicate, get_elem?, get_elem?-set_self, get_elem?-set_ne, set, replicate,
  ltb, ◌==◌, All, Bool-cases, found, get_elem?-Found, get_elem?-inside, get_elem?-append_left,
  get_elem?-append_end, get_elem?-replicate, ◌≡◌, refl, sym, ap, subst, ◌∙◌, inl, inr, arith,
  ==_iff,
}
use metamath_knife.Address.{StatementAddress}
use metamath_knife.Diag.{Outcome, ok}
use metamath_knife.Scanner.Moves.{Returns, returned}
use metamath_knife.Proof.{
  ProofTree, ProofTreeArray, HypRef, normal, backref, Env, emit, is_leaf, emit_normal, hyp_ref,
  output_children, output_step, to_rpn,
}
use metamath_knife.Proof.Tree.{
  Proof, apply, Proofs, nil, cons, Denotes, applied, DenoteAll, none_left, one_more, Machine,
  take_args, save, replay_step, replay, empty_machine,
}
use metamath_knife.Proof.Replay.{push_all, count, DenoteAll-count, take_args-push_all, replay-emit}

-- A tree has as many children as its statement has hypotheses, and they stand before it in the array.
abbrev pub IsTopological : (StatementAddress → ℕ) → List ProofTree → Type 0
IsTopological arity trees =
    (ix : ℕ) (tree : ProofTree)
    → get_elem? trees ix ≡ some tree
    → (length tree.children ≡ arity tree.address) × All (λ c. c < ix) tree.children

-- The number of a tree is the place where the machine has saved it.
pub record IsShared (arity : StatementAddress → ℕ) (trees : List ProofTree) (env : Env)
    (m : Machine) : Type 0 where
  pub replayed : replay arity empty_machine env.out ≡ ok m
  pub numbers : length m.saved ≡ env.count
  pub size : length env.backrefs ≡ length trees
  pub shared :
      (ix k : ℕ)
      → get_elem? env.backrefs ix ≡ some (suc k)
      → (p : Proof) × ((get_elem? m.saved k ≡ some p) × Denotes trees ix p)

-- A tree was written: its proof is on the stack.
pub record IsWritten (arity : StatementAddress → ℕ) (trees : List ProofTree) (stack : List Proof)
    (step : ℕ) (env : Env) : Type 0 where
  pub proof : Proof
  pub machine : Machine
  pub shared : IsShared arity trees env machine
  pub on_top : machine.stack ≡ proof ∷ stack
  pub denotes : Denotes trees step proof

record AreWritten (arity : StatementAddress → ℕ) (trees : List ProofTree) (stack : List Proof)
    (steps : List ℕ) (env : Env) : Type 0 where
  proofs : Proofs
  machine : Machine
  shared : IsShared arity trees env machine
  on_top : machine.stack ≡ push_all proofs stack
  denotes : DenoteAll trees steps proofs

module _ (arity : StatementAddress → ℕ) (arr : ProofTreeArray) (parents : List ℕ)
    (explicit : Bool) where
  backref-IsWritten :
      (env : Env) (m : Machine) (step k : ℕ) (hyp : HypRef)
      → IsShared arity arr.trees env m
      → get_elem? env.backrefs step ≡ some (suc k)
      → IsWritten arity arr.trees m.stack step (emit env (backref (suc k) hyp))
  unfolding replay_step
  backref-IsWritten env m step k hyp s e =
      let (p, (saved, d)) = s.shared step k e in
      record {
        proof = p;
        machine = record m { stack = p ∷ m.stack };
        shared = record {
          replayed =
              replay-emit arity empty_machine env.out (backref (suc k) hyp) s.replayed
                (ground (arith, saved));
          numbers = s.numbers;
          size = s.size;
          shared = s.shared;
        };
        on_top = refl;
        denotes = d;
      }

  replay_step-normal :
      (m : Machine) (tree : ProofTree) (stack : List Proof) (ps : Proofs) (fwdref : ℕ)
      (hyp : HypRef) (saved : List Proof)
      → m.stack ≡ push_all ps stack
      → count ps ≡ arity tree.address
      → save fwdref (apply tree.address ps) m.saved ≡ ok saved
      → replay_step arity m (normal fwdref tree.address hyp)
        ≡ ok (record { stack = apply tree.address ps ∷ stack; saved = saved })
  unfolding replay_step
  replay_step-normal m tree stack ps fwdref hyp saved e n h =
      let args : take_args (arity tree.address) m.stack nil ≡ ok (ps, stack) =
        subst (λ k. take_args k m.stack nil ≡ ok (ps, stack)) n
          (subst (λ st. take_args (count ps) st nil ≡ ok (ps, stack)) (sym e)
            (take_args-push_all ps stack)) in
      rw args (rw h refl)

  -- The new number stands for the new proof, and the others for what they stood for.
  numbered :
      (env : Env) (m : Machine) (step : ℕ) (p : Proof)
      → step < length arr.trees
      → IsShared arity arr.trees env m
      → Denotes arr.trees step p
      → (ix k : ℕ) → get_elem? (set env.backrefs step (env.count + 1)) ix ≡ some (suc k)
      → (q : Proof) × ((get_elem? (m.saved ++ p ∷ []) k ≡ some q) × Denotes arr.trees ix q)
  numbered env m step p h s d ix k e = elim (Bool-cases (step == ix)) [
    | inl same ↦
        let here : step ≡ ix = (==_iff step ix).0 same in
        let found_here =
          get_elem?-set_self env.backrefs step (env.count + 1) (omega (arith, h, s.size)) in
        let last_number : k ≡ length m.saved =
          let number : suc k ≡ env.count + 1 = cc (e, here, found_here) in
          omega (arith, number, s.numbers) in
        (
          p,
          (
            subst (λ i. get_elem? (m.saved ++ p ∷ []) i ≡ some p) (sym last_number)
                (get_elem?-append_end m.saved p),
            subst (λ i. Denotes arr.trees i p) here d,
          ),
        )
    | inr other ↦
        let (q, (saved, d')) = s.shared ix k (
          sym (get_elem?-set_ne env.backrefs (env.count + 1) (λ x. ground (arith, other, x)))
          ∙ e) in
        (q, (get_elem?-append_left m.saved (p ∷ []) k saved, d'))
  ]

  normal-IsWritten :
      (env : Env) (stack : List Proof) (step uses : ℕ) (tree : ProofTree) (hyp : HypRef)
      → get_elem? arr.trees step ≡ some tree
      → length tree.children ≡ arity tree.address
      → AreWritten arity arr.trees stack tree.children env
      → IsWritten arity arr.trees stack step (emit_normal env step tree uses hyp)
  normal-IsWritten env stack step uses tree hyp e n w =
      let d : Denotes arr.trees step (apply tree.address w.proofs) =
        applied step tree w.proofs e w.denotes in
      let args = DenoteAll-count arr.trees tree.children w.proofs w.denotes ∙ n in
      elim (Bool-cases (ltb 1 uses && not (is_leaf tree.children))) [
        | inr once ↦ rw once (record {
          proof = apply tree.address w.proofs;
          machine = record { stack = apply tree.address w.proofs ∷ stack; saved = w.machine.saved };
          shared = record {
            replayed =
                replay-emit arity empty_machine env.out (normal 0 tree.address hyp)
                  w.shared.replayed
                  (replay_step-normal w.machine tree stack w.proofs 0 hyp w.machine.saved w.on_top
                    args refl);
            numbers = w.shared.numbers;
            size = w.shared.size;
            shared = w.shared.shared;
          };
          on_top = refl;
          denotes = d;
        })
        | inl again ↦ rw again (record {
          proof = apply tree.address w.proofs;
          machine = record {
            stack = apply tree.address w.proofs ∷ stack;
            saved = w.machine.saved ++ apply tree.address w.proofs ∷ [];
          };
          shared = record {
            replayed =
                replay-emit arity empty_machine env.out (normal (env.count + 1) tree.address hyp)
                  w.shared.replayed
                  (replay_step-normal w.machine tree stack w.proofs (env.count + 1) hyp
                    (w.machine.saved ++ apply tree.address w.proofs ∷ []) w.on_top args
                    (ground (arith, w.shared.numbers)));
            numbers = omega (
              arith,
              w.shared.numbers,
              length-append w.machine.saved (apply tree.address w.proofs ∷ []),
            );
            size = length-set env.backrefs step (env.count + 1) ∙ w.shared.size;
            shared =
                numbered env w.machine step (apply tree.address w.proofs)
                  (get_elem?-inside arr.trees step e) w.shared d;
          };
          on_top = refl;
          denotes = d;
        })
      ]

  -- The children, when `output` writes each one of them.
  output_children-AreWritten :
      (output : Env → ℕ → HypRef → Outcome Env) (bound : ℕ)
      → ((env : Env) (m : Machine) (step : ℕ) (hyp : HypRef)
          → step < bound
          → IsShared arity arr.trees env m
          → Returns (IsWritten arity arr.trees m.stack step) (output env step hyp))
      → (addr : StatementAddress) (i : ℕ) (steps : List ℕ) (env : Env) (m : Machine)
      → All (λ c. c < bound) steps
      → IsShared arity arr.trees env m
      → Returns
          (AreWritten arity arr.trees m.stack steps)
          (output_children arr parents explicit output env addr i steps)
  output_children-AreWritten output bound writes addr i [] env m below s =
      returned env refl
        (record { proofs = nil; machine = m; shared = s; on_top = refl; denotes = none_left })
  output_children-AreWritten output bound writes addr i (step ∷ steps) env m (b, below) s =
      elim (writes env m step (hyp_ref arr parents explicit addr i) b s) [
        | returned env1 e w ↦
            elim (output_children-AreWritten output bound writes addr (suc i) steps env1 w.machine
              below w.shared) [
                | returned env2 e2 ws ↦ returned env2 (ground (arith, e, e2)) (record {
                  proofs = cons w.proof ws.proofs;
                  machine = ws.machine;
                  shared = ws.shared;
                  on_top = ws.on_top ∙ ap (push_all ws.proofs) w.on_top;
                  denotes = one_more step steps w.proof ws.proofs w.denotes ws.denotes;
                })
              ]
      ]

  module _ (topological : IsTopological arity arr.trees)
      (counted : length parents ≡ length arr.trees) where
    output_step-IsWritten :
        (fuel : ℕ) (env : Env) (m : Machine) (step : ℕ) (hyp : HypRef)
        → step < fuel
        → step < length arr.trees
        → IsShared arity arr.trees env m
        → Returns
            (IsWritten arity arr.trees m.stack step)
            (output_step arr parents explicit fuel env step hyp)
    unfolding output_step
    output_step-IsWritten zero env m step hyp enough inside s = absurd (omega (arith, enough))
    output_step-IsWritten (suc fuel) env m step hyp enough inside s =
        elim (get_elem?-Found env.backrefs step (omega (arith, inside, s.size))) [
          | found (suc k) e ↦
              returned (emit env (backref (suc k) hyp)) (ground (arith, e))
                (backref-IsWritten env m step k hyp s e)
          | found zero e ↦ elim (get_elem?-Found arr.trees step inside) [
            | found tree e1 ↦
                let (n, below) = topological step tree e1 in
                elim (output_children-AreWritten (output_step arr parents explicit fuel) step
                  (λ env' m' step' hyp' b s'.
                    output_step-IsWritten fuel env' m' step' hyp' (omega (arith, b, enough))
                      (omega (arith, b, inside)) s')
                  tree.address 0 tree.children env m below s) [
                    | returned env1 e2 ws ↦
                        elim (get_elem?-Found parents step (omega (arith, inside, counted))) [
                          | found uses e3 ↦
                              returned (emit_normal env1 step tree uses hyp)
                                (ground (arith, e, e1, e2, e3))
                                (normal-IsWritten env1 m.stack step uses tree hyp e1 n ws)
                        ]
                  ]
          ]
        ]

    initial-IsShared :
        IsShared arity arr.trees
          (record { out = []; backrefs = replicate (length arr.trees) 0; count = 0 })
          empty_machine
    unfolding replay
    initial-IsShared = record {
      replayed = refl;
      numbers = refl;
      size = length-replicate (length arr.trees) 0;
      shared = λ ix k e. absurd (
          let none_yet : suc k ≡ 0 = get_elem?-replicate (length arr.trees) ix 0 e in
          omega (arith, none_yet));
    }

    -- For an array whose trees stand after their children and have as many as their statements have
    -- hypotheses, counts of parents for all of them, and a last step in the array, `to_rpn` returns in the
    -- fuel given. The steps can be replayed on an empty stack, with every number given out before it is
    -- used, and leave one proof, which is the one that the last step stands for.
    pub to_rpn-Denotes :
        arr.qed < length arr.trees
        → Returns
            (λ steps.
              (p : Proof) × ((m : Machine) × ((replay arity empty_machine steps ≡ ok m)
                  × ((m.stack ≡ p ∷ []) × Denotes arr.trees arr.qed p))))
            (to_rpn arr parents explicit)
    unfolding to_rpn
    to_rpn-Denotes inside =
        elim (output_step-IsWritten (suc arr.qed) _ empty_machine arr.qed none (omega arith) inside
          initial-IsShared) [
            | returned env e w ↦
                returned env.out (ground (arith, e))
                  (w.proof, (w.machine, (w.shared.replayed, (w.on_top, w.denotes))))
          ]
