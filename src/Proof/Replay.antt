-- ===== src/Proof/Replay.antt =====
-- src/proof.rs: what the stack machine does with the steps of a subtree.
use metamath_knife.Base.{ℕ, suc, ◌+◌, List, [], ◌∷◌, ◌++◌, length, ◌≡◌, refl, ap, ◌∙◌, arith}
use metamath_knife.Address.{StatementAddress}
use metamath_knife.Diag.{ok, >>=-eq-ok, bound}
use metamath_knife.Proof.{ProofTree, RpnStep}
use metamath_knife.Proof.Tree.{
  Proof, Proofs, nil, cons, DenoteAll, none_left, one_more, Machine, take_args, replay_step, replay,
}

-- The stack with the proofs of the hypotheses on it, the last one on top.
abbrev pub push_all : Proofs → List Proof → List Proof
push_all nil stack = stack
push_all (cons p ps) stack = push_all ps (p ∷ stack)

abbrev pub count : Proofs → ℕ
count nil = 0
count (cons p ps) = suc (count ps)

abbrev pub joined : Proofs → Proofs → Proofs
joined nil qs = qs
joined (cons p ps) qs = cons p (joined ps qs)

joined-nil : (ps : Proofs) → joined ps nil ≡ ps
joined-nil nil = refl
joined-nil (cons p ps) = ap (cons p) (joined-nil ps)

pub DenoteAll-count :
    (trees : List ProofTree) (ixs : List ℕ) (ps : Proofs)
    → DenoteAll trees ixs ps
    → count ps ≡ length ixs
DenoteAll-count trees _ _ none_left = refl
DenoteAll-count trees _ _ (one_more ix ixs p ps d ds) = ap suc (DenoteAll-count trees ixs ps ds)

take_args-joined :
    (ps : Proofs) (n : ℕ) (stack : List Proof) (args : Proofs)
    → take_args (count ps + n) (push_all ps stack) args ≡ take_args n stack (joined ps args)
unfolding take_args
take_args-joined nil n stack args = ap (λ k. take_args k stack args) (omega arith)
take_args-joined (cons p ps) n stack args =
    ap (λ k. take_args k (push_all ps (p ∷ stack)) args) (omega arith)
    ∙ take_args-joined ps (suc n) (p ∷ stack) args

-- The arguments are what was put on the stack.
pub take_args-push_all :
    (ps : Proofs) (stack : List Proof)
    → take_args (count ps) (push_all ps stack) nil ≡ ok (ps, stack)
unfolding take_args
take_args-push_all ps stack =
    ap (λ k. take_args k (push_all ps stack) nil) (omega arith)
    ∙ take_args-joined ps 0 stack nil
    ∙ ap (λ qs. ok (qs, stack)) (joined-nil ps)

pub replay-append :
    (arity : StatementAddress → ℕ) (m : Machine) (xs ys : List RpnStep) {m' : Machine}
    → replay arity m xs ≡ ok m'
    → replay arity m (xs ++ ys) ≡ replay arity m' ys
unfolding replay
replay-append arity m [] ys e = cc (e)
replay-append arity m (x ∷ xs) ys e = elim (>>=-eq-ok (replay_step arity m x) _ e) [
  | bound t h k ↦ rw h (replay-append arity t xs ys k)
]

-- One step more.
pub replay-emit :
    (arity : StatementAddress → ℕ) (m : Machine) (xs : List RpnStep) (x : RpnStep)
    {m' m'' : Machine}
    → replay arity m xs ≡ ok m'
    → replay_step arity m' x ≡ ok m''
    → replay arity m (xs ++ x ∷ []) ≡ ok m''
unfolding replay
replay-emit arity m xs x e h = replay-append arity m xs (x ∷ []) e ∙ rw h refl
