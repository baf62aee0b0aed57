-- ===== src/Proof/Tree.antt =====
-- src/proof.rs: proof trees as trees, and the stack machine that reads a proof in reverse Polish notation.
use metamath_knife.Base.{
  ℕ, zero, suc, some, List, [], ◌∷◌, ◌++◌, length, get_elem?, ◌==◌, if◌then◌else◌, ◌≡◌,
}
use metamath_knife.Address.{StatementAddress}
use metamath_knife.Diag.{Outcome, ok, panic, or_panic, ◌>>=◌}
use metamath_knife.Proof.{ProofTree, RpnStep, normal, backref}

-- A statement applied to proofs of its hypotheses, the first hypothesis first.
mutual
  pub data Proof : Type 0 where
    apply : StatementAddress → Proofs → Proof

  pub data Proofs : Type 0 where
    nil : Proofs
    cons : Proof → Proofs → Proofs

-- A tree of the array stands for a proof.
mutual
  pub data Denotes (trees : List ProofTree) : ℕ → Proof → Type 0 where
    applied :
        (ix : ℕ) (tree : ProofTree) (ps : Proofs)
        → get_elem? trees ix ≡ some tree
        → DenoteAll trees tree.children ps
        → Denotes trees ix (apply tree.address ps)

  pub data DenoteAll (trees : List ProofTree) : List ℕ → Proofs → Type 0 where
    none_left : DenoteAll trees [] nil
    one_more :
        (ix : ℕ) (ixs : List ℕ) (p : Proof) (ps : Proofs)
        → Denotes trees ix p
        → DenoteAll trees ixs ps
        → DenoteAll trees (ix ∷ ixs) (cons p ps)

-- The stack, its top first, and the proofs with a number, in the order of the numbers.
pub record Machine : Type 0 where
  pub stack : List Proof
  pub saved : List Proof

-- The arguments of a statement, taken off the stack: the last one is on top.
unfoldable pub take_args : ℕ → List Proof → Proofs → Outcome (Proofs × List Proof)
take_args zero stack args = ok (args, stack)
take_args (suc n) [] args = panic
take_args (suc n) (p ∷ stack) args = take_args n stack (cons p args)

-- Numbers are given out in turn, from one on; zero is no number.
abbrev pub save : ℕ → Proof → List Proof → Outcome (List Proof)
save number p saved =
    if number == 0
    then ok saved
    else if number == suc (length saved)
    then ok (saved ++ p ∷ [])
    else panic

-- One step; `arity` is the number of hypotheses of a statement.
unfoldable pub replay_step : (StatementAddress → ℕ) → Machine → RpnStep → Outcome Machine
unfolding take_args
replay_step arity m (normal fwdref addr hyp) = do
  taken ← take_args (arity addr) m.stack nil
  saved ← save fwdref (apply addr taken.0) m.saved
  ok (record { stack = apply addr taken.0 ∷ taken.1; saved = saved })
replay_step arity m (backref number hyp) = elim number [
  | zero ↦ panic
  | suc k ↦ do p ← or_panic (get_elem? m.saved k); ok (record m { stack = p ∷ m.stack })
]

unfoldable pub replay : (StatementAddress → ℕ) → Machine → List RpnStep → Outcome Machine
unfolding replay_step
replay arity m [] = ok m
replay arity m (step ∷ steps) = do m' ← replay_step arity m step; replay arity m' steps

abbrev pub empty_machine : Machine
empty_machine = record { stack = []; saved = [] }
