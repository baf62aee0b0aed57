-- ===== src/Scopeck/Ordered.antt =====
-- src/scopeck.rs: the promise of a frame to the verifier. Processing the hypotheses in order never
-- needs a variable before it has been set, and sets none twice.
use metamath_knife.Base.{ℕ, true, false, List, [], ◌∷◌, ◌≡◌, All, contains}
use metamath_knife.Scopeck.{ExprFragment, Hyp, essential, floating, Frame}

-- The variables set by the hypotheses, and those set before.
abbrev pub defined : List ℕ → List Hyp → List ℕ
defined vars [] = vars
defined vars (floating _ var _ ∷ hyps) = defined (var ∷ vars) hyps
defined vars (essential _ _ ∷ hyps) = defined vars hyps

abbrev pub VarsIn : List ℕ → List ExprFragment → Type 0
VarsIn vars parts = All (λ part. contains vars part.var ≡ true) parts

abbrev pub IsOrdered : List ℕ → List Hyp → Type 0
IsOrdered vars [] = Unit {0}
IsOrdered vars (floating _ var _ ∷ hyps) = (contains vars var ≡ false) × IsOrdered (var ∷ vars) hyps
IsOrdered vars (essential _ expr ∷ hyps) = VarsIn vars expr.tail × IsOrdered vars hyps

pub record IsWellFormed (f : Frame) : Type 0 where
  pub ordered : IsOrdered [] f.hypotheses
  pub target_vars : VarsIn (defined [] f.hypotheses) f.target.tail
  pub dv_vars :
      All
        (λ pair.
          (contains (defined [] f.hypotheses) pair.0 ≡ true)
          × (contains (defined [] f.hypotheses) pair.1 ≡ true))
        f.mandatory_dv
