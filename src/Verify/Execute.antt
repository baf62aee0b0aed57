-- ===== src/Verify/Execute.antt =====
-- src/verify.rs: executing a step, which pops the hypotheses of an assertion off the stack and
-- pushes what it proves.
use metamath_knife.Base.{
  ℕ, ◌+◌, ◌-◌, Bool, true, false, not, Option, none, some, List, [], ◌∷◌, ◌++◌, length, get_elem?,
  set, take, drop, replicate, ltb, leb, ◌==◌, if◌then◌else◌, bytes_eq,
}
use metamath_knife.BitSet
use metamath_knife.BitSet.{Bitset, has_bit, bitor_assign, elements}
use metamath_knife.Diag.{
  Outcome, ok, panic, ok_or, try_assert, ◌>>=◌, ◌>>◌, step_float_wrong_type, step_essen_wrong_type,
  step_essen_wrong, step_out_of_range, proof_underflow, proof_dv_violation,
}
use metamath_knife.Scopeck.{Range, ExprFragment, VerifyExpr, Hyp, essential, floating, Frame}
use metamath_knife.Verify.{hyp, assertion, StackSlot, VerifyState, slice_of, index}

-- What has been found for each variable: a range of the buffer and the variables in it.
abbrev pub Substitution : Type 0
Substitution = List (Range × Bitset)

-- The parts of an expression up to the last variable; `copy_portion` reads the buffer that grows.
unfoldable pub substitute_fragments :
    List ℕ → List ℕ → Substitution → List ExprFragment → Outcome (List ℕ)
substitute_fragments pool target vars [] = ok target
substitute_fragments pool target vars (part ∷ parts) = do
  prefix ← slice_of pool part.prefix
  let extended = target ++ prefix
  info ← index vars part.var
  portion ← slice_of extended info.0
  substitute_fragments pool (extended ++ portion) vars parts

unfoldable pub do_substitute : List ℕ → Frame → VerifyExpr → Substitution → Outcome (List ℕ)
unfolding substitute_fragments
do_substitute target frame expr vars = do
  target' ← substitute_fragments frame.const_pool target vars expr.tail
  rump ← slice_of frame.const_pool expr.rump
  ok (target' ++ rump)

-- Drops a prefix; `none` where there is no such prefix.
unfoldable pub step : List ℕ → List ℕ → Option (List ℕ)
step compare piece =
    if ltb (length compare) (length piece)
    then none
    else if not (bytes_eq piece (take (length piece) compare))
    then none
    else some (drop (length piece) compare)

abbrev pub and_then : Option (List ℕ) → (List ℕ → Outcome Bool) → Outcome Bool
and_then none k = ok false
and_then (some rest) k = k rest

abbrev pub is_empty : List ℕ → Bool
is_empty [] = true
is_empty (x ∷ xs) = false

unfoldable pub compare_fragments :
    List ℕ → List ℕ → Range → Substitution → List ℕ → List ExprFragment → Outcome Bool
unfolding step
compare_fragments compare pool rump vars var_buffer [] = do
  last ← slice_of pool rump
  and_then (step compare last) (λ rest. ok (is_empty rest))
compare_fragments compare pool rump vars var_buffer (part ∷ parts) = do
  prefix ← slice_of pool part.prefix
  and_then (step compare prefix) λ rest. do
    info ← index vars part.var
    portion ← slice_of var_buffer info.0
    and_then (step rest portion) λ rest'. compare_fragments rest' pool rump vars var_buffer parts

unfoldable pub do_substitute_eq : List ℕ → Frame → VerifyExpr → Substitution → List ℕ → Outcome Bool
unfolding compare_fragments
do_substitute_eq compare frame expr vars var_buffer =
    compare_fragments compare frame.const_pool expr.rump vars var_buffer expr.tail

unfoldable pub union_vars : Bitset → Substitution → List ExprFragment → Outcome Bitset
union_vars out vars [] = ok out
union_vars out vars (part ∷ parts) = do
  info ← index vars part.var
  union_vars (bitor_assign out info.1) vars parts

unfoldable pub do_substitute_vars : List ExprFragment → Substitution → Outcome Bitset
unfolding union_vars
do_substitute_vars expr vars = union_vars BitSet.new vars expr

-- `self[i] = v`
abbrev pub store {ℓ} : {A : Type ℓ} → List A → ℕ → A → Outcome (List A)
store xs i v = if ltb i (length xs) then ok (set xs i v) else panic

unfoldable pub process_hyp : VerifyState → Frame → ℕ → Hyp → Outcome VerifyState
process_hyp st frame ix (floating _ var code) = do
  slot ← index st.stack ix
  try_assert (slot.code == code) step_float_wrong_type
  info ← store st.subst_info var (slot.expr, slot.vars)
  ok (record st { subst_info = info })
process_hyp st frame ix (essential _ expr) = do
  slot ← index st.stack ix
  try_assert (slot.code == expr.typecode) step_essen_wrong_type
  bytes ← slice_of st.stack_buffer slot.expr
  same ← do_substitute_eq bytes frame expr st.subst_info st.stack_buffer
  try_assert same step_essen_wrong
  ok st

-- `for (ix, hyp) in fref.hypotheses.iter().enumerate()`, the hypotheses left, in stack order.
unfoldable pub process_hyps : VerifyState → Frame → ℕ → List Hyp → Outcome VerifyState
unfolding process_hyp
process_hyps st frame ix [] = ok st
process_hyps st frame ix (h ∷ hyps) = do
  st' ← process_hyp st frame ix h
  process_hyps st' frame (ix + 1) hyps

-- Every pair of a variable in one substituted expression and one in the other is disjoint.
unfoldable pub disjoint_from : List Bitset → ℕ → List ℕ → Outcome (Unit {0})
disjoint_from dv_map var1 [] = ok tt
disjoint_from dv_map var1 (var2 ∷ vars) = do
  try_assert (elim (get_elem? dv_map var1) [ none ↦ false | some row ↦ has_bit row var2 ])
      proof_dv_violation
  disjoint_from dv_map var1 vars

-- The second substitution is read for each variable of the first.
unfoldable pub all_disjoint : List Bitset → Substitution → ℕ → List ℕ → Outcome (Unit {0})
unfolding disjoint_from
all_disjoint dv_map info ix2 [] = ok tt
all_disjoint dv_map info ix2 (var1 ∷ vars) = do
  right ← index info ix2
  disjoint_from dv_map var1 (elements right.1)
  all_disjoint dv_map info ix2 vars

unfoldable pub check_dv : List Bitset → Substitution → List (ℕ × ℕ) → Outcome (Unit {0})
unfolding all_disjoint
check_dv dv_map info [] = ok tt
check_dv dv_map info ((ix1, ix2) ∷ pairs) = do
  left ← index info ix1
  all_disjoint dv_map info ix2 (elements left.1)
  check_dv dv_map info pairs

-- The assertion's slots of the substitution; stale ones stay.
abbrev pub reserve : Substitution → ℕ → Substitution
reserve info count =
    info ++ replicate (count - length info) (record { start = 0; end = 0 }, BitSet.new)

-- The substituted target replaces the hypotheses on the stack.
unfoldable pub push_target : Frame → Frame → ℕ → VerifyState → Outcome VerifyState
unfolding do_substitute do_substitute_vars
push_target cur fref sbase st = do
  let tos = length st.stack_buffer
  buf ← do_substitute st.stack_buffer fref fref.target st.subst_info
  vars ← do_substitute_vars fref.target.tail st.subst_info
  let slot : StackSlot = record {
    code = fref.target.typecode;
    vars = vars;
    expr = record { start = tos; end = length buf };
  }
  let st' : VerifyState = record st { stack_buffer = buf; stack = take sbase st.stack ++ slot ∷ [] }
  check_dv cur.optional_dv st.subst_info fref.mandatory_dv
  ok st'

-- An assertion applied in the order of its hypotheses.
unfoldable pub apply_assertion : Frame → VerifyState → Frame → Outcome VerifyState
unfolding process_hyps push_target
apply_assertion cur st fref = do
  try_assert (leb (length fref.hypotheses) (length st.stack)) proof_underflow
  let sbase = length st.stack - length fref.hypotheses
  let ready : VerifyState = record st { subst_info = reserve st.subst_info fref.mandatory_count }
  st' ← process_hyps ready fref sbase fref.hypotheses
  push_target cur fref sbase st'

abbrev pub push_slot : VerifyState → StackSlot → VerifyState
push_slot st slot = record st { stack = st.stack ++ slot ∷ [] }

-- `execute_step` with no explicit stack.
unfoldable pub execute_step : Frame → VerifyState → ℕ → Outcome VerifyState
unfolding apply_assertion
execute_step cur st ix = do
  step ← ok_or (get_elem? st.prepared ix) step_out_of_range
  elim step [
    | hyp vars code expr ↦ ok (push_slot st (record { vars = vars; code = code; expr = expr }))
    | assertion fref ↦ apply_assertion cur st fref
  ]
