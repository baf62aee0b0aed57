-- ===== src/Verify/Explicit.antt =====
-- src/verify.rs: `execute_step` with an explicit stack, where the proof names the hypothesis that
-- each step is for.
use metamath_knife.Base.{
  ℕ, suc, ◌+◌, ◌-◌, Bool, true, false, Option, none, some, List, [], ◌∷◌, length, get_elem?, set,
  take, drop, replicate, leb, if◌then◌else◌,
}
use metamath_knife.Address.{Token, StatementAddress, address_eq}
use metamath_knife.Diag.{
  Outcome, ok, err, panic, or_panic, ok_or, try_assert, ◌>>=◌, ◌>>◌, step_out_of_range,
  proof_underflow, bad_explicit_label, duplicate_explicit_label,
}
use metamath_knife.Scopeck.{Hyp, Frame, address}
use metamath_knife.Verify.{Oracle, hyp, assertion, VerifyState, index}
use metamath_knife.Verify.Execute.{process_hyp, process_hyps, push_target, push_slot, reserve}

abbrev pub ExplicitStack : Type 0
ExplicitStack = List (Option Token)

-- `fref.hypotheses.iter().position(|hyp| hyp.address() == addr)`
unfoldable pub hyp_position : StatementAddress → List Hyp → Option ℕ
hyp_position addr [] = none
hyp_position addr (h ∷ hyps) =
    if address_eq (address h) addr
    then some 0
    else elim (hyp_position addr hyps) [ none ↦ none | some i ↦ some (suc i) ]

-- The first slot that is free.
unfoldable pub free_slot : List (Option ℕ) → Option ℕ
free_slot [] = none
free_slot (none ∷ slots) = some 0
free_slot (some _ ∷ slots) = elim (free_slot slots) [ none ↦ none | some i ↦ some (suc i) ]

module _ (o : Oracle) where
  -- Are the hypotheses named in their own order? The hypotheses left.
  unfoldable pub check_order : ExplicitStack → ℕ → List Hyp → Outcome Bool
  check_order stack ix [] = ok true
  check_order stack ix (h ∷ hyps) = do
    entry ← index stack ix
    elim entry [
      | none ↦ check_order stack (ix + 1) hyps
      | some tok ↦ do
        addr ← ok_or (o.lookup_label tok) (bad_explicit_label tok)
        let rest = check_order stack (ix + 1) hyps
        if address_eq addr (address h) then rest else ok false
    ]

  -- The slot of each hypothesis that is named: `assn_hyps[hyp_ix] = Some(ix)`.
  unfoldable pub assign_named :
      List Hyp → List (Option ℕ) → ℕ → ExplicitStack → Outcome (List (Option ℕ))
  assign_named hyps slots ix [] = ok slots
  assign_named hyps slots ix (none ∷ rest) = assign_named hyps slots (ix + 1) rest
  assign_named hyps slots ix (some tok ∷ rest) = do
    addr ← or_panic (o.lookup_label tok)
    hyp_ix ← ok_or (hyp_position addr hyps) (bad_explicit_label tok)
    slot ← index slots hyp_ix
    try_assert (elim slot [ none ↦ true | some _ ↦ false ]) (duplicate_explicit_label tok)
    assign_named hyps (set slots hyp_ix (some ix)) (ix + 1) rest

  -- The other entries take the free slots in turn.
  unfoldable pub assign_rest : List (Option ℕ) → ℕ → ExplicitStack → Outcome (List (Option ℕ))
  assign_rest slots ix [] = ok slots
  assign_rest slots ix (some _ ∷ rest) = assign_rest slots (ix + 1) rest
  assign_rest slots ix (none ∷ rest) = do
    free ← or_panic (free_slot slots)
    assign_rest (set slots free (some ix)) (ix + 1) rest

  -- `process_hyp(...);` whose result is not looked at: an error leaves the state as it was.
  unfoldable pub process_hyp_unchecked : VerifyState → Frame → ℕ → Hyp → Outcome VerifyState
  process_hyp_unchecked st fref ix h = elim (process_hyp st fref ix h) [
    | ok st' ↦ ok st'
    | err d ↦ ok st
    | panic ↦ panic
  ]

  -- `for (ix, slot) in assn_hyps.iter().enumerate()`, the slots left.
  unfoldable pub process_reordered : VerifyState → Frame → ℕ → List (Option ℕ) → Outcome VerifyState
  unfolding process_hyp_unchecked
  process_reordered st fref ix [] = ok st
  process_reordered st fref ix (slot ∷ slots) = do
    i ← or_panic slot
    h ← index fref.hypotheses i
    st' ← process_hyp_unchecked st fref ix h
    process_reordered st' fref (ix + 1) slots

  -- `xs[lo..]` is no panic.
  abbrev suffix_exists : ℕ → ExplicitStack → Outcome (Unit {0})
  suffix_exists lo xs = if leb lo (length xs) then ok tt else panic

  reorder_hyps : VerifyState → Frame → ℕ → ExplicitStack → Outcome VerifyState
  unfolding process_reordered assign_named assign_rest
  reorder_hyps st fref sbase stack = do
    suffix_exists sbase stack
    named ←
        assign_named fref.hypotheses (replicate (length fref.hypotheses) none) 0 (drop sbase stack)
    slots ← assign_rest named 0 (drop sbase stack)
    process_reordered st fref sbase slots

  unfoldable pub process_explicit : VerifyState → Frame → ℕ → ExplicitStack → Outcome VerifyState
  unfolding check_order process_hyps reorder_hyps
  process_explicit st fref sbase stack = do
    in_order ← check_order stack sbase fref.hypotheses
    if in_order
        then process_hyps st fref sbase fref.hypotheses
        else reorder_hyps st fref sbase stack

  -- `execute_step` with an explicit stack, which loses the entries of the hypotheses.
  unfoldable pub execute_step_explicit :
      Frame → VerifyState → ℕ → ExplicitStack → Outcome (VerifyState × ExplicitStack)
  unfolding process_explicit push_target
  execute_step_explicit cur st ix stack = do
    step ← ok_or (get_elem? st.prepared ix) step_out_of_range
    elim step [
      | hyp vars code expr ↦
          ok (push_slot st (record { vars = vars; code = code; expr = expr }), stack)
      | assertion fref ↦ do
        try_assert (leb (length fref.hypotheses) (length st.stack)) proof_underflow
        let sbase = length st.stack - length fref.hypotheses
        let ready : VerifyState = record st {
          subst_info = reserve st.subst_info fref.mandatory_count;
        }
        st' ← process_explicit ready fref sbase stack
        done ← push_target cur fref sbase st'
        ok (done, take sbase stack)
    ]
