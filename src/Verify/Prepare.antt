-- ===== src/Verify/Prepare.antt =====
-- src/verify.rs: preparing the steps that a proof can name.
use Prim.Native.Nat.{Ordering}
use metamath_knife.Base.{
  ℕ, ◌+◌, ◌-◌, Bool, true, false, ◌&&◌, Option, none, some, List, [], ◌∷◌, ◌++◌, length, take, drop,
  ltb, ◌==◌, if◌then◌else◌, mark_last, position, bytes_eq,
}
use metamath_knife.Base.Map
use metamath_knife.Address.{Token, Span, StatementType, axiom_, provable}
use metamath_knife.BitSet
use metamath_knife.BitSet.{Bitset, set_bit}
use metamath_knife.Diag.{
  Outcome, ok, or_panic, try_assert, assert, ◌>>=◌, ◌>>◌, local_label_ambiguous, step_missing,
  step_used_before_definition, step_used_after_scope,
}
use metamath_knife.Scopeck.{ExprFragment, Hyp, essential, floating, Frame, typecode}
use metamath_knife.Verify.{Oracle, hyp, assertion, VerifyState, nat_eq, slice_of, index}

-- `b':'` and `b'='`
abbrev pub colon : ℕ
colon = 58

abbrev pub equals : ℕ
equals = 61

-- The number of a variable: its own, or the next free one.
unfoldable pub map_var : List (ℕ × ℕ) → ℕ → List (ℕ × ℕ) × ℕ
map_var m token = elim (Map.lookup nat_eq token m) [
  | some n ↦ (m, n)
  | none ↦ (Map.insert nat_eq token (length m) m, length m)
]

-- `for &var in &*frame.var_list { vars.set_bit(map_var(state, var)); }`
unfoldable pub map_vars : List (ℕ × ℕ) → Bitset → List ℕ → List (ℕ × ℕ) × Bitset
map_vars m vars [] = (m, vars)
map_vars m vars (a ∷ as') = let (m', n) = map_var m a in map_vars m' (set_bit vars n) as'

-- `stmt_type == Axiom || stmt_type == Provable`
abbrev pub is_assertion : StatementType → Bool
is_assertion axiom_ = true
is_assertion provable = true
is_assertion _ = false

pub record StepParse : Type 0 where
  pub fwdref : Option Token
  pub hyptok : Option Token
  pub label : Option Token

abbrev pub no_parse : StepParse
no_parse = record { fwdref = none; hyptok = none; label = none }

abbrev pub split_at : Token → Option ℕ → Option ℕ → Option Token × Option Token × Token
split_at label none none = (none, none, label)
split_at label (some m) none = (some (take m label), none, drop (m + 1) label)
split_at label none (some n) = (none, some (take n label), drop (n + 1) label)
split_at label (some m) (some n) =
    if ltb m n
    then (some (take m label), some (take (n - (m + 1)) (drop (m + 1) label)), drop (n + 1) label)
    else (some (take (m - (n + 1)) (drop (n + 1) label)), some (take n label), drop (n + 1) label)

-- A step token of a packed or explicit proof: forward reference, hypothesis and label.
unfoldable pub split_step : Token → Option Token × Option Token × Token
split_step label = split_at label (position colon label) (position equals label)

module _ (o : Oracle) (cur : Frame) where
  -- `fast_extend` by the name of a variable of the current frame, its last byte marked.
  unfoldable pub push_name : List ℕ → ℕ → Outcome (List ℕ)
  push_name buf var = do
    atom ← index cur.var_list var
    name ← or_panic (o.atom_name atom)
    or_panic (mark_last (buf ++ name))

  unfoldable pub push_fragments : List ℕ → Bitset → List ExprFragment → Outcome (List ℕ × Bitset)
  push_fragments buf vars [] = ok (buf, vars)
  push_fragments buf vars (part ∷ parts) = do
    prefix ← slice_of cur.const_pool part.prefix
    buf' ← push_name (buf ++ prefix) part.var
    push_fragments buf' (set_bit vars part.var) parts

  unfoldable pub push_hypothesis : List ℕ → Hyp → Outcome (List ℕ × Bitset)
  push_hypothesis buf (floating _ var _) = do
    buf' ← push_name buf var
    ok (buf', set_bit BitSet.new var)
  push_hypothesis buf (essential _ expr) = do
    pushed ← push_fragments buf BitSet.new expr.tail
    rump ← slice_of cur.const_pool expr.rump
    ok (pushed.0 ++ rump, pushed.1)

  unfoldable pub prepare_hypothesis : VerifyState → Hyp → Outcome VerifyState
  unfolding push_hypothesis push_fragments push_name
  prepare_hypothesis st h = do
    pushed ← push_hypothesis st.stack_buffer h
    let tos = length st.stack_buffer
    ok (record st {
      stack_buffer = pushed.0;
      prepared =
          st.prepared
          ++ hyp pushed.1 (typecode h) (record { start = tos; end = length pushed.0 }) ∷ [];
    })

  -- `for hyp in &*state.cur_frame.hypotheses`, the hypotheses left.
  unfoldable pub find_named_hyp : VerifyState → Token → List Hyp → Outcome (VerifyState × Bool)
  find_named_hyp st label [] = ok (st, false)
  find_named_hyp st label (floating _ _ _ ∷ hyps) = find_named_hyp st label hyps
  find_named_hyp st label (essential addr expr ∷ hyps) = do
    assert (addr.segment_id == o.this_seg)
    name ← or_panic (o.statement_label addr.index)
    let rest = find_named_hyp st label hyps
    if bytes_eq name label
        then (do st' ← prepare_hypothesis st (essential addr expr); ok (st', true))
        else rest

  unfoldable pub prepare_named_hyp : VerifyState → Token → Outcome (VerifyState × Bool)
  unfolding find_named_hyp
  prepare_named_hyp st label = find_named_hyp st label cur.hypotheses

  -- The frame may be used at this place of the database: no circular reasoning.
  unfoldable pub check_scope : Frame → Token → Outcome (Unit {0})
  check_scope frame label = do
    let pos = cur.valid.start
    try_assert (elim (o.cmp pos frame.valid.start) [ Ordering.gt ↦ true | _ ↦ false ])
        (step_used_before_definition label)
    try_assert
        (elim frame.valid.end [
          | none ↦ true
          | some end ↦ pos.segment_id == frame.valid.start.segment_id && ltb pos.index end
        ])
        (step_used_after_scope label)

  -- An assertion is prepared as it is, a `$f` statement as the variable that it types.
  unfoldable pub prepare_frame : VerifyState → Frame → VerifyState
  prepare_frame st frame =
      if is_assertion frame.stype
      then record st { prepared = st.prepared ++ assertion frame ∷ [] }
      else let (m, vars) = map_vars st.var2bit BitSet.new frame.var_list in
        let tos = length st.stack_buffer in
        let buf = st.stack_buffer ++ frame.stub_expr in
        record st {
          var2bit = m;
          stack_buffer = buf;
          prepared =
              st.prepared
              ++ hyp vars frame.target.typecode (record { start = tos; end = length buf }) ∷ [];
        }

  unfoldable pub use_frame :
      VerifyState → Frame → Token → StepParse → Outcome (VerifyState × StepParse)
  unfolding check_scope prepare_frame
  use_frame st frame label out = do check_scope frame label; ok (prepare_frame st frame, out)

  -- What follows when the label is no assertion and no `$f`: a `$e`, or a local label.
  unfoldable pub named_or_local :
      VerifyState → Token → StepParse → Outcome (VerifyState × StepParse)
  unfolding prepare_named_hyp
  named_or_local st label out = do
    found ← prepare_named_hyp st label
    ok (found.0, if found.1 then out else record out { label = some label })

  -- A local label is the label of no statement.
  unfoldable pub check_fwdref : Option Token → Span → Outcome (Unit {0})
  check_fwdref none span = ok tt
  check_fwdref (some x) span =
      try_assert (elim (o.get x) [ none ↦ true | some _ ↦ false ]) (local_label_ambiguous span)

  -- The label without the parts before it is looked up; an error of scope names the whole token.
  unfoldable pub prepare_label :
      VerifyState → Token → Token → StepParse → Outcome (VerifyState × StepParse)
  unfolding use_frame named_or_local
  prepare_label st token label out = elim (o.get label) [
    | some frame ↦ use_frame st frame token out
    | none ↦ named_or_local st label out
  ]

  -- The packed and explicit forms.
  unfoldable pub prepare_local : VerifyState → Token → Span → Outcome (VerifyState × StepParse)
  unfolding prepare_label check_fwdref split_step
  prepare_local st token span = do
    let parts = split_step token
    check_fwdref parts.0 span
    prepare_label st token parts.2 (record { fwdref = parts.0; hyptok = parts.1; label = none })

  unfoldable pub named_or_missing : VerifyState → Token → Outcome (VerifyState × StepParse)
  unfolding prepare_named_hyp
  named_or_missing st label = do
    found ← prepare_named_hyp st label
    try_assert found.1 (step_missing label)
    ok (found.0, no_parse)

  unfoldable pub prepare_step :
      VerifyState → Token → Option Span → Outcome (VerifyState × StepParse)
  unfolding use_frame prepare_local named_or_missing
  prepare_step st label span = elim (o.get label) [
    | some frame ↦ use_frame st frame label no_parse
    | none ↦ elim span [ none ↦ named_or_missing st label | some s ↦ prepare_local st label s ]
  ]
