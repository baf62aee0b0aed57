-- ===== src/Verify/Run.antt =====
-- src/verify.rs: running a whole proof, compressed or not, and the check of what it proves.
use metamath_knife.Base.{
  ℕ, ◌+◌, ◌-◌, ◌*◌, ◌/◌, ◌^◌, Bool, true, false, ◌&&◌, Option, none, some, List, [], ◌∷◌, ◌++◌,
  length, take, drop, replicate, ltb, leb, ◌==◌, if◌then◌else◌, bytes_eq,
}
use metamath_knife.Base.Map
use metamath_knife.Address.{Token, Span}
use metamath_knife.Diag.{
  Outcome, ok, err, or_panic, ok_or, try_assert, assert, ◌>>=◌, ◌>>◌, proof_unterminated_roster,
  proof_malformed_varint, proof_invalid_save, proof_incomplete, proof_excess_end, proof_no_steps,
  proof_wrong_type_end, proof_wrong_expr_end, chain_backref, step_missing, local_label_duplicate,
}
use metamath_knife.Scopeck.{ExprFragment, Hyp, Frame}
use metamath_knife.Verify.{Oracle, hyp, VerifyState, nat_eq, slice_of}
use metamath_knife.Verify.Prepare.{prepare_hypothesis, prepare_step, push_name}
use metamath_knife.Verify.Execute.{execute_step, Substitution}
use metamath_knife.Verify.Explicit.{ExplicitStack, execute_step_explicit}

abbrev pub last? {ℓ} : {A : Type ℓ} → List A → Option A
last? [] = none
last? (x ∷ []) = some x
last? (x ∷ y ∷ xs) = last? (y ∷ xs)

-- `Vec::pop`
abbrev pub pop {ℓ} : {A : Type ℓ} → List A → List A
pop xs = take (length xs - 1) xs

-- A saved step is prepared as the slot on the top of the stack.
unfoldable pub save_step : VerifyState → Outcome VerifyState
save_step st = do
  top ← or_panic (last? st.stack)
  ok (record st { prepared = st.prepared ++ hyp top.vars top.code top.expr ∷ [] })

-- The decoder of the step numbers: the digits so far, and whether the last step can be saved.
pub record Decoder : Type 0 where
  pub state : VerifyState
  pub k : ℕ
  pub can_save : Bool

abbrev between : ℕ → ℕ → ℕ → Bool
between lo hi ch = leb lo ch && leb ch hi

-- The loop of a proof that is not compressed.
pub record Normal : Type 0 where
  pub state : VerifyState
  pub count : ℕ
  pub backrefs : List (Token × ℕ)
  pub explicit : Option ExplicitStack

-- `u32::max_value() / 20 - 1`
abbrev pub varint_limit : ℕ
varint_limit = (2 ^ 32 - 1) / 20 - 1

abbrev pub is_none {ℓ} : {A : Type ℓ} → Option A → Bool
is_none none = true
is_none (some _) = false

module _ (o : Oracle) (cur : Frame) where
  -- The target with the names of its variables.
  unfoldable pub raw_fragments : List ℕ → List ExprFragment → Outcome (List ℕ)
  raw_fragments target [] = ok target
  raw_fragments target (part ∷ parts) = do
    prefix ← slice_of cur.const_pool part.prefix
    target' ← push_name o cur (target ++ prefix) part.var
    raw_fragments target' parts

  unfoldable pub do_substitute_raw : List ℕ → Outcome (List ℕ)
  unfolding raw_fragments
  do_substitute_raw target = do
    target' ← raw_fragments target cur.target.tail
    rump ← slice_of cur.const_pool cur.target.rump
    ok (target' ++ rump)

  unfoldable pub finalize_step : VerifyState → Outcome (Unit {0})
  unfolding do_substitute_raw
  finalize_step st = do
    try_assert (leb (length st.stack) 1) proof_excess_end
    tos ← ok_or (last? st.stack) proof_no_steps
    try_assert (tos.code == cur.target.typecode) proof_wrong_type_end
    claimed ← do_substitute_raw []
    proved ← slice_of st.stack_buffer tos.expr
    try_assert (bytes_eq proved claimed) proof_wrong_expr_end

  -- The hypotheses left.
  unfoldable pub prepare_hypotheses : VerifyState → List Hyp → Outcome VerifyState
  prepare_hypotheses st [] = ok st
  prepare_hypotheses st (h ∷ hyps) = do
    st' ← prepare_hypothesis o cur st h
    prepare_hypotheses st' hyps

  -- The labels up to `)`, and the tokens after it.
  unfoldable pub read_roster : VerifyState → List Token → Outcome (VerifyState × List Token)
  read_roster st [] = err proof_unterminated_roster
  read_roster st (chunk ∷ chunks) =
      if bytes_eq chunk (b')' ∷ [])
      then ok (st, chunks)
      else do step ← prepare_step o cur st chunk none; read_roster step.0 chunks

  -- The branches of the decoder: `A` to `T`, `U` to `Y`, and `Z`.
  unfoldable pub step_number : Decoder → ℕ → Outcome Decoder
  step_number d k = do
    st' ← execute_step cur d.state k
    ok (record { state = st'; k = 0; can_save = true })

  unfoldable pub more_digits : Decoder → ℕ → Outcome Decoder
  more_digits d k = do
    try_assert (ltb k varint_limit) proof_malformed_varint
    ok (record d { k = k; can_save = false })

  unfoldable pub save_last : Decoder → Outcome Decoder
  save_last d = do
    try_assert d.can_save proof_invalid_save
    st' ← save_step d.state
    ok (record d { state = st'; can_save = false })

  unfoldable pub decode_char : Decoder → ℕ → Outcome Decoder
  unfolding step_number more_digits save_last
  decode_char d ch =
      if between b'A' b'T' ch
      then step_number d (d.k * 20 + (ch - b'A'))
      else if between b'U' b'Y' ch
      then more_digits d (d.k * 5 + 1 + (ch - b'U'))
      else if ch == b'Z'
      then save_last d
      else if ch == b'?'
      then (do try_assert (d.k == 0) proof_malformed_varint; err proof_incomplete)
      else ok d

  unfoldable pub decode_chunk : Decoder → List ℕ → Outcome Decoder
  unfolding decode_char
  decode_chunk d [] = ok d
  decode_chunk d (ch ∷ chs) = do d' ← decode_char d ch; decode_chunk d' chs

  unfoldable pub decode_chunks : Decoder → List Token → Outcome Decoder
  unfolding decode_chunk
  decode_chunks d [] = ok d
  decode_chunks d (chunk ∷ chunks) = do d' ← decode_chunk d chunk; decode_chunks d' chunks

  unfoldable pub verify_compressed : VerifyState → List Token → Outcome VerifyState
  unfolding prepare_hypotheses read_roster decode_chunks
  verify_compressed st tokens = do
    ready ← prepare_hypotheses st cur.hypotheses
    roster ← read_roster ready tokens
    done ← decode_chunks (record { state = roster.0; k = 0; can_save = false }) roster.1
    try_assert (done.k == 0) proof_malformed_varint
    ok done.state

  -- `execute_step(state, index, explicit_stack.as_mut())`
  unfoldable pub execute_maybe_explicit :
      VerifyState → ℕ → Option ExplicitStack → Outcome (VerifyState × Option ExplicitStack)
  execute_maybe_explicit st ix none = do st' ← execute_step cur st ix; ok (st', none)
  execute_maybe_explicit st ix (some stack) = do
    done ← execute_step_explicit o cur st ix stack
    ok (done.0, some done.1)

  -- The new step is saved under its local label.
  unfoldable pub label_step : Normal → Option Token → Span → Outcome Normal
  label_step n none span = ok (record n { count = n.count + 1 })
  label_step n (some fwdref) span = do
    st' ← save_step (record n.state { prepared = pop n.state.prepared })
    try_assert (is_none (Map.lookup bytes_eq fwdref n.backrefs)) (local_label_duplicate span)
    ok (record n {
      state = st';
      backrefs = Map.insert bytes_eq fwdref n.count n.backrefs;
      count = n.count + 1;
    })

  unfoldable pub note_hyptok : Normal → Option Token → Outcome Normal
  note_hyptok n none = ok n
  note_hyptok n (some tok) = elim n.explicit [
    | some stack ↦ ok (record n { explicit = some (stack ++ some tok ∷ []) })
    | none ↦ do
      assert (ltb 0 (length n.state.stack))
      ok (record n { explicit = some (replicate (length n.state.stack - 1) none ++ some tok ∷ []) })
  ]

  -- The step is taken: the one saved under a local label, or the one just prepared.
  unfoldable pub take_step :
      Normal → VerifyState → Option Token → Option Token → Span → Outcome Normal
  unfolding execute_maybe_explicit label_step
  take_step n st (some label) fwdref span = do
    try_assert (is_none fwdref) (chain_backref span)
    ix ← ok_or (Map.lookup bytes_eq label n.backrefs) (step_missing label)
    done ← execute_maybe_explicit st ix n.explicit
    ok (record n { state = done.0; explicit = done.1 })
  take_step n st none fwdref span = do
    done ← execute_maybe_explicit st n.count n.explicit
    label_step (record n { state = done.0; explicit = done.1 }) fwdref span

  unfoldable pub normal_step : Normal → Token → Span → Outcome Normal
  unfolding take_step note_hyptok
  normal_step n chunk span = do
    try_assert (if bytes_eq chunk (b'?' ∷ []) then false else true) proof_incomplete
    prepared ← prepare_step o cur n.state chunk (some span)
    n' ← take_step n prepared.0 prepared.1.label prepared.1.fwdref span
    note_hyptok n' prepared.1.hyptok

  unfoldable pub verify_normal : Normal → List (Token × Span) → Outcome Normal
  unfolding normal_step
  verify_normal n [] = ok n
  verify_normal n ((chunk, span) ∷ rest) = do n' ← normal_step n chunk span; verify_normal n' rest

  -- `for (index, &tokr) in state.cur_frame.var_list.iter().enumerate()`
  unfoldable pub number_vars : List (ℕ × ℕ) → ℕ → List ℕ → List (ℕ × ℕ)
  number_vars m ix [] = m
  number_vars m ix (a ∷ as') = number_vars (Map.insert nat_eq a ix m) (ix + 1) as'

  -- The working memory, cleared; the substitution of the last proof is not.
  abbrev pub fresh : Substitution → VerifyState
  fresh info = record {
    prepared = [];
    stack = [];
    stack_buffer = [];
    subst_info = info;
    var2bit = number_vars [] 0 cur.var_list;
  }

  abbrev pub start_normal : Substitution → Normal
  start_normal info = record { state = fresh info; count = 0; backrefs = []; explicit = none }

  abbrev pub is_compressed : List (Token × Span) → Bool
  is_compressed [] = false
  is_compressed ((chunk, _) ∷ rest) = bytes_eq chunk (b'(' ∷ [])

  abbrev pub tokens : List (Token × Span) → List Token
  tokens [] = []
  tokens ((chunk, _) ∷ rest) = chunk ∷ tokens rest

  -- The proof is the tokens of the statement, with their places.
  unfoldable pub run_proof : Substitution → List (Token × Span) → Outcome VerifyState
  unfolding verify_compressed verify_normal number_vars
  run_proof info proof =
      if is_compressed proof
      then verify_compressed (fresh info) (tokens (drop 1 proof))
      else (do n ← verify_normal (start_normal info) proof; ok n.state)

  unfoldable pub verify_proof : Substitution → List (Token × Span) → Outcome (Unit {0})
  unfolding run_proof finalize_step
  verify_proof info proof = do st ← run_proof info proof; finalize_step st
