-- ===== src/Verify/Soundness/Steps.antt =====
-- src/verify.rs: `execute_step` and `save_step`.
use metamath_knife.Base.{
  ℕ, ◌-◌, true, some, List, [], ◌∷◌, ◌++◌, get_elem?, length, take, slice-append, slice-append_end,
  All, All-get_elem?, All-imp, All-append, All-take, ◌≡◌, refl, sym, ap, subst, ◌∙◌, contains, leb,
  arith,
}
use metamath_knife.Address.{Token}
use metamath_knife.BitSet
use metamath_knife.BitSet.{Bitset, bitor_assign}
use metamath_knife.BitSet.Iter.{IsBitset}
use metamath_knife.BitSet.Words.{new-IsBitset, bitor_assign-IsBitset}
use metamath_knife.Diag.{
  ok, or_panic, ok_or, try_assert, bound, >>=-eq-ok, or_panic-eq-ok, ok_or-eq-ok,
}
use metamath_knife.Scopeck.{Range, ExprFragment, Frame}
use metamath_knife.Scopeck.Ordered.{defined, IsWellFormed}
use metamath_knife.Verify.{Oracle, PreparedStep, hyp, assertion, StackSlot, VerifyState}
use metamath_knife.Verify.Prepare.{is_assertion}
use metamath_knife.Verify.Execute.{
  Substitution, reserve, push_slot, process_hyps, do_substitute, do_substitute_vars, check_dv,
  push_target, apply_assertion, execute_step,
}
use metamath_knife.Verify.Run.{last?, save_step}
use metamath_knife.Verify.Numbering.{Grows}
use metamath_knife.Verify.Substitute.{
  value_of, vars_of, IsAssigned, AllAssigned, do_substitute_sound, do_substitute_vars_sound,
}
use metamath_knife.Verify.Distinct.{check_dv_sound}
use metamath_knife.Verify.Derivation.{expr_bytes, expr_vars, applied, InScope}
use metamath_knife.Verify.Hypotheses.{
  Holds, SlotHolds, Matched, Kept, process_hyps-Kept, process_hyps_sound, assigned_all,
}

module _ (o : Oracle) (cur : Frame) where
  -- An assertion that a proof may apply.
  pub record Usable (f : Frame) : Type 0 where
    pub label : Token
    pub found : o.get label ≡ some f
    pub asserts : is_assertion f.stype ≡ true
    pub in_scope : InScope o cur f

  abbrev pub PreparedHolds : List ℕ → List (ℕ × ℕ) → PreparedStep → Type 0
  PreparedHolds buf m (hyp vars code expr) = Holds o cur buf m vars code expr
  PreparedHolds buf m (assertion f) = Usable f

  -- All that a proof can still use is derivable.
  pub record IsSound (st : VerifyState) : Type 0 where
    pub prepared : All (PreparedHolds st.stack_buffer st.var2bit) st.prepared
    pub stack : All (SlotHolds o cur st.stack_buffer st.var2bit) st.stack

  pub Holds-mono :
      (buf more : List ℕ) (m m' : List (ℕ × ℕ)) (vars : Bitset) (code : ℕ) (expr : Range)
      → Grows m m'
      → Holds o cur buf m vars code expr
      → Holds o cur (buf ++ more) m' vars code expr
  Holds-mono buf more m m' vars code expr g h = record {
    bytes = h.bytes;
    there = slice-append buf more expr.start expr.end h.bytes h.there;
    words = h.words;
    derives = λ number ext. h.derives number (λ a n e. ext a n (g a n e));
  }

  PreparedHolds-mono :
      (buf more : List ℕ) (m m' : List (ℕ × ℕ)) (p : PreparedStep)
      → Grows m m'
      → PreparedHolds buf m p
      → PreparedHolds (buf ++ more) m' p
  PreparedHolds-mono buf more m m' (hyp vars code expr) g h =
      Holds-mono buf more m m' vars code expr g h
  PreparedHolds-mono buf more m m' (assertion f) g h = h

  -- What was sound stays so when the buffer and the numbering grow.
  pub IsSound-mono :
      (st : VerifyState) (more : List ℕ) (m' : List (ℕ × ℕ))
      → Grows st.var2bit m'
      → IsSound st
      → IsSound (record st { stack_buffer = st.stack_buffer ++ more; var2bit = m' })
  IsSound-mono st more m' g s = record {
    prepared =
        All-imp _ _ (λ p. PreparedHolds-mono st.stack_buffer more st.var2bit m' p g) st.prepared
          s.prepared;
    stack =
        All-imp _ _
          (λ slot. Holds-mono st.stack_buffer more st.var2bit m' slot.vars slot.code slot.expr g)
          st.stack s.stack;
  }

  push_slot-IsSound :
      (st : VerifyState) (slot : StackSlot)
      → IsSound st
      → SlotHolds o cur st.stack_buffer st.var2bit slot
      → IsSound (push_slot st slot)
  push_slot-IsSound st slot s h = record {
    prepared = s.prepared;
    stack = All-append _ st.stack (slot ∷ []) s.stack (h, tt);
  }

  pub last?-All :
      (P : StackSlot → Type 0) (xs : List StackSlot) {x : StackSlot}
      → All P xs
      → last? xs ≡ some x
      → P x
  last?-All P [] a e = cc
  last?-All P (y ∷ []) {x} a e = let same : y ≡ x = cc in subst P same a.0
  last?-All P (y ∷ z ∷ xs) a e = last?-All P (z ∷ xs) a.1 e

  pub save_step-IsSound : (st st' : VerifyState) → IsSound st → save_step st ≡ ok st' → IsSound st'
  unfolding save_step
  save_step-IsSound st st' s h = elim (>>=-eq-ok (or_panic (last? st.stack)) _ h) [
    | bound top e h1 ↦
        let saved : IsSound
            (record st { prepared = st.prepared ++ hyp top.vars top.code top.expr ∷ [] }) =
          record {
            prepared = All-append _ st.prepared (hyp top.vars top.code top.expr ∷ []) s.prepared (
              last?-All (SlotHolds o cur st.stack_buffer st.var2bit) st.stack s.stack
                  (or_panic-eq-ok _ e),
              tt,
            );
            stack = s.stack;
          } in
        let same : record st { prepared = st.prepared ++ hyp top.vars top.code top.expr ∷ [] }
            ≡ st' =
          cc in
        subst IsSound same saved
  ]

  union-IsBitset :
      (out : Bitset) (buf : List ℕ) (info : Substitution) (parts : List ExprFragment)
      → IsBitset out
      → AllAssigned buf info parts
      → IsBitset (expr_vars out (vars_of info) parts)
  unfolding expr_vars vars_of
  union-IsBitset out buf info [] w a = w
  union-IsBitset out buf info (part ∷ parts) w a =
      union-IsBitset (bitor_assign out (vars_of info part.var)) buf info parts
        (bitor_assign-IsBitset out (vars_of info part.var) w (assigned_words a.0)) a.1
    where
      assigned_words : {var : ℕ} → IsAssigned buf info var → IsBitset (vars_of info var)
      assigned_words {var} b =
          let same : vars_of info var ≡ b.vars = ground (arith, b.entry) in rw same b.words

  dv-IsAssigned :
      (ds buf : List ℕ) (info : Substitution) (pairs : List (ℕ × ℕ))
      → ((var : ℕ) → contains ds var ≡ true → IsAssigned buf info var)
      → All (λ pair. (contains ds pair.0 ≡ true) × (contains ds pair.1 ≡ true)) pairs
      → All (λ pair. IsAssigned buf info pair.0 × IsAssigned buf info pair.1) pairs
  dv-IsAssigned ds buf info pairs a =
      All-imp _ _ (λ pair both. (a pair.0 both.0, a pair.1 both.1)) pairs

  abbrev pushed_slot : Frame → VerifyState → List ℕ → Bitset → StackSlot
  pushed_slot f st buf vars = record {
    code = f.target.typecode;
    vars = vars;
    expr = record { start = length st.stack_buffer; end = length buf };
  }

  abbrev pushed_state : Frame → ℕ → VerifyState → List ℕ → Bitset → VerifyState
  pushed_state f sbase st buf vars = record st {
    stack_buffer = buf;
    stack = take sbase st.stack ++ pushed_slot f st buf vars ∷ [];
  }

  abbrev reserved : VerifyState → Frame → VerifyState
  reserved st f = record st { subst_info = reserve st.subst_info f.mandatory_count }

  -- The substituted target is derivable.
  push_target-IsSound :
      (f : Frame) (sbase : ℕ) (st st' : VerifyState)
      → Usable f
      → IsWellFormed f
      → IsSound st
      → Matched o cur st.var2bit [] f f.hypotheses st.stack_buffer st.subst_info
      → push_target cur f sbase st ≡ ok st'
      → IsSound st'
  unfolding push_target
  push_target-IsSound f sbase st st' u w s matched h =
      elim (>>=-eq-ok (do_substitute st.stack_buffer f f.target st.subst_info) _ h) [
        | bound buf substituted h1 ↦
            elim (>>=-eq-ok (do_substitute_vars f.target.tail st.subst_info) _ h1) [
              | bound vars unioned h2 ↦
                  elim (>>=-eq-ok (check_dv cur.optional_dv st.subst_info f.mandatory_dv) _ h2) [
                    | bound _ disjoint h3 ↦
                        pushed buf vars h3
                          (do_substitute_sound st.stack_buffer f f.target st.subst_info
                            target_assigned substituted)
                          (do_substitute_vars_sound st.subst_info f.target.tail unioned) disjoint
                  ]
            ]
      ]
    where
      target_assigned : AllAssigned st.stack_buffer st.subst_info f.target.tail
      target_assigned =
          assigned_all o cur (defined [] f.hypotheses) st.stack_buffer st.subst_info f.target.tail
            matched.assigned w.target_vars

      pushed :
          (buf : List ℕ) (vars : Bitset)
          → ok (pushed_state f sbase st buf vars) ≡ ok st'
          → (bytes : List ℕ) × (expr_bytes f.const_pool
                (value_of st.stack_buffer st.subst_info)
                f.target
              ≡ some bytes)
            × (buf ≡ st.stack_buffer ++ bytes)
          → vars ≡ expr_vars BitSet.new (vars_of st.subst_info) f.target.tail
          → check_dv cur.optional_dv st.subst_info f.mandatory_dv ≡ ok tt
          → IsSound st'
      pushed buf vars e (bytes, spec, grown) same_vars disjoint =
          let new_slot : Holds o cur (st.stack_buffer ++ bytes) st.var2bit vars f.target.typecode
              (record { start = length st.stack_buffer; end = length (st.stack_buffer ++ bytes) }) =
            record {
              bytes = bytes;
              there = slice-append_end st.stack_buffer bytes;
              words = rw same_vars (
                  union-IsBitset BitSet.new st.stack_buffer st.subst_info f.target.tail new-IsBitset
                    target_assigned);
              derives = λ number ext.
                  applied u.label f (value_of st.stack_buffer st.subst_info) (vars_of st.subst_info)
                    u.found u.asserts u.in_scope (matched.derives number ext)
                    (check_dv_sound o cur st.stack_buffer st.subst_info f.mandatory_dv
                      (dv-IsAssigned (defined [] f.hypotheses) st.stack_buffer st.subst_info
                        f.mandatory_dv matched.assigned w.dv_vars)
                      disjoint)
                    refl spec same_vars;
            } in
          let grown_state = IsSound-mono st bytes st.var2bit (λ a n p. p) s in
          let there : IsSound (pushed_state f sbase st (st.stack_buffer ++ bytes) vars) = record {
            prepared = grown_state.prepared;
            stack =
                All-append _ (take sbase st.stack) _ (All-take _ sbase st.stack grown_state.stack)
                  (new_slot, tt);
          } in
          let same : pushed_state f sbase st (st.stack_buffer ++ bytes) vars ≡ st' =
            ap (λ b. pushed_state f sbase st b vars) (sym grown) ∙ cc in
          subst IsSound same there

  apply_assertion-IsSound :
      (st st' : VerifyState) (f : Frame)
      → Usable f
      → IsWellFormed f
      → IsSound st
      → apply_assertion cur st f ≡ ok st'
      → IsSound st'
  unfolding apply_assertion
  apply_assertion-IsSound st st' f u w s h =
      elim (>>=-eq-ok (try_assert (leb (length f.hypotheses) (length st.stack)) _) _ h) [
        | bound _ _ h1 ↦
            elim (>>=-eq-ok
              (process_hyps (reserved st f) f (length st.stack - length f.hypotheses) f.hypotheses)
              _ h1) [
                | bound st1 done h2 ↦
                    let k =
                      process_hyps-Kept [] (reserved st f) f (length st.stack - length f.hypotheses)
                        f.hypotheses w.ordered done in
                    let m =
                      process_hyps_sound o cur st.var2bit [] (reserved st f) f
                        (length st.stack - length f.hypotheses) f.hypotheses st1 w.ordered s.stack
                        (λ v c. cc) done in
                    push_target-IsSound f (length st.stack - length f.hypotheses) st1 st' u w
                      (kept_sound st1 k) (kept_matched st1 k m) h2
              ]
      ]
    where
      kept_sound : (st1 : VerifyState) → Kept [] (reserved st f) st1 → IsSound st1
      kept_sound st1 k = record {
        prepared = rw (k.stack_buffer, k.var2bit, k.prepared) s.prepared;
        stack = rw (k.stack_buffer, k.var2bit, k.stack) s.stack;
      }

      kept_matched :
          (st1 : VerifyState)
          → Kept [] (reserved st f) st1
          → Matched o cur st.var2bit [] f f.hypotheses st.stack_buffer st1.subst_info
          → Matched o cur st1.var2bit [] f f.hypotheses st1.stack_buffer st1.subst_info
      kept_matched st1 k m = rw (k.stack_buffer, k.var2bit) m

  -- Every assertion that can be found is well formed.
  abbrev pub FramesWellFormed : Type 0
  FramesWellFormed =
      (label : Token) (f : Frame)
      → o.get label ≡ some f
      → is_assertion f.stype ≡ true
      → IsWellFormed f

  -- Where every assertion that can be found is well formed, a step that executes keeps all that is
  -- prepared and all that is on the stack derivable.
  pub execute_step-IsSound :
      FramesWellFormed
      → (st st' : VerifyState) (ix : ℕ) → IsSound st
      → execute_step cur st ix ≡ ok st'
      → IsSound st'
  unfolding execute_step
  execute_step-IsSound frames st st' ix s h =
      elim (>>=-eq-ok (ok_or (get_elem? st.prepared ix) _) _ h) [
        | bound step found h1 ↦
            run step (All-get_elem? _ st.prepared ix s.prepared (ok_or-eq-ok _ _ found)) h1
      ]
    where
      run :
          (step : PreparedStep)
          → PreparedHolds st.stack_buffer st.var2bit step
          → (elim step [
            | hyp vars code expr ↦
                ok (push_slot st (record { vars = vars; code = code; expr = expr }))
            | assertion fref ↦ apply_assertion cur st fref
          ])
            ≡ ok st'
          → IsSound st'
      run (hyp vars code expr) p e =
          let slot : StackSlot = record { vars = vars; code = code; expr = expr } in
          let same : push_slot st slot ≡ st' = cc in
          subst IsSound same (push_slot-IsSound st slot s p)
      run (assertion f) p e =
          apply_assertion-IsSound st st' f p (frames p.label f p.found p.asserts) s e
