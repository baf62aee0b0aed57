-- ===== src/Verify/Soundness/Tracking.antt =====
-- src/verify.rs: the derivable steps of a state, and the numbers of the variables in them.
use metamath_knife.Base.{
  ℕ, ◌+◌, ◌-◌, some, List, [], ◌∷◌, length, get_elem?, leb, ◌==◌, ◌≡◌, subst, ◌∙◌, Bool-cases, inl,
  inr,
}
use metamath_knife.Address.{Token}
use metamath_knife.BitSet
use metamath_knife.Diag.{ok, or_panic, ok_or, try_assert, bound, >>=-eq-ok}
use metamath_knife.Scopeck.{Hyp, essential, floating, Frame}
use metamath_knife.Verify.{Oracle, PreparedStep, hyp, assertion, VerifyState, slice_of, index}
use metamath_knife.Verify.Prepare.{is_assertion, push_hypothesis, prepare_hypothesis, prepare_frame}
use metamath_knife.Verify.Execute.{
  reserve, process_hyp, process_hyps, do_substitute, do_substitute_eq, do_substitute_vars, check_dv,
  push_target, apply_assertion, execute_step, store, push_slot,
}
use metamath_knife.Verify.Run.{last?, save_step}
use metamath_knife.Verify.Numbering.{IsNumbering, map_vars-IsNumbering}
use metamath_knife.Verify.Derivation.{InScope}
use metamath_knife.Verify.Soundness.Steps.{
  IsSound, FramesWellFormed, execute_step-IsSound, save_step-IsSound,
}
use metamath_knife.Verify.Soundness.Preparation.{
  NamesExist, prepare_hypothesis-IsSound, prepare_frame-IsSound,
}

process_hyp-var2bit :
    (st : VerifyState) (f : Frame) (ix : ℕ) (h : Hyp) {st' : VerifyState}
    → process_hyp st f ix h ≡ ok st'
    → st.var2bit ≡ st'.var2bit
unfolding process_hyp
process_hyp-var2bit st f ix (floating _ var code) e = elim (>>=-eq-ok (index st.stack ix) _ e) [
  | bound slot _ e1 ↦ elim (>>=-eq-ok (try_assert (slot.code == code) _) _ e1) [
    | bound _ _ e2 ↦ elim (>>=-eq-ok (store st.subst_info var (slot.expr, slot.vars)) _ e2) [
      | bound info _ e3 ↦ cc
    ]
  ]
]
process_hyp-var2bit st f ix (essential _ expr) e = elim (>>=-eq-ok (index st.stack ix) _ e) [
  | bound slot _ e1 ↦ elim (>>=-eq-ok (try_assert (slot.code == expr.typecode) _) _ e1) [
    | bound _ _ e2 ↦ elim (>>=-eq-ok (slice_of st.stack_buffer slot.expr) _ e2) [
      | bound bytes _ e3 ↦
          elim (>>=-eq-ok (do_substitute_eq bytes f expr st.subst_info st.stack_buffer) _ e3) [
            | bound same _ e4 ↦ elim (>>=-eq-ok (try_assert same _) _ e4) [ bound _ _ e5 ↦ cc ]
          ]
    ]
  ]
]

process_hyps-var2bit :
    (st : VerifyState) (f : Frame) (ix : ℕ) (hyps : List Hyp) {st' : VerifyState}
    → process_hyps st f ix hyps ≡ ok st'
    → st.var2bit ≡ st'.var2bit
unfolding process_hyps
process_hyps-var2bit st f ix [] e = cc
process_hyps-var2bit st f ix (h ∷ hyps) e = elim (>>=-eq-ok (process_hyp st f ix h) _ e) [
  | bound st1 first e1 ↦
      process_hyp-var2bit st f ix h first ∙ process_hyps-var2bit st1 f (ix + 1) hyps e1
]

push_target-var2bit :
    (cur f : Frame) (sbase : ℕ) (st : VerifyState) {st' : VerifyState}
    → push_target cur f sbase st ≡ ok st'
    → st.var2bit ≡ st'.var2bit
unfolding push_target
push_target-var2bit cur f sbase st e =
    elim (>>=-eq-ok (do_substitute st.stack_buffer f f.target st.subst_info) _ e) [
      | bound buf _ e1 ↦ elim (>>=-eq-ok (do_substitute_vars f.target.tail st.subst_info) _ e1) [
        | bound vars _ e2 ↦
            elim (>>=-eq-ok (check_dv cur.optional_dv st.subst_info f.mandatory_dv) _ e2) [
              | bound _ _ e3 ↦ cc
            ]
      ]
    ]

apply_assertion-var2bit :
    (cur : Frame) (st : VerifyState) (f : Frame) {st' : VerifyState}
    → apply_assertion cur st f ≡ ok st'
    → st.var2bit ≡ st'.var2bit
unfolding apply_assertion
apply_assertion-var2bit cur st f e =
    elim (>>=-eq-ok (try_assert (leb (length f.hypotheses) (length st.stack)) _) _ e) [
      | bound _ _ e1 ↦
          let sbase = length st.stack - length f.hypotheses in
          let ready : VerifyState = record st {
            subst_info = reserve st.subst_info f.mandatory_count;
          } in
          elim (>>=-eq-ok (process_hyps ready f sbase f.hypotheses) _ e1) [
            | bound st1 done e2 ↦
                process_hyps-var2bit ready f sbase f.hypotheses done
                ∙ push_target-var2bit cur f sbase st1 e2
          ]
    ]

-- Executing a step gives no variable another number.
execute_step-var2bit :
    (cur : Frame) (st : VerifyState) (ix : ℕ) {st' : VerifyState}
    → execute_step cur st ix ≡ ok st'
    → st.var2bit ≡ st'.var2bit
unfolding execute_step
execute_step-var2bit cur st ix {st'} e = elim (>>=-eq-ok (ok_or (get_elem? st.prepared ix) _) _ e) [
  | bound step _ e1 ↦ run step e1
]
  where
    run :
        (step : PreparedStep)
        → (elim step [
          | hyp vars code expr ↦
              ok (push_slot st (record { vars = vars; code = code; expr = expr }))
          | assertion fref ↦ apply_assertion cur st fref
        ])
          ≡ ok st'
        → st.var2bit ≡ st'.var2bit
    run (hyp vars code expr) e = cc
    run (assertion f) e = apply_assertion-var2bit cur st f e

module _ (o : Oracle) (cur : Frame) where
  -- What a proof can still use is derivable, the variables of the frame have their places for numbers,
  -- and no two variables have one number.
  pub record IsTracked (st : VerifyState) : Type 0 where
    pub sound : IsSound o cur st
    pub numbers : IsNumbering cur.var_list st.var2bit

  pub execute_step-IsTracked :
      FramesWellFormed o cur
      → (st st' : VerifyState) (ix : ℕ) → IsTracked st
      → execute_step cur st ix ≡ ok st'
      → IsTracked st'
  execute_step-IsTracked frames st st' ix t e = record {
    sound = execute_step-IsSound o cur frames st st' ix t.sound e;
    numbers = subst (IsNumbering cur.var_list) (execute_step-var2bit cur st ix e) t.numbers;
  }

  pub save_step-IsTracked :
      (st st' : VerifyState) → IsTracked st → save_step st ≡ ok st' → IsTracked st'
  unfolding save_step
  save_step-IsTracked st st' t e = record {
    sound = save_step-IsSound o cur st st' t.sound e;
    numbers = elim (>>=-eq-ok (or_panic (last? st.stack)) _ e) [
      | bound top _ e1 ↦
          let same : st.var2bit ≡ st'.var2bit = cc in
          subst (IsNumbering cur.var_list) same t.numbers
    ];
  }

  pub prepare_hypothesis-IsTracked :
      NamesExist o cur
      → (st st' : VerifyState) (i : ℕ) (h : Hyp) → get_elem? cur.hypotheses i ≡ some h
      → IsTracked st
      → prepare_hypothesis o cur st h ≡ ok st'
      → IsTracked st'
  unfolding prepare_hypothesis
  prepare_hypothesis-IsTracked names st st' i h at_i t e = record {
    sound = prepare_hypothesis-IsSound o cur names st st' i h at_i t.sound e;
    numbers = elim (>>=-eq-ok (push_hypothesis o cur st.stack_buffer h) _ e) [
      | bound out _ e1 ↦
          let same : st.var2bit ≡ st'.var2bit = cc in
          subst (IsNumbering cur.var_list) same t.numbers
    ];
  }

  pub prepare_frame-IsTracked :
      (st : VerifyState) (label : Token) (f : Frame)
      → o.get label ≡ some f
      → InScope o cur f
      → IsTracked st
      → IsTracked (prepare_frame o cur st f)
  unfolding prepare_frame
  prepare_frame-IsTracked st label f found in_scope t = record {
    sound = prepare_frame-IsSound o cur st label f found in_scope t.sound;
    numbers = elim (Bool-cases (is_assertion f.stype)) [
      | inl asserts ↦ rw asserts t.numbers
      | inr floats ↦
          rw floats (map_vars-IsNumbering cur.var_list st.var2bit BitSet.new f.var_list t.numbers)
    ];
  }
