-- ===== src/Verify/Soundness/Labels.antt =====
-- src/verify.rs: `prepare_step` makes nothing usable that is not derivable.
use Prim.Native.Nat.{Ordering}
use metamath_knife.Base.{
  ℕ, suc, ◌+◌, Bool, ◌&&◌, true, false, Option, none, some, List, [], ◌∷◌, get_elem?, bytes_eq, ◌≡◌,
  refl, subst, ltb, ◌==◌, Option-cases, Bool-cases, inl, inr, arith,
}
use metamath_knife.Address.{Token, Span}
use metamath_knife.Diag.{
  assert, step_missing, ok, or_panic, try_assert, bound, >>=-eq-ok, try_assert-eq-ok,
}
use metamath_knife.Scopeck.{Hyp, essential, floating, Frame}
use metamath_knife.Verify.{Oracle, VerifyState}
use metamath_knife.Verify.Prepare.{
  split_step, no_parse, prepare_hypothesis, find_named_hyp, prepare_named_hyp, check_scope,
  prepare_frame, prepare_step, use_frame, named_or_local, prepare_local, prepare_label,
  check_fwdref, named_or_missing, StepParse,
}
use metamath_knife.Verify.Derivation.{InScope, IsActive}
use metamath_knife.Verify.Soundness.Preparation.{NamesExist}
use metamath_knife.Verify.Soundness.Tracking.{
  IsTracked, prepare_hypothesis-IsTracked, prepare_frame-IsTracked,
}

module _ (o : Oracle) (cur : Frame) where
  check_scope_sound :
      (f : Frame) (label : Token) → check_scope o cur f label ≡ ok tt → InScope o cur f
  unfolding check_scope
  check_scope_sound f label h = elim (>>=-eq-ok (try_assert is_earlier _) _ h) [
    | bound _ before h1 ↦ record {
      earlier = greater (o.cmp cur.valid.start f.valid.start) (try_assert-eq-ok _ _ before);
      active = in_range f.valid.end (try_assert-eq-ok _ _ h1);
    }
  ]
    where
      is_earlier : Bool
      is_earlier = elim (o.cmp cur.valid.start f.valid.start) [ Ordering.gt ↦ true | _ ↦ false ]

      greater :
          (order : Ordering)
          → (elim order [ Ordering.gt ↦ true | _ ↦ false ]) ≡ true
          → order ≡ Ordering.gt
      greater order e = ground (arith, e)

      in_range :
          (end : Option ℕ)
          → (elim end [
            | none ↦ true
            | some e ↦
                cur.valid.start.segment_id == f.valid.start.segment_id
                && ltb cur.valid.start.index e
          ])
            ≡ true
          → IsActive o cur f end
      in_range none e = tt
      in_range (some end) e = ground (arith, e)

  use_frame-IsTracked :
      (st : VerifyState) (f : Frame) (label token : Token) (out : StepParse)
      {result : VerifyState × StepParse}
      → o.get label ≡ some f
      → IsTracked o cur st
      → use_frame o cur st f token out ≡ ok result
      → IsTracked o cur result.0
  unfolding use_frame
  use_frame-IsTracked st f label token out {result} found s h =
      elim (>>=-eq-ok (check_scope o cur f token) _ h) [
        | bound _ scope h1 ↦
            let same : (prepare_frame o cur st f, out) ≡ result = cc in
            subst (λ r. IsTracked o cur r.0) same
              (prepare_frame-IsTracked o cur st label f found (check_scope_sound f token scope) s)
      ]

  pub shift : (i done : ℕ) → i + suc done ≡ suc i + done
  shift i done = omega arith

  find_named_hyp-IsTracked :
      NamesExist o cur
      → (st : VerifyState) (label : Token) (done : ℕ) (hyps : List Hyp)
        {result : VerifyState × Bool}
      → ((i : ℕ) (h : Hyp)
          → get_elem? hyps i ≡ some h
          → get_elem? cur.hypotheses (i + done) ≡ some h)
      → IsTracked o cur st
      → find_named_hyp o cur st label hyps ≡ ok result
      → IsTracked o cur result.0
  unfolding find_named_hyp
  find_named_hyp-IsTracked names st label done [] {result} at s h =
      let same : (st, false) ≡ result = cc in subst (λ r. IsTracked o cur r.0) same s
  find_named_hyp-IsTracked names st label done (floating addr var code ∷ hyps) at s h =
      find_named_hyp-IsTracked names st label (suc done) hyps
        (λ i k e. rw (shift i done) (at (suc i) k e)) s h
  find_named_hyp-IsTracked names st label done (essential addr expr ∷ hyps) {result} at s h =
      elim (>>=-eq-ok (assert (addr.segment_id == o.this_seg)) _ h) [
        | bound _ _ h1 ↦ elim (>>=-eq-ok (or_panic (o.statement_label addr.index)) _ h1) [
          | bound name _ h2 ↦ elim (Bool-cases (bytes_eq name label)) [
            | inl same_name ↦
                elim (>>=-eq-ok (prepare_hypothesis o cur st (essential addr expr)) _
                  (rw same_name at h2)) [
                    | bound st1 prepares h3 ↦
                        let same : (st1, true) ≡ result = cc in
                        subst (λ r. IsTracked o cur r.0) same
                          (prepare_hypothesis-IsTracked o cur names st st1 (0 + done)
                            (essential addr expr) (at 0 (essential addr expr) refl) s prepares)
                  ]
            | inr other ↦
                find_named_hyp-IsTracked names st label (suc done) hyps
                  (λ i k e. rw (shift i done) (at (suc i) k e)) s (rw other at h2)
          ]
        ]
      ]

  prepare_named_hyp-IsTracked :
      NamesExist o cur
      → (st : VerifyState) (label : Token) {result : VerifyState × Bool} → IsTracked o cur st
      → prepare_named_hyp o cur st label ≡ ok result
      → IsTracked o cur result.0
  unfolding prepare_named_hyp
  prepare_named_hyp-IsTracked names st label s h =
      find_named_hyp-IsTracked names st label 0 cur.hypotheses (λ i k e. rw (no_shift i) e) s h
    where
      no_shift : (i : ℕ) → i + 0 ≡ i
      no_shift i = omega arith

  named_or_local-IsTracked :
      NamesExist o cur
      → (st : VerifyState) (label : Token) (out : StepParse) {result : VerifyState × StepParse}
      → IsTracked o cur st
      → named_or_local o cur st label out ≡ ok result
      → IsTracked o cur result.0
  unfolding named_or_local
  named_or_local-IsTracked names st label out {result} s h =
      elim (>>=-eq-ok (prepare_named_hyp o cur st label) _ h) [
        | bound found named h1 ↦
            let same : found.0 ≡ result.0 = cc in
            subst (IsTracked o cur) same (prepare_named_hyp-IsTracked names st label s named)
      ]

  prepare_label-IsTracked :
      NamesExist o cur
      → (st : VerifyState) (token label : Token) (out : StepParse)
        {result : VerifyState × StepParse}
      → IsTracked o cur st
      → prepare_label o cur st token label out ≡ ok result
      → IsTracked o cur result.0
  unfolding prepare_label
  prepare_label-IsTracked names st token label out {result} s h =
      elim (Option-cases (o.get label)) [
        | inl absent ↦
            let h1 : named_or_local o cur st label out ≡ ok result = ground (arith, h, absent) in
            named_or_local-IsTracked names st label out s h1
        | inr (f, found) ↦
            let h1 : use_frame o cur st f token out ≡ ok result = ground (arith, h, found) in
            use_frame-IsTracked st f label token out found s h1
      ]

  prepare_local-IsTracked :
      NamesExist o cur
      → (st : VerifyState) (token : Token) (span : Span) {result : VerifyState × StepParse}
      → IsTracked o cur st
      → prepare_local o cur st token span ≡ ok result
      → IsTracked o cur result.0
  unfolding prepare_local
  prepare_local-IsTracked names st token span s h =
      elim (>>=-eq-ok (check_fwdref o cur (split_step token).0 span) _ h) [
        | bound _ _ h1 ↦ prepare_label-IsTracked names st token (split_step token).2 _ s h1
      ]

  named_or_missing-IsTracked :
      NamesExist o cur
      → (st : VerifyState) (label : Token) {result : VerifyState × StepParse} → IsTracked o cur st
      → named_or_missing o cur st label ≡ ok result
      → IsTracked o cur result.0
  unfolding named_or_missing
  named_or_missing-IsTracked names st label {result} s h =
      elim (>>=-eq-ok (prepare_named_hyp o cur st label) _ h) [
        | bound found named h1 ↦ elim (>>=-eq-ok (try_assert found.1 (step_missing label)) _ h1) [
          | bound _ _ h2 ↦
              let same : found.0 ≡ result.0 = cc in
              subst (IsTracked o cur) same (prepare_named_hyp-IsTracked names st label s named)
        ]
      ]

  -- Where the variables of the frame have names, preparing a label that can be prepared keeps all that
  -- is prepared and all that is on the stack derivable, the places of the frame's variables for their
  -- numbers, and different numbers for different variables.
  pub prepare_step-IsTracked :
      NamesExist o cur
      → (st : VerifyState) (label : Token) (span : Option Span) {result : VerifyState × StepParse}
      → IsTracked o cur st
      → prepare_step o cur st label span ≡ ok result
      → IsTracked o cur result.0
  unfolding prepare_step
  prepare_step-IsTracked names st label span {result} s h = elim (Option-cases (o.get label)) [
    | inr (f, found) ↦
        let h1 : use_frame o cur st f label no_parse ≡ ok result = ground (arith, h, found) in
        use_frame-IsTracked st f label label no_parse found s h1
    | inl absent ↦ elim (Option-cases span) [
      | inl plain ↦
          let h1 : named_or_missing o cur st label ≡ ok result = ground (arith, h, absent, plain) in
          named_or_missing-IsTracked names st label s h1
      | inr (place, given_place) ↦
          let h1 : prepare_local o cur st label place ≡ ok result =
            ground (arith, h, absent, given_place) in
          prepare_local-IsTracked names st label place s h1
    ]
  ]
