-- ===== src/Verify/Soundness/Normal.antt =====
-- src/verify.rs: the loop over the steps of a proof that is not compressed and names no hypotheses.
use metamath_knife.Base.{
  ℕ, ◌-◌, true, false, Option, none, some, List, [], ◌∷◌, length, bytes_eq, position, All, All-take,
  ◌≡◌, refl, sym, ap, subst, ◌∙◌, if◌then◌else◌, Option-cases, inl, inr, arith,
}
use metamath_knife.Base.Map
use metamath_knife.Address.{Token, Span}
use metamath_knife.Diag.{
  ok, ok_or, try_assert, bound, >>=-eq-ok, proof_incomplete, chain_backref, step_missing,
  local_label_duplicate,
}
use metamath_knife.Scopeck.{Frame}
use metamath_knife.Verify.{Oracle, VerifyState}
use metamath_knife.Verify.Prepare.{
  StepParse, no_parse, split_at, split_step, prepare_step, prepare_local, prepare_label,
  check_fwdref, use_frame, check_scope, named_or_local, prepare_named_hyp, equals, colon,
}
use metamath_knife.Verify.Execute.{execute_step}
use metamath_knife.Verify.Explicit.{ExplicitStack}
use metamath_knife.Verify.Run.{
  Normal, take_step, save_step, pop, is_none, execute_maybe_explicit, label_step, note_hyptok,
  normal_step, verify_normal,
}
use metamath_knife.Verify.Soundness.Labels.{prepare_step-IsTracked}
use metamath_knife.Verify.Soundness.Steps.{FramesWellFormed, PreparedHolds}
use metamath_knife.Verify.Soundness.Preparation.{NamesExist}
use metamath_knife.Verify.Soundness.Tracking.{
  IsTracked, execute_step-IsTracked, save_step-IsTracked,
}

-- A step that names no hypothesis has no `=`.
abbrev pub NoEquals : Token → Type 0
NoEquals token = position equals token ≡ none

split_at-none : (token : Token) (m : Option ℕ) → (split_at token m none).1 ≡ none
split_at-none token none = refl
split_at-none token (some m) = refl

split_step-no_hyp : (token : Token) → NoEquals token → (split_step token).1 ≡ none
unfolding split_step
split_step-no_hyp token n = rw n (split_at-none token (position colon token))

module _ (o : Oracle) (cur : Frame) where
  use_frame-hyptok :
      (st : VerifyState) (f : Frame) (label : Token) (out : StepParse)
      {result : VerifyState × StepParse}
      → use_frame o cur st f label out ≡ ok result
      → result.1 ≡ out
  unfolding use_frame
  use_frame-hyptok st f label out h = elim (>>=-eq-ok (check_scope o cur f label) _ h) [
    | bound _ _ h1 ↦ cc (h1)
  ]

  named_or_local-hyptok :
      (st : VerifyState) (label : Token) (out : StepParse) {result : VerifyState × StepParse}
      → named_or_local o cur st label out ≡ ok result
      → result.1.hyptok ≡ out.hyptok
  unfolding named_or_local
  named_or_local-hyptok st label out {result} h =
      elim (>>=-eq-ok (prepare_named_hyp o cur st label) _ h) [
        | bound found _ h1 ↦
            let same : (if found.1 then out else record out { label = some label }) ≡ result.1 =
              cc in
            sym (ap (λ p. p.hyptok) same) ∙ ground arith
      ]

  prepare_label-hyptok :
      (st : VerifyState) (token label : Token) (out : StepParse) {result : VerifyState × StepParse}
      → prepare_label o cur st token label out ≡ ok result
      → result.1.hyptok ≡ out.hyptok
  unfolding prepare_label
  prepare_label-hyptok st token label out {result} h = elim (Option-cases (o.get label)) [
    | inl absent ↦
        let h1 : named_or_local o cur st label out ≡ ok result = ground (arith, h, absent) in
        named_or_local-hyptok st label out h1
    | inr (f, found) ↦
        let h1 : use_frame o cur st f token out ≡ ok result = ground (arith, h, found) in
        ap (λ p. p.hyptok) (use_frame-hyptok st f token out h1)
  ]

  -- Such a step parses to one that names no hypothesis.
  prepare_step-hyptok :
      (st : VerifyState) (token : Token) (span : Span) {result : VerifyState × StepParse}
      → NoEquals token
      → prepare_step o cur st token (some span) ≡ ok result
      → result.1.hyptok ≡ none
  unfolding prepare_step prepare_local prepare_label split_step
  prepare_step-hyptok st token span {result} n h = elim (Option-cases (o.get token)) [
    | inr (f, found) ↦
        let h1 : use_frame o cur st f token no_parse ≡ ok result = ground (arith, h, found) in
        ap (λ p. p.hyptok) (use_frame-hyptok st f token no_parse h1)
    | inl absent ↦
        let h1 : prepare_local o cur st token span ≡ ok result = ground (arith, h, absent) in
        elim (>>=-eq-ok (check_fwdref o cur (split_step token).0 span) _ h1) [
          | bound _ _ h2 ↦
              prepare_label-hyptok st token (split_step token).2
                (record {
                  fwdref = (split_step token).0;
                  hyptok = (split_step token).1;
                  label = none;
                })
                h2
              ∙ split_step-no_hyp token n
        ]
  ]

  -- No hypothesis has been named, and what is at hand is derivable.
  pub record IsPlain (n : Normal) : Type 0 where
    pub sound : IsTracked o cur n.state
    pub plain : n.explicit ≡ none

  execute_maybe_explicit-IsTracked :
      FramesWellFormed o cur
      → (st : VerifyState) (ix : ℕ) (explicit : Option ExplicitStack)
        {done : VerifyState × Option ExplicitStack}
      → explicit ≡ none
      → IsTracked o cur st
      → execute_maybe_explicit o cur st ix explicit ≡ ok done
      → IsTracked o cur done.0 × (done.1 ≡ none)
  unfolding execute_maybe_explicit
  execute_maybe_explicit-IsTracked frames st ix (some stack) e s h = cc
  execute_maybe_explicit-IsTracked frames st ix none {done} e s h =
      elim (>>=-eq-ok (execute_step cur st ix) _ h) [
        | bound st1 executes h1 ↦
            let same : st1 ≡ done.0 = cc in
            (
              subst (IsTracked o cur) same
                  (execute_step-IsTracked o cur frames st st1 ix s executes),
              cc,
            )
      ]

  pop-IsTracked :
      (st : VerifyState)
      → IsTracked o cur st
      → IsTracked o cur (record st { prepared = pop st.prepared })
  pop-IsTracked st s = record {
    sound = record {
      prepared =
          All-take (PreparedHolds o cur st.stack_buffer st.var2bit) (length st.prepared - 1)
            st.prepared s.sound.prepared;
      stack = s.sound.stack;
    };
    numbers = s.numbers;
  }

  label_step-IsPlain :
      (n : Normal) (fwdref : Option Token) (span : Span) {n' : Normal}
      → IsPlain n
      → label_step o cur n fwdref span ≡ ok n'
      → IsPlain n'
  unfolding label_step
  label_step-IsPlain n none span {n'} p h =
      let same : n.state ≡ n'.state = cc in
      let same_explicit : n.explicit ≡ n'.explicit = cc in
      record { sound = subst (IsTracked o cur) same p.sound; plain = sym same_explicit ∙ p.plain }
  label_step-IsPlain n (some fwdref) span {n'} p h =
      elim (>>=-eq-ok (save_step (record n.state { prepared = pop n.state.prepared })) _ h) [
        | bound st1 saves h1 ↦
            elim (>>=-eq-ok
              (try_assert (is_none (Map.lookup bytes_eq fwdref n.backrefs))
                (local_label_duplicate span))
              _ h1) [
                | bound _ _ h2 ↦
                    let same : st1 ≡ n'.state = cc in
                    let same_explicit : n.explicit ≡ n'.explicit = cc in
                    record {
                      sound = subst (IsTracked o cur) same (
                          save_step-IsTracked o cur
                            (record n.state { prepared = pop n.state.prepared }) st1
                            (pop-IsTracked n.state p.sound) saves);
                      plain = sym same_explicit ∙ p.plain;
                    }
              ]
      ]

  take_step-IsPlain :
      FramesWellFormed o cur
      → (n : Normal) (st : VerifyState) (label fwdref : Option Token) (span : Span) {n' : Normal}
      → n.explicit ≡ none
      → IsTracked o cur st
      → take_step o cur n st label fwdref span ≡ ok n'
      → IsPlain n'
  unfolding take_step
  take_step-IsPlain frames n st none fwdref span {n'} plain s h =
      elim (>>=-eq-ok (execute_maybe_explicit o cur st n.count n.explicit) _ h) [
        | bound done executes h1 ↦
            let (sound, still) =
              execute_maybe_explicit-IsTracked frames st n.count n.explicit plain s executes in
            label_step-IsPlain (record n { state = done.0; explicit = done.1 }) fwdref span
              (record { sound = sound; plain = still }) h1
      ]
  take_step-IsPlain frames n st (some label) fwdref span {n'} plain s h =
      elim (>>=-eq-ok (try_assert (is_none fwdref) (chain_backref span)) _ h) [
        | bound _ _ h1 ↦
            elim (>>=-eq-ok (ok_or (Map.lookup bytes_eq label n.backrefs) (step_missing label)) _
              h1) [
                | bound ix _ h2 ↦
                    elim (>>=-eq-ok (execute_maybe_explicit o cur st ix n.explicit) _ h2) [
                      | bound done executes h3 ↦
                          let (sound, still) =
                            execute_maybe_explicit-IsTracked frames st ix n.explicit plain s
                              executes in
                          let same : done.0 ≡ n'.state = cc in
                          let same_explicit : done.1 ≡ n'.explicit = cc in
                          record {
                            sound = subst (IsTracked o cur) same sound;
                            plain = sym same_explicit ∙ still;
                          }
                    ]
              ]
      ]

  note_hyptok-none :
      (n : Normal) (hyptok : Option Token) {n' : Normal}
      → hyptok ≡ none
      → note_hyptok o cur n hyptok ≡ ok n'
      → n ≡ n'
  unfolding note_hyptok
  note_hyptok-none n none e h = cc
  note_hyptok-none n (some tok) e h = cc

  normal_step-IsPlain :
      FramesWellFormed o cur
      → NamesExist o cur
      → (n : Normal) (chunk : Token) (span : Span) {n' : Normal} → NoEquals chunk
      → IsPlain n
      → normal_step o cur n chunk span ≡ ok n'
      → IsPlain n'
  unfolding normal_step
  normal_step-IsPlain frames names n chunk span no_equals p h =
      elim (>>=-eq-ok
        (try_assert (if bytes_eq chunk (b'?' ∷ []) then false else true) proof_incomplete) _ h) [
          | bound _ _ h1 ↦ elim (>>=-eq-ok (prepare_step o cur n.state chunk (some span)) _ h1) [
            | bound prepared prepares h2 ↦
                elim (>>=-eq-ok
                  (take_step o cur n prepared.0 prepared.1.label prepared.1.fwdref span) _ h2) [
                    | bound n1 takes h3 ↦
                        subst IsPlain
                          (note_hyptok-none n1 prepared.1.hyptok
                            (prepare_step-hyptok n.state chunk span no_equals prepares) h3)
                          (take_step-IsPlain frames n prepared.0 prepared.1.label prepared.1.fwdref
                            span p.plain
                            (prepare_step-IsTracked o cur names n.state chunk (some span) p.sound
                              prepares)
                            takes)
                  ]
          ]
        ]

  pub verify_normal-IsPlain :
      FramesWellFormed o cur
      → NamesExist o cur
      → (proof : List (Token × Span)) (n : Normal) {n' : Normal}
      → All (λ step. NoEquals step.0) proof
      → IsPlain n
      → verify_normal o cur n proof ≡ ok n'
      → IsPlain n'
  unfolding verify_normal
  verify_normal-IsPlain frames names [] n all p h = let same : n ≡ _ = cc in subst IsPlain same p
  verify_normal-IsPlain frames names ((chunk, span) ∷ rest) n all p h =
      elim (>>=-eq-ok (normal_step o cur n chunk span) _ h) [
        | bound n1 steps h1 ↦
            verify_normal-IsPlain frames names rest n1 all.1
              (normal_step-IsPlain frames names n chunk span all.0 p steps) h1
      ]
