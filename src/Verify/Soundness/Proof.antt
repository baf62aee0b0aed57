-- ===== src/Verify/Soundness/Proof.antt =====
-- src/verify.rs: a proof that `verify_proof` accepts is a derivation of its statement.
use metamath_knife.Base.{
  IsDistinct, ℕ, suc, ◌+◌, ◌-◌, ◌*◌, ◌&&◌, false, none, some, List, [], ◌∷◌, get_elem?, bytes_eq,
  ◌≡◌, refl, subst, leb, ltb, ◌==◌, Bool-cases, inl, inr, arith,
}
use metamath_knife.Address.{Token}
use metamath_knife.Diag.{
  ok, try_assert, bound, >>=-eq-ok, proof_malformed_varint, proof_invalid_save,
}
use metamath_knife.Scopeck.{Hyp, Frame}
use metamath_knife.Verify.{Oracle, VerifyState}
use metamath_knife.Verify.Prepare.{prepare_hypothesis, prepare_step}
use metamath_knife.Verify.Execute.{Substitution, execute_step}
use metamath_knife.Verify.Run.{
  Decoder, varint_limit, save_step, fresh, prepare_hypotheses, read_roster, decode_char,
  decode_chunk, decode_chunks, step_number, more_digits, save_last, verify_compressed,
}
use metamath_knife.Verify.Soundness.Labels.{shift, prepare_step-IsTracked}
use metamath_knife.Verify.Numbering.{number_vars-IsNumbering}
use metamath_knife.Verify.Soundness.Steps.{FramesWellFormed}
use metamath_knife.Verify.Soundness.Preparation.{NamesExist}
use metamath_knife.Verify.Soundness.Tracking.{
  IsTracked, execute_step-IsTracked, save_step-IsTracked, prepare_hypothesis-IsTracked,
}

module _ (o : Oracle) (cur : Frame) (frames : FramesWellFormed o cur)
    (names : NamesExist o cur) where
  step_number-IsTracked :
      (d : Decoder) (k : ℕ) {d' : Decoder}
      → IsTracked o cur d.state
      → step_number o cur d k ≡ ok d'
      → IsTracked o cur d'.state
  unfolding step_number
  step_number-IsTracked d k {d'} s h = elim (>>=-eq-ok (execute_step cur d.state k) _ h) [
    | bound st executes h1 ↦
        let same : st ≡ d'.state = cc in
        subst (IsTracked o cur) same (execute_step-IsTracked o cur frames d.state st k s executes)
  ]

  more_digits-IsTracked :
      (d : Decoder) (k : ℕ) {d' : Decoder}
      → IsTracked o cur d.state
      → more_digits o cur d k ≡ ok d'
      → IsTracked o cur d'.state
  unfolding more_digits
  more_digits-IsTracked d k {d'} s h =
      elim (>>=-eq-ok (try_assert (ltb k varint_limit) proof_malformed_varint) _ h) [
        | bound _ _ h1 ↦
            let longer : record d { k = k; can_save = false } ≡ d' = cc (h1) in
            subst (λ e. IsTracked o cur e.state) longer s
      ]

  save_last-IsTracked :
      (d : Decoder) {d' : Decoder}
      → IsTracked o cur d.state
      → save_last o cur d ≡ ok d'
      → IsTracked o cur d'.state
  unfolding save_last
  save_last-IsTracked d {d'} s h = elim (>>=-eq-ok (try_assert d.can_save proof_invalid_save) _ h) [
    | bound _ _ h1 ↦ elim (>>=-eq-ok (save_step d.state) _ h1) [
      | bound st saves h2 ↦
          let same : st ≡ d'.state = cc in
          subst (IsTracked o cur) same (save_step-IsTracked o cur d.state st s saves)
    ]
  ]

  -- A `?` is an error; any other character is passed over.
  other_char :
      (d : Decoder) (ch : ℕ) {d' : Decoder}
      → (leb b'A' ch && leb ch b'T') ≡ false
      → (leb b'U' ch && leb ch b'Y') ≡ false
      → (ch == b'Z') ≡ false
      → decode_char o cur d ch ≡ ok d'
      → d ≡ d'
  unfolding decode_char
  other_char d ch {d'} no_step no_digit no_save h = elim (Bool-cases (ch == b'?')) [
    | inl unknown ↦
        elim (>>=-eq-ok (try_assert (d.k == 0) proof_malformed_varint) _
          (rw (no_step, no_digit, no_save, unknown) at h)) [ bound _ _ h1 ↦ cc ]
    | inr skipped ↦ let h1 : ok d ≡ ok d' = rw (no_step, no_digit, no_save, skipped) at h in cc
  ]

  decode_char-IsTracked :
      (d : Decoder) (ch : ℕ) {d' : Decoder}
      → IsTracked o cur d.state
      → decode_char o cur d ch ≡ ok d'
      → IsTracked o cur d'.state
  unfolding decode_char
  decode_char-IsTracked d ch {d'} s h = elim (Bool-cases (leb b'A' ch && leb ch b'T')) [
    | inl step ↦
        let h1 : step_number o cur d (d.k * 20 + (ch - b'A')) ≡ ok d' = ground (arith, h, step) in
        step_number-IsTracked d (d.k * 20 + (ch - b'A')) s h1
    | inr no_step ↦ elim (Bool-cases (leb b'U' ch && leb ch b'Y')) [
      | inl digit ↦
          let h1 : more_digits o cur d (d.k * 5 + 1 + (ch - b'U')) ≡ ok d' =
            ground (arith, h, no_step, digit) in
          more_digits-IsTracked d (d.k * 5 + 1 + (ch - b'U')) s h1
      | inr no_digit ↦ elim (Bool-cases (ch == b'Z')) [
        | inl saves ↦
            let h1 : save_last o cur d ≡ ok d' = rw (no_step, no_digit, saves) at h in
            save_last-IsTracked d s h1
        | inr no_save ↦
            let same : d ≡ d' = other_char d ch no_step no_digit no_save h in
            subst (λ e. IsTracked o cur e.state) same s
      ]
    ]
  ]

  decode_chunk-IsTracked :
      (d : Decoder) (chs : List ℕ) {d' : Decoder}
      → IsTracked o cur d.state
      → decode_chunk o cur d chs ≡ ok d'
      → IsTracked o cur d'.state
  unfolding decode_chunk
  decode_chunk-IsTracked d [] {d'} s h =
      let same : d ≡ d' = cc in subst (λ e. IsTracked o cur e.state) same s
  decode_chunk-IsTracked d (ch ∷ chs) s h = elim (>>=-eq-ok (decode_char o cur d ch) _ h) [
    | bound d1 first h1 ↦ decode_chunk-IsTracked d1 chs (decode_char-IsTracked d ch s first) h1
  ]

  decode_chunks-IsTracked :
      (d : Decoder) (chunks : List Token) {d' : Decoder}
      → IsTracked o cur d.state
      → decode_chunks o cur d chunks ≡ ok d'
      → IsTracked o cur d'.state
  unfolding decode_chunks
  decode_chunks-IsTracked d [] {d'} s h =
      let same : d ≡ d' = cc in subst (λ e. IsTracked o cur e.state) same s
  decode_chunks-IsTracked d (chunk ∷ chunks) s h =
      elim (>>=-eq-ok (decode_chunk o cur d chunk) _ h) [
        | bound d1 first h1 ↦
            decode_chunks-IsTracked d1 chunks (decode_chunk-IsTracked d chunk s first) h1
      ]

  read_roster-IsTracked :
      (st : VerifyState) (chunks : List Token) {result : VerifyState × List Token}
      → IsTracked o cur st
      → read_roster o cur st chunks ≡ ok result
      → IsTracked o cur result.0
  unfolding read_roster
  read_roster-IsTracked st [] s h = cc
  read_roster-IsTracked st (chunk ∷ chunks) {result} s h =
      elim (Bool-cases (bytes_eq chunk (b')' ∷ []))) [
        | inl closes ↦
            let same : st ≡ result.0 = ground (arith, h, closes) in subst (IsTracked o cur) same s
        | inr label ↦ elim (>>=-eq-ok (prepare_step o cur st chunk none) _ (rw label at h)) [
          | bound step prepares h1 ↦
              read_roster-IsTracked step.0 chunks
                (prepare_step-IsTracked o cur names st chunk none s prepares) h1
        ]
      ]

  prepare_hypotheses-IsTracked :
      (st : VerifyState) (done : ℕ) (hyps : List Hyp) {st' : VerifyState}
      → ((i : ℕ) (h : Hyp)
          → get_elem? hyps i ≡ some h
          → get_elem? cur.hypotheses (i + done) ≡ some h)
      → IsTracked o cur st
      → prepare_hypotheses o cur st hyps ≡ ok st'
      → IsTracked o cur st'
  unfolding prepare_hypotheses
  prepare_hypotheses-IsTracked st done [] {st'} at s h =
      let same : st ≡ st' = cc in subst (IsTracked o cur) same s
  prepare_hypotheses-IsTracked st done (x ∷ hyps) at s h =
      elim (>>=-eq-ok (prepare_hypothesis o cur st x) _ h) [
        | bound st1 first h1 ↦
            prepare_hypotheses-IsTracked st1 (suc done) hyps
              (λ i k e. rw (shift o cur i done) (at (suc i) k e))
              (prepare_hypothesis-IsTracked o cur names st st1 (0 + done) x (at 0 x refl) s first)
              h1
      ]

  pub fresh-IsTracked :
      IsDistinct cur.var_list → (info : Substitution) → IsTracked o cur (fresh o cur info)
  fresh-IsTracked distinct info = record {
    sound = record { prepared = tt; stack = tt };
    numbers = number_vars-IsNumbering o cur distinct;
  }

  pub verify_compressed-IsTracked :
      (st st' : VerifyState) (chunks : List Token)
      → IsTracked o cur st
      → verify_compressed o cur st chunks ≡ ok st'
      → IsTracked o cur st'
  unfolding verify_compressed
  verify_compressed-IsTracked st st' chunks s h =
      elim (>>=-eq-ok (prepare_hypotheses o cur st cur.hypotheses) _ h) [
        | bound ready prepares h1 ↦ elim (>>=-eq-ok (read_roster o cur ready chunks) _ h1) [
          | bound roster reads h2 ↦
              elim (>>=-eq-ok
                (decode_chunks o cur (record { state = roster.0; k = 0; can_save = false })
                  roster.1)
                _ h2) [
                  | bound done decodes h3 ↦
                      elim (>>=-eq-ok (try_assert (done.k == 0) proof_malformed_varint) _ h3) [
                        | bound _ _ h4 ↦
                            let same : done.state ≡ st' = cc in
                            let start =
                              prepare_hypotheses-IsTracked st 0 cur.hypotheses
                                (λ i k e. rw (no_shift i) e) s prepares in
                            subst (IsTracked o cur) same (
                              decode_chunks-IsTracked _ roster.1
                                (read_roster-IsTracked ready chunks start reads) decodes)
                      ]
                ]
        ]
      ]
    where
      no_shift : (i : ℕ) → i + 0 ≡ i
      no_shift i = omega arith
