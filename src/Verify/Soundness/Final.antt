-- ===== src/Verify/Soundness/Final.antt =====
-- src/verify.rs: proofs that are not compressed, the final comparison, and `verify_proof`.
use metamath_knife.Base.{
  IsDistinct, ℕ, ◌+◌, Option-cases, inl, inr, get_elem?, true, false, none, some, List, [], ◌∷◌,
  ◌++◌, append_assoc, append-nil, length, drop, bytes_eq_sound, All, ◌≡◌, refl, sym, ap, subst, ◌∙◌,
  leb, ◌==◌, ==_iff, arith,
}
use metamath_knife.Base.Map
use metamath_knife.Address.{Token, Span}
use metamath_knife.BitSet.{Bitset}
use metamath_knife.Diag.{
  ok, ok_or, try_assert, bound, >>=-eq-ok, or_panic-eq-ok, ok_or-eq-ok, try_assert-eq-ok,
  proof_excess_end, proof_no_steps, proof_wrong_type_end,
}
use metamath_knife.Scopeck.{ExprFragment, Frame}
use metamath_knife.Verify.{Oracle, VerifyState, nat_eq, slice_of}
use metamath_knife.Verify.Prepare.{push_name}
use metamath_knife.Verify.Execute.{Substitution}
use metamath_knife.Verify.Run.{
  last?, raw_fragments, do_substitute_raw, finalize_step, fresh, tokens, is_compressed,
  verify_compressed, run_proof, verify_proof, start_normal, verify_normal,
}
use metamath_knife.Verify.Substitute.{fragments_bytes-cons, expr_bytes-eq-some}
use metamath_knife.Verify.Derivation.{fragments_bytes, expr_bytes, name_of, Derives}
use metamath_knife.Verify.Hypotheses.{Extends}
use metamath_knife.Verify.Numbering.{IsNumbering}
use metamath_knife.Verify.Soundness.Tracking.{IsTracked}
use metamath_knife.Verify.Soundness.Steps.{FramesWellFormed, last?-All}
use metamath_knife.Verify.Soundness.Preparation.{NamesExist, push_name-eq-append}
use metamath_knife.Verify.Soundness.Normal.{NoEquals, IsPlain, verify_normal-IsPlain}
use metamath_knife.Verify.Soundness.Proof.{fresh-IsTracked, verify_compressed-IsTracked}

-- The number of each variable at the end of a proof; a variable that was given none has a number that
-- no other has.
numbering : List (ℕ × ℕ) → ℕ → ℕ
numbering m a = elim (Map.lookup nat_eq a m) [ none ↦ length m + a | some n ↦ n ]

numbering-Extends : (m : List (ℕ × ℕ)) → Extends (numbering m) m
unfolding numbering
numbering-Extends m a n e = ground (arith, e)

numbering-none :
    (m : List (ℕ × ℕ)) (a : ℕ) → Map.lookup nat_eq a m ≡ none → numbering m a ≡ length m + a
unfolding numbering
numbering-none m a e = ground (arith, e)

numbering-injective :
    (vs : List ℕ) (m : List (ℕ × ℕ)) (a b : ℕ)
    → IsNumbering vs m
    → numbering m a ≡ numbering m b
    → a ≡ b
numbering-injective vs m a b s e = elim (Option-cases (Map.lookup nat_eq a m)) [
  | inl new ↦ elim (Option-cases (Map.lookup nat_eq b m)) [
    | inl new2 ↦ omega (arith, e, numbering-none m a new, numbering-none m b new2)
    | inr (n, old) ↦
        absurd
          (omega (arith, e, numbering-none m a new, numbering-Extends m b n old, s.bounded b n old))
  ]
  | inr (n, old) ↦ elim (Option-cases (Map.lookup nat_eq b m)) [
    | inl new ↦
        absurd
          (omega (arith, e, numbering-none m b new, numbering-Extends m a n old, s.bounded a n old))
    | inr (k, old2) ↦
        let same : k ≡ n =
          sym (numbering-Extends m b k old2) ∙ sym e ∙ numbering-Extends m a n old in
        s.injective a b n old (old2 ∙ ap some same)
  ]
]

module _ (o : Oracle) (cur : Frame) where
  raw_fragments_sound :
      NamesExist o cur
      → (target : List ℕ) (parts : List ExprFragment) {out : List ℕ}
      → raw_fragments o cur target parts ≡ ok out
      → (bytes : List ℕ) × (fragments_bytes cur.const_pool (name_of o cur) parts ≡ some bytes)
        × (out ≡ target ++ bytes)
  unfolding raw_fragments
  raw_fragments_sound names target [] h = ([], unfold fragments_bytes in refl, rw append-nil (cc))
  raw_fragments_sound names target (part ∷ parts) h =
      elim (>>=-eq-ok (slice_of cur.const_pool part.prefix) _ h) [
        | bound prefix hp h1 ↦ elim (>>=-eq-ok (push_name o cur (target ++ prefix) part.var) _ h1) [
          | bound target' hn h2 ↦
              let (bytes, spec, whole) = raw_fragments_sound names target' parts h2 in
              (
                prefix ++ name_of o cur part.var ++ bytes,
                fragments_bytes-cons cur.const_pool (name_of o cur) part parts (or_panic-eq-ok _ hp)
                    spec,
                whole
                    ∙ rw (push_name-eq-append o cur names (target ++ prefix) part.var hn)
                        (simp append_assoc),
              )
        ]
      ]

  do_substitute_raw_sound :
      NamesExist o cur
      → {out : List ℕ} → do_substitute_raw o cur [] ≡ ok out
      → expr_bytes cur.const_pool (name_of o cur) cur.target ≡ some out
  unfolding do_substitute_raw
  do_substitute_raw_sound names {out} h =
      elim (>>=-eq-ok (raw_fragments o cur [] cur.target.tail) _ h) [
        | bound front hf h1 ↦ elim (>>=-eq-ok (slice_of cur.const_pool cur.target.rump) _ h1) [
          | bound rump hr h2 ↦
              let (bytes, spec, whole) = raw_fragments_sound names [] cur.target.tail hf in
              let same : front ++ rump ≡ out = cc in
              expr_bytes-eq-some cur.const_pool (name_of o cur) cur.target spec
                (or_panic-eq-ok _ hr)
              ∙ ap some (ap (λ f. f ++ rump) (sym whole) ∙ same)
        ]
      ]

  -- The statement of the frame, with the names of its variables, is derivable, for a numbering of all
  -- variables that gives those of the frame their places, and no two one number: the numbers by which
  -- the frame's table says which variables are disjoint.
  pub record Proved : Type 0 where
    pub number : ℕ → ℕ
    pub own : (i a : ℕ) → get_elem? cur.var_list i ≡ some a → number a ≡ i
    pub injective : (a b : ℕ) → number a ≡ number b → a ≡ b
    pub bytes : List ℕ
    pub vars : Bitset
    pub statement : expr_bytes cur.const_pool (name_of o cur) cur.target ≡ some bytes
    pub derives : Derives o cur number cur.target.typecode bytes vars

  finalize_step_sound :
      NamesExist o cur
      → (st : VerifyState) → IsTracked o cur st
      → finalize_step o cur st ≡ ok tt
      → Proved
  unfolding finalize_step
  finalize_step_sound names st t h =
      elim (>>=-eq-ok (try_assert (leb (length st.stack) 1) proof_excess_end) _ h) [
        | bound _ _ h1 ↦ elim (>>=-eq-ok (ok_or (last? st.stack) proof_no_steps) _ h1) [
          | bound tos top h2 ↦
              elim (>>=-eq-ok (try_assert (tos.code == cur.target.typecode) proof_wrong_type_end) _
                h2) [
                  | bound _ code h3 ↦ elim (>>=-eq-ok (do_substitute_raw o cur []) _ h3) [
                    | bound claimed raw h4 ↦
                        elim (>>=-eq-ok (slice_of st.stack_buffer tos.expr) _ h4) [
                          | bound proved there h5 ↦
                              let slot =
                                last?-All o cur _ st.stack t.sound.stack (ok_or-eq-ok _ _ top) in
                              let equal : proved ≡ claimed =
                                bytes_eq_sound proved claimed (try_assert-eq-ok _ _ h5) in
                              let same_bytes : slot.bytes ≡ claimed =
                                cc (slot.there, or_panic-eq-ok _ there, equal) in
                              let same_code =
                                (==_iff tos.code cur.target.typecode).0
                                  (try_assert-eq-ok _ _ code) in
                              record {
                                number = numbering st.var2bit;
                                own =
                                    λ i a e. numbering-Extends st.var2bit a i (t.numbers.own i a e);
                                injective = λ a b e.
                                    numbering-injective cur.var_list st.var2bit a b t.numbers e;
                                bytes = claimed;
                                vars = tos.vars;
                                statement = do_substitute_raw_sound names raw;
                                derives =
                                    subst
                                      (λ c. Derives o cur (numbering st.var2bit) c claimed tos.vars)
                                      same_code
                                      (subst
                                        (λ b.
                                          Derives o cur (numbering st.var2bit) tos.code b tos.vars)
                                        same_bytes
                                        (slot.derives (numbering st.var2bit)
                                          (numbering-Extends st.var2bit)));
                              }
                        ]
                  ]
                ]
        ]
      ]

  -- A compressed proof that is accepted is a derivation of the statement, where every assertion
  -- that can be found is well formed, and the variables of the statement are distinct and have names.
  -- The derivation keeps all disjointness conditions, for numbers of the variables that are the places
  -- of those of the statement and different for different variables.
  pub compressed_sound :
      FramesWellFormed o cur
      → NamesExist o cur
      → IsDistinct cur.var_list
      → (info : Substitution) (proof : List (Token × Span)) → is_compressed o cur proof ≡ true
      → verify_proof o cur info proof ≡ ok tt
      → Proved
  unfolding verify_proof run_proof
  compressed_sound frames names distinct info proof compressed h =
      elim (>>=-eq-ok (run_proof o cur info proof) _ h) [
        | bound st runs h1 ↦
            let run : verify_compressed o cur (fresh o cur info) (tokens o cur (drop 1 proof))
                ≡ ok st =
              rw compressed at runs in
            finalize_step_sound names st
              (verify_compressed-IsTracked o cur frames names (fresh o cur info) st
                (tokens o cur (drop 1 proof)) (fresh-IsTracked o cur frames names distinct info)
                run)
              h1
      ]

  -- A proof in the normal format that names no hypothesis, so that no token has an `=`, and that is
  -- accepted is a derivation of the statement, where every assertion that can be found is well formed,
  -- and the variables of the statement are distinct and have names. The derivation keeps all
  -- disjointness conditions, for numbers of the variables that are the places of those of the statement
  -- and different for different variables.
  pub normal_sound :
      FramesWellFormed o cur
      → NamesExist o cur
      → IsDistinct cur.var_list
      → (info : Substitution) (proof : List (Token × Span)) → is_compressed o cur proof ≡ false
      → All (λ step. NoEquals step.0) proof
      → verify_proof o cur info proof ≡ ok tt
      → Proved
  unfolding verify_proof run_proof
  normal_sound frames names distinct info proof normal no_equals h =
      elim (>>=-eq-ok (run_proof o cur info proof) _ h) [
        | bound st runs h1 ↦
            elim (>>=-eq-ok (verify_normal o cur (start_normal o cur info) proof) _
              (rw normal at runs)) [
                | bound n steps h2 ↦
                    let same : n.state ≡ st = cc (h2) in
                    finalize_step_sound names st
                      (subst (IsTracked o cur) same (
                        IsPlain.sound (
                          verify_normal-IsPlain o cur frames names proof (start_normal o cur info)
                            no_equals
                            (record {
                              sound = fresh-IsTracked o cur frames names distinct info;
                              plain = refl;
                            })
                            steps)))
                      h1
              ]
      ]
