-- ===== src/Verify/Soundness/Preparation.antt =====
-- src/verify.rs: `prepare_hypothesis` and `prepare_step` make nothing usable that is not derivable.
use metamath_knife.Base.{
  ℕ, Option, some, List, [], ◌∷◌, ◌++◌, append_assoc, append-nil, get_elem?, length,
  slice-append_end, mark_last-append, All-append, ◌≡◌, ◌≢◌, refl, sym, ap, subst, ◌∙◌, Option-cases,
  Bool-cases, inl, inr, arith,
}
use metamath_knife.Base.Map
use metamath_knife.Address.{Token}
use metamath_knife.BitSet
use metamath_knife.BitSet.{Bitset, set_bit}
use metamath_knife.BitSet.Iter.{IsBitset}
use metamath_knife.BitSet.Words.{new-IsBitset, set_bit-IsBitset}
use metamath_knife.Diag.{ok, or_panic, bound, >>=-eq-ok, or_panic-eq-ok}
use metamath_knife.Scopeck.{ExprFragment, Hyp, essential, floating, Frame, typecode}
use metamath_knife.Verify.{Oracle, hyp, assertion, VerifyState, nat_eq, slice_of, index}
use metamath_knife.Verify.Prepare.{
  map_var, map_vars, is_assertion, push_name, push_fragments, push_hypothesis, prepare_hypothesis,
  prepare_frame,
}
use metamath_knife.Verify.Derivation.{
  fragments_bytes, own_vars, numbered, name_of, hyp_bytes, hyp_vars, InScope, Derives, given, typed,
}
use metamath_knife.Verify.Hypotheses.{Extends}
use metamath_knife.Verify.Substitute.{fragments_bytes-cons, expr_bytes-eq-some}
use metamath_knife.Verify.Numbering.{Grows, map_var-old, map_var-new, insert-Grows}
use metamath_knife.Verify.Soundness.Steps.{IsSound, IsSound-mono}

module _ (o : Oracle) (cur : Frame) where
  -- The variables of the frame have names.
  abbrev pub NamesExist : Type 0
  NamesExist =
      (var atom : ℕ) (name : Token)
      → get_elem? cur.var_list var ≡ some atom
      → o.atom_name atom ≡ some name
      → name ≢ []

  pub push_name-eq-append :
      NamesExist
      → (buf : List ℕ) (var : ℕ) {buf' : List ℕ} → push_name o cur buf var ≡ ok buf'
      → buf' ≡ buf ++ name_of o cur var
  unfolding push_name name_of
  push_name-eq-append names buf var {buf'} h = elim (>>=-eq-ok (index cur.var_list var) _ h) [
    | bound atom ha h1 ↦ elim (>>=-eq-ok (or_panic (o.atom_name atom)) _ h1) [
      | bound name hn h2 ↦
          let in_list = or_panic-eq-ok (get_elem? cur.var_list var) ha in
          let named = or_panic-eq-ok (o.atom_name atom) hn in
          let (marked, last, whole) =
            mark_last-append buf name buf' (names var atom name in_list named)
              (or_panic-eq-ok _ h2) in
          whole ∙ ap (λ ys. buf ++ ys) (ground (arith, in_list, named, last))
    ]
  ]

  -- The bytes and variables that were pushed behind a buffer.
  data Pushed (buf : List ℕ) (bytes : Option (List ℕ)) (vars : Bitset) (out : List ℕ × Bitset)
      : Type 0 where
    pushed :
        (more : List ℕ)
        → bytes ≡ some more
        → out.0 ≡ buf ++ more
        → out.1 ≡ vars
        → Pushed buf bytes vars out

  push_fragments_sound :
      NamesExist
      → (buf : List ℕ) (vars : Bitset) (parts : List ExprFragment) {out : List ℕ × Bitset}
      → push_fragments o cur buf vars parts ≡ ok out
      → Pushed buf (fragments_bytes cur.const_pool (name_of o cur) parts) (own_vars vars parts) out
  unfolding push_fragments own_vars
  push_fragments_sound names buf vars [] h =
      pushed [] (unfold fragments_bytes in refl) (rw append-nil (cc)) (cc)
  push_fragments_sound names buf vars (part ∷ parts) h =
      elim (>>=-eq-ok (slice_of cur.const_pool part.prefix) _ h) [
        | bound prefix hp h1 ↦ elim (>>=-eq-ok (push_name o cur (buf ++ prefix) part.var) _ h1) [
          | bound buf' hn h2 ↦
              elim (push_fragments_sound names buf' (set_bit vars part.var) parts h2) [
                | pushed more spec grown same ↦
                    pushed (prefix ++ name_of o cur part.var ++ more)
                      (fragments_bytes-cons cur.const_pool (name_of o cur) part parts
                        (or_panic-eq-ok _ hp) spec)
                      (grown
                        ∙ rw (push_name-eq-append names (buf ++ prefix) part.var hn)
                            (simp append_assoc))
                      same
              ]
        ]
      ]

  push_hypothesis_sound :
      NamesExist
      → (buf : List ℕ) (h : Hyp) {out : List ℕ × Bitset} → push_hypothesis o cur buf h ≡ ok out
      → Pushed buf (hyp_bytes o cur h) (hyp_vars o cur h) out
  unfolding push_hypothesis
  push_hypothesis_sound names buf (floating addr var code) h =
      elim (>>=-eq-ok (push_name o cur buf var) _ h) [
        | bound buf' hn h1 ↦
            let grown = push_name-eq-append names buf var hn in
            pushed (name_of o cur var) refl (cc (grown, h1)) (cc (h1))
      ]
  push_hypothesis_sound names buf (essential addr expr) {out} h =
      elim (>>=-eq-ok (push_fragments o cur buf BitSet.new expr.tail) _ h) [
        | bound front hf h1 ↦ elim (>>=-eq-ok (slice_of cur.const_pool expr.rump) _ h1) [
          | bound rump hr h2 ↦ elim (push_fragments_sound names buf BitSet.new expr.tail hf) [
            | pushed more spec grown same ↦
                let result : (front.0 ++ rump, front.1) ≡ out = cc in
                pushed (more ++ rump)
                  (expr_bytes-eq-some cur.const_pool (name_of o cur) expr spec
                    (or_panic-eq-ok _ hr))
                  (sym (ap (λ p. p.0) result) ∙ rw grown (append_assoc buf more rump))
                  (sym (ap (λ p. p.1) result) ∙ same)
          ]
        ]
      ]

  own_vars-IsBitset :
      (vars : Bitset) (parts : List ExprFragment) → IsBitset vars → IsBitset (own_vars vars parts)
  unfolding own_vars
  own_vars-IsBitset vars [] w = w
  own_vars-IsBitset vars (part ∷ parts) w =
      own_vars-IsBitset (set_bit vars part.var) parts (set_bit-IsBitset vars part.var w)

  hyp_vars-IsBitset : (h : Hyp) → IsBitset (hyp_vars o cur h)
  hyp_vars-IsBitset (floating addr var code) = set_bit-IsBitset BitSet.new var new-IsBitset
  hyp_vars-IsBitset (essential addr expr) = own_vars-IsBitset BitSet.new expr.tail new-IsBitset

  abbrev prepared_state : VerifyState → List ℕ → List (ℕ × ℕ) → Bitset → ℕ → VerifyState
  prepared_state st buf m vars code = record st {
    stack_buffer = buf;
    var2bit = m;
    prepared =
        st.prepared
        ++ hyp vars code (record { start = length st.stack_buffer; end = length buf }) ∷ [];
  }

  -- A step that is prepared at the end of the buffer.
  prepared_state-IsSound :
      (st : VerifyState) (more : List ℕ) (m : List (ℕ × ℕ)) (vars : Bitset) (code : ℕ)
      → Grows st.var2bit m
      → IsSound o cur st
      → IsBitset vars
      → ((number : ℕ → ℕ) → Extends number m → Derives o cur number code more vars)
      → IsSound o cur (prepared_state st (st.stack_buffer ++ more) m vars code)
  prepared_state-IsSound st more m vars code g s w d =
      let grown = IsSound-mono o cur st more m g s in
      record {
        prepared = All-append _ st.prepared _ grown.prepared (
          record {
            bytes = more;
            there = slice-append_end st.stack_buffer more;
            words = w;
            derives = d;
          },
          tt,
        );
        stack = grown.stack;
      }

  pub prepare_hypothesis-IsSound :
      NamesExist
      → (st st' : VerifyState) (i : ℕ) (h : Hyp) → get_elem? cur.hypotheses i ≡ some h
      → IsSound o cur st
      → prepare_hypothesis o cur st h ≡ ok st'
      → IsSound o cur st'
  unfolding prepare_hypothesis
  prepare_hypothesis-IsSound names st st' i h at_i s e =
      elim (>>=-eq-ok (push_hypothesis o cur st.stack_buffer h) _ e) [
        | bound out hp e1 ↦ elim (push_hypothesis_sound names st.stack_buffer h hp) [
          | pushed more spec grown same ↦
              let there =
                prepared_state-IsSound st more st.var2bit out.1 (typecode h) (λ a n p. p) s
                  (rw same (hyp_vars-IsBitset h)) (λ number ext. given i h at_i refl spec same) in
              let result : prepared_state st out.0 st.var2bit out.1 (typecode h) ≡ st' = cc in
              let whole =
                sym (ap (λ buf. prepared_state st buf st.var2bit out.1 (typecode h)) grown)
                ∙ result in
              subst (IsSound o cur) whole there
        ]
      ]

  -- Numbering the variables of a `$f` statement keeps the numbers given so far.
  data Numbered (m : List (ℕ × ℕ)) (out : Bitset) (atoms : List ℕ) (result : List (ℕ × ℕ) × Bitset)
      : Type 0 where
    numbers :
        Grows m result.0
        → IsBitset result.1
        → ((number : ℕ → ℕ) → Extends number result.0 → result.1 ≡ numbered out number atoms)
        → Numbered m out atoms result

  map_var_sound :
      (m : List (ℕ × ℕ)) (a : ℕ)
      → Grows m (map_var m a).0 × (Map.lookup nat_eq a (map_var m a).0 ≡ some (map_var m a).1)
  map_var_sound m a = elim (Option-cases (Map.lookup nat_eq a m)) [
    | inl new ↦
        rw (map_var-new m a new)
          (insert-Grows m a (length m) new, Map.lookup-insert a a (length m) m ∙ ground arith)
    | inr (n, old) ↦ rw (map_var-old m a n old) (λ b k e. e, old)
  ]

  map_vars_sound :
      (m : List (ℕ × ℕ)) (out : Bitset) (atoms : List ℕ)
      → IsBitset out
      → Numbered m out atoms (map_vars m out atoms)
  unfolding map_vars numbered
  map_vars_sound m out [] w = numbers (λ a n e. e) w (λ number ext. refl)
  map_vars_sound m out (a ∷ as') w =
      elim (map_vars_sound (map_var m a).0 (set_bit out (map_var m a).1) as'
        (set_bit-IsBitset out (map_var m a).1 w)) [
          | numbers g words spec ↦
              numbers (λ b n e. g b n ((map_var_sound m a).0 b n e)) words
                (λ number ext.
                  let known : number a ≡ (map_var m a).1 =
                    ext a (map_var m a).1 (g a (map_var m a).1 (map_var_sound m a).1) in
                  spec number ext ∙ rw known refl)
        ]

  pub prepare_frame-IsSound :
      (st : VerifyState) (label : Token) (f : Frame)
      → o.get label ≡ some f
      → InScope o cur f
      → IsSound o cur st
      → IsSound o cur (prepare_frame o cur st f)
  unfolding prepare_frame
  prepare_frame-IsSound st label f found in_scope s = elim (Bool-cases (is_assertion f.stype)) [
    | inl asserts ↦ rw asserts (record {
      prepared =
          All-append _ st.prepared (assertion f ∷ []) s.prepared
            (record { label = label; found = found; asserts = asserts; in_scope = in_scope }, tt);
      stack = s.stack;
    })
    | inr floats ↦ rw floats (elim (map_vars_sound st.var2bit BitSet.new f.var_list new-IsBitset) [
      | numbers g words spec ↦
          prepared_state-IsSound st f.stub_expr _ _ f.target.typecode g s words
            (λ number ext. typed label f found floats in_scope refl refl (spec number ext))
    ])
  ]
