-- ===== src/Scanner/Out.antt =====
-- src/parser.rs: a statement is read to its end, and is well formed.
use metamath_knife.Base.{
  ◌<◌, ◌≤◌, true, false, [], ◌∷◌, length, ◌≡◌, ◌≢◌, refl, sym, ap, subst, ◌∙◌, Bool-cases, inl, inr,
  ◌⊎◌, arith,
}
use metamath_knife.Address.{Token, Span, is_null, StatementType, eof, invalid}
use metamath_knife.Diag.{ok, ◌>>=◌, >>=-eq-ok, bound}
use metamath_knife.Scanner.{Scanner, takes_label}
use metamath_knife.Scanner.Comments.{Statement, out_statement}
use metamath_knife.Scanner.Strings.{get_no_label}
use metamath_knife.Scanner.Statements.{
  keyword_type, statement_type, report_keyword, label_for, strings_for, check_statement, final_type,
  get_labelled,
}
use metamath_knife.Scanner.Moves.{
  IsSpan, IsScanner, left, Advances, Advances-trans, Goes, Goes-trans, reads, Returns, returned,
  as_ref-ok,
}
use metamath_knife.Scanner.Total.{get-Reads, if-lem}
use metamath_knife.Scanner.Phrases.{read_labels-Goes}
use metamath_knife.Scanner.Safe.{
  IsStatement, IsChecked, strings_for-IsReady, check_statement-IsChecked,
}
use metamath_knife.Scanner.Parts.{
  get_no_label-invalidated, Marks, IsPart, get_no_label-IsPart, get_label-IsPart,
}

-- What reading a statement has come to.
pub record IsOut (s s' : Scanner) (stmt : Statement) : Type 0 where
  pub scanner : IsScanner s'
  pub buffer : s'.buffer ≡ s.buffer
  pub starts : stmt.span.start ≡ s.statement_start
  pub math : stmt.math_start ≡ s.statement_math_start
  pub ends : stmt.span.end ≡ s'.position
  pub forward : s.position ≤ s'.position
  pub well_formed : IsStatement s.buffer (length s'.span_pool) stmt
  pub at_end : stmt.stype ≡ eof → s'.position ≡ length s.buffer
  pub progress : stmt.stype ≢ eof → left s' < left s

keyword_type-ne-eof : (bytes : Token) → keyword_type bytes ≢ eof
unfolding keyword_type
keyword_type-ne-eof [] e = cc (e)
keyword_type-ne-eof (c ∷ []) e = cc (e)
keyword_type-ne-eof (d ∷ c ∷ []) e = ground (arith, e)
keyword_type-ne-eof (d ∷ c ∷ x ∷ xs) e = cc (e)

statement_type-ok :
    (s : Scanner) (kwtok : Span)
    → IsSpan s.buffer kwtok
    → Returns
        (λ stype.
          ((is_null kwtok ≡ true) × (stype ≡ eof)) ⊎ ((is_null kwtok ≡ false) × (stype ≢ eof)))
        (statement_type s kwtok)
unfolding statement_type
statement_type-ok s kwtok span = elim (Bool-cases (is_null kwtok)) [
  | inl null ↦ returned eof (ground (arith, null)) (inl (null, refl))
  | inr more ↦ elim (as_ref-ok s kwtok span) [
    | returned bytes e _ ↦
        returned (keyword_type bytes) (ground (arith, more, e))
          (inr (more, keyword_type-ne-eof bytes))
  ]
]

report_keyword-lem :
    (s : Scanner) (stype : StatementType) (kwtok : Span)
    → IsScanner s
    → Advances s (report_keyword s stype kwtok)
      × (Marks s (report_keyword s stype kwtok)
          × ((report_keyword s stype kwtok).invalidated ≡ false))
report_keyword-lem s invalid kwtok w =
    ((w, (refl, (omega arith, (omega arith, refl)))), ((omega arith, (refl, refl)), refl))
report_keyword-lem s _ kwtok w =
    ((w, (refl, (omega arith, (omega arith, refl)))), ((omega arith, (refl, refl)), refl))

label_for-IsPart :
    (s : Scanner) (stype : StatementType) (kwtok : Span)
    → IsScanner s
    → IsSpan s.buffer kwtok
    → IsPart s (label_for s stype kwtok)
label_for-IsPart s stype kwtok w span =
    if-lem (IsPart s) (takes_label stype) _ _ (get_label-IsPart s w)
      (get_no_label-IsPart s kwtok w span)

-- The statement as it is put out.
out-IsStatement :
    (s s' : Scanner) (stype : StatementType) (label : Span)
    → IsChecked s s' stype label
    → IsStatement s.buffer (length s'.span_pool) (out_statement s' (final_type s' stype) label).1
out-IsStatement s s' stype label c = record {
  math_first = c.math_first;
  proof_last = c.in_pool;
  in_pool = omega arith;
  label_span = c.label_span;
  typed = elim (Bool-cases s'.invalidated) [
    | inl bad ↦ rw bad (record {
      not_empty = λ x. cc (x);
      two_for_float = λ x. cc (x);
      two_for_disjoint = λ x. cc (x);
    })
    | inr good ↦ rw good (c.typed good)
  ];
}

-- At the end of the buffer nothing makes the statement invalid.
eof-valid :
    (s s' : Scanner) (kwtok : Span) (c : Scanner × Span)
    → strings_for (get_no_label (record s { invalidated = false }) kwtok).0 eof ≡ ok s'
    → check_statement s' eof (get_no_label (record s { invalidated = false }) kwtok).1 ≡ ok c
    → c.0.invalidated ≡ false
unfolding check_statement
eof-valid s s' kwtok c e e1 =
    cc (e, e1, get_no_label-invalidated (record s { invalidated = false }) kwtok)

final_type-eof : (s : Scanner) (stype : StatementType) → final_type s stype ≡ eof → stype ≡ eof
final_type-eof s stype e = elim (Bool-cases s.invalidated) [
  | inl bad ↦ absurd (ground (arith, bad, e))
  | inr good ↦ ground (arith, good, e)
]

-- The state and the statement put out, of which the type is known.
checked-IsOut :
    (s t s' : Scanner) (stype : StatementType) (label : Span)
    → Goes s t
    → IsChecked t s' stype label
    → (stype ≡ eof → (s'.position ≡ length t.buffer) × (s'.invalidated ≡ false))
    → (stype ≢ eof → left t < left s)
    → IsOut s
        (out_statement s' (final_type s' stype) label).0
        (out_statement s' (final_type s' stype) label).1
checked-IsOut s t s' stype label (w, (b, (f, (l, (st, o))))) c ends more = record {
  scanner = record {
    inside = c.advances.0.inside;
    unget_span = c.advances.0.unget_span;
    label_spans = c.advances.0.label_spans;
    pool_spans = c.advances.0.pool_spans;
  };
  buffer = c.advances.1.0 ∙ b;
  starts = c.advances.1.1.1.1 ∙ st;
  math = c.math ∙ o.1.0;
  ends = refl;
  forward = omega (arith, f, c.advances.1.1.0);
  well_formed =
      subst
        (λ buf.
          IsStatement buf (length s'.span_pool) (out_statement s' (final_type s' stype) label).1)
        b (out-IsStatement t s' stype label c);
  at_end = λ e. (ends (final_type-eof s' stype e)).0 ∙ ap length b;
  progress =
      λ ne. omega (arith, c.advances.1.1.1.0, more (λ e. ne (ground (arith, e, (ends e).1))));
}

-- An operation before, which goes on.
pub IsOut-after :
    (s t t' : Scanner) (stmt : Statement) → Goes s t → IsOut t t' stmt → IsOut s t' stmt
IsOut-after s t t' stmt (w, (b, (f, (l, (st, o))))) k = record {
  scanner = k.scanner;
  buffer = k.buffer ∙ b;
  starts = k.starts ∙ st;
  math = k.math ∙ o.1.0;
  ends = k.ends;
  forward = omega (arith, f, k.forward);
  well_formed = subst (λ buf. IsStatement buf (length t'.span_pool) stmt) b k.well_formed;
  at_end = λ e. k.at_end e ∙ ap length b;
  progress = λ ne. omega (arith, l, k.progress ne);
}

-- From the keyword on.
keyword-IsOut :
    (s : Scanner) (tok : Span) (stype : StatementType)
    → IsScanner s
    → IsSpan s.buffer tok
    → s.statement_math_start ≤ s.statement_proof_start
    → s.statement_proof_start ≤ length s.span_pool
    → (stype ≡ eof → s.position ≡ length s.buffer)
    → Returns
        (λ c.
          IsChecked s c.0 stype c.1
          × (stype ≡ eof → (c.0.position ≡ length s.buffer) × (c.0.invalidated ≡ false)))
        (strings_for (label_for (report_keyword s stype tok) stype tok).0 stype >>= λ strings.
          check_statement strings stype (label_for (report_keyword s stype tok) stype tok).1)
keyword-IsOut s tok stype w span first inside end =
    let reported = report_keyword-lem s stype tok w in
    let named = label_for (report_keyword s stype tok) stype tok in
    let part =
      label_for-IsPart (report_keyword s stype tok) stype tok reported.0.0
        (subst (λ b. IsSpan b tok) (sym reported.0.1.0) span) in
    elim (strings_for-IsReady s named.0 stype named.1
      (Advances-trans s (report_keyword s stype tok) named.0 reported.0 part.0)
      (part.1.0.1.0 ∙ reported.1.0.1.0) (omega (arith, first, part.1.0.1, reported.1.0.1))
      (omega (arith, inside, part.1.0, reported.1.0))
      (subst (λ b. IsSpan b named.1) reported.0.1.0 part.1.1)) [
        | returned s4 e3 r ↦ elim (check_statement-IsChecked s s4 stype named.1 r) [
          | returned c e4 k ↦
              returned c (ap (λ m. m >>= λ strings. check_statement strings stype named.1) e3 ∙ e4)
                (
                  k,
                  λ is_eof. (
                    omega (
                      arith,
                      end is_eof,
                      k.advances.1.1.0,
                      k.advances.0.inside,
                      ap length k.advances.1.0,
                    ),
                    subst
                        (λ st.
                          strings_for (label_for (report_keyword s st tok) st tok).0 st ≡ ok s4
                          → check_statement s4 st (label_for (report_keyword s st tok) st tok).1
                            ≡ ok c
                          → c.0.invalidated ≡ false)
                        (sym is_eof) (eof-valid s s4 tok c) e3 e4,
                  ),
                )
        ]
      ]

pub get_labelled-IsOut :
    (s : Scanner)
    → IsScanner s
    → s.statement_math_start ≤ s.statement_proof_start
    → s.statement_proof_start ≤ length s.span_pool
    → Returns (λ r. IsOut s r.0 r.1) (get_labelled s)
unfolding get_labelled
get_labelled-IsOut s w first inside = elim (read_labels-Goes s w) [
  | returned l e g ↦ elim (get-Reads l.0 g.0) [
    | reads s2 tok e1 g1 span end less ↦
        let g2 = Goes-trans s l.0 s2 g g1 in
        let here = subst (λ b. IsSpan b tok) (sym g1.1.0) span in
        elim (statement_type-ok s2 tok here) [
          | returned stype e2 which ↦
              elim (keyword-IsOut s2 tok stype g1.0 here (omega (arith, first, g2))
                (omega (arith, inside, g2)) (λ is_eof. ground (arith, which, is_eof, end, g.1.0))) [
                  | returned c e3 k ↦
                      elim (>>=-eq-ok
                        (strings_for (label_for (report_keyword s2 stype tok) stype tok).0 stype) _
                        e3) [
                          | bound s4 e4 e5 ↦
                              returned (out_statement c.0 (final_type c.0 stype) c.1)
                                (ground (arith, e, e1, e2, e4, e5))
                                (checked-IsOut s s2 c.0 stype c.1 g2 k.0 k.1
                                  (λ ne. ground (arith, which, ne, less, g)))
                        ]
                ]
        ]
  ]
]
