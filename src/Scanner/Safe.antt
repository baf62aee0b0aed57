-- ===== src/Scanner/Safe.antt =====
-- src/parser.rs: reading a statement comes to an end, and the statement is well formed.
use metamath_knife.Base.{
  ℕ, ◌+◌, ◌<◌, ◌≤◌, true, false, not, ◌&&◌, List, length, ◌==◌, ◌≡◌, ◌≢◌, refl, subst, ◌∙◌,
  Bool-cases, inl, inr, arith,
}
use metamath_knife.Address.{Span, StatementType, invalid, file_include, floating, disjoint}
use metamath_knife.Diag.{Diagnostic, disjoint_single, bad_floating}
use metamath_knife.Scanner.{Scanner, diag, takes_math}
use metamath_knife.Scanner.Comments.{Statement}
use metamath_knife.Scanner.Strings.{invalidate}
use metamath_knife.Scanner.Statements.{is_provable, strings_for, math_len, check_statement}
use metamath_knife.Scanner.Moves.{IsSpan, Advances, Advances-trans, Returns, returned}
use metamath_knife.Scanner.Phrases.{eat_invalid-Goes}
use metamath_knife.Scanner.Parts.{get_strings-IsStrung, get_file_include-IsPart}

-- The marks of a statement of a type, where the math string and the proof start.
pub record IsTyped (stype : StatementType) (math_start proof_start : ℕ) : Type 0 where
  pub not_empty : takes_math stype ≡ true → math_start < proof_start
  pub two_for_float : stype ≡ floating → proof_start ≡ math_start + 2
  pub two_for_disjoint : stype ≡ disjoint → math_start + 2 ≤ proof_start

-- A statement whose spans and ranges exist in a buffer and a pool of this length.
pub record IsStatement (buffer : List ℕ) (pool : ℕ) (stmt : Statement) : Type 0 where
  pub math_first : stmt.math_start ≤ stmt.proof_start
  pub proof_last : stmt.proof_start ≤ stmt.proof_end
  pub in_pool : stmt.proof_end ≤ pool
  pub label_span : IsSpan buffer stmt.label
  pub typed : IsTyped stmt.stype stmt.math_start stmt.proof_start

-- What a statement has come to before its keyword is looked at for the last time: the strings.
pub record IsReady (s s' : Scanner) (stype : StatementType) (label : Span) : Type 0 where
  pub advances : Advances s s'
  pub math : s'.statement_math_start ≡ s.statement_math_start
  pub math_first : s'.statement_math_start ≤ s'.statement_proof_start
  pub in_pool : s'.statement_proof_start ≤ length s'.span_pool
  pub label_span : IsSpan s.buffer label
  pub not_empty :
      s'.invalidated ≡ false
      → takes_math stype ≡ true
      → s'.statement_math_start < s'.statement_proof_start

pub record IsChecked (s s' : Scanner) (stype : StatementType) (label : Span) : Type 0 where
  pub advances : Advances s s'
  pub math : s'.statement_math_start ≡ s.statement_math_start
  pub math_first : s'.statement_math_start ≤ s'.statement_proof_start
  pub in_pool : s'.statement_proof_start ≤ length s'.span_pool
  pub label_span : IsSpan s.buffer label
  pub typed :
      s'.invalidated ≡ false → IsTyped stype s'.statement_math_start s'.statement_proof_start

pub strings_for-IsReady :
    (s s1 : Scanner) (stype : StatementType) (label : Span)
    → Advances s s1
    → s1.statement_math_start ≡ s.statement_math_start
    → s1.statement_math_start ≤ s1.statement_proof_start
    → s1.statement_proof_start ≤ length s1.span_pool
    → IsSpan s.buffer label
    → Returns (λ s'. IsReady s s' stype label) (strings_for s1 stype)
strings_for-IsReady s s1 stype label a kept first inside span =
    elim (Bool-cases (takes_math stype)) [
      | inr no_math ↦ returned s1 (ground (arith, no_math)) (record {
        advances = a;
        math = kept;
        math_first = first;
        in_pool = inside;
        label_span = span;
        not_empty = λ h math. absurd (cc (math, no_math));
      })
      | inl math ↦
          elim (get_strings-IsStrung s1 (is_provable stype) a.0 (omega (arith, first, inside))) [
            | returned s' e k ↦ returned s' (ground (arith, math, e)) (record {
              advances = Advances-trans s s1 s' a k.advances;
              math = k.math ∙ kept;
              math_first = omega (arith, k.before_proof, k.math);
              in_pool = k.in_pool;
              label_span = span;
              not_empty = λ h _. omega (arith, k.not_empty h, k.math);
            })
          ]
    ]

-- A type that has no rule of its own about the number of tokens.
plain-IsChecked :
    (s s' : Scanner) (stype : StatementType) (label : Span)
    → stype ≢ floating
    → stype ≢ disjoint
    → IsReady s s' stype label
    → IsChecked s s' stype label
plain-IsChecked s s' stype label f d r = record {
  advances = r.advances;
  math = r.math;
  math_first = r.math_first;
  in_pool = r.in_pool;
  label_span = r.label_span;
  typed = λ h. record {
    not_empty = r.not_empty h;
    two_for_float = λ e. absurd (f e);
    two_for_disjoint = λ e. absurd (d e);
  };
}

invalid-IsChecked :
    (s s' : Scanner) (stype : StatementType) (label : Span) (d : Diagnostic)
    → IsReady s s' stype label
    → IsChecked s (invalidate (diag s' d)) stype label
invalid-IsChecked s s' stype label d r = record {
  advances = r.advances;
  math = r.math;
  math_first = r.math_first;
  in_pool = r.in_pool;
  label_span = r.label_span;
  typed = λ h. absurd (cc (h));
}

pub check_statement-IsChecked :
    (s s1 : Scanner) (stype : StatementType) (label : Span)
    → IsReady s s1 stype label
    → Returns (λ r. IsChecked s r.0 stype r.1) (check_statement s1 stype label)
unfolding check_statement
check_statement-IsChecked s s1 file_include label r =
    elim (get_file_include-IsPart s1 r.advances.0) [
      | returned (s', sp) e (a, ((p, (m, q)), span)) ↦
          returned (s', sp) e
            (record {
              advances = Advances-trans s s1 s' r.advances a;
              math = m ∙ r.math;
              math_first = omega (arith, r.math_first, m, q);
              in_pool = omega (arith, r.in_pool, p, q);
              label_span = subst (λ b. IsSpan b sp) r.advances.1.0 span;
              typed = λ h. record {
                not_empty = λ x. cc (x);
                two_for_float = λ x. cc (x);
                two_for_disjoint = λ x. cc (x);
              };
            })
    ]
check_statement-IsChecked s s1 invalid label r = elim (eat_invalid-Goes s1 r.advances.0) [
  | returned (s', _) e (w, (b, (f, (l, (st, (p, (m, (q, v)))))))) ↦
      returned (s', label) (ground (arith, e))
        (record {
          advances = Advances-trans s s1 s' r.advances (w, (b, (f, (l, st))));
          math = m ∙ r.math;
          math_first = omega (arith, r.math_first, m, q);
          in_pool = omega (arith, r.in_pool, p, q);
          label_span = r.label_span;
          typed = λ h. record {
            not_empty = λ x. cc (x);
            two_for_float = λ x. cc (x);
            two_for_disjoint = λ x. cc (x);
          };
        })
]
check_statement-IsChecked s s1 disjoint label r = elim (Bool-cases (math_len s1 == 1)) [
  | inl one ↦
      returned (invalidate (diag s1 disjoint_single), label) (ground (arith, one))
        (invalid-IsChecked s s1 disjoint label disjoint_single r)
  | inr more ↦
      returned (s1, label) (ground (arith, more))
        (record {
          advances = r.advances;
          math = r.math;
          math_first = r.math_first;
          in_pool = r.in_pool;
          label_span = r.label_span;
          typed = λ h. record {
            not_empty = r.not_empty h;
            two_for_float = λ x. cc (x);
            two_for_disjoint = λ x. ground (arith, more, r.not_empty h refl);
          };
        })
]
check_statement-IsChecked s s1 floating label r =
    elim (Bool-cases (not (math_len s1 == 0) && not (math_len s1 == 2))) [
      | inl wrong ↦
          returned (invalidate (diag s1 bad_floating), label) (ground (arith, wrong))
            (invalid-IsChecked s s1 floating label bad_floating r)
      | inr right ↦
          returned (s1, label) (ground (arith, right))
            (record {
              advances = r.advances;
              math = r.math;
              math_first = r.math_first;
              in_pool = r.in_pool;
              label_span = r.label_span;
              typed = λ h. record {
                not_empty = r.not_empty h;
                two_for_float = λ x. ground (arith, right, r.not_empty h refl);
                two_for_disjoint = λ x. cc (x);
              };
            })
    ]
check_statement-IsChecked s s1 _ label r =
    returned (s1, label) refl (plain-IsChecked s s1 _ label (λ e. cc (e)) (λ e. cc (e)) r)
