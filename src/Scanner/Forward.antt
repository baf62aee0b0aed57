-- ===== src/Scanner/Forward.antt =====
-- src/parser.rs: `get_statement` reads a well-formed statement, whatever the bytes are.
use metamath_knife.Base.{
  ℕ, ◌<◌, ◌≤◌, false, Option, none, some, length, bytes_eq, ◌≡◌, ◌≢◌, refl, sym, subst, Bool-cases,
  inl, inr, arith,
}
use metamath_knife.Address.{Span, is_null, eof}
use metamath_knife.Diag.{ok}
use metamath_knife.Scanner.{Scanner}
use metamath_knife.Scanner.Comments.{
  CommentType, normal, typesetting, extra, keyword, Statement, first_token, comment_stype,
  out_statement, get_comment_statement,
}
use metamath_knife.Scanner.Statements.{begin, get_statement}
use metamath_knife.Scanner.Moves.{
  IsSpan, IsScanner, left, Goes, Goes-trans, Reads, reads, Returns, returned, as_ref-ok,
  get_raw-Reads,
}
use metamath_knife.Scanner.Total.{get_comment-Goes, put_back-Reads}
use metamath_knife.Scanner.Phrases.{Goes-unget}
use metamath_knife.Scanner.Safe.{IsTyped}
use metamath_knife.Scanner.Out.{IsOut, IsOut-after, get_labelled-IsOut}

first_token-Reads : (s : Scanner) → IsScanner s → Reads s (first_token s)
first_token-Reads s w = elim (Bool-cases (is_null s.unget)) [
  | inr put_back ↦ put_back-Reads s (first_token s) w put_back (ground (arith, put_back))
  | inl empty ↦ subst (Reads s) (ground (arith, empty)) (get_raw-Reads s w)
]

-- What `get_comment_statement` comes to: a comment, or nothing but a token put back.
abbrev IsCommentOut : Scanner → Scanner → Option Statement → Type 0
IsCommentOut s s' none = Goes s s'
IsCommentOut s s' (some stmt) = IsOut s s' stmt

comment-IsOut :
    (s t s' : Scanner) (ctype : CommentType) (opener : Span)
    → s.statement_math_start ≤ s.statement_proof_start
    → s.statement_proof_start ≤ length s.span_pool
    → Goes s t
    → Goes t s'
    → left t < left s
    → IsSpan s.buffer opener
    → IsOut s
        (out_statement s'
          (comment_stype ctype)
          (record { start = opener.start; end = opener.start })).0
        (out_statement s'
          (comment_stype ctype)
          (record { start = opener.start; end = opener.start })).1
comment-IsOut s t s' ctype opener first inside g g' less span =
    let all = Goes-trans s t s' g g' in
    record {
      scanner = record {
        inside = all.0.inside;
        unget_span = all.0.unget_span;
        label_spans = all.0.label_spans;
        pool_spans = all.0.pool_spans;
      };
      buffer = all.1.0;
      starts = all.1.1.1.1.0;
      math = all.1.1.1.1.1.1.0;
      ends = refl;
      forward = all.1.1.0;
      well_formed = record {
        math_first = omega (arith, first, all);
        proof_last = omega (arith, inside, all);
        in_pool = omega arith;
        label_span = (omega arith, omega (arith, span));
        typed = comment-IsTyped ctype;
      };
      at_end = λ e. absurd (comment-ne-eof ctype e);
      progress = λ ne. omega (arith, less, g');
    }
  where
    comment-ne-eof : (c : CommentType) → comment_stype c ≢ eof
    comment-ne-eof normal e = cc (e)
    comment-ne-eof typesetting e = cc (e)
    comment-ne-eof extra e = cc (e)

    comment-IsTyped : (c : CommentType) {m p : ℕ} → IsTyped (comment_stype c) m p
    comment-IsTyped normal = record {
      not_empty = λ x. cc (x);
      two_for_float = λ x. cc (x);
      two_for_disjoint = λ x. cc (x);
    }
    comment-IsTyped typesetting = record {
      not_empty = λ x. cc (x);
      two_for_float = λ x. cc (x);
      two_for_disjoint = λ x. cc (x);
    }
    comment-IsTyped extra = record {
      not_empty = λ x. cc (x);
      two_for_float = λ x. cc (x);
      two_for_disjoint = λ x. cc (x);
    }

get_comment_statement-IsCommentOut :
    (s : Scanner)
    → IsScanner s
    → s.statement_math_start ≤ s.statement_proof_start
    → s.statement_proof_start ≤ length s.span_pool
    → Returns (λ r. IsCommentOut s r.0 r.1) (get_comment_statement s)
unfolding get_comment_statement
get_comment_statement-IsCommentOut s w first inside = elim (first_token-Reads s w) [
  | reads s1 tok e g span end less ↦ elim (Bool-cases (is_null tok)) [
    | inl null ↦ returned (s1, none) (ground (arith, e, null)) g
    | inr more ↦ elim (as_ref-ok s1 tok (subst (λ b. IsSpan b tok) (sym g.1.0) span)) [
      | returned bytes e1 _ ↦ elim (Bool-cases (bytes_eq bytes (keyword b'('))) [
        | inr no_comment ↦
            returned (record s1 { unget = tok }, none) (ground (arith, e, more, e1, no_comment))
              (Goes-unget s s1 tok g span (less more))
        | inl opens ↦ elim (get_comment-Goes s1 tok false g.0) [
          | returned r e2 g' ↦
              returned
                (
                  (out_statement r.0 (comment_stype r.1)
                      (record { start = tok.start; end = tok.start })).0,
                  some
                      (out_statement r.0 (comment_stype r.1)
                        (record { start = tok.start; end = tok.start })).1,
                )
                (ground (arith, e, more, e1, opens, e2))
                (comment-IsOut s s1 r.0 r.1 tok first inside g g' (less more) span)
        ]
      ]
    ]
  ]
]

-- For every scanner whose position, spans and pool lie in its buffer, `get_statement` returns. The
-- statement starts where the scanner stood and ends where it stands then, which is with less to read
-- unless the statement is the end of the buffer, and then at the end of the buffer. Its math string
-- starts at the end of the pool, its ranges lie in the pool in their order and are as long as its type
-- wants, its label lies in the buffer, and the scanner is well formed again.
pub get_statement-IsOut :
    (s : Scanner) → IsScanner s → Returns (λ r. IsOut (begin s) r.0 r.1) (get_statement s)
unfolding get_statement
get_statement-IsOut s w =
    elim (get_comment_statement-IsCommentOut (begin s) (begin-IsScanner w) (omega arith)
      (omega arith)) [ returned r e k ↦ after r e k ]
  where
    begin-IsScanner : IsScanner s → IsScanner (begin s)
    begin-IsScanner v = record {
      inside = v.inside;
      unget_span = v.unget_span;
      label_spans = v.label_spans;
      pool_spans = v.pool_spans;
    }

    after :
        (r : Scanner × Option Statement)
        → get_comment_statement (begin s) ≡ ok r
        → IsCommentOut (begin s) r.0 r.1
        → Returns (λ r. IsOut (begin s) r.0 r.1) (get_statement s)
    after (t, some stmt) e k = returned (t, stmt) (ground (arith, e)) k
    after (t, none) e g = elim (get_labelled-IsOut t g.0 (omega (arith, g)) (omega (arith, g))) [
      | returned r e1 k ↦ returned r (ground (arith, e, e1)) (IsOut-after (begin s) t r.0 r.1 g k)
    ]
