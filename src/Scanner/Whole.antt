-- ===== src/Scanner/Whole.antt =====
-- src/parser.rs: the loop over the statements of a segment comes to an end.
use metamath_knife.Base.{
  ℕ, zero, suc, ◌<◌, true, false, [], ◌∷◌, ◌++◌, length, length-append, get_elem?-append_end, ◌≡◌,
  sym, ap, subst, ◌∙◌, arith,
}
use metamath_knife.Scanner.{Scanner}
use metamath_knife.Scanner.Comments.{Statement}
use metamath_knife.Scanner.Statements.{begin}
use metamath_knife.Scanner.Segments.{
  Reading, AfterStatement, more, last, read_statement, Whole, read_statements,
}
use metamath_knife.Scanner.Moves.{IsSpan, left, Returns, returned}
use metamath_knife.Scanner.Safe.{IsStatement}
use metamath_knife.Scanner.Out.{IsOut}
use metamath_knife.Scanner.Forward.{get_statement-IsOut}
use metamath_knife.Scanner.Grouped.{Opens-append, IsGrouped-append}
use metamath_knife.Scanner.Listed.{
  InGroup-weaken, regrouped-IsStatement, Listed, Listed-weaken, Listed-append,
}
use metamath_knife.Scanner.Groups.{IsReading}
use metamath_knife.Scanner.Managed.{IsManaged, manage_group-IsManaged}

pub left-eq :
    (s t : Scanner)
    → s.buffer ≡ t.buffer
    → s.position ≡ t.position
    → s.unget ≡ t.unget
    → left s ≡ left t
left-eq s t a b c = cc (a, b, c)

-- The statement that was read is put at the end of the list.
pub put-IsReading :
    (start index : ℕ) (r : Reading) (s' : Scanner) (stmt : Statement)
    → IsReading start r
    → IsOut (begin (record r.scanner { statement_index = index })) s' stmt
    → IsReading start (record r {
      scanner = s';
      statements = r.statements ++ (record stmt { group = r.top_group }) ∷ [];
    })
put-IsReading start index r s' stmt w k = record {
  scanner = k.scanner;
  listed =
      subst
        (λ end.
          Listed s'.buffer (length s'.span_pool) 0 start end
            (r.statements ++ (record stmt { group = r.top_group }) ∷ []))
        k.ends
        (Listed-append s'.buffer (length s'.span_pool) 0 start r.scanner.position r.statements
          (record stmt { group = r.top_group })
          (Listed-weaken s'.buffer (length r.scanner.span_pool) (length s'.span_pool) 0 start
            r.scanner.position r.statements
            (omega (
              arith, k.math, k.well_formed.math_first, k.well_formed.proof_last,
              k.well_formed.in_pool,
            ))
            (subst
              (λ buf.
                Listed buf (length r.scanner.span_pool) 0 start r.scanner.position r.statements)
              (sym k.buffer) w.listed))
          (record {
            starts = k.starts;
            forward = omega (arith, k.starts, k.ends, k.forward);
            well_formed =
                subst
                  (λ buf.
                    IsStatement buf (length s'.span_pool) (record stmt { group = r.top_group }))
                  (sym k.buffer)
                  (regrouped-IsStatement r.scanner.buffer (length s'.span_pool)
                    (length s'.span_pool) stmt (omega arith) k.well_formed);
            grouped = InGroup-weaken r.top_group (omega arith) w.top;
          }));
  top =
      InGroup-weaken r.top_group
        (omega (arith, length-append r.statements ((record stmt { group = r.top_group }) ∷ [])))
        w.top;
  grouped =
      IsGrouped-append r.statements (record stmt { group = r.top_group }) w.grouped w.top_opens;
  top_opens =
      Opens-append r.statements (record stmt { group = r.top_group }) r.top_group w.top_opens;
}

-- What has become of the buffer once a statement was read.
abbrev IsStepped : ℕ → Reading → AfterStatement → Type 0
IsStepped start r (more r') =
    IsReading start r'
    × ((r'.scanner.buffer ≡ r.scanner.buffer) × (left r'.scanner < left r.scanner))
IsStepped start r (last r' file d is_end) =
    IsReading start r'
    × ((r'.scanner.buffer ≡ r.scanner.buffer)
        × (IsSpan r.scanner.buffer file
            × ((is_end ≡ true → r'.scanner.position ≡ length r.scanner.buffer)
                × (is_end ≡ false → left r'.scanner < left r.scanner))))

managed-IsStepped :
    (start index : ℕ) (r : Reading) (s' : Scanner) (stmt : Statement) (after : AfterStatement)
    → IsOut (begin (record r.scanner { statement_index = index })) s' stmt
    → IsManaged start
        (record r {
          scanner = s';
          statements = r.statements ++ (record stmt { group = r.top_group }) ∷ [];
        })
        (record stmt { group = r.top_group })
        after
    → IsStepped start r after
managed-IsStepped start index r s' stmt (more r') k (n, ne) = (
  n.reading,
  (
    n.buffer ∙ k.buffer,
    omega (arith, left-eq r'.scanner s' n.buffer n.position n.unget, k.progress ne),
  ),
)
managed-IsStepped start index r s' stmt (last r' file d is_end) k (n, (span, (ends, goes))) = (
  n.reading,
  (
    n.buffer ∙ k.buffer,
    (
      subst (λ buf. IsSpan buf file) k.buffer span,
      (
        λ e. n.position ∙ k.at_end (ends e),
        λ e. omega (arith, left-eq r'.scanner s' n.buffer n.position n.unget, k.progress (goes e)),
      ),
    ),
  ),
)

read_statement-IsStepped :
    (start : ℕ) (r : Reading) → IsReading start r → Returns (IsStepped start r) (read_statement r)
unfolding read_statement
read_statement-IsStepped start r w =
    let index = length r.statements in
    elim (get_statement-IsOut (record r.scanner { statement_index = index })
      (record {
        inside = w.scanner.inside;
        unget_span = w.scanner.unget_span;
        label_spans = w.scanner.label_spans;
        pool_spans = w.scanner.pool_spans;
      })) [
        | returned (s', stmt) e k ↦
            let stmt' = record stmt { group = r.top_group } in
            let r1 : Reading = record r { scanner = s'; statements = r.statements ++ stmt' ∷ [] } in
            elim (manage_group-IsManaged start r1 index stmt'
              (put-IsReading start index r s' stmt w k) (get_elem?-append_end r.statements stmt')
              (subst (λ buf. IsSpan buf stmt.label) (sym k.buffer) k.well_formed.label_span)) [
                | returned after e1 m ↦
                    returned after (ground (arith, e, e1))
                      (managed-IsStepped start index r s' stmt after k m)
              ]
      ]

-- All statements of a segment.
pub record IsWhole (start : ℕ) (s : Scanner) (all : Whole) : Type 0 where
  pub reading : IsReading start all.reading
  pub buffer : all.reading.scanner.buffer ≡ s.buffer
  pub file_span : IsSpan s.buffer all.next_file
  pub at_end : all.is_end ≡ true → all.reading.scanner.position ≡ length s.buffer
  pub progress : all.is_end ≡ false → left all.reading.scanner < left s

pub read_statements-IsWhole :
    (start n : ℕ) (r : Reading)
    → left r.scanner < n
    → IsReading start r
    → Returns (IsWhole start r.scanner) (read_statements n r)
unfolding read_statements
read_statements-IsWhole start zero r enough w = absurd (omega (arith, enough))
read_statements-IsWhole start (suc n) r enough w = elim (read_statement-IsStepped start r w) [
  | returned (last r' file d is_end) e (v, (b, (span, (ends, goes)))) ↦
      returned (record { reading = r'; next_file = file; end_diag = d; is_end = is_end })
        (ground (arith, e))
        (record { reading = v; buffer = b; file_span = span; at_end = ends; progress = goes })
  | returned (more r') e (v, (b, less)) ↦
      elim (read_statements-IsWhole start n r' (omega (arith, enough, less)) v) [
        | returned all e1 k ↦ returned all (ground (arith, e, e1)) (record {
          reading = k.reading;
          buffer = k.buffer ∙ b;
          file_span = subst (λ buf. IsSpan buf all.next_file) b k.file_span;
          at_end = λ x. k.at_end x ∙ ap length b;
          progress = λ x. omega (arith, less, k.progress x);
        })
      ]
]
