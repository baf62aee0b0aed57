-- ===== src/Scanner/Statements.antt =====
-- src/parser.rs: reading a whole statement.
use metamath_knife.Base.{
  ℕ, ◌-◌, Bool, true, false, not, ◌&&◌, none, some, [], ◌∷◌, length, ◌==◌, if◌then◌else◌,
}
use metamath_knife.Address.{
  Token, Span, is_null, StatementType, eof, invalid, file_include, axiom_, provable, essential,
  floating, disjoint, open_group, close_group, constant, variable,
}
use metamath_knife.Diag.{Outcome, ok, ◌>>=◌, unknown_keyword, disjoint_single, bad_floating}
use metamath_knife.Scanner.{Scanner, diag, takes_label, takes_math}
use metamath_knife.Scanner.Loop.{as_ref}
use metamath_knife.Scanner.Comments.{dollar, Statement, get, get_comment_statement, out_statement}
use metamath_knife.Scanner.Strings.{
  read_labels, get_label, get_no_label, get_strings, get_file_include, eat_invalid, invalidate,
}

abbrev pub letter_type : ℕ → StatementType
letter_type c =
    if c == b'['
    then file_include
    else if c == b'a'
    then axiom_
    else if c == b'c'
    then constant
    else if c == b'd'
    then disjoint
    else if c == b'e'
    then essential
    else if c == b'f'
    then floating
    else if c == b'p'
    then provable
    else if c == b'v'
    then variable
    else if c == b'{'
    then open_group
    else if c == b'}'
    then close_group
    else invalid

-- A keyword is a dollar sign and a letter.
unfoldable pub keyword_type : Token → StatementType
keyword_type (d ∷ c ∷ []) = if d == dollar then letter_type c else invalid
keyword_type _ = invalid

-- The type of the statement that a token starts; no token is the end of the buffer.
unfoldable pub statement_type : Scanner → Span → Outcome StatementType
unfolding keyword_type
statement_type s kwtok = elim (is_null kwtok) [
  | true ↦ ok eof
  | false ↦ do bytes ← as_ref s kwtok; ok (keyword_type bytes)
]

abbrev pub is_provable : StatementType → Bool
is_provable provable = true
is_provable _ = false

abbrev pub report_keyword : Scanner → StatementType → Span → Scanner
report_keyword s invalid kwtok = record (diag s (unknown_keyword kwtok)) { invalidated = false }
report_keyword s _ kwtok = record s { invalidated = false }

abbrev pub label_for : Scanner → StatementType → Span → Scanner × Span
label_for s stype kwtok = if takes_label stype then get_label s else get_no_label s kwtok

abbrev pub strings_for : Scanner → StatementType → Outcome Scanner
strings_for s stype = elim (takes_math stype) [
  | true ↦ get_strings s (is_provable stype)
  | false ↦ ok s
]

abbrev pub math_len : Scanner → ℕ
math_len s = s.statement_proof_start - s.statement_math_start

-- `$d` and `$f` want two tokens; `$[` has a file name; a bad keyword is skipped.
unfoldable pub check_statement : Scanner → StatementType → Span → Outcome (Scanner × Span)
check_statement s file_include label = get_file_include s
check_statement s disjoint label =
    ok (if math_len s == 1 then invalidate (diag s disjoint_single) else s, label)
check_statement s floating label = ok (
  if not (math_len s == 0) && not (math_len s == 2) then invalidate (diag s bad_floating) else s,
  label,
)
check_statement s invalid label = do eaten ← eat_invalid s; ok (eaten.0, label)
check_statement s _ label = ok (s, label)

abbrev pub final_type : Scanner → StatementType → StatementType
final_type s stype = if s.invalidated then invalid else stype

abbrev pub begin : Scanner → Scanner
begin s = record s {
  statement_start = s.position;
  statement_math_start = length s.span_pool;
  statement_proof_start = length s.span_pool;
}

-- A statement that is no comment, from its labels on.
unfoldable pub get_labelled : Scanner → Outcome (Scanner × Statement)
unfolding statement_type check_statement read_labels get_strings
get_labelled s = do
  labelled ← read_labels s
  kw ← get labelled.0
  stype ← statement_type kw.0 kw.1
  let named = label_for (report_keyword kw.0 stype kw.1) stype kw.1
  strings ← strings_for named.0 stype
  checked ← check_statement strings stype named.1
  ok (out_statement checked.0 (final_type checked.0 stype) checked.1)

unfoldable pub get_statement : Scanner → Outcome (Scanner × Statement)
unfolding get_comment_statement get_labelled
get_statement s = do
  first ← get_comment_statement (begin s)
  elim first.1 [ some stmt ↦ ok (first.0, stmt) | none ↦ get_labelled first.0 ]
