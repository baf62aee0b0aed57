-- ===== src/Scanner/Tests.antt =====
-- src/parser.rs: small buffers are read: a token after a bad character, and a database with a group.
use metamath_knife.Base.{ℕ, false, Option, none, some, List, [], ◌∷◌, length, map, ◌≡◌, refl, arith}
use metamath_knife.Address.{
  null_span, StatementType, eof, constant, variable, open_group, floating, close_group,
}
use metamath_knife.Diag.{ok, ◌>>=◌}
use metamath_knife.Scanner.{Scanner, get_raw}
use metamath_knife.Scanner.Tokens.{IsRead, get_raw-IsRead}
use metamath_knife.Scanner.Statements.{begin, get_statement}
use metamath_knife.Scanner.Segments.{Segment}
use metamath_knife.Scanner.Collect.{get_segment, parse_segments, initial}
use metamath_knife.Scanner.Moves.{Returns, IsScanner}
use metamath_knife.Scanner.Out.{IsOut}
use metamath_knife.Scanner.Forward.{get_statement-IsOut}
use metamath_knife.Scanner.Divided.{
  IsDivided, get_segment-IsDivided, Divides, parse_segments-Divides,
}

abbrev small : Scanner
small = record {
  buffer = 32 ∷ 200 ∷ 32 ∷ b'$' ∷ b'c' ∷ 10 ∷ [];
  diagnostics = [];
  position = 0;
  statement_index = 0;
  span_pool = [];
  unget = null_span;
  labels = [];
  statement_start = 0;
  statement_math_start = 0;
  statement_proof_start = 0;
  invalidated = false;
}

get_raw_example : IsRead small (get_raw small)
get_raw_example = get_raw-IsRead small (omega arith)

-- `$c wff $. $v x $. ${ wx $f wff x $. $}`
abbrev database : List ℕ
database =
    b'$' ∷ b'c' ∷ 32 ∷ b'w' ∷ b'f' ∷ b'f' ∷ 32 ∷ b'$' ∷ b'.' ∷ 32 ∷ b'$' ∷ b'v' ∷ 32 ∷ b'x' ∷ 32
    ∷ b'$' ∷ b'.' ∷ 32 ∷ b'$' ∷ b'{' ∷ 32 ∷ b'w' ∷ b'x' ∷ 32 ∷ b'$' ∷ b'f' ∷ 32 ∷ b'w' ∷ b'f' ∷ b'f'
    ∷ 32 ∷ b'x' ∷ 32 ∷ b'$' ∷ b'.' ∷ 32 ∷ b'$' ∷ b'}' ∷ []

abbrev shape : Segment → List (StatementType × Option ℕ)
shape seg = map (λ stmt. (stmt.stype, stmt.group_end)) seg.statements

shape-database :
    (parse_segments database >>= λ segs. ok (map shape segs))
    ≡ ok (
        ((constant, none)
          ∷ (variable, none)
          ∷ (open_group, some 4)
          ∷ (floating, some 4)
          ∷ (close_group, some 4)
          ∷ (eof, none)
          ∷ [])
        ∷ [])
unfolding parse_segments get_raw metamath_knife.Base.slice metamath_knife.Base.bytes_eq
shape-database = refl

-- `$c a $v x $.`, where the first statement is not closed: the next one has its label at its keyword,
-- before its span.
abbrev unclosed_constant : List ℕ
unclosed_constant = b'$' ∷ b'c' ∷ 32 ∷ b'a' ∷ 32 ∷ b'$' ∷ b'v' ∷ 32 ∷ b'x' ∷ 32 ∷ b'$' ∷ b'.' ∷ []

abbrev places : Segment → List (StatementType × (ℕ × (ℕ × ℕ)))
places seg =
    map (λ stmt. (stmt.stype, (stmt.label.start, (stmt.span.start, stmt.span.end)))) seg.statements

places-unclosed_constant :
    (parse_segments unclosed_constant >>= λ segs. ok (map places segs))
    ≡ ok (((constant, (0, (0, 7))) ∷ (variable, (5, (7, 12))) ∷ (eof, (0, (12, 12))) ∷ []) ∷ [])
unfolding parse_segments get_raw metamath_knife.Base.slice metamath_knife.Base.bytes_eq
places-unclosed_constant = refl

initial-IsScanner : IsScanner (initial database)
initial-IsScanner = record {
  inside = omega arith;
  unget_span = (omega arith, omega arith);
  label_spans = tt;
  pool_spans = tt;
}

get_statement_example :
    Returns (λ r. IsOut (begin (initial database)) r.0 r.1) (get_statement (initial database))
get_statement_example = get_statement-IsOut (initial database) initial-IsScanner

get_segment_example :
    Returns (λ r. IsDivided (initial database) r.0 r.1.0 r.1.1) (get_segment (initial database))
get_segment_example = get_segment-IsDivided (initial database) initial-IsScanner

parse_segments_example : Returns (Divides database 0) (parse_segments database)
parse_segments_example = parse_segments-Divides database (omega arith)
