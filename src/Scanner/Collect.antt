-- ===== src/Scanner/Collect.antt =====
-- src/parser.rs: the definitions of a segment, and the segments of a buffer.
use metamath_knife.Base.{
  ℕ, zero, suc, ◌-◌, ◌^◌, Bool, true, false, none, some, List, [], ◌∷◌, ◌++◌, length, take, drop,
  ltb, leb, if◌then◌else◌, slice,
}
use metamath_knife.Address.{Token, Span, null_span, floating, disjoint, constant, variable}
use metamath_knife.Definitions.{SymbolType, SymbolDef, LocalVarDef}
use metamath_knife.Diag.{Diagnostic, Outcome, ok, panic, or_panic, assert, ◌>>=◌, ◌>>◌}
use metamath_knife.Scanner.{Scanner, takes_label}
use metamath_knife.Scanner.Loop.{fuel}
use metamath_knife.Scanner.Comments.{Statement}
use metamath_knife.Scanner.Segments.{
  Segment, Reading, read_statements, close_open_groups, fill_group_ends,
}

-- `&pool[start..end]`
abbrev pub span_slice : List Span → ℕ → ℕ → Outcome (List Span)
span_slice pool start end =
    if leb start end
    then (if leb end (length pool) then ok (take (end - start) (drop start pool)) else panic)
    else panic

abbrev pub text : List ℕ → Span → Outcome Token
text buf sp = or_panic (slice buf sp.start sp.end)

unfoldable pub texts : List ℕ → List Span → Outcome (List Token)
texts buf [] = ok []
texts buf (sp ∷ sps) = do name ← text buf sp; names ← texts buf sps; ok (name ∷ names)

abbrev pub symbol_defs : SymbolType → ℕ → ℕ → List Token → List SymbolDef
symbol_defs stype start ordinal [] = []
symbol_defs stype start ordinal (name ∷ names) =
    record { name = name; stype = stype; start = start; ordinal = ordinal }
    ∷ symbol_defs stype start (suc ordinal) names

abbrev pub local_var_defs : ℕ → ℕ → List Span → List LocalVarDef
local_var_defs index ordinal [] = []
local_var_defs index ordinal (_ ∷ sps) =
    record { index = index; ordinal = ordinal } ∷ local_var_defs index (suc ordinal) sps

-- A variable in a group.
abbrev pub collect_local : Segment → ℕ → Statement → Outcome Segment
collect_local seg index stmt = elim stmt.stype [
  | variable ↦ do
    math ← span_slice seg.span_pool stmt.math_start stmt.proof_start
    ok (record seg { local_vars = seg.local_vars ++ local_var_defs index 0 math })
  | _ ↦ ok seg
]

abbrev pub collect_symbols : Segment → SymbolType → ℕ → List Span → Outcome Segment
collect_symbols seg stype index math = do
  names ← texts seg.buffer math
  ok (record seg { symbols = seg.symbols ++ symbol_defs stype index 0 names })

-- `math[0]` and `math[1]`
abbrev pub collect_float : Segment → ℕ → Span → List Span → Outcome Segment
collect_float seg index label (code ∷ name ∷ math) = do
  typecode ← text seg.buffer code
  label_text ← text seg.buffer label
  name_text ← text seg.buffer name
  ok (record seg {
    floats =
        seg.floats
        ++ record { start = index; typecode = typecode; label = label_text; name = name_text } ∷ [];
  })
collect_float seg index label _ = panic

-- A statement outside all groups.
abbrev pub collect_global : Segment → ℕ → Statement → Outcome Segment
collect_global seg index stmt = do
  math ← span_slice seg.span_pool stmt.math_start stmt.proof_start
  elim stmt.stype [
    | constant ↦ collect_symbols seg SymbolType.constant index math
    | variable ↦ collect_symbols seg SymbolType.variable index math
    | disjoint ↦ do
      vars ← texts seg.buffer math
      ok (record seg { global_dvs = seg.global_dvs ++ record { start = index; vars = vars } ∷ [] })
    | floating ↦ collect_float seg index stmt.label math
    | _ ↦ ok seg
  ]

abbrev pub collect_label : Segment → ℕ → Statement → Segment
collect_label seg index stmt =
    if takes_label stmt.stype
    then record seg { labels = seg.labels ++ record { index = index } ∷ [] }
    else seg

unfoldable pub collect_statement : Segment → ℕ → Statement → Outcome Segment
unfolding texts
collect_statement seg index stmt = elim stmt.group_end [
  | some _ ↦ collect_local (collect_label seg index stmt) index stmt
  | none ↦ collect_global (collect_label seg index stmt) index stmt
]

-- The statements left, from an index on.
unfoldable pub collect_statements : Segment → ℕ → List Statement → Outcome Segment
unfolding collect_statement
collect_statements seg index [] = ok seg
collect_statements seg index (stmt ∷ stmts) = do
  seg' ← collect_statement seg index stmt
  collect_statements seg' (suc index) stmts

unfoldable pub collect_definitions : Segment → Outcome Segment
unfolding collect_statements
collect_definitions seg = collect_statements seg 0 seg.statements

abbrev pub empty_reading : Scanner → Reading
empty_reading s = record { scanner = s; statements = []; top_group = none }

-- The scanner gives its diagnostics and spans away.
abbrev pub emptied : Scanner → Scanner
emptied s = record s { diagnostics = []; span_pool = [] }

abbrev pub bare_segment : Scanner → List Statement → Span → Segment
bare_segment s stmts file = record {
  buffer = s.buffer;
  statements = stmts;
  span_pool = s.span_pool;
  diagnostics = s.diagnostics;
  next_file = file;
  global_dvs = [];
  symbols = [];
  local_vars = [];
  labels = [];
  floats = [];
}

-- The second result is true at the end of the buffer.
unfoldable pub get_segment : Scanner → Outcome (Scanner × (Segment × Bool))
unfolding read_statements close_open_groups fill_group_ends collect_definitions
get_segment s = do
  whole ← read_statements (fuel s) (empty_reading s)
  let r = whole.reading
  closed ← close_open_groups (length r.statements) r whole.end_diag r.top_group
  filled ← fill_group_ends 0 (length closed.statements) closed.statements
  seg ← collect_definitions (bare_segment closed.scanner filled whole.next_file)
  ok (emptied closed.scanner, (seg, whole.is_end))

-- The loop over the segments, on fuel.
unfoldable pub get_segments : ℕ → Scanner → Outcome (List Segment)
unfolding get_segment
get_segments zero s = panic
get_segments (suc n) s = do
  read ← get_segment s
  elim read.1.1 [
    | true ↦ ok (read.1.0 ∷ [])
    | false ↦ do rest ← get_segments n read.0; ok (read.1.0 ∷ rest)
  ]

-- `Scanner::default()` with a buffer
abbrev pub initial : List ℕ → Scanner
initial buf = record {
  buffer = buf;
  diagnostics = [];
  position = 0;
  statement_index = 0;
  span_pool = [];
  unget = null_span;
  labels = [];
  statement_start = 0;
  statement_math_start = 0;
  statement_proof_start = 0;
  invalidated = false;
}

unfoldable pub parse_segments : List ℕ → Outcome (List Segment)
unfolding get_segments
parse_segments input = do
  assert (ltb (length input) (2 ^ 32 - 1))
  get_segments (fuel (initial input)) (initial input)

abbrev pub with_diagnostic : List Segment → Diagnostic → Outcome Segment
with_diagnostic [] d = panic
with_diagnostic (seg ∷ []) d = ok (record seg { diagnostics = seg.diagnostics ++ (0, d) ∷ [] })
with_diagnostic (seg ∷ next ∷ segs) d = with_diagnostic (next ∷ segs) d

-- The last segment of an empty buffer.
unfoldable pub dummy_segment : Diagnostic → Outcome Segment
unfolding parse_segments
dummy_segment d = do segs ← parse_segments []; with_diagnostic segs d
