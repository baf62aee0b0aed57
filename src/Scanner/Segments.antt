-- ===== src/Scanner/Segments.antt =====
-- src/parser.rs: reading a segment: the groups of statements, and the definitions for the name index.
use metamath_knife.Base.{
  ℕ, zero, suc, Bool, true, false, not, Option, none, some, List, [], ◌∷◌, ◌++◌, length, get_elem?,
  set, if◌then◌else◌,
}
use metamath_knife.Address.{
  Span, null_span, StatementType, eof, file_include, essential, open_group, close_group, constant,
}
use metamath_knife.Definitions.{GlobalDv, LabelDef, SymbolDef, FloatDef, LocalVarDef}
use metamath_knife.Diag.{
  Diagnostic, Outcome, ok, panic, or_panic, ◌>>=◌, unmatched_close_group, constant_not_top_level,
  essential_at_top_level, unclosed_before_include, unclosed_before_eof,
}
use metamath_knife.Scanner.{Scanner, diag}
use metamath_knife.Scanner.Comments.{Statement}
use metamath_knife.Scanner.Statements.{get_statement}

pub record Segment : Type 0 where
  pub buffer : List ℕ
  pub statements : List Statement
  pub span_pool : List Span
  pub diagnostics : List (ℕ × Diagnostic)
  pub next_file : Span
  pub global_dvs : List GlobalDv
  pub symbols : List SymbolDef
  pub local_vars : List LocalVarDef
  pub labels : List LabelDef
  pub floats : List FloatDef

-- `statements[i].group_end = end`
abbrev pub set_group_end : List Statement → ℕ → ℕ → Outcome (List Statement)
set_group_end stmts i end = do
  stmt ← or_panic (get_elem? stmts i)
  ok (set stmts i (record stmt { group_end = some end }))

-- What has been read of a segment.
pub record Reading : Type 0 where
  pub scanner : Scanner
  pub statements : List Statement
  pub top_group : Option ℕ

abbrev pub report_if : Bool → Reading → Diagnostic → Reading
report_if b r d = if b then record r { scanner = diag r.scanner d } else r

abbrev pub is_top : Option ℕ → Bool
is_top none = true
is_top (some _) = false

-- `}` goes back to the group around, and notes where its own group ends.
abbrev pub close : Reading → ℕ → Option ℕ → Outcome Reading
close r index none = ok (record r { scanner = diag r.scanner unmatched_close_group })
close r index (some top) = do
  closed ← set_group_end r.statements top index
  opener ← or_panic (get_elem? closed top)
  ok (record r { statements = closed; top_group = opener.group })

-- How the loop goes on after a statement: with the next one, or at an end, with the diagnostic for
-- the groups left open.
pub data AfterStatement : Type 0 where
  more : Reading → AfterStatement
  last : Reading → Span → Diagnostic → Bool → AfterStatement

unfoldable pub manage_group : Reading → ℕ → Statement → Outcome AfterStatement
manage_group r index stmt = elim stmt.stype [
  | open_group ↦ ok (more (record r { top_group = some index }))
  | close_group ↦ do closed ← close r index r.top_group; ok (more closed)
  | constant ↦ ok (more (report_if (not (is_top r.top_group)) r constant_not_top_level))
  | essential ↦ ok (more (report_if (is_top r.top_group) r essential_at_top_level))
  | file_include ↦ ok (last r stmt.label (unclosed_before_include index) false)
  | eof ↦ ok (last r null_span unclosed_before_eof true)
  | _ ↦ ok (more r)
]

-- One statement is read and put in its group.
unfoldable pub read_statement : Reading → Outcome AfterStatement
unfolding manage_group get_statement
read_statement r = do
  let index = length r.statements
  read ← get_statement (record r.scanner { statement_index = index })
  let stmt = record read.1 { group = r.top_group }
  manage_group (record r { scanner = read.0; statements = r.statements ++ stmt ∷ [] }) index stmt

pub record Whole : Type 0 where
  pub reading : Reading
  pub next_file : Span
  pub end_diag : Diagnostic
  pub is_end : Bool

-- The loop, on fuel.
unfoldable pub read_statements : ℕ → Reading → Outcome Whole
unfolding read_statement
read_statements zero r = panic
read_statements (suc n) r = do
  after ← read_statement r
  elim after [
    | more r' ↦ read_statements n r'
    | last r' file d is_end ↦
        ok (record { reading = r'; next_file = file; end_diag = d; is_end = is_end })
  ]

-- `while top_group != NO_STATEMENT`, on fuel: a group lies in one that was opened before.
unfoldable pub close_open_groups : ℕ → Reading → Diagnostic → Option ℕ → Outcome Reading
close_open_groups n r d none = ok r
close_open_groups zero r d (some top) = panic
close_open_groups (suc n) r d (some top) = do
  closed ← set_group_end r.statements top (length r.statements)
  let s = record r.scanner { diagnostics = r.scanner.diagnostics ++ (top, d) ∷ [] }
  opener ← or_panic (get_elem? closed top)
  close_open_groups n (record r { scanner = s; statements = closed }) d opener.group

abbrev pub is_open_group : StatementType → Bool
is_open_group open_group = true
is_open_group _ = false

-- `group_end` for the statements left, at the place `index`.
abbrev pub inherit_end : List Statement → ℕ → Statement → Outcome (List Statement)
inherit_end all index stmt = elim stmt.group [
  | none ↦ ok all
  | some group ↦ if is_open_group stmt.stype then ok all else do
    opener ← or_panic (get_elem? all group)
    ok (set all index (record stmt { group_end = opener.group_end }))
]

unfoldable pub fill_group_ends : ℕ → ℕ → List Statement → Outcome (List Statement)
fill_group_ends index zero all = ok all
fill_group_ends index (suc n) all = do
  stmt ← or_panic (get_elem? all index)
  filled ← inherit_end all index stmt
  fill_group_ends (suc index) n filled
