-- ===== src/Address.antt =====
-- src/parser.rs: positions in files and in the database, and the types of statements.
use metamath_knife.Base.{ℕ, Bool, Option, none, List, ◌==◌, ◌&&◌}

-- `Token` and `TokenPtr`: the bytes of a token.
abbrev pub Token : Type 0
Token = List ℕ

pub record Span : Type 0 where
  pub start : ℕ
  pub end : ℕ

abbrev pub null_span : Span
null_span = record { start = 0; end = 0 }

-- `Span::is_null` looks at the end alone.
abbrev pub is_null : Span → Bool
is_null s = s.end == 0

pub record StatementAddress : Type 0 where
  pub segment_id : ℕ
  pub index : ℕ

pub record TokenAddress : Type 0 where
  pub statement : StatementAddress
  pub token_index : ℕ

-- The end of a range is a `StatementIndex`; `NO_STATEMENT`, which is -1, is `none`.
abbrev pub no_statement : Option ℕ
no_statement = none

pub record GlobalRange : Type 0 where
  pub start : StatementAddress
  pub end : Option ℕ

abbrev pub unbounded_range : StatementAddress → GlobalRange
unbounded_range a = record { start = a; end = no_statement }

abbrev pub address_eq : StatementAddress → StatementAddress → Bool
address_eq a b = a.segment_id == b.segment_id && a.index == b.index

pub data StatementType : Type 0 where
  eof invalid comment typesetting_comment file_include axiom_ provable essential floating :
      StatementType
  disjoint open_group close_group constant variable : StatementType
