-- ===== src/Definitions.antt =====
-- src/parser.rs: what a segment records of the names that it defines.
use metamath_knife.Base.{ℕ, List}
use metamath_knife.Address.{Token}

-- A `StatementIndex` or `TokenIndex` of a definition is never negative.
pub record GlobalDv : Type 0 where
  pub start : ℕ
  pub vars : List Token

pub data SymbolType : Type 0 where
  variable constant : SymbolType

pub record LabelDef : Type 0 where
  pub index : ℕ

pub record SymbolDef : Type 0 where
  pub name : Token
  pub stype : SymbolType
  pub start : ℕ
  pub ordinal : ℕ

pub record FloatDef : Type 0 where
  pub start : ℕ
  pub name : Token
  pub label : Token
  pub typecode : Token

pub record LocalVarDef : Type 0 where
  pub index : ℕ
  pub ordinal : ℕ
