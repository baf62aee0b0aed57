-- ===== src/Scopeck.antt =====
-- src/scopeck.rs: frames, the logical content of `$a` and `$p` statements.
pub mod Ordered
pub mod Build
use metamath_knife.Base.{ℕ, List}
use metamath_knife.Address.{Token, StatementAddress, StatementType, GlobalRange}
use metamath_knife.BitSet.{Bitset}

-- `Range<usize>`
pub record Range : Type 0 where
  pub start : ℕ
  pub end : ℕ

pub record ExprFragment : Type 0 where
  pub prefix : Range
  pub var : ℕ

-- An `Atom` is a number.
pub record VerifyExpr : Type 0 where
  pub typecode : ℕ
  pub rump : Range
  pub tail : List ExprFragment

pub data Hyp : Type 0 where
  essential : StatementAddress → VerifyExpr → Hyp
  floating : StatementAddress → ℕ → ℕ → Hyp

abbrev pub address : Hyp → StatementAddress
address (essential addr _) = addr
address (floating addr _ _) = addr

abbrev pub typecode : Hyp → ℕ
typecode (essential _ expr) = expr.typecode
typecode (floating _ _ code) = code

pub record Frame : Type 0 where
  pub stype : StatementType
  pub valid : GlobalRange
  pub label_atom : ℕ
  pub const_pool : List ℕ
  pub hypotheses : List Hyp
  pub target : VerifyExpr
  pub stub_expr : List ℕ
  pub var_list : List ℕ
  pub mandatory_count : ℕ
  pub mandatory_dv : List (ℕ × ℕ)
  pub optional_dv : List Bitset
