-- ===== src/Verify.antt =====
-- src/verify.rs: the proof verifier, a stack machine over a shared buffer of byte strings.
pub mod Prepare
pub mod Execute
pub mod Explicit
pub mod Reordered
pub mod Run
pub mod Numbering
pub mod Soundness
pub mod Derivation
pub mod Distinct
pub mod Substitute
pub mod Hypotheses
mod Example
mod Tests
use Prim.Native.Nat.{Ordering}
use metamath_knife.Base.{
  ℕ, zero, suc, ◌+◌, ◌-◌, Bool, true, false, Option, none, some, List, [], ◌∷◌, ◌++◌, length,
  get_elem?, ltb, ◌==◌, if◌then◌else◌, slice,
}
use metamath_knife.Base.Map
use metamath_knife.Address.{Token, StatementAddress}
use metamath_knife.BitSet.{Bitset}
use metamath_knife.Diag.{Outcome, or_panic}
use metamath_knife.Scopeck.{Range, Frame}

-- What the verifier asks of the other passes: the `SegmentOrder`, `ScopeReader::get` (its record of
-- used names is for change tracking only), the atom table and the labels of the `Nameset`, and the
-- segment that is verified with the labels of its statements.
pub record Oracle : Type 0 where
  pub cmp : StatementAddress → StatementAddress → Ordering
  pub get : Token → Option Frame
  pub atom_name : ℕ → Option Token
  pub lookup_label : Token → Option StatementAddress
  pub this_seg : ℕ
  pub statement_label : ℕ → Option Token

pub data PreparedStep : Type 0 where
  hyp : Bitset → ℕ → Range → PreparedStep
  assertion : Frame → PreparedStep

pub record StackSlot : Type 0 where
  pub vars : Bitset
  pub code : ℕ
  pub expr : Range

-- The part of `VerifyState` that a proof changes. The proof builder is `()`.
pub record VerifyState : Type 0 where
  pub prepared : List PreparedStep
  pub stack : List StackSlot
  pub stack_buffer : List ℕ
  pub subst_info : List (Range × Bitset)
  pub var2bit : List (ℕ × ℕ)

abbrev pub nat_eq : ℕ → ℕ → Bool
nat_eq a b = a == b

abbrev pub slice_of : List ℕ → Range → Outcome (List ℕ)
slice_of xs r = or_panic (slice xs r.start r.end)

abbrev pub index {ℓ} : {A : Type ℓ} → List A → ℕ → Outcome A
index xs i = or_panic (get_elem? xs i)
