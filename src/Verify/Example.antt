-- ===== src/Verify/Example.antt =====
-- A small database for the tests of src/verify.rs: `wp $f wff p $.`, `wn $a wff - p $.`, and
-- `th $p wff - - p $= ( wn ) ABB $.`, or with `$= wp wn wn $.` in the normal format.
use Prim.Native.Nat.{Ordering}
use metamath_knife.Base.{
  ℕ, ◌+◌, true, Option, none, some, List, [], ◌∷◌, bytes_eq, ltb, ◌≡◌, refl, sym, subst,
  if◌then◌else◌, Bool-cases, inl, inr, arith,
}
use metamath_knife.Address.{
  Token, Span, null_span, StatementAddress, StatementType, axiom_, provable, unbounded_range,
}
use metamath_knife.BitSet
use metamath_knife.Scopeck.{floating, Frame}
use metamath_knife.Scopeck.Ordered.{IsWellFormed}
use metamath_knife.Verify.{Oracle}
use metamath_knife.Verify.Prepare.{is_assertion}
use metamath_knife.Verify.Soundness.{FramesWellFormed}
use metamath_knife.Verify.Soundness.Preparation.{NamesExist}

abbrev pub place : ℕ → StatementAddress
place index = record { segment_id = 1; index = index }

abbrev pub minus : ℕ
minus = 45 + 128

abbrev pub wn_label : Token
wn_label = b'w' ∷ b'n' ∷ []

abbrev wp_label : Token
wp_label = b'w' ∷ b'p' ∷ []

-- The variable after this constant prefix.
abbrev pub statement : StatementType → ℕ → List ℕ → ℕ → Frame
statement stype index pool length = record {
  stype = stype;
  valid = unbounded_range (place index);
  label_atom = index;
  const_pool = pool;
  hypotheses = floating (place 3) 0 1 ∷ [];
  target = record {
    typecode = 1;
    rump = record { start = length; end = length };
    tail = record { prefix = record { start = 0; end = length }; var = 0 } ∷ [];
  };
  stub_expr = [];
  var_list = 2 ∷ [];
  mandatory_count = 1;
  mandatory_dv = [];
  optional_dv = BitSet.new ∷ [];
}

abbrev pub wn : Frame
wn = statement axiom_ 5 (minus ∷ []) 1

abbrev pub th : Frame
th = statement provable 9 (minus ∷ minus ∷ []) 2

-- The stub frame of the `$f` statement.
abbrev wp : Frame
wp = record {
  stype = StatementType.floating;
  valid = unbounded_range (place 3);
  label_atom = 3;
  const_pool = [];
  hypotheses = [];
  target = record { typecode = 1; rump = record { start = 0; end = 0 }; tail = [] };
  stub_expr = (b'p' + 128) ∷ [];
  var_list = 2 ∷ [];
  mandatory_count = 1;
  mandatory_dv = [];
  optional_dv = [];
}

abbrev database : Token → Option Frame
database label =
    if bytes_eq label wn_label then some wn else if bytes_eq label wp_label then some wp else none

abbrev pub oracle : Oracle
oracle = record {
  cmp = λ a b. if ltb b.index a.index then Ordering.gt else Ordering.lt;
  get = database;
  atom_name = λ atom. some (b'p' ∷ []);
  lookup_label = λ label. none;
  this_seg = 1;
  statement_label = λ index. none;
}

abbrev pub proof : List (Token × Span)
proof =
    (b'(' ∷ [], null_span)
    ∷ (wn_label, null_span)
    ∷ (b')' ∷ [], null_span)
    ∷ (b'A' ∷ b'B' ∷ b'B' ∷ [], null_span)
    ∷ []

abbrev pub normal_proof : List (Token × Span)
normal_proof = (wp_label, null_span) ∷ (wn_label, null_span) ∷ (wn_label, null_span) ∷ []

wn-IsWellFormed : IsWellFormed wn
wn-IsWellFormed = record { ordered = (refl, tt); target_vars = (refl, tt); dv_vars = tt }

pub frames_well_formed : FramesWellFormed oracle th
frames_well_formed label f found a = elim (Bool-cases (bytes_eq label wn_label)) [
  | inl same ↦
      let same_frame : wn ≡ f = ground (arith, found, same) in
      subst IsWellFormed same_frame wn-IsWellFormed
  | inr other ↦ elim (Bool-cases (bytes_eq label wp_label)) [
    | inl typed ↦
        let same_frame : wp ≡ f = ground (arith, found, other, typed) in
        let asserts : is_assertion wp.stype ≡ true =
          subst (λ g. is_assertion g.stype ≡ true) (sym same_frame) a in
        cc
    | inr neither ↦ absurd (ground (arith, found, other, neither))
  ]
]

pub names_exist : NamesExist oracle th
names_exist var atom name v n e = cc
