-- ===== src/Names/Tests.antt =====
-- src/nameck.rs: interning in an empty table, and an index with one label.
use Prim.Native.Nat.{Ordering}
use metamath_knife.Base.{
  ℕ, false, true, Option, none, some, List, [], ◌∷◌, ◌≡◌, refl, ltb, if◌then◌else◌, arith,
}
use metamath_knife.Base.Map
use metamath_knife.Address.{Token, StatementAddress, TokenAddress}
use metamath_knife.Diag.{Outcome, ok, panic, ◌>>=◌}
use metamath_knife.Scanner.Moves.{Returns}
use metamath_knife.Scanner.Segments.{Segment}
use metamath_knife.Scanner.Collect.{parse_segments}
use metamath_knife.Names.Index.{Nameset, add_label, lookup_label, statement_place}
use metamath_knife.Names.Labels.{IsLabelled, add_label-IsLabelled}
use metamath_knife.Names.Segments.{add_segment, remove_segment}
use metamath_knife.Names.{AtomTable, intern}
use metamath_knife.Names.Atoms.{intern-intern}

abbrev no_atoms : AtomTable
no_atoms = record { table = []; reverse = [] }

abbrev one_atom : AtomTable
one_atom = record { table = (b'x' ∷ [], 1) ∷ []; reverse = [] ∷ (b'x' ∷ []) ∷ [] }

intern-intern_example : intern one_atom (b'x' ∷ []) ≡ ok (one_atom, 1)
unfolding intern Map.lookup Map.insert
intern-intern_example =
    intern-intern no_atoms (b'x' ∷ []) {t' = one_atom} {a = 1} refl (omega arith)

abbrev no_names : Nameset
no_names = record {
  atom_table = no_atoms;
  incremental = true;
  generation = 1;
  dv_gen = 0;
  segments = [];
  dv_info = [];
  labels = [];
  symbols = [];
}

abbrev by_index : StatementAddress → StatementAddress → Ordering
by_index a b = if ltb b.index a.index then Ordering.gt else Ordering.lt

abbrev by_token : TokenAddress → TokenAddress → Ordering
by_token a b = by_index a.statement b.statement

abbrev wx : Token
wx = b'w' ∷ b'x' ∷ []

add_label_example :
    Returns
      (IsLabelled by_index by_token no_names 1 0 wx)
      (add_label by_index by_token 1 no_names 0 wx)
unfolding lookup_label Map.lookup
add_label_example = add_label-IsLabelled by_index by_token no_names 1 0 wx (omega arith) refl

-- `wx $f wff x $.`
abbrev float_text : List ℕ
float_text =
    b'w' ∷ b'x' ∷ 32 ∷ b'$' ∷ b'f' ∷ 32 ∷ b'w' ∷ b'f' ∷ b'f' ∷ 32 ∷ b'x' ∷ 32 ∷ b'$' ∷ b'.' ∷ []

abbrev first_segment : List Segment → Outcome Segment
first_segment [] = panic
first_segment (seg ∷ segs) = ok seg

lookup_label-add_segment :
    (parse_segments float_text >>= λ segs. first_segment segs >>= λ seg.
    add_segment by_index by_token no_names 1 seg >>= λ ns. ok (lookup_label ns wx))
    ≡ ok (some (statement_place 1 0, 1))
unfolding parse_segments add_segment lookup_label metamath_knife.Scanner.get_raw
    metamath_knife.Base.slice metamath_knife.Base.bytes_eq Map.lookup Map.insert
lookup_label-add_segment = refl

lookup_label-remove_segment :
    (parse_segments float_text >>= λ segs. first_segment segs >>= λ seg.
    add_segment by_index by_token no_names 1 seg >>= λ ns.
    remove_segment ns 1 >>= λ ns'. ok (lookup_label ns' wx))
    ≡ ok none
unfolding parse_segments add_segment remove_segment lookup_label metamath_knife.Scanner.get_raw
    metamath_knife.Base.slice metamath_knife.Base.bytes_eq Map.lookup Map.insert
lookup_label-remove_segment = refl
