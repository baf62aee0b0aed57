-- ===== src/Scopeck/Build/Tests.antt =====
-- src/scopeck.rs: scanning `|- x y` into an empty frame, and adding the pair of its variables.
use metamath_knife.Base.{
  get_elem?-inside, arith, ℕ, zero, suc, false, sym, ◌∙◌, List, [], ◌∷◌, ◌≡◌, refl,
}
use metamath_knife.Base.Map
use metamath_knife.BitSet
use metamath_knife.BitSet.{set_bit, replace_bit, has_bit}
use metamath_knife.BitSet.Laws.{has_bit-new}
use metamath_knife.Scopeck.{VerifyExpr}
use metamath_knife.Scopeck.Build.{
  InchoateFrame, CheckedToken, const_, var_, default_float, variable_index, scan_expression, add_dv,
  add_all_dvs,
}
use metamath_knife.Scopeck.Build.Indices.{
  IsNumbered, IsIndexOf, IsScanned, atoms_of, variable_index-IsIndexOf, scan_expression-IsScanned,
}
use metamath_knife.Scopeck.Build.Symmetric.{
  IsSymmetric, disjoint, with_pair, add_dv_lem, add_all_dvs-IsSymmetric,
}

abbrev empty : InchoateFrame
empty = record {
  variables = [];
  var_list = [];
  mandatory_count = 0;
  mandatory_dv = [];
  optional_dv = [];
  const_pool = [];
}

empty-IsNumbered : IsNumbered empty
unfolding Map.lookup
empty-IsNumbered = record {
  entries = refl;
  rows = refl;
  names = λ a known e. cc;
  places = λ i a e. absurd (omega (arith, get_elem?-inside {A = ℕ} [] i e));
}

abbrev expression : List CheckedToken
expression =
    const_ (b'|' ∷ []) 1 ∷ var_ (b'x' ∷ []) 2 default_float ∷ var_ (b'y' ∷ []) 3 default_float ∷ []

abbrev two_variables : InchoateFrame
two_variables = record empty {
  variables = (2, (0, default_float)) ∷ (3, (1, default_float)) ∷ [];
  var_list = 2 ∷ 3 ∷ [];
  optional_dv = BitSet.new ∷ BitSet.new ∷ [];
}

abbrev scanned : InchoateFrame × VerifyExpr
scanned = (
  two_variables,
  record {
    typecode = 1;
    rump = record { start = 0; end = 0 };
    tail =
        record { prefix = record { start = 0; end = 0 }; var = 0 }
        ∷ record { prefix = record { start = 0; end = 0 }; var = 1 }
        ∷ [];
  },
)

variable_index_example : IsIndexOf empty 2 (variable_index empty 2 default_float)
variable_index_example = variable_index-IsIndexOf empty 2 default_float empty-IsNumbered

scan_expression-IsScanned_example :
    IsScanned empty two_variables scanned.1.tail (atoms_of expression)
unfolding scan_expression Map.lookup Map.insert
scan_expression-IsScanned_example =
    scan_expression-IsScanned empty expression {result = scanned} empty-IsNumbered refl

abbrev with_dv : InchoateFrame
with_dv = record two_variables { optional_dv = set_bit BitSet.new 1 ∷ set_bit BitSet.new 0 ∷ [] }

none_disjoint : (i j : ℕ) → disjoint (BitSet.new ∷ BitSet.new ∷ []) i j ≡ false
none_disjoint zero j = has_bit-new j
none_disjoint (suc zero) j = has_bit-new j
none_disjoint (suc (suc i)) j = refl

two_variables-IsSymmetric : IsSymmetric two_variables
two_variables-IsSymmetric i j = none_disjoint i j ∙ sym (none_disjoint j i)

add_dv_example : disjoint with_dv.optional_dv 1 0 ≡ with_pair two_variables.optional_dv 0 1 1 0
unfolding add_dv replace_bit set_bit
add_dv_example = add_dv_lem two_variables 0 1 {f' = with_dv} two_variables-IsSymmetric refl 1 0

add_all_dvs-IsSymmetric_example : IsSymmetric with_dv
unfolding add_all_dvs replace_bit set_bit
add_all_dvs-IsSymmetric_example =
    add_all_dvs-IsSymmetric two_variables (0 ∷ 1 ∷ []) {f' = with_dv} two_variables-IsSymmetric refl
