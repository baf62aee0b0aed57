-- ===== src/Scopeck/Build.antt =====
-- src/scopeck.rs: building the frame of an `$a` or `$p` statement.
pub mod Indices
pub mod Symmetric
mod Tests
use Prim.Native.Nat.{Ordering}
use metamath_knife.Base.{
  ℕ, zero, suc, ◌+◌, Bool, true, false, ◌&&◌, Option, none, some, List, [], ◌∷◌, ◌++◌, length,
  get_elem?, set, ltb, ◌==◌, if◌then◌else◌, mark_last,
}
use metamath_knife.Base.Map
use metamath_knife.Address.{Token, StatementAddress, GlobalRange, StatementType, unbounded_range}
use metamath_knife.BitSet
use metamath_knife.BitSet.{Bitset, set_bit, replace_bit}
use metamath_knife.Diag.{Outcome, ok, panic, or_panic, ◌>>=◌}
use metamath_knife.Scopeck.{
  Range, ExprFragment, VerifyExpr, Hyp, essential, floating, address, Frame,
}

pub record LocalFloatInfo : Type 0 where
  pub valid : GlobalRange
  pub typecode : ℕ

pub data CheckedToken : Type 0 where
  const_ : Token → ℕ → CheckedToken
  var_ : Token → ℕ → LocalFloatInfo → CheckedToken

pub record LocalDvInfo : Type 0 where
  pub valid : GlobalRange
  pub vars : List ℕ

pub record LocalEssentialInfo : Type 0 where
  pub valid : GlobalRange
  pub label : Token
  pub string : List CheckedToken

pub record InchoateFrame : Type 0 where
  pub variables : List (ℕ × (ℕ × LocalFloatInfo))
  pub var_list : List ℕ
  pub mandatory_count : ℕ
  pub mandatory_dv : List (ℕ × ℕ)
  pub optional_dv : List Bitset
  pub const_pool : List ℕ

abbrev pub atom_eq : ℕ → ℕ → Bool
atom_eq a b = a == b

-- `LocalFloatInfo::default()`
abbrev pub default_float : LocalFloatInfo
default_float = record {
  valid = record { start = record { segment_id = 0; index = 0 }; end = some 0 };
  typecode = 0;
}

-- The index of a variable, which gets the next one when it is met for the first time.
unfoldable pub variable_index : InchoateFrame → ℕ → LocalFloatInfo → InchoateFrame × ℕ
variable_index f atom lfi = elim (Map.lookup atom_eq atom f.variables) [
  | some known ↦ (f, known.0)
  | none ↦ (
    record f {
      var_list = f.var_list ++ atom ∷ [];
      optional_dv = f.optional_dv ++ BitSet.new ∷ [];
      variables = Map.insert atom_eq atom (length f.variables, lfi) f.variables;
    },
    length f.variables,
  )
]

-- The symbols after the head; `open_const` is where the literal span that is open starts.
unfoldable pub scan_tokens :
    InchoateFrame
    → ℕ
    → List ExprFragment
    → List CheckedToken
    → Outcome (InchoateFrame × (ℕ × List ExprFragment))
unfolding variable_index
scan_tokens f open_const tail [] = ok (f, (open_const, tail))
scan_tokens f open_const tail (const_ tok _ ∷ toks) = do
  pool ← or_panic (mark_last (f.const_pool ++ tok))
  scan_tokens (record f { const_pool = pool }) open_const tail toks
scan_tokens f open_const tail (var_ _ atom lfi ∷ toks) =
    let part : ExprFragment = record {
      prefix = record { start = open_const; end = length f.const_pool };
      var = (variable_index f atom lfi).1;
    } in
    scan_tokens (variable_index f atom lfi).0 (length f.const_pool) (tail ++ part ∷ []) toks

unfoldable pub scan_expression :
    InchoateFrame → List CheckedToken → Outcome (InchoateFrame × VerifyExpr)
unfolding scan_tokens
scan_expression f [] = panic
scan_expression f (var_ _ _ _ ∷ toks) = panic
scan_expression f (const_ _ head ∷ toks) = do
  scanned ← scan_tokens f (length f.const_pool) [] toks
  ok (
    scanned.0,
    record {
      typecode = head;
      rump = record { start = scanned.1.0; end = length scanned.0.const_pool };
      tail = scanned.1.1;
    },
  )

-- The names of the symbols after the head, and the atoms of the variables.
unfoldable pub stub_tokens : List ℕ → List ℕ → List CheckedToken → Outcome (List ℕ × List ℕ)
stub_tokens conststr mvars [] = ok (conststr, mvars)
stub_tokens conststr mvars (const_ tok _ ∷ toks) = do
  extended ← or_panic (mark_last (conststr ++ tok))
  stub_tokens extended mvars toks
stub_tokens conststr mvars (var_ tok atom _ ∷ toks) = do
  extended ← or_panic (mark_last (conststr ++ tok))
  stub_tokens extended (mvars ++ atom ∷ []) toks

-- The frame of a `$f` statement, which the verifier asks for by its label.
unfoldable pub construct_stub_frame :
    StatementType → GlobalRange → ℕ → List CheckedToken → Outcome Frame
unfolding stub_tokens
construct_stub_frame stype valid latom [] = panic
construct_stub_frame stype valid latom (var_ _ _ _ ∷ toks) = panic
construct_stub_frame stype valid latom (const_ _ typecode ∷ toks) = do
  names ← stub_tokens [] [] toks
  ok (record {
    stype = stype;
    valid = valid;
    label_atom = latom;
    const_pool = [];
    hypotheses = [];
    target = record { typecode = typecode; rump = record { start = 0; end = 0 }; tail = [] };
    stub_expr = names.0;
    var_list = names.1;
    mandatory_count = length names.1;
    mandatory_dv = [];
    optional_dv = [];
  })

-- The indices of the variables of a `$d`.
unfoldable pub scan_dv_vars : InchoateFrame → List ℕ → InchoateFrame × List ℕ
unfolding variable_index
scan_dv_vars f [] = (f, [])
scan_dv_vars f (atom ∷ atoms) =
    let next = variable_index f atom default_float in
    let rest = scan_dv_vars next.0 atoms in (rest.0, next.1 ∷ rest.1)

unfoldable pub add_dv : InchoateFrame → ℕ → ℕ → Outcome InchoateFrame
add_dv f left right = do
  row ← or_panic (get_elem? f.optional_dv left)
  let rows = set f.optional_dv left (replace_bit row right).0
  if (replace_bit row right).1 then ok (record f { optional_dv = rows }) else do
    other ← or_panic (get_elem? rows right)
    ok (record f {
      optional_dv = set rows right (set_bit other left);
      mandatory_dv =
          if ltb left f.mandatory_count && ltb right f.mandatory_count
          then f.mandatory_dv ++ (left, right) ∷ []
          else f.mandatory_dv;
    })

-- `for &rightid in &var_ids[leftpos + 1..]`
unfoldable pub add_dvs : InchoateFrame → ℕ → List ℕ → Outcome InchoateFrame
unfolding add_dv
add_dvs f left [] = ok f
add_dvs f left (right ∷ rights) = do f' ← add_dv f left right; add_dvs f' left rights

unfoldable pub add_all_dvs : InchoateFrame → List ℕ → Outcome InchoateFrame
unfolding add_dvs
add_all_dvs f [] = ok f
add_all_dvs f (left ∷ rights) = do f' ← add_dvs f left rights; add_all_dvs f' rights

unfoldable pub scan_dv : InchoateFrame → List ℕ → Outcome InchoateFrame
unfolding scan_dv_vars add_all_dvs
scan_dv f vars = add_all_dvs (scan_dv_vars f vars).0 (scan_dv_vars f vars).1

unfoldable pub scan_dvs : InchoateFrame → List (List ℕ) → Outcome InchoateFrame
unfolding scan_dv
scan_dvs f [] = ok f
scan_dvs f (vars ∷ rest) = do f' ← scan_dv f vars; scan_dvs f' rest

unfoldable pub scan_essentials :
    InchoateFrame → List LocalEssentialInfo → Outcome (InchoateFrame × List Hyp)
unfolding scan_expression
scan_essentials f [] = ok (f, [])
scan_essentials f (ess ∷ rest) = do
  scanned ← scan_expression f ess.string
  more ← scan_essentials scanned.0 rest
  ok (more.0, essential ess.valid.start scanned.1 ∷ more.1)

-- `cur < end`, or no end.
abbrev pub check_endpoint : ℕ → Option ℕ → Bool
check_endpoint cur none = true
check_endpoint cur (some end) = ltb cur end

abbrev pub retain {ℓ} : {A : Type ℓ} → (A → Bool) → List A → List A
retain keep [] = []
retain keep (x ∷ xs) = if keep x then x ∷ retain keep xs else retain keep xs

-- The mandatory `$f` hypotheses. The order of a hash map is not fixed, and they are sorted next.
abbrev pub floats : List (ℕ × (ℕ × LocalFloatInfo)) → List Hyp
floats [] = []
floats ((_, (index, lfi)) ∷ rest) = floating lfi.valid.start index lfi.typecode ∷ floats rest

module _ (cmp : StatementAddress → StatementAddress → Ordering) where
  -- `sort_by`, which keeps the order of equals.
  unfoldable pub insert_hyp : Hyp → List Hyp → List Hyp
  insert_hyp h [] = h ∷ []
  insert_hyp h (k ∷ ks) = elim (cmp (address h) (address k)) [
    | Ordering.gt ↦ k ∷ insert_hyp h ks
    | _ ↦ h ∷ k ∷ ks
  ]

  unfoldable pub sort_hyps : List Hyp → List Hyp
  unfolding insert_hyp
  sort_hyps [] = []
  sort_hyps (h ∷ hyps) = insert_hyp h (sort_hyps hyps)

  -- The hypotheses in scope and the statement, with the `$d` statements of the database.
  unfoldable pub construct_full_frame :
      List LocalEssentialInfo
      → List LocalDvInfo
      → List (List ℕ)
      → StatementType
      → StatementAddress
      → ℕ
      → List CheckedToken
      → Outcome (List LocalEssentialInfo × (List LocalDvInfo × Frame))
  unfolding scan_essentials scan_dvs sort_hyps
  construct_full_frame local_essen local_dv global_dv stype addr label_atom expr = do
    let essen = retain (λ ess. check_endpoint addr.index ess.valid.end) local_essen
    let dvs = retain (λ dv. check_endpoint addr.index dv.valid.end) local_dv
    let empty : InchoateFrame = record {
      variables = [];
      var_list = [];
      mandatory_count = 0;
      mandatory_dv = [];
      optional_dv = [];
      const_pool = [];
    }
    scanned ← scan_essentials empty essen
    target ← scan_expression scanned.0 expr
    let hyps = sort_hyps (scanned.1 ++ floats target.0.variables)
    let counted : InchoateFrame = record target.0 { mandatory_count = length target.0.var_list }
    global ← scan_dvs counted global_dv
    local ← scan_dvs global (dv_sets dvs)
    ok (
      essen,
      (
        dvs,
        record {
          stype = stype;
          valid = unbounded_range addr;
          label_atom = label_atom;
          const_pool = local.const_pool;
          hypotheses = hyps;
          target = target.1;
          stub_expr = [];
          var_list = local.var_list;
          mandatory_count = local.mandatory_count;
          mandatory_dv = local.mandatory_dv;
          optional_dv = local.optional_dv;
        },
      ),
    )
    where
      dv_sets : List LocalDvInfo → List (List ℕ)
      dv_sets [] = []
      dv_sets (dv ∷ rest) = dv.vars ∷ dv_sets rest
