-- ===== src/Names/Segments.antt =====
-- src/nameck.rs: a whole segment is put into the name index or taken out.
use Prim.Native.Nat.{Ordering}
use metamath_knife.Base.{ℕ, ◌+◌, none, some, List, [], ◌∷◌, get_elem?, ◌==◌}
use metamath_knife.Base.Map
use metamath_knife.Address.{Token, StatementAddress, TokenAddress, address_eq}
use metamath_knife.Definitions.{LabelDef, LocalVarDef, GlobalDv}
use metamath_knife.Diag.{Outcome, ok, or_panic, ◌>>=◌}
use metamath_knife.Scanner.Segments.{Segment}
use metamath_knife.Scanner.Collect.{text}
use metamath_knife.Names.{AtomTable, intern, slot_insert, slot_remove}
use metamath_knife.Names.Index.{
  Nameset, statement_place, remove_key, add_symbol, add_label, add_float, remove_symbol,
  remove_label, remove_float,
}

-- `sref.statement(index).label()`
abbrev pub label_text : Segment → ℕ → Outcome Token
label_text seg index = do
  stmt ← or_panic (get_elem? seg.statements index)
  text seg.buffer stmt.label

-- `sref.statement(index).math_at(ordinal)`
abbrev pub math_text : Segment → ℕ → ℕ → Outcome Token
math_text seg index ordinal = do
  stmt ← or_panic (get_elem? seg.statements index)
  span ← or_panic (get_elem? seg.span_pool (stmt.math_start + ordinal))
  text seg.buffer span

-- `for def in &defs`
abbrev pub for_each :
    {A : Type 0} → (Nameset → A → Outcome Nameset) → Nameset → List A → Outcome Nameset
for_each step ns [] = ok ns
for_each step ns (def ∷ defs) = do ns' ← step ns def; for_each step ns' defs

unfoldable pub intern_all : AtomTable → List Token → Outcome (AtomTable × List ℕ)
unfolding intern
intern_all table [] = ok (table, [])
intern_all table (name ∷ names) = do
  first ← intern table name
  rest ← intern_all first.0 names
  ok (rest.0, first.1 ∷ rest.1)

abbrev pub add_local : Segment → Nameset → LocalVarDef → Outcome Nameset
add_local seg ns lsymdef = do
  name ← math_text seg lsymdef.index lsymdef.ordinal
  interned ← intern ns.atom_table name
  ok (record ns { atom_table = interned.0 })

module _ (cmp_statement : StatementAddress → StatementAddress → Ordering)
    (cmp_token : TokenAddress → TokenAddress → Ordering) where
  abbrev pub add_label_def : ℕ → Segment → Nameset → LabelDef → Outcome Nameset
  add_label_def id seg ns labdef = do
    label ← label_text seg labdef.index
    add_label cmp_statement cmp_token id ns labdef.index label

  abbrev pub add_global_dv : ℕ → Nameset → GlobalDv → Outcome Nameset
  add_global_dv id ns dvdef = do
    vars ← intern_all ns.atom_table dvdef.vars
    ok (record ns {
      atom_table = vars.0;
      dv_gen = ns.generation;
      dv_info = slot_insert cmp_statement ns.dv_info (statement_place id dvdef.start) vars.1;
    })

  unfoldable pub add_segment : Nameset → ℕ → Segment → Outcome Nameset
  unfolding add_symbol add_label add_float intern_all
  add_segment ns id seg = elim (Map.lookup (λ a b. a == b) id ns.segments) [
    | some _ ↦ ok ns
    | none ↦ do
      symbols ←
          for_each (add_symbol cmp_statement cmp_token id)
            (record ns { segments = Map.insert (λ a b. a == b) id seg ns.segments }) seg.symbols
      locals ← for_each (add_local seg) symbols seg.local_vars
      labels ← for_each (add_label_def id seg) locals seg.labels
      floats ← for_each (add_float cmp_statement cmp_token id) labels seg.floats
      for_each (add_global_dv id) floats seg.global_dvs
  ]

abbrev pub remove_label_def : ℕ → Segment → Nameset → LabelDef → Outcome Nameset
remove_label_def id seg ns labdef = do
  label ← label_text seg labdef.index
  ok (remove_label id ns labdef.index label)

abbrev pub remove_global_dv : ℕ → Nameset → GlobalDv → Nameset
remove_global_dv id ns dvdef = record ns {
  dv_gen = ns.generation;
  dv_info = slot_remove address_eq ns.dv_info (statement_place id dvdef.start);
}

unfoldable pub remove_segment : Nameset → ℕ → Outcome Nameset
unfolding remove_symbol remove_label remove_float remove_key
remove_segment ns id = elim (Map.lookup (λ a b. a == b) id ns.segments) [
  | none ↦ ok ns
  | some seg ↦ do
    symbols ←
        for_each (λ t def. ok (remove_symbol id t def))
          (record ns { segments = remove_key (λ a b. a == b) id ns.segments }) seg.symbols
    labels ← for_each (remove_label_def id seg) symbols seg.labels
    floats ← for_each (λ t def. ok (remove_float id t def)) labels seg.floats
    for_each (λ t def. ok (remove_global_dv id t def)) floats seg.global_dvs
]
