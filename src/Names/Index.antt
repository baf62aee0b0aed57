-- ===== src/Names/Index.antt =====
-- src/nameck.rs: the name index, and how a segment is put into it and taken out.
use Prim.Native.Nat.{Ordering}
use metamath_knife.Base.{
  ℕ, Bool, true, false, ◌&&◌, Option, none, some, List, [], ◌∷◌, bytes_eq, ◌==◌, if◌then◌else◌,
}
use metamath_knife.Base.Map
use metamath_knife.Address.{Token, StatementAddress, TokenAddress, address_eq}
use metamath_knife.Definitions.{SymbolType, SymbolDef, FloatDef}
use metamath_knife.Diag.{Outcome, ok, ◌>>=◌}
use metamath_knife.Scanner.Segments.{Segment}
use metamath_knife.Names.{AtomTable, intern, slot_insert, slot_remove}

pub record SymbolInfo : Type 0 where
  pub atom : ℕ
  pub generation : ℕ
  pub all : List (TokenAddress × SymbolType)
  pub constant : List (TokenAddress × Unit {0})
  pub float : List (StatementAddress × (Token × (Token × ℕ)))

pub record LabelInfo : Type 0 where
  pub atom : ℕ
  pub generation : ℕ
  pub labels : List (StatementAddress × Unit {0})

pub record Nameset : Type 0 where
  pub atom_table : AtomTable
  pub incremental : Bool
  pub generation : ℕ
  pub dv_gen : ℕ
  pub segments : List (ℕ × Segment)
  pub dv_info : List (StatementAddress × List ℕ)
  pub labels : List (Token × LabelInfo)
  pub symbols : List (Token × SymbolInfo)

abbrev pub no_symbol : SymbolInfo
no_symbol = record { atom = 0; generation = 0; all = []; constant = []; float = [] }

abbrev pub no_label : LabelInfo
no_label = record { atom = 0; generation = 0; labels = [] }

-- `autoviv`, as what is found.
abbrev pub autoviv : {V : Type 0} → V → List (Token × V) → Token → V
autoviv default m key = elim (Map.lookup bytes_eq key m) [ some v ↦ v | none ↦ default ]

-- `HashMap::remove`
unfoldable pub remove_key : {K V : Type 0} → (K → K → Bool) → K → List (K × V) → List (K × V)
remove_key eq k [] = []
remove_key eq k ((j, v) ∷ m) =
    let rest = remove_key eq k m in if eq j k then rest else (j, v) ∷ rest

-- `deviv`
unfoldable pub deviv :
    {V : Type 0} → (V → Bool) → List (Token × V) → Token → (V → V) → List (Token × V)
unfolding remove_key
deviv is_default m key change = elim (Map.lookup bytes_eq key m) [
  | none ↦ m
  | some v ↦
      if is_default (change v)
      then remove_key bytes_eq key m
      else Map.insert bytes_eq key (change v) m
]

abbrev pub is_nil : {A : Type 0} → List A → Bool
is_nil [] = true
is_nil (_ ∷ _) = false

-- `*rval == Default::default()`
abbrev pub is_no_symbol : SymbolInfo → Bool
is_no_symbol v =
    v.atom == 0 && (v.generation == 0 && (is_nil v.all && (is_nil v.constant && is_nil v.float)))

abbrev pub is_no_label : LabelInfo → Bool
is_no_label v = v.atom == 0 && (v.generation == 0 && is_nil v.labels)

abbrev pub token_eq : TokenAddress → TokenAddress → Bool
token_eq a b = address_eq a.statement b.statement && a.token_index == b.token_index

abbrev pub is_constant : SymbolType → Bool
is_constant SymbolType.constant = true
is_constant SymbolType.variable = false

abbrev pub statement_place : ℕ → ℕ → StatementAddress
statement_place id index = record { segment_id = id; index = index }

-- `TokenAddress::new3`
abbrev pub token_place : ℕ → ℕ → ℕ → TokenAddress
token_place id index ordinal = record {
  statement = statement_place id index;
  token_index = ordinal;
}

-- `if slot.atom == Atom::default() { slot.atom = intern(...) }`
unfoldable pub atom_for : AtomTable → ℕ → Token → Outcome (AtomTable × ℕ)
unfolding intern
atom_for table atom name = elim (atom == 0) [ true ↦ intern table name | false ↦ ok (table, atom) ]

-- The comparisons of the order of segments are parameters.
module _ (cmp_statement : StatementAddress → StatementAddress → Ordering)
    (cmp_token : TokenAddress → TokenAddress → Ordering) where
  unfoldable pub add_symbol : ℕ → Nameset → SymbolDef → Outcome Nameset
  unfolding atom_for slot_insert
  add_symbol id ns symdef = do
    let slot = autoviv no_symbol ns.symbols symdef.name
    named ← atom_for ns.atom_table slot.atom symdef.name
    let address = token_place id symdef.start symdef.ordinal
    let info : SymbolInfo = record slot {
      generation = ns.generation;
      atom = named.1;
      all = slot_insert cmp_token slot.all address symdef.stype;
      constant =
          if is_constant symdef.stype
          then slot_insert cmp_token slot.constant address tt
          else slot.constant;
    }
    ok (record ns {
      atom_table = named.0;
      symbols = Map.insert bytes_eq symdef.name info ns.symbols;
    })

  unfoldable pub add_label : ℕ → Nameset → ℕ → Token → Outcome Nameset
  unfolding atom_for slot_insert
  add_label id ns index label = do
    let slot = autoviv no_label ns.labels label
    named ←
        (if ns.incremental
          then atom_for ns.atom_table slot.atom label
          else ok (ns.atom_table, slot.atom))
    let info : LabelInfo = record {
      generation = ns.generation;
      atom = named.1;
      labels = slot_insert cmp_statement slot.labels (statement_place id index) tt;
    }
    ok (record ns { atom_table = named.0; labels = Map.insert bytes_eq label info ns.labels })

  unfoldable pub add_float : ℕ → Nameset → FloatDef → Outcome Nameset
  unfolding atom_for slot_insert
  add_float id ns floatdef = do
    let slot = autoviv no_symbol ns.symbols floatdef.name
    named ← atom_for ns.atom_table slot.atom floatdef.name
    typed ← intern named.0 floatdef.typecode
    let info : SymbolInfo = record slot {
      generation = ns.generation;
      atom = named.1;
      float =
          slot_insert cmp_statement slot.float (statement_place id floatdef.start)
            (floatdef.label, (floatdef.typecode, typed.1));
    }
    ok (record ns {
      atom_table = typed.0;
      symbols = Map.insert bytes_eq floatdef.name info ns.symbols;
    })

-- `remove_segment`, for one definition
unfoldable pub remove_symbol : ℕ → Nameset → SymbolDef → Nameset
unfolding deviv slot_remove
remove_symbol id ns symdef =
    let address = token_place id symdef.start symdef.ordinal in
    record ns {
      symbols = deviv is_no_symbol ns.symbols symdef.name (λ slot. record slot {
        generation = ns.generation;
        all = slot_remove token_eq slot.all address;
        constant = slot_remove token_eq slot.constant address;
      });
    }

unfoldable pub remove_label : ℕ → Nameset → ℕ → Token → Nameset
unfolding deviv slot_remove
remove_label id ns index label = record ns {
  labels = deviv is_no_label ns.labels label (λ slot. record slot {
    generation = ns.generation;
    labels = slot_remove address_eq slot.labels (statement_place id index);
  });
}

unfoldable pub remove_float : ℕ → Nameset → FloatDef → Nameset
unfolding deviv slot_remove
remove_float id ns floatdef = record ns {
  symbols = deviv is_no_symbol ns.symbols floatdef.name (λ slot. record slot {
    generation = ns.generation;
    float = slot_remove address_eq slot.float (statement_place id floatdef.start);
  });
}

-- `lookup_label`: the address of the topmost statement, and the atom.
abbrev pub first_label : LabelInfo → Option (StatementAddress × ℕ)
first_label slot = elim slot.labels [ [] ↦ none | entry ∷ _ ↦ some (entry.0, slot.atom) ]

unfoldable pub lookup_label : Nameset → Token → Option (StatementAddress × ℕ)
lookup_label ns label = elim (Map.lookup bytes_eq label ns.labels) [
  | none ↦ none
  | some slot ↦ first_label slot
]
