-- ===== src/Names/Labels.antt =====
-- src/nameck.rs: a label that is put into the index is found, and is gone when it is taken out.
use Prim.Native.Nat.{Ordering}
use metamath_knife.Base.{
  ℕ, ◌+◌, ◌-◌, ◌^◌, ◌<◌, Bool, true, false, Option, none, some, List, [], ◌∷◌, ◌++◌, length,
  bytes_eq, bytes_eq_sound, bytes_eq_refl, ◌==◌, if◌then◌else◌, Bool-cases, Option-cases, ◌≡◌, refl,
  sym, ap, subst, ◌∙◌, inl, inr, arith,
}
use metamath_knife.Base.Map.{lookup, insert}
use metamath_knife.Address.{Token, StatementAddress, TokenAddress, address_eq}
use metamath_knife.Scanner.Moves.{Returns, returned}
use metamath_knife.Names.{AtomTable, with_default, intern, slot_insert, slot_remove}
use metamath_knife.Names.Index.{
  LabelInfo, Nameset, no_label, autoviv, remove_key, deviv, is_no_label, statement_place, atom_for,
  add_label, remove_label, first_label, lookup_label,
}

module _ {V : Type 0} where
  lookup-insert_self :
      (k : Token) (v : V) (m : List (Token × V))
      → lookup bytes_eq k (insert bytes_eq k v m) ≡ some v
  unfolding lookup insert
  lookup-insert_self k v [] = ground (arith, bytes_eq_refl k)
  lookup-insert_self k v ((j, w) ∷ m) = ground (arith, bytes_eq_refl k, lookup-insert_self k v m)

  lookup-insert_other :
      (k other : Token) (v : V) (m : List (Token × V))
      → bytes_eq k other ≡ false
      → lookup bytes_eq other (insert bytes_eq k v m) ≡ lookup bytes_eq other m
  unfolding lookup insert
  lookup-insert_other k other v [] h = ground (arith, h)
  lookup-insert_other k other v ((j, w) ∷ m) h = elim (Bool-cases (bytes_eq j k)) [
    | inl same ↦
        let differ : bytes_eq j other ≡ false =
          subst (λ x. bytes_eq x other ≡ false) (sym (bytes_eq_sound j k same)) h in
        ground (arith, same, differ, h)
    | inr apart ↦ ground (arith, apart, lookup-insert_other k other v m h)
  ]

  lookup-remove_key :
      (k : Token) (m : List (Token × V)) → lookup bytes_eq k (remove_key bytes_eq k m) ≡ none
  unfolding lookup remove_key
  lookup-remove_key k [] = refl
  lookup-remove_key k ((j, w) ∷ m) = ground (arith, lookup-remove_key k m)

  lookup-remove_key_other :
      (k other : Token) (m : List (Token × V))
      → bytes_eq k other ≡ false
      → lookup bytes_eq other (remove_key bytes_eq k m) ≡ lookup bytes_eq other m
  unfolding lookup remove_key
  lookup-remove_key_other k other [] h = refl
  lookup-remove_key_other k other ((j, w) ∷ m) h = elim (Bool-cases (bytes_eq j k)) [
    | inl same ↦
        let differ : bytes_eq j other ≡ false =
          subst (λ x. bytes_eq x other ≡ false) (sym (bytes_eq_sound j k same)) h in
        ground (arith, same, differ, lookup-remove_key_other k other m h)
    | inr apart ↦ ground (arith, apart, lookup-remove_key_other k other m h)
  ]

module _ {V : Type 0} (is_default : V → Bool) (change : V → V) where
  lookup-deviv :
      (m : List (Token × V)) (key : Token) (v : V)
      → lookup bytes_eq key m ≡ some v
      → lookup bytes_eq key (deviv is_default m key change)
        ≡ (if is_default (change v) then none else some (change v))
  unfolding deviv
  lookup-deviv m key v e = elim (Bool-cases (is_default (change v))) [
    | inl bare ↦ ground (arith, e, bare, lookup-remove_key key m)
    | inr kept ↦ ground (arith, e, kept, lookup-insert_self key (change v) m)
  ]

  lookup-deviv_other :
      (m : List (Token × V)) (key other : Token) (v : V)
      → lookup bytes_eq key m ≡ some v
      → bytes_eq key other ≡ false
      → lookup bytes_eq other (deviv is_default m key change) ≡ lookup bytes_eq other m
  unfolding deviv
  lookup-deviv_other m key other v e h = elim (Bool-cases (is_default (change v))) [
    | inl bare ↦ ground (arith, e, bare, lookup-remove_key_other key other m h)
    | inr kept ↦ ground (arith, e, kept, lookup-insert_other key other (change v) m h)
  ]

abbrev label_in : Option LabelInfo → Option (StatementAddress × ℕ)
label_in o = elim o [ none ↦ none | some slot ↦ first_label slot ]

address_eq_refl : (a : StatementAddress) → address_eq a a ≡ true
address_eq_refl a = ground arith

atom_for-ok :
    (table : AtomTable) (atom : ℕ) (name : Token)
    → length table.table + 1 < 2 ^ 32 - 1
    → Returns (λ r. Unit {0}) (atom_for table atom name)
unfolding atom_for intern
atom_for-ok table atom name room = elim (Bool-cases (atom == 0)) [
  | inr known ↦ returned (table, atom) (ground (arith, known)) tt
  | inl fresh ↦ elim (Option-cases (lookup bytes_eq name table.table)) [
    | inr (old, e) ↦ returned (table, old) (ground (arith, fresh, e, room)) tt
    | inl e ↦
        returned
          (
            record {
              table = insert bytes_eq name (length table.table + 1) table.table;
              reverse = with_default table.reverse ++ name ∷ [];
            },
            length table.table + 1,
          )
          (ground (arith, fresh, e, room)) tt
  ]
]

-- A slot without labels.
first_label-none : (slot : LabelInfo) → first_label slot ≡ none → slot.labels ≡ []
first_label-none slot h = by_labels slot.labels refl
  where
    by_labels : (ls : List (StatementAddress × Unit {0})) → slot.labels ≡ ls → slot.labels ≡ []
    by_labels [] e = e
    by_labels (l ∷ ls) e = absurd (ground (arith, e, h))

autoviv-none :
    (ns : Nameset) (label : Token)
    → lookup_label ns label ≡ none
    → (autoviv no_label ns.labels label).labels ≡ []
unfolding lookup_label
autoviv-none ns label h = elim (Option-cases (lookup bytes_eq label ns.labels)) [
  | inl absent ↦ ground (arith, absent)
  | inr (slot, present) ↦
      let empty = first_label-none slot (ground (arith, present, h)) in
      ground (arith, present, empty)
]

module _ (cmp_statement : StatementAddress → StatementAddress → Ordering)
    (cmp_token : TokenAddress → TokenAddress → Ordering) where
  -- What the index says of labels, with the one put in and after it was taken out.
  pub record IsLabelled (ns : Nameset) (id index : ℕ) (label : Token) (ns' : Nameset) : Type 0 where
    pub atom : ℕ
    pub here : lookup_label ns' label ≡ some (statement_place id index, atom)
    pub others :
        (other : Token)
        → bytes_eq label other ≡ false
        → lookup_label ns' other ≡ lookup_label ns other
    pub gone : lookup_label (remove_label id ns' index label) label ≡ none
    pub others_stay :
        (other : Token)
        → bytes_eq label other ≡ false
        → lookup_label (remove_label id ns' index label) other ≡ lookup_label ns other

  abbrev labelled :
      (ns : Nameset) (id index : ℕ) (label : Token) (table : AtomTable) (atom : ℕ) → Nameset
  labelled ns id index label table atom = record ns {
    atom_table = table;
    labels =
        insert bytes_eq label
          (record {
            generation = ns.generation;
            atom = atom;
            labels = (statement_place id index, tt) ∷ [];
          })
          ns.labels;
  }

  abbrev taken_out : Nameset → ℕ → ℕ → LabelInfo → LabelInfo
  taken_out ns id index slot = record slot {
    generation = ns.generation;
    labels = slot_remove address_eq slot.labels (statement_place id index);
  }

  remove_label-none :
      (ns : Nameset) (id index : ℕ) (label : Token) (slot : LabelInfo)
      → lookup bytes_eq label ns.labels ≡ some slot
      → slot.labels ≡ (statement_place id index, tt) ∷ []
      → lookup_label (remove_label id ns index label) label ≡ none
  unfolding lookup_label remove_label slot_remove
  remove_label-none ns id index label slot e h =
      ap label_in (lookup-deviv is_no_label (taken_out ns id index) ns.labels label slot e)
      ∙ empty (is_no_label (taken_out ns id index slot))
    where
      removed : slot_remove address_eq slot.labels (statement_place id index) ≡ []
      removed =
          ap (λ ls. slot_remove address_eq ls (statement_place id index)) h
          ∙ ground (arith, address_eq_refl (statement_place id index))

      empty : (b : Bool) → label_in (if b then none else some (taken_out ns id index slot)) ≡ none
      empty true = refl
      empty false = ground (arith, removed)

  remove_label-other :
      (ns : Nameset) (id index : ℕ) (label other : Token) (slot : LabelInfo)
      → lookup bytes_eq label ns.labels ≡ some slot
      → bytes_eq label other ≡ false
      → lookup_label (remove_label id ns index label) other ≡ lookup_label ns other
  unfolding lookup_label remove_label
  remove_label-other ns id index label other slot e h =
      ap label_in
        (lookup-deviv_other is_no_label (taken_out ns id index) ns.labels label other slot e h)

  labelled-IsLabelled :
      (ns : Nameset) (id index : ℕ) (label : Token) (table : AtomTable) (atom : ℕ)
      → lookup_label ns label ≡ none
      → IsLabelled ns id index label (labelled ns id index label table atom)
  unfolding lookup_label
  labelled-IsLabelled ns id index label table atom h =
      let slot : LabelInfo = record {
        generation = ns.generation;
        atom = atom;
        labels = (statement_place id index, tt) ∷ [];
      } in
      let ns' = labelled ns id index label table atom in
      let found : lookup bytes_eq label ns'.labels ≡ some slot =
        lookup-insert_self label slot ns.labels in
      let others : ((other : Token)
          → bytes_eq label other ≡ false
          → lookup_label ns' other ≡ lookup_label ns other) =
        λ other differ. ap label_in (lookup-insert_other label other slot ns.labels differ) in
      record {
        atom = atom;
        here = ap label_in found;
        others = others;
        gone = remove_label-none ns' id index label slot found refl;
        others_stay = λ other differ.
            remove_label-other ns' id index label other slot found differ ∙ others other differ;
      }

  -- While there is room for an atom, `add_label` of a label that is not found returns; then the label is
  -- found at its statement, and every other label where it was. After `remove_label` of that statement the
  -- label is not found, and every other label is found where it was before both.
  pub add_label-IsLabelled :
      (ns : Nameset) (id index : ℕ) (label : Token)
      → length ns.atom_table.table + 1 < 2 ^ 32 - 1
      → lookup_label ns label ≡ none
      → Returns (IsLabelled ns id index label) (add_label cmp_statement cmp_token id ns index label)
  unfolding add_label slot_insert
  add_label-IsLabelled ns id index label room free =
      let empty = autoviv-none ns label free in
      elim (Bool-cases ns.incremental) [
        | inr plain ↦
            returned
              (labelled ns id index label ns.atom_table (autoviv no_label ns.labels label).atom)
              (ground (arith, plain, empty))
              (labelled-IsLabelled ns id index label ns.atom_table
                (autoviv no_label ns.labels label).atom free)
        | inl incremental ↦
            elim (atom_for-ok ns.atom_table (autoviv no_label ns.labels label).atom label room) [
              | returned named e _ ↦
                  returned (labelled ns id index label named.0 named.1)
                    (ground (arith, incremental, empty, e))
                    (labelled-IsLabelled ns id index label named.0 named.1 free)
            ]
      ]
