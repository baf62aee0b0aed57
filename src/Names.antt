-- ===== src/Names.antt =====
-- src/nameck.rs: the table of atoms and the slots of the name index.
pub mod Atoms
pub mod Index
pub mod Labels
pub mod Segments
mod Tests
use Prim.Native.Nat.{Ordering}
use metamath_knife.Base.{
  ℕ, zero, suc, ◌+◌, ◌-◌, ◌^◌, Bool, true, false, Option, none, some, List, [], ◌∷◌, ◌++◌, length,
  ltb, ◌==◌, if◌then◌else◌, bytes_eq,
}
use metamath_knife.Base.Map
use metamath_knife.Address.{Token}
use metamath_knife.Diag.{Outcome, ok, panic, assert, ◌>>=◌, ◌>>◌}

pub record AtomTable : Type 0 where
  pub table : List (Token × ℕ)
  pub reverse : List Token

-- `Token::default()` stands for the atom 0.
abbrev pub with_default : List Token → List Token
with_default [] = [] ∷ []
with_default (t ∷ ts) = t ∷ ts

unfoldable pub intern : AtomTable → Token → Outcome (AtomTable × ℕ)
intern t tok = do
  let next = length t.table + 1
  assert (ltb next (2 ^ 32 - 1))
  elim (Map.lookup bytes_eq tok t.table) [
    | some atom ↦ ok (t, atom)
    | none ↦ ok (
      record {
        table = Map.insert bytes_eq tok next t.table;
        reverse = with_default t.reverse ++ tok ∷ [];
      },
      next,
    )
  ]

-- A `NameSlot`, in the order of the addresses.
module _ {A : Type 0} {V : Type 0} where
  -- `sort_by`, which keeps the order of equals.
  unfoldable pub insert_entry : (A → A → Ordering) → A × V → List (A × V) → List (A × V)
  insert_entry cmp x [] = x ∷ []
  insert_entry cmp x (y ∷ ys) = elim (cmp x.0 y.0) [
    | Ordering.gt ↦ y ∷ insert_entry cmp x ys
    | _ ↦ x ∷ y ∷ ys
  ]

  unfoldable pub sort_slot : (A → A → Ordering) → List (A × V) → List (A × V)
  unfolding insert_entry
  sort_slot cmp [] = []
  sort_slot cmp (x ∷ xs) = insert_entry cmp x (sort_slot cmp xs)

  unfoldable pub slot_insert : (A → A → Ordering) → List (A × V) → A → V → List (A × V)
  unfolding sort_slot
  slot_insert cmp slot address value = sort_slot cmp (slot ++ (address, value) ∷ [])

  unfoldable pub slot_remove : (A → A → Bool) → List (A × V) → A → List (A × V)
  slot_remove eq [] address = []
  slot_remove eq ((a, v) ∷ slot) address =
      let rest = slot_remove eq slot address in if eq a address then rest else (a, v) ∷ rest
