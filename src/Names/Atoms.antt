-- ===== src/Names/Atoms.antt =====
-- src/nameck.rs: a name keeps its atom.
use metamath_knife.Base.{
  ℕ, ◌+◌, ◌-◌, ◌^◌, ◌<◌, some, List, [], ◌∷◌, ◌++◌, length, ltb, lt→ltb, bytes_eq, bytes_eq_refl,
  ◌≡◌, refl, ap, subst, ◌∙◌, Bool-cases, Option-cases, inl, inr,
}
use metamath_knife.Base.Map
use metamath_knife.Address.{Token}
use metamath_knife.Diag.{ok, assert, bound, >>=-eq-ok}
use metamath_knife.Names.{AtomTable, intern, with_default}

lookup-insert_self :
    (tok : Token) (a : ℕ) (m : List (Token × ℕ))
    → Map.lookup bytes_eq tok (Map.insert bytes_eq tok a m) ≡ some a
unfolding Map.lookup Map.insert
lookup-insert_self tok a [] = rw (bytes_eq_refl tok) refl
lookup-insert_self tok a ((other, b) ∷ m) = elim (Bool-cases (bytes_eq other tok)) [
  | inl same ↦ rw (same, bytes_eq_refl tok) refl
  | inr differs ↦ rw (differs, differs) (lookup-insert_self tok a m)
]

abbrev added : AtomTable → Token → AtomTable
added t tok = record {
  table = Map.insert bytes_eq tok (length t.table + 1) t.table;
  reverse = with_default t.reverse ++ tok ∷ [];
}

-- A name that was interned keeps its atom: while there is room, interning it again changes nothing.
pub intern-intern :
    (t : AtomTable) (tok : Token) {t' : AtomTable} {a : ℕ}
    → intern t tok ≡ ok (t', a)
    → length t'.table + 1 < 2 ^ 32 - 1
    → intern t' tok ≡ ok (t', a)
unfolding intern
intern-intern t tok {t'} {a} h room =
    elim (>>=-eq-ok (assert (ltb (length t.table + 1) (2 ^ 32 - 1))) _ h) [
      | bound _ _ h1 ↦
          let known =
            elim (Option-cases (Map.lookup bytes_eq tok t.table))
              as (λ c. Map.lookup bytes_eq tok t'.table ≡ some a) [
                | inr (atom, found) ↦
                    let same : t ≡ t' = cc (rw found at h1) in
                    let same_atom : atom ≡ a = cc (rw found at h1) in
                    subst (λ r. Map.lookup bytes_eq tok r.table ≡ some a) same
                      (found ∙ ap some same_atom)
                | inl new ↦
                    let same : added t tok ≡ t' = cc (rw new at h1) in
                    let same_atom : length t.table + 1 ≡ a = cc (rw new at h1) in
                    subst (λ r. Map.lookup bytes_eq tok r.table ≡ some a) same
                      (lookup-insert_self tok (length t.table + 1) t.table ∙ ap some same_atom)
              ] in
          rw (lt→ltb (length t'.table + 1) (2 ^ 32 - 1) room, known) refl
    ]
