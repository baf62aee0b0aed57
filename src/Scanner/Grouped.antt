-- ===== src/Scanner/Grouped.antt =====
-- src/parser.rs: the group of a statement is the index of a statement that opens a group.
use metamath_knife.Base.{
  ℕ, zero, suc, Option, none, some, List, [], ◌∷◌, ◌++◌, length, length-set, set, get_elem?,
  get_elem?-append_left, All, All-get_elem?, All-append, All-imp, ◌≡◌, refl, sym, ap, subst, ◌∙◌,
}
use metamath_knife.Address.{StatementType, open_group}
use metamath_knife.Scanner.Comments.{Statement}

abbrev pub stypes : List Statement → List StatementType
stypes [] = []
stypes (stmt ∷ stmts) = stmt.stype ∷ stypes stmts

abbrev pub Opens : List StatementType → Option ℕ → Type 0
Opens types none = Unit {0}
Opens types (some group) = get_elem? types group ≡ some open_group

-- Every statement that is in a group has an opening statement for its group.
abbrev pub IsGrouped : List Statement → Type 0
IsGrouped stmts = All (λ stmt. Opens (stypes stmts) stmt.group) stmts

-- Notes were made in statements, which change neither types nor groups.
pub record Regrouped (stmts noted : List Statement) : Type 0 where
  pub count : length noted ≡ length stmts
  pub types : stypes noted ≡ stypes stmts
  pub grouped : IsGrouped stmts → IsGrouped noted

pub Regrouped-refl : (stmts : List Statement) → Regrouped stmts stmts
Regrouped-refl stmts = record { count = refl; types = refl; grouped = λ g. g }

pub Regrouped-trans : (a b c : List Statement) → Regrouped a b → Regrouped b c → Regrouped a c
Regrouped-trans a b c r s = record {
  count = s.count ∙ r.count;
  types = s.types ∙ r.types;
  grouped = λ g. s.grouped (r.grouped g);
}

pub get_elem?-stypes :
    (stmts : List Statement) (i : ℕ) {stmt : Statement}
    → get_elem? stmts i ≡ some stmt
    → get_elem? (stypes stmts) i ≡ some stmt.stype
get_elem?-stypes [] i e = cc (e)
get_elem?-stypes (s ∷ stmts) zero {stmt} e = let same : s ≡ stmt = cc in ap (λ x. some x.stype) same
get_elem?-stypes (s ∷ stmts) (suc i) e = get_elem?-stypes stmts i e

-- An entry with the type and the group of the one that it replaces.
stypes-set :
    (stmts : List Statement) (i : ℕ) (stmt noted : Statement)
    → get_elem? stmts i ≡ some stmt
    → noted.stype ≡ stmt.stype
    → stypes (set stmts i noted) ≡ stypes stmts
stypes-set [] i stmt noted e k = refl
stypes-set (s ∷ stmts) zero stmt noted e k =
    let same : s ≡ stmt = cc (e) in ap (λ t. t ∷ stypes stmts) (k ∙ ap (λ x. x.stype) (sym same))
stypes-set (s ∷ stmts) (suc i) stmt noted e k =
    ap (λ ts. s.stype ∷ ts) (stypes-set stmts i stmt noted e k)

All-set :
    (P : Statement → Type 0) (stmts : List Statement) (i : ℕ) (noted : Statement)
    → All P stmts
    → P noted
    → All P (set stmts i noted)
All-set P [] i noted a p = tt
All-set P (s ∷ stmts) zero noted a p = (p, a.1)
All-set P (s ∷ stmts) (suc i) noted a p = (a.0, All-set P stmts i noted a.1 p)

pub set-Regrouped :
    (stmts : List Statement) (i : ℕ) (noted_end : Option ℕ) {stmt : Statement}
    → get_elem? stmts i ≡ some stmt
    → Regrouped stmts (set stmts i (record stmt { group_end = noted_end }))
set-Regrouped stmts i noted_end {stmt} e =
    let noted : Statement = record stmt { group_end = noted_end } in
    let types = stypes-set stmts i stmt noted e refl in
    record {
      count = length-set stmts i noted;
      types = types;
      grouped = λ g.
          subst (λ ts. All (λ s. Opens ts s.group) (set stmts i noted)) (sym types)
            (All-set (λ s. Opens (stypes stmts) s.group) stmts i noted g
              (All-get_elem? (λ s. Opens (stypes stmts) s.group) stmts i g e));
    }

pub IsGrouped-group :
    (stmts : List Statement) (i : ℕ) {stmt : Statement}
    → IsGrouped stmts
    → get_elem? stmts i ≡ some stmt
    → Opens (stypes stmts) stmt.group
IsGrouped-group stmts i g e = All-get_elem? (λ s. Opens (stypes stmts) s.group) stmts i g e

stypes-append :
    (stmts : List Statement) (stmt : Statement)
    → stypes (stmts ++ stmt ∷ []) ≡ stypes stmts ++ stmt.stype ∷ []
stypes-append [] stmt = refl
stypes-append (s ∷ stmts) stmt = ap (λ ts. s.stype ∷ ts) (stypes-append stmts stmt)

-- A group that is open stays so when a statement is added.
pub Opens-append :
    (stmts : List Statement) (stmt : Statement) (o : Option ℕ)
    → Opens (stypes stmts) o
    → Opens (stypes (stmts ++ stmt ∷ [])) o
Opens-append stmts stmt none h = tt
Opens-append stmts stmt (some group) h =
    subst (λ ts. get_elem? ts group ≡ some open_group) (sym (stypes-append stmts stmt))
      (get_elem?-append_left (stypes stmts) (stmt.stype ∷ []) group h)

pub IsGrouped-append :
    (stmts : List Statement) (stmt : Statement)
    → IsGrouped stmts
    → Opens (stypes stmts) stmt.group
    → IsGrouped (stmts ++ stmt ∷ [])
IsGrouped-append stmts stmt g h =
    All-append _ stmts (stmt ∷ [])
      (All-imp (λ s. Opens (stypes stmts) s.group) _ (λ s. Opens-append stmts stmt s.group) stmts g)
      (Opens-append stmts stmt stmt.group h, tt)
