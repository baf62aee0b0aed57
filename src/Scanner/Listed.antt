-- ===== src/Scanner/Listed.antt =====
-- src/parser.rs: the statements of a segment, one after the other in the buffer, and their groups.
use metamath_knife.Base.{
  ℕ, zero, suc, ◌+◌, ◌<◌, ◌≤◌, Option, none, some, List, [], ◌∷◌, ◌++◌, length, set, get_elem?, ◌≡◌,
  refl, sym, subst, ◌∙◌, arith,
}
use metamath_knife.Scanner.Comments.{Statement}
use metamath_knife.Scanner.Safe.{IsStatement}

-- The group of the statement at an index is an index before it.
abbrev pub InGroup : Option ℕ → ℕ → Type 0
InGroup none index = Unit {0}
InGroup (some group) index = group < index

pub InGroup-weaken : (o : Option ℕ) {i j : ℕ} → i ≤ j → InGroup o i → InGroup o j
InGroup-weaken none h g = tt
InGroup-weaken (some group) h g = omega (arith, h, g)

-- A statement at an index, that starts at a place in the buffer.
pub record IsAt (buffer : List ℕ) (pool index start : ℕ) (stmt : Statement) : Type 0 where
  pub starts : stmt.span.start ≡ start
  pub forward : stmt.span.start ≤ stmt.span.end
  pub well_formed : IsStatement buffer pool stmt
  pub grouped : InGroup stmt.group index

-- The statements from an index on: each starts where the one before it ends.
abbrev pub Listed : List ℕ → ℕ → ℕ → ℕ → ℕ → List Statement → Type 0
Listed buffer pool index start end [] = start ≡ end
Listed buffer pool index start end (stmt ∷ stmts) =
    IsAt buffer pool index start stmt × Listed buffer pool (suc index) stmt.span.end end stmts

-- A note about a group changes nothing of this.
pub regrouped-IsStatement :
    (buffer : List ℕ) (pool pool' : ℕ) (stmt : Statement) {group group_end : Option ℕ}
    → pool ≤ pool'
    → IsStatement buffer pool stmt
    → IsStatement buffer pool' (record stmt { group = group; group_end = group_end })
regrouped-IsStatement buffer pool pool' stmt h w = record {
  math_first = w.math_first;
  proof_last = w.proof_last;
  in_pool = omega (arith, w.in_pool, h);
  label_span = w.label_span;
  typed = w.typed;
}

IsAt-noted :
    (buffer : List ℕ) (pool index start : ℕ) (stmt : Statement) (noted_end : Option ℕ)
    → IsAt buffer pool index start stmt
    → IsAt buffer pool index start (record stmt { group_end = noted_end })
IsAt-noted buffer pool index start stmt noted_end w = record {
  starts = w.starts;
  forward = w.forward;
  well_formed = regrouped-IsStatement buffer pool pool stmt (omega arith) w.well_formed;
  grouped = w.grouped;
}

pub Listed-weaken :
    (buffer : List ℕ) (pool pool' index start end : ℕ) (stmts : List Statement)
    → pool ≤ pool'
    → Listed buffer pool index start end stmts
    → Listed buffer pool' index start end stmts
Listed-weaken buffer pool pool' index start end [] h l = l
Listed-weaken buffer pool pool' index start end (stmt ∷ stmts) h (w, l) = (
  record {
    starts = w.starts;
    forward = w.forward;
    well_formed = regrouped-IsStatement buffer pool pool' stmt h w.well_formed;
    grouped = w.grouped;
  },
  Listed-weaken buffer pool pool' (suc index) stmt.span.end end stmts h l,
)

pub Listed-append :
    (buffer : List ℕ) (pool index start end : ℕ) (stmts : List Statement) (stmt : Statement)
    → Listed buffer pool index start end stmts
    → IsAt buffer pool (index + length stmts) end stmt
    → Listed buffer pool index start stmt.span.end (stmts ++ stmt ∷ [])
Listed-append buffer pool index start end [] stmt l w = (
  record {
    starts = w.starts ∙ sym l;
    forward = w.forward;
    well_formed = w.well_formed;
    grouped = InGroup-weaken stmt.group (omega arith) w.grouped;
  },
  refl,
)
Listed-append buffer pool index start end (s ∷ ss) stmt (a, l) w = (
  a,
  Listed-append buffer pool (suc index) s.span.end end ss stmt l
      (subst (λ i. IsAt buffer pool i end stmt) (omega arith) w),
)

pub Listed-set :
    (buffer : List ℕ) (pool index start end : ℕ) (stmts : List Statement) (i : ℕ)
    (noted_end : Option ℕ) {stmt : Statement}
    → Listed buffer pool index start end stmts
    → get_elem? stmts i ≡ some stmt
    → Listed buffer pool index start end (set stmts i (record stmt { group_end = noted_end }))
Listed-set buffer pool index start end [] i noted_end l e = l
Listed-set buffer pool index start end (s ∷ ss) zero noted_end {stmt} (a, l) e =
    let same : s ≡ stmt = cc (e) in
    subst (λ x. Listed buffer pool index start end (record x { group_end = noted_end } ∷ ss)) same
      (IsAt-noted buffer pool index start s noted_end a, l)
Listed-set buffer pool index start end (s ∷ ss) (suc i) noted_end (a, l) e =
    (a, Listed-set buffer pool (suc index) s.span.end end ss i noted_end l e)

pub Listed-group :
    (buffer : List ℕ) (pool index start end : ℕ) (stmts : List Statement) (i : ℕ) {stmt : Statement}
    → Listed buffer pool index start end stmts
    → get_elem? stmts i ≡ some stmt
    → InGroup stmt.group (index + i)
Listed-group buffer pool index start end [] i l e = cc (e)
Listed-group buffer pool index start end (s ∷ ss) zero {stmt} (a, l) e =
    let same : s ≡ stmt = cc (e) in
    subst (λ x. InGroup x.group (index + 0)) same (InGroup-weaken s.group (omega arith) a.grouped)
Listed-group buffer pool index start end (s ∷ ss) (suc i) {stmt} (a, l) e =
    InGroup-weaken stmt.group (omega arith)
      (Listed-group buffer pool (suc index) s.span.end end ss i l e)
