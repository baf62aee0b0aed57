-- ===== src/Scanner/Groups.antt =====
-- src/parser.rs: the groups of a segment are opened, closed and filled without a panic.
use metamath_knife.Base.{
  found, get_elem?-Found, ℕ, zero, suc, ◌+◌, ◌<◌, some, List, length, set, get_elem?, Bool-cases,
  Option-cases, ◌≡◌, refl, subst, inl, inr, arith,
}
use metamath_knife.Diag.{Diagnostic, unmatched_close_group}
use metamath_knife.Scanner.{diag}
use metamath_knife.Scanner.Comments.{Statement}
use metamath_knife.Scanner.Segments.{
  set_group_end, Reading, close, is_open_group, inherit_end, fill_group_ends,
}
use metamath_knife.Scanner.Moves.{IsScanner, Returns, returned}
use metamath_knife.Scanner.Grouped.{
  stypes, Opens, IsGrouped, Regrouped, Regrouped-refl, Regrouped-trans, set-Regrouped,
  IsGrouped-group,
}
use metamath_knife.Scanner.Listed.{InGroup, InGroup-weaken, Listed, Listed-set, Listed-group}

-- The statements read so far, from a place in the buffer to where the scanner stands.
pub record IsReading (start : ℕ) (r : Reading) : Type 0 where
  pub scanner : IsScanner r.scanner
  pub listed :
      Listed r.scanner.buffer (length r.scanner.span_pool) 0 start r.scanner.position r.statements
  pub top : InGroup r.top_group (length r.statements)
  pub grouped : IsGrouped r.statements
  pub top_opens : Opens (stypes r.statements) r.top_group

-- Notes about groups were made, and diagnostics.
pub record IsNoted (start : ℕ) (r r' : Reading) : Type 0 where
  pub reading : IsReading start r'
  pub buffer : r'.scanner.buffer ≡ r.scanner.buffer
  pub position : r'.scanner.position ≡ r.scanner.position
  pub unget : r'.scanner.unget ≡ r.scanner.unget
  pub count : length r'.statements ≡ length r.statements

module _ (buffer : List ℕ) (pool start end : ℕ) where
  pub set_group_end-Listed :
      (stmts : List Statement) (i note : ℕ)
      → Listed buffer pool 0 start end stmts
      → i < length stmts
      → Returns
          (λ l. Listed buffer pool 0 start end l × Regrouped stmts l)
          (set_group_end stmts i note)
  set_group_end-Listed stmts i note l h = elim (get_elem?-Found stmts i h) [
    | found stmt e ↦
        returned (set stmts i (record stmt { group_end = some note })) (ground (arith, e)) (
          Listed-set buffer pool 0 start end stmts i (some note) l e,
          set-Regrouped stmts i (some note) e,
        )
  ]

  pub inherit_end-Listed :
      (stmts : List Statement) (i : ℕ) (stmt : Statement)
      → Listed buffer pool 0 start end stmts
      → get_elem? stmts i ≡ some stmt
      → i < length stmts
      → Returns
          (λ l. Listed buffer pool 0 start end l × Regrouped stmts l)
          (inherit_end stmts i stmt)
  inherit_end-Listed stmts i stmt l e h = elim (Option-cases stmt.group) [
    | inl outside ↦ returned stmts (ground (arith, outside)) (l, Regrouped-refl stmts)
    | inr (group, inside) ↦ elim (Bool-cases (is_open_group stmt.stype)) [
      | inl opens ↦ returned stmts (ground (arith, inside, opens)) (l, Regrouped-refl stmts)
      | inr other ↦
          let before : group < i =
            subst (λ o. InGroup o i) inside
              (InGroup-weaken stmt.group (omega arith)
                (Listed-group buffer pool 0 start end stmts i l e)) in
          elim (get_elem?-Found stmts group (omega (arith, before, h))) [
            | found opener e1 ↦
                returned (set stmts i (record stmt { group_end = opener.group_end }))
                  (ground (arith, inside, other, e1))
                  (
                    Listed-set buffer pool 0 start end stmts i opener.group_end l e,
                    set-Regrouped stmts i opener.group_end e,
                  )
          ]
    ]
  ]

  pub fill_group_ends-Listed :
      (index n : ℕ) (stmts : List Statement)
      → index + n ≡ length stmts
      → Listed buffer pool 0 start end stmts
      → Returns
          (λ l. Listed buffer pool 0 start end l × Regrouped stmts l)
          (fill_group_ends index n stmts)
  unfolding fill_group_ends
  fill_group_ends-Listed index zero stmts h l = returned stmts refl (l, Regrouped-refl stmts)
  fill_group_ends-Listed index (suc n) stmts h l =
      elim (get_elem?-Found stmts index (omega (arith, h))) [
        | found stmt e ↦ elim (inherit_end-Listed stmts index stmt l e (omega (arith, h))) [
          | returned filled e1 (k, same) ↦
              elim (fill_group_ends-Listed (suc index) n filled (omega (arith, h, same.count)) k) [
                | returned all e2 (k2, same2) ↦
                    returned all (ground (arith, e, e1, e2))
                      (k2, Regrouped-trans stmts filled all same same2)
              ]
        ]
      ]

pub IsNoted-refl : (start : ℕ) (r : Reading) → IsReading start r → IsNoted start r r
IsNoted-refl start r w = record {
  reading = w;
  buffer = refl;
  position = refl;
  unget = refl;
  count = refl;
}

-- A diagnostic is added.
pub IsNoted-diag :
    (start : ℕ) (r : Reading) (d : Diagnostic)
    → IsReading start r
    → IsNoted start r (record r { scanner = diag r.scanner d })
IsNoted-diag start r d w = record {
  reading = record {
    scanner = record {
      inside = w.scanner.inside;
      unget_span = w.scanner.unget_span;
      label_spans = w.scanner.label_spans;
      pool_spans = w.scanner.pool_spans;
    };
    listed = w.listed;
    top = w.top;
    grouped = w.grouped;
    top_opens = w.top_opens;
  };
  buffer = refl;
  position = refl;
  unget = refl;
  count = refl;
}

pub close-IsNoted :
    (start : ℕ) (r : Reading) (index : ℕ)
    → IsReading start r
    → Returns (IsNoted start r) (close r index r.top_group)
close-IsNoted start r index w = elim (Option-cases r.top_group) [
  | inl outside ↦
      returned (record r { scanner = diag r.scanner unmatched_close_group })
        (ground (arith, outside)) (IsNoted-diag start r unmatched_close_group w)
  | inr (top, inside) ↦
      let before : top < length r.statements =
        subst (λ o. InGroup o (length r.statements)) inside w.top in
      elim (set_group_end-Listed r.scanner.buffer (length r.scanner.span_pool) start
        r.scanner.position r.statements top index w.listed before) [
          | returned closed e (l, same) ↦
              elim (get_elem?-Found closed top (omega (arith, before, same.count))) [
                | found opener e1 ↦
                    returned (record r { statements = closed; top_group = opener.group })
                      (ground (arith, inside, e, e1))
                      (record {
                        reading = record {
                          scanner = w.scanner;
                          listed = l;
                          top = InGroup-weaken opener.group (omega (arith, before, same.count)) (
                              Listed-group r.scanner.buffer (length r.scanner.span_pool) 0 start
                                r.scanner.position closed top l e1);
                          grouped = same.grouped w.grouped;
                          top_opens = IsGrouped-group closed top (same.grouped w.grouped) e1;
                        };
                        buffer = refl;
                        position = refl;
                        unget = refl;
                        count = same.count;
                      })
              ]
        ]
]
