-- ===== src/Scanner/Managed.antt =====
-- src/parser.rs: what becomes of the groups at each statement, and at the end of a segment.
use metamath_knife.Base.{
  found, get_elem?, get_elem?-inside, get_elem?-Found, some, ap, sym, subst, ℕ, zero, suc, true,
  false, Option, none, some, [], ◌∷◌, ◌++◌, length, Bool-cases, ◌≡◌, ◌≢◌, refl, ◌∙◌, inl, inr,
  arith,
}
use metamath_knife.Address.{
  null_span, StatementType, eof, file_include, essential, open_group, close_group, constant,
}
use metamath_knife.Diag.{
  Diagnostic, constant_not_top_level, essential_at_top_level, unclosed_before_include,
  unclosed_before_eof,
}
use metamath_knife.Scanner.{diag}
use metamath_knife.Scanner.Comments.{Statement}
use metamath_knife.Scanner.Segments.{
  Reading, is_top, AfterStatement, more, last, manage_group, close_open_groups,
}
use metamath_knife.Scanner.Moves.{IsSpan, Returns, returned}
use metamath_knife.Scanner.Grouped.{Opens, get_elem?-stypes}
use metamath_knife.Scanner.Listed.{InGroup, InGroup-weaken, Listed-group}
use metamath_knife.Scanner.Groups.{
  IsReading, IsNoted, IsNoted-refl, IsNoted-diag, close-IsNoted, set_group_end-Listed,
}

-- What becomes of the groups at a statement.
abbrev pub IsManaged : ℕ → Reading → Statement → AfterStatement → Type 0
IsManaged start r stmt (more r') = IsNoted start r r' × (stmt.stype ≢ eof)
IsManaged start r stmt (last r' file d is_end) =
    IsNoted start r r'
    × (IsSpan r.scanner.buffer file
        × ((is_end ≡ true → stmt.stype ≡ eof) × (is_end ≡ false → stmt.stype ≢ eof)))

manage_group_of :
    (start : ℕ) (r : Reading) (index : ℕ) (stmt : Statement) (stype : StatementType)
    → stmt.stype ≡ stype
    → IsReading start r
    → get_elem? r.statements index ≡ some stmt
    → IsSpan r.scanner.buffer stmt.label
    → Returns (IsManaged start r stmt) (manage_group r index stmt)
unfolding manage_group
manage_group_of start r index stmt open_group e w h span =
    returned (more (record r { top_group = some index })) (ground (arith, e)) (
      record {
        reading = record {
          scanner = w.scanner;
          listed = w.listed;
          top = get_elem?-inside r.statements index h;
          grouped = w.grouped;
          top_opens = get_elem?-stypes r.statements index h ∙ ap some e;
        };
        buffer = refl;
        position = refl;
        unget = refl;
        count = refl;
      },
      λ x. cc (x, e),
    )
manage_group_of start r index stmt close_group e w h span = elim (close-IsNoted start r index w) [
  | returned r' e1 k ↦ returned (more r') (ground (arith, e, e1)) (k, λ x. cc (x, e))
]
manage_group_of start r index stmt constant e w h span = elim (Bool-cases (is_top r.top_group)) [
  | inl top ↦ returned (more r) (ground (arith, e, top)) (IsNoted-refl start r w, λ x. cc (x, e))
  | inr inside ↦
      returned (more (record r { scanner = diag r.scanner constant_not_top_level }))
        (ground (arith, e, inside)) (IsNoted-diag start r constant_not_top_level w, λ x. cc (x, e))
]
manage_group_of start r index stmt essential e w h span = elim (Bool-cases (is_top r.top_group)) [
  | inr inside ↦
      returned (more r) (ground (arith, e, inside)) (IsNoted-refl start r w, λ x. cc (x, e))
  | inl top ↦
      returned (more (record r { scanner = diag r.scanner essential_at_top_level }))
        (ground (arith, e, top)) (IsNoted-diag start r essential_at_top_level w, λ x. cc (x, e))
]
manage_group_of start r index stmt file_include e w h span =
    returned (last r stmt.label (unclosed_before_include index) false) (ground (arith, e))
      (IsNoted-refl start r w, (span, (λ x. cc (x), λ x y. cc (y, e))))
manage_group_of start r index stmt eof e w h span =
    returned (last r null_span unclosed_before_eof true) (ground (arith, e))
      (IsNoted-refl start r w, ((omega arith, omega arith), (λ x. e, λ x. cc (x))))
manage_group_of start r index stmt _ e w h span =
    returned (more r) (ground (arith, e)) (IsNoted-refl start r w, λ x. cc (x, e))

pub manage_group-IsManaged :
    (start : ℕ) (r : Reading) (index : ℕ) (stmt : Statement)
    → IsReading start r
    → get_elem? r.statements index ≡ some stmt
    → IsSpan r.scanner.buffer stmt.label
    → Returns (IsManaged start r stmt) (manage_group r index stmt)
manage_group-IsManaged start r index stmt w h span =
    manage_group_of start r index stmt stmt.stype refl w h span

-- A group lies in groups that were opened before, so that the way out of all of them ends.
pub close_open_groups-IsNoted :
    (start n : ℕ) (r : Reading) (d : Diagnostic) (top : Option ℕ)
    → IsReading start r
    → InGroup top n
    → InGroup top (length r.statements)
    → Returns (IsNoted start r) (close_open_groups n r d top)
unfolding close_open_groups
close_open_groups-IsNoted start n r d none w h before = returned r refl (IsNoted-refl start r w)
close_open_groups-IsNoted start zero r d (some top) w h before = absurd (omega (arith, h))
close_open_groups-IsNoted start (suc n) r d (some top) w h before =
    elim (set_group_end-Listed r.scanner.buffer (length r.scanner.span_pool) start
      r.scanner.position r.statements top (length r.statements) w.listed before) [
        | returned closed e (l, same) ↦
            elim (get_elem?-Found closed top (omega (arith, before, same.count))) [
              | found opener e1 ↦
                  let around =
                    Listed-group r.scanner.buffer (length r.scanner.span_pool) 0 start
                      r.scanner.position closed top l e1 in
                  let r' : Reading = record r {
                    scanner = record r.scanner {
                      diagnostics = r.scanner.diagnostics ++ (top, d) ∷ [];
                    };
                    statements = closed;
                  } in
                  let w' : IsReading start r' = record {
                    scanner = record {
                      inside = w.scanner.inside;
                      unget_span = w.scanner.unget_span;
                      label_spans = w.scanner.label_spans;
                      pool_spans = w.scanner.pool_spans;
                    };
                    listed = l;
                    top = InGroup-weaken r.top_group (omega (arith, same.count)) w.top;
                    grouped = same.grouped w.grouped;
                    top_opens = subst (λ ts. Opens ts r.top_group) (sym same.types) w.top_opens;
                  } in
                  elim (close_open_groups-IsNoted start n r' d opener.group w'
                    (InGroup-weaken opener.group (omega (arith, h)) around)
                    (InGroup-weaken opener.group (omega (arith, before, same.count)) around)) [
                      | returned last_r e2 k ↦ returned last_r (ground (arith, e, e1, e2)) (record {
                        reading = k.reading;
                        buffer = k.buffer;
                        position = k.position;
                        unget = k.unget;
                        count = k.count ∙ same.count;
                      })
                    ]
            ]
      ]
