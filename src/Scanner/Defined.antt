-- ===== src/Scanner/Defined.antt =====
-- src/parser.rs: the definitions of a segment are collected without a panic.
use metamath_knife.Base.{
  ℕ, zero, suc, ◌-◌, ◌≤◌, List, [], ◌∷◌, ◌++◌, length, take, drop, slice, length-take, length-drop,
  All-take, All, Bool-cases, Option-cases, ◌≡◌, refl, sym, subst, ◌∙◌, inl, inr, arith,
}
use metamath_knife.Address.{Span, StatementType, floating, disjoint, constant, variable}
use metamath_knife.Definitions.{SymbolType}
use metamath_knife.Diag.{ok}
use metamath_knife.Scanner.{takes_label}
use metamath_knife.Scanner.Comments.{Statement}
use metamath_knife.Scanner.Segments.{Segment}
use metamath_knife.Scanner.Collect.{
  span_slice, text, texts, local_var_defs, symbol_defs, collect_local, collect_symbols,
  collect_float, collect_global, collect_label, collect_statement, collect_statements,
}
use metamath_knife.Scanner.Moves.{IsSpan, Returns, returned}
use metamath_knife.Scanner.Safe.{IsStatement}

-- The definitions are all that is new.
abbrev pub IsDefined : Segment → Segment → Type 0
IsDefined seg seg' =
    (seg'.buffer ≡ seg.buffer)
    × ((seg'.statements ≡ seg.statements)
        × ((seg'.span_pool ≡ seg.span_pool)
            × ((seg'.diagnostics ≡ seg.diagnostics) × (seg'.next_file ≡ seg.next_file))))

IsDefined-refl : (seg : Segment) → IsDefined seg seg
IsDefined-refl seg = (refl, (refl, (refl, (refl, refl))))

IsDefined-trans : (s t u : Segment) → IsDefined s t → IsDefined t u → IsDefined s u
IsDefined-trans s t u (b, (st, (p, (d, n)))) (b', (st', (p', (d', n')))) =
    (b' ∙ b, (st' ∙ st, (p' ∙ p, (d' ∙ d, n' ∙ n))))

-- A property of the buffer and the pool.
pub IsDefined-subst :
    (P : List ℕ → List Span → Type 0) (s t : Segment)
    → IsDefined s t
    → P s.buffer s.span_pool
    → P t.buffer t.span_pool
IsDefined-subst P s t (b, (st, (p, _))) h =
    subst (P t.buffer) (sym p) (subst (λ buf. P buf s.span_pool) (sym b) h)

text-ok : (buf : List ℕ) (sp : Span) → IsSpan buf sp → Returns (λ b. Unit {0}) (text buf sp)
unfolding slice
text-ok buf sp (a, b) =
    returned (take (sp.end - sp.start) (drop sp.start buf)) (ground (arith, a, b)) tt

texts-ok :
    (buf : List ℕ) (sps : List Span)
    → All (IsSpan buf) sps
    → Returns (λ l. Unit {0}) (texts buf sps)
unfolding texts
texts-ok buf [] a = returned [] refl tt
texts-ok buf (sp ∷ sps) (a, b) = elim (text-ok buf sp a) [
  | returned name e _ ↦ elim (texts-ok buf sps b) [
    | returned names e1 _ ↦ returned (name ∷ names) (ground (arith, e, e1)) tt
  ]
]

All-drop : (P : Span → Type 0) (n : ℕ) (sps : List Span) → All P sps → All P (drop n sps)
All-drop P zero sps a = a
All-drop P (suc n) [] a = tt
All-drop P (suc n) (sp ∷ sps) (a, b) = All-drop P n sps b

length-range :
    (sps : List Span) (start end : ℕ)
    → start ≤ end
    → end ≤ length sps
    → length (take (end - start) (drop start sps)) ≡ end - start
length-range sps start end h k =
    omega (arith, h, k, length-take (end - start) (drop start sps), length-drop start sps)

span_slice-ok :
    (buf : List ℕ) (pool : List Span) (start end : ℕ)
    → All (IsSpan buf) pool
    → start ≤ end
    → end ≤ length pool
    → Returns (λ l. All (IsSpan buf) l × (length l ≡ end - start)) (span_slice pool start end)
span_slice-ok buf pool start end a h k =
    returned (take (end - start) (drop start pool)) (ground (arith, h, k)) (
      All-take (IsSpan buf) (end - start) (drop start pool) (All-drop (IsSpan buf) start pool a),
      length-range pool start end h k,
    )

collect_label-IsDefined :
    (seg : Segment) (index : ℕ) (stmt : Statement) → IsDefined seg (collect_label seg index stmt)
collect_label-IsDefined seg index stmt = elim (Bool-cases (takes_label stmt.stype)) [
  | inl labelled ↦ rw labelled (IsDefined-refl seg)
  | inr bare ↦ rw bare (IsDefined-refl seg)
]

collect_local-IsDefined :
    (seg : Segment) (index : ℕ) (stmt : Statement)
    → All (IsSpan seg.buffer) seg.span_pool
    → IsStatement seg.buffer (length seg.span_pool) stmt
    → Returns (IsDefined seg) (collect_local seg index stmt)
collect_local-IsDefined seg index stmt a w = by_type stmt.stype refl
  where
    by_type :
        (st : StatementType)
        → stmt.stype ≡ st
        → Returns (IsDefined seg) (collect_local seg index stmt)
    by_type variable e =
        elim (span_slice-ok seg.buffer seg.span_pool stmt.math_start stmt.proof_start a w.math_first
          (omega (arith, w.proof_last, w.in_pool))) [
            | returned math e1 _ ↦
                returned (record seg { local_vars = seg.local_vars ++ local_var_defs index 0 math })
                  (ground (arith, e, e1)) (IsDefined-refl seg)
          ]
    by_type _ e = returned seg (ground (arith, e)) (IsDefined-refl seg)

collect_symbols-IsDefined :
    (seg : Segment) (stype : SymbolType) (index : ℕ) (math : List Span)
    → All (IsSpan seg.buffer) math
    → Returns (IsDefined seg) (collect_symbols seg stype index math)
collect_symbols-IsDefined seg stype index math a = elim (texts-ok seg.buffer math a) [
  | returned names e _ ↦
      returned (record seg { symbols = seg.symbols ++ symbol_defs stype index 0 names })
        (ground (arith, e)) (IsDefined-refl seg)
]

collect_float-IsDefined :
    (seg : Segment) (index : ℕ) (label : Span) (math : List Span)
    → length math ≡ 2
    → IsSpan seg.buffer label
    → All (IsSpan seg.buffer) math
    → Returns (IsDefined seg) (collect_float seg index label math)
collect_float-IsDefined seg index label [] h span a = absurd (omega (arith, h))
collect_float-IsDefined seg index label (code ∷ []) h span a = absurd (omega (arith, h))
collect_float-IsDefined seg index label (code ∷ name ∷ math) h span (a, (b, _)) =
    elim (text-ok seg.buffer code a) [
      | returned t e _ ↦ elim (text-ok seg.buffer label span) [
        | returned l e1 _ ↦ elim (text-ok seg.buffer name b) [
          | returned n e2 _ ↦
              returned
                (record seg {
                  floats =
                      seg.floats
                      ++ record { start = index; typecode = t; label = l; name = n } ∷ [];
                })
                (ground (arith, e, e1, e2)) (IsDefined-refl seg)
        ]
      ]
    ]

collect_global-IsDefined :
    (seg : Segment) (index : ℕ) (stmt : Statement)
    → All (IsSpan seg.buffer) seg.span_pool
    → IsStatement seg.buffer (length seg.span_pool) stmt
    → Returns (IsDefined seg) (collect_global seg index stmt)
collect_global-IsDefined seg index stmt a w =
    elim (span_slice-ok seg.buffer seg.span_pool stmt.math_start stmt.proof_start a w.math_first
      (omega (arith, w.proof_last, w.in_pool))) [
        | returned math e (b, len) ↦ by_type math e b len stmt.stype refl
      ]
  where
    by_type :
        (math : List Span)
        → span_slice seg.span_pool stmt.math_start stmt.proof_start ≡ ok math
        → All (IsSpan seg.buffer) math
        → length math ≡ stmt.proof_start - stmt.math_start
        → (st : StatementType) → stmt.stype ≡ st
        → Returns (IsDefined seg) (collect_global seg index stmt)
    by_type math e b len constant h =
        elim (collect_symbols-IsDefined seg SymbolType.constant index math b) [
          | returned seg' e1 d ↦ returned seg' (ground (arith, e, h, e1)) d
        ]
    by_type math e b len variable h =
        elim (collect_symbols-IsDefined seg SymbolType.variable index math b) [
          | returned seg' e1 d ↦ returned seg' (ground (arith, e, h, e1)) d
        ]
    by_type math e b len disjoint h = elim (texts-ok seg.buffer math b) [
      | returned vars e1 _ ↦
          returned
            (record seg {
              global_dvs = seg.global_dvs ++ record { start = index; vars = vars } ∷ [];
            })
            (ground (arith, e, h, e1)) (IsDefined-refl seg)
    ]
    by_type math e b len floating h =
        elim (collect_float-IsDefined seg index stmt.label math
          (omega (arith, len, w.typed.two_for_float h)) w.label_span b) [
            | returned seg' e1 d ↦ returned seg' (ground (arith, e, h, e1)) d
          ]
    by_type math e b len _ h = returned seg (ground (arith, e, h)) (IsDefined-refl seg)

collect_statement-IsDefined :
    (seg : Segment) (index : ℕ) (stmt : Statement)
    → All (IsSpan seg.buffer) seg.span_pool
    → IsStatement seg.buffer (length seg.span_pool) stmt
    → Returns (IsDefined seg) (collect_statement seg index stmt)
unfolding collect_statement
collect_statement-IsDefined seg index stmt a w =
    by_label (collect_label seg index stmt) refl (collect_label-IsDefined seg index stmt)
  where
    by_label :
        (t : Segment)
        → collect_label seg index stmt ≡ t
        → IsDefined seg t
        → Returns (IsDefined seg) (collect_statement seg index stmt)
    by_label t e d = elim (Option-cases stmt.group_end) [
      | inl outside ↦ elim (collect_global-IsDefined t index stmt spans fits) [
        | returned u e1 d1 ↦
            returned u (ground (arith, outside, e, e1)) (IsDefined-trans seg t u d d1)
      ]
      | inr (end, inside) ↦ elim (collect_local-IsDefined t index stmt spans fits) [
        | returned u e1 d1 ↦
            returned u (ground (arith, inside, e, e1)) (IsDefined-trans seg t u d d1)
      ]
    ]
      where
        spans : All (IsSpan t.buffer) t.span_pool
        spans = IsDefined-subst (λ buf pool. All (IsSpan buf) pool) seg t d a

        fits : IsStatement t.buffer (length t.span_pool) stmt
        fits = IsDefined-subst (λ buf pool. IsStatement buf (length pool) stmt) seg t d w

pub collect_statements-IsDefined :
    (seg : Segment) (index : ℕ) (stmts : List Statement)
    → All (IsSpan seg.buffer) seg.span_pool
    → All (IsStatement seg.buffer (length seg.span_pool)) stmts
    → Returns (IsDefined seg) (collect_statements seg index stmts)
unfolding collect_statements
collect_statements-IsDefined seg index [] a ws = returned seg refl (IsDefined-refl seg)
collect_statements-IsDefined seg index (stmt ∷ stmts) a (w, ws) =
    elim (collect_statement-IsDefined seg index stmt a w) [
      | returned t e d ↦
          elim (collect_statements-IsDefined t (suc index) stmts
            (IsDefined-subst (λ buf pool. All (IsSpan buf) pool) seg t d a)
            (IsDefined-subst (λ buf pool. All (IsStatement buf (length pool)) stmts) seg t d ws)) [
              | returned u e1 d1 ↦ returned u (ground (arith, e, e1)) (IsDefined-trans seg t u d d1)
            ]
    ]
