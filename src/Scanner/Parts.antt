-- ===== src/Scanner/Parts.antt =====
-- src/parser.rs: the parts of a statement: its label, its strings, the file that it includes.
use metamath_knife.Base.{
  ◌+◌, ◌<◌, ◌≤◌, Bool, true, false, List, [], ◌∷◌, length, bytes_eq, ◌==◌, All, ◌≡◌, refl, sym, ap,
  subst, ◌∙◌, Bool-cases, inl, inr, arith,
}
use metamath_knife.Address.{Token, Span, null_span}
use metamath_knife.Diag.{spurious_label, repeated_label}
use metamath_knife.Scanner.{Scanner, diag}
use metamath_knife.Scanner.Loop.{fuel}
use metamath_knife.Scanner.Comments.{keyword, get}
use metamath_knife.Scanner.Strings.{
  spurious_labels, repeated_labels, get_label_of, get_label, get_no_label, after_math, get_strings,
  InInclude, include_name, unclosed_name, starts_with_dollar, include_round, get_file_include,
}
use metamath_knife.Scanner.Moves.{
  IsSpan, IsScanner, left, Advances, Advances-trans, Goes, Goes-refl, Goes-trans, Returns, returned,
  Stepped, goes_on, ends_with, loop_lem, left-fuel, as_ref-ok,
}
use metamath_knife.Scanner.Total.{get-Reads}
use metamath_knife.Scanner.Phrases.{get_string-Goes}

-- The marks and the pool of the statement stay, but it may become invalid.
abbrev pub Marks : Scanner → Scanner → Type 0
Marks s s' =
    (length s.span_pool ≤ length s'.span_pool)
    × ((s'.statement_math_start ≡ s.statement_math_start)
        × (s'.statement_proof_start ≡ s.statement_proof_start))

-- A part that gives a span of the buffer.
abbrev pub IsPart : Scanner → Scanner × Span → Type 0
IsPart s (s', sp) = Advances s s' × (Marks s s' × IsSpan s.buffer sp)

spurious_labels-eq :
    (s : Scanner) (ls : List Span)
    → spurious_labels s ls ≡ record s { diagnostics = (spurious_labels s ls).diagnostics }
spurious_labels-eq s [] = refl
spurious_labels-eq s (l ∷ ls) = spurious_labels-eq (diag s (spurious_label l)) ls

repeated_labels-eq :
    (s : Scanner) (first : Span) (ls : List Span)
    → repeated_labels s first ls
      ≡ record s { diagnostics = (repeated_labels s first ls).diagnostics }
repeated_labels-eq s first [] = refl
repeated_labels-eq s first (l ∷ ls) = repeated_labels-eq (diag s (repeated_label l first)) first ls

stay : (s : Scanner) → IsScanner s → Advances s s × Marks s s
stay s w = ((w, (refl, (omega arith, (omega arith, refl)))), (omega arith, (refl, refl)))

pub get_no_label-invalidated :
    (s : Scanner) (kwtok : Span) → (get_no_label s kwtok).0.invalidated ≡ s.invalidated
get_no_label-invalidated s kwtok = ap (λ t. t.invalidated) (spurious_labels-eq s s.labels)

pub get_no_label-IsPart :
    (s : Scanner) (kwtok : Span)
    → IsScanner s
    → IsSpan s.buffer kwtok
    → IsPart s (get_no_label s kwtok)
get_no_label-IsPart s kwtok w span =
    subst (λ t. IsPart s (t, record { start = kwtok.start; end = kwtok.start }))
      (sym (spurious_labels-eq s s.labels))
      ((stay s w).0, ((stay s w).1, (omega arith, omega (arith, span.0, span.1))))

get_label_of-IsPart :
    (s : Scanner) (ls : List Span)
    → IsScanner s
    → All (IsSpan s.buffer) ls
    → IsPart s (get_label_of s ls)
get_label_of-IsPart s [] w a = ((stay s w).0, ((stay s w).1, (omega arith, omega arith)))
get_label_of-IsPart s (l ∷ []) w a = ((stay s w).0, ((stay s w).1, a.0))
get_label_of-IsPart s (l ∷ m ∷ ls) w a =
    subst (λ t. IsPart s (record t { invalidated = true }, null_span))
      (sym (repeated_labels-eq s l (m ∷ ls)))
      ((stay s w).0, ((stay s w).1, (omega arith, omega arith)))

pub get_label-IsPart : (s : Scanner) → IsScanner s → IsPart s (get_label s)
get_label-IsPart s w = get_label_of-IsPart s s.labels w w.label_spans

-- What the strings of a statement come to. They start at `start` in the pool.
pub record IsStrung (s s' : Scanner) : Type 0 where
  pub advances : Advances s s'
  pub math : s'.statement_math_start ≡ s.statement_math_start
  pub before_proof : s.statement_math_start ≤ s'.statement_proof_start
  pub in_pool : s'.statement_proof_start ≤ length s'.span_pool
  pub not_empty : s'.invalidated ≡ false → s.statement_math_start < s'.statement_proof_start

after_math-IsStrung :
    (s s' : Scanner)
    → s.statement_math_start ≤ length s.span_pool
    → Goes s s'
    → IsStrung s (after_math s')
after_math-IsStrung s s' before (w, (b, (f, (l, (st, (p, (m, (q, v)))))))) =
    elim (Bool-cases (length s'.span_pool == s'.statement_math_start)) [
      | inl none_read ↦ rw none_read (record {
        advances = (w, (b, (f, (l, st))));
        math = m;
        before_proof = omega (arith, before, p);
        in_pool = omega arith;
        not_empty = λ h. absurd (cc (h));
      })
      | inr some_read ↦ rw some_read (record {
        advances = (w, (b, (f, (l, st))));
        math = m;
        before_proof = omega (arith, before, p);
        in_pool = omega arith;
        not_empty = λ h. ground (arith, some_read, before, p, m);
      })
    ]

pub get_strings-IsStrung :
    (s : Scanner) (want_proof : Bool)
    → IsScanner s
    → s.statement_math_start ≤ length s.span_pool
    → Returns (IsStrung s) (get_strings s want_proof)
unfolding get_strings
get_strings-IsStrung s want_proof w before = elim (get_string-Goes s want_proof false w) [
  | returned math e g ↦
      let noted = after_math-IsStrung s math.0 before g in
      elim (Bool-cases math.1) [
        | inr no_proof ↦ returned (after_math math.0) (ground (arith, e, no_proof)) noted
        | inl has_proof ↦ elim (get_string-Goes (after_math math.0) false true noted.advances.0) [
          | returned proof e1 g1 ↦
              returned proof.0 (ground (arith, e, has_proof, e1))
                (proved (after_math math.0) proof.0 noted g1)
        ]
      ]
]
  where
    proved : (t u : Scanner) → IsStrung s t → Goes t u → IsStrung s u
    proved t u k (w', (b, (f, (l, (st, (p, (m, (q, v)))))))) = record {
      advances = Advances-trans s t u k.advances (w', (b, (f, (l, st))));
      math = m ∙ k.math;
      before_proof = omega (arith, k.before_proof, q);
      in_pool = omega (arith, k.in_pool, q, p);
      not_empty = λ h. omega (arith, k.not_empty (sym v ∙ h), q);
    }

Goes-IsPart : (s t : Scanner) (sp : Span) → Goes s t → IsSpan s.buffer sp → IsPart s (t, sp)
Goes-IsPart s t sp (w', (b, (f, (l, (st, (p, (m, (q, v)))))))) span =
    ((w', (b, (f, (l, st)))), ((p, (m, q)), span))

include_name-IsPart :
    (s t : Scanner) (x : InInclude) (name : Token)
    → IsPart s (t, x.res)
    → IsPart s (include_name t x name, x.res)
include_name-IsPart s t x name h = ground (arith, h)

include_round-Stepped :
    (s t t' : Scanner) (x : InInclude) (tok : Span)
    → Goes s t'
    → IsSpan s.buffer x.res
    → IsSpan s.buffer tok
    → left t' < left t
    → Stepped (λ u y. Goes s u × IsSpan s.buffer y.res) (IsPart s) t (include_round t' x tok)
include_round-Stepped s t t' x tok g res span less =
    elim (as_ref-ok t' tok (subst (λ b. IsSpan b tok) (sym g.1.0) span)) [
      | returned bytes e _ ↦ elim (Bool-cases (bytes_eq bytes (keyword b']'))) [
        | inl closes ↦ elim (as_ref-ok t' x.res (subst (λ b. IsSpan b x.res) (sym g.1.0) res)) [
          | returned name e1 _ ↦
              ends_with (include_name t' x name) x.res (ground (arith, e, closes, e1))
                (include_name-IsPart s t' x name (Goes-IsPart s t' x.res g res))
        ]
        | inr more ↦ elim (Bool-cases (starts_with_dollar bytes)) [
          | inl keyword_next ↦
              ends_with (unclosed_name t' x).0 x.res (ground (arith, e, more, keyword_next))
                (Goes-IsPart s t' x.res g res)
          | inr name_part ↦
              goes_on t' (record { res = tok; count = x.count + 1 })
                (ground (arith, e, more, name_part)) (g, span) less
        ]
      ]
    ]

pub get_file_include-IsPart : (s : Scanner) → IsScanner s → Returns (IsPart s) (get_file_include s)
unfolding get_file_include
get_file_include-IsPart s w =
    loop_lem get unclosed_name include_round (λ t x. Goes s t × IsSpan s.buffer x.res) (IsPart s)
      (λ t x g. get-Reads t g.0.0)
      (λ t x t' g g' end. Goes-IsPart s t' x.res (Goes-trans s t t' g.0 g') g.1)
      (λ t x t' tok g g' span more less.
        include_round-Stepped s t t' x tok (Goes-trans s t t' g.0 g') g.1
          (subst (λ b. IsSpan b tok) g.0.1.0 span) less)
      (fuel s) s (record { res = null_span; count = 0 }) (left-fuel s)
      (Goes-refl s w, (omega arith, omega arith))
