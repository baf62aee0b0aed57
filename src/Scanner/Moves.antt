-- ===== src/Scanner/Moves.antt =====
-- src/parser.rs: what every operation of the scanner keeps: its spans are in the buffer, it goes
-- forward, and a token that is read leaves less to read.
use metamath_knife.Base.{
  ℕ, zero, suc, ◌+◌, ◌-◌, ◌<◌, ◌≤◌, drop, take, true, false, List, length, slice, ==_iff,
  if◌then◌else◌, All, ◌≡◌, refl, sym, ap, subst, ◌∙◌, Bool-cases, inl, inr, arith,
}
use metamath_knife.Address.{Span, is_null}
use metamath_knife.Diag.{Diagnostic, Outcome, ok, ◌>>=◌}
use metamath_knife.Scanner.{
  Scanner, Pass, token, bad, skip_spaces, after_pass, after_bad, get_raw_within, get_raw,
}
use metamath_knife.Scanner.Tokens.{IsRead, get_raw-IsRead}
use metamath_knife.Scanner.Loop.{Next, continue_, return_, loop, fuel, raw, as_ref}

-- `as_ref` is no panic.
abbrev pub IsSpan : List ℕ → Span → Type 0
IsSpan buf sp = (sp.start ≤ sp.end) × (sp.end ≤ length buf)

pub record IsState (buffer : List ℕ) (position : ℕ) (unget : Span) (labels pool : List Span)
    : Type 0 where
  pub inside : position ≤ length buffer
  pub unget_span : IsSpan buffer unget
  pub label_spans : All (IsSpan buffer) labels
  pub pool_spans : All (IsSpan buffer) pool

abbrev pub IsScanner : Scanner → Type 0
IsScanner s = IsState s.buffer s.position s.unget s.labels s.span_pool

abbrev pub pending : Span → ℕ
pending sp = if is_null sp then 0 else 1

-- The bytes that are left, and the token that was put back.
abbrev pub left : Scanner → ℕ
left s = length s.buffer - s.position + pending s.unget

-- The pool of spans only grows, and the marks of the statement that is read stay.
abbrev pub Keeps : Scanner → Scanner → Type 0
Keeps s s' =
    (length s.span_pool ≤ length s'.span_pool)
    × ((s'.statement_math_start ≡ s.statement_math_start)
        × ((s'.statement_proof_start ≡ s.statement_proof_start) × (s'.invalidated ≡ s.invalidated)))

pub Keeps-refl : (s : Scanner) → Keeps s s
Keeps-refl s = (omega arith, (refl, (refl, refl)))

-- An operation that starts at one state may end at the other.
abbrev pub Advances : Scanner → Scanner → Type 0
Advances s s' =
    IsScanner s'
    × ((s'.buffer ≡ s.buffer)
        × ((s.position ≤ s'.position)
            × ((left s' ≤ left s) × (s'.statement_start ≡ s.statement_start))))

-- And it leaves the statement as it is, but for the pool.
abbrev pub Goes : Scanner → Scanner → Type 0
Goes s s' =
    IsScanner s'
    × ((s'.buffer ≡ s.buffer)
        × ((s.position ≤ s'.position)
            × ((left s' ≤ left s) × ((s'.statement_start ≡ s.statement_start) × Keeps s s'))))

pub Goes-Advances : (s s' : Scanner) → Goes s s' → Advances s s'
Goes-Advances s s' (w, (b, (f, (l, (st, o))))) = (w, (b, (f, (l, st))))

pub Advances-trans : (s t u : Scanner) → Advances s t → Advances t u → Advances s u
Advances-trans s t u (w, (b, (f, (l, st)))) (w', (b', (f', (l', st')))) =
    (w', (b' ∙ b, (omega (arith, f, f'), (omega (arith, l, l'), st' ∙ st))))

pub Goes-refl : (s : Scanner) → IsScanner s → Goes s s
Goes-refl s w = (w, (refl, (omega arith, (omega arith, (refl, Keeps-refl s)))))

pub Goes-trans : (s t u : Scanner) → Goes s t → Goes t u → Goes s u
Goes-trans s t u (w, (b, (f, (l, (st, (p, (m, (q, v))))))))
      (w', (b', (f', (l', (st', (p', (m', (q', v')))))))) =
    (
      w',
      (
        b' ∙ b,
        (
          omega (arith, f, f'),
          (omega (arith, l, l'), (st' ∙ st, (omega (arith, p, p'), (m' ∙ m, (q' ∙ q, v' ∙ v))))),
        ),
      ),
    )

-- What reading a token comes to.
pub data Reads (s : Scanner) (m : Outcome (Scanner × Span)) : Type 0 where
  reads :
      (s' : Scanner) (tok : Span)
      → m ≡ ok (s', tok)
      → Goes s s'
      → IsSpan s.buffer tok
      → (is_null tok ≡ true → s'.position ≡ length s.buffer)
      → (is_null tok ≡ false → left s' < left s)
      → Reads s m

-- A block that returns, with a result of which something holds.
pub data Returns {A : Type 0} (Q : A → Type 0) (m : Outcome A) : Type 0 where
  returned : (a : A) → m ≡ ok a → Q a → Returns Q m

pub Returns-bind :
    {A B : Type 0} (Q : A → Type 0) (S : B → Type 0) (m : Outcome A) (f : A → Outcome B)
    → Returns Q m
    → ((a : A) → Q a → Returns S (f a))
    → Returns S (m >>= f)
Returns-bind Q S m f (returned a e q) k = rw e (k a q)

-- A round of a loop goes on with less to read, or ends it.
pub data Stepped {X R : Type 0} (P : Scanner → X → Type 0) (Q : Scanner × R → Type 0) (s : Scanner)
    (m : Outcome (Next X R)) : Type 0 where
  goes_on :
      (t : Scanner) (y : X) → m ≡ ok (continue_ t y) → P t y → left t < left s → Stepped P Q s m
  ends_with : (t : Scanner) (r : R) → m ≡ ok (return_ t r) → Q (t, r) → Stepped P Q s m

-- The rule for loops: with more fuel than there is to read, they come to an end.
module _ {X R : Type 0} (get : Scanner → Outcome (Scanner × Span))
    (at_end : Scanner → X → Scanner × R) (round : Scanner → X → Span → Outcome (Next X R))
    (P : Scanner → X → Type 0) (Q : Scanner × R → Type 0) where
  loop-eq-end :
      (n : ℕ) (s : Scanner) (x : X) (s' : Scanner) (tok : Span)
      → get s ≡ ok (s', tok)
      → is_null tok ≡ true
      → loop get at_end round (suc n) s x ≡ ok (at_end s' x)
  unfolding loop
  loop-eq-end n s x s' tok e null = ground (arith, e, null)

  loop-eq-round :
      (n : ℕ) (s : Scanner) (x : X) (s' : Scanner) (tok : Span) {next : Next X R}
      → get s ≡ ok (s', tok)
      → is_null tok ≡ false
      → round s' x tok ≡ ok next
      → loop get at_end round (suc n) s x
        ≡ elim next [ continue_ t y ↦ loop get at_end round n t y | return_ t r ↦ ok (t, r) ]
  unfolding loop
  loop-eq-round n s x s' tok e more h = ground (arith, e, more, h)

  after_read :
      (n : ℕ) (s : Scanner) (x : X)
      → Reads s (get s)
      → ((s' : Scanner) → Goes s s' → s'.position ≡ length s.buffer → Q (at_end s' x))
      → ((s' : Scanner) (tok : Span)
          → Goes s s'
          → IsSpan s.buffer tok
          → is_null tok ≡ false
          → left s' < left s
          → Stepped P Q s (round s' x tok))
      → ((t : Scanner) (y : X) → P t y → left t < left s → Returns Q (loop get at_end round n t y))
      → Returns Q (loop get at_end round (suc n) s x)
  after_read n s x (reads s' tok e g span end less) ends steps rest =
      elim (Bool-cases (is_null tok)) [
        | inl null ↦ returned (at_end s' x) (loop-eq-end n s x s' tok e null) (ends s' g (end null))
        | inr more ↦ elim (steps s' tok g span more (less more)) [
          | goes_on t y goes p fewer ↦
              rw (loop-eq-round n s x s' tok e more goes) (rest t y p fewer)
          | ends_with t r returns q ↦ returned (t, r) (loop-eq-round n s x s' tok e more returns) q
        ]
      ]

  pub loop_lem :
      ((s : Scanner) (x : X) → P s x → Reads s (get s))
      → ((s : Scanner) (x : X) (s' : Scanner)
          → P s x
          → Goes s s'
          → s'.position ≡ length s.buffer
          → Q (at_end s' x))
      → ((s : Scanner) (x : X) (s' : Scanner) (tok : Span)
          → P s x
          → Goes s s'
          → IsSpan s.buffer tok
          → is_null tok ≡ false
          → left s' < left s
          → Stepped P Q s (round s' x tok))
      → (n : ℕ) (s : Scanner) (x : X) → left s < n
      → P s x
      → Returns Q (loop get at_end round n s x)
  loop_lem gets ends steps zero s x enough p = absurd (omega arith)
  loop_lem gets ends steps (suc n) s x enough p =
      after_read n s x (gets s x p) (λ s' g e. ends s x s' p g e)
        (λ s' tok g span more less. steps s x s' tok p g span more less)
        (λ t y q fewer. loop_lem gets ends steps n t y (omega (arith, fewer, enough)) q)

pub left-fuel : (s : Scanner) → left s < fuel s
left-fuel s = ground arith

pub as_ref-ok :
    (s : Scanner) (tok : Span) → IsSpan s.buffer tok → Returns (λ b. Unit {0}) (as_ref s tok)
unfolding slice
as_ref-ok s tok (a, b) =
    returned (take (tok.end - tok.start) (drop tok.start s.buffer)) (ground (arith, a, b)) tt

-- `get_raw` changes the position and adds diagnostics, and nothing else.
get_raw_within-fields :
    (n : ℕ) (s : Scanner)
    → (get_raw_within n s).0 ≡ record s {
      position = (get_raw_within n s).0.position;
      diagnostics = (get_raw_within n s).0.diagnostics;
    }
unfolding get_raw_within
get_raw_within-fields zero s = refl
get_raw_within-fields (suc n) s =
    after_pass-fields (skip_spaces (drop s.position s.buffer) s.position)
      (λ t. get_raw_within-fields n t)
  where
    after_pass-fields :
        (p : Pass)
        → ((t : Scanner)
            → (get_raw_within n t).0 ≡ record t {
              position = (get_raw_within n t).0.position;
              diagnostics = (get_raw_within n t).0.diagnostics;
            })
        → (after_pass s p (get_raw_within n)).0 ≡ record s {
          position = (after_pass s p (get_raw_within n)).0.position;
          diagnostics = (after_pass s p (get_raw_within n)).0.diagnostics;
        }
    after_pass-fields (token a b) k = refl
    after_pass-fields (bad at next) k = k (after_bad s at next)

abbrev moved : Scanner → ℕ → List (ℕ × Diagnostic) → Scanner
moved s p d = record s { position = p; diagnostics = d }

Goes-moved :
    (s : Scanner) (p : ℕ) (d : List (ℕ × Diagnostic))
    → IsScanner s
    → s.position ≤ p
    → p ≤ length s.buffer
    → Goes s (moved s p d)
Goes-moved s p d w lo hi = (
  record {
    inside = hi;
    unget_span = w.unget_span;
    label_spans = w.label_spans;
    pool_spans = w.pool_spans;
  },
  (refl, (lo, (omega (arith, lo), (refl, Keeps-refl s)))),
)

get_raw-fields :
    (s : Scanner)
    → (get_raw s).0
      ≡ record s { position = (get_raw s).0.position; diagnostics = (get_raw s).0.diagnostics }
unfolding get_raw
get_raw-fields s = get_raw_within-fields (length s.buffer + 1) s

-- From a position in the buffer, `get_raw` reads a token of the buffer or stands at its end.
pub get_raw-Reads : (s : Scanner) → IsScanner s → Reads s (raw s)
get_raw-Reads s w = by_read (get_raw s) refl (get_raw-IsRead s w.inside) (get_raw-fields s)
  where
    by_read :
        (r : Scanner × Span)
        → get_raw s ≡ r
        → IsRead s r
        → r.0 ≡ record s { position = r.0.position; diagnostics = r.0.diagnostics }
        → Reads s (raw s)
    by_read (s', tok) e (b, inl (empty, end)) fields =
        reads (moved s s'.position s'.diagnostics) tok (ap ok (e ∙ ap (λ t. (t, tok)) fields))
          (Goes-moved s s'.position s'.diagnostics w (omega (arith, end, w.inside))
            (omega (arith, end)))
          (subst (IsSpan s.buffer) (sym empty) (omega arith, omega arith)) (λ h. end)
          (λ h. absurd (cc (h, ap is_null empty)))
    by_read (s', tok) e (b, inr (lo, (some_chars, (up_to, hi)))) fields =
        reads (moved s s'.position s'.diagnostics) tok (ap ok (e ∙ ap (λ t. (t, tok)) fields))
          (Goes-moved s s'.position s'.diagnostics w (omega (arith, lo, some_chars, up_to))
            (omega (arith, up_to, hi)))
          (omega (arith, some_chars), hi)
          (λ h. absurd (omega (arith, (==_iff tok.end 0).0 h, some_chars)))
          (λ h. omega (arith, lo, some_chars, up_to, hi))
