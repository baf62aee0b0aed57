-- ===== src/Scanner/Total.antt =====
-- src/parser.rs: the loops of the scanner come to an end, with its spans in the buffer.
use metamath_knife.Base.{
  ◌<◌, Bool, true, false, length, if◌then◌else◌, bytes_eq, ◌≡◌, refl, sym, ap, subst, ◌∙◌,
  Bool-cases, inl, inr, arith,
}
use metamath_knife.Address.{Token, Span, null_span, is_null}
use metamath_knife.Diag.{Outcome, ok, ◌>>=◌, bad_comment_end}
use metamath_knife.Scanner.{Scanner, diag}
use metamath_knife.Scanner.Loop.{Next, continue_, return_, fuel, raw, as_ref}
use metamath_knife.Scanner.Comments.{
  keyword, dollar, CommentType, InComment, check_dollar, contains_pair, comment_token,
  comment_round, comment_end, get_comment, get_round, get_end, get,
}
use metamath_knife.Scanner.Moves.{
  IsSpan, IsScanner, left, Keeps-refl, Goes, Goes-refl, Goes-trans, Reads, reads, Returns, returned,
  Stepped, goes_on, ends_with, loop_lem, left-fuel, as_ref-ok, get_raw-Reads,
}

-- What a round that returns has come to.
abbrev pub NextOk :
    {X R : Type 0} → (Scanner → X → Type 0) → (Scanner × R → Type 0) → Scanner → Next X R → Type 0
NextOk P Q s (continue_ t y) = P t y × (left t < left s)
NextOk P Q s (return_ t r) = Q (t, r)

pub NextOk-Stepped :
    {X R : Type 0} (P : Scanner → X → Type 0) (Q : Scanner × R → Type 0) (s : Scanner)
    (m : Outcome (Next X R)) (next : Next X R)
    → m ≡ ok next
    → NextOk P Q s next
    → Stepped P Q s m
NextOk-Stepped P Q s m (continue_ t y) e (p, less) = goes_on t y e p less
NextOk-Stepped P Q s m (return_ t r) e q = ends_with t r e q

-- A round that looks at the text of its token.
pub text_round :
    {X R : Type 0} (P : Scanner → X → Type 0) (Q : Scanner × R → Type 0) (s s' : Scanner)
    (tok : Span) (k : Token → Next X R)
    → IsSpan s'.buffer tok
    → ((bytes : Token) → NextOk P Q s (k bytes))
    → Stepped P Q s (as_ref s' tok >>= λ bytes. ok (k bytes))
text_round P Q s s' tok k span h = elim (as_ref-ok s' tok span) [
  | returned bytes e _ ↦ NextOk-Stepped P Q s _ (k bytes) (rw e refl) (h bytes)
]

pub if-lem {ℓ} :
    {A : Type 0} (P : A → Type ℓ) (b : Bool) (x y : A) → P x → P y → P (if b then x else y)
if-lem P true x y px py = px
if-lem P false x y px py = py

check_dollar-Goes :
    (s s' : Scanner) (opener tok : Span) (bytes : Token)
    → Goes s s'
    → Goes s (check_dollar s' opener tok bytes)
check_dollar-Goes s s' opener tok bytes g =
    if-lem (Goes s) (contains_pair dollar b'(' bytes) _ _ marked marked
  where
    marked :
        Goes s
          (if contains_pair dollar b')' bytes then diag s' (bad_comment_end tok opener) else s')
    marked = if-lem (Goes s) (contains_pair dollar b')' bytes) _ _ g g

comment_token-NextOk :
    (s0 s s' : Scanner) (opener : Span) (mid : Bool) (x : InComment) (tok : Span) (bytes : Token)
    → Goes s0 s'
    → left s' < left s
    → NextOk (λ t y. Goes s0 t) (λ r. Goes s0 r.0) s (comment_token opener mid s' x tok bytes)
unfolding comment_token
comment_token-NextOk s0 s s' opener mid x tok bytes g less =
    ground (arith, g, less, check_dollar-Goes s0 s' opener tok bytes g)

pub get_comment-Goes :
    (s : Scanner) (opener : Span) (mid : Bool)
    → IsScanner s
    → Returns (λ r. Goes s r.0) (get_comment s opener mid)
unfolding get_comment
get_comment-Goes s0 opener mid w =
    loop_lem raw (comment_end opener) (comment_round opener mid) (λ s x. Goes s0 s)
      (λ r. Goes s0 r.0) (λ s x g. get_raw-Reads s g.0) (λ s x s' g g' end. Goes-trans s0 s s' g g')
      (λ s x s' tok g g' span more less.
        text_round (λ t y. Goes s0 t) (λ r. Goes s0 r.0) s s' tok
          (comment_token opener mid s' x tok) (subst (λ b. IsSpan b tok) (sym g'.1.0) span)
          (λ bytes.
            comment_token-NextOk s0 s s' opener mid x tok bytes (Goes-trans s0 s s' g g') less))
      (fuel s0) s0 (record { ctype = CommentType.normal; first = true }) (left-fuel s0)
      (Goes-refl s0 w)

-- The result of `get`, as a whole.
abbrev IsRead : Scanner → Scanner × Span → Type 0
IsRead s (s', tok) =
    Goes s s'
    × (IsSpan s.buffer tok
        × ((is_null tok ≡ true → s'.position ≡ length s.buffer)
            × (is_null tok ≡ false → left s' < left s)))

IsRead-Reads : (s : Scanner) (m : Outcome (Scanner × Span)) → Returns (IsRead s) m → Reads s m
IsRead-Reads s m (returned (s', tok) e (g, (span, (end, less)))) = reads s' tok e g span end less

get_round-Stepped :
    (s0 s s' : Scanner) (tok : Span)
    → Goes s0 s
    → Goes s s'
    → IsSpan s.buffer tok
    → is_null tok ≡ false
    → left s' < left s
    → Stepped (λ t y. Goes s0 t) (IsRead s0) s (get_round s' tt tok)
get_round-Stepped s0 s s' tok g g' span more less = elim (as_ref-ok s' tok here) [
  | returned bytes e _ ↦ elim (Bool-cases (bytes_eq bytes (keyword b'('))) [
    | inl opens ↦ elim (get_comment-Goes s' tok true g'.0) [
      | returned skipped e1 g1 ↦
          goes_on skipped.0 tt (ground (arith, e, opens, e1))
            (Goes-trans s0 s skipped.0 g (Goes-trans s s' skipped.0 g' g1))
            (omega (arith, less, g1.1.1.1.0))
    ]
    | inr plain ↦ ends_with s' tok (ground (arith, e, plain)) (
      Goes-trans s0 s s' g g',
      (
        subst (λ b. IsSpan b tok) g.1.0 span,
        (λ h. absurd (cc (h, more)), λ h. omega (arith, less, g.1.1.1.0)),
      ),
    )
  ]
]
  where
    here : IsSpan s'.buffer tok
    here = subst (λ b. IsSpan b tok) (sym g'.1.0) span

-- The token that was put back is read again.
pub put_back-Reads :
    (s : Scanner) (m : Outcome (Scanner × Span))
    → IsScanner s
    → is_null s.unget ≡ false
    → m ≡ ok (record s { unget = null_span }, s.unget)
    → Reads s m
put_back-Reads s m w put_back e =
    reads (record s { unget = null_span }) s.unget e
      (
        record {
          inside = w.inside;
          unget_span = (omega arith, omega arith);
          label_spans = w.label_spans;
          pool_spans = w.pool_spans;
        },
        (refl, (omega arith, (ground (arith, put_back), (refl, Keeps-refl s)))),
      )
      w.unget_span (λ h. absurd (cc (h, put_back))) (λ h. ground (arith, put_back))

-- `get` reads a token of the buffer or stands at its end; a token leaves less to read.
pub get-Reads : (s : Scanner) → IsScanner s → Reads s (get s)
unfolding get
get-Reads s w = elim (Bool-cases (is_null s.unget)) [
  | inr put_back ↦ put_back-Reads s (get s) w put_back (ground (arith, put_back))
  | inl empty ↦
      IsRead-Reads s _
        (elim (loop_lem raw get_end get_round (λ t y. Goes s t) (IsRead s)
          (λ t x g. get_raw-Reads t g.0)
          (λ t x t' g g' end. (
            Goes-trans s t t' g g',
            ((omega arith, omega arith), (λ h. end ∙ ap length g.1.0, λ h. absurd (cc (h)))),
          ))
          (λ t x t' tok g g' span more less. get_round-Stepped s t t' tok g g' span more less)
          (fuel s) s tt (left-fuel s) (Goes-refl s w)) [
            | returned r e q ↦ returned r (ground (arith, empty, e)) q
          ])
]
