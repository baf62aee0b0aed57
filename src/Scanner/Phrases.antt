-- ===== src/Scanner/Phrases.antt =====
-- src/parser.rs: the labels and strings of a statement, read to their end.
use metamath_knife.Base.{
  ℕ, ◌<◌, Bool, [], ◌∷◌, ◌++◌, length-append, All-append, refl, sym, subst, arith,
}
use metamath_knife.Address.{Token, Span}
use metamath_knife.Diag.{ok, ◌>>=◌}
use metamath_knife.Scanner.{Scanner}
use metamath_knife.Scanner.Loop.{Next, loop, fuel, as_ref}
use metamath_knife.Scanner.Comments.{get}
use metamath_knife.Scanner.Strings.{
  labels_token, stop, read_labels, string_token, string_end, get_string, invalid_token, eat_invalid,
}
use metamath_knife.Scanner.Moves.{
  IsSpan, IsScanner, left, Keeps-refl, Goes, Goes-refl, Goes-trans, Returns, loop_lem, left-fuel,
}
use metamath_knife.Scanner.Total.{NextOk, text_round, get-Reads}

-- The token just read is put back.
pub Goes-unget :
    (s s' : Scanner) (tok : Span)
    → Goes s s'
    → IsSpan s.buffer tok
    → left s' < left s
    → Goes s (record s' { unget = tok })
Goes-unget s s' tok (w, (b, (f, (l, (st, o))))) span less = (
  record {
    inside = w.inside;
    unget_span = subst (λ buf. IsSpan buf tok) (sym b) span;
    label_spans = w.label_spans;
    pool_spans = w.pool_spans;
  },
  (b, (f, (ground (arith, less), (st, o)))),
)

Goes-label :
    (s s' : Scanner) (tok : Span)
    → Goes s s'
    → IsSpan s.buffer tok
    → Goes s (record s' { labels = s'.labels ++ tok ∷ [] })
Goes-label s s' tok (w, (b, rest)) span = (
  record {
    inside = w.inside;
    unget_span = w.unget_span;
    label_spans =
        All-append (IsSpan s'.buffer) s'.labels (tok ∷ []) w.label_spans
          (subst (λ buf. IsSpan buf tok) (sym b) span, tt);
    pool_spans = w.pool_spans;
  },
  (b, rest),
)

Goes-pool :
    (s s' : Scanner) (tok : Span)
    → Goes s s'
    → IsSpan s.buffer tok
    → Goes s (record s' { span_pool = s'.span_pool ++ tok ∷ [] })
Goes-pool s s' tok (w, (b, (f, (l, (st, o))))) span = (
  record {
    inside = w.inside;
    unget_span = w.unget_span;
    label_spans = w.label_spans;
    pool_spans =
        All-append (IsSpan s'.buffer) s'.span_pool (tok ∷ []) w.pool_spans
          (subst (λ buf. IsSpan buf tok) (sym b) span, tt);
  },
  (b, (f, (l, (st, (omega (arith, o.0, length-append s'.span_pool (tok ∷ [])), o.1))))),
)

-- A loop over the tokens of `get` whose rounds look at the text of the token alone.
text_loop :
    {X R : Type 0} (at_end : Scanner → X → Scanner × R)
    (token : Scanner → X → Span → Token → Next X R) (s0 : Scanner) (x0 : X)
    → ((s : Scanner) (x : X) → Goes s0 s → Goes s0 (at_end s x).0)
    → ((s s' : Scanner) (x : X) (tok : Span) (bytes : Token)
        → Goes s0 s'
        → Goes s0 (record s' { unget = tok })
        → IsSpan s0.buffer tok
        → left s' < left s
        → NextOk (λ t y. Goes s0 t) (λ r. Goes s0 r.0) s (token s' x tok bytes))
    → (n : ℕ) (s : Scanner) → left s < n
    → Goes s0 s
    → Returns
        (λ r. Goes s0 r.0)
        (loop get at_end (λ t x tok. as_ref t tok >>= λ bytes. ok (token t x tok bytes)) n s x0)
text_loop at_end token s0 x0 ends rounds n s enough g0 =
    loop_lem get at_end (λ t x tok. as_ref t tok >>= λ bytes. ok (token t x tok bytes))
      (λ t y. Goes s0 t) (λ r. Goes s0 r.0) (λ t x g. get-Reads t g.0)
      (λ t x t' g g' end. ends t' x (Goes-trans s0 t t' g g'))
      (λ t x t' tok g g' span more less.
        text_round (λ u y. Goes s0 u) (λ r. Goes s0 r.0) t t' tok (token t' x tok)
          (subst (λ b. IsSpan b tok) (sym g'.1.0) span)
          (λ bytes.
            rounds t t' x tok bytes (Goes-trans s0 t t' g g')
              (Goes-trans s0 t (record t' { unget = tok }) g (Goes-unget t t' tok g' span less))
              (subst (λ b. IsSpan b tok) g.1.0 span) less))
      n s x0 enough g0

pub read_labels-Goes : (s : Scanner) → IsScanner s → Returns (λ r. Goes s r.0) (read_labels s)
unfolding read_labels
read_labels-Goes s w =
    text_loop stop (λ t x tok bytes. labels_token t tok bytes) s tt (λ t x g. g)
      (λ t t' x tok bytes g back span less.
        ground (arith, g, back, less, Goes-label s t' tok g span))
      (fuel s) (record s { labels = [] }) (left-fuel s)
      (
        record {
          inside = w.inside;
          unget_span = w.unget_span;
          label_spans = tt;
          pool_spans = w.pool_spans;
        },
        (refl, (omega arith, (omega arith, (refl, Keeps-refl s)))),
      )

pub get_string-Goes :
    (s : Scanner) (expect_proof is_proof : Bool)
    → IsScanner s
    → Returns (λ r. Goes s r.0) (get_string s expect_proof is_proof)
unfolding get_string
get_string-Goes s expect_proof is_proof w =
    text_loop (string_end is_proof)
      (λ t x tok bytes. string_token expect_proof is_proof t tok bytes) s tt (λ t x g. g)
      (λ t t' x tok bytes g back span less.
        ground (arith, g, back, less, Goes-pool s t' tok g span))
      (fuel s) s (left-fuel s) (Goes-refl s w)

pub eat_invalid-Goes : (s : Scanner) → IsScanner s → Returns (λ r. Goes s r.0) (eat_invalid s)
unfolding eat_invalid
eat_invalid-Goes s w =
    text_loop stop (λ t x tok bytes. invalid_token t tok bytes) s tt (λ t x g. g)
      (λ t t' x tok bytes g back span less. ground (arith, g, back, less)) (fuel s) s (left-fuel s)
      (Goes-refl s w)
