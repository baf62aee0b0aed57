-- ===== src/Scanner/Comments.antt =====
-- src/parser.rs: comments, and the tokens that are not in one.
use metamath_knife.Base.{
  ℕ, Bool, true, false, ◌&&◌, ◌||◌, Option, none, some, [], ◌∷◌, length, ◌==◌, if◌then◌else◌,
  contains, bytes_eq,
}
use metamath_knife.Address.{
  Token, Span, null_span, is_null, StatementType, comment, typesetting_comment,
}
use metamath_knife.Diag.{
  Outcome, ok, ◌>>=◌, comment_marker_not_start, mid_statement_comment_marker, bad_comment_end,
  nested_comment, unclosed_comment,
}
use metamath_knife.Scanner.{Scanner, diag}
use metamath_knife.Scanner.Loop.{Next, continue_, return_, loop, fuel, raw, as_ref}

pub data CommentType : Type 0 where
  normal typesetting extra : CommentType

abbrev pub dollar : ℕ
dollar = b'$'

-- The tokens `$)`, `$.` and so on.
abbrev pub keyword : ℕ → Token
keyword c = dollar ∷ c ∷ []

-- Do two bytes stand side by side? Tokens are ASCII, and `str::from_utf8` leaves them as they are.
unfoldable pub contains_pair : ℕ → ℕ → Token → Bool
contains_pair a b [] = false
contains_pair a b (x ∷ []) = false
contains_pair a b (x ∷ y ∷ xs) = let rest = contains_pair a b (y ∷ xs) in (x == a && y == b) || rest

-- The local variables of the loop.
pub record InComment : Type 0 where
  pub ctype : CommentType
  pub first : Bool

abbrev pub marker_type : Token → CommentType
marker_type tok = if bytes_eq tok (keyword b'j') then extra else typesetting

-- The diagnostics for a token with a dollar sign.
abbrev pub check_dollar : Scanner → Span → Span → Token → Scanner
check_dollar s opener tok bytes =
    let s' = if contains_pair dollar b')' bytes then diag s (bad_comment_end tok opener) else s in
    if contains_pair dollar b'(' bytes then diag s' (nested_comment tok opener) else s'

unfoldable pub comment_token :
    Span → Bool → Scanner → InComment → Span → Token → Next InComment CommentType
unfolding contains_pair
comment_token opener mid s x tok bytes =
    if bytes_eq bytes (keyword b')')
    then return_ s x.ctype
    else if bytes_eq bytes (keyword b'j') || bytes_eq bytes (keyword b't')
    then (if x.first
        then (if mid
            then continue_ (diag s (mid_statement_comment_marker tok)) (record x { first = false })
            else continue_ s (record { ctype = marker_type bytes; first = false }))
        else continue_ (diag s (comment_marker_not_start tok)) (record x { first = false }))
    else if contains bytes dollar
    then continue_ (check_dollar s opener tok bytes) (record x { first = false })
    else continue_ s (record x { first = false })

abbrev pub comment_round :
    Span → Bool → Scanner → InComment → Span → Outcome (Next InComment CommentType)
comment_round opener mid s x tok = do
  bytes ← as_ref s tok
  ok (comment_token opener mid s x tok bytes)

abbrev pub comment_end : Span → Scanner → InComment → Scanner × CommentType
comment_end opener s x =
    (diag s (unclosed_comment (record { start = opener.start; end = length s.buffer })), x.ctype)

unfoldable pub get_comment : Scanner → Span → Bool → Outcome (Scanner × CommentType)
unfolding loop comment_token
get_comment s opener mid =
    loop raw (comment_end opener) (comment_round opener mid) (fuel s) s
      (record { ctype = normal; first = true })

-- `get` skips comments.
abbrev pub get_round : Scanner → Unit {0} → Span → Outcome (Next (Unit {0}) Span)
get_round s x tok = do
  bytes ← as_ref s tok
  elim (bytes_eq bytes (keyword b'(')) [
    | true ↦ do skipped ← get_comment s tok true; ok (continue_ skipped.0 tt)
    | false ↦ ok (return_ s tok)
  ]

abbrev pub get_end : Scanner → Unit {0} → Scanner × Span
get_end s x = (s, null_span)

unfoldable pub get : Scanner → Outcome (Scanner × Span)
unfolding loop get_comment
get s = elim (is_null s.unget) [
  | false ↦ ok (record s { unget = null_span }, s.unget)
  | true ↦ loop raw get_end get_round (fuel s) s tt
]

-- A statement, as it is in the list of the segment.
pub record Statement : Type 0 where
  pub stype : StatementType
  pub span : Span
  pub label : Span
  pub group : Option ℕ
  pub group_end : Option ℕ
  pub math_start : ℕ
  pub proof_start : ℕ
  pub proof_end : ℕ

abbrev pub out_statement : Scanner → StatementType → Span → Scanner × Statement
out_statement s stype label = (
  record s { statement_start = s.position },
  record {
    stype = stype;
    span = record { start = s.statement_start; end = s.position };
    label = label;
    group = none;
    group_end = none;
    math_start = s.statement_math_start;
    proof_start = s.statement_proof_start;
    proof_end = length s.span_pool;
  },
)

abbrev pub comment_stype : CommentType → StatementType
comment_stype typesetting = typesetting_comment
comment_stype _ = comment

-- The token put back, or the next one, which may be the start of a comment.
abbrev pub first_token : Scanner → Outcome (Scanner × Span)
first_token s = elim (is_null s.unget) [
  | true ↦ raw s
  | false ↦ ok (record s { unget = null_span }, s.unget)
]

unfoldable pub get_comment_statement : Scanner → Outcome (Scanner × Option Statement)
unfolding get_comment
get_comment_statement s = do
  got ← first_token s
  elim (is_null got.1) [
    | true ↦ ok (got.0, none)
    | false ↦ do
      bytes ← as_ref got.0 got.1
      elim (bytes_eq bytes (keyword b'(')) [
        | false ↦ ok (record got.0 { unget = got.1 }, none)
        | true ↦ do
          read ← get_comment got.0 got.1 false
          let out =
              out_statement read.0 (comment_stype read.1)
                (record { start = got.1.start; end = got.1.start })
          ok (out.0, some out.1)
      ]
  ]
