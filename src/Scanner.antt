-- ===== src/Scanner.antt =====
-- src/parser.rs: the characters of a database and the reading of one token.
pub mod Tokens
pub mod Loop
pub mod Comments
pub mod Strings
pub mod Statements
pub mod Segments
pub mod Collect
pub mod Moves
pub mod Total
pub mod Phrases
pub mod Parts
pub mod Safe
pub mod Out
pub mod Forward
pub mod Grouped
pub mod Listed
pub mod Groups
pub mod Managed
pub mod Defined
pub mod Whole
pub mod Divided
mod Tests
use metamath_knife.Base.{
  ℕ, zero, suc, ◌+◌, ◌/◌, ◌%◌, ◌^◌, Bool, true, false, ◌&&◌, ◌||◌, List, [], ◌∷◌, ◌++◌, length,
  drop, ltb, leb, ◌==◌, if◌then◌else◌,
}
use metamath_knife.Address.{
  Token, Span, null_span, StatementType, axiom_, provable, essential, floating, disjoint, constant,
  variable,
}
use metamath_knife.Diag.{Diagnostic, bad_character}

-- `(MM_VALID_SPACES & (1u64 << byte)) != 0`, the bits of the mask written out.
abbrev pub is_mm_space_c0 : ℕ → Bool
is_mm_space_c0 byte = byte == 9 || (byte == 10 || (byte == 12 || (byte == 13 || byte == 32)))

abbrev pub is_mm_space : ℕ → Bool
is_mm_space byte = leb byte 32 && is_mm_space_c0 byte

abbrev pub takes_label : StatementType → Bool
takes_label axiom_ = true
takes_label provable = true
takes_label essential = true
takes_label floating = true
takes_label _ = false

abbrev pub takes_math : StatementType → Bool
takes_math axiom_ = true
takes_math provable = true
takes_math essential = true
takes_math floating = true
takes_math disjoint = true
takes_math constant = true
takes_math variable = true
takes_math _ = false

abbrev within : ℕ → ℕ → ℕ → Bool
within lo hi c = leb lo c && leb c hi

unfoldable pub is_valid_label : Token → Bool
is_valid_label [] = true
is_valid_label (c ∷ cs) =
    (c == b'.'
      || (c == b'-'
          || (c == b'_' || (within b'a' b'z' c || (within b'0' b'9' c || within b'A' b'Z' c)))))
    && is_valid_label cs

-- One pass over the buffer: the span of a token, or a bad character and where to go on.
pub data Pass : Type 0 where
  token : ℕ → ℕ → Pass
  bad : ℕ → ℕ → Pass

-- `while ix < len && !is_mm_space(self.buffer[ix])`, over the bytes from `ix` on.
unfoldable pub skip_bad : List ℕ → ℕ → ℕ
skip_bad [] ix = ix
skip_bad (ch ∷ chs) ix = if is_mm_space ch then ix else skip_bad chs (suc ix)

-- The characters of the token that starts at `start`.
unfoldable pub token_chars : List ℕ → ℕ → ℕ → Pass
unfolding skip_bad
token_chars [] start ix = token start ix
token_chars (ch ∷ chs) start ix =
    let rest = token_chars chs start (suc ix) in
    if leb ch 32
    then token start ix
    else if ltb 126 ch
    then bad ix (skip_bad chs (suc ix))
    else rest

-- The white space before it.
unfoldable pub skip_spaces : List ℕ → ℕ → Pass
unfolding token_chars
skip_spaces [] ix = token ix ix
skip_spaces (ch ∷ chs) ix =
    let rest = skip_spaces chs (suc ix) in
    if leb ch 32
    then (if is_mm_space_c0 ch then rest else bad ix (suc ix))
    else token_chars (ch ∷ chs) ix ix

-- `buffer_ref` is the same text as `buffer`.
pub record Scanner : Type 0 where
  pub buffer : List ℕ
  pub diagnostics : List (ℕ × Diagnostic)
  pub position : ℕ
  pub statement_index : ℕ
  pub span_pool : List Span
  pub unget : Span
  pub labels : List Span
  pub statement_start : ℕ
  pub statement_math_start : ℕ
  pub statement_proof_start : ℕ
  pub invalidated : Bool

-- `Scanner::diag`
abbrev pub diag : Scanner → Diagnostic → Scanner
diag s d = record s { diagnostics = s.diagnostics ++ (s.statement_index, d) ∷ [] }

-- `slf.buffer[ix]`, at a place in the buffer.
abbrev byte_at : List ℕ → ℕ → ℕ
byte_at [] i = 0
byte_at (x ∷ xs) zero = x
byte_at (x ∷ xs) (suc i) = byte_at xs i

abbrev pub after_bad : Scanner → ℕ → ℕ → Scanner
after_bad s at next = diag (record s { position = next }) (bad_character at (byte_at s.buffer at))

-- What follows a pass; `badchar` starts again after the character.
abbrev pub after_pass : Scanner → Pass → (Scanner → Scanner × Span) → Scanner × Span
after_pass s (token start end) again = (
  record s { position = end },
  if start == end then null_span else record { start = start; end = end },
)
after_pass s (bad at next) again = again (after_bad s at next)

-- On fuel: every pass that does not return moves the position on.
unfoldable pub get_raw_within : ℕ → Scanner → Scanner × Span
unfolding skip_spaces
get_raw_within zero s = (s, null_span)
get_raw_within (suc fuel) s =
    after_pass s (skip_spaces (drop s.position s.buffer) s.position) (get_raw_within fuel)

unfoldable pub get_raw : Scanner → Scanner × Span
unfolding get_raw_within
get_raw s = get_raw_within (length s.buffer + 1) s
