-- ===== src/Scanner/Strings.antt =====
-- src/parser.rs: labels, math strings, proofs and file names.
use metamath_knife.Base.{
  ℕ, ◌+◌, Bool, true, false, not, ◌&&◌, List, [], ◌∷◌, ◌++◌, length, ◌==◌, ltb, if◌then◌else◌,
  contains, bytes_eq,
}
use metamath_knife.Address.{Token, Span, null_span}
use metamath_knife.Diag.{
  Outcome, ok, ◌>>=◌, bad_label, spurious_label, missing_label, repeated_label, missing_proof,
  spurious_proof, unclosed_proof, unclosed_math, empty_math_string, empty_filename, filename_spaces,
  filename_dollar, unclosed_include,
}
use metamath_knife.Scanner.{Scanner, diag, is_valid_label}
use metamath_knife.Scanner.Loop.{Next, continue_, return_, loop, fuel, as_ref}
use metamath_knife.Scanner.Comments.{dollar, keyword, get}

abbrev pub labels_token : Scanner → Span → Token → Next (Unit {0}) (Unit {0})
labels_token s tok bytes =
    if contains bytes dollar
    then return_ (record s { unget = tok }) tt
    else if not (is_valid_label bytes)
    then continue_ (diag s (bad_label tok)) tt
    else continue_ (record s { labels = s.labels ++ tok ∷ [] }) tt

abbrev pub labels_round : Scanner → Unit {0} → Span → Outcome (Next (Unit {0}) (Unit {0}))
labels_round s x tok = do bytes ← as_ref s tok; ok (labels_token s tok bytes)

abbrev pub stop : Scanner → Unit {0} → Scanner × Unit {0}
stop s x = (s, tt)

unfoldable pub read_labels : Scanner → Outcome (Scanner × Unit {0})
unfolding loop get is_valid_label
read_labels s = loop get stop labels_round (fuel s) (record s { labels = [] }) tt

-- A diagnostic for each of the labels.
abbrev pub spurious_labels : Scanner → List Span → Scanner
spurious_labels s [] = s
spurious_labels s (l ∷ ls) = spurious_labels (diag s (spurious_label l)) ls

abbrev pub get_no_label : Scanner → Span → Scanner × Span
get_no_label s kwtok =
    (spurious_labels s s.labels, record { start = kwtok.start; end = kwtok.start })

abbrev pub repeated_labels : Scanner → Span → List Span → Scanner
repeated_labels s first [] = s
repeated_labels s first (l ∷ ls) = repeated_labels (diag s (repeated_label l first)) first ls

-- By the list of labels.
abbrev pub get_label_of : Scanner → List Span → Scanner × Span
get_label_of s [] = (record (diag s missing_label) { invalidated = true }, null_span)
get_label_of s (l ∷ []) = (s, l)
get_label_of s (l ∷ m ∷ ls) =
    (record (repeated_labels s l (m ∷ ls)) { invalidated = true }, null_span)

abbrev pub get_label : Scanner → Scanner × Span
get_label s = get_label_of s s.labels

-- What follows the break of `get_string`.
abbrev pub unclosed : Bool → Scanner → Scanner × Bool
unclosed is_proof s = (diag s (if is_proof then unclosed_proof else unclosed_math), false)

abbrev pub string_token : Bool → Bool → Scanner → Span → Token → Next (Unit {0}) Bool
string_token expect_proof is_proof s tok bytes =
    if contains bytes dollar
    then (if bytes_eq bytes (keyword b'.')
        then return_ (if expect_proof then diag s (missing_proof tok) else s) false
        else if bytes_eq bytes (keyword b'=') && not is_proof
        then return_ (if expect_proof then s else diag s (spurious_proof tok)) true
        else return_ (unclosed is_proof (record s { unget = tok })).0 false)
    else continue_ (record s { span_pool = s.span_pool ++ tok ∷ [] }) tt

abbrev pub string_round : Bool → Bool → Scanner → Unit {0} → Span → Outcome (Next (Unit {0}) Bool)
string_round expect_proof is_proof s x tok = do
  bytes ← as_ref s tok
  ok (string_token expect_proof is_proof s tok bytes)

abbrev pub string_end : Bool → Scanner → Unit {0} → Scanner × Bool
string_end is_proof s x = unclosed is_proof s

unfoldable pub get_string : Scanner → Bool → Bool → Outcome (Scanner × Bool)
unfolding loop get
get_string s expect_proof is_proof =
    loop get (string_end is_proof) (string_round expect_proof is_proof) (fuel s) s tt

-- The start of the proof is noted, and an empty math string.
abbrev pub after_math : Scanner → Scanner
after_math s =
    let s' = record s { statement_proof_start = length s.span_pool } in
    if length s.span_pool == s.statement_math_start
    then diag (record s' { invalidated = true }) empty_math_string
    else s'

unfoldable pub get_strings : Scanner → Bool → Outcome Scanner
unfolding get_string
get_strings s want_proof = do
  math ← get_string s want_proof false
  elim math.1 [
    | false ↦ ok (after_math math.0)
    | true ↦ do proof ← get_string (after_math math.0) false true; ok proof.0
  ]

abbrev pub invalid_token : Scanner → Span → Token → Next (Unit {0}) (Unit {0})
invalid_token s tok bytes =
    if bytes_eq bytes (keyword b'.')
    then return_ s tt
    else if bytes_eq bytes (keyword b'=')
    then continue_ s tt
    else if contains bytes dollar
    then return_ (record s { unget = tok }) tt
    else continue_ s tt

abbrev pub invalid_round : Scanner → Unit {0} → Span → Outcome (Next (Unit {0}) (Unit {0}))
invalid_round s x tok = do bytes ← as_ref s tok; ok (invalid_token s tok bytes)

unfoldable pub eat_invalid : Scanner → Outcome (Scanner × Unit {0})
unfolding loop get
eat_invalid s = loop get stop invalid_round (fuel s) s tt

-- The tokens counted so far and the last of them.
pub record InInclude : Type 0 where
  pub res : Span
  pub count : ℕ

abbrev pub invalidate : Scanner → Scanner
invalidate s = record s { invalidated = true }

-- At `$]`, with the text of the file name.
abbrev pub include_name : Scanner → InInclude → Token → Scanner
include_name s x name =
    if x.count == 0
    then invalidate (diag s empty_filename)
    else if ltb 1 x.count
    then invalidate (diag s filename_spaces)
    else if contains name dollar
    then diag s filename_dollar
    else s

abbrev pub unclosed_name : Scanner → InInclude → Scanner × Span
unclosed_name s x = (invalidate (diag s unclosed_include), x.res)

-- `tref.len() > 0 && tref[0] == b'$'`
abbrev pub starts_with_dollar : Token → Bool
starts_with_dollar [] = false
starts_with_dollar (c ∷ cs) = c == dollar

abbrev pub include_round : Scanner → InInclude → Span → Outcome (Next InInclude Span)
include_round s x tok = do
  bytes ← as_ref s tok
  elim (bytes_eq bytes (keyword b']')) [
    | true ↦ do name ← as_ref s x.res; ok (return_ (include_name s x name) x.res)
    | false ↦ ok (
        if starts_with_dollar bytes
        then return_ (unclosed_name s x).0 x.res
        else continue_ s (record { res = tok; count = x.count + 1 }))
  ]

unfoldable pub get_file_include : Scanner → Outcome (Scanner × Span)
unfolding loop get
get_file_include s =
    loop get unclosed_name include_round (fuel s) s (record { res = null_span; count = 0 })
