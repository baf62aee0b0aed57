-- ===== src/Diag.antt =====
-- src/diag.rs: the errors that the passes report, and the outcome of code that may fail.
use metamath_knife.Base.{ℕ, Bool, true, false, Option, none, some, List, ◌≡◌, refl}
use metamath_knife.Address.{Token, Span, StatementAddress, TokenAddress}

pub data Diagnostic : Type 0 where
  bad_character : ℕ → ℕ → Diagnostic
  bad_comment_end : Span → Span → Diagnostic
  bad_explicit_label : Token → Diagnostic
  bad_floating : Diagnostic
  bad_label : Span → Diagnostic
  chain_backref : Span → Diagnostic
  comment_marker_not_start : Span → Diagnostic
  constant_not_top_level : Diagnostic
  disjoint_single : Diagnostic
  dj_not_variable : ℕ → Diagnostic
  dj_repeated_variable : ℕ → ℕ → Diagnostic
  duplicate_explicit_label : Token → Diagnostic
  duplicate_label : StatementAddress → Diagnostic
  empty_filename : Diagnostic
  empty_math_string : Diagnostic
  essential_at_top_level : Diagnostic
  expr_not_constant_prefix : ℕ → Diagnostic
  filename_dollar : Diagnostic
  filename_spaces : Diagnostic
  float_not_constant : ℕ → Diagnostic
  float_not_variable : ℕ → Diagnostic
  float_redeclared : StatementAddress → Diagnostic
  io_error : List ℕ → Diagnostic
  local_label_ambiguous : Span → Diagnostic
  local_label_duplicate : Span → Diagnostic
  mid_statement_comment_marker : Span → Diagnostic
  missing_label : Diagnostic
  missing_proof : Span → Diagnostic
  nested_comment : Span → Span → Diagnostic
  not_active_symbol : ℕ → Diagnostic
  proof_dv_violation : Diagnostic
  proof_excess_end : Diagnostic
  proof_incomplete : Diagnostic
  proof_invalid_save : Diagnostic
  proof_malformed_varint : Diagnostic
  proof_no_steps : Diagnostic
  proof_underflow : Diagnostic
  proof_unterminated_roster : Diagnostic
  proof_wrong_expr_end : Diagnostic
  proof_wrong_type_end : Diagnostic
  repeated_label : Span → Span → Diagnostic
  spurious_label : Span → Diagnostic
  spurious_proof : Span → Diagnostic
  step_essen_wrong : Diagnostic
  step_essen_wrong_type : Diagnostic
  step_float_wrong_type : Diagnostic
  step_missing : Token → Diagnostic
  step_out_of_range : Diagnostic
  step_used_after_scope : Token → Diagnostic
  step_used_before_definition : Token → Diagnostic
  symbol_duplicates_label : ℕ → StatementAddress → Diagnostic
  symbol_redeclared : ℕ → TokenAddress → Diagnostic
  unclosed_before_eof : Diagnostic
  unclosed_before_include : ℕ → Diagnostic
  unclosed_comment : Span → Diagnostic
  unclosed_include : Diagnostic
  unclosed_math : Diagnostic
  unclosed_proof : Diagnostic
  unknown_keyword : Span → Diagnostic
  unmatched_close_group : Diagnostic
  variable_missing_float : ℕ → Diagnostic
  variable_redeclared_as_constant : ℕ → TokenAddress → Diagnostic

-- `Result<T, Diagnostic>`, with a constructor for a panic: a failed assertion, an index out of
-- range, an `unwrap` of `None`.
pub data Outcome {ℓ} (A : Type ℓ) : Type ℓ where
  ok : A → Outcome A
  err : Diagnostic → Outcome A
  panic : Outcome A

infixl 5 ◌>>=◌ ◌>>◌
abbrev pub ◌>>=◌ {ℓ κ} : {A : Type ℓ} {B : Type κ} → Outcome A → (A → Outcome B) → Outcome B
ok a >>= f = f a
err d >>= f = err d
panic >>= f = panic

abbrev pub ◌>>◌ {ℓ} : {B : Type ℓ} → Outcome (Unit {0}) → Outcome B → Outcome B
m >> k = m >>= λ _. k

-- `try_assert!`
abbrev pub try_assert : Bool → Diagnostic → Outcome (Unit {0})
try_assert true d = ok tt
try_assert false d = err d

-- `assert!`
abbrev pub assert : Bool → Outcome (Unit {0})
assert true = ok tt
assert false = panic

-- An index, a slice or an `unwrap` that must succeed.
abbrev pub or_panic {ℓ} : {A : Type ℓ} → Option A → Outcome A
or_panic none = panic
or_panic (some a) = ok a

-- `.ok_or(d)?`
abbrev pub ok_or {ℓ} : {A : Type ℓ} → Option A → Diagnostic → Outcome A
ok_or none d = err d
ok_or (some a) d = ok a

-- What a block that returned has gone through: the value of its first step, and the rest.
pub data Bound {ℓ κ} {A : Type ℓ} {B : Type κ} (m : Outcome A) (f : A → Outcome B) (b : B)
    : Type (ℓ ⊔ κ) where
  bound : (a : A) → m ≡ ok a → f a ≡ ok b → Bound m f b

pub >>=-eq-ok {ℓ κ} :
    {A : Type ℓ} {B : Type κ} (m : Outcome A) (f : A → Outcome B) {b : B}
    → (m >>= f) ≡ ok b
    → Bound m f b
>>=-eq-ok (ok a) f h = bound a refl h
>>=-eq-ok (err d) f h = cc
>>=-eq-ok panic f h = cc

pub or_panic-eq-ok {ℓ} : {A : Type ℓ} (o : Option A) {a : A} → or_panic o ≡ ok a → o ≡ some a
or_panic-eq-ok none h = cc
or_panic-eq-ok (some b) h = cc

pub ok_or-eq-ok {ℓ} :
    {A : Type ℓ} (o : Option A) (d : Diagnostic) {a : A} → ok_or o d ≡ ok a → o ≡ some a
ok_or-eq-ok none d h = cc
ok_or-eq-ok (some b) d h = cc

pub try_assert-eq-ok : (b : Bool) (d : Diagnostic) {u : Unit {0}} → try_assert b d ≡ ok u → b ≡ true
try_assert-eq-ok true d h = refl
try_assert-eq-ok false d h = cc
