-- ===== src/Verify/Substitute.antt =====
-- src/verify.rs: substitution in the shared buffer, against expressions with a byte string for
-- each variable.
use mathlib.Core.Option
use metamath_knife.Base.{
  ℕ, Bool, true, Option, none, some, List, [], ◌∷◌, ◌++◌, append_assoc, append-nil, get_elem?,
  length, take, drop, take-append-drop, bytes_eq, bytes_eq_sound, slice, slice-append, All, ◌≡◌,
  refl, sym, ◌∙◌, Bool-cases, inl, inr, arith,
}
use metamath_knife.BitSet
use metamath_knife.BitSet.{Bitset, bitor_assign}
use metamath_knife.BitSet.Iter.{IsBitset}
use metamath_knife.Diag.{Outcome, ok, ◌>>=◌, bound, >>=-eq-ok, or_panic-eq-ok}
use metamath_knife.Scopeck.{Range, ExprFragment, VerifyExpr, Frame}
use metamath_knife.Verify.{slice_of, index}
use metamath_knife.Verify.Execute.{
  Substitution, substitute_fragments, do_substitute, step, and_then, is_empty, compare_fragments,
  do_substitute_eq, union_vars, do_substitute_vars,
}
use metamath_knife.Verify.Derivation.{fragments_bytes, expr_bytes, expr_vars}

-- What the substitution holds for a variable, in a buffer.
unfoldable pub value_of : List ℕ → Substitution → ℕ → List ℕ
value_of buf info var = elim (get_elem? info var) [
  | none ↦ []
  | some entry ↦ Option.get_or (slice buf entry.0.start entry.0.end) []
]

unfoldable pub vars_of : Substitution → ℕ → Bitset
vars_of info var = elim (get_elem? info var) [ none ↦ BitSet.new | some entry ↦ entry.1 ]

-- The variable has been given a value in the buffer.
pub record IsAssigned (buf : List ℕ) (info : Substitution) (var : ℕ) : Type 0 where
  pub range : Range
  pub vars : Bitset
  pub bytes : List ℕ
  pub entry : get_elem? info var ≡ some (range, vars)
  pub there : slice buf range.start range.end ≡ some bytes
  pub words : IsBitset vars

pub value_of-IsAssigned :
    {buf : List ℕ} {info : Substitution} {var : ℕ} (a : IsAssigned buf info var)
    → value_of buf info var ≡ a.bytes
unfolding value_of
value_of-IsAssigned a = ground (arith, a.entry, a.there)

abbrev pub AllAssigned : List ℕ → Substitution → List ExprFragment → Type 0
AllAssigned buf info parts = All (λ part. IsAssigned buf info part.var) parts

pub fragments_bytes-cons :
    (pool : List ℕ) (value : ℕ → List ℕ) (part : ExprFragment) (parts : List ExprFragment)
    {prefix bytes : List ℕ}
    → slice pool part.prefix.start part.prefix.end ≡ some prefix
    → fragments_bytes pool value parts ≡ some bytes
    → fragments_bytes pool value (part ∷ parts) ≡ some (prefix ++ value part.var ++ bytes)
unfolding fragments_bytes
fragments_bytes-cons pool value part parts p q = ground (arith, p, q)

-- A part of the buffer that a substitution has appended has the bytes of the expression.
substitute_fragments_sound :
    (pool buf : List ℕ) (info : Substitution) (parts : List ExprFragment) (target more : List ℕ)
    {out : List ℕ}
    → target ≡ buf ++ more
    → AllAssigned buf info parts
    → substitute_fragments pool target info parts ≡ ok out
    → (bytes : List ℕ) × (fragments_bytes pool (value_of buf info) parts ≡ some bytes)
      × (out ≡ target ++ bytes)
unfolding substitute_fragments
substitute_fragments_sound pool buf info [] target more e a h =
    ([], unfold fragments_bytes in refl, rw append-nil (cc))
substitute_fragments_sound pool buf info (part ∷ parts) target more {out} e a h =
    elim (>>=-eq-ok (slice_of pool part.prefix) _ h) [
      | bound prefix hp h1 ↦
          let in_pool = or_panic-eq-ok (slice pool part.prefix.start part.prefix.end) hp in
          let behind : target ++ prefix ≡ buf ++ (more ++ prefix) =
            rw e (append_assoc buf more prefix) in
          let there : slice (target ++ prefix) a.0.range.start a.0.range.end ≡ some a.0.bytes =
            rw behind (slice-append buf (more ++ prefix) _ _ _ a.0.there) in
          let h2 : substitute_fragments pool ((target ++ prefix) ++ a.0.bytes) info parts ≡ ok out =
            ground (arith, h1, a.0.entry, there) in
          let further : (target ++ prefix) ++ a.0.bytes ≡ buf ++ ((more ++ prefix) ++ a.0.bytes) =
            rw behind (append_assoc buf (more ++ prefix) a.0.bytes) in
          let (bytes, spec, whole) =
            substitute_fragments_sound pool buf info parts ((target ++ prefix) ++ a.0.bytes)
              ((more ++ prefix) ++ a.0.bytes) further a.1 h2 in
          (
            prefix ++ value_of buf info part.var ++ bytes,
            fragments_bytes-cons pool (value_of buf info) part parts in_pool spec,
            rw (value_of-IsAssigned a.0, whole) (simp append_assoc),
          )
    ]

pub expr_bytes-eq-some :
    (pool : List ℕ) (value : ℕ → List ℕ) (expr : VerifyExpr) {front rump : List ℕ}
    → fragments_bytes pool value expr.tail ≡ some front
    → slice pool expr.rump.start expr.rump.end ≡ some rump
    → expr_bytes pool value expr ≡ some (front ++ rump)
unfolding expr_bytes
expr_bytes-eq-some pool value expr p q = ground (arith, p, q)

-- A substitution that returns has appended the expression's bytes to the buffer.
pub do_substitute_sound :
    (buf : List ℕ) (frame : Frame) (expr : VerifyExpr) (info : Substitution) {out : List ℕ}
    → AllAssigned buf info expr.tail
    → do_substitute buf frame expr info ≡ ok out
    → (bytes : List ℕ) × (expr_bytes frame.const_pool (value_of buf info) expr ≡ some bytes)
      × (out ≡ buf ++ bytes)
unfolding do_substitute
do_substitute_sound buf frame expr info a h =
    elim (>>=-eq-ok (substitute_fragments frame.const_pool buf info expr.tail) _ h) [
      | bound target front h1 ↦ elim (>>=-eq-ok (slice_of frame.const_pool expr.rump) _ h1) [
        | bound rump last h2 ↦
            let (bytes, spec, whole) =
              substitute_fragments_sound frame.const_pool buf info expr.tail buf []
                (sym (append-nil buf)) a front in
            (
              bytes ++ rump,
              expr_bytes-eq-some frame.const_pool (value_of buf info) expr spec
                  (or_panic-eq-ok _ last),
              rw (← append_assoc buf bytes rump, ← whole) (cc),
            )
      ]
    ]

-- `step` takes a prefix off.
step-eq-some :
    (compare piece : List ℕ) {rest : List ℕ}
    → step compare piece ≡ some rest
    → compare ≡ piece ++ rest
unfolding step
step-eq-some compare piece {rest} h =
    elim (Bool-cases (bytes_eq piece (take (length piece) compare))) [
      | inl same ↦
          let front = bytes_eq_sound piece _ same in
          let back : drop (length piece) compare ≡ rest = ground (arith, same) in
          sym (take-append-drop (length piece) compare) ∙ rw (← front, back)
      | inr other ↦ absurd (ground (arith, other))
    ]

data Passed (o : Option (List ℕ)) (k : List ℕ → Outcome Bool) : Type 0 where
  passed : (rest : List ℕ) → o ≡ some rest → k rest ≡ ok true → Passed o k

and_then-eq-true :
    (o : Option (List ℕ)) (k : List ℕ → Outcome Bool) → and_then o k ≡ ok true → Passed o k
and_then-eq-true none k h = cc
and_then-eq-true (some rest) k h = passed rest refl h

compare_fragments_sound :
    (pool : List ℕ) (rump : Range) (info : Substitution) (buf : List ℕ) (parts : List ExprFragment)
    (compare : List ℕ)
    → AllAssigned buf info parts
    → compare_fragments compare pool rump info buf parts ≡ ok true
    → (front last : List ℕ) × (fragments_bytes pool (value_of buf info) parts ≡ some front)
      × (slice pool rump.start rump.end ≡ some last)
      × (compare ≡ front ++ last)
unfolding compare_fragments
compare_fragments_sound pool rump info buf [] compare a h =
    elim (>>=-eq-ok (slice_of pool rump) _ h) [
      | bound last hl h1 ↦ elim (and_then-eq-true (step compare last) _ h1) [
        | passed rest stepped h2 ↦ (
          [],
          last,
          unfold fragments_bytes in refl,
          or_panic-eq-ok _ hl,
          step-eq-some compare last stepped ∙ rw (empty rest h2) (append-nil last),
        )
      ]
    ]
  where
    empty : (rest : List ℕ) → ok (is_empty rest) ≡ ok true → rest ≡ []
    empty [] e = refl
    empty (x ∷ xs) e = cc
compare_fragments_sound pool rump info buf (part ∷ parts) compare a h =
    elim (>>=-eq-ok (slice_of pool part.prefix) _ h) [
      | bound prefix hp h1 ↦ elim (and_then-eq-true (step compare prefix) _ h1) [
        | passed rest stepped h2 ↦
            elim (and_then-eq-true (step rest a.0.bytes) _ (same_piece rest h2)) [
              | passed rest' stepped' h3 ↦
                  let (front, last, spec, end, whole) =
                    compare_fragments_sound pool rump info buf parts rest' a.1 h3 in
                  (
                    prefix ++ value_of buf info part.var ++ front,
                    last,
                    fragments_bytes-cons pool (value_of buf info) part parts (or_panic-eq-ok _ hp)
                        spec,
                    end,
                    joined prefix rest rest' front last (step-eq-some compare prefix stepped)
                        (step-eq-some rest a.0.bytes stepped') whole,
                  )
            ]
      ]
    ]
  where
    same_piece :
        (rest : List ℕ)
        → (index info part.var >>= λ entry. slice_of buf entry.0 >>= λ portion.
            and_then
              (step rest portion)
              (λ rest'. compare_fragments rest' pool rump info buf parts))
          ≡ ok true
        → and_then (step rest a.0.bytes) (λ rest'. compare_fragments rest' pool rump info buf parts)
          ≡ ok true
    same_piece rest h2 = ground (arith, h2, a.0.entry, a.0.there)

    joined :
        (prefix rest rest' front last : List ℕ)
        → compare ≡ prefix ++ rest
        → rest ≡ a.0.bytes ++ rest'
        → rest' ≡ front ++ last
        → compare ≡ (prefix ++ value_of buf info part.var ++ front) ++ last
    joined prefix rest rest' front last p q r =
        rw (p, q, r, value_of-IsAssigned a.0) (simp append_assoc)

-- Where every variable of the expression is assigned and the comparison passes, the bytes compared are those of the substituted expression.
pub do_substitute_eq_sound :
    (compare : List ℕ) (frame : Frame) (expr : VerifyExpr) (info : Substitution) (buf : List ℕ)
    → AllAssigned buf info expr.tail
    → do_substitute_eq compare frame expr info buf ≡ ok true
    → expr_bytes frame.const_pool (value_of buf info) expr ≡ some compare
unfolding do_substitute_eq
do_substitute_eq_sound compare frame expr info buf a h =
    let (front, last, spec, end, whole) =
      compare_fragments_sound frame.const_pool expr.rump info buf expr.tail compare a h in
    rw whole (expr_bytes-eq-some frame.const_pool (value_of buf info) expr spec end)

union_vars_sound :
    (out : Bitset) (info : Substitution) (parts : List ExprFragment) {vars : Bitset}
    → union_vars out info parts ≡ ok vars
    → vars ≡ expr_vars out (vars_of info) parts
unfolding union_vars expr_vars
union_vars_sound out info [] h = cc
union_vars_sound out info (part ∷ parts) h = elim (>>=-eq-ok (index info part.var) _ h) [
  | bound entry he h1 ↦
      rw (entry_vars (or_panic-eq-ok _ he))
        (union_vars_sound (bitor_assign out entry.1) info parts h1)
]
  where
    entry_vars :
        {entry : Range × Bitset}
        → get_elem? info part.var ≡ some entry
        → vars_of info part.var ≡ entry.1
    entry_vars e = unfold vars_of in ground (arith, e)

pub do_substitute_vars_sound :
    (info : Substitution) (parts : List ExprFragment) {vars : Bitset}
    → do_substitute_vars parts info ≡ ok vars
    → vars ≡ expr_vars BitSet.new (vars_of info) parts
unfolding do_substitute_vars
do_substitute_vars_sound info parts h = union_vars_sound BitSet.new info parts h
