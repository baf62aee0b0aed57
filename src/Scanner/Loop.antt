-- ===== src/Scanner/Loop.antt =====
-- src/parser.rs: the shape of the scanner's loops over tokens.
use metamath_knife.Base.{ℕ, zero, suc, ◌+◌, true, false, List, length, slice}
use metamath_knife.Address.{Span, is_null}
use metamath_knife.Diag.{Outcome, ok, panic, or_panic, ◌>>=◌}
use metamath_knife.Scanner.{Scanner, get_raw}

-- `Span::as_ref`
abbrev pub as_ref : Scanner → Span → Outcome (List ℕ)
as_ref s tok = or_panic (slice s.buffer tok.start tok.end)

-- The end of a round: on to the next one, with the local variables of the loop, or out of it.
pub data Next (X R : Type 0) : Type 0 where
  continue_ : Scanner → X → Next X R
  return_ : Scanner → R → Next X R

-- `loop { let tok = self.get(); if tok.is_null() { break; } ... }`, on fuel; `at_end` is what comes
-- after the break.
module _ {X R : Type 0} (get : Scanner → Outcome (Scanner × Span))
    (at_end : Scanner → X → Scanner × R) (round : Scanner → X → Span → Outcome (Next X R)) where
  unfoldable pub loop : ℕ → Scanner → X → Outcome (Scanner × R)
  loop zero s x = panic
  loop (suc fuel) s x = do
    got ← get s
    elim (is_null got.1) [
      | true ↦ ok (at_end got.0 x)
      | false ↦ do
        next ← round got.0 x got.1
        elim next [ continue_ t y ↦ loop fuel t y | return_ t r ↦ ok (t, r) ]
    ]

-- More than the bytes that are left and the token that was put back.
abbrev pub fuel : Scanner → ℕ
fuel s = length s.buffer + 2

abbrev pub raw : Scanner → Outcome (Scanner × Span)
raw s = ok (get_raw s)
