-- ===== src/Scanner/Tokens.antt =====
-- src/parser.rs: `get_raw` always comes to an end, with a token or at the end of the buffer.
use metamath_knife.Base.{
  ℕ, zero, suc, ◌+◌, ◌<◌, ◌≤◌, false, List, [], ◌∷◌, length, length-drop, drop, ltb, leb, ◌==◌,
  ==_iff, ◌≡◌, refl, ap, ◌∙◌, Bool-cases, inl, inr, ◌⊎◌, arith,
}
use metamath_knife.Address.{Span, null_span}
use metamath_knife.Scanner.{
  Pass, token, bad, is_mm_space, is_mm_space_c0, skip_bad, token_chars, skip_spaces, Scanner,
  get_raw_within, get_raw, after_pass, after_bad,
}

skip_bad-bounds :
    (chs : List ℕ) (ix : ℕ) → (ix ≤ skip_bad chs ix) × (skip_bad chs ix ≤ ix + length chs)
unfolding skip_bad
skip_bad-bounds [] ix = (omega arith, omega arith)
skip_bad-bounds (ch ∷ chs) ix = elim (Bool-cases (is_mm_space ch)) [
  | inl space ↦ rw space (omega arith, omega arith)
  | inr other ↦
      let (lo, hi) = skip_bad-bounds chs (suc ix) in rw other (omega (arith, lo), omega (arith, hi))
]

-- The bounds of a pass that is inside a token.
abbrev IsInside : List ℕ → ℕ → ℕ → Pass → Type 0
IsInside chs start ix (token a b) = (a ≡ start) × ((ix ≤ b) × (b ≤ ix + length chs))
IsInside chs start ix (bad at next) = (ix < next) × (next ≤ ix + length chs)

IsInside-later :
    (ch : ℕ) (chs : List ℕ) (start ix : ℕ) (p : Pass)
    → IsInside chs start (suc ix) p
    → IsInside (ch ∷ chs) start ix p
IsInside-later ch chs start ix (token a b) (e, (lo, hi)) =
    (e, (omega (arith, lo), omega (arith, hi)))
IsInside-later ch chs start ix (bad at next) (lo, hi) = (omega (arith, lo), omega (arith, hi))

token_chars-IsInside :
    (chs : List ℕ) (start ix : ℕ) → IsInside chs start ix (token_chars chs start ix)
unfolding token_chars
token_chars-IsInside [] start ix = (refl, (omega arith, omega arith))
token_chars-IsInside (ch ∷ chs) start ix = elim (Bool-cases (leb ch 32)) [
  | inl low ↦ rw low (refl, (omega arith, omega arith))
  | inr graphic ↦ elim (Bool-cases (ltb 126 ch)) [
    | inl high ↦
        let (lo, hi) = skip_bad-bounds chs (suc ix) in
        rw (graphic, high) (omega (arith, lo), omega (arith, hi))
    | inr plain ↦
        rw (graphic, plain)
          (IsInside-later ch chs start ix _ (token_chars-IsInside chs start (suc ix)))
  ]
]

-- The bounds of a whole pass: an empty token is the end of the buffer, and a bad character is passed.
abbrev IsPass : List ℕ → ℕ → Pass → Type 0
IsPass chs ix (token a b) =
    (ix ≤ a) × ((b ≤ ix + length chs) × (((a ≡ b) × (b ≡ ix + length chs)) ⊎ (a < b)))
IsPass chs ix (bad at next) = (ix < next) × (next ≤ ix + length chs)

IsPass-later :
    (ch : ℕ) (chs : List ℕ) (ix : ℕ) (p : Pass) → IsPass chs (suc ix) p → IsPass (ch ∷ chs) ix p
IsPass-later ch chs ix (token a b) (lo, (hi, inl (same, end))) =
    (omega (arith, lo), (omega (arith, hi), inl (same, omega (arith, end))))
IsPass-later ch chs ix (token a b) (lo, (hi, inr more)) =
    (omega (arith, lo), (omega (arith, hi), inr more))
IsPass-later ch chs ix (bad at next) (lo, hi) = (omega (arith, lo), omega (arith, hi))

first_char-IsPass :
    (ch : ℕ) (chs : List ℕ) (ix : ℕ) (p : Pass)
    → IsInside chs ix (suc ix) p
    → IsPass (ch ∷ chs) ix p
first_char-IsPass ch chs ix (token a b) (e, (lo, hi)) =
    (omega (arith, e), (omega (arith, hi), inr (omega (arith, e, lo))))
first_char-IsPass ch chs ix (bad at next) (lo, hi) = (omega (arith, lo), omega (arith, hi))

skip_spaces-IsPass : (chs : List ℕ) (ix : ℕ) → IsPass chs ix (skip_spaces chs ix)
unfolding skip_spaces
skip_spaces-IsPass [] ix = (omega arith, (omega arith, inl (refl, omega arith)))
skip_spaces-IsPass (ch ∷ chs) ix = elim (Bool-cases (leb ch 32)) [
  | inl low ↦ elim (Bool-cases (is_mm_space_c0 ch)) [
    | inl space ↦ rw (low, space) (IsPass-later ch chs ix _ (skip_spaces-IsPass chs (suc ix)))
    | inr control ↦ rw (low, control) (omega arith, omega arith)
  ]
  | inr graphic ↦ elim (Bool-cases (ltb 126 ch)) [
    | inl high ↦
        let (lo, hi) = skip_bad-bounds chs (suc ix) in
        rw (graphic, high) (omega (arith, lo), omega (arith, hi))
    | inr plain ↦
        rw (graphic, plain) (first_char-IsPass ch chs ix _ (token_chars-IsInside chs ix (suc ix)))
  ]
]

-- What has been read: nothing, at the end of the buffer, or a token that is not empty, after the
-- position and up to the new one.
abbrev pub IsRead : Scanner → Scanner × Span → Type 0
IsRead s (s', span) =
    (s'.buffer ≡ s.buffer)
    × (((span ≡ null_span) × (s'.position ≡ length s.buffer))
        ⊎ ((s.position ≤ span.start)
            × ((span.start < span.end)
                × ((span.end ≡ s'.position) × (span.end ≤ length s.buffer)))))

IsRead-later :
    (s t : Scanner) (result : Scanner × Span)
    → t.buffer ≡ s.buffer
    → s.position < t.position
    → IsRead t result
    → IsRead s result
IsRead-later s t result same later (kept, inl (empty, end)) =
    (kept ∙ same, inl (empty, end ∙ ap length same))
IsRead-later s t result same later (kept, inr (lo, (some_chars, (up_to, hi)))) = (
  kept ∙ same,
  inr (omega (arith, lo, later), (some_chars, (up_to, omega (arith, hi, ap length same)))),
)

after_pass-IsRead :
    (s : Scanner) (p : Pass) (again : Scanner → Scanner × Span)
    → s.position ≤ length s.buffer
    → IsPass (drop s.position s.buffer) s.position p
    → ((t : Scanner)
        → t.buffer ≡ s.buffer
        → s.position < t.position
        → t.position ≤ length s.buffer
        → IsRead t (again t))
    → IsRead s (after_pass s p again)
after_pass-IsRead s (token a b) again inside (lo, (hi, inl (same, end))) k =
    rw ((==_iff a b).1 same)
      (refl, inl (refl, omega (arith, end, length-drop s.position s.buffer, inside)))
after_pass-IsRead s (token a b) again inside (lo, (hi, inr less)) k =
    rw (distinct)
      (refl, inr (lo, (less, (refl, omega (arith, hi, length-drop s.position s.buffer, inside)))))
  where
    distinct : (a == b) ≡ false
    distinct = ground (arith, less)
after_pass-IsRead s (bad at next) again inside (lo, hi) k =
    IsRead-later s (after_bad s at next) (again (after_bad s at next)) refl lo
      (k (after_bad s at next) refl lo (omega (arith, hi, length-drop s.position s.buffer, inside)))

get_raw_within-IsRead :
    (fuel : ℕ) (s : Scanner)
    → s.position ≤ length s.buffer
    → length s.buffer < fuel + s.position
    → IsRead s (get_raw_within fuel s)
unfolding get_raw_within
get_raw_within-IsRead zero s inside enough = absurd (omega (arith, inside, enough))
get_raw_within-IsRead (suc fuel) s inside enough =
    after_pass-IsRead s (skip_spaces (drop s.position s.buffer) s.position) (get_raw_within fuel)
      inside (skip_spaces-IsPass (drop s.position s.buffer) s.position)
      (λ t same later hi.
        get_raw_within-IsRead fuel t (omega (arith, hi, ap length same))
          (omega (arith, enough, later, ap length same)))

-- From a position in the buffer, `get_raw` comes to an end: it has read a token that is not empty,
-- inside the buffer and after the position, or it has read nothing and stands at the end.
pub get_raw-IsRead : (s : Scanner) → s.position ≤ length s.buffer → IsRead s (get_raw s)
unfolding get_raw
get_raw-IsRead s inside = get_raw_within-IsRead (length s.buffer + 1) s inside (omega arith)
