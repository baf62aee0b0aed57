-- ===== src/BitSet/Iter.antt =====
-- src/bit_set.rs: the iterator yields the bits of the set, all of them and nothing else.
use native.Mathlib.Nat.{pow-suc}
use metamath_knife.Base.{
  ap, ℕ, zero, suc, ◌+◌, ◌-◌, ◌/◌, ◌%◌, ◌^◌, ◌≤◌, ◌<◌, bit_and, List, [], ◌∷◌, ◌≡◌, refl, sym, ◌∙◌,
  contains, get_or, tests, ltb, ◌==◌, if◌then◌else◌, arith, Bool-cases, inl, inr, ◌⊎◌, Option, none,
  some, false,
}
use metamath_knife.BitSet.{
  Bitset, BitsetIter, low_zeros, take_lowest, next_from, next, sum, collect, elements, into_iter,
  words, has_bit,
}
use metamath_knife.BitSet.Laws.{word_at, word_at-zero, word_at-suc, has_bit-eq-digit}
use metamath_knife.BitSet.Digits.{
  digit, digit-lowest, digit-suc, digit-zero, digit-and, zero-and, and_lowest,
}

digit-and_self : (i w : ℕ) → digit i (bit_and w w) ≡ digit i w
digit-and_self i w = omega (arith, digit-and i w w)

odd_halves : (b : ℕ) → b % 2 ≡ 1 → bit_and b (b - 1) / 2 ≡ bit_and (b / 2) (b / 2)
odd_halves b h =
    let half : (b - 1) / 2 ≡ b / 2 = omega arith in
    omega (arith, and_lowest b (b - 1), ap (bit_and (b / 2)) half)

even_halves : (b : ℕ) → 0 < b → b % 2 ≡ 0 → bit_and b (b - 1) / 2 ≡ bit_and (b / 2) (b / 2 - 1)
even_halves b p h =
    let half : (b - 1) / 2 ≡ b / 2 - 1 = omega arith in
    omega (arith, and_lowest b (b - 1), ap (bit_and (b / 2)) half)

parity : (b : ℕ) → (b % 2 ≡ 1) ⊎ (b % 2 ≡ 0)
parity b = grind arith

-- `bits & (bits - 1)` takes the lowest digit 1 away.
digit-clear :
    (k i b : ℕ)
    → 0 < b
    → b < 2 ^ k
    → digit i (bit_and b (b - 1)) ≡ (if i == low_zeros k b then 0 else digit i b)
unfolding low_zeros
digit-clear zero i b p q = absurd (omega arith)
digit-clear (suc k) zero b p q =
    ground (arith, digit-lowest (bit_and b (b - 1)), digit-lowest b, and_lowest b (b - 1))
digit-clear (suc k) (suc i) b p q = elim (parity b) [
  | inl odd ↦ rw (digit-suc, digit-suc, odd_halves b odd, digit-and_self, odd) (ground arith)
  | inr even ↦
      rw (digit-suc, digit-suc, even_halves b p even, even)
        (ground (arith, digit-clear k i (b / 2), pow-suc 2 k))
]

-- The digit that `trailing_zeros` points at is 1, and lies in the word.
digit-low_zeros :
    (k b : ℕ) → 0 < b → b < 2 ^ k → (digit (low_zeros k b) b ≡ 1) × (low_zeros k b < k)
unfolding low_zeros
digit-low_zeros zero b p q = absurd (omega arith)
digit-low_zeros (suc k) b p q = elim (parity b) [
  | inl odd ↦ rw odd (omega (arith, digit-lowest b), omega arith)
  | inr even ↦
      rw even
        (ground (arith, digit-low_zeros k (b / 2), pow-suc 2 k, digit-suc (low_zeros k (b / 2)) b))
]

-- The digit `x` of a sequence of words.
digit_at : List ℕ → ℕ → ℕ
digit_at [] x = 0
digit_at (w ∷ ws) x = if ltb x 64 then digit x w else digit_at ws (x - 64)

-- The numbers that an iterator has still to yield.
pub pending : BitsetIter → ℕ → ℕ
pending it x = if ltb x it.offset then 0 else digit_at (it.bits ∷ it.buffer) (x - it.offset)

-- `usize` words
abbrev pub AreWords : List ℕ → Type 0
AreWords [] = Unit {0}
AreWords (w ∷ ws) = (w < 2 ^ 64) × AreWords ws

left : BitsetIter → ℕ
left it = it.bits + sum it.buffer

abbrev at : ℕ → ℕ → List ℕ → BitsetIter
at bits offset buffer = record { bits = bits; offset = offset; buffer = buffer }

-- What a call of `next` owes: nothing is left, or one number is taken out.
abbrev Yields : BitsetIter → Option ℕ → BitsetIter → Type 0
Yields it none it' = (x : ℕ) → pending it x ≡ 0
Yields it (some v) it' =
    (pending it v ≡ 1)
    × ((x : ℕ) → pending it' x ≡ (if x == v then 0 else pending it x))
    × (left it' < left it)
    × AreWords (it'.bits ∷ it'.buffer)

and-le_right_fuel : (n a b : ℕ) → a ≤ n → bit_and a b ≤ b
and-le_right_fuel zero zero b h = omega (arith, zero-and b)
and-le_right_fuel zero (suc a) b h = absurd (omega arith)
and-le_right_fuel (suc n) zero b h = omega (arith, zero-and b)
and-le_right_fuel (suc n) (suc a) b h =
    omega (arith, and_lowest (suc a) b, and-le_right_fuel n (suc a / 2) (b / 2) (omega arith))

clear-lt : (b : ℕ) → 0 < b → bit_and b (b - 1) < b
clear-lt b h = omega (arith, and-le_right_fuel b b (b - 1) (omega arith))

one_cleared :
    (x offset z d d' rest : ℕ)
    → z < 64
    → d' ≡ (if x - offset == z then 0 else d)
    → (if ltb x offset then 0 else (if ltb (x - offset) 64 then d' else rest)) ≡ (
        if x == z + offset
        then 0
        else (if ltb x offset then 0 else (if ltb (x - offset) 64 then d else rest)))
one_cleared x offset z d d' rest p e = rw e (ground arith)

take_lowest-Yields :
    (bits offset : ℕ) (buffer : List ℕ)
    → 0 < bits
    → AreWords (bits ∷ buffer)
    → Yields
        (at bits offset buffer)
        (take_lowest bits offset buffer).0
        (take_lowest bits offset buffer).1
unfolding take_lowest pending digit_at left
take_lowest-Yields bits offset buffer p h = (
  ground (arith, digit-low_zeros 64 bits p h.0),
  λ x.
      one_cleared x offset (low_zeros 64 bits) _ _ _ (digit-low_zeros 64 bits p h.0).1
        (digit-clear 64 (x - offset) bits p h.0),
  omega (arith, clear-lt bits p),
  (omega (arith, clear-lt bits p, h.0), h.1),
)

digit_at-zero_word :
    (ws : List ℕ) (x : ℕ) → digit_at (0 ∷ ws) x ≡ (if ltb x 64 then 0 else digit_at ws (x - 64))
unfolding digit_at
digit_at-zero_word ws x = rw digit-zero

pending_refill :
    (offset w : ℕ) (ws : List ℕ) (x : ℕ)
    → pending (at 0 offset (w ∷ ws)) x ≡ pending (at w (offset + 64) ws) x
unfolding pending
pending_refill offset w ws x = rw digit_at-zero_word (elim (Bool-cases (ltb x (offset + 64))) [
  | inl near ↦ rw near (ground arith)
  | inr far ↦
      let same : x - offset - 64 ≡ x - (offset + 64) = omega arith in rw (far, same) (ground arith)
])

pending_end : (offset x : ℕ) → pending (at 0 offset []) x ≡ 0
unfolding pending digit_at
pending_end offset x = ground (arith, digit-zero (x - offset))

Yields-refill :
    (offset w : ℕ) (ws : List ℕ) (item : Option ℕ) (it' : BitsetIter)
    → Yields (at w (offset + 64) ws) item it'
    → Yields (at 0 offset (w ∷ ws)) item it'
unfolding left sum
Yields-refill offset w ws none it' h = λ x. pending_refill offset w ws x ∙ h x
Yields-refill offset w ws (some v) it' h = (
  pending_refill offset w ws v ∙ h.0,
  λ x. rw (pending_refill offset w ws x) (h.1 x),
  omega (arith, h.2),
  h.3,
)

empty_or_not : (bits : ℕ) → (bits ≡ 0) ⊎ (0 < bits)
empty_or_not bits = grind arith

not_empty : (bits : ℕ) → 0 < bits → (bits == 0) ≡ false
not_empty bits p = ground arith

next_from-Yields :
    (bits offset : ℕ) (buffer : List ℕ)
    → AreWords (bits ∷ buffer)
    → Yields
        (at bits offset buffer)
        (next_from bits offset buffer).0
        (next_from bits offset buffer).1
unfolding next_from
next_from-Yields bits offset [] h = elim (empty_or_not bits) [
  | inl e ↦ rw e (λ x. pending_end offset x)
  | inr p ↦ rw (not_empty bits p) (take_lowest-Yields bits offset [] p h)
]
next_from-Yields bits offset (w ∷ ws) h = elim (empty_or_not bits) [
  | inl e ↦ rw e (
      Yields-refill offset w ws (next_from w (offset + 64) ws).0 (next_from w (offset + 64) ws).1
        (next_from-Yields w (offset + 64) ws h.1))
  | inr p ↦ rw (not_empty bits p) (take_lowest-Yields bits offset (w ∷ ws) p h)
]

digit_at-eq-digit : (ws : List ℕ) (x : ℕ) → digit_at ws x ≡ digit (x % 64) (get_or ws (x / 64) 0)
unfolding digit_at
digit_at-eq-digit [] x = sym (digit-zero (x % 64))
digit_at-eq-digit (w ∷ ws) x = elim (Bool-cases (ltb x 64)) [
  | inl near ↦
      let zeroth : x / 64 ≡ 0 = omega tests in
      let same : x % 64 ≡ x = omega tests in rw (near, zeroth, same) refl
  | inr far ↦
      let next_word : x / 64 ≡ suc ((x - 64) / 64) = ground arith in
      let same : x % 64 ≡ (x - 64) % 64 = ground arith in
      rw (far, next_word, same) (digit_at-eq-digit ws (x - 64))
]

word_at-eq-get_or : (s : Bitset) (k : ℕ) → word_at s k ≡ get_or (s.head ∷ words s.tail) k 0
word_at-eq-get_or s zero = word_at-zero s
word_at-eq-get_or s (suc k) = word_at-suc s k

has_bit-eq-pending : (s : Bitset) (x : ℕ) → has_bit s x ≡ (pending (into_iter s) x == 1)
unfolding pending
has_bit-eq-pending s x =
    rw (has_bit-eq-digit, word_at-eq-get_or, ← digit_at-eq-digit (s.head ∷ words s.tail) x)
      (ground arith)

contains-collect :
    (fuel : ℕ) (it : BitsetIter) (x : ℕ)
    → left it < fuel
    → AreWords (it.bits ∷ it.buffer)
    → contains (collect fuel it) x ≡ (pending it x == 1)
unfolding collect next
contains-collect zero it x h w = absurd (omega arith)
contains-collect (suc fuel) it x h w =
    one_round (next_from it.bits it.offset it.buffer).0 (next_from it.bits it.offset it.buffer).1
      (next_from-Yields it.bits it.offset it.buffer w)
      (contains-collect fuel (next_from it.bits it.offset it.buffer).1 x)
  where
    one_round :
        (item : Option ℕ) (it' : BitsetIter)
        → Yields it item it'
        → (left it' < fuel
            → AreWords (it'.bits ∷ it'.buffer)
            → contains (collect fuel it') x ≡ (pending it' x == 1))
        → contains (elim item [ none ↦ [] | some v ↦ v ∷ collect fuel it' ]) x ≡ (pending it x == 1)
    one_round none it' y ih = ground (arith, y x)
    one_round (some v) it' y ih = ground (arith, y.0, y.1 x, ih (omega (arith, y.2)) y.3)

abbrev pub IsBitset : Bitset → Type 0
IsBitset s = AreWords (s.head ∷ words s.tail)

-- A loop over a set of 64-bit words meets exactly its members.
pub contains-elements : (s : Bitset) (x : ℕ) → IsBitset s → contains (elements s) x ≡ has_bit s x
unfolding elements left
contains-elements s x h =
    contains-collect (s.head + sum (words s.tail) + 1) (into_iter s) x (omega arith) h
    ∙ sym (has_bit-eq-pending s x)
