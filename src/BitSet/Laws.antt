-- ===== src/BitSet/Laws.antt =====
-- src/bit_set.rs: what the operations do to the set of numbers that a `Bitset` stands for.
use native.Mathlib.Nat.{one-le-pow}
use metamath_knife.Base.{
  ℕ, zero, suc, ◌+◌, ◌-◌, ◌/◌, ◌%◌, ◌^◌, ◌≤◌, ◌<◌, bit_and, bit_or, false, true, not, List, ◌≡◌,
  ◌⊎◌, inl, inr, refl, length, get_or, resize, ltb, leb, ◌==◌, ◌||◌, sym, Option, none, some, [],
  ◌∷◌, if◌then◌else◌, arith, get_or-set_self, get_or-set_ne, get_or-append_padding, take-all,
  length-resize, get_or-length, Bool-cases, tests,
}
use metamath_knife.BitSet.{
  Bitset, words, or_at, grow, set_bit, has_bit, new, replace_bit, or_words, or_tail, bitor_assign,
}
use metamath_knife.BitSet.Digits.{
  digit, digit-lowest, digit-lt, digit-zero, digit-or, digit-pow, or-zero, zero-and, and-pow,
  and_lowest,
}

-- The word that holds the digits from `64 * k` on; words that were never allocated are 0.
pub word_at : Bitset → ℕ → ℕ
word_at s zero = s.head
word_at s (suc k) = get_or (words s.tail) k 0

pub word_at-zero : (s : Bitset) → word_at s 0 ≡ s.head
unfolding word_at
word_at-zero s = refl

pub word_at-suc : (s : Bitset) (k : ℕ) → word_at s (suc k) ≡ get_or (words s.tail) k 0
unfolding word_at
word_at-suc s k = refl

pub and_sixty_three : (a : ℕ) → bit_and a 63 ≡ a % 64
and_sixty_three a = omega (
  arith,
  and_lowest a 63,
  and_lowest (a / 2) 31,
  and_lowest (a / 2 / 2) 15,
  and_lowest (a / 2 / 2 / 2) 7,
  and_lowest (a / 2 / 2 / 2 / 2) 3,
  and-pow (a / 2 / 2 / 2 / 2 / 2) 0,
  digit-lowest (a / 2 / 2 / 2 / 2 / 2),
)

mask_nonzero : (w i : ℕ) → not (bit_and w (2 ^ i) == 0) ≡ (digit i w == 1)
mask_nonzero w i = elim (two_values (digit i w) (digit-lt i w)) [
  | inl off ↦ ground (arith, and-pow w i, off)
  | inr on ↦ ground (arith, and-pow w i, on, one-le-pow i 2)
]
  where
    two_values : (d : ℕ) → d < 2 → (d ≡ 0) ⊎ (d ≡ 1)
    two_values d h = grind arith

get_or-resize : (ws : List ℕ) (n i : ℕ) → length ws ≤ n → get_or (resize ws n 0) i 0 ≡ get_or ws i 0
get_or-resize ws n i h = rw (take-all n ws h) (get_or-append_padding ws (n - length ws) i 0)

get_or-grow : (ws : List ℕ) (k i : ℕ) → get_or (grow ws k) i 0 ≡ get_or ws i 0
get_or-grow ws k i = elim (Bool-cases (leb (length ws) k)) [
  | inl short ↦ rw short (get_or-resize ws (k + 1) i (ground arith))
  | inr long ↦ rw long
]

length-grow : (ws : List ℕ) (k : ℕ) → k < length (grow ws k)
length-grow ws k = elim (Bool-cases (leb (length ws) k)) [
  | inl short ↦ rw short (omega (arith, length-resize ws (k + 1) 0))
  | inr long ↦ rw long (ground arith)
]

get_or-or_at :
    (ws : List ℕ) (k i m : ℕ)
    → get_or (or_at (grow ws k) k m) i 0
      ≡ (if i == k then bit_or (get_or ws i 0) m else get_or ws i 0)
get_or-or_at ws k i m = ground (
  arith,
  get_or-set_self (grow ws k) k (bit_or (get_or (grow ws k) k 0) m) 0,
  get_or-set_ne (grow ws k) k i (bit_or (get_or (grow ws k) k 0) m) 0,
  get_or-grow ws k i,
  get_or-grow ws k k,
  length-grow ws k,
)

div_of_low : (bit : ℕ) → ltb bit 64 ≡ true → bit / 64 ≡ 0
div_of_low bit h = omega tests

mod_of_low : (bit : ℕ) → ltb bit 64 ≡ true → bit % 64 ≡ bit
mod_of_low bit h = omega tests

div_of_high : (bit : ℕ) → ltb bit 64 ≡ false → bit / 64 ≡ suc (bit / 64 - 1)
div_of_high bit h = ground arith

-- The words after `set_bit`.
word_at-set_bit :
    (s : Bitset) (bit k : ℕ)
    → word_at (set_bit s bit) k
      ≡ (if k == bit / 64 then bit_or (word_at s k) (2 ^ (bit % 64)) else word_at s k)
unfolding word_at set_bit
word_at-set_bit s bit zero = elim (Bool-cases (ltb bit 64)) [
  | inl low ↦ rw low (ground (arith, mod_of_low bit low, div_of_low bit low))
  | inr high ↦ rw high (ground (arith, div_of_high bit high))
]
word_at-set_bit s bit (suc k) = elim (Bool-cases (ltb bit 64)) [
  | inl low ↦ rw low (ground (arith, div_of_low bit low))
  | inr high ↦
      rw (high, and_sixty_three)
        (ground (
          arith,
          div_of_high bit high,
          get_or-or_at (words s.tail) (bit / 64 - 1) k (2 ^ (bit % 64)),
        ))
]

-- A bit is in the set when its digit of its word is 1.
pub has_bit-eq-digit :
    (s : Bitset) (bit : ℕ) → has_bit s bit ≡ (digit (bit % 64) (word_at s (bit / 64)) == 1)
unfolding word_at has_bit
has_bit-eq-digit s bit = elim (Bool-cases (ltb bit 64)) [
  | inl low ↦ rw (low, mod_of_low bit low, div_of_low bit low, mask_nonzero) refl
  | inr high ↦
      rw (high, and_sixty_three, mask_nonzero, div_of_high bit high)
        (ground (arith, get_or-length (words s.tail) (bit / 64 - 1) 0, digit-zero (bit % 64)))
]

same_place : (a b : ℕ) → a / 64 ≡ b / 64 → a % 64 ≡ b % 64 → a ≡ b
same_place a b p q = omega arith

digit_set : (i j w : ℕ) → (digit i (bit_or w (2 ^ j)) == 1) ≡ (i == j || (digit i w == 1))
digit_set i j w = ground (arith, digit-or i w (2 ^ j), digit-pow i j, digit-lt i w)

-- After `set_bit` the set has the new bit and the bits that it had, and no other.
pub has_bit-set_bit :
    (s : Bitset) (bit other : ℕ) → has_bit (set_bit s bit) other ≡ (other == bit || has_bit s other)
has_bit-set_bit s bit other =
    rw (has_bit-eq-digit, has_bit-eq-digit, word_at-set_bit)
      (ground
        (arith, digit_set (other % 64) (bit % 64) (word_at s (other / 64)), same_place other bit))

-- `replace_bit` is `has_bit` and `set_bit` in one pass.
pub replace_bit_lem : (s : Bitset) (bit : ℕ) → replace_bit s bit ≡ (set_bit s bit, has_bit s bit)
unfolding replace_bit set_bit has_bit
replace_bit_lem s bit = elim (Bool-cases (ltb bit 64)) [
  | inl low ↦ rw low refl
  | inr high ↦ rw high (ground arith)
]

get_or-or_words :
    (ws rs : List ℕ) (i : ℕ)
    → length rs ≤ length ws
    → get_or (or_words ws rs) i 0 ≡ bit_or (get_or ws i 0) (get_or rs i 0)
unfolding or_words
get_or-or_words [] [] i h = refl
get_or-or_words [] (r ∷ rs) i h = absurd (omega arith)
get_or-or_words (w ∷ ws) [] i h = sym (or-zero (get_or (w ∷ ws) i 0))
get_or-or_words (w ∷ ws) (r ∷ rs) zero h = refl
get_or-or_words (w ∷ ws) (r ∷ rs) (suc i) h = get_or-or_words ws rs i (omega arith)

get_or-or_tail :
    (tail rtail : Option (List ℕ)) (i : ℕ)
    → get_or (words (or_tail tail rtail)) i 0
      ≡ bit_or (get_or (words tail) i 0) (get_or (words rtail) i 0)
unfolding or_tail
get_or-or_tail tail none i = sym (or-zero (get_or (words tail) i 0))
get_or-or_tail tail (some rs) i = elim (Bool-cases (ltb (length (words tail)) (length rs))) [
  | inl short ↦ rw (
    short,
    get_or-or_words (resize (words tail) (length rs) 0) rs i
        (omega (arith, length-resize (words tail) (length rs) 0)),
    get_or-resize (words tail) (length rs) i (ground arith),
  )
  | inr long ↦ rw (long, get_or-or_words (words tail) rs i (ground arith))
]

word_at-bitor_assign :
    (s rhs : Bitset) (k : ℕ) → word_at (bitor_assign s rhs) k ≡ bit_or (word_at s k) (word_at rhs k)
unfolding word_at bitor_assign
word_at-bitor_assign s rhs zero = refl
word_at-bitor_assign s rhs (suc k) = get_or-or_tail s.tail rhs.tail k

-- `|=` is the union.
pub has_bit-bitor_assign :
    (s rhs : Bitset) (bit : ℕ)
    → has_bit (bitor_assign s rhs) bit ≡ (has_bit s bit || has_bit rhs bit)
has_bit-bitor_assign s rhs bit =
    rw (has_bit-eq-digit, has_bit-eq-digit, has_bit-eq-digit, word_at-bitor_assign)
      (ground (
        arith,
        digit-or (bit % 64) (word_at s (bit / 64)) (word_at rhs (bit / 64)),
        digit-lt (bit % 64) (word_at s (bit / 64)),
        digit-lt (bit % 64) (word_at rhs (bit / 64)),
      ))

pub has_bit-new : (bit : ℕ) → has_bit new bit ≡ false
unfolding has_bit
has_bit-new bit = ground (arith, zero-and (2 ^ bit))
