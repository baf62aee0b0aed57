-- ===== src/BitSet/Words.antt =====
-- src/bit_set.rs: every word of a set stays a `usize`.
use native.Mathlib.Nat.{pow-suc, one-le-pow}
use metamath_knife.Base.{
  ℕ, zero, suc, ◌+◌, ◌-◌, ◌/◌, ◌%◌, ◌^◌, ◌<◌, List, [], ◌∷◌, ◌++◌, Option, none, some, length,
  get_or, set, take, replicate, resize, ltb, leb, arith, Bool-cases, inl, inr, tests,
}
use metamath_knife.BitSet.{Bitset, new, words, grow, set_bit, or_words, or_tail, bitor_assign}
use metamath_knife.BitSet.Digits.{or-lt_pow}
use metamath_knife.BitSet.Laws.{and_sixty_three}
use metamath_knife.BitSet.Iter.{AreWords, IsBitset}

two_pow_lt : (i k : ℕ) → i < k → 2 ^ i < 2 ^ k
two_pow_lt i zero h = absurd (omega arith)
two_pow_lt zero (suc k) h = omega (arith, pow-suc 2 k, one-le-pow k 2)
two_pow_lt (suc i) (suc k) h = omega (arith, pow-suc 2 k, pow-suc 2 i, two_pow_lt i k (omega arith))

get_or-lt : (ws : List ℕ) (i : ℕ) → AreWords ws → get_or ws i 0 < 2 ^ 64
get_or-lt [] i h = omega arith
get_or-lt (w ∷ ws) zero h = h.0
get_or-lt (w ∷ ws) (suc i) h = get_or-lt ws i h.1

set-AreWords : (ws : List ℕ) (i v : ℕ) → AreWords ws → v < 2 ^ 64 → AreWords (set ws i v)
set-AreWords [] i v h k = tt
set-AreWords (w ∷ ws) zero v h k = (k, h.1)
set-AreWords (w ∷ ws) (suc i) v h k = (h.0, set-AreWords ws i v h.1 k)

take-AreWords : (n : ℕ) (ws : List ℕ) → AreWords ws → AreWords (take n ws)
take-AreWords zero ws h = tt
take-AreWords (suc n) [] h = tt
take-AreWords (suc n) (w ∷ ws) h = (h.0, take-AreWords n ws h.1)

pad-AreWords : (n : ℕ) (ws : List ℕ) → AreWords ws → AreWords (ws ++ replicate n 0)
pad-AreWords zero [] h = tt
pad-AreWords (suc n) [] h = (omega arith, pad-AreWords n [] tt)
pad-AreWords n (w ∷ ws) h = (h.0, pad-AreWords n ws h.1)

resize-AreWords : (ws : List ℕ) (n : ℕ) → AreWords ws → AreWords (resize ws n 0)
resize-AreWords ws n h = pad-AreWords (n - length ws) (take n ws) (take-AreWords n ws h)

grow-AreWords : (ws : List ℕ) (k : ℕ) → AreWords ws → AreWords (grow ws k)
grow-AreWords ws k h = elim (Bool-cases (leb (length ws) k)) [
  | inl short ↦ rw short (resize-AreWords ws (k + 1) h)
  | inr long ↦ rw long h
]

or_words-AreWords : (ws rs : List ℕ) → AreWords ws → AreWords rs → AreWords (or_words ws rs)
unfolding or_words
or_words-AreWords [] rs h k = tt
or_words-AreWords (w ∷ ws) [] h k = h
or_words-AreWords (w ∷ ws) (r ∷ rs) h k =
    (or-lt_pow 64 w r h.0 k.0, or_words-AreWords ws rs h.1 k.1)

pub new-IsBitset : IsBitset new
new-IsBitset = (omega arith, tt)

-- `set_bit` writes only words of 64 bits.
pub set_bit-IsBitset : (s : Bitset) (bit : ℕ) → IsBitset s → IsBitset (set_bit s bit)
unfolding set_bit
set_bit-IsBitset s bit h = elim (Bool-cases (ltb bit 64)) [
  | inl low ↦ rw low (or-lt_pow 64 s.head (2 ^ bit) h.0 (two_pow_lt bit 64 (omega tests)), h.1)
  | inr high ↦
      rw (high, and_sixty_three)
        (
          h.0,
          set-AreWords (grow (words s.tail) (bit / 64 - 1)) (bit / 64 - 1) _
              (grow-AreWords (words s.tail) (bit / 64 - 1) h.1)
              (or-lt_pow 64 _ (2 ^ (bit % 64))
                (get_or-lt (grow (words s.tail) (bit / 64 - 1)) (bit / 64 - 1)
                  (grow-AreWords (words s.tail) (bit / 64 - 1) h.1))
                (two_pow_lt (bit % 64) 64 (omega arith))),
        )
]

or_tail-AreWords :
    (tail rtail : Option (List ℕ))
    → AreWords (words tail)
    → AreWords (words rtail)
    → AreWords (words (or_tail tail rtail))
unfolding or_tail
or_tail-AreWords tail none h k = h
or_tail-AreWords tail (some rs) h k = elim (Bool-cases (ltb (length (words tail)) (length rs))) [
  | inl short ↦ rw short (
      or_words-AreWords (resize (words tail) (length rs) 0) rs
        (resize-AreWords (words tail) (length rs) h) k)
  | inr long ↦ rw long (or_words-AreWords (words tail) rs h k)
]

-- The union of two sets of 64-bit words is a set of 64-bit words.
pub bitor_assign-IsBitset :
    (s rhs : Bitset) → IsBitset s → IsBitset rhs → IsBitset (bitor_assign s rhs)
unfolding bitor_assign
bitor_assign-IsBitset s rhs h k =
    (or-lt_pow 64 s.head rhs.head h.0 k.0, or_tail-AreWords s.tail rhs.tail h.1 k.1)
