-- ===== src/BitSet.antt =====
-- src/bit_set.rs: a set of small numbers as a word of 64 bits and a lazily allocated tail of
-- further words. `usize` has 64 bits.
mod Digits
pub mod Laws
pub mod Iter
pub mod Words
mod Tests
use metamath_knife.Base.{
  ℕ, zero, suc, ◌+◌, ◌-◌, ◌/◌, ◌%◌, ◌^◌, bit_and, bit_or, Bool, false, true, not, ◌&&◌, Option,
  none, some, List, [], ◌∷◌, length, get_or, set, resize, ltb, leb, ◌==◌, if◌then◌else◌,
}

pub record Bitset : Type 0 where
  pub head : ℕ
  pub tail : Option (List ℕ)

abbrev pub bits_per_word : ℕ
bits_per_word = 64

abbrev pub new : Bitset
new = record { head = 0; tail = none }

-- `tail` and the vector that `tail_mut` lends are the same words; `tail_mut` also allocates.
abbrev pub words : Option (List ℕ) → List ℕ
words none = []
words (some ws) = ws

-- `word[i] |= mask`
abbrev pub or_at : List ℕ → ℕ → ℕ → List ℕ
or_at ws i mask = set ws i (bit_or (get_or ws i 0) mask)

abbrev pub grow : List ℕ → ℕ → List ℕ
grow ws word = if leb (length ws) word then resize ws (word + 1) 0 else ws

unfoldable pub set_bit : Bitset → ℕ → Bitset
set_bit s bit =
    if ltb bit bits_per_word
    then record s { head = bit_or s.head (2 ^ bit) }
    else let word = bit / bits_per_word - 1 in
      record s {
        tail = some (or_at (grow (words s.tail) word) word (2 ^ bit_and bit (bits_per_word - 1)));
      }

unfoldable pub has_bit : Bitset → ℕ → Bool
has_bit s bit =
    if ltb bit bits_per_word
    then not (bit_and s.head (2 ^ bit) == 0)
    else let word = bit / bits_per_word - 1 in
      ltb word (length (words s.tail))
      && not (bit_and (get_or (words s.tail) word 0) (2 ^ bit_and bit (bits_per_word - 1)) == 0)

unfoldable pub replace_bit : Bitset → ℕ → Bitset × Bool
replace_bit s bit =
    if ltb bit bits_per_word
    then (record s { head = bit_or s.head (2 ^ bit) }, not (bit_and s.head (2 ^ bit) == 0))
    else let word = bit / bits_per_word - 1 in
      let mask = 2 ^ bit_and bit (bits_per_word - 1) in
      let tail = words s.tail in
      let old =
        if leb (length tail) word then false else not (bit_and (get_or tail word 0) mask == 0) in
      (record s { tail = some (or_at (grow tail word) word mask) }, old)

-- `for i in 0..rtail.len() { stail[i] |= rtail[i]; }`, the words left of the right side.
or_words : List ℕ → List ℕ → List ℕ
or_words [] rs = []
or_words (w ∷ ws) [] = w ∷ ws
or_words (w ∷ ws) (r ∷ rs) = bit_or w r ∷ or_words ws rs

or_tail : Option (List ℕ) → Option (List ℕ) → Option (List ℕ)
unfolding or_words
or_tail tail none = tail
or_tail tail (some rs) =
    let ws = words tail in
    some (or_words (if ltb (length ws) (length rs) then resize ws (length rs) 0 else ws) rs)

-- `self |= rhs`
unfoldable pub bitor_assign : Bitset → Bitset → Bitset
unfolding or_tail
bitor_assign s rhs = record { head = bit_or s.head rhs.head; tail = or_tail s.tail rhs.tail }

-- `usize::trailing_zeros`, on the digits left to look at.
unfoldable pub low_zeros : ℕ → ℕ → ℕ
low_zeros zero w = 0
low_zeros (suc left) w = if w % 2 == 1 then 0 else suc (low_zeros left (w / 2))

pub record BitsetIter : Type 0 where
  pub bits : ℕ
  pub offset : ℕ
  pub buffer : List ℕ

abbrev pub into_iter : Bitset → BitsetIter
into_iter s = record { bits = s.head; offset = 0; buffer = words s.tail }

take_lowest : ℕ → ℕ → List ℕ → Option ℕ × BitsetIter
unfolding low_zeros
take_lowest bits offset buffer = (
  some (low_zeros bits_per_word bits + offset),
  record { bits = bit_and bits (bits - 1); offset = offset; buffer = buffer },
)

next_from : ℕ → ℕ → List ℕ → Option ℕ × BitsetIter
unfolding take_lowest
next_from bits offset [] =
    if bits == 0
    then (none, record { bits = bits; offset = offset + bits_per_word; buffer = [] })
    else take_lowest bits offset []
next_from bits offset (w ∷ ws) =
    if bits == 0 then next_from w (offset + bits_per_word) ws else take_lowest bits offset (w ∷ ws)

-- `BitsetIter::next`
unfoldable pub next : BitsetIter → Option ℕ × BitsetIter
unfolding next_from
next it = next_from it.bits it.offset it.buffer

sum : List ℕ → ℕ
sum [] = 0
sum (w ∷ ws) = w + sum ws

-- A `for` loop over a set: the numbers that `next` returns until it returns `None`. Each round
-- takes a digit out of a word, so the sum of the words is fuel enough.
pub collect : ℕ → BitsetIter → List ℕ
collect zero it = []
collect (suc fuel) it =
    let (item, it') = next it in elim item [ none ↦ [] | some x ↦ x ∷ collect fuel it' ]

unfoldable pub elements : Bitset → List ℕ
unfolding collect sum next
elements s = collect (s.head + sum (words s.tail) + 1) (into_iter s)
