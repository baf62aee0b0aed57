-- ===== src/BitSet/Tests.antt =====
-- src/bit_set.rs: the laws of the sets on a set with one member in each word.
use metamath_knife.Base.{◌||◌, ◌≡◌, contains, ◌==◌}
use metamath_knife.BitSet.{Bitset, new, set_bit, has_bit, replace_bit, bitor_assign, elements}
use metamath_knife.BitSet.Laws.{has_bit-set_bit, replace_bit_lem, has_bit-bitor_assign}
use metamath_knife.BitSet.Iter.{IsBitset, contains-elements}
use metamath_knife.BitSet.Words.{new-IsBitset, set_bit-IsBitset}

abbrev two_words : Bitset
two_words = set_bit (set_bit new 5) 70

two_words-IsBitset : IsBitset two_words
two_words-IsBitset = set_bit-IsBitset (set_bit new 5) 70 (set_bit-IsBitset new 5 new-IsBitset)

has_bit-set_bit_example : has_bit (set_bit two_words 64) 70 ≡ (70 == 64 || has_bit two_words 70)
has_bit-set_bit_example = has_bit-set_bit two_words 64 70

replace_bit_example : replace_bit two_words 70 ≡ (set_bit two_words 70, has_bit two_words 70)
replace_bit_example = replace_bit_lem two_words 70

has_bit-bitor_assign_example :
    has_bit (bitor_assign (set_bit new 3) two_words) 70
    ≡ (has_bit (set_bit new 3) 70 || has_bit two_words 70)
has_bit-bitor_assign_example = has_bit-bitor_assign (set_bit new 3) two_words 70

contains-elements_example : contains (elements two_words) 70 ≡ has_bit two_words 70
contains-elements_example = contains-elements two_words 70 two_words-IsBitset
