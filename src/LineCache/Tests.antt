-- ===== src/LineCache/Tests.antt =====
-- src/line_cache.rs: the lines of a buffer of two lines.
use metamath_knife.Base.{ℕ, replicate, List, [], ◌∷◌, ◌≡◌, refl, arith}
use metamath_knife.Diag.{ok}
use metamath_knife.LineCache.{newline, newlines, make_index, line_to_offset}
use metamath_knife.LineCache.Offsets.{IsLineStart, line_to_offset_lem}
use metamath_knife.LineCache.Index.{IsIndex, make_index-IsIndex}

abbrev two_lines : List ℕ
two_lines = b'a' ∷ newline ∷ b'b' ∷ []

-- A page of empty lines, and more.
abbrev empty_lines : List ℕ
empty_lines = replicate 300 newline

make_index_example :
    (index : List ℕ) × (make_index empty_lines ≡ ok index) × IsIndex empty_lines index
make_index_example = make_index-IsIndex empty_lines (omega arith)

line_to_offset_example :
    (offset : ℕ) × (line_to_offset two_lines (0 ∷ []) 1 ≡ ok offset)
    × IsLineStart two_lines 1 offset
unfolding make_index newlines
line_to_offset_example = line_to_offset_lem two_lines (0 ∷ []) 1 refl (omega arith)
