-- ===== src/LineCache.antt =====
-- src/line_cache.rs: byte offsets and line numbers, by the number of newlines before every page.
pub mod Index
pub mod Offsets
mod Tests
use metamath_knife.Base.{
  ℕ, zero, suc, ◌+◌, ◌-◌, ◌*◌, ◌/◌, ◌%◌, ◌^◌, Bool, true, false, ◌&&◌, Option, none, some, List, [],
  ◌∷◌, ◌++◌, length, get_elem?, take, drop, ltb, leb, ◌==◌, if◌then◌else◌, slice,
}
use metamath_knife.Base.Map
use metamath_knife.Diag.{Outcome, ok, panic, or_panic, assert, ◌>>=◌, ◌>>◌}

abbrev pub page : ℕ
page = 256

abbrev pub newline : ℕ
newline = 10

-- The newlines of a slice: the loop over the bytes between a page and an offset.
unfoldable pub newlines : List ℕ → ℕ
newlines [] = 0
newlines (ch ∷ chs) = if ch == newline then suc (newlines chs) else newlines chs

-- `inner`, an `i8` that counts down from 0, by its distance from 0. It overflows past -128, which is a
-- panic.
unfoldable pub count_down : ℕ → List ℕ → Outcome ℕ
count_down inner [] = ok inner
count_down inner (ch ∷ chs) = do
  let inner' = inner + (if ch == newline then 1 else 0)
  assert (leb inner' 128)
  count_down inner' chs

-- `(inner as u8).wrapping_neg() as u32`: the two's complement of `inner` in 8 bits, negated in them.
abbrev pub negated : ℕ → ℕ
negated inner = (2 ^ 8 - (2 ^ 8 - inner) % 2 ^ 8) % 2 ^ 8

unfoldable pub block_count : List ℕ → Outcome ℕ
unfolding count_down
block_count block = do inner ← count_down 0 block; ok (negated inner)

-- `page[0..128]` and what is left, twice: a page is two blocks of 128.
unfoldable pub page_count : List ℕ → Outcome ℕ
unfolding block_count
page_count bytes = do
  first ← block_count (take 128 bytes)
  second ← block_count (take 128 (drop 128 bytes))
  ok (first + second)

-- `while buf.len() >= PAGE`, on fuel.
unfoldable pub index_pages : ℕ → List ℕ → ℕ → Outcome (List ℕ)
unfolding page_count
index_pages zero buf count = ok []
index_pages (suc fuel) buf count = elim (leb page (length buf)) [
  | false ↦ ok []
  | true ↦ do
    counted ← page_count (take page buf)
    rest ← index_pages fuel (drop page buf) (count + counted)
    ok ((count + counted) ∷ rest)
]

-- A buffer has at most as many pages as bytes.
unfoldable pub make_index : List ℕ → Outcome (List ℕ)
unfolding index_pages
make_index buf = do
  assert (ltb (length buf) (2 ^ 32 - 1 - 1))
  pages ← index_pages (length buf) buf 0
  ok (0 ∷ pages)

-- `binary_search_by` with a comparison that is never `Equal` fails with the place where the entries
-- stop being less than the line, the entries being in order.
unfoldable pub insertion_point : List ℕ → ℕ → ℕ
insertion_point [] line = 0
insertion_point (ll ∷ lls) line = if ltb ll line then suc (insertion_point lls line) else 0

-- `while at_lineno < line`, over the bytes from `at_pos` on.
unfoldable pub advance : List ℕ → ℕ → ℕ → ℕ → Outcome ℕ
advance [] at_lineno at_pos line = if ltb at_lineno line then panic else ok at_pos
advance (ch ∷ chs) at_lineno at_pos line =
    let rest = advance chs (if ch == newline then at_lineno + 1 else at_lineno) (at_pos + 1) line in
    if ltb at_lineno line then rest else ok at_pos

unfoldable pub line_to_offset : List ℕ → List ℕ → ℕ → Outcome ℕ
unfolding insertion_point advance
line_to_offset buf index line = elim (insertion_point index line) [
  | zero ↦ do assert (line == 0); ok 0
  | suc before ↦ do
    at_lineno ← or_panic (get_elem? index before)
    advance (drop (before * page) buf) at_lineno (before * page) line
]

-- A buffer with its address, which the cache takes for its identity.
pub record Buffer : Type 0 where
  pub address : ℕ
  pub bytes : List ℕ

pub record LineCache : Type 0 where
  pub map : List ((ℕ × ℕ) × List ℕ)

abbrev pub key_eq : ℕ × ℕ → ℕ × ℕ → Bool
key_eq a b = a.0 == b.0 && a.1 == b.1

abbrev pub key : Buffer → ℕ × ℕ
key buf = (buf.address, length buf.bytes)

unfoldable pub get_index : LineCache → Buffer → Outcome (LineCache × List ℕ)
unfolding make_index
get_index cache buf = elim (Map.lookup key_eq (key buf) cache.map) [
  | some index ↦ ok (cache, index)
  | none ↦ do
    index ← make_index buf.bytes
    ok (record { map = Map.insert key_eq (key buf) index cache.map }, index)
]

-- `line - 1` on `u32` is a panic at 0, or a line out of range where it wraps.
unfoldable pub to_offset : LineCache → Buffer → ℕ → Outcome (LineCache × ℕ)
unfolding get_index line_to_offset
to_offset cache buf line = do
  found ← get_index cache buf
  assert (ltb 0 line)
  offset ← line_to_offset buf.bytes found.1 (line - 1)
  ok (found.0, offset)

-- The line and the column of an offset, both from 1.
unfoldable pub from_offset : LineCache → Buffer → ℕ → Outcome (LineCache × (ℕ × ℕ))
unfolding get_index line_to_offset newlines
from_offset cache buf offset = do
  found ← get_index cache buf
  start ← or_panic (get_elem? found.1 (offset / page))
  part ← or_panic (slice buf.bytes (offset / page * page) offset)
  let lineno = start + newlines part
  first ← line_to_offset buf.bytes found.1 lineno
  assert (leb first offset)
  ok (found.0, (lineno + 1, offset - first + 1))

-- `for pos in offset..buf.len()`, over the bytes from `offset` on.
unfoldable pub to_newline : List ℕ → ℕ → ℕ
to_newline [] pos = pos
to_newline (ch ∷ chs) pos = if ch == newline then pos else to_newline chs (pos + 1)

unfoldable pub line_end : List ℕ → ℕ → ℕ
unfolding to_newline
line_end buf offset =
    if leb (length buf) offset then length buf else to_newline (drop offset buf) offset
