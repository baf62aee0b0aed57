-- ===== src/SegmentOrder.antt =====
-- src/parser.rs: `SegmentOrder`, the identifiers of segments in the order of the database.
pub mod Order
mod Tests
use Prim.Native.Nat.{compare, Ordering}
use metamath_knife.Base.{
  ℕ, zero, suc, ◌+◌, ◌-◌, ◌^◌, Bool, true, false, Option, none, some, List, [], ◌∷◌, ◌++◌, length,
  get_elem?, set, take, drop, replicate, ltb, leb, ◌==◌, if◌then◌else◌,
}
use metamath_knife.Address.{StatementAddress, TokenAddress}
use metamath_knife.Diag.{Outcome, ok, panic, or_panic, assert, ◌>>=◌, ◌>>◌}

-- A `SegmentId` is its number.
pub record SegmentOrder : Type 0 where
  pub high_water : ℕ
  pub order : List ℕ
  pub reverse : List ℕ

abbrev pub new : SegmentOrder
new = record { high_water = 2; order = 1 ∷ []; reverse = 0 ∷ 0 ∷ [] }

abbrev pub start : ℕ
start = 1

-- `for (ordinal, &id) in self.order.iter().enumerate()`, the identifiers left.
unfoldable pub number : List ℕ → ℕ → List ℕ → Outcome (List ℕ)
number reverse ordinal [] = ok reverse
number reverse ordinal (id ∷ ids) =
    let rest = number (set reverse id ordinal) (suc ordinal) ids in
    if ltb id (length reverse) then rest else panic

unfoldable pub reindex : SegmentOrder → Outcome SegmentOrder
unfolding number
reindex s = do
  reverse ← number (replicate s.high_water 0) 0 s.order
  ok (record s { reverse = reverse })

-- `Vec::remove` and `Vec::insert`, which panic out of range.
abbrev pub remove_at : List ℕ → ℕ → Outcome (List ℕ)
remove_at xs i = if ltb i (length xs) then ok (take i xs ++ drop (i + 1) xs) else panic

abbrev pub insert_at : List ℕ → ℕ → ℕ → Outcome (List ℕ)
insert_at xs i x = if leb i (length xs) then ok (take i xs ++ x ∷ drop i xs) else panic

unfoldable pub free_id : SegmentOrder → ℕ → Outcome SegmentOrder
unfolding reindex
free_id s id = do
  at ← or_panic (get_elem? s.reverse id)
  order ← remove_at s.order at
  reindex (record s { order = order })

unfoldable pub new_before : SegmentOrder → ℕ → Outcome (SegmentOrder × ℕ)
unfolding reindex
new_before s after = do
  let id = s.high_water
  assert (ltb id (2 ^ 32 - 1))
  at ← or_panic (get_elem? s.reverse after)
  order ← insert_at s.order at id
  s' ← reindex (record s { high_water = id + 1; order = order })
  ok (s', id)

-- The three instances of `Comparer`.
unfoldable pub cmp : SegmentOrder → ℕ → ℕ → Outcome Ordering
cmp s left right = do
  l ← or_panic (get_elem? s.reverse left)
  r ← or_panic (get_elem? s.reverse right)
  ok (compare l r)

-- `(order, left).cmp(&(Ordering::Equal, right))`
abbrev pub then_by : Ordering → Ordering → Ordering
then_by Ordering.eq order = order
then_by Ordering.lt order = Ordering.lt
then_by Ordering.gt order = Ordering.gt

unfoldable pub cmp_statement : SegmentOrder → StatementAddress → StatementAddress → Outcome Ordering
unfolding cmp
cmp_statement s left right = do
  order ← cmp s left.segment_id right.segment_id
  ok (then_by order (compare left.index right.index))

unfoldable pub cmp_token : SegmentOrder → TokenAddress → TokenAddress → Outcome Ordering
unfolding cmp_statement
cmp_token s left right = do
  order ← cmp_statement s left.statement right.statement
  ok (then_by order (compare left.token_index right.token_index))
