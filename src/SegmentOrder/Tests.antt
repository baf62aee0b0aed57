-- ===== src/SegmentOrder/Tests.antt =====
-- src/parser.rs: an identifier is put before the start of a new order.
use Prim.Native.Nat.{compare, Ordering}
use metamath_knife.Base.{ℕ, zero, suc, [], ◌∷◌, some, get_elem?, ◌≡◌, refl, arith}
use metamath_knife.Diag.{ok}
use metamath_knife.SegmentOrder.{SegmentOrder, new, start, new_before, cmp}
use metamath_knife.SegmentOrder.Order.{
  IsIndexed, inserted, new_before_lem, new_before-cmp, cmp-places,
}

new-IsIndexed : IsIndexed new
new-IsIndexed = record { below = (omega arith, tt); distinct = (refl, tt); places = placed }
  where
    placed : (i id : ℕ) → get_elem? (1 ∷ []) i ≡ some id → get_elem? (0 ∷ 0 ∷ []) id ≡ some i
    placed zero id h = cc
    placed (suc i) id h = cc

new_before_example :
    (s' : SegmentOrder) × (new_before new start ≡ ok (s', 2))
    × IsIndexed s'
    × (s'.order ≡ inserted (1 ∷ []) 0 2)
new_before_example = new_before_lem new 0 start new-IsIndexed refl (omega arith)

abbrev one_segment : SegmentOrder
one_segment = record { high_water = 3; order = 2 ∷ 1 ∷ []; reverse = 0 ∷ 1 ∷ 0 ∷ [] }

new_before-cmp_example :
    (cmp one_segment 2 start ≡ ok Ordering.lt) × (cmp one_segment 1 1 ≡ cmp new 1 1)
unfolding new_before
new_before-cmp_example =
    new_before-cmp new one_segment 0 start 0 0 1 1 new-IsIndexed refl (omega arith) refl refl refl

cmp-places_example : cmp new 1 1 ≡ ok (compare 0 0)
cmp-places_example = cmp-places new 0 0 1 1 new-IsIndexed refl refl
