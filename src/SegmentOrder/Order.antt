-- ===== src/SegmentOrder/Order.antt =====
-- src/parser.rs: the comparison of segments is their place in the order.
use Prim.Native.Nat.{compare, Ordering}
use metamath_knife.Base.{
  ℕ, zero, suc, ◌+◌, ◌-◌, ◌^◌, ◌<◌, true, false, ◌||◌, some, List, [], ◌∷◌, ◌++◌, length,
  length-set, length-replicate, get_elem?, get_elem?-set_self, get_elem?-set_ne, set, take, drop,
  replicate, ltb, leb, lt→ltb, ◌==◌, if◌then◌else◌, contains, All, ◌≡◌, refl, sym, ap, subst, ◌∙◌,
  arith,
}
use metamath_knife.Diag.{ok, ◌>>=◌}
use metamath_knife.SegmentOrder.{SegmentOrder, number, reindex, new_before, cmp}

abbrev pub IsDistinct : List ℕ → Type 0
IsDistinct [] = Unit
IsDistinct (x ∷ xs) = (contains xs x ≡ false) × IsDistinct xs

abbrev pub AllBelow : ℕ → List ℕ → Type 0
AllBelow n xs = All (λ x. x < n) xs

-- Every identifier of the order is numbered with its place.
pub record IsIndexed (s : SegmentOrder) : Type 0 where
  pub below : AllBelow s.high_water s.order
  pub distinct : IsDistinct s.order
  pub places : (i id : ℕ) → get_elem? s.order i ≡ some id → get_elem? s.reverse id ≡ some i

contains-get_elem? : (xs : List ℕ) (i x : ℕ) → get_elem? xs i ≡ some x → contains xs x ≡ true
contains-get_elem? [] i x h = cc
contains-get_elem? (y ∷ ys) zero x h = ground (arith, h)
contains-get_elem? (y ∷ ys) (suc i) x h = ground (arith, contains-get_elem? ys i x h)

zero_plus : (n : ℕ) → 0 + n ≡ n
zero_plus n = omega arith

plus_zero : (n : ℕ) → n ≡ n + 0
plus_zero n = omega arith

plus_suc : (n i : ℕ) → suc n + i ≡ n + suc i
plus_suc n i = omega arith

get_elem?-lt : (xs : List ℕ) (i x : ℕ) → get_elem? xs i ≡ some x → i < length xs
get_elem?-lt [] i x h = cc
get_elem?-lt (y ∷ ys) zero x h = omega arith
get_elem?-lt (y ∷ ys) (suc i) x h = omega (arith, get_elem?-lt ys i x h)

-- What numbering the rest of the order does.
data Numbers (reverse : List ℕ) (ordinal : ℕ) (ids : List ℕ) : Type 0 where
  numbers :
      (out : List ℕ)
      → number reverse ordinal ids ≡ ok out
      → ((i id : ℕ) → get_elem? ids i ≡ some id → get_elem? out id ≡ some (ordinal + i))
      → ((id : ℕ) → contains ids id ≡ false → get_elem? out id ≡ get_elem? reverse id)
      → Numbers reverse ordinal ids

number_lem :
    (reverse : List ℕ) (ordinal : ℕ) (ids : List ℕ)
    → AllBelow (length reverse) ids
    → IsDistinct ids
    → Numbers reverse ordinal ids
unfolding number
number_lem reverse ordinal [] small distinct = numbers reverse refl (λ i id h. cc) (λ id h. refl)
number_lem reverse ordinal (x ∷ xs) small distinct =
    elim (number_lem (set reverse x ordinal) (suc ordinal) xs
      (subst (λ n. AllBelow n xs) (sym (length-set reverse x ordinal)) small.1) distinct.1) [
        | numbers out runs at others ↦
            numbers out (rw (lt→ltb x (length reverse) small.0) runs)
              (λ i id h. placed i id h out at others)
              (λ id h.
                others id (ground (arith, h))
                ∙ get_elem?-set_ne reverse ordinal (λ e. ground (arith, h, e)))
      ]
  where
    placed :
        (i id : ℕ)
        → get_elem? (x ∷ xs) i ≡ some id
        → (out : List ℕ)
        → ((j k : ℕ) → get_elem? xs j ≡ some k → get_elem? out k ≡ some (suc ordinal + j))
        → ((k : ℕ) → contains xs k ≡ false → get_elem? out k ≡ get_elem? (set reverse x ordinal) k)
        → get_elem? out id ≡ some (ordinal + i)
    placed zero id h out at others =
        let same : x ≡ id = cc in
        subst (λ k. get_elem? out k ≡ some (ordinal + 0)) same
          (others x distinct.0
            ∙ get_elem?-set_self reverse x ordinal small.0
            ∙ ap some (plus_zero ordinal))
    placed (suc i) id h out at others = at i id h ∙ ap some (plus_suc ordinal i)

-- Identifiers that are distinct and have been handed out can be numbered.
reindex_lem :
    (s : SegmentOrder)
    → AllBelow s.high_water s.order
    → IsDistinct s.order
    → (reverse : List ℕ) × (reindex s ≡ ok (record s { reverse = reverse }))
      × IsIndexed (record s { reverse = reverse })
unfolding reindex
reindex_lem s below distinct =
    elim (number_lem (replicate s.high_water 0) 0 s.order
      (subst (λ n. AllBelow n s.order) (sym (length-replicate s.high_water 0)) below) distinct) [
        | numbers out runs at others ↦ (
          out,
          rw runs refl,
          record {
            below = below;
            distinct = distinct;
            places = λ i id h. at i id h ∙ ap some (zero_plus i);
          },
        )
      ]

-- The order with a new identifier at a place.
abbrev pub inserted : List ℕ → ℕ → ℕ → List ℕ
inserted xs i x = take i xs ++ x ∷ drop i xs

contains-inserted :
    (xs : List ℕ) (i x y : ℕ) → contains (inserted xs i x) y ≡ (y == x || contains xs y)
contains-inserted xs zero x y = refl
contains-inserted [] (suc i) x y = refl
contains-inserted (z ∷ zs) (suc i) x y = ground (arith, contains-inserted zs i x y)

inserted-IsDistinct :
    (xs : List ℕ) (i x : ℕ) → contains xs x ≡ false → IsDistinct xs → IsDistinct (inserted xs i x)
inserted-IsDistinct xs zero x h d = (h, d)
inserted-IsDistinct [] (suc i) x h d = (h, tt)
inserted-IsDistinct (z ∷ zs) (suc i) x h d = (
  contains-inserted zs i x z ∙ ground (arith, h, d.0),
  inserted-IsDistinct zs i x (ground (arith, h)) d.1,
)

inserted-AllBelow :
    (n : ℕ) (xs : List ℕ) (i : ℕ) → AllBelow n xs → AllBelow (n + 1) (inserted xs i n)
inserted-AllBelow n xs zero h = (omega arith, raised xs h)
  where
    raised : (ys : List ℕ) → AllBelow n ys → AllBelow (n + 1) ys
    raised [] a = tt
    raised (y ∷ ys) a = (omega (arith, a.0), raised ys a.1)
inserted-AllBelow n [] (suc i) h = (omega arith, tt)
inserted-AllBelow n (z ∷ zs) (suc i) h = (omega (arith, h.0), inserted-AllBelow n zs i h.1)

below_new : (n : ℕ) (xs : List ℕ) → AllBelow n xs → contains xs n ≡ false
below_new n [] h = refl
below_new n (x ∷ xs) h = ground (arith, h.0, below_new n xs h.1)

within_bound : (i n : ℕ) → i < n → leb i n ≡ true
within_bound i n h = ground (arith, h)

-- While identifiers are left, `new_before` hands out one that was never used, puts it right before
-- the segment named, and renumbers the order.
pub new_before_lem :
    (s : SegmentOrder) (i after : ℕ)
    → IsIndexed s
    → get_elem? s.order i ≡ some after
    → s.high_water < 2 ^ 32 - 1
    → (s' : SegmentOrder) × (new_before s after ≡ ok (s', s.high_water))
      × IsIndexed s'
      × (s'.order ≡ inserted s.order i s.high_water)
unfolding new_before
new_before_lem s i after h at room =
    let next : SegmentOrder = record s {
      high_water = s.high_water + 1;
      order = inserted s.order i s.high_water;
    } in
    let (reverse, runs, indexed) =
      reindex_lem next (inserted-AllBelow s.high_water s.order i h.below) (
        inserted-IsDistinct s.order i s.high_water (below_new s.high_water s.order h.below)
          h.distinct) in
    let placed : get_elem? s.reverse after ≡ some i = h.places i after at in
    let inside = get_elem?-lt s.order i after at in
    (
      record next { reverse = reverse },
      rw (lt→ltb s.high_water (2 ^ 32 - 1) room, placed, within_bound i (length s.order) inside)
          (ap (λ m. m >>= λ s'. ok (s', s.high_water)) runs),
      indexed,
      refl,
    )

-- Two segments of the order compare as their places do.
pub cmp-places :
    (s : SegmentOrder) (i j left right : ℕ)
    → IsIndexed s
    → get_elem? s.order i ≡ some left
    → get_elem? s.order j ≡ some right
    → cmp s left right ≡ ok (compare i j)
unfolding cmp
cmp-places s i j left right h at_i at_j =
    let l = h.places i left at_i in let r = h.places j right at_j in rw (l, r) refl

-- The place of an old identifier after an insertion.
abbrev shifted : ℕ → ℕ → ℕ
shifted i j = if ltb j i then j else suc j

shifted_behind : (j : ℕ) → shifted 0 j ≡ suc j
shifted_behind j = ground arith

shifted_front : (i : ℕ) → shifted (suc i) 0 ≡ 0
shifted_front i = ground arith

shifted-suc : (i j : ℕ) → shifted (suc i) (suc j) ≡ suc (shifted i j)
shifted-suc i j = ground arith

get_elem?-inserted_self :
    (xs : List ℕ) (i x : ℕ) → i < length xs → get_elem? (inserted xs i x) i ≡ some x
get_elem?-inserted_self [] i x h = absurd (omega arith)
get_elem?-inserted_self (y ∷ ys) zero x h = refl
get_elem?-inserted_self (y ∷ ys) (suc i) x h = get_elem?-inserted_self ys i x (omega arith)

get_elem?-inserted :
    (xs : List ℕ) (i j x a : ℕ)
    → get_elem? xs j ≡ some a
    → get_elem? (inserted xs i x) (shifted i j) ≡ some a
get_elem?-inserted [] i j x a h = cc
get_elem?-inserted (y ∷ ys) zero j x a h = rw (shifted_behind j) h
get_elem?-inserted (y ∷ ys) (suc i) zero x a h = rw (shifted_front i) h
get_elem?-inserted (y ∷ ys) (suc i) (suc j) x a h =
    rw (shifted-suc i j) (get_elem?-inserted ys i j x a h)

compare-shifted : (i j k : ℕ) → compare (shifted i j) (shifted i k) ≡ compare j k
compare-shifted i j k = ground arith

shifted_less : (i : ℕ) → compare i (shifted i i) ≡ Ordering.lt
shifted_less i = ground arith

-- A new identifier compares as less than the one that it was put before, and the identifiers that
-- were there compare as they did.
pub new_before-cmp :
    (s s' : SegmentOrder) (i after j k left right : ℕ)
    → IsIndexed s
    → get_elem? s.order i ≡ some after
    → s.high_water < 2 ^ 32 - 1
    → new_before s after ≡ ok (s', s.high_water)
    → get_elem? s.order j ≡ some left
    → get_elem? s.order k ≡ some right
    → (cmp s' s.high_water after ≡ ok Ordering.lt) × (cmp s' left right ≡ cmp s left right)
new_before-cmp s s' i after j k left right h at room runs at_j at_k =
    let (s1, runs1, indexed, order) = new_before_lem s i after h at room in
    let same : s1 ≡ s' = cc (runs, runs1) in
    let entry : (c a : ℕ)
        → get_elem? s.order c ≡ some a
        → get_elem? s1.order (shifted i c) ≡ some a =
      λ c a e. rw order (get_elem?-inserted s.order i c s.high_water a e) in
    let self : get_elem? s1.order i ≡ some s.high_water =
      rw order (get_elem?-inserted_self s.order i s.high_water (get_elem?-lt s.order i after at)) in
    let before = cmp-places s1 i (shifted i i) s.high_water after indexed self (entry i after at) in
    let kept =
      cmp-places s1 (shifted i j) (shifted i k) left right indexed (entry j left at_j)
        (entry k right at_k) in
    let old = cmp-places s j k left right h at_j at_k in
    subst (λ t. (cmp t s.high_water after ≡ ok Ordering.lt) × (cmp t left right ≡ cmp s left right))
      same (before ∙ ap ok (shifted_less i), kept ∙ ap ok (compare-shifted i j k) ∙ sym old)
