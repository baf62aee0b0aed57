-- ===== src/LineCache/Index.antt =====
-- src/line_cache.rs: the index of a buffer, with the newlines before each whole page.
use metamath_knife.Base.{
  ℕ, zero, suc, ◌+◌, ◌-◌, ◌*◌, ◌^◌, ◌<◌, ◌≤◌, none, some, List, [], ◌∷◌, length, get_elem?, take,
  drop, length-take, length-drop, ltb, leb, leb→le, ◌==◌, ◌≡◌, refl, ap, subst, inl, inr, arith,
  Bool-cases, take-all, true, if◌then◌else◌, ◌∙◌,
}
use metamath_knife.Diag.{ok, assert, bound, >>=-eq-ok}
use metamath_knife.LineCache.{
  page, newline, newlines, negated, count_down, block_count, page_count, index_pages, make_index,
}

newlines-length : (chs : List ℕ) → newlines chs ≤ length chs
unfolding newlines
newlines-length [] = omega arith
newlines-length (ch ∷ chs) = ground (arith, newlines-length chs)

count_down_lem :
    (chs : List ℕ) (inner : ℕ)
    → inner + length chs ≤ 128
    → count_down inner chs ≡ ok (inner + newlines chs)
unfolding count_down newlines
count_down_lem [] inner h = ap ok (omega arith)
count_down_lem (ch ∷ chs) inner h = elim (Bool-cases (ch == newline)) [
  | inl new ↦
      let small : leb (inner + 1) 128 ≡ true = ground (arith, h) in
      rw (new, small) (count_down_lem chs (inner + 1) (omega (arith, h)) ∙ ap ok (omega arith))
  | inr old ↦
      let small : leb (inner + 0) 128 ≡ true = ground (arith, h) in
      rw (old, small) (count_down_lem chs (inner + 0) (omega (arith, h)) ∙ ap ok (omega arith))
]

-- The 8-bit accumulator of a block of at most 128 bytes does not overflow, and counts its newlines.
block_count_lem : (block : List ℕ) → length block ≤ 128 → block_count block ≡ ok (newlines block)
unfolding block_count
block_count_lem block h =
    let same : negated (0 + newlines block) ≡ newlines block =
      omega (arith, h, newlines-length block) in
    rw (count_down_lem block 0 (omega (arith, h))) (ap ok same)

take_nil : (n : ℕ) → take {A = ℕ} n [] ≡ []
take_nil zero = refl
take_nil (suc n) = refl

suc_plus : (a k : ℕ) → suc a + k ≡ suc (a + k)
suc_plus a k = omega arith

-- The newlines up to an offset, counted in two parts.
pub newlines-take :
    (a k : ℕ) (buf : List ℕ)
    → newlines (take (a + k) buf) ≡ newlines (take a buf) + newlines (take k (drop a buf))
unfolding newlines
newlines-take zero k buf = ground arith
newlines-take (suc a) k [] = rw (take_nil (suc a + k), take_nil k) refl
newlines-take (suc a) k (ch ∷ chs) = rw (suc_plus a k) (ground (arith, newlines-take a k chs))

page_count_lem : (bytes : List ℕ) → length bytes ≤ page → page_count bytes ≡ ok (newlines bytes)
unfolding page_count
page_count_lem bytes h =
    let whole : take 256 bytes ≡ bytes = take-all 256 bytes h in
    rw
      (
        block_count_lem (take 128 bytes) (omega (arith, length-take 128 bytes)),
        block_count_lem (take 128 (drop 128 bytes))
            (omega (arith, length-take 128 (drop 128 bytes))),
        ← newlines-take 128 128 bytes,
      )
      (ap (λ bs. ok (newlines bs)) whole)

-- The running totals at the end of each whole page.
totals : ℕ → List ℕ → ℕ → List ℕ
totals zero buf count = []
totals (suc fuel) buf count =
    let rest = totals fuel (drop page buf) (count + newlines (take page buf)) in
    if leb page (length buf) then (count + newlines (take page buf)) ∷ rest else []

-- No page overflows an accumulator.
index_pages_lem :
    (fuel : ℕ) (buf : List ℕ) (count : ℕ) → index_pages fuel buf count ≡ ok (totals fuel buf count)
unfolding index_pages totals
index_pages_lem zero buf count = refl
index_pages_lem (suc fuel) buf count = elim (Bool-cases (leb page (length buf))) [
  | inr short ↦ ground (arith, short)
  | inl full ↦
      let counted = page_count_lem (take page buf) (omega (arith, length-take page buf)) in
      let rest = index_pages_lem fuel (drop page buf) (count + newlines (take page buf)) in
      ground (arith, full, counted, rest)
]

-- The entry of each whole page is there: enough fuel is given.
totals_complete :
    (fuel : ℕ) (buf : List ℕ) (count i : ℕ)
    → length buf ≤ fuel
    → (i + 1) * page ≤ length buf
    → get_elem? (totals fuel buf count) i ≡ some (count + newlines (take ((i + 1) * page) buf))
unfolding totals
totals_complete zero buf count i enough h = absurd (omega (arith, enough, h))
totals_complete (suc fuel) buf count zero enough h =
    let full : leb page (length buf) ≡ true = ground (arith, h) in rw full refl
totals_complete (suc fuel) buf count (suc i) enough h =
    let full : leb page (length buf) ≡ true = ground (arith, h) in
    let rest =
      totals_complete fuel (drop page buf) (count + newlines (take page buf)) i
        (omega (arith, length-drop page buf, enough, h)) (omega (arith, length-drop page buf, h)) in
    let split = newlines-take page ((i + 1) * page) buf in
    let place : (suc i + 1) * page ≡ page + (i + 1) * page = omega arith in
    rw full (rest ∙ ap some (rw place (omega (arith, split))))

-- An entry of the index stands for whole pages, and counts the newlines in them.
totals_sound :
    (fuel : ℕ) (buf : List ℕ) (count i : ℕ) {v : ℕ}
    → get_elem? (totals fuel buf count) i ≡ some v
    → ((i + 1) * page ≤ length buf) × (v ≡ count + newlines (take ((i + 1) * page) buf))
unfolding totals
totals_sound zero buf count i h = cc
totals_sound (suc fuel) buf count i {v} h = elim (Bool-cases (leb page (length buf))) [
  | inr short ↦
      let none_left : get_elem? {A = ℕ} [] i ≡ some v = rw short at h in cc (no_entry i, none_left)
  | inl full ↦
      let enough = leb→le page (length buf) full in
      entry i enough
        (λ j w e. totals_sound fuel (drop page buf) (count + newlines (take page buf)) j e)
        (rw full at h)
]
  where
    no_entry : (k : ℕ) → get_elem? {A = ℕ} [] k ≡ none
    no_entry zero = refl
    no_entry (suc k) = refl

    entry :
        (k : ℕ)
        → page ≤ length buf
        → ((j w : ℕ)
            → get_elem? (totals fuel (drop page buf) (count + newlines (take page buf))) j ≡ some w
            → ((j + 1) * page ≤ length (drop page buf))
              × (w
                  ≡ count
                    + newlines (take page buf)
                    + newlines (take ((j + 1) * page) (drop page buf))))
        → get_elem?
            ((count + newlines (take page buf))
              ∷ totals fuel (drop page buf) (count + newlines (take page buf)))
            k
          ≡ some v
        → ((k + 1) * page ≤ length buf) × (v ≡ count + newlines (take ((k + 1) * page) buf))
    entry zero enough rest e = (enough, cc (e))
    entry (suc k) enough rest e =
        let (inside, counted) = rest k v e in
        let split = newlines-take page ((k + 1) * page) buf in
        let place : (suc k + 1) * page ≡ page + (k + 1) * page = omega arith in
        (omega (arith, length-drop page buf), rw place (omega (arith, split, counted)))

-- The entries are, in their order, the newlines before each multiple of the page size in the buffer.
pub record IsIndex (buf index : List ℕ) : Type 0 where
  pub complete :
      (b : ℕ) → b * page ≤ length buf → get_elem? index b ≡ some (newlines (take (b * page) buf))
  pub inside : (b v : ℕ) → get_elem? index b ≡ some v → b * page ≤ length buf

totals-IsIndex : (buf : List ℕ) → IsIndex buf (0 ∷ totals (length buf) buf 0)
unfolding newlines
totals-IsIndex buf = record { complete = complete; inside = inside }
  where
    complete :
        (b : ℕ)
        → b * page ≤ length buf
        → get_elem? (0 ∷ totals (length buf) buf 0) b ≡ some (newlines (take (b * page) buf))
    complete zero h = refl
    complete (suc b) h =
        let place : (b + 1) * page ≡ suc b * page = omega arith in
        totals_complete (length buf) buf 0 b (omega arith) (omega (arith, h))
        ∙ ap some (omega (arith, ap (λ n. newlines (take n buf)) place))

    inside :
        (b v : ℕ) → get_elem? (0 ∷ totals (length buf) buf 0) b ≡ some v → b * page ≤ length buf
    inside zero v e = omega arith
    inside (suc b) v e = omega (arith, (totals_sound (length buf) buf 0 b e).0)

-- Of a buffer of fewer than 2^32 - 2 bytes, `make_index` returns an index, with no overflow of the 8-bit
-- accumulators and in the fuel given. Its entries are, in their order, the numbers of newlines before each
-- multiple of the page size that lies in the buffer.
pub make_index-IsIndex :
    (buf : List ℕ)
    → length buf < 2 ^ 32 - 2
    → (index : List ℕ) × (make_index buf ≡ ok index) × IsIndex buf index
unfolding make_index
make_index-IsIndex buf small =
    let fits : ltb (length buf) (2 ^ 32 - 1 - 1) ≡ true = ground (arith, small) in
    (
      0 ∷ totals (length buf) buf 0,
      ground (arith, fits, index_pages_lem (length buf) buf 0),
      totals-IsIndex buf,
    )

-- Whatever `make_index` returns is an index.
pub make_index_sound : (buf index : List ℕ) → make_index buf ≡ ok index → IsIndex buf index
unfolding make_index
make_index_sound buf index made =
    elim (>>=-eq-ok (assert (ltb (length buf) (2 ^ 32 - 1 - 1))) _ made) [
      | bound _ _ h ↦ elim (>>=-eq-ok (index_pages (length buf) buf 0) _ h) [
        | bound pages pages_made h1 ↦
            let same : 0 ∷ totals (length buf) buf 0 ≡ index =
              cc (index_pages_lem (length buf) buf 0, pages_made, h1) in
            subst (IsIndex buf) same (totals-IsIndex buf)
      ]
    ]
