-- ===== src/LineCache/Offsets.antt =====
-- src/line_cache.rs: a line is found where it starts.
use metamath_knife.Base.{
  ℕ, zero, suc, ◌+◌, ◌-◌, ◌*◌, ◌<◌, ◌≤◌, some, List, [], ◌∷◌, get_elem?, take, drop, ltb, leb,
  leb→le, ltb→lt, ◌==◌, ◌≡◌, refl, sym, ap, inl, inr, ◌⊎◌, arith, Bool-cases,
}
use metamath_knife.Diag.{ok}
use metamath_knife.LineCache.Index.{newlines-take, IsIndex, make_index_sound}
use metamath_knife.LineCache.{
  page, newline, newlines, make_index, insertion_point, advance, line_to_offset,
}

newlines-drop :
    (a : ℕ) (buf : List ℕ) → newlines buf ≡ newlines (take a buf) + newlines (drop a buf)
unfolding newlines
newlines-drop zero buf = ground arith
newlines-drop (suc a) [] = refl
newlines-drop (suc a) (ch ∷ chs) = ground (arith, newlines-drop a chs)

-- The part of a search that `advance` does: the offset, from the place where it starts.
pub data Found (chs : List ℕ) (n pos line : ℕ) : Type 0 where
  found :
      (k : ℕ)
      → advance chs n pos line ≡ ok (pos + k)
      → n + newlines (take k chs) ≡ line
      → ((j : ℕ) → j < k → n + newlines (take j chs) < line)
      → Found chs n pos line

before_all :
    (ch : ℕ) (chs : List ℕ) (k n n' line : ℕ)
    → n < line
    → ((xs : List ℕ) → n + newlines (ch ∷ xs) ≡ n' + newlines xs)
    → ((j : ℕ) → j < k → n' + newlines (take j chs) < line)
    → (j : ℕ) → j < suc k
    → n + newlines (take j (ch ∷ chs)) < line
before_all ch chs k n n' line lo step first zero h = unfold newlines in omega arith
before_all ch chs k n n' line lo step first (suc j) h =
    rw (step (take j chs)) (first j (omega arith))

pub advance_lem :
    (chs : List ℕ) (n pos line : ℕ) → n ≤ line → line ≤ n + newlines chs → Found chs n pos line
unfolding advance newlines
advance_lem [] n pos line lo hi = found 0 (ground arith) (omega arith) (λ j h. absurd (omega arith))
advance_lem (ch ∷ chs) n pos line lo hi = elim (Bool-cases (ltb n line)) [
  | inr reached ↦
      found 0 (ground (arith, reached)) (ground (arith, reached)) (λ j h. absurd (omega arith))
  | inl before ↦ elim (Bool-cases (ch == newline)) [
    | inl new ↦
        elim (advance_lem chs (n + 1) (pos + 1) line (ground (arith, before))
          (ground (arith, new))) [
            | found k runs there first ↦
                found (suc k) (ground (arith, before, new, runs)) (ground (arith, new, there))
                  (λ j h.
                    before_all ch chs k n (n + 1) line (ltb→lt n line before)
                      (λ xs. ground (arith, new)) first j h)
          ]
    | inr old ↦ elim (advance_lem chs n (pos + 1) line lo (ground (arith, old))) [
      | found k runs there first ↦
          found (suc k) (ground (arith, before, old, runs)) (ground (arith, old, there)) (λ j h.
            before_all ch chs k n n line (ltb→lt n line before) (λ xs. ground (arith, old)) first j
              h)
    ]
  ]
]

insertion_point-less :
    (index : List ℕ) (line b : ℕ)
    → insertion_point index line ≡ suc b
    → (v : ℕ) × (get_elem? index b ≡ some v) × (v < line)
unfolding insertion_point
insertion_point-less [] line b h = absurd (omega arith)
insertion_point-less (ll ∷ lls) line b h = elim (Bool-cases (ltb ll line)) [
  | inr far ↦ absurd (ground (arith, h, far))
  | inl before ↦
      let inner : insertion_point lls line ≡ b = ground (arith, h, before) in
      within b inner (ltb→lt ll line before) (insertion_point-less lls line)
]
  where
    within :
        (k : ℕ)
        → insertion_point lls line ≡ k
        → ll < line
        → ((c : ℕ)
            → insertion_point lls line ≡ suc c
            → (v : ℕ) × (get_elem? lls c ≡ some v) × (v < line))
        → (v : ℕ) × (get_elem? (ll ∷ lls) k ≡ some v) × (v < line)
    within zero e lo rest = (ll, refl, lo)
    within (suc c) e lo rest = rest c e

-- The offset is the first one with so many newlines before it.
pub record IsLineStart (buf : List ℕ) (line offset : ℕ) : Type 0 where
  pub there : newlines (take offset buf) ≡ line
  pub first : (q : ℕ) → q < offset → newlines (take q buf) < line

newlines_mono : (buf : List ℕ) (a b : ℕ) → a ≤ b → newlines (take a buf) ≤ newlines (take b buf)
newlines_mono buf a b h =
    let whole : a + (b - a) ≡ b = omega arith in
    omega (arith, newlines-take a (b - a) buf, ap (λ n. newlines (take n buf)) whole)

zero_or_suc : (n : ℕ) → (n ≡ 0) ⊎ ((b : ℕ) × (n ≡ suc b))
zero_or_suc zero = inl refl
zero_or_suc (suc b) = inr (b, refl)

no_page_before :
    (buf index : List ℕ) (line : ℕ) → IsIndex buf index → insertion_point index line ≡ 0 → line ≡ 0
unfolding insertion_point newlines
no_page_before buf [] line k h = cc (k.complete 0 (omega arith))
no_page_before buf (v ∷ index) line k h =
    let first : v ≡ 0 = cc (k.complete 0 (omega arith)) in ground (arith, h, first)

earlier :
    (buf : List ℕ) (start k v line q : ℕ)
    → v < line
    → v ≡ newlines (take start buf)
    → ((j : ℕ) → j < k → v + newlines (take j (drop start buf)) < line)
    → q < start + k
    → newlines (take q buf) < line
earlier buf start k v line q less counted first h = elim (Bool-cases (leb q start)) [
  | inl low ↦
      let below = newlines_mono buf q start (leb→le q start low) in
      omega (arith, counted, below, less)
  | inr high ↦
      let beyond : start < q = ground (arith, high) in
      let whole : start + (q - start) ≡ q = omega (arith, beyond) in
      let split = newlines-take start (q - start) buf in
      let same = ap (λ n. newlines (take n buf)) whole in
      let bound = first (q - start) (omega (arith, beyond, h)) in
      omega (arith, counted, split, same, bound)
]

-- With the index that `make_index` returns, every line that the buffer has is found at its first offset, and
-- no slice or index is out of range on the way.
pub line_to_offset_lem :
    (buf index : List ℕ) (line : ℕ)
    → make_index buf ≡ ok index
    → line ≤ newlines buf
    → (offset : ℕ) × (line_to_offset buf index line ≡ ok offset) × IsLineStart buf line offset
unfolding line_to_offset
line_to_offset_lem buf index line made inside = elim (zero_or_suc (insertion_point index line)) [
  | inl none_before ↦
      let start = no_page_before buf index line (make_index_sound buf index made) none_before in
      (
        0,
        ground (arith, none_before, start),
        record { there = unfold newlines in sym start; first = λ q h. absurd (omega arith) },
      )
  | inr (b, pages) ↦
      let (v, entry, less) = insertion_point-less index line b pages in
      let k = make_index_sound buf index made in
      let inside_buf = k.inside b v entry in
      let start = b * page in
      let counted : v ≡ newlines (take start buf) = cc (k.complete b inside_buf, entry) in
      elim (advance_lem (drop start buf) v start line (omega arith)
        (omega (arith, inside, counted, newlines-drop start buf))) [
          | found k runs there first ↦ (
            start + k,
            ground (arith, pages, entry, runs),
            record {
              there = omega (arith, newlines-take start k buf, there, counted);
              first = λ q h. earlier buf start k v line q less counted first h;
            },
          )
        ]
]
