-- ===== src/Scanner/Divided.antt =====
-- src/parser.rs: a buffer is divided into segments, and the segments into statements.
use metamath_knife.Base.{
  ℕ, zero, suc, ◌-◌, ◌<◌, Bool, true, false, List, [], ◌∷◌, length, All, ◌^◌, ◌≡◌, refl, sym, subst,
  ◌∙◌, arith,
}
use metamath_knife.Scanner.{Scanner}
use metamath_knife.Scanner.Loop.{fuel}
use metamath_knife.Scanner.Comments.{Statement}
use metamath_knife.Scanner.Segments.{Segment, Reading, Whole}
use metamath_knife.Scanner.Collect.{
  empty_reading, emptied, bare_segment, get_segment, get_segments, initial, parse_segments,
}
use metamath_knife.Scanner.Moves.{IsSpan, IsScanner, left, left-fuel, Returns, returned}
use metamath_knife.Scanner.Safe.{IsStatement}
use metamath_knife.Scanner.Grouped.{IsGrouped}
use metamath_knife.Scanner.Listed.{Listed}
use metamath_knife.Scanner.Groups.{IsNoted, fill_group_ends-Listed}
use metamath_knife.Scanner.Managed.{close_open_groups-IsNoted}
use metamath_knife.Scanner.Whole.{IsWhole, read_statements-IsWhole, left-eq}
use metamath_knife.Scanner.Defined.{IsDefined, collect_statements-IsDefined}

-- A segment whose statements go from one place of the buffer to another.
pub record IsSegment (buffer : List ℕ) (start end : ℕ) (seg : Segment) : Type 0 where
  pub same_text : seg.buffer ≡ buffer
  pub listed : Listed buffer (length seg.span_pool) 0 start end seg.statements
  pub grouped : IsGrouped seg.statements
  pub pool_spans : All (IsSpan buffer) seg.span_pool
  pub file_span : IsSpan buffer seg.next_file

-- Reading a segment has come to another one, or to the end of the buffer.
pub record IsDivided (s s' : Scanner) (seg : Segment) (is_end : Bool) : Type 0 where
  pub scanner : IsScanner s'
  pub buffer : s'.buffer ≡ s.buffer
  pub segment : IsSegment s.buffer s.position s'.position seg
  pub at_end : is_end ≡ true → s'.position ≡ length s.buffer
  pub progress : is_end ≡ false → left s' < left s

Listed-All :
    (buffer : List ℕ) (pool index start end : ℕ) (stmts : List Statement)
    → Listed buffer pool index start end stmts
    → All (IsStatement buffer pool) stmts
Listed-All buffer pool index start end [] l = tt
Listed-All buffer pool index start end (stmt ∷ stmts) (w, l) =
    (w.well_formed, Listed-All buffer pool (suc index) stmt.span.end end stmts l)

-- The scanner and the segment, once the groups are closed and the definitions are collected.
collected-IsDivided :
    (s : Scanner) (all : Whole) (closed : Reading) (filled : List Statement) (seg : Segment)
    → IsWhole s.position s all
    → IsNoted s.position all.reading closed
    → Listed closed.scanner.buffer
        (length closed.scanner.span_pool)
        0
        s.position
        closed.scanner.position
        filled
    → IsGrouped filled
    → IsDefined (bare_segment closed.scanner filled all.next_file) seg
    → IsDivided s (emptied closed.scanner) seg all.is_end
collected-IsDivided s all closed filled seg k n l g (b, (st, (p, (d, f)))) =
    let same_buffer = n.buffer ∙ k.buffer in
    record {
      scanner = record {
        inside = n.reading.scanner.inside;
        unget_span = n.reading.scanner.unget_span;
        label_spans = n.reading.scanner.label_spans;
        pool_spans = tt;
      };
      buffer = same_buffer;
      segment = record {
        same_text = b ∙ same_buffer;
        listed =
            subst
              (λ buf.
                Listed buf (length seg.span_pool) 0 s.position closed.scanner.position
                  seg.statements)
              same_buffer
              (subst
                (λ stmts.
                  Listed closed.scanner.buffer (length seg.span_pool) 0 s.position
                    closed.scanner.position stmts)
                (sym st)
                (subst
                  (λ pool.
                    Listed closed.scanner.buffer (length pool) 0 s.position closed.scanner.position
                      filled)
                  (sym p) l));
        grouped = subst IsGrouped (sym st) g;
        pool_spans =
            subst (λ buf. All (IsSpan buf) seg.span_pool) same_buffer
              (subst (λ pool. All (IsSpan closed.scanner.buffer) pool) (sym p)
                n.reading.scanner.pool_spans);
        file_span = subst (λ sp. IsSpan s.buffer sp) (sym f) k.file_span;
      };
      at_end = λ e. n.position ∙ k.at_end e;
      progress = λ e. omega (
        arith,
        k.progress e,
        left-eq closed.scanner all.reading.scanner n.buffer n.position n.unget,
      );
    }

-- For every scanner whose position, spans and pool lie in its buffer, `get_segment` returns. The
-- statements go from where the scanner stood to where it stands then, each from the end of the one
-- before it; the group of a statement is the index of an earlier statement, which opens a group; all spans and ranges exist in the
-- segment; and the scanner is well formed again, with less to read unless it is at the end of the buffer.
pub get_segment-IsDivided :
    (s : Scanner) → IsScanner s → Returns (λ r. IsDivided s r.0 r.1.0 r.1.1) (get_segment s)
unfolding get_segment
get_segment-IsDivided s w =
    elim (read_statements-IsWhole s.position (fuel s) (empty_reading s) (left-fuel s)
      (record { scanner = w; listed = refl; top = tt; grouped = tt; top_opens = tt })) [
        | returned all e k ↦
            elim (close_open_groups-IsNoted s.position (length all.reading.statements) all.reading
              all.end_diag all.reading.top_group k.reading k.reading.top k.reading.top) [
                | returned closed e1 n ↦
                    elim (fill_group_ends-Listed closed.scanner.buffer
                      (length closed.scanner.span_pool) s.position closed.scanner.position 0
                      (length closed.statements) closed.statements (omega arith) n.reading.listed) [
                        | returned filled e2 (l, noted) ↦
                            elim (collect_statements-IsDefined
                              (bare_segment closed.scanner filled all.next_file) 0 filled
                              n.reading.scanner.pool_spans
                              (Listed-All closed.scanner.buffer (length closed.scanner.span_pool) 0
                                s.position closed.scanner.position filled l)) [
                                  | returned seg e3 d ↦
                                      returned (emptied closed.scanner, (seg, all.is_end))
                                        (ground (arith, e, e1, e2, e3))
                                        (collected-IsDivided s all closed filled seg k n l
                                          (noted.grouped n.reading.grouped) d)
                                ]
                      ]
              ]
      ]

-- The segments from a place in the buffer on: each starts where the one before it ends, and the last
-- one goes to the end.
pub data Divides (buffer : List ℕ) : ℕ → List Segment → Type 0 where
  last_one :
      (start : ℕ) (seg : Segment)
      → IsSegment buffer start (length buffer) seg
      → Divides buffer start (seg ∷ [])
  one_more :
      (start end : ℕ) (seg : Segment) (segs : List Segment)
      → IsSegment buffer start end seg
      → Divides buffer end segs
      → Divides buffer start (seg ∷ segs)

get_segments-Divides :
    (n : ℕ) (s : Scanner)
    → left s < n
    → IsScanner s
    → Returns (Divides s.buffer s.position) (get_segments n s)
unfolding get_segments
get_segments-Divides zero s enough w = absurd (omega (arith, enough))
get_segments-Divides (suc n) s enough w = elim (get_segment-IsDivided s w) [
  | returned (s', (seg, true)) e k ↦ returned (seg ∷ []) (ground (arith, e)) (
      last_one s.position seg
        (subst (λ end. IsSegment s.buffer s.position end seg) (k.at_end refl) k.segment))
  | returned (s', (seg, false)) e k ↦
      elim (get_segments-Divides n s' (omega (arith, enough, k.progress refl)) k.scanner) [
        | returned segs e1 d ↦ returned (seg ∷ segs) (ground (arith, e, e1)) (
            one_more s.position s'.position seg segs k.segment
              (subst (λ buf. Divides buf s'.position segs) k.buffer d))
      ]
]

-- A buffer of fewer than 2^32 - 1 bytes, whatever they are, is divided into segments, with no panic and in
-- the fuel given: the first starts where the buffer starts, each starts where the one before it ends, the
-- last ends where the buffer ends, and the statements of each segment divide it in the same way.
pub parse_segments-Divides :
    (input : List ℕ) → length input < 2 ^ 32 - 1 → Returns (Divides input 0) (parse_segments input)
unfolding parse_segments
parse_segments-Divides input small =
    elim (get_segments-Divides (fuel (initial input)) (initial input) (left-fuel (initial input))
      (record {
        inside = omega arith;
        unget_span = (omega arith, omega arith);
        label_spans = tt;
        pool_spans = tt;
      })) [ returned segs e d ↦ returned segs (ground (arith, small, e)) d ]
