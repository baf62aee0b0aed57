-- ===== src/Lib.antt =====
-- metamath-knife: a verifier and database index for the Metamath language.
--
-- The program reads a database into segments (src/parser.rs, src/segment_set.rs), indexes the names
-- in it (src/nameck.rs), turns every `$a` and `$p` statement into a frame, a small program for
-- substitution and comparison (src/scopeck.rs), and runs the proofs on a stack machine
-- (src/verify.rs). Sets of variables are bit vectors (src/bit_set.rs), and messages find their line
-- through src/line_cache.rs.
--
-- The files and what they are about:
--   * Base and its children: Boolean tests, lists, slices and maps over the native numbers.
--   * BitSet: src/bit_set.rs. `Bitset` with a head word and an optional tail of 64-bit words, its
--     operations and its iterator. A `usize` has 64 bits. The loop over a set runs on fuel that is
--     the sum of its words plus one, and every round lowers that sum.
--   * Address: the addresses, spans, ranges and statement types of src/parser.rs.
--   * Diag: the `Diagnostic` of src/diag.rs, and `Outcome`, the result of fallible code with a
--     constructor for a panic.
--   * Scopeck: the frames of src/scopeck.rs; Scopeck/Ordered states what a frame promises to the
--     verifier, that every variable is set once and before it is used.
--     Scopeck/Build has `scan_expression`, `scan_dv` and `construct_full_frame` on an `InchoateFrame`;
--     Indices is about the numbers of variables, Symmetric about the table of disjoint variables.
--   * SegmentOrder: `SegmentOrder` of src/parser.rs, with its comparisons.
--   * Scanner: the scanner of src/parser.rs. Tokens is about `Scanner::get_raw`; Comments, Strings and
--     Statements have the methods up to `Scanner::get_statement`, Segments and Collect those up to
--     `parse_segments`, with the groups and the definitions of a segment. The loops over tokens share one
--     shape, Scanner/Loop, on fuel that is the length of the buffer plus two: every round leaves fewer
--     bytes and tokens put back to read. Moves says what reading a token keeps, Total to Forward what
--     reading a statement keeps, Grouped to Divided what holds of the statements of a segment.
--   * Definitions: what a segment of src/parser.rs records of the names that it defines.
--   * Names: the atom table and the slots of src/nameck.rs. Index has the `Nameset` and what is done
--     for one definition, Segments `add_segment` and `remove_segment`; Labels is about finding labels.
--     The comparisons of addresses are parameters. The verifier has its own parameters for names.
--   * Proof: the arrays of proof trees of src/proof.rs, with `build`, `to_rpn` and the iterator of
--     `normal_iter`. `DefaultHasher` is a parameter. Proof/Tree has the trees that an array stands
--     for and a stack machine that reads steps; Replay, Rounds, Sharing and Unshared relate the steps
--     that are written to them, Hashes and Build relate `build` to them. The fuel of `to_rpn` is the
--     place of the last step plus one, since children stand before their parents; the fuel of one
--     round of the iterator is the number of trees plus one.
--   * Verify: src/verify.rs. Prepare has `map_var`, `prepare_hypothesis`, `prepare_named_hyp` and
--     `prepare_step`; Execute has the substitutions, `process_hyp` and `execute_step`; Explicit has
--     the branch of `execute_step` for proofs that name hypotheses; Run has `save_step`,
--     `finalize_step` and `verify_proof` with the decoder of compressed proofs and the loop of the
--     others. `VerifyState` is passed along; the parts of it that never change during a proof (the
--     frame, the indexes) are section parameters. The proof builder is `()`. Reordered is about the
--     hypotheses that an explicit proof names in another order.
--   * Verify/Derivation: the specification, an inductive notion of derivability that knows neither
--     stack nor buffer. Numbering is about `var2bit`, the numbers by which variables are said to be
--     disjoint: those of the frame have their places, and no two variables have one number.
--     Substitute, Hypotheses, Distinct and Soundness relate the code to the specification.
--   * LineCache: src/line_cache.rs, with its index of newlines for every 256 bytes; LineCache/Index
--     relates it to counting newlines, LineCache/Offsets the search for a line to the index. The 8-bit
--     accumulator panics when it overflows. The fuel for the pages is the length of the buffer.
--
-- `Oracle` stands for what the verifier asks of other passes: the order of segments, the frame of a
-- label, the name of an atom, the address of a label. Its fields are parameters of every theorem.
--
-- A `HashMap` is an association list. `unsafe` copying is the append or slice it stands for. The
-- address and length of a buffer identify it in the line cache, as in the code.
--
-- Not modelled: the readers of finished segments, the scope checks of statements, the
-- update and the readers of the name index, the indentation and the printing of proofs (src/proof.rs), the drivers with their
-- result caches and threads (src/database.rs), input and output (src/segment_set.rs, src/export.rs,
-- src/main.rs), and the text of messages. Nor is the depth of the stack: `get_raw` calls itself once
-- for every bad character, which the model counts in its fuel.
pub mod Base
pub mod BitSet
pub mod Address
pub mod Diag
pub mod Scopeck
pub mod Verify
pub mod LineCache
pub mod SegmentOrder
pub mod Scanner
pub mod Names
pub mod Proof
pub mod Definitions
