-- ===== src/Lib.antt =====
-- A model of droidsaw-hermes, the parser, emitter and decompiler front end of Hermes bytecode files
-- (HBC), translated from its Rust sources.
--
-- The program reads a buffer in stages. `parse_hbc_header` (src/header.rs) takes the version and
-- chooses one of five header layouts, for version 98 by a detection of two forms. `parse_inner`
-- (src/parser/mod.rs) checks the counts, walks the sections behind the header, decodes the kinds of the
-- strings and reads the debug information (src/parser/debug_info.rs); the result is an `HbcFile`. The
-- emitters (src/emit.rs) write such a file again: the header and four tables from the parsed values, the
-- rest copied. The decoder (src/decompile/decode.rs) turns a function's code into instructions, and the
-- scanner (src/scanner.rs) collects references to strings and functions from the same code. `Cfg::build`
-- (src/decompile/cfg.rs) cuts decoded instructions into blocks and links them.
--
-- The files:
--   Prelude     helpers: tests, lists, arithmetic, bits.
--   Errors      src/error.rs: `HermesError`, `Result` and the inversion of chains with `?`.
--   Bytes       slices, little-endian numbers, `read_u32` and `read_u16`.
--   Header      src/header.rs: the layouts as records and `HbcHeader`; the projections. Header/Parse has
--               the parser with its children Dispatch, Refused and Layouts for its theorems.
--   Bitfield    `read_bitfield` (src/parser/mod.rs) and `bit_pack_u32` (src/emit.rs) as loops.
--   Entries     the bit-packed entries of the function-header and string tables, both ways.
--   Sections    the macros `section!` and `section_opt!` and the walk of `parse_inner` as a state monad
--               over the cursor and the list of sections; Rules, Parts and Layout prove where it ends.
--   DebugInfo   `debug_info_v96_parse` of src/parser/debug_info.rs; Locations has
--               `decode_source_locations`, as a reader monad over the position in the data.
--   File        `HbcFile` and `parse_inner`; Kinds has the string kinds, Raw the accessors `raw_...` and
--               `..._entry_raw`, Debug those for debug information, Parsed what a returned file satisfies.
--   Emit        src/emit.rs: the table writers, in Headers the header writers, in Files `emit_hbc` and its
--               siblings; Slices, Chains, Loops, Tables, HeaderBytes, Body and Whole build up the proof in
--               Identity, by stretches of the source that a writer reproduces.
--   Decode      `decode_function` of src/decompile/decode.rs; Control has the branch target and the
--               predicates on the names of instructions.
--   Cfg         `Cfg::build` of src/decompile/cfg.rs by its steps: Boundaries, Blocks, Edges, Handlers and
--               Order, composed in Build, whose children are the theorems on a whole graph.
--   Scanner     `scan_parsed_with_mode` of src/scanner.rs.
--   LargeHeader `large_header_shape_violation` and `exc_table_summary` of src/parser/mod.rs, which score a
--               large header of version 98; Tables and Shapes say what their answers stand for. Selection
--               has the choice of the layout, and `HbcFile::parse`, which joins the stages.
--   Unrecognized  `merge_sorted_unrecognized` of src/parser/mod.rs.
--   Spans       the second pass of `validate_function_regions` of src/parser/mod.rs, on overlaps.
--   Functions   the accessors for one function of src/parser/mod.rs, `function_get` and its strict sibling,
--               and in Exceptions those for its exception table; Validate has the whole of
--               `validate_function_regions`, with a child for each pass and Valid for what they ensure.
--   Tests       runs at concrete inputs, and an instance of each theorem.
--
-- Conventions. A byte is a number below 256 and a buffer a list of them; a theorem that needs this says
-- `IsBytes`. A u32 or u64 is a number; where the code narrows or wraps, `% 2 ^ 32` is written out, and
-- usize has 64 bits. `out: &mut Vec<u8>` is an argument and a result. The blocks of a graph and a set of
-- boundaries are lists in ascending order; any other `BTreeMap` is a function to its vectors.
--
-- Loops run on fuel or on the number of rounds left. The loops of `read_bitfield` and `bit_pack_u32` have
-- the number of bits as fuel, since each round takes at least one. The loops over code have the length of
-- the code, since each round advances by the size of an instruction, which is not 0; that the instructions
-- of a decoded function reach the end of the code shows that it is enough.
-- The depth-first search over blocks has two rounds for the entry and two for each edge; that its stack is
-- empty at the end shows that they are enough.
--
-- The loops of `decode_source_locations` count down from the caps on functions and locations.
--
-- Parameters: `read_sleb128` of droidsaw-common is an argument of the decoding of source locations;
-- the round trip assumes that it fails at or behind the end of the data. `bound_count` of
-- droidsaw-common is an argument of `parse_inner`, and the emission of version 84 assumes what it
-- documents, that it lets only counts through whose entries fit. The opcode tables of src/opcodes.rs and
-- src/decompile/schemas.rs are arguments of the decoder and the scanner; the scanner also takes from the file which functions are recognized and where they lie.
--
-- Not modelled: the channel of findings beyond the list of those that the header parser emits
-- (src/finding.rs); the stages behind the control-flow graph (src/decompile), which rest on
-- droidsaw-common; the accessors that resolve strings and modules, and src/parser/round_trip.rs; the hash
-- of the input, which `parse` takes as an argument, diagnostics and the budget.
pub mod Prelude
pub mod Errors
pub mod Bytes
pub mod Header
pub mod Bitfield
pub mod Entries
pub mod Sections
pub mod DebugInfo
pub mod File
pub mod Emit
pub mod Decode
pub mod Scanner
pub mod LargeHeader
pub mod Unrecognized
pub mod Spans
pub mod Functions
pub mod Cfg
mod Tests
