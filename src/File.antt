-- ===== src/File.antt =====
-- `HbcFile` and `parse_inner` of src/parser/mod.rs. The scalars that the struct caches are the
-- projections of its header, and are taken from there; `bound_count` is droidsaw-common's test that
-- `count` entries of `stride` bytes fit into `len` bytes.
pub mod Kinds
pub mod Parsed
pub mod Debug
pub mod Raw
use Prim.Native.String.{String}
use droidsaw_hermes.Prelude.{
  ℕ, zero, suc, ◌+◌, ◌*◌, ◌-◌, ◌%◌, Bool, true, false, List, [], ◌∷◌, ◌++◌, Option, none, some, ltb,
  leb, ◌==◌, ◌&&◌, not, min, length, set, replicate, if◌then◌else◌,
}
use droidsaw_hermes.Errors.{
  HermesError, overflow_string_count_exceeds_string_count, bound_count_exceeded, Result, ok, err,
  ◌>>=◌, ok_or,
}
use droidsaw_hermes.Bytes.{read_u32_le, get_range}
use droidsaw_hermes.Bitfield.{read_bitfield}
use droidsaw_hermes.Header.{
  HbcHeader, version, file_length, func_header_size, function_count, string_kind_count,
  identifier_count, string_count, overflow_string_count, reg_exp_count, obj_shape_table_count,
  big_int_count, cjs_module_count, function_source_count, debug_info_offset, use_v99_func_header,
}
use droidsaw_hermes.Header.Parse.{
  header_size, HermesFinding, file_length_disagreement, Logged, parse_hbc_header, len_u32,
}
use droidsaw_hermes.Sections.{Range, no_range, Section, Walk, Ranges, walk_sections, start}
use droidsaw_hermes.DebugInfo.{DebugInfoV96, debug_info_v96_parse, range}

pub data LargeHeaderLayout : Type 0 where
  shape36 : LargeHeaderLayout
  shape40 : LargeHeaderLayout

pub data UnrecognizedReason : Type 0 where
  overflowed_header_out_of_bounds : (large_off buf_len : ℕ) → UnrecognizedReason
  overflowed_header_overlaps_synthesized_region : (large_off : ℕ) → UnrecognizedReason
  exception_table_overlaps_synthesized_region : (exc_offset : ℕ) → UnrecognizedReason
  large_header_layout_ambiguous : (large_off : ℕ) → UnrecognizedReason
  exception_handler_out_of_function_range :
      (handler_idx start end target fn_size : ℕ) → UnrecognizedReason

pub record UnrecognizedFunction : Type 0 where
  pub func_idx : ℕ
  pub reason : UnrecognizedReason

-- The three ranges of the older debug-information reading.
pub record DebugFilenames : Type 0 where
  pub debug_filename_count : ℕ
  pub debug_filename_table : Range
  pub debug_filename_storage : Range

pub record HbcFile : Type 0 where
  pub buf : List ℕ
  pub header : HbcHeader
  pub ranges : Ranges
  pub debug_filenames : DebugFilenames
  pub debug_info_v96 : Option DebugInfoV96
  pub string_kind_map : List ℕ
  pub bytecode_region : ℕ × ℕ
  pub sections : List Section
  pub input_hash : String
  pub unrecognized_functions : List UnrecognizedFunction
  pub large_header_layout : Option LargeHeaderLayout

-- `for _ in 0..count`: one run of the string kinds, cut off at the end of the map.
unfoldable pub fill_run : ℕ → ℕ → List ℕ × ℕ → List ℕ × ℕ
fill_run zero kind st = st
fill_run (suc n) kind (kinds, str_idx) = elim (ltb str_idx (length kinds)) [
  | true ↦ fill_run n kind (set kinds str_idx kind, suc str_idx)
  | false ↦ (kinds, str_idx)
]

-- The count and the kind of an entry.
unfoldable pub kind_entry : ℕ → List ℕ → ℕ × ℕ
kind_entry version entry =
    if leb 72 version
    then (read_bitfield entry 0 31, read_bitfield entry 31 1 % 256)
    else (read_bitfield entry 0 30, read_bitfield entry 30 2 % 256)

-- The loop over the entries from number `i` on; `n` of them are left.
unfoldable pub kinds_loop : List ℕ → ℕ → ℕ → ℕ → ℕ → List ℕ × ℕ → List ℕ × ℕ
kinds_loop buf at version zero i st = st
kinds_loop buf at version (suc n) i st = elim (get_range buf (at + i * 4) (at + i * 4 + 4)) [
  | none ↦ st
  | some entry ↦
      let (count, kind) = kind_entry version entry in
      kinds_loop buf at version n (suc i) (fill_run count kind st)
]

unfoldable pub decode_string_kinds : List ℕ → Range → HbcHeader → List ℕ
decode_string_kinds buf string_kinds h =
    let (kinds, str_idx) =
      kinds_loop buf string_kinds.offset (version h) (string_kind_count h) 0
        (replicate (string_count h) 0, 0) in
    kinds

-- The ends of the bytecode region, from the cursor behind the sections.
unfoldable pub bytecode_region_of : List ℕ → ℕ → ℕ → ℕ × ℕ
bytecode_region_of buf offset body_region_start =
    let buf_len_u32 = len_u32 buf in
    let body_region_end = if ltb 0 offset && leb offset buf_len_u32 then offset else buf_len_u32 in
    if leb body_region_start body_region_end
    then (body_region_start, body_region_end)
    else (body_region_start, body_region_start)

abbrev pub no_filenames : DebugFilenames
no_filenames = record {
  debug_filename_count = 0;
  debug_filename_table = no_range;
  debug_filename_storage = no_range;
}

unfoldable pub read_debug_filenames : List ℕ → ℕ → DebugFilenames
read_debug_filenames buf dbg_off =
    let raw_count = read_u32_le buf dbg_off in
    let storage_size = read_u32_le buf (dbg_off + 4) in
    let table_start = dbg_off + 16 in
    let table_size = raw_count * 8 in
    let storage_start = table_start + table_size in
    if ltb 0 dbg_off
      && leb header_size dbg_off
      && leb (dbg_off + 16) (length buf)
      && leb (storage_start + storage_size) (length buf)
    then record {
      debug_filename_count = raw_count;
      debug_filename_table = range table_start table_size;
      debug_filename_storage = range storage_start storage_size;
    }
    else no_filenames

-- The finding on a declared length that is not the buffer's.
abbrev pub length_findings : List ℕ → Result HermesError HbcHeader → List HermesFinding
length_findings buf (ok h) =
    if file_length h == length buf
    then []
    else file_length_disagreement (file_length h) (length buf) ∷ []
length_findings buf (err e) = []

module _ (bound_count : ℕ → ℕ → ℕ → Bool) where
  -- The calls of `bound_count` in order.
  unfoldable pub check_counts : HbcHeader → ℕ → Result HermesError (List ℕ)
  check_counts h len =
      let check : ℕ → ℕ → Result HermesError ℕ =
        λ count stride. ok_or (bound_count count stride len) count bound_count_exceeded in
      check (function_count h) (func_header_size h) >>= λ a. check (string_count h) 4 >>= λ b.
      check (overflow_string_count h) 8 >>= λ c. check (reg_exp_count h) 8 >>= λ d.
      check (string_kind_count h) 4 >>= λ e. check (identifier_count h) 4 >>= λ f.
      check (obj_shape_table_count h) 8 >>= λ g. check (big_int_count h) 8 >>= λ i.
      check (cjs_module_count h) 8 >>= λ j.
      check (function_source_count h) 8 >>= λ k. ok (a ∷ b ∷ c ∷ d ∷ e ∷ f ∷ g ∷ i ∷ j ∷ k ∷ [])

  -- The file, when the walk and the debug information have been read.
  abbrev pub build_file :
      List ℕ → String → HbcHeader → Ranges × Walk → Option DebugInfoV96 → HbcFile
  build_file buf input_hash h (ranges, w) info = record {
    buf = buf;
    header = h;
    ranges = ranges;
    debug_filenames = read_debug_filenames buf (debug_info_offset h);
    debug_info_v96 = info;
    string_kind_map = decode_string_kinds buf ranges.string_kinds h;
    bytecode_region = bytecode_region_of buf (debug_info_offset h) w.cursor;
    sections = w.sections;
    input_hash = input_hash;
    unrecognized_functions = [];
    large_header_layout = some shape36;
  }

  -- What follows the header.
  unfoldable pub parse_sections : List ℕ → String → HbcHeader → Result HermesError HbcFile
  parse_sections buf input_hash h =
      if ltb (string_count h) (overflow_string_count h)
      then err
          (overflow_string_count_exceeds_string_count (overflow_string_count h) (string_count h))
      else check_counts h (length buf) >>= λ counts.
          walk_sections (length buf) h start >>= λ walked.
          debug_info_v96_parse buf (debug_info_offset h) (version h) >>= λ info.
          ok (build_file buf input_hash h walked info)

  unfoldable pub parse_inner : List ℕ → String → Logged HbcFile
  parse_inner buf input_hash =
      let parsed = parse_hbc_header buf in
      record {
        findings = parsed.findings ++ length_findings buf parsed.result;
        result = parsed.result >>= parse_sections buf input_hash;
      }
