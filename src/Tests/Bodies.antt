-- ===== src/Tests/Bodies.antt =====
-- A file with two functions, one of them with a large header behind the end of the buffer, and runs of
-- the accessors and of the validation on it.
use droidsaw_hermes.Prelude.{ℕ, ◌≡◌, ◌<◌, refl, true, List, [], ◌∷◌, none, some, arith}
use droidsaw_hermes.Errors.{ok}
use droidsaw_hermes.Bytes.{read_u32_le}
use droidsaw_hermes.Bitfield.{read_bitfield, read_loop}
use droidsaw_hermes.Header.{v87_to_96, func_header_size, function_count, use_v99_func_header}
use droidsaw_hermes.Header.Parse.{parse_v87_to_96}
use droidsaw_hermes.DebugInfo.{range}
use droidsaw_hermes.LargeHeader.{align4_u64, overflow_header_is_oob}
use droidsaw_hermes.File.{HbcFile, UnrecognizedReason, no_filenames, shape36}
use droidsaw_hermes.Spans.{
  check_overlaps, check_pairs, check_pair, check_dedups, count_dedup, sort_by_offset,
  insert_by_offset, same_body,
}
use droidsaw_hermes.Unrecognized.{merge_sorted_unrecognized, take_until}
use droidsaw_hermes.Functions.{
  FunctionData, pack_flags, small_fields, large_offset, large_function, small_function,
  function_get, spans_intersect, overlaps_any, span_overlaps_synthesized, function_get_checked,
}
use droidsaw_hermes.Functions.Exceptions.{
  narrow_align4, large_size, get_exc_table_offset, count_capped, exc_table_overlaps_synthesized,
  function_exception_count, function_exception_get,
}
use droidsaw_hermes.Functions.Strict.{LargeFits, overflowed, function_get_checked-function_get}
use droidsaw_hermes.Functions.Validate.{
  mark, recovered, add_outcome, contains_mark, in_range, check_body, check_function,
  check_functions, bad_handler, check_handlers, validate_function_regions,
}
use droidsaw_hermes.Functions.Validate.Valid.{Valid, validate_function_regions-Valid}
use droidsaw_hermes.Header.{
  version, file_length, big_int_count, string_kind_count, identifier_count, string_count,
  overflow_string_count, string_storage_size, reg_exp_count, reg_exp_storage_size,
  array_buffer_size, obj_key_buffer_size, obj_value_buffer_size, obj_shape_table_count,
  big_int_storage_size, cjs_module_count, function_source_count, debug_info_offset,
}
use droidsaw_hermes.Header.Parse.{parse_hbc_header, dispatch}
use droidsaw_hermes.Sections.{
  walk_sections, object_sections, big_int_sections, source_section, section, section_opt, align4,
}
use droidsaw_hermes.DebugInfo.{debug_info_v96_parse}
use droidsaw_hermes.File.{
  parse_inner, parse_sections, check_counts, decode_string_kinds, kinds_loop, kind_entry, fill_run,
  bytecode_region_of, read_debug_filenames,
}
use droidsaw_hermes.LargeHeader.Selection.{parse, select_v98_large_header_layout}
use droidsaw_hermes.LargeHeader.Selection.Whole.{Stages, parse-Stages}
use droidsaw_hermes.Tests.Counts.{placed, fits}

abbrev two_source : List ℕ
two_source =
    198 ∷ 31 ∷ 188 ∷ 3 ∷ 193 ∷ 3 ∷ 25 ∷ 31 ∷ 96 ∷ 0 ∷ 0 ∷ 0 ∷ 0 ∷ 1 ∷ 2 ∷ 3 ∷ 4 ∷ 5 ∷ 6 ∷ 7 ∷ 8 ∷ 9
    ∷ 10 ∷ 11 ∷ 12 ∷ 13 ∷ 14 ∷ 15 ∷ 16 ∷ 17 ∷ 18 ∷ 19 ∷ 184 ∷ 0 ∷ 0 ∷ 0 ∷ 0 ∷ 0 ∷ 0 ∷ 0 ∷ 2 ∷ 0 ∷ 0
    ∷ 0 ∷ 0 ∷ 0 ∷ 0 ∷ 0 ∷ 0 ∷ 0 ∷ 0 ∷ 0 ∷ 0 ∷ 0 ∷ 0 ∷ 0 ∷ 0 ∷ 0 ∷ 0 ∷ 0 ∷ 0 ∷ 0 ∷ 0 ∷ 0 ∷ 0 ∷ 0 ∷ 0
    ∷ 0 ∷ 0 ∷ 0 ∷ 0 ∷ 0 ∷ 0 ∷ 0 ∷ 0 ∷ 0 ∷ 0 ∷ 0 ∷ 0 ∷ 0 ∷ 0 ∷ 0 ∷ 0 ∷ 0 ∷ 0 ∷ 0 ∷ 0 ∷ 0 ∷ 0 ∷ 0 ∷ 0
    ∷ 0 ∷ 0 ∷ 0 ∷ 0 ∷ 0 ∷ 0 ∷ 0 ∷ 0 ∷ 0 ∷ 0 ∷ 0 ∷ 0 ∷ 0 ∷ 0 ∷ 0 ∷ 0 ∷ 0 ∷ 0 ∷ 0 ∷ 0 ∷ 0 ∷ 0 ∷ 0 ∷ 0
    ∷ 0 ∷ 0 ∷ 0 ∷ 0 ∷ 0 ∷ 0 ∷ 0 ∷ 0 ∷ 0 ∷ 0 ∷ 0 ∷ 0 ∷ 0 ∷ 160 ∷ 0 ∷ 0 ∷ 2 ∷ 8 ∷ 128 ∷ 2 ∷ 0 ∷ 168
    ∷ 0 ∷ 0 ∷ 0 ∷ 0 ∷ 0 ∷ 0 ∷ 8 ∷ 184 ∷ 0 ∷ 0 ∷ 2 ∷ 3 ∷ 0 ∷ 3 ∷ 0 ∷ 1 ∷ 0 ∷ 0 ∷ 0 ∷ 0 ∷ 0 ∷ 0 ∷ 32
    ∷ 1 ∷ 2 ∷ 3 ∷ 4 ∷ 5 ∷ 6 ∷ 7 ∷ 8 ∷ 1 ∷ 0 ∷ 0 ∷ 0 ∷ 0 ∷ 0 ∷ 0 ∷ 0 ∷ 4 ∷ 0 ∷ 0 ∷ 0 ∷ 6 ∷ 0 ∷ 0 ∷ 0
    ∷ []

abbrev two_file : HbcFile
two_file = record {
  buf = two_source;
  header = v87_to_96 (parse_v87_to_96 two_source 96);
  ranges = record {
    func_headers = range 128 32;
    string_kinds = range 160 0;
    small_string_table = range 160 0;
    overflow_string_table = range 160 0;
    string_storage = range 160 0;
    array_buffer = range 0 0;
    obj_key_buffer = range 0 0;
    obj_value_buffer = range 0 0;
    obj_shape_table = range 0 0;
    big_int_table = range 0 0;
    big_int_storage = range 0 0;
    regexp_table = range 0 0;
    cjs_modules = range 0 0;
  };
  debug_filenames = no_filenames;
  debug_info_v96 = none;
  string_kind_map = [];
  bytecode_region = (160, 184);
  sections =
      placed "Header" 0 128
      ∷ placed "FunctionHeaders" 128 32
      ∷ placed "StringKinds" 160 0
      ∷ placed "IdentifierHashes" 160 0
      ∷ placed "SmallStringTable" 160 0
      ∷ placed "OverflowStringTable" 160 0
      ∷ placed "StringStorage" 160 0
      ∷ [];
  input_hash = "";
  unrecognized_functions = [];
  large_header_layout = some shape36;
}

abbrev two_valid : HbcFile
two_valid = record two_file {
  unrecognized_functions =
      mark 1 (UnrecognizedReason.overflowed_header_out_of_bounds 65720 184) ∷ [];
}

validated : validate_function_regions two_file ≡ ok two_valid
unfolding validate_function_regions check_handlers bad_handler check_functions check_function
    check_body in_range contains_mark add_outcome recovered function_exception_get
    function_exception_count exc_table_overlaps_synthesized count_capped get_exc_table_offset
    large_size narrow_align4 function_get_checked span_overlaps_synthesized overlaps_any
    spans_intersect function_get small_function large_function large_offset small_fields pack_flags
    merge_sorted_unrecognized take_until check_overlaps check_pairs check_pair check_dedups
    count_dedup sort_by_offset insert_by_offset same_body align4_u64 overflow_header_is_oob
    parse_v87_to_96 func_header_size function_count use_v99_func_header read_bitfield read_loop
    read_u32_le
validated = refl

validate_function_regions-Valid_example : Valid two_file two_valid
validate_function_regions-Valid_example =
    validate_function_regions-Valid two_file two_valid validated

abbrev first_function : FunctionData
first_function = record {
  name_id = 5;
  param_count = 1;
  offset = 160;
  size = 8;
  flags = 8;
  frame_size = 0;
}

first_got : function_get_checked two_file 0 ≡ ok first_function
unfolding function_get_checked span_overlaps_synthesized overlaps_any spans_intersect function_get
    small_function large_function large_offset small_fields pack_flags overflow_header_is_oob
    parse_v87_to_96 func_header_size function_count use_v99_func_header read_bitfield read_loop
    read_u32_le
first_got = refl

function_get_checked-function_get_example :
    (first_function ≡ function_get two_file 0)
    × (0 < function_count two_file.header → overflowed two_file 0 ≡ true → LargeFits two_file 0)
function_get_checked-function_get_example =
    function_get_checked-function_get two_file 0 first_function first_got

raw_parsed : (parse_inner fits two_source "").result ≡ ok two_file
unfolding parse_inner parse_sections check_counts walk_sections object_sections big_int_sections
    source_section section section_opt align4 decode_string_kinds kinds_loop kind_entry fill_run
    bytecode_region_of read_debug_filenames debug_info_v96_parse parse_hbc_header dispatch
    read_u32_le read_bitfield read_loop version file_length func_header_size function_count
    string_kind_count identifier_count string_count overflow_string_count string_storage_size
    reg_exp_count reg_exp_storage_size array_buffer_size obj_key_buffer_size obj_value_buffer_size
    obj_shape_table_count big_int_count big_int_storage_size cjs_module_count function_source_count
    debug_info_offset droidsaw_hermes.Sections.◌>>=◌ parse_v87_to_96
raw_parsed = refl

two_parsed : parse fits two_source "" ≡ ok two_valid
unfolding parse select_v98_large_header_layout
two_parsed = rw (parse, raw_parsed) validated

parse-Stages_example : Stages fits two_source two_valid
parse-Stages_example =
    parse-Stages fits two_source "" two_valid (omega arith) (omega arith) two_parsed
