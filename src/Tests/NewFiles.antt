-- ===== src/Tests/NewFiles.antt =====
-- Small files of versions 98 and 99, and runs of the parser on them.
use droidsaw_hermes.Prelude.{ℕ, ◌≡◌, refl, List, [], ◌∷◌, none, some, arith}
use droidsaw_hermes.Errors.{ok}
use droidsaw_hermes.Bytes.{IsBytes, read_u32_le}
use droidsaw_hermes.Header.{
  version, file_length, big_int_count, v98_late_to_v99, func_header_size, function_count,
  string_kind_count, identifier_count, string_count, overflow_string_count, string_storage_size,
  reg_exp_count, reg_exp_storage_size, array_buffer_size, obj_key_buffer_size,
  obj_value_buffer_size, obj_shape_table_count, big_int_storage_size, cjs_module_count,
  function_source_count, debug_info_offset,
}
use droidsaw_hermes.Header.Parse.{
  parse_v98_late_to_v99, parse_hbc_header, dispatch, detect_late_v98_form,
}
use droidsaw_hermes.Sections.{
  Section, walk_sections, object_sections, big_int_sections, source_section, section, section_opt,
  align4,
}
use droidsaw_hermes.DebugInfo.{range, debug_info_v96_parse}
use droidsaw_hermes.File.{
  HbcFile, no_filenames, shape36, parse_inner, parse_sections, check_counts, decode_string_kinds,
  kinds_loop, kind_entry, fill_run, bytecode_region_of, read_debug_filenames,
}
use droidsaw_hermes.Tests.Counts.{placed, fits}
use droidsaw_hermes.Bitfield.{read_bitfield, read_loop}

abbrev pub v98_source : List ℕ
v98_source =
    198 ∷ 31 ∷ 188 ∷ 3 ∷ 193 ∷ 3 ∷ 25 ∷ 31 ∷ 98 ∷ 0 ∷ 0 ∷ 0 ∷ 0 ∷ 1 ∷ 2 ∷ 3 ∷ 4 ∷ 5 ∷ 6 ∷ 7 ∷ 8 ∷ 9
    ∷ 10 ∷ 11 ∷ 12 ∷ 13 ∷ 14 ∷ 15 ∷ 16 ∷ 17 ∷ 18 ∷ 19 ∷ 214 ∷ 0 ∷ 0 ∷ 0 ∷ 7 ∷ 0 ∷ 0 ∷ 0 ∷ 1 ∷ 0 ∷ 0
    ∷ 0 ∷ 1 ∷ 0 ∷ 0 ∷ 0 ∷ 1 ∷ 0 ∷ 0 ∷ 0 ∷ 2 ∷ 0 ∷ 0 ∷ 0 ∷ 1 ∷ 0 ∷ 0 ∷ 0 ∷ 5 ∷ 0 ∷ 0 ∷ 0 ∷ 1 ∷ 0 ∷ 0
    ∷ 0 ∷ 3 ∷ 0 ∷ 0 ∷ 0 ∷ 1 ∷ 0 ∷ 0 ∷ 0 ∷ 2 ∷ 0 ∷ 0 ∷ 0 ∷ 4 ∷ 0 ∷ 0 ∷ 0 ∷ 4 ∷ 0 ∷ 0 ∷ 0 ∷ 1 ∷ 0 ∷ 0
    ∷ 0 ∷ 9 ∷ 0 ∷ 0 ∷ 0 ∷ 5 ∷ 0 ∷ 0 ∷ 0 ∷ 0 ∷ 0 ∷ 0 ∷ 0 ∷ 0 ∷ 0 ∷ 0 ∷ 0 ∷ 214 ∷ 0 ∷ 0 ∷ 0 ∷ 2 ∷ 0
    ∷ 0 ∷ 0 ∷ 0 ∷ 0 ∷ 0 ∷ 0 ∷ 0 ∷ 0 ∷ 0 ∷ 0 ∷ 0 ∷ 0 ∷ 0 ∷ 0 ∷ 3 ∷ 20 ∷ 37 ∷ 54 ∷ 71 ∷ 88 ∷ 105 ∷ 122
    ∷ 139 ∷ 156 ∷ 173 ∷ 16 ∷ 2 ∷ 0 ∷ 0 ∷ 128 ∷ 1 ∷ 2 ∷ 3 ∷ 4 ∷ 1 ∷ 0 ∷ 0 ∷ 255 ∷ 8 ∷ 0 ∷ 0 ∷ 3 ∷ 0
    ∷ 0 ∷ 0 ∷ 0 ∷ 5 ∷ 0 ∷ 0 ∷ 0 ∷ 104 ∷ 101 ∷ 108 ∷ 108 ∷ 111 ∷ 0 ∷ 0 ∷ 0 ∷ 97 ∷ 98 ∷ 99 ∷ 100 ∷ 107
    ∷ 101 ∷ 121 ∷ 115 ∷ 0 ∷ 0 ∷ 0 ∷ 0 ∷ 2 ∷ 0 ∷ 0 ∷ 0 ∷ 0 ∷ 0 ∷ 0 ∷ 0 ∷ 3 ∷ 0 ∷ 0 ∷ 0 ∷ 98 ∷ 105
    ∷ 103 ∷ 0 ∷ 0 ∷ 0 ∷ 0 ∷ 0 ∷ 2 ∷ 0 ∷ 0 ∷ 0 ∷ 114 ∷ 120 ∷ 0 ∷ 0 ∷ 1 ∷ 2 ∷ []

abbrev pub v98_file : HbcFile
v98_file = record {
  buf = v98_source;
  header = v98_late_to_v99 (parse_v98_late_to_v99 v98_source 98);
  ranges = record {
    func_headers = range 128 12;
    string_kinds = range 140 4;
    small_string_table = range 148 8;
    overflow_string_table = range 156 8;
    string_storage = range 164 5;
    array_buffer = range 172 4;
    obj_key_buffer = range 176 4;
    obj_value_buffer = range 0 0;
    obj_shape_table = range 180 8;
    big_int_table = range 188 8;
    big_int_storage = range 196 3;
    regexp_table = range 200 8;
    cjs_modules = range 0 0;
  };
  debug_filenames = no_filenames;
  debug_info_v96 = none;
  string_kind_map = 1 ∷ 1 ∷ [];
  bytecode_region = (212, 214);
  sections =
      placed "Header" 0 128
      ∷ placed "FunctionHeaders" 128 12
      ∷ placed "StringKinds" 140 4
      ∷ placed "IdentifierHashes" 144 4
      ∷ placed "SmallStringTable" 148 8
      ∷ placed "OverflowStringTable" 156 8
      ∷ placed "StringStorage" 164 5
      ∷ placed "ArrayBuffer" 172 4
      ∷ placed "ObjKeyBuffer" 176 4
      ∷ placed "ObjShapeTable" 180 8
      ∷ placed "BigIntTable" 188 8
      ∷ placed "BigIntStorage" 196 3
      ∷ placed "RegExpTable" 200 8
      ∷ placed "RegExpStorage" 208 2
      ∷ [];
  input_hash = "";
  unrecognized_functions = [];
  large_header_layout = some shape36;
}

pub v98_bytes : IsBytes v98_source
v98_bytes = omega arith

pub v98_parsed : (parse_inner fits v98_source "").result ≡ ok v98_file
unfolding parse_inner parse_sections check_counts walk_sections object_sections big_int_sections
    source_section section section_opt align4 decode_string_kinds kinds_loop kind_entry fill_run
    bytecode_region_of read_debug_filenames debug_info_v96_parse parse_hbc_header dispatch
    read_u32_le read_bitfield read_loop version file_length func_header_size function_count
    string_kind_count identifier_count string_count overflow_string_count string_storage_size
    reg_exp_count reg_exp_storage_size array_buffer_size obj_key_buffer_size obj_value_buffer_size
    obj_shape_table_count big_int_count big_int_storage_size cjs_module_count function_source_count
    debug_info_offset droidsaw_hermes.Sections.◌>>=◌ parse_v98_late_to_v99 detect_late_v98_form
v98_parsed = refl

abbrev pub v99_source : List ℕ
v99_source =
    198 ∷ 31 ∷ 188 ∷ 3 ∷ 193 ∷ 3 ∷ 25 ∷ 31 ∷ 99 ∷ 0 ∷ 0 ∷ 0 ∷ 0 ∷ 1 ∷ 2 ∷ 3 ∷ 4 ∷ 5 ∷ 6 ∷ 7 ∷ 8 ∷ 9
    ∷ 10 ∷ 11 ∷ 12 ∷ 13 ∷ 14 ∷ 15 ∷ 16 ∷ 17 ∷ 18 ∷ 19 ∷ 214 ∷ 0 ∷ 0 ∷ 0 ∷ 7 ∷ 0 ∷ 0 ∷ 0 ∷ 1 ∷ 0 ∷ 0
    ∷ 0 ∷ 1 ∷ 0 ∷ 0 ∷ 0 ∷ 1 ∷ 0 ∷ 0 ∷ 0 ∷ 2 ∷ 0 ∷ 0 ∷ 0 ∷ 1 ∷ 0 ∷ 0 ∷ 0 ∷ 5 ∷ 0 ∷ 0 ∷ 0 ∷ 1 ∷ 0 ∷ 0
    ∷ 0 ∷ 3 ∷ 0 ∷ 0 ∷ 0 ∷ 1 ∷ 0 ∷ 0 ∷ 0 ∷ 2 ∷ 0 ∷ 0 ∷ 0 ∷ 4 ∷ 0 ∷ 0 ∷ 0 ∷ 4 ∷ 0 ∷ 0 ∷ 0 ∷ 1 ∷ 0 ∷ 0
    ∷ 0 ∷ 9 ∷ 0 ∷ 0 ∷ 0 ∷ 5 ∷ 0 ∷ 0 ∷ 0 ∷ 0 ∷ 0 ∷ 0 ∷ 0 ∷ 0 ∷ 0 ∷ 0 ∷ 0 ∷ 0 ∷ 0 ∷ 0 ∷ 0 ∷ 2 ∷ 0 ∷ 0
    ∷ 0 ∷ 0 ∷ 0 ∷ 0 ∷ 0 ∷ 0 ∷ 0 ∷ 0 ∷ 0 ∷ 0 ∷ 0 ∷ 0 ∷ 0 ∷ 3 ∷ 20 ∷ 37 ∷ 54 ∷ 71 ∷ 88 ∷ 105 ∷ 122
    ∷ 139 ∷ 156 ∷ 173 ∷ 16 ∷ 2 ∷ 0 ∷ 0 ∷ 128 ∷ 1 ∷ 2 ∷ 3 ∷ 4 ∷ 1 ∷ 0 ∷ 0 ∷ 255 ∷ 8 ∷ 0 ∷ 0 ∷ 3 ∷ 0
    ∷ 0 ∷ 0 ∷ 0 ∷ 5 ∷ 0 ∷ 0 ∷ 0 ∷ 104 ∷ 101 ∷ 108 ∷ 108 ∷ 111 ∷ 0 ∷ 0 ∷ 0 ∷ 97 ∷ 98 ∷ 99 ∷ 100 ∷ 107
    ∷ 101 ∷ 121 ∷ 115 ∷ 0 ∷ 0 ∷ 0 ∷ 0 ∷ 2 ∷ 0 ∷ 0 ∷ 0 ∷ 0 ∷ 0 ∷ 0 ∷ 0 ∷ 3 ∷ 0 ∷ 0 ∷ 0 ∷ 98 ∷ 105
    ∷ 103 ∷ 0 ∷ 0 ∷ 0 ∷ 0 ∷ 0 ∷ 2 ∷ 0 ∷ 0 ∷ 0 ∷ 114 ∷ 120 ∷ 0 ∷ 0 ∷ 1 ∷ 2 ∷ []

abbrev pub v99_file : HbcFile
v99_file = record {
  buf = v99_source;
  header = v98_late_to_v99 (parse_v98_late_to_v99 v99_source 99);
  ranges = record {
    func_headers = range 128 12;
    string_kinds = range 140 4;
    small_string_table = range 148 8;
    overflow_string_table = range 156 8;
    string_storage = range 164 5;
    array_buffer = range 172 4;
    obj_key_buffer = range 176 4;
    obj_value_buffer = range 0 0;
    obj_shape_table = range 180 8;
    big_int_table = range 188 8;
    big_int_storage = range 196 3;
    regexp_table = range 200 8;
    cjs_modules = range 0 0;
  };
  debug_filenames = no_filenames;
  debug_info_v96 = none;
  string_kind_map = 1 ∷ 1 ∷ [];
  bytecode_region = (212, 214);
  sections =
      placed "Header" 0 128
      ∷ placed "FunctionHeaders" 128 12
      ∷ placed "StringKinds" 140 4
      ∷ placed "IdentifierHashes" 144 4
      ∷ placed "SmallStringTable" 148 8
      ∷ placed "OverflowStringTable" 156 8
      ∷ placed "StringStorage" 164 5
      ∷ placed "ArrayBuffer" 172 4
      ∷ placed "ObjKeyBuffer" 176 4
      ∷ placed "ObjShapeTable" 180 8
      ∷ placed "BigIntTable" 188 8
      ∷ placed "BigIntStorage" 196 3
      ∷ placed "RegExpTable" 200 8
      ∷ placed "RegExpStorage" 208 2
      ∷ [];
  input_hash = "";
  unrecognized_functions = [];
  large_header_layout = some shape36;
}

pub v99_bytes : IsBytes v99_source
v99_bytes = omega arith

pub v99_parsed : (parse_inner fits v99_source "").result ≡ ok v99_file
unfolding parse_inner parse_sections check_counts walk_sections object_sections big_int_sections
    source_section section section_opt align4 decode_string_kinds kinds_loop kind_entry fill_run
    bytecode_region_of read_debug_filenames debug_info_v96_parse parse_hbc_header dispatch
    read_u32_le read_bitfield read_loop version file_length func_header_size function_count
    string_kind_count identifier_count string_count overflow_string_count string_storage_size
    reg_exp_count reg_exp_storage_size array_buffer_size obj_key_buffer_size obj_value_buffer_size
    obj_shape_table_count big_int_count big_int_storage_size cjs_module_count function_source_count
    debug_info_offset droidsaw_hermes.Sections.◌>>=◌ parse_v98_late_to_v99
v99_parsed = refl
