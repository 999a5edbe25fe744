-- ===== src/Tests/OldFiles.antt =====
-- Small files of versions 84 and 96, and runs of the parser on them.
use droidsaw_hermes.Prelude.{ℕ, ◌≡◌, refl, List, [], ◌∷◌, none, some, arith}
use droidsaw_hermes.Errors.{ok}
use droidsaw_hermes.Bytes.{IsBytes, read_u32_le}
use droidsaw_hermes.Header.{
  version, file_length, big_int_count, v84_to_86, v87_to_96, func_header_size, function_count,
  string_kind_count, identifier_count, string_count, overflow_string_count, string_storage_size,
  reg_exp_count, reg_exp_storage_size, array_buffer_size, obj_key_buffer_size,
  obj_value_buffer_size, obj_shape_table_count, big_int_storage_size, cjs_module_count,
  function_source_count, debug_info_offset,
}
use droidsaw_hermes.Header.Parse.{parse_v84_to_86, parse_v87_to_96, parse_hbc_header, dispatch}
use droidsaw_hermes.Sections.{
  Section, walk_sections, object_sections, big_int_sections, source_section, section, section_opt,
  align4,
}
use droidsaw_hermes.DebugInfo.{range, debug_info_v96_parse}
use droidsaw_hermes.File.{
  HbcFile, no_filenames, shape36, parse_inner, parse_sections, check_counts, decode_string_kinds,
  kinds_loop, kind_entry, fill_run, bytecode_region_of, read_debug_filenames,
}
use droidsaw_hermes.Tests.Counts.{placed, fits}
use droidsaw_hermes.Bitfield.{read_bitfield, read_loop}

abbrev pub v84_source : List ℕ
v84_source =
    198 ∷ 31 ∷ 188 ∷ 3 ∷ 193 ∷ 3 ∷ 25 ∷ 31 ∷ 84 ∷ 0 ∷ 0 ∷ 0 ∷ 0 ∷ 1 ∷ 2 ∷ 3 ∷ 4 ∷ 5 ∷ 6 ∷ 7 ∷ 8 ∷ 9
    ∷ 10 ∷ 11 ∷ 12 ∷ 13 ∷ 14 ∷ 15 ∷ 16 ∷ 17 ∷ 18 ∷ 19 ∷ 202 ∷ 0 ∷ 0 ∷ 0 ∷ 7 ∷ 0 ∷ 0 ∷ 0 ∷ 1 ∷ 0 ∷ 0
    ∷ 0 ∷ 1 ∷ 0 ∷ 0 ∷ 0 ∷ 1 ∷ 0 ∷ 0 ∷ 0 ∷ 2 ∷ 0 ∷ 0 ∷ 0 ∷ 1 ∷ 0 ∷ 0 ∷ 0 ∷ 5 ∷ 0 ∷ 0 ∷ 0 ∷ 1 ∷ 0 ∷ 0
    ∷ 0 ∷ 2 ∷ 0 ∷ 0 ∷ 0 ∷ 4 ∷ 0 ∷ 0 ∷ 0 ∷ 4 ∷ 0 ∷ 0 ∷ 0 ∷ 4 ∷ 0 ∷ 0 ∷ 0 ∷ 5 ∷ 0 ∷ 0 ∷ 0 ∷ 0 ∷ 0 ∷ 0
    ∷ 0 ∷ 0 ∷ 0 ∷ 0 ∷ 0 ∷ 0 ∷ 0 ∷ 0 ∷ 0 ∷ 2 ∷ 0 ∷ 0 ∷ 0 ∷ 0 ∷ 0 ∷ 0 ∷ 0 ∷ 0 ∷ 0 ∷ 0 ∷ 0 ∷ 0 ∷ 0 ∷ 0
    ∷ 0 ∷ 0 ∷ 0 ∷ 0 ∷ 0 ∷ 0 ∷ 0 ∷ 0 ∷ 0 ∷ 0 ∷ 0 ∷ 0 ∷ 0 ∷ 3 ∷ 20 ∷ 37 ∷ 54 ∷ 71 ∷ 88 ∷ 105 ∷ 122
    ∷ 139 ∷ 156 ∷ 173 ∷ 190 ∷ 207 ∷ 224 ∷ 241 ∷ 16 ∷ 2 ∷ 0 ∷ 0 ∷ 128 ∷ 1 ∷ 2 ∷ 3 ∷ 4 ∷ 1 ∷ 0 ∷ 0
    ∷ 255 ∷ 8 ∷ 0 ∷ 0 ∷ 3 ∷ 0 ∷ 0 ∷ 0 ∷ 0 ∷ 5 ∷ 0 ∷ 0 ∷ 0 ∷ 104 ∷ 101 ∷ 108 ∷ 108 ∷ 111 ∷ 0 ∷ 0 ∷ 0
    ∷ 97 ∷ 98 ∷ 99 ∷ 100 ∷ 107 ∷ 101 ∷ 121 ∷ 115 ∷ 118 ∷ 97 ∷ 108 ∷ 115 ∷ 0 ∷ 0 ∷ 0 ∷ 0 ∷ 2 ∷ 0 ∷ 0
    ∷ 0 ∷ 114 ∷ 120 ∷ 0 ∷ 0 ∷ 1 ∷ 2 ∷ []

abbrev pub v84_file : HbcFile
v84_file = record {
  buf = v84_source;
  header = v84_to_86 (parse_v84_to_86 v84_source 84);
  ranges = record {
    func_headers = range 128 16;
    string_kinds = range 144 4;
    small_string_table = range 152 8;
    overflow_string_table = range 160 8;
    string_storage = range 168 5;
    array_buffer = range 176 4;
    obj_key_buffer = range 180 4;
    obj_value_buffer = range 184 4;
    obj_shape_table = range 0 0;
    big_int_table = range 0 0;
    big_int_storage = range 0 0;
    regexp_table = range 188 8;
    cjs_modules = range 0 0;
  };
  debug_filenames = no_filenames;
  debug_info_v96 = none;
  string_kind_map = 1 ∷ 1 ∷ [];
  bytecode_region = (200, 202);
  sections =
      placed "Header" 0 128
      ∷ placed "FunctionHeaders" 128 16
      ∷ placed "StringKinds" 144 4
      ∷ placed "IdentifierHashes" 148 4
      ∷ placed "SmallStringTable" 152 8
      ∷ placed "OverflowStringTable" 160 8
      ∷ placed "StringStorage" 168 5
      ∷ placed "ArrayBuffer" 176 4
      ∷ placed "ObjKeyBuffer" 180 4
      ∷ placed "ObjValueBuffer" 184 4
      ∷ placed "RegExpTable" 188 8
      ∷ placed "RegExpStorage" 196 2
      ∷ [];
  input_hash = "";
  unrecognized_functions = [];
  large_header_layout = some shape36;
}

pub v84_bytes : IsBytes v84_source
v84_bytes = omega arith

pub v84_parsed : (parse_inner fits v84_source "").result ≡ ok v84_file
unfolding parse_inner parse_sections check_counts walk_sections object_sections big_int_sections
    source_section section section_opt align4 decode_string_kinds kinds_loop kind_entry fill_run
    bytecode_region_of read_debug_filenames debug_info_v96_parse parse_hbc_header dispatch
    read_u32_le read_bitfield read_loop version file_length func_header_size function_count
    string_kind_count identifier_count string_count overflow_string_count string_storage_size
    reg_exp_count reg_exp_storage_size array_buffer_size obj_key_buffer_size obj_value_buffer_size
    obj_shape_table_count big_int_count big_int_storage_size cjs_module_count function_source_count
    debug_info_offset droidsaw_hermes.Sections.◌>>=◌ parse_v84_to_86
v84_parsed = refl

abbrev pub v96_source : List ℕ
v96_source =
    198 ∷ 31 ∷ 188 ∷ 3 ∷ 193 ∷ 3 ∷ 25 ∷ 31 ∷ 96 ∷ 0 ∷ 0 ∷ 0 ∷ 0 ∷ 1 ∷ 2 ∷ 3 ∷ 4 ∷ 5 ∷ 6 ∷ 7 ∷ 8 ∷ 9
    ∷ 10 ∷ 11 ∷ 12 ∷ 13 ∷ 14 ∷ 15 ∷ 16 ∷ 17 ∷ 18 ∷ 19 ∷ 214 ∷ 0 ∷ 0 ∷ 0 ∷ 7 ∷ 0 ∷ 0 ∷ 0 ∷ 1 ∷ 0 ∷ 0
    ∷ 0 ∷ 1 ∷ 0 ∷ 0 ∷ 0 ∷ 1 ∷ 0 ∷ 0 ∷ 0 ∷ 2 ∷ 0 ∷ 0 ∷ 0 ∷ 1 ∷ 0 ∷ 0 ∷ 0 ∷ 5 ∷ 0 ∷ 0 ∷ 0 ∷ 1 ∷ 0 ∷ 0
    ∷ 0 ∷ 3 ∷ 0 ∷ 0 ∷ 0 ∷ 1 ∷ 0 ∷ 0 ∷ 0 ∷ 2 ∷ 0 ∷ 0 ∷ 0 ∷ 4 ∷ 0 ∷ 0 ∷ 0 ∷ 4 ∷ 0 ∷ 0 ∷ 0 ∷ 4 ∷ 0 ∷ 0
    ∷ 0 ∷ 5 ∷ 0 ∷ 0 ∷ 0 ∷ 0 ∷ 0 ∷ 0 ∷ 0 ∷ 0 ∷ 0 ∷ 0 ∷ 0 ∷ 0 ∷ 0 ∷ 0 ∷ 0 ∷ 2 ∷ 0 ∷ 0 ∷ 0 ∷ 0 ∷ 0 ∷ 0
    ∷ 0 ∷ 0 ∷ 0 ∷ 0 ∷ 0 ∷ 0 ∷ 0 ∷ 0 ∷ 0 ∷ 0 ∷ 0 ∷ 0 ∷ 0 ∷ 3 ∷ 20 ∷ 37 ∷ 54 ∷ 71 ∷ 88 ∷ 105 ∷ 122
    ∷ 139 ∷ 156 ∷ 173 ∷ 190 ∷ 207 ∷ 224 ∷ 241 ∷ 16 ∷ 2 ∷ 0 ∷ 0 ∷ 128 ∷ 1 ∷ 2 ∷ 3 ∷ 4 ∷ 1 ∷ 0 ∷ 0
    ∷ 255 ∷ 8 ∷ 0 ∷ 0 ∷ 3 ∷ 0 ∷ 0 ∷ 0 ∷ 0 ∷ 5 ∷ 0 ∷ 0 ∷ 0 ∷ 104 ∷ 101 ∷ 108 ∷ 108 ∷ 111 ∷ 0 ∷ 0 ∷ 0
    ∷ 97 ∷ 98 ∷ 99 ∷ 100 ∷ 107 ∷ 101 ∷ 121 ∷ 115 ∷ 118 ∷ 97 ∷ 108 ∷ 115 ∷ 0 ∷ 0 ∷ 0 ∷ 0 ∷ 3 ∷ 0 ∷ 0
    ∷ 0 ∷ 98 ∷ 105 ∷ 103 ∷ 0 ∷ 0 ∷ 0 ∷ 0 ∷ 0 ∷ 2 ∷ 0 ∷ 0 ∷ 0 ∷ 114 ∷ 120 ∷ 0 ∷ 0 ∷ 1 ∷ 2 ∷ []

abbrev pub v96_file : HbcFile
v96_file = record {
  buf = v96_source;
  header = v87_to_96 (parse_v87_to_96 v96_source 96);
  ranges = record {
    func_headers = range 128 16;
    string_kinds = range 144 4;
    small_string_table = range 152 8;
    overflow_string_table = range 160 8;
    string_storage = range 168 5;
    array_buffer = range 176 4;
    obj_key_buffer = range 180 4;
    obj_value_buffer = range 184 4;
    obj_shape_table = range 0 0;
    big_int_table = range 188 8;
    big_int_storage = range 196 3;
    regexp_table = range 200 8;
    cjs_modules = range 0 0;
  };
  debug_filenames = no_filenames;
  debug_info_v96 = none;
  string_kind_map = 1 ∷ 1 ∷ [];
  bytecode_region = (212, 214);
  sections =
      placed "Header" 0 128
      ∷ placed "FunctionHeaders" 128 16
      ∷ placed "StringKinds" 144 4
      ∷ placed "IdentifierHashes" 148 4
      ∷ placed "SmallStringTable" 152 8
      ∷ placed "OverflowStringTable" 160 8
      ∷ placed "StringStorage" 168 5
      ∷ placed "ArrayBuffer" 176 4
      ∷ placed "ObjKeyBuffer" 180 4
      ∷ placed "ObjValueBuffer" 184 4
      ∷ placed "BigIntTable" 188 8
      ∷ placed "BigIntStorage" 196 3
      ∷ placed "RegExpTable" 200 8
      ∷ placed "RegExpStorage" 208 2
      ∷ [];
  input_hash = "";
  unrecognized_functions = [];
  large_header_layout = some shape36;
}

pub v96_bytes : IsBytes v96_source
v96_bytes = omega arith

pub v96_parsed : (parse_inner fits v96_source "").result ≡ ok v96_file
unfolding parse_inner parse_sections check_counts walk_sections object_sections big_int_sections
    source_section section section_opt align4 decode_string_kinds kinds_loop kind_entry fill_run
    bytecode_region_of read_debug_filenames debug_info_v96_parse parse_hbc_header dispatch
    read_u32_le read_bitfield read_loop version file_length func_header_size function_count
    string_kind_count identifier_count string_count overflow_string_count string_storage_size
    reg_exp_count reg_exp_storage_size array_buffer_size obj_key_buffer_size obj_value_buffer_size
    obj_shape_table_count big_int_count big_int_storage_size cjs_module_count function_source_count
    debug_info_offset droidsaw_hermes.Sections.◌>>=◌ parse_v87_to_96
v96_parsed = refl
