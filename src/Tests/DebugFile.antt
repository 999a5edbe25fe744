-- ===== src/Tests/DebugFile.antt =====
-- A file of version 96 with nothing but debug information, and what its accessors return.
use droidsaw_hermes.Prelude.{ℕ, List, [], ◌∷◌, some}
use droidsaw_hermes.Header.{v87_to_96}
use droidsaw_hermes.Header.Parse.{parse_v87_to_96}
use droidsaw_hermes.Sections.{Section}
use droidsaw_hermes.DebugInfo.{DebugInfoV96, range}
use droidsaw_hermes.File.{HbcFile, shape36}
use droidsaw_hermes.File.Debug.Served.{Served}
use droidsaw_hermes.Tests.Counts.{placed}

abbrev debug_source : List ℕ
debug_source =
    198 ∷ 31 ∷ 188 ∷ 3 ∷ 193 ∷ 3 ∷ 25 ∷ 31 ∷ 96 ∷ 0 ∷ 0 ∷ 0 ∷ 0 ∷ 1 ∷ 2 ∷ 3 ∷ 4 ∷ 5 ∷ 6 ∷ 7 ∷ 8 ∷ 9
    ∷ 10 ∷ 11 ∷ 12 ∷ 13 ∷ 14 ∷ 15 ∷ 16 ∷ 17 ∷ 18 ∷ 19 ∷ 174 ∷ 0 ∷ 0 ∷ 0 ∷ 0 ∷ 0 ∷ 0 ∷ 0 ∷ 0 ∷ 0 ∷ 0
    ∷ 0 ∷ 0 ∷ 0 ∷ 0 ∷ 0 ∷ 0 ∷ 0 ∷ 0 ∷ 0 ∷ 0 ∷ 0 ∷ 0 ∷ 0 ∷ 0 ∷ 0 ∷ 0 ∷ 0 ∷ 0 ∷ 0 ∷ 0 ∷ 0 ∷ 0 ∷ 0 ∷ 0
    ∷ 0 ∷ 0 ∷ 0 ∷ 0 ∷ 0 ∷ 0 ∷ 0 ∷ 0 ∷ 0 ∷ 0 ∷ 0 ∷ 0 ∷ 0 ∷ 0 ∷ 0 ∷ 0 ∷ 0 ∷ 0 ∷ 0 ∷ 0 ∷ 0 ∷ 0 ∷ 0 ∷ 0
    ∷ 0 ∷ 0 ∷ 0 ∷ 0 ∷ 0 ∷ 0 ∷ 0 ∷ 0 ∷ 0 ∷ 0 ∷ 0 ∷ 0 ∷ 0 ∷ 128 ∷ 0 ∷ 0 ∷ 0 ∷ 0 ∷ 0 ∷ 0 ∷ 0 ∷ 0 ∷ 0
    ∷ 0 ∷ 0 ∷ 0 ∷ 0 ∷ 0 ∷ 0 ∷ 0 ∷ 0 ∷ 0 ∷ 0 ∷ 0 ∷ 0 ∷ 0 ∷ 0 ∷ 1 ∷ 0 ∷ 0 ∷ 0 ∷ 4 ∷ 0 ∷ 0 ∷ 0 ∷ 1 ∷ 0
    ∷ 0 ∷ 0 ∷ 4 ∷ 0 ∷ 0 ∷ 0 ∷ 6 ∷ 0 ∷ 0 ∷ 0 ∷ 0 ∷ 0 ∷ 0 ∷ 0 ∷ 1 ∷ 0 ∷ 0 ∷ 0 ∷ 2 ∷ 0 ∷ 0 ∷ 0 ∷ 0 ∷ 0
    ∷ 0 ∷ 0 ∷ 97 ∷ 46 ∷ 106 ∷ 115 ∷ 9 ∷ 2 ∷ 3 ∷ 127 ∷ 5 ∷ 6 ∷ []

abbrev debug_info : DebugInfoV96
debug_info = record {
  header = record {
    filename_count = 1;
    filename_storage_size = 4;
    file_region_count = 1;
    lexical_data_offset = 4;
    debug_data_size = 6;
  };
  file_region_table = range 148 12;
  filename_storage = range 164 4;
  source_locations_data = range 168 4;
  lexical_data = range 172 2;
}

abbrev debug_file : HbcFile
debug_file = record {
  buf = debug_source;
  header = v87_to_96 (parse_v87_to_96 debug_source 96);
  ranges = record {
    func_headers = range 128 0;
    string_kinds = range 128 0;
    small_string_table = range 128 0;
    overflow_string_table = range 128 0;
    string_storage = range 128 0;
    array_buffer = range 0 0;
    obj_key_buffer = range 0 0;
    obj_value_buffer = range 0 0;
    obj_shape_table = range 0 0;
    big_int_table = range 0 0;
    big_int_storage = range 0 0;
    regexp_table = range 0 0;
    cjs_modules = range 0 0;
  };
  debug_filenames = record {
    debug_filename_count = 1;
    debug_filename_table = range 144 8;
    debug_filename_storage = range 152 4;
  };
  debug_info_v96 = some debug_info;
  string_kind_map = [];
  bytecode_region = (128, 128);
  sections =
      placed "Header" 0 128
      ∷ placed "FunctionHeaders" 128 0
      ∷ placed "StringKinds" 128 0
      ∷ placed "IdentifierHashes" 128 0
      ∷ placed "SmallStringTable" 128 0
      ∷ placed "OverflowStringTable" 128 0
      ∷ placed "StringStorage" 128 0
      ∷ [];
  input_hash = "";
  unrecognized_functions = [];
  large_header_layout = some shape36;
}
