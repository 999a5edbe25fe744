-- ===== src/Tests/Debug.antt =====
-- Runs of the debug-information parser and of the decoding of the string kinds.
use droidsaw_hermes.Prelude.{ℕ, ◌≡◌, refl, List, [], ◌∷◌, ◌++◌, replicate, none, some, arith}
use droidsaw_hermes.Errors.{inconsistent_debug_header, ok, err}
use droidsaw_hermes.Bytes.{to_le_bytes, read_u32_le}
use droidsaw_hermes.DebugInfo.{DebugInfoV96, debug_info_v96_parse, debug_info_ranges, range}
use droidsaw_hermes.DebugInfo.Regions.{Adjacent, debug_info_v96_parse-Adjacent}
use droidsaw_hermes.File.{decode_string_kinds}
use droidsaw_hermes.Header.{string_count, string_kind_count, version}
use droidsaw_hermes.Header.Parse.{parse_v87_to_96}
use droidsaw_hermes.File.Kinds.{decode_string_kinds-expand}
use droidsaw_hermes.Tests.OldFiles.{v96_source, v96_file, v96_bytes}

-- A debug section at offset 128 with one file region and the given lexical offset and data size.
abbrev debug_source : ℕ → ℕ → List ℕ
debug_source lexical size =
    replicate 128 0
    ++ (to_le_bytes 4 1
        ++ (to_le_bytes 4 3
            ++ (to_le_bytes 4 1
                ++ (to_le_bytes 4 lexical ++ (to_le_bytes 4 size ++ replicate 24 7)))))

abbrev debug_found : DebugInfoV96
debug_found = record {
  header = record {
    filename_count = 1;
    filename_storage_size = 3;
    file_region_count = 1;
    lexical_data_offset = 2;
    debug_data_size = 6;
  };
  file_region_table = range 148 12;
  filename_storage = range 164 3;
  source_locations_data = range 167 2;
  lexical_data = range 169 3;
}

debug_parsed : debug_info_v96_parse (debug_source 2 6) 128 96 ≡ ok (some debug_found)
unfolding debug_info_v96_parse debug_info_ranges read_u32_le
debug_parsed = refl

debug_inconsistent :
    debug_info_v96_parse (debug_source 7 6) 128 96 ≡ err (inconsistent_debug_header 7 6)
unfolding debug_info_v96_parse debug_info_ranges read_u32_le
debug_inconsistent = refl

debug_in_header : debug_info_v96_parse (debug_source 7 6) 127 96 ≡ ok none
unfolding debug_info_v96_parse debug_info_ranges
debug_in_header = refl

debug_info_v96_parse-Adjacent_example : Adjacent (debug_source 2 6) 128 debug_found
debug_info_v96_parse-Adjacent_example =
    debug_info_v96_parse-Adjacent (debug_source 2 6) 128 96 debug_found debug_parsed

decode_string_kinds-expand_example :
    decode_string_kinds v96_source v96_file.ranges.string_kinds v96_file.header ≡ 1 ∷ 1 ∷ []
unfolding string_count string_kind_count version parse_v87_to_96 read_u32_le
decode_string_kinds-expand_example =
    decode_string_kinds-expand v96_source v96_file.ranges.string_kinds v96_file.header v96_bytes
      (omega arith)
