-- ===== src/DebugInfo.antt =====
-- `debug_info_v96_parse` of src/parser/debug_info.rs. Its u64 sums start from five u32 fields, so the
-- checked operations never overflow and are written as plain sums.
pub mod Regions
pub mod Locations
use droidsaw_hermes.Prelude.{
  ℕ, ◌+◌, ◌*◌, ◌-◌, Bool, true, false, List, Option, none, some, ltb, leb, ◌==◌, ◌&&◌, not, min,
  length, if◌then◌else◌,
}
use droidsaw_hermes.Errors.{HermesError, inconsistent_debug_header, Result, ok, err}
use droidsaw_hermes.Bytes.{read_u32_le}
use droidsaw_hermes.Header.Parse.{header_size}
use droidsaw_hermes.Sections.{Range}

pub record DebugInfoHeaderV96 : Type 0 where
  pub filename_count : ℕ
  pub filename_storage_size : ℕ
  pub file_region_count : ℕ
  pub lexical_data_offset : ℕ
  pub debug_data_size : ℕ

pub record DebugInfoV96 : Type 0 where
  pub header : DebugInfoHeaderV96
  pub file_region_table : Range
  pub filename_storage : Range
  pub source_locations_data : Range
  pub lexical_data : Range

abbrev pub debug_info_v96_min : ℕ
debug_info_v96_min = 94

abbrev pub debug_info_v96_max : ℕ
debug_info_v96_max = 99

abbrev pub range : ℕ → ℕ → Range
range offset size = record { offset = offset; size = size }

abbrev pub read_debug_info_header : List ℕ → ℕ → DebugInfoHeaderV96
read_debug_info_header buf dbg_off = record {
  filename_count = read_u32_le buf dbg_off;
  filename_storage_size = read_u32_le buf (dbg_off + 4);
  file_region_count = read_u32_le buf (dbg_off + 8);
  lexical_data_offset = read_u32_le buf (dbg_off + 12);
  debug_data_size = read_u32_le buf (dbg_off + 16);
}

-- The ranges behind a header that has passed its own tests.
unfoldable pub debug_info_ranges : ℕ → ℕ → DebugInfoHeaderV96 → Option DebugInfoV96
debug_info_ranges len header_end header =
    let file_region_table_size = header.file_region_count * 12 in
    let file_region_table_end = header_end + file_region_table_size in
    let filename_storage_start = file_region_table_end + 4 in
    let filename_storage_end = filename_storage_start + header.filename_storage_size in
    let source_locations_end = filename_storage_end + header.lexical_data_offset in
    let data_total_end = filename_storage_end + header.debug_data_size in
    let lexical_data_end = min data_total_end len in
    if ltb len file_region_table_end
    then none
    else if ltb len filename_storage_end
    then none
    else if ltb len source_locations_end
    then none
    else some record {
      header = header;
      file_region_table = range header_end file_region_table_size;
      filename_storage = range filename_storage_start header.filename_storage_size;
      source_locations_data = range filename_storage_end header.lexical_data_offset;
      lexical_data = range source_locations_end (lexical_data_end - source_locations_end);
    }

unfoldable pub debug_info_v96_parse : List ℕ → ℕ → ℕ → Result HermesError (Option DebugInfoV96)
debug_info_v96_parse buf debug_info_offset version =
    let header = read_debug_info_header buf debug_info_offset in
    let header_end = debug_info_offset + 20 in
    if debug_info_offset == 0
    then ok none
    else if not (leb debug_info_v96_min version && leb version debug_info_v96_max)
    then ok none
    else if ltb debug_info_offset header_size
    then ok none
    else if ltb (length buf) header_end
    then ok none
    else if header.debug_data_size == 0
    then ok none
    else if ltb header.debug_data_size header.lexical_data_offset
    then err (inconsistent_debug_header header.lexical_data_offset header.debug_data_size)
    else ok (debug_info_ranges (length buf) header_end header)
