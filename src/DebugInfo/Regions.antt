-- ===== src/DebugInfo/Regions.antt =====
-- The regions that `debug_info_v96_parse` of src/parser/debug_info.rs returns.
use droidsaw_hermes.Prelude.{ℕ, ◌+◌, ◌≤◌, ◌≡◌, List, some, length, arith, min}
use droidsaw_hermes.Errors.{ok}
use droidsaw_hermes.DebugInfo.{DebugInfoV96, debug_info_ranges, debug_info_v96_parse}

-- The regions follow each other behind the header, which lies behind the file header; the last one
-- ends at the declared end of the data or at the end of the buffer.
pub record Adjacent (buf : List ℕ) (offset : ℕ) (info : DebugInfoV96) : Type 0 where
  pub behind_header : 128 ≤ offset
  pub table_at : info.file_region_table.offset ≡ offset + 20
  pub storage_at :
      info.filename_storage.offset ≡ info.file_region_table.offset + info.file_region_table.size + 4
  pub locations_at :
      info.source_locations_data.offset ≡ info.filename_storage.offset + info.filename_storage.size
  pub lexical_at :
      info.lexical_data.offset ≡ info.source_locations_data.offset + info.source_locations_data.size
  pub ends_inside : info.lexical_data.offset + info.lexical_data.size ≤ length buf
  pub data_size :
      info.lexical_data.offset + info.lexical_data.size
      ≡ min (info.source_locations_data.offset + info.header.debug_data_size) (length buf)

-- The regions of a parsed debug section lie one behind the other, from 20 bytes behind the offset,
-- which is at least 128, up to the smaller of the declared end of the data and the end of the buffer.
pub debug_info_v96_parse-Adjacent :
    (buf : List ℕ) (offset version : ℕ) (info : DebugInfoV96)
    → debug_info_v96_parse buf offset version ≡ ok (some info)
    → Adjacent buf offset info
unfolding debug_info_v96_parse debug_info_ranges
debug_info_v96_parse-Adjacent buf offset version info e = ground arith
