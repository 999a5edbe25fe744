-- ===== src/File/Debug.antt =====
-- The accessors of `HbcFile` in src/parser/mod.rs for the debug information of versions 94 to 99.
pub mod Served
use droidsaw_hermes.Prelude.{
  ℕ, ◌+◌, ◌*◌, List, Option, none, some, leb, ◌==◌, take, drop, if◌then◌else◌,
}
use droidsaw_hermes.Bytes.{get_range, from_le_bytes, and_then}
use droidsaw_hermes.Header.{version}
use droidsaw_hermes.Decode.{ℤ}
use droidsaw_hermes.Sections.{Range}
use droidsaw_hermes.DebugInfo.{DebugInfoV96}
use droidsaw_hermes.DebugInfo.Locations.{FunctionSourceInfo, decode_source_locations}
use droidsaw_hermes.File.{HbcFile}
use droidsaw_hermes.File.Raw.{read_entry}

pub record DebugFileRegion : Type 0 where
  pub from_address : ℕ
  pub filename_id : ℕ
  pub source_mapping_url_id : ℕ

pub data DebugInfoClassification : Type 0 where
  absent header_only full : DebugInfoClassification

abbrev pub debug_file_region : List ℕ → DebugFileRegion
debug_file_region entry = record {
  from_address = from_le_bytes (take 4 entry);
  filename_id = from_le_bytes (take 4 (drop 4 entry));
  source_mapping_url_id = from_le_bytes (take 4 (drop 8 entry));
}

unfoldable pub debug_file_region_get : HbcFile → ℕ → Option DebugFileRegion
debug_file_region_get file index = and_then file.debug_info_v96 λ info.
    if leb info.header.file_region_count index
    then none
    else read_entry file.buf (info.file_region_table.offset + index * 12) 12 debug_file_region

-- `buf.get(start..start + len)`
abbrev pub slice_of : List ℕ → Range → Option (List ℕ)
slice_of buf r = get_range buf r.offset (r.offset + r.size)

unfoldable pub source_locations :
    (List ℕ → ℕ → Option (ℤ × ℕ)) → HbcFile → Option (List FunctionSourceInfo)
source_locations read_sleb128 file = and_then file.debug_info_v96 λ info.
    and_then (slice_of file.buf info.source_locations_data)
      λ bytes. decode_source_locations read_sleb128 bytes (version file.header)

unfoldable pub lexical_data_bytes : HbcFile → Option (List ℕ)
lexical_data_bytes file =
    and_then file.debug_info_v96
      λ info. if info.lexical_data.size == 0 then none else slice_of file.buf info.lexical_data

unfoldable pub debug_filenames_utf8 : HbcFile → Option (List ℕ)
debug_filenames_utf8 file = and_then file.debug_info_v96 λ info.
    if info.filename_storage.size == 0 then none else slice_of file.buf info.filename_storage

unfoldable pub debug_info_classification : HbcFile → DebugInfoClassification
debug_info_classification file = elim file.debug_info_v96 [
  | none ↦ absent
  | some info ↦ if info.header.debug_data_size == 0 then header_only else full
]
