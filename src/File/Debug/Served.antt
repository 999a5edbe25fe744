-- ===== src/File/Debug/Served.antt =====
-- What the accessors for debug information in src/parser/mod.rs return on a file that was parsed.
use Prim.Native.String.{String}
use droidsaw_hermes.Prelude.{ℕ, ◌≤◌, ◌≡◌, ◌↔◌, List, Option, none, take, drop}
use droidsaw_hermes.Header.{version}
use droidsaw_hermes.Decode.{ℤ}
use droidsaw_hermes.Sections.{Range}
use droidsaw_hermes.DebugInfo.{DebugInfoV96}
use droidsaw_hermes.DebugInfo.Locations.{decode_source_locations}
use droidsaw_hermes.File.{HbcFile}
use droidsaw_hermes.File.Debug.{
  debug_file_region_get, source_locations, lexical_data_bytes, debug_filenames_utf8,
  debug_info_classification, full,
}

-- The bytes of a range.
abbrev pub bytes_of : List ℕ → Range → List ℕ
bytes_of buf r = take r.size (drop r.offset buf)

pub record Served (file : HbcFile) (info : DebugInfoV96) : Type 0 where
  pub regions :
      (i : ℕ) → (debug_file_region_get file i ≡ none) ↔ (info.header.file_region_count ≤ i)
  pub locations :
      (read_sleb128 : List ℕ → ℕ → Option (ℤ × ℕ))
      → source_locations read_sleb128 file
        ≡ decode_source_locations read_sleb128
            (bytes_of file.buf info.source_locations_data)
            (version file.header)
  pub filenames : (debug_filenames_utf8 file ≡ none) ↔ (info.filename_storage.size ≡ 0)
  pub lexical : (lexical_data_bytes file ≡ none) ↔ (info.lexical_data.size ≡ 0)
  pub classified : debug_info_classification file ≡ full
