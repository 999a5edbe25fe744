-- ===== src/Emit/Headers.antt =====
-- The header writers of src/emit.rs. Fields that the parser skips are copied from the source.
use droidsaw_hermes.Prelude.{ℕ, ◌%◌, ◌^◌, Bool, true, false, List, [], ◌∷◌}
use droidsaw_hermes.Bytes.{to_le_bytes}
use droidsaw_hermes.Header.{
  version, function_count, string_kind_count, identifier_count, string_count, overflow_string_count,
  string_storage_size, reg_exp_count, reg_exp_storage_size, big_int_count, cjs_module_count,
  function_source_count, debug_info_offset, obj_shape_table_count, has_num_string_switch_imms,
}
use droidsaw_hermes.Header.Parse.{hbc_magic}
use droidsaw_hermes.File.{HbcFile}
use droidsaw_hermes.Emit.{Writer, run, bytes, u32, copy}

-- The accessors that narrow the size of a section to u32.
abbrev pub big_int_storage_size : HbcFile → ℕ
big_int_storage_size file = file.ranges.big_int_storage.size % 2 ^ 32

abbrev pub array_buffer_size : HbcFile → ℕ
array_buffer_size file = file.ranges.array_buffer.size % 2 ^ 32

abbrev pub obj_key_buffer_size : HbcFile → ℕ
obj_key_buffer_size file = file.ranges.obj_key_buffer.size % 2 ^ 32

abbrev pub obj_value_buffer_size : HbcFile → ℕ
obj_value_buffer_size file = file.ranges.obj_value_buffer.size % 2 ^ 32

-- Magic number to global code index, the same in all layouts.
abbrev pub header_start : ℕ → List ℕ → ℕ → List Writer → List Writer
header_start version src file_length rest =
    bytes (to_le_bytes 8 hbc_magic)
    ∷ u32 version
    ∷ copy src 12 32
    ∷ u32 file_length
    ∷ copy src 36 40
    ∷ rest

-- The counts of functions and strings, the same in all layouts.
abbrev pub string_counts : HbcFile → List Writer → List Writer
string_counts file rest =
    u32 (function_count file.header)
    ∷ u32 (string_kind_count file.header)
    ∷ u32 (identifier_count file.header)
    ∷ u32 (string_count file.header)
    ∷ u32 (overflow_string_count file.header)
    ∷ u32 (string_storage_size file.header)
    ∷ rest

unfoldable pub emit_header_v96 : HbcFile → List ℕ → ℕ → Writer
emit_header_v96 file src file_length = run (
    header_start 96 src file_length (
      string_counts file (
        u32 (big_int_count file.header)
        ∷ u32 (big_int_storage_size file)
        ∷ u32 (reg_exp_count file.header)
        ∷ u32 (reg_exp_storage_size file.header)
        ∷ u32 (array_buffer_size file)
        ∷ u32 (obj_key_buffer_size file)
        ∷ u32 (obj_value_buffer_size file)
        ∷ copy src 92 96
        ∷ u32 (cjs_module_count file.header)
        ∷ u32 (function_source_count file.header)
        ∷ u32 (debug_info_offset file.header)
        ∷ copy src 108 128
        ∷ [])))

unfoldable pub emit_header_v84 : HbcFile → List ℕ → ℕ → Writer
emit_header_v84 file src file_length = run (
    header_start (version file.header) src file_length (
      string_counts file (
        u32 (reg_exp_count file.header)
        ∷ u32 (reg_exp_storage_size file.header)
        ∷ u32 (array_buffer_size file)
        ∷ u32 (obj_key_buffer_size file)
        ∷ u32 (obj_value_buffer_size file)
        ∷ copy src 84 88
        ∷ u32 (cjs_module_count file.header)
        ∷ u32 (function_source_count file.header)
        ∷ u32 (debug_info_offset file.header)
        ∷ copy src 100 128
        ∷ [])))

-- The end of the header of version 98 or 99, from the flag for `numStringSwitchImms` on.
abbrev pub header_end_v98 : Bool → HbcFile → List ℕ → List Writer
header_end_v98 true file src =
    copy src 92 96
    ∷ copy src 96 100
    ∷ u32 (cjs_module_count file.header)
    ∷ u32 (function_source_count file.header)
    ∷ u32 (debug_info_offset file.header)
    ∷ copy src 112 128
    ∷ []
header_end_v98 false file src =
    copy src 92 96
    ∷ u32 (cjs_module_count file.header)
    ∷ u32 (function_source_count file.header)
    ∷ u32 (debug_info_offset file.header)
    ∷ copy src 108 128
    ∷ []

unfoldable pub emit_header_v98 : HbcFile → List ℕ → ℕ → Writer
emit_header_v98 file src file_length = run (
    header_start (version file.header) src file_length (
      string_counts file (
        u32 (big_int_count file.header)
        ∷ u32 (big_int_storage_size file)
        ∷ u32 (reg_exp_count file.header)
        ∷ u32 (reg_exp_storage_size file.header)
        ∷ u32 (array_buffer_size file)
        ∷ u32 (obj_key_buffer_size file)
        ∷ u32 (obj_shape_table_count file.header)
        ∷ header_end_v98 (has_num_string_switch_imms file.header) file src)))
