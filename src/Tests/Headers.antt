-- ===== src/Tests/Headers.antt =====
-- Runs of the header parser.
use droidsaw_hermes.Prelude.{ℕ, ◌≡◌, refl, List, [], ◌∷◌, ◌++◌, replicate}
use droidsaw_hermes.Errors.{header_too_small, unsupported_version, ambiguous_v98_form, ok, err}
use droidsaw_hermes.Bytes.{to_le_bytes, read_u32_le}
use droidsaw_hermes.Header.{HbcHeader, v87_to_96}
use droidsaw_hermes.Header.Parse.{
  hbc_magic, parse_hbc_header, dispatch, detect_late_v98_form, logged,
}
use droidsaw_hermes.Header.Parse.Dispatch.{Accepted, parse_hbc_header-Accepted}
use droidsaw_hermes.Header.Parse.Refused.{Refused, parse_hbc_header-Refused}

-- A header of the given version and function count; the last 24 bytes are given.
abbrev header_bytes : ℕ → ℕ → List ℕ → List ℕ
header_bytes v functions tail =
    to_le_bytes 8 hbc_magic
    ++ (to_le_bytes 4 v
        ++ (replicate 28 0 ++ (to_le_bytes 4 functions ++ (replicate 60 0 ++ tail))))

abbrev v96_bytes : List ℕ
v96_bytes = header_bytes 96 0 (replicate 24 0)

abbrev v96_header : HbcHeader
v96_header = v87_to_96 (record {
  version = 96;
  file_length = 0;
  global_code_index = 0;
  function_count = 0;
  string_kind_count = 0;
  identifier_count = 0;
  string_count = 0;
  overflow_string_count = 0;
  string_storage_size = 0;
  big_int_count = 0;
  big_int_storage_size = 0;
  reg_exp_count = 0;
  reg_exp_storage_size = 0;
  array_buffer_size = 0;
  obj_key_buffer_size = 0;
  obj_value_buffer_size = 0;
  segment_id = 0;
  cjs_module_count = 0;
  function_source_count = 0;
  debug_info_offset = 0;
})

parse_v96 : parse_hbc_header v96_bytes ≡ logged (ok v96_header)
unfolding parse_hbc_header dispatch read_u32_le
parse_v96 = refl

parse_short : parse_hbc_header (1 ∷ []) ≡ logged (err (header_too_small 1))
unfolding parse_hbc_header
parse_short = refl

parse_hbc_header-Accepted_example : Accepted v96_bytes v96_header
unfolding parse_hbc_header dispatch read_u32_le
parse_hbc_header-Accepted_example = parse_hbc_header-Accepted v96_bytes refl

abbrev v101_bytes : List ℕ
v101_bytes = header_bytes 101 0 (replicate 24 0)

parse_v101 : parse_hbc_header v101_bytes ≡ logged (err (unsupported_version 101 40 100))
unfolding parse_hbc_header dispatch read_u32_le
parse_v101 = refl

-- Both options bytes have a reserved bit.
abbrev reserved_bytes : List ℕ
reserved_bytes = header_bytes 98 1 (replicate 4 0 ++ (0x80 ∷ 0 ∷ 0 ∷ 0 ∷ 0x80 ∷ replicate 15 0))

parse_hbc_header-Refused_example : Refused reserved_bytes (ambiguous_v98_form 0x80 0x80)
unfolding parse_hbc_header dispatch detect_late_v98_form read_u32_le
parse_hbc_header-Refused_example =
    parse_hbc_header-Refused reserved_bytes (ambiguous_v98_form 0x80 0x80) refl
