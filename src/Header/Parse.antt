-- ===== src/Header/Parse.antt =====
-- `parse_hbc_header` of src/header.rs and the functions that it calls. The calls of `emit_finding`
-- are listed beside the result; that channel's own deduplication is not modelled.
pub mod Dispatch
pub mod Refused
pub mod Layouts
use droidsaw_hermes.Prelude.{
  ℕ, ◌+◌, ◌-◌, ◌<◌, Bool, true, false, not, ◌&&◌, List, [], ◌∷◌, Option, none, some, ltb, leb, ◌==◌,
  if◌then◌else◌, length, get_elem?, bit_and, min,
}
use droidsaw_hermes.Errors.{
  HermesError, header_too_small, invalid_magic, unsupported_version, ambiguous_v98_form, Result, ok,
  err, ◌>>=◌,
}
use droidsaw_hermes.Bytes.{first_chunk, from_le_bytes, read_u32_le}
use droidsaw_hermes.Header.{
  PreV84Header, V84to86Header, V87to96Header, V97toV98EarlyHeader, V98LateToV99Header, HbcHeader,
  pre_v84, v84_to_86, v87_to_96, v97_to_v98_early, v98_late_to_v99,
}

abbrev pub hbc_magic : ℕ
hbc_magic = 0x1F1903C103BC1FC6

abbrev pub header_size : ℕ
header_size = 128

abbrev min_supported_version : ℕ
min_supported_version = 40

abbrev max_supported_version : ℕ
max_supported_version = 100

abbrev bytecode_options_early : ℕ
bytecode_options_early = 108

abbrev bytecode_options_late : ℕ
bytecode_options_late = 112

abbrev bytecode_options_valid_mask : ℕ
bytecode_options_valid_mask = 0xF8

pub data HermesFinding : Type 0 where
  v98_form_ambiguous :
      (early_options late_options function_count debug_with debug_without : ℕ)
      → (picked_late : Bool) → HermesFinding
  file_length_disagreement : (declared observed : ℕ) → HermesFinding

-- A result with the findings emitted on the way to it.
pub record Logged {ℓ} (A : Type ℓ) : Type ℓ where
  pub findings : List HermesFinding
  pub result : Result HermesError A

abbrev pub logged {ℓ} : {A : Type ℓ} → Result HermesError A → Logged A
logged r = record { findings = []; result = r }

parse_pre_v84 : List ℕ → ℕ → PreV84Header
parse_pre_v84 buf version = record {
  version = version;
  file_length = read_u32_le buf 32;
  global_code_index = read_u32_le buf 36;
  function_count = read_u32_le buf 40;
  string_kind_count = read_u32_le buf 44;
  identifier_count = read_u32_le buf 48;
  string_count = read_u32_le buf 52;
  overflow_string_count = read_u32_le buf 56;
  string_storage_size = read_u32_le buf 60;
  reg_exp_count = read_u32_le buf 64;
  reg_exp_storage_size = read_u32_le buf 68;
  array_buffer_size = read_u32_le buf 72;
  obj_key_buffer_size = read_u32_le buf 76;
  obj_value_buffer_size = read_u32_le buf 80;
  segment_id = read_u32_le buf 84;
  cjs_module_count = read_u32_le buf 88;
  debug_info_offset = read_u32_le buf 92;
}

unfoldable pub parse_v84_to_86 : List ℕ → ℕ → V84to86Header
parse_v84_to_86 buf version = record {
  version = version;
  file_length = read_u32_le buf 32;
  global_code_index = read_u32_le buf 36;
  function_count = read_u32_le buf 40;
  string_kind_count = read_u32_le buf 44;
  identifier_count = read_u32_le buf 48;
  string_count = read_u32_le buf 52;
  overflow_string_count = read_u32_le buf 56;
  string_storage_size = read_u32_le buf 60;
  reg_exp_count = read_u32_le buf 64;
  reg_exp_storage_size = read_u32_le buf 68;
  array_buffer_size = read_u32_le buf 72;
  obj_key_buffer_size = read_u32_le buf 76;
  obj_value_buffer_size = read_u32_le buf 80;
  segment_id = read_u32_le buf 84;
  cjs_module_count = read_u32_le buf 88;
  function_source_count = read_u32_le buf 92;
  debug_info_offset = read_u32_le buf 96;
}

unfoldable pub parse_v87_to_96 : List ℕ → ℕ → V87to96Header
parse_v87_to_96 buf version = record {
  version = version;
  file_length = read_u32_le buf 32;
  global_code_index = read_u32_le buf 36;
  function_count = read_u32_le buf 40;
  string_kind_count = read_u32_le buf 44;
  identifier_count = read_u32_le buf 48;
  string_count = read_u32_le buf 52;
  overflow_string_count = read_u32_le buf 56;
  string_storage_size = read_u32_le buf 60;
  big_int_count = read_u32_le buf 64;
  big_int_storage_size = read_u32_le buf 68;
  reg_exp_count = read_u32_le buf 72;
  reg_exp_storage_size = read_u32_le buf 76;
  array_buffer_size = read_u32_le buf 80;
  obj_key_buffer_size = read_u32_le buf 84;
  obj_value_buffer_size = read_u32_le buf 88;
  segment_id = read_u32_le buf 92;
  cjs_module_count = read_u32_le buf 96;
  function_source_count = read_u32_le buf 100;
  debug_info_offset = read_u32_le buf 104;
}

unfoldable pub parse_v97_to_v98_early : List ℕ → ℕ → V97toV98EarlyHeader
parse_v97_to_v98_early buf version = record {
  version = version;
  file_length = read_u32_le buf 32;
  global_code_index = read_u32_le buf 36;
  function_count = read_u32_le buf 40;
  string_kind_count = read_u32_le buf 44;
  identifier_count = read_u32_le buf 48;
  string_count = read_u32_le buf 52;
  overflow_string_count = read_u32_le buf 56;
  string_storage_size = read_u32_le buf 60;
  big_int_count = read_u32_le buf 64;
  big_int_storage_size = read_u32_le buf 68;
  reg_exp_count = read_u32_le buf 72;
  reg_exp_storage_size = read_u32_le buf 76;
  array_buffer_size = read_u32_le buf 80;
  obj_key_buffer_size = read_u32_le buf 84;
  obj_shape_table_count = read_u32_le buf 88;
  segment_id = read_u32_le buf 92;
  cjs_module_count = read_u32_le buf 96;
  function_source_count = read_u32_le buf 100;
  debug_info_offset = read_u32_le buf 104;
}

unfoldable pub parse_v98_late_to_v99 : List ℕ → ℕ → V98LateToV99Header
parse_v98_late_to_v99 buf version = record {
  version = version;
  file_length = read_u32_le buf 32;
  global_code_index = read_u32_le buf 36;
  function_count = read_u32_le buf 40;
  string_kind_count = read_u32_le buf 44;
  identifier_count = read_u32_le buf 48;
  string_count = read_u32_le buf 52;
  overflow_string_count = read_u32_le buf 56;
  string_storage_size = read_u32_le buf 60;
  big_int_count = read_u32_le buf 64;
  big_int_storage_size = read_u32_le buf 68;
  reg_exp_count = read_u32_le buf 72;
  reg_exp_storage_size = read_u32_le buf 76;
  array_buffer_size = read_u32_le buf 80;
  obj_key_buffer_size = read_u32_le buf 84;
  obj_shape_table_count = read_u32_le buf 88;
  num_string_switch_imms = read_u32_le buf 92;
  segment_id = read_u32_le buf 96;
  cjs_module_count = read_u32_le buf 100;
  function_source_count = read_u32_le buf 104;
  debug_info_offset = read_u32_le buf 108;
}

abbrev unwrap_or_zero : Option ℕ → ℕ
unwrap_or_zero none = 0
unwrap_or_zero (some b) = b

-- `u32::try_from(buf.len()).unwrap_or(u32::MAX)`
abbrev pub len_u32 : List ℕ → ℕ
len_u32 buf = min (length buf) 0xFFFF_FFFF

-- `HEADER_END <= offset < buf_len_u32`
abbrev plausible : List ℕ → ℕ → Bool
plausible buf offset = leb 128 offset && ltb offset (len_u32 buf)

unfoldable pub disambiguate_both_options_valid : List ℕ → Logged Bool
disambiguate_both_options_valid buf =
    let debug_with = read_u32_le buf (92 + 16) in
    let debug_without = read_u32_le buf (92 + 12) in
    let late_debug_plausible = plausible buf debug_with in
    let early_debug_plausible = plausible buf debug_without in
    let function_count = read_u32_le buf 40 in
    let early_options = unwrap_or_zero (get_elem? buf bytecode_options_early) in
    let late_options = unwrap_or_zero (get_elem? buf bytecode_options_late) in
    if late_debug_plausible && not early_debug_plausible
    then logged (ok true)
    else if not late_debug_plausible && early_debug_plausible
    then logged (ok false)
    else if ltb 0 function_count
    then logged (err (ambiguous_v98_form early_options late_options))
    else record {
      findings =
          v98_form_ambiguous early_options late_options function_count debug_with debug_without
            false
          ∷ [];
      result = ok false;
    }

-- The match on the pair of validity tests.
abbrev choose_form : List ℕ → ℕ → ℕ → Bool → Bool → Logged Bool
choose_form buf opt_early opt_late false false =
    logged (err (ambiguous_v98_form opt_early opt_late))
choose_form buf opt_early opt_late true false = logged (ok false)
choose_form buf opt_early opt_late false true = logged (ok true)
choose_form buf opt_early opt_late true true = disambiguate_both_options_valid buf

-- The options byte has none of its reserved bits set.
abbrev pub options_valid : ℕ → Bool
options_valid opt = bit_and opt bytecode_options_valid_mask == 0

abbrev pub detect_at : List ℕ → Option ℕ → Option ℕ → Logged Bool
detect_at buf none _ = logged (ok false)
detect_at buf (some opt_early) none = logged (ok false)
detect_at buf (some opt_early) (some opt_late) =
    choose_form buf opt_early opt_late (options_valid opt_early) (options_valid opt_late)

unfoldable pub detect_late_v98_form : List ℕ → Logged Bool
detect_late_v98_form buf =
    detect_at buf (get_elem? buf bytecode_options_early) (get_elem? buf bytecode_options_late)

-- The arm of version 98, from the answer of `detect_late_v98_form`.
abbrev v98_header : List ℕ → Bool → HbcHeader
v98_header buf true = v98_late_to_v99 (parse_v98_late_to_v99 buf 98)
v98_header buf false = v97_to_v98_early (parse_v97_to_v98_early buf 98)

abbrev unsupported : ℕ → HermesError
unsupported version = unsupported_version version min_supported_version max_supported_version

-- The match on the version.
unfoldable pub dispatch : List ℕ → ℕ → Logged HbcHeader
unfolding parse_pre_v84 parse_v84_to_86 parse_v87_to_96 parse_v97_to_v98_early parse_v98_late_to_v99
dispatch buf version =
    if ltb version min_supported_version
    then logged (err (unsupported version))
    else if leb version 83
    then logged (ok (pre_v84 (parse_pre_v84 buf version)))
    else if leb version 86
    then logged (ok (v84_to_86 (parse_v84_to_86 buf version)))
    else if leb version 96
    then logged (ok (v87_to_96 (parse_v87_to_96 buf version)))
    else if version == 97
    then logged (ok (v97_to_v98_early (parse_v97_to_v98_early buf 97)))
    else if version == 98
    then (let late = detect_late_v98_form buf in
        record {
          findings = late.findings;
          result = late.result >>= λ form. ok (v98_header buf form);
        })
    else if leb version max_supported_version
    then logged (ok (v98_late_to_v99 (parse_v98_late_to_v99 buf version)))
    else logged (err (unsupported version))

-- The check of the first eight bytes; too short a buffer has none.
abbrev check_magic : List ℕ → Option (List ℕ) → Logged HbcHeader
check_magic buf none = logged (err (header_too_small (length buf)))
check_magic buf (some magic_bytes) =
    if from_le_bytes magic_bytes == hbc_magic
    then dispatch buf (read_u32_le buf 8)
    else logged (err (invalid_magic magic_bytes))

unfoldable pub parse_hbc_header : List ℕ → Logged HbcHeader
parse_hbc_header buf =
    if ltb (length buf) header_size
    then logged (err (header_too_small (length buf)))
    else check_magic buf (first_chunk 8 buf)
