-- ===== src/Emit/HeaderBytes.antt =====
-- The header writers of src/emit.rs on a header that was read from the source.
use droidsaw_hermes.Prelude.{
  ℕ, ◌+◌, ◌≤◌, ◌≡◌, ap, ◌∙◌, List, length, take, arith, true, false, length-take, sym,
}
use droidsaw_hermes.Bytes.{IsBytes, from_le_bytes, to_le_bytes, read_u32_le}
use droidsaw_hermes.Header
use droidsaw_hermes.Header.{
  HbcHeader, v84_to_86, v87_to_96, v97_to_v98_early, v98_late_to_v99, function_count, string_count,
  string_kind_count, identifier_count, version, overflow_string_count, string_storage_size,
  reg_exp_count, big_int_count, reg_exp_storage_size, obj_shape_table_count, cjs_module_count,
  function_source_count, has_num_string_switch_imms, debug_info_offset,
}
use droidsaw_hermes.Header.Parse.{
  hbc_magic, parse_v84_to_86, parse_v87_to_96, parse_v97_to_v98_early, parse_v98_late_to_v99,
}
use droidsaw_hermes.File.{HbcFile}
use droidsaw_hermes.Emit.{Writer, u32, bytes, copy}
use droidsaw_hermes.Emit.Slices.{Writes, Writes-u32, Writes-copy, Writes-bytes}
use droidsaw_hermes.Emit.Headers.{
  emit_header_v96, header_start, big_int_storage_size, array_buffer_size, obj_key_buffer_size,
  obj_value_buffer_size, emit_header_v84, string_counts, emit_header_v98,
}
use droidsaw_hermes.Bytes.Value.{to_le_bytes-from_le_bytes, IsBytes-take}
use droidsaw_hermes.Emit.Chains.{Chain, end, ◌⨾◌, run-Chain}

-- What the emitters take from a parsed file: its buffer, and section sizes that fit 32 bits.
pub record Source (file : HbcFile) : Type 0 where
  pub bytes_ok : IsBytes file.buf
  pub long_enough : 128 ≤ length file.buf
  pub has_magic : from_le_bytes (take 8 file.buf) ≡ hbc_magic
  pub declared_length : read_u32_le file.buf 32 ≡ length file.buf

-- The sizes of the sections are those of the header.
pub record Sizes (file : HbcFile) : Type 0 where
  pub big_int_is : big_int_storage_size file ≡ Header.big_int_storage_size file.header
  pub array_is : array_buffer_size file ≡ Header.array_buffer_size file.header
  pub keys_is : obj_key_buffer_size file ≡ Header.obj_key_buffer_size file.header
  pub values_is : obj_value_buffer_size file ≡ Header.obj_value_buffer_size file.header

-- The counts that all layouts have at the same offsets.
record Counts (file : HbcFile) : Type 0 where
  functions : function_count file.header ≡ read_u32_le file.buf 40
  kinds : string_kind_count file.header ≡ read_u32_le file.buf 44
  identifiers : identifier_count file.header ≡ read_u32_le file.buf 48
  strings : string_count file.header ≡ read_u32_le file.buf 52
  overflow : overflow_string_count file.header ≡ read_u32_le file.buf 56
  storage : string_storage_size file.header ≡ read_u32_le file.buf 60

module _ (file : HbcFile) (s : Source file) where
  -- A field that holds what was read at its offset.
  field :
      (off : ℕ) {v : ℕ}
      → off + 4 ≤ 128
      → v ≡ read_u32_le file.buf off
      → Writes file.buf off (off + 4) (u32 v)
  field off b e = rw e (Writes-u32 file.buf off s.bytes_ok (omega (arith, s.long_enough)))

  gap : (a b : ℕ) → a ≤ b → b ≤ 128 → Writes file.buf a b (copy file.buf a b)
  gap a b h k = Writes-copy file.buf a b h (omega (arith, s.long_enough))

  magic : Writes file.buf 0 8 (bytes (to_le_bytes 8 hbc_magic))
  magic =
      let n : length (take 8 file.buf) ≡ 8 = omega (arith, length-take 8 file.buf, s.long_enough) in
      Writes-bytes file.buf 0 8 _ (omega arith) (
        rw (n, s.has_magic) at
          (to_le_bytes-from_le_bytes (take 8 file.buf) (IsBytes-take 8 file.buf s.bytes_ok)))

  -- The part that all layouts share.
  start-Chain :
      (version : ℕ) (rest : List Writer)
      → version ≡ read_u32_le file.buf 8
      → Chain file.buf 128 40 rest
      → Chain file.buf 128 0 (header_start version file.buf (length file.buf) rest)
  start-Chain version rest v k =
      magic
      ⨾ field 8 (omega arith) v
      ⨾ gap 12 32 (omega arith) (omega arith)
      ⨾ field 32 (omega arith) (sym s.declared_length)
      ⨾ gap 36 40 (omega arith) (omega arith)
      ⨾ k

  Counts-Chain :
      (rest : List Writer)
      → Counts file
      → Chain file.buf 128 64 rest
      → Chain file.buf 128 40 (string_counts file rest)
  Counts-Chain rest c k =
      field 40 (omega arith) c.functions
      ⨾ field 44 (omega arith) c.kinds
      ⨾ field 48 (omega arith) c.identifiers
      ⨾ field 52 (omega arith) c.strings
      ⨾ field 56 (omega arith) c.overflow
      ⨾ field 60 (omega arith) c.storage
      ⨾ k

  pub emit_header_v96-Writes :
      file.header ≡ v87_to_96 (parse_v87_to_96 file.buf 96)
      → read_u32_le file.buf 8 ≡ 96
      → Sizes file
      → Writes file.buf 0 128 (emit_header_v96 file file.buf (length file.buf))
  unfolding emit_header_v96 parse_v87_to_96 function_count string_kind_count identifier_count
      string_count overflow_string_count string_storage_size big_int_count
      droidsaw_hermes.Header.big_int_storage_size reg_exp_count reg_exp_storage_size
      droidsaw_hermes.Header.array_buffer_size droidsaw_hermes.Header.obj_key_buffer_size
      droidsaw_hermes.Header.obj_value_buffer_size cjs_module_count function_source_count
      debug_info_offset
  emit_header_v96-Writes e v z =
      let counts : Counts file = record {
        functions = ap function_count e;
        kinds = ap string_kind_count e;
        identifiers = ap identifier_count e;
        strings = ap string_count e;
        overflow = ap overflow_string_count e;
        storage = ap string_storage_size e;
      } in
      run-Chain file.buf 0 128 _ (
        start-Chain _ _ (sym v) (
          Counts-Chain _ counts (
            field 64 (omega arith) (ap big_int_count e)
            ⨾ field 68 (omega arith)
                (z.big_int_is ∙ ap droidsaw_hermes.Header.big_int_storage_size e)
            ⨾ field 72 (omega arith) (ap reg_exp_count e)
            ⨾ field 76 (omega arith) (ap reg_exp_storage_size e)
            ⨾ field 80 (omega arith) (z.array_is ∙ ap droidsaw_hermes.Header.array_buffer_size e)
            ⨾ field 84 (omega arith) (z.keys_is ∙ ap droidsaw_hermes.Header.obj_key_buffer_size e)
            ⨾ field 88 (omega arith)
                (z.values_is ∙ ap droidsaw_hermes.Header.obj_value_buffer_size e)
            ⨾ gap 92 96 (omega arith) (omega arith)
            ⨾ field 96 (omega arith) (ap cjs_module_count e)
            ⨾ field 100 (omega arith) (ap function_source_count e)
            ⨾ field 104 (omega arith) (ap debug_info_offset e)
            ⨾ gap 108 128 (omega arith) (omega arith)
            ⨾ end)))

  pub emit_header_v84-Writes :
      file.header ≡ v84_to_86 (parse_v84_to_86 file.buf 84)
      → read_u32_le file.buf 8 ≡ 84
      → Sizes file
      → Writes file.buf 0 128 (emit_header_v84 file file.buf (length file.buf))
  unfolding emit_header_v84 parse_v84_to_86 version function_count string_kind_count
      identifier_count string_count overflow_string_count string_storage_size reg_exp_count
      reg_exp_storage_size droidsaw_hermes.Header.array_buffer_size
      droidsaw_hermes.Header.obj_key_buffer_size droidsaw_hermes.Header.obj_value_buffer_size
      cjs_module_count function_source_count debug_info_offset
  emit_header_v84-Writes e v z =
      let counts : Counts file = record {
        functions = ap function_count e;
        kinds = ap string_kind_count e;
        identifiers = ap identifier_count e;
        strings = ap string_count e;
        overflow = ap overflow_string_count e;
        storage = ap string_storage_size e;
      } in
      run-Chain file.buf 0 128 _ (
        start-Chain _ _ (ap version e ∙ sym v) (
          Counts-Chain _ counts (
            field 64 (omega arith) (ap reg_exp_count e)
            ⨾ field 68 (omega arith) (ap reg_exp_storage_size e)
            ⨾ field 72 (omega arith) (z.array_is ∙ ap droidsaw_hermes.Header.array_buffer_size e)
            ⨾ field 76 (omega arith) (z.keys_is ∙ ap droidsaw_hermes.Header.obj_key_buffer_size e)
            ⨾ field 80 (omega arith)
                (z.values_is ∙ ap droidsaw_hermes.Header.obj_value_buffer_size e)
            ⨾ gap 84 88 (omega arith) (omega arith)
            ⨾ field 88 (omega arith) (ap cjs_module_count e)
            ⨾ field 92 (omega arith) (ap function_source_count e)
            ⨾ field 96 (omega arith) (ap debug_info_offset e)
            ⨾ gap 100 128 (omega arith) (omega arith)
            ⨾ end)))

  pub emit_header_v98-early :
      (v : ℕ)
      → file.header ≡ v97_to_v98_early (parse_v97_to_v98_early file.buf v)
      → read_u32_le file.buf 8 ≡ v
      → Sizes file
      → Writes file.buf 0 128 (emit_header_v98 file file.buf (length file.buf))
  unfolding emit_header_v98 parse_v97_to_v98_early function_count string_kind_count identifier_count
      string_count overflow_string_count string_storage_size version big_int_count
      droidsaw_hermes.Header.big_int_storage_size reg_exp_count reg_exp_storage_size
      droidsaw_hermes.Header.array_buffer_size droidsaw_hermes.Header.obj_key_buffer_size
      obj_shape_table_count has_num_string_switch_imms cjs_module_count function_source_count
      debug_info_offset
  emit_header_v98-early n e v z =
      let counts : Counts file = record {
        functions = ap function_count e;
        kinds = ap string_kind_count e;
        identifiers = ap identifier_count e;
        strings = ap string_count e;
        overflow = ap overflow_string_count e;
        storage = ap string_storage_size e;
      } in
      let flag : has_num_string_switch_imms file.header ≡ false = ap has_num_string_switch_imms e in
      rw (emit_header_v98, flag)
        (run-Chain file.buf 0 128 _ (
          start-Chain _ _ (ap version e ∙ sym v) (
            Counts-Chain _ counts (
              field 64 (omega arith) (ap big_int_count e)
              ⨾ field 68 (omega arith)
                  (z.big_int_is ∙ ap droidsaw_hermes.Header.big_int_storage_size e)
              ⨾ field 72 (omega arith) (ap reg_exp_count e)
              ⨾ field 76 (omega arith) (ap reg_exp_storage_size e)
              ⨾ field 80 (omega arith) (z.array_is ∙ ap droidsaw_hermes.Header.array_buffer_size e)
              ⨾ field 84 (omega arith) (z.keys_is ∙ ap droidsaw_hermes.Header.obj_key_buffer_size e)
              ⨾ field 88 (omega arith) (ap obj_shape_table_count e)
              ⨾ gap 92 96 (omega arith) (omega arith)
              ⨾ field 96 (omega arith) (ap cjs_module_count e)
              ⨾ field 100 (omega arith) (ap function_source_count e)
              ⨾ field 104 (omega arith) (ap debug_info_offset e)
              ⨾ gap 108 128 (omega arith) (omega arith)
              ⨾ end))))

  pub emit_header_v98-late :
      (v : ℕ)
      → file.header ≡ v98_late_to_v99 (parse_v98_late_to_v99 file.buf v)
      → read_u32_le file.buf 8 ≡ v
      → Sizes file
      → Writes file.buf 0 128 (emit_header_v98 file file.buf (length file.buf))
  unfolding emit_header_v98 parse_v98_late_to_v99 function_count string_kind_count identifier_count
      string_count overflow_string_count string_storage_size version big_int_count
      droidsaw_hermes.Header.big_int_storage_size reg_exp_count reg_exp_storage_size
      droidsaw_hermes.Header.array_buffer_size droidsaw_hermes.Header.obj_key_buffer_size
      obj_shape_table_count has_num_string_switch_imms cjs_module_count function_source_count
      debug_info_offset
  emit_header_v98-late n e v z =
      let counts : Counts file = record {
        functions = ap function_count e;
        kinds = ap string_kind_count e;
        identifiers = ap identifier_count e;
        strings = ap string_count e;
        overflow = ap overflow_string_count e;
        storage = ap string_storage_size e;
      } in
      let flag : has_num_string_switch_imms file.header ≡ true = ap has_num_string_switch_imms e in
      rw (emit_header_v98, flag)
        (run-Chain file.buf 0 128 _ (
          start-Chain _ _ (ap version e ∙ sym v) (
            Counts-Chain _ counts (
              field 64 (omega arith) (ap big_int_count e)
              ⨾ field 68 (omega arith)
                  (z.big_int_is ∙ ap droidsaw_hermes.Header.big_int_storage_size e)
              ⨾ field 72 (omega arith) (ap reg_exp_count e)
              ⨾ field 76 (omega arith) (ap reg_exp_storage_size e)
              ⨾ field 80 (omega arith) (z.array_is ∙ ap droidsaw_hermes.Header.array_buffer_size e)
              ⨾ field 84 (omega arith) (z.keys_is ∙ ap droidsaw_hermes.Header.obj_key_buffer_size e)
              ⨾ field 88 (omega arith) (ap obj_shape_table_count e)
              ⨾ gap 92 96 (omega arith) (omega arith)
              ⨾ gap 96 100 (omega arith) (omega arith)
              ⨾ field 100 (omega arith) (ap cjs_module_count e)
              ⨾ field 104 (omega arith) (ap function_source_count e)
              ⨾ field 108 (omega arith) (ap debug_info_offset e)
              ⨾ gap 112 128 (omega arith) (omega arith)
              ⨾ end))))
