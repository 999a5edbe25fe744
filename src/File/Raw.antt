-- ===== src/File/Raw.antt =====
-- The accessors of `HbcFile` in src/parser/mod.rs that hand table entries to src/emit.rs unresolved.
-- An entry lies at its index times the entry's size behind the start of its table.
use droidsaw_hermes.Prelude.{
  ℕ, ◌+◌, ◌*◌, Bool, true, false, List, Option, none, some, leb, ◌==◌, ◌||◌, not, if◌then◌else◌,
}
use droidsaw_hermes.Bytes.{get_range, from_le_bytes, and_then}
use droidsaw_hermes.Header.{
  HbcHeader, v97_to_v98_early, v98_late_to_v99, function_count, string_count, overflow_string_count,
  reg_exp_count, big_int_count, obj_shape_table_count,
}
use droidsaw_hermes.Entries.{
  SmallFuncHeaderV96Raw, read_small_func_header_v96, SmallFuncHeaderV98Raw,
  read_small_func_header_v98, SmallStringTableEntryV96Raw, read_small_string_table_entry,
}
use droidsaw_hermes.Sections.{Range}
use droidsaw_hermes.File.{HbcFile}

-- `get(off..off + size).map(f)`
abbrev pub read_entry {ℓ} : {A : Type ℓ} → List ℕ → ℕ → ℕ → (List ℕ → A) → Option A
read_entry buf off size f = and_then (get_range buf off (off + size)) λ entry. some (f entry)

-- The layouts with 16-byte function headers.
abbrev pub has_16_byte_headers : HbcHeader → Bool
has_16_byte_headers (v97_to_v98_early h) = false
has_16_byte_headers (v98_late_to_v99 h) = false
has_16_byte_headers _ = true

unfoldable pub raw_small_func_header_v96 : HbcFile → ℕ → Option SmallFuncHeaderV96Raw
raw_small_func_header_v96 file index =
    if not (has_16_byte_headers file.header)
    then none
    else if leb (function_count file.header) index
    then none
    else read_entry file.buf (file.ranges.func_headers.offset + index * 16) 16
        read_small_func_header_v96

-- The layout of the 12-byte entries of a header: `some true` is the late one.
abbrev pub v98_layout : HbcHeader → Option Bool
v98_layout (v97_to_v98_early h) = if h.version == 98 then some false else none
v98_layout (v98_late_to_v99 h) = if h.version == 98 || h.version == 99 then some true else none
v98_layout _ = none

unfoldable pub raw_small_func_header_v98 : HbcFile → ℕ → Option SmallFuncHeaderV98Raw
raw_small_func_header_v98 file index = and_then (v98_layout file.header) λ late.
    if leb (function_count file.header) index
    then none
    else read_entry file.buf (file.ranges.func_headers.offset + index * 12) 12
        (read_small_func_header_v98 late)

unfoldable pub raw_small_string_table_entry : HbcFile → ℕ → Option SmallStringTableEntryV96Raw
raw_small_string_table_entry file index =
    if leb (string_count file.header) index || file.ranges.small_string_table.size == 0
    then none
    else read_entry file.buf (file.ranges.small_string_table.offset + index * 4) 4
        read_small_string_table_entry

-- Two little-endian numbers at an offset.
unfoldable pub read_pair : List ℕ → ℕ → Option (ℕ × ℕ)
read_pair buf off =
    and_then (read_entry buf off 4 from_le_bytes)
      λ a. and_then (read_entry buf (off + 4) 4 from_le_bytes) λ b. some (a, b)

-- The entry `index` of a table of `count` pairs.
abbrev pub pair_entry : HbcFile → ℕ → Range → ℕ → Option (ℕ × ℕ)
pair_entry file count table index =
    if leb count index || table.size == 0
    then none
    else read_pair file.buf (table.offset + index * 8)

abbrev pub raw_overflow_string_table_entry_v96 : HbcFile → ℕ → Option (ℕ × ℕ)
raw_overflow_string_table_entry_v96 file index =
    pair_entry file (overflow_string_count file.header) file.ranges.overflow_string_table index

abbrev pub regexp_table_entry_raw : HbcFile → ℕ → Option (ℕ × ℕ)
regexp_table_entry_raw file index =
    pair_entry file (reg_exp_count file.header) file.ranges.regexp_table index

abbrev pub bigint_table_entry_raw : HbcFile → ℕ → Option (ℕ × ℕ)
bigint_table_entry_raw file index =
    pair_entry file (big_int_count file.header) file.ranges.big_int_table index

abbrev pub raw_obj_shape_table_entry_v98 : HbcFile → ℕ → Option (ℕ × ℕ)
raw_obj_shape_table_entry_v98 file index =
    pair_entry file (obj_shape_table_count file.header) file.ranges.obj_shape_table index
