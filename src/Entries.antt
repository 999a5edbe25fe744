-- ===== src/Entries.antt =====
-- The fixed-size table entries with bitfields: the raw views of src/parser/mod.rs and their writers
-- in src/emit.rs. A writer appends its entry to `out`.
pub mod V96
pub mod V98
pub mod Strings
use droidsaw_hermes.Prelude.{ℕ, Bool, true, false, not, List, ◌++◌, ◌==◌, get_or, set, replicate}
use droidsaw_hermes.Bitfield.{read_bitfield, bit_pack_u32}

pub record SmallFuncHeaderV96Raw : Type 0 where
  pub raw_offset : ℕ
  pub raw_param_count : ℕ
  pub raw_byte_size : ℕ
  pub raw_func_name : ℕ
  pub raw_info_offset : ℕ
  pub raw_uncharacterized_mid : ℕ
  pub raw_flags_byte : ℕ

-- The reads of `raw_small_func_header_v96` on the 16 bytes of an entry.
unfoldable pub read_small_func_header_v96 : List ℕ → SmallFuncHeaderV96Raw
read_small_func_header_v96 entry = record {
  raw_offset = read_bitfield entry 0 25;
  raw_param_count = read_bitfield entry 25 7;
  raw_byte_size = read_bitfield entry 32 15;
  raw_func_name = read_bitfield entry 47 17;
  raw_info_offset = read_bitfield entry 64 25;
  raw_uncharacterized_mid = read_bitfield entry 89 31;
  raw_flags_byte = get_or entry 15 0;
}

-- The entry that `emit_one_small_func_header_v96` fills.
unfoldable pub small_func_header_v96_entry : SmallFuncHeaderV96Raw → List ℕ
small_func_header_v96_entry raw =
    let e0 = bit_pack_u32 (replicate 16 0) 0 25 raw.raw_offset in
    let e1 = bit_pack_u32 e0 25 7 raw.raw_param_count in
    let e2 = bit_pack_u32 e1 32 15 raw.raw_byte_size in
    let e3 = bit_pack_u32 e2 47 17 raw.raw_func_name in
    let e4 = bit_pack_u32 e3 64 25 raw.raw_info_offset in
    let e5 = bit_pack_u32 e4 89 31 raw.raw_uncharacterized_mid in set e5 15 raw.raw_flags_byte

unfoldable pub emit_one_small_func_header_v96 : List ℕ → SmallFuncHeaderV96Raw → List ℕ
unfolding small_func_header_v96_entry
emit_one_small_func_header_v96 out raw = out ++ small_func_header_v96_entry raw

-- The two layouts of the 12-byte entry of versions 97 to 99.
pub data SmallFuncHeaderV98Raw : Type 0 where
  early_v98 :
      (raw_offset raw_param_count raw_byte_size raw_func_name raw_uncharacterized_mid : ℕ)
      → (raw_flags_byte : ℕ) → SmallFuncHeaderV98Raw
  late_v98 :
      (raw_offset raw_param_count raw_loop_depth raw_byte_size raw_func_name : ℕ)
      → (raw_uncharacterized_mid_lo raw_uncharacterized_mid_hi raw_flags_byte : ℕ)
      → SmallFuncHeaderV98Raw

-- The reads of `raw_small_func_header_v98` on the 12 bytes of an entry; `late` is the layout test.
unfoldable pub read_small_func_header_v98 : Bool → List ℕ → SmallFuncHeaderV98Raw
read_small_func_header_v98 true entry =
    late_v98 (read_bitfield entry 0 25) (read_bitfield entry 25 5) (read_bitfield entry 30 2)
      (read_bitfield entry 32 14) (read_bitfield entry 46 8) (read_bitfield entry 54 32)
      (read_bitfield entry 86 2) (get_or entry 11 0)
read_small_func_header_v98 false entry =
    early_v98 (read_bitfield entry 0 25) (read_bitfield entry 25 7) (read_bitfield entry 32 15)
      (read_bitfield entry 47 17) (read_bitfield entry 64 24) (get_or entry 11 0)

unfoldable pub small_func_header_v98_entry : SmallFuncHeaderV98Raw → List ℕ
small_func_header_v98_entry (early_v98 offset params size name mid flags) =
    let e0 = bit_pack_u32 (replicate 12 0) 0 25 offset in
    let e1 = bit_pack_u32 e0 25 7 params in
    let e2 = bit_pack_u32 e1 32 15 size in
    let e3 = bit_pack_u32 e2 47 17 name in let e4 = bit_pack_u32 e3 64 24 mid in set e4 11 flags
small_func_header_v98_entry (late_v98 offset params depth size name mid_lo mid_hi flags) =
    let e0 = bit_pack_u32 (replicate 12 0) 0 25 offset in
    let e1 = bit_pack_u32 e0 25 5 params in
    let e2 = bit_pack_u32 e1 30 2 depth in
    let e3 = bit_pack_u32 e2 32 14 size in
    let e4 = bit_pack_u32 e3 46 8 name in
    let e5 = bit_pack_u32 e4 54 32 mid_lo in let e6 = bit_pack_u32 e5 86 2 mid_hi in set e6 11 flags

unfoldable pub emit_one_small_func_header_v98 : List ℕ → SmallFuncHeaderV98Raw → List ℕ
unfolding small_func_header_v98_entry
emit_one_small_func_header_v98 out raw = out ++ small_func_header_v98_entry raw

pub record SmallStringTableEntryV96Raw : Type 0 where
  pub is_utf16 : Bool
  pub str_offset : ℕ
  pub str_length : ℕ

-- The reads of `raw_small_string_table_entry` on the 4 bytes of an entry.
unfoldable pub read_small_string_table_entry : List ℕ → SmallStringTableEntryV96Raw
read_small_string_table_entry entry = record {
  is_utf16 = not (read_bitfield entry 0 1 == 0);
  str_offset = read_bitfield entry 1 23;
  str_length = read_bitfield entry 24 8;
}

-- `u32::from(b)`
abbrev pub bit_of : Bool → ℕ
bit_of true = 1
bit_of false = 0

unfoldable pub small_string_table_entry : SmallStringTableEntryV96Raw → List ℕ
small_string_table_entry raw =
    let e0 = bit_pack_u32 (replicate 4 0) 0 1 (bit_of raw.is_utf16) in
    let e1 = bit_pack_u32 e0 1 23 raw.str_offset in bit_pack_u32 e1 24 8 raw.str_length

unfoldable pub emit_one_small_string_table_entry_v96 : List ℕ → SmallStringTableEntryV96Raw → List ℕ
unfolding small_string_table_entry
emit_one_small_string_table_entry_v96 out raw = out ++ small_string_table_entry raw
