-- ===== src/Tests/Fields.antt =====
-- Runs of the bitfield and entry codecs.
use droidsaw_hermes.Prelude.{ℕ, ◌/◌, ◌%◌, ◌^◌, ◌≡◌, refl, true, false, List, [], ◌∷◌, arith}
use droidsaw_hermes.Bytes.{from_le_bytes}
use droidsaw_hermes.Bitfield.{read_bitfield, bit_pack_u32}
use droidsaw_hermes.Bitfield.Read.{read_bitfield_lem}
use droidsaw_hermes.Bitfield.Pack.{PackedAt, bit_pack_u32-PackedAt}
use droidsaw_hermes.Entries.{
  SmallFuncHeaderV96Raw, SmallFuncHeaderV98Raw, late_v98, SmallStringTableEntryV96Raw,
  read_small_func_header_v96, small_func_header_v96_entry, read_small_func_header_v98,
  small_func_header_v98_entry, read_small_string_table_entry, small_string_table_entry,
}
use droidsaw_hermes.Entries.V96.{read_small_func_header_v96-entry, small_func_header_v96_entry-read}
use droidsaw_hermes.Entries.V98.{read_small_func_header_v98-entry, small_func_header_v98_entry-read}
use droidsaw_hermes.Entries.Strings.{
  read_small_string_table_entry-entry, small_string_table_entry-read,
}

abbrev ramp : List ℕ
ramp = 0xF1 ∷ 2 ∷ 3 ∷ 4 ∷ 5 ∷ 6 ∷ 7 ∷ 8 ∷ 9 ∷ 10 ∷ 11 ∷ 12 ∷ 13 ∷ 14 ∷ 15 ∷ 0x30 ∷ []

abbrev short_ramp : List ℕ
short_ramp = 0xF1 ∷ 2 ∷ 3 ∷ 4 ∷ 5 ∷ 6 ∷ 7 ∷ 8 ∷ 9 ∷ 10 ∷ 11 ∷ 0x30 ∷ []

read_across : read_bitfield ramp 4 12 ≡ 0x02F
unfolding read_bitfield
read_across = refl

read_past_end : read_bitfield (0xFF ∷ []) 4 12 ≡ 0xF
unfolding read_bitfield
read_past_end = refl

read_bitfield_lem_example : read_bitfield ramp 4 12 ≡ from_le_bytes ramp / 2 ^ 4 % 2 ^ 12
read_bitfield_lem_example = read_bitfield_lem ramp 4 12 (omega arith) (omega arith)

bit_pack_u32-PackedAt_example : PackedAt (7 ∷ 0 ∷ []) 3 300 (bit_pack_u32 (7 ∷ 0 ∷ []) 3 10 300)
bit_pack_u32-PackedAt_example =
    bit_pack_u32-PackedAt (7 ∷ 0 ∷ []) 3 10 300 (omega arith) (omega arith) (omega arith)
      (omega arith)

abbrev some_raw : SmallFuncHeaderV96Raw
some_raw = record {
  raw_offset = 0x1FFFFFF;
  raw_param_count = 3;
  raw_byte_size = 77;
  raw_func_name = 5;
  raw_info_offset = 9;
  raw_uncharacterized_mid = 1;
  raw_flags_byte = 0x20;
}

read_small_func_header_v96-entry_example :
    read_small_func_header_v96 (small_func_header_v96_entry some_raw) ≡ some_raw
read_small_func_header_v96-entry_example = read_small_func_header_v96-entry some_raw (omega arith)

small_func_header_v96_entry-read_example :
    small_func_header_v96_entry (read_small_func_header_v96 ramp) ≡ ramp
small_func_header_v96_entry-read_example = small_func_header_v96_entry-read ramp (omega arith) refl

abbrev some_late : SmallFuncHeaderV98Raw
some_late = late_v98 1234 3 1 500 17 0xFFFFFFFF 2 0x20

read_small_func_header_v98-entry_example :
    read_small_func_header_v98 true (small_func_header_v98_entry some_late) ≡ some_late
read_small_func_header_v98-entry_example =
    read_small_func_header_v98-entry true some_late (omega arith)

small_func_header_v98_entry-read_example :
    small_func_header_v98_entry (read_small_func_header_v98 false short_ramp) ≡ short_ramp
small_func_header_v98_entry-read_example =
    small_func_header_v98_entry-read false short_ramp (omega arith) refl

abbrev some_string : SmallStringTableEntryV96Raw
some_string = record { is_utf16 = true; str_offset = 77; str_length = 255 }

read_small_string_table_entry-entry_example :
    read_small_string_table_entry (small_string_table_entry some_string) ≡ some_string
read_small_string_table_entry-entry_example =
    read_small_string_table_entry-entry some_string (omega arith)

small_string_table_entry-read_example :
    small_string_table_entry (read_small_string_table_entry (1 ∷ 2 ∷ 3 ∷ 255 ∷ []))
    ≡ 1 ∷ 2 ∷ 3 ∷ 255 ∷ []
small_string_table_entry-read_example =
    small_string_table_entry-read (1 ∷ 2 ∷ 3 ∷ 255 ∷ []) (omega arith) refl
