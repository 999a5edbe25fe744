-- ===== src/Entries/V96.antt =====
-- The 16-byte entry: its number is the sum of the shifted fields, so reading and writing are inverse.
use droidsaw_hermes.Prelude.{ℕ, ◌+◌, ◌*◌, ◌/◌, ◌%◌, ◌^◌, ◌<◌, ◌≡◌, sym, ◌∙◌, List, arith, length}
use droidsaw_hermes.Bytes.{IsBytes, from_le_bytes}
use droidsaw_hermes.Bytes.Value.{from_le_bytes-lt}
use droidsaw_hermes.Bitfield.Read.{read_bitfield_lem}
use droidsaw_hermes.Bitfield.Build.{
  Built, Built-start, Built-pack, Built-last, get_or_byte, from_le_bytes-injective,
}
use droidsaw_hermes.Entries.{
  SmallFuncHeaderV96Raw, read_small_func_header_v96, small_func_header_v96_entry,
}

-- Every field fits its bits.
pub record FitsV96 (r : SmallFuncHeaderV96Raw) : Type 0 where
  pub offset_fits : r.raw_offset < 2 ^ 25
  pub param_count_fits : r.raw_param_count < 2 ^ 7
  pub byte_size_fits : r.raw_byte_size < 2 ^ 15
  pub func_name_fits : r.raw_func_name < 2 ^ 17
  pub info_offset_fits : r.raw_info_offset < 2 ^ 25
  pub mid_fits : r.raw_uncharacterized_mid < 2 ^ 31
  pub flags_fits : r.raw_flags_byte < 2 ^ 8

abbrev number_v96 : SmallFuncHeaderV96Raw → ℕ
number_v96 r =
    0
    + r.raw_offset * 2 ^ 0
    + r.raw_param_count * 2 ^ 25
    + r.raw_byte_size * 2 ^ 32
    + r.raw_func_name * 2 ^ 47
    + r.raw_info_offset * 2 ^ 64
    + r.raw_uncharacterized_mid * 2 ^ 89
    + r.raw_flags_byte * 2 ^ 120

entry-Built :
    (r : SmallFuncHeaderV96Raw)
    → FitsV96 r
    → Built 16 (number_v96 r) 128 (small_func_header_v96_entry r)
unfolding small_func_header_v96_entry
entry-Built r f =
    let b0 = Built-pack 25 r.raw_offset (Built-start 16) f.offset_fits (omega arith) in
    let b1 = Built-pack 7 r.raw_param_count b0 f.param_count_fits (omega arith) in
    let b2 = Built-pack 15 r.raw_byte_size b1 f.byte_size_fits (omega arith) in
    let b3 = Built-pack 17 r.raw_func_name b2 f.func_name_fits (omega arith) in
    let b4 = Built-pack 25 r.raw_info_offset b3 f.info_offset_fits (omega arith) in
    let b5 = Built-pack 31 r.raw_uncharacterized_mid b4 f.mid_fits (omega arith) in
    Built-last 15 r.raw_flags_byte b5 (omega arith) f.flags_fits

-- What the reader makes of any 16 bytes.
read_number :
    (e : List ℕ)
    → IsBytes e
    → length e ≡ 16
    → let n = from_le_bytes e in
      read_small_func_header_v96 e ≡ record {
        raw_offset = n / 2 ^ 0 % 2 ^ 25;
        raw_param_count = n / 2 ^ 25 % 2 ^ 7;
        raw_byte_size = n / 2 ^ 32 % 2 ^ 15;
        raw_func_name = n / 2 ^ 47 % 2 ^ 17;
        raw_info_offset = n / 2 ^ 64 % 2 ^ 25;
        raw_uncharacterized_mid = n / 2 ^ 89 % 2 ^ 31;
        raw_flags_byte = n / 2 ^ 120 % 256;
      }
unfolding read_small_func_header_v96
read_number e h len = rw (
  read_bitfield_lem e 0 25 h (omega arith),
  read_bitfield_lem e 25 7 h (omega arith),
  read_bitfield_lem e 32 15 h (omega arith),
  read_bitfield_lem e 47 17 h (omega arith),
  read_bitfield_lem e 64 25 h (omega arith),
  read_bitfield_lem e 89 31 h (omega arith),
  get_or_byte e 15 h (omega arith),
)

-- Fields that fit their bits are read back from the entry that they are written to.
pub read_small_func_header_v96-entry :
    (r : SmallFuncHeaderV96Raw)
    → FitsV96 r
    → read_small_func_header_v96 (small_func_header_v96_entry r) ≡ r
read_small_func_header_v96-entry r f =
    let b = entry-Built r f in
    rw (read_number (small_func_header_v96_entry r) b.bytes b.size, b.number)
      (ground (
        arith, f.offset_fits, f.param_count_fits, f.byte_size_fits, f.func_name_fits,
        f.info_offset_fits, f.mid_fits, f.flags_fits,
      ))

-- Any 16 bytes are written again from the fields read from them.
pub small_func_header_v96_entry-read :
    (e : List ℕ)
    → IsBytes e
    → length e ≡ 16
    → small_func_header_v96_entry (read_small_func_header_v96 e) ≡ e
small_func_header_v96_entry-read e h len =
    from_le_bytes-injective (small_func_header_v96_entry (read_small_func_header_v96 e)) e b.bytes h
      (b.size ∙ sym len) (b.number ∙ same)
  where
    fits : FitsV96 (read_small_func_header_v96 e)
    fits = rw (read_number e h len) (omega arith)

    b :
        Built 16
          (number_v96 (read_small_func_header_v96 e))
          128
          (small_func_header_v96_entry (read_small_func_header_v96 e))
    b = entry-Built (read_small_func_header_v96 e) fits

    bound : from_le_bytes e < 2 ^ 128
    bound = rw len at (from_le_bytes-lt e h)

    same : number_v96 (read_small_func_header_v96 e) ≡ from_le_bytes e
    same = rw (read_number e h len) (omega (arith, bound))
