-- ===== src/Entries/Strings.antt =====
-- The 4-byte entry of the string table: reading and writing are inverse.
use droidsaw_hermes.Prelude.{
  ℕ, ◌+◌, ◌*◌, ◌/◌, ◌%◌, ◌^◌, ◌<◌, ◌≡◌, sym, ◌∙◌, Bool, true, false, not, List, arith, length, ◌==◌,
}
use droidsaw_hermes.Bytes.{IsBytes, from_le_bytes}
use droidsaw_hermes.Bytes.Value.{from_le_bytes-lt}
use droidsaw_hermes.Bitfield.Read.{read_bitfield_lem}
use droidsaw_hermes.Bitfield.Build.{Built, Built-start, Built-pack, from_le_bytes-injective}
use droidsaw_hermes.Entries.{
  SmallStringTableEntryV96Raw, read_small_string_table_entry, small_string_table_entry, bit_of,
}

pub record FitsString (r : SmallStringTableEntryV96Raw) : Type 0 where
  pub offset_fits : r.str_offset < 2 ^ 23
  pub length_fits : r.str_length < 2 ^ 8

abbrev number_string : SmallStringTableEntryV96Raw → ℕ
number_string r = 0 + bit_of r.is_utf16 * 2 ^ 0 + r.str_offset * 2 ^ 1 + r.str_length * 2 ^ 24

bit_of-lt : (b : Bool) → bit_of b < 2 ^ 1
bit_of-lt true = omega arith
bit_of-lt false = omega arith

string_entry-Built :
    (r : SmallStringTableEntryV96Raw)
    → FitsString r
    → Built 4 (number_string r) 32 (small_string_table_entry r)
unfolding small_string_table_entry
string_entry-Built r f =
    let b0 =
      Built-pack 1 (bit_of r.is_utf16) (Built-start 4) (bit_of-lt r.is_utf16) (omega arith) in
    let b1 = Built-pack 23 r.str_offset b0 f.offset_fits (omega arith) in
    Built-pack 8 r.str_length b1 f.length_fits (omega arith)

abbrev string_fields : ℕ → SmallStringTableEntryV96Raw
string_fields x = record {
  is_utf16 = not (x / 2 ^ 0 % 2 ^ 1 == 0);
  str_offset = x / 2 ^ 1 % 2 ^ 23;
  str_length = x / 2 ^ 24 % 2 ^ 8;
}

read_number_string :
    (e : List ℕ)
    → IsBytes e
    → length e ≡ 4
    → read_small_string_table_entry e ≡ string_fields (from_le_bytes e)
unfolding read_small_string_table_entry
read_number_string e h len = rw (
  read_bitfield_lem e 0 1 h (omega arith),
  read_bitfield_lem e 1 23 h (omega arith),
  read_bitfield_lem e 24 8 h (omega arith),
)

string_fields-number :
    (r : SmallStringTableEntryV96Raw) → FitsString r → string_fields (number_string r) ≡ r
string_fields-number r f = ground (arith, f.offset_fits, f.length_fits)

number-string_fields : (x : ℕ) → x < 2 ^ 32 → number_string (string_fields x) ≡ x
number-string_fields x h = ground arith

-- Fields that fit their bits are read back from the string entry that they are written to.
pub read_small_string_table_entry-entry :
    (r : SmallStringTableEntryV96Raw)
    → FitsString r
    → read_small_string_table_entry (small_string_table_entry r) ≡ r
read_small_string_table_entry-entry r f =
    let b = string_entry-Built r f in
    rw (read_number_string (small_string_table_entry r) b.bytes b.size, b.number)
      (string_fields-number r f)

-- Any four bytes are written again from the string-entry fields read from them.
pub small_string_table_entry-read :
    (e : List ℕ)
    → IsBytes e
    → length e ≡ 4
    → small_string_table_entry (read_small_string_table_entry e) ≡ e
small_string_table_entry-read e h len = rw (read_number_string e h len) (
    from_le_bytes-injective (small_string_table_entry (string_fields (from_le_bytes e))) e b.bytes h
      (b.size ∙ sym len)
      (b.number ∙ number-string_fields (from_le_bytes e) (rw len at (from_le_bytes-lt e h))))
  where
    b :
        Built 4
          (number_string (string_fields (from_le_bytes e)))
          32
          (small_string_table_entry (string_fields (from_le_bytes e)))
    b =
        string_entry-Built (string_fields (from_le_bytes e))
          (record { offset_fits = omega arith; length_fits = omega arith })
