-- ===== src/Entries/V98.antt =====
-- The 12-byte entry in both layouts: reading and writing are inverse.
use droidsaw_hermes.Prelude.{
  ℕ, ◌+◌, ◌*◌, ◌/◌, ◌%◌, ◌^◌, ◌<◌, ◌≡◌, sym, ◌∙◌, Bool, true, false, List, arith, length,
}
use droidsaw_hermes.Bytes.{IsBytes, from_le_bytes}
use droidsaw_hermes.Bytes.Value.{from_le_bytes-lt}
use droidsaw_hermes.Bitfield.Read.{read_bitfield_lem}
use droidsaw_hermes.Bitfield.Build.{
  Built, Built-start, Built-pack, Built-last, get_or_byte, from_le_bytes-injective,
}
use droidsaw_hermes.Entries.{
  SmallFuncHeaderV98Raw, early_v98, late_v98, read_small_func_header_v98,
  small_func_header_v98_entry,
}

-- Every field fits its bits in the layout that the flag asks for.
abbrev pub FitsV98 : Bool → SmallFuncHeaderV98Raw → Type 0
FitsV98 false (early_v98 o p s n m f) =
    (o < 2 ^ 25) × (p < 2 ^ 7) × (s < 2 ^ 15) × (n < 2 ^ 17) × (m < 2 ^ 24) × (f < 256)
FitsV98 true (late_v98 o p d s n lo hi f) =
    (o < 2 ^ 25)
    × (p < 2 ^ 5)
    × (d < 2 ^ 2)
    × (s < 2 ^ 14)
    × (n < 2 ^ 8)
    × (lo < 2 ^ 32)
    × (hi < 2 ^ 2)
    × (f < 256)
FitsV98 _ _ = ⊥

abbrev number_v98 : SmallFuncHeaderV98Raw → ℕ
number_v98 (early_v98 o p s n m f) =
    0 + o * 2 ^ 0 + p * 2 ^ 25 + s * 2 ^ 32 + n * 2 ^ 47 + m * 2 ^ 64 + f * 2 ^ 88
number_v98 (late_v98 o p d s n lo hi f) =
    0
    + o * 2 ^ 0
    + p * 2 ^ 25
    + d * 2 ^ 30
    + s * 2 ^ 32
    + n * 2 ^ 46
    + lo * 2 ^ 54
    + hi * 2 ^ 86
    + f * 2 ^ 88

entry_v98-Built :
    (late : Bool) (r : SmallFuncHeaderV98Raw)
    → FitsV98 late r
    → Built 12 (number_v98 r) 96 (small_func_header_v98_entry r)
unfolding small_func_header_v98_entry
entry_v98-Built false (early_v98 o p s n m f) (ho, hp, hs, hn, hm, hf) =
    let b0 = Built-pack 25 o (Built-start 12) ho (omega arith) in
    let b1 = Built-pack 7 p b0 hp (omega arith) in
    let b2 = Built-pack 15 s b1 hs (omega arith) in
    let b3 = Built-pack 17 n b2 hn (omega arith) in
    let b4 = Built-pack 24 m b3 hm (omega arith) in Built-last 11 f b4 (omega arith) hf
entry_v98-Built true (late_v98 o p d s n lo hi f) (ho, hp, hd, hs, hn, hlo, hhi, hf) =
    let b0 = Built-pack 25 o (Built-start 12) ho (omega arith) in
    let b1 = Built-pack 5 p b0 hp (omega arith) in
    let b2 = Built-pack 2 d b1 hd (omega arith) in
    let b3 = Built-pack 14 s b2 hs (omega arith) in
    let b4 = Built-pack 8 n b3 hn (omega arith) in
    let b5 = Built-pack 32 lo b4 hlo (omega arith) in
    let b6 = Built-pack 2 hi b5 hhi (omega arith) in Built-last 11 f b6 (omega arith) hf
entry_v98-Built true (early_v98 _ _ _ _ _ _) h = absurd h
entry_v98-Built false (late_v98 _ _ _ _ _ _ _ _) h = absurd h

-- What the reader makes of any 12 bytes.
abbrev fields_of : Bool → ℕ → SmallFuncHeaderV98Raw
fields_of false x =
    early_v98 (x / 2 ^ 0 % 2 ^ 25) (x / 2 ^ 25 % 2 ^ 7) (x / 2 ^ 32 % 2 ^ 15) (x / 2 ^ 47 % 2 ^ 17)
      (x / 2 ^ 64 % 2 ^ 24) (x / 2 ^ 88 % 256)
fields_of true x =
    late_v98 (x / 2 ^ 0 % 2 ^ 25) (x / 2 ^ 25 % 2 ^ 5) (x / 2 ^ 30 % 2 ^ 2) (x / 2 ^ 32 % 2 ^ 14)
      (x / 2 ^ 46 % 2 ^ 8) (x / 2 ^ 54 % 2 ^ 32) (x / 2 ^ 86 % 2 ^ 2) (x / 2 ^ 88 % 256)

read_number_v98 :
    (late : Bool) (e : List ℕ)
    → IsBytes e
    → length e ≡ 12
    → read_small_func_header_v98 late e ≡ fields_of late (from_le_bytes e)
unfolding read_small_func_header_v98
read_number_v98 false e h len = rw (
  read_bitfield_lem e 0 25 h (omega arith),
  read_bitfield_lem e 25 7 h (omega arith),
  read_bitfield_lem e 32 15 h (omega arith),
  read_bitfield_lem e 47 17 h (omega arith),
  read_bitfield_lem e 64 24 h (omega arith),
  get_or_byte e 11 h (omega arith),
)
read_number_v98 true e h len = rw (
  read_bitfield_lem e 0 25 h (omega arith),
  read_bitfield_lem e 25 5 h (omega arith),
  read_bitfield_lem e 30 2 h (omega arith),
  read_bitfield_lem e 32 14 h (omega arith),
  read_bitfield_lem e 46 8 h (omega arith),
  read_bitfield_lem e 54 32 h (omega arith),
  read_bitfield_lem e 86 2 h (omega arith),
  get_or_byte e 11 h (omega arith),
)

fields_of-number :
    (late : Bool) (r : SmallFuncHeaderV98Raw) → FitsV98 late r → fields_of late (number_v98 r) ≡ r
fields_of-number false (early_v98 o p s n m f) h = ground arith
fields_of-number true (late_v98 o p d s n lo hi f) h = ground arith
fields_of-number true (early_v98 _ _ _ _ _ _) h = absurd h
fields_of-number false (late_v98 _ _ _ _ _ _ _ _) h = absurd h

number-fields_of : (late : Bool) (x : ℕ) → x < 2 ^ 96 → number_v98 (fields_of late x) ≡ x
number-fields_of false x h = omega arith
number-fields_of true x h = omega arith

fields_of-FitsV98 : (late : Bool) (x : ℕ) → FitsV98 late (fields_of late x)
fields_of-FitsV98 false x = omega arith
fields_of-FitsV98 true x = omega arith

-- In either layout, fields that fit their bits are read back from the entry that they are written to.
pub read_small_func_header_v98-entry :
    (late : Bool) (r : SmallFuncHeaderV98Raw)
    → FitsV98 late r
    → read_small_func_header_v98 late (small_func_header_v98_entry r) ≡ r
read_small_func_header_v98-entry late r f =
    let b = entry_v98-Built late r f in
    rw (read_number_v98 late (small_func_header_v98_entry r) b.bytes b.size, b.number)
      (fields_of-number late r f)

-- In either layout, any 12 bytes are written again from the fields read from them.
pub small_func_header_v98_entry-read :
    (late : Bool) (e : List ℕ)
    → IsBytes e
    → length e ≡ 12
    → small_func_header_v98_entry (read_small_func_header_v98 late e) ≡ e
small_func_header_v98_entry-read late e h len = rw (read_number_v98 late e h len) (
    from_le_bytes-injective (small_func_header_v98_entry (fields_of late (from_le_bytes e))) e
      b.bytes h (b.size ∙ sym len)
      (b.number ∙ number-fields_of late (from_le_bytes e) (rw len at (from_le_bytes-lt e h))))
  where
    b :
        Built 12
          (number_v98 (fields_of late (from_le_bytes e)))
          96
          (small_func_header_v98_entry (fields_of late (from_le_bytes e)))
    b =
        entry_v98-Built late (fields_of late (from_le_bytes e))
          (fields_of-FitsV98 late (from_le_bytes e))
