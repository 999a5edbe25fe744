-- ===== src/Bitfield.antt =====
-- Bitfields across bytes: `read_bitfield` of src/parser/mod.rs and `bit_pack_u32` of src/emit.rs.
-- Each loop takes one bit at least a round, so `num_bits` rounds are enough.
pub mod Read
pub mod Pack
pub mod Build
use droidsaw_hermes.Prelude.{
  ℕ, zero, suc, ◌+◌, ◌-◌, ◌*◌, ◌/◌, ◌%◌, ◌^◌, min, bit_and, bit_or, true, false, List, none, some,
  ltb, get_elem?, set,
}

-- `value |= (byte_value & mask) << written` for the byte `b` at bit `bit_idx`, in u32.
abbrev pub or_chunk : ℕ → ℕ → ℕ → ℕ → ℕ → ℕ
or_chunk value b bit_idx bits written =
    bit_or value (bit_and (b / 2 ^ (bit_idx % 8)) (2 ^ bits - 1) * 2 ^ written % 2 ^ 32)

-- The bits that one round moves.
abbrev pub round_bits : ℕ → ℕ → ℕ
round_bits bit_idx left = min (8 - bit_idx % 8) left

unfoldable pub read_loop : ℕ → List ℕ → ℕ → ℕ → ℕ → ℕ → ℕ
read_loop zero bytes num_bits value written bit_idx = value
read_loop (suc fuel) bytes num_bits value written bit_idx = elim (ltb written num_bits) [
  | false ↦ value
  | true ↦ elim (get_elem? bytes (bit_idx / 8)) [
    | none ↦ value
    | some b ↦
        let bits = round_bits bit_idx (num_bits - written) in
        read_loop fuel bytes num_bits (or_chunk value b bit_idx bits written) (written + bits)
          (bit_idx + bits)
  ]
]

unfoldable pub read_bitfield : List ℕ → ℕ → ℕ → ℕ
unfolding read_loop
read_bitfield bytes start_bit num_bits = read_loop num_bits bytes num_bits 0 0 start_bit

-- `*slot |= value_chunk << shift` on the byte `b` at bit `bit_idx`, in u8.
abbrev pub or_into : ℕ → ℕ → ℕ → ℕ → ℕ → ℕ
or_into b value bit_idx bits written =
    bit_or b (bit_and (value / 2 ^ written) (2 ^ bits - 1) % 256 * 2 ^ (bit_idx % 8) % 256)

unfoldable pub pack_loop : ℕ → List ℕ → ℕ → ℕ → ℕ → ℕ → List ℕ
pack_loop zero out num_bits value written bit_idx = out
pack_loop (suc fuel) out num_bits value written bit_idx = elim (ltb written num_bits) [
  | false ↦ out
  | true ↦ elim (get_elem? out (bit_idx / 8)) [
    | none ↦ out
    | some b ↦
        let bits = round_bits bit_idx (num_bits - written) in
        pack_loop fuel (set out (bit_idx / 8) (or_into b value bit_idx bits written)) num_bits value
          (written + bits) (bit_idx + bits)
  ]
]

unfoldable pub bit_pack_u32 : List ℕ → ℕ → ℕ → ℕ → List ℕ
unfolding pack_loop
bit_pack_u32 out start_bit num_bits value = pack_loop num_bits out num_bits value 0 start_bit
