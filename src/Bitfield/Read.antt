-- ===== src/Bitfield/Read.antt =====
-- `read_bitfield` reads bits `start_bit ..` of the number that the bytes stand for.
use native.Mathlib.Nat.{
  div-div-eq-div-mul, mod-eq_of_lt, mod-lt, zero-div, div-lt_iff_lt-mul, mod-one, add-zero,
}
use mathlib.Core.Path.{ap₂}
use droidsaw_hermes.Prelude.{
  ℕ, zero, suc, ◌+◌, ◌-◌, ◌*◌, ◌/◌, ◌%◌, ◌^◌, ◌≤◌, ◌<◌, ◌≡◌, sym, ap, ◌∙◌, inl, inr, bit_and,
  bit_or, List, [], ◌∷◌, none, some, arith, ltb, get_elem?, Bool-cases, Option-cases, ltb→lt,
  lt→ltb, tests,
}
use droidsaw_hermes.Prelude.Arith.{
  pow-pos, pow-add, mod-mul, bits_in_byte, pow_mono, div-pow-add, digit-lt,
}
use droidsaw_hermes.Prelude.Bits.{bit_or-shifted, bit_and-mask}
use droidsaw_hermes.Bytes.{IsBytes, from_le_bytes}
use droidsaw_hermes.Bitfield.{read_loop, read_bitfield, round_bits}

pub eight_suc : (i : ℕ) → 2 ^ (8 * suc i) ≡ 256 * 2 ^ (8 * i)
eight_suc i = let e : 8 * suc i ≡ 8 + 8 * i = omega arith in rw (e, pow-add 8 (8 * i))

-- Byte `i` of the number is byte `i` of the list.
pub byte_at :
    (bytes : List ℕ) (i : ℕ) {b : ℕ}
    → IsBytes bytes
    → get_elem? bytes i ≡ some b
    → from_le_bytes bytes / 2 ^ (8 * i) % 256 ≡ b
byte_at [] i h e = cc
byte_at (x ∷ bytes) zero h e = ground (arith, h.0)
byte_at (x ∷ bytes) (suc i) h e =
    rw (eight_suc i, ← div-div-eq-div-mul, high) (byte_at bytes i h.1 e)
  where
    high : (x + 256 * from_le_bytes bytes) / 256 ≡ from_le_bytes bytes
    high = omega (arith, h.0)

-- Behind the last byte the number has no bits.
pub byte_out :
    (bytes : List ℕ) (i : ℕ)
    → IsBytes bytes
    → get_elem? bytes i ≡ none
    → from_le_bytes bytes / 2 ^ (8 * i) ≡ 0
byte_out [] i h e = omega arith
byte_out (x ∷ bytes) zero h e = cc
byte_out (x ∷ bytes) (suc i) h e =
    rw (eight_suc i, ← div-div-eq-div-mul, high) (byte_out bytes i h.1 e)
  where
    high : (x + 256 * from_le_bytes bytes) / 256 ≡ from_le_bytes bytes
    high = omega (arith, h.0)

pub bit_split : (bit : ℕ) → bit ≡ 8 * (bit / 8) + bit % 8
bit_split bit = omega arith

-- One round reads its bits of the number.
chunk :
    (bytes : List ℕ) (bit bits : ℕ) {b : ℕ}
    → IsBytes bytes
    → get_elem? bytes (bit / 8) ≡ some b
    → bit % 8 + bits ≤ 8
    → bit_and (b / 2 ^ (bit % 8)) (2 ^ bits - 1) ≡ from_le_bytes bytes / 2 ^ bit % 2 ^ bits
chunk bytes bit bits {b} h e fits =
    bit_and-mask bits (b / 2 ^ (bit % 8))
    ∙ ap (λ (t : ℕ). t / 2 ^ (bit % 8) % 2 ^ bits) (sym (byte_at bytes (bit / 8) h e))
    ∙ bits_in_byte (from_le_bytes bytes / 2 ^ (8 * (bit / 8))) (bit % 8) bits fits
    ∙ ap (λ (t : ℕ). t % 2 ^ bits)
        (sym (div-pow-add (from_le_bytes bytes) (8 * (bit / 8)) (bit % 8)))
    ∙ ap (λ (t : ℕ). from_le_bytes bytes / 2 ^ t % 2 ^ bits) (sym (bit_split bit))

-- The next bits go on top of those read.
add_chunk :
    (x w k c : ℕ)
    → w + k ≤ 32
    → c ≡ x / 2 ^ w % 2 ^ k
    → bit_or (x % 2 ^ w) (c * 2 ^ w % 2 ^ 32) ≡ x % 2 ^ (w + k)
add_chunk x w k c h e =
    ap (bit_or (x % 2 ^ w)) (mod-eq_of_lt small)
    ∙ bit_or-shifted w (x % 2 ^ w) c (mod-lt x (pow-pos w))
    ∙ rw (e, pow-add, mod-mul x (2 ^ w) (2 ^ k) (pow-pos w) (pow-pos k)) (omega arith)
  where
    small : c * 2 ^ w < 2 ^ 32
    small = omega (
      arith,
      digit-lt (2 ^ w) (2 ^ k) 0 c (pow-pos w) (rw e (mod-lt (x / 2 ^ w) (pow-pos k))),
      pow-add w k,
      pow_mono (w + k) 32 h,
    )

-- A round of the loop, from the low `w` bits of the field to the low `w + bits`.
read_loop_round :
    (fuel : ℕ) (bytes : List ℕ) (num start w : ℕ) {b : ℕ}
    → IsBytes bytes
    → num ≤ 32
    → w < num
    → get_elem? bytes ((start + w) / 8) ≡ some b
    → let x = from_le_bytes bytes / 2 ^ start in
      let bits = round_bits (start + w) (num - w) in
      read_loop (suc fuel) bytes num (x % 2 ^ w) w (start + w)
      ≡ read_loop fuel bytes num (x % 2 ^ (w + bits)) (w + bits) (start + (w + bits))
unfolding read_loop
read_loop_round fuel bytes num start w {b} h n32 hw e =
    rw (lt→ltb w num hw, e, read_loop)
      (ap₂ (λ v i. read_loop fuel bytes num v (w + bits) i)
        (add_chunk x w bits _ (omega arith) read) (omega arith))
  where
    bits : ℕ
    bits = round_bits (start + w) (num - w)

    x : ℕ
    x = from_le_bytes bytes / 2 ^ start

    read : bit_and (b / 2 ^ ((start + w) % 8)) (2 ^ bits - 1) ≡ x / 2 ^ w % 2 ^ bits
    read =
        chunk bytes (start + w) bits h e (omega arith)
        ∙ ap (λ (t : ℕ). t % 2 ^ bits) (div-pow-add (from_le_bytes bytes) start w)

-- With no byte left the field has no more bits.
read_loop_end :
    (fuel : ℕ) (bytes : List ℕ) (num start w : ℕ)
    → IsBytes bytes
    → w < num
    → get_elem? bytes ((start + w) / 8) ≡ none
    → let x = from_le_bytes bytes / 2 ^ start in
      read_loop (suc fuel) bytes num (x % 2 ^ w) w (start + w) ≡ x % 2 ^ num
unfolding read_loop
read_loop_end fuel bytes num start w h hw e =
    rw (lt→ltb w num hw, e, read_loop)
      (mod-eq_of_lt below ∙ sym (mod-eq_of_lt (omega (arith, below, pow_mono w num (omega arith)))))
  where
    n : ℕ
    n = from_le_bytes bytes

    none_left : n / 2 ^ start / 2 ^ w ≡ 0
    none_left =
        sym (div-pow-add n start w)
        ∙ ap (λ (t : ℕ). n / 2 ^ t) (bit_split (start + w))
        ∙ div-pow-add n (8 * ((start + w) / 8)) ((start + w) % 8)
        ∙ ap (λ (t : ℕ). t / 2 ^ ((start + w) % 8)) (byte_out bytes ((start + w) / 8) h e)
        ∙ zero-div (2 ^ ((start + w) % 8))

    below : n / 2 ^ start < 2 ^ w
    below = omega (
      arith,
      (div-lt_iff_lt-mul {x = n / 2 ^ start} {y = 1} (pow-pos w)).0 (omega (arith, none_left)),
    )

-- From bit `start + w` on, with the low `w` bits read, the loop completes the field.
read_loop-mod :
    (fuel : ℕ) (bytes : List ℕ) (num start w : ℕ)
    → IsBytes bytes
    → num ≤ 32
    → w ≤ num
    → num ≤ fuel + w
    → let x = from_le_bytes bytes / 2 ^ start in
      read_loop fuel bytes num (x % 2 ^ w) w (start + w) ≡ x % 2 ^ num
unfolding read_loop
read_loop-mod zero bytes num start w h n32 hw hf = let e : w ≡ num = omega arith in rw e
read_loop-mod (suc fuel) bytes num start w h n32 hw hf = elim (Bool-cases (ltb w num)) [
  | inl more ↦ elim (Option-cases (get_elem? bytes ((start + w) / 8))) [
    | inl e ↦ read_loop_end fuel bytes num start w h (ltb→lt w num more) e
    | inr (b, e) ↦
        read_loop_round fuel bytes num start w h n32 (ltb→lt w num more) e
        ∙ read_loop-mod fuel bytes num start (w + round_bits (start + w) (num - w)) h n32
            (omega (tests, more)) (omega (tests, more))
  ]
  | inr done ↦
      rw (done, read_loop)
        (let e : w ≡ num = omega (tests, done) in
          ap (λ (t : ℕ). from_le_bytes bytes / 2 ^ start % 2 ^ t) e)
]

-- For at most 32 bits `read_bitfield` returns bits `start .. start + num` of the little-endian number
-- of the bytes, those behind the last byte counting as zero.
pub read_bitfield_lem :
    (bytes : List ℕ) (start num : ℕ)
    → IsBytes bytes
    → num ≤ 32
    → read_bitfield bytes start num ≡ from_le_bytes bytes / 2 ^ start % 2 ^ num
unfolding read_bitfield
read_bitfield_lem bytes start num h n32 =
    rw (mod-one, add-zero) at
      (read_loop-mod num bytes num start 0 h n32 (omega arith) (omega arith))
