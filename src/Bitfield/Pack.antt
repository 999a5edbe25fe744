-- ===== src/Bitfield/Pack.antt =====
-- `bit_pack_u32` adds the shifted value to the number that the bytes stand for.
use native.Mathlib.Nat.{div-eq_of_lt, mod-eq_of_lt, mod-lt, div-lt_iff_lt-mul, div-one, div-add-mod}
use droidsaw_hermes.Prelude.{
  ℕ, zero, suc, ◌+◌, ◌-◌, ◌*◌, ◌/◌, ◌%◌, ◌^◌, ◌≤◌, ◌<◌, ◌≡◌, refl, ap, ◌∙◌, inl, inr, bit_or, List,
  [], ◌∷◌, some, arith, ltb, length, get_elem?, set, length-set, Bool-cases, ltb→lt, lt→ltb,
  le→ltb-false, tests,
}
use droidsaw_hermes.Prelude.Arith.{pow-pos, pow-add, pow_mono, div-pow-add, digit-lt}
use droidsaw_hermes.Prelude.Bits.{bit_or-shifted, bit_and-mask}
use droidsaw_hermes.Bytes.{IsBytes, from_le_bytes}
use droidsaw_hermes.Bitfield.{pack_loop, bit_pack_u32, or_into, round_bits}
use droidsaw_hermes.Bitfield.Read.{byte_at, eight_suc, bit_split}

pub get_elem?-IsByte :
    (bytes : List ℕ) (i : ℕ) {b : ℕ} → IsBytes bytes → get_elem? bytes i ≡ some b → b < 256
get_elem?-IsByte [] i h e = cc
get_elem?-IsByte (x ∷ bytes) zero h e = ground (arith, h.0)
get_elem?-IsByte (x ∷ bytes) (suc i) h e = get_elem?-IsByte bytes i h.1 e

pub IsBytes-set : (bytes : List ℕ) (i b : ℕ) → IsBytes bytes → b < 256 → IsBytes (set bytes i b)
IsBytes-set [] i b h hb = tt
IsBytes-set (x ∷ bytes) zero b h hb = (hb, h.1)
IsBytes-set (x ∷ bytes) (suc i) b h hb = (h.0, IsBytes-set bytes i b h.1 hb)

pub get_elem?_in {ℓ} :
    {A : Type ℓ} (xs : List A) (i : ℕ) → i < length xs → (a : A) × (get_elem? xs i ≡ some a)
get_elem?_in [] i h = absurd (omega arith)
get_elem?_in (x ∷ xs) zero h = (x, refl)
get_elem?_in (x ∷ xs) (suc i) h = get_elem?_in xs i (omega arith)

-- Writing byte `i` changes the number by the difference at that place.
pub from_le_bytes-set :
    (bytes : List ℕ) (i b' : ℕ) {b : ℕ}
    → get_elem? bytes i ≡ some b
    → from_le_bytes (set bytes i b') + b * 2 ^ (8 * i) ≡ from_le_bytes bytes + b' * 2 ^ (8 * i)
from_le_bytes-set [] i b' e = cc
from_le_bytes-set (x ∷ bytes) zero b' e = ground arith
from_le_bytes-set (x ∷ bytes) (suc i) b' {b} e = omega (
  arith,
  ap (λ (t : ℕ). b * t) (eight_suc i),
  ap (λ (t : ℕ). b' * t) (eight_suc i),
  from_le_bytes-set bytes i b' {b = b} e,
)

-- What a packing of `v` at bit `bit` leaves behind.
abbrev pub PackedAt : List ℕ → ℕ → ℕ → List ℕ → Type 0
PackedAt out bit v r =
    (from_le_bytes r ≡ from_le_bytes out + v * 2 ^ bit) × IsBytes r × (length r ≡ length out)

-- A byte whose bits from `bit` on are clear.
byte_below :
    (out : List ℕ) (bit : ℕ) {b : ℕ}
    → IsBytes out
    → from_le_bytes out < 2 ^ bit
    → get_elem? out (bit / 8) ≡ some b
    → b < 2 ^ (bit % 8)
byte_below out bit {b} h clear e = omega (arith, byte_at out (bit / 8) h e, small)
  where
    small : from_le_bytes out / 2 ^ (8 * (bit / 8)) < 2 ^ (bit % 8)
    small = (div-lt_iff_lt-mul (pow-pos (8 * (bit / 8)))).1 (
        omega
          (arith, clear, pow-add (8 * (bit / 8)) (bit % 8), ap (λ (t : ℕ). 2 ^ t) (bit_split bit)))

-- The byte that one round writes, for the bits `c` of the value.
new_byte :
    (b value bit bits w : ℕ)
    → b < 2 ^ (bit % 8)
    → bit % 8 + bits ≤ 8
    → let c = value / 2 ^ w % 2 ^ bits in
      (or_into b value bit bits w ≡ b + c * 2 ^ (bit % 8)) × (b + c * 2 ^ (bit % 8) < 256)
new_byte b value bit bits w hb fits = (
  ap (bit_or b) (
        ap (λ (t : ℕ). t % 256 * 2 ^ (bit % 8) % 256) (bit_and-mask bits (value / 2 ^ w))
        ∙ ap (λ (t : ℕ). t * 2 ^ (bit % 8) % 256) (mod-eq_of_lt c_small)
        ∙ mod-eq_of_lt (omega (arith, in_byte)))
      ∙ bit_or-shifted (bit % 8) b c hb,
  omega (arith, in_byte),
)
  where
    c : ℕ
    c = value / 2 ^ w % 2 ^ bits

    c_small : c < 256
    c_small = omega (arith, mod-lt (value / 2 ^ w) (pow-pos bits), pow_mono bits 8 (omega arith))

    in_byte : b + 2 ^ (bit % 8) * c < 256
    in_byte = omega (
      arith,
      digit-lt (2 ^ (bit % 8)) (2 ^ bits) b c hb (mod-lt (value / 2 ^ w) (pow-pos bits)),
      pow-add (bit % 8) bits,
      pow_mono (bit % 8 + bits) 8 fits,
    )

-- One round adds its bits of the value, and the bits above them stay clear.
pack_round :
    (out : List ℕ) (value bit bits w : ℕ) {b : ℕ}
    → IsBytes out
    → from_le_bytes out < 2 ^ bit
    → get_elem? out (bit / 8) ≡ some b
    → bit % 8 + bits ≤ 8
    → let r = set out (bit / 8) (or_into b value bit bits w) in
      PackedAt out bit (value / 2 ^ w % 2 ^ bits) r × (from_le_bytes r < 2 ^ (bit + bits))
pack_round out value bit bits w {b} h clear e fits =
    ((added, IsBytes-set out (bit / 8) b' h byte, length-set out (bit / 8) b'), below)
  where
    b' : ℕ
    b' = or_into b value bit bits w

    c : ℕ
    c = value / 2 ^ w % 2 ^ bits

    split : 2 ^ bit ≡ 2 ^ (8 * (bit / 8)) * 2 ^ (bit % 8)
    split = ap (λ (t : ℕ). 2 ^ t) (bit_split bit) ∙ pow-add (8 * (bit / 8)) (bit % 8)

    written : (b' ≡ b + c * 2 ^ (bit % 8)) × (b + c * 2 ^ (bit % 8) < 256)
    written = new_byte b value bit bits w (byte_below out bit h clear e) fits

    byte : b' < 256
    byte = omega (arith, written.0, written.1)

    added : from_le_bytes (set out (bit / 8) b') ≡ from_le_bytes out + c * 2 ^ bit
    added = omega (
      arith,
      from_le_bytes-set out (bit / 8) b' e,
      ap (λ (t : ℕ). t * 2 ^ (8 * (bit / 8))) written.0,
      ap (λ (t : ℕ). c * t) split,
    )

    below : from_le_bytes (set out (bit / 8) b') < 2 ^ (bit + bits)
    below = omega (
      arith,
      added,
      digit-lt (2 ^ bit) (2 ^ bits) (from_le_bytes out) c clear
          (mod-lt (value / 2 ^ w) (pow-pos bits)),
      pow-add bit bits,
    )

-- The bits of the value from `w` on, in two parts.
value_split :
    (v w bits bit : ℕ)
    → v / 2 ^ w * 2 ^ bit ≡ v / 2 ^ w % 2 ^ bits * 2 ^ bit + v / 2 ^ (w + bits) * 2 ^ (bit + bits)
value_split v w bits bit = omega (
  arith,
  div-pow-add v w bits,
  pow-add bit bits,
  ap (λ (t : ℕ). t * 2 ^ bit) (div-add-mod (v / 2 ^ w) (2 ^ bits)),
  ap (λ (t : ℕ). t * 2 ^ (bit + bits)) (div-pow-add v w bits),
  ap (λ (t : ℕ). v / 2 ^ w / 2 ^ bits * t) (pow-add bit bits),
)

pack_loop_round :
    (fuel : ℕ) (out : List ℕ) (num v w bit : ℕ) {b : ℕ}
    → w < num
    → get_elem? out (bit / 8) ≡ some b
    → let bits = round_bits bit (num - w) in
      pack_loop (suc fuel) out num v w bit
      ≡ pack_loop fuel (set out (bit / 8) (or_into b v bit bits w)) num v (w + bits) (bit + bits)
unfolding pack_loop
pack_loop_round fuel out num v w bit hw e = rw (lt→ltb w num hw, e, pack_loop)

pack_loop_done :
    (fuel : ℕ) (out : List ℕ) (num v w bit : ℕ) → num ≤ w → pack_loop fuel out num v w bit ≡ out
unfolding pack_loop
pack_loop_done zero out num v w bit h = refl
pack_loop_done (suc fuel) out num v w bit h = rw (le→ltb-false w num h, pack_loop)

-- With all bits of the value written nothing is left to add.
nothing_left :
    (out : List ℕ) (v w bit : ℕ) → IsBytes out → v < 2 ^ w → PackedAt out bit (v / 2 ^ w) out
nothing_left out v w bit h hv = (rw (div-eq_of_lt hv) (omega arith), h, refl)

-- From bit `w` of the value on, with the buffer clear from `bit` on.
pack_loop-PackedAt :
    (fuel : ℕ) (out : List ℕ) (num v w bit : ℕ)
    → IsBytes out
    → v < 2 ^ num
    → w ≤ num
    → num ≤ fuel + w
    → bit + (num - w) ≤ 8 * length out
    → from_le_bytes out < 2 ^ bit
    → PackedAt out bit (v / 2 ^ w) (pack_loop fuel out num v w bit)
unfolding pack_loop
pack_loop-PackedAt zero out num v w bit h hv hw hf fits clear =
    let e : num ≡ w = omega arith in nothing_left out v w bit h (rw e at hv)
pack_loop-PackedAt (suc fuel) out num v w bit h hv hw hf fits clear =
    elim (Bool-cases (ltb w num)) [
      | inr done ↦
          let e : num ≡ w = omega (tests, done) in
          rw (pack_loop_done (suc fuel) out num v w bit (omega arith))
            (nothing_left out v w bit h (rw e at hv))
      | inl more ↦
          let lt : w < num = ltb→lt w num more in
          let (b, e) = get_elem?_in out (bit / 8) (omega arith) in
          let bits : ℕ = round_bits bit (num - w) in
          let out' : List ℕ = set out (bit / 8) (or_into b v bit bits w) in
          let ((added, bytes, len), below) = pack_round out v bit bits w h clear e (omega arith) in
          let (added', bytes', len') =
            pack_loop-PackedAt fuel out' num v (w + bits) (bit + bits) bytes hv (omega arith)
              (omega arith) (omega arith) below in
          rw (pack_loop_round fuel out num v w bit lt e)
            (omega (arith, added, added', value_split v w bits bit), bytes', len' ∙ len)
    ]

-- Packing a value that fits its field into a buffer that is clear from `start` on adds the value,
-- shifted by `start`, to the little-endian number of the buffer. The length stays the same.
pub bit_pack_u32-PackedAt :
    (out : List ℕ) (start num value : ℕ)
    → IsBytes out
    → value < 2 ^ num
    → start + num ≤ 8 * length out
    → from_le_bytes out < 2 ^ start
    → PackedAt out start value (bit_pack_u32 out start num value)
unfolding bit_pack_u32
bit_pack_u32-PackedAt out start num value h hv fits clear = rw div-one at (
    pack_loop-PackedAt num out num value 0 start h hv (omega arith) (omega arith) (omega arith)
      clear)
