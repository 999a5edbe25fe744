-- ===== src/Bitfield/Build.antt =====
-- Building an entry field by field, lowest bits first, from a zeroed buffer.
use droidsaw_hermes.Prelude.{
  ℕ, zero, suc, ◌+◌, ◌*◌, ◌/◌, ◌%◌, ◌^◌, ◌≤◌, ◌<◌, ◌≡◌, refl, sym, ap, ◌∙◌, List, [], ◌∷◌, some,
  arith, length, get_elem?, get_or, set, replicate, length-set, length-replicate,
}
use mathlib.Core.Path.{ap₂}
use native.Mathlib.Nat.{div-eq_of_lt}
use droidsaw_hermes.Prelude.Arith.{pow-add, digit-lt}
use droidsaw_hermes.Bytes.{IsBytes, from_le_bytes, to_le_bytes}
use droidsaw_hermes.Bytes.Value.{to_le_bytes-from_le_bytes}
use droidsaw_hermes.Bitfield.{bit_pack_u32}
use droidsaw_hermes.Bitfield.Read.{byte_at}
use droidsaw_hermes.Bitfield.Pack.{
  bit_pack_u32-PackedAt, get_elem?_in, from_le_bytes-set, IsBytes-set,
}

-- An entry of `len` bytes that stands for `x`, its bits from `bit` on clear.
pub record Built (len x bit : ℕ) (r : List ℕ) : Type 0 where
  pub number : from_le_bytes r ≡ x
  pub bytes : IsBytes r
  pub size : length r ≡ len
  pub clear : x < 2 ^ bit

zeros-IsBytes : (n : ℕ) → IsBytes (replicate n 0)
zeros-IsBytes zero = tt
zeros-IsBytes (suc n) = (omega arith, zeros-IsBytes n)

zeros_number : (n : ℕ) → from_le_bytes (replicate n 0) ≡ 0
zeros_number zero = refl
zeros_number (suc n) = omega (arith, zeros_number n)

pub Built-start : (len : ℕ) → Built len 0 0 (replicate len 0)
Built-start len = record {
  number = zeros_number len;
  bytes = zeros-IsBytes len;
  size = length-replicate len 0;
  clear = omega arith;
}

pub Built-pack :
    {len x bit : ℕ} {r : List ℕ} (num value : ℕ)
    → Built len x bit r
    → value < 2 ^ num
    → bit + num ≤ 8 * len
    → Built len (x + value * 2 ^ bit) (bit + num) (bit_pack_u32 r bit num value)
Built-pack {len} {x} {bit} {r} num value b hv fits =
    let (added, bytes, size) =
      bit_pack_u32-PackedAt r bit num value b.bytes hv (rw b.size fits) (rw b.number b.clear) in
    record {
      number = added ∙ ap (λ (t : ℕ). t + value * 2 ^ bit) b.number;
      bytes = bytes;
      size = size ∙ b.size;
      clear = omega (arith, digit-lt (2 ^ bit) (2 ^ num) x value b.clear hv, pow-add bit num);
    }

-- The last byte is stored whole.
pub Built-last :
    {len x : ℕ} {r : List ℕ} (i b : ℕ)
    → Built len x (8 * i) r
    → i < len
    → b < 256
    → Built len (x + b * 2 ^ (8 * i)) (8 * i + 8) (set r i b)
Built-last {len} {x} {r} i b built hi hb =
    let (old, e) = get_elem?_in r i (omega (arith, built.size)) in
    let above : x / 2 ^ (8 * i) ≡ 0 = div-eq_of_lt built.clear in
    let zero_old : old ≡ 0 =
      omega
        (arith, byte_at r i built.bytes e, ap (λ (t : ℕ). t / 2 ^ (8 * i)) built.number, above) in
    record {
      number = omega (
        arith,
        from_le_bytes-set r i b e,
        built.number,
        ap (λ (t : ℕ). t * 2 ^ (8 * i)) zero_old,
      );
      bytes = IsBytes-set r i b built.bytes hb;
      size = length-set r i b ∙ built.size;
      clear = omega (arith, digit-lt (2 ^ (8 * i)) 256 x b built.clear hb, pow-add (8 * i) 8);
    }

get_or-get_elem? : (xs : List ℕ) (i : ℕ) {b : ℕ} → get_elem? xs i ≡ some b → get_or xs i 0 ≡ b
get_or-get_elem? [] i e = cc
get_or-get_elem? (x ∷ xs) zero e = cc
get_or-get_elem? (x ∷ xs) (suc i) e = get_or-get_elem? xs i e

-- A byte of the list as digits of the number.
pub get_or_byte :
    (bytes : List ℕ) (i : ℕ)
    → IsBytes bytes
    → i < length bytes
    → get_or bytes i 0 ≡ from_le_bytes bytes / 2 ^ (8 * i) % 256
get_or_byte bytes i h hi =
    let (b, e) = get_elem?_in bytes i hi in get_or-get_elem? bytes i e ∙ sym (byte_at bytes i h e)

-- Entries of the same length that stand for the same number are the same.
pub from_le_bytes-injective :
    (xs ys : List ℕ)
    → IsBytes xs
    → IsBytes ys
    → length xs ≡ length ys
    → from_le_bytes xs ≡ from_le_bytes ys
    → xs ≡ ys
from_le_bytes-injective xs ys hx hy len e =
    sym (to_le_bytes-from_le_bytes xs hx) ∙ ap₂ to_le_bytes len e ∙ to_le_bytes-from_le_bytes ys hy
