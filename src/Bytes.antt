-- ===== src/Bytes.antt =====
-- Byte buffers: the readers `read_u32_le` of src/header.rs and `read_u16`, `read_u32` of
-- src/parser/mod.rs, and Rust's slices and little-endian conversions. A byte is a number below 256.
pub mod Value
use droidsaw_hermes.Prelude.{
  ℕ, zero, suc, ◌+◌, ◌-◌, ◌*◌, ◌/◌, ◌%◌, ◌<◌, List, [], ◌∷◌, Option, none, some, leb, ◌&&◌,
  if◌then◌else◌, length, take, drop, All,
}

abbrev pub IsByte : ℕ → Type 0
IsByte b = b < 256

abbrev pub IsBytes : List ℕ → Type 0
IsBytes = All IsByte

-- `u16::from_le_bytes`, `u32::from_le_bytes`, …: the number of any run of bytes.
abbrev pub from_le_bytes : List ℕ → ℕ
from_le_bytes [] = 0
from_le_bytes (b ∷ bs) = b + 256 * from_le_bytes bs

-- `to_le_bytes` of a number of `n` bytes.
abbrev pub to_le_bytes : ℕ → ℕ → List ℕ
to_le_bytes zero v = []
to_le_bytes (suc n) v = v % 256 ∷ to_le_bytes n (v / 256)

-- `buf.get(start..)`
abbrev pub get_from : List ℕ → ℕ → Option (List ℕ)
get_from buf start = if leb start (length buf) then some (drop start buf) else none

-- `buf.get(start..end)`
abbrev pub get_range : List ℕ → ℕ → ℕ → Option (List ℕ)
get_range buf start end =
    if leb start end && leb end (length buf)
    then some (take (end - start) (drop start buf))
    else none

-- `first_chunk::<n>`
abbrev pub first_chunk : ℕ → List ℕ → Option (List ℕ)
first_chunk n xs = if leb n (length xs) then some (take n xs) else none

abbrev pub and_then {ℓ κ} : {A : Type ℓ} {B : Type κ} → Option A → (A → Option B) → Option B
and_then none f = none
and_then (some a) f = f a

-- `map_or(0, from_le_bytes)`
abbrev pub map_or_zero : Option (List ℕ) → ℕ
map_or_zero none = 0
map_or_zero (some a) = from_le_bytes a

-- `get(offset..).and_then(first_chunk::<n>).map_or(0, from_le_bytes)`
pub read_le : ℕ → List ℕ → ℕ → ℕ
read_le n buf offset = map_or_zero (and_then (get_from buf offset) (first_chunk n))

unfoldable pub read_u32_le : List ℕ → ℕ → ℕ
unfolding read_le
read_u32_le = read_le 4

unfoldable pub read_u16 : List ℕ → ℕ → ℕ
unfolding read_le
read_u16 = read_le 2
