-- ===== src/Bytes/Value.antt =====
-- Reading little-endian words at any offset, in and out of bounds.
use droidsaw_hermes.Prelude.{
  ℕ, zero, suc, ◌+◌, ◌*◌, ◌/◌, ◌%◌, ◌^◌, ◌≤◌, ◌<◌, ◌≡◌, refl, ap, List, [], ◌∷◌, arith, length,
  take, drop, length-drop, Bool-cases, ltb, inl, tests, inr, length-take,
}
use droidsaw_hermes.Bytes.{IsBytes, from_le_bytes, to_le_bytes, read_le, read_u32_le}
use native.Mathlib.Nat.{pow-suc}

pub IsBytes-take : (n : ℕ) (xs : List ℕ) → IsBytes xs → IsBytes (take n xs)
IsBytes-take zero xs h = tt
IsBytes-take (suc n) [] h = tt
IsBytes-take (suc n) (x ∷ xs) h = (h.0, IsBytes-take n xs h.1)

pub IsBytes-drop : (n : ℕ) (xs : List ℕ) → IsBytes xs → IsBytes (drop n xs)
IsBytes-drop zero xs h = h
IsBytes-drop (suc n) [] h = tt
IsBytes-drop (suc n) (x ∷ xs) h = IsBytes-drop n xs h.1

-- A run of `n` bytes stands for a number below 256 ^ n.
pub from_le_bytes-lt : (xs : List ℕ) → IsBytes xs → from_le_bytes xs < 256 ^ length xs
from_le_bytes-lt [] h = omega arith
from_le_bytes-lt (x ∷ xs) h = omega (arith, h.0, from_le_bytes-lt xs h.1, pow-suc 256 (length xs))

-- Writing and reading a run of bytes are inverse to one another.
pub to_le_bytes-from_le_bytes :
    (xs : List ℕ) → IsBytes xs → to_le_bytes (length xs) (from_le_bytes xs) ≡ xs
to_le_bytes-from_le_bytes [] h = refl
to_le_bytes-from_le_bytes (x ∷ xs) h =
    let low : (x + 256 * from_le_bytes xs) % 256 ≡ x = omega (arith, h.0) in
    let high : (x + 256 * from_le_bytes xs) / 256 ≡ from_le_bytes xs = omega (arith, h.0) in
    rw (low, high, to_le_bytes-from_le_bytes xs h.1)

pub from_le_bytes-to_le_bytes : (n v : ℕ) → v < 256 ^ n → from_le_bytes (to_le_bytes n v) ≡ v
from_le_bytes-to_le_bytes zero v h = omega arith
from_le_bytes-to_le_bytes (suc n) v h =
    omega
      (arith, pow-suc 256 n, from_le_bytes-to_le_bytes n (v / 256) (omega (arith, pow-suc 256 n)))

pub length-to_le_bytes : (n v : ℕ) → length (to_le_bytes n v) ≡ n
length-to_le_bytes zero v = refl
length-to_le_bytes (suc n) v = ap suc (length-to_le_bytes n (v / 256))

pub to_le_bytes-IsBytes : (n v : ℕ) → IsBytes (to_le_bytes n v)
to_le_bytes-IsBytes zero v = tt
to_le_bytes-IsBytes (suc n) v = (omega arith, to_le_bytes-IsBytes n (v / 256))

-- A read that fits takes the bytes at its offset.
pub read_le_in :
    (n : ℕ) (buf : List ℕ) (offset : ℕ)
    → offset + n ≤ length buf
    → read_le n buf offset ≡ from_le_bytes (take n (drop offset buf))
unfolding read_le
read_le_in n buf offset h = ground (arith, length-drop offset buf)

pub read_le_out :
    (n : ℕ) (buf : List ℕ) (offset : ℕ) → length buf < offset + n → read_le n buf offset ≡ 0
unfolding read_le
read_le_out n buf offset h = ground (arith, length-drop offset buf)

pub read_u32_le-lt : (buf : List ℕ) (offset : ℕ) → IsBytes buf → read_u32_le buf offset < 2 ^ 32
unfolding read_u32_le
read_u32_le-lt buf offset h = elim (Bool-cases (ltb (length buf) (offset + 4))) [
  | inl a ↦ rw (read_le_out 4 buf offset (omega (tests, a))) (omega arith)
  | inr a ↦
      let n : length (take 4 (drop offset buf)) ≡ 4 =
        omega (tests, a, length-take 4 (drop offset buf), length-drop offset buf) in
      let i : IsBytes (take 4 (drop offset buf)) = IsBytes-take 4 _ (IsBytes-drop offset buf h) in
      rw (read_le_in 4 buf offset (omega (tests, a)))
        (rw n at (from_le_bytes-lt (take 4 (drop offset buf)) i))
]
