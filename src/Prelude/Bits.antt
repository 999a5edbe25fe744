-- ===== src/Prelude/Bits.antt =====
-- Masks and disjoint unions of bits as arithmetic, at every width.
use Prim.Native.Nat.{
  ℕ, zero, suc, ◌+◌, ◌-◌, ◌*◌, ◌/◌, ◌%◌, ◌^◌, ◌≤◌, ◌<◌, min, max, bit_and, bit_or, digits, bitwise,
  bit_and-bitwise, bit_or-bitwise,
}
use mathlib.Core.Path.{◌≡◌, refl, ap}
use native.Mathlib.Omega.{arith}
use native.Mathlib.Nat.{pow-suc, pow-succ', le_refl}
use droidsaw_hermes.Prelude.Arith.{pow-pos, mod-mul}

-- The digit recursion has fuel; any fuel from the first number on gives the same.
module _ (z : ℕ → ℕ) (f : ℕ → ℕ → ℕ) where
  enough : (n m a b : ℕ) → a ≤ n → a ≤ m → digits z f n a b ≡ digits z f m a b
  enough (suc n) (suc m) (suc a) b p q =
      ap (λ (d : ℕ). d * 2 + f (suc a % 2) (b % 2))
        (enough n m (suc a / 2) (b / 2) (omega arith) (omega arith))
  enough zero zero _ b p q = refl
  enough (suc n) zero zero b p q = refl
  enough zero (suc m) zero b p q = refl
  enough (suc n) (suc m) zero b p q = refl
  enough _ _ _ b p q = absurd (omega arith)

  bitwise_lowest :
      (m n : ℕ)
      → bitwise z f (suc m) n ≡ f (suc m % 2) (n % 2) + bitwise z f (suc m / 2) (n / 2) * 2
  bitwise_lowest m n =
      omega (arith, enough m (suc m / 2) (suc m / 2) (n / 2) (omega arith) (le_refl _))

bit_or_lowest : (m n : ℕ) → bit_or m n ≡ bit_or (m / 2) (n / 2) * 2 + max (m % 2) (n % 2)
bit_or_lowest (suc m) n = simp bit_or-bitwise (omega (arith, bitwise_lowest (λ rest. rest) max m n))
bit_or_lowest zero n = simp bit_or-bitwise (omega arith)

pub bit_and_lowest : (m n : ℕ) → bit_and m n ≡ min (m % 2) (n % 2) + bit_and (m / 2) (n / 2) * 2
bit_and_lowest (suc m) n = simp bit_and-bitwise (omega (arith, bitwise_lowest (λ rest. 0) min m n))
bit_and_lowest zero n = simp bit_and-bitwise (omega arith)

pub zero-bit_or : (b : ℕ) → bit_or 0 b ≡ b
zero-bit_or b = simp bit_or-bitwise (omega arith)

bit_and-zero_below : (n a : ℕ) → a ≤ n → bit_and a 0 ≡ 0
bit_and-zero_below n zero h = refl
bit_and-zero_below zero (suc a) h = absurd (omega arith)
bit_and-zero_below (suc n) (suc a) h =
    omega (arith, bit_and_lowest (suc a) 0, bit_and-zero_below n (suc a / 2) (omega arith))

-- `a | (c << k)` is a sum when `a` fits `k` bits.
pub bit_or-shifted : (k a c : ℕ) → a < 2 ^ k → bit_or a (c * 2 ^ k) ≡ a + c * 2 ^ k
bit_or-shifted zero a c h = let e : a ≡ 0 = omega arith in rw (e, zero-bit_or) (omega arith)
bit_or-shifted (suc k) a c h = omega (
  arith,
  pow-suc 2 k,
  ap (λ (t : ℕ). c * t) (pow-suc 2 k),
  bit_or_lowest a (c * 2 ^ suc k),
  halves,
  bit_or-shifted k (a / 2) c (omega (arith, pow-suc 2 k)),
)
  where
    halves : bit_or (a / 2) (c * 2 ^ suc k / 2) ≡ bit_or (a / 2) (c * 2 ^ k)
    halves = ap (bit_or (a / 2)) (omega (arith, ap (λ (t : ℕ). c * t) (pow-suc 2 k)))

-- `a & ((1 << k) - 1)` is the remainder by `2 ^ k`.
pub bit_and-mask : (k a : ℕ) → bit_and a (2 ^ k - 1) ≡ a % 2 ^ k
bit_and-mask zero a = omega (arith, bit_and-zero_below a a (le_refl a))
bit_and-mask (suc k) a = omega (
  arith,
  bit_and_lowest a (2 ^ suc k - 1),
  pow-suc 2 k,
  pow-pos k,
  ap (λ (t : ℕ). a % t) (pow-succ' 2 k),
  mod-mul a 2 (2 ^ k) (omega arith) (pow-pos k),
  ap (bit_and (a / 2)) half_mask,
  bit_and-mask k (a / 2),
)
  where
    half_mask : (2 ^ suc k - 1) / 2 ≡ 2 ^ k - 1
    half_mask = omega (arith, pow-suc 2 k, pow-pos k)
