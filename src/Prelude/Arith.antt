-- ===== src/Prelude/Arith.antt =====
-- Quotients and remainders by products, at variables.
use Prim.Native.Nat.{ℕ, zero, suc, ◌+◌, ◌*◌, ◌/◌, ◌%◌, ◌^◌, ◌≤◌, ◌<◌, ◌-◌}
use mathlib.Core.Path.{◌≡◌, ap, ◌∙◌}
use native.Mathlib.Omega.{arith}
use native.Mathlib.Nat.{
  pow-suc, one-le-pow, div-add-mod, mod-lt, add-mul-div_left, add-mul-mod_self_left, div-eq_of_lt,
  mod-eq_of_lt, add-zero, add-suc, mod-mod, pow-le-pow_right, div-div-eq-div-mul,
}

pub pow-pos : (k : ℕ) → 0 < 2 ^ k
pow-pos k = one-le-pow k 2 (omega arith)

-- `2 ^ (a + b)` at variables.
pub pow-add : (a b : ℕ) → 2 ^ (a + b) ≡ 2 ^ a * 2 ^ b
pow-add a zero = rw add-zero (omega arith)
pow-add a (suc b) =
    rw add-suc
      (omega (arith, pow-suc 2 (a + b), ap (λ (t : ℕ). 2 ^ a * t) (pow-suc 2 b), pow-add a b))

-- A remainder below `a` and a digit below `b` make a number below `a * b`.
pub digit-lt : (a b r d : ℕ) → r < a → d < b → r + a * d < a * b
digit-lt a b r d h k = grind arith

-- The number by its two lowest digits in the mixed base `a`, `b`.
digits_eq : (x a b : ℕ) → x ≡ (x % a + a * (x / a % b)) + (a * b) * (x / a / b)
digits_eq x a b = omega (arith, div-add-mod x a, ap (λ (t : ℕ). a * t) (div-add-mod (x / a) b))

-- The remainder by a product splits into digits.
pub mod-mul : (x a b : ℕ) → 0 < a → 0 < b → x % (a * b) ≡ x % a + a * (x / a % b)
mod-mul x a b ha hb =
    ap (λ (t : ℕ). t % (a * b)) (digits_eq x a b)
    ∙ add-mul-mod_self_left (x % a + a * (x / a % b)) (a * b) (x / a / b)
    ∙ mod-eq_of_lt (digit-lt a b (x % a) (x / a % b) (mod-lt x ha) (mod-lt (x / a) hb))

-- A digit of a remainder is a digit of the number.
pub mod-mul-div : (x a b : ℕ) → 0 < a → 0 < b → x % (a * b) / a ≡ x / a % b
mod-mul-div x a b ha hb =
    ap (λ (t : ℕ). t / a) (mod-mul x a b ha hb)
    ∙ add-mul-div_left (x % a) (x / a % b) ha
    ∙ ap (λ (t : ℕ). t + x / a % b) (div-eq_of_lt (mod-lt x ha))
    ∙ omega arith

pub mod-mul-mod : (x a b : ℕ) → 0 < a → 0 < b → x % (a * b) % a ≡ x % a
mod-mul-mod x a b ha hb =
    ap (λ (t : ℕ). t % a) (mod-mul x a b ha hb)
    ∙ add-mul-mod_self_left (x % a) a (x / a % b)
    ∙ mod-mod x a

pub pow_mono : (a b : ℕ) → a ≤ b → 2 ^ a ≤ 2 ^ b
pow_mono a b h = pow-le-pow_right (omega arith) h

-- Dividing by a power of two in two steps.
pub div-pow-add : (x a b : ℕ) → x / 2 ^ (a + b) ≡ x / 2 ^ a / 2 ^ b
div-pow-add x a b = rw (pow-add, ← div-div-eq-div-mul)

-- The bits of `x` from `a` on, `k` of them, seen in the eight bits that contain them.
pub bits_in_byte : (x s k : ℕ) → s + k ≤ 8 → x % 256 / 2 ^ s % 2 ^ k ≡ x / 2 ^ s % 2 ^ k
bits_in_byte x s k h =
    ap (λ (t : ℕ). x % t / 2 ^ s % 2 ^ k) split
    ∙ ap (λ (t : ℕ). t % 2 ^ k) (mod-mul-div x (2 ^ s) (2 ^ k * 2 ^ r) (pow-pos s) above)
    ∙ mod-mul-mod (x / 2 ^ s) (2 ^ k) (2 ^ r) (pow-pos k) (pow-pos r)
  where
    r : ℕ
    r = 8 - s - k

    above : 0 < 2 ^ k * 2 ^ r
    above = rw (← pow-add) (pow-pos (k + r))

    sum : s + (k + r) ≡ 8
    sum = omega arith

    split : 256 ≡ 2 ^ s * (2 ^ k * 2 ^ r)
    split = rw (← pow-add, ← pow-add, sum)
