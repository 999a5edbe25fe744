-- ===== src/Emit/Slices.antt =====
-- Writers of src/emit.rs that reproduce a stretch of the source, and rules to compose them.
use droidsaw_hermes.Prelude.{
  ℕ, zero, suc, ◌+◌, ◌-◌, ◌≤◌, ◌≡◌, refl, ap, Bool, true, List, [], ◌∷◌, ◌++◌, append-nil,
  append_assoc, length, take, drop, arith, length-drop, length-take,
}
use droidsaw_hermes.Errors.{ok, ◌>>=◌}
use droidsaw_hermes.Bytes.{IsBytes, read_u32_le, from_le_bytes}
use droidsaw_hermes.Bytes.Value.{read_le_in, to_le_bytes-from_le_bytes, IsBytes-take, IsBytes-drop}
use droidsaw_hermes.Emit.{HermesEmitError, Writer, run, bytes, u32, copy, copy_from, require}

-- Bytes `a` to `b` of the source.
abbrev pub slice : List ℕ → ℕ → ℕ → List ℕ
slice src a b = take (b - a) (drop a src)

take_nil : (n : ℕ) → ◌≡◌ {A = List ℕ} (take n []) []
take_nil zero = refl
take_nil (suc n) = refl

drop_nil : (n : ℕ) → ◌≡◌ {A = List ℕ} (drop n []) []
drop_nil zero = refl
drop_nil (suc n) = refl

take-append-drop : (m n : ℕ) (xs : List ℕ) → take m xs ++ take n (drop m xs) ≡ take (m + n) xs
take-append-drop zero n xs = let e : 0 + n ≡ n = omega arith in rw e
take-append-drop (suc m) n [] = rw (take_nil, take_nil)
take-append-drop (suc m) n (x ∷ xs) =
    let e : suc m + n ≡ suc (m + n) = omega arith in rw (e, ← take-append-drop m n xs)

drop-drop : (m n : ℕ) (xs : List ℕ) → drop m (drop n xs) ≡ drop (n + m) xs
drop-drop m zero xs = let e : 0 + m ≡ m = omega arith in rw e
drop-drop m (suc n) [] = rw (drop_nil, drop_nil)
drop-drop m (suc n) (x ∷ xs) =
    let e : suc n + m ≡ suc (n + m) = omega arith in rw (e, drop-drop m n xs)

pub slice-append-slice :
    (src : List ℕ) (a b c : ℕ) → a ≤ b → b ≤ c → slice src a b ++ slice src b c ≡ slice src a c
slice-append-slice src a b c h k =
    let d : a + (b - a) ≡ b = omega arith in
    let e : drop b src ≡ drop (b - a) (drop a src) = rw (drop-drop (b - a) a src, d) in
    let n : c - a ≡ b - a + (c - b) = omega arith in
    rw (e, n) (take-append-drop (b - a) (c - b) (drop a src))

take_all : (n : ℕ) (xs : List ℕ) → length xs ≤ n → take n xs ≡ xs
take_all n [] h = take_nil n
take_all zero (x ∷ xs) h = ground arith
take_all (suc n) (x ∷ xs) h = ap (λ (ys : List ℕ). x ∷ ys) (take_all n xs (omega arith))

-- From an offset to the end.
slice-drop : (src : List ℕ) (a : ℕ) → a ≤ length src → slice src a (length src) ≡ drop a src
slice-drop src a h = take_all (length src - a) (drop a src) (omega (arith, length-drop a src))

pub slice_all : (src : List ℕ) → slice src 0 (length src) ≡ src
slice_all src = take_all (length src - 0) src (omega arith)

pub slice_empty : (src : List ℕ) (a : ℕ) → slice src a a ≡ []
slice_empty src a = let e : a - a ≡ 0 = omega arith in rw e

pub length-slice :
    (src : List ℕ) (a b : ℕ) → a ≤ b → b ≤ length src → length (slice src a b) ≡ b - a
length-slice src a b h k = omega (arith, length-take (b - a) (drop a src), length-drop a src)

-- The writer appends bytes `a` to `b` of the source.
pub record Writes (src : List ℕ) (a b : ℕ) (w : Writer) : Type 0 where
  pub ordered : a ≤ b
  pub appends : (out : List ℕ) → w out ≡ ok (out ++ slice src a b)

module _ (src : List ℕ) where
  pub Writes-nil : (a : ℕ) → Writes src a a (run [])
  unfolding run
  Writes-nil a = record {
    ordered = omega arith;
    appends = λ out. rw (slice_empty src a, append-nil);
  }

  pub Writes-require :
      (a : ℕ) (b : Bool) (e : HermesEmitError) → b ≡ true → Writes src a a (require b e)
  Writes-require a b e t = record {
    ordered = omega arith;
    appends = λ out. rw (t, slice_empty src a, append-nil);
  }

  pub Writes-done : (a : ℕ) → Writes src a a (λ out. ok out)
  Writes-done a = record {
    ordered = omega arith;
    appends = λ out. rw (slice_empty src a, append-nil);
  }

  pub Writes-then :
      (a b c : ℕ) (w v : Writer)
      → Writes src a b w
      → Writes src b c v
      → Writes src a c (λ out. w out >>= v)
  Writes-then a b c w v h k = record {
    ordered = omega (arith, h.ordered, k.ordered);
    appends = λ out. rw (
      h.appends out,
      k.appends (out ++ slice src a b),
      append_assoc,
      slice-append-slice src a b c h.ordered k.ordered,
    );
  }

  pub Writes-cons :
      (a b c : ℕ) (w : Writer) (ws : List Writer)
      → Writes src a b w
      → Writes src b c (run ws)
      → Writes src a c (run (w ∷ ws))
  unfolding run
  Writes-cons a b c w ws h k = Writes-then a b c w (run ws) h k

  pub Writes-copy : (a b : ℕ) → a ≤ b → b ≤ length src → Writes src a b (copy src a b)
  unfolding copy
  Writes-copy a b h k = record { ordered = h; appends = λ out. ground arith }

  pub Writes-copy_from : (a : ℕ) → a ≤ length src → Writes src a (length src) (copy_from src a)
  unfolding copy_from
  Writes-copy_from a h = record {
    ordered = h;
    appends = λ out. rw (slice-drop src a h) (ground arith);
  }

  pub Writes-bytes :
      (a b : ℕ) (xs : List ℕ) → a ≤ b → xs ≡ slice src a b → Writes src a b (bytes xs)
  Writes-bytes a b xs h e = record { ordered = h; appends = λ out. rw e }

  -- A number read from the source is written as the bytes it was read from.
  pub Writes-u32 :
      (a : ℕ) → IsBytes src → a + 4 ≤ length src → Writes src a (a + 4) (u32 (read_u32_le src a))
  unfolding read_u32_le
  Writes-u32 a h k = Writes-bytes a (a + 4) _ (omega arith) (
      let e : read_u32_le src a ≡ from_le_bytes (slice src a (a + 4)) =
        let d : a + 4 - a ≡ 4 = omega arith in rw d (read_le_in 4 src a k) in
      let n : length (slice src a (a + 4)) ≡ 4 =
        omega (arith, length-slice src a (a + 4) (omega arith) k) in
      let i : IsBytes (slice src a (a + 4)) = IsBytes-take (a + 4 - a) _ (IsBytes-drop a src h) in
      rw e (rw n at (to_le_bytes-from_le_bytes (slice src a (a + 4)) i)))
