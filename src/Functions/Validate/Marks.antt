-- ===== src/Functions/Validate/Marks.antt =====
-- Which functions are marked: the lists of src/parser/mod.rs and their merge.
use droidsaw_hermes.Prelude.{
  ℕ, suc, ◌≤◌, ◌<◌, ◌≡◌, ◌≢◌, refl, sym, Bool, true, false, ◌||◌, List, [], ◌∷◌, ◌==◌, leb, All,
  arith, inl, inr, Bool-cases,
}
use droidsaw_hermes.File.{UnrecognizedFunction}
use droidsaw_hermes.Unrecognized.{take_until, merge_sorted_unrecognized}
use droidsaw_hermes.Unrecognized.Merge.{Ascends, Absent, Apart}
use droidsaw_hermes.Functions.Validate.{contains_mark}

pub Ascends-le :
    (lo hi : ℕ) (us : List UnrecognizedFunction) → lo ≤ hi → Ascends hi us → Ascends lo us
Ascends-le lo hi [] le h = tt
Ascends-le lo hi (u ∷ us) le (first, rest) = (omega (arith, le, first), rest)

-- No mark of a function below the least number.
pub contains_mark-Ascends :
    (lo i : ℕ) (us : List UnrecognizedFunction)
    → i < lo
    → Ascends lo us
    → contains_mark us i ≡ false
unfolding contains_mark
contains_mark-Ascends lo i [] lt h = refl
contains_mark-Ascends lo i (u ∷ us) lt (first, rest) =
    let other : (u.func_idx == i) ≡ false = ground (arith, lt, first) in
    rw (contains_mark, other)
      (contains_mark-Ascends (suc u.func_idx) i us (omega (arith, lt, first)) rest)

-- None of the second list is marked by the first.
abbrev pub Unmarked : List UnrecognizedFunction → List UnrecognizedFunction → Type 0
Unmarked us = All (λ (v : UnrecognizedFunction). contains_mark us v.func_idx ≡ false)

head_other :
    (u v : UnrecognizedFunction) (us : List UnrecognizedFunction)
    → contains_mark (u ∷ us) v.func_idx ≡ false
    → (u.func_idx ≢ v.func_idx) × (contains_mark us v.func_idx ≡ false)
unfolding contains_mark
head_other u v us h = elim (Bool-cases (u.func_idx == v.func_idx)) [
  | inl same ↦ let bad = rw (contains_mark, same) at h in cc
  | inr other ↦ (ground (arith, other), rw (contains_mark, other) at h)
]

Unmarked-Absent :
    (u : UnrecognizedFunction) (us vs : List UnrecognizedFunction)
    → Unmarked (u ∷ us) vs
    → Absent u.func_idx vs × Unmarked us vs
Unmarked-Absent u us [] h = (tt, tt)
Unmarked-Absent u us (v ∷ vs) (h, hs) =
    let (other, free) = head_other u v us h in
    let (absent, rest) = Unmarked-Absent u us vs hs in ((other, absent), (free, rest))

pub Unmarked-Apart : (us vs : List UnrecognizedFunction) → Unmarked us vs → Apart us vs
Unmarked-Apart [] vs h = tt
Unmarked-Apart (u ∷ us) vs h =
    let (absent, rest) = Unmarked-Absent u us vs h in (absent, Unmarked-Apart us vs rest)

or_assoc_swap : (a b c : Bool) → (a || (b || c)) ≡ (b || (a || c))
or_assoc_swap true true c = refl
or_assoc_swap true false c = refl
or_assoc_swap false true c = refl
or_assoc_swap false false c = refl

or_assoc : (a b c : Bool) → ((a || b) || c) ≡ (a || (b || c))
or_assoc true b c = refl
or_assoc false b c = refl

contains_mark-take_until :
    (x : UnrecognizedFunction) (a : List UnrecognizedFunction)
    (rest : List UnrecognizedFunction → List UnrecognizedFunction) (i : ℕ)
    → ((ys : List UnrecognizedFunction)
        → contains_mark (rest ys) i ≡ (contains_mark a i || contains_mark ys i))
    → (ys : List UnrecognizedFunction)
    → contains_mark (take_until x rest ys) i ≡ (contains_mark (x ∷ a) i || contains_mark ys i)
unfolding contains_mark take_until
contains_mark-take_until x a rest i ih [] =
    rw (ih []) (sym (or_assoc (x.func_idx == i) (contains_mark a i) false))
contains_mark-take_until x a rest i ih (y ∷ ys) = elim (Bool-cases (leb x.func_idx y.func_idx)) [
  | inl le ↦
      rw (take_until, le, contains_mark, ih (y ∷ ys))
        (sym (or_assoc (x.func_idx == i) (contains_mark a i) (contains_mark (y ∷ ys) i)))
  | inr gt ↦
      rw (take_until, gt, contains_mark, contains_mark-take_until x a rest i ih ys)
        (or_assoc_swap (y.func_idx == i) (contains_mark (x ∷ a) i) (contains_mark ys i))
]

-- The merge has the marks of both lists.
pub contains_mark-merge_sorted_unrecognized :
    (a b : List UnrecognizedFunction) (i : ℕ)
    → contains_mark (merge_sorted_unrecognized a b) i ≡ (contains_mark a i || contains_mark b i)
unfolding contains_mark merge_sorted_unrecognized
contains_mark-merge_sorted_unrecognized [] b i = refl
contains_mark-merge_sorted_unrecognized (x ∷ a) b i =
    contains_mark-take_until x a (merge_sorted_unrecognized a) i
      (λ ys. contains_mark-merge_sorted_unrecognized a ys i) b
