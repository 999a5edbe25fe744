-- ===== src/Unrecognized/Merge.antt =====
-- The merge of src/parser/mod.rs keeps the order and the entries.
use mathlib.Core.List.{Perm, perm_middle}
use mathlib.Core.List.Perm
use droidsaw_hermes.Prelude.{
  ℕ, suc, ◌≤◌, ◌≢◌, List, [], ◌∷◌, ◌++◌, Bool-cases, leb, inl, inr, arith, tests,
}
use droidsaw_hermes.File.{UnrecognizedFunction}
use droidsaw_hermes.Unrecognized.{take_until, merge_sorted_unrecognized}

-- The numbers of the functions ascend strictly, from at least `lo` on.
abbrev pub Ascends : ℕ → List UnrecognizedFunction → Type 0
Ascends lo [] = Unit
Ascends lo (x ∷ xs) = (lo ≤ x.func_idx) × Ascends (suc x.func_idx) xs

-- No entry is about this function.
abbrev pub Absent : ℕ → List UnrecognizedFunction → Type 0
Absent i [] = Unit
Absent i (y ∷ ys) = (i ≢ y.func_idx) × Absent i ys

-- No function has an entry in both.
abbrev pub Apart : List UnrecognizedFunction → List UnrecognizedFunction → Type 0
Apart [] b = Unit
Apart (x ∷ a) b = Absent x.func_idx b × Apart a b

Apart-tail :
    (a : List UnrecognizedFunction) (y : UnrecognizedFunction) (ys : List UnrecognizedFunction)
    → Apart a (y ∷ ys)
    → Apart a ys
Apart-tail [] y ys h = tt
Apart-tail (x ∷ a) y ys h = (h.0.1, Apart-tail a y ys h.1)

-- What the merge does to the rest of the first vector, for any second one.
abbrev MergesTo :
    ℕ → List UnrecognizedFunction → (List UnrecognizedFunction → List UnrecognizedFunction) → Type 0
MergesTo lo a rest =
    (b : List UnrecognizedFunction)
    → Ascends lo b
    → Apart a b
    → Ascends lo (rest b) × Perm (rest b) (a ++ b)

take_until-Ascends :
    (lo : ℕ) (x : UnrecognizedFunction) (a : List UnrecognizedFunction)
    (rest : List UnrecognizedFunction → List UnrecognizedFunction)
    → lo ≤ x.func_idx
    → MergesTo (suc x.func_idx) a rest
    → MergesTo lo (x ∷ a) (take_until x rest)
unfolding take_until
take_until-Ascends lo x a rest l ih [] h d = let r = ih [] tt d.1 in ((l, r.0), Perm.cons x r.1)
take_until-Ascends lo x a rest l ih (y ∷ ys) h d = elim (Bool-cases (leb x.func_idx y.func_idx)) [
  | inl t ↦
      let above : suc x.func_idx ≤ y.func_idx = omega (tests, t, d.0.0) in
      let r = ih (y ∷ ys) (above, h.1) d.1 in rw (take_until, t) ((l, r.0), Perm.cons x r.1)
  | inr t ↦
      let below : suc y.func_idx ≤ x.func_idx = ground (arith, t) in
      let r =
        take_until-Ascends (suc y.func_idx) x a rest below ih ys h.1
          (d.0.1, Apart-tail a y ys d.1) in
      rw (take_until, t)
        ((h.0, r.0), Perm.trans (Perm.cons y r.1) (Perm.symm (perm_middle {a = y} (x ∷ a) ys)))
]

-- Two vectors that ascend strictly by the numbers of their functions and have no function in common
-- are merged into one that ascends strictly and has the entries of both.
pub merge_sorted_unrecognized-Ascends :
    (lo : ℕ) (a b : List UnrecognizedFunction)
    → Ascends lo a
    → Ascends lo b
    → Apart a b
    → Ascends lo (merge_sorted_unrecognized a b) × Perm (merge_sorted_unrecognized a b) (a ++ b)
unfolding merge_sorted_unrecognized
merge_sorted_unrecognized-Ascends lo [] b h k d = (k, Perm.refl b)
merge_sorted_unrecognized-Ascends lo (x ∷ a) b h k d =
    take_until-Ascends lo x a (merge_sorted_unrecognized a) h.0
      (λ b' k' d'. merge_sorted_unrecognized-Ascends (suc x.func_idx) a b' h.1 k' d') b k d
