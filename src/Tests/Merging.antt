-- ===== src/Tests/Merging.antt =====
-- Runs of the merge of unrecognized functions.
use mathlib.Core.List.{Perm}
use droidsaw_hermes.Prelude.{ℕ, ◌≡◌, refl, List, [], ◌∷◌, ◌++◌, arith}
use droidsaw_hermes.File.{UnrecognizedFunction, large_header_layout_ambiguous}
use droidsaw_hermes.Unrecognized.{take_until, merge_sorted_unrecognized}
use droidsaw_hermes.Unrecognized.Merge.{Ascends, merge_sorted_unrecognized-Ascends}

abbrev entry : ℕ → UnrecognizedFunction
entry i = record { func_idx = i; reason = large_header_layout_ambiguous i }

abbrev first_pass : List UnrecognizedFunction
first_pass = entry 1 ∷ entry 5 ∷ []

abbrev third_pass : List UnrecognizedFunction
third_pass = entry 2 ∷ entry 4 ∷ entry 7 ∷ []

merged :
    merge_sorted_unrecognized first_pass third_pass
    ≡ entry 1 ∷ entry 2 ∷ entry 4 ∷ entry 5 ∷ entry 7 ∷ []
unfolding merge_sorted_unrecognized take_until
merged = refl

first_only : merge_sorted_unrecognized first_pass [] ≡ first_pass
unfolding merge_sorted_unrecognized take_until
first_only = refl

merge_sorted_unrecognized-Ascends_example :
    Ascends 0 (merge_sorted_unrecognized first_pass third_pass)
    × Perm (merge_sorted_unrecognized first_pass third_pass) (first_pass ++ third_pass)
merge_sorted_unrecognized-Ascends_example =
    merge_sorted_unrecognized-Ascends 0 first_pass third_pass (omega arith) (omega arith)
      (omega arith)
