-- ===== src/Unrecognized.antt =====
-- The merge of the functions that the validation of src/parser/mod.rs gives up: each round of the loop
-- takes the smaller of the two heads, and what is left of one vector once the other is at its end.
pub mod Merge
use droidsaw_hermes.Prelude.{List, [], ◌∷◌, leb, if◌then◌else◌}
use droidsaw_hermes.File.{UnrecognizedFunction}

-- The rounds up to the one that takes `x`, the head of the first vector.
unfoldable pub take_until :
    UnrecognizedFunction
    → (List UnrecognizedFunction → List UnrecognizedFunction)
    → List UnrecognizedFunction
    → List UnrecognizedFunction
take_until x rest [] = x ∷ rest []
take_until x rest (y ∷ ys) =
    let more = take_until x rest ys in
    if leb x.func_idx y.func_idx then x ∷ rest (y ∷ ys) else y ∷ more

unfoldable pub merge_sorted_unrecognized :
    List UnrecognizedFunction → List UnrecognizedFunction → List UnrecognizedFunction
merge_sorted_unrecognized [] b = b
merge_sorted_unrecognized (x ∷ a) b = take_until x (merge_sorted_unrecognized a) b
