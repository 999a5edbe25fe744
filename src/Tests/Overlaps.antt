-- ===== src/Tests/Overlaps.antt =====
-- Runs of the test that function bodies do not overlap.
use mathlib.Core.List.{Perm}
use droidsaw_hermes.Prelude.{ℕ, ◌≡◌, refl, List, [], ◌∷◌}
use droidsaw_hermes.Errors.{ok, err, function_body_overlap}
use droidsaw_hermes.Spans.{
  FnSpan, insert_by_offset, sort_by_offset, same_body, check_pair, check_pairs, check_overlaps,
  count_dedup, check_dedups,
}
use droidsaw_hermes.Spans.Apart.{RisesFrom, AllSeparate, check_overlaps-AllSeparate}

abbrev span : ℕ → ℕ → ℕ → FnSpan
span i o n = record { func_idx = i; offset = o; size = n }

-- The second and the fourth function share a body.
abbrev bodies : List FnSpan
bodies = span 0 200 10 ∷ span 1 150 9 ∷ span 2 159 41 ∷ span 3 150 9 ∷ []

bodies_accepted : check_overlaps bodies ≡ ok tt
unfolding check_overlaps check_pairs check_pair check_dedups count_dedup same_body sort_by_offset
    insert_by_offset
bodies_accepted = refl

overlap_refused :
    check_overlaps (span 0 200 10 ∷ span 1 150 51 ∷ [])
    ≡ err (function_body_overlap 1 150 51 0 200 10)
unfolding check_overlaps check_pairs check_pair check_dedups count_dedup same_body sort_by_offset
    insert_by_offset
overlap_refused = refl

check_overlaps-AllSeparate_example :
    (ordered : List FnSpan) × Perm ordered bodies × RisesFrom 0 ordered × AllSeparate ordered
check_overlaps-AllSeparate_example = check_overlaps-AllSeparate bodies bodies_accepted
