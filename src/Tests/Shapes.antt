-- ===== src/Tests/Shapes.antt =====
-- Runs of the checks of large headers.
use droidsaw_hermes.Prelude.{
  ◌≡◌, refl, false, [], ◌∷◌, ◌++◌, replicate, none, some, List, ℕ, length, arith, ◌<◌,
}
use droidsaw_hermes.Bytes.{IsBytes, read_u32_le}
use droidsaw_hermes.File.{shape36}
use droidsaw_hermes.LargeHeader.{
  Scratch, check_triples, exc_table_pos_outside_runtime_domain, exc_table_summary_uncached, find,
  exc_table_summary, align4_u64, overflow_header_is_oob, large_header_shape_violation,
}
use droidsaw_hermes.LargeHeader.Tables.{Exact, TableFits, exc_table_summary_uncached-Exact}
use droidsaw_hermes.LargeHeader.Shapes.{HasShape, Verdict, large_header_shape_violation-Verdict}

-- One handler, from 2 to 6, with its target at 8.
abbrev one_handler : List ℕ
one_handler = 1 ∷ 0 ∷ 0 ∷ 0 ∷ 2 ∷ 0 ∷ 0 ∷ 0 ∷ 6 ∷ 0 ∷ 0 ∷ 0 ∷ 8 ∷ 0 ∷ 0 ∷ 0 ∷ []

required_nine : (exc_table_summary_uncached one_handler 0 1).0 ≡ some (some 9)
unfolding exc_table_summary_uncached exc_table_pos_outside_runtime_domain check_triples read_u32_le
required_nine = refl

no_budget : (exc_table_summary_uncached one_handler 0 0).0 ≡ none
unfolding exc_table_summary_uncached exc_table_pos_outside_runtime_domain check_triples read_u32_le
no_budget = refl

-- A header of 36 bytes for a function of 9 bytes with handlers, and its table.
abbrev header36 : List ℕ
header36 = replicate 12 0 ++ 9 ∷ replicate 22 0 ++ 8 ∷ one_handler ++ replicate 12 0

abbrev fresh : Scratch
fresh = record { per_table = []; budget = 4 }

has_shape36 : (large_header_shape_violation header36 0 shape36 fresh).0 ≡ some false
unfolding large_header_shape_violation exc_table_summary find align4_u64 exc_table_summary_uncached
    exc_table_pos_outside_runtime_domain check_triples read_u32_le
has_shape36 = refl

exc_table_summary_uncached-Exact_example :
    Exact
      (TableFits one_handler 0 9)
      (1 < read_u32_le one_handler 0)
      9
      (exc_table_summary_uncached one_handler 0 1).0
exc_table_summary_uncached-Exact_example =
    exc_table_summary_uncached-Exact one_handler 0 1 9 (omega arith)

header36-IsBytes : IsBytes header36
header36-IsBytes = ground arith

header36_fits : overflow_header_is_oob 0 (length header36) ≡ false
unfolding overflow_header_is_oob
header36_fits = refl

large_header_shape_violation-Verdict_example :
    Verdict header36
      (HasShape header36 0 shape36)
      36
      4
      (large_header_shape_violation header36 0 shape36 fresh)
large_header_shape_violation-Verdict_example =
    large_header_shape_violation-Verdict header36 0 shape36 fresh header36-IsBytes (omega arith)
      header36_fits tt
