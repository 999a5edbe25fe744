-- ===== src/Functions/Validate.antt =====
-- `validate_function_regions` of src/parser/mod.rs: the passes over the functions of a file. A function's
-- number is in the ascending list of marks exactly if the code's binary search finds it. The findings
-- that it emits are left out.
pub mod Marks
pub mod Bodies
pub mod Handlers
pub mod Valid
use droidsaw_hermes.Prelude.{
  ℕ, zero, suc, ◌+◌, Bool, true, false, ◌&&◌, ◌||◌, List, [], ◌∷◌, Option, none, some, ltb, leb,
  ◌==◌, if◌then◌else◌,
}
use droidsaw_hermes.Errors.{
  HermesError, Result, ok, err, ◌>>=◌, function_body_out_of_bytecode_region,
}
use droidsaw_hermes.Header.{function_count}
use droidsaw_hermes.File.{HbcFile, UnrecognizedFunction, UnrecognizedReason}
use droidsaw_hermes.Spans.{FnSpan, check_overlaps}
use droidsaw_hermes.Unrecognized.{merge_sorted_unrecognized}
use droidsaw_hermes.Functions.{ExceptionHandlerData, FunctionData, function_get_checked}
use droidsaw_hermes.Functions.Exceptions.{
  exc_table_overlaps_synthesized, function_exception_count, function_exception_get,
}

abbrev pub mark : ℕ → UnrecognizedReason → UnrecognizedFunction
mark func_idx reason = record { func_idx = func_idx; reason = reason }

-- The errors that mark a function instead of refusing the file.
unfoldable pub recovered : HermesError → Option UnrecognizedFunction
recovered (HermesError.overflowed_header_out_of_bounds i off len) =
    some (mark i (UnrecognizedReason.overflowed_header_out_of_bounds off len))
recovered (HermesError.overflowed_header_overlaps_synthesized_region i off) =
    some (mark i (UnrecognizedReason.overflowed_header_overlaps_synthesized_region off))
recovered (HermesError.large_header_layout_ambiguous i off) =
    some (mark i (UnrecognizedReason.large_header_layout_ambiguous off))
recovered _ = none

-- What the first pass makes of a function.
pub data Outcome : Type 0 where
  marked : UnrecognizedFunction → Outcome
  skipped : Outcome
  kept : FnSpan → Outcome

-- The marks and the spans, each ascending by number.
pub record Pass : Type 0 where
  pub unrecognized : List UnrecognizedFunction
  pub spans : List FnSpan

unfoldable pub add_outcome : Outcome → Pass → Pass
add_outcome (marked u) p = record { unrecognized = u ∷ p.unrecognized; spans = p.spans }
add_outcome skipped p = p
add_outcome (kept s) p = record { unrecognized = p.unrecognized; spans = s ∷ p.spans }

unfoldable pub contains_mark : List UnrecognizedFunction → ℕ → Bool
contains_mark [] idx = false
contains_mark (u ∷ us) idx = u.func_idx == idx || contains_mark us idx

unfoldable pub in_range : ℕ → ExceptionHandlerData → Bool
in_range size eh = ltb eh.start eh.end && leb eh.end size && ltb eh.target size

module _ (file : HbcFile) where
  unfoldable pub check_body : ℕ → FunctionData → Result HermesError Outcome
  check_body idx f =
      let (region_start, region_end) = file.bytecode_region in
      if f.size == 0
      then ok skipped
      else if ltb f.offset region_start || ltb region_end (f.offset + f.size)
      then err (function_body_out_of_bytecode_region idx f.offset f.size region_start region_end)
      else ok (kept (record { func_idx = idx; offset = f.offset; size = f.size }))

  unfoldable pub check_function : ℕ → Result HermesError Outcome
  check_function idx = elim (function_get_checked file idx) [
    | err e ↦ elim (recovered e) [ none ↦ err e | some u ↦ ok (marked u) ]
    | ok f ↦ elim (exc_table_overlaps_synthesized file idx) [
      | some off ↦
          ok
            (marked (mark idx (UnrecognizedReason.exception_table_overlaps_synthesized_region off)))
      | none ↦ check_body idx f
    ]
  ]

  -- The first pass from a number on, with the functions left.
  unfoldable pub check_functions : ℕ → ℕ → Result HermesError Pass
  check_functions zero idx = ok (record { unrecognized = []; spans = [] })
  check_functions (suc left) idx =
      let rest = check_functions left (suc idx) in
      check_function idx >>= λ outcome. rest >>= λ pass. ok (add_outcome outcome pass)

  -- The first handler, from a number on, that is out of range.
  unfoldable pub bad_handler : ℕ → ℕ → ℕ → ℕ → Option UnrecognizedFunction
  bad_handler idx size zero h_idx = none
  bad_handler idx size (suc left) h_idx =
      let eh = function_exception_get file idx h_idx in
      let rest = bad_handler idx size left (suc h_idx) in
      if in_range size eh
      then rest
      else some (
          mark idx (
            UnrecognizedReason.exception_handler_out_of_function_range h_idx eh.start eh.end
              eh.target size))

  abbrev pub add_mark :
      Option UnrecognizedFunction → List UnrecognizedFunction → List UnrecognizedFunction
  add_mark none us = us
  add_mark (some u) us = u ∷ us

  -- The third pass, given the marks of the first.
  unfoldable pub check_handlers :
      List UnrecognizedFunction → ℕ → ℕ → Result HermesError (List UnrecognizedFunction)
  check_handlers unrecognized zero idx = ok []
  check_handlers unrecognized (suc left) idx =
      let rest = check_handlers unrecognized left (suc idx) in
      if contains_mark unrecognized idx then rest else elim (function_get_checked file idx) [
        | err e ↦ elim (recovered e) [ none ↦ err e | some u ↦ rest ]
        | ok f ↦ rest >>= λ more.
            ok (add_mark (bad_handler idx f.size (function_exception_count file idx) 0) more)
      ]

  unfoldable pub validate_function_regions : Result HermesError HbcFile
  validate_function_regions = check_functions (function_count file.header) 0 >>= λ pass.
      check_overlaps pass.spans >>= λ _.
      check_handlers pass.unrecognized (function_count file.header) 0 >>= λ more.
      ok (record file { unrecognized_functions = merge_sorted_unrecognized pass.unrecognized more })
