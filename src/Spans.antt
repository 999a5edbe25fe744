-- ===== src/Spans.antt =====
-- The second pass of `validate_function_regions` of src/parser/mod.rs: the bodies of the functions,
-- sorted by offset, do not overlap, except where two functions share a body.
pub mod Apart
pub mod Pairs
use droidsaw_hermes.Prelude.{
  ℕ, ◌+◌, List, [], ◌∷◌, Option, none, some, ltb, leb, ◌==◌, ◌&&◌, if◌then◌else◌, min, Bool,
}
use droidsaw_hermes.Sections.{u32_max}
use droidsaw_hermes.Errors.{
  HermesError, Result, ok, err, ◌>>=◌, arithmetic_overflow, function_body_overlap,
  function_body_dedup_overflow,
}

abbrev pub max_function_body_dedups : ℕ
max_function_body_dedups = 65535

-- A function's number, with the offset and the size of its body.
pub record FnSpan : Type 0 where
  pub func_idx : ℕ
  pub offset : ℕ
  pub size : ℕ

-- `sort_by_key` keeps the order of equal keys.
unfoldable pub insert_by_offset : FnSpan → List FnSpan → List FnSpan
insert_by_offset x [] = x ∷ []
insert_by_offset x (y ∷ ys) =
    let more = insert_by_offset x ys in if leb x.offset y.offset then x ∷ y ∷ ys else y ∷ more

unfoldable pub sort_by_offset : List FnSpan → List FnSpan
sort_by_offset [] = []
sort_by_offset (x ∷ xs) = insert_by_offset x (sort_by_offset xs)

-- The number of pairs that share a body, and the first of them.
pub record Dedups : Type 0 where
  pub count : ℕ
  pub first : Option (FnSpan × FnSpan)

abbrev pub no_dedups : Dedups
no_dedups = record { count = 0; first = none }

unfoldable pub same_body : FnSpan → FnSpan → Bool
same_body a b = a.offset == b.offset && a.size == b.size

unfoldable pub count_dedup : Dedups → FnSpan → FnSpan → Dedups
count_dedup d a b =
    if same_body a b
    then record {
      count = min (d.count + 1) u32_max;
      first = elim d.first [ none ↦ some (a, b) | some pair ↦ some pair ];
    }
    else d

-- Why a pair of neighbours is refused, if it is.
unfoldable pub check_pair : FnSpan → FnSpan → Result HermesError (Unit {0})
check_pair a b =
    if same_body a b
    then ok tt
    else if ltb u32_max (a.offset + a.size)
    then err (
        arithmetic_overflow
          "a_off + a_size in validate_function_regions Pass 2 (proven safe by Pass 1)")
    else if ltb b.offset (a.offset + a.size)
    then err (function_body_overlap a.func_idx a.offset a.size b.func_idx b.offset b.size)
    else ok tt

unfoldable pub check_pairs : List FnSpan → Dedups → Result HermesError Dedups
check_pairs [] d = ok d
check_pairs (a ∷ []) d = ok d
check_pairs (a ∷ b ∷ rest) d =
    let more = check_pairs (b ∷ rest) (count_dedup d a b) in check_pair a b >>= λ _. more

unfoldable pub check_dedups : Dedups → Result HermesError (Unit {0})
check_dedups d = elim d.first [
  | none ↦ ok tt
  | some (a, b) ↦
      if ltb max_function_body_dedups d.count
      then err (
          function_body_dedup_overflow d.count max_function_body_dedups a.offset a.size a.func_idx
            b.func_idx)
      else ok tt
]

unfoldable pub check_overlaps : List FnSpan → Result HermesError (Unit {0})
check_overlaps spans = check_pairs (sort_by_offset spans) no_dedups >>= check_dedups
