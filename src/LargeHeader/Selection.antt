-- ===== src/LargeHeader/Selection.antt =====
-- The choice of the layout of the large headers of a file: `select_v98_large_header_layout` of
-- src/parser/mod.rs, with the scores that it asks for, and `HbcFile::parse`, which calls it.

pub mod Scores
pub mod Coherent
pub mod Whole
use Prim.Native.String.{String}
use droidsaw_hermes.Prelude.{
  ℕ, zero, suc, ◌+◌, ◌*◌, ◌/◌, ◌%◌, ◌^◌, min, bit_or, Bool, true, false, not, ◌&&◌, ◌||◌, List, [],
  ◌∷◌, Option, none, some, length, get_elem?, get_or, ltb, ◌==◌, take, drop, if◌then◌else◌, ◌-◌,
}
use droidsaw_hermes.Errors.{HermesError, Result, ◌>>=◌}
use droidsaw_hermes.Bytes.{read_u32_le}
use droidsaw_hermes.Bitfield.{read_bitfield}
use droidsaw_hermes.Header.{HbcHeader, v98_late_to_v99, version, function_count}
use droidsaw_hermes.Sections.{u32_max}
use droidsaw_hermes.File.{HbcFile, LargeHeaderLayout, shape36, shape40, parse_inner}
use droidsaw_hermes.LargeHeader.{
  Scratch, large_header_shape_violation, overflow_header_is_oob, align4_u64, header_bytes,
  flags_offset, u64_max, large_function_header_size,
}
use droidsaw_hermes.Functions.{entry_is_out, entry_of, span_overlaps_synthesized}
use droidsaw_hermes.Functions.Validate.{validate_function_regions}

-- Whether a header violates the shape of 36 bytes, that of 40 bytes, and whether both decode it alike.
pub record Score : Type 0 where
  pub violates36 : Bool
  pub violates40 : Bool
  pub decode_equal : Bool

-- The scores found so far, with the scratch state of the tests.
pub record Memo : Type 0 where
  pub scratch : Scratch
  pub per_off : List (ℕ × Score)

-- `buf.get(start..start + len)` of two places, compared.
unfoldable pub same_bytes : List ℕ → List ℕ → Bool
same_bytes [] [] = true
same_bytes (x ∷ xs) (y ∷ ys) = let more = same_bytes xs ys in x == y && more
same_bytes _ _ = false

abbrev pub table_of : ℕ → LargeHeaderLayout → ℕ
table_of large_off shape = align4_u64 (min (large_off + header_bytes shape) u64_max)

-- The tables of the two shapes compared, which costs as many triples as one has.
unfoldable pub compare_tables : List ℕ → ℕ → ℕ → Scratch → Option Bool × Scratch
compare_tables buf t36 t40 scratch =
    let count = read_u32_le buf t36 in
    let len = count * 12 + 4 in
    if not (count == read_u32_le buf t40)
    then (some false, scratch)
    else if ltb scratch.budget count
    then (none, scratch)
    else (
      some (
          not (ltb (length buf) (t36 + len) || ltb (length buf) (t40 + len))
          && same_bytes (take len (drop t36 buf)) (take len (drop t40 buf))),
      record { per_table = scratch.per_table; budget = scratch.budget - count },
    )

unfoldable pub large_header_shapes_decode_equal : List ℕ → ℕ → Scratch → Option Bool × Scratch
large_header_shapes_decode_equal buf large_off scratch =
    elim (get_elem? buf (min (large_off + flags_offset shape36) u64_max)) [
      | none ↦ (some false, scratch)
      | some f36 ↦ elim (get_elem? buf (min (large_off + flags_offset shape40) u64_max)) [
        | none ↦ (some false, scratch)
        | some f40 ↦
            if not (f36 == f40)
            then (some false, scratch)
            else if f36 / 8 % 2 == 0
            then (some true, scratch)
            else compare_tables buf (table_of large_off shape36) (table_of large_off shape40)
                scratch
      ]
    ]

unfoldable pub find_score : List (ℕ × Score) → ℕ → Option Score
find_score [] large_off = none
find_score ((key, score) ∷ rest) large_off =
    let more = find_score rest large_off in if key == large_off then some score else more

-- The two decodings are compared only for a header that violates neither shape.
unfoldable pub decode_if_both : List ℕ → ℕ → Bool → Bool → Scratch → Option Bool × Scratch
decode_if_both buf large_off v36 v40 scratch =
    if not v36 && not v40
    then large_header_shapes_decode_equal buf large_off scratch
    else (some true, scratch)

-- No score: the budget ran out.
unfoldable pub score_large_header : List ℕ → ℕ → Memo → Option Score × Memo
score_large_header buf large_off memo = elim (find_score memo.per_off large_off) [
  | some score ↦ (some score, memo)
  | none ↦
      let r36 = large_header_shape_violation buf large_off shape36 memo.scratch in
      let r40 = large_header_shape_violation buf large_off shape40 r36.1 in
      elim r36.0 [
        | none ↦ (none, record memo { scratch = r36.1 })
        | some v36 ↦ elim r40.0 [
          | none ↦ (none, record memo { scratch = r40.1 })
          | some v40 ↦
              let same = decode_if_both buf large_off v36 v40 r40.1 in
              elim same.0 [
                | none ↦ (none, record memo { scratch = same.1 })
                | some equal ↦
                    let score : Score = record {
                      violates36 = v36;
                      violates40 = v40;
                      decode_equal = equal;
                    } in
                    (
                      some score,
                      record { scratch = same.1; per_off = (large_off, score) ∷ memo.per_off },
                    )
              ]
        ]
      ]
]

unfoldable pub overflowed_large_off_v98late : HbcFile → ℕ → Option ℕ
overflowed_large_off_v98late file index =
    let entry = entry_of file index in
    if entry_is_out file index then none else elim (get_elem? entry 11) [
      | none ↦ none
      | some flags_byte ↦
          if flags_byte / 32 % 2 == 0
          then none
          else some (bit_or (read_bitfield entry 46 8 * 2 ^ 24) (read_bitfield entry 0 25))
    ]

-- The large header of a function that takes part in the choice.
unfoldable pub scored_off : HbcFile → ℕ → Option ℕ
scored_off file index = elim (overflowed_large_off_v98late file index) [
  | none ↦ none
  | some large_off ↦
      if overflow_header_is_oob large_off (length file.buf)
        || span_overlaps_synthesized file large_off large_function_header_size
      then none
      else some large_off
]

pub record Tally : Type 0 where
  pub violations36 : ℕ
  pub violations40 : ℕ
  pub disagreements : ℕ

abbrev pub count_if : Bool → ℕ → ℕ
count_if b n = if b then min (n + 1) u32_max else n

unfoldable pub add_score : Score → Tally → Tally
add_score s t = record {
  violations36 = count_if s.violates36 t.violations36;
  violations40 = count_if s.violates40 t.violations40;
  disagreements =
      count_if (not s.violates36 && (not s.violates40 && not s.decode_equal)) t.disagreements;
}

-- The loop from a function on. No tally: the budget ran out.
unfoldable pub select_loop : HbcFile → ℕ → ℕ → Memo → Tally → Option Tally
select_loop file zero idx memo tally = some tally
select_loop file (suc left) idx memo tally = elim (scored_off file idx) [
  | none ↦ select_loop file left (suc idx) memo tally
  | some large_off ↦
      let r = score_large_header file.buf large_off memo in
      elim r.0 [
        | none ↦ none
        | some score ↦ select_loop file left (suc idx) r.1 (add_score score tally)
      ]
]

unfoldable pub choose : Option Tally → Option LargeHeaderLayout
choose none = none
choose (some t) =
    if t.violations36 == 0
    then (if t.violations40 == 0
        then (if t.disagreements == 0 then some shape36 else none)
        else some shape36)
    else if t.violations40 == 0
    then some shape40
    else none

abbrev pub is_late : HbcHeader → Bool
is_late (v98_late_to_v99 h) = true
is_late _ = false

abbrev pub first_memo : List ℕ → Memo
first_memo buf = record {
  scratch = record { per_table = []; budget = length buf / 12 * 4 };
  per_off = [];
}

unfoldable pub select_v98_large_header_layout : HbcFile → HbcFile
select_v98_large_header_layout file =
    if is_late file.header && version file.header == 98
    then record file {
      large_header_layout = choose (
          select_loop file (function_count file.header) 0 (first_memo file.buf)
            (record { violations36 = 0; violations40 = 0; disagreements = 0 }));
    }
    else file

unfoldable pub parse : (ℕ → ℕ → ℕ → Bool) → List ℕ → String → Result HermesError HbcFile
parse bound_count buf input_hash = (parse_inner bound_count buf input_hash).result >>= λ file.
    validate_function_regions (select_v98_large_header_layout file)
