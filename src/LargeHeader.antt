-- ===== src/LargeHeader.antt =====
-- The shapes of a large function header: `large_header_shape_violation` of
-- src/parser/mod.rs and the summaries of exception tables that it asks for. The scratch state and its
-- budget are arguments and parts of the results; the map of summaries is an association list.
-- Positions that passed the first test lie far below 2 ^ 64, so the additions on them do not overflow.
pub mod Tables
pub mod Shapes
pub mod Selection
use Prim.Native.Nat.{max}
use droidsaw_hermes.Prelude.{
  ℕ, zero, suc, ◌+◌, ◌*◌, ◌-◌, ◌/◌, ◌%◌, min, bit_and, not, true, false, get_elem?, [], ◌∷◌, Bool,
  List, Option, none, some, ltb, leb, ◌==◌, length, if◌then◌else◌,
}
use droidsaw_hermes.Sections.{u32_max}
use droidsaw_hermes.File.{LargeHeaderLayout, shape36, shape40}
use droidsaw_hermes.Bytes.{read_u32_le}

abbrev pub max_exception_handlers : ℕ
max_exception_handlers = 10000

-- Is the position outside of the positions that the accessors can return?
unfoldable pub exc_table_pos_outside_runtime_domain : ℕ → Bool
exc_table_pos_outside_runtime_domain table = ltb u32_max table

-- No summary: the budget ran out. No size in a summary: the table is invalid for every function.
abbrev pub Summary : Type 0
Summary = Option (Option ℕ)

-- The loop over the triples, with the rounds left.
unfoldable pub check_triples : List ℕ → ℕ → ℕ → ℕ → ℕ → ℕ → Summary × ℕ
check_triples buf count_end h_idx zero required budget = (some (some required), budget)
check_triples buf count_end h_idx (suc left) required budget =
    let h_off = count_end + h_idx * 12 in
    let start = read_u32_le buf h_off in
    let end = read_u32_le buf (h_off + 4) in
    let target = read_u32_le buf (h_off + 8) in
    let rest =
      check_triples buf count_end (suc h_idx) left (max (max required end) (target + 1))
        (budget - 1) in
    if budget == 0
    then (none, 0)
    else if leb end start
    then (some none, budget - 1)
    else if ltb u32_max (target + 1)
    then (some none, budget - 1)
    else rest

unfoldable pub exc_table_summary_uncached : List ℕ → ℕ → ℕ → Summary × ℕ
exc_table_summary_uncached buf table budget =
    let count_end = table + 4 in
    let count = read_u32_le buf table in
    if exc_table_pos_outside_runtime_domain table
    then (some none, budget)
    else if ltb (length buf) count_end
    then (some none, budget)
    else if ltb max_exception_handlers count
    then (some none, budget)
    else if ltb (length buf) (table + (count * 12 + 4))
    then (some none, budget)
    else check_triples buf count_end 0 count 0 budget

abbrev pub header_bytes : LargeHeaderLayout → ℕ
header_bytes shape36 = 36
header_bytes shape40 = 40

abbrev pub flags_offset : LargeHeaderLayout → ℕ
flags_offset shape36 = 35
flags_offset shape40 = 36

abbrev pub u64_max : ℕ
u64_max = 0xFFFF_FFFF_FFFF_FFFF

unfoldable pub align4_u64 : ℕ → ℕ
align4_u64 v = min (v + 3) u64_max / 4 * 4

abbrev pub large_function_header_size : ℕ
large_function_header_size = 40

unfoldable pub overflow_header_is_oob : ℕ → ℕ → Bool
overflow_header_is_oob large_off buf_len =
    if ltb u64_max (large_off + large_function_header_size)
    then true
    else ltb buf_len (large_off + large_function_header_size)

-- The summaries found so far and the budget left.
pub record Scratch : Type 0 where
  pub per_table : List (ℕ × Option ℕ)
  pub budget : ℕ

unfoldable pub find : List (ℕ × Option ℕ) → ℕ → Summary
find [] table = none
find ((key, summary) ∷ rest) table = if key == table then some summary else find rest table

abbrev pub remember : Scratch → ℕ → Summary × ℕ → Summary × Scratch
remember scratch table (none, left) =
    (none, record { per_table = scratch.per_table; budget = left })
remember scratch table (some summary, left) =
    (some summary, record { per_table = (table, summary) ∷ scratch.per_table; budget = left })

unfoldable pub exc_table_summary : List ℕ → ℕ → Scratch → Summary × Scratch
exc_table_summary buf table scratch = elim (find scratch.per_table table) [
  | some summary ↦ (some summary, scratch)
  | none ↦ remember scratch table (exc_table_summary_uncached buf table scratch.budget)
]

abbrev pub judge : ℕ → Summary → Option Bool
judge fn_size none = none
judge fn_size (some none) = some true
judge fn_size (some (some required)) = some (ltb fn_size required)

-- No verdict: the budget ran out.
unfoldable pub large_header_shape_violation :
    List ℕ → ℕ → LargeHeaderLayout → Scratch → Option Bool × Scratch
large_header_shape_violation buf large_off shape scratch =
    elim (get_elem? buf (min (large_off + flags_offset shape) u64_max)) [
      | none ↦ (some true, scratch)
      | some flags ↦
          let fn_size = read_u32_le buf (large_off + 12) in
          let table = align4_u64 (min (large_off + header_bytes shape) u64_max) in
          let r = exc_table_summary buf table scratch in
          if bit_and flags 3 == 3
          then (some true, scratch)
          else if not (flags / 32 % 2 == 0)
          then (some true, scratch)
          else if flags / 8 % 2 == 0
          then (some false, scratch)
          else if ltb u64_max (large_off + 12)
          then (some true, scratch)
          else (judge fn_size r.0, r.1)
    ]
