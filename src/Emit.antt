-- ===== src/Emit.antt =====
-- The writers of src/emit.rs: their errors, the gates on the version, and the tables. A writer takes
-- the bytes written so far and returns them with its own appended; usize has 64 bits.
pub mod Headers
pub mod Files
pub mod Slices
pub mod Chains
pub mod Loops
pub mod Tables
pub mod HeaderBytes
pub mod Body
pub mod Whole
pub mod Identity
use Prim.Native.String.{String}
use droidsaw_hermes.Prelude.{
  ℕ, zero, suc, ◌+◌, ◌*◌, ◌^◌, Bool, true, false, List, [], ◌∷◌, ◌++◌, Option, none, some, leb, ltb,
  ◌==◌, ◌||◌, not, length, if◌then◌else◌,
}
use droidsaw_hermes.Errors.{Result, ok, err, ◌>>=◌}
use droidsaw_hermes.Bytes.{to_le_bytes, get_range, get_from}
use droidsaw_hermes.Header.{
  version, function_count, string_count, overflow_string_count, reg_exp_count, big_int_count,
  obj_shape_table_count, func_header_size,
}
use droidsaw_hermes.Entries.{
  emit_one_small_func_header_v96, emit_one_small_func_header_v98,
  emit_one_small_string_table_entry_v96,
}
use droidsaw_hermes.File.{HbcFile, UnrecognizedFunction}
use droidsaw_hermes.File.Raw.{
  raw_small_func_header_v96, raw_small_func_header_v98, raw_small_string_table_entry,
  raw_overflow_string_table_entry_v96, regexp_table_entry_raw, bigint_table_entry_raw,
  raw_obj_shape_table_entry_v98,
}

pub data HermesEmitError : Type 0 where
  size_overflow : (section : String) (got cap : ℕ) → HermesEmitError
  offset_overflow : (context : String) → HermesEmitError
  unrepresentable_ir : (reason : String) → HermesEmitError
  version_mismatch : (expected got : ℕ) → HermesEmitError
  input_too_short : (got : ℕ) → HermesEmitError

abbrev pub Writer : Type 0
Writer = List ℕ → Result HermesEmitError (List ℕ)

-- `o.ok_or(e)?`
abbrev pub ok_or_else {ℓ} : {A : Type ℓ} → Option A → HermesEmitError → Result HermesEmitError A
ok_or_else none e = err e
ok_or_else (some a) e = ok a

-- Writers one after the other.
unfoldable pub run : List Writer → Writer
run [] out = ok out
run (w ∷ ws) out = w out >>= run ws

-- `out.extend_from_slice(xs)`
abbrev pub bytes : List ℕ → Writer
bytes xs out = ok (out ++ xs)

-- `out.extend_from_slice(&v.to_le_bytes())` of a u32.
abbrev pub u32 : ℕ → Writer
u32 v = bytes (to_le_bytes 4 v)

-- `out.extend_from_slice(src.get(start..end).ok_or(…)?)`
unfoldable pub copy : List ℕ → ℕ → ℕ → Writer
copy src start end out =
    ok_or_else (get_range src start end) (input_too_short (length src)) >>= λ xs. ok (out ++ xs)

unfoldable pub copy_from : List ℕ → ℕ → Writer
copy_from src start out =
    ok_or_else (get_from src start) (input_too_short (length src)) >>= λ xs. ok (out ++ xs)

abbrev pub require : Bool → HermesEmitError → Writer
require true e out = ok out
require false e out = err e

unfoldable pub require_shared_table_format : HbcFile → Writer
require_shared_table_format file =
    require
      (version file.header == 84
        || version file.header == 96
        || version file.header == 98
        || version file.header == 99)
      (version_mismatch 96 (version file.header))

unfoldable pub require_v84_or_v96 : HbcFile → Writer
require_v84_or_v96 file =
    require (version file.header == 84 || version file.header == 96)
      (version_mismatch 96 (version file.header))

unfoldable pub require_v98_or_v99 : HbcFile → Writer
require_v98_or_v99 file =
    require (version file.header == 98 || version file.header == 99)
      (version_mismatch 98 (version file.header))

abbrev pub is_empty {ℓ} : {A : Type ℓ} → List A → Bool
is_empty [] = true
is_empty (x ∷ xs) = false

unfoldable pub reject_if_unrecognized : HbcFile → Writer
reject_if_unrecognized file = require (is_empty file.unrecognized_functions) (
    unrepresentable_ir
      "file contains functions whose headers could not be honestly resolved (recover-and-mark); a faithful round-trip is not guaranteed")

-- `NonDecreasing<FunctionId>`: `advance` takes the next number if it is not below the last one.
abbrev pub advance : Option ℕ → ℕ → Option ℕ
advance none next = some next
advance (some last) next = if leb last next then some next else none

abbrev pub missing_header : HermesEmitError
missing_header = unrepresentable_ir "missing raw SmallFuncHeader for in-range function index"

abbrev pub not_non_decreasing : HermesEmitError
not_non_decreasing = unrepresentable_ir "FunctionId sequence not non-decreasing"

-- The loop over the function numbers from `i` on; `n` of them are left, `seq` is the last one.
unfoldable pub function_loop : (ℕ → Writer) → ℕ → ℕ → Option ℕ → Writer
function_loop entry zero i seq out = ok out
function_loop entry (suc n) i seq out = ok_or_else (advance seq i) not_non_decreasing >>= λ last.
    entry i out >>= function_loop entry n (suc i) (some last)

abbrev pub function_entry_v96 : HbcFile → ℕ → Writer
function_entry_v96 file i out =
    ok_or_else (raw_small_func_header_v96 file i) missing_header >>= λ raw.
    ok (emit_one_small_func_header_v96 out raw)

unfoldable pub emit_function_headers_v96 : HbcFile → Writer
emit_function_headers_v96 file = run (
    require_v84_or_v96 file
    ∷ require (func_header_size file.header == 16)
        (unrepresentable_ir "pre-v97 SmallFuncHeader size != 16")
    ∷ function_loop (function_entry_v96 file) (function_count file.header) 0 none
    ∷ [])

abbrev pub function_entry_v98 : HbcFile → ℕ → Writer
function_entry_v98 file i out =
    ok_or_else (raw_small_func_header_v98 file i)
      (unrepresentable_ir "missing raw SmallFuncHeader for in-range v98 index")
    >>= λ raw. ok (emit_one_small_func_header_v98 out raw)

unfoldable pub emit_function_headers_v98 : HbcFile → Writer
emit_function_headers_v98 file = run (
    require_v98_or_v99 file
    ∷ require (func_header_size file.header == 12)
        (unrepresentable_ir "v98 SmallFuncHeader size != 12")
    ∷ function_loop (function_entry_v98 file) (function_count file.header) 0 none
    ∷ [])

-- `for i in 0..count`, from `i` on with `n` entries left.
unfoldable pub table_loop : (ℕ → Writer) → ℕ → ℕ → Writer
table_loop entry zero i out = ok out
table_loop entry (suc n) i out = entry i out >>= table_loop entry n (suc i)

abbrev pub string_entry : HbcFile → ℕ → Writer
string_entry file i out =
    ok_or_else (raw_small_string_table_entry file i)
      (unrepresentable_ir "missing raw SmallStringTable entry for in-range index")
    >>= λ raw. ok (emit_one_small_string_table_entry_v96 out raw)

unfoldable pub emit_small_string_table_v96 : HbcFile → Writer
emit_small_string_table_v96 file = run (
    require_shared_table_format file
    ∷ table_loop (string_entry file) (string_count file.header) 0
    ∷ [])

-- Two little-endian numbers.
abbrev pub pair_writer : Option (ℕ × ℕ) → HermesEmitError → Writer
pair_writer entry missing out =
    ok_or_else entry missing >>= λ pair. ok ((out ++ to_le_bytes 4 pair.0) ++ to_le_bytes 4 pair.1)

unfoldable pub emit_overflow_string_table_v96 : HbcFile → Writer
emit_overflow_string_table_v96 file = run (
    require_shared_table_format file
    ∷ table_loop
        (λ i.
          pair_writer (raw_overflow_string_table_entry_v96 file i)
            (unrepresentable_ir "missing raw OverflowStringTable entry for in-range index"))
        (overflow_string_count file.header) 0
    ∷ [])

unfoldable pub emit_regexp_table_v96 : HbcFile → Writer
emit_regexp_table_v96 file = run (
    require_shared_table_format file
    ∷ table_loop
        (λ i. pair_writer (regexp_table_entry_raw file i) (offset_overflow "regexp_table entry"))
        (reg_exp_count file.header) 0
    ∷ [])

unfoldable pub emit_bigint_table_v96 : HbcFile → Writer
emit_bigint_table_v96 file = run (
    require_shared_table_format file
    ∷ table_loop
        (λ i. pair_writer (bigint_table_entry_raw file i) (offset_overflow "bigint_table entry"))
        (big_int_count file.header) 0
    ∷ [])

unfoldable pub emit_obj_shape_table_v98 : HbcFile → Writer
emit_obj_shape_table_v98 file = run (
    require_v98_or_v99 file
    ∷ table_loop
        (λ i.
          pair_writer (raw_obj_shape_table_entry_v98 file i)
            (unrepresentable_ir "missing raw ObjShapeTable entry for in-range v98 index"))
        (obj_shape_table_count file.header) 0
    ∷ [])
