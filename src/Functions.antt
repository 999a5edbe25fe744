-- ===== src/Functions.antt =====
-- The accessors of `HbcFile` in src/parser/mod.rs for one function: its header, small or large, and its
-- exception table. The findings that they emit are left out. Positions come from fields of at most 42
-- bits, so that sums on u64 and usize do not overflow and are written as plain sums.
pub mod Exceptions
pub mod Strict
pub mod Validate
use Prim.Native.String.{String}
use droidsaw_hermes.Prelude.{
  bit_or, ℕ, zero, suc, ◌+◌, ◌*◌, ◌/◌, ◌%◌, ◌^◌, Bool, true, false, not, ◌||◌, List, [], ◌∷◌,
  Option, none, some, length, take, drop, get_or, ltb, leb, ◌==◌, if◌then◌else◌, ◌&&◌,
}
use droidsaw_hermes.Errors.{HermesError, Result, ok, err, function_header_entry_out_of_bounds}
use droidsaw_hermes.Bytes.{read_u32_le}
use droidsaw_hermes.Bitfield.{read_bitfield}
use droidsaw_hermes.Header.{
  HbcHeader, v97_to_v98_early, v98_late_to_v99, function_count, func_header_size,
  use_v99_func_header,
}
use droidsaw_hermes.Sections.{Range, u32_max}
use droidsaw_hermes.File.{HbcFile, LargeHeaderLayout, shape36, shape40}
use droidsaw_hermes.LargeHeader.{
  align4_u64, overflow_header_is_oob, large_function_header_size, header_bytes,
  max_exception_handlers,
}
use droidsaw_hermes.Header.Parse.{header_size}

pub record FunctionData : Type 0 where
  pub name_id : ℕ
  pub param_count : ℕ
  pub offset : ℕ
  pub size : ℕ
  pub flags : ℕ
  pub frame_size : ℕ

pub record ExceptionHandlerData : Type 0 where
  pub start : ℕ
  pub end : ℕ
  pub target : ℕ

abbrev pub no_function : FunctionData
no_function = record {
  name_id = 0;
  param_count = 0;
  offset = 0;
  size = 0;
  flags = 0;
  frame_size = 0;
}

abbrev pub no_handler : ExceptionHandlerData
no_handler = record { start = 0; end = 0; target = 0 }

-- Bits 0 to 4, and bits 6 and 7 next to them.
unfoldable pub pack_flags : ℕ → ℕ
pack_flags raw = raw % 32 + raw / 64 % 4 * 32

abbrev pub has_exception_handler : ℕ → Bool
has_exception_handler flags = flags / 8 % 2 == 1

-- The fields of a small header that the accessors read.
pub record SmallFields : Type 0 where
  pub offset : ℕ
  pub param_count : ℕ
  pub byte_size : ℕ
  pub func_name : ℕ
  pub flags_byte : ℕ

abbrev pub wide_fields : List ℕ → ℕ → SmallFields
wide_fields entry flags_byte = record {
  offset = read_bitfield entry 0 25;
  param_count = read_bitfield entry 25 7;
  byte_size = read_bitfield entry 32 15;
  func_name = read_bitfield entry 47 17;
  flags_byte = flags_byte;
}

unfoldable pub small_fields : HbcHeader → List ℕ → SmallFields
small_fields (v98_late_to_v99 h) entry = record {
  offset = read_bitfield entry 0 25;
  param_count = read_bitfield entry 25 5;
  byte_size = read_bitfield entry 32 14;
  func_name = read_bitfield entry 46 8;
  flags_byte = get_or entry 11 0;
}
small_fields (v97_to_v98_early h) entry = wide_fields entry (get_or entry 11 0)
small_fields _ entry = wide_fields entry (get_or entry 15 0)

abbrev pub is_overflowed : SmallFields → Bool
is_overflowed s = s.flags_byte / 32 % 2 == 1

-- Where the large header of an overflowed function lies.
unfoldable pub large_offset : HbcHeader → List ℕ → SmallFields → ℕ
large_offset (v98_late_to_v99 h) entry s = bit_or (s.func_name * 2 ^ 24) s.offset
large_offset (v97_to_v98_early h) entry s = bit_or (s.func_name * 2 ^ 16) s.offset
large_offset _ entry s = bit_or (read_bitfield entry 64 25 * 2 ^ 16) s.offset

abbrev pub has_small_headers : HbcHeader → Bool
has_small_headers (v97_to_v98_early h) = true
has_small_headers (v98_late_to_v99 h) = true
has_small_headers _ = false

abbrev pub entry_offset : HbcFile → ℕ → ℕ
entry_offset file index = file.ranges.func_headers.offset + index * func_header_size file.header

abbrev pub entry_is_out : HbcFile → ℕ → Bool
entry_is_out file index =
    ltb (length file.buf) (entry_offset file index + func_header_size file.header)

abbrev pub entry_of : HbcFile → ℕ → List ℕ
entry_of file index = take (func_header_size file.header) (drop (entry_offset file index) file.buf)

abbrev pub is_40 : LargeHeaderLayout → Bool
is_40 shape36 = false
is_40 shape40 = true

-- The metadata in a large header, whose flags may lie behind the end of the buffer.
unfoldable pub large_function : HbcFile → ℕ → LargeHeaderLayout → ℕ → FunctionData
large_function file lo layout flags =
    let at = lo + (if use_v99_func_header file.header then 12 else 8) in
    let flags_at = at + 23 + (if is_40 layout then 1 else 0) in
    record {
      name_id = read_u32_le file.buf (at + 4);
      param_count = read_u32_le file.buf (lo + 4);
      offset = read_u32_le file.buf lo;
      size = read_u32_le file.buf at;
      flags =
          if ltb flags_at (length file.buf) then pack_flags (get_or file.buf flags_at 0) else flags;
      frame_size = read_u32_le file.buf (at + 16);
    }

unfoldable pub small_function : HbcHeader → List ℕ → SmallFields → FunctionData
small_function header entry s = record {
  name_id = s.func_name;
  param_count = s.param_count;
  offset = s.offset;
  size = s.byte_size;
  flags = pack_flags s.flags_byte;
  frame_size = if has_small_headers header && ltb 8 (length entry) then get_or entry 8 0 else 0;
}

-- A function whose large header is out of bounds is read from the small one.
unfoldable pub function_get : HbcFile → ℕ → FunctionData
function_get file index =
    let entry = entry_of file index in
    let s = small_fields file.header entry in
    let lo = large_offset file.header entry s in
    if leb (function_count file.header) index
    then no_function
    else if entry_is_out file index
    then no_function
    else if is_overflowed s && not (overflow_header_is_oob lo (length file.buf))
    then elim file.large_header_layout [
      | none ↦ no_function
      | some layout ↦ large_function file lo layout (pack_flags s.flags_byte)
    ]
    else small_function file.header entry s

unfoldable pub spans_intersect : ℕ → ℕ → ℕ → ℕ → Bool
spans_intersect a_start a_len b_start b_len =
    if a_len == 0 || b_len == 0
    then false
    else ltb a_start (b_start + b_len) && ltb b_start (a_start + a_len)

-- The loop over the sections that the emitters write anew.
unfoldable pub overlaps_any : ℕ → ℕ → List Range → Bool
overlaps_any start len [] = false
overlaps_any start len (r ∷ rs) =
    spans_intersect start len r.offset r.size || overlaps_any start len rs

abbrev pub emit_synthesized_sections : HbcFile → List Range
emit_synthesized_sections file =
    file.ranges.func_headers ∷ file.ranges.small_string_table ∷ file.ranges.overflow_string_table
    ∷ file.ranges.regexp_table ∷ file.ranges.obj_shape_table ∷ []

unfoldable pub span_overlaps_synthesized : HbcFile → ℕ → ℕ → Bool
span_overlaps_synthesized file start len =
    spans_intersect start len 0 header_size
    || overlaps_any start len (emit_synthesized_sections file)

unfoldable pub function_get_checked : HbcFile → ℕ → Result HermesError FunctionData
function_get_checked file index =
    let entry = entry_of file index in
    let s = small_fields file.header entry in
    let large_off = large_offset file.header entry s in
    if leb (function_count file.header) index
    then ok no_function
    else if entry_is_out file index
    then err (
        function_header_entry_out_of_bounds index (entry_offset file index)
          (func_header_size file.header) (length file.buf))
    else if not (is_overflowed s)
    then ok (function_get file index)
    else if overflow_header_is_oob large_off (length file.buf)
    then err (HermesError.overflowed_header_out_of_bounds index large_off (length file.buf))
    else if span_overlaps_synthesized file large_off large_function_header_size
    then err (HermesError.overflowed_header_overlaps_synthesized_region index large_off)
    else elim file.large_header_layout [
      | none ↦ err (HermesError.large_header_layout_ambiguous index large_off)
      | some layout ↦ ok (function_get file index)
    ]
