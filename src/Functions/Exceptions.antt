-- ===== src/Functions/Exceptions.antt =====
-- The exception table of a function: the accessors of `HbcFile` in src/parser/mod.rs.
use droidsaw_hermes.Prelude.{
  ℕ, ◌+◌, ◌*◌, not, Option, none, some, List, length, ltb, leb, if◌then◌else◌,
}
use droidsaw_hermes.Bytes.{read_u32_le}
use droidsaw_hermes.Bitfield.{read_bitfield}
use droidsaw_hermes.Header.{HbcHeader, v98_late_to_v99, function_count}
use droidsaw_hermes.Sections.{u32_max}
use droidsaw_hermes.File.{HbcFile, LargeHeaderLayout}
use droidsaw_hermes.LargeHeader.{align4_u64, header_bytes, max_exception_handlers}
use droidsaw_hermes.Functions.{
  ExceptionHandlerData, no_handler, function_get, has_exception_handler, has_small_headers,
  entry_is_out, entry_of, small_fields, large_offset, is_overflowed, span_overlaps_synthesized,
}

unfoldable pub narrow_align4 : ℕ → ℕ
narrow_align4 v = if ltb u32_max (align4_u64 v) then 0 else align4_u64 v

-- No size: the layout of the large headers is ambiguous.
unfoldable pub large_size : HbcHeader → Option LargeHeaderLayout → Option ℕ
large_size (v98_late_to_v99 h) none = none
large_size (v98_late_to_v99 h) (some layout) = some (header_bytes layout)
large_size _ _ = some 32

unfoldable pub get_exc_table_offset : HbcFile → ℕ → ℕ
get_exc_table_offset file func_idx =
    let entry = entry_of file func_idx in
    let s = small_fields file.header entry in
    let large_off = large_offset file.header entry s in
    let fd = function_get file func_idx in
    if entry_is_out file func_idx
    then 0
    else if is_overflowed s
    then elim (large_size file.header file.large_header_layout) [
      | none ↦ 0
      | some size ↦
          if ltb (length file.buf) (large_off + size) then 0 else narrow_align4 (large_off + size)
    ]
    else if has_small_headers file.header
    then narrow_align4 (fd.offset + fd.size)
    else narrow_align4 (read_bitfield entry 64 25)

-- The count of handlers as the table gives it, or 0 where it cannot be read or is over the cap.
unfoldable pub count_capped : List ℕ → ℕ → ℕ
count_capped buf exc_offset =
    if ltb (length buf) (exc_offset + 4)
    then 0
    else if ltb max_exception_handlers (read_u32_le buf exc_offset)
    then 0
    else read_u32_le buf exc_offset

unfoldable pub exc_table_overlaps_synthesized : HbcFile → ℕ → Option ℕ
exc_table_overlaps_synthesized file func_idx =
    let f = function_get file func_idx in
    let exc_offset = get_exc_table_offset file func_idx in
    let span_len = count_capped file.buf exc_offset * 12 + 4 in
    if not (has_exception_handler f.flags)
    then none
    else if span_overlaps_synthesized file exc_offset span_len
    then some exc_offset
    else none

unfoldable pub function_exception_count : HbcFile → ℕ → ℕ
function_exception_count file func_idx =
    let f = function_get file func_idx in
    if leb (function_count file.header) func_idx
    then 0
    else if not (has_exception_handler f.flags)
    then 0
    else count_capped file.buf (get_exc_table_offset file func_idx)

unfoldable pub function_exception_get : HbcFile → ℕ → ℕ → ExceptionHandlerData
function_exception_get file func_idx handler_idx =
    let exc_offset = get_exc_table_offset file func_idx in
    let handler_off = exc_offset + 4 + handler_idx * 12 in
    if leb (count_capped file.buf exc_offset) handler_idx
    then no_handler
    else if ltb (length file.buf) (handler_off + 12)
    then no_handler
    else record {
      start = read_u32_le file.buf handler_off;
      end = read_u32_le file.buf (handler_off + 4);
      target = read_u32_le file.buf (handler_off + 8);
    }
