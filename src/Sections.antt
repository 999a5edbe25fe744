-- ===== src/Sections.antt =====
-- The section walk of `parse_inner`, src/parser/mod.rs: a cursor over the buffer, and the macros
-- `section!` and `section_opt!` that take the next section. The sizes are u64 and the cursor is u32.
pub mod Rules
pub mod Parts
pub mod Layout
use Prim.Native.String.{String}
use droidsaw_hermes.Prelude.{
  ℕ, ◌+◌, ◌*◌, ◌%◌, ◌^◌, Bool, true, false, ◌&&◌, List, [], ◌∷◌, ◌++◌, bit_and, ltb, if◌then◌else◌,
}
use droidsaw_hermes.Errors.{
  HermesError, section_size_overflow, section_exceeds_bounds, section_cursor_overflow, Result, ok,
  err,
}
use droidsaw_hermes.Header.{
  HbcHeader, pre_v84, v84_to_86, v87_to_96, v97_to_v98_early, v98_late_to_v99, func_header_size,
  function_count, string_kind_count, identifier_count, string_count, overflow_string_count,
  string_storage_size, reg_exp_count, reg_exp_storage_size, array_buffer_size, obj_key_buffer_size,
  obj_value_buffer_size, obj_shape_table_count, big_int_count, big_int_storage_size,
  cjs_module_count, function_source_count,
}

-- A byte range within the buffer: `(offset, size)`.
pub record Range : Type 0 where
  pub offset : ℕ
  pub size : ℕ

pub record Section : Type 0 where
  pub name : String
  pub range : Range

pub record Walk : Type 0 where
  pub cursor : ℕ
  pub sections : List Section

abbrev pub M : Type 0 → Type 0
M A = Walk → Result HermesError (A × Walk)

infixl 5 ◌>>=◌
unfoldable pub ◌>>=◌ : {A B : Type 0} → M A → (A → M B) → M B
◌>>=◌ m f w = elim (m w) [ ok (a, w') ↦ f a w' | err e ↦ err e ]

abbrev pub return : {A : Type 0} → A → M A
return a w = ok (a, w)

abbrev pub u32_max : ℕ
u32_max = 0xFFFF_FFFF

-- `(next + 3) & !3` in u64.
unfoldable pub align4 : ℕ → ℕ
align4 v = bit_and (v + 3) 0xFFFF_FFFF_FFFF_FFFC

abbrev pub no_range : Range
no_range = record { offset = 0; size = 0 }

-- `section!`; `len` is `buf.len()`.
unfoldable pub section : ℕ → String → ℕ → M Range
section len name size w =
    let next = w.cursor + size in
    let aligned = align4 next in
    let range : Range = record { offset = w.cursor; size = size } in
    if ltb u32_max size
    then err (section_size_overflow name size)
    else if ltb len next
    then err (section_exceeds_bounds name w.cursor size len)
    else if ltb u32_max aligned
    then err (section_cursor_overflow name)
    else ok (
      range,
      record {
        cursor = aligned;
        sections = w.sections ++ record { name = name; range = range } ∷ [];
      },
    )

-- `section_opt!` truncates the size to u32 first.
unfoldable pub section_opt : ℕ → String → ℕ → M Range
section_opt len name size w =
    let sz = size % 2 ^ 32 in if ltb 0 sz then section len name sz w else ok (no_range, w)

pub record Ranges : Type 0 where
  pub func_headers : Range
  pub string_kinds : Range
  pub small_string_table : Range
  pub overflow_string_table : Range
  pub string_storage : Range
  pub array_buffer : Range
  pub obj_key_buffer : Range
  pub obj_value_buffer : Range
  pub obj_shape_table : Range
  pub big_int_table : Range
  pub big_int_storage : Range
  pub regexp_table : Range
  pub cjs_modules : Range

-- The sections of the object literals: key buffer, value buffer and shape table.
abbrev pub value_sections : ℕ → HbcHeader → M (Range × Range × Range)
value_sections len h = do
  keys ← section_opt len "ObjKeyBuffer" (obj_key_buffer_size h)
  values ← section_opt len "ObjValueBuffer" (obj_value_buffer_size h)
  return (keys, values, no_range)

abbrev pub shape_sections : ℕ → HbcHeader → M (Range × Range × Range)
shape_sections len h = do
  keys ← section_opt len "ObjKeyBuffer" (obj_key_buffer_size h)
  shapes ←
      (if ltb 0 (obj_shape_table_count h)
        then section len "ObjShapeTable" (obj_shape_table_count h * 8)
        else return no_range)
  return (keys, no_range, shapes)

unfoldable pub object_sections : ℕ → HbcHeader → M (Range × Range × Range)
object_sections len (pre_v84 h) = value_sections len (pre_v84 h)
object_sections len (v84_to_86 h) = value_sections len (v84_to_86 h)
object_sections len (v87_to_96 h) = value_sections len (v87_to_96 h)
object_sections len (v97_to_v98_early h) = shape_sections len (v97_to_v98_early h)
object_sections len (v98_late_to_v99 h) = shape_sections len (v98_late_to_v99 h)

-- The layouts that carry the BigInt counts.
abbrev pub has_big_int : HbcHeader → Bool
has_big_int (pre_v84 h) = false
has_big_int (v84_to_86 h) = false
has_big_int _ = true

abbrev pub is_pre_v84 : HbcHeader → Bool
is_pre_v84 (pre_v84 h) = true
is_pre_v84 _ = false

unfoldable pub big_int_sections : ℕ → HbcHeader → M (Range × Range)
big_int_sections len h =
    if has_big_int h && ltb 0 (big_int_count h)
    then (do
      table ← section len "BigIntTable" (big_int_count h * 8)
      storage ← section len "BigIntStorage" (big_int_storage_size h)
      return (table, storage))
    else return (no_range, no_range)

unfoldable pub source_section : ℕ → HbcHeader → M Range
source_section len h =
    if is_pre_v84 h
    then return no_range
    else if ltb 0 (function_source_count h)
    then section len "FunctionSourceTable" (function_source_count h * 8)
    else return no_range

-- The walk from the end of the header over all sections of the file.
unfoldable pub walk_sections : ℕ → HbcHeader → M Ranges
walk_sections len h = do
  func_headers ← section len "FunctionHeaders" (function_count h * func_header_size h)
  string_kinds ← section len "StringKinds" (string_kind_count h * 4)
  _ ← section len "IdentifierHashes" (identifier_count h * 4)
  small_string_table ← section len "SmallStringTable" (string_count h * 4)
  overflow_string_table ← section len "OverflowStringTable" (overflow_string_count h * 8)
  string_storage ← section len "StringStorage" (string_storage_size h)
  array_buffer ← section_opt len "ArrayBuffer" (array_buffer_size h)
  (keys, values, shapes) ← object_sections len h
  (big_table, big_storage) ← big_int_sections len h
  regexp_table ← section_opt len "RegExpTable" (reg_exp_count h * 8)
  _ ←
      section_opt len "RegExpStorage"
        (if ltb 0 (reg_exp_count h) then reg_exp_storage_size h else 0)
  cjs_modules ← section_opt len "CJSModules" (cjs_module_count h * 8)
  _ ← source_section len h
  return (record {
    func_headers = func_headers;
    string_kinds = string_kinds;
    small_string_table = small_string_table;
    overflow_string_table = overflow_string_table;
    string_storage = string_storage;
    array_buffer = array_buffer;
    obj_key_buffer = keys;
    obj_value_buffer = values;
    obj_shape_table = shapes;
    big_int_table = big_table;
    big_int_storage = big_storage;
    regexp_table = regexp_table;
    cjs_modules = cjs_modules;
  })

-- The cursor behind the header, and the entry of the header in the list.
abbrev pub start : Walk
start = record {
  cursor = 128;
  sections = record { name = "Header"; range = record { offset = 0; size = 128 } } ∷ [];
}
