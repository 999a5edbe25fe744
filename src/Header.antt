-- ===== src/Header.antt =====
-- The header of an HBC file, src/header.rs: the five layouts and the projections of `HbcHeader`.
-- Every field is a u32, so a number below 2 ^ 32.
pub mod Parse
use droidsaw_hermes.Prelude.{ℕ, Bool, true, false}

pub record PreV84Header : Type 0 where
  pub version : ℕ
  pub file_length : ℕ
  pub global_code_index : ℕ
  pub function_count : ℕ
  pub string_kind_count : ℕ
  pub identifier_count : ℕ
  pub string_count : ℕ
  pub overflow_string_count : ℕ
  pub string_storage_size : ℕ
  pub reg_exp_count : ℕ
  pub reg_exp_storage_size : ℕ
  pub array_buffer_size : ℕ
  pub obj_key_buffer_size : ℕ
  pub obj_value_buffer_size : ℕ
  pub segment_id : ℕ
  pub cjs_module_count : ℕ
  pub debug_info_offset : ℕ

pub record V84to86Header : Type 0 where
  pub version : ℕ
  pub file_length : ℕ
  pub global_code_index : ℕ
  pub function_count : ℕ
  pub string_kind_count : ℕ
  pub identifier_count : ℕ
  pub string_count : ℕ
  pub overflow_string_count : ℕ
  pub string_storage_size : ℕ
  pub reg_exp_count : ℕ
  pub reg_exp_storage_size : ℕ
  pub array_buffer_size : ℕ
  pub obj_key_buffer_size : ℕ
  pub obj_value_buffer_size : ℕ
  pub segment_id : ℕ
  pub cjs_module_count : ℕ
  pub function_source_count : ℕ
  pub debug_info_offset : ℕ

pub record V87to96Header : Type 0 where
  pub version : ℕ
  pub file_length : ℕ
  pub global_code_index : ℕ
  pub function_count : ℕ
  pub string_kind_count : ℕ
  pub identifier_count : ℕ
  pub string_count : ℕ
  pub overflow_string_count : ℕ
  pub string_storage_size : ℕ
  pub big_int_count : ℕ
  pub big_int_storage_size : ℕ
  pub reg_exp_count : ℕ
  pub reg_exp_storage_size : ℕ
  pub array_buffer_size : ℕ
  pub obj_key_buffer_size : ℕ
  pub obj_value_buffer_size : ℕ
  pub segment_id : ℕ
  pub cjs_module_count : ℕ
  pub function_source_count : ℕ
  pub debug_info_offset : ℕ

pub record V97toV98EarlyHeader : Type 0 where
  pub version : ℕ
  pub file_length : ℕ
  pub global_code_index : ℕ
  pub function_count : ℕ
  pub string_kind_count : ℕ
  pub identifier_count : ℕ
  pub string_count : ℕ
  pub overflow_string_count : ℕ
  pub string_storage_size : ℕ
  pub big_int_count : ℕ
  pub big_int_storage_size : ℕ
  pub reg_exp_count : ℕ
  pub reg_exp_storage_size : ℕ
  pub array_buffer_size : ℕ
  pub obj_key_buffer_size : ℕ
  pub obj_shape_table_count : ℕ
  pub segment_id : ℕ
  pub cjs_module_count : ℕ
  pub function_source_count : ℕ
  pub debug_info_offset : ℕ

pub record V98LateToV99Header : Type 0 where
  pub version : ℕ
  pub file_length : ℕ
  pub global_code_index : ℕ
  pub function_count : ℕ
  pub string_kind_count : ℕ
  pub identifier_count : ℕ
  pub string_count : ℕ
  pub overflow_string_count : ℕ
  pub string_storage_size : ℕ
  pub big_int_count : ℕ
  pub big_int_storage_size : ℕ
  pub reg_exp_count : ℕ
  pub reg_exp_storage_size : ℕ
  pub array_buffer_size : ℕ
  pub obj_key_buffer_size : ℕ
  pub obj_shape_table_count : ℕ
  pub num_string_switch_imms : ℕ
  pub segment_id : ℕ
  pub cjs_module_count : ℕ
  pub function_source_count : ℕ
  pub debug_info_offset : ℕ

pub data HbcHeader : Type 0 where
  pre_v84 : PreV84Header → HbcHeader
  v84_to_86 : V84to86Header → HbcHeader
  v87_to_96 : V87to96Header → HbcHeader
  v97_to_v98_early : V97toV98EarlyHeader → HbcHeader
  v98_late_to_v99 : V98LateToV99Header → HbcHeader

unfoldable pub version : HbcHeader → ℕ
version (pre_v84 h) = h.version
version (v84_to_86 h) = h.version
version (v87_to_96 h) = h.version
version (v97_to_v98_early h) = h.version
version (v98_late_to_v99 h) = h.version

unfoldable pub func_header_size : HbcHeader → ℕ
func_header_size (pre_v84 h) = 16
func_header_size (v84_to_86 h) = 16
func_header_size (v87_to_96 h) = 16
func_header_size (v97_to_v98_early h) = 12
func_header_size (v98_late_to_v99 h) = 12

unfoldable pub use_v99_func_header : HbcHeader → Bool
use_v99_func_header (v98_late_to_v99 h) = true
use_v99_func_header _ = false

unfoldable pub has_num_string_switch_imms : HbcHeader → Bool
has_num_string_switch_imms (v98_late_to_v99 h) = true
has_num_string_switch_imms _ = false

unfoldable pub file_length : HbcHeader → ℕ
file_length (pre_v84 h) = h.file_length
file_length (v84_to_86 h) = h.file_length
file_length (v87_to_96 h) = h.file_length
file_length (v97_to_v98_early h) = h.file_length
file_length (v98_late_to_v99 h) = h.file_length

unfoldable pub function_count : HbcHeader → ℕ
function_count (pre_v84 h) = h.function_count
function_count (v84_to_86 h) = h.function_count
function_count (v87_to_96 h) = h.function_count
function_count (v97_to_v98_early h) = h.function_count
function_count (v98_late_to_v99 h) = h.function_count

unfoldable pub string_kind_count : HbcHeader → ℕ
string_kind_count (pre_v84 h) = h.string_kind_count
string_kind_count (v84_to_86 h) = h.string_kind_count
string_kind_count (v87_to_96 h) = h.string_kind_count
string_kind_count (v97_to_v98_early h) = h.string_kind_count
string_kind_count (v98_late_to_v99 h) = h.string_kind_count

unfoldable pub identifier_count : HbcHeader → ℕ
identifier_count (pre_v84 h) = h.identifier_count
identifier_count (v84_to_86 h) = h.identifier_count
identifier_count (v87_to_96 h) = h.identifier_count
identifier_count (v97_to_v98_early h) = h.identifier_count
identifier_count (v98_late_to_v99 h) = h.identifier_count

unfoldable pub string_count : HbcHeader → ℕ
string_count (pre_v84 h) = h.string_count
string_count (v84_to_86 h) = h.string_count
string_count (v87_to_96 h) = h.string_count
string_count (v97_to_v98_early h) = h.string_count
string_count (v98_late_to_v99 h) = h.string_count

unfoldable pub overflow_string_count : HbcHeader → ℕ
overflow_string_count (pre_v84 h) = h.overflow_string_count
overflow_string_count (v84_to_86 h) = h.overflow_string_count
overflow_string_count (v87_to_96 h) = h.overflow_string_count
overflow_string_count (v97_to_v98_early h) = h.overflow_string_count
overflow_string_count (v98_late_to_v99 h) = h.overflow_string_count

unfoldable pub string_storage_size : HbcHeader → ℕ
string_storage_size (pre_v84 h) = h.string_storage_size
string_storage_size (v84_to_86 h) = h.string_storage_size
string_storage_size (v87_to_96 h) = h.string_storage_size
string_storage_size (v97_to_v98_early h) = h.string_storage_size
string_storage_size (v98_late_to_v99 h) = h.string_storage_size

unfoldable pub reg_exp_count : HbcHeader → ℕ
reg_exp_count (pre_v84 h) = h.reg_exp_count
reg_exp_count (v84_to_86 h) = h.reg_exp_count
reg_exp_count (v87_to_96 h) = h.reg_exp_count
reg_exp_count (v97_to_v98_early h) = h.reg_exp_count
reg_exp_count (v98_late_to_v99 h) = h.reg_exp_count

unfoldable pub reg_exp_storage_size : HbcHeader → ℕ
reg_exp_storage_size (pre_v84 h) = h.reg_exp_storage_size
reg_exp_storage_size (v84_to_86 h) = h.reg_exp_storage_size
reg_exp_storage_size (v87_to_96 h) = h.reg_exp_storage_size
reg_exp_storage_size (v97_to_v98_early h) = h.reg_exp_storage_size
reg_exp_storage_size (v98_late_to_v99 h) = h.reg_exp_storage_size

unfoldable pub array_buffer_size : HbcHeader → ℕ
array_buffer_size (pre_v84 h) = h.array_buffer_size
array_buffer_size (v84_to_86 h) = h.array_buffer_size
array_buffer_size (v87_to_96 h) = h.array_buffer_size
array_buffer_size (v97_to_v98_early h) = h.array_buffer_size
array_buffer_size (v98_late_to_v99 h) = h.array_buffer_size

unfoldable pub obj_key_buffer_size : HbcHeader → ℕ
obj_key_buffer_size (pre_v84 h) = h.obj_key_buffer_size
obj_key_buffer_size (v84_to_86 h) = h.obj_key_buffer_size
obj_key_buffer_size (v87_to_96 h) = h.obj_key_buffer_size
obj_key_buffer_size (v97_to_v98_early h) = h.obj_key_buffer_size
obj_key_buffer_size (v98_late_to_v99 h) = h.obj_key_buffer_size

unfoldable pub cjs_module_count : HbcHeader → ℕ
cjs_module_count (pre_v84 h) = h.cjs_module_count
cjs_module_count (v84_to_86 h) = h.cjs_module_count
cjs_module_count (v87_to_96 h) = h.cjs_module_count
cjs_module_count (v97_to_v98_early h) = h.cjs_module_count
cjs_module_count (v98_late_to_v99 h) = h.cjs_module_count

unfoldable pub debug_info_offset : HbcHeader → ℕ
debug_info_offset (pre_v84 h) = h.debug_info_offset
debug_info_offset (v84_to_86 h) = h.debug_info_offset
debug_info_offset (v87_to_96 h) = h.debug_info_offset
debug_info_offset (v97_to_v98_early h) = h.debug_info_offset
debug_info_offset (v98_late_to_v99 h) = h.debug_info_offset

unfoldable pub function_source_count : HbcHeader → ℕ
function_source_count (pre_v84 h) = 0
function_source_count (v84_to_86 h) = h.function_source_count
function_source_count (v87_to_96 h) = h.function_source_count
function_source_count (v97_to_v98_early h) = h.function_source_count
function_source_count (v98_late_to_v99 h) = h.function_source_count

unfoldable pub big_int_count : HbcHeader → ℕ
big_int_count (pre_v84 h) = 0
big_int_count (v84_to_86 h) = 0
big_int_count (v87_to_96 h) = h.big_int_count
big_int_count (v97_to_v98_early h) = h.big_int_count
big_int_count (v98_late_to_v99 h) = h.big_int_count

unfoldable pub big_int_storage_size : HbcHeader → ℕ
big_int_storage_size (pre_v84 h) = 0
big_int_storage_size (v84_to_86 h) = 0
big_int_storage_size (v87_to_96 h) = h.big_int_storage_size
big_int_storage_size (v97_to_v98_early h) = h.big_int_storage_size
big_int_storage_size (v98_late_to_v99 h) = h.big_int_storage_size

unfoldable pub obj_value_buffer_size : HbcHeader → ℕ
obj_value_buffer_size (pre_v84 h) = h.obj_value_buffer_size
obj_value_buffer_size (v84_to_86 h) = h.obj_value_buffer_size
obj_value_buffer_size (v87_to_96 h) = h.obj_value_buffer_size
obj_value_buffer_size (v97_to_v98_early h) = 0
obj_value_buffer_size (v98_late_to_v99 h) = 0

unfoldable pub obj_shape_table_count : HbcHeader → ℕ
obj_shape_table_count (pre_v84 h) = 0
obj_shape_table_count (v84_to_86 h) = 0
obj_shape_table_count (v87_to_96 h) = 0
obj_shape_table_count (v97_to_v98_early h) = h.obj_shape_table_count
obj_shape_table_count (v98_late_to_v99 h) = h.obj_shape_table_count
