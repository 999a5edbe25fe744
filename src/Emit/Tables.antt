-- ===== src/Emit/Tables.antt =====
-- The table writers of src/emit.rs on a table that lies in the source: they write its bytes again.
use droidsaw_hermes.Prelude.{
  ℕ, ◌+◌, ◌*◌, ◌≤◌, ◌<◌, ◌≡◌, refl, Bool, true, [], ◌∷◌, none, some, length, arith, ◌==◌, ◌||◌,
}
use droidsaw_hermes.Bytes.{IsBytes}
use droidsaw_hermes.Header.{
  version, function_count, string_count, overflow_string_count, func_header_size,
  obj_shape_table_count, big_int_count, reg_exp_count,
}
use droidsaw_hermes.File.Raw.{v98_layout}
use droidsaw_hermes.File.{HbcFile}
use droidsaw_hermes.File.Raw.{has_16_byte_headers}
use droidsaw_hermes.Emit.{
  HermesEmitError, Writer, run, require, table_loop, function_loop, function_entry_v96,
  string_entry, emit_function_headers_v96, require_v84_or_v96, emit_function_headers_v98,
  emit_overflow_string_table_v96, emit_regexp_table_v96, emit_obj_shape_table_v98,
  emit_small_string_table_v96, emit_bigint_table_v96, require_v98_or_v99,
  require_shared_table_format, function_entry_v98,
}
use droidsaw_hermes.Emit.Slices.{Writes, Writes-nil, Writes-cons, Writes-require}
use droidsaw_hermes.Emit.Loops.{
  Writes-table_loop, Writes-function_loop, function_entry_v96-Writes, string_entry-Writes,
  pair_entry-Writes, function_entry_v98-Writes,
}

module _ (file : HbcFile) (h : IsBytes file.buf) where
  pub emit_function_headers_v96-Writes :
      (version file.header == 84 || version file.header == 96) ≡ true
      → (func_header_size file.header == 16) ≡ true
      → has_16_byte_headers file.header ≡ true
      → file.ranges.func_headers.offset + function_count file.header * 16 ≤ length file.buf
      → Writes file.buf file.ranges.func_headers.offset
          (file.ranges.func_headers.offset + function_count file.header * 16)
          (emit_function_headers_v96 file)
  unfolding emit_function_headers_v96 require_v84_or_v96
  emit_function_headers_v96-Writes v s t b =
      let at = file.ranges.func_headers.offset in
      let count = function_count file.header in
      let end = at + count * 16 in
      let z : at + 0 * 16 ≡ at = omega arith in
      let e : 0 + count ≡ count = omega arith in
      let loop : Writes file.buf at end (function_loop (function_entry_v96 file) count 0 none) =
        rw (z, e) at
          (Writes-function_loop file.buf at 16 (function_entry_v96 file) count 0 none refl
            λ j k. function_entry_v96-Writes file h j t (omega arith) (omega (arith, k, b))) in
      Writes-cons file.buf at at end _ _ (Writes-require file.buf at _ _ v) (
        Writes-cons file.buf at at end _ _ (Writes-require file.buf at _ _ s)
          (Writes-cons file.buf at end end _ _ loop (Writes-nil file.buf end)))

  pub emit_function_headers_v98-Writes :
      (late : Bool)
      → (version file.header == 98 || version file.header == 99) ≡ true
      → (func_header_size file.header == 12) ≡ true
      → v98_layout file.header ≡ some late
      → file.ranges.func_headers.offset + function_count file.header * 12 ≤ length file.buf
      → Writes file.buf file.ranges.func_headers.offset
          (file.ranges.func_headers.offset + function_count file.header * 12)
          (emit_function_headers_v98 file)
  unfolding emit_function_headers_v98 require_v98_or_v99
  emit_function_headers_v98-Writes late v s t b =
      let at = file.ranges.func_headers.offset in
      let count = function_count file.header in
      let end = at + count * 12 in
      let z : at + 0 * 12 ≡ at = omega arith in
      let e : 0 + count ≡ count = omega arith in
      let loop : Writes file.buf at end (function_loop (function_entry_v98 file) count 0 none) =
        rw (z, e) at
          (Writes-function_loop file.buf at 12 (function_entry_v98 file) count 0 none refl
            λ j k. function_entry_v98-Writes file h j late t (omega arith) (omega (arith, k, b))) in
      Writes-cons file.buf at at end _ _ (Writes-require file.buf at _ _ v) (
        Writes-cons file.buf at at end _ _ (Writes-require file.buf at _ _ s)
          (Writes-cons file.buf at end end _ _ loop (Writes-nil file.buf end)))

  -- A gate and a loop over the whole table.
  gated_table :
      (at size count : ℕ) (test : Bool) (e : HermesEmitError) (entry : ℕ → Writer)
      → test ≡ true
      → ((j : ℕ) → j < count → Writes file.buf (at + j * size) (at + j * size + size) (entry j))
      → Writes file.buf at
          (at + count * size)
          (run (require test e ∷ table_loop entry count 0 ∷ []))
  gated_table at size count test wrong entry v k =
      let end = at + count * size in
      let z : at + 0 * size ≡ at = omega arith in
      let e : 0 + count ≡ count = omega arith in
      let loop : Writes file.buf at end (table_loop entry count 0) =
        rw (z, e) at (Writes-table_loop file.buf at size entry count 0 λ j l. k j (omega arith)) in
      Writes-cons file.buf at at end _ _ (Writes-require file.buf at _ _ v)
        (Writes-cons file.buf at end end _ _ loop (Writes-nil file.buf end))

  abbrev SharedFormat : Type 0
  SharedFormat =
      (version file.header == 84
        || version file.header == 96
        || version file.header == 98
        || version file.header == 99)
      ≡ true

  pub emit_small_string_table_v96-Writes :
      SharedFormat
      → file.ranges.small_string_table.size ≡ string_count file.header * 4
      → file.ranges.small_string_table.offset + string_count file.header * 4 ≤ length file.buf
      → Writes file.buf file.ranges.small_string_table.offset
          (file.ranges.small_string_table.offset + string_count file.header * 4)
          (emit_small_string_table_v96 file)
  unfolding emit_small_string_table_v96 require_shared_table_format
  emit_small_string_table_v96-Writes v s b =
      gated_table file.ranges.small_string_table.offset 4 (string_count file.header) _ _
        (string_entry file) v λ j k. string_entry-Writes file h j k s (omega (arith, k, b))

  pub emit_overflow_string_table_v96-Writes :
      SharedFormat
      → file.ranges.overflow_string_table.size ≡ overflow_string_count file.header * 8
      → file.ranges.overflow_string_table.offset + overflow_string_count file.header * 8
        ≤ length file.buf
      → Writes file.buf file.ranges.overflow_string_table.offset
          (file.ranges.overflow_string_table.offset + overflow_string_count file.header * 8)
          (emit_overflow_string_table_v96 file)
  unfolding emit_overflow_string_table_v96 require_shared_table_format
  emit_overflow_string_table_v96-Writes v s b =
      gated_table file.ranges.overflow_string_table.offset 8 (overflow_string_count file.header) _ _
        _ v
        λ j k.
          pair_entry-Writes file h j (overflow_string_count file.header)
            file.ranges.overflow_string_table _ k s (omega (arith, k, b))

  pub emit_regexp_table_v96-Writes :
      SharedFormat
      → file.ranges.regexp_table.size ≡ reg_exp_count file.header * 8
      → file.ranges.regexp_table.offset + reg_exp_count file.header * 8 ≤ length file.buf
      → Writes file.buf file.ranges.regexp_table.offset
          (file.ranges.regexp_table.offset + reg_exp_count file.header * 8)
          (emit_regexp_table_v96 file)
  unfolding emit_regexp_table_v96 require_shared_table_format
  emit_regexp_table_v96-Writes v s b =
      gated_table file.ranges.regexp_table.offset 8 (reg_exp_count file.header) _ _ _ v λ j k.
        pair_entry-Writes file h j (reg_exp_count file.header) file.ranges.regexp_table _ k s
          (omega (arith, k, b))

  pub emit_bigint_table_v96-Writes :
      SharedFormat
      → file.ranges.big_int_table.size ≡ big_int_count file.header * 8
      → file.ranges.big_int_table.offset + big_int_count file.header * 8 ≤ length file.buf
      → Writes file.buf file.ranges.big_int_table.offset
          (file.ranges.big_int_table.offset + big_int_count file.header * 8)
          (emit_bigint_table_v96 file)
  unfolding emit_bigint_table_v96 require_shared_table_format
  emit_bigint_table_v96-Writes v s b =
      gated_table file.ranges.big_int_table.offset 8 (big_int_count file.header) _ _ _ v λ j k.
        pair_entry-Writes file h j (big_int_count file.header) file.ranges.big_int_table _ k s
          (omega (arith, k, b))

  pub emit_obj_shape_table_v98-Writes :
      (version file.header == 98 || version file.header == 99) ≡ true
      → file.ranges.obj_shape_table.size ≡ obj_shape_table_count file.header * 8
      → file.ranges.obj_shape_table.offset + obj_shape_table_count file.header * 8 ≤ length file.buf
      → Writes file.buf file.ranges.obj_shape_table.offset
          (file.ranges.obj_shape_table.offset + obj_shape_table_count file.header * 8)
          (emit_obj_shape_table_v98 file)
  unfolding emit_obj_shape_table_v98 require_v98_or_v99
  emit_obj_shape_table_v98-Writes v s b =
      gated_table file.ranges.obj_shape_table.offset 8 (obj_shape_table_count file.header) _ _ _ v
        λ j k.
          pair_entry-Writes file h j (obj_shape_table_count file.header) file.ranges.obj_shape_table
            _ k s (omega (arith, k, b))
