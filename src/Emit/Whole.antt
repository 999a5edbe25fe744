-- ===== src/Emit/Whole.antt =====
-- A file that the parser of src/parser/mod.rs has returned is ready for the emitters of src/emit.rs.
use Prim.Native.String.{String}
use droidsaw_hermes.Prelude.{
  ℕ, ◌+◌, ◌*◌, ◌^◌, ◌≤◌, ◌<◌, ◌≡◌, sym, ap, subst, ◌∙◌, Bool, true, List, [], length, arith, leb,
  ◌==◌, ◌||◌,
}
use droidsaw_hermes.Errors.{ok}
use droidsaw_hermes.Bytes.{IsBytes, read_u32_le}
use droidsaw_hermes.Bytes.Value.{read_u32_le-lt}
use droidsaw_hermes.Header
use droidsaw_hermes.Header.{
  HbcHeader, version, file_length, big_int_count, func_header_size, function_count,
  overflow_string_count, reg_exp_count, obj_shape_table_count,
}
use droidsaw_hermes.Header.Parse.{parse_hbc_header, dispatch}
use droidsaw_hermes.Header.Parse.Dispatch.{parse_hbc_header-Accepted}
use droidsaw_hermes.File.{HbcFile, check_counts}
use droidsaw_hermes.File.Parsed.{ParsedFrom}
use droidsaw_hermes.Emit.HeaderBytes.{Source, Sizes}
use droidsaw_hermes.Emit.Chains.{end, run-Chain, ◌⨾◌}
use droidsaw_hermes.Emit.Body.{Ready, emit_body-Writes}
use droidsaw_hermes.Emit.Files.{emit_file, Extra}
use droidsaw_hermes.Emit.{Writer, reject_if_unrecognized, is_empty}
use droidsaw_hermes.Emit.Slices.{Writes, Writes-require, slice_all}
use droidsaw_hermes.Sections.{u32_max}
use droidsaw_hermes.Emit.Tables.{
  emit_small_string_table_v96-Writes, emit_overflow_string_table_v96-Writes,
}

-- The sizes in a parsed header fit 32 bits.
record Narrow (h : HbcHeader) : Type 0 where
  array_lt : droidsaw_hermes.Header.array_buffer_size h < 2 ^ 32
  keys_lt : droidsaw_hermes.Header.obj_key_buffer_size h < 2 ^ 32
  values_lt : droidsaw_hermes.Header.obj_value_buffer_size h < 2 ^ 32
  storage_lt : droidsaw_hermes.Header.big_int_storage_size h < 2 ^ 32

dispatch-Narrow :
    (buf : List ℕ) (v : ℕ) {h : HbcHeader} → IsBytes buf → (dispatch buf v).result ≡ ok h → Narrow h
unfolding dispatch droidsaw_hermes.Header.array_buffer_size
    droidsaw_hermes.Header.obj_key_buffer_size droidsaw_hermes.Header.obj_value_buffer_size
    droidsaw_hermes.Header.big_int_storage_size
dispatch-Narrow buf v {h} b e =
    let r : (off : ℕ) → read_u32_le buf off < 2 ^ 32 = λ off. read_u32_le-lt buf off b in
    ground (arith, r 68, r 72, r 76, r 80, r 84, r 88)

parse_hbc_header-Narrow :
    (buf : List ℕ) {h : HbcHeader} → IsBytes buf → (parse_hbc_header buf).result ≡ ok h → Narrow h
unfolding parse_hbc_header
parse_hbc_header-Narrow buf {h} b e =
    ground (arith, dispatch-Narrow buf (read_u32_le buf 8) {h = h} b)

check_counts-regexp :
    (bound_count : ℕ → ℕ → ℕ → Bool) (h : HbcHeader) (len : ℕ) {counts : List ℕ}
    → check_counts bound_count h len ≡ ok counts
    → bound_count (reg_exp_count h) 8 len ≡ true
unfolding check_counts
check_counts-regexp bound_count h len e = ground arith

module _ (bound_count : ℕ → ℕ → ℕ → Bool) (f : HbcFile) (p : ParsedFrom bound_count f.buf f)
    (b : IsBytes f.buf) (n : file_length f.header ≡ length f.buf) where
  narrow : Narrow f.header
  narrow = parse_hbc_header-Narrow f.buf b p.header_read

  pub source : Source f
  source =
      let a = parse_hbc_header-Accepted f.buf p.header_read in
      record {
        bytes_ok = b;
        long_enough = a.long_enough;
        has_magic = a.has_magic;
        declared_length = sym a.length_read ∙ n;
      }

  pub small : length f.buf < 2 ^ 32
  small = omega (arith, read_u32_le-lt f.buf 32 b, source.declared_length)

  pub sizes :
      (big_int_count f.header ≡ 0 → droidsaw_hermes.Header.big_int_storage_size f.header ≡ 0)
      → Sizes f
  sizes z = record {
    big_int_is = ground (arith, p.laid.big_storage_size, narrow.storage_lt, z);
    array_is = omega (arith, p.laid.array_size, narrow.array_lt);
    keys_is = omega (arith, p.laid.keys_size, narrow.keys_lt);
    values_is = omega (arith, p.laid.values_size, narrow.values_lt);
  }

  -- The tables that every emitter writes again.
  pub ready :
      (functions : Writer) (extra : Extra)
      → (version f.header == 84
          || version f.header == 96
          || version f.header == 98
          || version f.header == 99)
        ≡ true
      → Writes f.buf 128 (128 + function_count f.header * func_header_size f.header) functions
      → (0 < extra.count
          → (f.ranges.overflow_string_table.offset + overflow_string_count f.header * 8
              ≤ extra.start)
            × (extra.start + extra.count * 8 ≤ length f.buf)
            × Writes f.buf extra.start (extra.start + extra.count * 8) extra.emit)
      → Ready f functions extra
  ready functions extra v w k = record {
    source = source;
    small = small;
    headers_at = p.laid.headers_at;
    headers_end = p.laid.headers_end;
    strings_end = p.laid.strings_end;
    overflow_end = p.laid.overflow_end;
    functions_written = w;
    strings_written =
        emit_small_string_table_v96-Writes f b v p.laid.strings_size
          (omega (arith, p.laid.strings_end, p.laid.overflow_end));
    overflow_written =
        emit_overflow_string_table_v96-Writes f b v p.laid.overflow_size p.laid.overflow_end;
    extra_after = λ c. (k c).0;
    extra_end = λ c. (k c).1;
    extra_written = λ c. (k c).2;
  }

  -- The gates hold, and the header and the body are the source.
  pub emit_file-Writes :
      (header : List ℕ → ℕ → Writer) (functions : Writer) (extra : Extra) (reason : String)
      → Writes f.buf 0 128 (header f.buf (length f.buf))
      → Ready f functions extra
      → Writes f.buf 0 (length f.buf) (emit_file f header functions extra reason)
  unfolding emit_file reject_if_unrecognized
  emit_file-Writes header functions extra reason w r =
      let big : leb 128 (length f.buf) ≡ true = ground (arith, source.long_enough) in
      let fits : leb (length f.buf) u32_max ≡ true = ground (arith, small) in
      let known : is_empty f.unrecognized_functions ≡ true = ap is_empty p.all_recognized in
      run-Chain f.buf 0 (length f.buf) _ (
        Writes-require f.buf 0 _ _ known
        ⨾ Writes-require f.buf 0 _ _ big
        ⨾ Writes-require f.buf 0 _ _ fits
        ⨾ w
        ⨾ emit_body-Writes f functions extra r reason
        ⨾ end)

  -- The function headers from offset 128 on, in entries of the size of the layout.
  pub functions_at :
      (size : ℕ) (w : Writer)
      → func_header_size f.header ≡ size
      → (f.ranges.func_headers.offset + function_count f.header * size ≤ length f.buf
          → Writes f.buf f.ranges.func_headers.offset
              (f.ranges.func_headers.offset + function_count f.header * size)
              w)
      → Writes f.buf 128 (128 + function_count f.header * func_header_size f.header) w
  functions_at size w e k =
      let count = function_count f.header in
      let inside : 128 + count * size ≤ length f.buf = omega (
        arith,
        ap (λ (t : ℕ). count * t) e,
        p.laid.headers_end,
        p.laid.strings_end,
        p.laid.overflow_end,
      ) in
      let w128 : Writes f.buf 128 (128 + count * size) w =
        subst (λ (o : ℕ). Writes f.buf o (o + count * size) w) p.laid.headers_at
          (k (omega (arith, p.laid.headers_at, inside))) in
      subst (λ (t : ℕ). Writes f.buf 128 (128 + count * t) w) (sym e) w128

  -- A writer that reproduces the whole source returns it.
  pub whole : (w : Writer) → Writes f.buf 0 (length f.buf) w → w [] ≡ ok f.buf
  whole w h = h.appends [] ∙ ap (λ (xs : List ℕ). ok xs) (slice_all f.buf)

  -- The counts that `bound_count` lets through.
  pub regexp_small :
      ((count stride len : ℕ) → bound_count count stride len ≡ true → count * stride ≤ len)
      → reg_exp_count f.header * 8 < 2 ^ 32
  regexp_small bounded =
      let t : bound_count (reg_exp_count f.header) 8 (length f.buf) ≡ true =
        check_counts-regexp bound_count f.header (length f.buf) p.counted in
      omega (arith, bounded (reg_exp_count f.header) 8 (length f.buf) t, small)
