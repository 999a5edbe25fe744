-- ===== src/Emit/Identity.antt =====
-- The emitters of src/emit.rs on a file that the parser of src/parser/mod.rs has returned.
use Prim.Native.String.{String}
use droidsaw_hermes.Prelude.{
  ℕ, ◌+◌, ◌*◌, ◌≤◌, ◌≡◌, sym, ap, subst, ◌∙◌, Bool, true, false, List, [], ◌∷◌, length, arith, ◌==◌,
  inl, inr, ◌||◌,
}
use droidsaw_hermes.Errors.{ok}
use droidsaw_hermes.Bytes.{IsBytes}
use droidsaw_hermes.Header
use droidsaw_hermes.Header.{
  HbcHeader, version, file_length, big_int_count, func_header_size, function_count,
  overflow_string_count, reg_exp_count, obj_shape_table_count,
}
use droidsaw_hermes.Header.Parse.{parse_v98_late_to_v99, parse_v97_to_v98_early}
use droidsaw_hermes.File.{HbcFile, parse_inner}
use droidsaw_hermes.File.Parsed.{ParsedFrom, parse_inner-ParsedFrom}
use droidsaw_hermes.Emit.HeaderBytes.{
  emit_header_v96-Writes, emit_header_v84-Writes, emit_header_v98-late, emit_header_v98-early,
}
use droidsaw_hermes.Emit.Chains.{end, run-Chain, ◌⨾◌}
use droidsaw_hermes.Emit.Files.{
  emit_hbc, emit_file, gate, no_extra, emit_hbc_v84, regexp_table_extra, emit_hbc_v98_or_v99,
  emit_hbc_v98, emit_hbc_v99, obj_shape_table_extra,
}
use droidsaw_hermes.Emit.{
  emit_function_headers_v96, run, require_v98_or_v99, some, emit_function_headers_v98,
}
use droidsaw_hermes.Header.Parse.Layouts.{
  parse_hbc_header-v96, parse_hbc_header-v84, parse_hbc_header-v98, parse_hbc_header-v99,
}
use droidsaw_hermes.Emit.Slices.{Writes, Writes-require}
use droidsaw_hermes.Emit.Tables.{
  emit_function_headers_v96-Writes, emit_regexp_table_v96-Writes, emit_function_headers_v98-Writes,
  emit_obj_shape_table_v98-Writes,
}
use droidsaw_hermes.File.Raw.{has_16_byte_headers, v98_layout}
use droidsaw_hermes.Emit.Headers.{emit_header_v96, emit_header_v84, emit_header_v98}
use droidsaw_hermes.Emit.Whole.{
  sizes, ready, emit_file-Writes, functions_at, regexp_small, whole, source,
}

module _ (bound_count : ℕ → ℕ → ℕ → Bool) (f : HbcFile) (p : ParsedFrom bound_count f.buf f)
    (b : IsBytes f.buf) (n : file_length f.header ≡ length f.buf) where
  emit_hbc-eq :
      version f.header ≡ 96
      → (big_int_count f.header ≡ 0 → droidsaw_hermes.Header.big_int_storage_size f.header ≡ 0)
      → emit_hbc f ≡ ok f.buf
  unfolding emit_hbc func_header_size
  emit_hbc-eq v z =
      let (e, v96) = parse_hbc_header-v96 f.buf f.header p.header_read v in
      let g : (version f.header == 96) ≡ true = ground arith in
      let g' : (version f.header == 84 || version f.header == 96) ≡ true = ground arith in
      let shared : (version f.header == 84
            || version f.header == 96
            || version f.header == 98
            || version f.header == 99)
          ≡ true =
        ground arith in
      let size : func_header_size f.header ≡ 16 = ap func_header_size e in
      let size' : (func_header_size f.header == 16) ≡ true = ground arith in
      let functions =
        functions_at bound_count f p b n 16 (emit_function_headers_v96 f) size
          (emit_function_headers_v96-Writes f b g' size' (ap has_16_byte_headers e)) in
      whole bound_count f p b n
        (run (
          gate f 96
          ∷ emit_file f (emit_header_v96 f) (emit_function_headers_v96 f) no_extra _
          ∷ []))
        (run-Chain f.buf 0 (length f.buf) _ (
          Writes-require f.buf 0 _ _ g
          ⨾ emit_file-Writes bound_count f p b n (emit_header_v96 f) (emit_function_headers_v96 f)
              no_extra _
              (emit_header_v96-Writes f (source bound_count f p b n) e v96
                (sizes bound_count f p b n z))
              (ready bound_count f p b n (emit_function_headers_v96 f) no_extra shared functions
                (λ c. ground arith))
          ⨾ end))

  emit_hbc_v84-eq :
      version f.header ≡ 84
      → ((count stride len : ℕ) → bound_count count stride len ≡ true → count * stride ≤ len)
      → emit_hbc_v84 f ≡ ok f.buf
  unfolding emit_hbc_v84 func_header_size droidsaw_hermes.Header.big_int_storage_size
  emit_hbc_v84-eq v bounded =
      let (e, v84) = parse_hbc_header-v84 f.buf f.header p.header_read v in
      let g : (version f.header == 84) ≡ true = ground arith in
      let g' : (version f.header == 84 || version f.header == 96) ≡ true = ground arith in
      let shared : (version f.header == 84
            || version f.header == 96
            || version f.header == 98
            || version f.header == 99)
          ≡ true =
        ground arith in
      let size : func_header_size f.header ≡ 16 = ap func_header_size e in
      let size' : (func_header_size f.header == 16) ≡ true = ground arith in
      let functions =
        functions_at bound_count f p b n 16 (emit_function_headers_v96 f) size
          (emit_function_headers_v96-Writes f b g' size' (ap has_16_byte_headers e)) in
      let fits = regexp_small bound_count f p b n bounded in
      let exact : f.ranges.regexp_table.size ≡ reg_exp_count f.header * 8 =
        omega (arith, p.laid.regexp_size, fits) in
      let inside : f.ranges.regexp_table.offset + reg_exp_count f.header * 8 ≤ length f.buf =
        omega (arith, p.laid.regexp_inside, exact) in
      whole bound_count f p b n
        (run (
          gate f 84
          ∷ emit_file f (emit_header_v84 f) (emit_function_headers_v96 f) (regexp_table_extra f) _
          ∷ []))
        (run-Chain f.buf 0 (length f.buf) _ (
          Writes-require f.buf 0 _ _ g
          ⨾ emit_file-Writes bound_count f p b n (emit_header_v84 f) (emit_function_headers_v96 f)
              (regexp_table_extra f) _
              (emit_header_v84-Writes f (source bound_count f p b n) e v84
                (sizes bound_count f p b n (λ _. ap droidsaw_hermes.Header.big_int_storage_size e)))
              (ready bound_count f p b n (emit_function_headers_v96 f) (regexp_table_extra f) shared
                functions
                (λ c. (
                  p.laid.regexp_after (omega (arith, c, fits)),
                  inside,
                  emit_regexp_table_v96-Writes f b shared exact inside,
                )))
          ⨾ end))

  -- The body that versions 98 and 99 share.
  emit_hbc_v98_or_v99-Writes :
      (late : Bool)
      → v98_layout f.header ≡ some late
      → (version f.header == 98 || version f.header == 99) ≡ true
      → func_header_size f.header ≡ 12
      → Writes f.buf 0 128 (emit_header_v98 f f.buf (length f.buf))
      → Writes f.buf 0 (length f.buf) (emit_hbc_v98_or_v99 f)
  unfolding emit_hbc_v98_or_v99 require_v98_or_v99
  emit_hbc_v98_or_v99-Writes late layout g size w =
      let shared : (version f.header == 84
            || version f.header == 96
            || version f.header == 98
            || version f.header == 99)
          ≡ true =
        ground arith in
      let size' : (func_header_size f.header == 12) ≡ true = ground arith in
      let functions =
        functions_at bound_count f p b n 12 (emit_function_headers_v98 f) size
          (emit_function_headers_v98-Writes f b late g size' layout) in
      let inside : f.ranges.obj_shape_table.offset + obj_shape_table_count f.header * 8
          ≤ length f.buf =
        omega (arith, p.laid.shapes_inside, p.laid.shapes_size) in
      run-Chain f.buf 0 (length f.buf) _ (
        Writes-require f.buf 0 _ _ g
        ⨾ emit_file-Writes bound_count f p b n (emit_header_v98 f) (emit_function_headers_v98 f)
            (obj_shape_table_extra f) _ w
            (ready bound_count f p b n (emit_function_headers_v98 f) (obj_shape_table_extra f)
              shared functions
              (λ c. (
                p.laid.shapes_after (omega (arith, c)),
                inside,
                emit_obj_shape_table_v98-Writes f b g p.laid.shapes_size inside,
              )))
        ⨾ end)

  emit_hbc_v98-eq :
      version f.header ≡ 98
      → (big_int_count f.header ≡ 0 → droidsaw_hermes.Header.big_int_storage_size f.header ≡ 0)
      → emit_hbc_v98 f ≡ ok f.buf
  unfolding emit_hbc_v98 func_header_size parse_v97_to_v98_early parse_v98_late_to_v99
  emit_hbc_v98-eq v z =
      let g : (version f.header == 98) ≡ true = ground arith in
      let g' : (version f.header == 98 || version f.header == 99) ≡ true = ground arith in
      let (form, v98) = parse_hbc_header-v98 f.buf f.header p.header_read v in
      let body : Writes f.buf 0 (length f.buf) (emit_hbc_v98_or_v99 f) = elim form [
        | inl e ↦ emit_hbc_v98_or_v99-Writes false (ap v98_layout e) g' (ap func_header_size e) (
            emit_header_v98-early f (source bound_count f p b n) 98 e v98
              (sizes bound_count f p b n z))
        | inr e ↦ emit_hbc_v98_or_v99-Writes true (ap v98_layout e) g' (ap func_header_size e) (
            emit_header_v98-late f (source bound_count f p b n) 98 e v98
              (sizes bound_count f p b n z))
      ] in
      whole bound_count f p b n (run (gate f 98 ∷ emit_hbc_v98_or_v99 f ∷ []))
        (run-Chain f.buf 0 (length f.buf) _ (Writes-require f.buf 0 _ _ g ⨾ body ⨾ end))

  emit_hbc_v99-eq :
      version f.header ≡ 99
      → (big_int_count f.header ≡ 0 → droidsaw_hermes.Header.big_int_storage_size f.header ≡ 0)
      → emit_hbc_v99 f ≡ ok f.buf
  unfolding emit_hbc_v99 func_header_size parse_v98_late_to_v99
  emit_hbc_v99-eq v z =
      let g : (version f.header == 99) ≡ true = ground arith in
      let g' : (version f.header == 98 || version f.header == 99) ≡ true = ground arith in
      let (e, v99) = parse_hbc_header-v99 f.buf f.header p.header_read v in
      let body = emit_hbc_v98_or_v99-Writes true (ap v98_layout e) g' (ap func_header_size e) (
        emit_header_v98-late f (source bound_count f p b n) 99 e v99
          (sizes bound_count f p b n z)) in
      whole bound_count f p b n (run (gate f 99 ∷ emit_hbc_v98_or_v99 f ∷ []))
        (run-Chain f.buf 0 (length f.buf) _ (Writes-require f.buf 0 _ _ g ⨾ body ⨾ end))

module _ (bound_count : ℕ → ℕ → ℕ → Bool) (buf : List ℕ) (input_hash : String) {f : HbcFile} where
  -- The parsed file as one that stands for its own buffer.
  own :
      (parse_inner bound_count buf input_hash).result ≡ ok f
      → (f.buf ≡ buf) × ParsedFrom bound_count f.buf f
  own e =
      let p = parse_inner-ParsedFrom bound_count buf input_hash e in
      (p.buf_is, subst (λ (b : List ℕ). ParsedFrom bound_count b f) (sym p.buf_is) p)

  -- A file of version 96 that parses is emitted as it was, byte for byte, if its buffer consists of
  -- bytes, its declared length is the buffer's, and no BigInt storage is declared without
  -- BigInts.
  pub emit_hbc-parse_inner :
      IsBytes buf
      → (parse_inner bound_count buf input_hash).result ≡ ok f
      → version f.header ≡ 96
      → file_length f.header ≡ length buf
      → (big_int_count f.header ≡ 0 → droidsaw_hermes.Header.big_int_storage_size f.header ≡ 0)
      → emit_hbc f ≡ ok buf
  emit_hbc-parse_inner b e v n z =
      let (same, p) = own e in
      emit_hbc-eq bound_count f p (subst IsBytes (sym same) b) (n ∙ ap length (sym same)) v z
      ∙ ap (λ (xs : List ℕ). ok xs) same

  -- A file of version 84 that parses is emitted as it was, byte for byte, if its buffer consists of
  -- bytes, its declared length is the buffer's, and `bound_count` lets no count through that
  -- does not fit.
  pub emit_hbc_v84-parse_inner :
      IsBytes buf
      → (parse_inner bound_count buf input_hash).result ≡ ok f
      → version f.header ≡ 84
      → file_length f.header ≡ length buf
      → ((count stride len : ℕ) → bound_count count stride len ≡ true → count * stride ≤ len)
      → emit_hbc_v84 f ≡ ok buf
  emit_hbc_v84-parse_inner b e v n z =
      let (same, p) = own e in
      emit_hbc_v84-eq bound_count f p (subst IsBytes (sym same) b) (n ∙ ap length (sym same)) v z
      ∙ ap (λ (xs : List ℕ). ok xs) same

  -- A file of version 98 that parses is emitted as it was, byte for byte, if its buffer consists of
  -- bytes, its declared length is the buffer's, and no BigInt storage is declared without
  -- BigInts. This holds for both forms.
  pub emit_hbc_v98-parse_inner :
      IsBytes buf
      → (parse_inner bound_count buf input_hash).result ≡ ok f
      → version f.header ≡ 98
      → file_length f.header ≡ length buf
      → (big_int_count f.header ≡ 0 → droidsaw_hermes.Header.big_int_storage_size f.header ≡ 0)
      → emit_hbc_v98 f ≡ ok buf
  emit_hbc_v98-parse_inner b e v n z =
      let (same, p) = own e in
      emit_hbc_v98-eq bound_count f p (subst IsBytes (sym same) b) (n ∙ ap length (sym same)) v z
      ∙ ap (λ (xs : List ℕ). ok xs) same

  -- A file of version 99 that parses is emitted as it was, byte for byte, if its buffer consists of
  -- bytes, its declared length is the buffer's, and no BigInt storage is declared without
  -- BigInts.
  pub emit_hbc_v99-parse_inner :
      IsBytes buf
      → (parse_inner bound_count buf input_hash).result ≡ ok f
      → version f.header ≡ 99
      → file_length f.header ≡ length buf
      → (big_int_count f.header ≡ 0 → droidsaw_hermes.Header.big_int_storage_size f.header ≡ 0)
      → emit_hbc_v99 f ≡ ok buf
  emit_hbc_v99-parse_inner b e v n z =
      let (same, p) = own e in
      emit_hbc_v99-eq bound_count f p (subst IsBytes (sym same) b) (n ∙ ap length (sym same)) v z
      ∙ ap (λ (xs : List ℕ). ok xs) same
