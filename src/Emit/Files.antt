-- ===== src/Emit/Files.antt =====
-- The top-level emitters of src/emit.rs: `emit_hbc` for version 96, `emit_hbc_v84`, `emit_hbc_v98` and
-- `emit_hbc_v99`. Their bodies differ in the header, the function headers, and the table that is
-- written after the strings (none, the RegExpTable or the ObjShapeTable); they are stated once.
use Prim.Native.String.{String}
use droidsaw_hermes.Prelude.{
  ℕ, ◌+◌, ◌*◌, ◌^◌, Bool, true, false, List, [], ◌∷◌, ◌++◌, leb, ltb, ◌==◌, ◌||◌, ◌&&◌, not, length,
  if◌then◌else◌,
}
use droidsaw_hermes.Errors.{Result, ok, err, ◌>>=◌}
use droidsaw_hermes.Header.{
  version, func_header_size, function_count, string_count, overflow_string_count, reg_exp_count,
  obj_shape_table_count,
}
use droidsaw_hermes.Header.Parse.{header_size}
use droidsaw_hermes.Sections.{u32_max}
use droidsaw_hermes.File.{HbcFile}
use droidsaw_hermes.Emit.{
  HermesEmitError, size_overflow, offset_overflow, unrepresentable_ir, version_mismatch,
  input_too_short, Writer, run, copy, copy_from, require, require_v98_or_v99,
  reject_if_unrecognized, emit_function_headers_v96, emit_function_headers_v98,
  emit_small_string_table_v96, emit_overflow_string_table_v96, emit_regexp_table_v96,
  emit_obj_shape_table_v98,
}
use droidsaw_hermes.Emit.Headers.{emit_header_v96, emit_header_v84, emit_header_v98}

abbrev pub fits_usize : ℕ → Bool
fits_usize v = ltb v (2 ^ 64)

unfoldable pub section_bytes_usize : String → ℕ → ℕ → Result HermesEmitError ℕ
section_bytes_usize section count stride =
    if fits_usize (count * stride)
    then ok (count * stride)
    else err (size_overflow section count u32_max)

-- A region that is written again; one that is absent ends where the last one did.
pub record Region : Type 0 where
  pub present : Bool
  pub start : ℕ
  pub end : ℕ

abbrev pub checked_end : String → ℕ → ℕ → Result HermesEmitError Region
checked_end context start size =
    if fits_usize (start + size)
    then ok record { present = true; start = start; end = start + size }
    else err (offset_overflow context)

unfoldable pub region : Bool → String → ℕ → ℕ → ℕ → ℕ → Result HermesEmitError Region
region true section start count stride last =
    section_bytes_usize section count stride >>= checked_end section start
region false section start count stride last =
    ok record { present = false; start = start; end = last }

-- The table after the strings.
pub record Extra : Type 0 where
  pub section : String
  pub start : ℕ
  pub count : ℕ
  pub emit : Writer

abbrev pub when : Bool → List Writer → List Writer → List Writer
when true ws rest = ws ++ rest
when false ws rest = rest

-- The layout gate.
abbrev pub consistent : ℕ → Region → Region → Region → Region → Bool
consistent len fh sst ost extra = not (
    ltb fh.start header_size
    || ltb len fh.end
    || ltb sst.start fh.end
    || ltb len sst.end
    || ost.present && (ltb ost.start sst.end || ltb len ost.end)
    || extra.present && (ltb extra.start ost.end || ltb len extra.end))

-- The regions and the gaps between them, in the order of the source.
unfoldable pub stitch :
    HbcFile → Writer → Writer → String → Region → Region → Region → Region → Writer
stitch file functions emit_extra reason fh sst ost extra = run (
    require (consistent (length file.buf) fh sst ost extra) (unrepresentable_ir reason)
    ∷ copy file.buf header_size fh.start
    ∷ functions
    ∷ copy file.buf fh.end sst.start
    ∷ emit_small_string_table_v96 file
    ∷ when ost.present (copy file.buf sst.end ost.start ∷ emit_overflow_string_table_v96 file ∷ [])
        (when extra.present (copy file.buf ost.end extra.start ∷ emit_extra ∷ [])
          (copy_from file.buf extra.end ∷ [])))

-- What follows the header: the ends of the regions, and the stitching.
unfoldable pub emit_body : HbcFile → Writer → Extra → String → Writer
emit_body file functions extra reason out =
    let h = file.header in
    region true "FunctionHeaders" file.ranges.func_headers.offset (function_count h)
      (func_header_size h) 0
    >>= λ fh.
        region true "SmallStringTable" file.ranges.small_string_table.offset (string_count h) 4 0
        >>= λ sst.
            region (ltb 0 (overflow_string_count h)) "OverflowStringTable"
              file.ranges.overflow_string_table.offset (overflow_string_count h) 8 sst.end
            >>= λ ost.
                region (ltb 0 extra.count) extra.section extra.start extra.count 8 ost.end
                >>= λ third. stitch file functions extra.emit reason fh sst ost third out

-- The gates before the header, the header and the body. The declared length is the buffer's.
unfoldable pub emit_file : HbcFile → (List ℕ → ℕ → Writer) → Writer → Extra → String → Writer
emit_file file header functions extra reason =
    let len = length file.buf in
    run (
      reject_if_unrecognized file
      ∷ require (leb header_size len) (input_too_short len)
      ∷ require (leb len u32_max) (size_overflow "file_length" len u32_max)
      ∷ header file.buf len
      ∷ emit_body file functions extra reason
      ∷ [])

abbrev pub gate : HbcFile → ℕ → Writer
gate file expected =
    require (version file.header == expected) (version_mismatch expected (version file.header))

abbrev pub no_extra : Extra
no_extra = record { section = ""; start = 0; count = 0; emit = ok }

unfoldable pub emit_hbc : HbcFile → Result HermesEmitError (List ℕ)
emit_hbc file =
    run
      (gate file 96
        ∷ emit_file file (emit_header_v96 file) (emit_function_headers_v96 file) no_extra
            "section layout inconsistent with buffer"
        ∷ [])
      []

abbrev pub regexp_table_extra : HbcFile → Extra
regexp_table_extra file = record {
  section = "RegExpTable";
  start = file.ranges.regexp_table.offset;
  count = reg_exp_count file.header;
  emit = emit_regexp_table_v96 file;
}

unfoldable pub emit_hbc_v84 : HbcFile → Result HermesEmitError (List ℕ)
emit_hbc_v84 file =
    run
      (gate file 84
        ∷ emit_file file (emit_header_v84 file) (emit_function_headers_v96 file)
            (regexp_table_extra file) "v84 section layout inconsistent with buffer"
        ∷ [])
      []

abbrev pub obj_shape_table_extra : HbcFile → Extra
obj_shape_table_extra file = record {
  section = "ObjShapeTable";
  start = file.ranges.obj_shape_table.offset;
  count = obj_shape_table_count file.header;
  emit = emit_obj_shape_table_v98 file;
}

unfoldable pub emit_hbc_v98_or_v99 : HbcFile → Writer
emit_hbc_v98_or_v99 file = run (
    require_v98_or_v99 file
    ∷ emit_file file (emit_header_v98 file) (emit_function_headers_v98 file)
        (obj_shape_table_extra file) "v98 section layout inconsistent with buffer"
    ∷ [])

unfoldable pub emit_hbc_v98 : HbcFile → Result HermesEmitError (List ℕ)
emit_hbc_v98 file = run (gate file 98 ∷ emit_hbc_v98_or_v99 file ∷ []) []

unfoldable pub emit_hbc_v99 : HbcFile → Result HermesEmitError (List ℕ)
emit_hbc_v99 file = run (gate file 99 ∷ emit_hbc_v98_or_v99 file ∷ []) []
