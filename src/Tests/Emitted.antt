-- ===== src/Tests/Emitted.antt =====
-- Instances of the theorems on whole files.
use droidsaw_hermes.Prelude.{ℕ, ◌*◌, ◌≤◌, ◌≡◌, refl, true, arith}
use droidsaw_hermes.Errors.{ok}
use droidsaw_hermes.Header.{version, file_length, big_int_count}
use droidsaw_hermes.File.Parsed.{ParsedFrom, parse_inner-ParsedFrom}
use droidsaw_hermes.Emit.Files.{emit_hbc, emit_hbc_v84, emit_hbc_v98, emit_hbc_v99}
use droidsaw_hermes.Emit.Identity.{
  emit_hbc-parse_inner, emit_hbc_v84-parse_inner, emit_hbc_v98-parse_inner,
  emit_hbc_v99-parse_inner,
}
use droidsaw_hermes.Tests.Counts.{fits}
use droidsaw_hermes.Tests.OldFiles.{
  v84_source, v84_file, v84_bytes, v84_parsed, v96_source, v96_file, v96_bytes, v96_parsed,
}
use droidsaw_hermes.Tests.NewFiles.{
  v98_source, v98_file, v98_bytes, v98_parsed, v99_source, v99_file, v99_bytes, v99_parsed,
}
use droidsaw_hermes.Header.Parse.{parse_v84_to_86, parse_v87_to_96, parse_v98_late_to_v99}
use droidsaw_hermes.Bytes.{read_u32_le}

fits_le : (count stride len : ℕ) → fits count stride len ≡ true → count * stride ≤ len
fits_le count stride len e = ground arith

parse_inner-ParsedFrom_example : ParsedFrom fits v96_source v96_file
parse_inner-ParsedFrom_example = parse_inner-ParsedFrom fits v96_source "" v96_parsed

emit_hbc-parse_inner_example : emit_hbc v96_file ≡ ok v96_source
unfolding version file_length big_int_count parse_v87_to_96 read_u32_le
emit_hbc-parse_inner_example =
    emit_hbc-parse_inner fits v96_source "" v96_bytes v96_parsed refl refl (λ z. ground arith)

emit_hbc_v84-parse_inner_example : emit_hbc_v84 v84_file ≡ ok v84_source
unfolding version file_length parse_v84_to_86 read_u32_le
emit_hbc_v84-parse_inner_example =
    emit_hbc_v84-parse_inner fits v84_source "" v84_bytes v84_parsed refl refl fits_le

emit_hbc_v98-parse_inner_example : emit_hbc_v98 v98_file ≡ ok v98_source
unfolding version file_length big_int_count parse_v98_late_to_v99 read_u32_le
emit_hbc_v98-parse_inner_example =
    emit_hbc_v98-parse_inner fits v98_source "" v98_bytes v98_parsed refl refl (λ z. ground arith)

emit_hbc_v99-parse_inner_example : emit_hbc_v99 v99_file ≡ ok v99_source
unfolding version file_length big_int_count parse_v98_late_to_v99 read_u32_le
emit_hbc_v99-parse_inner_example =
    emit_hbc_v99-parse_inner fits v99_source "" v99_bytes v99_parsed refl refl (λ z. ground arith)
