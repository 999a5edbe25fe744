-- ===== src/File/Parsed.antt =====
-- What `parse_inner` of src/parser/mod.rs guarantees of the file it returns.
use Prim.Native.String.{String}
use droidsaw_hermes.Prelude.{ℕ, ◌≤◌, ◌≡◌, refl, subst, Bool, List, [], length, ltb, tests}
use droidsaw_hermes.Errors.{ok, >>=-eq-ok, ok-injective, guard-eq-ok}
use droidsaw_hermes.Header.{
  HbcHeader, string_count, overflow_string_count, debug_info_offset, version,
}
use droidsaw_hermes.Header.Parse.{parse_hbc_header}
use droidsaw_hermes.Header.Parse.Dispatch.{parse_hbc_header-Accepted}
use droidsaw_hermes.Sections.{Walk, walk_sections, start}
use droidsaw_hermes.Sections.Rules.{ensured}
use droidsaw_hermes.Sections.Layout.{Laid, walk_sections-Laid}
use droidsaw_hermes.DebugInfo.{debug_info_v96_parse}
use droidsaw_hermes.File.{HbcFile, parse_inner, parse_sections, check_counts, bytecode_region_of}

-- The file stands for the buffer: its header is the parsed one, its ranges and sections are laid out
-- in the buffer, and the bytecode region begins where the section walk ended.
pub record ParsedFrom (bound_count : ℕ → ℕ → ℕ → Bool) (buf : List ℕ) (f : HbcFile) : Type 0 where
  pub buf_is : f.buf ≡ buf
  pub header_read : (parse_hbc_header buf).result ≡ ok f.header
  pub overflow_le : overflow_string_count f.header ≤ string_count f.header
  pub counts : List ℕ
  pub counted : check_counts bound_count f.header (length buf) ≡ ok counts
  pub walk : Walk
  pub laid : Laid (length buf) f.header f.ranges walk
  pub sections_are : f.sections ≡ walk.sections
  pub region_starts :
      f.bytecode_region ≡ bytecode_region_of buf (debug_info_offset f.header) walk.cursor
  pub debug_read :
      debug_info_v96_parse f.buf (debug_info_offset f.header) (version f.header)
      ≡ ok f.debug_info_v96
  pub all_recognized : f.unrecognized_functions ≡ []

module _ (bound_count : ℕ → ℕ → ℕ → Bool) (buf : List ℕ) (input_hash : String) where
  parse_sections-ParsedFrom :
      (h : HbcHeader) {f : HbcFile}
      → (parse_hbc_header buf).result ≡ ok h
      → 128 ≤ length buf
      → parse_sections bound_count buf input_hash h ≡ ok f
      → ParsedFrom bound_count buf f
  unfolding parse_sections
  parse_sections-ParsedFrom h {f} p big e =
      let (a, e0) = guard-eq-ok (ltb (string_count h) (overflow_string_count h)) _ _ e in
      let (counts, c, e1) = >>=-eq-ok (check_counts bound_count h (length buf)) _ e0 in
      let ((ranges, w), walked, e2) = >>=-eq-ok (walk_sections (length buf) h start) _ e1 in
      let (info, d, e3) =
        >>=-eq-ok (debug_info_v96_parse buf (debug_info_offset h) (version h)) _ e2 in
      subst (ParsedFrom bound_count buf) (ok-injective refl e3) record {
        buf_is = refl;
        header_read = p;
        overflow_le = omega (tests, a);
        counts = counts;
        counted = c;
        walk = w;
        laid = ensured (Laid (length buf) h) (walk_sections-Laid (length buf) h big) walked;
        sections_are = refl;
        region_starts = refl;
        debug_read = d;
        all_recognized = refl;
      }

  -- A file that `parse_inner` returns stands for its buffer: its header is the parsed one, no more
  -- overflow strings than strings are declared, every section lies in the buffer at the next multiple of
  -- four behind the one before, the ranges have the declared sizes and lie in the buffer, the bytecode
  -- region begins where the section walk ended, the debug information is that read from the buffer at
  -- the header's offset, and no function is marked.
  pub parse_inner-ParsedFrom :
      {f : HbcFile}
      → (parse_inner bound_count buf input_hash).result ≡ ok f
      → ParsedFrom bound_count buf f
  unfolding parse_inner
  parse_inner-ParsedFrom e =
      let (h, p, e1) = >>=-eq-ok (parse_hbc_header buf).result _ e in
      parse_sections-ParsedFrom h p (parse_hbc_header-Accepted buf p).long_enough e1
