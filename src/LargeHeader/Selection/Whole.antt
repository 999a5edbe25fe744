-- ===== src/LargeHeader/Selection/Whole.antt =====
-- What `HbcFile::parse` of src/parser/mod.rs guarantees of the file that it returns.
use Prim.Native.String.{String}
use droidsaw_hermes.Prelude.{
  ℕ, ◌<◌, ◌≡◌, ◌^◌, subst, Bool, true, List, some, length, ◌==◌, ◌&&◌, sym,
}
use droidsaw_hermes.Errors.{ok, >>=-eq-ok}
use droidsaw_hermes.Bytes.{IsBytes}
use droidsaw_hermes.Header.{version, function_count}
use droidsaw_hermes.File.{HbcFile, LargeHeaderLayout, parse_inner}
use droidsaw_hermes.File.Parsed.{ParsedFrom, parse_inner-ParsedFrom}
use droidsaw_hermes.Functions.Validate.Valid.{Valid, validate_function_regions-Valid}
use droidsaw_hermes.LargeHeader.Shapes.{HasShape}
use droidsaw_hermes.LargeHeader.Selection.{
  parse, select_v98_large_header_layout, scored_off, is_late,
}
use droidsaw_hermes.LargeHeader.Selection.Coherent.{select_v98_large_header_layout-HasShape}

-- The stages of a parse: a file that stands for the buffer, the choice of its layout, and the marks.
pub record Stages (bound_count : ℕ → ℕ → ℕ → Bool) (buf : List ℕ) (out : HbcFile) : Type 0 where
  pub raw : HbcFile
  pub parsed : ParsedFrom bound_count buf raw
  pub valid : Valid (select_v98_large_header_layout raw) out
  pub shaped :
      (shape : LargeHeaderLayout)
      → (is_late raw.header && version raw.header == 98) ≡ true
      → (select_v98_large_header_layout raw).large_header_layout ≡ some shape
      → (i large_off : ℕ) → i < function_count raw.header
      → scored_off raw i ≡ some large_off
      → HasShape raw.buf large_off shape

-- A file that is parsed from a buffer of bytes, shorter than 2 ^ 63, comes from one that stands for the
-- buffer, by the choice of a layout and by marks. When a layout is chosen for a late file of version 98,
-- each large header of an overflowed function that lies in the file, clear of what the emitters write
-- anew, has its shape. Each function without a mark is read, has its exception table clear of what is
-- written anew, its body in the region of the bytecode unless it is empty, and its handlers in its body;
-- and two such functions that are not empty share a body, or one ends before the other one starts.
pub parse-Stages :
    (bound_count : ℕ → ℕ → ℕ → Bool) (buf : List ℕ) (input_hash : String) (out : HbcFile)
    → IsBytes buf
    → length buf < 2 ^ 63
    → parse bound_count buf input_hash ≡ ok out
    → Stages bound_count buf out
unfolding parse
parse-Stages bound_count buf input_hash out bytes short h =
    let (raw, read, checked) = >>=-eq-ok (parse_inner bound_count buf input_hash).result _ h in
    let from = parse_inner-ParsedFrom bound_count buf input_hash read in
    record {
      raw = raw;
      parsed = from;
      valid = validate_function_regions-Valid (select_v98_large_header_layout raw) out checked;
      shaped =
          select_v98_large_header_layout-HasShape raw (subst IsBytes (sym from.buf_is) bytes)
            (subst (λ (b : List ℕ). length b < 2 ^ 63) (sym from.buf_is) short);
    }
